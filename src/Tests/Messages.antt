-- ===== src/Tests/Messages.antt =====
-- Messages that are written and read back.
use utls.Base.{◌^◌, ◌≤◌, ◌<◌, true, List, [], ◌∷◌, none, some, Bytes, length, ok, ◌≡◌, ◌≢◌, arith}
use utls.Cryptobyte.Loops.{done, out_of_fuel}
use utls.Messages.{
  SessionTicket, CertificateVerify, key_update_marshal, session_ticket_marshal,
  certificate_status_marshal, finished_marshal, key_update_unmarshal, session_ticket_unmarshal,
  certificate_status_unmarshal, finished_unmarshal,
}
use utls.Messages.Plain.{certificate_marshal, certificate_unmarshal}
use utls.Messages.Plain.RoundTrip.{certificate_round_trip}
use utls.Messages.RoundTrip.{session_ticket_round_trip, short_messages_round_trip}
use utls.Messages.Ends.{unmarshal-ends}
use utls.Tests.Builder.{builder}
use utls.Tests.Reader.{reader}

abbrev day_ticket : SessionTicket
day_ticket = record {
  lifetime = 86400;
  age_add = 77;
  nonce = 0 ∷ [];
  label = 1 ∷ 2 ∷ 3 ∷ [];
  max_early_data = 16384;
}

session_ticket_round_trip_example :
    (m : Bytes) × (session_ticket_marshal builder day_ticket ≡ some m)
    × (session_ticket_unmarshal reader m ≡ done day_ticket)
session_ticket_round_trip_example =
    session_ticket_round_trip builder reader day_ticket
      (omega arith, omega arith, omega arith, omega arith, omega arith)

abbrev signed : CertificateVerify
signed = record {
  has_signature_algorithm = true;
  signature_algorithm = 0x0804;
  signature = 4 ∷ 5 ∷ [];
}

abbrev verify_data : Bytes
verify_data = 8 ∷ 9 ∷ []

short_messages_round_trip_example :
    (length verify_data < 2 ^ 24
      → (m : Bytes) × (finished_marshal builder verify_data ≡ some m)
        × (finished_unmarshal reader m ≡ some verify_data))
    × (2 ^ 24 ≤ length verify_data → finished_marshal builder verify_data ≡ none)
    × ((m : Bytes) × (key_update_marshal builder true ≡ some m)
        × (key_update_unmarshal reader m ≡ some true))
    × ((m : Bytes) × (certificate_status_marshal builder (6 ∷ []) ≡ some m)
        × (certificate_status_unmarshal reader m ≡ some (6 ∷ [])))
short_messages_round_trip_example =
    short_messages_round_trip builder reader verify_data (6 ∷ []) true (omega arith) (omega arith)

abbrev chain : List Bytes
chain = (1 ∷ 2 ∷ []) ∷ [] ∷ (3 ∷ []) ∷ []

certificate_round_trip_example :
    (m : Bytes) × (certificate_marshal chain ≡ ok m) × (certificate_unmarshal m ≡ done chain)
certificate_round_trip_example = certificate_round_trip chain (omega arith) (omega arith)

unmarshal-ends_example :
    (certificate_unmarshal (11 ∷ 0 ∷ 0 ∷ 9 ∷ []) ≢ out_of_fuel)
    × (session_ticket_unmarshal reader (11 ∷ 0 ∷ 0 ∷ 9 ∷ []) ≢ out_of_fuel)
unmarshal-ends_example = unmarshal-ends reader (11 ∷ 0 ∷ 0 ∷ 9 ∷ [])
