-- ===== src/Messages/RoundTrip.antt =====
-- Marshal and then unmarshal, for the messages that are written with a Builder.
use utls.Base.{◌+◌, ◌^◌, ◌≤◌, ◌<◌, Bool, false, none, some, [], Bytes, length, ◌≡◌, arith}
use utls.Cryptobyte.{Reader}
use utls.Cryptobyte.Builder.{Builder}
use utls.Cryptobyte.Loops.{done}
use utls.Messages.{
  SessionTicket, CertificateVerify, key_update_marshal, session_ticket_marshal,
  certificate_status_marshal, finished_marshal, certificate_verify_marshal, key_update_unmarshal,
  session_ticket_unmarshal, certificate_status_unmarshal, finished_unmarshal,
  certificate_verify_unmarshal,
}
use utls.Messages.Built.{
  IsTicket, finished_wire, key_update_wire, certificate_status_wire, certificate_verify_wire,
  session_ticket_marshal-wire, message_long,
}
use utls.Messages.Reads.{
  finished_read, key_update_read, certificate_status_read, certificate_verify_read,
  session_ticket_read,
}

module _ (w : Builder) (c : Reader) where
  -- A TLS 1.3 session ticket whose fields fit their lengths is marshalled without an error, and unmarshal
  -- takes the bytes back to the same ticket, whether it allows early data or not.
  pub session_ticket_round_trip :
      (t : SessionTicket)
      → IsTicket t
      → (m : Bytes) × (session_ticket_marshal w t ≡ some m)
        × (session_ticket_unmarshal c m ≡ done t)
  session_ticket_round_trip t h =
      (_, session_ticket_marshal-wire w t h, session_ticket_read c t w h)

  -- A certificate verify message whose algorithm and signature fit their fields, and without an algorithm if
  -- it is said to have none, is marshalled without an error, and unmarshal of a message that has an algorithm
  -- or not as this one takes the bytes back to it.
  pub certificate_verify_round_trip :
      (v : CertificateVerify)
      → v.signature_algorithm < 65536
      → length v.signature < 65536
      → (v.has_signature_algorithm ≡ false → v.signature_algorithm ≡ 0)
      → (m : Bytes) × (certificate_verify_marshal w v ≡ some m)
        × (certificate_verify_unmarshal c v.has_signature_algorithm m ≡ some v)
  certificate_verify_round_trip v small fits unset =
      (_, certificate_verify_wire w v small fits, certificate_verify_read c v small fits unset)

  -- A finished message of less than 2^24 bytes, a key update, and a certificate status whose response is not
  -- empty and fits the message are each marshalled without an error and unmarshalled to what they were. A
  -- finished message of 2^24 bytes or more is an error.
  pub short_messages_round_trip :
      (v r : Bytes) (u : Bool)
      → 0 < length r
      → 4 + length r < 2 ^ 24
      → (length v < 2 ^ 24
          → (m : Bytes) × (finished_marshal w v ≡ some m) × (finished_unmarshal c m ≡ some v))
        × (2 ^ 24 ≤ length v → finished_marshal w v ≡ none)
        × ((m : Bytes) × (key_update_marshal w u ≡ some m) × (key_update_unmarshal c m ≡ some u))
        × ((m : Bytes) × (certificate_status_marshal w r ≡ some m)
            × (certificate_status_unmarshal c m ≡ some r))
  unfolding finished_marshal
  short_messages_round_trip v r u some_bytes fits = (
    λ small. (_, finished_wire w v small, finished_read c v small),
    λ long.
        message_long w 20 (λ b. w.add_bytes v b) v (w.add_bytes_lem v w.empty [] w.empty_lem) long,
    (_, key_update_wire w u, key_update_read c u),
    (_, certificate_status_wire w r fits, certificate_status_read c r some_bytes (omega arith)),
  )
