-- ===== src/Tests/Spec.antt =====
-- A hello that is marshalled and read back, and extensions read by themselves.
use utls.Base.{
  ℕ, ◌<◌, Bool, true, false, List, [], ◌∷◌, ◌++◌, Option, none, some, Bytes, length, replicate, All,
  ◌≡◌, ◌≢◌, refl, ok, arith,
}
use utls.Cryptobyte.Loops.{done}
use utls.Extension.{
  Extension, alpn, supported_versions, supported_curves, padding, extended_master_secret, grease,
  key_share, generic,
}
use utls.Extension.Padding.{update, always_pad_to_len}
use utls.Extension.Wire.{vec16, vec8s, framed}
use utls.Grease.{is_grease_uint16}
use utls.Extension.Read.{len}
use utls.Extension.Write.{write, extension_from_id, first_match, unknown}
use utls.Extension.Write.Captures.{IsCaptured}
use utls.Extension.Write.Ends.{write-ends}
use utls.Extension.Write.Parts.{stuck}
use utls.ClientHello.{Hello, raw, marshal_client_hello_no_ech}
use utls.ClientHello.Layout.{encodings}
use utls.ClientHello.Padded.{padded}
use utls.Session.State.{PskIdentity}
use utls.Session.Psk.Wire.{identities_wire}
use utls.Spec.{
  SpecExtension, plain, real_psk, new_spec, parsed, rejected, unended, unsupported_extension,
  append_extension, read_tls_extensions,
}
use utls.Spec.Ends.{from_raw-ends}
use utls.Spec.Marshalled.{from_raw-marshal}
use utls.Spec.Others.{fake_psk_write}
use utls.Spec.Others.RoundTrip.{fake_psk_write-wire}
use utls.Spec.Raw.{from_raw}
use utls.Spec.Refuses.{read_tls_extensions-unknown}
use utls.Spec.RoundTrip.{handshake_record, spec_of, extended}
use utls.Tests.Reader.{reader}

abbrev no_random : ℕ → Option Bytes
no_random n = none

abbrev not_ip : Bytes → Bool
not_ip name = false

abbrev spare_room : ℕ → ℕ
spare_room held = 512

abbrev small_hello : Hello
small_hello = record {
  vers = 0x0303;
  random = replicate 32 7;
  session_id = 1 ∷ 2 ∷ [];
  cipher_suites = 0x2a2a ∷ 0x1301 ∷ [];
  compression_methods = 0 ∷ [];
}

abbrev shown : List Extension
shown =
    grease 0x3a3a []
    ∷ supported_curves (0x4a4a ∷ 29 ∷ [])
    ∷ key_share (record { group = 29; key = 5 ∷ 6 ∷ [] } ∷ [])
    ∷ supported_versions (0x0304 ∷ 0x0303 ∷ [])
    ∷ alpn ((0x68 ∷ 0x32 ∷ []) ∷ [])
    ∷ padding (record {
      padding_len = 0;
      will_pad = false;
      get_padding_len = some (always_pad_to_len 200);
    })
    ∷ []

shown-IsCaptured : All (IsCaptured not_ip) (padded not_ip small_hello shown)
unfolding is_grease_uint16 update always_pad_to_len len
shown-IsCaptured = (
  (refl, omega arith, omega arith),
  (
    (omega arith, (omega arith, (omega arith, tt)), omega arith),
    (
      (((omega arith, omega arith, omega arith), tt), omega arith),
      (
        (omega arith, (omega arith, (omega arith, tt)), omega arith),
        ((omega arith, ((omega arith, omega arith), tt), omega arith), ((refl, omega arith), tt)),
      ),
    ),
  ),
)

shown_fits : length (encodings not_ip (padded not_ip small_hello shown)) < 65536
unfolding update always_pad_to_len len
shown_fits = omega arith

unknown_id : extension_from_id 100 ≡ unknown
unfolding extension_from_id first_match is_grease_uint16
unknown_id = refl

from_raw-marshal_example :
    (m : Bytes) × (marshal_client_hello_no_ech not_ip spare_room small_hello shown
      ≡ ok (raw m (padded not_ip small_hello shown)))
    × (from_raw reader no_random [] (handshake_record 0x0301 m)
        ≡ parsed (spec_of reader 0x0301 small_hello (padded not_ip small_hello shown) (length m)))
from_raw-marshal_example =
    from_raw-marshal reader no_random not_ip spare_room [] 0x0301 small_hello shown (omega arith)
      (omega arith, refl, omega arith, (omega arith, (omega arith, tt)), omega arith, omega arith)
      (tt, (tt, (tt, (omega arith, (tt, (tt, tt)))))) (omega arith) shown-IsCaptured shown_fits

from_raw-ends_example :
    from_raw reader no_random (true ∷ true ∷ []) (22 ∷ 3 ∷ 1 ∷ 0 ∷ 9 ∷ []) ≢ unended
from_raw-ends_example = from_raw-ends reader no_random (true ∷ true ∷ []) (22 ∷ 3 ∷ 1 ∷ 0 ∷ 9 ∷ [])

write-ends_example : write reader (alpn []) (0 ∷ 3 ∷ 2 ∷ 0x68 ∷ 0x32 ∷ []) ≢ stuck
write-ends_example = write-ends reader (alpn []) (0 ∷ 3 ∷ 2 ∷ 0x68 ∷ 0x32 ∷ [])

abbrev one_identity : List PskIdentity
one_identity = record { label = 9 ∷ 8 ∷ []; obfuscated_ticket_age = 70000 } ∷ []

fake_psk_write-wire_example :
    fake_psk_write reader
      (vec16 (identities_wire one_identity) ++ vec16 (vec8s ((1 ∷ 2 ∷ []) ∷ [])))
    ≡ done (one_identity, (1 ∷ 2 ∷ []) ∷ [])
fake_psk_write-wire_example =
    fake_psk_write-wire reader one_identity ((1 ∷ 2 ∷ []) ∷ []) ((omega arith, omega arith), tt)
      (omega arith, tt) (omega arith) (omega arith)

abbrev with_key : List SpecExtension
with_key = plain extended_master_secret ∷ real_psk ∷ []

read_tls_extensions-unknown_example :
    (read_tls_extensions reader no_random false true
        (encodings not_ip (extended_master_secret ∷ []) ++ (framed 100 (1 ∷ []) ++ 255 ∷ []))
        new_spec
      ≡ rejected
          (unsupported_extension 100)
          (extended reader (extended_master_secret ∷ []) new_spec))
    × (read_tls_extensions reader no_random true true
          (encodings not_ip (extended_master_secret ∷ [])
            ++ (framed 100 (1 ∷ []) ++ encodings not_ip (alpn ((0x68 ∷ []) ∷ []) ∷ [])))
          new_spec
        ≡ parsed (
            extended reader (alpn ((0x68 ∷ []) ∷ []) ∷ []) (
              append_extension
                (plain (generic 100 (1 ∷ [])))
                (extended reader (extended_master_secret ∷ []) new_spec))))
read_tls_extensions-unknown_example =
    read_tls_extensions-unknown reader no_random not_ip true (extended_master_secret ∷ [])
      (alpn ((0x68 ∷ []) ∷ []) ∷ []) 100 (1 ∷ []) (255 ∷ []) new_spec (tt, tt)
      ((omega arith, ((omega arith, omega arith), tt), omega arith), tt) (omega arith) (omega arith)
      unknown_id
