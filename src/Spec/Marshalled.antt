-- ===== src/Spec/Marshalled.antt =====
-- MarshalClientHelloNoECH followed by FromRaw.
use utls.Base.{ℕ, ◌≤◌, ◌<◌, Bool, List, Option, Bytes, length, All, ◌≡◌, ok}
use utls.Cryptobyte.{Reader}
use utls.Extension.{Extension}
use utls.Extension.Read.Correct.{IsEncodable}
use utls.Extension.Write.Captures.{IsCaptured}
use utls.ClientHello.{Hello, raw, marshal_client_hello_no_ech}
use utls.ClientHello.Layout.{encodings, client_hello}
use utls.ClientHello.Padded.{paddings, padded, marshal-client_hello}
use utls.Spec.{parsed}
use utls.Spec.Raw.{from_raw}
use utls.Spec.RoundTrip.{IsHello, handshake_record, spec_of, from_raw-client_hello}

-- A hello whose fields fit their lengths, with at most one padding extension and with extensions that
-- are encodable and, the padding brought up to date, captured: MarshalClientHelloNoECH returns bytes,
-- and FromRaw takes a handshake record of them, for all flags, to the spec of that hello. The padding
-- extension of the spec is set to bring a hello to the length of these bytes.
pub from_raw-marshal :
    (c : Reader) (random : ℕ → Option Bytes) (ip : Bytes → Bool) (spare : ℕ → ℕ) (flags : List Bool)
    (version : ℕ) (h : Hello) (es : List Extension)
    → version < 65536
    → IsHello h
    → All IsEncodable es
    → paddings es ≤ 1
    → All (IsCaptured ip) (padded ip h es)
    → length (encodings ip (padded ip h es)) < 65536
    → (m : Bytes) × (marshal_client_hello_no_ech ip spare h es ≡ ok (raw m (padded ip h es)))
      × (from_raw c random flags (handshake_record version m)
          ≡ parsed (spec_of c version h (padded ip h es) (length m)))
from_raw-marshal c random ip spare flags version h es small good encodable few all fits = (
  client_hello ip h (padded ip h es),
  marshal-client_hello ip spare h es good.1 encodable few,
  from_raw-client_hello c random ip flags version h (padded ip h es) small good all fits,
)
