-- ===== src/Extension/Exact.antt =====
-- The extensions on the wire with lengths that are written as they are, where those of Wire keep the bytes that
-- a length field has room for. A length above its field gives a number that is no byte here.
pub mod Lengths
use utls.Base.{ℕ, ◌/◌, ◌%◌, ◌<◌, List, [], ◌∷◌, ◌++◌, Bytes, All, length, replicate, if◌then◌else◌}
use utls.Extension.{
  KeyShare, Extension, sni, status_request, supported_curves, supported_points,
  signature_algorithms, status_request_v2, signature_algorithms_cert, alpn, application_settings,
  application_settings_new, sct, generic, extended_master_secret, grease, padding, compress_cert,
  key_share, psk_key_exchange_modes, supported_versions, cookie, npn, renegotiation_info,
  fake_channel_id, fake_record_size_limit, fake_token_binding, fake_delegated_credentials,
  fake_early_data, trust_anchors,
}
use utls.Extension.Wire.{hi, lo, u16s, anchor_list}
use utls.Extension.Write.Lists.{IsU16}

abbrev pub exact8 : Bytes → Bytes
exact8 v = length v ∷ v

abbrev pub exact16 : Bytes → Bytes
exact16 v = length v / 256 ∷ length v % 256 ∷ v

abbrev pub exact8s : List Bytes → Bytes
exact8s [] = []
exact8s (s ∷ ss) = exact8 s ++ exact8s ss

abbrev pub exact_shares : List KeyShare → Bytes
exact_shares [] = []
exact_shares (k ∷ ks) = hi k.group ∷ lo k.group ∷ (exact16 k.key ++ exact_shares ks)

abbrev pub exact_framed : ℕ → Bytes → Bytes
exact_framed id body = hi id ∷ lo id ∷ exact16 body

abbrev pub exact_sni : Bytes → Bytes
exact_sni [] = []
exact_sni (c ∷ cs) = exact_framed 0 (exact16 (0 ∷ exact16 (c ∷ cs)))

abbrev pub exact_encoding : Bytes → Extension → Bytes
exact_encoding host (sni name) = exact_sni host
exact_encoding host status_request = exact_framed 5 (1 ∷ 0 ∷ 0 ∷ 0 ∷ 0 ∷ [])
exact_encoding host (supported_curves xs) = exact_framed 10 (exact16 (u16s xs))
exact_encoding host (supported_points ps) = exact_framed 11 (exact8 ps)
exact_encoding host (signature_algorithms xs) = exact_framed 13 (exact16 (u16s xs))
exact_encoding host status_request_v2 = exact_framed 17 (0 ∷ 7 ∷ 2 ∷ 0 ∷ 4 ∷ 0 ∷ 0 ∷ 0 ∷ 0 ∷ [])
exact_encoding host (signature_algorithms_cert xs) = exact_framed 50 (exact16 (u16s xs))
exact_encoding host (alpn ps) = exact_framed 16 (exact16 (exact8s ps))
exact_encoding host (application_settings ps) = exact_framed 17513 (exact16 (exact8s ps))
exact_encoding host (application_settings_new ps) = exact_framed 17613 (exact16 (exact8s ps))
exact_encoding host sct = exact_framed 18 []
exact_encoding host (generic id body) = exact_framed id body
exact_encoding host extended_master_secret = exact_framed 23 []
exact_encoding host (grease id body) = exact_framed id body
exact_encoding host (padding p) =
    if p.will_pad then exact_framed 21 (replicate p.padding_len 0) else []
exact_encoding host (compress_cert xs) = exact_framed 27 (exact8 (u16s xs))
exact_encoding host (key_share ks) = exact_framed 51 (exact16 (exact_shares ks))
exact_encoding host (psk_key_exchange_modes ms) = exact_framed 45 (exact8 ms)
exact_encoding host (supported_versions xs) = exact_framed 43 (exact8 (u16s xs))
exact_encoding host (cookie c) = exact_framed 44 (exact16 c)
exact_encoding host (npn ps) = exact_framed 13172 []
exact_encoding host (renegotiation_info r c) = exact_framed 0xff01 (exact8 c)
exact_encoding host (fake_channel_id old) = exact_framed (if old then 30031 else 30032) []
exact_encoding host (fake_record_size_limit l) = exact_framed 28 (hi l ∷ lo l ∷ [])
exact_encoding host (fake_token_binding major minor ps) =
    exact_framed 24 (major ∷ minor ∷ exact8 ps)
exact_encoding host (fake_delegated_credentials xs) = exact_framed 34 (exact16 (u16s xs))
exact_encoding host fake_early_data = exact_framed 42 []
exact_encoding host (trust_anchors t) = exact_framed 0xca34 (exact16 (exact8s (anchor_list t)))

abbrev pub Is8 : Bytes → Type 0
Is8 v = length v < 256

-- The numbers have the width of their fields, and what has a length of one byte fits it.
abbrev pub IsSized : Extension → Type 0
IsSized (supported_curves xs) = All IsU16 xs
IsSized (supported_points ps) = Is8 ps
IsSized (signature_algorithms xs) = All IsU16 xs
IsSized (signature_algorithms_cert xs) = All IsU16 xs
IsSized (alpn ps) = All Is8 ps
IsSized (application_settings ps) = All Is8 ps
IsSized (application_settings_new ps) = All Is8 ps
IsSized (generic id body) = IsU16 id
IsSized (grease id body) = IsU16 id
IsSized (compress_cert xs) = All IsU16 xs
IsSized (key_share ks) = All (λ k. IsU16 k.group) ks
IsSized (supported_versions xs) = All IsU16 xs
IsSized (renegotiation_info r c) = Is8 c
IsSized (fake_record_size_limit l) = IsU16 l
IsSized (fake_token_binding major minor ps) = (major < 256) × (minor < 256) × Is8 ps
IsSized (fake_delegated_credentials xs) = All IsU16 xs
IsSized (trust_anchors t) = All Is8 (anchor_list t)
IsSized _ = Unit
