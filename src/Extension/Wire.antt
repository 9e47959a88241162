-- ===== src/Extension/Wire.antt =====
-- The TLS presentation language, as far as the extensions use it: numbers of two bytes, vectors with
-- a length of one or two bytes, and the frame of an extension. This is what Read is compared with.
use utls.Base.{
  ℕ, ◌*◌, ◌/◌, ◌%◌, List, [], ◌∷◌, ◌++◌, Bytes, length, ◌≡◌, arith, replicate, none, some,
  if◌then◌else◌,
}
use utls.Extension.{
  KeyShare, TrustAnchors, Extension, sni, status_request, supported_curves, supported_points,
  signature_algorithms, status_request_v2, signature_algorithms_cert, alpn, application_settings,
  application_settings_new, sct, generic, extended_master_secret, grease, padding, compress_cert,
  key_share, psk_key_exchange_modes, supported_versions, cookie, npn, renegotiation_info,
  fake_channel_id, fake_record_size_limit, fake_token_binding, fake_delegated_credentials,
  fake_early_data, trust_anchors,
}

abbrev pub hi : ℕ → ℕ
hi x = x / 256 % 256

abbrev pub lo : ℕ → ℕ
lo x = x % 256

abbrev pub u16 : ℕ → Bytes
u16 x = hi x ∷ lo x ∷ []

abbrev pub u16s : List ℕ → Bytes
u16s [] = []
u16s (x ∷ xs) = hi x ∷ lo x ∷ u16s xs

-- opaque<0..2^8-1> and opaque<0..2^16-1>
abbrev pub vec8 : Bytes → Bytes
vec8 v = lo (length v) ∷ v

abbrev pub vec16 : Bytes → Bytes
vec16 v = hi (length v) ∷ lo (length v) ∷ v

abbrev pub vec8s : List Bytes → Bytes
vec8s [] = []
vec8s (s ∷ ss) = lo (length s) ∷ (s ++ vec8s ss)

abbrev pub shares : List KeyShare → Bytes
shares [] = []
shares (k ∷ ks) =
    hi k.group ∷ lo k.group ∷ hi (length k.key) ∷ lo (length k.key) ∷ (k.key ++ shares ks)

abbrev pub framed : ℕ → Bytes → Bytes
framed id body = hi id ∷ lo id ∷ vec16 body

-- TrustAnchorsExtension.list
abbrev pub anchor_list : TrustAnchors → List Bytes
anchor_list t = elim t.emit_order [ none ↦ t.trust_anchors | some order ↦ order ]

-- server_name with one name of type host_name, or nothing.
abbrev pub sni_wire : Bytes → Bytes
sni_wire [] = []
sni_wire (c ∷ cs) = framed 0 (vec16 (0 ∷ vec16 (c ∷ cs)))

-- The extension on the wire, with the host name that an SNI extension stands for. An SNI extension
-- with no host name and a padding extension that will not pad are left out.
abbrev pub encoding : Bytes → Extension → Bytes
encoding host (sni name) = sni_wire host
encoding host status_request = framed 5 (1 ∷ 0 ∷ 0 ∷ 0 ∷ 0 ∷ [])
encoding host (supported_curves xs) = framed 10 (vec16 (u16s xs))
encoding host (supported_points ps) = framed 11 (vec8 ps)
encoding host (signature_algorithms xs) = framed 13 (vec16 (u16s xs))
encoding host status_request_v2 = framed 17 (0 ∷ 7 ∷ 2 ∷ 0 ∷ 4 ∷ 0 ∷ 0 ∷ 0 ∷ 0 ∷ [])
encoding host (signature_algorithms_cert xs) = framed 50 (vec16 (u16s xs))
encoding host (alpn ps) = framed 16 (vec16 (vec8s ps))
encoding host (application_settings ps) = framed 17513 (vec16 (vec8s ps))
encoding host (application_settings_new ps) = framed 17613 (vec16 (vec8s ps))
encoding host sct = framed 18 []
encoding host (generic id body) = framed id body
encoding host extended_master_secret = framed 23 []
encoding host (grease id body) = framed id body
encoding host (padding p) = if p.will_pad then framed 21 (replicate p.padding_len 0) else []
encoding host (compress_cert xs) = framed 27 (vec8 (u16s xs))
encoding host (key_share ks) = framed 51 (vec16 (shares ks))
encoding host (psk_key_exchange_modes ms) = framed 45 (vec8 ms)
encoding host (supported_versions xs) = framed 43 (vec8 (u16s xs))
encoding host (cookie c) = framed 44 (vec16 c)
encoding host (npn ps) = framed 13172 []
encoding host (renegotiation_info r c) = framed 0xff01 (vec8 c)
encoding host (fake_channel_id old) = framed (if old then 30031 else 30032) []
encoding host (fake_record_size_limit l) = framed 28 (u16 l)
encoding host (fake_token_binding major minor ps) = framed 24 (major ∷ minor ∷ vec8 ps)
encoding host (fake_delegated_credentials xs) = framed 34 (vec16 (u16s xs))
encoding host fake_early_data = framed 42 []
encoding host (trust_anchors t) = framed 0xca34 (vec16 (vec8s (anchor_list t)))

pub length-u16s : (xs : List ℕ) → length (u16s xs) ≡ 2 * length xs
length-u16s [] = omega arith
length-u16s (x ∷ xs) = omega (arith, length-u16s xs)
