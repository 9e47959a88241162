-- ===== src/Extension/Exact/Lengths.antt =====
-- What fits its length fields is written on the wire with its lengths as they are.
use mathlib.Core.Path.{ap₂}
use utls.Base.{
  ℕ, ◌/◌, ◌%◌, ◌<◌, Bool, true, false, List, [], ◌∷◌, ◌++◌, Bytes, All, length, length-append,
  replicate, if◌then◌else◌, ◌≡◌, refl, ap, ◌∙◌, arith,
}
use utls.Extension.{
  KeyShare, Extension, sni, status_request, supported_curves, supported_points,
  signature_algorithms, status_request_v2, signature_algorithms_cert, alpn, application_settings,
  application_settings_new, sct, generic, extended_master_secret, grease, padding, compress_cert,
  key_share, psk_key_exchange_modes, supported_versions, cookie, npn, renegotiation_info,
  fake_channel_id, fake_record_size_limit, fake_token_binding, fake_delegated_credentials,
  fake_early_data, trust_anchors,
}
use utls.Extension.Wire.{
  hi, lo, u16s, vec8, vec16, vec8s, shares, framed, anchor_list, sni_wire, encoding, length-u16s,
}
use utls.Extension.Read.Correct.{IsEncodable}
use utls.Extension.Exact.{
  exact8, exact16, exact8s, exact_shares, exact_framed, exact_sni, exact_encoding, Is8, IsSized,
}

kept : (n : ℕ) → n < 256 → n % 256 ≡ n
kept n h = omega arith

pub vec8-exact : (v : Bytes) → Is8 v → vec8 v ≡ exact8 v
vec8-exact v h = ap (λ n. n ∷ v) (kept (length v) h)

pub vec16-exact : (v : Bytes) → length v < 65536 → vec16 v ≡ exact16 v
vec16-exact v h = ap (λ n. n ∷ length v % 256 ∷ v) (kept (length v / 256) (omega arith))

pub vec8s-exact : (ss : List Bytes) → All Is8 ss → vec8s ss ≡ exact8s ss
vec8s-exact [] h = refl
vec8s-exact (s ∷ ss) h = ap₂ ◌++◌ (vec8-exact s h.0) (vec8s-exact ss h.1)

shares-exact : (ks : List KeyShare) → length (shares ks) < 65536 → shares ks ≡ exact_shares ks
shares-exact [] h = refl
shares-exact (k ∷ ks) h =
    let sum = length-append k.key (shares ks) in
    ap₂ (λ a b. hi k.group ∷ lo k.group ∷ (a ++ b)) (vec16-exact k.key (omega arith))
      (shares-exact ks (omega arith))

pub framed-exact :
    (id : ℕ) (body body' : Bytes)
    → body ≡ body'
    → length body < 65536
    → framed id body ≡ exact_framed id body'
framed-exact id body body' same h =
    ap (λ t. hi id ∷ lo id ∷ t) (vec16-exact body h ∙ ap exact16 same)

framed-vec16 :
    (id : ℕ) (v v' : Bytes)
    → v ≡ v'
    → length (framed id (vec16 v)) < 65536
    → framed id (vec16 v) ≡ exact_framed id (exact16 v')
framed-vec16 id v v' same h =
    framed-exact id (vec16 v) (exact16 v') (vec16-exact v (omega arith) ∙ ap exact16 same)
      (omega arith)

framed-vec8 : (id : ℕ) (v : Bytes) → Is8 v → framed id (vec8 v) ≡ exact_framed id (exact8 v)
framed-vec8 id v h = framed-exact id (vec8 v) (exact8 v) (vec8-exact v h) (omega arith)

sni-exact : (host : Bytes) → length (sni_wire host) < 65536 → sni_wire host ≡ exact_sni host
sni-exact [] h = refl
sni-exact (c ∷ cs) h =
    framed-vec16 0 (0 ∷ vec16 (c ∷ cs)) (0 ∷ exact16 (c ∷ cs))
      (ap (λ t. 0 ∷ t) (vec16-exact (c ∷ cs) (omega arith))) h

padding-exact :
    (pads : Bool) (n : ℕ)
    → length (if pads then framed 21 (replicate n 0) else []) < 65536
    → (if pads then framed 21 (replicate n 0) else [])
      ≡ (if pads then exact_framed 21 (replicate n 0) else [])
padding-exact false n h = refl
padding-exact true n h = framed-exact 21 (replicate n 0) (replicate n 0) refl (omega arith)

-- What fits its length fields is written with its lengths as they are.
pub encoding-exact :
    (host : Bytes) (e : Extension)
    → IsEncodable e
    → IsSized e
    → length (encoding host e) < 65536
    → encoding host e ≡ exact_encoding host e
encoding-exact host (sni name) f s h = sni-exact host h
encoding-exact host status_request f s h = refl
encoding-exact host (supported_curves xs) f s h = framed-vec16 10 _ _ refl h
encoding-exact host (supported_points ps) f s h = framed-vec8 11 ps s
encoding-exact host (signature_algorithms xs) f s h = framed-vec16 13 _ _ refl h
encoding-exact host status_request_v2 f s h = refl
encoding-exact host (signature_algorithms_cert xs) f s h = framed-vec16 50 _ _ refl h
encoding-exact host (alpn ps) f s h = framed-vec16 16 _ _ (vec8s-exact ps s) h
encoding-exact host (application_settings ps) f s h = framed-vec16 17513 _ _ (vec8s-exact ps s) h
encoding-exact host (application_settings_new ps) f s h =
    framed-vec16 17613 _ _ (vec8s-exact ps s) h
encoding-exact host sct f s h = refl
encoding-exact host (generic id body) f s h = framed-exact id body body refl (omega arith)
encoding-exact host extended_master_secret f s h = refl
encoding-exact host (grease id body) f s h = framed-exact id body body refl (omega arith)
encoding-exact host (padding p) f s h = padding-exact p.will_pad p.padding_len h
encoding-exact host (compress_cert xs) f s h =
    framed-vec8 27 (u16s xs) (let n = length-u16s xs in omega arith)
encoding-exact host (key_share ks) f s h = framed-vec16 51 _ _ (shares-exact ks (omega arith)) h
encoding-exact host (psk_key_exchange_modes ms) f s h = framed-vec8 45 ms (omega arith)
encoding-exact host (supported_versions xs) f s h =
    framed-vec8 43 (u16s xs) (let n = length-u16s xs in omega arith)
encoding-exact host (cookie c) f s h = framed-vec16 44 _ _ refl h
encoding-exact host (npn ps) f s h = refl
encoding-exact host (renegotiation_info r c) f s h = framed-vec8 0xff01 c s
encoding-exact host (fake_channel_id old) f s h = refl
encoding-exact host (fake_record_size_limit l) f s h = refl
encoding-exact host (fake_token_binding major minor ps) f s h =
    framed-exact 24 _ _ (ap (λ t. major ∷ minor ∷ t) (vec8-exact ps s.2)) (omega arith)
encoding-exact host (fake_delegated_credentials xs) f s h = framed-vec16 34 _ _ refl h
encoding-exact host fake_early_data f s h = refl
encoding-exact host (trust_anchors t) f s h =
    framed-vec16 0xca34 _ _ (vec8s-exact (anchor_list t) s) h
