-- ===== src/ClientHello/Exact.antt =====
-- MarshalClientHelloNoECH against a layout whose lengths are not cut to their fields.
use mathlib.Core.Path.{ap₂}
use utls.Base.{
  ℕ, ◌/◌, ◌%◌, ◌^◌, ◌≤◌, ◌<◌, Bool, List, [], ◌∷◌, ◌++◌, Bytes, All, length, length-append, ◌≡◌,
  refl, ap, ◌∙◌, arith, ok, map, inl, inr,
}
use utls.Extension.{Extension}
use utls.Extension.Wire.{u16, u16s, vec8, vec16, encoding}
use utls.Extension.Read.Correct.{IsEncodable, host_of}
use utls.Extension.Exact.{exact8, exact16, exact_encoding, IsSized}
use utls.Extension.Exact.Lengths.{vec8-exact, vec16-exact, encoding-exact}
use utls.Spec.RoundTrip.{IsHello}
use utls.ClientHello.{Hello, raw, u24, update_one, marshal_client_hello_no_ech}
use utls.ClientHello.Layout.{fixed_fields, encodings, extensions_block, hello_body, client_hello}
use utls.ClientHello.Padded.{
  paddings, padded, unpadded_length, padding_of-cases, map-IsEncodable, marshal-client_hello,
}

abbrev pub exact24 : Bytes → Bytes
exact24 v = length v / 65536 ∷ length v / 256 % 256 ∷ length v % 256 ∷ v

-- legacy_version, random, legacy_session_id, cipher_suites and legacy_compression_methods
abbrev pub exact_fields : Hello → Bytes
exact_fields h =
    u16 h.vers
    ++ (h.random
        ++ (exact8 h.session_id
            ++ (exact16 (u16s h.cipher_suites) ++ exact8 h.compression_methods)))

module _ (ip : Bytes → Bool) where
  abbrev pub exact_encodings : List Extension → Bytes
  exact_encodings [] = []
  exact_encodings (e ∷ es) = exact_encoding (host_of ip e) e ++ exact_encodings es

  -- Without extensions the vector that would hold them is left out.
  abbrev pub exact_block : List Extension → Bytes
  exact_block [] = []
  exact_block (e ∷ es) = exact16 (exact_encodings (e ∷ es))

  abbrev pub exact_client_hello : Hello → List Extension → Bytes
  exact_client_hello h es = 1 ∷ exact24 (exact_fields h ++ exact_block es)

  encodings-exact :
      (es : List Extension)
      → All IsEncodable es
      → All IsSized es
      → length (encodings ip es) < 65536
      → encodings ip es ≡ exact_encodings es
  encodings-exact [] f s h = refl
  encodings-exact (e ∷ es) f s h =
      let sum = length-append (encoding (host_of ip e) e) (encodings ip es) in
      ap₂ ◌++◌ (encoding-exact (host_of ip e) e f.0 s.0 (omega arith))
        (encodings-exact es f.1 s.1 (omega arith))

  block-exact :
      (es : List Extension)
      → All IsEncodable es
      → All IsSized es
      → length (encodings ip es) < 65536
      → extensions_block ip es ≡ exact_block es
  block-exact [] f s h = refl
  block-exact (e ∷ es) f s h =
      vec16-exact (encodings ip (e ∷ es)) h ∙ ap exact16 (encodings-exact (e ∷ es) f s h)

  fields-exact : (h : Hello) → IsHello h → fixed_fields h ≡ exact_fields h
  fields-exact h (vers, random, session, suites, bound, methods) =
      ap₂ (λ a b. u16 h.vers ++ (h.random ++ (a ++ b))) (vec8-exact h.session_id session)
        (ap₂ ◌++◌ (vec16-exact (u16s h.cipher_suites) bound)
          (vec8-exact h.compression_methods methods))

  length-block :
      (es : List Extension)
      → length (encodings ip es) < 65536
      → length (extensions_block ip es) < 65538
  length-block [] h = omega arith
  length-block (e ∷ es) h = omega arith

  length-fields : (h : Hello) → IsHello h → length (fixed_fields h) < 70000
  length-fields h (vers, random, session, suites, bound, methods) =
      let s₁ = length-append (vec16 (u16s h.cipher_suites)) (vec8 h.compression_methods) in
      let s₂ =
        length-append (vec8 h.session_id)
          (vec16 (u16s h.cipher_suites) ++ vec8 h.compression_methods) in
      let s₃ =
        length-append h.random
          (vec8 h.session_id ++ (vec16 (u16s h.cipher_suites) ++ vec8 h.compression_methods)) in
      omega arith

  u24-exact : (v : Bytes) → length v < 2 ^ 24 → u24 (length v) ++ v ≡ exact24 v
  u24-exact v h =
      let e : length v / 65536 % 256 ≡ length v / 65536 = omega arith in
      ap (λ n. n ∷ length v / 256 % 256 ∷ length v % 256 ∷ v) e

  client_hello-exact :
      (h : Hello) (es : List Extension)
      → IsHello h
      → All IsEncodable es
      → All IsSized es
      → length (encodings ip es) < 65536
      → client_hello ip h es ≡ exact_client_hello h es
  client_hello-exact h es is f s small =
      let sum = length-append (fixed_fields h) (extensions_block ip es) in
      let fields = length-fields h is in
      let block = length-block es small in
      ap (λ t. 1 ∷ t)
        (u24-exact (hello_body ip h es) (omega arith)
          ∙ ap₂ (λ a b. exact24 (a ++ b)) (fields-exact h is) (block-exact es f s small))

update_one-IsSized : (k : ℕ) (e : Extension) → IsSized e → IsSized (update_one k e)
update_one-IsSized k e h = elim (padding_of-cases e) [
  | inl plain ↦ rw (plain, update_one) h
  | inr (p, is) ↦ rw is tt
]

map-IsSized : (k : ℕ) (es : List Extension) → All IsSized es → All IsSized (map (update_one k) es)
map-IsSized k [] h = tt
map-IsSized k (e ∷ es) h = (update_one-IsSized k e h.0, map-IsSized k es h.1)

-- A hello whose fields fit their lengths, with a 32-byte random, with at most one padding extension, and with
-- extensions that fit their own lengths and, the padding brought up to date, are shorter than 2^16 bytes
-- together: it is marshalled, without an error or a panic, to the ClientHello message whose fields are those
-- of the hello and whose extensions are the given ones in order, the padding extension brought up to date
-- with the length without padding. Every length field is the length of what follows it.
pub marshal-exact_client_hello :
    (ip : Bytes → Bool) (spare : ℕ → ℕ) (h : Hello) (es : List Extension)
    → IsHello h
    → All IsEncodable es
    → All IsSized es
    → paddings es ≤ 1
    → length (encodings ip (padded ip h es)) < 65536
    → marshal_client_hello_no_ech ip spare h es
      ≡ ok (raw (exact_client_hello ip h (padded ip h es)) (padded ip h es))
marshal-exact_client_hello ip spare h es is encodable sized few small =
    let n = unpadded_length ip h es in
    marshal-client_hello ip spare h es is.1 encodable few
    ∙ ap (λ b. ok (raw b (padded ip h es)))
        (client_hello-exact ip h (padded ip h es) is (map-IsEncodable n es encodable)
          (map-IsSized n es sized) small)
