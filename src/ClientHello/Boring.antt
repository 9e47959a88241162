-- ===== src/ClientHello/Boring.antt =====
-- MarshalClientHelloNoECH with BoringPaddingStyle: the length of the ClientHello.
use utls.Base.{
  ℕ, ◌+◌, ◌≤◌, ◌<◌, Bool, List, [], ◌∷◌, ◌++◌, map, some, Bytes, length, All, ◌≡◌, ◌⊎◌, inl, inr,
  refl, arith, ok,
}
use utls.Extension.{PaddingExtension, Extension, padding}
use utls.Extension.Padding.{update, boring_padding_style, added}
use utls.Extension.Read.{len}
use utls.Extension.Read.Each.{padding_len_of}
use utls.Extension.Read.Correct.{IsEncodable}
use utls.ClientHello.{Hello, raw, update_one, marshal_client_hello_no_ech}
use utls.ClientHello.Layout.{client_hello, lens, length-client_hello}
use utls.ClientHello.Padded.{
  paddings, other_lens, unpadded_length, padded, padding_of-cases, map-update_one, lens-other,
  map-IsEncodable, marshal-client_hello,
}

length-padding :
    (p : PaddingExtension) (k : ℕ)
    → p.get_padding_len ≡ some boring_padding_style
    → padding_len_of (update p k) ≡ added (boring_padding_style k)
unfolding update
length-padding p k style = rw style refl

-- The padding extension `p` stands between extensions that are not padding.
module _ (ip : Bytes → Bool) (p : PaddingExtension) (post : List Extension)
    (bare_post : paddings post ≡ 0) where
  paddings-append :
      (pre : List Extension) → paddings pre ≡ 0 → paddings (pre ++ (padding p ∷ post)) ≡ 1
  paddings-append [] bare = omega arith
  paddings-append (e ∷ pre) bare = elim (padding_of-cases e) [
    | inl plain ↦ rw (plain, paddings) (paddings-append pre (rw (plain, paddings) at bare))
    | inr (q, is) ↦ absurd (let h = rw is at bare in omega arith)
  ]

  lens-padded :
      (pre : List Extension) (k : ℕ)
      → paddings pre ≡ 0
      → lens ip (map (update_one k) (pre ++ (padding p ∷ post)))
        ≡ other_lens ip (pre ++ (padding p ∷ post)) + padding_len_of (update p k)
  unfolding len
  lens-padded [] k bare =
      rw (map-update_one ip post k bare_post) (let s = lens-other ip post bare_post in omega arith)
  lens-padded (e ∷ pre) k bare = elim (padding_of-cases e) [
    | inl plain ↦
        let s = lens-padded pre k (rw (plain, paddings) at bare) in
        rw (plain, update_one, other_lens) (omega arith)
    | inr (q, is) ↦ absurd (let h = rw is at bare in omega arith)
  ]

length-between :
    (pre : List Extension) (e : Extension) (post : List Extension) (f : Extension → Extension)
    → 0 < length (map f (pre ++ (e ∷ post)))
length-between [] e post f = omega arith
length-between (x ∷ pre) e post f = omega arith

boring_lengths :
    (n m : ℕ)
    → m ≡ n + added (boring_padding_style n)
    → (0xff < n → n ≤ 507 → m ≡ 512)
      × (507 < n → n < 0x200 → (512 < m) × (m ≤ 516))
      × ((m ≤ 0xff) ⊎ (0x200 ≤ m))
unfolding boring_padding_style
boring_lengths n m e = (λ a b. ground arith, λ a b. ground arith, ground arith)

-- A ClientHello with a 32-byte random, encodable extensions and one padding extension that uses
-- BoringPaddingStyle, wherever it stands, is marshalled to its length without padding plus what the
-- style adds; so a hello of 256 to 507 bytes comes out at exactly 512 bytes, one of 508 to 511 at 513
-- to 516, and no hello comes out at a length of 256 to 511.
pub marshal_boring_length :
    (ip : Bytes → Bool) (spare : ℕ → ℕ) (h : Hello) (pre post : List Extension)
    (p : PaddingExtension)
    → length h.random ≡ 32
    → All IsEncodable (pre ++ (padding p ∷ post))
    → paddings pre ≡ 0
    → paddings post ≡ 0
    → p.get_padding_len ≡ some boring_padding_style
    → let es = pre ++ (padding p ∷ post) in
      let n = unpadded_length ip h es in
      (out : Bytes) × (marshal_client_hello_no_ech ip spare h es ≡ ok (raw out (padded ip h es)))
      × (length out ≡ n + added (boring_padding_style n))
      × (0xff < n → n ≤ 507 → length out ≡ 512)
      × (507 < n → n < 0x200 → (512 < length out) × (length out ≤ 516))
      × ((length out ≤ 0xff) ⊎ (0x200 ≤ length out))
marshal_boring_length ip spare h pre post p r encodable bare_pre bare_post style =
    let es = pre ++ (padding p ∷ post) in
    let n = unpadded_length ip h es in
    let out = client_hello ip h (padded ip h es) in
    let one = paddings-append ip p post bare_post pre bare_pre in
    let sized : length out ≡ n + added (boring_padding_style n) =
      (let total =
          length-client_hello ip h (padded ip h es) r (map-IsEncodable n es encodable)
            (length-between pre (padding p) post (update_one n)) in
        let exts = lens-padded ip p post bare_post pre n bare_pre in
        let grown = length-padding p n style in omega arith) in
    (
      out,
      marshal-client_hello ip spare h es r encodable (omega arith),
      sized,
      (boring_lengths n (length out) sized).0,
      (boring_lengths n (length out) sized).1,
      (boring_lengths n (length out) sized).2,
    )
