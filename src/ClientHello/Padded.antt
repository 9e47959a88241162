-- ===== src/ClientHello/Padded.antt =====
-- MarshalClientHelloNoECH as a whole: the padding extension is brought up to date before the hello
-- is laid out.
use utls.Base.{
  ℕ, ◌+◌, ◌≤◌, ◌<◌, Bool, List, [], ◌∷◌, map, Option, none, some, Bytes, length, All, ◌≡◌, ◌⊎◌, inl,
  inr, refl, sym, ap, ◌∙◌, arith, ok,
}
use utls.Extension.{PaddingExtension, Extension, padding}
use utls.Extension.Padding.{update}
use utls.Extension.Read.{len}
use utls.Extension.Read.Each.{padding_len_of}
use utls.Extension.Read.Correct.{IsEncodable}
use utls.ClientHello.{
  Hello, raw, header_length, padding_of, update_one, measured, two_paddings, measure_one,
  measure_all, marshal_client_hello_no_ech, multiple_padding_extensions,
}
use utls.ClientHello.Layout.{client_hello, lens, lay_out-wire}

-- How many of the extensions are padding extensions.
abbrev pub paddings : List Extension → ℕ
paddings [] = 0
paddings (e ∷ es) = elim (padding_of e) [ none ↦ paddings es | some p ↦ 1 + paddings es ]

-- The length of the others.
abbrev pub other_lens : (Bytes → Bool) → List Extension → ℕ
other_lens ip [] = 0
other_lens ip (e ∷ es) = elim (padding_of e) [
  | none ↦ len ip e + other_lens ip es
  | some p ↦ other_lens ip es
]

-- The length of the hello without padding, as it is handed to the padding style.
abbrev pub unpadded_length : (Bytes → Bool) → Hello → List Extension → ℕ
unpadded_length ip h es = header_length h + 4 + other_lens ip es + 2

abbrev pub padded : (Bytes → Bool) → Hello → List Extension → List Extension
padded ip h es = map (update_one (unpadded_length ip h es)) es

pub padding_of-cases :
    (e : Extension) → (padding_of e ≡ none) ⊎ ((p : PaddingExtension) × (e ≡ padding p))
padding_of-cases (padding p) = inr (p, refl)
padding_of-cases e = inl refl

module _ (ip : Bytes → Bool) where
  measure_all-two : (es : List Extension) → measure_all ip es two_paddings ≡ two_paddings
  measure_all-two [] = refl
  measure_all-two (e ∷ es) = elim (padding_of-cases e) [
    | inl plain ↦ rw (plain, measure_one) (measure_all-two es)
    | inr (p, is) ↦ rw is (measure_all-two es)
  ]

  measure_all-none :
      (es : List Extension) (n : ℕ) (q : Option PaddingExtension)
      → paddings es ≡ 0
      → measure_all ip es (measured n q) ≡ measured (n + other_lens ip es) q
  measure_all-none [] n q h = ap (λ k. measured k q) (let e : n ≡ n + 0 = omega arith in e)
  measure_all-none (e ∷ es) n q h = elim (padding_of-cases e) [
    | inl plain ↦
        rw (plain, measure_one, other_lens)
          (measure_all-none es (n + len ip e) q (rw (plain, paddings) at h)
            ∙ ap (λ k. measured k q)
                (let s : n + len ip e + other_lens ip es ≡ n + (len ip e + other_lens ip es) =
                    omega arith in
                  s))
    | inr (p, is) ↦ absurd (let h' = rw is at h in omega arith)
  ]

  measure_all-second :
      (es : List Extension) (n : ℕ) (q : PaddingExtension)
      → 0 < paddings es
      → measure_all ip es (measured n (some q)) ≡ two_paddings
  measure_all-second [] n q h = absurd (omega arith)
  measure_all-second (e ∷ es) n q h = elim (padding_of-cases e) [
    | inl plain ↦
        rw (plain, measure_one) (measure_all-second es (n + len ip e) q (rw (plain, paddings) at h))
    | inr (p, is) ↦ rw is (measure_all-two es)
  ]

  measure_all-many :
      (es : List Extension) (n : ℕ)
      → 1 < paddings es
      → measure_all ip es (measured n none) ≡ two_paddings
  measure_all-many [] n h = absurd (omega arith)
  measure_all-many (e ∷ es) n h = elim (padding_of-cases e) [
    | inl plain ↦
        rw (plain, measure_one) (measure_all-many es (n + len ip e) (rw (plain, paddings) at h))
    | inr (p, is) ↦ rw is (measure_all-second es n p (let h' = rw is at h in omega arith))
  ]

  pub map-update_one : (es : List Extension) (k : ℕ) → paddings es ≡ 0 → map (update_one k) es ≡ es
  map-update_one [] k h = refl
  map-update_one (e ∷ es) k h = elim (padding_of-cases e) [
    | inl plain ↦
        rw (plain, update_one) (ap (◌∷◌ e) (map-update_one es k (rw (plain, paddings) at h)))
    | inr (p, is) ↦ absurd (let h' = rw is at h in omega arith)
  ]

  pub lens-other : (es : List Extension) → paddings es ≡ 0 → lens ip es ≡ other_lens ip es
  lens-other [] h = refl
  lens-other (e ∷ es) h = elim (padding_of-cases e) [
    | inl plain ↦
        rw (plain, other_lens) (ap (λ k. len ip e + k) (lens-other es (rw (plain, paddings) at h)))
    | inr (p, is) ↦ absurd (let h' = rw is at h in omega arith)
  ]

  -- One padding extension is found, and is all that an update changes.
  abbrev OnePadding : List Extension → ℕ → PaddingExtension → Type 0
  OnePadding es n p =
      (measure_all ip es (measured n none) ≡ measured (n + other_lens ip es) (some p))
      × ((k : ℕ) → lens ip (map (update_one k) es) ≡ other_lens ip es + padding_len_of (update p k))

  one_padding :
      (es : List Extension) (n : ℕ) → paddings es ≡ 1 → (p : PaddingExtension) × OnePadding es n p
  unfolding len
  one_padding [] n h = absurd (omega arith)
  one_padding (e ∷ es) n h = elim (padding_of-cases e) [
    | inl plain ↦
        let (p, both) = one_padding es (n + len ip e) (rw (plain, paddings) at h) in
        (
          p,
          (
            rw (plain, measure_one, other_lens)
                (both.0
                  ∙ ap (λ k. measured k (some p))
                      (let s : n + len ip e + other_lens ip es ≡ n + (len ip e + other_lens ip es) =
                          omega arith in
                        s)),
            λ k. rw (plain, update_one, other_lens) (let s = both.1 k in omega arith),
          ),
        )
    | inr (p, is) ↦
        let rest : paddings es ≡ 0 = (let h' = rw is at h in omega arith) in
        (
          p,
          (
            rw is (measure_all-none es n (some p) rest),
            λ k. rw (is, map-update_one es k rest) (let s = lens-other es rest in omega arith),
          ),
        )
  ]

at_most_one : (n : ℕ) → n ≤ 1 → (n ≡ 0) ⊎ (n ≡ 1)
at_most_one n h = ground arith

update_one-IsEncodable : (k : ℕ) (e : Extension) → IsEncodable e → IsEncodable (update_one k e)
update_one-IsEncodable k e h = elim (padding_of-cases e) [
  | inl plain ↦ rw (plain, update_one) h
  | inr (p, is) ↦ rw is tt
]

pub map-IsEncodable :
    (k : ℕ) (es : List Extension) → All IsEncodable es → All IsEncodable (map (update_one k) es)
map-IsEncodable k [] h = tt
map-IsEncodable k (e ∷ es) h = (update_one-IsEncodable k e h.0, map-IsEncodable k es h.1)

-- A hello with a 32-byte random, at most one padding extension, and extensions that satisfy
-- IsEncodable is marshalled, without an error or a panic, to client_hello: the fields and the wire
-- forms of the extensions in order, the padding extension brought up to date with the length
-- without padding; a length that is above its field is cut to it.
pub marshal-client_hello :
    (ip : Bytes → Bool) (spare : ℕ → ℕ) (h : Hello) (es : List Extension)
    → length h.random ≡ 32
    → All IsEncodable es
    → paddings es ≤ 1
    → marshal_client_hello_no_ech ip spare h es
      ≡ ok (raw (client_hello ip h (padded ip h es)) (padded ip h es))
unfolding marshal_client_hello_no_ech
marshal-client_hello ip spare h es r encodable few = elim (at_most_one (paddings es) few) [
  | inl bare ↦
      let none_found = measure_all-none ip es 0 none bare in
      let same = map-update_one ip es (unpadded_length ip h es) bare in
      let sized : 0 + other_lens ip es ≡ lens ip es =
        (let s = lens-other ip es bare in omega arith) in
      rw (none_found, marshal_client_hello_no_ech, same, sized)
        (lay_out-wire ip spare h es r encodable)
  | inr one ↦
      let k = unpadded_length ip h es in
      let (p, both) = one_padding ip es 0 one in
      let start : 0 + other_lens ip es ≡ other_lens ip es = omega arith in
      rw (both.0, marshal_client_hello_no_ech, start, sym (both.1 k))
        (lay_out-wire ip spare h (padded ip h es) r (map-IsEncodable k es encodable))
]

-- With two padding extensions or more the marshalling is refused, whatever else the hello has.
pub marshal_two_paddings :
    (ip : Bytes → Bool) (spare : ℕ → ℕ) (h : Hello) (es : List Extension)
    → 1 < paddings es
    → marshal_client_hello_no_ech ip spare h es ≡ ok multiple_padding_extensions
unfolding marshal_client_hello_no_ech
marshal_two_paddings ip spare h es many =
    rw (measure_all-many ip es 0 many, marshal_client_hello_no_ech)
