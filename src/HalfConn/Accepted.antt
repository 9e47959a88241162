-- ===== src/HalfConn/Accepted.antt =====
-- What the end of decrypt has checked of a record that it accepts.
use Prim.Native.Nat.{bit_and, bit_and-bitwise}
use mathlib.Core.Path.{ap, ap₂, subst}
use utls.Base.{
  ℕ, ◌-◌, ◌==◌, ==_iff, ltb, Bool, true, false, not, if◌then◌else◌, [], ◌∷◌, ◌++◌, Bytes, length,
  take, drop, take-append-drop, length-take, some, Run, ok, >>=-returned, ◌≡◌, ◌≢◌, refl, sym, ◌∙◌,
  arith, ◌⊎◌, inl, inr, Bool-cases,
}
use utls.HalfConn.{Algorithms, Failure, version_tls13, HalfConn, tls10_mac, inc_seq}
use utls.HalfConn.Encrypt.{Header, bytes_of, with_length}
use utls.HalfConn.Decrypt.{
  inner_content, compare_bytes, opened, Decrypted, received, rejected, check_mac, close_record,
  accept,
}

compare_bytes-or : (x y : Bytes) → (x ≡ y) ⊎ (compare_bytes x y ≡ 0)
compare_bytes-or [] [] = inl refl
compare_bytes-or [] (y ∷ ys) = inr refl
compare_bytes-or (x ∷ xs) [] = inr refl
compare_bytes-or (x ∷ xs) (y ∷ ys) = elim (Bool-cases (x == y)) [
  | inr differs ↦ inr (rw differs refl)
  | inl same ↦ elim (compare_bytes-or xs ys) [
    | inl rest ↦ inl (ap₂ ◌∷◌ ((==_iff x y).0 same) rest)
    | inr rest ↦ inr (rw same rest)
  ]
]

compared : (x y : Bytes) (good : ℕ) → (not (bit_and (compare_bytes x y) good == 1)) ≡ false → x ≡ y
compared x y good h = elim (compare_bytes-or x y) [
  | inl same ↦ same
  | inr differs ↦ absurd (refuted (rw (differs, bit_and-bitwise 0 good) at h))
]
  where
    refuted : true ≡ false → ⊥
    refuted h = cc

module _ (A : Algorithms) where
  received-injective :
      {p p' : Bytes} {t t' : ℕ} {hc hc' : HalfConn A}
      → ◌≡◌ {A = Run (Decrypted A)} (ok (received p t hc)) (ok (received p' t' hc'))
      → (p ≡ p') × (t ≡ t') × (hc ≡ hc')
  received-injective h = (cc, cc, cc)

  not_rejected :
      {p : Bytes} {t : ℕ} {f : Failure} {hc hc' : HalfConn A}
      → ◌≡◌ {A = Run (Decrypted A)} (ok (rejected f hc)) (ok (received p t hc'))
      → ⊥
  not_rejected h = cc

  -- A test that was passed.
  passed :
      (b : Bool) (f : Failure) (hc : HalfConn A) {hc' : HalfConn A} {p : Bytes} {t : ℕ}
      (k : Run (Decrypted A))
      → (if b then ok (rejected f hc) else k) ≡ ok (received p t hc')
      → (b ≡ false) × (k ≡ ok (received p t hc'))
  passed true f hc k h = absurd (not_rejected h)
  passed false f hc k h = (refl, h)

  accepted :
      (hc hc' : HalfConn A) (text p : Bytes) (typ t : ℕ)
      → accept A hc text typ ≡ ok (received p t hc')
      → (text ≡ p) × (typ ≡ t) × (inc_seq hc.seq ≡ ok hc'.seq)
  unfolding accept
  accepted hc hc' text p typ t h =
      let (seq, next, same) =
        >>=-returned (inc_seq hc.seq) (λ s. ok (received text typ (record hc { seq = s }))) h in
      let (text_same, typ_same, hc_same) = received-injective same in
      (text_same, typ_same, next ∙ ap (λ (x : HalfConn A). ok x.seq) hc_same)

  -- What stands in an opened record whose MAC is right.
  abbrev pub HasMac : A.Hash → Bytes → Header → Bytes → Bytes → Type 0
  HasMac m seq h text p =
      (rest : Bytes) × (text
        ≡ p ++ (tls10_mac A m seq (bytes_of (with_length (length p) h)) p ++ rest))

  check_mac-HasMac :
      (hc hc' : HalfConn A) (h : Header) (m : A.Hash) (text plain p : Bytes) (k good typ t : ℕ)
      → check_mac A (record hc { mac = some m }) h text plain k good typ ≡ ok (received p t hc')
      → HasMac m hc.seq h text p × (typ ≡ t) × (inc_seq hc.seq ≡ ok hc'.seq)
  unfolding check_mac
  check_mac-HasMac hc hc' h m text plain p k good typ t result =
      let n = length text - A.size m - k in
      let local = tls10_mac A m hc.seq (bytes_of (with_length n h)) (take n text) in
      let remote = take (A.size m) (drop n text) in
      let (_, checked) = passed (ltb (length text) (A.size m)) _ _ _ result in
      let (good_mac, accepted_it) =
        passed (not (bit_and (compare_bytes local remote) good == 1)) _ _ _ checked in
      let (same, typ_same, next) =
        accepted (record hc { mac = some m }) hc' (take n text) p typ t accepted_it in
      let size = length-take n text (omega arith) in
      let rest = drop (A.size m) (drop n text) in
      let mac_same =
        sym (compared local remote good good_mac)
        ∙ ap (λ j. tls10_mac A m hc.seq (bytes_of (with_length j h)) (take n text)) (sym size) in
      let behind = sym (take-append-drop (A.size m) (drop n text)) ∙ ap (λ x. x ++ rest) mac_same in
      let whole : HasMac m hc.seq h text (take n text) =
        (rest, sym (take-append-drop n text) ∙ ap (λ x. take n text ++ x) behind) in
      (subst (HasMac m hc.seq h text) same whole, typ_same, next)

  close_record-old :
      (hc : HalfConn A) (h : Header) (text plain : Bytes) (k good : ℕ)
      → hc.version ≢ version_tls13
      → close_record A h (opened text plain k good hc) ≡ check_mac A hc h text plain k good h.typ
  unfolding close_record inner_content
  close_record-old hc h text plain k good old =
      let other : (hc.version == version_tls13) ≡ false = ground arith in rw other refl

  -- The content of a record outside TLS 1.3 is its own type's.
  pub close_record-HasMac :
      (hc hc' : HalfConn A) (h : Header) (m : A.Hash) (text plain p : Bytes) (k good t : ℕ)
      → hc.version ≢ version_tls13
      → close_record A h (opened text plain k good (record hc { mac = some m }))
        ≡ ok (received p t hc')
      → HasMac m hc.seq h text p × (h.typ ≡ t) × (inc_seq hc.seq ≡ ok hc'.seq)
  close_record-HasMac hc hc' h m text plain p k good t old result =
      check_mac-HasMac hc hc' h m text plain p k good h.typ t
        (sym (close_record-old (record hc { mac = some m }) h text plain k good old) ∙ result)
