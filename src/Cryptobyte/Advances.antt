-- ===== src/Cryptobyte/Advances.antt =====
-- A read that succeeds leaves a shorter string.
use utls.Base.{
  ℕ, zero, suc, ◌+◌, ◌*◌, ◌∙◌, ◌≤◌, ◌<◌, [], ◌∷◌, Option, none, some, Bytes, length, drop, take,
  ltb, Bool-cases, inl, inr, ◌≡◌, sym, arith,
}
use utls.Cryptobyte.{Reader, prefixed}

pub length-drop : (n : ℕ) (s : Bytes) → length (drop n s) ≤ length s
length-drop zero s = omega arith
length-drop (suc n) [] = omega arith
length-drop (suc n) (x ∷ s) = omega (arith, length-drop n s)

pub rest_of {ℓ} :
    {A : Type ℓ} (o : Option (A × Bytes)) (a x : A) (s rest : Bytes)
    → o ≡ some (a, s)
    → o ≡ some (x, rest)
    → s ≡ rest
rest_of o a x s rest e h = (let both : some (a, s) ≡ some (x, rest) = sym e ∙ h in cc)

pub no_read {ℓ} : {A : Type ℓ} (o : Option A) (a : A) → o ≡ none → o ≡ some a → ⊥
no_read o a e h = (let both : none ≡ some a = sym e ∙ h in cc)

pub prefixed-shorter :
    (n : ℕ) (s v rest : Bytes) → prefixed n s ≡ some (v, rest) → length rest ≤ length s
prefixed-shorter n s v rest h = elim (Bool-cases (ltb (length s) n)) [
  | inl short ↦ absurd (no_read (prefixed n s) (v, rest) (rw short) h)
  | inr enough ↦
      rw (sym (rest_of (prefixed n s) (take n s) v (drop n s) rest (rw enough) h)) (length-drop n s)
]

module _ (c : Reader) where
  pub read_uint8-shorter :
      (s : Bytes) (x : ℕ) (rest : Bytes) → c.read_uint8 s ≡ some (x, rest) → length rest < length s
  read_uint8-shorter [] x rest h = absurd (no_read _ _ (c.read_uint8_nil) h)
  read_uint8-shorter (a ∷ s) x rest h =
      let e = rest_of _ (a) x s rest (c.read_uint8_cons a s) h in rw (sym e) (omega arith)

  pub read_uint16-shorter :
      (s : Bytes) (x : ℕ) (rest : Bytes) → c.read_uint16 s ≡ some (x, rest) → length rest < length s
  read_uint16-shorter [] x rest h = absurd (no_read _ _ (c.read_uint16_short [] (omega arith)) h)
  read_uint16-shorter (a ∷ []) x rest h =
      absurd (no_read _ _ (c.read_uint16_short (a ∷ []) (omega arith)) h)
  read_uint16-shorter (a ∷ b ∷ s) x rest h =
      let e = rest_of _ (a * 256 + b) x s rest (c.read_uint16_cons a b s) h in
      rw (sym e) (omega arith)

  pub read_uint32-shorter :
      (s : Bytes) (x : ℕ) (rest : Bytes) → c.read_uint32 s ≡ some (x, rest) → length rest < length s
  read_uint32-shorter [] x rest h = absurd (no_read _ _ (c.read_uint32_short [] (omega arith)) h)
  read_uint32-shorter (a ∷ []) x rest h =
      absurd (no_read _ _ (c.read_uint32_short (a ∷ []) (omega arith)) h)
  read_uint32-shorter (a ∷ b ∷ []) x rest h =
      absurd (no_read _ _ (c.read_uint32_short (a ∷ b ∷ []) (omega arith)) h)
  read_uint32-shorter (a ∷ b ∷ d ∷ []) x rest h =
      absurd (no_read _ _ (c.read_uint32_short (a ∷ b ∷ d ∷ []) (omega arith)) h)
  read_uint32-shorter (a ∷ b ∷ d ∷ e ∷ s) x rest h =
      let e' =
        rest_of _ (a * 16777216 + b * 65536 + d * 256 + e) x s rest (c.read_uint32_cons a b d e s)
          h in
      rw (sym e') (omega arith)

  pub read_bytes-shorter :
      (n : ℕ) (s v rest : Bytes) → c.read_bytes n s ≡ some (v, rest) → length rest ≤ length s
  read_bytes-shorter n s v rest h = prefixed-shorter n s v rest (sym (c.read_bytes_lem n s) ∙ h)

  pub read_vec8-shorter :
      (s v rest : Bytes) → c.read_uint8_length_prefixed s ≡ some (v, rest) → length rest < length s
  read_vec8-shorter [] v rest h = absurd (no_read _ _ (c.read_uint8_length_prefixed_nil) h)
  read_vec8-shorter (a ∷ s) v rest h =
      let less = prefixed-shorter a s v rest (sym (c.read_uint8_length_prefixed_cons a s) ∙ h) in
      omega arith

  pub read_vec16-shorter :
      (s v rest : Bytes) → c.read_uint16_length_prefixed s ≡ some (v, rest) → length rest < length s
  read_vec16-shorter [] v rest h =
      absurd (no_read _ _ (c.read_uint16_length_prefixed_short [] (omega arith)) h)
  read_vec16-shorter (a ∷ []) v rest h =
      absurd (no_read _ _ (c.read_uint16_length_prefixed_short (a ∷ []) (omega arith)) h)
  read_vec16-shorter (a ∷ b ∷ s) v rest h =
      let less =
        prefixed-shorter (a * 256 + b) s v rest
          (sym (c.read_uint16_length_prefixed_cons a b s) ∙ h) in
      omega arith
