-- ===== src/Spec/Others/Ends.antt =====
-- FakePreSharedKeyExtension.Write ends on every body: neither of its loops runs out of fuel.
use utls.Base.{
  ℕ, zero, suc, ◌<◌, ltb, List, Option, some, Bytes, length, Option-cases, Bool-cases, inl, inr,
  ◌≡◌, ◌≢◌, refl, sym, ◌∙◌, arith,
}
use utls.Cryptobyte.{Reader}
use utls.Cryptobyte.Loops.{Outcome, done, refused, out_of_fuel}
use utls.Cryptobyte.Advances.{
  no_read, read_uint8-shorter, read_uint16-shorter, read_uint32-shorter, read_bytes-shorter,
}
use utls.Session.State.{PskIdentity}
use utls.Spec.Others.{
  minus16, push_to, identity_step, read_identities, binder_step, read_binders, with_binders,
  binders_after, fake_psk_write,
}

rest_of_three {ℓ} :
    {A : Type ℓ} (o : Option (A × ℕ × Bytes)) (a x : A) (n m : ℕ) (s rest : Bytes)
    → o ≡ some (a, n, s)
    → o ≡ some (x, m, rest)
    → s ≡ rest
rest_of_three o a x n m s rest e h =
    (let both : some (a, n, s) ≡ some (x, m, rest) = sym e ∙ h in cc)

push_to-ends {ℓ} :
    {A : Type ℓ} (a : A) (o : Outcome (List A × Bytes))
    → o ≢ out_of_fuel
    → push_to a o ≢ out_of_fuel
push_to-ends a (done (as', rest)) h = λ e. cc
push_to-ends a refused h = λ e. cc
push_to-ends a out_of_fuel h = λ _. h refl

module _ (c : Reader) where
  identity_step-shorter :
      (n : ℕ) (s : Bytes) (i : PskIdentity) (m : ℕ) (rest : Bytes)
      → identity_step c n s ≡ some (i, m, rest)
      → length rest < length s
  unfolding identity_step
  identity_step-shorter n s i m rest h = elim (Option-cases (c.read_uint16 s)) [
    | inl bad ↦ absurd (no_read (identity_step c n s) (i, m, rest) (rw (bad, identity_step)) h)
    | inr ((k, s₁), good) ↦ elim (Bool-cases (ltb (minus16 n 2) k)) [
      | inl large ↦
          absurd (no_read (identity_step c n s) (i, m, rest) (rw (good, identity_step, large)) h)
      | inr fits ↦ elim (Option-cases (c.read_bytes k s₁)) [
        | inl bad ↦
            absurd (
              no_read (identity_step c n s) (i, m, rest) (rw (good, identity_step, fits) (rw bad))
                h)
        | inr ((v, s₂), good₁) ↦ elim (Option-cases (c.read_uint32 s₂)) [
          | inl bad ↦ absurd (
              no_read (identity_step c n s) (i, m, rest)
                (rw (good, identity_step, fits) (rw good₁ (rw bad))) h)
          | inr ((age, s₃), good₂) ↦
              let e =
                rest_of_three (identity_step c n s)
                  (record { label = v; obfuscated_ticket_age = age }) i
                  (minus16 (minus16 (minus16 n 2) k) 4) m s₃ rest
                  (rw (good, identity_step, fits) (rw good₁ (rw good₂))) h in
              let first = read_uint16-shorter c s k s₁ good in
              let second = read_bytes-shorter c k s₁ v s₂ good₁ in
              let third = read_uint32-shorter c s₂ age s₃ good₂ in rw (sym e) (omega arith)
        ]
      ]
    ]
  ]

  read_identities-ends :
      (fuel n : ℕ) (s : Bytes) → length s < fuel → read_identities c fuel n s ≢ out_of_fuel
  unfolding read_identities
  read_identities-ends fuel zero s h = λ e. cc
  read_identities-ends zero (suc n) s h = absurd (omega arith)
  read_identities-ends (suc fuel) (suc n) s h = elim (Option-cases (identity_step c (suc n) s)) [
    | inl bad ↦ rw (bad, read_identities) (λ e. cc)
    | inr ((i, m, rest), good) ↦
        let less = identity_step-shorter (suc n) s i m rest good in
        rw (good, read_identities)
          (push_to-ends i _ (read_identities-ends fuel m rest (omega arith)))
  ]

  binder_step-shorter :
      (n : ℕ) (s x : Bytes) (m : ℕ) (rest : Bytes)
      → binder_step c n s ≡ some (x, m, rest)
      → length rest < length s
  unfolding binder_step
  binder_step-shorter n s x m rest h = elim (Option-cases (c.read_uint8 s)) [
    | inl bad ↦ absurd (no_read (binder_step c n s) (x, m, rest) (rw (bad, binder_step)) h)
    | inr ((k, s₁), good) ↦ elim (Bool-cases (ltb (minus16 n 1) k)) [
      | inl large ↦
          absurd (no_read (binder_step c n s) (x, m, rest) (rw (good, binder_step, large)) h)
      | inr fits ↦ elim (Option-cases (c.read_bytes k s₁)) [
        | inl bad ↦
            absurd
              (no_read (binder_step c n s) (x, m, rest) (rw (good, binder_step, fits) (rw bad)) h)
        | inr ((v, s₂), good₁) ↦
            let e =
              rest_of_three (binder_step c n s) v x (minus16 (minus16 n 1) k) m s₂ rest
                (rw (good, binder_step, fits) (rw good₁)) h in
            let first = read_uint8-shorter c s k s₁ good in
            let second = read_bytes-shorter c k s₁ v s₂ good₁ in rw (sym e) (omega arith)
      ]
    ]
  ]

  read_binders-ends :
      (fuel n : ℕ) (s : Bytes) → length s < fuel → read_binders c fuel n s ≢ out_of_fuel
  unfolding read_binders
  read_binders-ends fuel zero s h = λ e. cc
  read_binders-ends zero (suc n) s h = absurd (omega arith)
  read_binders-ends (suc fuel) (suc n) s h = elim (Option-cases (binder_step c (suc n) s)) [
    | inl bad ↦ rw (bad, read_binders) (λ e. cc)
    | inr ((x, m, rest), good) ↦
        let less = binder_step-shorter (suc n) s x m rest good in
        rw (good, read_binders) (push_to-ends x _ (read_binders-ends fuel m rest (omega arith)))
  ]

  with_binders-ends :
      (ids : List PskIdentity) (o : Outcome (List Bytes × Bytes))
      → o ≢ out_of_fuel
      → with_binders c ids o ≢ out_of_fuel
  with_binders-ends ids (done (bs, rest)) h = λ e. cc
  with_binders-ends ids refused h = λ e. cc
  with_binders-ends ids out_of_fuel h = λ _. h refl

  binders_after-ends :
      (o : Outcome (List PskIdentity × Bytes)) → o ≢ out_of_fuel → binders_after c o ≢ out_of_fuel
  binders_after-ends (done (ids, s)) h = elim (Option-cases (c.read_uint16 s)) [
    | inl bad ↦ rw (bad, binders_after) (λ e. cc)
    | inr ((m, s₁), good) ↦
        rw (good, binders_after)
          (with_binders-ends ids _ (read_binders-ends (suc (length s₁)) m s₁ (omega arith)))
  ]
  binders_after-ends refused h = λ e. cc
  binders_after-ends out_of_fuel h = λ _. h refl

  -- The Write of a fake pre-shared key extension returns on every body, though its counters wrap around.
  pub fake_psk_write-ends : (b : Bytes) → fake_psk_write c b ≢ out_of_fuel
  unfolding fake_psk_write
  fake_psk_write-ends b = elim (Option-cases (c.read_uint16 b)) [
    | inl bad ↦ rw (bad, fake_psk_write) (λ e. cc)
    | inr ((n, s), good) ↦
        rw (good, fake_psk_write)
          (binders_after-ends _ (read_identities-ends (suc (length s)) n s (omega arith)))
  ]
