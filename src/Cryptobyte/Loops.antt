-- ===== src/Cryptobyte/Loops.antt =====
-- The loops `for !s.Empty() { … }` of the parsers.
use utls.Base.{
  ℕ, zero, suc, ◌≤◌, ◌<◌, List, [], ◌∷◌, ◌++◌, map, Option, none, some, Bytes, length,
  length-append, All, ◌≡◌, ◌≢◌, refl, arith, Option-cases, inl, inr,
}

-- What a loop ends in. Each round takes a unit of fuel.
pub data Outcome {ℓ} (A : Type ℓ) : Type ℓ where
  done : A → Outcome A
  refused : Outcome A
  out_of_fuel : Outcome A

module _ {ℓ} {A : Type ℓ} where
  abbrev pub push : A → Outcome (List A) → Outcome (List A)
  push a (done as') = done (a ∷ as')
  push a refused = refused
  push a out_of_fuel = out_of_fuel

  -- `for !s.Empty() { a, ok := step(&s); if !ok { return … }; as = append(as, a) }`
  unfoldable pub read_all : (Bytes → Option (A × Bytes)) → ℕ → Bytes → Outcome (List A)
  read_all step fuel [] = done []
  read_all step zero (b ∷ s) = out_of_fuel
  read_all step (suc fuel) (b ∷ s) = elim (step (b ∷ s)) [
    | none ↦ refused
    | some (a, rest) ↦ push a (read_all step fuel rest)
  ]

  -- A read that succeeds leaves less than it was given.
  abbrev pub Advances : (Bytes → Option (A × Bytes)) → Type ℓ
  Advances step =
      (s : Bytes) (a : A) (rest : Bytes) → step s ≡ some (a, rest) → length rest < length s

  push-ne-out_of_fuel : (a : A) (o : Outcome (List A)) → o ≢ out_of_fuel → push a o ≢ out_of_fuel
  push-ne-out_of_fuel a (done as') h e = cc
  push-ne-out_of_fuel a refused h e = cc
  push-ne-out_of_fuel a out_of_fuel h e = h refl

  -- The length of the string is enough fuel.
  pub read_all-ends :
      (step : Bytes → Option (A × Bytes))
      → Advances step
      → (fuel : ℕ) (s : Bytes) → length s ≤ fuel
      → read_all step fuel s ≢ out_of_fuel
  unfolding read_all
  read_all-ends step adv fuel [] h = λ e. cc
  read_all-ends step adv zero (b ∷ s) h = absurd (omega arith)
  read_all-ends step adv (suc fuel) (b ∷ s) h = elim (Option-cases (step (b ∷ s))) [
    | inl bad ↦ rw (bad, read_all) (λ e. cc)
    | inr ((a, rest), good) ↦
        let less = adv (b ∷ s) a rest good in
        rw (good, read_all)
          (push-ne-out_of_fuel a (read_all step fuel rest)
            (read_all-ends step adv fuel rest (omega arith)))
  ]

-- What was written element by element is read back, each element as `f` takes it.
module _ {ℓ} {A : Type ℓ} (enc : A → Bytes) where
  abbrev pub encoded : List A → Bytes
  encoded [] = []
  encoded (a ∷ as') = enc a ++ encoded as'

  read_all-step :
      (step : Bytes → Option (A × Bytes)) (fuel : ℕ) (s : Bytes) (a : A) (rest : Bytes)
      → 0 < length s
      → step s ≡ some (a, rest)
      → read_all step (suc fuel) s ≡ push a (read_all step fuel rest)
  unfolding read_all
  read_all-step step fuel [] a rest h e = absurd (omega arith)
  read_all-step step fuel (b ∷ s) a rest h e = rw (e, read_all) refl

  pub read_all-encoded {κ} :
      (step : Bytes → Option (A × Bytes)) (f : A → A) (P : A → Type κ)
      → ((a : A) (rest : Bytes)
          → P a
          → (0 < length (enc a)) × (step (enc a ++ rest) ≡ some (f a, rest)))
      → (as' : List A) (fuel : ℕ) → length (encoded as') ≤ fuel
      → All P as'
      → read_all step fuel (encoded as') ≡ done (map f as')
  unfolding read_all
  read_all-encoded step f P reads [] fuel h ps = refl
  read_all-encoded step f P reads (a ∷ as') zero h ps =
      let first = (reads a (encoded as') ps.0).0 in
      absurd (let sum = length-append (enc a) (encoded as') in omega arith)
  read_all-encoded step f P reads (a ∷ as') (suc fuel) h ps =
      let (some_bytes, read_a) = reads a (encoded as') ps.0 in
      let sum = length-append (enc a) (encoded as') in
      rw (read_all-step step fuel (enc a ++ encoded as') (f a) (encoded as') (omega arith) read_a)
        (rw (read_all-encoded step f P reads as' fuel (omega arith) ps.1))
