-- ===== src/NonceAead/Digits.antt =====
-- Exclusive or, on all numbers: it is undone by itself, and the two arguments commute.
use Prim.Native.Nat.{bit_xor, differ}
use mathlib.Core.Path.{ap}
use native.Mathlib.Nat.{le_refl}
use utls.Base.{ℕ, zero, suc, ◌+◌, ◌*◌, ◌/◌, ◌%◌, ◌≤◌, ◌<◌, ◌≡◌, refl, sym, ◌∙◌, arith}
use utls.HalfConn.Padding.Bits.{xor_step, halving}

differ_twice : (a b : ℕ) → a < 2 → b < 2 → differ (differ a b) b ≡ a
differ_twice zero zero h h' = refl
differ_twice zero (suc zero) h h' = refl
differ_twice (suc zero) zero h h' = refl
differ_twice (suc zero) (suc zero) h h' = refl
differ_twice zero (suc (suc b)) h h' = absurd (omega arith)
differ_twice (suc zero) (suc (suc b)) h h' = absurd (omega arith)
differ_twice (suc (suc a)) b h h' = absurd (omega arith)

differ_bound : (a b : ℕ) → a < 2 → b < 2 → differ a b < 2
differ_bound zero b h h' = h'
differ_bound (suc zero) zero h h' = h
differ_bound (suc zero) (suc zero) h h' = omega arith
differ_bound (suc zero) (suc (suc b)) h h' = absurd (omega arith)
differ_bound (suc (suc a)) b h h' = absurd (omega arith)

-- One digit more, of a number that has the digit `d` below the digits of `q`.
digit_behind : (q d : ℕ) → d < 2 → ((q * 2 + d) / 2 ≡ q) × ((q * 2 + d) % 2 ≡ d)
digit_behind q d h = (omega arith, omega arith)

twice_step :
    (a b : ℕ) → bit_xor (bit_xor (a / 2) (b / 2)) (b / 2) ≡ a / 2 → bit_xor (bit_xor a b) b ≡ a
twice_step a b ih =
    let q = bit_xor (a / 2) (b / 2) in
    let d = differ (a % 2) (b % 2) in
    let digits = digit_behind q d (differ_bound (a % 2) (b % 2) (omega arith) (omega arith)) in
    let upper = ap (λ t. bit_xor t (b / 2)) digits.0 ∙ ih in
    let lower =
      ap (λ t. differ t (b % 2)) digits.1
      ∙ differ_twice (a % 2) (b % 2) (omega arith) (omega arith) in
    ap (λ t. bit_xor t b) (xor_step a b) ∙ omega (arith, xor_step (q * 2 + d) b, upper, lower)

-- A claim on two numbers, from the claim on the halves of both.
pairs : (P : ℕ → ℕ → Type 0) → P 0 0 → ((a b : ℕ) → P (a / 2) (b / 2) → P a b) → (a b : ℕ) → P a b
pairs P base step a b =
    halving (λ n. (a b : ℕ) → a ≤ n → b ≤ n → P a b) none
      (λ n ih a b h h'. step a b (ih (a / 2) (b / 2) (omega arith) (omega arith))) (a + b) (a + b)
      (le_refl (a + b)) a b (omega arith) (omega arith)
  where
    none : (a b : ℕ) → a ≤ 0 → b ≤ 0 → P a b
    none zero zero h h' = base
    none (suc a) b h h' = absurd (omega arith)
    none zero (suc b) h h' = absurd (omega arith)

pub bit_xor_twice : (a b : ℕ) → bit_xor (bit_xor a b) b ≡ a
bit_xor_twice = pairs (λ a b. bit_xor (bit_xor a b) b ≡ a) refl twice_step

differ_comm : (a b : ℕ) → differ a b ≡ differ b a
differ_comm zero zero = refl
differ_comm zero (suc b) = refl
differ_comm (suc a) zero = refl
differ_comm (suc a) (suc b) = differ_comm a b

bit_xor_comm : (a b : ℕ) → bit_xor a b ≡ bit_xor b a
bit_xor_comm =
    pairs (λ a b. bit_xor a b ≡ bit_xor b a) refl
      (λ a b ih. omega (arith, xor_step a b, xor_step b a, ih, differ_comm (a % 2) (b % 2)))

pub bit_xor_injective : (a b c : ℕ) → bit_xor a b ≡ bit_xor a c → b ≡ c
bit_xor_injective a b c h =
    sym (bit_xor_twice b a)
    ∙ ap (λ t. bit_xor t a) (bit_xor_comm b a ∙ h ∙ bit_xor_comm a c)
    ∙ bit_xor_twice c a
