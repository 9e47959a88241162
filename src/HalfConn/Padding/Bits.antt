-- ===== src/HalfConn/Padding/Bits.antt =====
-- The operations on bits that extractPadding uses, as arithmetic.
use Prim.Native.Nat.{
  min, differ, digits, bitwise, bit_and, bit_xor, bit_and-bitwise, bit_xor-bitwise,
}
use native.Mathlib.Nat.{le_refl}
use mathlib.Core.Path.{ap}
use utls.Base.{
  ℕ, zero, suc, ◌+◌, ◌-◌, ◌*◌, ◌/◌, ◌%◌, ◌^◌, ◌≤◌, ◌<◌, ◌==◌, Bool, true, false, ◌&&◌, ◌≡◌, refl,
  ◌≢◌, sym, ◌∙◌, arith, if◌then◌else◌, ◌⊎◌, inl, inr, leb, ==_iff,
}
use utls.HalfConn.Padding.{minus, mask, and_not, difference, replicate_bits}

abbrev below : ℕ → (ℕ → Bool) → Bool
below zero test = true
below (suc n) test = below n test && test n

-- `bitwise` counts digits down from a number that is large enough; which one does not matter.
module _ (last : ℕ → ℕ) (op : ℕ → ℕ → ℕ) where
  digits-bitwise :
      (bound count x y : ℕ)
      → count ≤ bound
      → x ≤ count
      → digits last op count x y ≡ bitwise last op x y
  digits-bitwise bound zero zero y small enough = refl
  digits-bitwise bound (suc count) zero y small enough = refl
  digits-bitwise bound zero (suc x) y small enough = absurd (omega arith)
  digits-bitwise zero (suc count) (suc x) y small enough = absurd (omega arith)
  digits-bitwise (suc bound) (suc count) (suc x) y small enough =
      let half = suc x / 2 in
      let shorter = digits-bitwise bound count half (y / 2) (omega arith) (omega arith) in
      let shorter' = digits-bitwise bound x half (y / 2) (omega arith) (omega arith) in
      ap (λ q. q * 2 + op (suc x % 2) (y % 2)) (shorter ∙ sym shorter')

  lowest_digit :
      (x y : ℕ)
      → bitwise last op (suc x) y ≡ bitwise last op (suc x / 2) (y / 2) * 2 + op (suc x % 2) (y % 2)
  lowest_digit x y =
      ap (λ q. q * 2 + op (suc x % 2) (y % 2))
        (digits-bitwise x x (suc x / 2) (y / 2) (le_refl x) (omega arith))

and_step : (x y : ℕ) → bit_and x y ≡ bit_and (x / 2) (y / 2) * 2 + min (x % 2) (y % 2)
and_step zero y = omega (arith, bit_and-bitwise 0 y, bit_and-bitwise (0 / 2) (y / 2))
and_step (suc x) y = omega (
  arith,
  bit_and-bitwise (suc x) y,
  lowest_digit (λ b. 0) min x y,
  bit_and-bitwise (suc x / 2) (y / 2),
)

pub xor_step : (x y : ℕ) → bit_xor x y ≡ bit_xor (x / 2) (y / 2) * 2 + differ (x % 2) (y % 2)
xor_step zero y = omega (arith, bit_xor-bitwise 0 y, bit_xor-bitwise (0 / 2) (y / 2))
xor_step (suc x) y = omega (
  arith,
  bit_xor-bitwise (suc x) y,
  lowest_digit (λ b. b) differ x y,
  bit_xor-bitwise (suc x / 2) (y / 2),
)

min_le : (a b : ℕ) → (min a b ≤ a) × (min a b ≤ b)
min_le zero b = (omega arith, omega arith)
min_le (suc a) zero = (omega arith, omega arith)
min_le (suc a) (suc b) = let h = min_le a b in (omega (arith, h.0), omega (arith, h.1))

pub differ_zero : (a b : ℕ) → differ a b ≡ 0 → a ≡ b
differ_zero zero b h = omega (arith, h)
differ_zero (suc a) zero h = absurd (omega (arith, h))
differ_zero (suc a) (suc b) h = ap suc (differ_zero a b h)

differ_self : (a : ℕ) → differ a a ≡ 0
differ_self zero = refl
differ_self (suc a) = differ_self a

-- A claim for all numbers, from the claim for half of one.
pub halving :
    (P : ℕ → Type 0) → P 0 → ((a : ℕ) → P (suc a / 2) → P (suc a)) → (n a : ℕ) → a ≤ n → P a
halving P base step n zero h = base
halving P base step zero (suc a) h = absurd (omega arith)
halving P base step (suc n) (suc a) h = step a (halving P base step n (suc a / 2) (omega arith))

bit_and_le : (a b : ℕ) → (bit_and a b ≤ a) × (bit_and a b ≤ b)
bit_and_le a =
    halving (λ a. (b : ℕ) → (bit_and a b ≤ a) × (bit_and a b ≤ b))
      (λ b.
        let zero_lem = bit_and-bitwise 0 b in (omega (arith, zero_lem), omega (arith, zero_lem)))
      (λ a ih b.
        let half = ih (b / 2) in
        let digit = min_le (suc a % 2) (b % 2) in
        (
          omega (arith, and_step (suc a) b, half.0, digit.0),
          omega (arith, and_step (suc a) b, half.1, digit.1),
        ))
      a a (le_refl a)

bit_xor_zero : (a b : ℕ) → bit_xor a b ≡ 0 → a ≡ b
bit_xor_zero a =
    halving (λ a. (b : ℕ) → bit_xor a b ≡ 0 → a ≡ b) (λ b h. omega (arith, h, bit_xor-bitwise 0 b))
      (λ a ih b h.
        let step = xor_step (suc a) b in
        let half = ih (b / 2) (omega (arith, step, h)) in
        let digit = differ_zero (suc a % 2) (b % 2) (omega (arith, step, h)) in
        omega (arith, half, digit))
      a a (le_refl a)

bit_xor_self : (a : ℕ) → bit_xor a a ≡ 0
bit_xor_self a =
    halving (λ a. bit_xor a a ≡ 0) refl
      (λ a ih. omega (arith, xor_step (suc a) (suc a), ih, differ_self (suc a % 2))) a a (le_refl a)

andb-true : (x y : Bool) → (x && y) ≡ true → (x ≡ true) × (y ≡ true)
andb-true true y h = (refl, h)
andb-true false y h = absurd (cc)

trichotomy : (a n : ℕ) → a < suc n → (a < n) ⊎ (a ≡ n)
trichotomy a n h = ground arith

below-found : (n : ℕ) (test : ℕ → Bool) → below n test ≡ true → (a : ℕ) → a < n → test a ≡ true
below-found zero test h a lt = absurd (omega arith)
below-found (suc n) test h a lt =
    let both = andb-true (below n test) (test n) h in
    elim (trichotomy a n lt) [
      | inl less ↦ below-found n test both.0 a less
      | inr same ↦ rw same both.1
    ]

replicate_bits_table : below 256 (λ g. replicate_bits g == (if g == 255 then 255 else 0)) ≡ true
replicate_bits_table = refl

bit_and_255_table : below 256 (λ b. bit_and 255 b == b) ≡ true
bit_and_255_table = refl

bit_and_byte_table : below 256 (λ b. bit_and b 255 == b) ≡ true
bit_and_byte_table = refl

pub replicate_bits_lem : (g : ℕ) → g < 256 → replicate_bits g ≡ (if g == 255 then 255 else 0)
replicate_bits_lem g h = (==_iff (replicate_bits g) (if g == 255 then 255 else 0)).0 (
    below-found 256 (λ g. replicate_bits g == (if g == 255 then 255 else 0)) replicate_bits_table g
      h)

bit_and_255 : (b : ℕ) → b < 256 → bit_and 255 b ≡ b
bit_and_255 b h =
    (==_iff (bit_and 255 b) b).0 (below-found 256 (λ b. bit_and 255 b == b) bit_and_255_table b h)

pub bit_and_byte : (b : ℕ) → b < 256 → bit_and b 255 ≡ b
bit_and_byte b h =
    (==_iff (bit_and b 255) b).0 (below-found 256 (λ b. bit_and b 255 == b) bit_and_byte_table b h)

pub bit_and_none : (b : ℕ) → bit_and b 0 ≡ 0
bit_and_none b = omega (arith, (bit_and_le b 0).1)

-- A byte that loses bits is not 255 afterwards, and never becomes 255.
pub and_not_byte : (good x : ℕ) → and_not good x ≤ good
and_not_byte good x = (bit_and_le good (255 - x)).0

pub and_not_loss : (good x : ℕ) → x ≢ 0 → and_not good x < 255
and_not_loss good x h = omega (arith, (bit_and_le good (255 - x)).1, h)

-- The complement of bit 31, for a difference of two small numbers.
pub mask-minus :
    (a b : ℕ) → a < 2 ^ 31 → b < 2 ^ 31 → mask (minus a b) ≡ (if leb b a then 255 else 0)
mask-minus a b small small' = ground arith

pub difference_masked : (p b : ℕ) → difference 0 p b ≡ 0
difference_masked p b = rw (bit_and-bitwise 0 p, bit_and-bitwise 0 b) refl

pub difference_same : (p : ℕ) → difference 255 p p ≡ 0
difference_same p = bit_xor_self (bit_and 255 p)

pub difference_other : (p b : ℕ) → p < 256 → b < 256 → difference 255 p b ≡ 0 → b ≡ p
difference_other p b hp hb h =
    omega
      (arith, bit_xor_zero (bit_and 255 p) (bit_and 255 b) h, bit_and_255 p hp, bit_and_255 b hb)
