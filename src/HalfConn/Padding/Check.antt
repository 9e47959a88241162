-- ===== src/HalfConn/Padding/Check.antt =====
-- The loop of extractPadding: 255 is left exactly if each byte that counts is the padding length.
use utls.Base.{
  ℕ, zero, suc, ◌+◌, ◌-◌, ◌≤◌, ◌<◌, leb, true, false, [], ◌∷◌, Bytes, IsByte, All, length, ok,
  ok-injective, ◌≡◌, refl, sym, ◌∙◌, arith, ◌↔◌, ◌⊎◌, inl, inr, ◌≢◌,
}
use utls.HalfConn.{at}
use utls.HalfConn.Padding.{check_bytes, and_not, difference, mask, minus}
use utls.HalfConn.Padding.Bits.{
  and_not_byte, and_not_loss, mask-minus, difference_masked, difference_same, difference_other,
}

first_or : (i k : ℕ) → i ≤ k → (i ≡ k) ⊎ (i < k)
first_or i k h = ground arith

-- An index in range has a byte.
pub at-returned :
    (b : Bytes) (i : ℕ) → All IsByte b → i < length b → (v : ℕ) × (at b i ≡ ok v) × (v < 256)
unfolding at
at-returned [] i h lt = absurd (omega arith)
at-returned (x ∷ b) zero h lt = (x, refl, h.0)
at-returned (x ∷ b) (suc i) h lt = at-returned b i h.1 (omega arith)

-- The bytes with the places `i` to `j` from the end that the padding length reaches are equal to it.
abbrev pub Agrees : Bytes → ℕ → ℕ → ℕ → Type 0
Agrees payload p i j = (k : ℕ) → i ≤ k → k < j → k ≤ p → at payload (length payload - 1 - k) ≡ ok p

Agrees-first :
    (payload : Bytes) (p i n : ℕ)
    → (i ≤ p → at payload (length payload - 1 - i) ≡ ok p)
    → Agrees payload p (suc i) (suc i + n)
    → Agrees payload p i (i + suc n)
Agrees-first payload p i n first rest k from until reach = elim (first_or i k from) [
  | inl here ↦ rw (← here) (first (omega arith))
  | inr later ↦ rest k later (omega arith) reach
]

-- What is left of `good` after the place `i`, where the byte `b` stands.
abbrev after : ℕ → ℕ → ℕ → ℕ → ℕ
after p i good b = and_not good (difference (mask (minus p i)) p b)

leb-cases : (i p : ℕ) → ((leb i p ≡ true) × (i ≤ p)) ⊎ ((leb i p ≡ false) × (p < i))
leb-cases i p = ground arith

after_reached :
    (p i good b : ℕ)
    → p < 256
    → i < 256
    → leb i p ≡ true
    → after p i good b ≡ and_not good (difference 255 p b)
after_reached p i good b hp hi h = rw (mask-minus p i (omega arith) (omega arith), h) refl

after_beyond :
    (p i good b : ℕ) → p < 256 → i < 256 → leb i p ≡ false → after p i good b ≡ and_not good 0
after_beyond p i good b hp hi h =
    rw (mask-minus p i (omega arith) (omega arith), h, difference_masked p b) refl

after_agreed :
    (p i good b : ℕ) → p < 256 → i < 256 → good ≡ 255 → (i ≤ p → b ≡ p) → after p i good b ≡ 255
after_agreed p i good b hp hi full same = elim (leb-cases i p) [
  | inl reached ↦
      rw (after_reached p i good b hp hi reached.0, same reached.1, difference_same p, full) refl
  | inr beyond ↦ rw (after_beyond p i good b hp hi beyond.0, full) refl
]

zero-or : (n : ℕ) → (n ≡ 0) ⊎ (n ≢ 0)
zero-or n = ground arith

after_full :
    (p i good b : ℕ)
    → p < 256
    → i < 256
    → b < 256
    → good ≤ 255
    → after p i good b ≡ 255
    → (good ≡ 255) × (i ≤ p → b ≡ p)
after_full p i good b hp hi hb le h = (
  omega (arith, h, and_not_byte good (difference (mask (minus p i)) p b)),
  elim (leb-cases i p) [
    | inr beyond ↦ λ reach. absurd (omega (arith, beyond.1))
    | inl reached ↦
        let kept = after_reached p i good b hp hi reached.0 in
        elim (zero-or (difference 255 p b)) [
          | inl none_lost ↦ λ reach. difference_other p b hp hb none_lost
          | inr lost ↦ absurd (omega (arith, kept, h, and_not_loss good (difference 255 p b) lost))
        ]
  ],
)

-- What the loop leaves, and when that is 255.
pub check_bytes_lem :
    (payload : Bytes) (p n i good : ℕ)
    → All IsByte payload
    → p < 256
    → i + n ≤ 256
    → i + n ≤ length payload
    → good ≤ 255
    → (left : ℕ) × (check_bytes payload p n i good ≡ ok left)
      × (left ≤ good)
      × ((left ≡ 255) ↔ ((good ≡ 255) × Agrees payload p i (i + n)))
unfolding check_bytes
check_bytes_lem payload p zero i good bytes hp h h' le = (
  good,
  refl,
  omega arith,
  (λ full. (full, λ k from until reach. absurd (omega arith)), λ both. both.0),
)
check_bytes_lem payload p (suc n) i good bytes hp h h' le =
    let (b, found, hb) = at-returned payload (length payload - 1 - i) bytes (omega arith) in
    let good' = after p i good b in
    let less = and_not_byte good (difference (mask (minus p i)) p b) in
    let (left, rest, lower, full) =
      check_bytes_lem payload p n (suc i) good' bytes hp (omega arith) (omega arith)
        (omega arith) in
    (
      left,
      rw (found) rest,
      omega arith,
      (
        (λ is_full.
            let (good_full, rest_agrees) = full.0 is_full in
            let (was_full, same) = after_full p i good b hp (omega arith) hb le good_full in
            (
              was_full,
              Agrees-first payload p i n (λ reach. rw (found, same reach) refl) rest_agrees,
            )),
        (λ both. full.1 (
          after_agreed p i good b hp (omega arith) both.0
              (λ reach. ok-injective (sym found ∙ both.1 i (omega arith) (omega arith) reach)),
          λ k from until reach. both.1 k (omega arith) (omega arith) reach,
        )),
      ),
    )
