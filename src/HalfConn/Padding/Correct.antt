-- ===== src/HalfConn/Padding/Correct.antt =====
-- extractPadding compared with the padding of the TLS records: `p + 1` bytes `p` at the end.
use Prim.Native.Nat.{bit_and}
use mathlib.Core.Path.{ap}
use utls.Base.{
  ℕ, zero, suc, ◌+◌, ◌-◌, ◌^◌, ◌≤◌, ◌<◌, ◌==◌, ltb, leb, true, false, [], ◌∷◌, ◌++◌, Bytes, IsByte,
  All, length, take, drop, replicate, take-append-drop, length-append, length-replicate, Run, ok,
  ◌≡◌, refl, sym, ◌∙◌, arith, ◌⊎◌, inl, inr, if◌then◌else◌, ok-injective,
}
use utls.HalfConn.{at}
use utls.HalfConn.Padding.{extract_padding, check_bytes, mask, minus, replicate_bits}
use utls.HalfConn.Padding.Bits.{replicate_bits_lem, bit_and_byte, bit_and_none, mask-minus}
use utls.HalfConn.Padding.Check.{Agrees, at-returned, check_bytes_lem}

abbrev pub IsPadded : Bytes → ℕ → Type 0
IsPadded payload p = (content : Bytes) × (payload ≡ content ++ replicate (suc p) p)

pub at-append : (xs ys : Bytes) (j : ℕ) → at (xs ++ ys) (length xs + j) ≡ at ys j
unfolding at
at-append [] ys j = ap (at ys) (omega arith)
at-append (x ∷ xs) ys j =
    let place : suc (length xs) + j ≡ suc (length xs + j) = omega arith in
    rw place (at-append xs ys j)

at-replicate : (n p j : ℕ) → j < n → at (replicate n p) j ≡ ok p
unfolding at
at-replicate zero p j h = absurd (omega arith)
at-replicate (suc n) p zero h = refl
at-replicate (suc n) p (suc j) h = at-replicate n p j (omega arith)

at-drop : (m : ℕ) (xs : Bytes) (j : ℕ) → at (drop m xs) j ≡ at xs (m + j)
unfolding at
at-drop zero xs j = ap (at xs) (omega arith)
at-drop (suc m) [] j = refl
at-drop (suc m) (x ∷ xs) j =
    let place : suc m + j ≡ suc (m + j) = omega arith in rw place (at-drop m xs j)

all_equal :
    (ys : Bytes) (p : ℕ) → ((j : ℕ) → j < length ys → at ys j ≡ ok p) → ys ≡ replicate (length ys) p
unfolding at
all_equal [] p h = refl
all_equal (y ∷ ys) p h =
    rw (ok-injective (h 0 (omega arith)), ← all_equal ys p (λ j lt. h (suc j) (omega arith))) refl

length-drop : (m : ℕ) (xs : Bytes) → m ≤ length xs → length (drop m xs) ≡ length xs - m
length-drop zero xs h = omega arith
length-drop (suc m) [] h = absurd (omega arith)
length-drop (suc m) (x ∷ xs) h = omega (arith, length-drop m xs (omega arith))

IsPadded-Agrees : (payload : Bytes) (p : ℕ) → IsPadded payload p → Agrees payload p 0 (suc p)
IsPadded-Agrees payload p (content, same) k from until reach =
    let size = length-append content (replicate (suc p) p) in
    let size' = length-replicate (suc p) p in
    let place : length payload - 1 - k ≡ length content + (p - k) =
      rw same (omega (arith, size, size')) in
    rw (place, same, at-append content (replicate (suc p) p) (p - k))
      (at-replicate (suc p) p (p - k) (omega arith))

Agrees-IsPadded :
    (payload : Bytes) (p : ℕ) → p < length payload → Agrees payload p 0 (suc p) → IsPadded payload p
Agrees-IsPadded payload p h agrees =
    let m = length payload - suc p in
    let size : length (drop m payload) ≡ suc p =
      omega (arith, length-drop m payload (omega arith)) in
    let equal = all_equal (drop m payload) p (λ j lt.
      let place : m + j ≡ length payload - 1 - (p - j) = omega (arith, size) in
      rw (at-drop m payload j, place) (agrees (p - j) (omega arith) (omega arith) (omega arith))) in
    let whole : drop m payload ≡ replicate (suc p) p = equal ∙ ap (λ n. replicate n p) size in
    (take m payload, sym (take-append-drop m payload) ∙ ap (λ t. take m payload ++ t) whole)

-- What the code computes from the last byte `p` and what the loop has left.
abbrev finished : ℕ → ℕ → ℕ × ℕ
finished p checked = let good = replicate_bits checked in (bit_and p good + 1, good)

finished_full : (p : ℕ) → p < 256 → finished p 255 ≡ (p + 1, 255)
finished_full p h = rw (replicate_bits_lem 255 (omega arith), bit_and_byte p h) refl

finished_less : (p checked : ℕ) → checked < 255 → finished p checked ≡ (1, 0)
finished_less p checked h =
    let other : (checked == 255) ≡ false = ground arith in
    rw (replicate_bits_lem checked (omega arith), other, bit_and_none p) refl

abbrev checks : Bytes → ℕ
checks payload = if ltb (length payload) 256 then length payload else 256

extract_padding-checked :
    (payload : Bytes) (p start left : ℕ)
    → 0 < length payload
    → at payload (length payload - 1) ≡ ok p
    → mask (minus (length payload - 1) p) ≡ start
    → check_bytes payload p (checks payload) 0 start ≡ ok left
    → extract_padding payload ≡ ok (finished p left)
unfolding extract_padding
extract_padding-checked [] p start left h found masked checked = absurd (omega arith)
extract_padding-checked (x ∷ xs) p start left h found masked checked =
    rw (found, masked, checked) refl

checks_bound : (payload : Bytes) → (checks payload ≤ 256) × (checks payload ≤ length payload)
checks_bound payload = ground arith

checks_reach : (n k p : ℕ) → p < n → p < 256 → k ≤ p → k < 0 + (if ltb n 256 then n else 256)
checks_reach n k p h h' reach = ground arith

-- The padding length either fits the payload, or the mask is empty.
first_mask :
    (n p : ℕ)
    → 0 < n
    → n < 2 ^ 31
    → p < 256
    → ((p < n) × (mask (minus (n - 1) p) ≡ 255)) ⊎ ((n ≤ p) × (mask (minus (n - 1) p) ≡ 0))
first_mask n p pos small hp =
    let lem = mask-minus (n - 1) p (omega arith) (omega arith) in
    elim (fits (n - 1) p) [
      | inl (le, is) ↦ inl (omega arith, rw (lem, is) refl)
      | inr (gt, is) ↦ inr (omega arith, rw (lem, is) refl)
    ]
  where
    fits : (m p : ℕ) → ((p ≤ m) × (leb p m ≡ true)) ⊎ ((m < p) × (leb p m ≡ false))
    fits m p = ground arith

full-or : (left : ℕ) → left ≤ 255 → (left ≡ 255) ⊎ (left < 255)
full-or left h = ground arith

IsPadded-last :
    (payload : Bytes) (p q : ℕ)
    → IsPadded payload q
    → at payload (length payload - 1) ≡ ok p
    → (q ≡ p) × (q < length payload)
IsPadded-last payload p q padded found =
    let last = IsPadded-Agrees payload q padded 0 (omega arith) (omega arith) (omega arith) in
    let (content, same) = padded in
    (
      ok-injective (sym last ∙ ap (at payload) (omega arith) ∙ found),
      rw same
          (omega (arith, length-append content (replicate (suc q) q), length-replicate (suc q) q)),
    )

pub data Extracted (payload : Bytes) (r : Run (ℕ × ℕ)) : Type 0 where
  padded : (p : ℕ) → p < 256 → IsPadded payload p → r ≡ ok (p + 1, 255) → Extracted payload r
  refused : ((p : ℕ) → ¬ IsPadded payload p) → r ≡ ok (1, 0) → Extracted payload r

module _ (payload : Bytes) (bytes : All IsByte payload) (pos : 0 < length payload)
    (small : length payload < 2 ^ 31) (p : ℕ) (hp : p < 256)
    (found : at payload (length payload - 1) ≡ ok p) where
  long_padding :
      length payload ≤ p
      → mask (minus (length payload - 1) p) ≡ 0
      → Extracted payload (extract_padding payload)
  long_padding h masked =
      let bound = checks_bound payload in
      let (left, run, lower, full) =
        check_bytes_lem payload p (checks payload) 0 0 bytes hp (omega (arith, bound.0))
          (omega (arith, bound.1)) (omega arith) in
      refused
        (λ q padded.
          let (same, less) = IsPadded-last payload p q padded found in omega (arith, same, less, h))
        (extract_padding-checked payload p 0 left pos found masked run
          ∙ ap ok (finished_less p left (omega arith)))

  fitting_padding :
      p < length payload
      → mask (minus (length payload - 1) p) ≡ 255
      → Extracted payload (extract_padding payload)
  fitting_padding h masked =
      let bound = checks_bound payload in
      let (left, run, lower, full) =
        check_bytes_lem payload p (checks payload) 0 255 bytes hp (omega (arith, bound.0))
          (omega (arith, bound.1)) (omega arith) in
      let result = extract_padding-checked payload p 255 left pos found masked run in
      elim (full-or left lower) [
        | inl is_full ↦
            let agrees = (full.0 is_full).1 in
            padded p hp
              (Agrees-IsPadded payload p h (λ k from until reach.
                agrees k from (checks_reach (length payload) k p h hp reach) reach))
              (result ∙ rw is_full (ap ok (finished_full p hp)))
        | inr less ↦
            refused
              (λ q is_padded.
                let (same, _) = IsPadded-last payload p q is_padded found in
                let agrees = IsPadded-Agrees payload q is_padded in
                omega (
                  arith,
                  less,
                  full.1 (
                    refl,
                    λ k from until reach.
                        rw (← same) (agrees k from (omega (arith, same)) (omega (arith, same))),
                  ),
                ))
              (result ∙ ap ok (finished_less p left less))
      ]

-- For a payload of bytes that is not empty and shorter than 2^31, extractPadding returns: the number of bytes
-- to remove and 255 if the payload ends in p + 1 bytes p for some p, and 1 and 0 if it does not for any p.
pub extract_padding_lem :
    (payload : Bytes)
    → All IsByte payload
    → 0 < length payload
    → length payload < 2 ^ 31
    → Extracted payload (extract_padding payload)
extract_padding_lem payload bytes pos small =
    let (p, found, hp) = at-returned payload (length payload - 1) bytes (omega arith) in
    elim (first_mask (length payload) p pos small hp) [
      | inl (fits, masked) ↦ fitting_padding payload bytes pos small p hp found fits masked
      | inr (long, masked) ↦ long_padding payload bytes pos small p hp found long masked
    ]

-- On padding of `q + 1` bytes `q`, that many bytes are to be removed.
pub extract_padding-IsPadded :
    (payload : Bytes) (q : ℕ)
    → All IsByte payload
    → length payload < 2 ^ 31
    → IsPadded payload q
    → extract_padding payload ≡ ok (q + 1, 255)
extract_padding-IsPadded payload q bytes small is_padded =
    let last = IsPadded-Agrees payload q is_padded 0 (omega arith) (omega arith) (omega arith) in
    let (same, less) = IsPadded-last payload q q is_padded (ap (at payload) (omega arith) ∙ last) in
    elim (extract_padding_lem payload bytes (omega arith) small) [
      | padded p hp padded' result ↦
          let last' =
            IsPadded-Agrees payload p padded' 0 (omega arith) (omega arith) (omega arith) in
          result ∙ ap (λ n. ok (n + 1, 255)) (ok-injective (sym last' ∙ last))
      | refused none_is result ↦ absurd (none_is q is_padded)
    ]
