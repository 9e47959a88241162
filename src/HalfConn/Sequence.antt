-- ===== src/HalfConn/Sequence.antt =====
-- The sequence number as the number that its bytes spell, and incSeq as the successor.
use mathlib.Core.Path.{ap, subst}
use native.Mathlib.Nat.{pow-suc}
use utls.Base.{
  ℕ, zero, suc, ◌+◌, ◌*◌, ◌%◌, ◌^◌, ◌<◌, ◌==◌, false, [], ◌∷◌, ◌++◌, append-nil, append_assoc,
  Bytes, IsByte, All, length, length-append, Run, ok, panic, ◌≡◌, refl, sym, ◌∙◌, arith, ◌⊎◌, inl,
  inr,
}
use utls.Base.Buffer.{put-append}
use utls.HalfConn.{at, inc_from, inc_seq}

-- The bytes behind the number `acc`, the first the most significant.
abbrev number_from : ℕ → Bytes → ℕ
number_from acc [] = acc
number_from acc (b ∷ bs) = number_from (acc * 256 + b) bs

abbrev pub number : Bytes → ℕ
number bs = number_from 0 bs

number_from-append :
    (acc : ℕ) (xs : Bytes) (b : ℕ) → number_from acc (xs ++ b ∷ []) ≡ number_from acc xs * 256 + b
number_from-append acc [] b = refl
number_from-append acc (x ∷ xs) b = number_from-append (acc * 256 + x) xs b

All-append : (xs : Bytes) (b : ℕ) → All IsByte (xs ++ b ∷ []) → All IsByte xs × (b < 256)
All-append [] b h = (tt, h.0)
All-append (x ∷ xs) b h = let rest = All-append xs b h.1 in ((h.0, rest.0), rest.1)

All-snoc : (xs : Bytes) (b : ℕ) → All IsByte xs → b < 256 → All IsByte (xs ++ b ∷ [])
All-snoc [] b h h' = (h', tt)
All-snoc (x ∷ xs) b h h' = (h.0, All-snoc xs b h.1 h')

last_byte :
    (x : ℕ) (xs : Bytes)
    → (init : Bytes) × (b : ℕ) × (x ∷ xs ≡ init ++ b ∷ []) × (length xs ≡ length init)
last_byte x [] = ([], x, refl, refl)
last_byte x (y ∷ ys) =
    let (init, b, same, size) = last_byte y ys in
    (x ∷ init, b, ap (◌∷◌ x) same, omega (arith, size))

pub at-middle : (xs : Bytes) (b : ℕ) (post : Bytes) → at (xs ++ (b ∷ post)) (length xs) ≡ ok b
unfolding at
at-middle [] b post = refl
at-middle (x ∷ xs) b post = at-middle xs b post

-- What incrementing the number before `post` comes to.
data Counted (n : ℕ) (pre post : Bytes) (r : Run Bytes) : Type 0 where
  next_number :
      (pre' : Bytes)
      → length pre' ≡ n
      → All IsByte pre'
      → number pre' ≡ number pre + 1
      → r ≡ ok (pre' ++ post)
      → Counted n pre post r
  wraparound : number pre + 1 ≡ 256 ^ n → r ≡ panic → Counted n pre post r

carry-or : (b : ℕ) → b < 256 → ((b ≡ 255) ⊎ (b < 255))
carry-or b h = ground arith

inc_stop :
    (init : Bytes) (b : ℕ) (post : Bytes)
    → b < 255
    → inc_from (init ++ (b ∷ post)) (suc (length init)) ≡ ok (init ++ ((b + 1) ∷ post))
unfolding inc_from
inc_stop init b post h =
    let small : (b + 1) % 256 ≡ b + 1 = omega arith in
    let positive : (b + 1 == 0) ≡ false = ground arith in
    rw (at-middle init b post, put-append init b ((b + 1) % 256) post, small, positive) refl

inc_carry :
    (init post : Bytes)
    → inc_from (init ++ (255 ∷ post)) (suc (length init))
      ≡ inc_from (init ++ (0 ∷ post)) (length init)
unfolding inc_from
inc_carry init post = rw (at-middle init 255 post, put-append init 255 0 post) refl

Counted-last :
    (init : Bytes) (b : ℕ) (post : Bytes)
    → All IsByte (init ++ b ∷ [])
    → Counted (length init) init (0 ∷ post) (inc_from (init ++ (0 ∷ post)) (length init))
    → Counted
        (suc (length init))
        (init ++ b ∷ [])
        post
        (inc_from (init ++ (b ∷ post)) (suc (length init)))
Counted-last init b post bytes ih =
    let (init_bytes, hb) = All-append init b bytes in
    elim (carry-or b hb) [
      | inr less ↦
          next_number (init ++ (b + 1) ∷ []) (omega (arith, length-append init ((b + 1) ∷ [])))
            (All-snoc init (b + 1) init_bytes (omega arith))
            (omega (arith, number_from-append 0 init b, number_from-append 0 init (b + 1)))
            (inc_stop init b post less ∙ ap ok (sym (append_assoc init ((b + 1) ∷ []) post)))
      | inl full ↦
          let carried : inc_from (init ++ (b ∷ post)) (suc (length init))
              ≡ inc_from (init ++ (0 ∷ post)) (length init) =
            rw full (inc_carry init post) in
          elim ih [
            | next_number pre' size bytes' next returned ↦
                next_number (pre' ++ 0 ∷ []) (omega (arith, size, length-append pre' (0 ∷ [])))
                  (All-snoc pre' 0 bytes' (omega arith))
                  (omega
                    (arith, full, next, number_from-append 0 init b, number_from-append 0 pre' 0))
                  (carried ∙ returned ∙ ap ok (sym (append_assoc pre' (0 ∷ []) post)))
            | wraparound top panics ↦
                wraparound
                  (omega (arith, full, top, number_from-append 0 init b, pow-suc 256 (length init)))
                  (carried ∙ panics)
          ]
    ]

inc_zero : (seq : Bytes) → inc_from seq 0 ≡ panic
unfolding inc_from
inc_zero seq = refl

Counted-behind :
    (n : ℕ) (init : Bytes) (b : ℕ) (post : Bytes)
    → n ≡ length init
    → All IsByte (init ++ b ∷ [])
    → Counted n init (0 ∷ post) (inc_from (init ++ (0 ∷ post)) n)
    → Counted (suc n) (init ++ b ∷ []) post (inc_from (init ++ (b ∷ post)) (suc n))
Counted-behind n init b post count bytes ih =
    rw count (Counted-last init b post bytes (rw count at ih))

counted :
    (n : ℕ) (pre post : Bytes)
    → length pre ≡ n
    → All IsByte pre
    → Counted n pre post (inc_from (pre ++ post) n)
counted zero [] post size bytes = wraparound refl (inc_zero post)
counted zero (x ∷ xs) post size bytes = absurd (omega arith)
counted (suc n) [] post size bytes = absurd (omega arith)
counted (suc n) (x ∷ xs) post size bytes =
    let (init, b, same, size') = last_byte x xs in
    let bytes' = subst (All IsByte) same bytes in
    let ih = counted n init (0 ∷ post) (omega arith) (All-append init b bytes').0 in
    subst (λ pre. Counted (suc n) pre post (inc_from (pre ++ post) (suc n))) (sym same)
      (rw (append_assoc init (b ∷ []) post) (Counted-behind n init b post (omega arith) bytes' ih))

-- incSeq on eight bytes that do not spell 2^64 - 1 returns eight bytes that spell the next number, and
-- panics on those that do.
pub inc_seq_lem :
    (seq : Bytes)
    → length seq ≡ 8
    → All IsByte seq
    → ((seq' : Bytes) × (inc_seq seq ≡ ok seq')
        × (length seq' ≡ 8)
        × All IsByte seq'
        × (number seq' ≡ number seq + 1))
      ⊎ ((number seq + 1 ≡ 2 ^ 64) × (inc_seq seq ≡ panic))
unfolding inc_seq
inc_seq_lem seq size bytes =
    let same : inc_from (seq ++ []) 8 ≡ inc_from seq 8 = ap (λ t. inc_from t 8) (append-nil seq) in
    elim (counted 8 seq [] size bytes) [
      | next_number seq' size' bytes' next returned ↦
          inl (seq', (sym same ∙ returned ∙ ap ok (append-nil seq')), size', bytes', next)
      | wraparound top panics ↦ inr (top, sym same ∙ panics)
    ]
