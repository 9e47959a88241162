-- ===== src/Messages/Ends.antt =====
-- The unmarshals with a loop end on every input.
use utls.Base.{
  ℕ, zero, suc, ◌+◌, ◌%◌, ◌^◌, ◌≤◌, ◌<◌, Bool, true, false, not, ◌==◌, ltb, [], ◌∷◌, some, Bytes,
  length, drop, if◌then◌else◌, Option-cases, Bool-cases, inl, inr, ◌≡◌, ◌≢◌, refl, sym, arith,
}
use utls.Cryptobyte.{Reader}
use utls.Cryptobyte.Loops.{Outcome, done, refused, out_of_fuel}
use utls.Cryptobyte.Advances.{
  rest_of, no_read, length-drop, read_uint16-shorter, read_vec16-shorter,
}
use utls.Messages.{
  whole, SessionTicket, ticket_extension_step, ticket_extensions, with_early_data,
  session_ticket_fields, session_ticket_unmarshal,
}
use utls.Messages.Plain.{
  u24_at, minus32, one_more, taken, count_certificates, certificate_unmarshal,
}

one_more-ends : (o : Outcome ℕ) → o ≢ out_of_fuel → one_more o ≢ out_of_fuel
one_more-ends (done m) h = λ e. cc
one_more-ends refused h = λ e. cc
one_more-ends out_of_fuel h = λ _. h refl

if-ends {ℓ} :
    {A : Type ℓ} (b : Bool) (x y : Outcome A)
    → x ≢ out_of_fuel
    → (b ≡ false → y ≢ out_of_fuel)
    → (if b then x else y) ≢ out_of_fuel
if-ends true x y hx hy = hx
if-ends false x y hx hy = hy refl

taken-ends : (d : Bytes) (o : Outcome ℕ) → o ≢ out_of_fuel → taken d o ≢ out_of_fuel
taken-ends d (done m) h = λ e. cc
taken-ends d refused h = λ e. cc
taken-ends d out_of_fuel h = λ _. h refl

false→le : (a b : ℕ) → ltb a b ≡ false → b ≤ a
false→le a b h = ground arith

shorter : (k : ℕ) (d : Bytes) → 4 ≤ length d → length (drop (3 + k) d) < length d
shorter k [] h = absurd (omega arith)
shorter k (a ∷ d) h =
    rw (let e : 3 + k ≡ suc (2 + k) = omega arith in e) (omega (arith, length-drop (2 + k) d))

count_certificates-ends :
    (fuel n : ℕ) (d : Bytes) → length d < fuel → count_certificates fuel n d ≢ out_of_fuel
unfolding count_certificates
count_certificates-ends fuel zero d h = λ e. cc
count_certificates-ends zero (suc n) d h = absurd (omega arith)
count_certificates-ends (suc fuel) (suc n) d h = elim (Bool-cases (ltb (length d) 4)) [
  | inl short ↦ rw (count_certificates, short) (λ e. cc)
  | inr long ↦
      let k = 3 + u24_at 0 d in
      let enough = false→le (length d) 4 long in
      let less = shorter (u24_at 0 d) d enough in
      rw (count_certificates, long)
        (if-ends (ltb (length d % 2 ^ 32) k) refused _ (λ e. cc)
          λ _.
            one_more-ends _
              (count_certificates-ends fuel (minus32 (suc n) k) (drop k d) (omega arith)))
]

certificate_unmarshal-ends : (m : Bytes) → certificate_unmarshal m ≢ out_of_fuel
unfolding certificate_unmarshal
certificate_unmarshal-ends m =
    if-ends (ltb (length m) 7) refused _ (λ e. cc)
      λ long.
        if-ends (not (length m % 2 ^ 32 == (u24_at 4 m + 7) % 2 ^ 32)) refused _ (λ e. cc)
          λ _. taken-ends (drop 7 m) _ (
            count_certificates-ends (length m) (u24_at 4 m) (drop 7 m)
              (let large = false→le (length m) 7 long in shorter 4 m (omega arith)))

module _ (c : Reader) where
  ticket_extension_step-shorter :
      (max : ℕ) (s : Bytes) (n : ℕ) (rest : Bytes)
      → ticket_extension_step c max s ≡ some (n, rest)
      → length rest < length s
  unfolding ticket_extension_step
  ticket_extension_step-shorter max s n rest h = elim (Option-cases (c.read_uint16 s)) [
    | inl bad ↦
        absurd
          (no_read (ticket_extension_step c max s) (n, rest) (rw (bad, ticket_extension_step)) h)
    | inr ((id, s₁), good) ↦ elim (Option-cases (c.read_uint16_length_prefixed s₁)) [
      | inl bad ↦ absurd (
          no_read (ticket_extension_step c max s) (n, rest)
            (rw (good, ticket_extension_step) (rw bad)) h)
      | inr ((body, r), good₁) ↦
          let first = read_uint16-shorter c s id s₁ good in
          let second = read_vec16-shorter c s₁ body r good₁ in
          elim (Bool-cases (id == 42)) [
            | inr other ↦
                let e =
                  rest_of (ticket_extension_step c max s) max n r rest
                    (rw (good, ticket_extension_step) (rw (good₁, other))) h in
                rw (sym e) (omega arith)
            | inl early ↦ elim (Option-cases (whole (c.read_uint32 body))) [
              | inl bad ↦ absurd (
                  no_read (ticket_extension_step c max s) (n, rest)
                    (rw (good, ticket_extension_step) (rw (good₁, early) (rw bad))) h)
              | inr (k, good₂) ↦
                  let e =
                    rest_of (ticket_extension_step c max s) k n r rest
                      (rw (good, ticket_extension_step) (rw (good₁, early) (rw good₂))) h in
                  rw (sym e) (omega arith)
            ]
          ]
    ]
  ]

  ticket_extensions-ends :
      (fuel max : ℕ) (s : Bytes) → length s ≤ fuel → ticket_extensions c fuel max s ≢ out_of_fuel
  unfolding ticket_extensions
  ticket_extensions-ends fuel max [] h = λ e. cc
  ticket_extensions-ends zero max (b ∷ s) h = absurd (omega arith)
  ticket_extensions-ends (suc fuel) max (b ∷ s) h =
      elim (Option-cases (ticket_extension_step c max (b ∷ s))) [
        | inl bad ↦ rw (bad, ticket_extensions) (λ e. cc)
        | inr ((n, rest), good) ↦
            let less = ticket_extension_step-shorter max (b ∷ s) n rest good in
            rw (good, ticket_extensions) (ticket_extensions-ends fuel n rest (omega arith))
      ]

  with_early_data-ends :
      (t : SessionTicket) (o : Outcome ℕ) → o ≢ out_of_fuel → with_early_data c t o ≢ out_of_fuel
  with_early_data-ends t (done n) h = λ e. cc
  with_early_data-ends t refused h = λ e. cc
  with_early_data-ends t out_of_fuel h = λ _. h refl

  session_ticket_unmarshal-ends : (m : Bytes) → session_ticket_unmarshal c m ≢ out_of_fuel
  unfolding session_ticket_unmarshal
  session_ticket_unmarshal-ends m = elim (Option-cases (session_ticket_fields c m)) [
    | inl bad ↦ rw (bad, session_ticket_unmarshal) (λ e. cc)
    | inr ((t, extensions), good) ↦
        rw (good, session_ticket_unmarshal)
          (with_early_data-ends t _
            (ticket_extensions-ends (length extensions) 0 extensions (omega arith)))
  ]

  -- Unmarshal of a certificate message and of a TLS 1.3 session ticket return on every input, with the
  -- message or refusing it: the length of the input is enough fuel for their loops.
  pub unmarshal-ends :
      (m : Bytes)
      → (certificate_unmarshal m ≢ out_of_fuel) × (session_ticket_unmarshal c m ≢ out_of_fuel)
  unmarshal-ends m = (certificate_unmarshal-ends m, session_ticket_unmarshal-ends m)
