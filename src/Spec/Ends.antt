-- ===== src/Spec/Ends.antt =====
-- FromRaw ends on every input: none of the loops that it calls runs out of fuel.
use utls.Base.{
  ℕ, zero, suc, ◌≤◌, ◌<◌, Bool, true, false, not, ◌==◌, List, [], ◌∷◌, Option, none, some, Bytes,
  length, if◌then◌else◌, Option-cases, ◌⊎◌, inl, inr, ◌≡◌, ◌≢◌, refl, arith,
}
use utls.Grease.{un_grease_uint16}
use utls.Cryptobyte.{Reader}
use utls.Cryptobyte.Loops.{Outcome, done, refused, out_of_fuel, read_all-ends}
use utls.Cryptobyte.Advances.{read_uint16-shorter, read_vec16-shorter}
use utls.Extension.Write.{
  FromId, known, session_ticket, fake_pre_shared_key, quic_transport_parameters, grease_ech,
  unknown, extension_from_id,
}
use utls.Extension.Write.Ends.{u16_step-Advances, write-ends}
use utls.Extension.Write.Parts.{WriteResult, wrote, failed, stuck, u16_step}
use utls.Session.State.{PskIdentity}
use utls.Spec.{
  SpecExtension, Spec, ParseError, Parsed, parsed, rejected, unended, and_then, need, Step, stop,
  go, with_suites, read_cipher_suites, as_plain, as_fake, as_ech, extension_write, take_known,
  take_extension, extension_step, extensions_loop, reset_versions, read_tls_extensions, new_spec,
  message_error, session_id_error, cipher_suites_error, compression_methods_error, extensions_error,
  record_error,
}
use utls.Spec.Others.{GreaseEch}
use utls.Spec.Others.Ends.{fake_psk_write-ends}
use utls.Spec.Raw.{
  record_header, message_header, read_extensions_block, read_fields, read_message, from_raw,
}

abbrev IsStep : Bytes → Step → Type 0
IsStep s (stop r) = r ≢ unended
IsStep s (go p rest) = length rest < length s

parsed-ends : (p : Spec) → parsed p ≢ unended
parsed-ends p e = cc

rejected-ends : (e : ParseError) (p : Spec) → rejected e p ≢ unended
rejected-ends e p h = cc

and_then-ends :
    (r : Parsed) (next : Spec → Parsed)
    → r ≢ unended
    → ((p : Spec) → next p ≢ unended)
    → and_then r next ≢ unended
and_then-ends (parsed p) next hr hn = hn p
and_then-ends (rejected e p) next hr hn = rejected-ends e p
and_then-ends unended next hr hn = λ _. hr refl

need-ends {ℓ} :
    {A : Type ℓ} (e : ParseError) (p : Spec) (o : Option A) (next : A → Parsed)
    → ((a : A) → next a ≢ unended)
    → need e p o next ≢ unended
need-ends e p none next h = rejected-ends e p
need-ends e p (some a) next h = h a

if-ends : (b : Bool) (x y : Parsed) → x ≢ unended → y ≢ unended → (if b then x else y) ≢ unended
if-ends true x y hx hy = hx
if-ends false x y hx hy = hy

as_plain-ends : (r : WriteResult) → r ≢ stuck → as_plain r ≢ out_of_fuel
as_plain-ends (wrote e n) h = λ e. cc
as_plain-ends (failed n) h = λ e. cc
as_plain-ends stuck h = λ _. h refl

as_fake-ends :
    (o : Outcome (List PskIdentity × List Bytes)) → o ≢ out_of_fuel → as_fake o ≢ out_of_fuel
as_fake-ends (done (ids, bs)) h = λ e. cc
as_fake-ends refused h = λ e. cc
as_fake-ends out_of_fuel h = λ _. h refl

as_ech-ends : (o : Option GreaseEch) → as_ech o ≢ out_of_fuel
as_ech-ends none = λ e. cc
as_ech-ends (some g) = λ e. cc

with_suites-ends : (p : Spec) (o : Outcome (List ℕ)) → o ≢ out_of_fuel → with_suites p o ≢ unended
with_suites-ends p (done xs) h = parsed-ends _
with_suites-ends p refused h = rejected-ends _ _
with_suites-ends p out_of_fuel h = λ _. h refl

read_cipher_suites-ends : (c : Reader) (b : Bytes) (p : Spec) → read_cipher_suites c b p ≢ unended
unfolding read_cipher_suites
read_cipher_suites-ends c b p = with_suites-ends p _ (
    read_all-ends (u16_step c un_grease_uint16) (u16_step-Advances c un_grease_uint16) (length b) b
      (omega arith))

module _ (c : Reader) (random : ℕ → Option Bytes) where
  extension_write-ends :
      (real : Bool) (x : FromId) (b : Bytes) → extension_write c random real x b ≢ out_of_fuel
  unfolding extension_write
  extension_write-ends real (known e) b = as_plain-ends _ (write-ends c e b)
  extension_write-ends real session_ticket b = λ e. cc
  extension_write-ends true fake_pre_shared_key b = λ e. cc
  extension_write-ends false fake_pre_shared_key b = as_fake-ends _ (fake_psk_write-ends c b)
  extension_write-ends real quic_transport_parameters b = λ e. cc
  extension_write-ends real grease_ech b = as_ech-ends _
  extension_write-ends real unknown b = λ e. cc

  take_known-IsStep :
      (s rest : Bytes) (p : Spec) (o : Outcome SpecExtension)
      → length rest < length s
      → o ≢ out_of_fuel
      → IsStep s (take_known c random p rest o)
  take_known-IsStep s rest p (done e) less h = less
  take_known-IsStep s rest p refused less h = rejected-ends _ _
  take_known-IsStep s rest p out_of_fuel less h = λ _. h refl

  take_extension-IsStep :
      (blunt real : Bool) (p : Spec) (id : ℕ) (body rest s : Bytes) (x : FromId)
      → length rest < length s
      → IsStep s (take_extension c random blunt real p id body rest x)
  unfolding take_extension
  take_extension-IsStep true real p id body rest s unknown less = less
  take_extension-IsStep false real p id body rest s unknown less = rejected-ends _ _
  take_extension-IsStep blunt real p id body rest s x less =
      take_known-IsStep s rest (reset_versions id p) _ less (extension_write-ends real x body)

  extension_step-IsStep :
      (blunt real : Bool) (p : Spec) (s : Bytes) → IsStep s (extension_step c random blunt real p s)
  unfolding extension_step
  extension_step-IsStep blunt real p s = elim (Option-cases (c.read_uint16 s)) [
    | inl bad ↦ rw (bad, extension_step) (rejected-ends _ _)
    | inr ((id, s₁), good) ↦ elim (Option-cases (c.read_uint16_length_prefixed s₁)) [
      | inl bad ↦ rw (good, extension_step) (rw bad (rejected-ends _ _))
      | inr ((body, rest), good₁) ↦
          let first = read_uint16-shorter c s id s₁ good in
          let second = read_vec16-shorter c s₁ body rest good₁ in
          rw (good, extension_step)
            (rw good₁ (
              take_extension-IsStep blunt real p id body rest s (extension_from_id id)
                (omega arith)))
    ]
  ]

  Step-cases :
      (t : Step) → ((r : Parsed) × (t ≡ stop r)) ⊎ ((p : Spec) × (rest : Bytes) × (t ≡ go p rest))
  Step-cases (stop r) = inl (r, refl)
  Step-cases (go p rest) = inr (p, rest, refl)

  extensions_loop-ends :
      (blunt real : Bool) (fuel : ℕ) (s : Bytes) (p : Spec)
      → length s ≤ fuel
      → extensions_loop c random blunt real fuel s p ≢ unended
  unfolding extensions_loop
  extensions_loop-ends blunt real fuel [] p h = parsed-ends p
  extensions_loop-ends blunt real zero (b ∷ s) p h = absurd (omega arith)
  extensions_loop-ends blunt real (suc fuel) (b ∷ s) p h =
      let ends = extension_step-IsStep blunt real p (b ∷ s) in
      elim (Step-cases (extension_step c random blunt real p (b ∷ s))) [
        | inl (r, is) ↦ rw (is, extensions_loop) (rw is at ends)
        | inr (p', rest, is) ↦
            let less : length rest < length (b ∷ s) = rw is at ends in
            rw (is, extensions_loop) (extensions_loop-ends blunt real fuel rest p' (omega arith))
      ]

  read_extensions_block-ends :
      (blunt real : Bool) (n : ℕ) (s : Bytes) (p : Spec)
      → read_extensions_block c random blunt real n s p ≢ unended
  unfolding read_extensions_block read_tls_extensions
  read_extensions_block-ends blunt real n [] p = parsed-ends p
  read_extensions_block-ends blunt real n (b ∷ s) p =
      need-ends extensions_error p (c.read_uint16_length_prefixed (b ∷ s)) _ λ (block, rest).
        and_then-ends (extensions_loop c random blunt real (length block) block p) _
          (extensions_loop-ends blunt real (length block) block p (omega arith)) λ q. parsed-ends _

  read_fields-ends :
      (blunt real : Bool) (n : ℕ) (s : Bytes) (p : Spec)
      → read_fields c random blunt real n s p ≢ unended
  unfolding read_fields
  read_fields-ends blunt real n s p =
      need-ends session_id_error p (c.read_uint8_length_prefixed s) _ λ (id, s₁).
        need-ends cipher_suites_error p (c.read_uint16_length_prefixed s₁) _ λ (suites, s₂).
          and_then-ends (read_cipher_suites c suites p) _ (read_cipher_suites-ends c suites p) λ q.
            need-ends compression_methods_error q (c.read_uint8_length_prefixed s₂) _
              λ (methods, s₃). read_extensions_block-ends blunt real n s₃ _

  -- FromRaw returns a spec or an error on every input, whatever crypto/rand gives: none of its loops, nor
  -- those of the Writes that it calls, runs out of the fuel that the length of its string is.
  pub from_raw-ends : (flags : List Bool) (raw : Bytes) → from_raw c random flags raw ≢ unended
  unfolding from_raw read_message
  from_raw-ends flags raw =
      need-ends record_error new_spec (record_header c raw) _ λ (kind, version, s).
        if-ends (not (kind == 22)) _ _ (rejected-ends _ _) (
          need-ends message_error new_spec (message_header c s) _ λ (kind', version', s₁).
            if-ends (not (kind' == 1)) _ _ (rejected-ends _ _) (read_fields-ends _ _ _ s₁ _))
