-- ===== src/Messages.antt =====
-- handshake_messages.go: the messages that are written with a cryptobyte.Builder and read with a
-- cryptobyte.String. A `marshal` returns the bytes or an error; an `unmarshal` returns the message, or
-- `none` where the method reports false. What an unmarshal that fails leaves in the message is not
-- modelled. `Plain` has the messages whose bytes are stored one by one.
pub mod Built
pub mod Reads
pub mod RoundTrip
pub mod Plain
pub mod Ends
pub mod Certificate
use utls.Base.{
  ℕ, zero, suc, ◌^◌, Bool, true, false, not, ◌&&◌, ◌==◌, ltb, List, [], ◌∷◌, Option, none, some,
  Bytes, length, if◌then◌else◌,
}
use utls.Cryptobyte.{Reader}
use utls.Cryptobyte.Builder.{Builder}
use utls.Cryptobyte.Loops.{Outcome, done, refused, out_of_fuel}

abbrev pub is_nil : Bytes → Bool
is_nil [] = true
is_nil (b ∷ s) = false

-- `ok && s.Empty()`
abbrev pub whole {ℓ} : {A : Type ℓ} → Option (A × Bytes) → Option A
whole none = none
whole (some (a, rest)) = if is_nil rest then some a else none

abbrev pub next {ℓ κ} : {A : Type ℓ} {B : Type κ} → Option A → (A → Option B) → Option B
next none f = none
next (some a) f = f a

-- newSessionTicketMsgTLS13
pub record SessionTicket : Type 0 where
  pub lifetime : ℕ
  pub age_add : ℕ
  pub nonce : Bytes
  pub label : Bytes
  pub max_early_data : ℕ

-- certificateVerifyMsg
pub record CertificateVerify : Type 0 where
  pub has_signature_algorithm : Bool
  pub signature_algorithm : ℕ
  pub signature : Bytes

module _ (w : Builder) where
  -- The message type, and the body with its length.
  abbrev pub message : ℕ → (w.State → w.State) → Option Bytes
  message kind body = w.contents (w.add_uint24_length_prefixed body (w.add_uint8 kind w.empty))

  unfoldable pub key_update_marshal : Bool → Option Bytes
  key_update_marshal update_requested =
      message 24 (λ b. if update_requested then w.add_uint8 1 b else w.add_uint8 0 b)

  abbrev pub early_data_extension : ℕ → w.State → w.State
  early_data_extension max b =
      if ltb 0 max
      then w.add_uint16_length_prefixed (λ b₁. w.add_uint32 max b₁) (w.add_uint16 42 b)
      else b

  abbrev pub session_ticket_body : SessionTicket → w.State → w.State
  session_ticket_body t b = w.add_uint16_length_prefixed (early_data_extension t.max_early_data) (
      w.add_uint16_length_prefixed (λ b₁. w.add_bytes t.label b₁)
        (w.add_uint8_length_prefixed (λ b₁. w.add_bytes t.nonce b₁)
          (w.add_uint32 t.age_add (w.add_uint32 t.lifetime b))))

  unfoldable pub session_ticket_marshal : SessionTicket → Option Bytes
  session_ticket_marshal t = message 4 (session_ticket_body t)

  unfoldable pub certificate_status_marshal : Bytes → Option Bytes
  certificate_status_marshal response =
      message 22
        (λ b. w.add_uint24_length_prefixed (λ b₁. w.add_bytes response b₁) (w.add_uint8 1 b))

  unfoldable pub finished_marshal : Bytes → Option Bytes
  finished_marshal verify_data = message 20 (λ b. w.add_bytes verify_data b)

  abbrev pub certificate_verify_body : CertificateVerify → w.State → w.State
  certificate_verify_body m b =
      w.add_uint16_length_prefixed (λ b₁. w.add_bytes m.signature b₁)
        (if m.has_signature_algorithm then w.add_uint16 m.signature_algorithm b else b)

  unfoldable pub certificate_verify_marshal : CertificateVerify → Option Bytes
  certificate_verify_marshal m = message 15 (certificate_verify_body m)

module _ (c : Reader) where
  abbrev requested : ℕ → Option Bool
  requested n = if n == 0 then some false else if n == 1 then some true else none

  unfoldable pub key_update_unmarshal : Bytes → Option Bool
  key_update_unmarshal msg = next (c.skip 4 msg) λ s. next (whole (c.read_uint8 s)) requested

  -- One extension of a session ticket: only early msg is looked at.
  unfoldable pub ticket_extension_step : ℕ → Bytes → Option (ℕ × Bytes)
  ticket_extension_step max s = next (c.read_uint16 s) λ (id, s₁).
      next (c.read_uint16_length_prefixed s₁) λ (body, rest).
        if id == 42
        then next (whole (c.read_uint32 body)) (λ n. some (n, rest))
        else some (max, rest)

  unfoldable pub ticket_extensions : ℕ → ℕ → Bytes → Outcome ℕ
  ticket_extensions fuel max [] = done max
  ticket_extensions zero max (b ∷ s) = out_of_fuel
  ticket_extensions (suc fuel) max (b ∷ s) = elim (ticket_extension_step max (b ∷ s)) [
    | none ↦ refused
    | some (max', rest) ↦ ticket_extensions fuel max' rest
  ]

  abbrev pub with_early_data : SessionTicket → Outcome ℕ → Outcome SessionTicket
  with_early_data t (done max) = done (record t { max_early_data = max })
  with_early_data t refused = refused
  with_early_data t out_of_fuel = out_of_fuel

  -- The fields up to the extensions, and the extensions.
  unfoldable pub session_ticket_fields : Bytes → Option (SessionTicket × Bytes)
  session_ticket_fields msg = next (c.skip 4 msg) λ s. next (c.read_uint32 s) λ (lifetime, s₁).
      next (c.read_uint32 s₁) λ (age_add, s₂). next (c.read_uint8_length_prefixed s₂) λ (nonce, s₃).
        next (c.read_uint16_length_prefixed s₃) λ (label, s₄).
          next (whole (c.read_uint16_length_prefixed s₄)) λ extensions. some (
            record {
              lifetime = lifetime;
              age_add = age_add;
              nonce = nonce;
              label = label;
              max_early_data = 0;
            },
            extensions,
          )

  unfoldable pub session_ticket_unmarshal : Bytes → Outcome SessionTicket
  session_ticket_unmarshal msg = elim (session_ticket_fields msg) [
    | none ↦ refused
    | some (t, extensions) ↦ with_early_data t (ticket_extensions (length extensions) 0 extensions)
  ]

  unfoldable pub certificate_status_unmarshal : Bytes → Option Bytes
  certificate_status_unmarshal msg = next (c.skip 4 msg) λ s.
      next (c.read_uint8 s) λ (status_type, s₁).
        if not (status_type == 1)
        then none
        else next (c.read_uint24_length_prefixed s₁) λ (response, rest).
          if is_nil response then none else if is_nil rest then some response else none

  unfoldable pub finished_unmarshal : Bytes → Option Bytes
  finished_unmarshal msg = next (c.skip 1 msg) λ s. whole (c.read_uint24_length_prefixed s)

  abbrev pub algorithm_read : Bool → Bytes → Option (ℕ × Bytes)
  algorithm_read has s = if has then c.read_uint16 s else some (0, s)

  -- `has` is the field of the message it is called on; without it the algorithm is left at 0.
  unfoldable pub certificate_verify_unmarshal : Bool → Bytes → Option CertificateVerify
  certificate_verify_unmarshal has msg = next (c.skip 4 msg) λ s.
      next (algorithm_read has s) λ (algorithm, s₁).
        next (whole (c.read_uint16_length_prefixed s₁)) λ signature. some (record {
          has_signature_algorithm = has;
          signature_algorithm = algorithm;
          signature = signature;
        })
