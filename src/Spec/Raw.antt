-- ===== src/Spec/Raw.antt =====
-- u_common.go: FromRaw, which reads a spec from a record with a ClientHello, and AlwaysAddPadding.
use utls.Base.{
  ℕ, zero, suc, ◌-◌, Bool, false, not, ◌==◌, List, [], ◌∷◌, Option, none, some, Bytes, length,
  if◌then◌else◌,
}
use utls.Cryptobyte.{Reader}
use utls.Extension.{padding}
use utls.Extension.Padding.{boring_padding_style}
use utls.Spec.{
  SpecExtension, plain, real_psk, fake_psk, Spec, new_spec, Parsed, parsed, rejected, and_then,
  need, pad_to, record_error, not_handshake, message_error, not_client_hello, session_id_error,
  cipher_suites_error, compression_methods_error, extensions_error, read_cipher_suites,
  read_compression_methods, read_tls_extensions,
}

-- `x && y` on two reads, the second from where the first stops.
abbrev pub then_read {ℓ κ} : {A : Type ℓ} {B : Type κ} → Option A → (A → Option B) → Option B
then_read none next = none
then_read (some a) next = next a

-- `ctrlFlags[i]` if there is one
abbrev pub flag : ℕ → List Bool → Bool
flag i [] = false
flag zero (b ∷ bs) = b
flag (suc i) (b ∷ bs) = flag i bs

module _ (c : Reader) where
  -- The record type, the record version and the length, which is passed over.
  unfoldable pub record_header : Bytes → Option (ℕ × ℕ × Bytes)
  record_header s = then_read (c.read_uint8 s) λ (kind, s₁).
      then_read (c.read_uint16 s₁)
        λ (version, s₂). then_read (c.skip 2 s₂) λ s₃. some (kind, version, s₃)

  -- The message type and the version; the length and the random are passed over.
  unfoldable pub message_header : Bytes → Option (ℕ × ℕ × Bytes)
  message_header s = then_read (c.read_uint8 s) λ (kind, s₁). then_read (c.skip 3 s₁) λ s₂.
      then_read (c.read_uint16 s₂)
        λ (version, s₃). then_read (c.skip 32 s₃) λ s₄. some (kind, version, s₄)

module _ (c : Reader) (random : ℕ → Option Bytes) where
  -- From `if s.Empty()` on; `n` is `len(raw) - 5`.
  unfoldable pub read_extensions_block : Bool → Bool → ℕ → Bytes → Spec → Parsed
  read_extensions_block blunt real n [] p = parsed p
  read_extensions_block blunt real n (b ∷ s) p =
      need extensions_error p (c.read_uint16_length_prefixed (b ∷ s)) λ (block, rest).
        and_then (read_tls_extensions c random blunt real block p)
          λ q. parsed (record q { extensions = pad_to n q.extensions })

  -- From the session identifier on.
  unfoldable pub read_fields : Bool → Bool → ℕ → Bytes → Spec → Parsed
  read_fields blunt real n s p =
      need session_id_error p (c.read_uint8_length_prefixed s) λ (id, s₁).
        need cipher_suites_error p (c.read_uint16_length_prefixed s₁) λ (suites, s₂).
          and_then (read_cipher_suites c suites p) λ q.
            need compression_methods_error q (c.read_uint8_length_prefixed s₂) λ (methods, s₃).
              and_then (read_compression_methods methods q)
                λ r. read_extensions_block blunt real n s₃ r

  unfoldable pub read_message : Bool → Bool → ℕ → ℕ → Bytes → Parsed
  read_message blunt real n record_version s =
      need message_error new_spec (message_header c s) λ (kind, version, s₁).
        if not (kind == 1)
        then rejected not_client_hello new_spec
        else read_fields blunt real n s₁
            (record new_spec { tls_vers_min = record_version; tls_vers_max = version })

  -- ClientHelloSpec.FromRaw, which starts from a new spec.
  unfoldable pub from_raw : List Bool → Bytes → Parsed
  from_raw flags raw = need record_error new_spec (record_header c raw) λ (kind, version, s).
      if not (kind == 22)
      then rejected not_handshake new_spec
      else read_message (flag 0 flags) (flag 1 flags) (length raw - 5) version s

-- `&UtlsPaddingExtension{GetPaddingLen: BoringPaddingStyle}`
abbrev pub boring_padding : SpecExtension
boring_padding = plain (
    padding
      (record { padding_len = 0; will_pad = false; get_padding_len = some boring_padding_style }))

-- The loop of AlwaysAddPadding, with the append after it: padding before a pre-shared key, which has
-- to be last, or at the end.
unfoldable pub with_padding : List SpecExtension → List SpecExtension
with_padding [] = boring_padding ∷ []
with_padding (plain (padding p) ∷ es) = plain (padding p) ∷ es
with_padding (real_psk ∷ es) = boring_padding ∷ real_psk ∷ es
with_padding (fake_psk ids bs ∷ es) = boring_padding ∷ fake_psk ids bs ∷ es
with_padding (e ∷ es) = e ∷ with_padding es

abbrev pub always_add_padding : Spec → Spec
always_add_padding p = record p { extensions = with_padding p.extensions }
