-- ===== src/Extension/Write/Parts.antt =====
-- Write of each extension, over the reads of cryptobyte. Each is called with the body of the
-- extension; it returns the extension and a count, or an error with a count.
use utls.Base.{
  ℕ, zero, suc, Bool, true, false, not, ◌&&◌, ◌==◌, List, [], ◌∷◌, Option, none, some, Bytes,
  length, if◌then◌else◌,
}
use utls.Grease.{grease_placeholder, un_grease_uint16}
use utls.Cryptobyte.{Reader}
use utls.Cryptobyte.Loops.{Outcome, done, refused, out_of_fuel, read_all}
use utls.Extension.{
  KeyShare, TrustAnchors, Extension, status_request, supported_points, status_request_v2, key_share,
  psk_key_exchange_modes, fake_record_size_limit, fake_token_binding, trust_anchors,
}
use utls.Extension.HostName.{last_or}

-- `stuck` stands for a loop that runs out of fuel.
pub data WriteResult : Type 0 where
  wrote : Extension → ℕ → WriteResult
  failed : ℕ → WriteResult
  stuck : WriteResult

abbrev pub finish {ℓ} : {A : Type ℓ} → (A → Extension) → ℕ → Outcome A → WriteResult
finish make n (done a) = wrote (make a) n
finish make n refused = failed 0
finish make n out_of_fuel = stuck

abbrev pub is_empty {ℓ} : {A : Type ℓ} → List A → Bool
is_empty [] = true
is_empty (_ ∷ _) = false

module _ (c : Reader) where
  -- One round of the loops over two-byte values; `f` is unGREASEUint16, or a conversion of types.
  unfoldable pub u16_step : (ℕ → ℕ) → Bytes → Option (ℕ × Bytes)
  u16_step f s = elim (c.read_uint16 s) [ none ↦ none | some (x, rest) ↦ some (f x, rest) ]

  abbrev pub u16s_in :
      Bool → (ℕ → ℕ) → (List ℕ → Extension) → ℕ → Option (Bytes × Bytes) → WriteResult
  u16s_in wants f make n none = failed 0
  u16s_in wants f make n (some (list, rest)) =
      if wants && is_empty list
      then failed 0
      else finish make n (read_all (u16_step f) (length list) list)

  -- SupportedCurves, SignatureAlgorithms, SignatureAlgorithmsCert and FakeDelegatedCredentials
  unfoldable pub u16s_16 : Bool → (ℕ → ℕ) → (List ℕ → Extension) → Bytes → WriteResult
  u16s_16 wants f make b = u16s_in wants f make (length b) (c.read_uint16_length_prefixed b)

  -- SupportedVersions, and UtlsCompressCert, which also takes an empty list
  unfoldable pub u16s_8 : Bool → (ℕ → ℕ) → (List ℕ → Extension) → Bytes → WriteResult
  u16s_8 wants f make b = u16s_in wants f make (length b) (c.read_uint8_length_prefixed b)

  -- One round of the loops over strings, none of which may be empty.
  unfoldable pub string_step : Bytes → Option (Bytes × Bytes)
  string_step s = elim (c.read_uint8_length_prefixed s) [
    | none ↦ none
    | some (v, rest) ↦ if is_empty v then none else some (v, rest)
  ]

  abbrev pub strings_in : Bool → (List Bytes → Extension) → ℕ → Option (Bytes × Bytes) → WriteResult
  strings_in wants make n none = failed 0
  strings_in wants make n (some (list, rest)) =
      if wants && is_empty list
      then failed 0
      else finish make n (read_all string_step (length list) list)

  -- ALPNExtension and applicationSettingsExtension
  unfoldable pub strings_16 : (List Bytes → Extension) → Bytes → WriteResult
  strings_16 make b = strings_in true make (length b) (c.read_uint16_length_prefixed b)

  abbrev with_anchors : TrustAnchors → List Bytes → Extension
  with_anchors t l = trust_anchors (record t { trust_anchors = l })

  -- TrustAnchorsExtension, whose list may be empty
  unfoldable pub anchors_write : TrustAnchors → Bytes → WriteResult
  anchors_write t b = strings_in false (with_anchors t) (length b) (c.read_uint16_length_prefixed b)

  -- SupportedPointsExtension
  unfoldable pub points_write : Bytes → WriteResult
  points_write b = elim (c.read_uint8_length_prefixed b) [
    | none ↦ failed 0
    | some (v, rest) ↦ if is_empty v then failed 0 else wrote (supported_points v) (length b)
  ]

  -- PSKKeyExchangeModesExtension
  unfoldable pub modes_write : Bytes → WriteResult
  modes_write b = elim (c.read_uint8_length_prefixed b) [
    | none ↦ failed 0
    | some (v, rest) ↦ wrote (psk_key_exchange_modes v) (length b)
  ]

  -- A key share: the data is kept for a GREASE group alone.
  abbrev pub captured_share : ℕ → Bytes → KeyShare
  captured_share g v = record {
    group = un_grease_uint16 g;
    key = if un_grease_uint16 g == grease_placeholder then v else [];
  }

  unfoldable pub share_step : Bytes → Option (KeyShare × Bytes)
  share_step s = elim (c.read_uint16 s) [
    | none ↦ none
    | some (g, s₁) ↦ elim (c.read_uint16_length_prefixed s₁) [
      | none ↦ none
      | some (v, rest) ↦ if is_empty v then none else some (captured_share g v, rest)
    ]
  ]

  -- KeyShareExtension
  unfoldable pub shares_write : Bytes → WriteResult
  shares_write b = elim (c.read_uint16_length_prefixed b) [
    | none ↦ failed 0
    | some (list, rest) ↦ finish key_share (length b) (read_all share_step (length list) list)
  ]

  -- A host name after `name`, which was read before: only one is allowed, and no dot at its end.
  unfoldable pub host_name : Bytes → Bytes → Option Bytes
  host_name name v =
      if not (is_empty name) then none else if last_or 0 v == b'.' then none else some v

  -- One entry of the name list; names of another type are passed over.
  unfoldable pub name_step : Bytes → Bytes → Option (Bytes × Bytes)
  unfolding host_name
  name_step name s = elim (c.read_uint8 s) [
    | none ↦ none
    | some (t, s₁) ↦ elim (c.read_uint16_length_prefixed s₁) [
      | none ↦ none
      | some (v, rest) ↦
          if is_empty v then none else elim (if t == 0 then host_name name v else some name) [
            | none ↦ none
            | some n ↦ some (n, rest)
          ]
    ]
  ]

  unfoldable pub read_names : ℕ → Bytes → Bytes → Outcome Bytes
  unfolding name_step
  read_names fuel name [] = done name
  read_names zero name (b ∷ s) = out_of_fuel
  read_names (suc fuel) name (b ∷ s) = elim (name_step name (b ∷ s)) [
    | none ↦ refused
    | some (n, rest) ↦ read_names fuel n rest
  ]

  abbrev pub sni_end : Extension → ℕ → Outcome Bytes → WriteResult
  sni_end e n (done name) = wrote e n
  sni_end e n refused = failed n
  sni_end e n out_of_fuel = stuck

  -- SNIExtension, which does not keep the name
  unfoldable pub sni_write : Extension → Bytes → WriteResult
  sni_write e b = elim (c.read_uint16_length_prefixed b) [
    | none ↦ failed (length b)
    | some (list, rest) ↦
        if is_empty list
        then failed (length b)
        else sni_end e (length b) (read_names (length list) [] list)
  ]

  -- StatusRequestExtension: the type, and two lists that are passed over
  unfoldable pub status_write : Bytes → WriteResult
  status_write b = elim (c.read_uint8 b) [
    | none ↦ failed (length b)
    | some (t, s₁) ↦ elim (c.read_uint16_length_prefixed s₁) [
      | none ↦ failed (length b)
      | some (_, s₂) ↦ elim (c.read_uint16_length_prefixed s₂) [
        | none ↦ failed (length b)
        | some (_, s₃) ↦ if t == 1 then wrote status_request (length b) else failed (length b)
      ]
    ]
  ]

  -- StatusRequestV2Extension
  unfoldable pub status_v2_write : Bytes → WriteResult
  status_v2_write b = elim (c.read_uint16_length_prefixed b) [
    | none ↦ failed (length b)
    | some (list, _) ↦ elim (c.read_uint8 list) [
      | none ↦ failed (length b)
      | some (t, _) ↦ if t == 2 then wrote status_request_v2 (length b) else failed (length b)
    ]
  ]

  -- FakeRecordSizeLimitExtension
  unfoldable pub limit_write : Bytes → WriteResult
  limit_write b = elim (c.read_uint16 b) [
    | none ↦ failed 0
    | some (l, _) ↦ wrote (fake_record_size_limit l) (length b)
  ]

  -- FakeTokenBindingExtension
  unfoldable pub binding_write : Bytes → WriteResult
  binding_write b = elim (c.read_uint8 b) [
    | none ↦ failed 0
    | some (major, s₁) ↦ elim (c.read_uint8 s₁) [
      | none ↦ failed 0
      | some (minor, s₂) ↦ elim (c.read_uint8_length_prefixed s₂) [
        | none ↦ failed 0
        | some (v, _) ↦ wrote (fake_token_binding major minor v) (length b)
      ]
    ]
  ]
