-- ===== src/Spec/Others.antt =====
-- u_pre_shared_key.go and u_ech.go: Write of FakePreSharedKeyExtension and of
-- GREASEEncryptedClientHelloExtension. `random` is the source that crypto/rand reads from: the bytes of
-- a read of a length, or an error. A uint16 that is counted down wraps around at 0.
pub mod Ends
pub mod RoundTrip
use utls.Base.{
  ℕ, zero, suc, ◌+◌, ◌-◌, ◌%◌, ◌^◌, Bool, true, false, not, ◌||◌, ◌==◌, ltb, List, [], ◌∷◌, Option,
  none, some, Bytes, length, if◌then◌else◌,
}
use utls.Cryptobyte.{Reader}
use utls.Cryptobyte.Loops.{Outcome, done, refused, out_of_fuel}
use utls.Session.State.{PskIdentity}

-- The element in front of what a loop that also returns the rest has read.
abbrev pub push_to {ℓ} : {A : Type ℓ} → A → Outcome (List A × Bytes) → Outcome (List A × Bytes)
push_to a (done (as', rest)) = done (a ∷ as', rest)
push_to a refused = refused
push_to a out_of_fuel = out_of_fuel

-- `n -= k` on a uint16
abbrev pub minus16 : ℕ → ℕ → ℕ
minus16 n k = (n + 2 ^ 16 - k) % 2 ^ 16

-- GREASEEncryptedClientHelloExtension: the fields that Write sets.
pub record GreaseEch : Type 0 where
  pub kdf_id : ℕ
  pub aead_id : ℕ
  pub config_id : ℕ
  pub encapsulated_key : Bytes
  pub candidate_payload_lens : List ℕ

-- HKDF_SHA256, HKDF_SHA384, HKDF_SHA512, and the three AEADs, have the same numbers.
abbrev one_to_three : ℕ → Bool
one_to_three n = n == 1 || n == 2 || n == 3

module _ (c : Reader) where
  -- One identity; `n` is what is left of the length of the list.
  unfoldable pub identity_step : ℕ → Bytes → Option (PskIdentity × ℕ × Bytes)
  identity_step n s = elim (c.read_uint16 s) [
    | none ↦ none
    | some (k, s₁) ↦ if ltb (minus16 n 2) k then none else elim (c.read_bytes k s₁) [
      | none ↦ none
      | some (identity, s₂) ↦ elim (c.read_uint32 s₂) [
        | none ↦ none
        | some (age, s₃) ↦ some (
          record { label = identity; obfuscated_ticket_age = age },
          minus16 (minus16 (minus16 n 2) k) 4,
          s₃,
        )
      ]
    ]
  ]

  -- `for identitiesLength > 0 { … }`
  unfoldable pub read_identities : ℕ → ℕ → Bytes → Outcome (List PskIdentity × Bytes)
  read_identities fuel zero s = done ([], s)
  read_identities zero (suc n) s = out_of_fuel
  read_identities (suc fuel) (suc n) s = elim (identity_step (suc n) s) [
    | none ↦ refused
    | some (i, n', rest) ↦ push_to i (read_identities fuel n' rest)
  ]

  unfoldable pub binder_step : ℕ → Bytes → Option (Bytes × ℕ × Bytes)
  binder_step n s = elim (c.read_uint8 s) [
    | none ↦ none
    | some (k, s₁) ↦ if ltb (minus16 n 1) k then none else elim (c.read_bytes k s₁) [
      | none ↦ none
      | some (binder, s₂) ↦ some (binder, minus16 (minus16 n 1) k, s₂)
    ]
  ]

  -- `for bindersLength > 0 { … }`
  unfoldable pub read_binders : ℕ → ℕ → Bytes → Outcome (List Bytes × Bytes)
  read_binders fuel zero s = done ([], s)
  read_binders zero (suc n) s = out_of_fuel
  read_binders (suc fuel) (suc n) s = elim (binder_step (suc n) s) [
    | none ↦ refused
    | some (x, n', rest) ↦ push_to x (read_binders fuel n' rest)
  ]

  abbrev pub with_binders :
      List PskIdentity → Outcome (List Bytes × Bytes) → Outcome (List PskIdentity × List Bytes)
  with_binders ids (done (bs, rest)) = done (ids, bs)
  with_binders ids refused = refused
  with_binders ids out_of_fuel = out_of_fuel

  abbrev pub binders_after :
      Outcome (List PskIdentity × Bytes) → Outcome (List PskIdentity × List Bytes)
  binders_after (done (ids, s)) = elim (c.read_uint16 s) [
    | none ↦ refused
    | some (m, s₁) ↦ with_binders ids (read_binders (suc (length s₁)) m s₁)
  ]
  binders_after refused = refused
  binders_after out_of_fuel = out_of_fuel

  -- FakePreSharedKeyExtension.Write on a new extension: its identities and binders
  unfoldable pub fake_psk_write : Bytes → Outcome (List PskIdentity × List Bytes)
  fake_psk_write b = elim (c.read_uint16 b) [
    | none ↦ refused
    | some (n, s) ↦ binders_after (read_identities (suc (length s)) n s)
  ]

  -- `rand.Read(g.EncapsulatedKey)` and the two checks after it
  abbrev pub random_key : ℕ → Option Bytes → Option Bytes
  random_key n none = none
  random_key n (some key) = if length key == n then some key else none

  -- GREASEEncryptedClientHelloExtension.Write; cipherLen of no message is 16 for the three AEADs.
  unfoldable pub grease_ech_write : (ℕ → Option Bytes) → Bytes → Option GreaseEch
  grease_ech_write random b = elim (c.read_uint8 b) [
    | none ↦ none
    | some (t, s₁) ↦ if not (t == 0) then none else elim (c.read_uint16 s₁) [
      | none ↦ none
      | some (kdf, s₂) ↦ elim (c.read_uint16 s₂) [
        | none ↦ none
        | some (aead, s₃) ↦
            if not (one_to_three kdf)
            then none
            else if not (one_to_three aead)
            then none
            else elim (c.read_uint8 s₃) [
              | none ↦ none
              | some (config, s₄) ↦ elim (c.read_uint16_length_prefixed s₄) [
                | none ↦ none
                | some (old_key, s₅) ↦
                    elim (random_key (length old_key) (random (length old_key))) [
                      | none ↦ none
                      | some key ↦ elim (c.read_uint16_length_prefixed s₅) [
                        | none ↦ none
                        | some (payload, s₆) ↦ some (record {
                          kdf_id = kdf;
                          aead_id = aead;
                          config_id = config;
                          encapsulated_key = key;
                          candidate_payload_lens = minus16 (length payload) 16 ∷ [];
                        })
                      ]
                    ]
              ]
            ]
      ]
    ]
  ]
