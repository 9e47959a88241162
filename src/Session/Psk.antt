-- ===== src/Session/Psk.antt =====
-- u_pre_shared_key.go and u_session_ticket.go: Len and Read of the extensions that carry a session.
pub mod Wire
pub mod Correct
pub mod Exact
use utls.Base.{
  ℕ, ◌+◌, ◌-◌, ◌*◌, ◌/◌, ◌%◌, Bool, true, false, not, ◌&&◌, ◌||◌, ◌==◌, List, [], ◌∷◌, Option, none,
  some, Bytes, length, if◌then◌else◌, Run, ok, panic, ◌>>=◌,
}
use utls.Base.Buffer.{store, copy_at}
use utls.Extension.Wire.{hi, lo}
use utls.Extension.Read.Store.{ReadResult, eof, empty_psk, invalid_binder_size, answer, with_room}
use utls.Extension.Read.Each.{opaque_read}
use utls.Session.State.{PskIdentity, TicketExt, UtlsPsk, FakePsk}
use utls.Session.Extension.{is_some, or_nil}

abbrev pub is_nil {ℓ} : {A : Type ℓ} → List A → Bool
is_nil [] = true
is_nil (_ ∷ _) = false

-- `2 + len(identity.Label) + 4` over the identities, and `len(binder) + 1` over the binders.
abbrev pub identities_len : List PskIdentity → ℕ
identities_len [] = 0
identities_len (i ∷ is) = 2 + length i.label + 4 + identities_len is

abbrev pub binders_len : List Bytes → ℕ
binders_len [] = 0
binders_len (b ∷ bs) = length b + 1 + binders_len bs

-- pskExtLen
unfoldable pub psk_ext_len : List PskIdentity → List Bytes → ℕ
psk_ext_len ids bs =
    if is_nil ids || is_nil bs then 0 else 4 + 2 + identities_len ids + 2 + binders_len bs

-- UtlsPreSharedKeyExtension.Len, which fills the cache.
unfoldable pub utls_len : UtlsPsk → ℕ × UtlsPsk
utls_len e =
    if not (is_some e.common.session) && (is_nil e.common.identities || is_nil e.common.binders)
    then (0, e)
    else elim e.cached_length [
      | some n ↦ (n, e)
      | none ↦
          let n = psk_ext_len e.common.identities e.common.binders in
          (n, record e { cached_length = some n })
    ]

-- A uint32 as four bytes.
abbrev pub u32 : ℕ → Bytes
u32 x = x / 16777216 % 256 ∷ x / 65536 % 256 ∷ x / 256 % 256 ∷ x % 256 ∷ []

unfoldable pub store_identities : Bytes → ℕ → List PskIdentity → Run Bytes
store_identities b off [] = ok b
store_identities b off (i ∷ is) = do
  b₁ ← store b off (hi (length i.label) ∷ lo (length i.label) ∷ [])
  b₂ ← copy_at b₁ (off + 2) i.label
  b₃ ← store b₂ (off + 2 + length i.label) (u32 i.obfuscated_ticket_age)
  store_identities b₃ (off + 2 + length i.label + 4) is

unfoldable pub store_binders : Bytes → ℕ → List Bytes → Run Bytes
store_binders b off [] = ok b
store_binders b off (x ∷ xs) = do
  b₁ ← store b off (lo (length x) ∷ [])
  b₂ ← copy_at b₁ (off + 1) x
  store_binders b₂ (off + 1 + length x) xs

abbrev pub psk_header : ℕ → ℕ → Bytes
psk_header n m = hi 41 ∷ lo 41 ∷ hi (n - 4) ∷ lo (n - 4) ∷ hi m ∷ lo m ∷ []

-- readPskIntoBytes
unfoldable pub read_psk_into_bytes : List PskIdentity → List Bytes → Bytes → Run ReadResult
read_psk_into_bytes ids bs b =
    let n = psk_ext_len ids bs in
    let m = identities_len ids in
    if n == 0
    then answer 0 eof b
    else with_room b n (do
      b₁ ← store b 0 (psk_header n m)
      b₂ ← store_identities b₁ 6 ids
      b₃ ← store b₂ (6 + m) (hi (binders_len bs) ∷ lo (binders_len bs) ∷ [])
      store_binders b₃ (6 + m + 2) bs)

-- The extension after UtlsPreSharedKeyExtension.Read, which calls Len unless empty ones are omitted.
unfoldable pub utls_after_read : UtlsPsk → UtlsPsk
utls_after_read e = if e.omit_empty_psk then e else (utls_len e).1

-- UtlsPreSharedKeyExtension.Read
unfoldable pub utls_read : UtlsPsk → Bytes → Run ReadResult
utls_read e b =
    if not e.omit_empty_psk && (utls_len e).0 == 0
    then answer 0 empty_psk b
    else read_psk_into_bytes e.common.identities e.common.binders b

-- `validHashLen` over cipherSuitesTLS13
abbrev pub valid_hash_len : ℕ → Bool
valid_hash_len n = n == 32 || n == 32 || n == 48

abbrev pub valid_binders : List Bytes → Bool
valid_binders [] = true
valid_binders (b ∷ bs) = valid_hash_len (length b) && valid_binders bs

-- FakePreSharedKeyExtension.Read
unfoldable pub fake_read : FakePsk → Bytes → Run ReadResult
fake_read e b =
    if not e.omit_empty_psk && psk_ext_len (or_nil e.identities) (or_nil e.binders) == 0
    then answer 0 empty_psk b
    else if valid_binders (or_nil e.binders)
    then read_psk_into_bytes (or_nil e.identities) (or_nil e.binders) b
    else answer 0 invalid_binder_size b

-- SessionTicketExtension.Len and Read, the same code as GenericExtension's with its own identifier
unfoldable pub ticket_len : TicketExt → ℕ
ticket_len e = 4 + length (or_nil e.ticket)

unfoldable pub ticket_read : TicketExt → Bytes → Run ReadResult
ticket_read e = opaque_read 35 (or_nil e.ticket)
