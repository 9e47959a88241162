-- ===== src/Session/Extension.antt =====
-- u_session_ticket.go and u_pre_shared_key.go: how the session extensions are initialised and read.
use utls.Base.{
  ℕ, ◌==◌, Bool, true, false, not, ◌&&◌, List, [], ◌∷◌, map, Option, none, some, Bytes, replicate,
  if◌then◌else◌, Run, ok, panic, check, ◌>>=◌, ◌>>◌,
}
use utls.Session.State.{
  Session, PskIdentity, PreSharedKeyCommon, TicketExt, UtlsPsk, PskExt, utls_psk, fake_psk,
}

abbrev pub version_tls12 : ℕ
version_tls12 = 0x0303

abbrev pub is_some {ℓ} : {A : Type ℓ} → Option A → Bool
is_some none = false
is_some (some _) = true

-- SessionTicketExtension.InitializeByUtls. The version is read before the test for nil.
unfoldable pub initialize_ticket : Option Session → Option Bytes → TicketExt → Run TicketExt
initialize_ticket none ticket e = panic
initialize_ticket (some s) ticket e = do
  check (not e.initialized)
  check (s.version == version_tls12 && is_some ticket)
  ok (record { session = some s; ticket = ticket; initialized = true })

-- cipherSuiteTLS13ByID(id).hash.Size(), over the table cipherSuitesTLS13.
unfoldable pub tls13_hash_size : ℕ → Option ℕ
tls13_hash_size id =
    if id == 0x1301
    then some 32
    else if id == 0x1303
    then some 32
    else if id == 0x1302
    then some 48
    else none

-- `make([]byte, size)` for each identity. A nil suite is dereferenced if there is one.
placeholder_binders : Option ℕ → List PskIdentity → Run (List Bytes)
placeholder_binders size [] = ok []
placeholder_binders none (_ ∷ _) = panic
placeholder_binders (some n) (i ∷ is) = ok (map (λ _. replicate n 0) (i ∷ is))

-- UtlsPreSharedKeyExtension.IsInitialized and FakePreSharedKeyExtension.IsInitialized
unfoldable pub is_initialized : PskExt → Bool
is_initialized (utls_psk e) = is_some e.common.session
is_initialized (fake_psk e) = is_some e.identities && is_some e.binders

-- UtlsPreSharedKeyExtension.InitializeByUtls
initialize_utls : Session → Bytes → Bytes → List PskIdentity → UtlsPsk → Run PskExt
initialize_utls s early_secret binder_key identities e = do
  let size = tls13_hash_size s.cipher_suite
  binders ← placeholder_binders size identities
  ok (
      utls_psk (record e {
        common = record {
          identities = identities;
          binders = binders;
          binder_key = binder_key;
          early_secret = early_secret;
          session = some s;
        };
        suite_hash_size = size;
      }))

-- PreSharedKeyExtension.InitializeByUtls: the fake extension panics, and so does a nil session.
unfoldable pub initialize_psk :
    Option Session → Bytes → Bytes → List PskIdentity → PskExt → Run PskExt
unfolding initialize_utls placeholder_binders
initialize_psk session early_secret binder_key identities (fake_psk e) = panic
initialize_psk none early_secret binder_key identities (utls_psk e) = panic
initialize_psk (some s) early_secret binder_key identities (utls_psk e) =
    initialize_utls s early_secret binder_key identities e

-- PreSharedKeyExtension.ResetForReuse
unfoldable pub reset_for_reuse : PskExt → PskExt
reset_for_reuse (utls_psk e) = utls_psk (record e {
  common = record {
    identities = [];
    binders = [];
    binder_key = [];
    early_secret = [];
    session = none;
  };
  suite_hash_size = none;
  cached_length = none;
})
reset_for_reuse (fake_psk e) = fake_psk (record e { identities = none; binders = none })

-- PreSharedKeyExtension.SetOmitEmptyPsk
unfoldable pub set_omit_empty_psk : Bool → PskExt → PskExt
set_omit_empty_psk v (utls_psk e) = utls_psk (record e { omit_empty_psk = v })
set_omit_empty_psk v (fake_psk e) = fake_psk (record e { omit_empty_psk = v })

abbrev pub or_nil {ℓ} : {A : Type ℓ} → Option (List A) → List A
or_nil none = []
or_nil (some xs) = xs

-- PreSharedKeyExtension.GetPreSharedKeyCommon
unfoldable pub get_common : PskExt → PreSharedKeyCommon
get_common (utls_psk e) = e.common
get_common (fake_psk e) = record {
  identities = or_nil e.identities;
  binders = or_nil e.binders;
  binder_key = [];
  early_secret = [];
  session = none;
}
