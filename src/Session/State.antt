-- ===== src/Session/State.antt =====
-- The sessionController, and the part of a UConn that it reads and writes.
-- Extensions are shared by pointer between the controller and the extension list of the connection,
-- so they live in two stores and are named by address. A nil pointer is `none`; a nil slice is `none`
-- where the code tests for nil, and the empty list elsewhere.
use utls.Base.{ℕ, Bool, List, Option, Bytes, ◌==◌, if◌then◌else◌}

-- LoadSessionTrackerState
pub data Tracker : Type 0 where
  never_called utls_about_to_call called_by_u_load_session called_by_go_tls : Tracker

-- sessionControllerState
pub data ControllerState : Type 0 where
  no_session : ControllerState
  session_ticket_ext_initialized session_ticket_ext_all_set : ControllerState
  psk_ext_initialized psk_ext_all_set : ControllerState

-- ClientHelloBuildStatus
pub data BuildStatus : Type 0 where
  not_built build_by_utls build_by_go_tls : BuildStatus

-- What the controller needs of a *SessionState: which one it is, and two of its fields.
pub record Session : Type 0 where
  pub address : ℕ
  pub version : ℕ
  pub cipher_suite : ℕ

pub record PskIdentity : Type 0 where
  pub label : Bytes
  pub obfuscated_ticket_age : ℕ

pub record PreSharedKeyCommon : Type 0 where
  pub identities : List PskIdentity
  pub binders : List Bytes
  pub binder_key : Bytes
  pub early_secret : Bytes
  pub session : Option Session

-- SessionTicketExtension
pub record TicketExt : Type 0 where
  pub session : Option Session
  pub ticket : Option Bytes
  pub initialized : Bool

-- UtlsPreSharedKeyExtension; `suite_hash_size` is `cipherSuite.hash.Size()`, `none` for a nil suite.
pub record UtlsPsk : Type 0 where
  pub common : PreSharedKeyCommon
  pub suite_hash_size : Option ℕ
  pub cached_length : Option ℕ
  pub omit_empty_psk : Bool
  pub skip_binder_patching : Bool

-- FakePreSharedKeyExtension
pub record FakePsk : Type 0 where
  pub identities : Option (List PskIdentity)
  pub binders : Option (List Bytes)
  pub omit_empty_psk : Bool

-- The implementations of PreSharedKeyExtension.
pub data PskExt : Type 0 where
  utls_psk : UtlsPsk → PskExt
  fake_psk : FakePsk → PskExt

-- An element of `UConn.Extensions`, as the type switch of syncSessionExts sees it.
pub data Extension : Type 0 where
  ticket_at : ℕ → Extension
  psk_at : ℕ → Extension
  other : Extension

pub record UConn : Type 0 where
  -- sessionController
  pub session_ticket_ext : Option ℕ
  pub psk_extension : Option ℕ
  pub state : ControllerState
  pub tracker : Tracker
  pub calling_load_session : Bool
  pub locked : Bool
  -- UConn and its Config
  pub build_status : BuildStatus
  pub skip_resumption_on_nil_extension : Bool
  pub omit_empty_psk : Bool
  pub extensions : List Extension
  -- HandshakeState: Session, State13 and Hello
  pub session : Option Session
  pub early_secret : Bytes
  pub binder_key : Bytes
  pub hello_ticket_supported : Bool
  pub hello_session_ticket : Option Bytes
  pub hello_psk_identities : List PskIdentity
  pub hello_psk_binders : List Bytes
  -- pskBinderKey, and pskCipherSuite by its id
  pub psk_binder_key : Bytes
  pub psk_cipher_suite : Option ℕ
  -- the extension objects
  pub tickets : ℕ → TicketExt
  pub psks : ℕ → PskExt

-- A write to one address of a store.
abbrev pub update {ℓ} : {A : Type ℓ} → (ℕ → A) → ℕ → A → ℕ → A
update store p x q = if q == p then x else store q
