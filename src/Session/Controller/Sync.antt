-- ===== src/Session/Controller/Sync.antt =====
-- syncSessionExts: the extension list and the controller are brought to one ticket extension and one
-- psk extension at most.
pub mod Laws
use utls.Base.{
  ℕ, zero, suc, ◌+◌, Bool, true, false, not, ◌&&◌, ◌==◌, List, [], ◌∷◌, Option, none, some,
  if◌then◌else◌, Run, ok, panic, check, ◌>>=◌, ◌>>◌,
}
use utls.Session.State.{
  ControllerState, no_session, session_ticket_ext_initialized, psk_ext_initialized, Extension,
  ticket_at, psk_at, other, UConn, update,
}
use utls.Session.Extension.{reset_for_reuse, set_omit_empty_psk}
use utls.Session.Controller.Checks.{
  is_state, is_not_built, assert_hello_not_built, assert_controller_state, assert_not_locked,
}

-- The loop's variables: `numSessionExt`, `hasPskExt` and the connection.
pub record Progress : Type 0 where
  pub num_session_ext : ℕ
  pub has_psk_ext : Bool
  pub conn : UConn

-- The extension that the controller owns, or the one from the list if it owns none.
abbrev pub owned : Option ℕ → ℕ → ℕ
owned none p = p
owned (some q) p = q

-- Adopting the psk extension of the list resets it first.
adopt_psk : Option ℕ → ℕ → UConn → UConn
adopt_psk none p u = record u {
  psks = update u.psks p (reset_for_reuse (u.psks p));
  psk_extension = some p;
}
adopt_psk (some q) p u = u

-- One round of the loop: the new element of the list, and the variables.
sync_one : Extension → Bool → Progress → Run (Extension × Progress)
sync_one (ticket_at p) last s = do
  check (s.num_session_ext == 0)
  let q = owned s.conn.session_ticket_ext p
  ok (
    ticket_at q,
    record s {
      num_session_ext = s.num_session_ext + 1;
      conn = record (s.conn) { session_ticket_ext = some q };
    },
  )
sync_one (psk_at p) last s = do
  check last
  let q = owned s.conn.psk_extension p
  let u = adopt_psk s.conn.psk_extension p s.conn
  ok (
    psk_at q,
    record s {
      has_psk_ext = true;
      conn = record u { psks = update u.psks q (set_omit_empty_psk u.omit_empty_psk (u.psks q)) };
    },
  )
sync_one other last s = ok (other, s)

abbrev pub is_empty : List Extension → Bool
is_empty [] = true
is_empty (_ ∷ _) = false

unfoldable pub sync_all : List Extension → Progress → Run (List Extension × Progress)
unfolding sync_one adopt_psk
sync_all [] s = ok ([], s)
sync_all (e ∷ es) s = do
  (e', s') ← sync_one e (is_empty es) s
  (es', s'') ← sync_all es s'
  ok (e' ∷ es', s'')

-- The two errors, with the connection as they leave it.
pub data SyncResult : Type 0 where
  synced : UConn → SyncResult
  ticket_not_in_spec psk_not_in_spec : UConn → SyncResult

sync_psk : Bool → UConn → SyncResult
sync_psk has u =
    if has
    then synced u
    else if is_state u.state psk_ext_initialized
    then psk_not_in_spec u
    else synced (record u {
      psk_extension = none;
      binder_key = [];
      early_secret = [];
      session = none;
      hello_psk_identities = [];
    })

sync_missing : Progress → SyncResult
sync_missing s =
    if not (s.num_session_ext == 0)
    then sync_psk s.has_psk_ext s.conn
    else if is_state s.conn.state session_ticket_ext_initialized
    then ticket_not_in_spec s.conn
    else sync_psk s.has_psk_ext
        (record (s.conn) { session_ticket_ext = none; session = none; hello_session_ticket = none })

unfoldable pub sync_session_exts : UConn → Run SyncResult
unfolding sync_missing sync_psk
sync_session_exts u = do
  check (is_not_built u.build_status)
  assert_not_locked u
  assert_hello_not_built u
  assert_controller_state u (no_session ∷ session_ticket_ext_initialized ∷ psk_ext_initialized ∷ [])
  (exts, s) ← sync_all u.extensions (record { num_session_ext = 0; has_psk_ext = false; conn = u })
  ok (sync_missing (record s { conn = record (s.conn) { extensions = exts } }))
