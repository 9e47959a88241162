-- ===== src/Session/Build.antt =====
-- u_conn.go: uLoadSession, and the calls that buildHandshakeState makes to the session controller.
pub mod Laws
pub mod Tracker
pub mod Again
pub mod Errors
use utls.Base.{
  ℕ, Bool, true, false, not, ◌&&◌, ◌==◌, List, Option, none, some, Bytes, if◌then◌else◌, Run, ok,
  panic, check, ◌>>=◌, ◌>>◌,
}
use utls.Session.State.{Session, PskIdentity, UConn}
use utls.Session.Extension.{version_tls12, tls13_hash_size}
use utls.Session.Controller.{
  ShouldLoad, should_return, should_set_ticket, should_set_psk, should_load, should_load_session,
  utls_about_to_load_session, init_session_ticket_ext, init_psk_ext, set_session_ticket_to_u_conn,
  set_psk_to_u_conn, should_update_binders, on_enter_load_session_check, on_load_session_return,
  override_psk_ext, override_session_ticket_ext, should_load_session_write_binders,
}

-- What the body of Conn.loadSession finds in the client's cache: no usable session, a session of
-- TLS 1.2 or older with the ticket it puts into the hello, or a TLS 1.3 session with the secrets, the
-- identities, and whether computeAndUpdatePSK would return an error for it.
pub data Found : Type 0 where
  nothing : Found
  old_session : Session → Option Bytes → Found
  tls13_session : Session → Bytes → Bytes → List PskIdentity → Bool → Found

-- The connection after a call, and whether the call returned an error.
pub data LoadResult : Type 0 where
  load_failed : UConn → LoadResult
  loaded : UConn → LoadResult

-- Only the TLS 1.3 path of loadSession asks whether it should write the binders, and only if it should does
-- computeAndUpdatePSK run, whose error it returns.
write_error : Found → UConn → Run Bool
write_error nothing u = ok false
write_error (old_session s t) u = ok false
write_error (tls13_session s early key ids update_fails) u = do
  writes ← should_load_session_write_binders u
  ok (writes && update_fails)

-- Conn.loadSession, as the controller sees it: the check on entry, the body, the deferred return.
unfoldable pub load_session : Found → UConn → Run LoadResult
unfolding write_error
load_session found u = do
  u' ← on_enter_load_session_check u
  failed ← write_error found u'
  u'' ← on_load_session_return u'
  ok (if failed then load_failed u'' else loaded u'')

-- cipherSuiteTLS13ByID, a suite as its id
unfoldable pub cipher_suite_tls13_by_id : ℕ → Option ℕ
cipher_suite_tls13_by_id id = elim (tls13_hash_size id) [ none ↦ none | some n ↦ some id ]

-- The branch on `session.version == VersionTLS12`. The initialised ticket extension is copied to the
-- connection at once, a psk extension only if there is one.
use_psk : Session → Bytes → Bytes → List PskIdentity → UConn → Run UConn
use_psk s early key ids u = do
  u' ← init_psk_ext (some s) early key ids u
  if should_update_binders u'
      then (do
        u'' ← set_psk_to_u_conn u'
        ok (record u'' {
          psk_binder_key = key;
          psk_cipher_suite = cipher_suite_tls13_by_id s.cipher_suite;
        }))
      else ok u'

use_session : Session → Option Bytes → Bytes → Bytes → List PskIdentity → UConn → Run UConn
use_session s ticket early key ids u =
    if s.version == version_tls12
    then (do u' ← init_session_ticket_ext (some s) ticket u; set_session_ticket_to_u_conn u')
    else use_psk s early key ids u

-- `hello` is a copy whose ticket and identities are those of the connection until loadSession sets them.
use_found : Found → UConn → Run UConn
use_found nothing u = ok u
use_found (old_session s ticket) u = use_session s ticket List.[] List.[] u.hello_psk_identities u
use_found (tls13_session s early key ids update_fails) u =
    use_session s u.hello_session_ticket early key ids u

-- `if session == nil || err != nil { return err }`, and what comes after it
use_loaded : Found → LoadResult → Run LoadResult
use_loaded found (load_failed u) = ok (load_failed u)
use_loaded found (loaded u) = do u' ← use_found found u; ok (loaded u')

pub act : ShouldLoad → Found → UConn → Run LoadResult
act should_return found u = ok (loaded u)
act should_set_ticket found u = do u' ← set_session_ticket_to_u_conn u; ok (loaded u')
act should_set_psk found u = do u' ← set_psk_to_u_conn u; ok (loaded u')
act should_load found u = do
  u₁ ← utls_about_to_load_session u
  result ← load_session found u₁
  use_loaded found result

-- uLoadSession; the flag says that tickets are enabled and there is a session cache.
unfoldable pub u_load_session : Bool → Found → UConn → Run LoadResult
unfolding act use_loaded use_found use_session use_psk
u_load_session enabled found u =
    if not enabled then ok (loaded u) else act (should_load_session u) found u

-- What the two setters return: an error where sessions are disabled, or the connection.
pub data SetResult : Type 0 where
  session_is_disabled : SetResult
  was_set : UConn → SetResult

-- UConn.SetSessionTicketExtension and UConn.SetPskExtension, with a nil extension as `none`.
unfoldable pub set_session_ticket_extension : Bool → Option ℕ → UConn → Run SetResult
set_session_ticket_extension false ext u = ok session_is_disabled
set_session_ticket_extension true none u = ok (was_set u)
set_session_ticket_extension true (some p) u = do
  u' ← override_session_ticket_ext p u
  ok (was_set u')

unfoldable pub set_psk_extension : Bool → Option ℕ → UConn → Run SetResult
set_psk_extension false ext u = ok session_is_disabled
set_psk_extension true none u = ok (was_set u)
set_psk_extension true (some p) u = do
  u' ← override_psk_ext p (record u { hello_ticket_supported = true })
  ok (was_set u')
