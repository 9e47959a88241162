-- ===== src/Session/Build/Again.antt =====
-- What one call of uLoadSession does with a session, and what a second call does. BuildHandshakeState
-- calls it each time, then locks the controller.
use utls.Base.{
  ◌||◌, ◌<◌, ap, ◌∙◌, ℕ, Bool, true, false, [], some, none, Bytes, ok, panic, ◌≡◌, refl, arith,
}
use utls.Session.State.{
  Session, UConn, ControllerState, no_session, session_ticket_ext_initialized,
  session_ticket_ext_all_set, psk_ext_all_set, psk_ext_initialized, never_called,
  called_by_u_load_session, not_built, utls_psk, UtlsPsk, update,
}
use utls.Session.Extension.{
  initialize_ticket, version_tls12, is_some, initialize_psk, is_initialized, get_common,
  tls13_hash_size,
}
use utls.Session.Controller.Checks.{was_loaded}
use utls.Session.Controller.{
  should_load, should_return, should_load_session, utls_about_to_load_session, final_check,
  init_session_ticket_ext, set_session_ticket_to_u_conn, on_enter_load_session_check,
  on_load_session_return, init_psk_ext, set_psk_to_u_conn, should_update_binders,
}
use utls.Session.Build.{
  Found, old_session, loaded, u_load_session, load_session, act, cipher_suite_tls13_by_id,
}
use utls.Session.Build.Tracker.{act_load_tracker}

-- A connection whose ClientHello is not built and for which no session was looked up.
pub record IsFresh (u : UConn) : Type 0 where
  pub no_state : u.state ≡ no_session
  pub not_loaded : u.tracker ≡ never_called
  pub unlocked : u.locked ≡ false
  pub open_hello : u.build_status ≡ not_built

-- The connection that a cached TLS 1.2 session leads to, with the ticket extension at `p`.
abbrev resumed_12 : UConn → ℕ → Session → Bytes → UConn
resumed_12 u p s t = record u {
  tickets = update u.tickets p (record { session = some s; ticket = some t; initialized = true });
  session = some s;
  hello_session_ticket = some t;
  state = session_ticket_ext_all_set;
  tracker = called_by_u_load_session;
  calling_load_session = false;
}

load_tls12-run :
    (u : UConn) (p : ℕ) (s : Session) (t : Bytes)
    → IsFresh u
    → u.session_ticket_ext ≡ some p
    → (u.tickets p).initialized ≡ false
    → s.version ≡ version_tls12
    → u_load_session true (old_session s (some t)) u ≡ ok (loaded (resumed_12 u p s t))
unfolding u_load_session should_load_session utls_about_to_load_session load_session
    on_enter_load_session_check on_load_session_return init_session_ticket_ext initialize_ticket
    set_session_ticket_to_u_conn
load_tls12-run u p s t f e i v = ground arith

-- A fresh connection with a ticket extension that is not initialised and a TLS 1.2 session in the
-- cache: uLoadSession gives the session and its ticket to the extension, the connection and the
-- hello, and does not panic or return an error.
pub u_load_session-tls12 :
    (u : UConn) (p : ℕ) (s : Session) (t : Bytes)
    → IsFresh u
    → u.session_ticket_ext ≡ some p
    → (u.tickets p).initialized ≡ false
    → s.version ≡ version_tls12
    → u_load_session true (old_session s (some t)) u ≡ ok (loaded (resumed_12 u p s t))
u_load_session-tls12 u p s t f e i v = load_tls12-run u p s t f e i v

fresh_decision :
    (u : UConn)
    → IsFresh u
    → (is_some u.session_ticket_ext || is_some u.psk_extension) ≡ true
    → should_load_session u ≡ should_load
unfolding should_load_session
fresh_decision u f e = ground arith

loaded_decision : (u : UConn) → was_loaded u.tracker ≡ true → should_load_session u ≡ should_return
unfolding should_load_session
loaded_decision u l = ground arith

locked_same : (u v : UConn) → final_check u ≡ ok v → v.tracker ≡ u.tracker
unfolding final_check
locked_same u v h = ground arith

-- A fresh connection with a session extension looks its session up once: after a uLoadSession that
-- returns without a panic or an error and the final check, every further uLoadSession returns at once,
-- without an error, and changes nothing, whatever the cache then holds.
pub u_load_session_once :
    (u v w : UConn) (found later : Found)
    → IsFresh u
    → (is_some u.session_ticket_ext || is_some u.psk_extension) ≡ true
    → u_load_session true found u ≡ ok (loaded v)
    → final_check v ≡ ok w
    → u_load_session true later w ≡ ok (loaded w)
unfolding u_load_session act
u_load_session_once u v w found later f e h k =
    let first = act_load_tracker found u v (rw (fresh_decision u f e) at h) in
    rw (loaded_decision w (ap was_loaded (locked_same v w k) ∙ first))

abbrev pub is_preset : ControllerState → Bool
is_preset no_session = false
is_preset session_ticket_ext_initialized = true
is_preset session_ticket_ext_all_set = false
is_preset psk_ext_initialized = true
is_preset psk_ext_all_set = false

-- When the application has set an initialised ticket or psk extension before the first build, the
-- second uLoadSession panics: no session was looked up, so it decides to load one into a controller
-- that is locked and has one.
pub u_load_session_preset_panics :
    (u v w : UConn) (found later : Found)
    → is_preset u.state ≡ true
    → was_loaded u.tracker ≡ false
    → (is_some u.session_ticket_ext || is_some u.psk_extension) ≡ true
    → u_load_session true found u ≡ ok (loaded v)
    → final_check v ≡ ok w
    → u_load_session true later w ≡ panic
unfolding u_load_session act should_load_session set_session_ticket_to_u_conn set_psk_to_u_conn
    final_check utls_about_to_load_session
u_load_session_preset_panics u v w found later p l e h k = ground arith

abbrev with_old_session : UConn → ℕ → UtlsPsk → Session → UConn
with_old_session u p e s = record u {
  psks = update u.psks p (
      utls_psk (record e {
        common = record {
          identities = [];
          binders = [];
          binder_key = [];
          early_secret = [];
          session = some s;
        };
        suite_hash_size = tls13_hash_size s.cipher_suite;
      }));
  session = some s;
  early_secret = [];
  binder_key = [];
  hello_psk_identities = [];
  hello_psk_binders = [];
  psk_binder_key = [];
  psk_cipher_suite = cipher_suite_tls13_by_id s.cipher_suite;
  state = psk_ext_all_set;
  tracker = called_by_u_load_session;
  calling_load_session = false;
}

-- A cached session of TLS 1.0 or 1.1 that meets an uninitialised psk extension is put into it as if it
-- were a TLS 1.3 session: the connection ends in the psk state with that session and no identity.
pub u_load_session-old_version :
    (u : UConn) (p : ℕ) (e : UtlsPsk) (s : Session) (t : Bytes)
    → IsFresh u
    → u.psk_extension ≡ some p
    → u.psks p ≡ utls_psk e
    → e.common.session ≡ none
    → u.hello_psk_identities ≡ []
    → s.version < version_tls12
    → (v : UConn) × (u_load_session true (old_session s (some t)) u ≡ ok (loaded v))
      × (v.state ≡ psk_ext_all_set)
      × (v.session ≡ some s)
      × (v.hello_psk_identities ≡ [])
unfolding u_load_session should_load_session utls_about_to_load_session load_session
    on_enter_load_session_check on_load_session_return init_psk_ext initialize_psk is_initialized
    set_psk_to_u_conn should_update_binders get_common
u_load_session-old_version u p e s t f q r n i v =
    (with_old_session u p e s, ground arith, refl, refl, refl)
