-- ===== src/Session/Controller/Invariant.antt =====
-- What every method of the controller keeps: a state that speaks of an extension has one, a locked
-- controller is settled, and loadSession is under way only if it was not called before.
use utls.Base.{ℕ, Bool, true, false, List, Option, Bytes, ◌≡◌, arith, ok}
use utls.Session.State.{
  ControllerState, no_session, session_ticket_ext_initialized, session_ticket_ext_all_set,
  psk_ext_initialized, psk_ext_all_set, Session, PskIdentity, UConn,
}
use utls.Session.Extension.{is_some}
use utls.Session.Controller.Checks.{was_loaded}
use utls.Session.Controller.{
  new_session_controller, utls_about_to_load_session, final_check, init_session_ticket_ext,
  init_psk_ext, set_session_ticket_to_u_conn, set_psk_to_u_conn, override_psk_ext,
  override_session_ticket_ext, on_enter_load_session_check, on_load_session_return,
}

abbrev pub needs_ticket : ControllerState → Bool
needs_ticket no_session = false
needs_ticket session_ticket_ext_initialized = true
needs_ticket session_ticket_ext_all_set = true
needs_ticket psk_ext_initialized = false
needs_ticket psk_ext_all_set = false

abbrev pub needs_psk : ControllerState → Bool
needs_psk no_session = false
needs_psk session_ticket_ext_initialized = false
needs_psk session_ticket_ext_all_set = false
needs_psk psk_ext_initialized = true
needs_psk psk_ext_all_set = true

-- The states that finalCheck lets through.
abbrev pub is_settled : ControllerState → Bool
is_settled no_session = true
is_settled session_ticket_ext_initialized = false
is_settled session_ticket_ext_all_set = true
is_settled psk_ext_initialized = false
is_settled psk_ext_all_set = true

pub record IsConsistent (u : UConn) : Type 0 where
  pub ticket_owned : needs_ticket u.state ≡ true → is_some u.session_ticket_ext ≡ true
  pub psk_owned : needs_psk u.state ≡ true → is_some u.psk_extension ≡ true
  pub lock_settled : u.locked ≡ true → is_settled u.state ≡ true
  pub loading_once : u.calling_load_session ≡ true → was_loaded u.tracker ≡ false

pub new-IsConsistent : (u : UConn) → IsConsistent (new_session_controller u)
unfolding new_session_controller
new-IsConsistent u = ground arith

pub about-IsConsistent :
    {u v : UConn} → IsConsistent u → utls_about_to_load_session u ≡ ok v → IsConsistent v
unfolding utls_about_to_load_session
about-IsConsistent c e = ground arith

pub final_check-IsConsistent :
    {u v : UConn} → IsConsistent u → final_check u ≡ ok v → IsConsistent v
unfolding final_check
final_check-IsConsistent c e = ground arith

pub init_ticket-IsConsistent :
    (s : Option Session) (t : Option Bytes) {u v : UConn}
    → IsConsistent u
    → init_session_ticket_ext s t u ≡ ok v
    → IsConsistent v
unfolding init_session_ticket_ext
init_ticket-IsConsistent s t c e = ground arith

pub init_psk-IsConsistent :
    (s : Option Session) (early key : Bytes) (ids : List PskIdentity) {u v : UConn}
    → IsConsistent u
    → init_psk_ext s early key ids u ≡ ok v
    → IsConsistent v
unfolding init_psk_ext
init_psk-IsConsistent s early key ids c e = ground arith

pub set_ticket-IsConsistent :
    {u v : UConn} → IsConsistent u → set_session_ticket_to_u_conn u ≡ ok v → IsConsistent v
unfolding set_session_ticket_to_u_conn
set_ticket-IsConsistent c e = ground arith

pub set_psk-IsConsistent :
    {u v : UConn} → IsConsistent u → set_psk_to_u_conn u ≡ ok v → IsConsistent v
unfolding set_psk_to_u_conn
set_psk-IsConsistent c e = ground arith

pub override_psk-IsConsistent :
    (p : ℕ) {u v : UConn} → IsConsistent u → override_psk_ext p u ≡ ok v → IsConsistent v
unfolding override_psk_ext
override_psk-IsConsistent p c e = ground arith

pub override_ticket-IsConsistent :
    (p : ℕ) {u v : UConn} → IsConsistent u → override_session_ticket_ext p u ≡ ok v → IsConsistent v
unfolding override_session_ticket_ext
override_ticket-IsConsistent p c e = ground arith

pub on_enter-IsConsistent :
    {u v : UConn} → IsConsistent u → on_enter_load_session_check u ≡ ok v → IsConsistent v
unfolding on_enter_load_session_check
on_enter-IsConsistent c e = ground arith

pub on_return-IsConsistent :
    {u v : UConn} → IsConsistent u → on_load_session_return u ≡ ok v → IsConsistent v
unfolding on_load_session_return
on_return-IsConsistent c e = ground arith
