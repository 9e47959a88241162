-- ===== src/Session/Controller/Locked.antt =====
-- After finalCheck the session is fixed: what later calls may still change.
use utls.Base.{ℕ, Bool, true, false, List, Option, Bytes, ◌≡◌, refl, arith, ok, ◌∙◌}
use utls.Session.State.{Session, PskIdentity, UConn}
use utls.Session.Controller.Invariant.{IsConsistent}
use utls.Session.Controller.Steps.{
  Step, override_psk, override_ticket, sync, about_to_load, enter_load, leave_load, init_ticket,
  init_psk, set_ticket, set_psk, finish, Reach, here, next, Step-IsConsistent, Reach-IsConsistent,
}
use utls.Session.Controller.Sync.Laws.{sync_unlocked}
use utls.Session.Controller.{
  new_session_controller, utls_about_to_load_session, final_check, init_session_ticket_ext,
  init_psk_ext, set_session_ticket_to_u_conn, set_psk_to_u_conn, override_psk_ext,
  override_session_ticket_ext, on_enter_load_session_check, on_load_session_return,
}

-- Everything of the session but the binders.
pub record IsFrozen (u v : UConn) : Type 0 where
  pub still_locked : v.locked ≡ true
  pub same_state : v.state ≡ u.state
  pub same_ticket_ext : v.session_ticket_ext ≡ u.session_ticket_ext
  pub same_psk_ext : v.psk_extension ≡ u.psk_extension
  pub same_extensions : v.extensions ≡ u.extensions
  pub same_session : v.session ≡ u.session
  pub same_early_secret : v.early_secret ≡ u.early_secret
  pub same_ticket : v.hello_session_ticket ≡ u.hello_session_ticket
  pub same_identities : v.hello_psk_identities ≡ u.hello_psk_identities
  pub same_tickets : v.tickets ≡ u.tickets
  pub same_psks : v.psks ≡ u.psks

about-unlocked : (u : UConn) {v : UConn} → utls_about_to_load_session u ≡ ok v → u.locked ≡ false
unfolding utls_about_to_load_session
about-unlocked u e = ground arith

enter-unlocked : (u : UConn) {v : UConn} → on_enter_load_session_check u ≡ ok v → u.locked ≡ false
unfolding on_enter_load_session_check
enter-unlocked u e = ground arith

init_ticket-unlocked :
    (s : Option Session) (t : Option Bytes) (u : UConn) {v : UConn}
    → init_session_ticket_ext s t u ≡ ok v
    → u.locked ≡ false
unfolding init_session_ticket_ext
init_ticket-unlocked s t u e = ground arith

init_psk-unlocked :
    (s : Option Session) (early key : Bytes) (ids : List PskIdentity) (u : UConn) {v : UConn}
    → init_psk_ext s early key ids u ≡ ok v
    → u.locked ≡ false
unfolding init_psk_ext
init_psk-unlocked s early key ids u e = ground arith

override_psk-unlocked :
    (p : ℕ) (u : UConn) {v : UConn} → override_psk_ext p u ≡ ok v → u.locked ≡ false
unfolding override_psk_ext
override_psk-unlocked p u e = ground arith

override_ticket-unlocked :
    (p : ℕ) (u : UConn) {v : UConn} → override_session_ticket_ext p u ≡ ok v → u.locked ≡ false
unfolding override_session_ticket_ext
override_ticket-unlocked p u e = ground arith

-- A locked and consistent controller is not in the state that this call wants.
set_ticket-unlocked :
    {u v : UConn} → IsConsistent u → set_session_ticket_to_u_conn u ≡ ok v → u.locked ≡ false
unfolding set_session_ticket_to_u_conn
set_ticket-unlocked {u} c e = ground arith

set_psk-IsFrozen :
    {u v : UConn} → IsConsistent u → u.locked ≡ true → set_psk_to_u_conn u ≡ ok v → IsFrozen u v
unfolding set_psk_to_u_conn
set_psk-IsFrozen c l e = ground arith

leave-IsFrozen : {u v : UConn} → u.locked ≡ true → on_load_session_return u ≡ ok v → IsFrozen u v
unfolding on_load_session_return
leave-IsFrozen l e = ground arith

finish-IsFrozen : {u v : UConn} → u.locked ≡ true → final_check u ≡ ok v → IsFrozen u v
unfolding final_check
finish-IsFrozen l e = ground arith

not_both {ℓ} : {A : Type ℓ} {b : Bool} → b ≡ true → b ≡ false → A
not_both p q = cc

Step-IsFrozen : (u v : UConn) → IsConsistent u → u.locked ≡ true → Step u v → IsFrozen u v
Step-IsFrozen u v c l (override_psk p e) = not_both l (override_psk-unlocked p u e)
Step-IsFrozen u v c l (override_ticket p e) = not_both l (override_ticket-unlocked p u e)
Step-IsFrozen u v c l (sync r e same) = not_both l (sync_unlocked u e)
Step-IsFrozen u v c l (about_to_load e) = not_both l (about-unlocked u e)
Step-IsFrozen u v c l (enter_load e) = not_both l (enter-unlocked u e)
Step-IsFrozen u v c l (leave_load e) = leave-IsFrozen l e
Step-IsFrozen u v c l (init_ticket s t e) = not_both l (init_ticket-unlocked s t u e)
Step-IsFrozen u v c l (init_psk s early key ids e) =
    not_both l (init_psk-unlocked s early key ids u e)
Step-IsFrozen u v c l (set_ticket e) = not_both l (set_ticket-unlocked c e)
Step-IsFrozen u v c l (set_psk e) = set_psk-IsFrozen c l e
Step-IsFrozen u v c l (finish e) = finish-IsFrozen l e

IsFrozen-trans : {u v w : UConn} → IsFrozen u v → IsFrozen v w → IsFrozen u w
IsFrozen-trans f g = record {
  still_locked = g.still_locked;
  same_state = g.same_state ∙ f.same_state;
  same_ticket_ext = g.same_ticket_ext ∙ f.same_ticket_ext;
  same_psk_ext = g.same_psk_ext ∙ f.same_psk_ext;
  same_extensions = g.same_extensions ∙ f.same_extensions;
  same_session = g.same_session ∙ f.same_session;
  same_early_secret = g.same_early_secret ∙ f.same_early_secret;
  same_ticket = g.same_ticket ∙ f.same_ticket;
  same_identities = g.same_identities ∙ f.same_identities;
  same_tickets = g.same_tickets ∙ f.same_tickets;
  same_psks = g.same_psks ∙ f.same_psks;
}

Reach-IsFrozen :
    {u v : UConn} → IsConsistent u → u.locked ≡ true → Reach u v → IsConsistent v × IsFrozen u v
Reach-IsFrozen {u} c l here = (
  c,
  record {
    still_locked = l;
    same_state = refl;
    same_ticket_ext = refl;
    same_psk_ext = refl;
    same_extensions = refl;
    same_session = refl;
    same_early_secret = refl;
    same_ticket = refl;
    same_identities = refl;
    same_tickets = refl;
    same_psks = refl;
  },
)
Reach-IsFrozen c l (next {v} {w} r s) =
    let (cv, f) = Reach-IsFrozen c l r in
    (Step-IsConsistent v w s cv, IsFrozen-trans f (Step-IsFrozen v w cv f.still_locked s))

-- Once a controller that was reached from a new one is locked, no later sequence of the calls in Step
-- unlocks it or changes its state, the extensions it owns, the extension list, the extension objects,
-- or the session, early secret, ticket and identities of the connection.
pub locked-IsFrozen :
    (u v w : UConn)
    → Reach (new_session_controller u) v
    → v.locked ≡ true
    → Reach v w
    → IsFrozen v w
locked-IsFrozen u v w r l later = (Reach-IsFrozen (Reach-IsConsistent u v r) l later).1
