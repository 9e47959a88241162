-- ===== src/Session/Controller/Steps.antt =====
-- Any order of calls of the controller's methods, as a step relation on connections.
use mathlib.Core.Path.{subst}
use utls.Base.{ℕ, List, Option, Bytes, ◌≡◌, ok}
use utls.Session.State.{Session, PskIdentity, UConn}
use utls.Session.Controller.Invariant.{
  IsConsistent, new-IsConsistent, about-IsConsistent, final_check-IsConsistent,
  init_ticket-IsConsistent, init_psk-IsConsistent, set_ticket-IsConsistent, set_psk-IsConsistent,
  override_psk-IsConsistent, override_ticket-IsConsistent, on_enter-IsConsistent,
  on_return-IsConsistent,
}
use utls.Session.Controller.Sync.{SyncResult, sync_session_exts}
use utls.Session.Controller.Sync.Laws.{conn_of, sync_session_exts-IsConsistent}
use utls.Session.Controller.{
  new_session_controller, utls_about_to_load_session, final_check, init_session_ticket_ext,
  init_psk_ext, set_session_ticket_to_u_conn, set_psk_to_u_conn, override_psk_ext,
  override_session_ticket_ext, on_enter_load_session_check, on_load_session_return,
}

-- One call that returns, from connection `u` to connection `v`.
pub data Step (u v : UConn) : Type 0 where
  override_psk : (p : ℕ) → override_psk_ext p u ≡ ok v → Step u v
  override_ticket : (p : ℕ) → override_session_ticket_ext p u ≡ ok v → Step u v
  sync : (r : SyncResult) → sync_session_exts u ≡ ok r → conn_of r ≡ v → Step u v
  about_to_load : utls_about_to_load_session u ≡ ok v → Step u v
  enter_load : on_enter_load_session_check u ≡ ok v → Step u v
  leave_load : on_load_session_return u ≡ ok v → Step u v
  init_ticket :
      (s : Option Session) (t : Option Bytes) → init_session_ticket_ext s t u ≡ ok v → Step u v
  init_psk :
      (s : Option Session) (early key : Bytes) (ids : List PskIdentity)
      → init_psk_ext s early key ids u ≡ ok v
      → Step u v
  set_ticket : set_session_ticket_to_u_conn u ≡ ok v → Step u v
  set_psk : set_psk_to_u_conn u ≡ ok v → Step u v
  finish : final_check u ≡ ok v → Step u v

pub data Reach (u : UConn) : UConn → Type 0 where
  here : Reach u u
  next : {v w : UConn} → Reach u v → Step v w → Reach u w

pub Step-IsConsistent : (u v : UConn) → Step u v → IsConsistent u → IsConsistent v
Step-IsConsistent u v (override_psk p e) c = override_psk-IsConsistent p c e
Step-IsConsistent u v (override_ticket p e) c = override_ticket-IsConsistent p c e
Step-IsConsistent u v (sync r e same) c =
    subst IsConsistent same (sync_session_exts-IsConsistent u c e)
Step-IsConsistent u v (about_to_load e) c = about-IsConsistent c e
Step-IsConsistent u v (enter_load e) c = on_enter-IsConsistent c e
Step-IsConsistent u v (leave_load e) c = on_return-IsConsistent c e
Step-IsConsistent u v (init_ticket s t e) c = init_ticket-IsConsistent s t c e
Step-IsConsistent u v (init_psk s early key ids e) c = init_psk-IsConsistent s early key ids c e
Step-IsConsistent u v (set_ticket e) c = set_ticket-IsConsistent c e
Step-IsConsistent u v (set_psk e) c = set_psk-IsConsistent c e
Step-IsConsistent u v (finish e) c = final_check-IsConsistent c e

Reach-keeps : {u v : UConn} → IsConsistent u → Reach u v → IsConsistent v
Reach-keeps c here = c
Reach-keeps c (next {v} {w} r s) = Step-IsConsistent v w s (Reach-keeps c r)

-- From a new controller, after any number of calls of its methods in any order, none of which
-- panics: a state that speaks of a ticket or psk extension has that extension, a locked controller
-- is in a state that finalCheck accepts, and loadSession is under way only if it was not called before.
pub Reach-IsConsistent : (u v : UConn) → Reach (new_session_controller u) v → IsConsistent v
Reach-IsConsistent u v r = Reach-keeps (new-IsConsistent u) r
