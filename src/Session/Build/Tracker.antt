-- ===== src/Session/Build/Tracker.antt =====
-- The load tracker of the controller over one uLoadSession that looks a session up.
use utls.Base.{
  >>=-returned, ok-injective, if◌then◌else◌, sym, ap, ◌∙◌, Bool, true, false, ok, ◌≡◌, refl, arith,
}
use utls.Session.State.{UConn}
use utls.Session.Controller.Checks.{was_loaded}
use utls.Session.Controller.{
  should_load, utls_about_to_load_session, init_session_ticket_ext, set_session_ticket_to_u_conn,
  on_enter_load_session_check, on_load_session_return, init_psk_ext, set_psk_to_u_conn,
  should_update_binders,
}
use utls.Session.Build.{
  Found, nothing, old_session, tls13_session, LoadResult, load_failed, loaded, write_error,
  load_session, use_loaded, use_found, use_session, use_psk, act,
}

use_found_tracker :
    (found : Found) (u v : UConn)
    → was_loaded u.tracker ≡ true
    → use_found found u ≡ ok v
    → was_loaded v.tracker ≡ true
unfolding use_found use_session use_psk init_session_ticket_ext init_psk_ext
    set_session_ticket_to_u_conn set_psk_to_u_conn should_update_binders
use_found_tracker nothing u v l h = ground arith
use_found_tracker (old_session s t) u v l h = ground arith
use_found_tracker (tls13_session s early key ids fails) u v l h = ground arith

abbrev conn_of : LoadResult → UConn
conn_of (load_failed u) = u
conn_of (loaded u) = u

conn_of-if : (failed : Bool) (u : UConn) → conn_of (if failed then load_failed u else loaded u) ≡ u
conn_of-if true u = refl
conn_of-if false u = refl

return_tracker : (u v : UConn) → on_load_session_return u ≡ ok v → was_loaded v.tracker ≡ true
unfolding on_load_session_return
return_tracker u v h = ground arith

-- loadSession leaves the tracker at a value that says so.
load_session_tracker :
    (found : Found) (u : UConn) (r : LoadResult)
    → load_session found u ≡ ok r
    → was_loaded (conn_of r).tracker ≡ true
unfolding load_session
load_session_tracker found u r h =
    let (u₁, entered, rest) = >>=-returned (on_enter_load_session_check u) _ h in
    let (b, asked, rest') = >>=-returned (write_error found u₁) _ rest in
    let (u₂, left, is) = >>=-returned (on_load_session_return u₁) _ rest' in
    ap (λ t. was_loaded t.tracker) (ap conn_of (sym (ok-injective is)) ∙ conn_of-if b u₂)
    ∙ return_tracker u₁ u₂ left

use_loaded_tracker :
    (found : Found) (r : LoadResult) (v : UConn)
    → was_loaded (conn_of r).tracker ≡ true
    → use_loaded found r ≡ ok (loaded v)
    → was_loaded v.tracker ≡ true
unfolding use_loaded
use_loaded_tracker found (load_failed u) v l h = cc
use_loaded_tracker found (loaded u) v l h =
    let (w, used, is) = >>=-returned (use_found found u) _ h in
    let same : w ≡ v = cc in use_found_tracker found u v l (used ∙ ap ok same)

pub act_load_tracker :
    (found : Found) (u v : UConn)
    → act should_load found u ≡ ok (loaded v)
    → was_loaded v.tracker ≡ true
unfolding act
act_load_tracker found u v h =
    let (u₁, about, rest) = >>=-returned (utls_about_to_load_session u) _ h in
    let (r, was, used) = >>=-returned (load_session found u₁) _ rest in
    use_loaded_tracker found r v (load_session_tracker found u₁ r was) used
