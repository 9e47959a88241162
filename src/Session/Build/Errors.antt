-- ===== src/Session/Build/Errors.antt =====
-- uLoadSession and the error that Conn.loadSession may return.
use utls.Base.{
  Bool, true, false, ok, ok-injective, >>=-returned, if◌then◌else◌, ◌≡◌, sym, ap, ◌∙◌, arith,
}
use utls.Session.State.{UConn, utls_about_to_call}
use utls.Session.Controller.{
  ShouldLoad, should_load, should_return, should_set_ticket, should_set_psk, should_load_session,
  should_load_session_write_binders, utls_about_to_load_session, set_session_ticket_to_u_conn,
  set_psk_to_u_conn, on_enter_load_session_check, on_load_session_return,
}
use utls.Session.Build.{
  Found, nothing, old_session, tls13_session, LoadResult, load_failed, loaded, write_error,
  load_session, use_found, use_loaded, act, u_load_session,
}

about_tracker : (u v : UConn) → utls_about_to_load_session u ≡ ok v → v.tracker ≡ utls_about_to_call
unfolding utls_about_to_load_session
about_tracker u v h = ground arith

enter_tracker : (u v : UConn) → on_enter_load_session_check u ≡ ok v → v.tracker ≡ u.tracker
unfolding on_enter_load_session_check
enter_tracker u v h = ground arith

no_write_error :
    (found : Found) (u : UConn) (failed : Bool)
    → u.tracker ≡ utls_about_to_call
    → write_error found u ≡ ok failed
    → failed ≡ false
unfolding write_error should_load_session_write_binders
no_write_error nothing u failed about h = ground arith
no_write_error (old_session s t) u failed about h = ground arith
no_write_error (tls13_session s early key ids fails) u failed about h = ground arith

about_loaded :
    (found : Found) (u : UConn) (r : LoadResult)
    → u.tracker ≡ utls_about_to_call
    → load_session found u ≡ ok r
    → (v : UConn) × (r ≡ loaded v)
unfolding load_session
about_loaded found u r about h =
    let (u₁, entered, rest) = >>=-returned (on_enter_load_session_check u) _ h in
    let (b, asked, rest') = >>=-returned (write_error found u₁) _ rest in
    let (u₂, left, is) = >>=-returned (on_load_session_return u₁) _ rest' in
    let none_failed = no_write_error found u₁ b (enter_tracker u u₁ entered ∙ about) asked in
    (u₂, sym (ok-injective is) ∙ ap (λ f. if f then load_failed u₂ else loaded u₂) none_failed)

used_loaded :
    (found : Found) (r r' : LoadResult) (v : UConn)
    → r ≡ loaded v
    → use_loaded found r ≡ ok r'
    → (w : UConn) × (r' ≡ loaded w)
unfolding use_loaded
used_loaded found r r' v is h =
    let (w, used, was) = >>=-returned (use_found found v) _ (rw is at h) in
    (w, sym (ok-injective was))

act_loaded :
    (d : ShouldLoad) (found : Found) (u : UConn) (r : LoadResult)
    → act d found u ≡ ok r
    → (v : UConn) × (r ≡ loaded v)
unfolding act
act_loaded should_return found u r h = (u, sym (ok-injective h))
act_loaded should_set_ticket found u r h =
    let (w, set, was) = >>=-returned (set_session_ticket_to_u_conn u) _ h in
    (w, sym (ok-injective was))
act_loaded should_set_psk found u r h =
    let (w, set, was) = >>=-returned (set_psk_to_u_conn u) _ h in (w, sym (ok-injective was))
act_loaded should_load found u r h =
    let (u₁, about, rest) = >>=-returned (utls_about_to_load_session u) _ h in
    let (q, was, used) = >>=-returned (load_session found u₁) _ rest in
    let (v, is) = about_loaded found u₁ q (about_tracker u u₁ about) was in
    used_loaded found q r v is used

-- A uLoadSession that does not panic returns no error, whatever it finds: loadSession is called by it with
-- the tracker that keeps computeAndUpdatePSK, whose error it would return, from being run.
pub u_load_session-no_error :
    (enabled : Bool) (found : Found) (u : UConn) (r : LoadResult)
    → u_load_session enabled found u ≡ ok r
    → (v : UConn) × (r ≡ loaded v)
unfolding u_load_session
u_load_session-no_error false found u r h = (u, sym (ok-injective h))
u_load_session-no_error true found u r h = act_loaded (should_load_session u) found u r h
