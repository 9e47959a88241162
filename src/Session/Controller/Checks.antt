-- ===== src/Session/Controller/Checks.antt =====
-- Comparisons of the enumerations, and the assertions that the methods begin with.
use utls.Base.{
  ℕ, Bool, true, false, not, ◌&&◌, ◌||◌, ◌==◌, List, [], ◌∷◌, Option, none, some, Bytes, Run, check,
  ◌>>◌,
}
use utls.Session.State.{
  ControllerState, no_session, session_ticket_ext_initialized, session_ticket_ext_all_set,
  psk_ext_initialized, psk_ext_all_set, BuildStatus, not_built, build_by_utls, build_by_go_tls,
  Session, UConn, Tracker, never_called, utls_about_to_call, called_by_u_load_session,
  called_by_go_tls,
}

-- The constants behind the constructors.
abbrev code : ControllerState → ℕ
code no_session = 0
code session_ticket_ext_initialized = 1
code session_ticket_ext_all_set = 2
code psk_ext_initialized = 3
code psk_ext_all_set = 4

abbrev pub is_state : ControllerState → ControllerState → Bool
is_state a b = code a == code b

abbrev pub is_not_built : BuildStatus → Bool
is_not_built not_built = true
is_not_built build_by_utls = false
is_not_built build_by_go_tls = false

abbrev pub was_loaded : Tracker → Bool
was_loaded called_by_u_load_session = true
was_loaded called_by_go_tls = true
was_loaded never_called = false
was_loaded utls_about_to_call = false

-- assertHelloNotBuilt
abbrev pub assert_hello_not_built : UConn → Run (Unit {0})
assert_hello_not_built u = check (is_not_built u.build_status)

abbrev any_state : ControllerState → List ControllerState → Bool
any_state s [] = false
any_state s (d ∷ ds) = is_state s d || any_state s ds

-- assertControllerState, with the desired states as one list
abbrev pub assert_controller_state : UConn → List ControllerState → Run (Unit {0})
assert_controller_state u desired = check (any_state u.state desired)

-- assertNotLocked
abbrev pub assert_not_locked : UConn → Run (Unit {0})
assert_not_locked u = check (not u.locked)

-- assertCanSkip
abbrev pub assert_can_skip : UConn → Run (Unit {0})
assert_can_skip u = check u.skip_resumption_on_nil_extension

-- panicOnNil. An argument is `any`: an interface that holds a nil pointer or a nil slice is not nil,
-- so the flags are `true` only for an argument that was an interface before.
abbrev pub panic_on_nil : List Bool → Run (Unit {0})
panic_on_nil [] = check true
panic_on_nil (is_nil ∷ rest) = do check (not is_nil); panic_on_nil rest

-- sliceEq
abbrev pub slice_eq : Bytes → Bytes → Bool
slice_eq [] [] = true
slice_eq (a ∷ as') (b ∷ bs) = a == b && slice_eq as' bs
slice_eq [] (b ∷ bs) = false
slice_eq (a ∷ as') [] = false

-- Equality of *SessionState pointers.
abbrev pub same_session : Option Session → Option Session → Bool
same_session none none = true
same_session (some a) (some b) = a.address == b.address
same_session none (some b) = false
same_session (some a) none = false
