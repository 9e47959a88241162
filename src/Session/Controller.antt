-- ===== src/Session/Controller.antt =====
-- u_session_controller.go: the methods of sessionController, each as a function on the connection.
-- A method that asserts returns or panics; what a panic leaves behind is not modelled.
pub mod Checks
pub mod Sync
pub mod Invariant
pub mod Steps
pub mod Locked
use Checks.{
  is_state, is_not_built, was_loaded, assert_hello_not_built, assert_controller_state,
  assert_not_locked, assert_can_skip, panic_on_nil, slice_eq, same_session,
}
use utls.Base.{
  ℕ, Bool, true, false, not, ◌&&◌, ◌||◌, ◌==◌, List, [], ◌∷◌, map, Option, none, some, Bytes,
  length, if◌then◌else◌, Run, ok, panic, check, ◌>>=◌, ◌>>◌,
}
use utls.Session.State.{
  Tracker, never_called, utls_about_to_call, called_by_u_load_session, called_by_go_tls,
  ControllerState, no_session, session_ticket_ext_initialized, session_ticket_ext_all_set,
  psk_ext_initialized, psk_ext_all_set, BuildStatus, not_built, Session, PskIdentity,
  PreSharedKeyCommon, UConn, update,
}
use utls.Session.Extension.{initialize_ticket, initialize_psk, is_initialized, get_common, is_some}

-- newSessionController, put into a connection
unfoldable pub new_session_controller : UConn → UConn
new_session_controller u = record u {
  session_ticket_ext = none;
  psk_extension = none;
  state = no_session;
  locked = false;
  calling_load_session = false;
  tracker = never_called;
}

-- shouldLoadSessionResult
pub data ShouldLoad : Type 0 where
  should_return should_set_ticket should_set_psk should_load : ShouldLoad

unfoldable pub should_load_session : UConn → ShouldLoad
should_load_session u =
    if not (is_some u.session_ticket_ext) && not (is_some u.psk_extension)
    then should_return
    else if was_loaded u.tracker
    then should_return
    else if is_state u.state session_ticket_ext_initialized
    then should_set_ticket
    else if is_state u.state psk_ext_initialized
    then should_set_psk
    else should_load

unfoldable pub utls_about_to_load_session : UConn → Run UConn
utls_about_to_load_session u = do
  check (is_state u.state no_session && not u.locked)
  ok (record u { tracker = utls_about_to_call })

unfoldable pub final_check : UConn → Run UConn
final_check u = do
  assert_controller_state u (psk_ext_all_set ∷ session_ticket_ext_all_set ∷ no_session ∷ [])
  ok (record u { locked = true })

-- initializationGuard around InitializeByUtls of the ticket extension
init_ticket_at : Option Session → Option Bytes → ℕ → UConn → Run UConn
init_ticket_at session ticket p u = do
  check (not (u.tickets p).initialized)
  e ← initialize_ticket session ticket (u.tickets p)
  check e.initialized
  ok (record u { tickets = update u.tickets p e; state = session_ticket_ext_initialized })

init_ticket_or_skip : Option Session → Option Bytes → Option ℕ → UConn → Run UConn
init_ticket_or_skip session ticket none u = do assert_can_skip u; ok u
init_ticket_or_skip session ticket (some p) u = init_ticket_at session ticket p u

unfoldable pub init_session_ticket_ext : Option Session → Option Bytes → UConn → Run UConn
unfolding init_ticket_or_skip init_ticket_at
init_session_ticket_ext session ticket u = do
  assert_not_locked u
  assert_hello_not_built u
  assert_controller_state u (no_session ∷ [])
  panic_on_nil (false ∷ false ∷ [])
  init_ticket_or_skip session ticket u.session_ticket_ext u

-- initializationGuard around InitializeByUtls of the psk extension
init_psk_at : Option Session → Bytes → Bytes → List PskIdentity → ℕ → UConn → Run UConn
init_psk_at session early_secret binder_key identities p u = do
  check (not (is_initialized (u.psks p)))
  e ← initialize_psk session early_secret binder_key identities (u.psks p)
  check (is_initialized e)
  ok (record u { psks = update u.psks p e; state = psk_ext_initialized })

init_psk_or_skip : Option Session → Bytes → Bytes → List PskIdentity → Option ℕ → UConn → Run UConn
init_psk_or_skip session early_secret binder_key identities none u = do assert_can_skip u; ok u
init_psk_or_skip session early_secret binder_key identities (some p) u =
    init_psk_at session early_secret binder_key identities p u

-- The early secret stands for `earlySecret.Secret()`. The identities are copied field by field.
unfoldable pub init_psk_ext : Option Session → Bytes → Bytes → List PskIdentity → UConn → Run UConn
unfolding init_psk_or_skip init_psk_at
init_psk_ext session early_secret binder_key identities u = do
  assert_not_locked u
  assert_hello_not_built u
  assert_controller_state u (no_session ∷ [])
  panic_on_nil (false ∷ false ∷ false ∷ [])
  init_psk_or_skip session early_secret binder_key identities u.psk_extension u

set_ticket_at : Option ℕ → UConn → Run UConn
set_ticket_at none u = panic
set_ticket_at (some p) u = do
  check (is_state u.state session_ticket_ext_initialized)
  ok (record u {
    session = (u.tickets p).session;
    hello_session_ticket = (u.tickets p).ticket;
    state = session_ticket_ext_all_set;
  })

unfoldable pub set_session_ticket_to_u_conn : UConn → Run UConn
unfolding set_ticket_at
set_session_ticket_to_u_conn u = set_ticket_at u.session_ticket_ext u

-- `allTrue(hello.PskIdentities, …)` against `pskCommon.Identities[i]`, which panics out of range
same_identities : List PskIdentity → List PskIdentity → Run Bool
same_identities [] ext = ok true
same_identities (h ∷ hs) [] = panic
same_identities (h ∷ hs) (e ∷ es) =
    let rest = same_identities hs es in
    if e.obfuscated_ticket_age == h.obfuscated_ticket_age && slice_eq e.label h.label
    then rest
    else ok false

only_binders_change : PreSharedKeyCommon → UConn → Run (Unit {0})
only_binders_change c u =
    let identities = same_identities u.hello_psk_identities c.identities >>= check in
    if same_session u.session c.session && slice_eq u.early_secret c.early_secret
    then identities
    else panic

set_psk_common : PreSharedKeyCommon → UConn → Run UConn
set_psk_common c u =
    if is_state u.state psk_ext_initialized
    then ok (record u {
      early_secret = c.early_secret;
      session = c.session;
      hello_psk_identities = c.identities;
      hello_psk_binders = c.binders;
      binder_key = c.binder_key;
      state = psk_ext_all_set;
    })
    else (do
      only_binders_change c u
      ok (record u { binder_key = c.binder_key; state = psk_ext_all_set }))

set_psk_at : Option ℕ → UConn → Run UConn
set_psk_at none u = panic
set_psk_at (some p) u = do
  check (is_state u.state psk_ext_initialized || is_state u.state psk_ext_all_set)
  set_psk_common (get_common (u.psks p)) u

unfoldable pub set_psk_to_u_conn : UConn → Run UConn
unfolding set_psk_at set_psk_common only_binders_change same_identities
set_psk_to_u_conn u = set_psk_at u.psk_extension u

unfoldable pub should_update_binders : UConn → Bool
should_update_binders u =
    is_some u.psk_extension
    && (is_state u.state psk_ext_initialized || is_state u.state psk_ext_all_set)

-- overrideExtension; the flag says that the interface value is nil, `replaced` is the connection
-- after `override()`, and the state is set only for an initialised extension.
override_extension : Bool → Bool → UConn → ControllerState → UConn → Run UConn
override_extension is_nil initialized replaced initialized_state u = do
  panic_on_nil (is_nil ∷ [])
  assert_not_locked u
  assert_controller_state u (no_session ∷ [])
  ok (if initialized then record replaced { state = initialized_state } else replaced)

-- overridePskExt with the extension at an address, never nil; the error that it returns is always nil
unfoldable pub override_psk_ext : ℕ → UConn → Run UConn
unfolding override_extension
override_psk_ext p u =
    override_extension false (is_initialized (u.psks p)) (record u { psk_extension = some p })
      psk_ext_initialized u

unfoldable pub override_session_ticket_ext : ℕ → UConn → Run UConn
unfolding override_extension
override_session_ticket_ext p u =
    override_extension false (u.tickets p).initialized (record u { session_ticket_ext = some p })
      session_ticket_ext_initialized u

unfoldable pub on_enter_load_session_check : UConn → Run UConn
on_enter_load_session_check u = do
  check (not u.locked)
  check (not (was_loaded u.tracker))
  ok (record u { calling_load_session = true })

returned_from : Tracker → UConn → Run UConn
returned_from never_called u =
    ok (record u { tracker = called_by_go_tls; calling_load_session = false })
returned_from utls_about_to_call u =
    ok (record u { tracker = called_by_u_load_session; calling_load_session = false })
returned_from called_by_u_load_session u = panic
returned_from called_by_go_tls u = panic

unfoldable pub on_load_session_return : UConn → Run UConn
unfolding returned_from
on_load_session_return u = do check u.calling_load_session; returned_from u.tracker u

writes_binders : Tracker → Run Bool
writes_binders never_called = ok true
writes_binders utls_about_to_call = ok false
writes_binders called_by_u_load_session = panic
writes_binders called_by_go_tls = panic

unfoldable pub should_load_session_write_binders : UConn → Run Bool
unfolding writes_binders
should_load_session_write_binders u = do check u.calling_load_session; writes_binders u.tracker
