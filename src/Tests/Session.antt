-- ===== src/Tests/Session.antt =====
-- The session controller of u_session_controller.go on a connection with a ticket extension and a
-- psk extension in its list.
use utls.Base.{ℕ, true, false, [], Bytes, Option, ◌∷◌, none, some, ◌≡◌, refl, Run, ok, panic, arith}
use utls.Session.State.{
  ControllerState, never_called, no_session, session_ticket_ext_initialized, psk_ext_all_set,
  not_built, Session, TicketExt, UtlsPsk, utls_psk, ticket_at, psk_at, other, UConn,
}
use utls.Session.Extension.{
  initialize_ticket, initialize_psk, is_initialized, reset_for_reuse, set_omit_empty_psk,
  get_common, tls13_hash_size,
}
use utls.Session.Controller.{
  new_session_controller, should_load_session, utls_about_to_load_session, final_check,
  init_session_ticket_ext, init_psk_ext, set_session_ticket_to_u_conn, set_psk_to_u_conn,
  should_update_binders, override_session_ticket_ext, on_enter_load_session_check,
  on_load_session_return, should_load_session_write_binders,
}
use utls.Session.Controller.Invariant.{IsConsistent}
use utls.Session.Controller.Sync.{SyncResult, sync_session_exts, sync_all}
use utls.Session.Controller.Sync.Laws.{IsSynced, conn_of, sync_session_exts-IsSynced}
use utls.Session.Controller.Steps.{here, next, finish, override_ticket, Reach-IsConsistent}
use utls.Session.Controller.Locked.{IsFrozen, locked-IsFrozen}
use utls.Session.Build.{
  Found, nothing, old_session, tls13_session, LoadResult, load_failed, loaded, load_session,
  u_load_session, cipher_suite_tls13_by_id,
}
use utls.Session.Build.Errors.{u_load_session-no_error}
use utls.Session.Build.Again.{
  IsFresh, u_load_session-tls12, u_load_session_once, u_load_session_preset_panics,
  u_load_session-old_version,
}

abbrev session_12 : Session
session_12 = record { address = 7; version = 0x0303; cipher_suite = 0xc02f }

abbrev session_11 : Session
session_11 = record { address = 8; version = 0x0302; cipher_suite = 0xc013 }

abbrev session_13 : Session
session_13 = record { address = 9; version = 0x0304; cipher_suite = 0x1302 }

abbrev empty_psk : UtlsPsk
empty_psk = record {
  common = record {
    identities = [];
    binders = [];
    binder_key = [];
    early_secret = [];
    session = none;
  };
  suite_hash_size = none;
  cached_length = none;
  omit_empty_psk = false;
  skip_binder_patching = false;
}

abbrev empty_ticket : TicketExt
empty_ticket = record { session = none; ticket = none; initialized = false }

abbrev new_conn : UConn
new_conn = record {
  session_ticket_ext = none;
  psk_extension = none;
  state = no_session;
  tracker = never_called;
  calling_load_session = false;
  locked = false;
  build_status = not_built;
  skip_resumption_on_nil_extension = true;
  omit_empty_psk = true;
  extensions = other ∷ ticket_at 1 ∷ psk_at 2 ∷ [];
  session = none;
  early_secret = [];
  binder_key = [];
  hello_ticket_supported = false;
  hello_session_ticket = none;
  hello_psk_identities = [];
  hello_psk_binders = [];
  psk_binder_key = [];
  psk_cipher_suite = none;
  tickets = λ _. empty_ticket;
  psks = λ _. utls_psk empty_psk;
}

-- The connection a call returns, or the one before it if it panics.
abbrev returned : UConn → Run UConn → UConn
returned u (ok v) = v
returned u panic = u

-- The connection after uLoadSession, or the one before it if it panics or returns an error.
abbrev loaded_of : UConn → Run LoadResult → UConn
loaded_of u (ok (loaded v)) = v
loaded_of u (ok (load_failed v)) = u
loaded_of u panic = u

abbrev conn_after : UConn → Run SyncResult → UConn
conn_after u (ok r) = conn_of r
conn_after u panic = u

-- After syncSessionExts.
abbrev synced_conn : UConn
unfolding sync_session_exts sync_all reset_for_reuse set_omit_empty_psk
synced_conn = conn_after new_conn (sync_session_exts new_conn)

sync_session_exts-IsSynced_example : IsSynced synced_conn
unfolding sync_session_exts sync_all reset_for_reuse set_omit_empty_psk
sync_session_exts-IsSynced_example = sync_session_exts-IsSynced new_conn synced_conn refl

abbrev loaded_conn : UConn
unfolding u_load_session should_load_session utls_about_to_load_session load_session
    on_enter_load_session_check on_load_session_return init_session_ticket_ext initialize_ticket
    set_session_ticket_to_u_conn
loaded_conn =
    loaded_of synced_conn
      (u_load_session true (old_session session_12 (some (1 ∷ 2 ∷ []))) synced_conn)

-- The same connection after finalCheck.
abbrev locked_conn : UConn
unfolding final_check
locked_conn = returned loaded_conn (final_check loaded_conn)

IsFresh-synced : IsFresh synced_conn
unfolding synced_conn
IsFresh-synced = record { no_state = refl; not_loaded = refl; unlocked = refl; open_hello = refl }

u_load_session_once_example : u_load_session true nothing locked_conn ≡ ok (loaded locked_conn)
unfolding u_load_session should_load_session utls_about_to_load_session load_session
    on_enter_load_session_check on_load_session_return init_session_ticket_ext initialize_ticket
    set_session_ticket_to_u_conn final_check synced_conn
u_load_session_once_example =
    u_load_session_once synced_conn loaded_conn locked_conn
      (old_session session_12 (some (1 ∷ 2 ∷ []))) nothing IsFresh-synced refl refl refl

u_load_session-tls12_example :
    u_load_session true (old_session session_12 (some (1 ∷ 2 ∷ []))) synced_conn
    ≡ ok (loaded loaded_conn)
unfolding synced_conn loaded_conn
u_load_session-tls12_example =
    u_load_session-tls12 synced_conn 1 session_12 (1 ∷ 2 ∷ []) IsFresh-synced refl refl refl

-- An application that sets an initialised ticket extension before the first build.
abbrev own_ticket : UConn
own_ticket = record synced_conn {
  tickets = λ _. record { session = some session_12; ticket = some (5 ∷ []); initialized = true };
  state = session_ticket_ext_initialized;
}

abbrev own_loaded : UConn
unfolding u_load_session should_load_session set_session_ticket_to_u_conn
own_loaded = loaded_of own_ticket (u_load_session true nothing own_ticket)

abbrev own_locked : UConn
unfolding final_check
own_locked = returned own_loaded (final_check own_loaded)

u_load_session_preset_panics_example : u_load_session true nothing own_locked ≡ panic
unfolding u_load_session should_load_session set_session_ticket_to_u_conn final_check synced_conn
u_load_session_preset_panics_example =
    u_load_session_preset_panics own_ticket own_loaded own_locked nothing nothing refl refl refl
      refl refl

u_load_session-old_version_example :
    (v : UConn) × (u_load_session true (old_session session_11 (some (1 ∷ []))) synced_conn
      ≡ ok (loaded v))
    × (v.state ≡ psk_ext_all_set)
    × (v.session ≡ some session_11)
    × (v.hello_psk_identities ≡ [])
unfolding set_omit_empty_psk reset_for_reuse synced_conn
u_load_session-old_version_example =
    u_load_session-old_version synced_conn 2 (record empty_psk { omit_empty_psk = true }) session_11
      (1 ∷ []) IsFresh-synced refl refl refl refl (omega arith)

-- A new controller that is given an initialised ticket extension, and its final check.
abbrev overridden : UConn
unfolding override_session_ticket_ext new_session_controller
overridden =
    returned (new_session_controller own_loaded)
      (override_session_ticket_ext 1 (new_session_controller own_loaded))

Reach-IsConsistent_example : IsConsistent overridden
unfolding override_session_ticket_ext new_session_controller
Reach-IsConsistent_example =
    Reach-IsConsistent own_loaded overridden (next here (override_ticket 1 refl))

abbrev closed : UConn
unfolding final_check
closed = returned new_conn (final_check new_conn)

locked-IsFrozen_example : IsFrozen closed closed
unfolding final_check new_session_controller
locked-IsFrozen_example =
    locked-IsFrozen new_conn closed closed (next here (finish refl)) refl (next here (finish refl))

abbrev psk_fields : UConn → ControllerState × Bytes × Option ℕ
psk_fields u = (u.state, u.psk_binder_key, u.psk_cipher_suite)

-- A TLS 1.3 session in the cache, for which computeAndUpdatePSK would fail.
abbrev failing : Found
failing = tls13_session session_13 (3 ∷ []) (4 ∷ []) [] true

abbrev psk_conn : UConn
unfolding u_load_session should_load_session utls_about_to_load_session load_session
    on_enter_load_session_check on_load_session_return init_psk_ext initialize_psk is_initialized
    should_load_session_write_binders set_psk_to_u_conn should_update_binders get_common
    cipher_suite_tls13_by_id tls13_hash_size synced_conn
psk_conn = loaded_of synced_conn (u_load_session true failing synced_conn)

-- The psk extension is set up and copied to the connection.
loads_tls13 : psk_fields psk_conn ≡ (psk_ext_all_set, 4 ∷ [], some 0x1302)
unfolding psk_conn
loads_tls13 = refl

u_load_session-no_error_example : (v : UConn) × (loaded psk_conn ≡ loaded v)
unfolding u_load_session should_load_session utls_about_to_load_session load_session
    on_enter_load_session_check on_load_session_return init_psk_ext initialize_psk is_initialized
    should_load_session_write_binders set_psk_to_u_conn should_update_binders get_common
    cipher_suite_tls13_by_id tls13_hash_size synced_conn
u_load_session-no_error_example =
    u_load_session-no_error true failing synced_conn (loaded psk_conn) refl
