-- ===== src/Session.antt =====
-- u_session_controller.go, u_session_ticket.go, u_pre_shared_key.go and the session part of u_conn.go.
-- `State` holds the records, `Extension` the two extension types that own a session, `Controller`
-- the methods of sessionController, `Build` the calls that BuildHandshakeState makes to it, and
-- `Psk` Len and Read of the session extensions.
pub mod State
pub mod Extension
pub mod Controller
pub mod Build
pub mod Psk
