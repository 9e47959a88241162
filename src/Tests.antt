-- ===== src/Tests.antt =====
-- The theorems at concrete inputs, and runs of the definitions.
mod Session
mod Grease
mod Hello
mod Reader
mod SessionCache
mod Builder
mod Messages
mod Spec
mod Psk
mod Ciphers
mod HalfConn
mod NonceAead
mod Conn
mod Certificate
