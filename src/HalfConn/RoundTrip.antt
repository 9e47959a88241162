-- ===== src/HalfConn/RoundTrip.antt =====
-- What one half encrypts, the other half decrypts, whatever protects the records.
pub mod Steps
pub mod Stream
pub mod Aead
pub mod Blocks
pub mod Cbc
pub mod Any
pub mod Exchange
