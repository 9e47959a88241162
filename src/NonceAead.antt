-- ===== src/NonceAead.antt =====
-- cipher_suites.go: prefixNonceAEAD and xorNonceAEAD, the AEADs of the record layer over one of
-- crypto/cipher, which is the record Aead. A call returns the receiver as it is afterwards.
pub mod Prefix
pub mod Xor
pub mod Digits
pub mod Nonces
use utls.Base.{ℕ, Bytes, Option}

-- cipher.AEAD: the nonce, the text and the additional data
pub record Aead : Type 0 where
  pub overhead : ℕ
  pub seal : Bytes → Bytes → Bytes → Bytes
  pub open_sealed : Bytes → Bytes → Bytes → Option Bytes

abbrev pub aead_nonce_length : ℕ
aead_nonce_length = 12

abbrev pub nonce_prefix_length : ℕ
nonce_prefix_length = 4
