-- ===== src/Cryptobyte/Builder.antt =====
-- golang.org/x/crypto/cryptobyte, as an interface: the Builder that the messages are written with. A
-- Builder is a value here: a call returns it as it is afterwards. `contents` is Bytes, which returns the
-- bytes written or an error.
use utls.Base.{ℕ, ◌^◌, ◌≤◌, ◌<◌, [], ◌∷◌, ◌++◌, Option, none, some, Bytes, length, ◌≡◌}
use utls.Extension.Wire.{u16}
use utls.ClientHello.{u24}
use utls.Session.Psk.{u32}

pub record Builder : Type 1 where
  pub State : Type 0
  pub empty : State
  pub contents : State → Option Bytes
  pub add_uint8 : ℕ → State → State
  pub add_uint16 : ℕ → State → State
  pub add_uint32 : ℕ → State → State
  pub add_bytes : Bytes → State → State
  -- The argument is the BuilderContinuation, which writes the content.
  pub add_uint8_length_prefixed : (State → State) → State → State
  pub add_uint16_length_prefixed : (State → State) → State → State
  pub add_uint24_length_prefixed : (State → State) → State → State
  pub empty_lem : contents empty ≡ some []
  -- A big-endian value, or a sequence of bytes, is appended to the byte string.
  pub add_uint8_lem :
      (n : ℕ) (b : State) (x : Bytes)
      → n < 256
      → contents b ≡ some x
      → contents (add_uint8 n b) ≡ some (x ++ n ∷ [])
  pub add_uint16_lem :
      (n : ℕ) (b : State) (x : Bytes)
      → n < 65536
      → contents b ≡ some x
      → contents (add_uint16 n b) ≡ some (x ++ u16 n)
  pub add_uint32_lem :
      (n : ℕ) (b : State) (x : Bytes)
      → n < 2 ^ 32
      → contents b ≡ some x
      → contents (add_uint32 n b) ≡ some (x ++ u32 n)
  pub add_bytes_lem :
      (v : Bytes) (b : State) (x : Bytes)
      → contents b ≡ some x
      → contents (add_bytes v b) ≡ some (x ++ v)
  -- A length-prefixed byte sequence is added, which the continuation writes.
  pub add_uint8_length_prefixed_lem :
      (f : State → State) (b : State) (x y : Bytes)
      → contents b ≡ some x
      → contents (f empty) ≡ some y
      → length y < 256
      → contents (add_uint8_length_prefixed f b) ≡ some (x ++ (length y ∷ y))
  pub add_uint16_length_prefixed_lem :
      (f : State → State) (b : State) (x y : Bytes)
      → contents b ≡ some x
      → contents (f empty) ≡ some y
      → length y < 65536
      → contents (add_uint16_length_prefixed f b) ≡ some (x ++ (u16 (length y) ++ y))
  pub add_uint24_length_prefixed_lem :
      (f : State → State) (b : State) (x y : Bytes)
      → contents b ≡ some x
      → contents (f empty) ≡ some y
      → length y < 2 ^ 24
      → contents (add_uint24_length_prefixed f b) ≡ some (x ++ (u24 (length y) ++ y))
  -- It is an error if the sequence does not fit its length.
  pub add_uint24_length_prefixed_long :
      (f : State → State) (b : State) (y : Bytes)
      → contents (f empty) ≡ some y
      → 2 ^ 24 ≤ length y
      → contents (add_uint24_length_prefixed f b) ≡ none
