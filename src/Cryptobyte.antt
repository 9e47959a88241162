-- ===== src/Cryptobyte.antt =====
-- golang.org/x/crypto/cryptobyte, as an interface: the reads of cryptobyte.String that the parsers
-- use, with what its documentation says of them. A String is a byte slice; a read returns what it
-- read and the rest, or `none` where the Go method reports false.
pub mod Loops
pub mod Advances
pub mod Builder
pub mod Reads
use utls.Base.{
  ℕ, ◌+◌, ◌*◌, ◌<◌, List, [], ◌∷◌, ◌++◌, Option, none, some, Bytes, length, length-append, take,
  drop, take-append, drop-append, ltb, le→ltb, if◌then◌else◌, ◌≡◌, refl, arith,
}
use utls.Extension.Wire.{hi, lo}

-- The content of a length prefix that says `n`, and what follows it.
abbrev pub prefixed : ℕ → Bytes → Option (Bytes × Bytes)
prefixed n s = if ltb (length s) n then none else some (take n s, drop n s)

pub record Reader : Type 0 where
  pub read_uint8 : Bytes → Option (ℕ × Bytes)
  pub read_uint16 : Bytes → Option (ℕ × Bytes)
  pub read_uint32 : Bytes → Option (ℕ × Bytes)
  pub skip : ℕ → Bytes → Option Bytes
  pub read_bytes : ℕ → Bytes → Option (Bytes × Bytes)
  pub read_uint8_length_prefixed : Bytes → Option (Bytes × Bytes)
  pub read_uint16_length_prefixed : Bytes → Option (Bytes × Bytes)
  pub read_uint24_length_prefixed : Bytes → Option (Bytes × Bytes)
  -- A big-endian value is decoded and advanced over.
  pub read_uint8_cons : (a : ℕ) (s : Bytes) → read_uint8 (a ∷ s) ≡ some (a, s)
  pub read_uint16_cons : (a b : ℕ) (s : Bytes) → read_uint16 (a ∷ b ∷ s) ≡ some (a * 256 + b, s)
  pub read_uint32_cons :
      (a b c d : ℕ) (s : Bytes)
      → read_uint32 (a ∷ b ∷ c ∷ d ∷ s) ≡ some (a * 16777216 + b * 65536 + c * 256 + d, s)
  pub skip_lem :
      (n : ℕ) (s : Bytes) → skip n s ≡ (if ltb (length s) n then none else some (drop n s))
  pub read_bytes_lem : (n : ℕ) (s : Bytes) → read_bytes n s ≡ prefixed n s
  -- The content of a length-prefixed value is read and advanced over.
  pub read_uint8_length_prefixed_cons :
      (a : ℕ) (s : Bytes) → read_uint8_length_prefixed (a ∷ s) ≡ prefixed a s
  pub read_uint16_length_prefixed_cons :
      (a b : ℕ) (s : Bytes) → read_uint16_length_prefixed (a ∷ b ∷ s) ≡ prefixed (a * 256 + b) s
  pub read_uint24_length_prefixed_cons :
      (a b c : ℕ) (s : Bytes)
      → read_uint24_length_prefixed (a ∷ b ∷ c ∷ s) ≡ prefixed (a * 65536 + b * 256 + c) s
  -- A read reports whether it was successful: it is not on a string that is too short.
  pub read_uint8_nil : read_uint8 [] ≡ none
  pub read_uint16_short : (s : Bytes) → length s < 2 → read_uint16 s ≡ none
  pub read_uint32_short : (s : Bytes) → length s < 4 → read_uint32 s ≡ none
  pub read_uint8_length_prefixed_nil : read_uint8_length_prefixed [] ≡ none
  pub read_uint16_length_prefixed_short :
      (s : Bytes) → length s < 2 → read_uint16_length_prefixed s ≡ none
  pub read_uint24_length_prefixed_short :
      (s : Bytes) → length s < 3 → read_uint24_length_prefixed s ≡ none

pub prefixed-append :
    (n : ℕ) (v rest : Bytes) → n ≡ length v → prefixed n (v ++ rest) ≡ some (v, rest)
prefixed-append n v rest e = rw (
  e,
  le→ltb (length (v ++ rest)) (length v) (omega (arith, length-append v rest)),
  take-append v rest,
  drop-append v rest,
)

-- Vectors of the presentation language are read back.
module _ (c : Reader) where
  pub read-vec8 :
      (v rest : Bytes)
      → length v < 256
      → c.read_uint8_length_prefixed (lo (length v) ∷ (v ++ rest)) ≡ some (v, rest)
  read-vec8 v rest h =
      rw (c.read_uint8_length_prefixed_cons (lo (length v)) (v ++ rest))
        (prefixed-append _ v rest (omega arith))

  pub read-vec16 :
      (v rest : Bytes)
      → length v < 65536
      → c.read_uint16_length_prefixed (hi (length v) ∷ lo (length v) ∷ (v ++ rest)) ≡ some (v, rest)
  read-vec16 v rest h =
      rw (c.read_uint16_length_prefixed_cons (hi (length v)) (lo (length v)) (v ++ rest))
        (prefixed-append _ v rest (omega arith))

  pub read-u16 :
      (x : ℕ) (rest : Bytes) → x < 65536 → c.read_uint16 (hi x ∷ lo x ∷ rest) ≡ some (x, rest)
  read-u16 x rest h =
      let e : hi x * 256 + lo x ≡ x = omega arith in rw e at (c.read_uint16_cons (hi x) (lo x) rest)
