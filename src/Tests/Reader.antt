-- ===== src/Tests/Reader.antt =====
-- A reader of byte strings with the documented behaviour of cryptobyte.String.
use utls.Base.{
  ℕ, ◌+◌, ◌*◌, ◌<◌, [], ◌∷◌, Option, none, some, Bytes, length, drop, ltb, if◌then◌else◌, ◌≡◌, refl,
  arith,
}
use utls.Cryptobyte.{Reader, prefixed}

abbrev uint8 : Bytes → Option (ℕ × Bytes)
uint8 [] = none
uint8 (a ∷ s) = some (a, s)

abbrev uint16 : Bytes → Option (ℕ × Bytes)
uint16 (a ∷ b ∷ s) = some (a * 256 + b, s)
uint16 _ = none

abbrev uint32 : Bytes → Option (ℕ × Bytes)
uint32 (a ∷ b ∷ c ∷ d ∷ s) = some (a * 16777216 + b * 65536 + c * 256 + d, s)
uint32 _ = none

abbrev vector8 : Bytes → Option (Bytes × Bytes)
vector8 [] = none
vector8 (a ∷ s) = prefixed a s

abbrev vector16 : Bytes → Option (Bytes × Bytes)
vector16 (a ∷ b ∷ s) = prefixed (a * 256 + b) s
vector16 _ = none

abbrev vector24 : Bytes → Option (Bytes × Bytes)
vector24 (a ∷ b ∷ c ∷ s) = prefixed (a * 65536 + b * 256 + c) s
vector24 _ = none

pub uint16_short : (s : Bytes) → length s < 2 → uint16 s ≡ none
uint16_short [] h = refl
uint16_short (a ∷ []) h = refl
uint16_short (a ∷ b ∷ s) h = absurd (omega arith)

pub uint32_short : (s : Bytes) → length s < 4 → uint32 s ≡ none
uint32_short [] h = refl
uint32_short (a ∷ []) h = refl
uint32_short (a ∷ b ∷ []) h = refl
uint32_short (a ∷ b ∷ c ∷ []) h = refl
uint32_short (a ∷ b ∷ c ∷ d ∷ s) h = absurd (omega arith)

pub vector16_short : (s : Bytes) → length s < 2 → vector16 s ≡ none
vector16_short [] h = refl
vector16_short (a ∷ []) h = refl
vector16_short (a ∷ b ∷ s) h = absurd (omega arith)

pub vector24_short : (s : Bytes) → length s < 3 → vector24 s ≡ none
vector24_short [] h = refl
vector24_short (a ∷ []) h = refl
vector24_short (a ∷ b ∷ []) h = refl
vector24_short (a ∷ b ∷ c ∷ s) h = absurd (omega arith)

abbrev pub reader : Reader
reader = record {
  read_uint8 = uint8;
  read_uint16 = uint16;
  read_uint32 = uint32;
  skip = λ n s. if ltb (length s) n then none else some (drop n s);
  read_bytes = prefixed;
  read_uint8_length_prefixed = vector8;
  read_uint16_length_prefixed = vector16;
  read_uint24_length_prefixed = vector24;
  read_uint8_cons = λ a s. refl;
  read_uint16_cons = λ a b s. refl;
  read_uint32_cons = λ a b c d s. refl;
  skip_lem = λ n s. refl;
  read_bytes_lem = λ n s. refl;
  read_uint8_length_prefixed_cons = λ a s. refl;
  read_uint16_length_prefixed_cons = λ a b s. refl;
  read_uint24_length_prefixed_cons = λ a b c s. refl;
  read_uint8_nil = refl;
  read_uint16_short = uint16_short;
  read_uint32_short = uint32_short;
  read_uint8_length_prefixed_nil = refl;
  read_uint16_length_prefixed_short = vector16_short;
  read_uint24_length_prefixed_short = vector24_short;
}
