-- ===== src/Tests/Builder.antt =====
-- A builder of byte strings with the documented behaviour of cryptobyte.Builder.
use utls.Base.{
  ℕ, ◌^◌, ◌≤◌, ◌<◌, ltb, le→ltb, lt→ltb, [], ◌∷◌, ◌++◌, Option, none, some, Bytes, length,
  if◌then◌else◌, ◌≡◌, refl,
}
use utls.Extension.Wire.{u16}
use utls.ClientHello.{u24}
use utls.Session.Psk.{u32}
use utls.Cryptobyte.Builder.{Builder}

abbrev add : Bytes → Option Bytes → Option Bytes
add v none = none
add v (some x) = some (x ++ v)

-- A content that is shorter than `limit`, behind its length.
abbrev prefix : ℕ → (ℕ → Bytes) → Option Bytes → Option Bytes → Option Bytes
prefix limit size none b = none
prefix limit size (some y) b = if ltb (length y) limit then add (size (length y) ++ y) b else none

pub add-prefix :
    (limit : ℕ) (size : ℕ → Bytes) (o b : Option Bytes) (x y : Bytes)
    → b ≡ some x
    → o ≡ some y
    → length y < limit
    → prefix limit size o b ≡ some (x ++ (size (length y) ++ y))
add-prefix limit size o b x y hb ho fits = rw (ho, hb) (rw (lt→ltb (length y) limit fits) refl)

pub add_lem : (v : Bytes) (b : Option Bytes) (x : Bytes) → b ≡ some x → add v b ≡ some (x ++ v)
add_lem v b x h = rw h refl

pub prefix_long :
    (limit : ℕ) (size : ℕ → Bytes) (o b : Option Bytes) (y : Bytes)
    → o ≡ some y
    → limit ≤ length y
    → prefix limit size o b ≡ none
prefix_long limit size o b y ho long = rw ho (rw (le→ltb (length y) limit long) refl)

abbrev pub builder : Builder
builder = record {
  State = Option Bytes;
  empty = some [];
  contents = λ b. b;
  add_uint8 = λ n b. add (n ∷ []) b;
  add_uint16 = λ n b. add (u16 n) b;
  add_uint32 = λ n b. add (u32 n) b;
  add_bytes = add;
  add_uint8_length_prefixed = λ f b. prefix 256 (λ n. n ∷ []) (f (some [])) b;
  add_uint16_length_prefixed = λ f b. prefix 65536 u16 (f (some [])) b;
  add_uint24_length_prefixed = λ f b. prefix (2 ^ 24) u24 (f (some [])) b;
  empty_lem = refl;
  add_uint8_lem = λ n b x small h. add_lem (n ∷ []) b x h;
  add_uint16_lem = λ n b x small h. add_lem (u16 n) b x h;
  add_uint32_lem = λ n b x small h. add_lem (u32 n) b x h;
  add_bytes_lem = add_lem;
  add_uint8_length_prefixed_lem =
      λ f b x y hb hf fits. add-prefix 256 (λ n. n ∷ []) (f (some [])) b x y hb hf fits;
  add_uint16_length_prefixed_lem =
      λ f b x y hb hf fits. add-prefix 65536 u16 (f (some [])) b x y hb hf fits;
  add_uint24_length_prefixed_lem =
      λ f b x y hb hf fits. add-prefix (2 ^ 24) u24 (f (some [])) b x y hb hf fits;
  add_uint24_length_prefixed_long =
      λ f b y hf long. prefix_long (2 ^ 24) u24 (f (some [])) b y hf long;
}
