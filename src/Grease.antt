-- ===== src/Grease.antt =====
-- GREASE values: isGREASEUint16 and unGREASEUint16 of u_common.go, GetBoringGREASEValue of
-- u_tls_extensions.go. On 16-bit numbers `v & 0xff` is `v % 256`, `v & 0xf` is `v % 16`, `v & 0xf0` is
-- the second nibble in its place; the operands of each `|` have no bit in common, so it is a sum.
use utls.Base.{
  ℕ, ◌+◌, ◌*◌, ◌/◌, ◌%◌, ◌^◌, ◌<◌, Bool, true, ◌&&◌, ◌==◌, List, Option, none, some, get_elem?,
  if◌then◌else◌, Run, ok, panic, ◌≡◌, ◌↔◌, arith,
}

abbrev pub grease_placeholder : ℕ
grease_placeholder = 0x0a0a

unfoldable pub is_grease_uint16 : ℕ → Bool
is_grease_uint16 v = v / 256 == v % 256 && v % 16 == 10

unfoldable pub un_grease_uint16 : ℕ → ℕ
un_grease_uint16 v = if is_grease_uint16 v then grease_placeholder else v

-- `ret |= ret << 8` on a uint16
unfoldable pub boring_grease : ℕ → ℕ
boring_grease s = let ret = s / 16 % 16 * 16 + 10 in (ret + ret * 256) % 2 ^ 16

seed_value : Option ℕ → Run ℕ
seed_value none = panic
seed_value (some s) = ok (boring_grease s)

unfoldable pub get_boring_grease_value : List ℕ → ℕ → Run ℕ
unfolding seed_value
get_boring_grease_value seed index = seed_value (get_elem? seed index)

-- The 16-bit numbers that isGREASEUint16 accepts are the sixteen values of RFC 8701.
pub is_grease_uint16_iff :
    (v : ℕ)
    → v < 2 ^ 16
    → (is_grease_uint16 v ≡ true) ↔ ((w : ℕ) × (w < 16) × (v ≡ 0x0a0a + w * 0x1010))
unfolding is_grease_uint16
is_grease_uint16_iff v fits =
    (λ h. (v % 256 / 16, ground arith, ground arith), λ (w, small, is). ground arith)

-- For every seed and every index within it, GetBoringGREASEValue returns a 16-bit number that
-- isGREASEUint16 accepts and that unGREASEUint16 takes to the placeholder; which of the sixteen it is
-- depends on the second nibble of the seed alone.
pub get_boring_grease_value_lem :
    (seed : List ℕ) (index s : ℕ)
    → get_elem? seed index ≡ some s
    → (v : ℕ) × (get_boring_grease_value seed index ≡ ok v)
      × (v < 2 ^ 16)
      × (is_grease_uint16 v ≡ true)
      × (un_grease_uint16 v ≡ grease_placeholder)
      × (v ≡ 0x0a0a + s / 16 % 16 * 0x1010)
unfolding get_boring_grease_value boring_grease un_grease_uint16 is_grease_uint16
get_boring_grease_value_lem seed index s h =
    (boring_grease s, rw h, ground arith, ground arith, ground arith, ground arith)
