-- ===== src/Tests/Grease.antt =====
-- GREASE values for a seed of two numbers.
use utls.Base.{ℕ, ◌+◌, ◌*◌, ◌/◌, ◌%◌, ◌^◌, ◌<◌, true, [], ◌∷◌, ok, ◌≡◌, refl}
use utls.Grease.{
  is_grease_uint16, un_grease_uint16, grease_placeholder, get_boring_grease_value,
  get_boring_grease_value_lem,
}

get_boring_grease_value_lem_example :
    (v : ℕ) × (get_boring_grease_value (7 ∷ 0x1234 ∷ []) 1 ≡ ok v)
    × (v < 2 ^ 16)
    × (is_grease_uint16 v ≡ true)
    × (un_grease_uint16 v ≡ grease_placeholder)
    × (v ≡ 0x0a0a + 0x1234 / 16 % 16 * 0x1010)
get_boring_grease_value_lem_example = get_boring_grease_value_lem (7 ∷ 0x1234 ∷ []) 1 0x1234 refl
