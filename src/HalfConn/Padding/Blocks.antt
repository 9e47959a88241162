-- ===== src/HalfConn/Padding/Blocks.antt =====
-- Whole blocks: what CBC padding and roundUp come to.
use native.Mathlib.Nat.{mod-add-mod, mod_self, mod-lt, mod-eq_of_lt}
use mathlib.Core.Path.{ap}
use utls.Base.{ℕ, ◌+◌, ◌-◌, ◌%◌, ◌≤◌, ◌<◌, ◌≡◌, sym, ◌∙◌, arith, ◌⊎◌, inl, inr}
use utls.HalfConn.Padding.{round_up}

-- Padding up to the next block gives whole blocks.
pub padded-mod : (n b : ℕ) → 0 < b → (n + (b - n % b)) % b ≡ 0
padded-mod n b positive =
    let fill : n % b + (b - n % b) ≡ b = omega (arith, mod-lt n positive) in
    sym (mod-add-mod n b (b - n % b)) ∙ ap (λ t. t % b) fill ∙ mod_self b

round_or : (r : ℕ) → (r ≡ 0) ⊎ (0 < r)
round_or r = ground arith

short-or : (t u : ℕ) → (u ≤ t) ⊎ (t < u)
short-or t u = ground arith

-- roundUp is the least number of whole blocks that is not less.
pub round_up-least : (a b t : ℕ) → 0 < b → a ≤ t → t % b ≡ 0 → round_up a b ≤ t
round_up-least a b t positive le whole = elim (round_or (a % b)) [
  | inl none_over ↦
      let off : b - a % b ≡ b = omega (arith, none_over) in
      let full = ap (λ r. r % b) off ∙ mod_self b in omega (arith, full)
  | inr over ↦
      let rest : (b - a % b) % b ≡ b - a % b = mod-eq_of_lt (omega (arith, mod-lt a positive)) in
      elim (short-or t (a + (b - a % b))) [
        | inl fits ↦ omega (arith, rest, fits)
        | inr short ↦
            let d = t - a in
            let here : a + d ≡ t = omega arith in
            let less : a % b + d < b = omega (arith, mod-lt a positive) in
            let same = mod-add-mod a b d ∙ ap (λ u. u % b) here ∙ whole in
            absurd (omega (arith, over, sym (mod-eq_of_lt less) ∙ same))
      ]
]
