-- ===== src/Spec/Padding.antt =====
-- AlwaysAddPadding.
use utls.Base.{Bool, true, false, ◌||◌, List, [], ◌∷◌, ◌++◌, ◌≡◌, ◌⊎◌, inl, inr, refl, ap, ◌∙◌}
use utls.Extension.{padding}
use utls.Spec.{SpecExtension, plain, real_psk, fake_psk}
use utls.Spec.Raw.{boring_padding, with_padding}

abbrev pub is_padding : SpecExtension → Bool
is_padding (plain (padding p)) = true
is_padding e = false

abbrev pub is_psk : SpecExtension → Bool
is_psk real_psk = true
is_psk (fake_psk ids bs) = true
is_psk e = false

-- Neither padding nor a pre-shared key before the end of `es`.
abbrev pub none_of_both : List SpecExtension → Bool
none_of_both [] = true
none_of_both (e ∷ es) = elim (is_padding e) [
  | true ↦ false
  | false ↦ elim (is_psk e) [ true ↦ false | false ↦ none_of_both es ]
]

abbrev pub any_padding : List SpecExtension → Bool
any_padding [] = false
any_padding (e ∷ es) = is_padding e || any_padding es

-- The end of a list, or a pre-shared key with what follows it.
abbrev pub PskFirst : List SpecExtension → Type 0
PskFirst [] = Unit
PskFirst (e ∷ es) = is_psk e ≡ true

abbrev pub Placed : List SpecExtension → Type 0
Placed es =
    ((with_padding es ≡ es) × (any_padding es ≡ true))
    ⊎ ((front : List SpecExtension) × (back : List SpecExtension) × (es ≡ front ++ back)
        × (none_of_both front ≡ true)
        × PskFirst back
        × (with_padding es ≡ front ++ (boring_padding ∷ back)))

Placed-cons :
    (e : SpecExtension) (es : List SpecExtension)
    → is_padding e ≡ false
    → is_psk e ≡ false
    → with_padding (e ∷ es) ≡ e ∷ with_padding es
    → Placed es
    → Placed (e ∷ es)
Placed-cons e es not_padding not_psk step (inl (same, has)) =
    inl (step ∙ ap (◌∷◌ e) same, rw (not_padding, has) refl)
Placed-cons e es not_padding not_psk step (inr (front, back, split, free, psk, out)) = inr (
  e ∷ front,
  back,
  ap (◌∷◌ e) split,
  rw (none_of_both, not_padding) (rw not_psk free),
  psk,
  step ∙ ap (◌∷◌ e) out,
)

placed : (es : List SpecExtension) → Placed es
unfolding with_padding
placed [] = inr ([], [], refl, refl, tt, refl)
placed (plain (padding p) ∷ es) = inl (refl, refl)
placed (real_psk ∷ es) = inr ([], real_psk ∷ es, refl, refl, refl, refl)
placed (fake_psk ids bs ∷ es) = inr ([], fake_psk ids bs ∷ es, refl, refl, refl, refl)
placed (e ∷ es) = Placed-cons e es refl refl refl (placed es)

with_padding-again : (es : List SpecExtension) → with_padding (with_padding es) ≡ with_padding es
unfolding with_padding
with_padding-again [] = refl
with_padding-again (plain (padding p) ∷ es) = refl
with_padding-again (real_psk ∷ es) = refl
with_padding-again (fake_psk ids bs ∷ es) = refl
with_padding-again (e ∷ es) = ap (◌∷◌ e) (with_padding-again es)

-- AlwaysAddPadding leaves a list as it is, which then has a padding extension; or it puts one padding
-- extension in front of the first pre-shared key, or at the end if there is none, and nothing before
-- it is padding or a pre-shared key. A second call changes nothing.
pub with_padding-Placed :
    (es : List SpecExtension) → Placed es × (with_padding (with_padding es) ≡ with_padding es)
with_padding-Placed es = (placed es, with_padding-again es)
