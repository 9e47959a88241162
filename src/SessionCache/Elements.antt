-- ===== src/SessionCache/Elements.antt =====
-- container/list, as far as the cache uses it: a list of addresses without duplicates.
use utls.Base.{
  ℕ, suc, ◌<◌, ◌==◌, ==_iff, Bool, true, false, List, [], ◌∷◌, Option, none, some, length,
  if◌then◌else◌, Bool-cases, inl, inr, ◌≡◌, refl, sym, ap, ◌∙◌, arith,
}

abbrev pub has : ℕ → List ℕ → Bool
has a [] = false
has a (x ∷ q) = if x == a then true else has a q

-- list.Remove
abbrev pub remove : ℕ → List ℕ → List ℕ
remove a [] = []
remove a (x ∷ q) = if x == a then q else x ∷ remove a q

-- list.Back
abbrev pub last_of : List ℕ → Option ℕ
last_of [] = none
last_of (x ∷ []) = some x
last_of (x ∷ y ∷ q) = last_of (y ∷ q)

abbrev pub IsDistinct : List ℕ → Type 0
IsDistinct [] = Unit
IsDistinct (x ∷ q) = (has x q ≡ false) × IsDistinct q

-- Removal takes the element away, and no other.
pub has-remove : (a b : ℕ) (q : List ℕ) → (b == a) ≡ false → has b (remove a q) ≡ has b q
has-remove a b [] h = refl
has-remove a b (x ∷ q) h = elim (Bool-cases (x == a)) [
  | inl is ↦
      (let differs : (x == b) ≡ false = ground arith in rw (remove, is) (rw (has, differs) refl))
  | inr other ↦
      rw (remove, other)
        (elim (Bool-cases (x == b)) [
          | inl here ↦ rw (has, here) refl
          | inr there ↦ rw (has, there) (has-remove a b q h)
        ])
]

pub has-remove_self : (a : ℕ) (q : List ℕ) → IsDistinct q → has a (remove a q) ≡ false
has-remove_self a [] d = refl
has-remove_self a (x ∷ q) d = elim (Bool-cases (x == a)) [
  | inl is ↦ rw (remove, is) (rw (sym ((==_iff x a).0 is)) d.0)
  | inr other ↦ rw (remove, other) (rw (has, other) (has-remove_self a q d.1))
]

pub remove-IsDistinct : (a : ℕ) (q : List ℕ) → IsDistinct q → IsDistinct (remove a q)
remove-IsDistinct a [] d = tt
remove-IsDistinct a (x ∷ q) d = elim (Bool-cases (x == a)) [
  | inl is ↦ rw (remove, is) d.1
  | inr other ↦ rw (remove, other) (has-remove a x q other ∙ d.0, remove-IsDistinct a q d.1)
]

pub length-remove : (a : ℕ) (q : List ℕ) → has a q ≡ true → suc (length (remove a q)) ≡ length q
length-remove a [] h = absurd cc
length-remove a (x ∷ q) h = elim (Bool-cases (x == a)) [
  | inl is ↦ rw (remove, is) refl
  | inr other ↦ rw (remove, other) (ap suc (length-remove a q (rw (has, other) at h)))
]

pub has-last_of : (q : List ℕ) → 0 < length q → (a : ℕ) × (last_of q ≡ some a) × (has a q ≡ true)
has-last_of [] h = absurd (omega arith)
has-last_of (x ∷ []) h = (x, refl, ground arith)
has-last_of (x ∷ y ∷ q) h =
    let (a, is, inside) = has-last_of (y ∷ q) (omega arith) in
    (
      a,
      is,
      (elim (Bool-cases (x == a)) [
        | inl here ↦ rw (has, here) refl
        | inr there ↦ rw (has, there) inside
      ]),
    )
