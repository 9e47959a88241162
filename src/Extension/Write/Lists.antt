-- ===== src/Extension/Write/Lists.antt =====
-- The list readers of Write, on the lists that Read writes.
use utls.Base.{
  ℕ, ◌<◌, false, List, [], ◌∷◌, ◌++◌, map, some, Bytes, length, All, ◌≡◌, refl, ap, arith,
}
use utls.Cryptobyte.{Reader, read-u16, read-vec8, read-vec16}
use utls.Cryptobyte.Loops.{done, read_all, read_all-encoded, encoded}
use utls.Extension.{KeyShare}
use utls.Extension.Wire.{hi, lo, u16, u16s, vec8, vec16, vec8s, shares}
use utls.Extension.Write.Parts.{is_empty, u16_step, string_step, captured_share, share_step}

abbrev pub IsU16 : ℕ → Type 0
IsU16 x = x < 65536

-- A string that fits a length of one byte, and is not empty.
abbrev pub IsName : Bytes → Type 0
IsName s = (0 < length s) × (length s < 256)

abbrev pub IsShare : KeyShare → Type 0
IsShare k = (k.group < 65536) × (0 < length k.key) × (length k.key < 65536)

abbrev share : KeyShare → Bytes
share k = hi k.group ∷ lo k.group ∷ vec16 k.key

u16s-encoded : (xs : List ℕ) → encoded u16 xs ≡ u16s xs
u16s-encoded [] = refl
u16s-encoded (x ∷ xs) = ap (λ s. hi x ∷ lo x ∷ s) (u16s-encoded xs)

vec8s-encoded : (ss : List Bytes) → encoded vec8 ss ≡ vec8s ss
vec8s-encoded [] = refl
vec8s-encoded (s ∷ ss) = ap (λ t. lo (length s) ∷ (s ++ t)) (vec8s-encoded ss)

shares-encoded : (ks : List KeyShare) → encoded share ks ≡ shares ks
shares-encoded [] = refl
shares-encoded (k ∷ ks) =
    ap (λ t. hi k.group ∷ lo k.group ∷ hi (length k.key) ∷ lo (length k.key) ∷ (k.key ++ t))
      (shares-encoded ks)

pub not_empty {ℓ} : {A : Type ℓ} (xs : List A) → 0 < length xs → is_empty xs ≡ false
not_empty [] h = absurd (omega arith)
not_empty (x ∷ xs) h = refl

map-id : (ss : List Bytes) → map (λ s. s) ss ≡ ss
map-id [] = refl
map-id (s ∷ ss) = ap (◌∷◌ s) (map-id ss)

module _ (c : Reader) where
  u16_step-lem :
      (f : ℕ → ℕ) (x : ℕ) (rest : Bytes)
      → IsU16 x
      → (0 < length (u16 x)) × (u16_step c f (u16 x ++ rest) ≡ some (f x, rest))
  unfolding u16_step
  u16_step-lem f x rest h = (omega arith, rw (read-u16 c x rest h, u16_step))

  string_step-lem :
      (s rest : Bytes)
      → IsName s
      → (0 < length (vec8 s)) × (string_step c (vec8 s ++ rest) ≡ some (s, rest))
  unfolding string_step
  string_step-lem s rest h =
      (omega arith, rw (read-vec8 c s rest h.1, string_step, not_empty s h.0))

  abbrev pub share_of : KeyShare → KeyShare
  share_of k = captured_share c k.group k.key

  share_step-lem :
      (k : KeyShare) (rest : Bytes)
      → IsShare k
      → (0 < length (share k)) × (share_step c (share k ++ rest) ≡ some (share_of k, rest))
  unfolding share_step
  share_step-lem k rest h = (
    omega arith,
    rw (read-u16 c k.group (vec16 k.key ++ rest) h.0, share_step)
        (rw (read-vec16 c k.key rest h.2, not_empty k.key h.1)),
  )

  pub read_u16s :
      (f : ℕ → ℕ) (xs : List ℕ)
      → All IsU16 xs
      → read_all (u16_step c f) (length (u16s xs)) (u16s xs) ≡ done (map f xs)
  read_u16s f xs h = rw (u16s-encoded xs) at (
      read_all-encoded u16 (u16_step c f) f IsU16 (u16_step-lem f) xs (length (encoded u16 xs))
        (omega arith) h)

  pub read_strings :
      (ss : List Bytes)
      → All IsName ss
      → read_all (string_step c) (length (vec8s ss)) (vec8s ss) ≡ done ss
  read_strings ss h =
      rw (vec8s-encoded ss, map-id ss) at
        (read_all-encoded vec8 (string_step c) (λ s. s) IsName string_step-lem ss
          (length (encoded vec8 ss)) (omega arith) h)

  pub read_shares :
      (ks : List KeyShare)
      → All IsShare ks
      → read_all (share_step c) (length (shares ks)) (shares ks) ≡ done (map share_of ks)
  read_shares ks h = rw (shares-encoded ks) at (
      read_all-encoded share (share_step c) share_of IsShare share_step-lem ks
        (length (encoded share ks)) (omega arith) h)
