-- ===== src/SessionCache/Steps.antt =====
-- The caches that come from a new one by calls of Put and Get.
use utls.Base.{ℕ, ◌<◌, ltb, Option, none, if◌then◌else◌, ok, ◌≡◌, refl, sym, ◌∙◌, arith}
use utls.Base.Panic.{ok-injective}
use utls.SessionCache.{Entry, Cache, new_lru_client_session_cache, put, get}
use utls.SessionCache.Invariant.{none-some, IsGood, get-IsGood, put-IsGood}

module _ (K S : Type 0) (dec : Discrete K) where
  pub data Reach (n : ℕ) (entries : ℕ → Entry K S dec) : Cache K S dec → Type 0 where
    new_cache : Reach n entries (new_lru_client_session_cache K S dec n entries)
    after_put :
        (k : K) (v : Option S) (c c' : Cache K S dec)
        → Reach n entries c
        → put K S dec k v c ≡ ok c'
        → Reach n entries c'
    after_get :
        (k : K) (c : Cache K S dec) → Reach n entries c → Reach n entries (get K S dec k c).1

  new-IsGood :
      (n : ℕ) (entries : ℕ → Entry K S dec)
      → IsGood K S dec (new_lru_client_session_cache K S dec n entries)
  new-IsGood n entries = (
    λ k a h. absurd (none-some none a refl h),
    λ a h. absurd cc,
    tt,
    omega arith,
    (let c : 0 < (if ltb n 1 then 64 else n) = ground arith in c),
  )

  IsGood-of :
      (n : ℕ) (entries : ℕ → Entry K S dec) (c : Cache K S dec)
      → Reach n entries c
      → IsGood K S dec c
  IsGood-of n entries _ new_cache = new-IsGood n entries
  IsGood-of n entries _ (after_put k v c c' r returned) =
      let (c₁, is, good) = put-IsGood K S dec k v c (IsGood-of n entries c r) in
      let same : c₁ ≡ c' = ok-injective (sym is ∙ returned) in rw same at good
  IsGood-of n entries _ (after_get k c r) = get-IsGood K S dec k c (IsGood-of n entries c r)

  -- Whatever capacity it is made with, a cache after any sequence of Puts and Gets is good: each key in the map
  -- has its own element in the list, each element in the list is in the map under its key, none is in
  -- the list twice, and there are at most as many as the capacity. The next Put does not panic.
  pub Reach-IsGood :
      (n : ℕ) (entries : ℕ → Entry K S dec) (c : Cache K S dec)
      → Reach n entries c
      → IsGood K S dec c
        × ((k : K) (v : Option S) → (c' : Cache K S dec) × (put K S dec k v c ≡ ok c'))
  Reach-IsGood n entries c r = (
    IsGood-of n entries c r,
    λ k v. (let (c', is, _) = put-IsGood K S dec k v c (IsGood-of n entries c r) in (c', is)),
  )
