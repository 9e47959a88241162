-- ===== src/SessionCache/Lookup.antt =====
-- What Get finds after a Put.
use utls.Base.{
  ℕ, ◌≤◌, ◌<◌, ◌==◌, ltb, true, false, Option, none, some, length, ok, Bool-cases, Option-cases,
  inl, inr, ◌⊎◌, ◌≡◌, ◌≢◌, refl, sym, ap, ◌∙◌, arith,
}
use utls.SessionCache.Elements.{has, last_of, has-last_of}
use utls.SessionCache.{Entry, Cache, put_at, set_entry, put_found, push_front, reuse, put, get}
use utls.SessionCache.Invariant.{
  none-some, put_at-cases, put_at-same, put_at-other, set_entry-same, set_entry-other, different,
  IsGood,
}

module _ (K S : Type 0) (dec : Discrete K) where
  -- The first result of Get.
  abbrev pub find : K → Cache K S dec → Option (Option S)
  find k c = (get K S dec k c).0

  find-some :
      (x : K) (c : Cache K S dec) (a : ℕ) → c.m x ≡ some a → find x c ≡ some (c.entries a).state
  unfolding get
  find-some x c a h = rw (h, find, get) refl

  find-none : (x : K) (c : Cache K S dec) → c.m x ≡ none → find x c ≡ none
  unfolding get
  find-none x c h = rw (h, find, get) refl

  -- A key with the same element, whose state is the same, is found as before.
  same_find :
      (x : K) (c c' : Cache K S dec)
      → c'.m x ≡ c.m x
      → ((a : ℕ) → c.m x ≡ some a → (c'.entries a).state ≡ (c.entries a).state)
      → find x c' ≡ find x c
  same_find x c c' h states = elim (Option-cases (c.m x)) [
    | inl missing ↦ find-none x c' (h ∙ missing) ∙ sym (find-none x c missing)
    | inr (a, found) ↦
        find-some x c' a (h ∙ found) ∙ ap some (states a found) ∙ sym (find-some x c a found)
  ]

  -- The cache is full and has no element for `k`, and `x` is the key of the last element.
  abbrev pub IsEvicted : K → K → Cache K S dec → Type 0
  IsEvicted k x c =
      (c.m k ≡ none)
      × (c.capacity ≤ length c.q)
      × ((a : ℕ) × (last_of c.q ≡ some a) × ((c.entries a).session_key ≡ x))

  -- After a Put of `v` under `k`: what is found under `k`, and under any other key.
  abbrev pub Effect : K → Option S → Cache K S dec → Cache K S dec → Type 0
  Effect k v c c' =
      ((s : S) → v ≡ some s → find k c' ≡ some (some s))
      × (v ≡ none
          → (find k c ≡ none → find k c' ≡ some none) × (find k c ≢ none → find k c' ≡ none))
      × ((x : K) → x ≢ k → (find x c' ≡ find x c) ⊎ (IsEvicted k x c × (find x c' ≡ none)))

  state_of :
      (a b : ℕ) (e : Entry K S dec) (E : ℕ → Entry K S dec)
      → (b == a) ≡ false
      → (set_entry K S dec a e E b).state ≡ (E b).state
  state_of a b e E h = ap (λ i. i.state) (set_entry-other K S dec a b e E h)

  found-Effect :
      (k : K) (v : Option S) (a : ℕ) (c : Cache K S dec)
      → IsGood K S dec c
      → c.m k ≡ some a
      → Effect k v c (put_found K S dec k v a c)
  unfolding put_found
  found-Effect k none a c good found = (
    λ s h. absurd (none-some none s refl h),
    λ _. (
      λ missing. absurd (none-some (find k c) _ missing (find-some k c a found)),
      λ _. find-none k _ (put_at-same K S dec k none c.m),
    ),
    λ x h. inl (same_find x c _ (put_at-other K S dec k x none c.m h) (λ b _. refl)),
  )
  found-Effect k (some t) a c good found = (
    λ s h.
        find-some k _ a found
        ∙ ap some (
            ap (λ i. i.state)
              (set_entry-same K S dec a (record (c.entries a) { state = some t }) c.entries)
            ∙ h),
    λ h. absurd (none-some none t refl (sym h)),
    λ x h. inl (
        same_find x c _ refl (λ b at_b.
          state_of a b _ c.entries
            (different K S dec a b k x c.entries (good.0 k a found).1 (good.0 x b at_b).1 h))),
  )

  -- A new entry for `k` at the address `a`.
  new_entry :
      (k : K) (v : Option S) (a : ℕ) (c c' : Cache K S dec)
      → c.m k ≡ none
      → c'.m k ≡ some a
      → (c'.entries a).state ≡ v
      → ((s : S) → v ≡ some s → find k c' ≡ some (some s))
        × (v ≡ none
            → (find k c ≡ none → find k c' ≡ some none) × (find k c ≢ none → find k c' ≡ none))
  new_entry k v a c c' missing set state =
      let now : find k c' ≡ some v = find-some k c' a set ∙ ap some state in
      (
        λ s h. now ∙ ap some h,
        λ h. ((λ _. now ∙ ap some h), (λ present. absurd (present (find-none k c missing)))),
      )

  push-Effect :
      (k : K) (v : Option S) (c : Cache K S dec)
      → IsGood K S dec c
      → c.m k ≡ none
      → Effect k v c (push_front K S dec k v c)
  unfolding push_front
  push-Effect k v c good missing =
      let e : Entry K S dec = record { session_key = k; state = v } in
      let (at_k, removed_k) =
        new_entry k v c.next c (push_front K S dec k v c) missing
          (put_at-same K S dec k (some c.next) c.m)
          (ap (λ i. i.state) (set_entry-same K S dec c.next e c.entries)) in
      (
        at_k,
        removed_k,
        λ x h. inl (
            same_find x c _ (put_at-other K S dec k x (some c.next) c.m h) (λ b at_b.
              (let (inside, key) = good.0 x b at_b in
                let small = (good.1 b inside).1 in
                state_of c.next b e c.entries
                  (let d : (b == c.next) ≡ false = ground arith in d)))),
      )

  reuse-Effect :
      (k : K) (v : Option S) (a : ℕ) (c : Cache K S dec)
      → IsGood K S dec c
      → c.m k ≡ none
      → c.capacity ≤ length c.q
      → last_of c.q ≡ some a
      → has a c.q ≡ true
      → Effect k v c (reuse K S dec k v a c)
  unfolding reuse
  reuse-Effect k v a c good missing full last inside =
      let e : Entry K S dec = record { session_key = k; state = v } in
      let old = (c.entries a).session_key in
      let m₁ = put_at K S dec old none c.m in
      let (at_k, removed_k) =
        new_entry k v a c (reuse K S dec k v a c) missing (put_at-same K S dec k (some a) m₁)
          (ap (λ i. i.state) (set_entry-same K S dec a e c.entries)) in
      (
        at_k,
        removed_k,
        λ x h. elim (put_at-cases K S dec old x none c.m) [
          | inl (is, gone) ↦ inr (
            (missing, full, (a, last, sym is)),
            find-none x _ (put_at-other K S dec k x (some a) m₁ h ∙ gone),
          )
          | inr (differs, kept) ↦ inl (
              same_find x c _ (put_at-other K S dec k x (some a) m₁ h ∙ kept) (λ b at_b.
                state_of a b e c.entries
                  (different K S dec a b old x c.entries refl (good.0 x b at_b).1 differs)))
        ],
      )

  -- On a good cache Put returns, and then: a state that is put is found under its key; a nil state removes a
  -- key that is there, and for a key that is not there an entry with a nil state is found; any other
  -- key is found as before, unless the cache was full, the key put was not in it, and the other key was
  -- that of the last element, which is found no more.
  pub put-Effect :
      (k : K) (v : Option S) (c : Cache K S dec)
      → IsGood K S dec c
      → (c' : Cache K S dec) × (put K S dec k v c ≡ ok c') × Effect k v c c'
  unfolding put
  put-Effect k v c good = elim (Option-cases (c.m k)) [
    | inr (a, found) ↦
        (put_found K S dec k v a c, rw (put, found) refl, found-Effect k v a c good found)
    | inl missing ↦ elim (Bool-cases (ltb (length c.q) c.capacity)) [
      | inl less ↦ (
        push_front K S dec k v c,
        rw (put, missing) (rw less refl),
        push-Effect k v c good missing,
      )
      | inr full ↦
          (let capacity = good.4 in
            let whole : c.capacity ≤ length c.q = ground arith in
            let nonempty : 0 < length c.q = omega arith in
            let (a, last, inside) = has-last_of c.q nonempty in
            (
              reuse K S dec k v a c,
              rw (put, missing) (rw (full, last) refl),
              reuse-Effect k v a c good missing whole last inside,
            ))
    ]
  ]
