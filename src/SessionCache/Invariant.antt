-- ===== src/SessionCache/Invariant.antt =====
-- The map and the list of the session cache agree, whatever is called.
use utls.Base.{
  ℕ, ◌≤◌, ◌<◌, ◌==◌, ==_iff, ltb, ltb→lt, Bool, true, false, List, ◌∷◌, Option, none, some, length,
  ok, Bool-cases, Option-cases, inl, inr, ◌⊎◌, ◌≡◌, ◌≢◌, refl, sym, ap, ◌∙◌, arith,
}
use utls.SessionCache.Elements.{
  has, remove, IsDistinct, has-remove, has-remove_self, remove-IsDistinct, length-remove,
  has-last_of,
}
use utls.SessionCache.{
  Entry, Cache, choose, put_at, set_entry, put_found, push_front, reuse, put, get,
}

pub some_same {ℓ} : {A : Type ℓ} (a b : A) → some a ≡ some b → a ≡ b
some_same a b h = cc

pub none-some {ℓ} : {A : Type ℓ} (o : Option A) (a : A) → o ≡ none → o ≡ some a → ⊥
none-some o a e h = (let both : none ≡ some a = sym e ∙ h in cc)

true-false : (b : Bool) → b ≡ true → b ≡ false → ⊥
true-false b h e = (let both : true ≡ false = sym h ∙ e in cc)

choose-cases {ℓ} :
    {P : Type ℓ} (d : Dec P) (v w : Option ℕ)
    → (P × (choose d v w ≡ v)) ⊎ ((¬ P) × (choose d v w ≡ w))
choose-cases (yes p) v w = inl (p, refl)
choose-cases (no p) v w = inr (p, refl)

-- A move to the front keeps the elements.
has-front : (a b : ℕ) (q : List ℕ) → has a q ≡ true → has b (a ∷ remove a q) ≡ has b q
has-front a b q h = elim (Bool-cases (a == b)) [
  | inl is ↦ rw (has, is) (sym (rw ((==_iff a b).0 is) at h))
  | inr other ↦ rw (has, other) (has-remove a b q (let e : (b == a) ≡ false = ground arith in e))
]

module _ (K S : Type 0) (dec : Discrete K) where
  pub put_at-cases :
      (k x : K) (v : Option ℕ) (m : K → Option ℕ)
      → ((x ≡ k) × (put_at K S dec k v m x ≡ v)) ⊎ ((x ≢ k) × (put_at K S dec k v m x ≡ m x))
  unfolding put_at
  put_at-cases k x v m = choose-cases (dec x k) v (m x)

  pub put_at-same : (k : K) (v : Option ℕ) (m : K → Option ℕ) → put_at K S dec k v m k ≡ v
  put_at-same k v m = elim (put_at-cases k k v m) [
    | inl (_, h) ↦ h
    | inr (differs, _) ↦ absurd (differs refl)
  ]

  pub put_at-other :
      (k x : K) (v : Option ℕ) (m : K → Option ℕ) → x ≢ k → put_at K S dec k v m x ≡ m x
  put_at-other k x v m h = elim (put_at-cases k x v m) [
    | inl (is, _) ↦ absurd (h is)
    | inr (_, e) ↦ e
  ]

  pub set_entry-same :
      (a : ℕ) (e : Entry K S dec) (E : ℕ → Entry K S dec) → set_entry K S dec a e E a ≡ e
  unfolding set_entry
  set_entry-same a e E = rw ((==_iff a a).1 refl) refl

  pub set_entry-other :
      (a b : ℕ) (e : Entry K S dec) (E : ℕ → Entry K S dec)
      → (b == a) ≡ false
      → set_entry K S dec a e E b ≡ E b
  unfolding set_entry
  set_entry-other a b e E h = rw h refl

  -- The keys of the map are those of the elements in the list, which has none twice and is within the capacity.
  abbrev pub IsGood : Cache K S dec → Type 0
  IsGood c =
      ((k : K) (a : ℕ) → c.m k ≡ some a → (has a c.q ≡ true) × ((c.entries a).session_key ≡ k))
      × ((a : ℕ) → has a c.q ≡ true → (c.m (c.entries a).session_key ≡ some a) × (a < c.next))
      × IsDistinct c.q
      × (length c.q ≤ c.capacity)
      × (0 < c.capacity)

  moved :
      (c : Cache K S dec) (a : ℕ)
      → IsGood c
      → has a c.q ≡ true
      → IsGood (record c { q = a ∷ remove a c.q })
  moved c a (maps, owned, distinct, few, room) inside =
      let size = length-remove a c.q inside in
      (
        λ k b h. (has-front a b c.q inside ∙ (maps k b h).0, (maps k b h).1),
        λ b h. owned b (sym (has-front a b c.q inside) ∙ h),
        (has-remove_self a c.q distinct, remove-IsDistinct a c.q distinct),
        omega arith,
        room,
      )

  pub get-IsGood : (k : K) (c : Cache K S dec) → IsGood c → IsGood (get K S dec k c).1
  unfolding get
  get-IsGood k c good = elim (Option-cases (c.m k)) [
    | inl missing ↦ rw (get, missing) good
    | inr (a, found) ↦ rw (get, found) (moved c a good (good.0 k a found).0)
  ]

  -- A change of the state of an element keeps the keys.
  key_kept :
      (a b : ℕ) (v : Option S) (E : ℕ → Entry K S dec)
      → (set_entry K S dec a (record (E a) { state = v }) E b).session_key ≡ (E b).session_key
  key_kept a b v E = elim (Bool-cases (b == a)) [
    | inl is ↦
        (let e : b ≡ a = (==_iff b a).0 is in
          rw e (ap (λ x. x.session_key) (set_entry-same a (record (E a) { state = v }) E)))
    | inr other ↦ ap (λ x. x.session_key) (set_entry-other a b _ E other)
  ]

  updated :
      (c : Cache K S dec) (a : ℕ) (v : Option S)
      → IsGood c
      → IsGood (record c {
        entries = set_entry K S dec a (record (c.entries a) { state = v }) c.entries;
      })
  updated c a v (maps, owned, distinct, few, room) = (
    λ k b h. ((maps k b h).0, key_kept a b v c.entries ∙ (maps k b h).1),
    λ b h. (ap c.m (key_kept a b v c.entries) ∙ (owned b h).0, (owned b h).1),
    distinct,
    few,
    room,
  )

  pub different :
      (a b : ℕ) (x y : K) (E : ℕ → Entry K S dec)
      → (E a).session_key ≡ x
      → (E b).session_key ≡ y
      → y ≢ x
      → (b == a) ≡ false
  different a b x y E ha hb h = elim (Bool-cases (b == a)) [
    | inr other ↦ other
    | inl is ↦ absurd (h (sym hb ∙ ap (λ i. (E i).session_key) ((==_iff b a).0 is) ∙ ha))
  ]

  not_removed : (a b : ℕ) (q : List ℕ) → IsDistinct q → has b (remove a q) ≡ true → (b == a) ≡ false
  not_removed a b q distinct h = elim (Bool-cases (b == a)) [
    | inr other ↦ other
    | inl is ↦ absurd (
        true-false (has a (remove a q)) (rw ((==_iff b a).0 is) at h)
          (has-remove_self a q distinct))
  ]

  pub removed :
      (k : K) (a : ℕ) (c : Cache K S dec)
      → IsGood c
      → c.m k ≡ some a
      → IsGood (record c { m = put_at K S dec k none c.m; q = remove a c.q })
  removed k a c (maps, owned, distinct, few, room) found =
      let (inside, key) = maps k a found in
      let size = length-remove a c.q inside in
      (
        λ x b h. elim (put_at-cases k x none c.m) [
          | inl (_, gone) ↦ absurd (none-some _ b gone h)
          | inr (differs, kept) ↦
              (let (inside_b, key_b) = maps x b (sym kept ∙ h) in
                let other = different a b k x c.entries key key_b differs in
                (has-remove a b c.q other ∙ inside_b, key_b))
        ],
        λ b h.
            (let other = not_removed a b c.q distinct h in
              let (own, old) = owned b (sym (has-remove a b c.q other) ∙ h) in
              let differs : (c.entries b).session_key ≢ k = λ e.
                true-false (b == a) ((==_iff b a).1 (some_same b a (sym own ∙ ap c.m e ∙ found)))
                  other in
              (put_at-other k _ none c.m differs ∙ own, old)),
        remove-IsDistinct a c.q distinct,
        omega arith,
        room,
      )

  put_found-IsGood :
      (k : K) (v : Option S) (a : ℕ) (c : Cache K S dec)
      → IsGood c
      → c.m k ≡ some a
      → IsGood (put_found K S dec k v a c)
  unfolding put_found
  put_found-IsGood k none a c good found = removed k a c good found
  put_found-IsGood k (some s) a c good found =
      moved
        (record c {
          entries = set_entry K S dec a (record (c.entries a) { state = some s }) c.entries;
        })
        a (updated c a (some s) good) (good.0 k a found).0

  set_key-cases :
      (a b : ℕ) (k : K) (v : Option S) (E : ℕ → Entry K S dec)
      → ((b ≡ a)
          × ((set_entry K S dec a (record { session_key = k; state = v }) E b).session_key ≡ k))
        ⊎ (((b == a) ≡ false)
            × ((set_entry K S dec a (record { session_key = k; state = v }) E b).session_key
                ≡ (E b).session_key))
  set_key-cases a b k v E = elim (Bool-cases (b == a)) [
    | inl is ↦
        (let e : b ≡ a = (==_iff b a).0 is in
          inl (
            e,
            rw e (
                ap (λ x. x.session_key)
                  (set_entry-same a (record { session_key = k; state = v }) E)),
          ))
    | inr other ↦ inr (other, ap (λ x. x.session_key) (set_entry-other a b _ E other))
  ]

  fresh : (c : Cache K S dec) → IsGood c → has c.next c.q ≡ false
  fresh c (maps, owned, distinct, few, room) = elim (Bool-cases (has c.next c.q)) [
    | inr absent ↦ absent
    | inl present ↦ absurd (let less = (owned c.next present).1 in omega arith)
  ]

  other_than : (a b : ℕ) (q : List ℕ) → has a q ≡ false → has b q ≡ true → (b == a) ≡ false
  other_than a b q absent present = elim (Bool-cases (b == a)) [
    | inr other ↦ other
    | inl is ↦ absurd (true-false (has a q) (rw ((==_iff b a).0 is) at present) absent)
  ]

  has-cons : (a b : ℕ) (q : List ℕ) → (b == a) ≡ false → has b (a ∷ q) ≡ has b q
  has-cons a b q h = rw (has, (let e : (a == b) ≡ false = ground arith in e)) refl

  has-head : (a b : ℕ) (q : List ℕ) → a ≡ b → has b (a ∷ q) ≡ true
  has-head a b q e = rw (has, (==_iff a b).1 e) refl

  new_key :
      (a b : ℕ) (k : K) (v : Option S) (E : ℕ → Entry K S dec)
      → a ≡ b
      → (set_entry K S dec a (record { session_key = k; state = v }) E b).session_key ≡ k
  new_key a b k v E e = elim (set_key-cases a b k v E) [
    | inl (_, key) ↦ key
    | inr (other, _) ↦ absurd (true-false (b == a) ((==_iff b a).1 (sym e)) other)
  ]

  push_front-IsGood :
      (k : K) (v : Option S) (c : Cache K S dec)
      → IsGood c
      → c.m k ≡ none
      → length c.q < c.capacity
      → IsGood (push_front K S dec k v c)
  unfolding push_front
  push_front-IsGood k v c good missing less =
      let (maps, owned, distinct, few, room) = good in
      let n = c.next in
      (
        λ x b h. elim (put_at-cases k x (some n) c.m) [
          | inl (is, set) ↦
              (let e : n ≡ b = some_same n b (sym set ∙ h) in
                (has-head n b c.q e, new_key n b k v c.entries e ∙ sym is))
          | inr (differs, kept) ↦
              (let (inside, key) = maps x b (sym kept ∙ h) in
                let other = other_than n b c.q (fresh c good) inside in
                (
                  has-cons n b c.q other ∙ inside,
                  ap (λ i. i.session_key) (set_entry-other n b _ c.entries other) ∙ key,
                ))
        ],
        λ b h. elim (set_key-cases n b k v c.entries) [
          | inl (is, key) ↦ (
            ap (put_at K S dec k (some n) c.m) key ∙ put_at-same k (some n) c.m ∙ ap some (sym is),
            rw is (omega arith),
          )
          | inr (other, key) ↦
              (let (own, small) = owned b (sym (has-cons n b c.q other) ∙ h) in
                let differs : (c.entries b).session_key ≢ k =
                  λ e. none-some (c.m k) b missing (sym (ap c.m e) ∙ own) in
                (
                  ap (put_at K S dec k (some n) c.m) key
                      ∙ put_at-other k _ (some n) c.m differs
                      ∙ own,
                  omega arith,
                ))
        ],
        (fresh c good, distinct),
        omega arith,
        room,
      )

  reuse-IsGood :
      (k : K) (v : Option S) (a : ℕ) (c : Cache K S dec)
      → IsGood c
      → c.m k ≡ none
      → has a c.q ≡ true
      → IsGood (reuse K S dec k v a c)
  unfolding reuse
  reuse-IsGood k v a c (maps, owned, distinct, few, room) missing inside =
      let old = (c.entries a).session_key in
      let m₁ = put_at K S dec old none c.m in
      let size = length-remove a c.q inside in
      (
        λ x b h. elim (put_at-cases k x (some a) m₁) [
          | inl (is, set) ↦
              (let e : a ≡ b = some_same a b (sym set ∙ h) in
                (has-head a b (remove a c.q) e, new_key a b k v c.entries e ∙ sym is))
          | inr (differs, kept) ↦ elim (put_at-cases old x none c.m) [
            | inl (_, gone) ↦ absurd (none-some _ b gone (sym kept ∙ h))
            | inr (not_old, kept₁) ↦
                (let (inside_b, key) = maps x b (sym kept₁ ∙ sym kept ∙ h) in
                  let other = different a b old x c.entries refl key not_old in
                  (
                    has-front a b c.q inside ∙ inside_b,
                    ap (λ i. i.session_key) (set_entry-other a b _ c.entries other) ∙ key,
                  ))
          ]
        ],
        λ b h. elim (set_key-cases a b k v c.entries) [
          | inl (is, key) ↦ (
            ap (put_at K S dec k (some a) m₁) key ∙ put_at-same k (some a) m₁ ∙ ap some (sym is),
            rw is (owned a inside).1,
          )
          | inr (other, key) ↦
              (let (own, small) = owned b (sym (has-front a b c.q inside) ∙ h) in
                let differs : (c.entries b).session_key ≢ k =
                  λ e. none-some (c.m k) b missing (sym (ap c.m e) ∙ own) in
                let not_old : (c.entries b).session_key ≢ old = λ e.
                  true-false (b == a)
                    ((==_iff b a).1 (some_same b a (sym own ∙ ap c.m e ∙ (owned a inside).0)))
                    other in
                (
                  ap (put_at K S dec k (some a) m₁) key
                      ∙ put_at-other k _ (some a) m₁ differs
                      ∙ put_at-other old _ none c.m not_old
                      ∙ own,
                  small,
                ))
        ],
        (has-remove_self a c.q distinct, remove-IsDistinct a c.q distinct),
        omega arith,
        room,
      )

  -- Put returns, without a panic, a cache that is good again.
  pub put-IsGood :
      (k : K) (v : Option S) (c : Cache K S dec)
      → IsGood c
      → (c' : Cache K S dec) × (put K S dec k v c ≡ ok c') × IsGood c'
  unfolding put
  put-IsGood k v c good = elim (Option-cases (c.m k)) [
    | inr (a, found) ↦
        (put_found K S dec k v a c, rw (put, found) refl, put_found-IsGood k v a c good found)
    | inl missing ↦ elim (Bool-cases (ltb (length c.q) c.capacity)) [
      | inl less ↦ (
        push_front K S dec k v c,
        rw (put, missing) (rw less refl),
        push_front-IsGood k v c good missing (ltb→lt _ _ less),
      )
      | inr full ↦
          (let capacity = good.4 in
            let nonempty : 0 < length c.q = ground arith in
            let (a, last, inside) = has-last_of c.q nonempty in
            (
              reuse K S dec k v a c,
              rw (put, missing) (rw (full, last) refl),
              reuse-IsGood k v a c good missing inside,
            ))
    ]
  ]
