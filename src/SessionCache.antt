-- ===== src/SessionCache.antt =====
-- common.go: lruSessionCache. `K` stands for the strings that are session keys, `S` for the pointers to a
-- ClientSessionState that are not nil. An element of the list is an address, which the map and the list
-- share; `entries` is what stands at the addresses. The mutex is left out: a call is one step.
pub mod Elements
pub mod Invariant
pub mod Lookup
pub mod Steps
use utls.Base.{
  ℕ, zero, suc, ◌+◌, ◌==◌, ltb, Bool, true, false, List, [], ◌∷◌, Option, none, some, length,
  if◌then◌else◌, Run, ok, panic,
}
use utls.SessionCache.Elements.{remove, last_of}

abbrev pub choose {ℓ} : {P : Type ℓ} → Dec P → Option ℕ → Option ℕ → Option ℕ
choose (yes p) v w = v
choose (no p) v w = w

module _ (K S : Type 0) (dec : Discrete K) where
  -- lruSessionCacheEntry
  pub record Entry : Type 0 where
    pub session_key : K
    pub state : Option S

  -- lruSessionCache; `next` is an address that is not in use.
  pub record Cache : Type 0 where
    pub m : K → Option ℕ
    pub q : List ℕ
    pub entries : ℕ → Entry
    pub capacity : ℕ
    pub next : ℕ

  -- `m[k] = v`, and `delete(m, k)` for `none`
  unfoldable pub put_at : K → Option ℕ → (K → Option ℕ) → K → Option ℕ
  put_at k v m x = choose (dec x k) v (m x)

  unfoldable pub set_entry : ℕ → Entry → (ℕ → Entry) → ℕ → Entry
  set_entry a e entries b = if b == a then e else entries b

  -- NewLRUClientSessionCache, with the entries at the addresses not in use
  abbrev pub new_lru_client_session_cache : ℕ → (ℕ → Entry) → Cache
  new_lru_client_session_cache n entries = record {
    m = λ k. none;
    q = [];
    entries = entries;
    capacity = if ltb n 1 then 64 else n;
    next = 0;
  }

  -- Put on a key that has the element `a`.
  unfoldable pub put_found : K → Option S → ℕ → Cache → Cache
  put_found k none a c = record c { m = put_at k none c.m; q = remove a c.q }
  put_found k (some s) a c = record c {
    entries = set_entry a (record (c.entries a) { state = some s }) c.entries;
    q = a ∷ remove a c.q;
  }

  -- A new element at the front.
  unfoldable pub push_front : K → Option S → Cache → Cache
  push_front k v c = record c {
    m = put_at k (some c.next) c.m;
    q = c.next ∷ c.q;
    entries = set_entry c.next (record { session_key = k; state = v }) c.entries;
    next = suc c.next;
  }

  -- The last element, taken for another key.
  unfoldable pub reuse : K → Option S → ℕ → Cache → Cache
  reuse k v a c = record c {
    m = put_at k (some a) (put_at (c.entries a).session_key none c.m);
    q = a ∷ remove a c.q;
    entries = set_entry a (record { session_key = k; state = v }) c.entries;
  }

  unfoldable pub put : K → Option S → Cache → Run Cache
  put k v c = elim (c.m k) [
    | some a ↦ ok (put_found k v a c)
    | none ↦
        if ltb (length c.q) c.capacity
        then ok (push_front k v c)
        else elim (last_of c.q) [ none ↦ panic | some a ↦ ok (reuse k v a c) ]
  ]

  -- Get: the state, if the key is found, and the cache afterwards
  unfoldable pub get : K → Cache → Option (Option S) × Cache
  get k c = elim (c.m k) [
    | some a ↦ (some (c.entries a).state, record c { q = a ∷ remove a c.q })
    | none ↦ (none, c)
  ]
