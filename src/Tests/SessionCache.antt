-- ===== src/Tests/SessionCache.antt =====
-- A cache of two sessions.
use native.Mathlib.Decide.{ℕ_discrete}
use utls.Base.{ℕ, Option, none, some, ok, ◌≡◌, refl}
use utls.SessionCache.{
  Entry, Cache, put_at, set_entry, push_front, reuse, put, get, new_lru_client_session_cache,
}
use utls.SessionCache.Invariant.{IsGood}
use utls.SessionCache.Lookup.{find, Effect, put-Effect}
use utls.SessionCache.Steps.{Reach, new_cache, after_put, Reach-IsGood}

abbrev blank : ℕ → Entry ℕ ℕ ℕ_discrete
blank a = record { session_key = 0; state = none }

abbrev no_sessions : Cache ℕ ℕ ℕ_discrete
no_sessions = new_lru_client_session_cache ℕ ℕ ℕ_discrete 2 blank

abbrev one_session : Cache ℕ ℕ ℕ_discrete
one_session = push_front ℕ ℕ ℕ_discrete 1 (some 10) no_sessions

one_session_reached : Reach ℕ ℕ ℕ_discrete 2 blank one_session
unfolding put
one_session_reached = after_put 1 (some 10) no_sessions one_session new_cache refl

Reach-IsGood_example :
    IsGood ℕ ℕ ℕ_discrete one_session
    × ((k : ℕ) (v : Option ℕ)
        → (c' : Cache ℕ ℕ ℕ_discrete) × (put ℕ ℕ ℕ_discrete k v one_session ≡ ok c'))
Reach-IsGood_example = Reach-IsGood ℕ ℕ ℕ_discrete 2 blank one_session one_session_reached

put-Effect_example :
    (c' : Cache ℕ ℕ ℕ_discrete) × (put ℕ ℕ ℕ_discrete 2 (some 20) one_session ≡ ok c')
    × Effect ℕ ℕ ℕ_discrete 2 (some 20) one_session c'
put-Effect_example =
    put-Effect ℕ ℕ ℕ_discrete 2 (some 20) one_session
      (Reach-IsGood ℕ ℕ ℕ_discrete 2 blank one_session one_session_reached).0

-- A nil state for a key that is not there takes the place of the session there is.
abbrev small_cache : Cache ℕ ℕ ℕ_discrete
small_cache =
    push_front ℕ ℕ ℕ_discrete 1 (some 10) (new_lru_client_session_cache ℕ ℕ ℕ_discrete 1 blank)

nil_evicts :
    (put ℕ ℕ ℕ_discrete 2 none small_cache ≡ ok (reuse ℕ ℕ ℕ_discrete 2 none 0 small_cache))
    × (find ℕ ℕ ℕ_discrete 1 (reuse ℕ ℕ ℕ_discrete 2 none 0 small_cache) ≡ none)
    × (find ℕ ℕ ℕ_discrete 2 (reuse ℕ ℕ ℕ_discrete 2 none 0 small_cache) ≡ some none)
unfolding put get reuse push_front put_at set_entry ℕ_discrete
nil_evicts = (refl, refl, refl)
