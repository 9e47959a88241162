-- ===== src/Session/Controller/Sync/Laws.antt =====
-- What syncSessionExts leaves: a consistent controller that owns exactly the session extensions of
-- the list, with the psk extension last.
use mathlib.Core.Path.{subst}
use utls.Base.{
  ℕ, ◌+◌, ◌≤◌, Bool, true, false, List, [], ◌∷◌, Option, none, some, ◌≡◌, refl, arith, ok, ◌>>=◌,
  >>=-returned, length, ap, ◌∙◌, ok-injective, All, ltb, ◌<◌, ◌||◌,
}
use utls.Session.State.{
  ControllerState, no_session, session_ticket_ext_initialized, session_ticket_ext_all_set,
  psk_ext_initialized, psk_ext_all_set, Extension, ticket_at, psk_at, other, UConn,
}
use utls.Session.Extension.{is_some}
use utls.Session.Controller.Invariant.{IsConsistent}
use utls.Session.Controller.Sync.{
  Progress, adopt_psk, sync_one, is_empty, sync_all, SyncResult, synced, ticket_not_in_spec,
  psk_not_in_spec, sync_psk, sync_missing, sync_session_exts,
}

-- The addresses of the ticket extensions and of the psk extensions in a list.
abbrev pub tickets_in : List Extension → List ℕ
tickets_in [] = []
tickets_in (ticket_at p ∷ es) = p ∷ tickets_in es
tickets_in (psk_at p ∷ es) = tickets_in es
tickets_in (other ∷ es) = tickets_in es

abbrev pub psks_in : List Extension → List ℕ
psks_in [] = []
psks_in (ticket_at p ∷ es) = psks_in es
psks_in (psk_at p ∷ es) = p ∷ psks_in es
psks_in (other ∷ es) = psks_in es

-- No psk extension stands before the last place.
abbrev pub psk_only_last : List Extension → Bool
psk_only_last [] = true
psk_only_last (ticket_at p ∷ es) = psk_only_last es
psk_only_last (psk_at p ∷ es) = is_empty es
psk_only_last (other ∷ es) = psk_only_last es

abbrev pub Owns : Option ℕ → List ℕ → Type 0
Owns o ps = All (λ p. o ≡ some p) ps

-- What the loop does between two points, with `es` the elements that it wrote.
record Loop (s t : Progress) (es : List Extension) : Type 0 where
  same_state : t.conn.state ≡ s.conn.state
  same_lock : t.conn.locked ≡ s.conn.locked
  same_tracker : t.conn.tracker ≡ s.conn.tracker
  same_calling : t.conn.calling_load_session ≡ s.conn.calling_load_session
  keeps_ticket :
      is_some s.conn.session_ticket_ext ≡ true
      → t.conn.session_ticket_ext ≡ s.conn.session_ticket_ext
  keeps_psk : is_some s.conn.psk_extension ≡ true → t.conn.psk_extension ≡ s.conn.psk_extension
  counted : t.num_session_ext ≡ s.num_session_ext + length (tickets_in es)
  one_at_most : s.num_session_ext ≤ 1 → t.num_session_ext ≤ 1
  flagged : t.has_psk_ext ≡ (s.has_psk_ext || ltb 0 (length (psks_in es)))
  owns_tickets : Owns t.conn.session_ticket_ext (tickets_in es)
  owns_psks : Owns t.conn.psk_extension (psks_in es)

sync_one-Loop :
    (e : Extension) (last : Bool) (s : Progress) {e' : Extension} {t : Progress}
    → sync_one e last s ≡ ok (e', t)
    → Loop s t (e' ∷ [])
unfolding sync_one adopt_psk
sync_one-Loop (ticket_at p) last s h = ground arith
sync_one-Loop (psk_at p) last s h = ground arith
sync_one-Loop other last s h = ground arith

-- A psk extension is written only in the last round.
sync_one_last :
    (e : Extension) (last : Bool) (s : Progress) {e' : Extension} {t : Progress}
    → sync_one e last s ≡ ok (e', t)
    → 0 < length (psks_in (e' ∷ []))
    → last ≡ true
unfolding sync_one adopt_psk
sync_one_last (ticket_at p) last s h k = ground arith
sync_one_last (psk_at p) last s h k = ground arith
sync_one_last other last s h k = ground arith

Loop-cons :
    (e : Extension) (s r t : Progress) (es : List Extension)
    → Loop s r (e ∷ [])
    → Loop r t es
    → Loop s t (e ∷ es)
Loop-cons (ticket_at p) s r t es one all = ground arith
Loop-cons (psk_at p) s r t es one all = ground arith
Loop-cons other s r t es one all = ground arith

sync_all-empty :
    (es : List Extension) (s : Progress) {es' : List Extension} {t : Progress}
    → sync_all es s ≡ ok (es', t)
    → is_empty es' ≡ is_empty es
unfolding sync_all
sync_all-empty [] s h = ground arith
sync_all-empty (e ∷ es) s h =
    let (p, one, rest) = >>=-returned (sync_one e (is_empty es) s) _ h in
    let (q, all, done) = >>=-returned (sync_all es p.1) _ rest in ground arith

psk_only_last-cons :
    (e : Extension) (es es' : List Extension)
    → (0 < length (psks_in (e ∷ [])) → is_empty es ≡ true)
    → is_empty es' ≡ is_empty es
    → psk_only_last es' ≡ true
    → psk_only_last (e ∷ es') ≡ true
psk_only_last-cons (ticket_at p) es es' h n l = l
psk_only_last-cons (psk_at p) es es' h n l = n ∙ h (omega arith)
psk_only_last-cons other es es' h n l = l

sync_all-Loop :
    (es : List Extension) (s : Progress) {es' : List Extension} {t : Progress}
    → sync_all es s ≡ ok (es', t)
    → Loop s t es' × (psk_only_last es' ≡ true)
unfolding sync_all
sync_all-Loop [] s h = ground arith
sync_all-Loop (e ∷ es) s {es'} {t} h =
    let (p, one, rest) = >>=-returned (sync_one e (is_empty es) s) _ h in
    let (q, all, done) = >>=-returned (sync_all es p.1) _ rest in
    let (loop, last) = sync_all-Loop es p.1 all in
    let whole = Loop-cons p.0 s p.1 q.1 q.0 (sync_one-Loop e (is_empty es) s one) loop in
    let placed =
      psk_only_last-cons p.0 es q.0 (sync_one_last e (is_empty es) s one)
        (sync_all-empty es p.1 all) last in
    subst (λ r. Loop s r.1 r.0 × (psk_only_last r.0 ≡ true)) (ok-injective done) (whole, placed)

-- The connection that a call of syncSessionExts leaves, with an error or without.
abbrev pub conn_of : SyncResult → UConn
conn_of (synced u) = u
conn_of (ticket_not_in_spec u) = u
conn_of (psk_not_in_spec u) = u

abbrev pub owned_list : Option ℕ → List ℕ
owned_list none = []
owned_list (some p) = p ∷ []

-- The ticket and psk extensions of the list are those of the controller, once each, and the psk
-- extension stands last.
pub record IsSynced (u : UConn) : Type 0 where
  pub tickets_are : tickets_in u.extensions ≡ owned_list u.session_ticket_ext
  pub psks_are : psks_in u.extensions ≡ owned_list u.psk_extension
  pub psk_last : psk_only_last u.extensions ≡ true

-- The states that syncSessionExts accepts.
abbrev is_open : ControllerState → Bool
is_open no_session = true
is_open session_ticket_ext_initialized = true
is_open psk_ext_initialized = true
is_open session_ticket_ext_all_set = false
is_open psk_ext_all_set = false

missing-IsConsistent :
    (s : Progress)
    → is_open s.conn.state ≡ true
    → IsConsistent s.conn
    → IsConsistent (conn_of (sync_missing s))
unfolding sync_missing sync_psk
missing-IsConsistent s o c = ground arith

Owns-one : (o : Option ℕ) (ps : List ℕ) → Owns o ps → length ps ≡ 1 → ps ≡ owned_list o
Owns-one o [] h n = absurd (omega arith)
Owns-one o (p ∷ []) h n = ground arith
Owns-one o (p ∷ q ∷ ps) h n = absurd (omega arith)

length-zero : (ps : List ℕ) → length ps ≡ 0 → ps ≡ []
length-zero [] h = refl
length-zero (p ∷ ps) h = absurd (omega arith)

psks_one : (es : List Extension) → psk_only_last es ≡ true → length (psks_in es) ≤ 1
psks_one [] h = omega arith
psks_one (ticket_at p ∷ es) h = psks_one es h
psks_one (psk_at p ∷ []) h = omega arith
psks_one (psk_at p ∷ (e ∷ es)) h = absurd (ground arith)
psks_one (other ∷ es) h = psks_one es h

-- With no error, what the loop wrote is what the controller owns afterwards.
missing-IsSynced :
    (s : Progress) (es : List Extension) {v : UConn}
    → s.num_session_ext ≡ length (tickets_in es)
    → s.num_session_ext ≤ 1
    → s.has_psk_ext ≡ ltb 0 (length (psks_in es))
    → Owns s.conn.session_ticket_ext (tickets_in es)
    → Owns s.conn.psk_extension (psks_in es)
    → psk_only_last es ≡ true
    → s.conn.extensions ≡ es
    → sync_missing s ≡ synced v
    → IsSynced v
unfolding sync_missing sync_psk
missing-IsSynced s es {v} n n1 f ot op last e h = ground (
  arith,
  Owns-one s.conn.session_ticket_ext (tickets_in es) ot,
  length-zero (tickets_in es),
  Owns-one s.conn.psk_extension (psks_in es) op,
  length-zero (psks_in es),
  psks_one es last,
)

abbrev start : UConn → Progress
start u = record { num_session_ext = 0; has_psk_ext = false; conn = u }

abbrev finish : List Extension × Progress → SyncResult
finish q = sync_missing (record (q.1) { conn = record (q.1.conn) { extensions = q.0 } })

sync_guards :
    (u : UConn) {r : SyncResult}
    → sync_session_exts u ≡ ok r
    → (is_open u.state ≡ true)
      × (u.locked ≡ false)
      × ((sync_all u.extensions (start u) >>= λ q. ok (finish q)) ≡ ok r)
unfolding sync_session_exts
sync_guards u {r} h = ground arith

-- syncSessionExts returned: the loop ran, on an open and unlocked controller, and the checks on
-- missing extensions decided.
sync_parts :
    (u : UConn) {r : SyncResult}
    → sync_session_exts u ≡ ok r
    → (q : List Extension × Progress) × (is_open u.state ≡ true)
      × (u.locked ≡ false)
      × Loop (start u) q.1 q.0
      × (psk_only_last q.0 ≡ true)
      × (finish q ≡ r)
sync_parts u {r} h =
    let (open_state, unlocked, rest) = sync_guards u h in
    let (q, all, done) = >>=-returned (sync_all u.extensions (start u)) (λ q. ok (finish q)) rest in
    let (loop, last) = sync_all-Loop u.extensions (start u) all in
    (q, open_state, unlocked, loop, last, ok-injective done)

Loop-IsConsistent :
    (u : UConn) (q : List Extension × Progress)
    → IsConsistent u
    → Loop (start u) q.1 q.0
    → IsConsistent (record (q.1.conn) { extensions = q.0 })
Loop-IsConsistent u q c l = ground arith

-- A call of syncSessionExts on a consistent controller that does not panic leaves it consistent,
-- whether it returns an error or not.
pub sync_session_exts-IsConsistent :
    (u : UConn) {r : SyncResult}
    → IsConsistent u
    → sync_session_exts u ≡ ok r
    → IsConsistent (conn_of r)
sync_session_exts-IsConsistent u {r} c h =
    let (q, open_state, unlocked, loop, last, done) = sync_parts u h in
    subst (λ x. IsConsistent (conn_of x)) done
      (missing-IsConsistent (record (q.1) { conn = record (q.1.conn) { extensions = q.0 } })
        (ap is_open loop.same_state ∙ open_state) (Loop-IsConsistent u q c loop))

-- When syncSessionExts returns no error, the extension list holds the ticket extension and the psk
-- extension that the controller owns, each exactly once, no other extension of these kinds, and the
-- psk extension in the last place.
pub sync_session_exts-IsSynced : (u v : UConn) → sync_session_exts u ≡ ok (synced v) → IsSynced v
sync_session_exts-IsSynced u v h =
    let (q, open_state, unlocked, loop, last, done) = sync_parts u h in
    missing-IsSynced (record (q.1) { conn = record (q.1.conn) { extensions = q.0 } }) q.0
      (omega (arith, loop.counted)) (loop.one_at_most (omega arith)) loop.flagged loop.owns_tickets
      loop.owns_psks last refl done

pub sync_unlocked : (u : UConn) {r : SyncResult} → sync_session_exts u ≡ ok r → u.locked ≡ false
sync_unlocked u h = (sync_guards u h).1
