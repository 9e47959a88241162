-- ===== src/Session/Psk/Correct.antt =====
-- Len and Read of the session extensions against the wire format.
use utls.Base.{
  ℕ, ◌+◌, ◌-◌, ◌<◌, ◌==◌, Bool, true, false, not, ◌&&◌, ◌||◌, List, [], ◌∷◌, ◌++◌, none, Bytes,
  length, length-append, ◌≡◌, refl, sym, ap, ◌∙◌, arith, ok, ◌>>=◌, append_assoc, map,
}
use utls.Base.Buffer.{store}
use utls.Extension.Wire.{hi, lo, vec8s, vec16, framed}
use utls.Extension.Read.Store.{eof, empty_psk, invalid_binder_size, answer}
use utls.Extension.Read.Loops.{zeros}
use utls.Extension.Read.Encodes.{with_room-zeros, opaque_read-zeros}
use utls.Session.State.{PskIdentity, TicketExt, UtlsPsk, FakePsk}
use utls.Session.Extension.{or_nil}
use utls.Session.Psk.{
  is_nil, identities_len, binders_len, psk_ext_len, psk_header, store_identities, store_binders,
  read_psk_into_bytes, utls_len, utls_after_read, utls_read, fake_read, valid_binders, ticket_len,
  ticket_read,
}
use utls.Session.Psk.Wire.{
  identities_wire, psk_wire, length-identities, length-binders, store_on, store_identities-zeros,
  store_binders-zeros,
}

grouped_body : (ids l bs post : Bytes) → ids ++ l ++ (bs ++ post) ≡ ids ++ (l ++ bs) ++ post
grouped_body ids l bs post = simp append_assoc

-- The frame of the extension, around its two lists.
framed-psk :
    (ids bs post : Bytes) (n m k : ℕ)
    → m ≡ length ids
    → k ≡ length bs
    → n ≡ 4 + 2 + m + 2 + k
    → psk_header n m ++ ids ++ (hi k ∷ lo k ∷ []) ++ (bs ++ post)
      ≡ framed 41 (vec16 ids ++ vec16 bs) ++ post
framed-psk ids bs post n m k em ek en =
    let sum = length-append ids (vec16 bs) in
    let e : n - 4 ≡ length (vec16 ids ++ vec16 bs) = omega arith in
    let len = length (vec16 ids ++ vec16 bs) in
    let l : Bytes = hi (length bs) ∷ lo (length bs) ∷ [] in
    rw (e, em, ek)
      (ap (λ b. hi 41 ∷ lo 41 ∷ hi len ∷ lo len ∷ hi (length ids) ∷ lo (length ids) ∷ b)
        (grouped_body ids l bs post))

psk_filled :
    (ids : List PskIdentity) (bs : List Bytes) (post : Bytes) (n : ℕ)
    → n ≡ 4 + 2 + identities_len ids + 2 + binders_len bs
    → (store (zeros n ++ post) 0 (psk_header n (identities_len ids)) >>= λ b₁.
        store_identities b₁ 6 ids >>= λ b₂.
        store b₂ (6 + identities_len ids) (hi (binders_len bs) ∷ lo (binders_len bs) ∷ []) >>= λ b₃.
        store_binders b₃ (6 + identities_len ids + 2) bs)
      ≡ ok (framed 41 (vec16 (identities_wire ids) ++ vec16 (vec8s bs)) ++ post)
psk_filled ids bs post n e =
    let m = identities_len ids in
    let k = binders_len bs in
    let h = psk_header n m in
    let w = identities_wire ids in
    let l : Bytes = hi k ∷ lo k ∷ [] in
    let sized = length-identities ids in
    let s = length-append h w in
    let t = length-append (h ++ w) l in
    rw (store_on [] h post 0 n (m + (2 + k)) refl (omega arith)) (
      rw
        (store_identities-zeros ids h post 6 (m + (2 + k)) (2 + k) refl refl
          ∙ ap ok (sym (append_assoc h w (zeros (2 + k) ++ post))))
        (rw (store_on (h ++ w) l post (6 + m) (2 + k) k (omega arith) refl) (
          store_binders-zeros bs (h ++ w ++ l) post (6 + m + 2) k (omega arith) refl
          ∙ ap ok (framed-psk w (vec8s bs) post n m k (sym sized) (sym (length-binders bs)) e))))

not_empty : (n : ℕ) → 0 < n → (n == 0) ≡ false
not_empty n h = ground arith

read_psk-wire :
    (ids : List PskIdentity) (bs : List Bytes) (post : Bytes)
    → read_psk_into_bytes ids bs (zeros (psk_ext_len ids bs) ++ post)
      ≡ answer (psk_ext_len ids bs) eof (psk_wire ids bs ++ post)
unfolding read_psk_into_bytes psk_ext_len
read_psk-wire [] bs post = refl
read_psk-wire (i ∷ is) [] post = refl
read_psk-wire (i ∷ is) (b ∷ bs) post =
    let n = 4 + 2 + identities_len (i ∷ is) + 2 + binders_len (b ∷ bs) in
    rw (not_empty n (omega arith))
      (with_room-zeros n post _ _ (psk_filled (i ∷ is) (b ∷ bs) post n refl))

pub length-psk_wire :
    (ids : List PskIdentity) (bs : List Bytes) → length (psk_wire ids bs) ≡ psk_ext_len ids bs
unfolding psk_ext_len
length-psk_wire [] bs = refl
length-psk_wire (i ∷ is) [] = refl
length-psk_wire (i ∷ is) (b ∷ bs) =
    let sum = length-append (identities_wire (i ∷ is)) (vec16 (vec8s (b ∷ bs))) in
    omega (arith, length-identities (i ∷ is), length-binders (b ∷ bs))

fresh_len :
    (e : UtlsPsk)
    → e.cached_length ≡ none
    → (utls_len e).0 ≡ psk_ext_len e.common.identities e.common.binders
unfolding utls_len psk_ext_len
fresh_len e fresh = ground arith

empty_len :
    (ids : List PskIdentity) (bs : List Bytes)
    → (is_nil ids || is_nil bs) ≡ true
    → psk_ext_len ids bs ≡ 0
unfolding psk_ext_len
empty_len ids bs h = rw h

full_len :
    (ids : List PskIdentity) (bs : List Bytes)
    → (is_nil ids || is_nil bs) ≡ false
    → (psk_ext_len ids bs == 0) ≡ false
unfolding psk_ext_len
full_len ids bs h = rw h (not_empty _ (omega arith))

read_psk_empty :
    (ids : List PskIdentity) (bs : List Bytes) (b : Bytes)
    → (is_nil ids || is_nil bs) ≡ true
    → read_psk_into_bytes ids bs b ≡ answer 0 eof b
unfolding read_psk_into_bytes
read_psk_empty ids bs b h = rw (empty_len ids bs h)

refused_empty : (omit : Bool) (n : ℕ) → omit ≡ false → n ≡ 0 → (not omit && n == 0) ≡ true
refused_empty omit n h k = ground arith

goes_on : (omit : Bool) (n : ℕ) → (n == 0) ≡ false → (not omit && n == 0) ≡ false
goes_on omit n h = ground arith

utls_after_read-len :
    (e : UtlsPsk) → e.cached_length ≡ none → (utls_len (utls_after_read e)).0 ≡ (utls_len e).0
unfolding utls_after_read utls_len
utls_after_read-len e fresh = ground arith

-- A UtlsPreSharedKeyExtension whose length is not cached. Without an identity or a binder, Read writes
-- nothing: it gives ErrEmptyPsk, or a count of 0 and io.EOF if empty extensions are to be omitted.
-- With both, Read on fresh room of Len bytes writes exactly psk_wire, which is Len bytes long, and
-- leaves what is behind. The cache that Read leaves
-- behind does not change Len.
pub utls_read-cases :
    (e : UtlsPsk) (b post : Bytes)
    → e.cached_length ≡ none
    → let ids = e.common.identities in
      let bs = e.common.binders in
      ((is_nil ids || is_nil bs) ≡ true
        → e.omit_empty_psk ≡ false
        → utls_read e b ≡ answer 0 empty_psk b)
      × ((is_nil ids || is_nil bs) ≡ true
          → e.omit_empty_psk ≡ true
          → utls_read e b ≡ answer 0 eof b)
      × ((is_nil ids || is_nil bs) ≡ false
          → (utls_read e (zeros (utls_len e).0 ++ post)
              ≡ answer (utls_len e).0 eof (psk_wire ids bs ++ post))
            × (length (psk_wire ids bs) ≡ (utls_len e).0))
      × ((utls_len (utls_after_read e)).0 ≡ (utls_len e).0)
unfolding utls_read
utls_read-cases e b post fresh =
    let ids = e.common.identities in
    let bs = e.common.binders in
    (
      λ nil keep.
          rw (refused_empty e.omit_empty_psk _ keep (fresh_len e fresh ∙ empty_len ids bs nil)),
      λ nil omit. rw omit (read_psk_empty ids bs b nil),
      λ full. (
        rw (fresh_len e fresh, goes_on e.omit_empty_psk _ (full_len ids bs full))
            (read_psk-wire ids bs post),
        length-psk_wire ids bs ∙ sym (fresh_len e fresh),
      ),
      utls_after_read-len e fresh,
    )

-- A FakePreSharedKeyExtension with an identity and a binder: a binder whose size is not that of a TLS
-- 1.3 hash is refused, and otherwise Read on fresh room writes exactly psk_wire.
pub fake_read-cases :
    (e : FakePsk) (b post : Bytes)
    → (is_nil (or_nil e.identities) || is_nil (or_nil e.binders)) ≡ false
    → let ids = or_nil e.identities in
      let bs = or_nil e.binders in
      (valid_binders bs ≡ false → fake_read e b ≡ answer 0 invalid_binder_size b)
      × (valid_binders bs ≡ true
          → fake_read e (zeros (psk_ext_len ids bs) ++ post)
            ≡ answer (psk_ext_len ids bs) eof (psk_wire ids bs ++ post))
unfolding fake_read
fake_read-cases e b post full =
    let ids = or_nil e.identities in
    let bs = or_nil e.binders in
    let more = goes_on e.omit_empty_psk _ (full_len ids bs full) in
    (λ bad. rw (more, bad), λ good. rw (more, good) (read_psk-wire ids bs post))

-- SessionTicketExtension.Read on fresh room of Len bytes writes the ticket as the body of an extension
-- of type 35, for a nil ticket an empty body, and leaves what is behind.
pub ticket_read-wire :
    (e : TicketExt) (post : Bytes)
    → ticket_read e (zeros (ticket_len e) ++ post)
      ≡ answer (ticket_len e) eof (framed 35 (or_nil e.ticket) ++ post)
unfolding ticket_read ticket_len
ticket_read-wire e post = opaque_read-zeros 35 (or_nil e.ticket) post

binders_len-sizes :
    (bs cs : List Bytes) → map length bs ≡ map length cs → binders_len bs ≡ binders_len cs
binders_len-sizes [] [] h = refl
binders_len-sizes [] (c ∷ cs) h = cc
binders_len-sizes (b ∷ bs) [] h = cc
binders_len-sizes (b ∷ bs) (c ∷ cs) h =
    let first : length b ≡ length c = cc in let rest = binders_len-sizes bs cs cc in omega arith

psk_wire_same_prefix :
    (i : PskIdentity) (is : List PskIdentity) (b c : Bytes) (bs cs : List Bytes)
    → map length (b ∷ bs) ≡ map length (c ∷ cs)
    → (prefix : Bytes) × (psk_wire (i ∷ is) (b ∷ bs) ≡ prefix ++ vec16 (vec8s (b ∷ bs)))
      × (psk_wire (i ∷ is) (c ∷ cs) ≡ prefix ++ vec16 (vec8s (c ∷ cs)))
      × (psk_ext_len (i ∷ is) (b ∷ bs) ≡ psk_ext_len (i ∷ is) (c ∷ cs))
unfolding psk_ext_len
psk_wire_same_prefix i is b c bs cs h =
    let w = identities_wire (i ∷ is) in
    let same = binders_len-sizes (b ∷ bs) (c ∷ cs) h in
    let sb = length-binders (b ∷ bs) in
    let sc = length-binders (c ∷ cs) in
    let wb = length-append w (vec16 (vec8s (b ∷ bs))) in
    let wc = length-append w (vec16 (vec8s (c ∷ cs))) in
    let size = length (vec16 w ++ vec16 (vec8s (b ∷ bs))) in
    let sized : length (vec16 w ++ vec16 (vec8s (c ∷ cs))) ≡ size = omega arith in
    (
      hi 41 ∷ lo 41 ∷ hi size ∷ lo size ∷ vec16 w,
      refl,
      ap (λ n. hi 41 ∷ lo 41 ∷ hi n ∷ lo n ∷ (vec16 w ++ vec16 (vec8s (c ∷ cs)))) sized,
      omega arith,
    )

-- Reads of one non-empty identity list with two non-empty lists of binders of the same sizes, such as the
-- placeholders and the binders that replace them, write the same number of bytes on fresh room, and
-- these differ at most in the list of binders at their end: what stands before it, the part that a
-- binder is computed over, is the same.
pub read_psk_same_prefix :
    (i : PskIdentity) (is : List PskIdentity) (b c : Bytes) (bs cs : List Bytes) (post : Bytes)
    → map length (b ∷ bs) ≡ map length (c ∷ cs)
    → (n : ℕ) × (prefix : Bytes) × (read_psk_into_bytes (i ∷ is) (b ∷ bs) (zeros n ++ post)
        ≡ answer n eof (prefix ++ vec16 (vec8s (b ∷ bs)) ++ post))
      × (read_psk_into_bytes (i ∷ is) (c ∷ cs) (zeros n ++ post)
          ≡ answer n eof (prefix ++ vec16 (vec8s (c ∷ cs)) ++ post))
read_psk_same_prefix i is b c bs cs post h =
    let n = psk_ext_len (i ∷ is) (b ∷ bs) in
    let m = psk_ext_len (i ∷ is) (c ∷ cs) in
    let (prefix, first, second, same) = psk_wire_same_prefix i is b c bs cs h in
    (
      n,
      prefix,
      read_psk-wire (i ∷ is) (b ∷ bs) post ∙ ap (λ w. answer n eof (w ++ post)) first,
      rw (sym same) at (read_psk-wire (i ∷ is) (c ∷ cs) post)
          ∙ ap (λ w. answer n eof (w ++ post)) second,
    )
