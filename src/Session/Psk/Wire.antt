-- ===== src/Session/Psk/Wire.antt =====
-- The pre_shared_key extension, with lengths cut to their fields as the code cuts them, and the loops of readPskIntoBytes over fresh room.
use utls.Base.{
  ℕ, ◌+◌, ◌||◌, List, [], ◌∷◌, ◌++◌, Bytes, length, length-append, ◌≡◌, refl, sym, ap, ◌∙◌, arith,
  ok, append_assoc, if◌then◌else◌,
}
use utls.Base.Buffer.{store, copy_at}
use utls.Extension.Wire.{hi, lo, vec8s, vec16, framed}
use utls.Extension.Read.Loops.{zeros, store_first, copy_first}
use utls.Session.State.{PskIdentity}
use utls.Session.Psk.{is_nil, identities_len, binders_len, u32, store_identities, store_binders}

-- struct PskIdentity, one after the other
abbrev pub identities_wire : List PskIdentity → Bytes
identities_wire [] = []
identities_wire (i ∷ is) = vec16 i.label ++ (u32 i.obfuscated_ticket_age ++ identities_wire is)

-- struct OfferedPsks in its extension; nothing without an identity or without a binder
abbrev pub psk_wire : List PskIdentity → List Bytes → Bytes
psk_wire ids bs =
    if is_nil ids || is_nil bs
    then []
    else framed 41 (vec16 (identities_wire ids) ++ vec16 (vec8s bs))

pub length-identities : (ids : List PskIdentity) → length (identities_wire ids) ≡ identities_len ids
length-identities [] = refl
length-identities (i ∷ is) = omega (
  arith,
  length-identities is,
  length-append i.label (u32 i.obfuscated_ticket_age ++ identities_wire is),
)

pub length-binders : (bs : List Bytes) → length (vec8s bs) ≡ binders_len bs
length-binders [] = refl
length-binders (b ∷ bs) = omega (arith, length-binders bs, length-append b (vec8s bs))

-- A store behind `pre`, and a copy: what is written goes on the end of `pre`.
pub store_on :
    (pre vs post : Bytes) (k n m : ℕ)
    → k ≡ length pre
    → n ≡ length vs + m
    → store (pre ++ (zeros n ++ post)) k vs ≡ ok (pre ++ vs ++ (zeros m ++ post))
store_on pre vs post k n m hk hn =
    store_first pre vs post k n m hk hn ∙ ap ok (sym (append_assoc pre vs (zeros m ++ post)))

pub copy_on :
    (pre vs post : Bytes) (k n m : ℕ)
    → k ≡ length pre
    → n ≡ length vs + m
    → copy_at (pre ++ (zeros n ++ post)) k vs ≡ ok (pre ++ vs ++ (zeros m ++ post))
copy_on pre vs post k n m hk hn =
    copy_first pre vs post k n m hk hn ∙ ap ok (sym (append_assoc pre vs (zeros m ++ post)))

grouped_identity :
    (pre h label age rest post : Bytes)
    → pre ++ h ++ label ++ age ++ (rest ++ post) ≡ pre ++ (h ++ (label ++ (age ++ rest)) ++ post)
grouped_identity pre h label age rest post = simp append_assoc

pub store_identities-zeros :
    (ids : List PskIdentity) (pre post : Bytes) (k n m : ℕ)
    → k ≡ length pre
    → n ≡ identities_len ids + m
    → store_identities (pre ++ (zeros n ++ post)) k ids
      ≡ ok (pre ++ (identities_wire ids ++ (zeros m ++ post)))
unfolding store_identities
store_identities-zeros [] pre post k n m hk hn = let e : n ≡ m = omega arith in rw e
store_identities-zeros (i ∷ is) pre post k n m hk hn =
    let l = length i.label in
    let h : Bytes = hi l ∷ lo l ∷ [] in
    let age = u32 i.obfuscated_ticket_age in
    let rest = identities_len is + m in
    let s₁ = length-append pre h in
    let s₂ = length-append (pre ++ h) i.label in
    let s₃ = length-append (pre ++ h ++ i.label) age in
    let more =
      store_identities-zeros is (pre ++ h ++ i.label ++ age) post (k + 2 + l + 4) rest m
        (omega arith) refl in
    rw (store_on pre h post k n (l + (4 + rest)) hk (omega arith)) (
      rw (copy_on (pre ++ h) i.label post (k + 2) (l + (4 + rest)) (4 + rest) (omega arith) refl) (
        rw (store_on (pre ++ h ++ i.label) age post (k + 2 + l) (4 + rest) rest (omega arith) refl)
          (more
            ∙ ap ok (grouped_identity pre h i.label age (identities_wire is) (zeros m ++ post)))))

grouped_binder :
    (pre h x rest post : Bytes)
    → pre ++ h ++ x ++ (rest ++ post) ≡ pre ++ (h ++ (x ++ rest) ++ post)
grouped_binder pre h x rest post = simp append_assoc

pub store_binders-zeros :
    (bs : List Bytes) (pre post : Bytes) (k n : ℕ)
    → k ≡ length pre
    → n ≡ binders_len bs
    → store_binders (pre ++ (zeros n ++ post)) k bs ≡ ok (pre ++ (vec8s bs ++ post))
unfolding store_binders
store_binders-zeros [] pre post k n hk hn = rw hn
store_binders-zeros (x ∷ xs) pre post k n hk hn =
    let h : Bytes = lo (length x) ∷ [] in
    let rest = binders_len xs in
    let s₁ = length-append pre h in
    let s₂ = length-append (pre ++ h) x in
    let more =
      store_binders-zeros xs (pre ++ h ++ x) post (k + 1 + length x) rest (omega arith) refl in
    rw (store_on pre h post k n (length x + rest) hk (omega arith)) (
      rw (copy_on (pre ++ h) x post (k + 1) (length x + rest) rest (omega arith) refl)
        (more ∙ ap ok (grouped_binder pre h x (vec8s xs) post)))
