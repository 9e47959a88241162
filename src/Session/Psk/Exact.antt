-- ===== src/Session/Psk/Exact.antt =====
-- Read of a UtlsPreSharedKeyExtension against an extension whose lengths are not cut to their fields.
use mathlib.Core.Path.{ap₂, subst}
use utls.Base.{
  ℕ, ◌/◌, ◌%◌, ◌^◌, ◌<◌, ◌||◌, true, false, List, [], ◌∷◌, ◌++◌, none, Bytes, All, length,
  length-append, ◌≡◌, refl, ap, ◌∙◌, arith,
}
use utls.Extension.Wire.{vec8s, vec16, framed}
use utls.Extension.Exact.{exact16, exact8s, exact_framed, Is8}
use utls.Extension.Exact.Lengths.{vec8s-exact, vec16-exact, framed-exact}
use utls.Extension.Read.Store.{eof, empty_psk, answer}
use utls.Extension.Read.Loops.{zeros}
use utls.Session.State.{PskIdentity, UtlsPsk}
use utls.Session.Psk.{is_nil, u32, psk_ext_len, utls_len, utls_after_read, utls_read}
use utls.Session.Psk.Wire.{identities_wire, psk_wire}
use utls.Session.Psk.Correct.{length-psk_wire, utls_read-cases}

abbrev pub exact32 : ℕ → Bytes
exact32 x = x / 16777216 ∷ x / 65536 % 256 ∷ x / 256 % 256 ∷ x % 256 ∷ []

-- struct PskIdentity, one after the other
abbrev pub exact_identities : List PskIdentity → Bytes
exact_identities [] = []
exact_identities (i ∷ is) =
    exact16 i.label ++ (exact32 i.obfuscated_ticket_age ++ exact_identities is)

-- struct OfferedPsks in its extension
abbrev pub exact_psk : List PskIdentity → List Bytes → Bytes
exact_psk ids bs = exact_framed 41 (exact16 (exact_identities ids) ++ exact16 (exact8s bs))

-- A uint32.
abbrev pub IsAge : PskIdentity → Type 0
IsAge i = i.obfuscated_ticket_age < 2 ^ 32

u32-exact : (x : ℕ) → x < 2 ^ 32 → u32 x ≡ exact32 x
u32-exact x h =
    let e : x / 16777216 % 256 ≡ x / 16777216 = omega arith in
    ap (λ n. n ∷ x / 65536 % 256 ∷ x / 256 % 256 ∷ x % 256 ∷ []) e

identities-exact :
    (ids : List PskIdentity)
    → All IsAge ids
    → length (identities_wire ids) < 65536
    → identities_wire ids ≡ exact_identities ids
identities-exact [] a h = refl
identities-exact (i ∷ is) a h =
    let sum = length-append i.label (u32 i.obfuscated_ticket_age ++ identities_wire is) in
    ap₂ ◌++◌ (vec16-exact i.label (omega arith))
      (ap₂ ◌++◌ (u32-exact i.obfuscated_ticket_age a.0) (identities-exact is a.1 (omega arith)))

framed_lists-exact :
    (ids : List PskIdentity) (bs : List Bytes)
    → All IsAge ids
    → All Is8 bs
    → length (framed 41 (vec16 (identities_wire ids) ++ vec16 (vec8s bs))) < 65540
    → framed 41 (vec16 (identities_wire ids) ++ vec16 (vec8s bs)) ≡ exact_psk ids bs
framed_lists-exact ids bs a b h =
    let sum = length-append (identities_wire ids) (vec16 (vec8s bs)) in
    framed-exact 41 (vec16 (identities_wire ids) ++ vec16 (vec8s bs))
      (exact16 (exact_identities ids) ++ exact16 (exact8s bs))
      (ap₂ ◌++◌
        (vec16-exact (identities_wire ids) (omega arith)
          ∙ ap exact16 (identities-exact ids a (omega arith)))
        (vec16-exact (vec8s bs) (omega arith) ∙ ap exact16 (vec8s-exact bs b)))
      (omega arith)

psk_wire-exact :
    (ids : List PskIdentity) (bs : List Bytes)
    → All IsAge ids
    → All Is8 bs
    → psk_ext_len ids bs < 65540
    → (is_nil ids || is_nil bs) ≡ false
    → psk_wire ids bs ≡ exact_psk ids bs
psk_wire-exact [] bs a b h full = cc
psk_wire-exact (i ∷ is) [] a b h full = cc
psk_wire-exact (i ∷ is) (x ∷ xs) a b h full =
    framed_lists-exact (i ∷ is) (x ∷ xs) a b
      (let s = length-psk_wire (i ∷ is) (x ∷ xs) in omega arith)

-- A UtlsPreSharedKeyExtension whose length is not cached, whose ages are 32-bit numbers, whose binders are
-- shorter than 256 bytes, and whose body is shorter than 2^16 bytes. Without an identity or a binder, Read
-- writes nothing: it gives ErrEmptyPsk, or a count of 0 and io.EOF if empty extensions are to be omitted.
-- With both, Read on fresh room of Len bytes writes the pre_shared_key extension with the identities and the
-- binders, every length field being the length of what follows it; it is Len bytes long, and what is behind
-- it stays. The cache that Read leaves behind does not change Len.
pub utls_read-exact :
    (e : UtlsPsk) (b post : Bytes)
    → e.cached_length ≡ none
    → All IsAge e.common.identities
    → All Is8 e.common.binders
    → psk_ext_len e.common.identities e.common.binders < 65540
    → let ids = e.common.identities in
      let bs = e.common.binders in
      ((is_nil ids || is_nil bs) ≡ true
        → e.omit_empty_psk ≡ false
        → utls_read e b ≡ answer 0 empty_psk b)
      × ((is_nil ids || is_nil bs) ≡ true
          → e.omit_empty_psk ≡ true
          → utls_read e b ≡ answer 0 eof b)
      × ((is_nil ids || is_nil bs) ≡ false
          → (utls_read e (zeros (utls_len e).0 ++ post)
              ≡ answer (utls_len e).0 eof (exact_psk ids bs ++ post))
            × (length (exact_psk ids bs) ≡ (utls_len e).0))
      × ((utls_len (utls_after_read e)).0 ≡ (utls_len e).0)
utls_read-exact e b post fresh ages sizes small =
    let (refused, omitted, written, kept) = utls_read-cases e b post fresh in
    (
      refused,
      omitted,
      λ full.
          let exact = psk_wire-exact e.common.identities e.common.binders ages sizes small full in
          (
            (written full).0 ∙ ap (λ w. answer (utls_len e).0 eof (w ++ post)) exact,
            subst (λ w. length w ≡ (utls_len e).0) exact (written full).1,
          ),
      kept,
    )
