-- ===== src/Extension/HostName/Laws.antt =====
-- hostnameInSNI of handshake_client.go: what a server name becomes.
use utls.Base.{
  ℕ, zero, suc, Bool, true, false, ◌==◌, [], ◌∷◌, ◌++◌, Bytes, replicate, ◌≡◌, inl, inr, refl, sym,
  ap, ◌∙◌, Bool-cases, ==_iff,
}
use mathlib.Core.List.{reverse, reverse-cons, reverse-append, reverse-reverse}
use utls.Extension.HostName.{drop_dots, without_zone, unbracket, hostname_in_sni}

abbrev dot : ℕ
dot = b'.'

replicate-end : (k : ℕ) → replicate k dot ++ (dot ∷ []) ≡ dot ∷ replicate k dot
replicate-end zero = refl
replicate-end (suc k) = ap (◌∷◌ dot) (replicate-end k)

reverse-replicate : (k : ℕ) → reverse (replicate k dot) ≡ replicate k dot
reverse-replicate zero = refl
reverse-replicate (suc k) =
    reverse-cons dot (replicate k dot)
    ∙ ap (λ xs. xs ++ (dot ∷ [])) (reverse-replicate k)
    ∙ replicate-end k

-- What is taken off is a run of dots, and no dot stands first in what is left.
drop_dots-splits : (xs : Bytes) → (k : ℕ) × (xs ≡ replicate k dot ++ drop_dots xs)
unfolding drop_dots
drop_dots-splits [] = (0, refl)
drop_dots-splits (c ∷ cs) = elim (Bool-cases (c == dot)) [
  | inl is ↦
      let (k, rest) = drop_dots-splits cs in
      (suc k, rw is (rw ((==_iff c dot).0 is) (ap (◌∷◌ dot) rest)))
  | inr other ↦ (0, rw other refl)
]

drop_dots-head : (xs : Bytes) (c : ℕ) (cs : Bytes) → drop_dots xs ≡ c ∷ cs → (c == dot) ≡ false
unfolding drop_dots
drop_dots-head [] c cs h = cc
drop_dots-head (x ∷ xs) c cs h = elim (Bool-cases (x == dot)) [
  | inl is ↦ drop_dots-head xs c cs (rw is at h)
  | inr other ↦
      (let same : x ≡ c = (let h' : x ∷ xs ≡ c ∷ cs = rw other at h in cc) in rw (sym same) other)
]

-- A name that is an IP address, once a pair of brackets and a zone are taken off, gives the empty host
-- name. Any other name is the host name followed by dots alone, and the host name does not end in a
-- dot.
pub hostname_in_sni-cases :
    (parse_ip : Bytes → Bool) (name : Bytes)
    → (parse_ip (without_zone (unbracket name)) ≡ true → hostname_in_sni parse_ip name ≡ [])
      × (parse_ip (without_zone (unbracket name)) ≡ false
          → ((k : ℕ) × (name ≡ hostname_in_sni parse_ip name ++ replicate k b'.'))
            × ((front : Bytes) (c : ℕ)
                → hostname_in_sni parse_ip name ≡ front ++ (c ∷ [])
                → (c == b'.') ≡ false))
unfolding hostname_in_sni
hostname_in_sni-cases parse_ip name =
    let (k, split) = drop_dots-splits (reverse name) in
    let d = drop_dots (reverse name) in
    let back : name ≡ reverse d ++ replicate k dot =
      sym (reverse-reverse name)
      ∙ ap reverse split
      ∙ reverse-append (replicate k dot) d
      ∙ ap (λ xs. reverse d ++ xs) (reverse-replicate k) in
    (
      λ ip. rw ip,
      λ named. (
        rw named (k, back),
        λ front c ends.
            let ends' : reverse d ≡ front ++ (c ∷ []) = rw named at ends in
            drop_dots-head (reverse name) c (reverse front)
              (sym (reverse-reverse d) ∙ ap reverse ends' ∙ reverse-append front (c ∷ [])),
      ),
    )
