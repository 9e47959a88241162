-- ===== src/Extension/Read/Loops.antt =====
-- The loops of the Read methods, over a part of a buffer that has room for what they write: they
-- replace that part by the wire form and leave the rest.
use utls.Base.{
  ℕ, zero, suc, ◌+◌, ◌*◌, ◌≤◌, List, [], ◌∷◌, ◌++◌, Bytes, length, length-append, ◌≡◌, refl, ap,
  ◌∙◌, arith, ok, leb, true, append_assoc, replicate, length-replicate,
}
use utls.Base.Buffer.{store, copy_at, store-append, copy_at-append}
use utls.Extension.{KeyShare}
use utls.Extension.Wire.{hi, lo, u16s, vec8s, shares}
use utls.Extension.Read.Store.{store_u16s, store_strings, store_shares, strings_len, key_shares_len}

abbrev pub zeros : ℕ → Bytes
zeros n = replicate n 0

pub zeros-add : (m n : ℕ) → zeros (m + n) ≡ zeros m ++ zeros n
zeros-add zero n = ap zeros (let e : 0 + n ≡ n = omega arith in e)
zeros-add (suc m) n =
    let e : suc m + n ≡ suc (m + n) = omega arith in ap zeros e ∙ ap (◌∷◌ 0) (zeros-add m n)

-- A store over the first bytes of a fresh part, `pre` being what stands before it.
pub store-zeros :
    (pre vs post : Bytes) (k n : ℕ)
    → k ≡ length pre
    → n ≡ length vs
    → store (pre ++ (zeros n ++ post)) k vs ≡ ok (pre ++ (vs ++ post))
store-zeros pre vs post k n hk hn =
    rw hk (store-append pre (zeros n) vs post (length-replicate n 0 ∙ hn))

pub copy_at-zeros :
    (pre vs post : Bytes) (k n : ℕ)
    → k ≡ length pre
    → n ≡ length vs
    → copy_at (pre ++ (zeros n ++ post)) k vs ≡ ok (pre ++ (vs ++ post))
copy_at-zeros pre vs post k n hk hn =
    rw hk (copy_at-append pre (zeros n) vs post (length-replicate n 0 ∙ hn))

pub zeros-split :
    (n a b : ℕ) (post : Bytes) → n ≡ a + b → zeros n ++ post ≡ zeros a ++ (zeros b ++ post)
zeros-split n a b post e = rw (e, zeros-add a b) (append_assoc (zeros a) (zeros b) post)

-- A store over the first `a` of `n` zeros.
pub store_first :
    (pre vs post : Bytes) (k n b : ℕ)
    → k ≡ length pre
    → n ≡ length vs + b
    → store (pre ++ (zeros n ++ post)) k vs ≡ ok (pre ++ (vs ++ (zeros b ++ post)))
store_first pre vs post k n b hk hn =
    rw (zeros-split n (length vs) b post hn)
      (store-zeros pre vs (zeros b ++ post) k (length vs) hk refl)

pub copy_first :
    (pre vs post : Bytes) (k n b : ℕ)
    → k ≡ length pre
    → n ≡ length vs + b
    → copy_at (pre ++ (zeros n ++ post)) k vs ≡ ok (pre ++ (vs ++ (zeros b ++ post)))
copy_first pre vs post k n b hk hn =
    rw (zeros-split n (length vs) b post hn)
      (copy_at-zeros pre vs (zeros b ++ post) k (length vs) hk refl)

pub store_u16s-zeros :
    (xs : List ℕ) (pre post : Bytes) (k n : ℕ)
    → k ≡ length pre
    → n ≡ 2 * length xs
    → store_u16s (pre ++ (zeros n ++ post)) k xs ≡ ok (pre ++ (u16s xs ++ post))
unfolding store_u16s
store_u16s-zeros [] pre post k n hk hn = rw hn
store_u16s-zeros (x ∷ xs) pre post k n hk hn =
    let head : Bytes = hi x ∷ lo x ∷ [] in
    let m = 2 * length xs in
    let more =
      store_u16s-zeros xs (pre ++ head) post (k + 2) m (omega (arith, length-append pre head))
        refl in
    rw (store_first pre head post k n m hk (omega arith)) (
      rw (append_assoc pre head (zeros m ++ post), append_assoc pre head (u16s xs ++ post)) at more)

leb-true : (a b : ℕ) → a ≤ b → leb a b ≡ true
leb-true a b h = ground arith

-- `whole` is `pre` with one more element written behind it, in two pieces.
regroup :
    (pre head s v post : Bytes)
    → pre ++ head ++ s ++ (v ++ post) ≡ pre ++ (head ++ (s ++ v ++ post))
regroup pre head s v post = simp append_assoc

copy_next :
    (pre head s post : Bytes) (k n m : ℕ)
    → k ≡ length (pre ++ head)
    → n ≡ length s + m
    → copy_at (pre ++ (head ++ (zeros n ++ post))) k s ≡ ok (pre ++ head ++ s ++ (zeros m ++ post))
copy_next pre head s post k n m hk hn =
    rw (append_assoc pre head (zeros n ++ post), ← append_assoc (pre ++ head) s (zeros m ++ post))
      at (copy_first (pre ++ head) s post k n m hk hn)

pub store_strings-zeros :
    (ss : List Bytes) (pre post : Bytes) (k n : ℕ)
    → k ≡ length pre
    → n ≡ strings_len ss
    → store_strings (pre ++ (zeros n ++ post)) k ss ≡ ok (pre ++ (vec8s ss ++ post))
unfolding store_strings
store_strings-zeros [] pre post k n hk hn = rw hn
store_strings-zeros (s ∷ ss) pre post k n hk hn =
    let head : Bytes = lo (length s) ∷ [] in
    let m = strings_len ss in
    let whole = pre ++ head ++ s in
    let size : length whole ≡ k + 1 + length s =
      omega (arith, length-append (pre ++ head) s, length-append pre head) in
    let room : k + 1 + length s ≤ length (whole ++ (zeros m ++ post)) =
      omega (arith, length-append whole (zeros m ++ post)) in
    let more = store_strings-zeros ss whole post (k + (1 + length s)) m (omega arith) refl in
    rw (store_first pre head post k n (length s + m) hk (omega arith)) (
      rw
        (copy_next pre head s post (k + 1) (length s + m) m (omega (arith, length-append pre head))
          refl)
        (rw (leb-true _ _ room) (more ∙ ap ok (regroup pre head s (vec8s ss) post))))

pub store_shares-zeros :
    (ks : List KeyShare) (pre post : Bytes) (k n : ℕ)
    → k ≡ length pre
    → n ≡ key_shares_len ks
    → store_shares (pre ++ (zeros n ++ post)) k ks ≡ ok (pre ++ (shares ks ++ post))
unfolding store_shares
store_shares-zeros [] pre post k n hk hn = rw hn
store_shares-zeros (s ∷ ks) pre post k n hk hn =
    let len = length s.key in
    let head : Bytes = hi s.group ∷ lo s.group ∷ hi len ∷ lo len ∷ [] in
    let m = key_shares_len ks in
    let whole = pre ++ head ++ s.key in
    let size : length whole ≡ k + (4 + len) =
      omega (arith, length-append (pre ++ head) s.key, length-append pre head) in
    let more = store_shares-zeros ks whole post (k + (4 + len)) m (omega arith) refl in
    rw (store_first pre head post k n (len + m) hk (omega arith)) (
      rw
        (copy_next pre head s.key post (k + 4) (len + m) m (omega (arith, length-append pre head))
          refl)
        (more ∙ ap ok (regroup pre head s.key (shares ks) post)))

pub length-vec8s : (ss : List Bytes) → length (vec8s ss) ≡ strings_len ss
length-vec8s [] = refl
length-vec8s (s ∷ ss) = omega (arith, length-append s (vec8s ss), length-vec8s ss)

pub length-shares : (ks : List KeyShare) → length (shares ks) ≡ key_shares_len ks
length-shares [] = refl
length-shares (k ∷ ks) = omega (arith, length-append k.key (shares ks), length-shares ks)
