-- ===== src/Extension/Read/Sized.antt =====
-- The Read methods that check a size first, and those of key_share, trust_anchors and server_name.
use utls.Base.{
  ℕ, ◌+◌, ◌-◌, ◌*◌, ◌≤◌, List, [], ◌∷◌, ◌++◌, Bytes, length, ◌≡◌, refl, sym, ap, ◌∙◌, arith, ok,
  ◌>>=◌, le→ltb,
}
use utls.Base.Buffer.{put, store, copy_at}
use utls.Extension.{KeyShare, TrustAnchors}
use utls.Extension.Wire.{
  hi, lo, u16s, vec8, vec16, vec8s, shares, framed, length-u16s, sni_wire, anchor_list,
}
use utls.Extension.Read.Loops.{
  zeros, zeros-split, store_first, copy_at-zeros, store_u16s-zeros, store_shares-zeros,
  length-vec8s, length-shares,
}
use utls.Extension.Read.Encodes.{
  zeros_room, with_room-zeros, framed-vec16, framed-vec8, copy_if_any, six_zeros, strings_filled,
}
use utls.Extension.Read.Store.{eof, answer, store_u16s, strings_len, key_shares_len}
use utls.Extension.Read.Each.{
  sni_len, sni_read, compress_cert_rest, compress_cert_read, key_share_read, psk_modes_read,
  versions_read, trust_anchors_read,
}

abbrev five : ℕ → ℕ → Bytes
five id n = hi id ∷ lo id ∷ hi (n + 1) ∷ lo (n + 1) ∷ lo n ∷ []

-- The list behind a header of five bytes.
u16s_behind_five :
    (id : ℕ) (xs : List ℕ) (post : Bytes)
    → store_u16s (five id (2 * length xs) ++ (zeros (2 * length xs) ++ post)) 5 xs
      ≡ ok (framed id (vec8 (u16s xs)) ++ post)
u16s_behind_five id xs post =
    let n = 2 * length xs in
    store_u16s-zeros xs (five id n) post 5 n refl refl
    ∙ ap ok (framed-vec8 id n (n + 1) (u16s xs) post (sym (length-u16s xs)) refl)

compress_cert_rest-zeros :
    (xs : List ℕ) (n : ℕ) (post : Bytes)
    → n ≤ 255
    → n ≡ 2 * length xs
    → compress_cert_rest xs n (hi 27 ∷ lo 27 ∷ [] ++ (zeros (3 + n) ++ post))
      ≡ answer (4 + 1 + n) eof (framed 27 (vec8 (u16s xs)) ++ post)
unfolding compress_cert_rest
compress_cert_rest-zeros xs n post h e =
    let id : Bytes = hi 27 ∷ lo 27 ∷ [] in
    let lengths : Bytes = hi (n + 1) ∷ lo (n + 1) ∷ lo n ∷ [] in
    rw (le→ltb 255 n h) (
      rw (store_first id lengths post 2 (3 + n) n refl refl)
        (rw e (rw (u16s_behind_five 27 xs post))))

pub compress_cert_read-zeros :
    (xs : List ℕ) (post : Bytes)
    → 2 * length xs ≤ 255
    → compress_cert_read xs (zeros (4 + 1 + 2 * length xs) ++ post)
      ≡ answer (4 + 1 + 2 * length xs) eof (framed 27 (vec8 (u16s xs)) ++ post)
unfolding compress_cert_read
compress_cert_read-zeros xs post h =
    let n = 2 * length xs in
    let e : 5 + n ≡ 2 + (3 + n) = omega arith in
    rw (zeros_room (5 + n) post) (
      rw (store_first [] (hi 27 ∷ lo 27 ∷ []) post 0 (5 + n) (3 + n) refl e)
        (compress_cert_rest-zeros xs n post h refl))

pub versions_read-zeros :
    (xs : List ℕ) (post : Bytes)
    → 2 * length xs ≤ 255
    → versions_read xs (zeros (4 + 1 + 2 * length xs) ++ post)
      ≡ answer (4 + 1 + 2 * length xs) eof (framed 43 (vec8 (u16s xs)) ++ post)
unfolding versions_read
versions_read-zeros xs post h =
    let n = 2 * length xs in
    rw (zeros_room (5 + n) post) (
      rw (le→ltb 255 n h) (
        rw (store_first [] (five 43 n) post 0 (5 + n) n refl refl)
          (rw (u16s_behind_five 43 xs post))))

pub psk_modes_read-zeros :
    (ms post : Bytes)
    → length ms ≤ 255
    → psk_modes_read ms (zeros (4 + 1 + length ms) ++ post)
      ≡ answer (4 + 1 + length ms) eof (framed 45 (vec8 ms) ++ post)
unfolding psk_modes_read
psk_modes_read-zeros ms post h =
    let n = length ms in
    rw (zeros_room (5 + n) post) (
      rw (le→ltb 255 n h) (
        rw (store_first [] (five 45 n) post 0 (5 + n) n refl refl) (
          rw (copy_if_any (five 45 n) ms post 5 refl)
            (ap (λ b. answer (5 + n) eof b) (framed-vec8 45 n (n + 1) ms post refl refl)))))

pub key_share_read-zeros :
    (ks : List KeyShare) (post : Bytes)
    → key_share_read ks (zeros (4 + 2 + key_shares_len ks) ++ post)
      ≡ answer (4 + 2 + key_shares_len ks) eof (framed 51 (vec16 (shares ks)) ++ post)
unfolding key_share_read
key_share_read-zeros ks post =
    let n = key_shares_len ks in
    let h : Bytes = hi 51 ∷ lo 51 ∷ hi (n + 2) ∷ lo (n + 2) ∷ hi n ∷ lo n ∷ [] in
    with_room-zeros (6 + n) post _ _ (
      rw (store_first [] h post 0 (6 + n) n refl refl) (
        store_shares-zeros ks h post 6 n refl refl
        ∙ ap ok (framed-vec16 51 n (n + 2) (shares ks) post (sym (length-shares ks)) refl)))

-- The length of the list that is written is that of the canonical one, so that Len holds for both.
pub trust_anchors_read-zeros :
    (t : TrustAnchors) (post : Bytes)
    → strings_len (anchor_list t) ≡ strings_len t.trust_anchors
    → strings_len t.trust_anchors ≤ 65533
    → trust_anchors_read t (zeros (6 + strings_len t.trust_anchors) ++ post)
      ≡ answer
          (6 + strings_len t.trust_anchors)
          eof
          (framed 0xca34 (vec16 (vec8s (anchor_list t))) ++ post)
unfolding trust_anchors_read store put
trust_anchors_read-zeros t post same fits =
    let n = strings_len t.trust_anchors in
    let m = strings_len (anchor_list t) in
    rw (zeros_room (6 + n) post) (
      rw (le→ltb 65533 (6 + n - 6) (omega arith)) (
        rw (six_zeros n post) (
          rw (strings_filled 0xca34 n (anchor_list t) post (sym same)) (
            ap (λ b. answer (6 + n) eof b)
              (framed-vec16 0xca34 m (m + 2) (vec8s (anchor_list t)) post
                (sym (length-vec8s (anchor_list t))) refl)))))

-- The frame of an SNI extension, around a host name of `n` bytes.
framed_sni :
    (n : ℕ) (host post : Bytes)
    → n ≡ length host
    → hi 0
        ∷ lo 0
        ∷ hi (n + 5)
        ∷ lo (n + 5)
        ∷ hi (n + 3)
        ∷ lo (n + 3)
        ∷ 0
        ∷ hi n
        ∷ lo n
        ∷ (host ++ post)
      ≡ framed 0 (vec16 (0 ∷ vec16 host)) ++ post
framed_sni n host post e =
    let inner : n + 3 ≡ length (0 ∷ vec16 host) = omega arith in
    let outer : n + 5 ≡ length (vec16 (0 ∷ vec16 host)) = omega arith in rw (outer, inner, e)

sni_filled :
    (n : ℕ) (host post : Bytes)
    → n ≡ length host
    → (store
          (zeros (9 + n) ++ post)
          0
          (hi 0 ∷ lo 0 ∷ hi (n + 5) ∷ lo (n + 5) ∷ hi (n + 3) ∷ lo (n + 3) ∷ [])
        >>= λ b₁. store b₁ 7 (hi n ∷ lo n ∷ []) >>= λ b₂. copy_at b₂ 9 host)
      ≡ ok (framed 0 (vec16 (0 ∷ vec16 host)) ++ post)
sni_filled n host post e =
    let h : Bytes = hi 0 ∷ lo 0 ∷ hi (n + 5) ∷ lo (n + 5) ∷ hi (n + 3) ∷ lo (n + 3) ∷ [] in
    let named : Bytes = h ++ 0 ∷ [] in
    let split : zeros (3 + n) ++ post ≡ 0 ∷ (zeros (2 + n) ++ post) =
      zeros-split (3 + n) 1 (2 + n) post (omega arith) in
    rw (store_first [] h post 0 (9 + n) (3 + n) refl (omega arith)) (
      rw split (
        rw (store_first named (hi n ∷ lo n ∷ []) post 7 (2 + n) n refl refl) (
          copy_at-zeros (named ++ hi n ∷ lo n ∷ []) host post 9 n refl e
          ∙ ap ok (framed_sni n host post e))))

pub sni_read-zeros :
    (host post : Bytes)
    → sni_read host (zeros (sni_len host) ++ post)
      ≡ answer (sni_len host) eof (sni_wire host ++ post)
unfolding sni_read
sni_read-zeros [] post = refl
sni_read-zeros (c ∷ cs) post =
    let n = length (c ∷ cs) in with_room-zeros (9 + n) post _ _ (sni_filled n (c ∷ cs) post refl)
