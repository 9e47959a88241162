-- ===== src/Extension/Read/Encodes.antt =====
-- Each Read method on a fresh buffer writes the wire form of its extension.
use utls.Base.{
  ℕ, ◌+◌, ◌*◌, false, ltb, List, [], ◌∷◌, ◌++◌, Bytes, length, length-append, ◌≡◌, refl, sym, ap,
  ◌∙◌, arith, Run, ok, ◌>>=◌, length-replicate, le→ltb, lt→ltb, if◌then◌else◌, Bool-cases, inl, inr,
}
use utls.Base.Buffer.{put, store, copy_at}
use utls.Extension.{PaddingExtension}
use utls.Extension.Wire.{hi, lo, u16s, vec8, vec16, vec8s, framed, length-u16s}
use utls.Extension.Read.Loops.{
  zeros, zeros-split, store_first, store-zeros, copy_at-zeros, store_u16s-zeros,
  store_strings-zeros, length-vec8s,
}
use utls.Extension.Read.Store.{eof, answer, with_room, store_u16s, store_strings, strings_len}
use utls.Extension.Read.Each.{
  header16, u16_list_read, strings_read, id_read, opaque_read, padding_len_of, padding_read,
}

-- A fresh buffer of `n` bytes with `post` behind has room for `n`.
abbrev pub zero_byte : ℕ
zero_byte = 0

pub zeros_room : (n : ℕ) (post : Bytes) → ltb (length (zeros n ++ post)) n ≡ false
zeros_room n post =
    le→ltb _ _ (omega (arith, length-append (zeros n) post, length-replicate n zero_byte))

pub with_room-zeros :
    (n : ℕ) (post b' : Bytes) (m : Run Bytes)
    → m ≡ ok b'
    → with_room (zeros n ++ post) n m ≡ answer n eof b'
with_room-zeros n post b' m e = rw (zeros_room n post) (rw e)

-- The two lengths of a body that is a vector with a length of two bytes.
pub framed-vec16 :
    (id n k : ℕ) (v post : Bytes)
    → n ≡ length v
    → k ≡ n + 2
    → hi id ∷ lo id ∷ hi k ∷ lo k ∷ hi n ∷ lo n ∷ (v ++ post) ≡ framed id (vec16 v) ++ post
framed-vec16 id n k v post e f = let g : k ≡ length (vec16 v) = omega arith in rw (g, e)

pub framed_body :
    (id n : ℕ) (v post : Bytes)
    → n ≡ length v
    → hi id ∷ lo id ∷ hi n ∷ lo n ∷ (v ++ post) ≡ framed id v ++ post
framed_body id n v post e = rw e

pub u16_list_read-zeros :
    (id : ℕ) (xs : List ℕ) (post : Bytes)
    → u16_list_read id xs (zeros (6 + 2 * length xs) ++ post)
      ≡ answer (6 + 2 * length xs) eof (framed id (vec16 (u16s xs)) ++ post)
unfolding u16_list_read
u16_list_read-zeros id xs post =
    let n = 2 * length xs in
    let h = header16 id n in
    let first : store (zeros (6 + n) ++ post) 0 h ≡ ok (h ++ (zeros n ++ post)) =
      store_first [] h post 0 (6 + n) n refl refl in
    let second : store_u16s (h ++ (zeros n ++ post)) 6 xs ≡ ok (h ++ (u16s xs ++ post)) =
      store_u16s-zeros xs h post 6 n refl refl in
    with_room-zeros (6 + n) post _ _ (
      rw first (
        second
        ∙ ap ok (framed-vec16 id n (2 + n) (u16s xs) post (sym (length-u16s xs)) (omega arith))))

abbrev pub six : ℕ → Bytes
six id = hi id ∷ lo id ∷ 0 ∷ 0 ∷ 0 ∷ 0 ∷ []

-- The strings are written first, then the list length at 4, then the extension length at 2.
pub strings_filled :
    (id n : ℕ) (ss : List Bytes) (post : Bytes)
    → n ≡ strings_len ss
    → store_strings (six id ++ (zeros n ++ post)) 6 ss ≡ ok (six id ++ (vec8s ss ++ post))
strings_filled id n ss post e = store_strings-zeros ss (six id) post 6 n refl e

pub six_zeros :
    (n : ℕ) (post : Bytes) → zeros (6 + n) ++ post ≡ 0 ∷ 0 ∷ 0 ∷ 0 ∷ 0 ∷ 0 ∷ (zeros n ++ post)
six_zeros n post = zeros-split (6 + n) 6 n post refl

pub strings_read-zeros :
    (id : ℕ) (ss : List Bytes) (post : Bytes)
    → strings_read id ss (zeros (6 + strings_len ss) ++ post)
      ≡ answer (6 + strings_len ss) eof (framed id (vec16 (vec8s ss)) ++ post)
unfolding strings_read store put
strings_read-zeros id ss post =
    let n = strings_len ss in
    with_room-zeros (6 + n) post _ _ (
      rw (six_zeros n post) (
        rw (strings_filled id n ss post refl)
          (ap ok (framed-vec16 id n (n + 2) (vec8s ss) post (sym (length-vec8s ss)) refl))))

pub id_read-zeros :
    (id : ℕ) (post : Bytes) → id_read id (zeros 4 ++ post) ≡ answer 4 eof (framed id [] ++ post)
unfolding id_read store put
id_read-zeros id post = with_room-zeros 4 post _ _ refl

-- `if len(body) > 0 { copy(b[k:], body) }`
pub copy_if_any :
    (h body post : Bytes) (k : ℕ)
    → k ≡ length h
    → (if ltb 0 (length body)
        then copy_at (h ++ (zeros (length body) ++ post)) k body
        else ok (h ++ (zeros (length body) ++ post)))
      ≡ ok (h ++ (body ++ post))
copy_if_any h [] post k e = refl
copy_if_any h (c ∷ cs) post k e =
    rw (lt→ltb 0 (length (c ∷ cs)) (omega arith))
      (copy_at-zeros h (c ∷ cs) post k (length (c ∷ cs)) e refl)

pub opaque_read-zeros :
    (id : ℕ) (body post : Bytes)
    → opaque_read id body (zeros (4 + length body) ++ post)
      ≡ answer (4 + length body) eof (framed id body ++ post)
unfolding opaque_read
opaque_read-zeros id body post =
    let n = length body in
    let h : Bytes = hi id ∷ lo id ∷ hi n ∷ lo n ∷ [] in
    with_room-zeros (4 + n) post _ _
      (rw (store_first [] h post 0 (4 + n) n refl refl) (copy_if_any h body post 4 refl))

pub padding_read-zeros :
    (p : PaddingExtension) (post : Bytes)
    → padding_read p (zeros (padding_len_of p) ++ post)
      ≡ answer
          (padding_len_of p)
          eof
          ((if p.will_pad then framed 21 (zeros p.padding_len) else []) ++ post)
unfolding padding_read
padding_read-zeros p post = elim (Bool-cases p.will_pad) [
  | inl y ↦
      let n = p.padding_len in
      let h : Bytes = hi 21 ∷ lo 21 ∷ hi n ∷ lo n ∷ [] in
      rw y (
        with_room-zeros (4 + n) post _ _ (
          store_first [] h post 0 (4 + n) n refl refl
          ∙ ap ok (framed_body 21 n (zeros n) post (sym (length-replicate n zero_byte)))))
  | inr skipped ↦ rw skipped
]

-- An extension whose body is a vector with a length of one byte.
pub framed-vec8 :
    (id n k : ℕ) (v post : Bytes)
    → n ≡ length v
    → k ≡ n + 1
    → hi id ∷ lo id ∷ hi k ∷ lo k ∷ lo n ∷ (v ++ post) ≡ framed id (vec8 v) ++ post
framed-vec8 id n k v post e f = let g : k ≡ length (vec8 v) = omega arith in rw (g, e)

pub points_read-zeros :
    (id k : ℕ) (ps post : Bytes)
    → k ≡ length ps + 1
    → with_room (zeros (5 + length ps) ++ post) (5 + length ps) (
        store (zeros (5 + length ps) ++ post) 0 (hi id ∷ lo id ∷ hi k ∷ lo k ∷ lo (length ps) ∷ [])
        >>= λ b₁. store b₁ 5 ps)
      ≡ answer (5 + length ps) eof (framed id (vec8 ps) ++ post)
points_read-zeros id k ps post e =
    let n = length ps in
    let h : Bytes = hi id ∷ lo id ∷ hi k ∷ lo k ∷ lo n ∷ [] in
    with_room-zeros (5 + n) post _ _ (
      rw (store_first [] h post 0 (5 + n) n refl refl)
        (store-zeros h ps post 5 n refl refl ∙ ap ok (framed-vec8 id n k ps post refl e)))
