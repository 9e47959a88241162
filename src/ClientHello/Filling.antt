-- ===== src/ClientHello/Filling.antt =====
-- The buffered writer of a ClientHello while what is written is no more than its size: nothing is
-- lost, reordered or added.
use utls.Base.{
  ℕ, ◌+◌, ◌-◌, ◌≤◌, ◌<◌, ◌==◌, Bool, true, false, leb, List, [], ◌∷◌, ◌++◌, Bytes, length,
  length-append, take, take-append, ◌≡◌, inl, inr, refl, sym, ap, arith, ok, ◌>>=◌, append_assoc,
  append-nil, Bool-cases, ==_iff,
}
use utls.Extension.{Extension}
use utls.Extension.Wire.{encoding}
use utls.Extension.Read.{len, read}
use utls.Extension.Read.Loops.{zeros, zeros-add}
use utls.Extension.Read.Correct.{IsEncodable, host_of, read-encoding}
use utls.Extension.Read.Refuses.{length-encoding}
use utls.ClientHello.Buffered.{
  Writer, writer, settle, take_in, fill, pass, write, write_all, written, read_from, read_flushed,
}

abbrev pub concat : List Bytes → Bytes
concat [] = []
concat (p ∷ ps) = p ++ concat ps

le→leb : (a b : ℕ) → a ≤ b → leb a b ≡ true
le→leb a b h = ground arith

write-fits :
    (p b : Bytes) (n : ℕ) → length b + length p ≤ n → write p (writer n [] b) ≡ writer n [] (b ++ p)
unfolding write
write-fits p b n h = rw (le→leb (length p) (n - length b) (omega arith))

pub write_all-fits :
    (ps : List Bytes) (b : Bytes) (n : ℕ)
    → length b + length (concat ps) ≤ n
    → write_all ps (writer n [] b) ≡ writer n [] (b ++ concat ps)
write_all-fits [] b n h = ap (writer n []) (sym (append-nil b))
write_all-fits (p ∷ ps) b n h =
    let sum = length-append p (concat ps) in
    rw (write-fits p b n (omega arith)) (
      rw (append_assoc b p (concat ps)) at
        (write_all-fits ps (b ++ p) n (let e = length-append b p in omega arith)))

-- The writer holds `c`, in its buffer or, when `c` is of its size, flushed.
pub data Holds (n : ℕ) (c : Bytes) : Writer → Type 0 where
  in_buffer : Holds n c (writer n [] c)
  all_flushed : length c ≡ n → Holds n c (writer n c [])

pub Holds-contents : (n : ℕ) (c : Bytes) (w : Writer) → Holds n c w → w.flushed ++ w.buffered ≡ c
Holds-contents n c _ in_buffer = refl
Holds-contents n c _ (all_flushed h) = append-nil c

settle-Holds : (n : ℕ) (c : Bytes) → length c ≤ n → Holds n c (settle (writer n [] c))
settle-Holds n c fits = elim (Bool-cases (n - length c == 0)) [
  | inl full ↦ rw full (all_flushed (let e = (==_iff (n - length c) 0).0 full in omega arith))
  | inr room ↦ rw room in_buffer
]

module _ (ip : Bytes → Bool) (spare : ℕ → ℕ) (e : Extension) (h : IsEncodable e) where
  taken :
      (post : Bytes)
      → take (len ip e) (encoding (host_of ip e) e ++ post) ≡ encoding (host_of ip e) e
  taken post = rw (length-encoding ip e h) at (take-append (encoding (host_of ip e) e) post)

  read_room :
      (m k : ℕ) (place : Bytes → Writer)
      → m ≡ len ip e + k
      → (read ip e (zeros m) >>= λ r. ok (take_in place r))
        ≡ ok (written (place (encoding (host_of ip e) e)))
  read_room m k place q =
      rw (q, zeros-add (len ip e) k) (rw (read-encoding ip e (zeros k) h) (rw (taken (zeros k))))

  -- An empty extension after the writer was filled.
  read_full :
      (n : ℕ) (c : Bytes)
      → length c ≡ n
      → 0 < n
      → len ip e ≡ 0
      → (w : Writer) × (read_flushed ip spare e (writer n c []) ≡ ok (written w))
        × Holds n (c ++ encoding (host_of ip e) e) w
  read_full n c full pos empty =
      let room = spare (length c) in
      let read_it = read_room room room (pass (writer n c [])) (omega arith) in
      let more = length-append c (encoding (host_of ip e) e) in
      let sized = length-encoding ip e h in (_, read_it, all_flushed (omega arith))

  -- An extension that fits is read into the free part of the buffer.
  read_free :
      (n : ℕ) (c : Bytes)
      → length c < n
      → 0 < length c
      → length c + len ip e ≤ n
      → (w : Writer) × (read_flushed ip spare e (writer n [] c) ≡ ok (written w))
        × Holds n (c ++ encoding (host_of ip e) e) w
  read_free n c room pos fits =
      let k = n - length c - len ip e in
      let split : n - length c ≡ len ip e + k = omega arith in
      let some_buffered : (length c == 0) ≡ false = ground arith in
      let more = length-append c (encoding (host_of ip e) e) in
      let sized = length-encoding ip e h in
      (
        _,
        rw some_buffered (read_room (n - length c) k (fill (writer n [] c)) split),
        settle-Holds n (c ++ encoding (host_of ip e) e) (omega arith),
      )

  -- ReadFrom of an extension that fits puts its wire form behind what the writer holds.
  pub read_from-Holds :
      (n : ℕ) (c : Bytes) (w : Writer)
      → Holds n c w
      → 0 < length c
      → length c + len ip e ≤ n
      → (w' : Writer) × (read_from ip spare e w ≡ ok (written w'))
        × Holds n (c ++ encoding (host_of ip e) e) w'
  unfolding read_from
  read_from-Holds n c _ (all_flushed full) pos fits =
      let open_room : (n - 0 == 0) ≡ false = ground arith in
      rw open_room (read_full n c full (omega arith) (omega arith))
  read_from-Holds n c _ in_buffer pos fits = elim (Bool-cases (n - length c == 0)) [
    | inl full ↦ rw full (
        read_full n c (let q = (==_iff (n - length c) 0).0 full in omega arith) (omega arith)
          (let q = (==_iff (n - length c) 0).0 full in omega arith))
    | inr room ↦ rw room (read_free n c (ground arith) pos fits)
  ]
