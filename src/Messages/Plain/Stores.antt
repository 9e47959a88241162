-- ===== src/Messages/Plain/Stores.antt =====
-- The marshals that fill a slice by hand, against the wire forms.
use utls.Base.{
  ℕ, ◌+◌, ◌-◌, List, [], ◌∷◌, ◌++◌, Bytes, length, length-append, append_assoc, append-nil, ok, ◌≡◌,
  refl, ap, ◌∙◌, arith,
}
use utls.Base.Buffer.{store, copy_at}
use utls.Extension.Wire.{hi, lo, vec16}
use utls.Extension.Read.Loops.{zeros, zeros-add}
use utls.ClientHello.{u24}
use utls.Session.Psk.Wire.{store_on, copy_on}
use utls.Messages.Built.{handshake}
use utls.Messages.Plain.{
  key_exchange_marshal, ticket_marshal, octets, store_certificates, certificate_marshal,
}

-- opaque<0..2^24-1>, one after the other
abbrev pub certificates_wire : List Bytes → Bytes
certificates_wire [] = []
certificates_wire (x ∷ xs) = u24 (length x) ++ (x ++ certificates_wire xs)

pub length-certificates_wire : (xs : List Bytes) → length (certificates_wire xs) ≡ octets xs
length-certificates_wire [] = refl
length-certificates_wire (x ∷ xs) =
    omega (arith, length-certificates_wire xs, length-append x (certificates_wire xs))

-- A store over all or a part of fresh room, and a copy over the rest of it.
store_fresh : (vs : Bytes) (n m : ℕ) → n ≡ length vs + m → store (zeros n) 0 vs ≡ ok (vs ++ zeros m)
store_fresh vs n m h =
    rw (append-nil (zeros n), append-nil (zeros m)) at (store_on [] vs [] 0 n m refl h)

copy_fresh :
    (pre vs : Bytes) (k n : ℕ)
    → k ≡ length pre
    → n ≡ length vs
    → copy_at (pre ++ zeros n) k vs ≡ ok (pre ++ vs)
copy_fresh pre vs k n hk hn =
    rw (append-nil (zeros n), append-nil (pre ++ vs)) at (copy_on pre vs [] k n 0 hk (omega arith))

pub key_exchange_wire :
    (kind : ℕ) (key : Bytes) → key_exchange_marshal kind key ≡ ok (handshake kind key)
unfolding key_exchange_marshal
key_exchange_wire kind key =
    let n = length key in
    rw (store_fresh (kind ∷ u24 n) (n + 4) n (omega arith), key_exchange_marshal)
      (copy_fresh (kind ∷ u24 n) key 4 n refl refl)

pub ticket_wire : (t : Bytes) → ticket_marshal t ≡ ok (handshake 4 (0 ∷ 0 ∷ 0 ∷ 0 ∷ vec16 t))
unfolding ticket_marshal
ticket_wire t =
    let n = length t in
    let h : Bytes = 4 ∷ u24 (6 + n) in
    let z : Bytes = 0 ∷ 0 ∷ 0 ∷ 0 ∷ [] in
    let l : Bytes = hi n ∷ lo n ∷ [] in
    let e : 6 + n ≡ length (0 ∷ 0 ∷ 0 ∷ 0 ∷ vec16 t) = omega arith in
    let room : zeros (6 + n) ≡ z ++ zeros (2 + n) =
      ap zeros (let s : 6 + n ≡ 4 + (2 + n) = omega arith in s) ∙ zeros-add 4 (2 + n) in
    let stored =
      rw (append-nil (zeros (2 + n)), append-nil (zeros n)) at
        (store_on (h ++ z) l [] 8 (2 + n) n refl (omega arith)) in
    rw (store_fresh h (10 + n) (6 + n) (omega arith), ticket_marshal, room)
      (rw stored (
        copy_fresh (h ++ z ++ l) t 10 n refl refl ∙ ap (λ k. ok (4 ∷ (u24 k ++ (z ++ vec16 t)))) e))

store_certificates-zeros :
    (xs : List Bytes) (pre : Bytes) (k n : ℕ)
    → k ≡ length pre
    → n ≡ octets xs
    → store_certificates (pre ++ zeros n) k xs ≡ ok (pre ++ certificates_wire xs)
unfolding store_certificates
store_certificates-zeros [] pre k n hk hn = rw hn refl
store_certificates-zeros (x ∷ xs) pre k n hk hn =
    let h = u24 (length x) in
    let m = octets xs in
    let s₁ = length-append pre h in
    let s₂ = length-append (pre ++ h) x in
    let more =
      store_certificates-zeros xs (pre ++ h ++ x) (k + 3 + length x) m (omega arith) refl in
    let stored =
      rw (append-nil (zeros n), append-nil (zeros (length x + m))) at
        (store_on pre h [] k n (length x + m) hk (omega arith)) in
    let copied =
      rw (append-nil (zeros (length x + m)), append-nil (zeros m)) at
        (copy_on (pre ++ h) x [] (k + 3) (length x + m) m (omega arith) refl) in
    let grouped : pre ++ h ++ x ++ certificates_wire xs
        ≡ pre ++ (h ++ (x ++ certificates_wire xs)) =
      simp append_assoc in
    rw stored (rw copied (more ∙ ap ok grouped))

pub certificate_wire :
    (xs : List Bytes)
    → certificate_marshal xs
      ≡ ok (handshake 11 (u24 (length (certificates_wire xs)) ++ certificates_wire xs))
unfolding certificate_marshal
certificate_wire xs =
    let n = octets xs in
    let h : Bytes = 11 ∷ u24 (3 + n) in
    let size = length-certificates_wire xs in
    let total : length (u24 (length (certificates_wire xs)) ++ certificates_wire xs) ≡ 3 + n =
      omega arith in
    let less : 3 + n - 3 ≡ n = omega arith in
    let stored =
      rw (append-nil (zeros (3 + n)), append-nil (zeros n)) at
        (store_on h (u24 n) [] 4 (3 + n) n refl (omega arith)) in
    rw (store_fresh h (4 + (3 + n)) (3 + n) (omega arith), certificate_marshal, less)
      (rw (stored, total, size) (store_certificates-zeros xs (h ++ u24 n) 7 n refl refl))
