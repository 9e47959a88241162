-- ===== src/Messages/Plain/RoundTrip.antt =====
-- Marshal and then unmarshal, for the messages that are written by hand.
use utls.Base.{
  ℕ, zero, suc, ◌+◌, ◌%◌, ◌^◌, ◌≤◌, ◌<◌, true, false, ◌==◌, ltb, le→ltb, ==_iff, List, [], ◌∷◌,
  ◌++◌, some, Bytes, length, drop, take-append, drop-append, ok, ◌≡◌, refl, ap, arith,
}
use utls.ClientHello.{u24}
use utls.Cryptobyte.Loops.{done}
use utls.Messages.Built.{handshake}
use utls.Messages.Plain.{
  u24_at, minus32, key_exchange_marshal, client_key_exchange_marshal, server_key_exchange_unmarshal,
  client_key_exchange_unmarshal, ticket_marshal, ticket_unmarshal, octets, certificate_marshal,
  count_certificates, take_certificates, certificate_unmarshal,
}
use utls.Messages.Plain.Stores.{
  certificates_wire, length-certificates_wire, key_exchange_wire, ticket_wire, certificate_wire,
}

-- A key that fits the message is marshalled by both key exchange messages without a panic, and each
-- unmarshal takes the bytes back to it.
pub key_exchange_round_trip :
    (key : Bytes)
    → length key < 2 ^ 24
    → ((m : Bytes) × (key_exchange_marshal 12 key ≡ ok m)
        × (server_key_exchange_unmarshal m ≡ some key))
      × ((m : Bytes) × (client_key_exchange_marshal key ≡ ok m)
          × (client_key_exchange_unmarshal m ≡ some key))
unfolding server_key_exchange_unmarshal client_key_exchange_unmarshal
key_exchange_round_trip key fits =
    ((_, key_exchange_wire 12 key, ground arith), (_, key_exchange_wire 16 key, ground arith))

-- A TLS 1.2 session ticket of less than 65536 bytes is marshalled without a panic, and unmarshal takes the
-- bytes back to it.
pub ticket_round_trip :
    (t : Bytes)
    → length t < 65536
    → (m : Bytes) × (ticket_marshal t ≡ ok m) × (ticket_unmarshal m ≡ some t)
unfolding ticket_unmarshal
ticket_round_trip t fits = (_, ticket_wire t, ground arith)

-- The last one is not empty.
abbrev pub LastFull : List Bytes → Type 0
LastFull [] = Unit
LastFull (x ∷ []) = 0 < length x
LastFull (x ∷ y ∷ xs) = LastFull (y ∷ xs)

LastFull-tail : (x : Bytes) (xs : List Bytes) → LastFull (x ∷ xs) → LastFull xs
LastFull-tail x [] h = tt
LastFull-tail x (y ∷ xs) h = h

long_enough : (x : Bytes) (xs : List Bytes) → LastFull (x ∷ xs) → 4 ≤ 3 + length x + octets xs
long_enough x [] h = omega arith
long_enough x (y ∷ xs) h = omega arith

drop_first : (x rest : Bytes) → drop (3 + length x) (u24 (length x) ++ (x ++ rest)) ≡ rest
drop_first x rest =
    rw (let e : 3 + length x ≡ suc (suc (suc (length x))) = omega arith in e) (drop-append x rest)

count_certificates-wire :
    (xs : List Bytes) (fuel n : ℕ)
    → n ≡ octets xs
    → n ≤ fuel
    → n < 2 ^ 24
    → LastFull xs
    → count_certificates fuel n (certificates_wire xs) ≡ done (length xs)
unfolding count_certificates
count_certificates-wire [] fuel n size enough fits full = rw size refl
count_certificates-wire (x ∷ xs) fuel zero size enough fits full = absurd (omega arith)
count_certificates-wire (x ∷ xs) zero (suc n) size enough fits full = absurd (omega arith)
count_certificates-wire (x ∷ xs) (suc fuel) (suc n) size enough fits full =
    let d = certificates_wire (x ∷ xs) in
    let k : u24_at 0 d ≡ length x = omega arith in
    let total = length-certificates_wire (x ∷ xs) in
    let long = long_enough x xs full in
    let h₁ : ltb (length d) 4 ≡ false = le→ltb _ _ (omega arith) in
    let h₂ : ltb (length d % 2 ^ 32) (3 + length x) ≡ false = le→ltb _ _ (omega arith) in
    let left : minus32 (suc n) (3 + length x) ≡ octets xs = omega arith in
    let rest : drop (3 + length x) d ≡ certificates_wire xs = drop_first x (certificates_wire xs) in
    rw (count_certificates, k, h₁, h₂, left, rest)
      (rw
        (count_certificates-wire xs fuel (octets xs) refl (omega arith) (omega arith)
          (LastFull-tail x xs full))
        refl)

take_certificates-wire :
    (xs : List Bytes)
    → octets xs < 2 ^ 24
    → take_certificates (length xs) (certificates_wire xs) ≡ xs
unfolding take_certificates
take_certificates-wire [] fits = refl
take_certificates-wire (x ∷ xs) fits =
    let d = certificates_wire (x ∷ xs) in
    let k : u24_at 0 d ≡ length x = omega arith in
    rw
      (
        take_certificates,
        k,
        drop_first x (certificates_wire xs),
        take-append x (certificates_wire xs),
      )
      (ap (◌∷◌ x) (take_certificates-wire xs (omega arith)))

-- A list of certificates that fits the message, and whose last one is not empty, is marshalled without a
-- panic, and unmarshal takes the bytes back to the list; empty certificates before the last one are kept.
pub certificate_round_trip :
    (xs : List Bytes)
    → 3 + octets xs < 2 ^ 24
    → LastFull xs
    → (m : Bytes) × (certificate_marshal xs ≡ ok m) × (certificate_unmarshal m ≡ done xs)
unfolding certificate_unmarshal
certificate_round_trip xs fits full =
    let body = certificates_wire xs in
    let n = length body in
    let m = handshake 11 (u24 n ++ body) in
    let size = length-certificates_wire xs in
    let long : ltb (length m) 7 ≡ false = le→ltb _ _ (omega arith) in
    let k : u24_at 4 m ≡ n = omega arith in
    let same : (length m % 2 ^ 32 == (n + 7) % 2 ^ 32) ≡ true = (==_iff _ _).1 (omega arith) in
    (
      m,
      certificate_wire xs,
      rw (certificate_unmarshal, long, k, same)
          (rw (count_certificates-wire xs (length m) n size (omega arith) (omega arith) full)
            (ap done (take_certificates-wire xs (omega arith)))),
    )
