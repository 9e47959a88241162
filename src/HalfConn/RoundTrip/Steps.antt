-- ===== src/HalfConn/RoundTrip/Steps.antt =====
-- The calls that encrypt and decrypt share, on what they are used for.
use mathlib.Core.Path.{ap}
use utls.Base.{
  ℕ, zero, suc, ◌-◌, ◌==◌, ltb, Bool, true, false, not, ◌&&◌, if◌then◌else◌, le→ltb, [], ◌∷◌, ◌++◌,
  Bytes, IsByte, All, length, take, drop, replicate, length-append, take-append, drop-append,
  length-replicate, Option, some, ok, ◌>>=◌, ◌≡◌, ◌≢◌, refl, ◌∙◌, arith,
}
use utls.Base.Buffer.{copy}
use utls.Extension.Wire.{hi, lo}
use utls.HalfConn.{Algorithms, version_tls13, HalfConn, tls10_mac, inc_seq}
use utls.HalfConn.Peers.{Laws, Linked}
use utls.HalfConn.Encrypt.{
  Header, bytes_of, with_length, sent, explicit_nonce, is_cbc, finish, encrypt,
}
use utls.HalfConn.Decrypt.{
  content, inner_content, compare_bytes, received, check_mac, decrypt_record, decrypt, accept,
}

-- A reader that always gives as many bytes as it is asked for.
abbrev pub Gives : (ℕ → Option Bytes) → Type 0
Gives rand = (n : ℕ) → (bs : Bytes) × (rand n ≡ some bs) × (length bs ≡ n)

pub compare_bytes_self : (x : Bytes) → compare_bytes x x ≡ 1
compare_bytes_self [] = refl
compare_bytes_self (b ∷ x) =
    let same : (b == b) ≡ true = ground arith in rw same (compare_bytes_self x)

length-copy : (b src : Bytes) → length (copy b src) ≡ length b
length-copy [] src = refl
length-copy (x ∷ b) [] = refl
length-copy (x ∷ b) (v ∷ src) = ap suc (length-copy b src)

abbrev Nonce : ℕ → Option Bytes → Type 0
Nonce n o = (bs : Bytes) × (o ≡ some bs) × (length bs ≡ n)

if_both :
    (P : Option Bytes → Type 0) (c : Bool) {x y : Option Bytes} → P x → P y → P (if c then x else y)
if_both P true p q = p
if_both P false p q = q

-- The explicit nonce is there, and as long as it has to be.
pub explicit_nonce_lem :
    (A : Algorithms) (rand : ℕ → Option Bytes) (hc : HalfConn A) (n : ℕ)
    → Gives rand
    → (nonce : Bytes) × (explicit_nonce A rand hc n ≡ some nonce) × (length nonce ≡ n)
unfolding explicit_nonce
explicit_nonce_lem A rand hc zero gives = ([], refl, refl)
explicit_nonce_lem A rand hc (suc n) gives =
    let positive : ltb 0 (suc n) ≡ true = ground arith in
    let zeros = replicate (suc n) 0 in
    let filled : Nonce (suc n) (some (copy zeros hc.seq)) =
      (copy zeros hc.seq, refl, length-copy zeros hc.seq ∙ length-replicate (suc n) 0) in
    rw positive
      (if_both (Nonce (suc n)) (not (is_cbc A hc.cipher) && ltb (suc n) 16) filled (gives (suc n)))

pub explicit_nonce_none :
    (A : Algorithms) (rand : ℕ → Option Bytes) (hc : HalfConn A)
    → explicit_nonce A rand hc 0 ≡ some []
unfolding explicit_nonce
explicit_nonce_none A rand hc = refl

pub not_ignored :
    (version typ : ℕ)
    → version ≢ version_tls13
    → ((version == version_tls13) && (typ == 20)) ≡ false
not_ignored version typ old =
    let other : (version == version_tls13) ≡ false = ground arith in rw other refl

pub inner_content-old :
    (version typ : ℕ) (plaintext : Bytes)
    → version ≢ version_tls13
    → inner_content version typ plaintext ≡ ok (content plaintext typ)
unfolding inner_content
inner_content-old version typ plaintext old =
    let other : (version == version_tls13) ≡ false = ground arith in rw other refl

-- The header of a record with `n` bytes behind it.
abbrev pub Fits : ℕ → Header → Type 0
Fits n h = (h.high ≡ hi n) × (h.low ≡ lo n)

pub Fits-bytes_of :
    (n : ℕ) (h : Header)
    → Fits n h
    → (k : ℕ) → bytes_of (with_length n (with_length k h)) ≡ bytes_of h
Fits-bytes_of n h fits k = rw (fits.0, fits.1) refl

pub decrypt-bytes_of :
    (A : Algorithms) (hc : HalfConn A) (h : Header) (body : Bytes)
    → decrypt A hc (bytes_of h ++ body) ≡ decrypt_record A hc h body
unfolding decrypt
decrypt-bytes_of A hc h body = refl

take_behind :
    (text mac padding : Bytes)
    → take (length mac) (drop (length text) (text ++ (mac ++ padding))) ≡ mac
take_behind text mac padding = rw (drop-append text (mac ++ padding)) (take-append mac padding)

-- A MAC behind the text, and any number of bytes of padding behind that.
pub check_mac_lem :
    (A : Algorithms) (hc : HalfConn A) (h : Header) (m : A.Hash) (text mac padding plain : Bytes)
    (typ k : ℕ)
    → hc.mac ≡ some m
    → Fits (length text) h
    → mac ≡ tls10_mac A m hc.seq (bytes_of h) text
    → length mac ≡ A.size m
    → check_mac A hc (with_length k h) (text ++ (mac ++ padding)) plain (length padding) 255 typ
      ≡ accept A hc text typ
unfolding check_mac
check_mac_lem A hc h m text mac padding plain typ k has fits is size =
    let total = length-append text (mac ++ padding) in
    let behind = length-append mac padding in
    let n : length (text ++ (mac ++ padding)) - A.size m - length padding ≡ length text =
      omega (arith, total, behind, size) in
    let long : ltb (length (text ++ (mac ++ padding))) (A.size m) ≡ false =
      le→ltb (length (text ++ (mac ++ padding))) (A.size m) (omega (arith, total, behind, size)) in
    rw
      (
        has,
        n,
        long,
        Fits-bytes_of (length text) h fits k,
        take-append text (mac ++ padding),
        ← size,
        take_behind text mac padding,
        ← is,
        compare_bytes_self mac,
      )
      refl

module _ (A : Algorithms) where
  pub accept_lem :
      (hc : HalfConn A) (text : Bytes) (typ : ℕ) (seq : Bytes)
      → inc_seq hc.seq ≡ ok seq
      → accept A hc text typ ≡ ok (received text typ (record hc { seq = seq }))
  unfolding accept
  accept_lem hc text typ seq next =
      ap (λ t. t >>= λ s. ok (received text typ (record hc { seq = s }))) next

  pub finish_lem :
      (hc : HalfConn A) (h : Header) (body seq : Bytes)
      → inc_seq hc.seq ≡ ok seq
      → finish A hc h body
        ≡ ok (sent (bytes_of (with_length (length body) h) ++ body) (record hc { seq = seq }))
  unfolding finish
  finish_lem hc h body seq next =
      ap
        (λ t. t >>= λ s.
          ok (sent (bytes_of (with_length (length body) h) ++ body) (record hc { seq = s })))
        next

module _ (A : Algorithms) (L : Laws A) where
  pub length-tls10_mac :
      (m : A.Hash) (seq header payload : Bytes)
      → length (tls10_mac A m seq header payload) ≡ A.size m
  unfolding tls10_mac
  length-tls10_mac m seq header payload = L.length-digest m (seq ++ (header ++ payload))

  pub tls10_mac-IsByte :
      (m : A.Hash) (seq header payload : Bytes) → All IsByte (tls10_mac A m seq header payload)
  unfolding tls10_mac
  tls10_mac-IsByte m seq header payload = L.digest-IsByte m (seq ++ (header ++ payload))

  -- The record that `w` sends is received by `r`, and the two stay in step, with `seq` next.
  pub data Delivered (rand : ℕ → Option Bytes) (w r : HalfConn A) (h : Header) (payload seq : Bytes)
      : Type 0 where
    delivered :
        (wire : Bytes) (w' r' : HalfConn A)
        → encrypt A rand w h payload ≡ ok (sent wire w')
        → decrypt A r wire ≡ ok (received payload h.typ r')
        → Linked A L w' r'
        → w'.seq ≡ seq
        → Delivered rand w r h payload seq
