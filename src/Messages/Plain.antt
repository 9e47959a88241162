-- ===== src/Messages/Plain.antt =====
-- handshake_messages.go: the messages whose marshal fills a slice by hand: the certificate, the two key
-- exchanges, the TLS 1.2 session ticket, and those without a body. A marshal may panic on an index; it
-- returns no error. In unmarshal, an index is read only where the slice is long enough.
pub mod Stores
pub mod RoundTrip
use utls.Base.{
  ℕ, zero, suc, ◌+◌, ◌-◌, ◌*◌, ◌^◌, ◌%◌, Bool, true, false, not, ◌||◌, ◌==◌, ltb, List, [], ◌∷◌,
  Option, none, some, Bytes, length, take, drop, if◌then◌else◌, Run, ok, ◌>>=◌,
}
use utls.Base.Buffer.{store, copy_at}
use utls.Extension.Wire.{hi, lo}
use utls.Extension.Read.Loops.{zeros}
use utls.ClientHello.{u24}
use utls.Cryptobyte.Loops.{Outcome, done, refused, out_of_fuel}

-- `msg[i]`
abbrev pub byte_at : ℕ → Bytes → ℕ
byte_at i [] = 0
byte_at zero (b ∷ s) = b
byte_at (suc i) (b ∷ s) = byte_at i s

-- `uint32(msg[i])<<16 | uint32(msg[i+1])<<8 | uint32(msg[i+2])`, on bytes
abbrev pub u24_at : ℕ → Bytes → ℕ
u24_at i msg = byte_at i msg * 65536 + byte_at (suc i) msg * 256 + byte_at (suc (suc i)) msg

abbrev pub minus32 : ℕ → ℕ → ℕ
minus32 n k = (n + 2 ^ 32 - k) % 2 ^ 32

-- helloRequestMsg, endOfEarlyDataMsg and serverHelloDoneMsg, by their types
unfoldable pub bare_marshal : ℕ → Run Bytes
bare_marshal kind = store (zeros 4) 0 (kind ∷ [])

abbrev pub bare_unmarshal : Bytes → Bool
bare_unmarshal msg = length msg == 4

-- serverKeyExchangeMsg, and clientKeyExchangeMsg, whose marshal is the same code for another type
unfoldable pub key_exchange_marshal : ℕ → Bytes → Run Bytes
key_exchange_marshal kind key = do
  x ← store (zeros (length key + 4)) 0 (kind ∷ u24 (length key))
  copy_at x 4 key

abbrev pub client_key_exchange_marshal : Bytes → Run Bytes
client_key_exchange_marshal = key_exchange_marshal 16

unfoldable pub server_key_exchange_unmarshal : Bytes → Option Bytes
server_key_exchange_unmarshal msg = if ltb (length msg) 4 then none else some (drop 4 msg)

unfoldable pub client_key_exchange_unmarshal : Bytes → Option Bytes
client_key_exchange_unmarshal msg =
    if ltb (length msg) 4
    then none
    else if u24_at 1 msg == length msg - 4
    then some (drop 4 msg)
    else none

-- newSessionTicketMsg: the lifetime, four bytes, is left at 0.
unfoldable pub ticket_marshal : Bytes → Run Bytes
ticket_marshal ticket = do
  x ← store (zeros (10 + length ticket)) 0 (4 ∷ u24 (6 + length ticket))
  x₁ ← store x 8 (hi (length ticket) ∷ lo (length ticket) ∷ [])
  copy_at x₁ 10 ticket

unfoldable pub ticket_unmarshal : Bytes → Option Bytes
ticket_unmarshal msg =
    if ltb (length msg) 10
    then none
    else if not (minus32 (length msg % 2 ^ 32) 4 == u24_at 1 msg)
    then none
    else if not (length msg - 10 == byte_at 8 msg * 256 + byte_at 9 msg)
    then none
    else some (drop 10 msg)

-- certificateMsg
abbrev pub octets : List Bytes → ℕ
octets [] = 0
octets (x ∷ xs) = 3 + length x + octets xs

unfoldable pub store_certificates : Bytes → ℕ → List Bytes → Run Bytes
store_certificates b off [] = ok b
store_certificates b off (x ∷ xs) = do
  b₁ ← store b off (u24 (length x))
  b₂ ← copy_at b₁ (off + 3) x
  store_certificates b₂ (off + 3 + length x) xs

unfoldable pub certificate_marshal : List Bytes → Run Bytes
certificate_marshal certificates = do
  let n = 3 + octets certificates
  x ← store (zeros (4 + n)) 0 (11 ∷ u24 n)
  x₁ ← store x 4 (u24 (n - 3))
  store_certificates x₁ 7 certificates

abbrev pub one_more : Outcome ℕ → Outcome ℕ
one_more (done m) = done (suc m)
one_more refused = refused
one_more out_of_fuel = out_of_fuel

-- `for certsLen > 0 { … }`, which counts the certificates in `d`
unfoldable pub count_certificates : ℕ → ℕ → Bytes → Outcome ℕ
count_certificates fuel zero d = done 0
count_certificates zero (suc n) d = out_of_fuel
count_certificates (suc fuel) (suc n) d =
    let k = u24_at 0 d in
    let rest = count_certificates fuel (minus32 (suc n) (3 + k)) (drop (3 + k) d) in
    if ltb (length d) 4 || ltb (length d % 2 ^ 32) (3 + k) then refused else one_more rest

-- The second loop, which takes that many certificates.
unfoldable pub take_certificates : ℕ → Bytes → List Bytes
take_certificates zero d = []
take_certificates (suc m) d =
    take (u24_at 0 d) (drop 3 d) ∷ take_certificates m (drop (3 + u24_at 0 d) d)

abbrev pub taken : Bytes → Outcome ℕ → Outcome (List Bytes)
taken d (done m) = done (take_certificates m d)
taken d refused = refused
taken d out_of_fuel = out_of_fuel

unfoldable pub certificate_unmarshal : Bytes → Outcome (List Bytes)
certificate_unmarshal msg =
    if ltb (length msg) 7
    then refused
    else if not (length msg % 2 ^ 32 == (u24_at 4 msg + 7) % 2 ^ 32)
    then refused
    else taken (drop 7 msg) (count_certificates (length msg) (u24_at 4 msg) (drop 7 msg))
