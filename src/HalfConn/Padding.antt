-- ===== src/HalfConn/Padding.antt =====
-- conn.go: extractPadding, which is written without a branch on the bytes, and roundUp. A `uint` has
-- 64 bits.
pub mod Bits
pub mod Check
pub mod Correct
pub mod Blocks
use Prim.Native.Nat.{bit_and, bit_xor}
use utls.Base.{
  ℕ, zero, suc, ◌+◌, ◌-◌, ◌*◌, ◌/◌, ◌%◌, ◌^◌, ◌==◌, ltb, leb, [], ◌∷◌, Bytes, length, if◌then◌else◌,
  Run, ok, ◌>>=◌,
}
use utls.HalfConn.{at}

-- `a - b` of two uints
abbrev pub minus : ℕ → ℕ → ℕ
minus a b = (a % 2 ^ 64 + (2 ^ 64 - b % 2 ^ 64)) % 2 ^ 64

-- `byte(int32(^t) >> 31)`: the bit 31 of the complement, in every bit of a byte
abbrev pub mask : ℕ → ℕ
mask t = if (2 ^ 64 - 1 - t) / 2 ^ 31 % 2 == 1 then 255 else 0

-- `good &^ x` of two bytes
abbrev pub and_not : ℕ → ℕ → ℕ
and_not good x = bit_and good (255 - x)

-- `mask&paddingLen ^ mask&b`
abbrev pub difference : ℕ → ℕ → ℕ → ℕ
difference m padding_len b = bit_xor (bit_and m padding_len) (bit_and m b)

-- The loop from `i` on, over `n` more indices.
unfoldable pub check_bytes : Bytes → ℕ → ℕ → ℕ → ℕ → Run ℕ
check_bytes payload padding_len zero i good = ok good
check_bytes payload padding_len (suc n) i good = do
  b ← at payload (length payload - 1 - i)
  check_bytes payload padding_len n (suc i)
      (and_not good (difference (mask (minus padding_len i)) padding_len b))

abbrev pub shift_and : ℕ → ℕ → ℕ
shift_and k good = bit_and good (good * 2 ^ k % 256)

-- `int8(good) >> 7`, as a byte
abbrev pub sign : ℕ → ℕ
sign good = if leb 128 good then 255 else 0

abbrev pub replicate_bits : ℕ → ℕ
replicate_bits good = sign (shift_and 1 (shift_and 2 (shift_and 4 good)))

unfoldable pub extract_padding : Bytes → Run (ℕ × ℕ)
extract_padding [] = ok (0, 0)
extract_padding (x ∷ xs) = do
  let payload = x ∷ xs
  padding_len ← at payload (length payload - 1)
  let t = minus (length payload - 1) padding_len
  let to_check = if ltb (length payload) 256 then length payload else 256
  checked ← check_bytes payload padding_len to_check 0 (mask t)
  let good = replicate_bits checked
  ok (bit_and padding_len good + 1, good)

abbrev pub round_up : ℕ → ℕ → ℕ
round_up a b = a + (b - a % b) % b
