-- ===== src/Cryptobyte/Reads.antt =====
-- Reads of what was just written.
use utls.Base.{
  ℕ, ◌+◌, ◌*◌, ◌/◌, ◌%◌, ◌^◌, ◌<◌, le→ltb, ◌++◌, some, Bytes, length, length-append, drop-append,
  ◌≡◌, arith,
}
use utls.Cryptobyte.{Reader, prefixed-append}
use utls.ClientHello.{u24}
use utls.Session.Psk.{u32}

pub skip-append :
    (c : Reader) (n : ℕ) (v rest : Bytes) → n ≡ length v → c.skip n (v ++ rest) ≡ some rest
skip-append c n v rest e = rw (
  c.skip_lem n (v ++ rest),
  e,
  le→ltb (length (v ++ rest)) (length v) (omega (arith, length-append v rest)),
  drop-append v rest,
)

module _ (c : Reader) where
  pub read-u32 :
      (x : ℕ) (rest : Bytes) → x < 2 ^ 32 → c.read_uint32 (u32 x ++ rest) ≡ some (x, rest)
  read-u32 x rest h =
      let e : x / 16777216 % 256 * 16777216
            + x / 65536 % 256 * 65536
            + x / 256 % 256 * 256
            + x % 256
          ≡ x =
        omega arith in
      rw e at
        (c.read_uint32_cons (x / 16777216 % 256) (x / 65536 % 256) (x / 256 % 256) (x % 256) rest)

  pub read-vec24 :
      (v rest : Bytes)
      → length v < 2 ^ 24
      → c.read_uint24_length_prefixed (u24 (length v) ++ (v ++ rest)) ≡ some (v, rest)
  read-vec24 v rest h =
      let n = length v in
      let e : n / 65536 % 256 * 65536 + n / 256 % 256 * 256 + n % 256 ≡ n = omega arith in
      rw
        (c.read_uint24_length_prefixed_cons (n / 65536 % 256) (n / 256 % 256) (n % 256) (v ++ rest))
        (prefixed-append _ v rest e)
