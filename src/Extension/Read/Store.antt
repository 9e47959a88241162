-- ===== src/Extension/Read/Store.antt =====
-- u_tls_extensions.go: what the Read methods return, and the loops that fill a part of the buffer.
-- Read fills a buffer and answers with a count and an error; the model also returns the buffer as it
-- is afterwards. A store out of range panics.
use utls.Base.{
  ℕ, ◌+◌, ltb, leb, List, [], ◌∷◌, Bytes, length, if◌then◌else◌, Run, ok, check, ◌>>=◌, ◌>>◌,
}
use utls.Base.Buffer.{store, copy_at}
use utls.Extension.{KeyShare}
use utls.Extension.Wire.{hi, lo}

-- io.EOF is the error of a Read that is complete.
pub data ReadError : Type 0 where
  eof short_buffer : ReadError
  too_many_compression_methods too_many_versions too_many_psk_modes : ReadError
  trust_anchors_too_long : ReadError
  empty_psk invalid_binder_size : ReadError

pub record ReadResult : Type 0 where
  pub count : ℕ
  pub error : ReadError
  pub buffer : Bytes

abbrev pub answer : ℕ → ReadError → Bytes → Run ReadResult
answer n e b = ok (record { count = n; error = e; buffer = b })

-- `if len(b) < e.Len() { return 0, io.ErrShortBuffer }; …; return e.Len(), io.EOF`
abbrev pub with_room : Bytes → ℕ → Run Bytes → Run ReadResult
with_room b n filled = if ltb (length b) n then answer 0 short_buffer b else filled >>= answer n eof

-- `for i, x := range xs { b[off+2*i] = byte(x >> 8); b[off+1+2*i] = byte(x) }`
unfoldable pub store_u16s : Bytes → ℕ → List ℕ → Run Bytes
store_u16s b off [] = ok b
store_u16s b off (x ∷ xs) = do b' ← store b off (hi x ∷ lo x ∷ []); store_u16s b' (off + 2) xs

-- The loops over strings: a length byte, the string, and on with the rest of the buffer. The slice
-- `b[1+l:]` wants the string to fit.
unfoldable pub store_strings : Bytes → ℕ → List Bytes → Run Bytes
store_strings b off [] = ok b
store_strings b off (s ∷ ss) = do
  b₁ ← store b off (lo (length s) ∷ [])
  b₂ ← copy_at b₁ (off + 1) s
  check (leb (off + 1 + length s) (length b₂))
  store_strings b₂ (off + (1 + length s)) ss

unfoldable pub store_shares : Bytes → ℕ → List KeyShare → Run Bytes
store_shares b off [] = ok b
store_shares b off (k ∷ ks) = do
  b₁ ← store b off (hi k.group ∷ lo k.group ∷ hi (length k.key) ∷ lo (length k.key) ∷ [])
  b₂ ← copy_at b₁ (off + 4) k.key
  store_shares b₂ (off + (4 + length k.key)) ks

-- `bLen += 1 + len(s)` over the strings, and keySharesLen.
abbrev pub strings_len : List Bytes → ℕ
strings_len [] = 0
strings_len (s ∷ ss) = 1 + length s + strings_len ss

abbrev pub key_shares_len : List KeyShare → ℕ
key_shares_len [] = 0
key_shares_len (k ∷ ks) = 4 + length k.key + key_shares_len ks
