-- ===== src/HalfConn/Encrypt.antt =====
-- conn.go: halfConn.encrypt. Its argument `record` is the record header that the callers write into an
-- empty buffer, and the result has the record behind it.
use utls.Base.{
  ℕ, ◌+◌, ◌-◌, ◌%◌, ◌==◌, ltb, Bool, true, false, not, ◌&&◌, [], ◌∷◌, ◌++◌, Option, none, some,
  Bytes, length, replicate, if◌then◌else◌, Run, ok, panic, ◌>>=◌,
}
use utls.Base.Buffer.{copy}
use utls.Extension.Wire.{hi, lo}
use utls.HalfConn.{
  Algorithms, Failure, read_failure, version_tls13, record_type_application_data, Cipher, unset,
  stream, aead, cbc_mode, unknown, HalfConn, is_unset, explicit_nonce_len, tls10_mac, inc_seq,
}

-- The five bytes of a record header.
pub record Header : Type 0 where
  pub typ : ℕ
  pub major : ℕ
  pub minor : ℕ
  pub high : ℕ
  pub low : ℕ

abbrev pub bytes_of : Header → Bytes
bytes_of h = h.typ ∷ h.major ∷ h.minor ∷ h.high ∷ h.low ∷ []

-- `record[3] = byte(n >> 8)` and `record[4] = byte(n)`
abbrev pub with_length : ℕ → Header → Header
with_length n h = record h { high = hi n; low = lo n }

-- `nonce`, or the sequence number if it is empty
abbrev pub nonce_or : Bytes → Bytes → Bytes
nonce_or [] seq = seq
nonce_or (x ∷ nonce) seq = x ∷ nonce

module _ (A : Algorithms) where
  pub data Encrypted : Type 0 where
    sent : Bytes → HalfConn A → Encrypted
    not_sent : Failure → HalfConn A → Encrypted

  abbrev pub is_cbc : Cipher A → Bool
  is_cbc unset = false
  is_cbc (stream s) = false
  is_cbc (aead a) = false
  is_cbc (cbc_mode c) = true
  is_cbc unknown = false

  -- `rand` gives that many bytes, or an error.
  unfoldable pub explicit_nonce : (ℕ → Option Bytes) → HalfConn A → ℕ → Option Bytes
  explicit_nonce rand hc n =
      if ltb 0 n
      then if not (is_cbc hc.cipher) && ltb n 16 then some (copy (replicate n 0) hc.seq) else rand n
      else some []

  -- The end: the length, and the sequence number.
  unfoldable pub finish : HalfConn A → Header → Bytes → Run Encrypted
  finish hc h body = do
    seq' ← inc_seq hc.seq
    ok (sent (bytes_of (with_length (length body) h) ++ body) (record hc { seq = seq' }))

  unfoldable pub encrypt_stream :
      A.Stream → A.Hash → HalfConn A → Header → Bytes → Bytes → Run Encrypted
  encrypt_stream s m hc h nonce payload =
      let mac = tls10_mac A m hc.seq (bytes_of h) payload in
      let first = A.xor_key_stream s payload in
      let second = A.xor_key_stream first.1 mac in
      finish (record hc { cipher = stream second.1 }) h (nonce ++ (first.0 ++ second.0))

  unfoldable pub encrypt_aead : A.Aead → HalfConn A → Header → Bytes → Bytes → Run Encrypted
  encrypt_aead a hc h nonce payload =
      if hc.version == version_tls13
      then (let inner = nonce ++ (payload ++ h.typ ∷ []) in
          let h' =
            with_length (length payload + 1 + A.overhead a)
              (record h { typ = record_type_application_data }) in
          finish hc h' (A.seal a (nonce_or nonce hc.seq) inner (bytes_of h')))
      else finish hc h (nonce ++ A.seal a (nonce_or nonce hc.seq) payload (hc.seq ++ bytes_of h))

  abbrev pub with_iv : Bytes → A.CbcMode → A.CbcMode
  with_iv [] c = c
  with_iv (x ∷ iv) c = A.set_iv (x ∷ iv) c

  -- The padding behind `n` bytes: each byte is the number of bytes less one.
  abbrev pub cbc_padding : ℕ → ℕ → Bytes
  cbc_padding block n =
      let padding_len = block - n % block in replicate padding_len ((padding_len - 1) % 256)

  unfoldable pub encrypt_cbc :
      A.CbcMode → A.Hash → HalfConn A → Header → Bytes → Bytes → Run Encrypted
  encrypt_cbc c m hc h nonce payload =
      let mac = tls10_mac A m hc.seq (bytes_of h) payload in
      let padding = cbc_padding (A.block_size c) (length payload + length mac) in
      let out = A.crypt_blocks (with_iv nonce c) (payload ++ (mac ++ padding)) in
      finish (record hc { cipher = cbc_mode out.1 }) h (nonce ++ out.0)

  -- The MAC, which is nil, so that its first method call panics, or not.
  abbrev pub the_mac : Option A.Hash → Run A.Hash
  the_mac none = panic
  the_mac (some m) = ok m

  unfoldable pub seal_record : HalfConn A → Header → Bytes → Bytes → Run Encrypted
  seal_record hc h nonce payload = elim hc.cipher [
    | unset ↦ panic
    | stream s ↦ the_mac hc.mac >>= λ m. encrypt_stream s m hc h nonce payload
    | aead a ↦ encrypt_aead a hc h nonce payload
    | cbc_mode c ↦ the_mac hc.mac >>= λ m. encrypt_cbc c m hc h nonce payload
    | unknown ↦ panic
  ]

  unfoldable pub encrypt : (ℕ → Option Bytes) → HalfConn A → Header → Bytes → Run Encrypted
  encrypt rand hc h payload =
      if is_unset A hc.cipher then ok (sent (bytes_of h ++ payload) hc) else do
        n ← explicit_nonce_len A hc
        elim (explicit_nonce rand hc n) [
          | none ↦ ok (not_sent read_failure hc)
          | some nonce ↦ seal_record hc h nonce payload
        ]
