-- ===== src/HalfConn/Decrypt.antt =====
-- conn.go: halfConn.decrypt. The record is decrypted in place, so what the caller's slice holds afterwards
-- is not part of the result.
use Prim.Native.Nat.{bit_and}
use utls.Base.{
  ℕ, zero, suc, ◌+◌, ◌-◌, ◌%◌, ◌==◌, ltb, not, ◌&&◌, ◌||◌, [], ◌∷◌, ◌++◌, none, some, Bytes, length,
  take, drop, if◌then◌else◌, Run, ok, panic, ◌>>=◌,
}
use utls.HalfConn.{
  Algorithms, Failure, alert_bad_record_mac, alert_unexpected_message, alert_record_overflow,
  version_tls13, max_plaintext, record_type_change_cipher_spec, record_type_application_data, unset,
  stream, aead, cbc_mode, unknown, HalfConn, is_unset, explicit_nonce_len, tls10_mac, at, inc_seq,
}
use utls.HalfConn.Encrypt.{Header, bytes_of, with_length, nonce_or, with_iv, the_mac}
use utls.HalfConn.Padding.{minus, extract_padding, round_up}

pub data Content : Type 0 where
  content : Bytes → ℕ → Content
  no_content : Failure → Content

-- The loop over the indices below `i`, downwards. It does not run at all over an empty plaintext.
unfoldable pub find_type : Bytes → ℕ → ℕ → Run Content
find_type plaintext typ zero = ok (content plaintext typ)
find_type plaintext typ (suc i) = do
  b ← at plaintext i
  let rest = find_type plaintext typ i
  if not (b == 0)
      then ok (content (take i plaintext) b)
      else if i == 0
      then ok (no_content alert_unexpected_message)
      else rest

-- What TLS 1.3 does with the plaintext.
unfoldable pub inner_content : ℕ → ℕ → Bytes → Run Content
inner_content version typ plaintext =
    if version == version_tls13
    then (if not (typ == record_type_application_data)
        then ok (no_content alert_unexpected_message)
        else if ltb (max_plaintext + 1) (length plaintext)
        then ok (no_content alert_record_overflow)
        else find_type plaintext typ (length plaintext))
    else ok (content plaintext typ)

-- subtle.ConstantTimeCompare
abbrev pub compare_bytes : Bytes → Bytes → ℕ
compare_bytes [] [] = 1
compare_bytes [] (y ∷ ys) = 0
compare_bytes (x ∷ xs) [] = 0
compare_bytes (x ∷ xs) (y ∷ ys) = if x == y then compare_bytes xs ys else 0

module _ (A : Algorithms) where
  pub data Decrypted : Type 0 where
    received : Bytes → ℕ → HalfConn A → Decrypted
    rejected : Failure → HalfConn A → Decrypted

  -- What the switch over the kind of cipher leaves: payload, plaintext, paddingLen and paddingGood.
  pub data Opened : Type 0 where
    opened : Bytes → Bytes → ℕ → ℕ → HalfConn A → Opened
    refused : Failure → HalfConn A → Opened

  abbrev pub additional_data : A.Aead → HalfConn A → Header → Bytes → Bytes
  additional_data a hc h sealed_text =
      if hc.version == version_tls13
      then bytes_of h
      else (hc.seq ++ bytes_of (with_length (minus (length sealed_text) (A.overhead a)) h))

  unfoldable pub open_aead : A.Aead → HalfConn A → Header → Bytes → ℕ → Opened
  open_aead a hc h payload n =
      if ltb (length payload) n
      then refused alert_bad_record_mac hc
      else (let sealed_text = drop n payload in
          elim (A.open_sealed a (nonce_or (take n payload) hc.seq) sealed_text
            (additional_data a hc h sealed_text)) [
              | none ↦ refused alert_bad_record_mac hc
              | some plaintext ↦ opened sealed_text plaintext 0 255 hc
            ])

  unfoldable pub open_cbc : A.CbcMode → A.Hash → HalfConn A → Bytes → ℕ → Run Opened
  open_cbc c m hc payload n =
      let block = A.block_size c in
      if not (length payload % block == 0)
        || ltb (length payload) (n + round_up (A.size m + 1) block)
      then ok (refused alert_bad_record_mac hc)
      else do
        let out = A.crypt_blocks (with_iv A (take n payload) c) (drop n payload)
        padding ← extract_padding out.0
        ok (opened out.0 [] padding.0 padding.1 (record hc { cipher = cbc_mode out.1 }))

  unfoldable pub open_record : HalfConn A → Header → Bytes → ℕ → Run Opened
  open_record hc h payload n = elim hc.cipher [
    | unset ↦ panic
    | stream s ↦
        let out = A.xor_key_stream s payload in
        ok (opened out.0 [] 0 255 (record hc { cipher = stream out.1 }))
    | aead a ↦ ok (open_aead a hc h payload n)
    | cbc_mode c ↦ the_mac A hc.mac >>= λ m. open_cbc c m hc payload n
    | unknown ↦ panic
  ]

  unfoldable pub accept : HalfConn A → Bytes → ℕ → Run Decrypted
  accept hc plaintext typ = do
    seq' ← inc_seq hc.seq
    ok (received plaintext typ (record hc { seq = seq' }))

  unfoldable pub check_mac : HalfConn A → Header → Bytes → Bytes → ℕ → ℕ → ℕ → Run Decrypted
  check_mac hc h payload plaintext padding_len padding_good typ = elim hc.mac [
    | none ↦ accept hc plaintext typ
    | some m ↦
        let mac_size = A.size m in
        let n = length payload - mac_size - padding_len in
        let remote_mac = take mac_size (drop n payload) in
        let local_mac = tls10_mac A m hc.seq (bytes_of (with_length n h)) (take n payload) in
        if ltb (length payload) mac_size
        then ok (rejected alert_bad_record_mac hc)
        else if not (bit_and (compare_bytes local_mac remote_mac) padding_good == 1)
        then ok (rejected alert_bad_record_mac hc)
        else accept hc (take n payload) typ
  ]

  -- What is done with the opened record.
  unfoldable pub close_record : Header → Opened → Run Decrypted
  close_record h (refused f hc) = ok (rejected f hc)
  close_record h (opened payload plaintext padding_len padding_good hc) = do
    inner ← inner_content hc.version h.typ plaintext
    elim inner [
      | no_content f ↦ ok (rejected f hc)
      | content plaintext' typ ↦ check_mac hc h payload plaintext' padding_len padding_good typ
    ]

  unfoldable pub decrypt_record : HalfConn A → Header → Bytes → Run Decrypted
  decrypt_record hc h payload =
      if (hc.version == version_tls13) && (h.typ == record_type_change_cipher_spec)
      then ok (received payload h.typ hc)
      else (do
        n ← explicit_nonce_len A hc
        if is_unset A hc.cipher
            then check_mac hc h payload payload 0 255 h.typ
            else open_record hc h payload n >>= close_record h)

  -- `record[0]` and `record[recordHeaderLen:]` panic on less than a header.
  unfoldable pub decrypt : HalfConn A → Bytes → Run Decrypted
  decrypt hc (t ∷ a ∷ b ∷ c ∷ d ∷ payload) =
      decrypt_record hc (record { typ = t; major = a; minor = b; high = c; low = d }) payload
  decrypt hc (t ∷ a ∷ b ∷ c ∷ []) = panic
  decrypt hc (t ∷ a ∷ b ∷ []) = panic
  decrypt hc (t ∷ a ∷ []) = panic
  decrypt hc (t ∷ []) = panic
  decrypt hc [] = panic
