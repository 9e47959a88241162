-- ===== src/HalfConn/Effect.antt =====
-- What decrypt does to the half it is called on.
use mathlib.Core.Path.{ap, subst}
use utls.Base.{
  ℕ, ◌+◌, ◌-◌, ◌%◌, ◌==◌, ltb, Bool, true, false, not, ◌&&◌, ◌||◌, if◌then◌else◌, [], Bytes, length,
  take, drop, Option, none, some, Run, ok, ◌>>=◌, >>=-returned, ok-injective, ◌≡◌, refl, sym, ◌∙◌,
}
use utls.HalfConn.{
  Algorithms, Failure, alert_bad_record_mac, version_tls13, Cipher, unset, stream, aead, cbc_mode,
  unknown, HalfConn, is_unset, inc_seq, explicit_nonce_len,
}
use utls.HalfConn.Encrypt.{Header, nonce_or, with_iv, the_mac}
use utls.HalfConn.Padding.{extract_padding, round_up}
use utls.HalfConn.Decrypt.{
  Content, content, no_content, inner_content, Opened, opened, refused, open_record, open_aead,
  open_cbc, additional_data, Decrypted, received, rejected, check_mac, close_record, decrypt_record,
  accept,
}

module _ (A : Algorithms) where
  -- All but the cipher's state is as it was.
  abbrev pub SameBut : HalfConn A → HalfConn A → Type 0
  SameBut hc hc' = hc' ≡ record hc { cipher = hc'.cipher }

  abbrev pub Keeps : HalfConn A → Opened A → Type 0
  Keeps hc (opened text plain k good hc') = SameBut hc hc'
  Keeps hc (refused f hc') = SameBut hc hc'

  if_Keeps :
      (hc : HalfConn A) (b : Bool) (x y : Opened A)
      → Keeps hc x
      → Keeps hc y
      → Keeps hc (if b then x else y)
  if_Keeps hc true x y p q = p
  if_Keeps hc false x y p q = q

  open_aead-Keeps :
      (a : A.Aead) (hc : HalfConn A) (h : Header) (payload : Bytes) (n : ℕ)
      → Keeps hc (open_aead A a hc h payload n)
  unfolding open_aead
  open_aead-Keeps a hc h payload n = if_Keeps hc (ltb (length payload) n) _ _ refl (
      of_option (
        A.open_sealed a (nonce_or (take n payload) hc.seq) (drop n payload)
          (additional_data A a hc h (drop n payload))))
    where
      of_option :
          (o : Option Bytes)
          → Keeps hc (elim o [
            | none ↦ refused alert_bad_record_mac hc
            | some plaintext ↦ opened (drop n payload) plaintext 0 255 hc
          ])
      of_option none = refl
      of_option (some plaintext) = refl

  returned_Keeps : (hc : HalfConn A) {o o' : Opened A} → Keeps hc o → ok o ≡ ok o' → Keeps hc o'
  returned_Keeps hc keeps same = subst (Keeps hc) (ok-injective same) keeps

  open_cbc-Keeps :
      (c : A.CbcMode) (m : A.Hash) (hc : HalfConn A) (payload : Bytes) (n : ℕ) (o : Opened A)
      → open_cbc A c m hc payload n ≡ ok o
      → Keeps hc o
  unfolding open_cbc
  open_cbc-Keeps c m hc payload n o h =
      let block = A.block_size c in
      tested
        (not (length payload % block == 0)
          || ltb (length payload) (n + round_up (A.size m + 1) block))
        h
    where
      tested :
          (b : Bool)
          → (if b
              then ok (refused alert_bad_record_mac hc)
              else (let out = A.crypt_blocks (with_iv A (take n payload) c) (drop n payload) in
                  extract_padding out.0 >>= λ p.
                  ok (opened out.0 [] p.0 p.1 (record hc { cipher = cbc_mode out.1 }))))
            ≡ ok o
          → Keeps hc o
      tested true h = returned_Keeps hc refl h
      tested false h =
          let out = A.crypt_blocks (with_iv A (take n payload) c) (drop n payload) in
          let (p, _, rest) =
            >>=-returned (extract_padding out.0)
              (λ p. ok (opened out.0 [] p.0 p.1 (record hc { cipher = cbc_mode out.1 }))) h in
          returned_Keeps hc refl rest

  pub open_record-Keeps :
      (hc : HalfConn A) (c : Cipher A) (h : Header) (payload : Bytes) (n : ℕ) (o : Opened A)
      → open_record A (record hc { cipher = c }) h payload n ≡ ok o
      → Keeps (record hc { cipher = c }) o
  unfolding open_record
  open_record-Keeps hc unset h payload n o r = absurd cc
  open_record-Keeps hc unknown h payload n o r = absurd cc
  open_record-Keeps hc (stream s) h payload n o r =
      returned_Keeps (record hc { cipher = stream s }) refl r
  open_record-Keeps hc (aead a) h payload n o r =
      returned_Keeps (record hc { cipher = aead a })
        (open_aead-Keeps a (record hc { cipher = aead a }) h payload n) r
  open_record-Keeps hc (cbc_mode c) h payload n o r =
      let (m, _, rest) =
        >>=-returned (the_mac A hc.mac)
          (λ m. open_cbc A c m (record hc { cipher = cbc_mode c }) payload n) r in
      open_cbc-Keeps c m (record hc { cipher = cbc_mode c }) payload n o rest

  -- The sequence number afterwards.
  abbrev pub Counts : Bytes → Decrypted A → Type 0
  Counts seq (received p t hc') = inc_seq seq ≡ ok hc'.seq
  Counts seq (rejected f hc') = hc'.seq ≡ seq

  if_Counts :
      (seq : Bytes) (b : Bool) (x y : Run (Decrypted A)) (d : Decrypted A)
      → (x ≡ ok d → Counts seq d)
      → (y ≡ ok d → Counts seq d)
      → (if b then x else y) ≡ ok d
      → Counts seq d
  if_Counts seq true x y d p q h = p h
  if_Counts seq false x y d p q h = q h

  rejected_Counts :
      (hc : HalfConn A) (f : Failure) (d : Decrypted A)
      → ok (rejected f hc) ≡ ok d
      → Counts hc.seq d
  rejected_Counts hc f d h = subst (Counts hc.seq) (ok-injective h) refl

  accept-Counts :
      (hc : HalfConn A) (p : Bytes) (t : ℕ) (d : Decrypted A)
      → accept A hc p t ≡ ok d
      → Counts hc.seq d
  unfolding accept
  accept-Counts hc p t d h =
      let (seq, next, same) =
        >>=-returned (inc_seq hc.seq) (λ s. ok (received p t (record hc { seq = s }))) h in
      subst (Counts hc.seq) (ok-injective same) next

  check_mac-Counts :
      (hc : HalfConn A) (o : Option A.Hash) (h : Header) (text plain : Bytes) (k good typ : ℕ)
      (d : Decrypted A)
      → check_mac A (record hc { mac = o }) h text plain k good typ ≡ ok d
      → Counts hc.seq d
  unfolding check_mac
  check_mac-Counts hc none h text plain k good typ d r =
      accept-Counts (record hc { mac = none }) plain typ d r
  check_mac-Counts hc (some m) h text plain k good typ d r =
      let hc' : HalfConn A = record hc { mac = some m } in
      if_Counts hc.seq _ _ _ d (rejected_Counts hc' alert_bad_record_mac d)
        (if_Counts hc.seq _ _ _ d (rejected_Counts hc' alert_bad_record_mac d)
          (accept-Counts hc' (take (length text - A.size m - k) text) typ d))
        r

  close_record-Counts :
      (hc : HalfConn A) (h : Header) (o : Opened A) (d : Decrypted A)
      → Keeps hc o
      → close_record A h o ≡ ok d
      → Counts hc.seq d
  unfolding close_record
  close_record-Counts hc h (refused f hc') d keeps r =
      subst (λ s. Counts s d) (ap (λ (x : HalfConn A). x.seq) keeps) (rejected_Counts hc' f d r)
  close_record-Counts hc h (opened text plain k good hc') d keeps r =
      let (inner, _, rest) = >>=-returned (inner_content hc'.version h.typ plain) _ r in
      subst (λ s. Counts s d) (ap (λ (x : HalfConn A). x.seq) keeps) (of_content inner rest)
    where
      of_content :
          (inner : Content)
          → (elim inner [
            | no_content f ↦ ok (rejected f hc')
            | content plaintext' typ ↦ check_mac A hc' h text plaintext' k good typ
          ])
            ≡ ok d
          → Counts hc'.seq d
      of_content (no_content f) r = rejected_Counts hc' f d r
      of_content (content plain' typ) r = check_mac-Counts hc' hc'.mac h text plain' k good typ d r

  -- The change_cipher_spec records that TLS 1.3 passes on as they are.
  abbrev pub is_ignored : HalfConn A → Header → Bool
  is_ignored hc h = (hc.version == version_tls13) && (h.typ == 20)

  -- What is left once the record is not ignored.
  abbrev pub decrypt_with : HalfConn A → Header → Bytes → ℕ → Run (Decrypted A)
  decrypt_with hc h payload n =
      if is_unset A hc.cipher
      then check_mac A hc h payload payload 0 255 h.typ
      else open_record A hc h payload n >>= close_record A h

  pub decrypt_record-with :
      (hc : HalfConn A) (h : Header) (payload : Bytes)
      → is_ignored hc h ≡ false
      → decrypt_record A hc h payload ≡ (explicit_nonce_len A hc >>= decrypt_with hc h payload)
  unfolding decrypt_record
  decrypt_record-with hc h payload other = rw other refl

  -- Whenever decrypt returns, on a record that is not a change_cipher_spec record of TLS 1.3: if it
  -- rejects the record, the sequence number is as it was; if it returns a plaintext, the number is
  -- the next one.
  pub decrypt_record-Counts :
      (hc : HalfConn A) (h : Header) (payload : Bytes) (d : Decrypted A)
      → is_ignored hc h ≡ false
      → decrypt_record A hc h payload ≡ ok d
      → Counts hc.seq d
  decrypt_record-Counts hc h payload d other r =
      let (n, _, rest) =
        >>=-returned (explicit_nonce_len A hc) (decrypt_with hc h payload)
          (sym (decrypt_record-with hc h payload other) ∙ r) in
      if_Counts hc.seq (is_unset A hc.cipher) _ _ d
        (check_mac-Counts hc hc.mac h payload payload 0 255 h.typ d)
        (λ closes.
          let (o, opens, closed) =
            >>=-returned (open_record A hc h payload n) (close_record A h) closes in
          close_record-Counts hc h o d (open_record-Keeps hc hc.cipher h payload n o opens) closed)
        rest
