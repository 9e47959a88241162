-- ===== src/HalfConn/RoundTrip/Cbc.antt =====
-- The round trip of a record under a block cipher in CBC mode, with an explicit IV or without.
use mathlib.Core.Path.{ap}
use utls.Base.{
  ℕ, suc, ◌+◌, ◌%◌, ◌≤◌, ltb, le→ltb, false, [], ◌++◌, Bytes, IsByte, All, length, replicate,
  take-append, drop-append, length-append, length-replicate, Option, none, some, Run, ok, ◌>>=◌,
  ◌≡◌, ◌≢◌, refl, ◌∙◌, arith,
}
use utls.HalfConn.{
  Algorithms, read_failure, version_tls13, max_plaintext, cbc_mode, HalfConn, explicit_nonce_len,
  tls10_mac, inc_seq,
}
use utls.HalfConn.Encrypt.{
  Header, bytes_of, with_length, Encrypted, not_sent, explicit_nonce, finish, seal_record, encrypt,
  encrypt_cbc, with_iv, cbc_padding,
}
use utls.HalfConn.Decrypt.{opened, open_cbc, check_mac, close_record, open_record, decrypt_record}
use utls.HalfConn.Padding.{extract_padding, round_up}
use utls.HalfConn.Peers.{Laws, by_cbc}
use utls.HalfConn.RoundTrip.Blocks.{iv_len, whole_body, padded_text, blocks, blocks_lem}
use utls.HalfConn.RoundTrip.Steps.{
  Gives, Fits, Delivered, delivered, decrypt-bytes_of, explicit_nonce_lem, accept_lem, finish_lem,
  check_mac_lem, length-tls10_mac, tls10_mac-IsByte, not_ignored, inner_content-old,
}

module _ (A : Algorithms) where
  encrypt-cbc :
      (rand : ℕ → Option Bytes) (w : HalfConn A) (h : Header) (payload nonce : Bytes)
      (c : A.CbcMode) (m : A.Hash)
      → let hc : HalfConn A = record w { cipher = cbc_mode c; mac = some m } in
        explicit_nonce A rand hc (iv_len w.version (A.block_size c)) ≡ some nonce
        → encrypt A rand hc h payload ≡ encrypt_cbc A c m hc h nonce payload
  unfolding encrypt explicit_nonce_len seal_record
  encrypt-cbc rand w h payload nonce c m has =
      let hc : HalfConn A = record w { cipher = cbc_mode c; mac = some m } in
      ap
        (λ (o : Option Bytes). elim o [
          | none ↦ ok (not_sent read_failure hc)
          | some nonce ↦ seal_record A hc h nonce payload
        ])
        has

  decrypt-cbc :
      (r : HalfConn A) (h : Header) (body inner : Bytes) (k : ℕ) (c c' : A.CbcMode) (m : A.Hash)
      → let hc : HalfConn A = record r { cipher = cbc_mode c; mac = some m } in
        let hc' : HalfConn A = record r { cipher = cbc_mode c'; mac = some m } in
        r.version ≢ version_tls13
        → open_cbc A c m hc body (iv_len r.version (A.block_size c))
          ≡ ok (opened inner [] k 255 hc')
        → decrypt_record A hc h body ≡ check_mac A hc' h inner [] k 255 h.typ
  unfolding decrypt_record explicit_nonce_len open_record close_record
  decrypt-cbc r h body inner k c c' m old is_opened =
      rw (not_ignored r.version h.typ old, is_opened, inner_content-old r.version h.typ [] old) refl

  open_cbc_lem :
      (r : HalfConn A) (nonce out inner : Bytes) (k n : ℕ) (c c' : A.CbcMode) (m : A.Hash)
      → length nonce ≡ n
      → length (nonce ++ out) % A.block_size c ≡ 0
      → n + round_up (A.size m + 1) (A.block_size c) ≤ length (nonce ++ out)
      → A.crypt_blocks (with_iv A nonce c) out ≡ (inner, c')
      → extract_padding inner ≡ ok (k, 255)
      → open_cbc A c m r (nonce ++ out) n
        ≡ ok (opened inner [] k 255 (record r { cipher = cbc_mode c' }))
  unfolding open_cbc
  open_cbc_lem r nonce out inner k n c c' m size whole long crypted extracted =
      let enough : ltb (length (nonce ++ out)) (n + round_up (A.size m + 1) (A.block_size c))
          ≡ false =
        le→ltb (length (nonce ++ out)) (n + round_up (A.size m + 1) (A.block_size c)) long in
      rw (whole, enough, ← size, take-append nonce out, drop-append nonce out, crypted)
        (ap (λ t. t >>= λ p. ok (opened inner [] p.0 p.1 (record r { cipher = cbc_mode c' })))
          extracted)

  encrypt_cbc_lem :
      (w : HalfConn A) (h : Header) (payload nonce padding out : Bytes) (c c₁ : A.CbcMode)
      (m : A.Hash)
      → let mac = tls10_mac A m w.seq (bytes_of h) payload in
        cbc_padding A (A.block_size c) (length payload + length mac) ≡ padding
        → A.crypt_blocks (with_iv A nonce c) (payload ++ (mac ++ padding)) ≡ (out, c₁)
        → encrypt_cbc A c m w h nonce payload
          ≡ finish A (record w { cipher = cbc_mode c₁ }) h (nonce ++ out)
  unfolding encrypt_cbc
  encrypt_cbc_lem w h payload nonce padding out c c₁ m is_padding encrypted =
      let mac = tls10_mac A m w.seq (bytes_of h) payload in
      let finished : (Bytes × A.CbcMode) → Run (Encrypted A) =
        λ o. finish A (record w { cipher = cbc_mode o.1 }) h (nonce ++ o.0) in
      ap (λ p. finished (A.crypt_blocks (with_iv A nonce c) (payload ++ (mac ++ p)))) is_padding
      ∙ ap finished encrypted

module _ (A : Algorithms) (L : Laws A) where
  pub Delivered-cbc :
      (rand : ℕ → Option Bytes) (w r : HalfConn A) (h : Header) (payload seq : Bytes)
      (c c' : A.CbcMode) (m : A.Hash)
      → Gives rand
      → w.version ≢ version_tls13
      → L.CbcPeers c c'
      → All IsByte payload
      → length payload ≤ max_plaintext
      → Fits (length payload) h
      → inc_seq w.seq ≡ ok seq
      → Delivered A L rand
          (record w { cipher = cbc_mode c; mac = some m })
          (record r { version = w.version; cipher = cbc_mode c'; mac = some m; seq = w.seq })
          h
          payload
          seq
  Delivered-cbc rand w r h payload seq c c' m gives old peers bytes small fits next =
      let w₁ : HalfConn A = record w { cipher = cbc_mode c; mac = some m } in
      let r₁ : HalfConn A = record r {
        version = w.version;
        cipher = cbc_mode c';
        mac = some m;
        seq = w.seq;
      } in
      let (nonce, has, size) =
        explicit_nonce_lem A rand w₁ (iv_len w.version (A.block_size c)) gives in
      let mac = tls10_mac A m w.seq (bytes_of h) payload in
      let mac_size = length-tls10_mac A L m w.seq (bytes_of h) payload in
      elim (blocks_lem A L c c' m nonce payload mac peers bytes
        (tls10_mac-IsByte A L m w.seq (bytes_of h) payload) small mac_size) [
          | blocks q c₁ c₂ out is_padding encrypted decrypted peers' extracted whole long ↦
              let body = nonce ++ out in
              let h' = with_length (length body) h in
              let r₂ : HalfConn A = record r₁ { cipher = cbc_mode c₂ } in
              let size' = size ∙ ap (iv_len w.version) (L.block_size_peers c c' peers) in
              let total = length-append nonce out in
              delivered (bytes_of h' ++ body) (record w₁ { cipher = cbc_mode c₁; seq = seq })
                (record r₂ { seq = seq })
                (encrypt-cbc A rand w h payload nonce c m has
                  ∙ encrypt_cbc_lem A w₁ h payload nonce (replicate (suc q) q) out c c₁ m is_padding
                      encrypted
                  ∙ finish_lem A (record w₁ { cipher = cbc_mode c₁ }) h body seq next)
                (decrypt-bytes_of A r₁ h' body
                  ∙ decrypt-cbc A (record r { version = w.version; seq = w.seq }) h' body
                      (padded_text payload mac q) (q + 1) c' c₂ m old
                      (open_cbc_lem A r₁ nonce out (padded_text payload mac q) (q + 1)
                        (iv_len w.version (A.block_size c')) c' c₂ m size'
                        (ap (λ t. t % A.block_size c') (total ∙ ap (λ k. k + length out) size')
                          ∙ whole_body w.version (A.block_size c') (length out) whole)
                        (omega (arith, total, size', long)) decrypted extracted)
                  ∙ ap (λ k. check_mac A r₂ h' (padded_text payload mac q) [] k 255 h.typ)
                      (omega (arith, length-replicate (suc q) q))
                  ∙ check_mac_lem A r₂ h m payload mac (replicate (suc q) q) [] h.typ (length body)
                      refl fits refl mac_size
                  ∙ accept_lem A r₂ payload h.typ seq next)
                (record {
                  same_version = refl;
                  same_seq = refl;
                  protects = by_cbc c₁ c₂ m refl refl refl refl old peers';
                })
                refl
        ]
