-- ===== src/HalfConn/RoundTrip/Aead.antt =====
-- The round trip of a record under an AEAD, in TLS 1.3 and before.
use mathlib.Core.Path.{ap}
use utls.Base.{
  ℕ, suc, ◌+◌, ◌≤◌, ◌<◌, ◌==◌, ltb, le→ltb, ◌&&◌, false, [], ◌∷◌, ◌++◌, Bytes, length, take-append,
  drop-append, length-append, Option, none, some, ok, ◌≡◌, ◌≢◌, refl, sym, ◌∙◌, arith,
}
use utls.HalfConn.{
  Algorithms, read_failure, version_tls13, max_plaintext, record_type_application_data, aead,
  HalfConn, explicit_nonce_len, inc_seq,
}
use utls.HalfConn.Encrypt.{
  Header, bytes_of, with_length, nonce_or, not_sent, explicit_nonce, finish, seal_record, encrypt,
  encrypt_aead,
}
use utls.HalfConn.Decrypt.{
  content, find_type, inner_content, opened, open_aead, additional_data, check_mac, close_record,
  open_record, decrypt_record, decrypt, accept,
}
use utls.HalfConn.Sequence.{at-middle}
use utls.HalfConn.Padding.{minus}
use utls.HalfConn.Peers.{Laws, by_aead}
use utls.HalfConn.RoundTrip.Steps.{
  Gives, Fits, Fits-bytes_of, Delivered, delivered, decrypt-bytes_of, explicit_nonce_lem,
  accept_lem, finish_lem, explicit_nonce_none, not_ignored, inner_content-old,
}

module _ (A : Algorithms) where
  encrypt-aead :
      (rand : ℕ → Option Bytes) (w : HalfConn A) (h : Header) (payload nonce : Bytes) (a : A.Aead)
      → explicit_nonce A rand (record w { cipher = aead a }) (A.nonce_len a) ≡ some nonce
      → encrypt A rand (record w { cipher = aead a }) h payload
        ≡ encrypt_aead A a (record w { cipher = aead a }) h nonce payload
  unfolding encrypt explicit_nonce_len seal_record
  encrypt-aead rand w h payload nonce a has =
      let hc : HalfConn A = record w { cipher = aead a } in
      ap
        (λ (o : Option Bytes). elim o [
          | none ↦ ok (not_sent read_failure hc)
          | some nonce ↦ seal_record A hc h nonce payload
        ])
        has

  check_no_mac :
      (r : HalfConn A) (h : Header) (payload plaintext : Bytes) (typ : ℕ)
      → check_mac A (record r { mac = none }) h payload plaintext 0 255 typ
        ≡ accept A (record r { mac = none }) plaintext typ
  unfolding check_mac
  check_no_mac r h payload plaintext typ = refl

  decrypt-aead :
      (r : HalfConn A) (h : Header) (body plaintext inner text : Bytes) (typ : ℕ) (a : A.Aead)
      → ((r.version == version_tls13) && (h.typ == 20)) ≡ false
      → open_aead A a (record r { cipher = aead a; mac = none }) h body (A.nonce_len a)
        ≡ opened inner plaintext 0 255 (record r { cipher = aead a; mac = none })
      → inner_content r.version h.typ plaintext ≡ ok (content text typ)
      → decrypt_record A (record r { cipher = aead a; mac = none }) h body
        ≡ accept A (record r { cipher = aead a; mac = none }) text typ
  unfolding decrypt_record explicit_nonce_len open_record close_record check_mac
  decrypt-aead r h body plaintext inner text typ a other is_opened is_inner =
      rw (other, is_opened, is_inner) refl

  open_aead_lem :
      (r : HalfConn A) (h : Header) (nonce sealed_text plaintext : Bytes) (a : A.Aead)
      → A.open_sealed a (nonce_or nonce r.seq) sealed_text (additional_data A a r h sealed_text)
        ≡ some plaintext
      → open_aead A a r h (nonce ++ sealed_text) (length nonce)
        ≡ opened sealed_text plaintext 0 255 r
  unfolding open_aead
  open_aead_lem r h nonce sealed_text plaintext a is_opened =
      let long : ltb (length (nonce ++ sealed_text)) (length nonce) ≡ false =
        le→ltb (length (nonce ++ sealed_text)) (length nonce)
          (omega (arith, length-append nonce sealed_text)) in
      rw (long, take-append nonce sealed_text, drop-append nonce sealed_text, is_opened)
        (ap (λ t. opened t plaintext 0 255 r) (drop-append nonce sealed_text))

  encrypt_aead-old :
      (a : A.Aead) (w : HalfConn A) (h : Header) (nonce payload : Bytes)
      → w.version ≢ version_tls13
      → encrypt_aead A a w h nonce payload
        ≡ finish A w h (nonce ++ A.seal a (nonce_or nonce w.seq) payload (w.seq ++ bytes_of h))
  unfolding encrypt_aead
  encrypt_aead-old a w h nonce payload old =
      let other : (w.version == version_tls13) ≡ false = ground arith in rw other refl

-- The content type is found behind the payload.
find_type_lem :
    (payload : Bytes) (typ outer : ℕ)
    → 0 < typ
    → find_type (payload ++ typ ∷ []) outer (length (payload ++ typ ∷ []))
      ≡ ok (content payload typ)
unfolding find_type
find_type_lem payload typ outer positive =
    let one : length (payload ++ typ ∷ []) ≡ suc (length payload) =
      omega (arith, length-append payload (typ ∷ [])) in
    let not_zero : (typ == 0) ≡ false = ground arith in
    rw (one, at-middle payload typ [], not_zero, take-append payload (typ ∷ [])) refl

inner_content-new :
    (payload : Bytes) (typ : ℕ)
    → 0 < typ
    → length payload ≤ max_plaintext
    → inner_content version_tls13 record_type_application_data (payload ++ typ ∷ [])
      ≡ ok (content payload typ)
unfolding inner_content
inner_content-new payload typ positive small =
    let fits : ltb (max_plaintext + 1) (length (payload ++ typ ∷ [])) ≡ false =
      le→ltb (max_plaintext + 1) (length (payload ++ typ ∷ []))
        (omega (arith, length-append payload (typ ∷ []))) in
    rw fits (find_type_lem payload typ record_type_application_data positive)

-- The header in front of `n` sealed bytes in TLS 1.3.
abbrev outer : ℕ → Header → Header
outer n h = with_length n (record h { typ = record_type_application_data })

encrypt_aead-new :
    (A : Algorithms) (a : A.Aead) (w : HalfConn A) (h : Header) (payload : Bytes)
    → let h' = outer (length payload + 1 + A.overhead a) h in
      encrypt_aead A a (record w { version = version_tls13 }) h [] payload
      ≡ finish A
          (record w { version = version_tls13 })
          h'
          (A.seal a w.seq (payload ++ h.typ ∷ []) (bytes_of h'))
unfolding encrypt_aead
encrypt_aead-new A a w h payload = refl

module _ (A : Algorithms) (L : Laws A) where
  -- The additional data of the receiver is that of the sender.
  additional_data-old :
      (a a' : A.Aead) (r : HalfConn A) (h : Header) (payload nonce extra : Bytes) (k : ℕ)
      → L.AeadPeers a a'
      → r.version ≢ version_tls13
      → length payload ≤ max_plaintext
      → Fits (length payload) h
      → additional_data A a' r (with_length k h) (A.seal a nonce payload extra)
        ≡ r.seq ++ bytes_of h
  additional_data-old a a' r h payload nonce extra k peers old small fits =
      let other : (r.version == version_tls13) ≡ false = ground arith in
      let size : minus (length (A.seal a nonce payload extra)) (A.overhead a') ≡ length payload =
        omega (
          arith,
          L.length-seal a nonce payload extra,
          L.overhead_peers a a' peers,
          L.overhead_bound a,
        ) in
      rw (other, size, Fits-bytes_of (length payload) h fits k) refl

  pub Delivered-aead_old :
      (rand : ℕ → Option Bytes) (w r : HalfConn A) (h : Header) (payload seq : Bytes)
      (a a' : A.Aead)
      → Gives rand
      → w.version ≢ version_tls13
      → L.AeadPeers a a'
      → length payload ≤ max_plaintext
      → Fits (length payload) h
      → inc_seq w.seq ≡ ok seq
      → Delivered A L rand
          (record w { cipher = aead a })
          (record r { version = w.version; cipher = aead a'; mac = none; seq = w.seq })
          h
          payload
          seq
  Delivered-aead_old rand w r h payload seq a a' gives old peers small fits next =
      let w₁ : HalfConn A = record w { cipher = aead a } in
      let r₁ : HalfConn A = record r {
        version = w.version;
        cipher = aead a';
        mac = none;
        seq = w.seq;
      } in
      let (nonce, has, size) = explicit_nonce_lem A rand w₁ (A.nonce_len a) gives in
      let extra = w.seq ++ bytes_of h in
      let sealed_text = A.seal a (nonce_or nonce w.seq) payload extra in
      let body = nonce ++ sealed_text in
      let h' = with_length (length body) h in
      let read : A.open_sealed a' (nonce_or nonce w.seq) sealed_text
            (additional_data A a' r₁ h' sealed_text)
          ≡ some payload =
        ap (A.open_sealed a' (nonce_or nonce w.seq) sealed_text) (
          additional_data-old a a' r₁ h payload (nonce_or nonce w.seq) extra (length body) peers old
            small fits)
        ∙ L.open_sealed-seal a a' (nonce_or nonce w.seq) payload extra peers in
      delivered (bytes_of h' ++ body) (record w₁ { seq = seq }) (record r₁ { seq = seq })
        (encrypt-aead A rand w h payload nonce a has
          ∙ encrypt_aead-old A a w₁ h nonce payload old
          ∙ finish_lem A w₁ h body seq next)
        (decrypt-bytes_of A r₁ h' body
          ∙ decrypt-aead A r₁ h' body payload sealed_text payload h.typ a'
              (not_ignored w.version h.typ old)
              (ap (open_aead A a' r₁ h' body) (sym (L.nonce_len_peers a a' peers) ∙ sym size)
                ∙ open_aead_lem A r₁ h' nonce sealed_text payload a' read)
              (inner_content-old w.version h.typ payload old)
          ∙ accept_lem A r₁ payload h.typ seq next)
        (record {
          same_version = refl;
          same_seq = refl;
          protects = by_aead a a' refl refl refl (λ new. absurd (old new)) peers;
        })
        refl

  pub Delivered-aead_new :
      (rand : ℕ → Option Bytes) (w r : HalfConn A) (h : Header) (payload seq : Bytes)
      (a a' : A.Aead)
      → A.nonce_len a ≡ 0
      → L.AeadPeers a a'
      → length payload ≤ max_plaintext
      → 0 < h.typ
      → inc_seq w.seq ≡ ok seq
      → Delivered A L rand
          (record w { version = version_tls13; cipher = aead a })
          (record r { version = version_tls13; cipher = aead a'; mac = none; seq = w.seq })
          h
          payload
          seq
  Delivered-aead_new rand w r h payload seq a a' no_nonce peers small positive next =
      let w₁ : HalfConn A = record w { version = version_tls13; cipher = aead a } in
      let r₁ : HalfConn A = record r {
        version = version_tls13;
        cipher = aead a';
        mac = none;
        seq = w.seq;
      } in
      let h' = outer (length payload + 1 + A.overhead a) h in
      let body = A.seal a w.seq (payload ++ h.typ ∷ []) (bytes_of h') in
      let size : length body ≡ length payload + 1 + A.overhead a = omega (
        arith,
        L.length-seal a w.seq (payload ++ h.typ ∷ []) (bytes_of h'),
        length-append payload (h.typ ∷ []),
      ) in
      let same : with_length (length body) h' ≡ h' = ap (λ n. outer n h) size in
      let no_nonce' = sym (L.nonce_len_peers a a' peers) ∙ no_nonce in
      delivered (bytes_of (with_length (length body) h') ++ body) (record w₁ { seq = seq })
        (record r₁ { seq = seq })
        (encrypt-aead A rand (record w { version = version_tls13 }) h payload [] a
            (ap (explicit_nonce A rand w₁) no_nonce ∙ explicit_nonce_none A rand w₁)
          ∙ encrypt_aead-new A a w₁ h payload
          ∙ finish_lem A w₁ h' body seq next)
        (ap (λ t. decrypt A r₁ (bytes_of t ++ body)) same
          ∙ decrypt-bytes_of A r₁ h' body
          ∙ decrypt-aead A r₁ h' body (payload ++ h.typ ∷ []) body payload h.typ a' refl
              (ap (open_aead A a' r₁ h' body) no_nonce'
                ∙ open_aead_lem A r₁ h' [] body (payload ++ h.typ ∷ []) a'
                    (L.open_sealed-seal a a' w.seq (payload ++ h.typ ∷ []) (bytes_of h') peers))
              (inner_content-new payload h.typ positive small)
          ∙ accept_lem A r₁ payload h.typ seq next)
        (record {
          same_version = refl;
          same_seq = refl;
          protects = by_aead a a' refl refl refl (λ new. no_nonce) peers;
        })
        refl
