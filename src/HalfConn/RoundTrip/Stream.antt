-- ===== src/HalfConn/RoundTrip/Stream.antt =====
-- The round trip of a record under a stream cipher, and with no protection.
use mathlib.Core.Path.{ap, ap₂}
use utls.Base.{
  ℕ, ◌==◌, false, [], ◌++◌, append-nil, Bytes, length, Option, some, ok, ◌≡◌, ◌≢◌, refl, sym, ◌∙◌,
  arith,
}
use utls.HalfConn.{
  Algorithms, version_tls13, stream, HalfConn, explicit_nonce_len, tls10_mac, inc_seq,
}
use utls.HalfConn.Encrypt.{
  Header, bytes_of, with_length, explicit_nonce, finish, seal_record, encrypt, encrypt_stream,
}
use utls.HalfConn.Decrypt.{inner_content, check_mac, close_record, open_record, decrypt_record}
use utls.HalfConn.Peers.{Laws, by_stream}
use utls.HalfConn.RoundTrip.Steps.{
  Fits, Delivered, delivered, decrypt-bytes_of, check_mac_lem, length-tls10_mac, accept_lem,
  finish_lem,
}

module _ (A : Algorithms) where
  encrypt-stream :
      (rand : ℕ → Option Bytes) (w : HalfConn A) (h : Header) (payload : Bytes) (s : A.Stream)
      (m : A.Hash)
      → let first = A.xor_key_stream s payload in
        let second = A.xor_key_stream first.1 (tls10_mac A m w.seq (bytes_of h) payload) in
        encrypt A rand (record w { cipher = stream s; mac = some m }) h payload
        ≡ finish A (record w { cipher = stream second.1; mac = some m }) h (first.0 ++ second.0)
  unfolding encrypt explicit_nonce_len explicit_nonce seal_record encrypt_stream
  encrypt-stream rand w h payload s m = refl

  decrypt-stream :
      (r : HalfConn A) (h : Header) (body : Bytes) (s : A.Stream)
      → r.version ≢ version_tls13
      → decrypt_record A (record r { cipher = stream s }) h body
        ≡ check_mac A
            (record r { cipher = stream (A.xor_key_stream s body).1 })
            h
            (A.xor_key_stream s body).0
            []
            0
            255
            h.typ
  unfolding decrypt_record explicit_nonce_len open_record close_record inner_content
  decrypt-stream r h body s old =
      let other : (r.version == version_tls13) ≡ false = ground arith in rw (other) refl

module _ (A : Algorithms) (L : Laws A) where
  pub Delivered-stream :
      (rand : ℕ → Option Bytes) (w r : HalfConn A) (h : Header) (payload seq : Bytes)
      (s s' : A.Stream) (m : A.Hash)
      → w.version ≢ version_tls13
      → L.StreamPeers s s'
      → Fits (length payload) h
      → inc_seq w.seq ≡ ok seq
      → Delivered A L rand
          (record w { cipher = stream s; mac = some m })
          (record r { version = w.version; cipher = stream s'; mac = some m; seq = w.seq })
          h
          payload
          seq
  Delivered-stream rand w r h payload seq s s' m old peers fits next =
      let mac = tls10_mac A m w.seq (bytes_of h) payload in
      let first = A.xor_key_stream s payload in
      let second = A.xor_key_stream first.1 mac in
      let body = first.0 ++ second.0 in
      let back = A.xor_key_stream s' first.0 in
      let back' = A.xor_key_stream back.1 second.0 in
      let (text, peers₁) = L.xor_key_stream_lem s s' payload peers in
      let (tail, peers₂) = L.xor_key_stream_lem first.1 back.1 mac peers₁ in
      let opened_body : A.xor_key_stream s' body ≡ (payload ++ mac, back'.1) =
        L.xor_key_stream-append s' first.0 second.0 ∙ ap₂ (λ x y. (x ++ y, back'.1)) text tail in
      let h' = with_length (length body) h in
      let r₁ : HalfConn A = record r { version = w.version; mac = some m; seq = w.seq } in
      let r₂ : HalfConn A = record r₁ { cipher = stream back'.1 } in
      let checked =
        check_mac_lem A r₂ h m payload mac [] [] h.typ (length body) refl fits refl
          (length-tls10_mac A L m w.seq (bytes_of h) payload) in
      delivered (bytes_of (with_length (length body) h) ++ body)
        (record w { cipher = stream second.1; mac = some m; seq = seq })
        (record r { version = w.version; cipher = stream back'.1; mac = some m; seq = seq })
        (encrypt-stream A rand w h payload s m
          ∙ finish_lem A (record w { cipher = stream second.1; mac = some m }) h body seq next)
        (decrypt-bytes_of A (record r₁ { cipher = stream s' }) h' body
          ∙ decrypt-stream A r₁ h' body s' old
          ∙ ap (λ o. check_mac A (record r₁ { cipher = stream o.1 }) h' o.0 [] 0 255 h.typ)
              opened_body
          ∙ ap (λ t. check_mac A r₂ h' (payload ++ t) [] 0 255 h.typ) (sym (append-nil mac))
          ∙ checked
          ∙ accept_lem A r₂ payload h.typ seq next)
        (record {
          same_version = refl;
          same_seq = refl;
          protects = by_stream second.1 back'.1 m refl refl refl refl old peers₂;
        })
        refl
