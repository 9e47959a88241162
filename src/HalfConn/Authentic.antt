-- ===== src/HalfConn/Authentic.antt =====
-- The records with a MAC that decrypt accepts are those that it has authenticated.
use mathlib.Core.Path.{ap, subst}
use utls.Base.{ℕ, false, Bytes, some, Run, ok, >>=-returned, ◌≡◌, ◌≢◌, refl, sym, ◌∙◌}
use utls.HalfConn.{Algorithms, Failure, version_tls13, HalfConn, is_unset, explicit_nonce_len}
use utls.HalfConn.Encrypt.{Header}
use utls.HalfConn.Decrypt.{
  Opened, opened, refused, open_record, Decrypted, received, rejected, close_record, decrypt_record,
}
use utls.HalfConn.Effect.{Keeps, open_record-Keeps, decrypt_with, decrypt_record-with}
use utls.HalfConn.RoundTrip.Steps.{not_ignored}
use utls.HalfConn.Accepted.{HasMac, close_record-HasMac}

module _ (A : Algorithms) where
  refused_not_received :
      {f : Failure} {hc hc' : HalfConn A} {p : Bytes} {t : ℕ}
      → ◌≡◌ {A = Run (Decrypted A)} (ok (rejected f hc)) (ok (received p t hc'))
      → ⊥
  refused_not_received h = cc

  -- The record was opened to a text that has the payload, the MAC over it and the sequence number, and
  -- more bytes behind.
  pub data Authentic (hc : HalfConn A) (m : A.Hash) (h : Header) (body p : Bytes) : Type 0 where
    authentic :
        (n k good : ℕ) (text plain : Bytes) (hc₁ : HalfConn A)
        → open_record A hc h body n ≡ ok (opened text plain k good hc₁)
        → HasMac A m hc.seq h text p
        → Authentic hc m h body p

  close_record-refused :
      (h : Header) (f : Failure) (hc₁ : HalfConn A)
      → close_record A h (refused f hc₁) ≡ ok (rejected f hc₁)
  unfolding close_record
  close_record-refused h f hc₁ = refl

  opened-Authentic :
      (hc hc' : HalfConn A) (m : A.Hash) (h : Header) (body p : Bytes) (n t : ℕ) (o : Opened A)
      → hc.mac ≡ some m
      → hc.version ≢ version_tls13
      → open_record A hc h body n ≡ ok o
      → Keeps A hc o
      → close_record A h o ≡ ok (received p t hc')
      → Authentic hc m h body p × (h.typ ≡ t)
  opened-Authentic hc hc' m h body p n t (refused f hc₁) has old opens keeps closed =
      absurd (refused_not_received (sym (close_record-refused h f hc₁) ∙ closed))
  opened-Authentic hc hc' m h body p n t (opened text plain k good hc₁) has old opens keeps closed =
      let mac_same = ap (λ (x : HalfConn A). x.mac) keeps ∙ has in
      let version_same = ap (λ (x : HalfConn A). x.version) keeps in
      let seq_same = ap (λ (x : HalfConn A). x.seq) keeps in
      let path : hc₁ ≡ record hc₁ { mac = some m } = λ i. record hc₁ { mac = mac_same i } in
      let (has_mac, typ_same, _) =
        close_record-HasMac A hc₁ hc' h m text plain p k good t
          (λ new. old (sym version_same ∙ new))
          (sym (ap (λ x. close_record A h (opened text plain k good x)) path) ∙ closed) in
      (
        authentic n k good text plain hc₁ opens
            (subst (λ s. HasMac A m s h text p) seq_same has_mac),
        typ_same,
      )

  -- Before TLS 1.3, under a cipher and a MAC, whenever decrypt returns a payload, the record was opened to a
  -- text in which behind this payload stands the MAC of the sequence number, the header with the length of
  -- the payload, and the payload; and the type is that of the header.
  pub decrypt_record-Authentic :
      (hc hc' : HalfConn A) (m : A.Hash) (h : Header) (body p : Bytes) (t : ℕ)
      → hc.mac ≡ some m
      → hc.version ≢ version_tls13
      → is_unset A hc.cipher ≡ false
      → decrypt_record A hc h body ≡ ok (received p t hc')
      → Authentic hc m h body p × (h.typ ≡ t)
  decrypt_record-Authentic hc hc' m h body p t has old set r =
      let (n, _, rest) =
        >>=-returned (explicit_nonce_len A hc) (decrypt_with A hc h body)
          (sym (decrypt_record-with A hc h body (not_ignored hc.version h.typ old)) ∙ r) in
      let (o, opens, closed) =
        >>=-returned (open_record A hc h body n) (close_record A h) (rw set at rest) in
      opened-Authentic hc hc' m h body p n t o has old opens
        (open_record-Keeps A hc hc.cipher h body n o opens) closed
