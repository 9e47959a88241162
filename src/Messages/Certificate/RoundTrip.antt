-- ===== src/Messages/Certificate/RoundTrip.antt =====
-- The TLS 1.3 certificate message is unmarshalled to what was marshalled.
use mathlib.Core.Path.{ap, ap₂, subst}
use native.Mathlib.Nat.{le_refl}
use utls.Base.{
  ℕ, zero, suc, ◌+◌, ◌^◌, ◌≤◌, ◌<◌, Bool, true, false, if◌then◌else◌, List, [], ◌∷◌, ◌++◌,
  append_assoc, append-nil, Option, none, some, Bytes, All, length, length-append, ◌≡◌, refl, sym,
  ◌∙◌, arith,
}
use utls.Cryptobyte.{Reader, read-vec8, read-vec16}
use utls.Cryptobyte.Builder.{Builder}
use utls.Cryptobyte.Reads.{read-vec24, skip-append}
use utls.Cryptobyte.Loops.{done}
use utls.ClientHello.{u24}
use utls.Extension.Wire.{vec16}
use utls.Messages.Built.{handshake}
use utls.Messages.Certificate.{
  TlsCertificate, CertificateMsg, read_extensions, read_certificate, append_certificate,
  read_certificates, unmarshal_certificate, sent_certificate, is_there, of_certificate,
  certificate_tls13_marshal, certificate_tls13_unmarshal,
}
use utls.Messages.Certificate.Built.{
  vec24, ocsp_wire, scts_wire, certificates_wire, Fits, certificate_tls13_marshal-wire,
}
use utls.Messages.Certificate.Reads.{extensions_read, extensions_end}

module _ (c : Reader) where
  read_certificate-wire :
      (x body rest : Bytes)
      → length x < 2 ^ 24
      → length body < 65536
      → read_certificate c (vec24 x ++ (vec16 body ++ rest)) ≡ some (x, body, rest)
  read_certificate-wire x body rest h h' =
      rw (read-vec24 c x (vec16 body ++ rest) h, read-vec16 c body rest h') refl

  certificates_next :
      (fuel : ℕ) (cert cert' : TlsCertificate) (x body rest : Bytes)
      → length x < 2 ^ 24
      → length body < 65536
      → read_extensions c (length body) (append_certificate c cert x) body ≡ done cert'
      → read_certificates c (suc fuel) cert (vec24 x ++ (vec16 body ++ rest))
        ≡ read_certificates c fuel cert' rest
  unfolding read_certificates
  certificates_next fuel cert cert' x body rest h h' taken =
      rw (read_certificate-wire x body rest h h', taken, read_certificates) refl

  certificates_end :
      (fuel : ℕ) (cert : TlsCertificate) → read_certificates c fuel cert [] ≡ done cert
  unfolding read_certificates
  certificates_end zero cert = refl
  certificates_end (suc fuel) cert = refl

  -- The certificates behind the leaf have no extensions.
  certificates_behind :
      (fuel : ℕ) (cert d : TlsCertificate) (xs : List Bytes)
      → All (λ x. length x < 2 ^ 24) xs
      → length (certificates_wire false d xs) ≤ fuel
      → read_certificates c fuel cert (certificates_wire false d xs)
        ≡ done (record cert { certificate = cert.certificate ++ xs })
  certificates_behind fuel cert d [] each enough =
      certificates_end fuel cert
      ∙ ap (λ t. done (record cert { certificate = t })) (sym (append-nil cert.certificate))
  certificates_behind zero cert d (x ∷ xs) each enough = absurd (omega arith)
  certificates_behind (suc fuel) cert d (x ∷ xs) each enough =
      let rest = certificates_wire false d xs in
      certificates_next fuel cert (append_certificate c cert x) x [] rest each.0 (omega arith)
        (extensions_end c 0 (append_certificate c cert x))
      ∙ certificates_behind fuel (append_certificate c cert x) d xs each.1 (
          omega (
            arith,
            enough,
            length-append (vec24 x) (vec16 [] ++ rest),
            length-append (vec16 []) rest,
          ))
      ∙ ap (λ t. done (record cert { certificate = t })) (append_assoc cert.certificate (x ∷ []) xs)

  abbrev no_certificate : TlsCertificate
  no_certificate = record { certificate = []; ocsp_staple = none; scts = none }

  certificates_read :
      (x : Bytes) (xs : List Bytes) (o : Option Bytes) (o' : Option (List Bytes)) (fuel : ℕ)
      → let d : TlsCertificate = record { certificate = x ∷ xs; ocsp_staple = o; scts = o' } in
        Fits d
        → length (certificates_wire true d (x ∷ xs)) ≤ fuel
        → read_certificates c fuel no_certificate (certificates_wire true d (x ∷ xs)) ≡ done d
  certificates_read x xs o o' zero fits enough = absurd (omega arith)
  certificates_read x xs o o' (suc fuel) fits enough =
      let d : TlsCertificate = record { certificate = x ∷ xs; ocsp_staple = o; scts = o' } in
      let body = ocsp_wire o ++ scts_wire o' in
      let rest = certificates_wire false d xs in
      let leaf : TlsCertificate = record {
        certificate = x ∷ [];
        ocsp_staple = none;
        scts = none;
      } in
      let leaf' : TlsCertificate = record { certificate = x ∷ []; ocsp_staple = o; scts = o' } in
      certificates_next fuel no_certificate leaf' x body rest fits.each.0 fits.extensions (
        extensions_read c (length body) leaf o o' refl refl refl fits.staple fits.timestamps
          (le_refl (length body)))
      ∙ certificates_behind fuel leaf' d xs fits.each.1 (
          omega (
            arith,
            enough,
            length-append (vec24 x) (vec16 body ++ rest),
            length-append (vec16 body) rest,
          ))

  unmarshal_certificate-of :
      (certs : List Bytes) (o : Option Bytes) (o' : Option (List Bytes)) (rest : Bytes)
      → let d : TlsCertificate = record { certificate = certs; ocsp_staple = o; scts = o' } in
        Fits d
        → unmarshal_certificate c (vec24 (certificates_wire true d certs) ++ rest) ≡ done (d, rest)
  unfolding unmarshal_certificate
  unmarshal_certificate-of [] o o' rest fits = absurd (omega (arith, fits.with_leaf))
  unmarshal_certificate-of (x ∷ xs) o o' rest fits =
      let d : TlsCertificate = record { certificate = x ∷ xs; ocsp_staple = o; scts = o' } in
      let list = certificates_wire true d (x ∷ xs) in
      let total : length list + 4 < 2 ^ 24 = fits.total in
      rw
        (
          read-vec24 c list rest (omega (arith, total)),
          certificates_read x xs o o' (length list) fits (le_refl (length list)),
          unmarshal_certificate,
        )
        refl

  -- The body of a marshalled certificate, with anything behind it.
  pub unmarshal_certificate-wire :
      (d : TlsCertificate) (rest : Bytes)
      → Fits d
      → unmarshal_certificate c (vec24 (certificates_wire true d d.certificate) ++ rest)
        ≡ done (d, rest)
  unmarshal_certificate-wire d rest fits =
      unmarshal_certificate-of d.certificate d.ocsp_staple d.scts rest fits

  -- A flag is set only where there is something to send, as both sides set them.
  abbrev pub HasFlagged : CertificateMsg → Type 0
  HasFlagged m =
      (m.ocsp_stapling ≡ true → is_there c m.certificate.ocsp_staple ≡ true)
      × (m.has_scts ≡ true → is_there c m.certificate.scts ≡ true)

  kept_flag :
      {A : Type 0} (flag : Bool) (o : Option A)
      → (flag ≡ true → is_there c o ≡ true)
      → is_there c (if flag then o else none) ≡ flag
  kept_flag true o has = has refl
  kept_flag false o has = refl

  unmarshal-wire :
      (d : TlsCertificate)
      → Fits d
      → certificate_tls13_unmarshal c
          (handshake 11 (0 ∷ vec24 (certificates_wire true d d.certificate)))
        ≡ of_certificate c (done (d, []))
  unfolding certificate_tls13_unmarshal
  unmarshal-wire d fits =
      let list = vec24 (certificates_wire true d d.certificate) in
      let skipped = skip-append c 4 (11 ∷ u24 (length (0 ∷ list))) (0 ∷ list) refl in
      let body =
        subst (λ t. unmarshal_certificate c t ≡ done (d, [])) (append-nil list)
          (unmarshal_certificate-wire d [] fits) in
      rw (skipped, read-vec8 c [] list (omega arith), certificate_tls13_unmarshal)
        (ap (of_certificate c) body)

  -- A TLS 1.3 certificate message with at least one certificate, whose parts fit their lengths and whose flags
  -- are set only with a staple and timestamps that are there; the staple, the timestamps and every single
  -- timestamp that are sent are not empty. Marshal returns bytes without an error, and unmarshal of them
  -- reports success and gives the message, with its flags; the staple and the timestamps are nil where the
  -- flags leave them out.
  pub certificate_tls13_round_trip :
      (w : Builder) (m : CertificateMsg)
      → Fits (sent_certificate w m)
      → HasFlagged m
      → (wire : Bytes) × (certificate_tls13_marshal w m ≡ some wire)
        × (certificate_tls13_unmarshal c wire
            ≡ done (record m { certificate = sent_certificate w m }))
  certificate_tls13_round_trip w m fits flagged =
      let d = sent_certificate w m in
      let stapled = kept_flag m.ocsp_stapling m.certificate.ocsp_staple flagged.0 in
      let timed = kept_flag m.has_scts m.certificate.scts flagged.1 in
      (
        handshake 11 (0 ∷ vec24 (certificates_wire true d d.certificate)),
        certificate_tls13_marshal-wire w m fits,
        unmarshal-wire d fits
            ∙ ap₂ (λ f g. done (record { certificate = d; ocsp_stapling = f; has_scts = g }))
                stapled timed,
      )
