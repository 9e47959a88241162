-- ===== src/Messages/Certificate/Built.antt =====
-- Marshal of the TLS 1.3 certificate message, against its wire form.
use utls.Base.{
  ◌+◌, ◌^◌, ◌<◌, Bool, true, false, List, [], ◌∷◌, ◌++◌, append_assoc, append-nil, Option, none,
  some, Bytes, All, length, ◌≡◌, sym, ◌∙◌, arith,
}
use mathlib.Core.Path.{ap}
use utls.Cryptobyte.Builder.{Builder}
use utls.Cryptobyte.Loops.{encoded}
use utls.Extension.Wire.{u16, vec16}
use utls.ClientHello.{u24}
use utls.Messages.Built.{handshake, message_lem, bytes_lem}
use utls.Messages.Certificate.{
  TlsCertificate, CertificateMsg, write_ocsp, write_sct_list, write_scts, write_leaf_extensions,
  write_certificates, marshal_certificate, sent_certificate, certificate_tls13_marshal,
}

abbrev pub vec24 : Bytes → Bytes
vec24 v = u24 (length v) ++ v

abbrev pub ocsp_wire : Option Bytes → Bytes
ocsp_wire none = []
ocsp_wire (some staple) = u16 5 ++ vec16 (1 ∷ vec24 staple)

abbrev pub scts_wire : Option (List Bytes) → Bytes
scts_wire none = []
scts_wire (some scts) = u16 18 ++ vec16 (vec16 (encoded vec16 scts))

abbrev pub extensions_wire : Bool → TlsCertificate → Bytes
extensions_wire false c = []
extensions_wire true c = ocsp_wire c.ocsp_staple ++ scts_wire c.scts

abbrev pub certificates_wire : Bool → TlsCertificate → List Bytes → Bytes
certificates_wire leaf c [] = []
certificates_wire leaf c (x ∷ xs) =
    vec24 x ++ (vec16 (extensions_wire leaf c) ++ certificates_wire false c xs)

abbrev pub IsStaple : Option Bytes → Type 0
IsStaple none = Unit {0}
IsStaple (some staple) = (0 < length staple) × (length staple < 65532)

abbrev pub IsSct : Bytes → Type 0
IsSct sct = (0 < length sct) × (length sct < 65536)

abbrev pub IsScts : Option (List Bytes) → Type 0
IsScts none = Unit {0}
IsScts (some scts) =
    All IsSct scts × (0 < length (encoded vec16 scts)) × (length (encoded vec16 scts) < 65534)

-- The parts fit their lengths; a staple and timestamps are not empty, and are there only with a certificate.
pub record Fits (c : TlsCertificate) : Type 0 where
  pub each : All (λ x. length x < 2 ^ 24) c.certificate
  pub staple : IsStaple c.ocsp_staple
  pub timestamps : IsScts c.scts
  pub extensions : length (extensions_wire true c) < 65536
  pub with_leaf : 0 < length c.certificate
  pub total : length (certificates_wire true c c.certificate) + 4 < 2 ^ 24

module _ (w : Builder) where
  write_ocsp-wire :
      (o : Option Bytes) (b : w.State) (x : Bytes)
      → IsStaple o
      → w.contents b ≡ some x
      → w.contents (write_ocsp w o b) ≡ some (x ++ ocsp_wire o)
  write_ocsp-wire none b x is has = has ∙ ap some (sym (append-nil x))
  write_ocsp-wire (some staple) b x is has =
      w.add_uint16_length_prefixed_lem _ (w.add_uint16 5 b) (x ++ u16 5) (1 ∷ vec24 staple)
        (w.add_uint16_lem 5 b x (omega arith) has)
        (w.add_uint24_length_prefixed_lem (λ b₂. w.add_bytes staple b₂) (w.add_uint8 1 w.empty)
          (1 ∷ []) staple (w.add_uint8_lem 1 w.empty [] (omega arith) w.empty_lem)
          (bytes_lem w staple) (omega arith))
        (omega arith)
      ∙ ap some (append_assoc x (u16 5) (vec16 (1 ∷ vec24 staple)))

  write_sct_list-wire :
      (scts : List Bytes) (b : w.State) (x : Bytes)
      → All IsSct scts
      → w.contents b ≡ some x
      → w.contents (write_sct_list w scts b) ≡ some (x ++ encoded vec16 scts)
  write_sct_list-wire [] b x is has = has ∙ ap some (sym (append-nil x))
  write_sct_list-wire (sct ∷ scts) b x is has =
      write_sct_list-wire scts _ (x ++ vec16 sct) is.1 (
        w.add_uint16_length_prefixed_lem (λ b₁. w.add_bytes sct b₁) b x sct has (bytes_lem w sct)
          is.0.1)
      ∙ ap some (append_assoc x (vec16 sct) (encoded vec16 scts))

  write_scts-wire :
      (o : Option (List Bytes)) (b : w.State) (x : Bytes)
      → IsScts o
      → w.contents b ≡ some x
      → w.contents (write_scts w o b) ≡ some (x ++ scts_wire o)
  write_scts-wire none b x is has = has ∙ ap some (sym (append-nil x))
  write_scts-wire (some scts) b x (is, _, fits) has =
      w.add_uint16_length_prefixed_lem _ (w.add_uint16 18 b) (x ++ u16 18)
        (vec16 (encoded vec16 scts)) (w.add_uint16_lem 18 b x (omega arith) has)
        (w.add_uint16_length_prefixed_lem (write_sct_list w scts) w.empty [] (encoded vec16 scts)
          w.empty_lem (write_sct_list-wire scts w.empty [] is w.empty_lem) (omega arith))
        (omega arith)
      ∙ ap some (append_assoc x (u16 18) (vec16 (vec16 (encoded vec16 scts))))

  write_leaf_extensions-wire :
      (leaf : Bool) (c : TlsCertificate)
      → Fits c
      → w.contents (write_leaf_extensions w leaf c w.empty) ≡ some (extensions_wire leaf c)
  write_leaf_extensions-wire false c fits = w.empty_lem
  write_leaf_extensions-wire true c fits =
      write_scts-wire c.scts _ (ocsp_wire c.ocsp_staple) fits.timestamps
        (write_ocsp-wire c.ocsp_staple w.empty [] fits.staple w.empty_lem)

  extensions_short :
      (leaf : Bool) (c : TlsCertificate) → Fits c → length (extensions_wire leaf c) < 65536
  extensions_short false c fits = omega arith
  extensions_short true c fits = fits.extensions

  write_certificates-wire :
      (leaf : Bool) (c : TlsCertificate) (certs : List Bytes) (b : w.State) (x : Bytes)
      → Fits c
      → All (λ y. length y < 2 ^ 24) certs
      → w.contents b ≡ some x
      → w.contents (write_certificates w leaf c certs b)
        ≡ some (x ++ certificates_wire leaf c certs)
  write_certificates-wire leaf c [] b x fits each has = has ∙ ap some (sym (append-nil x))
  write_certificates-wire leaf c (y ∷ ys) b x fits each has =
      let exts = vec16 (extensions_wire leaf c) in
      write_certificates-wire false c ys _ (x ++ vec24 y ++ exts) fits each.1 (
        w.add_uint16_length_prefixed_lem (write_leaf_extensions w leaf c) _ (x ++ vec24 y)
          (extensions_wire leaf c)
          (w.add_uint24_length_prefixed_lem (λ b₁. w.add_bytes y b₁) b x y has (bytes_lem w y)
            each.0)
          (write_leaf_extensions-wire leaf c fits) (extensions_short leaf c fits))
      ∙ ap some (
          append_assoc (x ++ vec24 y) exts (certificates_wire false c ys)
          ∙ append_assoc x (vec24 y) (exts ++ certificates_wire false c ys))

  pub marshal_certificate-wire :
      (c : TlsCertificate) (b : w.State) (x : Bytes)
      → Fits c
      → w.contents b ≡ some x
      → w.contents (marshal_certificate w c b)
        ≡ some (x ++ vec24 (certificates_wire true c c.certificate))
  unfolding marshal_certificate
  marshal_certificate-wire c b x fits has =
      w.add_uint24_length_prefixed_lem (write_certificates w true c c.certificate) b x _ has
        (write_certificates-wire true c c.certificate w.empty [] fits fits.each w.empty_lem)
        (omega (arith, fits.total))

  pub certificate_tls13_marshal-wire :
      (m : CertificateMsg)
      → Fits (sent_certificate w m)
      → certificate_tls13_marshal w m
        ≡ some (
            handshake 11 (
              0
              ∷ vec24 (
                  certificates_wire true
                    (sent_certificate w m)
                    (sent_certificate w m).certificate)))
  unfolding certificate_tls13_marshal
  certificate_tls13_marshal-wire m fits =
      message_lem w 11 _
        (0
          ∷ vec24
              (certificates_wire true (sent_certificate w m) (sent_certificate w m).certificate))
        (omega arith)
        (marshal_certificate-wire (sent_certificate w m) (w.add_uint8 0 w.empty) (0 ∷ []) fits
          (w.add_uint8_lem 0 w.empty [] (omega arith) w.empty_lem))
        (omega (arith, fits.total))
