-- ===== src/Tests/Certificate.antt =====
-- A TLS 1.3 certificate message with two certificates.
use utls.Base.{true, [], ◌∷◌, Bytes, some, ◌≡◌, refl, arith}
use utls.Cryptobyte.Loops.{done}
use utls.Messages.Certificate.{
  CertificateMsg, sent_certificate, certificate_tls13_marshal, certificate_tls13_unmarshal,
}
use utls.Messages.Certificate.Built.{Fits}
use utls.Messages.Certificate.RoundTrip.{certificate_tls13_round_trip}
use utls.Tests.Builder.{builder}
use utls.Tests.Reader.{reader}

abbrev two_certificates : CertificateMsg
two_certificates = record {
  certificate = record {
    certificate = (48 ∷ 1 ∷ []) ∷ (48 ∷ 2 ∷ []) ∷ [];
    ocsp_staple = some (7 ∷ []);
    scts = some ((9 ∷ 9 ∷ []) ∷ []);
  };
  ocsp_stapling = true;
  has_scts = true;
}

two_certificates-Fits : Fits (sent_certificate builder two_certificates)
two_certificates-Fits = record {
  each = (omega arith, (omega arith, tt));
  staple = (omega arith, omega arith);
  timestamps = (((omega arith, omega arith), tt), omega arith, omega arith);
  extensions = omega arith;
  with_leaf = omega arith;
  total = omega arith;
}

certificate_tls13_round_trip_example :
    (wire : Bytes) × (certificate_tls13_marshal builder two_certificates ≡ some wire)
    × (certificate_tls13_unmarshal reader wire
        ≡ done
            (record two_certificates { certificate = sent_certificate builder two_certificates }))
certificate_tls13_round_trip_example =
    certificate_tls13_round_trip reader builder two_certificates two_certificates-Fits
      ((λ on. refl), (λ on. refl))
