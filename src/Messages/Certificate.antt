-- ===== src/Messages/Certificate.antt =====
-- handshake_messages.go: certificateMsgTLS13, and marshalCertificate and unmarshalCertificate, which session
-- states use as well. A slice that may be nil is an Option.
pub mod Built
pub mod Reads
pub mod RoundTrip
use utls.Base.{
  ℕ, zero, suc, ◌==◌, ltb, Bool, true, false, not, List, [], ◌∷◌, ◌++◌, Option, none, some, Bytes,
  length, if◌then◌else◌,
}
use utls.Cryptobyte.{Reader}
use utls.Cryptobyte.Builder.{Builder}
use utls.Cryptobyte.Loops.{Outcome, done, refused, out_of_fuel, read_all}
use utls.Messages.{is_nil, whole, next, message}

-- Certificate, as far as it is written to messages
pub record TlsCertificate : Type 0 where
  pub certificate : List Bytes
  pub ocsp_staple : Option Bytes
  pub scts : Option (List Bytes)

-- certificateMsgTLS13
pub record CertificateMsg : Type 0 where
  pub certificate : TlsCertificate
  pub ocsp_stapling : Bool
  pub has_scts : Bool

module _ (w : Builder) where
  abbrev pub write_ocsp : Option Bytes → w.State → w.State
  write_ocsp none b = b
  write_ocsp (some staple) b =
      w.add_uint16_length_prefixed
        (λ b₁. w.add_uint24_length_prefixed (λ b₂. w.add_bytes staple b₂) (w.add_uint8 1 b₁))
        (w.add_uint16 5 b)

  abbrev pub write_sct_list : List Bytes → w.State → w.State
  write_sct_list [] b = b
  write_sct_list (sct ∷ scts) b =
      write_sct_list scts (w.add_uint16_length_prefixed (λ b₁. w.add_bytes sct b₁) b)

  abbrev pub write_scts : Option (List Bytes) → w.State → w.State
  write_scts none b = b
  write_scts (some scts) b =
      w.add_uint16_length_prefixed (λ b₁. w.add_uint16_length_prefixed (write_sct_list scts) b₁)
        (w.add_uint16 18 b)

  -- The extensions of the leaf, and none of the other certificates.
  abbrev pub write_leaf_extensions : Bool → TlsCertificate → w.State → w.State
  write_leaf_extensions false c b = b
  write_leaf_extensions true c b = write_scts c.scts (write_ocsp c.ocsp_staple b)

  abbrev pub write_certificates : Bool → TlsCertificate → List Bytes → w.State → w.State
  write_certificates leaf c [] b = b
  write_certificates leaf c (cert ∷ certs) b = write_certificates false c certs (
      w.add_uint16_length_prefixed (write_leaf_extensions leaf c)
        (w.add_uint24_length_prefixed (λ b₁. w.add_bytes cert b₁) b))

  unfoldable pub marshal_certificate : TlsCertificate → w.State → w.State
  marshal_certificate c b = w.add_uint24_length_prefixed (write_certificates true c c.certificate) b

  -- The certificate without what the flags leave out.
  abbrev pub sent_certificate : CertificateMsg → TlsCertificate
  sent_certificate m = record {
    certificate = m.certificate.certificate;
    ocsp_staple = if m.ocsp_stapling then m.certificate.ocsp_staple else none;
    scts = if m.has_scts then m.certificate.scts else none;
  }

  unfoldable pub certificate_tls13_marshal : CertificateMsg → Option Bytes
  certificate_tls13_marshal m =
      message w 11 (λ b. marshal_certificate (sent_certificate m) (w.add_uint8 0 b))

module _ (c : Reader) where
  unfoldable pub read_ocsp : TlsCertificate → Bytes → Option TlsCertificate
  read_ocsp cert s = next (c.read_uint8 s) λ (status_type, s₁).
      if not (status_type == 1)
      then none
      else next (whole (c.read_uint24_length_prefixed s₁))
          λ staple. if is_nil staple then none else some (record cert { ocsp_staple = some staple })

  unfoldable pub read_sct : Bytes → Option (Bytes × Bytes)
  read_sct s =
      next (c.read_uint16_length_prefixed s)
        λ (sct, rest). if is_nil sct then none else some (sct, rest)

  abbrev pub append_scts : Option (List Bytes) → List Bytes → Option (List Bytes)
  append_scts none scts = some scts
  append_scts (some old) scts = some (old ++ scts)

  abbrev pub with_scts : TlsCertificate → Outcome (List Bytes) → Outcome TlsCertificate
  with_scts cert (done scts) = done (record cert { scts = append_scts cert.scts scts })
  with_scts cert refused = refused
  with_scts cert out_of_fuel = out_of_fuel

  unfoldable pub read_scts : TlsCertificate → Bytes → Outcome TlsCertificate
  read_scts cert s = elim (whole (c.read_uint16_length_prefixed s)) [
    | none ↦ refused
    | some list ↦
        if is_nil list then refused else with_scts cert (read_all read_sct (length list) list)
  ]

  abbrev of_option : Option TlsCertificate → Outcome TlsCertificate
  of_option none = refused
  of_option (some cert) = done cert

  -- What the switch does with an extension of the leaf; an unknown one is ignored.
  unfoldable pub take_leaf_extension : TlsCertificate → ℕ → Bytes → Outcome TlsCertificate
  take_leaf_extension cert id body =
      if ltb 1 (length cert.certificate)
      then done cert
      else if id == 5
      then of_option (read_ocsp cert body)
      else if id == 18
      then read_scts cert body
      else done cert

  -- The identifier and the body of an extension.
  abbrev pub read_extension : Bytes → Option (ℕ × Bytes × Bytes)
  read_extension s =
      next (c.read_uint16 s)
        λ (id, s₁). next (c.read_uint16_length_prefixed s₁) λ (body, rest). some (id, body, rest)

  unfoldable pub read_extensions : ℕ → TlsCertificate → Bytes → Outcome TlsCertificate
  read_extensions fuel cert [] = done cert
  read_extensions zero cert (b ∷ s) = out_of_fuel
  read_extensions (suc fuel) cert (b ∷ s) = elim (read_extension (b ∷ s)) [
    | none ↦ refused
    | some (id, body, rest) ↦ elim (take_leaf_extension cert id body) [
      | done cert' ↦ read_extensions fuel cert' rest
      | refused ↦ refused
      | out_of_fuel ↦ out_of_fuel
    ]
  ]

  -- A certificate and its extensions.
  abbrev pub read_certificate : Bytes → Option (Bytes × Bytes × Bytes)
  read_certificate s = next (c.read_uint24_length_prefixed s) λ (cert, s₁).
      next (c.read_uint16_length_prefixed s₁) λ (extensions, rest). some (cert, extensions, rest)

  abbrev pub append_certificate : TlsCertificate → Bytes → TlsCertificate
  append_certificate cert x = record cert { certificate = cert.certificate ++ x ∷ [] }

  unfoldable pub read_certificates : ℕ → TlsCertificate → Bytes → Outcome TlsCertificate
  read_certificates fuel cert [] = done cert
  read_certificates zero cert (b ∷ s) = out_of_fuel
  read_certificates (suc fuel) cert (b ∷ s) = elim (read_certificate (b ∷ s)) [
    | none ↦ refused
    | some (x, extensions, rest) ↦
        elim (read_extensions (length extensions) (append_certificate cert x) extensions) [
          | done cert' ↦ read_certificates fuel cert' rest
          | refused ↦ refused
          | out_of_fuel ↦ out_of_fuel
        ]
  ]

  abbrev pub with_rest : Outcome TlsCertificate → Bytes → Outcome (TlsCertificate × Bytes)
  with_rest (done cert) rest = done (cert, rest)
  with_rest refused rest = refused
  with_rest out_of_fuel rest = out_of_fuel

  unfoldable pub unmarshal_certificate : Bytes → Outcome (TlsCertificate × Bytes)
  unmarshal_certificate s = elim (c.read_uint24_length_prefixed s) [
    | none ↦ refused
    | some (list, rest) ↦
        with_rest
          (read_certificates (length list)
            (record { certificate = []; ocsp_staple = none; scts = none }) list)
          rest
  ]

  abbrev pub is_there {ℓ} : {A : Type ℓ} → Option A → Bool
  is_there none = false
  is_there (some a) = true

  abbrev pub of_certificate : Outcome (TlsCertificate × Bytes) → Outcome CertificateMsg
  of_certificate (done (cert, [])) = done (record {
    certificate = cert;
    ocsp_stapling = is_there cert.ocsp_staple;
    has_scts = is_there cert.scts;
  })
  of_certificate (done (cert, b ∷ s)) = refused
  of_certificate refused = refused
  of_certificate out_of_fuel = out_of_fuel

  unfoldable pub certificate_tls13_unmarshal : Bytes → Outcome CertificateMsg
  certificate_tls13_unmarshal msg =
      elim (next (c.skip 4 msg) λ s.
        next (c.read_uint8_length_prefixed s)
          λ (context, s₁). if is_nil context then some s₁ else none) [
            | none ↦ refused
            | some s ↦ of_certificate (unmarshal_certificate s)
          ]
