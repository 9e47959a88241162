-- ===== src/Messages/Certificate/Reads.antt =====
-- Reads of the parts of a TLS 1.3 certificate message that were just written.
use mathlib.Core.Path.{ap, subst}
use native.Mathlib.Nat.{le_refl}
use utls.ClientHello.{u24}
use utls.Base.{
  ℕ, zero, suc, ◌≤◌, ◌<◌, ltb, le→ltb, false, List, [], ◌∷◌, ◌++◌, append-nil, map, Option, none,
  some, Bytes, length, length-append, ◌≡◌, refl, sym, ◌∙◌, arith,
}
use utls.Cryptobyte.{Reader, read-u16, read-vec16}
use utls.Cryptobyte.Reads.{read-vec24}
use utls.Cryptobyte.Loops.{done, read_all-encoded, encoded}
use utls.Extension.Wire.{u16, vec16}
use utls.Messages.{is_nil}
use utls.Messages.Certificate.{
  TlsCertificate, read_ocsp, read_sct, append_scts, read_scts, take_leaf_extension, read_extension,
  read_extensions,
}
use utls.Messages.Certificate.Built.{vec24, ocsp_wire, scts_wire, IsStaple, IsSct, IsScts}

is_nil-false : (v : Bytes) → 0 < length v → is_nil v ≡ false
is_nil-false [] h = absurd (omega arith)
is_nil-false (x ∷ v) h = refl

map_same : (xs : List Bytes) → map (λ x. x) xs ≡ xs
map_same [] = refl
map_same (x ∷ xs) = ap (◌∷◌ x) (map_same xs)

module _ (c : Reader) where
  read_ocsp-wire :
      (cert : TlsCertificate) (staple : Bytes)
      → 0 < length staple
      → length staple < 65532
      → read_ocsp c cert (1 ∷ vec24 staple) ≡ some (record cert { ocsp_staple = some staple })
  unfolding read_ocsp
  read_ocsp-wire cert staple h small =
      let read =
        subst (λ t. c.read_uint24_length_prefixed (u24 (length staple) ++ t) ≡ some (staple, []))
          (append-nil staple) (read-vec24 c staple [] (omega arith)) in
      rw (c.read_uint8_cons 1 (vec24 staple), read, is_nil-false staple h) refl

  read_sct-wire :
      (sct rest : Bytes)
      → IsSct sct
      → (0 < length (vec16 sct)) × (read_sct c (vec16 sct ++ rest) ≡ some (sct, rest))
  unfolding read_sct
  read_sct-wire sct rest is =
      (omega arith, rw (read-vec16 c sct rest is.1, is_nil-false sct is.0) refl)

  read_scts-wire :
      (cert : TlsCertificate) (scts : List Bytes)
      → cert.scts ≡ none
      → IsScts (some scts)
      → read_scts c cert (vec16 (encoded vec16 scts)) ≡ done (record cert { scts = some scts })
  unfolding read_scts
  read_scts-wire cert scts fresh (is, positive, small) =
      let list = encoded vec16 scts in
      let read =
        subst (λ t. c.read_uint16_length_prefixed (u16 (length list) ++ t) ≡ some (list, []))
          (append-nil list) (read-vec16 c list [] (omega arith)) in
      let all =
        read_all-encoded vec16 (read_sct c) (λ x. x) IsSct read_sct-wire scts (length list)
          (le_refl (length list)) is
        ∙ ap done (map_same scts) in
      rw (read, is_nil-false list positive, all, read_scts)
        (ap (λ o. done (record cert { scts = append_scts c o scts })) fresh)

  read_extension-wire :
      (id : ℕ) (body rest : Bytes)
      → id < 65536
      → length body < 65536
      → read_extension c (u16 id ++ (vec16 body ++ rest)) ≡ some (id, body, rest)
  read_extension-wire id body rest h h' =
      rw (read-u16 c id (vec16 body ++ rest) h, read-vec16 c body rest h') refl

  -- An extension that is taken, and those behind it.
  extensions_next :
      (fuel id : ℕ) (cert cert' : TlsCertificate) (body rest : Bytes)
      → id < 65536
      → length body < 65536
      → take_leaf_extension c cert id body ≡ done cert'
      → read_extensions c (suc fuel) cert (u16 id ++ (vec16 body ++ rest))
        ≡ read_extensions c fuel cert' rest
  unfolding read_extensions
  extensions_next fuel id cert cert' body rest h h' taken =
      rw (read_extension-wire id body rest h h', taken, read_extensions) refl

  pub extensions_end :
      (fuel : ℕ) (cert : TlsCertificate) → read_extensions c fuel cert [] ≡ done cert
  unfolding read_extensions
  extensions_end zero cert = refl
  extensions_end (suc fuel) cert = refl

  -- One certificate, without a staple and timestamps yet.
  abbrev IsLeaf : TlsCertificate → Type 0
  IsLeaf cert = length cert.certificate ≡ 1

  take_ocsp :
      (cert : TlsCertificate) (staple : Bytes)
      → IsLeaf cert
      → IsStaple (some staple)
      → take_leaf_extension c cert 5 (1 ∷ vec24 staple)
        ≡ done (record cert { ocsp_staple = some staple })
  unfolding take_leaf_extension
  take_ocsp cert staple leaf is =
      let first : ltb 1 (length cert.certificate) ≡ false =
        le→ltb 1 (length cert.certificate) (omega arith) in
      rw (first, read_ocsp-wire cert staple is.0 is.1) refl

  take_scts :
      (cert : TlsCertificate) (scts : List Bytes)
      → IsLeaf cert
      → cert.scts ≡ none
      → IsScts (some scts)
      → take_leaf_extension c cert 18 (vec16 (encoded vec16 scts))
        ≡ done (record cert { scts = some scts })
  unfolding take_leaf_extension
  take_scts cert scts leaf fresh is =
      let first : ltb 1 (length cert.certificate) ≡ false =
        le→ltb 1 (length cert.certificate) (omega arith) in
      rw (first, read_scts-wire cert scts fresh is) refl

  scts_read :
      (fuel : ℕ) (cert : TlsCertificate) (o : Option (List Bytes))
      → IsLeaf cert
      → cert.scts ≡ none
      → IsScts o
      → length (scts_wire o) ≤ fuel
      → read_extensions c fuel cert (scts_wire o) ≡ done (record cert { scts = o })
  scts_read fuel cert none leaf fresh is enough =
      extensions_end fuel cert ∙ ap (λ o. done (record cert { scts = o })) fresh
  scts_read zero cert (some scts) leaf fresh is enough = absurd (omega arith)
  scts_read (suc fuel) cert (some scts) leaf fresh is enough =
      ap (λ t. read_extensions c (suc fuel) cert (u16 18 ++ t))
        (sym (append-nil (vec16 (vec16 (encoded vec16 scts)))))
      ∙ extensions_next fuel 18 cert (record cert { scts = some scts }) (vec16 (encoded vec16 scts))
          [] (omega arith) (omega (arith, is.2)) (take_scts cert scts leaf fresh is)
      ∙ extensions_end fuel (record cert { scts = some scts })

  -- The extensions of the leaf are read back.
  pub extensions_read :
      (fuel : ℕ) (cert : TlsCertificate) (o : Option Bytes) (o' : Option (List Bytes))
      → IsLeaf cert
      → cert.ocsp_staple ≡ none
      → cert.scts ≡ none
      → IsStaple o
      → IsScts o'
      → length (ocsp_wire o ++ scts_wire o') ≤ fuel
      → read_extensions c fuel cert (ocsp_wire o ++ scts_wire o')
        ≡ done (record cert { ocsp_staple = o; scts = o' })
  extensions_read fuel cert none o' leaf no_staple fresh is is' enough =
      scts_read fuel cert o' leaf fresh is' enough
      ∙ ap (λ o. done (record cert { ocsp_staple = o; scts = o' })) no_staple
  extensions_read zero cert (some staple) o' leaf no_staple fresh is is' enough =
      absurd (omega arith)
  extensions_read (suc fuel) cert (some staple) o' leaf no_staple fresh is is' enough =
      let size = length-append (ocsp_wire (some staple)) (scts_wire o') in
      extensions_next fuel 5 cert (record cert { ocsp_staple = some staple }) (1 ∷ vec24 staple)
        (scts_wire o') (omega arith) (omega (arith, is.1)) (take_ocsp cert staple leaf is)
      ∙ scts_read fuel (record cert { ocsp_staple = some staple }) o' leaf fresh is'
          (omega (arith, size, enough))
