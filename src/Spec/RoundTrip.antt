-- ===== src/Spec/RoundTrip.antt =====
-- FromRaw on what MarshalClientHelloNoECH writes, in a record: the spec of the hello.
use utls.Base.{
  ℕ, zero, suc, ◌-◌, ◌≤◌, ◌<◌, Bool, false, ◌||◌, List, [], ◌∷◌, ◌++◌, map, Option, some, Bytes,
  length, length-append, All, append_assoc, append-nil, if◌then◌else◌, Bool-cases, inl, inr, ◌≡◌,
  refl, sym, ap, ◌∙◌, arith,
}
use utls.Grease.{un_grease_uint16}
use utls.Cryptobyte.Reads.{skip-append}
use utls.Cryptobyte.{Reader, read-u16, read-vec8, read-vec16}
use utls.Extension.{Extension}
use utls.Extension.Wire.{hi, lo, u16, u16s, vec8, vec16, encoding}
use utls.Extension.Read.Correct.{host_of}
use utls.Extension.Write.Lists.{IsU16, read_u16s}
use utls.Extension.Write.Captures.{IsCaptured, captured, captures, is_versions}
use utls.ClientHello.{Hello, u24}
use utls.ClientHello.Layout.{fixed_fields, encodings, extensions_block, client_hello}
use utls.Spec.{
  SpecExtension, plain, Spec, new_spec, parsed, go, append_extension, pad_to, read_cipher_suites,
  take_extension, extension_write, extension_step, extensions_loop, read_tls_extensions,
}
use utls.Spec.Raw.{
  record_header, message_header, flag, read_extensions_block, read_fields, read_message, from_raw,
}

-- A handshake record with the message `m`.
abbrev pub handshake_record : ℕ → Bytes → Bytes
handshake_record version m = 22 ∷ hi version ∷ lo version ∷ vec16 m

-- The fields of a hello are within their lengths.
abbrev pub IsHello : Hello → Type 0
IsHello h =
    (h.vers < 65536)
    × (length h.random ≡ 32)
    × (length h.session_id < 256)
    × All IsU16 h.cipher_suites
    × (length (u16s h.cipher_suites) < 65536)
    × (length h.compression_methods < 256)

abbrev pub any_versions : List Extension → Bool
any_versions [] = false
any_versions (e ∷ es) = is_versions e || any_versions es

module _ (c : Reader) where
  abbrev pub captured_all : List Extension → List SpecExtension
  captured_all [] = []
  captured_all (e ∷ es) = plain (captured c e) ∷ captured_all es

  -- The spec of a hello: cipher suites without GREASE, the captured extensions, and the two versions,
  -- unless the extensions tell the versions.
  abbrev pub spec_of : ℕ → Hello → List Extension → ℕ → Spec
  spec_of version h es n = record {
    cipher_suites = map un_grease_uint16 h.cipher_suites;
    compression_methods = h.compression_methods;
    extensions = pad_to n (captured_all es);
    tls_vers_min = if any_versions es then 0 else version;
    tls_vers_max = if any_versions es then 0 else h.vers;
  }

  -- What the extensions add to a spec.
  abbrev pub extended : List Extension → Spec → Spec
  extended es p = record {
    cipher_suites = p.cipher_suites;
    compression_methods = p.compression_methods;
    extensions = p.extensions ++ captured_all es;
    tls_vers_min = if any_versions es then 0 else p.tls_vers_min;
    tls_vers_max = if any_versions es then 0 else p.tls_vers_max;
  }

  abbrev pub after_one : Extension → Spec → Spec
  after_one e p =
      append_extension (plain (captured c e))
        (if is_versions e then record p { tls_vers_min = 0; tls_vers_max = 0 } else p)

  pub extended-after_one :
      (e : Extension) (es : List Extension) (p : Spec)
      → extended es (after_one e p) ≡ extended (e ∷ es) p
  extended-after_one e es p =
      let grouped = append_assoc p.extensions (plain (captured c e) ∷ []) (captured_all es) in
      elim (Bool-cases (is_versions e)) [
        | inr other ↦ rw (other, grouped) refl
        | inl found ↦ elim (Bool-cases (any_versions es)) [
          | inl more ↦ rw (found, more, grouped) refl
          | inr no_more ↦ rw (found, no_more, grouped) refl
        ]
      ]

module _ (c : Reader) (random : ℕ → Option Bytes) (ip : Bytes → Bool) (blunt real : Bool) where
  pub extension_step-encoding :
      (e : Extension) (rest : Bytes) (p : Spec)
      → IsCaptured ip e
      → (0 < length (encoding (host_of ip e) e))
        × (extension_step c random blunt real p (encoding (host_of ip e) e ++ rest)
            ≡ go (after_one c e p) rest)
  unfolding extension_step take_extension extension_write
  extension_step-encoding e rest p h =
      let (id, body, blank, n, id_fits, body_fits, framed_as, from_id, writes, versions) =
        captures c ip e h in
      (
        rw framed_as (omega arith),
        rw framed_as (
            rw (read-u16 c id (vec16 body ++ rest) id_fits, extension_step)
              (rw
                (
                  read-vec16 c body rest body_fits,
                  from_id,
                  take_extension,
                  extension_write,
                  writes,
                  versions,
                )
                refl)),
      )

  pub extensions_loop-step :
      (fuel : ℕ) (s rest : Bytes) (p p' : Spec)
      → 0 < length s
      → extension_step c random blunt real p s ≡ go p' rest
      → extensions_loop c random blunt real (suc fuel) s p
        ≡ extensions_loop c random blunt real fuel rest p'
  unfolding extensions_loop
  extensions_loop-step fuel [] rest p p' h e = absurd (omega arith)
  extensions_loop-step fuel (b ∷ s) rest p p' h e = rw (e, extensions_loop) refl

  pub extensions_loop-encodings :
      (es : List Extension) (fuel : ℕ) (p : Spec)
      → length (encodings ip es) ≤ fuel
      → All (IsCaptured ip) es
      → extensions_loop c random blunt real fuel (encodings ip es) p ≡ parsed (extended c es p)
  unfolding extensions_loop
  extensions_loop-encodings [] fuel p h all = rw (append-nil p.extensions) refl
  extensions_loop-encodings (e ∷ es) zero p h all =
      let first = (extension_step-encoding e (encodings ip es) p all.0).0 in
      let sum = length-append (encoding (host_of ip e) e) (encodings ip es) in absurd (omega arith)
  extensions_loop-encodings (e ∷ es) (suc fuel) p h all =
      let (some_bytes, step) = extension_step-encoding e (encodings ip es) p all.0 in
      let sum = length-append (encoding (host_of ip e) e) (encodings ip es) in
      extensions_loop-step fuel (encoding (host_of ip e) e ++ encodings ip es) (encodings ip es) p _
        (omega arith) step
      ∙ extensions_loop-encodings es fuel (after_one c e p) (omega arith) all.1
      ∙ ap parsed (extended-after_one c e es p)

  read_tls_extensions-encodings :
      (es : List Extension) (p : Spec)
      → All (IsCaptured ip) es
      → read_tls_extensions c random blunt real (encodings ip es) p ≡ parsed (extended c es p)
  unfolding read_tls_extensions
  read_tls_extensions-encodings es p all =
      extensions_loop-encodings es (length (encodings ip es)) p (omega arith) all

  read_extensions_block-block :
      (n : ℕ) (es : List Extension) (p : Spec)
      → All (IsCaptured ip) es
      → length (encodings ip es) < 65536
      → p.extensions ≡ []
      → read_extensions_block c random blunt real n (extensions_block ip es) p
        ≡ parsed (record (extended c es p) { extensions = pad_to n (captured_all c es) })
  unfolding read_extensions_block
  read_extensions_block-block n [] p all fits none_yet = rw none_yet refl
  read_extensions_block-block n (e ∷ es) p all fits none_yet =
      let whole : c.read_uint16_length_prefixed (vec16 (encodings ip (e ∷ es)))
          ≡ some (encodings ip (e ∷ es), []) =
        rw (append-nil (encodings ip (e ∷ es))) at (read-vec16 c (encodings ip (e ∷ es)) [] fits) in
      rw (whole, read_extensions_block)
        (rw (read_tls_extensions-encodings (e ∷ es) p all) (rw none_yet refl))

record_header-record :
    (c : Reader) (version : ℕ) (m : Bytes)
    → version < 65536
    → record_header c (handshake_record version m) ≡ some (22, version, m)
unfolding record_header
record_header-record c version m h =
    rw (c.read_uint8_cons 22 (hi version ∷ lo version ∷ vec16 m), record_header)
      (rw (read-u16 c version (vec16 m) h)
        (rw (skip-append c 2 (hi (length m) ∷ lo (length m) ∷ []) m refl) refl))

message_header-hello :
    (c : Reader) (length_bytes : ℕ) (version : ℕ) (random rest : Bytes)
    → version < 65536
    → length random ≡ 32
    → message_header c (1 ∷ (u24 length_bytes ++ (u16 version ++ (random ++ rest))))
      ≡ some (1, version, rest)
unfolding message_header
message_header-hello c n version random rest h size =
    rw (c.read_uint8_cons 1 (u24 n ++ (u16 version ++ (random ++ rest))), message_header)
      (rw (skip-append c 3 (u24 n) (u16 version ++ (random ++ rest)) refl) (
        rw (read-u16 c version (random ++ rest) h)
          (rw (skip-append c 32 random rest (sym size)) refl)))

grouped_fields :
    (h : Hello) (block : Bytes)
    → fixed_fields h ++ block
      ≡ u16 h.vers
        ++ (h.random
            ++ (vec8 h.session_id
                ++ (vec16 (u16s h.cipher_suites) ++ (vec8 h.compression_methods ++ block))))
grouped_fields h block = simp append_assoc

module _ (c : Reader) (random : ℕ → Option Bytes) (ip : Bytes → Bool) where
  read_cipher_suites-u16s :
      (xs : List ℕ) (p : Spec)
      → All IsU16 xs
      → read_cipher_suites c (u16s xs) p
        ≡ parsed (record p { cipher_suites = map un_grease_uint16 xs })
  unfolding read_cipher_suites
  read_cipher_suites-u16s xs p all =
      rw (read_u16s c un_grease_uint16 xs all, read_cipher_suites) refl

  read_fields-hello :
      (blunt real : Bool) (n version : ℕ) (h : Hello) (es : List Extension)
      → IsHello h
      → All (IsCaptured ip) es
      → length (encodings ip es) < 65536
      → read_fields c random blunt real n
          (vec8 h.session_id
            ++ (vec16 (u16s h.cipher_suites)
                ++ (vec8 h.compression_methods ++ extensions_block ip es)))
          (record new_spec { tls_vers_min = version; tls_vers_max = h.vers })
        ≡ parsed (spec_of c version h es n)
  unfolding read_fields
  read_fields-hello blunt real n version h es (vers, r, id, suites, suites_fit, methods) all fits =
      let block = extensions_block ip es in
      rw
        (
          read-vec8 c h.session_id
              (vec16 (u16s h.cipher_suites) ++ (vec8 h.compression_methods ++ block)) id,
          read_fields,
        )
        (rw (read-vec16 c (u16s h.cipher_suites) (vec8 h.compression_methods ++ block) suites_fit) (
          rw (read_cipher_suites-u16s h.cipher_suites _ suites) (
            rw (read-vec8 c h.compression_methods block methods)
              (read_extensions_block-block c random ip blunt real n es _ all fits refl))))

  read_message-hello :
      (blunt real : Bool) (n version : ℕ) (h : Hello) (es : List Extension)
      → IsHello h
      → All (IsCaptured ip) es
      → length (encodings ip es) < 65536
      → read_message c random blunt real n version (client_hello ip h es)
        ≡ parsed (spec_of c version h es n)
  unfolding read_message
  read_message-hello blunt real n version h es good all fits =
      let block = extensions_block ip es in
      let fields =
        vec8 h.session_id
        ++ (vec16 (u16s h.cipher_suites) ++ (vec8 h.compression_methods ++ block)) in
      rw (grouped_fields h block) (
        rw (message_header-hello c _ h.vers h.random fields good.0 good.1, read_message)
          (read_fields-hello blunt real n version h es good all fits))

  -- A ClientHello with fields within their lengths, captured extensions that fit 65535 bytes together, as
  -- MarshalClientHelloNoECH lays it out, in a handshake record: FromRaw returns, for all flags, the spec
  -- of that hello, its padding extension set to bring a hello to the length of this one.
  pub from_raw-client_hello :
      (flags : List Bool) (version : ℕ) (h : Hello) (es : List Extension)
      → version < 65536
      → IsHello h
      → All (IsCaptured ip) es
      → length (encodings ip es) < 65536
      → from_raw c random flags (handshake_record version (client_hello ip h es))
        ≡ parsed (spec_of c version h es (length (client_hello ip h es)))
  unfolding from_raw
  from_raw-client_hello flags version h es small good all fits =
      let m = client_hello ip h es in
      let size : length (handshake_record version m) - 5 ≡ length m = omega arith in
      rw (record_header-record c version m small, from_raw, size)
        (read_message-hello (flag 0 flags) (flag 1 flags) (length m) version h es good all fits)
