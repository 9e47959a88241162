-- ===== src/Spec/Refuses.antt =====
-- ReadTLSExtensions on an extension that ExtensionFromID does not know.
use utls.Base.{
  ℕ, zero, suc, ◌+◌, ◌-◌, ◌≤◌, ◌<◌, Bool, true, false, List, [], ◌∷◌, ◌++◌, Option, Bytes, length,
  length-append, All, append_assoc, append-nil, ◌≡◌, refl, ap, ◌∙◌, arith,
}
use utls.Cryptobyte.{Reader, read-u16, read-vec16}
use utls.Extension.{Extension, generic}
use utls.Extension.Wire.{vec16, framed, encoding}
use utls.Extension.Read.Correct.{host_of}
use utls.Extension.Write.{unknown, extension_from_id}
use utls.Extension.Write.Captures.{IsCaptured}
use utls.ClientHello.Layout.{encodings}
use utls.Spec.{
  plain, Spec, new_spec, parsed, rejected, unsupported_extension, append_extension, take_extension,
  extension_step, extensions_loop, read_tls_extensions,
}
use utls.Spec.RoundTrip.{
  extended, after_one, extended-after_one, extension_step-encoding, extensions_loop-step,
  extensions_loop-encodings,
}

module _ (c : Reader) (random : ℕ → Option Bytes) (ip : Bytes → Bool) (blunt real : Bool) where
  extensions_loop-append :
      (es : List Extension) (fuel k : ℕ) (rest : Bytes) (p : Spec)
      → fuel ≡ length es + k
      → All (IsCaptured ip) es
      → extensions_loop c random blunt real fuel (encodings ip es ++ rest) p
        ≡ extensions_loop c random blunt real k rest (extended c es p)
  extensions_loop-append [] fuel k rest p h all =
      rw (append-nil p.extensions, (let e : fuel ≡ k = omega arith in e)) refl
  extensions_loop-append (e ∷ es) zero k rest p h all = absurd (omega arith)
  extensions_loop-append (e ∷ es) (suc fuel) k rest p h all =
      let one = encoding (host_of ip e) e in
      let (some_bytes, step) =
        extension_step-encoding c random ip blunt real e (encodings ip es ++ rest) p all.0 in
      let sum = length-append one (encodings ip es ++ rest) in
      rw (append_assoc one (encodings ip es) rest) (
        extensions_loop-step c random ip blunt real fuel (one ++ (encodings ip es ++ rest))
          (encodings ip es ++ rest) p _ (omega arith) step
        ∙ extensions_loop-append es fuel k rest (after_one c e p) (omega arith) all.1
        ∙ ap (extensions_loop c random blunt real k rest) (extended-after_one c e es p))

  length-encodings :
      (es : List Extension) → All (IsCaptured ip) es → length es ≤ length (encodings ip es)
  length-encodings [] all = omega arith
  length-encodings (e ∷ es) all =
      let (some_bytes, _) = extension_step-encoding c random ip blunt real e [] new_spec all.0 in
      let sum = length-append (encoding (host_of ip e) e) (encodings ip es) in
      let more = length-encodings es all.1 in omega arith

  unknown_step :
      (id : ℕ) (body rest : Bytes) (p : Spec)
      → id < 65536
      → length body < 65536
      → extension_from_id id ≡ unknown
      → extension_step c random blunt real p (framed id body ++ rest)
        ≡ take_extension c random blunt real p id body rest unknown
  unfolding extension_step
  unknown_step id body rest p id_fits body_fits none_made =
      rw (read-u16 c id (vec16 body ++ rest) id_fits, extension_step)
        (rw (read-vec16 c body rest body_fits) (rw none_made refl))

  -- After captured extensions, the loop stands at what follows, with fuel to go on.
  after_captured :
      (es : List Extension) (rest : Bytes) (p : Spec)
      → All (IsCaptured ip) es
      → 0 < length rest
      → (k : ℕ) × (length rest ≤ suc k)
        × (read_tls_extensions c random blunt real (encodings ip es ++ rest) p
            ≡ extensions_loop c random blunt real (suc k) rest (extended c es p))
  unfolding read_tls_extensions
  after_captured es rest p all more =
      let sum = length-append (encodings ip es) rest in
      let few = length-encodings es all in
      let n = length (encodings ip es ++ rest) in
      (
        n - length es - 1,
        omega arith,
        extensions_loop-append es n (suc (n - length es - 1)) rest p (omega arith) all,
      )

module _ (c : Reader) (random : ℕ → Option Bytes) (ip : Bytes → Bool) (real : Bool) where
  -- An extension whose identifier ExtensionFromID does not know, after captured ones: without blunt mimicry
  -- ReadTLSExtensions returns the error for that identifier, with the extensions before it in the spec,
  -- whatever follows; with it, the extension is kept with its identifier and body, and captured
  -- extensions that follow are read as well.
  pub read_tls_extensions-unknown :
      (es es' : List Extension) (id : ℕ) (body rest : Bytes) (p : Spec)
      → All (IsCaptured ip) es
      → All (IsCaptured ip) es'
      → id < 65536
      → length body < 65536
      → extension_from_id id ≡ unknown
      → (read_tls_extensions c random false real (encodings ip es ++ (framed id body ++ rest)) p
          ≡ rejected (unsupported_extension id) (extended c es p))
        × (read_tls_extensions c random true real
              (encodings ip es ++ (framed id body ++ encodings ip es'))
              p
            ≡ parsed
                (extended c es' (append_extension (plain (generic id body)) (extended c es p))))
  unfolding take_extension extensions_loop
  read_tls_extensions-unknown es es' id body rest p all all' id_fits body_fits none_made =
      let q = extended c es p in
      let (k, _, refuse) =
        after_captured c random ip false real es (framed id body ++ rest) p all (omega arith) in
      let (k', room, accept) =
        after_captured c random ip true real es (framed id body ++ encodings ip es') p all
          (omega arith) in
      let sum = length-append body (encodings ip es') in
      (
        refuse
            ∙ rw
                (
                  unknown_step c random ip false real id body rest q id_fits body_fits none_made,
                  extensions_loop,
                )
                refl,
        accept
            ∙ rw
                (
                  unknown_step c random ip true real id body (encodings ip es') q id_fits body_fits
                      none_made,
                  extensions_loop,
                )
                (extensions_loop-encodings c random ip true real es' k'
                  (append_extension (plain (generic id body)) q) (omega arith) all'),
      )
