-- ===== src/Spec.antt =====
-- u_common.go: ClientHelloSpec, the description of a ClientHello that a captured one is read into, with
-- ReadCipherSuites, ReadCompressionMethods, ReadTLSExtensions, FromRaw and AlwaysAddPadding. The
-- fields GetSessionID and GREASESeed, which these leave alone, are left out.
pub mod Others
pub mod Raw
pub mod Ends
pub mod RoundTrip
pub mod Marshalled
pub mod Padding
pub mod Refuses
use utls.Base.{
  ℕ, zero, suc, ◌+◌, ◌-◌, Bool, true, false, not, ◌==◌, List, [], ◌∷◌, ◌++◌, Option, none, some,
  Bytes, length, if◌then◌else◌,
}
use utls.Grease.{un_grease_uint16}
use utls.Cryptobyte.{Reader}
use utls.Cryptobyte.Loops.{Outcome, done, refused, out_of_fuel, read_all}
use utls.Extension.{PaddingExtension, Extension, padding, generic}
use utls.Extension.Padding.{boring_padding_style, always_pad_to_len}
use utls.Extension.Write.{
  write, FromId, known, session_ticket, fake_pre_shared_key, quic_transport_parameters, grease_ech,
  unknown, extension_from_id,
}
use utls.Extension.Write.Parts.{WriteResult, wrote, failed, stuck, u16_step}
use utls.Session.State.{PskIdentity}
use utls.Spec.Others.{GreaseEch, fake_psk_write, grease_ech_write}

-- An element of the extension list: one of the plain types, a session ticket, one of the two
-- pre-shared key extensions, QUIC transport parameters with their raw data, or GREASE ECH.
pub data SpecExtension : Type 0 where
  plain : Extension → SpecExtension
  ticket : SpecExtension
  real_psk : SpecExtension
  fake_psk : List PskIdentity → List Bytes → SpecExtension
  quic_params : Bytes → SpecExtension
  ech : GreaseEch → SpecExtension

-- ClientHelloSpec
pub record Spec : Type 0 where
  pub cipher_suites : List ℕ
  pub compression_methods : Bytes
  pub extensions : List SpecExtension
  pub tls_vers_min : ℕ
  pub tls_vers_max : ℕ

abbrev pub new_spec : Spec
new_spec = record {
  cipher_suites = [];
  compression_methods = [];
  extensions = [];
  tls_vers_min = 0;
  tls_vers_max = 0;
}

-- The errors, by their messages. `bad_extension` is one that a Write returns.
pub data ParseError : Type 0 where
  cipher_suite_error extension_id_error extension_data_error bad_extension : ParseError
  unsupported_extension : ℕ → ParseError
  record_error not_handshake message_error not_client_hello session_id_error : ParseError
  cipher_suites_error compression_methods_error extensions_error : ParseError

-- What a parser ends in: no error, an error, or a loop out of fuel; the first two with the spec then.
pub data Parsed : Type 0 where
  parsed : Spec → Parsed
  rejected : ParseError → Spec → Parsed
  unended : Parsed

abbrev pub and_then : Parsed → (Spec → Parsed) → Parsed
and_then (parsed p) next = next p
and_then (rejected e p) next = rejected e p
and_then unended next = unended

-- A read, or an error and the spec.
abbrev pub need {ℓ} : {A : Type ℓ} → ParseError → Spec → Option A → (A → Parsed) → Parsed
need e p none next = rejected e p
need e p (some a) next = next a

pub data Step : Type 0 where
  stop : Parsed → Step
  go : Spec → Bytes → Step

abbrev pub append_extension : SpecExtension → Spec → Spec
append_extension e p = record p { extensions = p.extensions ++ e ∷ [] }

-- `case extensionSupportedVersions`
abbrev pub reset_versions : ℕ → Spec → Spec
reset_versions id p = if id == 43 then record p { tls_vers_min = 0; tls_vers_max = 0 } else p

abbrev pub as_plain : WriteResult → Outcome SpecExtension
as_plain (wrote e n) = done (plain e)
as_plain (failed n) = refused
as_plain stuck = out_of_fuel

abbrev pub as_fake : Outcome (List PskIdentity × List Bytes) → Outcome SpecExtension
as_fake (done (ids, bs)) = done (fake_psk ids bs)
as_fake refused = refused
as_fake out_of_fuel = out_of_fuel

abbrev pub as_ech : Option GreaseEch → Outcome SpecExtension
as_ech none = refused
as_ech (some g) = done (ech g)

-- The first padding extension is to bring the hello to the length `n`.
abbrev pub pad_to : ℕ → List SpecExtension → List SpecExtension
pad_to n [] = []
pad_to n (plain (padding p) ∷ es) =
    plain (padding (record p { get_padding_len = some (always_pad_to_len n) })) ∷ es
pad_to n (e ∷ es) = e ∷ pad_to n es

abbrev pub with_suites : Spec → Outcome (List ℕ) → Parsed
with_suites p (done xs) = parsed (record p { cipher_suites = xs })
with_suites p refused = rejected cipher_suite_error p
with_suites p out_of_fuel = unended

unfoldable pub read_cipher_suites : Reader → Bytes → Spec → Parsed
read_cipher_suites c b p = with_suites p (read_all (u16_step c un_grease_uint16) (length b) b)

abbrev pub read_compression_methods : Bytes → Spec → Parsed
read_compression_methods b p = parsed (record p { compression_methods = b })

module _ (c : Reader) (random : ℕ → Option Bytes) where
  -- `extWriter.Write(extData)`, with the choice of the pre-shared key extension.
  unfoldable pub extension_write : Bool → FromId → Bytes → Outcome SpecExtension
  extension_write real (known e) b = as_plain (write c e b)
  extension_write real session_ticket b = done ticket
  extension_write real fake_pre_shared_key b =
      if real then done real_psk else as_fake (fake_psk_write c b)
  extension_write real quic_transport_parameters b = done (quic_params b)
  extension_write real grease_ech b = as_ech (grease_ech_write c random b)
  extension_write real unknown b = refused

  abbrev pub take_known : Spec → Bytes → Outcome SpecExtension → Step
  take_known p rest (done e) = go (append_extension e p) rest
  take_known p rest refused = stop (rejected bad_extension p)
  take_known p rest out_of_fuel = stop unended

  unfoldable pub take_extension : Bool → Bool → Spec → ℕ → Bytes → Bytes → FromId → Step
  take_extension blunt real p id body rest unknown =
      if blunt
      then go (append_extension (plain (generic id body)) p) rest
      else stop (rejected (unsupported_extension id) p)
  take_extension blunt real p id body rest x =
      take_known (reset_versions id p) rest (extension_write real x body)

  -- One round of the loop of ReadTLSExtensions.
  unfoldable pub extension_step : Bool → Bool → Spec → Bytes → Step
  extension_step blunt real p s = elim (c.read_uint16 s) [
    | none ↦ stop (rejected extension_id_error p)
    | some (id, s₁) ↦ elim (c.read_uint16_length_prefixed s₁) [
      | none ↦ stop (rejected extension_data_error p)
      | some (body, rest) ↦ take_extension blunt real p id body rest (extension_from_id id)
    ]
  ]

  unfoldable pub extensions_loop : Bool → Bool → ℕ → Bytes → Spec → Parsed
  extensions_loop blunt real fuel [] p = parsed p
  extensions_loop blunt real zero (b ∷ s) p = unended
  extensions_loop blunt real (suc fuel) (b ∷ s) p = elim (extension_step blunt real p (b ∷ s)) [
    | stop r ↦ r
    | go p' rest ↦ extensions_loop blunt real fuel rest p'
  ]

  unfoldable pub read_tls_extensions : Bool → Bool → Bytes → Spec → Parsed
  read_tls_extensions blunt real b p = extensions_loop blunt real (length b) b p
