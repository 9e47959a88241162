-- ===== src/Extension.antt =====
-- u_tls_extensions.go: the extensions of a ClientHello, with Len and Read. (trust_anchors.go has one
-- more of the same kind.) `HostName` is hostnameInSNI of handshake_client.go, `Read` the methods
-- Len and Read, `Write` the method Write and ExtensionFromID, `Wire` the format of
-- RFC 8446 as lists of bytes, `Exact` those without cutting a length, and `Padding` the padding policies.
pub mod HostName
pub mod Wire
pub mod Exact
pub mod Read
pub mod Padding
pub mod Write
use utls.Base.{ℕ, Bool, List, Option, Bytes}

-- KeyShare
pub record KeyShare : Type 0 where
  pub group : ℕ
  pub key : Bytes

-- RenegotiationSupport
pub data RenegotiationSupport : Type 0 where
  renegotiate_never renegotiate_once_as_client renegotiate_freely_as_client : RenegotiationSupport

-- A functor on the length of the unpadded ClientHello: the padding length, and whether to pad.
abbrev pub PaddingStyle : Type 0
PaddingStyle = ℕ → ℕ × Bool

-- UtlsPaddingExtension
pub record PaddingExtension : Type 0 where
  pub padding_len : ℕ
  pub will_pad : Bool
  pub get_padding_len : Option PaddingStyle

-- TrustAnchorsExtension
pub record TrustAnchors : Type 0 where
  pub trust_anchors : List Bytes
  pub shuffle : Bool
  pub emit_order : Option (List Bytes)

-- The types that implement TLSExtension, each with its fields. SNIExtension has the server name,
-- GenericExtension and UtlsGREASEExtension an identifier and a body, FakeChannelIDExtension says
-- whether it uses the old identifier.
pub data Extension : Type 0 where
  sni : Bytes → Extension
  status_request : Extension
  supported_curves : List ℕ → Extension
  supported_points : Bytes → Extension
  signature_algorithms : List ℕ → Extension
  status_request_v2 : Extension
  signature_algorithms_cert : List ℕ → Extension
  alpn : List Bytes → Extension
  application_settings : List Bytes → Extension
  application_settings_new : List Bytes → Extension
  sct : Extension
  generic : ℕ → Bytes → Extension
  extended_master_secret : Extension
  grease : ℕ → Bytes → Extension
  padding : PaddingExtension → Extension
  compress_cert : List ℕ → Extension
  key_share : List KeyShare → Extension
  psk_key_exchange_modes : Bytes → Extension
  supported_versions : List ℕ → Extension
  cookie : Bytes → Extension
  npn : List Bytes → Extension
  renegotiation_info : RenegotiationSupport → Bytes → Extension
  fake_channel_id : Bool → Extension
  fake_record_size_limit : ℕ → Extension
  fake_token_binding : ℕ → ℕ → Bytes → Extension
  fake_delegated_credentials : List ℕ → Extension
  fake_early_data : Extension
  trust_anchors : TrustAnchors → Extension
