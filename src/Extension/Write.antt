-- ===== src/Extension/Write.antt =====
-- u_tls_extensions.go and trust_anchors.go: Write, which reads the body of an extension into one of
-- its type, and ExtensionFromID, which makes an empty one for an identifier. What a Write that fails
-- leaves in the extension is not modelled.
pub mod Parts
pub mod Each
pub mod Lists
pub mod Captures
pub mod Ends
use utls.Base.{
  ℕ, ◌+◌, Bool, true, false, not, ◌==◌, List, [], ◌∷◌, ◌++◌, Option, none, some, Bytes, length,
  if◌then◌else◌,
}
use utls.Grease.{grease_placeholder, is_grease_uint16, un_grease_uint16}
use utls.Cryptobyte.{Reader}
use utls.Cryptobyte.Loops.{Outcome, done, refused, out_of_fuel, read_all}
use utls.Extension.{
  KeyShare, PaddingExtension, TrustAnchors, Extension, sni, status_request, supported_curves,
  supported_points, signature_algorithms, status_request_v2, signature_algorithms_cert, alpn,
  application_settings, application_settings_new, sct, generic, extended_master_secret, grease,
  padding, compress_cert, key_share, psk_key_exchange_modes, supported_versions, cookie, npn,
  renegotiation_info, fake_channel_id, fake_record_size_limit, fake_token_binding,
  fake_delegated_credentials, fake_early_data, trust_anchors, renegotiate_never,
  renegotiate_once_as_client,
}
use utls.Extension.Padding.{boring_padding_style}
use utls.Extension.Write.Each.{
  supported_curves_write, signature_algorithms_write, signature_algorithms_cert_write,
  delegated_credentials_write, compress_cert_write, supported_versions_write, alpn_write,
  application_settings_write, application_settings_new_write, sct_write,
  extended_master_secret_write, grease_write, padding_write, npn_write, renegotiation_info_write,
  early_data_write,
}
use utls.Extension.Write.Parts.{
  WriteResult, wrote, failed, stuck, finish, u16s_16, u16s_8, strings_16, points_write, modes_write,
  sni_write, status_write, status_v2_write, shares_write, anchors_write, limit_write, binding_write,
}

-- TLSExtensionWriter.Write on the extension, by its type. GenericExtension and CookieExtension have
-- no Write.
unfoldable pub write : Reader → Extension → Bytes → WriteResult
write c (sni name) b = sni_write c (sni name) b
write c status_request b = status_write c b
write c (supported_curves xs) b = supported_curves_write c b
write c (supported_points ps) b = points_write c b
write c (signature_algorithms xs) b = signature_algorithms_write c b
write c status_request_v2 b = status_v2_write c b
write c (signature_algorithms_cert xs) b = signature_algorithms_cert_write c b
write c (alpn ps) b = alpn_write c b
write c (application_settings ps) b = application_settings_write c b
write c (application_settings_new ps) b = application_settings_new_write c b
write c sct b = sct_write
write c (generic id body) b = failed 0
write c extended_master_secret b = extended_master_secret_write
write c (grease id body) b = grease_write b
write c (padding p) b = padding_write p
write c (compress_cert xs) b = compress_cert_write c b
write c (key_share ks) b = shares_write c b
write c (psk_key_exchange_modes ms) b = modes_write c b
write c (supported_versions xs) b = supported_versions_write c b
write c (cookie v) b = failed 0
write c (npn ps) b = npn_write ps
write c (renegotiation_info r v) b = renegotiation_info_write v b
write c (fake_channel_id old) b = wrote (fake_channel_id old) 0
write c (fake_record_size_limit l) b = limit_write c b
write c (fake_token_binding major minor ps) b = binding_write c b
write c (fake_delegated_credentials xs) b = delegated_credentials_write c b
write c fake_early_data b = early_data_write b
write c (trust_anchors t) b = anchors_write c t b

-- What ExtensionFromID returns: an empty extension, one of the four types that `Extension` has not, or
-- nil.
pub data FromId : Type 0 where
  known : Extension → FromId
  session_ticket fake_pre_shared_key quic_transport_parameters grease_ech : FromId
  unknown : FromId

unfoldable pub first_match : ℕ → List (ℕ × FromId) → FromId → FromId
first_match id [] other = other
first_match id ((i, x) ∷ t) other = if id == i then x else first_match id t other

abbrev pub no_padding : PaddingExtension
no_padding = record { padding_len = 0; will_pad = false; get_padding_len = none }

abbrev pub no_anchors : TrustAnchors
no_anchors = record { trust_anchors = []; shuffle = false; emit_order = none }

-- The cases of the switch, in order.
abbrev pub from_id_table : List (ℕ × FromId)
from_id_table =
    (0, known (sni []))
    ∷ (5, known status_request)
    ∷ (10, known (supported_curves []))
    ∷ (11, known (supported_points []))
    ∷ (13, known (signature_algorithms []))
    ∷ (16, known (alpn []))
    ∷ (17, known status_request_v2)
    ∷ (18, known sct)
    ∷ (21, known (padding no_padding))
    ∷ (23, known extended_master_secret)
    ∷ (24, known (fake_token_binding 0 0 []))
    ∷ (27, known (compress_cert []))
    ∷ (28, known (fake_record_size_limit 0))
    ∷ (34, known (fake_delegated_credentials []))
    ∷ (35, session_ticket)
    ∷ (41, fake_pre_shared_key)
    ∷ (43, known (supported_versions []))
    ∷ (45, known (psk_key_exchange_modes []))
    ∷ (50, known (signature_algorithms_cert []))
    ∷ (51, known (key_share []))
    ∷ (57, quic_transport_parameters)
    ∷ (13172, known (npn []))
    ∷ (17513, known (application_settings []))
    ∷ (17613, known (application_settings_new []))
    ∷ (0xca34, known (trust_anchors no_anchors))
    ∷ (30031, known (fake_channel_id true))
    ∷ (30032, known (fake_channel_id false))
    ∷ (0xfe0d, grease_ech)
    ∷ (0xff01, known (renegotiation_info renegotiate_never []))
    ∷ []

unfoldable pub extension_from_id : ℕ → FromId
unfolding first_match
extension_from_id id =
    first_match id from_id_table (if is_grease_uint16 id then known (grease 0 []) else unknown)
