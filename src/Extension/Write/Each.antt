-- ===== src/Extension/Write/Each.antt =====
-- Write of the types that share a reader, and of those that read nothing.
use utls.Base.{true, false, List, some, Bytes, length}
use utls.Grease.{grease_placeholder, un_grease_uint16}
use utls.Cryptobyte.{Reader}
use utls.Extension.{
  PaddingExtension, supported_curves, signature_algorithms, signature_algorithms_cert, alpn,
  application_settings, application_settings_new, sct, extended_master_secret, grease, padding,
  compress_cert, supported_versions, npn, renegotiation_info, fake_delegated_credentials,
  fake_early_data, renegotiate_once_as_client,
}
use utls.Extension.Padding.{boring_padding_style}
use utls.Extension.Write.Parts.{WriteResult, wrote, u16s_16, u16s_8, strings_16}

-- SupportedCurvesExtension
abbrev pub supported_curves_write : Reader → Bytes → WriteResult
supported_curves_write c b = u16s_16 c true un_grease_uint16 supported_curves b

-- SignatureAlgorithmsExtension
abbrev pub signature_algorithms_write : Reader → Bytes → WriteResult
signature_algorithms_write c b = u16s_16 c true (λ x. x) signature_algorithms b

-- SignatureAlgorithmsCertExtension
abbrev pub signature_algorithms_cert_write : Reader → Bytes → WriteResult
signature_algorithms_cert_write c b = u16s_16 c true (λ x. x) signature_algorithms_cert b

-- FakeDelegatedCredentialsExtension
abbrev pub delegated_credentials_write : Reader → Bytes → WriteResult
delegated_credentials_write c b = u16s_16 c true (λ x. x) fake_delegated_credentials b

-- UtlsCompressCertExtension
abbrev pub compress_cert_write : Reader → Bytes → WriteResult
compress_cert_write c b = u16s_8 c false (λ x. x) compress_cert b

-- SupportedVersionsExtension
abbrev pub supported_versions_write : Reader → Bytes → WriteResult
supported_versions_write c b = u16s_8 c true un_grease_uint16 supported_versions b

-- ALPNExtension
abbrev pub alpn_write : Reader → Bytes → WriteResult
alpn_write c b = strings_16 c alpn b

-- ApplicationSettingsExtension
abbrev pub application_settings_write : Reader → Bytes → WriteResult
application_settings_write c b = strings_16 c application_settings b

-- ApplicationSettingsExtensionNew
abbrev pub application_settings_new_write : Reader → Bytes → WriteResult
application_settings_new_write c b = strings_16 c application_settings_new b

-- SCTExtension
abbrev pub sct_write : WriteResult
sct_write = wrote sct 0

-- ExtendedMasterSecretExtension
abbrev pub extended_master_secret_write : WriteResult
extended_master_secret_write = wrote extended_master_secret 0

-- UtlsGREASEExtension, whose value becomes the placeholder
abbrev pub grease_write : Bytes → WriteResult
grease_write b = wrote (grease grease_placeholder b) (length b)

-- UtlsPaddingExtension
abbrev pub padding_write : PaddingExtension → WriteResult
padding_write p = wrote (padding (record p { get_padding_len = some boring_padding_style })) 0

-- NPNExtension
abbrev pub npn_write : List Bytes → WriteResult
npn_write ps = wrote (npn ps) 0

-- RenegotiationInfoExtension
abbrev pub renegotiation_info_write : Bytes → Bytes → WriteResult
renegotiation_info_write v b = wrote (renegotiation_info renegotiate_once_as_client v) (length b)

-- FakeEarlyDataExtension
abbrev pub early_data_write : Bytes → WriteResult
early_data_write b = wrote fake_early_data (length b)
