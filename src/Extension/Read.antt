-- ===== src/Extension/Read.antt =====
-- TLSExtension of u_tls_extensions.go: Len and Read by the type of the extension.
pub mod Store
pub mod Each
pub mod Loops
pub mod Encodes
pub mod Sized
pub mod Correct
pub mod Refuses
use utls.Base.{
  ℕ, ◌+◌, ◌-◌, ◌*◌, Bool, true, false, ◌==◌, ltb, leb, List, [], ◌∷◌, Option, none, some, Bytes,
  length, if◌then◌else◌, Run, ok, panic, check, ◌>>=◌, ◌>>◌,
}
use utls.Base.Buffer.{store, copy_at}
use utls.Extension.{
  KeyShare, PaddingExtension, TrustAnchors, Extension, sni, status_request, supported_curves,
  supported_points, signature_algorithms, status_request_v2, signature_algorithms_cert, alpn,
  application_settings, application_settings_new, sct, generic, extended_master_secret, grease,
  padding, compress_cert, key_share, psk_key_exchange_modes, supported_versions, cookie, npn,
  renegotiation_info, fake_channel_id, fake_record_size_limit, fake_token_binding,
  fake_delegated_credentials, fake_early_data, trust_anchors,
}
use utls.Extension.Wire.{hi, lo, anchor_list}
use utls.Extension.HostName.{hostname_in_sni}
use utls.Extension.Read.Store.{ReadResult, strings_len, key_shares_len}
use utls.Extension.Read.Each.{
  sni_len, sni_read, status_request_read, supported_curves_read, supported_points_read,
  signature_algorithms_read, status_request_v2_read, signature_algorithms_cert_read, alpn_read,
  application_settings_read, application_settings_new_read, sct_read, generic_read,
  extended_master_secret_read, grease_read, padding_len_of, padding_read, compress_cert_read,
  key_share_read, psk_modes_read, versions_read, cookie_read, npn_read, renegotiation_info_read,
  channel_id_read, record_size_limit_read, token_binding_read, delegated_credentials_read,
  early_data_read, trust_anchors_read,
}

-- TLSExtension.Len; the first argument is net.ParseIP, for the host name of SNIExtension.
unfoldable pub len : (Bytes → Bool) → Extension → ℕ
len parse_ip (sni name) = sni_len (hostname_in_sni parse_ip name)
len parse_ip status_request = 9
len parse_ip (supported_curves xs) = 6 + 2 * length xs
len parse_ip (supported_points ps) = 5 + length ps
len parse_ip (signature_algorithms xs) = 6 + 2 * length xs
len parse_ip status_request_v2 = 13
len parse_ip (signature_algorithms_cert xs) = 6 + 2 * length xs
len parse_ip (alpn ps) = 6 + strings_len ps
len parse_ip (application_settings ps) = 6 + strings_len ps
len parse_ip (application_settings_new ps) = 6 + strings_len ps
len parse_ip sct = 4
len parse_ip (generic id body) = 4 + length body
len parse_ip extended_master_secret = 4
len parse_ip (grease id body) = 4 + length body
len parse_ip (padding p) = padding_len_of p
len parse_ip (compress_cert xs) = 4 + 1 + 2 * length xs
len parse_ip (key_share ks) = 4 + 2 + key_shares_len ks
len parse_ip (psk_key_exchange_modes ms) = 4 + 1 + length ms
len parse_ip (supported_versions xs) = 4 + 1 + 2 * length xs
len parse_ip (cookie c) = 6 + length c
len parse_ip (npn ps) = 4
len parse_ip (renegotiation_info r c) = 5 + length c
len parse_ip (fake_channel_id old) = 4
len parse_ip (fake_record_size_limit l) = 6
len parse_ip (fake_token_binding major minor ps) = 2 + 2 + 2 + 1 + length ps
len parse_ip (fake_delegated_credentials xs) = 6 + 2 * length xs
len parse_ip fake_early_data = 4
len parse_ip (trust_anchors t) = 2 + 2 + 2 + strings_len t.trust_anchors

-- TLSExtension.Read
unfoldable pub read : (Bytes → Bool) → Extension → Bytes → Run ReadResult
unfolding status_request_read supported_points_read status_request_v2_read cookie_read
    renegotiation_info_read record_size_limit_read token_binding_read early_data_read
read parse_ip (sni name) = sni_read (hostname_in_sni parse_ip name)
read parse_ip status_request = status_request_read
read parse_ip (supported_curves xs) = supported_curves_read xs
read parse_ip (supported_points ps) = supported_points_read ps
read parse_ip (signature_algorithms xs) = signature_algorithms_read xs
read parse_ip status_request_v2 = status_request_v2_read
read parse_ip (signature_algorithms_cert xs) = signature_algorithms_cert_read xs
read parse_ip (alpn ps) = alpn_read ps
read parse_ip (application_settings ps) = application_settings_read ps
read parse_ip (application_settings_new ps) = application_settings_new_read ps
read parse_ip sct = sct_read
read parse_ip (generic id body) = generic_read id body
read parse_ip extended_master_secret = extended_master_secret_read
read parse_ip (grease id body) = grease_read id body
read parse_ip (padding p) = padding_read p
read parse_ip (compress_cert xs) = compress_cert_read xs
read parse_ip (key_share ks) = key_share_read ks
read parse_ip (psk_key_exchange_modes ms) = psk_modes_read ms
read parse_ip (supported_versions xs) = versions_read xs
read parse_ip (cookie c) = cookie_read c
read parse_ip (npn ps) = npn_read
read parse_ip (renegotiation_info r c) = renegotiation_info_read c
read parse_ip (fake_channel_id old) = channel_id_read old
read parse_ip (fake_record_size_limit l) = record_size_limit_read l
read parse_ip (fake_token_binding major minor ps) = token_binding_read major minor ps
read parse_ip (fake_delegated_credentials xs) = delegated_credentials_read xs
read parse_ip fake_early_data = early_data_read
read parse_ip (trust_anchors t) = trust_anchors_read t
