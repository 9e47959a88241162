-- ===== src/Extension/Read/Each.antt =====
-- u_tls_extensions.go and trust_anchors.go: Read of each extension, with the Len that it checks.
use utls.Base.{
  ℕ, ◌+◌, ◌-◌, ◌*◌, Bool, ltb, List, [], ◌∷◌, Bytes, length, if◌then◌else◌, Run, ok, ◌>>=◌,
}
use utls.Base.Buffer.{store, copy_at}
use utls.Extension.{KeyShare, PaddingExtension, TrustAnchors}
use utls.Extension.Wire.{hi, lo, anchor_list}
use utls.Extension.Read.Store.{
  ReadResult, eof, short_buffer, too_many_compression_methods, too_many_versions,
  too_many_psk_modes, trust_anchors_too_long, answer, with_room, store_u16s, store_strings,
  store_shares, strings_len, key_shares_len,
}

-- The header of an extension whose body is a vector with a length of two bytes.
abbrev pub header16 : ℕ → ℕ → Bytes
header16 id n = hi id ∷ lo id ∷ hi (2 + n) ∷ lo (2 + n) ∷ hi n ∷ lo n ∷ []

-- SNIExtension, on the host name
abbrev pub sni_len : Bytes → ℕ
sni_len [] = 0
sni_len (c ∷ cs) = 4 + 2 + 1 + 2 + length (c ∷ cs)

-- `b[6]`, the name type, is not written.
unfoldable pub sni_read : Bytes → Bytes → Run ReadResult
sni_read [] b = answer 0 eof b
sni_read (c ∷ cs) b =
    let n = length (c ∷ cs) in
    with_room b (sni_len (c ∷ cs)) (do
      b₁ ← store b 0 (hi 0 ∷ lo 0 ∷ hi (n + 5) ∷ lo (n + 5) ∷ hi (n + 3) ∷ lo (n + 3) ∷ [])
      b₂ ← store b₁ 7 (hi n ∷ lo n ∷ [])
      copy_at b₂ 9 (c ∷ cs))

-- SupportedCurves, SignatureAlgorithms, SignatureAlgorithmsCert and FakeDelegatedCredentials
unfoldable pub u16_list_read : ℕ → List ℕ → Bytes → Run ReadResult
u16_list_read id xs b =
    with_room b (6 + 2 * length xs)
      (do b₁ ← store b 0 (header16 id (2 * length xs)); store_u16s b₁ 6 xs)

-- ALPNExtension and applicationSettingsExtension: the lengths are written after the strings.
unfoldable pub strings_read : ℕ → List Bytes → Bytes → Run ReadResult
strings_read id ss b = with_room b (6 + strings_len ss) (do
  b₁ ← store b 0 (hi id ∷ lo id ∷ [])
  b₂ ← store_strings b₁ 6 ss
  b₃ ← store b₂ 4 (hi (strings_len ss) ∷ lo (strings_len ss) ∷ [])
  store b₃ 2 (hi (strings_len ss + 2) ∷ lo (strings_len ss + 2) ∷ []))

-- The extensions that write their identifier alone, and leave the two bytes of the length.
unfoldable pub id_read : ℕ → Bytes → Run ReadResult
id_read id b = with_room b 4 (store b 0 (hi id ∷ lo id ∷ []))

-- GenericExtension and UtlsGREASEExtension
unfoldable pub opaque_read : ℕ → Bytes → Bytes → Run ReadResult
opaque_read id body b = with_room b (4 + length body) (do
  b₁ ← store b 0 (hi id ∷ lo id ∷ hi (length body) ∷ lo (length body) ∷ [])
  if ltb 0 (length body) then copy_at b₁ 4 body else ok b₁)

abbrev pub padding_len_of : PaddingExtension → ℕ
padding_len_of p = if p.will_pad then 4 + p.padding_len else 0

unfoldable pub padding_read : PaddingExtension → Bytes → Run ReadResult
padding_read p b =
    if p.will_pad
    then with_room b (padding_len_of p)
        (store b 0 (hi 21 ∷ lo 21 ∷ hi p.padding_len ∷ lo p.padding_len ∷ []))
    else answer 0 eof b

-- The part of UtlsCompressCertExtension.Read after the identifier is written.
unfoldable pub compress_cert_rest : List ℕ → ℕ → Bytes → Run ReadResult
compress_cert_rest xs n b = if ltb 255 n then answer 0 too_many_compression_methods b else (do
  b₂ ← store b 2 (hi (n + 1) ∷ lo (n + 1) ∷ lo n ∷ [])
  b₃ ← store_u16s b₂ 5 xs
  answer (4 + 1 + n) eof b₃)

unfoldable pub compress_cert_read : List ℕ → Bytes → Run ReadResult
unfolding compress_cert_rest
compress_cert_read xs b =
    let n = 2 * length xs in
    if ltb (length b) (4 + 1 + n)
    then answer 0 short_buffer b
    else store b 0 (hi 27 ∷ lo 27 ∷ []) >>= compress_cert_rest xs n

unfoldable pub key_share_read : List KeyShare → Bytes → Run ReadResult
key_share_read ks b =
    let n = key_shares_len ks in
    with_room b (4 + 2 + n) (do
      b₁ ← store b 0 (hi 51 ∷ lo 51 ∷ hi (n + 2) ∷ lo (n + 2) ∷ hi n ∷ lo n ∷ [])
      store_shares b₁ 6 ks)

unfoldable pub psk_modes_read : Bytes → Bytes → Run ReadResult
psk_modes_read ms b =
    let n = length ms in
    if ltb (length b) (4 + 1 + n)
    then answer 0 short_buffer b
    else if ltb 255 n
    then answer 0 too_many_psk_modes b
    else (do
      b₁ ← store b 0 (hi 45 ∷ lo 45 ∷ hi (n + 1) ∷ lo (n + 1) ∷ lo n ∷ [])
      b₂ ← (if ltb 0 n then copy_at b₁ 5 ms else ok b₁)
      answer (4 + 1 + n) eof b₂)

unfoldable pub versions_read : List ℕ → Bytes → Run ReadResult
versions_read xs b =
    let n = 2 * length xs in
    if ltb (length b) (4 + 1 + n)
    then answer 0 short_buffer b
    else if ltb 255 n
    then answer 0 too_many_versions b
    else (do
      b₁ ← store b 0 (hi 43 ∷ lo 43 ∷ hi (n + 1) ∷ lo (n + 1) ∷ lo n ∷ [])
      b₂ ← store_u16s b₁ 5 xs
      answer (4 + 1 + n) eof b₂)

unfoldable pub trust_anchors_read : TrustAnchors → Bytes → Run ReadResult
trust_anchors_read t b =
    let n = 6 + strings_len t.trust_anchors in
    let m = strings_len (anchor_list t) in
    if ltb (length b) n
    then answer 0 short_buffer b
    else if ltb 65533 (n - 6)
    then answer 0 trust_anchors_too_long b
    else (do
      b₁ ← store b 0 (hi 0xca34 ∷ lo 0xca34 ∷ [])
      b₂ ← store_strings b₁ 6 (anchor_list t)
      b₃ ← store b₂ 2 (hi (m + 2) ∷ lo (m + 2) ∷ [])
      b₄ ← store b₃ 4 (hi m ∷ lo m ∷ [])
      answer n eof b₄)

abbrev pub channel_id : Bool → ℕ
channel_id old = if old then 30031 else 30032

-- StatusRequestExtension
unfoldable pub status_request_read : Bytes → Run ReadResult
status_request_read b = with_room b 9 (store b 0 (hi 5 ∷ lo 5 ∷ 0 ∷ 5 ∷ 1 ∷ []))

-- SupportedCurvesExtension
abbrev pub supported_curves_read : List ℕ → Bytes → Run ReadResult
supported_curves_read = u16_list_read 10

-- SupportedPointsExtension
unfoldable pub supported_points_read : Bytes → Bytes → Run ReadResult
supported_points_read ps b =
    let n = length ps in
    with_room b (5 + n)
      (do b₁ ← store b 0 (hi 11 ∷ lo 11 ∷ hi (1 + n) ∷ lo (1 + n) ∷ lo n ∷ []); store b₁ 5 ps)

-- SignatureAlgorithmsExtension
abbrev pub signature_algorithms_read : List ℕ → Bytes → Run ReadResult
signature_algorithms_read = u16_list_read 13

-- StatusRequestV2Extension
unfoldable pub status_request_v2_read : Bytes → Run ReadResult
status_request_v2_read b =
    with_room b 13 (store b 0 (hi 17 ∷ lo 17 ∷ 0 ∷ 9 ∷ 0 ∷ 7 ∷ 2 ∷ 0 ∷ 4 ∷ []))

-- SignatureAlgorithmsCertExtension
abbrev pub signature_algorithms_cert_read : List ℕ → Bytes → Run ReadResult
signature_algorithms_cert_read = u16_list_read 50

-- FakeDelegatedCredentialsExtension
abbrev pub delegated_credentials_read : List ℕ → Bytes → Run ReadResult
delegated_credentials_read = u16_list_read 34

-- ALPNExtension
abbrev pub alpn_read : List Bytes → Bytes → Run ReadResult
alpn_read = strings_read 16

-- ApplicationSettingsExtension
abbrev pub application_settings_read : List Bytes → Bytes → Run ReadResult
application_settings_read = strings_read 17513

-- ApplicationSettingsExtensionNew
abbrev pub application_settings_new_read : List Bytes → Bytes → Run ReadResult
application_settings_new_read = strings_read 17613

-- SCTExtension
abbrev pub sct_read : Bytes → Run ReadResult
sct_read = id_read 18

-- ExtendedMasterSecretExtension
abbrev pub extended_master_secret_read : Bytes → Run ReadResult
extended_master_secret_read = id_read 23

-- NPNExtension
abbrev pub npn_read : Bytes → Run ReadResult
npn_read = id_read 13172

-- FakeChannelIDExtension
abbrev pub channel_id_read : Bool → Bytes → Run ReadResult
channel_id_read old = id_read (channel_id old)

-- GenericExtension
abbrev pub generic_read : ℕ → Bytes → Bytes → Run ReadResult
generic_read = opaque_read

-- UtlsGREASEExtension
abbrev pub grease_read : ℕ → Bytes → Bytes → Run ReadResult
grease_read = opaque_read

-- CookieExtension
unfoldable pub cookie_read : Bytes → Bytes → Run ReadResult
cookie_read c b =
    let n = length c in
    with_room b (6 + n) (do
      b₁ ← store b 0 (hi 44 ∷ lo 44 ∷ hi (2 + n) ∷ lo (2 + n) ∷ hi n ∷ lo n ∷ [])
      copy_at b₁ 6 c)

-- RenegotiationInfoExtension
unfoldable pub renegotiation_info_read : Bytes → Bytes → Run ReadResult
renegotiation_info_read c b =
    let n = length c in
    with_room b (5 + n) (do
      b₁ ← store b 0 (hi 0xff01 ∷ lo 0xff01 ∷ hi (1 + n) ∷ lo (1 + n) ∷ lo n ∷ [])
      copy_at b₁ 5 c)

-- FakeRecordSizeLimitExtension
unfoldable pub record_size_limit_read : ℕ → Bytes → Run ReadResult
record_size_limit_read l b = with_room b 6 (store b 0 (hi 28 ∷ lo 28 ∷ 0 ∷ 2 ∷ hi l ∷ lo l ∷ []))

-- FakeTokenBindingExtension
unfoldable pub token_binding_read : ℕ → ℕ → Bytes → Bytes → Run ReadResult
token_binding_read major minor ps b =
    let n = length ps in
    with_room b (7 + n) (do
      b₁ ← store b 0 (hi 24 ∷ lo 24 ∷ hi (3 + n) ∷ lo (3 + n) ∷ major ∷ minor ∷ lo n ∷ [])
      if ltb 0 n then copy_at b₁ 7 ps else ok b₁)

-- FakeEarlyDataExtension
unfoldable pub early_data_read : Bytes → Run ReadResult
early_data_read b = with_room b 4 (store b 0 (hi 42 ∷ lo 42 ∷ 0 ∷ 0 ∷ []))
