-- ===== src/Extension/Read/Correct.antt =====
-- Read against the wire format, for every extension.
use utls.Base.{
  ℕ, ◌+◌, ◌*◌, ◌≤◌, Bool, false, [], ◌∷◌, ◌++◌, Bytes, length, ◌≡◌, refl, ap, ◌∙◌, arith, ok, ◌>>=◌,
  if◌then◌else◌,
}
use utls.Base.Buffer.{store, put, copy_at}
use utls.Extension.{
  Extension, sni, status_request, supported_curves, supported_points, signature_algorithms,
  status_request_v2, signature_algorithms_cert, alpn, application_settings,
  application_settings_new, sct, generic, extended_master_secret, grease, padding, compress_cert,
  key_share, psk_key_exchange_modes, supported_versions, cookie, npn, renegotiation_info,
  fake_channel_id, fake_record_size_limit, fake_token_binding, fake_delegated_credentials,
  fake_early_data, trust_anchors,
}
use utls.Extension.HostName.{hostname_in_sni}
use utls.Extension.Wire.{hi, lo, vec8, vec16, framed, encoding, anchor_list}
use utls.Extension.Read.{len, read}
use utls.Extension.Read.Store.{eof, answer, with_room, strings_len}
use utls.Extension.Read.Loops.{zeros, store_first, copy_at-zeros}
use utls.Extension.Read.Encodes.{
  with_room-zeros, framed-vec16, framed-vec8, copy_if_any, u16_list_read-zeros, strings_read-zeros,
  id_read-zeros, opaque_read-zeros, padding_read-zeros, points_read-zeros,
}
use utls.Extension.Read.Sized.{
  compress_cert_read-zeros, versions_read-zeros, psk_modes_read-zeros, key_share_read-zeros,
  trust_anchors_read-zeros, sni_read-zeros,
}

-- What Read checks besides the room: a list with a length of one byte fits it, the trust anchors fit
-- theirs, and their order of emission is of the same length.
abbrev pub IsEncodable : Extension → Type 0
IsEncodable (compress_cert xs) = 2 * length xs ≤ 255
IsEncodable (psk_key_exchange_modes ms) = length ms ≤ 255
IsEncodable (supported_versions xs) = 2 * length xs ≤ 255
IsEncodable (trust_anchors t) =
    (strings_len (anchor_list t) ≡ strings_len t.trust_anchors)
    × (strings_len t.trust_anchors ≤ 65533)
IsEncodable _ = Unit

-- The host name of an SNI extension, and nothing for the others.
abbrev pub host_of : (Bytes → Bool) → Extension → Bytes
host_of parse_ip (sni name) = hostname_in_sni parse_ip name
host_of parse_ip _ = []

cookie_read-zeros :
    (c post : Bytes)
    → with_room (zeros (6 + length c) ++ post) (6 + length c) (
        store (zeros (6 + length c) ++ post) 0 (
          hi 44
          ∷ lo 44
          ∷ hi (2 + length c)
          ∷ lo (2 + length c)
          ∷ hi (length c)
          ∷ lo (length c)
          ∷ [])
        >>= λ b₁. copy_at b₁ 6 c)
      ≡ answer (6 + length c) eof (framed 44 (vec16 c) ++ post)
cookie_read-zeros c post =
    let n = length c in
    let h : Bytes = hi 44 ∷ lo 44 ∷ hi (2 + n) ∷ lo (2 + n) ∷ hi n ∷ lo n ∷ [] in
    with_room-zeros (6 + n) post _ _ (
      rw (store_first [] h post 0 (6 + n) n refl refl) (
        copy_at-zeros h c post 6 n refl refl
        ∙ ap ok (framed-vec16 44 n (2 + n) c post refl (omega arith))))

renegotiation_read-zeros :
    (c post : Bytes)
    → with_room (zeros (5 + length c) ++ post) (5 + length c) (
        store
          (zeros (5 + length c) ++ post)
          0
          (hi 0xff01 ∷ lo 0xff01 ∷ hi (1 + length c) ∷ lo (1 + length c) ∷ lo (length c) ∷ [])
        >>= λ b₁. copy_at b₁ 5 c)
      ≡ answer (5 + length c) eof (framed 0xff01 (vec8 c) ++ post)
renegotiation_read-zeros c post =
    let n = length c in
    let h : Bytes = hi 0xff01 ∷ lo 0xff01 ∷ hi (1 + n) ∷ lo (1 + n) ∷ lo n ∷ [] in
    with_room-zeros (5 + n) post _ _ (
      rw (store_first [] h post 0 (5 + n) n refl refl) (
        copy_at-zeros h c post 5 n refl refl
        ∙ ap ok (framed-vec8 0xff01 n (1 + n) c post refl (omega arith))))

-- The body of a token binding extension: two version bytes and a vector.
framed_binding :
    (major minor n : ℕ) (ps post : Bytes)
    → n ≡ length ps
    → hi 24 ∷ lo 24 ∷ hi (3 + n) ∷ lo (3 + n) ∷ major ∷ minor ∷ lo n ∷ (ps ++ post)
      ≡ framed 24 (major ∷ minor ∷ vec8 ps) ++ post
framed_binding major minor n ps post e =
    let g : 3 + n ≡ length (major ∷ minor ∷ vec8 ps) = omega arith in rw (g, e)

binding_read-zeros :
    (major minor : ℕ) (ps post : Bytes)
    → read (λ _. false) (fake_token_binding major minor ps) (zeros (7 + length ps) ++ post)
      ≡ answer (7 + length ps) eof (framed 24 (major ∷ minor ∷ vec8 ps) ++ post)
unfolding read
binding_read-zeros major minor ps post =
    let n = length ps in
    let h : Bytes = hi 24 ∷ lo 24 ∷ hi (3 + n) ∷ lo (3 + n) ∷ major ∷ minor ∷ lo n ∷ [] in
    with_room-zeros (7 + n) post _ _ (
      rw (store_first [] h post 0 (7 + n) n refl refl)
        (copy_if_any h ps post 7 refl ∙ ap ok (framed_binding major minor n ps post refl)))

-- Read on a fresh buffer of Len bytes, with anything behind it: it returns Len and io.EOF, writes
-- exactly the wire form of the extension, and leaves what is behind. It holds for every extension
-- whose one-byte lists fit 255 bytes and whose trust anchors fit their length field.
pub read-encoding :
    (parse_ip : Bytes → Bool) (e : Extension) (post : Bytes)
    → IsEncodable e
    → read parse_ip e (zeros (len parse_ip e) ++ post)
      ≡ answer (len parse_ip e) eof (encoding (host_of parse_ip e) e ++ post)
unfolding read len store put
read-encoding ip (sni name) post h = sni_read-zeros (hostname_in_sni ip name) post
read-encoding ip status_request post h = with_room-zeros 9 post _ _ refl
read-encoding ip (supported_curves xs) post h = u16_list_read-zeros 10 xs post
read-encoding ip (supported_points ps) post h =
    points_read-zeros 11 (1 + length ps) ps post (omega arith)
read-encoding ip (signature_algorithms xs) post h = u16_list_read-zeros 13 xs post
read-encoding ip status_request_v2 post h = with_room-zeros 13 post _ _ refl
read-encoding ip (signature_algorithms_cert xs) post h = u16_list_read-zeros 50 xs post
read-encoding ip (alpn ps) post h = strings_read-zeros 16 ps post
read-encoding ip (application_settings ps) post h = strings_read-zeros 17513 ps post
read-encoding ip (application_settings_new ps) post h = strings_read-zeros 17613 ps post
read-encoding ip sct post h = id_read-zeros 18 post
read-encoding ip (generic id body) post h = opaque_read-zeros id body post
read-encoding ip extended_master_secret post h = id_read-zeros 23 post
read-encoding ip (grease id body) post h = opaque_read-zeros id body post
read-encoding ip (padding p) post h = padding_read-zeros p post
read-encoding ip (compress_cert xs) post h = compress_cert_read-zeros xs post h
read-encoding ip (key_share ks) post h = key_share_read-zeros ks post
read-encoding ip (psk_key_exchange_modes ms) post h = psk_modes_read-zeros ms post h
read-encoding ip (supported_versions xs) post h = versions_read-zeros xs post h
read-encoding ip (cookie c) post h = cookie_read-zeros c post
read-encoding ip (npn ps) post h = id_read-zeros 13172 post
read-encoding ip (renegotiation_info r c) post h = renegotiation_read-zeros c post
read-encoding ip (fake_channel_id old) post h = id_read-zeros (if old then 30031 else 30032) post
read-encoding ip (fake_record_size_limit l) post h = with_room-zeros 6 post _ _ refl
read-encoding ip (fake_token_binding major minor ps) post h = binding_read-zeros major minor ps post
read-encoding ip (fake_delegated_credentials xs) post h = u16_list_read-zeros 34 xs post
read-encoding ip fake_early_data post h = with_room-zeros 4 post _ _ refl
read-encoding ip (trust_anchors t) post h = trust_anchors_read-zeros t post h.0 h.1
