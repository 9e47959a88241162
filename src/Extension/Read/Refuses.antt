-- ===== src/Extension/Read/Refuses.antt =====
-- What Read does with a buffer that is too short, and with a list that is too long; and how long the
-- wire form is.
use utls.Base.{
  ℕ, ◌+◌, ◌*◌, ◌<◌, Bool, [], ◌∷◌, Bytes, length, ◌≡◌, refl, arith, Run, lt→ltb, Bool-cases, inl,
  inr, length-replicate,
}
use utls.Extension.{
  PaddingExtension, Extension, sni, status_request, supported_curves, supported_points,
  signature_algorithms, status_request_v2, signature_algorithms_cert, alpn, application_settings,
  application_settings_new, sct, generic, extended_master_secret, grease, padding, compress_cert,
  key_share, psk_key_exchange_modes, supported_versions, cookie, npn, renegotiation_info,
  fake_channel_id, fake_record_size_limit, fake_token_binding, fake_delegated_credentials,
  fake_early_data, trust_anchors,
}
use utls.Extension.HostName.{hostname_in_sni}
use utls.Extension.Wire.{encoding, anchor_list, length-u16s, sni_wire}
use utls.Extension.Read.Store.{short_buffer, answer, with_room, strings_len}
use utls.Extension.Read.Each.{
  sni_len, sni_read, u16_list_read, strings_read, id_read, opaque_read, padding_len_of,
  padding_read, compress_cert_read, key_share_read, psk_modes_read, versions_read,
  trust_anchors_read,
}
use utls.Extension.Read.{len, read}
use utls.Extension.Read.Loops.{length-vec8s, length-shares}
use utls.Extension.Read.Encodes.{zero_byte}
use utls.Extension.Read.Correct.{IsEncodable, host_of}

with_room_short :
    (b : Bytes) (n : ℕ) (m : Run Bytes) → length b < n → with_room b n m ≡ answer 0 short_buffer b
with_room_short b n m h = rw (lt→ltb (length b) n h)

sni_short : (host b : Bytes) → length b < sni_len host → sni_read host b ≡ answer 0 short_buffer b
unfolding sni_read
sni_short [] b h = absurd (omega arith)
sni_short (c ∷ cs) b h = with_room_short b _ _ h

padding_short :
    (p : PaddingExtension) (b : Bytes)
    → length b < padding_len_of p
    → padding_read p b ≡ answer 0 short_buffer b
unfolding padding_read
padding_short p b h = ground (arith, lt→ltb (length b) (padding_len_of p) h)

-- A buffer shorter than Len is refused by every extension with io.ErrShortBuffer and a count of 0,
-- and nothing is written to it.
pub read_short :
    (parse_ip : Bytes → Bool) (e : Extension) (b : Bytes)
    → length b < len parse_ip e
    → read parse_ip e b ≡ answer 0 short_buffer b
unfolding read len u16_list_read strings_read id_read opaque_read compress_cert_read key_share_read
    psk_modes_read versions_read trust_anchors_read
read_short ip (sni name) b h = sni_short (hostname_in_sni ip name) b h
read_short ip (padding p) b h = padding_short p b h
read_short ip status_request b h = with_room_short b _ _ h
read_short ip (supported_curves xs) b h = with_room_short b _ _ h
read_short ip (supported_points ps) b h = with_room_short b _ _ h
read_short ip (signature_algorithms xs) b h = with_room_short b _ _ h
read_short ip status_request_v2 b h = with_room_short b _ _ h
read_short ip (signature_algorithms_cert xs) b h = with_room_short b _ _ h
read_short ip (alpn ps) b h = with_room_short b _ _ h
read_short ip (application_settings ps) b h = with_room_short b _ _ h
read_short ip (application_settings_new ps) b h = with_room_short b _ _ h
read_short ip sct b h = with_room_short b _ _ h
read_short ip (generic id body) b h = with_room_short b _ _ h
read_short ip extended_master_secret b h = with_room_short b _ _ h
read_short ip (grease id body) b h = with_room_short b _ _ h
read_short ip (compress_cert xs) b h = rw (lt→ltb (length b) (5 + 2 * length xs) h)
read_short ip (key_share ks) b h = with_room_short b _ _ h
read_short ip (psk_key_exchange_modes ms) b h = rw (lt→ltb (length b) (5 + length ms) h)
read_short ip (supported_versions xs) b h = rw (lt→ltb (length b) (5 + 2 * length xs) h)
read_short ip (cookie c) b h = with_room_short b _ _ h
read_short ip (npn ps) b h = with_room_short b _ _ h
read_short ip (renegotiation_info r c) b h = with_room_short b _ _ h
read_short ip (fake_channel_id old) b h = with_room_short b _ _ h
read_short ip (fake_record_size_limit l) b h = with_room_short b _ _ h
read_short ip (fake_token_binding major minor ps) b h = with_room_short b _ _ h
read_short ip (fake_delegated_credentials xs) b h = with_room_short b _ _ h
read_short ip fake_early_data b h = with_room_short b _ _ h
read_short ip (trust_anchors t) b h = rw (lt→ltb (length b) (6 + strings_len t.trust_anchors) h)

length-sni_wire : (host : Bytes) → length (sni_wire host) ≡ sni_len host
length-sni_wire [] = refl
length-sni_wire (c ∷ cs) = omega arith

length-padding :
    (p : PaddingExtension) (host : Bytes) → length (encoding host (padding p)) ≡ padding_len_of p
length-padding p host = elim (Bool-cases p.will_pad) [
  | inl y ↦ rw y (omega (arith, length-replicate p.padding_len zero_byte))
  | inr skipped ↦ rw skipped
]

-- The wire form of an extension is Len bytes long.
pub length-encoding :
    (parse_ip : Bytes → Bool) (e : Extension)
    → IsEncodable e
    → length (encoding (host_of parse_ip e) e) ≡ len parse_ip e
unfolding len
length-encoding ip (sni name) h = length-sni_wire (hostname_in_sni ip name)
length-encoding ip (padding p) h = length-padding p []
length-encoding ip status_request h = refl
length-encoding ip (supported_curves xs) h = omega (arith, length-u16s xs)
length-encoding ip (supported_points ps) h = omega arith
length-encoding ip (signature_algorithms xs) h = omega (arith, length-u16s xs)
length-encoding ip status_request_v2 h = refl
length-encoding ip (signature_algorithms_cert xs) h = omega (arith, length-u16s xs)
length-encoding ip (alpn ps) h = omega (arith, length-vec8s ps)
length-encoding ip (application_settings ps) h = omega (arith, length-vec8s ps)
length-encoding ip (application_settings_new ps) h = omega (arith, length-vec8s ps)
length-encoding ip sct h = refl
length-encoding ip (generic id body) h = omega arith
length-encoding ip extended_master_secret h = refl
length-encoding ip (grease id body) h = omega arith
length-encoding ip (compress_cert xs) h = omega (arith, length-u16s xs)
length-encoding ip (key_share ks) h = omega (arith, length-shares ks)
length-encoding ip (psk_key_exchange_modes ms) h = omega arith
length-encoding ip (supported_versions xs) h = omega (arith, length-u16s xs)
length-encoding ip (cookie c) h = omega arith
length-encoding ip (npn ps) h = refl
length-encoding ip (renegotiation_info r c) h = omega arith
length-encoding ip (fake_channel_id old) h = refl
length-encoding ip (fake_record_size_limit l) h = refl
length-encoding ip (fake_token_binding major minor ps) h = omega arith
length-encoding ip (fake_delegated_credentials xs) h = omega (arith, length-u16s xs)
length-encoding ip fake_early_data h = refl
length-encoding ip (trust_anchors t) h = omega (arith, length-vec8s (anchor_list t), h.0)
