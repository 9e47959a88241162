-- ===== src/Extension/Write/Captures.antt =====
-- The body that Read writes, read by Write into the extension that ExtensionFromID makes.
use utls.Base.{
  ℕ, ◌<◌, Bool, true, false, ◌&&◌, ◌==◌, ==_iff, List, [], ◌∷◌, map, some, Bytes, length, All,
  append-nil, ◌≡◌, refl, ◌∙◌, arith, if◌then◌else◌, Bool-cases, inl, inr, replicate,
  length-replicate,
}
use utls.Grease.{grease_placeholder, is_grease_uint16, un_grease_uint16}
use utls.Cryptobyte.{Reader, read-u16, read-vec8, read-vec16}
use utls.Extension.{
  KeyShare, Extension, sni, status_request, supported_curves, supported_points,
  signature_algorithms, status_request_v2, signature_algorithms_cert, alpn, application_settings,
  application_settings_new, sct, generic, extended_master_secret, grease, padding, compress_cert,
  key_share, psk_key_exchange_modes, supported_versions, cookie, npn, renegotiation_info,
  fake_channel_id, fake_record_size_limit, fake_token_binding, fake_delegated_credentials,
  fake_early_data, trust_anchors, renegotiate_never, renegotiate_once_as_client,
}
use utls.Extension.HostName.{last_or, hostname_in_sni}
use utls.Extension.Padding.{boring_padding_style}
use utls.Extension.Wire.{
  hi, lo, u16s, vec8, vec16, vec8s, shares, framed, sni_wire, encoding, anchor_list,
}
use utls.Extension.Read.Correct.{host_of}
use utls.Extension.Write.{
  write, FromId, known, first_match, from_id_table, extension_from_id, no_padding, no_anchors,
}
use utls.Extension.Write.Parts.{
  wrote, is_empty, u16s_16, u16s_8, strings_in, strings_16, points_write, modes_write, shares_write,
  anchors_write, limit_write, binding_write, sni_write, read_names, status_write, status_v2_write,
}
use utls.Extension.Write.Lists.{
  IsU16, IsName, IsShare, not_empty, share_of, read_u16s, read_strings, read_shares,
}

abbrev zero_byte : ℕ
zero_byte = 0

-- A nonempty list of two-byte values that fits its length.
abbrev pub IsU16List : List ℕ → Type 0
IsU16List xs = (0 < length xs) × All IsU16 xs × (length (u16s xs) < 65534)

abbrev pub IsNameList : List Bytes → Type 0
IsNameList ss = (0 < length ss) × All IsName ss × (length (vec8s ss) < 65534)

-- The extensions that a parser takes back from the wire: the lists are within their bounds and not
-- empty where Write refuses an empty one, and the extension is of a type that ExtensionFromID makes.
abbrev pub IsCaptured : (Bytes → Bool) → Extension → Type 0
IsCaptured ip (sni name) =
    (0 < length (host_of ip (sni name)))
    × (length (host_of ip (sni name)) < 65531)
    × (last_or 0 (host_of ip (sni name)) == b'.' ≡ false)
IsCaptured ip status_request = Unit
IsCaptured ip (supported_curves xs) = IsU16List xs
IsCaptured ip (supported_points ps) = IsName ps
IsCaptured ip (signature_algorithms xs) = IsU16List xs
IsCaptured ip status_request_v2 = Unit
IsCaptured ip (signature_algorithms_cert xs) = IsU16List xs
IsCaptured ip (alpn ps) = IsNameList ps
IsCaptured ip (application_settings ps) = IsNameList ps
IsCaptured ip (application_settings_new ps) = IsNameList ps
IsCaptured ip sct = Unit
IsCaptured ip (generic id body) = ⊥
IsCaptured ip extended_master_secret = Unit
IsCaptured ip (grease id body) = (is_grease_uint16 id ≡ true) × (id < 65536) × (length body < 65536)
IsCaptured ip (padding p) = (p.will_pad ≡ true) × (p.padding_len < 65536)
IsCaptured ip (compress_cert xs) = All IsU16 xs × (length (u16s xs) < 256)
IsCaptured ip (key_share ks) = All IsShare ks × (length (shares ks) < 65534)
IsCaptured ip (psk_key_exchange_modes ms) = length ms < 256
IsCaptured ip (supported_versions xs) = (0 < length xs) × All IsU16 xs × (length (u16s xs) < 256)
IsCaptured ip (cookie v) = ⊥
IsCaptured ip (npn ps) = Unit
IsCaptured ip (renegotiation_info r v) = length v < 256
IsCaptured ip (fake_channel_id old) = Unit
IsCaptured ip (fake_record_size_limit l) = l < 65536
IsCaptured ip (fake_token_binding major minor ps) = length ps < 256
IsCaptured ip (fake_delegated_credentials xs) = IsU16List xs
IsCaptured ip fake_early_data = ⊥
IsCaptured ip (trust_anchors t) =
    All IsName (anchor_list t) × (length (vec8s (anchor_list t)) < 65534)

abbrev pub is_versions : Extension → Bool
is_versions (supported_versions xs) = true
is_versions e = false

module _ (c : Reader) where
  -- What is kept: GREASE values become the placeholder, a key is kept for a GREASE group alone, the
  -- host name, the renegotiation data and the length of a padding are dropped.
  abbrev pub captured : Extension → Extension
  captured (sni name) = sni []
  captured (supported_curves xs) = supported_curves (map un_grease_uint16 xs)
  captured (signature_algorithms xs) = signature_algorithms (map (λ x. x) xs)
  captured (signature_algorithms_cert xs) = signature_algorithms_cert (map (λ x. x) xs)
  captured (grease id body) = grease grease_placeholder body
  captured (padding p) = padding (record no_padding { get_padding_len = some boring_padding_style })
  captured (compress_cert xs) = compress_cert (map (λ x. x) xs)
  captured (key_share ks) = key_share (map (share_of c) ks)
  captured (supported_versions xs) = supported_versions (map un_grease_uint16 xs)
  captured (npn ps) = npn []
  captured (renegotiation_info r v) = renegotiation_info renegotiate_once_as_client []
  captured (fake_delegated_credentials xs) = fake_delegated_credentials (map (λ x. x) xs)
  captured (trust_anchors t) = trust_anchors (record no_anchors { trust_anchors = anchor_list t })
  captured e = e

  -- The extension stands on the wire as a frame, whose body is written into a new extension.
  abbrev pub Captures : (Bytes → Bool) → Extension → Type 0
  Captures ip e =
      (id : ℕ) × (body : Bytes) × (blank : Extension) × (n : ℕ) × (id < 65536)
      × (length body < 65536)
      × (encoding (host_of ip e) e ≡ framed id body)
      × (extension_from_id id ≡ known blank)
      × (write c blank body ≡ wrote (captured e) n)
      × ((id == 43) ≡ is_versions e)

  whole8 : (v : Bytes) → length v < 256 → c.read_uint8_length_prefixed (vec8 v) ≡ some (v, [])
  whole8 v h = rw (append-nil v) at (read-vec8 c v [] h)

  whole16 : (v : Bytes) → length v < 65536 → c.read_uint16_length_prefixed (vec16 v) ≡ some (v, [])
  whole16 v h = rw (append-nil v) at (read-vec16 c v [] h)

  u16s_16-vec16 :
      (f : ℕ → ℕ) (make : List ℕ → Extension) (xs : List ℕ)
      → IsU16List xs
      → u16s_16 c true f make (vec16 (u16s xs)) ≡ wrote (make (map f xs)) (length (vec16 (u16s xs)))
  unfolding u16s_16
  u16s_16-vec16 f make [] h = absurd (omega arith)
  u16s_16-vec16 f make (x ∷ xs) h =
      rw (whole16 (u16s (x ∷ xs)) (omega arith), u16s_16) (rw (read_u16s c f (x ∷ xs) h.1))

  u16s_8-vec8 :
      (wants : Bool) (f : ℕ → ℕ) (make : List ℕ → Extension) (xs : List ℕ)
      → wants && is_empty (u16s xs) ≡ false
      → All IsU16 xs
      → length (u16s xs) < 256
      → u16s_8 c wants f make (vec8 (u16s xs)) ≡ wrote (make (map f xs)) (length (vec8 (u16s xs)))
  unfolding u16s_8
  u16s_8-vec8 wants f make xs full h fits =
      rw (whole8 (u16s xs) fits, u16s_8, full) (rw (read_u16s c f xs h))

  strings_in-vec16 :
      (wants : Bool) (make : List Bytes → Extension) (ss : List Bytes)
      → wants && is_empty (vec8s ss) ≡ false
      → All IsName ss
      → length (vec8s ss) < 65534
      → strings_in c wants make
          (length (vec16 (vec8s ss)))
          (c.read_uint16_length_prefixed (vec16 (vec8s ss)))
        ≡ wrote (make ss) (length (vec16 (vec8s ss)))
  strings_in-vec16 wants make ss full h fits =
      rw (whole16 (vec8s ss) (omega arith), full) (rw (read_strings c ss h))

  names_not_empty : (ss : List Bytes) → 0 < length ss → is_empty (vec8s ss) ≡ false
  names_not_empty [] h = absurd (omega arith)
  names_not_empty (s ∷ ss) h = refl

  u16s_not_empty : (xs : List ℕ) → 0 < length xs → is_empty (u16s xs) ≡ false
  u16s_not_empty [] h = absurd (omega arith)
  u16s_not_empty (x ∷ xs) h = refl

  -- A list of one name of type host_name.
  sni_write-host :
      (name host : Bytes)
      → 0 < length host
      → length host < 65531
      → last_or 0 host == b'.' ≡ false
      → (n : ℕ) × (sni_write c (sni name) (vec16 (0 ∷ vec16 host)) ≡ wrote (sni name) n)
  unfolding sni_write read_names
  sni_write-host name host full fits no_dot = (
    length (vec16 (0 ∷ vec16 host)),
    rw (whole16 (0 ∷ vec16 host) (omega arith), sni_write)
        (rw (c.read_uint8_cons 0 (vec16 host), read_names)
          (rw (whole16 host (omega arith), not_empty host full, no_dot))),
  )

  status_write-body : status_write c (1 ∷ 0 ∷ 0 ∷ 0 ∷ 0 ∷ []) ≡ wrote status_request 5
  unfolding status_write
  status_write-body =
      rw (c.read_uint8_cons 1 (0 ∷ 0 ∷ 0 ∷ 0 ∷ []), status_write)
        (rw (c.read_uint16_length_prefixed_cons 0 0 (0 ∷ 0 ∷ []))
          (rw (c.read_uint16_length_prefixed_cons 0 0 [])))

  status_v2_write-body :
      status_v2_write c (0 ∷ 7 ∷ 2 ∷ 0 ∷ 4 ∷ 0 ∷ 0 ∷ 0 ∷ 0 ∷ []) ≡ wrote status_request_v2 9
  unfolding status_v2_write
  status_v2_write-body =
      rw (c.read_uint16_length_prefixed_cons 0 7 (2 ∷ 0 ∷ 4 ∷ 0 ∷ 0 ∷ 0 ∷ 0 ∷ []), status_v2_write)
        (rw (c.read_uint8_cons 2 (0 ∷ 4 ∷ 0 ∷ 0 ∷ 0 ∷ 0 ∷ [])))

  binding_write-body :
      (major minor : ℕ) (ps : Bytes)
      → length ps < 256
      → binding_write c (major ∷ minor ∷ vec8 ps)
        ≡ wrote (fake_token_binding major minor ps) (length (major ∷ minor ∷ vec8 ps))
  unfolding binding_write
  binding_write-body major minor ps h =
      rw (c.read_uint8_cons major (minor ∷ vec8 ps), binding_write)
        (rw (c.read_uint8_cons minor (vec8 ps)) (rw (whole8 ps h) refl))

  modes_write-body :
      (ms : Bytes)
      → length ms < 256
      → modes_write c (vec8 ms) ≡ wrote (psk_key_exchange_modes ms) (length (vec8 ms))
  unfolding modes_write
  modes_write-body ms h = rw (whole8 ms h, modes_write) refl

  points_write-body :
      (ps : Bytes)
      → IsName ps
      → points_write c (vec8 ps) ≡ wrote (supported_points ps) (length (vec8 ps))
  unfolding points_write
  points_write-body ps h = rw (whole8 ps h.1, points_write, not_empty ps h.0) refl

  limit_write-body :
      (l : ℕ) → l < 65536 → limit_write c (hi l ∷ lo l ∷ []) ≡ wrote (fake_record_size_limit l) 2
  unfolding limit_write
  limit_write-body l h = rw (read-u16 c l [] h, limit_write)

  shares_write-body :
      (ks : List KeyShare)
      → All IsShare ks
      → length (shares ks) < 65534
      → shares_write c (vec16 (shares ks))
        ≡ wrote (key_share (map (share_of c) ks)) (length (vec16 (shares ks)))
  unfolding shares_write
  shares_write-body ks h fits =
      rw (whole16 (shares ks) (omega arith), shares_write) (rw (read_shares c ks h) refl)

-- No identifier of the table is a GREASE value.
none_grease : List (ℕ × FromId) → Bool
none_grease [] = true
none_grease ((i, x) ∷ t) = if is_grease_uint16 i then false else none_grease t

first_match-grease :
    (id : ℕ) (t : List (ℕ × FromId)) (other : FromId)
    → is_grease_uint16 id ≡ true
    → none_grease t ≡ true
    → first_match id t other ≡ other
unfolding first_match none_grease
first_match-grease id [] other g h = refl
first_match-grease id ((i, x) ∷ t) other g h = elim (Bool-cases (id == i)) [
  | inl same ↦
      (let e : id ≡ i = (==_iff id i).0 same in
        let g' : is_grease_uint16 i ≡ true = rw e at g in
        let h' : false ≡ true = rw (none_grease, g') at h in cc)
  | inr differ ↦ elim (Bool-cases (is_grease_uint16 i)) [
    | inl is ↦ (let h' : false ≡ true = rw (none_grease, is) at h in cc)
    | inr other' ↦
        rw (first_match, differ) (first_match-grease id t other g (rw (none_grease, other') at h))
  ]
]

table_none_grease : none_grease from_id_table ≡ true
unfolding none_grease is_grease_uint16
table_none_grease = refl

sni_wire-full : (host : Bytes) → 0 < length host → sni_wire host ≡ framed 0 (vec16 (0 ∷ vec16 host))
sni_wire-full [] h = absurd (omega arith)
sni_wire-full (x ∷ xs) h = refl

extension_from_id-grease :
    (id : ℕ) → is_grease_uint16 id ≡ true → extension_from_id id ≡ known (grease 0 [])
unfolding extension_from_id
extension_from_id-grease id g = first_match-grease id from_id_table _ g table_none_grease ∙ rw g

no_grease_43 : is_grease_uint16 43 ≡ true → ⊥
unfolding is_grease_uint16
no_grease_43 h = cc

not_versions : (id : ℕ) → is_grease_uint16 id ≡ true → (id == 43) ≡ false
not_versions id g = elim (Bool-cases (id == 43)) [
  | inl same ↦ absurd (let g' = rw ((==_iff id 43).0 same) at g in no_grease_43 g')
  | inr differ ↦ differ
]

module _ (c : Reader) (ip : Bytes → Bool) where
  -- An extension that Read can write and ExtensionFromID can make is captured.
  pub captures : (e : Extension) → IsCaptured ip e → Captures c ip e
  unfolding extension_from_id first_match write u16s_16 strings_16 anchors_write
  captures (sni name) h =
      let host = hostname_in_sni ip name in
      let (n, writes) = sni_write-host c [] host h.0 h.1 h.2 in
      (
        0,
        vec16 (0 ∷ vec16 host),
        sni [],
        n,
        omega arith,
        omega arith,
        sni_wire-full host h.0,
        refl,
        writes,
        refl,
      )
  captures status_request h =
      (5, _, status_request, 5, omega arith, omega arith, refl, refl, status_write-body c, refl)
  captures (supported_curves xs) h = (
    10,
    _,
    supported_curves [],
    _,
    omega arith,
    omega arith,
    refl,
    refl,
    u16s_16-vec16 c un_grease_uint16 supported_curves xs h,
    refl,
  )
  captures (supported_points ps) h = (
    11,
    _,
    supported_points [],
    _,
    omega arith,
    omega arith,
    refl,
    refl,
    points_write-body c ps h,
    refl,
  )
  captures (signature_algorithms xs) h = (
    13,
    _,
    signature_algorithms [],
    _,
    omega arith,
    omega arith,
    refl,
    refl,
    u16s_16-vec16 c (λ x. x) signature_algorithms xs h,
    refl,
  )
  captures status_request_v2 h = (
    17,
    _,
    status_request_v2,
    9,
    omega arith,
    omega arith,
    refl,
    refl,
    status_v2_write-body c,
    refl,
  )
  captures (signature_algorithms_cert xs) h = (
    50,
    _,
    signature_algorithms_cert [],
    _,
    omega arith,
    omega arith,
    refl,
    refl,
    u16s_16-vec16 c (λ x. x) signature_algorithms_cert xs h,
    refl,
  )
  captures (alpn ps) h = (
    16,
    _,
    alpn [],
    _,
    omega arith,
    omega arith,
    refl,
    refl,
    strings_in-vec16 c true alpn ps (names_not_empty c ps h.0) h.1 h.2,
    refl,
  )
  captures (application_settings ps) h = (
    17513,
    _,
    application_settings [],
    _,
    omega arith,
    omega arith,
    refl,
    refl,
    strings_in-vec16 c true application_settings ps (names_not_empty c ps h.0) h.1 h.2,
    refl,
  )
  captures (application_settings_new ps) h = (
    17613,
    _,
    application_settings_new [],
    _,
    omega arith,
    omega arith,
    refl,
    refl,
    strings_in-vec16 c true application_settings_new ps (names_not_empty c ps h.0) h.1 h.2,
    refl,
  )
  captures sct h = (18, [], sct, 0, omega arith, omega arith, refl, refl, refl, refl)
  captures (generic id body) h = absurd h
  captures extended_master_secret h =
      (23, [], extended_master_secret, 0, omega arith, omega arith, refl, refl, refl, refl)
  captures (grease id body) h = (
    id,
    body,
    grease 0 [],
    length body,
    h.1,
    h.2,
    refl,
    extension_from_id-grease id h.0,
    refl,
    not_versions id h.0,
  )
  captures (padding p) h = (
    21,
    replicate p.padding_len 0,
    padding no_padding,
    0,
    omega arith,
    omega (arith, h.1, length-replicate p.padding_len zero_byte),
    rw h.0,
    refl,
    refl,
    refl,
  )
  captures (compress_cert xs) h = (
    27,
    _,
    compress_cert [],
    _,
    omega arith,
    omega arith,
    refl,
    refl,
    u16s_8-vec8 c false (λ x. x) compress_cert xs refl h.0 h.1,
    refl,
  )
  captures (key_share ks) h = (
    51,
    _,
    key_share [],
    _,
    omega arith,
    omega arith,
    refl,
    refl,
    shares_write-body c ks h.0 h.1,
    refl,
  )
  captures (psk_key_exchange_modes ms) h = (
    45,
    _,
    psk_key_exchange_modes [],
    _,
    omega arith,
    omega arith,
    refl,
    refl,
    modes_write-body c ms h,
    refl,
  )
  captures (supported_versions xs) h = (
    43,
    _,
    supported_versions [],
    _,
    omega arith,
    omega arith,
    refl,
    refl,
    u16s_8-vec8 c true un_grease_uint16 supported_versions xs (u16s_not_empty c xs h.0) h.1 h.2,
    refl,
  )
  captures (cookie v) h = absurd h
  captures (npn ps) h = (13172, [], npn [], 0, omega arith, omega arith, refl, refl, refl, refl)
  captures (renegotiation_info r v) h = (
    0xff01,
    vec8 v,
    renegotiation_info renegotiate_never [],
    _,
    omega arith,
    omega arith,
    refl,
    refl,
    refl,
    refl,
  )
  captures (fake_channel_id true) h =
      (30031, [], fake_channel_id true, 0, omega arith, omega arith, refl, refl, refl, refl)
  captures (fake_channel_id false) h =
      (30032, [], fake_channel_id false, 0, omega arith, omega arith, refl, refl, refl, refl)
  captures (fake_record_size_limit l) h = (
    28,
    _,
    fake_record_size_limit 0,
    _,
    omega arith,
    omega arith,
    refl,
    refl,
    limit_write-body c l h,
    refl,
  )
  captures (fake_token_binding major minor ps) h = (
    24,
    _,
    fake_token_binding 0 0 [],
    _,
    omega arith,
    omega arith,
    refl,
    refl,
    binding_write-body c major minor ps h,
    refl,
  )
  captures (fake_delegated_credentials xs) h = (
    34,
    _,
    fake_delegated_credentials [],
    _,
    omega arith,
    omega arith,
    refl,
    refl,
    u16s_16-vec16 c (λ x. x) fake_delegated_credentials xs h,
    refl,
  )
  captures fake_early_data h = absurd h
  captures (trust_anchors t) h = (
    0xca34,
    _,
    trust_anchors no_anchors,
    _,
    omega arith,
    omega arith,
    refl,
    refl,
    strings_in-vec16 c false (λ l. trust_anchors (record no_anchors { trust_anchors = l }))
        (anchor_list t) refl h.0 h.1,
    refl,
  )
