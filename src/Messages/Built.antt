-- ===== src/Messages/Built.antt =====
-- Marshal of the messages that are written with a Builder, against their wire forms.
use utls.Base.{
  ℕ, ◌+◌, ◌^◌, ◌≤◌, ◌<◌, Bool, true, false, ltb, [], ◌∷◌, ◌++◌, none, some, Bytes, length,
  length-append, if◌then◌else◌, Bool-cases, inl, inr, ◌≡◌, arith,
}
use utls.Cryptobyte.Builder.{Builder}
use utls.Extension.Wire.{u16, vec16}
use utls.ClientHello.{u24}
use utls.Session.Psk.{u32}
use utls.Messages.{
  SessionTicket, CertificateVerify, message, key_update_marshal, early_data_extension,
  session_ticket_body, session_ticket_marshal, certificate_status_marshal, finished_marshal,
  certificate_verify_body, certificate_verify_marshal,
}

-- A handshake message with its type and its body.
abbrev pub handshake : ℕ → Bytes → Bytes
handshake kind body = kind ∷ (u24 (length body) ++ body)

-- The fields of a ticket are within their lengths.
abbrev pub IsTicket : SessionTicket → Type 0
IsTicket t =
    (t.lifetime < 2 ^ 32)
    × (t.age_add < 2 ^ 32)
    × (length t.nonce < 256)
    × (length t.label < 65536)
    × (t.max_early_data < 2 ^ 32)

module _ (w : Builder) where
  pub message_lem :
      (kind : ℕ) (f : w.State → w.State) (body : Bytes)
      → kind < 256
      → w.contents (f w.empty) ≡ some body
      → length body < 2 ^ 24
      → message w kind f ≡ some (handshake kind body)
  message_lem kind f body small wrote fits =
      w.add_uint24_length_prefixed_lem f (w.add_uint8 kind w.empty) (kind ∷ []) body
        (w.add_uint8_lem kind w.empty [] small w.empty_lem) wrote fits

  pub bytes_lem : (v : Bytes) → w.contents (w.add_bytes v w.empty) ≡ some v
  bytes_lem v = w.add_bytes_lem v w.empty [] w.empty_lem

  -- A message whose body does not fit three bytes is an error.
  pub message_long :
      (kind : ℕ) (f : w.State → w.State) (body : Bytes)
      → w.contents (f w.empty) ≡ some body
      → 2 ^ 24 ≤ length body
      → message w kind f ≡ none
  message_long kind f body wrote long =
      w.add_uint24_length_prefixed_long f (w.add_uint8 kind w.empty) body wrote long

  pub finished_wire : (v : Bytes) → length v < 2 ^ 24 → finished_marshal w v ≡ some (handshake 20 v)
  unfolding finished_marshal
  finished_wire v fits = message_lem 20 (λ b. w.add_bytes v b) v (omega arith) (bytes_lem v) fits

  pub key_update_wire :
      (u : Bool) → key_update_marshal w u ≡ some (handshake 24 ((if u then 1 else 0) ∷ []))
  unfolding key_update_marshal
  key_update_wire true =
      message_lem 24 (λ b. w.add_uint8 1 b) (1 ∷ []) (omega arith)
        (w.add_uint8_lem 1 w.empty [] (omega arith) w.empty_lem) (omega arith)
  key_update_wire false =
      message_lem 24 (λ b. w.add_uint8 0 b) (0 ∷ []) (omega arith)
        (w.add_uint8_lem 0 w.empty [] (omega arith) w.empty_lem) (omega arith)

  pub certificate_status_wire :
      (r : Bytes)
      → 4 + length r < 2 ^ 24
      → certificate_status_marshal w r ≡ some (handshake 22 (1 ∷ (u24 (length r) ++ r)))
  unfolding certificate_status_marshal
  certificate_status_wire r fits =
      message_lem 22 _ (1 ∷ (u24 (length r) ++ r)) (omega arith)
        (w.add_uint24_length_prefixed_lem (λ b. w.add_bytes r b) (w.add_uint8 1 w.empty) (1 ∷ []) r
          (w.add_uint8_lem 1 w.empty [] (omega arith) w.empty_lem) (bytes_lem r) (omega arith))
        (omega arith)

  abbrev pub algorithm : CertificateVerify → Bytes
  algorithm m = if m.has_signature_algorithm then u16 m.signature_algorithm else []

  algorithm_lem :
      (m : CertificateVerify)
      → m.signature_algorithm < 65536
      → w.contents (
          if m.has_signature_algorithm then w.add_uint16 m.signature_algorithm w.empty else w.empty)
        ≡ some (algorithm m)
  algorithm_lem m small = elim (Bool-cases m.has_signature_algorithm) [
    | inl has ↦ rw has (w.add_uint16_lem m.signature_algorithm w.empty [] small w.empty_lem)
    | inr not_has ↦ rw not_has w.empty_lem
  ]

  pub certificate_verify_wire :
      (m : CertificateVerify)
      → m.signature_algorithm < 65536
      → length m.signature < 65536
      → certificate_verify_marshal w m ≡ some (handshake 15 (algorithm m ++ vec16 m.signature))
  unfolding certificate_verify_marshal
  certificate_verify_wire m small fits =
      let n = length-append (algorithm m) (vec16 m.signature) in
      let short : length (algorithm m) ≤ 2 = elim (Bool-cases m.has_signature_algorithm) [
        | inl has ↦ rw has (omega arith)
        | inr not_has ↦ rw not_has (omega arith)
      ] in
      message_lem 15 (certificate_verify_body w m) (algorithm m ++ vec16 m.signature) (omega arith)
        (w.add_uint16_length_prefixed_lem (λ b. w.add_bytes m.signature b) _ (algorithm m)
          m.signature (algorithm_lem m small) (bytes_lem m.signature) fits)
        (omega arith)

  -- The extensions of a session ticket: early data, if there is any.
  abbrev pub ticket_wire : ℕ → Bytes
  ticket_wire max = if ltb 0 max then u16 42 ++ (u16 4 ++ u32 max) else []

  early_data_lem :
      (max : ℕ)
      → max < 2 ^ 32
      → w.contents (early_data_extension w max w.empty) ≡ some (ticket_wire max)
  early_data_lem max fits = elim (Bool-cases (ltb 0 max)) [
    | inr zero_max ↦ rw zero_max w.empty_lem
    | inl some_max ↦ rw some_max (
        w.add_uint16_length_prefixed_lem (λ b. w.add_uint32 max b) (w.add_uint16 42 w.empty)
          (u16 42) (u32 max) (w.add_uint16_lem 42 w.empty [] (omega arith) w.empty_lem)
          (w.add_uint32_lem max w.empty [] fits w.empty_lem) (omega arith))
  ]

  abbrev pub session_ticket_wire : SessionTicket → Bytes
  session_ticket_wire t =
      u32 t.lifetime
      ++ u32 t.age_add
      ++ (length t.nonce ∷ t.nonce)
      ++ vec16 t.label
      ++ vec16 (ticket_wire t.max_early_data)

  pub ticket_wire_short : (max : ℕ) → length (ticket_wire max) ≤ 8
  ticket_wire_short max = elim (Bool-cases (ltb 0 max)) [
    | inr zero_max ↦ rw zero_max (omega arith)
    | inl some_max ↦ rw some_max (omega arith)
  ]

  length-session_ticket_wire :
      (t : SessionTicket)
      → length (session_ticket_wire t)
        ≡ 13 + length t.nonce + length t.label + length (ticket_wire t.max_early_data)
  length-session_ticket_wire t =
      let a = u32 t.lifetime ++ u32 t.age_add in
      let x = length t.nonce ∷ t.nonce in
      let l = vec16 t.label in
      let e = vec16 (ticket_wire t.max_early_data) in
      omega (arith, length-append a x, length-append (a ++ x) l, length-append (a ++ x ++ l) e)

  pub session_ticket_marshal-wire :
      (t : SessionTicket)
      → IsTicket t
      → session_ticket_marshal w t ≡ some (handshake 4 (session_ticket_wire t))
  unfolding session_ticket_marshal
  session_ticket_marshal-wire t (lifetime, age, nonce, label, max) =
      let size = length-session_ticket_wire t in
      let short = ticket_wire_short t.max_early_data in
      message_lem 4 (session_ticket_body w t) (session_ticket_wire t) (omega arith)
        (w.add_uint16_length_prefixed_lem (early_data_extension w t.max_early_data) _ _
          (ticket_wire t.max_early_data)
          (w.add_uint16_length_prefixed_lem (λ b. w.add_bytes t.label b) _ _ t.label
            (w.add_uint8_length_prefixed_lem (λ b. w.add_bytes t.nonce b) _ _ t.nonce
              (w.add_uint32_lem t.age_add _ (u32 t.lifetime) age
                (w.add_uint32_lem t.lifetime w.empty [] lifetime w.empty_lem))
              (bytes_lem t.nonce) nonce)
            (bytes_lem t.label) label)
          (early_data_lem t.max_early_data max) (omega arith))
        (omega arith)
