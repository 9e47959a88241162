-- ===== src/Messages/Reads.antt =====
-- Unmarshal of the messages that are written with a Builder, on their wire forms.
use utls.Base.{
  ℕ, zero, suc, ◌^◌, ◌<◌, Bool, true, false, ltb, lt→ltb, [], ◌∷◌, ◌++◌, Option, some, Bytes,
  length, append_assoc, append-nil, if◌then◌else◌, Bool-cases, inl, inr, ◌≡◌, refl, sym, ◌∙◌, arith,
}
use utls.Cryptobyte.{Reader, prefixed-append, read-u16, read-vec16}
use utls.Cryptobyte.Builder.{Builder}
use utls.Cryptobyte.Loops.{done}
use utls.Cryptobyte.Reads.{skip-append, read-u32, read-vec24}
use utls.Extension.Wire.{u16, vec16}
use utls.ClientHello.{u24}
use utls.Session.Psk.{u32}
use utls.Messages.{
  whole, SessionTicket, CertificateVerify, key_update_unmarshal, ticket_extension_step,
  ticket_extensions, session_ticket_fields, session_ticket_unmarshal, certificate_status_unmarshal,
  finished_unmarshal, certificate_verify_unmarshal,
}
use utls.Messages.Built.{handshake, IsTicket, ticket_wire, ticket_wire_short, session_ticket_wire}

module _ (c : Reader) where
  whole_lem {ℓ} :
      {A : Type ℓ} (a : A) (o : Option (A × Bytes)) → o ≡ some (a, []) → whole o ≡ some a
  whole_lem a o e = rw e refl

  body_of : (kind : ℕ) (body : Bytes) → c.skip 4 (handshake kind body) ≡ some body
  body_of kind body = skip-append c 4 (kind ∷ u24 (length body)) body refl

  whole16 :
      (v : Bytes) → length v < 65536 → whole (c.read_uint16_length_prefixed (vec16 v)) ≡ some v
  whole16 v h = whole_lem v _ (rw (append-nil v) at (read-vec16 c v [] h))

  whole24 :
      (v : Bytes)
      → length v < 2 ^ 24
      → c.read_uint24_length_prefixed (u24 (length v) ++ v) ≡ some (v, [])
  whole24 v h = rw (append-nil v) at (read-vec24 c v [] h)

  pub finished_read :
      (v : Bytes) → length v < 2 ^ 24 → finished_unmarshal c (handshake 20 v) ≡ some v
  unfolding finished_unmarshal
  finished_read v fits =
      rw (skip-append c 1 (20 ∷ []) (u24 (length v) ++ v) refl, finished_unmarshal)
        (whole_lem v _ (whole24 v fits))

  pub key_update_read :
      (u : Bool) → key_update_unmarshal c (handshake 24 ((if u then 1 else 0) ∷ [])) ≡ some u
  unfolding key_update_unmarshal
  key_update_read true =
      rw (body_of 24 (1 ∷ []), key_update_unmarshal) (rw (c.read_uint8_cons 1 []) refl)
  key_update_read false =
      rw (body_of 24 (0 ∷ []), key_update_unmarshal) (rw (c.read_uint8_cons 0 []) refl)

  pub certificate_status_read :
      (r : Bytes)
      → 0 < length r
      → length r < 2 ^ 24
      → certificate_status_unmarshal c (handshake 22 (1 ∷ (u24 (length r) ++ r))) ≡ some r
  unfolding certificate_status_unmarshal
  certificate_status_read [] some_bytes fits = absurd (omega arith)
  certificate_status_read (x ∷ r) some_bytes fits =
      rw (body_of 22 (1 ∷ (u24 (length (x ∷ r)) ++ (x ∷ r))), certificate_status_unmarshal)
        (rw (c.read_uint8_cons 1 (u24 (length (x ∷ r)) ++ (x ∷ r)))
          (rw (whole24 (x ∷ r) fits) refl))

  pub certificate_verify_read :
      (m : CertificateVerify)
      → m.signature_algorithm < 65536
      → length m.signature < 65536
      → (m.has_signature_algorithm ≡ false → m.signature_algorithm ≡ 0)
      → certificate_verify_unmarshal c m.has_signature_algorithm (
          handshake 15 (
            (if m.has_signature_algorithm then u16 m.signature_algorithm else [])
            ++ vec16 m.signature))
        ≡ some m
  unfolding certificate_verify_unmarshal
  certificate_verify_read m small fits unset = elim (Bool-cases m.has_signature_algorithm) [
    | inl has ↦
        rw
          (
            has,
            body_of 15 (u16 m.signature_algorithm ++ vec16 m.signature),
            certificate_verify_unmarshal,
          )
          (rw (read-u16 c m.signature_algorithm (vec16 m.signature) small)
            (rw (whole16 m.signature fits, sym has) refl))
    | inr not_has ↦
        rw (not_has, body_of 15 (vec16 m.signature), certificate_verify_unmarshal)
          (rw (whole16 m.signature fits, sym not_has, sym (unset not_has)) refl)
  ]

  ticket_extensions-wire :
      (max : ℕ)
      → max < 2 ^ 32
      → ticket_extensions c
          (length (if ltb 0 max then u16 42 ++ (u16 4 ++ u32 max) else []))
          0
          (if ltb 0 max then u16 42 ++ (u16 4 ++ u32 max) else [])
        ≡ done max
  unfolding ticket_extensions ticket_extension_step
  ticket_extensions-wire zero fits = refl
  ticket_extensions-wire (suc k) fits =
      let n = suc k in
      rw (lt→ltb 0 n (omega arith)) (
        rw (read-u16 c 42 (u16 4 ++ u32 n) (omega arith), ticket_extensions, ticket_extension_step)
          (rw (rw (append-nil (u32 n)) at (read-vec16 c (u32 n) [] (omega arith)))
            (rw (rw (append-nil (u32 n)) at (read-u32 c n [] fits)) refl)))

  session_ticket_fields-wire :
      (t : SessionTicket) (extensions : Bytes)
      → IsTicket t
      → length extensions < 65536
      → session_ticket_fields c (
          handshake 4 (
            u32 t.lifetime
            ++ u32 t.age_add
            ++ (length t.nonce ∷ t.nonce)
            ++ vec16 t.label
            ++ vec16 extensions))
        ≡ some (record t { max_early_data = 0 }, extensions)
  unfolding session_ticket_fields
  session_ticket_fields-wire t extensions (lifetime, age, nonce, label, max) fits =
      let e = vec16 extensions in
      let x = length t.nonce ∷ t.nonce in
      let a = u32 t.lifetime in
      let b = u32 t.age_add in
      let body = a ++ b ++ x ++ vec16 t.label ++ e in
      let grouped : body ≡ a ++ (b ++ (x ++ (vec16 t.label ++ e))) = simp append_assoc in
      let read_nonce : c.read_uint8_length_prefixed (x ++ (vec16 t.label ++ e))
          ≡ some (t.nonce, vec16 t.label ++ e) =
        c.read_uint8_length_prefixed_cons (length t.nonce) (t.nonce ++ (vec16 t.label ++ e))
        ∙ prefixed-append (length t.nonce) t.nonce (vec16 t.label ++ e) refl in
      rw (body_of 4 body, session_ticket_fields, grouped)
        (rw (read-u32 c t.lifetime (b ++ (x ++ (vec16 t.label ++ e))) lifetime) (
          rw (read-u32 c t.age_add (x ++ (vec16 t.label ++ e)) age) (
            rw read_nonce (rw (read-vec16 c t.label e label) (rw (whole16 extensions fits) refl)))))

  pub session_ticket_read :
      (t : SessionTicket) (w : Builder)
      → IsTicket t
      → session_ticket_unmarshal c (handshake 4 (session_ticket_wire w t)) ≡ done t
  unfolding session_ticket_unmarshal
  session_ticket_read t w h =
      let short = ticket_wire_short w t.max_early_data in
      rw
        (
          session_ticket_fields-wire t (ticket_wire w t.max_early_data) h (omega arith),
          session_ticket_unmarshal,
        )
        (rw (ticket_extensions-wire t.max_early_data h.4) refl)
