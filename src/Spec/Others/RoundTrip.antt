-- ===== src/Spec/Others/RoundTrip.antt =====
-- FakePreSharedKeyExtension.Write on the body of a pre_shared_key extension.
use utls.Base.{
  ℕ, zero, suc, ◌+◌, ◌^◌, ◌≤◌, ◌<◌, le→ltb, List, [], ◌∷◌, ◌++◌, some, Bytes, length, length-append,
  All, append_assoc, append-nil, ◌≡◌, refl, ◌∙◌, arith,
}
use utls.Cryptobyte.{Reader, read-u16, prefixed-append}
use utls.Cryptobyte.Reads.{read-u32}
use utls.Cryptobyte.Loops.{done}
use utls.Extension.Wire.{lo, vec8, vec16, vec8s}
use utls.Session.State.{PskIdentity}
use utls.Session.Psk.{u32}
use utls.Session.Psk.Wire.{identities_wire}
use utls.Spec.Others.{
  minus16, identity_step, read_identities, binder_step, read_binders, binders_after, fake_psk_write,
}

abbrev pub IsIdentity : PskIdentity → Type 0
IsIdentity i = (length i.label < 65536) × (i.obfuscated_ticket_age < 2 ^ 32)

abbrev pub IsBinder : Bytes → Type 0
IsBinder b = length b < 256

module _ (c : Reader) where
  read_bytes-append : (v rest : Bytes) → c.read_bytes (length v) (v ++ rest) ≡ some (v, rest)
  read_bytes-append v rest =
      c.read_bytes_lem (length v) (v ++ rest) ∙ prefixed-append (length v) v rest refl

  identity_step-wire :
      (n m : ℕ) (i : PskIdentity) (rest : Bytes)
      → IsIdentity i
      → n ≡ 2 + length i.label + 4 + m
      → n < 65536
      → identity_step c n (vec16 i.label ++ (u32 i.obfuscated_ticket_age ++ rest))
        ≡ some (i, m, rest)
  unfolding identity_step
  identity_step-wire n m i rest h size fits =
      let k = length i.label in
      let two : minus16 n 2 ≡ k + 4 + m = omega arith in
      let all : minus16 (minus16 (minus16 n 2) k) 4 ≡ m = omega arith in
      rw
        (
          read-u16 c k (i.label ++ (u32 i.obfuscated_ticket_age ++ rest)) h.0,
          identity_step,
          two,
          le→ltb (k + 4 + m) k (omega arith),
        )
        (rw (read_bytes-append i.label (u32 i.obfuscated_ticket_age ++ rest))
          (rw (read-u32 c i.obfuscated_ticket_age rest h.1, all) refl))

  read_identities-wire :
      (ids : List PskIdentity) (fuel n : ℕ) (rest : Bytes)
      → All IsIdentity ids
      → n ≡ length (identities_wire ids)
      → n < 65536
      → n ≤ fuel
      → read_identities c fuel n (identities_wire ids ++ rest) ≡ done (ids, rest)
  unfolding read_identities
  read_identities-wire [] fuel n rest h size fits enough = rw size refl
  read_identities-wire (i ∷ is) fuel zero rest h size fits enough = absurd (omega arith)
  read_identities-wire (i ∷ is) zero (suc n) rest h size fits enough = absurd (omega arith)
  read_identities-wire (i ∷ is) (suc fuel) (suc n) rest h size fits enough =
      let m = length (identities_wire is) in
      let age = u32 i.obfuscated_ticket_age in
      let sum = length-append i.label (age ++ identities_wire is) in
      let whole = append_assoc i.label (age ++ identities_wire is) rest in
      let step =
        identity_step-wire (suc n) m i (identities_wire is ++ rest) h.0 (omega arith) fits in
      rw whole (
        rw (step, read_identities)
          (rw (read_identities-wire is fuel m rest h.1 refl (omega arith) (omega arith)) refl))

  binder_step-wire :
      (n m : ℕ) (x rest : Bytes)
      → IsBinder x
      → n ≡ 1 + length x + m
      → n < 65536
      → binder_step c n (vec8 x ++ rest) ≡ some (x, m, rest)
  unfolding binder_step
  binder_step-wire n m x rest h size fits =
      let k = length x in
      let low : lo k ≡ k = omega arith in
      let one : minus16 n 1 ≡ k + m = omega arith in
      let all : minus16 (minus16 n 1) (lo k) ≡ m = omega arith in
      rw
        (
          c.read_uint8_cons (lo k) (x ++ rest),
          binder_step,
          low,
          one,
          le→ltb (k + m) k (omega arith),
        )
        (rw (read_bytes-append x rest, all) refl)

  read_binders-wire :
      (bs : List Bytes) (fuel n : ℕ) (rest : Bytes)
      → All IsBinder bs
      → n ≡ length (vec8s bs)
      → n < 65536
      → n ≤ fuel
      → read_binders c fuel n (vec8s bs ++ rest) ≡ done (bs, rest)
  unfolding read_binders
  read_binders-wire [] fuel n rest h size fits enough = rw size refl
  read_binders-wire (x ∷ xs) fuel zero rest h size fits enough = absurd (omega arith)
  read_binders-wire (x ∷ xs) zero (suc n) rest h size fits enough = absurd (omega arith)
  read_binders-wire (x ∷ xs) (suc fuel) (suc n) rest h size fits enough =
      let m = length (vec8s xs) in
      let sum = length-append x (vec8s xs) in
      let whole = append_assoc x (vec8s xs) rest in
      let step = binder_step-wire (suc n) m x (vec8s xs ++ rest) h.0 (omega arith) fits in
      rw whole (
        rw (step, read_binders)
          (rw (read_binders-wire xs fuel m rest h.1 refl (omega arith) (omega arith)) refl))

  -- The body of a pre_shared_key extension, with lists that fit their lengths, is read back to the
  -- identities and the binders that it was made of.
  pub fake_psk_write-wire :
      (ids : List PskIdentity) (bs : List Bytes)
      → All IsIdentity ids
      → All IsBinder bs
      → length (identities_wire ids) < 65536
      → length (vec8s bs) < 65536
      → fake_psk_write c (vec16 (identities_wire ids) ++ vec16 (vec8s bs)) ≡ done (ids, bs)
  unfolding fake_psk_write
  fake_psk_write-wire ids bs hi' hb ids_fit bs_fit =
      let ni = length (identities_wire ids) in
      let nb = length (vec8s bs) in
      let s = identities_wire ids ++ vec16 (vec8s bs) in
      let sum = length-append (identities_wire ids) (vec16 (vec8s bs)) in
      let end' = append-nil (vec8s bs) in
      let binders = read_binders-wire bs (suc nb) nb [] hb refl bs_fit (omega arith) in
      rw (read-u16 c ni s ids_fit, fake_psk_write)
        (rw
          (read_identities-wire ids (suc (length s)) ni (vec16 (vec8s bs)) hi' refl ids_fit
            (omega arith))
          (rw (read-u16 c nb (vec8s bs) bs_fit, binders_after) (rw (rw end' at binders) refl)))
