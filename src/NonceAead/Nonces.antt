-- ===== src/NonceAead/Nonces.antt =====
-- The nonces that the wrapped AEAD gets: what they are, and that two sequence numbers never share one.
use Prim.Native.Nat.{bit_xor}
use mathlib.Core.Path.{ap, ap₂, subst}
use utls.Base.{
  ℕ, suc, [], ◌∷◌, ◌++◌, Bytes, length, length-append, ok, ◌≡◌, refl, sym, ◌∙◌, arith, append_assoc,
  append-nil, some,
}
use utls.Base.Buffer.{copy_at, put-append, copy_at-append}
use utls.NonceAead.Digits.{bit_xor_twice, bit_xor_injective}
use utls.HalfConn.Sequence.{at-middle}
use utls.NonceAead.{Aead}
use utls.NonceAead.Prefix
use utls.NonceAead.Xor

length-behind : (pre : Bytes) (v : ℕ) → length (pre ++ v ∷ []) ≡ suc (length pre)
length-behind pre v = omega (arith, length-append pre (v ∷ []))

-- The bytes of the mask, combined with those of the nonce.
abbrev pub combined : Bytes → Bytes → Bytes
combined [] bs = []
combined (v ∷ vs) [] = v ∷ vs
combined (v ∷ vs) (b ∷ bs) = bit_xor v b ∷ combined vs bs

combined_twice : (vs bs : Bytes) → combined (combined vs bs) bs ≡ vs
combined_twice [] bs = refl
combined_twice (v ∷ vs) [] = refl
combined_twice (v ∷ vs) (b ∷ bs) = ap₂ ◌∷◌ (bit_xor_twice v b) (combined_twice vs bs)

length-combined : (vs bs : Bytes) → length (combined vs bs) ≡ length vs
length-combined [] bs = refl
length-combined (v ∷ vs) [] = refl
length-combined (v ∷ vs) (b ∷ bs) = ap suc (length-combined vs bs)

xor_at-combined :
    (pre vs bs : Bytes)
    → length vs ≡ length bs
    → Xor.xor_at (pre ++ vs) (length pre) bs ≡ ok (pre ++ combined vs bs)
unfolding Xor.xor_at
xor_at-combined pre [] [] h = refl
xor_at-combined pre [] (b ∷ bs) h = absurd (omega arith)
xor_at-combined pre (v ∷ vs) [] h = absurd (omega arith)
xor_at-combined pre (v ∷ vs) (b ∷ bs) h =
    let more = xor_at-combined (pre ++ bit_xor v b ∷ []) vs bs (omega arith) in
    rw (at-middle pre v vs, put-append pre v (bit_xor v b) vs)
      (rw
        (
          append_assoc pre (bit_xor v b ∷ []) vs,
          append_assoc pre (bit_xor v b ∷ []) (combined vs bs),
          length-behind pre (bit_xor v b),
        )
        at more)

combined_injective :
    (vs bs cs : Bytes)
    → length bs ≡ length vs
    → length cs ≡ length vs
    → combined vs bs ≡ combined vs cs
    → bs ≡ cs
combined_injective [] [] [] h h' same = refl
combined_injective [] (b ∷ bs) cs h h' same = absurd (omega arith)
combined_injective [] [] (c ∷ cs) h h' same = absurd (omega arith)
combined_injective (v ∷ vs) [] cs h h' same = absurd (omega arith)
combined_injective (v ∷ vs) (b ∷ bs) [] h h' same = absurd (omega arith)
combined_injective (v ∷ vs) (b ∷ bs) (c ∷ cs) h h' same =
    let parts = cons_injective same in
    ap₂ ◌∷◌ (bit_xor_injective v b c parts.0)
      (combined_injective vs bs cs (omega arith) (omega arith) parts.1)
  where
    cons_injective :
        {x y : ℕ} {xs ys : Bytes} → ◌≡◌ {A = Bytes} (x ∷ xs) (y ∷ ys) → (x ≡ y) × (xs ≡ ys)
    cons_injective h = (cc, cc)

-- A mask of twelve bytes: four that stay, and eight that the nonce is combined with.
abbrev pub mask_of : Bytes → Bytes → Aead → Xor.XorNonceAead
mask_of fixed varied aead = record { nonce_mask = fixed ++ varied; aead = aead }

xor_at_four :
    (fixed vs bs : Bytes)
    → length fixed ≡ 4
    → length vs ≡ length bs
    → Xor.xor_at (fixed ++ vs) 4 bs ≡ ok (fixed ++ combined vs bs)
xor_at_four fixed vs bs h size =
    subst (λ j. Xor.xor_at (fixed ++ vs) j bs ≡ ok (fixed ++ combined vs bs)) h
      (xor_at-combined fixed vs bs size)

-- Under a mask of four and then eight bytes, Seal and Open on a nonce of eight bytes call the wrapped AEAD
-- with the mask combined with the nonce in its last eight bytes, and the mask is afterwards what it was.
pub xor_nonce_lem :
    (fixed varied nonce text extra : Bytes) (aead : Aead)
    → length fixed ≡ 4
    → length varied ≡ 8
    → length nonce ≡ 8
    → let f = mask_of fixed varied aead in
      let used = fixed ++ combined varied nonce in
      (Xor.seal f nonce text extra ≡ ok (aead.seal used text extra, f))
      × (Xor.open_sealed f nonce text extra ≡ ok (aead.open_sealed used text extra, f))
unfolding Xor.seal Xor.open_sealed
xor_nonce_lem fixed varied nonce text extra aead h h' h'' =
    let forth = xor_at_four fixed varied nonce h (omega arith) in
    let back =
      xor_at_four fixed (combined varied nonce) nonce h
        (omega (arith, length-combined varied nonce))
      ∙ ap (λ t. ok (fixed ++ t)) (combined_twice varied nonce) in
    (rw (forth, back) refl, rw (forth, back) refl)

drop_front : (xs : Bytes) {ys zs : Bytes} → xs ++ ys ≡ xs ++ zs → ys ≡ zs
drop_front [] same = same
drop_front (x ∷ xs) same = drop_front xs cc

-- Seal and Open on `nonce` call the wrapped AEAD, whatever it is, with the nonce `used`, and put the mask back.
abbrev pub Uses : Bytes → Bytes → Bytes → Bytes → Type 0
Uses fixed varied nonce used =
    (aead : Aead) (text extra : Bytes)
    → (Xor.seal (mask_of fixed varied aead) nonce text extra
        ≡ ok (aead.seal used text extra, mask_of fixed varied aead))
      × (Xor.open_sealed (mask_of fixed varied aead) nonce text extra
          ≡ ok (aead.open_sealed used text extra, mask_of fixed varied aead))

-- Under one mask of four and then eight bytes, Seal and Open on each of two nonces of eight bytes call every
-- wrapped AEAD with a nonce of twelve bytes, the same for both calls and for all texts; the two nonces that
-- it gets are the same only if the two nonces are.
pub xor_nonces_differ :
    (fixed varied nonce nonce' : Bytes)
    → length fixed ≡ 4
    → length varied ≡ 8
    → length nonce ≡ 8
    → length nonce' ≡ 8
    → (used used' : Bytes) × Uses fixed varied nonce used
      × Uses fixed varied nonce' used'
      × (length used ≡ 12)
      × (length used' ≡ 12)
      × (used ≡ used' → nonce ≡ nonce')
xor_nonces_differ fixed varied nonce nonce' h h' n n' =
    let size = length-append fixed (combined varied nonce) in
    let size' = length-append fixed (combined varied nonce') in
    let kept = length-combined varied nonce in
    let kept' = length-combined varied nonce' in
    (
      fixed ++ combined varied nonce,
      fixed ++ combined varied nonce',
      (λ aead text extra. xor_nonce_lem fixed varied nonce text extra aead h h' n),
      (λ aead text extra. xor_nonce_lem fixed varied nonce' text extra aead h h' n'),
      omega arith,
      omega arith,
      λ same.
          combined_injective varied nonce nonce' (omega arith) (omega arith)
            (drop_front fixed same),
    )

-- Over an AEAD that opens what it seals under the same nonce and additional data, what Seal returns for a
-- nonce of eight bytes is opened to the text by a receiver with the same mask; the masks stay as they
-- are.
pub xor_open-seal :
    (fixed varied nonce text extra : Bytes) (aead aead' : Aead)
    → length fixed ≡ 4
    → length varied ≡ 8
    → length nonce ≡ 8
    → ((n t e : Bytes) → aead'.open_sealed n (aead.seal n t e) e ≡ some t)
    → let f = mask_of fixed varied aead in
      let f' = mask_of fixed varied aead' in
      (sealed_text : Bytes) × (Xor.seal f nonce text extra ≡ ok (sealed_text, f))
      × (Xor.open_sealed f' nonce sealed_text extra ≡ ok (some text, f'))
xor_open-seal fixed varied nonce text extra aead aead' h h' h'' opens =
    let used = fixed ++ combined varied nonce in
    let sealed_text = aead.seal used text extra in
    (
      sealed_text,
      (xor_nonce_lem fixed varied nonce text extra aead h h' h'').0,
      (xor_nonce_lem fixed varied nonce sealed_text extra aead' h h' h'').1
          ∙ ap (λ o. ok (o, mask_of fixed varied aead')) (opens used text extra),
    )

-- The fixed part of four bytes, and the bytes that the last call has left behind it.
abbrev pub prefix_of : Bytes → Bytes → Aead → Prefix.PrefixNonceAead
prefix_of fixed last aead = record { nonce = fixed ++ last; aead = aead }

-- With a fixed part of four bytes, Seal and Open on a nonce of eight bytes call the wrapped AEAD with the nonce
-- behind the fixed part, whatever the call before has left, and leave that.
pub prefix_nonce_lem :
    (fixed last nonce text extra : Bytes) (aead : Aead)
    → length fixed ≡ 4
    → length last ≡ 8
    → length nonce ≡ 8
    → let f = prefix_of fixed last aead in
      let f' = prefix_of fixed nonce aead in
      (Prefix.seal f nonce text extra ≡ ok (aead.seal (fixed ++ nonce) text extra, f'))
      × (Prefix.open_sealed f nonce text extra
          ≡ ok (aead.open_sealed (fixed ++ nonce) text extra, f'))
unfolding Prefix.seal Prefix.open_sealed Prefix.with_nonce
prefix_nonce_lem fixed last nonce text extra aead h h' h'' =
    let copied =
      subst (λ j. copy_at (fixed ++ (last ++ [])) j nonce ≡ ok (fixed ++ (nonce ++ []))) h
        (copy_at-append fixed last nonce [] (omega arith)) in
    let here : copy_at (fixed ++ last) 4 nonce ≡ ok (fixed ++ nonce) =
      ap (λ t. copy_at (fixed ++ t) 4 nonce) (sym (append-nil last))
      ∙ copied
      ∙ ap (λ t. ok (fixed ++ t)) (append-nil nonce) in
    (rw here refl, rw here refl)
