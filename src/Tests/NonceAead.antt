-- ===== src/Tests/NonceAead.antt =====
-- The AEADs over one that puts a checksum of nonce and additional data in front of the text.
use utls.Base.{[], ◌∷◌, Bytes, length, some, ok, ◌≡◌, refl}
use utls.NonceAead.{Aead}
use utls.NonceAead.Xor
use utls.NonceAead.Nonces.{mask_of, Uses, xor_nonces_differ, xor_open-seal}
use utls.Tests.Ciphers.{tag, with_key, open_tagged, open_tagged_lem}

abbrev checksum_aead : Aead
checksum_aead = record {
  overhead = 1;
  seal = λ nonce text extra. tag 5 nonce extra ∷ with_key 5 text;
  open_sealed = λ nonce text extra. open_tagged 5 nonce text extra;
}

abbrev four : Bytes
four = 1 ∷ 2 ∷ 3 ∷ 4 ∷ []

abbrev eight : Bytes
eight = 5 ∷ 6 ∷ 7 ∷ 8 ∷ 9 ∷ 10 ∷ 11 ∷ 12 ∷ []

abbrev number_nine : Bytes
number_nine = 0 ∷ 0 ∷ 0 ∷ 0 ∷ 0 ∷ 0 ∷ 0 ∷ 9 ∷ []

xor_open-seal_example :
    (sealed_text : Bytes) × (Xor.seal
        (mask_of four eight checksum_aead)
        number_nine
        (97 ∷ [])
        (23 ∷ [])
      ≡ ok (sealed_text, mask_of four eight checksum_aead))
    × (Xor.open_sealed (mask_of four eight checksum_aead) number_nine sealed_text (23 ∷ [])
        ≡ ok (some (97 ∷ []), mask_of four eight checksum_aead))
xor_open-seal_example =
    xor_open-seal four eight number_nine (97 ∷ []) (23 ∷ []) checksum_aead checksum_aead refl refl
      refl (λ n t e. open_tagged_lem 5 n t e)

abbrev number_ten : Bytes
number_ten = 0 ∷ 0 ∷ 0 ∷ 0 ∷ 0 ∷ 0 ∷ 0 ∷ 10 ∷ []

xor_nonces_differ_example :
    (used used' : Bytes) × Uses four eight number_nine used
    × Uses four eight number_ten used'
    × (length used ≡ 12)
    × (length used' ≡ 12)
    × (used ≡ used' → number_nine ≡ number_ten)
xor_nonces_differ_example = xor_nonces_differ four eight number_nine number_ten refl refl refl refl
