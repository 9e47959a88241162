-- ===== src/NonceAead/Xor.antt =====
-- cipher_suites.go: xorNonceAEAD, which combines the nonce with a fixed mask, and its constructors.
use Prim.Native.Nat.{bit_xor}
use utls.Base.{
  ℕ, suc, ◌==◌, [], ◌∷◌, Bytes, length, replicate, if◌then◌else◌, Option, Run, ok, panic, ◌>>=◌,
}
use utls.Base.Buffer.{put, copy}
use utls.HalfConn.{at}
use utls.NonceAead.{Aead, aead_nonce_length}

pub record XorNonceAead : Type 0 where
  pub nonce_mask : Bytes
  pub aead : Aead

-- aeadAESGCMTLS13 and aeadChaCha20Poly1305, with the AEAD for the key
unfoldable pub new_xor_nonce_aead : Aead → Bytes → Run XorNonceAead
new_xor_nonce_aead aead nonce_mask =
    if length nonce_mask == aead_nonce_length
    then ok (record { nonce_mask = copy (replicate aead_nonce_length 0) nonce_mask; aead = aead })
    else panic

-- `for i, b := range nonce { f.nonceMask[j+i] ^= b }`
unfoldable pub xor_at : Bytes → ℕ → Bytes → Run Bytes
xor_at mask j [] = ok mask
xor_at mask j (b ∷ bs) = do v ← at mask j; mask' ← put mask j (bit_xor v b); xor_at mask' (suc j) bs

unfoldable pub seal : XorNonceAead → Bytes → Bytes → Bytes → Run (Bytes × XorNonceAead)
seal f nonce text extra = do
  mask ← xor_at f.nonce_mask 4 nonce
  let result = f.aead.seal mask text extra
  mask' ← xor_at mask 4 nonce
  ok (result, record f { nonce_mask = mask' })

unfoldable pub open_sealed :
    XorNonceAead → Bytes → Bytes → Bytes → Run (Option Bytes × XorNonceAead)
open_sealed f nonce text extra = do
  mask ← xor_at f.nonce_mask 4 nonce
  let result = f.aead.open_sealed mask text extra
  mask' ← xor_at mask 4 nonce
  ok (result, record f { nonce_mask = mask' })
