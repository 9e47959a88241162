-- ===== src/NonceAead/Prefix.antt =====
-- cipher_suites.go: prefixNonceAEAD, which puts a fixed prefix in front of the nonce, and aeadAESGCM.
use utls.Base.{◌==◌, Bytes, length, replicate, if◌then◌else◌, Option, Run, ok, panic, ◌>>=◌}
use utls.Base.Buffer.{copy_at, copy}
use utls.NonceAead.{Aead, aead_nonce_length, nonce_prefix_length}

pub record PrefixNonceAead : Type 0 where
  pub nonce : Bytes
  pub aead : Aead

-- aeadAESGCM, with the AEAD for the key
unfoldable pub aead_aes_gcm : Aead → Bytes → Run PrefixNonceAead
aead_aes_gcm aead nonce_prefix =
    if length nonce_prefix == nonce_prefix_length
    then ok (record { nonce = copy (replicate aead_nonce_length 0) nonce_prefix; aead = aead })
    else panic

unfoldable pub with_nonce : PrefixNonceAead → Bytes → Run PrefixNonceAead
with_nonce f nonce = do nonce' ← copy_at f.nonce 4 nonce; ok (record f { nonce = nonce' })

unfoldable pub seal : PrefixNonceAead → Bytes → Bytes → Bytes → Run (Bytes × PrefixNonceAead)
seal f nonce text extra = do f' ← with_nonce f nonce; ok (f'.aead.seal f'.nonce text extra, f')

unfoldable pub open_sealed :
    PrefixNonceAead → Bytes → Bytes → Bytes → Run (Option Bytes × PrefixNonceAead)
open_sealed f nonce text extra = do
  f' ← with_nonce f nonce
  ok (f'.aead.open_sealed f'.nonce text extra, f')
