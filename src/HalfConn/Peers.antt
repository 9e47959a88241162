-- ===== src/HalfConn/Peers.antt =====
-- The two ends of a protected connection: what the ciphers promise of a pair of keyed states, and when the
-- writing half of one end and the reading half of the other are in step.
use utls.Base.{ℕ, ◌+◌, ◌%◌, ◌≤◌, ◌<◌, ◌++◌, Bytes, IsByte, All, length, none, some, ◌≡◌, ◌≢◌}
use utls.HalfConn.{Algorithms, version_tls13, stream, aead, cbc_mode, HalfConn}

-- Documented of cipher.Stream, cipher.AEAD, cipher.BlockMode and hash.Hash: the pairs are an encrypting state
-- and the decrypting state with the same key behind the same text.
pub record Laws (A : Algorithms) : Type 1 where
  pub StreamPeers : A.Stream → A.Stream → Type 0
  pub AeadPeers : A.Aead → A.Aead → Type 0
  pub CbcPeers : A.CbcMode → A.CbcMode → Type 0
  pub xor_key_stream_lem :
      (s s' : A.Stream) (x : Bytes)
      → StreamPeers s s'
      → ((A.xor_key_stream s' (A.xor_key_stream s x).0).0 ≡ x)
        × StreamPeers (A.xor_key_stream s x).1 (A.xor_key_stream s' (A.xor_key_stream s x).0).1
  -- Multiple calls behave as if the concatenation of the buffers was passed in a single run.
  pub xor_key_stream-append :
      (s : A.Stream) (x y : Bytes)
      → A.xor_key_stream s (x ++ y) ≡ (
        (A.xor_key_stream s x).0 ++ (A.xor_key_stream (A.xor_key_stream s x).1 y).0,
        (A.xor_key_stream (A.xor_key_stream s x).1 y).1,
      )
  pub open_sealed-seal :
      (a a' : A.Aead) (nonce text extra : Bytes)
      → AeadPeers a a'
      → A.open_sealed a' nonce (A.seal a nonce text extra) extra ≡ some text
  pub length-seal :
      (a : A.Aead) (nonce text extra : Bytes)
      → length (A.seal a nonce text extra) ≡ length text + A.overhead a
  pub overhead_peers : (a a' : A.Aead) → AeadPeers a a' → A.overhead a ≡ A.overhead a'
  pub nonce_len_peers : (a a' : A.Aead) → AeadPeers a a' → A.nonce_len a ≡ A.nonce_len a'
  pub overhead_bound : (a : A.Aead) → A.overhead a ≤ 255
  pub block_size_peers : (c c' : A.CbcMode) → CbcPeers c c' → A.block_size c ≡ A.block_size c'
  pub block_size_bound : (c : A.CbcMode) → (0 < A.block_size c) × (A.block_size c ≤ 256)
  pub set_iv_peers :
      (c c' : A.CbcMode) (iv : Bytes) → CbcPeers c c' → CbcPeers (A.set_iv iv c) (A.set_iv iv c')
  pub block_size-set_iv :
      (c : A.CbcMode) (iv : Bytes) → A.block_size (A.set_iv iv c) ≡ A.block_size c
  pub crypt_blocks_lem :
      (c c' : A.CbcMode) (x : Bytes)
      → CbcPeers c c'
      → length x % A.block_size c ≡ 0
      → ((A.crypt_blocks c' (A.crypt_blocks c x).0).0 ≡ x)
        × CbcPeers (A.crypt_blocks c x).1 (A.crypt_blocks c' (A.crypt_blocks c x).0).1
        × (length (A.crypt_blocks c x).0 ≡ length x)
  pub length-digest : (m : A.Hash) (x : Bytes) → length (A.digest m x) ≡ A.size m
  pub digest-IsByte : (m : A.Hash) (x : Bytes) → All IsByte (A.digest m x)
  pub size_bound : (m : A.Hash) → A.size m ≤ 255

module _ (A : Algorithms) (L : Laws A) where
  -- The ciphers and the MACs of the two halves, at a version. No suite of TLS 1.3 has a MAC or an explicit
  -- nonce.
  pub data Protects (version : ℕ) (w r : HalfConn A) : Type 0 where
    by_stream :
        (s s' : A.Stream) (m : A.Hash)
        → w.cipher ≡ stream s
        → w.mac ≡ some m
        → r.cipher ≡ stream s'
        → r.mac ≡ some m
        → version ≢ version_tls13
        → L.StreamPeers s s'
        → Protects version w r
    by_aead :
        (a a' : A.Aead)
        → w.cipher ≡ aead a
        → r.cipher ≡ aead a'
        → r.mac ≡ none
        → (version ≡ version_tls13 → A.nonce_len a ≡ 0)
        → L.AeadPeers a a'
        → Protects version w r
    by_cbc :
        (c c' : A.CbcMode) (m : A.Hash)
        → w.cipher ≡ cbc_mode c
        → w.mac ≡ some m
        → r.cipher ≡ cbc_mode c'
        → r.mac ≡ some m
        → version ≢ version_tls13
        → L.CbcPeers c c'
        → Protects version w r

  pub record Linked (w r : HalfConn A) : Type 0 where
    pub same_version : w.version ≡ r.version
    pub same_seq : w.seq ≡ r.seq
    pub protects : Protects w.version w r
