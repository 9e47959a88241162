-- ===== src/HalfConn/Keys.antt =====
-- The changes of keys: two halves that are given the ciphers of one another, whatever they did before, carry
-- records from the number 0 on.
use mathlib.Core.Path.{subst}
use utls.Base.{
  ℕ, zero, suc, ◌==◌, ◌^◌, ◌<◌, false, List, Bytes, All, length, replicate, Option, none, some, ◌≡◌,
  ◌≢◌, refl, sym, ◌∙◌, ap, arith,
}
use utls.HalfConn.{
  Algorithms, alert_internal_error, version_tls13, Cipher, unset, is_unset, stream, aead, cbc_mode,
  HalfConn, done, failed, CipherSuite, prepare_cipher_spec, change_cipher_spec, set_traffic_secret,
}
use utls.HalfConn.Sequence.{number}
use utls.HalfConn.Peers.{Laws, Protects, by_stream, by_aead, by_cbc}
use utls.HalfConn.RoundTrip.Steps.{Gives}
use utls.HalfConn.RoundTrip.Blocks.{All-replicate}
use utls.HalfConn.RoundTrip.Any.{IsRecord}
use utls.HalfConn.RoundTrip.Exchange.{IsSeq, Message, Exchanged, exchange_lem}

number-zeros : (n : ℕ) → number (replicate n 0) ≡ 0
number-zeros zero = refl
number-zeros (suc n) = number-zeros n

zeros-IsSeq : (seq : Bytes) → length seq ≡ 8 → IsSeq (replicate (length seq) 0)
zeros-IsSeq seq size =
    subst (λ n. IsSeq (replicate n 0)) (sym size) (refl, All-replicate 8 0 (omega arith))

older_version : (v : ℕ) → v ≢ version_tls13 → (v == version_tls13) ≡ false
older_version v older = ground arith

module _ (A : Algorithms) (L : Laws A) where
  -- The cipher and the MAC that a suite before TLS 1.3 makes for the writing end, and those for the reading end.
  pub data Counterparts : Cipher A → Option A.Hash → Cipher A → Option A.Hash → Type 0 where
    stream_pair :
        (s s' : A.Stream) (m : A.Hash)
        → L.StreamPeers s s'
        → Counterparts (stream s) (some m) (stream s') (some m)
    aead_pair : (a a' : A.Aead) → L.AeadPeers a a' → Counterparts (aead a) none (aead a') none
    cbc_pair :
        (c c' : A.CbcMode) (m : A.Hash)
        → L.CbcPeers c c'
        → Counterparts (cbc_mode c) (some m) (cbc_mode c') (some m)

  Counterparts-Protects :
      (version : ℕ) (c c' : Cipher A) (m m' : Option A.Hash) (w r : HalfConn A)
      → version ≢ version_tls13
      → Counterparts c m c' m'
      → w.cipher ≡ c
      → w.mac ≡ m
      → r.cipher ≡ c'
      → r.mac ≡ m'
      → Protects A L version w r
  Counterparts-Protects version c c' m m' w r older (stream_pair s s' h peers) e₁ e₂ e₃ e₄ =
      by_stream s s' h e₁ e₂ e₃ e₄ older peers
  Counterparts-Protects version c c' m m' w r older (aead_pair a a' peers) e₁ e₂ e₃ e₄ =
      by_aead a a' e₁ e₃ e₄ (λ new. absurd (older new)) peers
  Counterparts-Protects version c c' m m' w r older (cbc_pair b b' h peers) e₁ e₂ e₃ e₄ =
      by_cbc b b' h e₁ e₂ e₃ e₄ older peers

  Counterparts-set :
      (c c' : Cipher A) (m m' : Option A.Hash)
      → Counterparts c m c' m'
      → (is_unset A c ≡ false) × (is_unset A c' ≡ false)
  Counterparts-set c c' m m' (stream_pair s s' h peers) = (refl, refl)
  Counterparts-set c c' m m' (aead_pair a a' peers) = (refl, refl)
  Counterparts-set c c' m m' (cbc_pair b b' h peers) = (refl, refl)

  -- changeCipherSpec returns without an error after prepareCipherSpec, and what it leaves.
  pub data Changes (version : ℕ) (c : Cipher A) (m : Option A.Hash) (hc : HalfConn A) : Type 0 where
    changes :
        (hc' : HalfConn A)
        → change_cipher_spec A (prepare_cipher_spec A version c m hc) ≡ done hc'
        → change_cipher_spec A hc' ≡ failed alert_internal_error hc'
        → hc'.version ≡ version
        → hc'.cipher ≡ c
        → hc'.mac ≡ m
        → hc'.seq ≡ replicate (length hc.seq) 0
        → Changes version c m hc

  prepare_cipher_spec-Changes :
      (version : ℕ) (c : Cipher A) (m : Option A.Hash) (hc : HalfConn A)
      → version ≢ version_tls13
      → is_unset A c ≡ false
      → Changes version c m hc
  unfolding change_cipher_spec prepare_cipher_spec
  prepare_cipher_spec-Changes version c m hc older set =
      changes
        (record hc {
          version = version;
          cipher = c;
          mac = m;
          next_cipher = unset;
          next_mac = none;
          seq = replicate (length hc.seq) 0;
        })
        (rw (set, older_version version older) refl) refl refl refl refl refl

  -- Both halves change, and the records then sent on the first are received on the second.
  pub data ChangedAndExchanged (rand : ℕ → Option Bytes) (version : ℕ) (c c' : Cipher A)
      (m m' : Option A.Hash) (w r : HalfConn A) (ms : List Message) : Type 0 where
    changed_and_exchanged :
        (w' r' : HalfConn A)
        → change_cipher_spec A (prepare_cipher_spec A version c m w) ≡ done w'
        → change_cipher_spec A (prepare_cipher_spec A version c' m' r) ≡ done r'
        → change_cipher_spec A w' ≡ failed alert_internal_error w'
        → change_cipher_spec A r' ≡ failed alert_internal_error r'
        → number w'.seq ≡ 0
        → Exchanged A L rand w' r' ms
        → ChangedAndExchanged rand version c c' m m' w r ms

  -- Before TLS 1.3, two halves in any state, with sequence numbers of eight bytes, that prepareCipherSpec gives
  -- one version and the ciphers and MACs of the two ends of a connection: changeCipherSpec returns without an
  -- error on both, and with an internal error, changing nothing, when it is called once more; any run of
  -- fewer than 2^64 records sent on the first is then received on the second, with the numbers from 0 on.
  pub change_cipher_spec-Exchanged :
      (rand : ℕ → Option Bytes) (version : ℕ) (c c' : Cipher A) (m m' : Option A.Hash)
      (w r : HalfConn A) (ms : List Message)
      → Gives rand
      → version ≢ version_tls13
      → Counterparts c m c' m'
      → length w.seq ≡ 8
      → length r.seq ≡ 8
      → All (λ x. IsRecord x.header x.payload) ms
      → length ms < 2 ^ 64
      → ChangedAndExchanged rand version c c' m m' w r ms
  change_cipher_spec-Exchanged rand version c c' m m' w r ms gives older pair size size' are few =
      let set = Counterparts-set c c' m m' pair in
      elim (prepare_cipher_spec-Changes version c m w older set.0) [
        | changes w' w_done w_once w_version w_cipher w_mac w_seq ↦
            elim (prepare_cipher_spec-Changes version c' m' r older set.1) [
              | changes r' r_done r_once r_version r_cipher r_mac r_seq ↦
                  let start = ap number w_seq ∙ number-zeros (length w.seq) in
                  changed_and_exchanged w' r' w_done r_done w_once r_once start (
                    exchange_lem A L rand w' r' ms gives
                      (record {
                        same_version = w_version ∙ sym r_version;
                        same_seq = w_seq ∙ ap (λ n. replicate n 0) (size ∙ sym size') ∙ sym r_seq;
                        protects =
                            Counterparts-Protects w'.version c c' m m' w' r'
                              (λ new. older (sym w_version ∙ new)) pair w_cipher w_mac r_cipher
                              r_mac;
                      })
                      (subst IsSeq (sym w_seq) (zeros-IsSeq w.seq size)) are
                      (omega (arith, start, few)))
            ]
      ]

  abbrev pub Keeps : Bytes → ℕ → HalfConn A → Type 0
  Keeps secret level hc = (hc.traffic_secret ≡ secret) × (hc.level ≡ level)

  -- Two halves of one version, in any state but with sequence numbers of eight bytes and no MAC on the reading
  -- one, that get a traffic secret by setTrafficSecret: if both suites derive one key and IV from this secret,
  -- and the AEADs for that key and IV are those of the two ends of a connection and have no explicit nonce,
  -- any run of fewer than 2^64 records sent on the first is received on the second, with the numbers from
  -- 0 on. Both halves keep the secret and the level.
  pub set_traffic_secret-Exchanged :
      (rand : ℕ → Option Bytes) (suite suite' : CipherSuite A) (level : ℕ) (secret key iv : Bytes)
      (w r : HalfConn A) (ms : List Message)
      → Gives rand
      → suite.traffic_key secret ≡ (key, iv)
      → suite'.traffic_key secret ≡ (key, iv)
      → L.AeadPeers (suite.new_aead key iv) (suite'.new_aead key iv)
      → A.nonce_len (suite.new_aead key iv) ≡ 0
      → w.version ≡ r.version
      → r.mac ≡ none
      → length w.seq ≡ 8
      → length r.seq ≡ 8
      → All (λ x. IsRecord x.header x.payload) ms
      → length ms < 2 ^ 64
      → let w' = set_traffic_secret A suite level secret w in
        let r' = set_traffic_secret A suite' level secret r in
        (number w'.seq ≡ 0)
        × Keeps secret level w'
        × Keeps secret level r'
        × Exchanged A L rand w' r' ms
  unfolding set_traffic_secret
  set_traffic_secret-Exchanged rand suite suite' level secret key iv w r ms gives derives derives'
        peers bare versions no_mac size size' are few =
      let w' = set_traffic_secret A suite level secret w in
      let r' = set_traffic_secret A suite' level secret r in
      let start = number-zeros (length w.seq) in
      (
        start,
        (refl, refl),
        (refl, refl),
        exchange_lem A L rand w' r' ms gives
            (record {
              same_version = versions;
              same_seq = ap (λ n. replicate n 0) (size ∙ sym size');
              protects =
                  by_aead (suite.new_aead key iv) (suite'.new_aead key iv)
                    (ap (λ k. aead (suite.new_aead k.0 k.1)) derives)
                    (ap (λ k. aead (suite'.new_aead k.0 k.1)) derives') no_mac (λ new. bare) peers;
            })
            (zeros-IsSeq w.seq size) are (omega (arith, start, few)),
      )
