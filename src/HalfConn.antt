-- ===== src/HalfConn.antt =====
-- conn.go: halfConn, one direction of the record layer, with its ciphers as parameters. What the standard
-- library and the cipher suites provide is the record Algorithms.
pub mod Padding
pub mod Encrypt
pub mod Decrypt
pub mod Sequence
pub mod Peers
pub mod RoundTrip
pub mod Keys
pub mod Accepted
pub mod Effect
pub mod Authentic
use utls.Base.{
  ℕ, zero, suc, ◌+◌, ◌%◌, ◌==◌, leb, Bool, true, false, ◌||◌, [], ◌∷◌, ◌++◌, Option, none, some,
  Bytes, length, replicate, get_elem?, if◌then◌else◌, Run, ok, panic, ◌>>=◌,
}
use utls.Base.Buffer.{put}

-- cipher.Stream, aead, cbcMode and hash.Hash. A call that changes its receiver returns it as it is afterwards.
pub record Algorithms : Type 1 where
  pub Stream : Type 0
  pub Aead : Type 0
  pub CbcMode : Type 0
  pub Hash : Type 0
  pub xor_key_stream : Stream → Bytes → Bytes × Stream
  pub nonce_len : Aead → ℕ
  pub overhead : Aead → ℕ
  -- The nonce, the text and the additional data.
  pub seal : Aead → Bytes → Bytes → Bytes → Bytes
  pub open_sealed : Aead → Bytes → Bytes → Bytes → Option Bytes
  pub block_size : CbcMode → ℕ
  pub set_iv : Bytes → CbcMode → CbcMode
  pub crypt_blocks : CbcMode → Bytes → Bytes × CbcMode
  pub size : Hash → ℕ
  -- Reset, Write and Sum
  pub digest : Hash → Bytes → Bytes

-- The errors of the record layer: alerts, and the failure of a read from `rand`.
pub data Failure : Type 0 where
  alert_bad_record_mac : Failure
  alert_unexpected_message : Failure
  alert_record_overflow : Failure
  alert_internal_error : Failure
  read_failure : Failure

abbrev pub version_tls11 : ℕ
version_tls11 = 0x0302

abbrev pub version_tls13 : ℕ
version_tls13 = 0x0304

abbrev pub record_header_len : ℕ
record_header_len = 5

abbrev pub max_plaintext : ℕ
max_plaintext = 16384

abbrev pub record_type_change_cipher_spec : ℕ
record_type_change_cipher_spec = 20

abbrev pub record_type_application_data : ℕ
record_type_application_data = 23

module _ (A : Algorithms) where
  -- The dynamic types that the field `cipher` is tested for: nil, the three kinds, and any other.
  pub data Cipher : Type 0 where
    unset : Cipher
    stream : A.Stream → Cipher
    aead : A.Aead → Cipher
    cbc_mode : A.CbcMode → Cipher
    unknown : Cipher

  -- halfConn, without the mutex, the scratch buffer and the permanent error
  pub record HalfConn : Type 0 where
    pub version : ℕ
    pub cipher : Cipher
    pub mac : Option A.Hash
    pub seq : Bytes
    pub next_cipher : Cipher
    pub next_mac : Option A.Hash
    pub level : ℕ
    pub traffic_secret : Bytes

  -- cipherSuiteTLS13, as far as it is called here
  pub record CipherSuite : Type 0 where
    pub traffic_key : Bytes → Bytes × Bytes
    pub new_aead : Bytes → Bytes → A.Aead

  -- A call's result beside the state that it leaves.
  pub data Reply : Type 0 where
    failed : Failure → HalfConn → Reply
    done : HalfConn → Reply

  unfoldable pub prepare_cipher_spec : ℕ → Cipher → Option A.Hash → HalfConn → HalfConn
  prepare_cipher_spec version cipher mac hc = record hc {
    version = version;
    next_cipher = cipher;
    next_mac = mac;
  }

  abbrev pub is_unset : Cipher → Bool
  is_unset unset = true
  is_unset (stream s) = false
  is_unset (aead a) = false
  is_unset (cbc_mode c) = false
  is_unset unknown = false

  unfoldable pub change_cipher_spec : HalfConn → Reply
  change_cipher_spec hc =
      if is_unset hc.next_cipher || (hc.version == version_tls13)
      then failed alert_internal_error hc
      else done (record hc {
        cipher = hc.next_cipher;
        mac = hc.next_mac;
        next_cipher = unset;
        next_mac = none;
        seq = replicate (length hc.seq) 0;
      })

  unfoldable pub set_traffic_secret : CipherSuite → ℕ → Bytes → HalfConn → HalfConn
  set_traffic_secret suite level secret hc =
      let pair = suite.traffic_key secret in
      record hc {
        traffic_secret = secret;
        level = level;
        cipher = aead (suite.new_aead pair.0 pair.1);
        seq = replicate (length hc.seq) 0;
      }

  unfoldable pub explicit_nonce_len : HalfConn → Run ℕ
  explicit_nonce_len hc = elim hc.cipher [
    | unset ↦ ok 0
    | stream s ↦ ok 0
    | aead a ↦ ok (A.nonce_len a)
    | cbc_mode c ↦ ok (if leb version_tls11 hc.version then A.block_size c else 0)
    | unknown ↦ panic
  ]

  -- `extra` does not change what is returned.
  unfoldable pub tls10_mac : A.Hash → Bytes → Bytes → Bytes → Bytes
  tls10_mac h seq header payload = A.digest h (seq ++ (header ++ payload))

-- `b[i]`, which panics out of range
unfoldable pub at : Bytes → ℕ → Run ℕ
at b i = elim (get_elem? b i) [ none ↦ panic | some v ↦ ok v ]

-- The loop of incSeq over the indices below `i`, downwards, and the panic behind it.
unfoldable pub inc_from : Bytes → ℕ → Run Bytes
inc_from seq zero = panic
inc_from seq (suc i) = do
  b ← at seq i
  seq' ← put seq i ((b + 1) % 256)
  let rest = inc_from seq' i
  if (b + 1) % 256 == 0 then rest else ok seq'

unfoldable pub inc_seq : Bytes → Run Bytes
inc_seq seq = inc_from seq 8
