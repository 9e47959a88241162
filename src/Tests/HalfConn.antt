-- ===== src/Tests/HalfConn.antt =====
-- Records between two halves, with the ciphers for tests.
use utls.Base.{
  ℕ, ◌+◌, ◌^◌, List, [], ◌∷◌, Bytes, IsByte, All, length, Option, none, some, ok, panic, ◌≡◌, refl,
  arith, ◌⊎◌, replicate, length-replicate, drop,
}
use utls.Base.Buffer.{put}
use utls.HalfConn.{
  HalfConn, unset, cbc_mode, CipherSuite, inc_seq, inc_from, at, explicit_nonce_len, tls10_mac,
  set_traffic_secret,
}
use utls.HalfConn.Padding.{extract_padding, check_bytes}
use utls.HalfConn.Padding.Correct.{Extracted, extract_padding_lem}
use utls.HalfConn.Sequence.{number, inc_seq_lem}
use utls.HalfConn.Encrypt.{Header, sent, encrypt, seal_record, encrypt_cbc, finish, explicit_nonce}
use utls.HalfConn.Decrypt.{
  received, decrypt_record, open_record, open_cbc, close_record, inner_content, check_mac, accept,
}
use utls.HalfConn.Peers.{Linked, by_cbc}
use utls.HalfConn.Keys.{
  ChangedAndExchanged, Keeps, cbc_pair, change_cipher_spec-Exchanged, set_traffic_secret-Exchanged,
}
use utls.HalfConn.Effect.{Counts, decrypt_record-Counts}
use utls.HalfConn.Authentic.{Authentic, decrypt_record-Authentic}
use utls.HalfConn.RoundTrip.Blocks.{All-replicate}
use utls.HalfConn.RoundTrip.Any.{IsRecord}
use utls.HalfConn.RoundTrip.Exchange.{Message, Exchanged, exchange_lem}
use utls.Tests.Ciphers.{checksums, checksums-Laws}

abbrev pub Half : Type 0
Half = HalfConn checksums

-- A reader of random bytes that gives zeros.
abbrev pub zeros : ℕ → Option Bytes
zeros n = some (replicate n 0)

pub zeros_given : (n : ℕ) → (bs : Bytes) × (zeros n ≡ some bs) × (length bs ≡ n)
zeros_given n = (replicate n 0, refl, length-replicate n 0)

abbrev pub seq_zero : Bytes
seq_zero = replicate 8 0

pub seq_zero_bytes : All IsByte seq_zero
seq_zero_bytes = All-replicate 8 0 (omega arith)

-- TLS 1.2 with a cipher in CBC mode.
abbrev pub half : Half
half = record {
  version = 0x0303;
  cipher = cbc_mode 7;
  mac = some 3;
  seq = seq_zero;
  next_cipher = unset;
  next_mac = none;
  level = 0;
  traffic_secret = [];
}

pub half-Linked : Linked checksums checksums-Laws half half
half-Linked = record {
  same_version = refl;
  same_seq = refl;
  protects = by_cbc 7 7 3 refl refl refl refl (λ same. absurd (omega (arith, same))) refl;
}

-- A record of three bytes of application data.
abbrev pub header : Header
header = record { typ = 23; major = 3; minor = 3; high = 0; low = 3 }

abbrev pub letters : Bytes
letters = 97 ∷ 98 ∷ 99 ∷ []

letters-IsRecord : IsRecord header letters
letters-IsRecord = record {
  bytes = (omega arith, (omega arith, (omega arith, tt)));
  small = omega arith;
  fits = (refl, refl);
  has_type = omega arith;
}

abbrev seq_one : Bytes
seq_one = 0 ∷ 0 ∷ 0 ∷ 0 ∷ 0 ∷ 0 ∷ 0 ∷ 1 ∷ []

seq_one_next : inc_seq seq_zero ≡ ok seq_one
unfolding inc_seq inc_from at put
seq_one_next = refl

exchange_lem_example : Exchanged checksums checksums-Laws zeros half half (
    (record { header = header; payload = letters })
    ∷ (record { header = header; payload = letters })
    ∷ [])
exchange_lem_example =
    exchange_lem checksums checksums-Laws zeros half half
      ((record { header = header; payload = letters })
        ∷ (record { header = header; payload = letters })
        ∷ [])
      zeros_given half-Linked (refl, seq_zero_bytes) (letters-IsRecord, (letters-IsRecord, tt))
      (omega arith)

-- A run of the code: the record that is sent, with an explicit IV of eight zeros.
abbrev wire : Bytes
wire =
    23 ∷ 3 ∷ 3 ∷ 0 ∷ 16 ∷ 0 ∷ 0 ∷ 0 ∷ 0 ∷ 0 ∷ 0 ∷ 0 ∷ 0 ∷ 102 ∷ 101 ∷ 100 ∷ 78 ∷ 4 ∷ 4 ∷ 4 ∷ 4 ∷ []

wire_sent :
    encrypt checksums zeros half header letters ≡ ok (sent wire (record half { seq = seq_one }))
unfolding encrypt seal_record encrypt_cbc finish explicit_nonce explicit_nonce_len tls10_mac inc_seq
    inc_from at put
wire_sent = refl

wire_received :
    decrypt_record checksums half (record header { low = 16 }) (drop 5 wire)
    ≡ ok (received letters 23 (record half { seq = seq_one }))
unfolding decrypt_record open_record open_cbc close_record inner_content check_mac accept
    explicit_nonce_len tls10_mac extract_padding check_bytes inc_seq inc_from at put
wire_received = refl

decrypt_record-Counts_example :
    Counts checksums seq_zero (received letters 23 (record half { seq = seq_one }))
decrypt_record-Counts_example =
    decrypt_record-Counts checksums half (record header { low = 16 }) (drop 5 wire)
      (received letters 23 (record half { seq = seq_one })) refl wire_received

decrypt_record-Authentic_example :
    Authentic checksums half 3 (record header { low = 16 }) (drop 5 wire) letters
    × (header.typ ≡ 23)
decrypt_record-Authentic_example =
    decrypt_record-Authentic checksums half (record half { seq = seq_one }) 3
      (record header { low = 16 }) (drop 5 wire) letters 23 refl
      (λ same. absurd (omega (arith, same))) refl wire_received

extract_padding_lem_example : Extracted (9 ∷ 1 ∷ 1 ∷ []) (extract_padding (9 ∷ 1 ∷ 1 ∷ []))
extract_padding_lem_example =
    extract_padding_lem (9 ∷ 1 ∷ 1 ∷ []) (omega arith, (omega arith, (omega arith, tt)))
      (omega arith) (omega arith)

inc_seq_lem_example :
    ((seq' : Bytes) × (inc_seq seq_zero ≡ ok seq')
      × (length seq' ≡ 8)
      × All IsByte seq'
      × (number seq' ≡ number seq_zero + 1))
    ⊎ ((number seq_zero + 1 ≡ 2 ^ 64) × (inc_seq seq_zero ≡ panic))
inc_seq_lem_example = inc_seq_lem seq_zero refl seq_zero_bytes

-- A half that has sent five records without a cipher.
abbrev before : Half
before = record half { cipher = unset; mac = none; seq = 0 ∷ 0 ∷ 0 ∷ 0 ∷ 0 ∷ 0 ∷ 0 ∷ 5 ∷ [] }

abbrev one_record : List Message
one_record = record { header = header; payload = letters } ∷ []

change_cipher_spec-Exchanged_example :
    ChangedAndExchanged checksums checksums-Laws zeros 0x0303
      (cbc_mode 7)
      (cbc_mode 7)
      (some 3)
      (some 3)
      before
      half
      one_record
change_cipher_spec-Exchanged_example =
    change_cipher_spec-Exchanged checksums checksums-Laws zeros 0x0303 (cbc_mode 7) (cbc_mode 7)
      (some 3) (some 3) before half one_record zeros_given (λ same. absurd (omega (arith, same)))
      (cbc_pair 7 7 3 refl) refl refl (letters-IsRecord, tt) (omega arith)

abbrev suite : CipherSuite checksums
suite = record {
  traffic_key = λ secret. (secret, 1 ∷ []);
  new_aead = λ key iv. record { key = length key; explicit = 0 };
}

set_traffic_secret-Exchanged_example :
    let w' = set_traffic_secret checksums suite 1 letters before in
    let r' = set_traffic_secret checksums suite 1 letters (record half { mac = none }) in
    (number w'.seq ≡ 0)
    × Keeps checksums checksums-Laws letters 1 w'
    × Keeps checksums checksums-Laws letters 1 r'
    × Exchanged checksums checksums-Laws zeros w' r' one_record
set_traffic_secret-Exchanged_example =
    set_traffic_secret-Exchanged checksums checksums-Laws zeros suite suite 1 letters letters
      (1 ∷ []) before (record half { mac = none }) one_record zeros_given refl refl refl refl refl
      refl refl refl (letters-IsRecord, tt) (omega arith)
