-- ===== src/Conn.antt =====
-- conn.go: how a Conn writes, without QUIC: maxPayloadSizeForWrite, write, flush, writeRecordLocked and
-- sendAlertLocked. The connection below is the record Net.
pub mod Arrives
use Prim.Native.Nat.{bit_and}
use utls.Base.{
  ℕ, zero, suc, ◌+◌, ◌-◌, ◌*◌, ◌^◌, ◌==◌, ltb, leb, Bool, true, false, not, ◌&&◌, ◌||◌, [], ◌∷◌,
  ◌++◌, Option, none, some, Bytes, length, take, drop, if◌then◌else◌, Run, ok, panic, ◌>>=◌,
}
use utls.Extension.Wire.{hi, lo}
use utls.HalfConn.{
  Algorithms, Failure, version_tls13, record_header_len, max_plaintext,
  record_type_change_cipher_spec, record_type_application_data, Cipher, unset, stream, aead,
  cbc_mode, unknown, HalfConn, explicit_nonce_len, Reply, done, failed, change_cipher_spec,
}
use utls.HalfConn.Encrypt.{Header, Encrypted, sent, not_sent, encrypt, the_mac}

-- net.Conn: Write returns the number of bytes written and whether there was no error.
pub record Net : Type 1 where
  pub State : Type 0
  pub write : Bytes → State → ℕ × Bool × State

pub data WriteError : Type 0 where
  of_encrypt : Failure → WriteError
  of_net : WriteError
  -- net.OpError with the text "local error" and an alert
  local_error : ℕ → WriteError

abbrev pub tcp_mss_estimate : ℕ
tcp_mss_estimate = 1208

abbrev pub record_size_boost_threshold : ℕ
record_size_boost_threshold = 128 * 1024

abbrev pub record_type_alert : ℕ
record_type_alert = 21

-- `a - b` of an int, where `none` is a negative number.
abbrev pub minus_int : Option ℕ → ℕ → Option ℕ
minus_int none b = none
minus_int (some a) b = if ltb a b then none else some (a - b)

-- `a & ^(b - 1)` of ints
abbrev pub mask_int : Option ℕ → ℕ → Option ℕ
mask_int none b = none
mask_int (some a) b = some (bit_and a (2 ^ 64 - b))

-- `a * b`, and at most the plaintext of a record
abbrev pub at_most : Option ℕ → ℕ → Option ℕ
at_most none b = none
at_most (some a) b = some (if ltb max_plaintext (a * b) then max_plaintext else a * b)

module _ (A : Algorithms) (N : Net) where
  -- The fields of Conn that a write uses; `out_error` is the error of `out`.
  pub record Conn : Type 0 where
    pub vers : ℕ
    pub out : HalfConn A
    pub out_error : Option WriteError
    pub dynamic_record_sizing_disabled : Bool
    pub bytes_sent : ℕ
    pub packets_sent : ℕ
    pub buffering : Bool
    pub send_buf : Bytes
    pub net : N.State

  -- The bytes of payload for each segment, before the byte for the content type.
  unfoldable pub payload_bytes : Conn → Run (Option ℕ)
  payload_bytes c = do
    n ← explicit_nonce_len A c.out
    let room = minus_int (some (tcp_mss_estimate - record_header_len)) n
    elim c.out.cipher [
      | unset ↦ ok room
      | stream s ↦ the_mac A c.out.mac >>= λ m. ok (minus_int room (A.size m))
      | aead a ↦ ok (minus_int room (A.overhead a))
      | cbc_mode b ↦ the_mac A c.out.mac >>= λ m.
          ok (minus_int (minus_int (mask_int room (A.block_size b)) 1) (A.size m))
      | unknown ↦ panic
    ]

  -- The size, where `none` is a negative one, and the connection afterwards.
  unfoldable pub max_payload_size_for_write : Conn → ℕ → Run (Option ℕ × Conn)
  max_payload_size_for_write c typ =
      if c.dynamic_record_sizing_disabled || not (typ == record_type_application_data)
      then ok (some max_plaintext, c)
      else if leb record_size_boost_threshold c.bytes_sent
      then ok (some max_plaintext, c)
      else (do
        room ← payload_bytes c
        let size = if c.vers == version_tls13 then minus_int room 1 else room
        let pkt = c.packets_sent
        let c' = record c { packets_sent = pkt + 1 }
        if ltb 1000 pkt then ok (some max_plaintext, c') else ok (at_most size (pkt + 1), c'))

  -- Whether there was no error, and the connection afterwards.
  unfoldable pub write : Conn → Bytes → Bool × Conn
  write c msg =
      if c.buffering
      then (true, record c { send_buf = c.send_buf ++ msg })
      else let out = N.write msg c.net in
        (out.1, record c { bytes_sent = c.bytes_sent + out.0; net = out.2 })

  unfoldable pub flush : Conn → Bool × Conn
  flush c = elim c.send_buf [
    | [] ↦ (true, c)
    | b ∷ buf ↦
        let out = N.write (b ∷ buf) c.net in
        (
          out.1,
          record c {
            bytes_sent = c.bytes_sent + out.0;
            net = out.2;
            send_buf = [];
            buffering = false;
          },
        )
  ]

  -- Records of TLS 1.3 say 1.2, and the first ones 1.0.
  abbrev pub record_version : ℕ → ℕ
  record_version vers = if vers == 0 then 0x0301 else if vers == version_tls13 then 0x0303 else vers

  abbrev pub header_of : ℕ → ℕ → ℕ → Header
  header_of typ vers m = record {
    typ = typ;
    major = hi (record_version vers);
    minor = lo (record_version vers);
    high = hi m;
    low = lo m;
  }

  pub data Written : Type 0 where
    written : ℕ → Conn → Written
    write_failed : ℕ → WriteError → Conn → Written
    out_of_fuel : Written

  -- `if m > maxPayload { m = maxPayload }`, and the slice `data[:m]` panics on a negative number.
  abbrev pub piece : Option ℕ → ℕ → Run ℕ
  piece none len = panic
  piece (some max) len = ok (if ltb max len then max else len)

  -- The loop, with the number of bytes written so far.
  unfoldable pub write_records : (ℕ → Option Bytes) → ℕ → ℕ → ℕ → Conn → Bytes → Run Written
  write_records rand fuel n typ c [] = ok (written n c)
  write_records rand zero n typ c (b ∷ msg) = ok out_of_fuel
  write_records rand (suc fuel) n typ c (b ∷ msg) = do
    limit ← max_payload_size_for_write c typ
    m ← piece limit.0 (length (b ∷ msg))
    let c₁ = limit.1
    result ← encrypt A rand c₁.out (header_of typ c.vers m) (take m (b ∷ msg))
    elim result [
      | not_sent f out ↦ ok (write_failed n (of_encrypt f) (record c₁ { out = out }))
      | sent wire out ↦
          let done_it = write (record c₁ { out = out }) wire in
          let rest = write_records rand fuel (n + m) typ done_it.1 (drop m (b ∷ msg)) in
          if done_it.0 then rest else ok (write_failed n of_net done_it.1)
    ]

  abbrev pub alert_level : ℕ → ℕ
  alert_level err = if (err == 100) || (err == 0) then 1 else 2

  -- The error that is kept in `out` and returned.
  abbrev pub set_error_locked : WriteError → Conn → Conn
  set_error_locked err c = record c { out_error = some err }

  -- What sendAlertLocked returns: the error of the write, if any, for close_notify, and else the local error.
  abbrev pub alert_sent : ℕ → Written → Option WriteError × Conn → Option WriteError × Conn
  alert_sent err (written n c) start =
      if err == 0 then (none, c) else (some (local_error err), set_error_locked (local_error err) c)
  alert_sent err (write_failed n e c) start =
      if err == 0
      then (some e, c)
      else (some (local_error err), set_error_locked (local_error err) c)
  alert_sent err out_of_fuel start = start

  -- A record of type alert is written by the loop alone.
  unfoldable pub send_alert_locked : (ℕ → Option Bytes) → ℕ → Conn → Run (Option WriteError × Conn)
  send_alert_locked rand err c = do
    result ← write_records rand 2 0 record_type_alert c (alert_level err ∷ err ∷ [])
    ok (alert_sent err result (none, c))

  -- The end: a change_cipher_spec record changes the keys.
  unfoldable pub after_records : (ℕ → Option Bytes) → ℕ → Written → Run Written
  after_records rand typ (write_failed n e c) = ok (write_failed n e c)
  after_records rand typ out_of_fuel = ok out_of_fuel
  after_records rand typ (written n c) =
      if (typ == record_type_change_cipher_spec) && not (c.vers == version_tls13)
      then (elim (change_cipher_spec A c.out) [
        | done out ↦ ok (written n (record c { out = out }))
        | failed f out ↦ do
          result ← send_alert_locked rand 80 (record c { out = out })
          ok (write_failed n (local_error 80) result.1)
      ])
      else ok (written n c)

  unfoldable pub write_record_locked : (ℕ → Option Bytes) → ℕ → Conn → Bytes → Run Written
  write_record_locked rand typ c msg =
      write_records rand (length msg) 0 typ c msg >>= after_records rand typ
