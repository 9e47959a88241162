-- ===== src/Tests/Conn.antt =====
-- A message written to the buffer of a connection.
use utls.Base.{ℕ, ◌+◌, true, false, [], length, none, refl, arith}
use utls.Conn.{Net, Conn, write_record_locked}
use utls.Conn.Arrives.{Arrives, write_record_locked-Arrives}
use utls.Tests.Ciphers.{checksums, checksums-Laws}
use utls.Tests.HalfConn.{zeros, half, letters, zeros_given, seq_zero_bytes, half-Linked}

-- A network that counts what is written to it.
abbrev counting : Net
counting = record { State = ℕ; write = λ msg n. (length msg, true, n + length msg) }

abbrev conn : Conn checksums counting
conn = record {
  vers = 0x0303;
  out = half;
  out_error = none;
  dynamic_record_sizing_disabled = false;
  bytes_sent = 0;
  packets_sent = 0;
  buffering = true;
  send_buf = [];
  net = 0;
}

write_record_locked-Arrives_example :
    Arrives checksums checksums-Laws counting
      (write_record_locked checksums counting zeros 22 conn letters)
      conn
      half
      0
      22
      letters
write_record_locked-Arrives_example =
    write_record_locked-Arrives checksums checksums-Laws counting zeros 22 conn half letters
      zeros_given half-Linked (refl, seq_zero_bytes) refl refl (omega arith)
      (λ same. absurd (omega (arith, same))) (omega arith, (omega arith, (omega arith, tt)))
      (omega arith)
