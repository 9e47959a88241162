-- ===== src/Conn/Arrives.antt =====
-- What writeRecordLocked writes is what the other end receives, joined.
use mathlib.Core.Path.{ap, subst}
use native.Mathlib.Nat.{le_refl}
use utls.Base.{
  ℕ, zero, suc, ◌+◌, ◌^◌, ◌≤◌, ◌<◌, ◌==◌, ltb, Bool, true, false, not, ◌||◌, List, [], ◌∷◌, ◌++◌,
  append_assoc, append-nil, Option, some, Bytes, IsByte, All, length, take, drop, length-take,
  take-append-drop, length-append, if◌then◌else◌, Run, ok, ◌>>=◌, ◌≡◌, ◌≢◌, refl, sym, ◌∙◌, arith,
  inl, inr,
}
use utls.HalfConn.{Algorithms, max_plaintext, HalfConn}
use utls.HalfConn.Encrypt.{sent, encrypt}
use utls.HalfConn.Decrypt.{received, decrypt}
use utls.Extension.Wire.{hi, lo}
use utls.HalfConn.Sequence.{number, inc_seq_lem}
use utls.HalfConn.Peers.{Laws, Linked}
use utls.HalfConn.RoundTrip.Steps.{Gives, delivered}
use utls.HalfConn.RoundTrip.Any.{IsRecord, encrypt-Delivered}
use utls.HalfConn.RoundTrip.Exchange.{IsSeq, Receives, receives_none, receives_next}
use utls.Conn.{
  Net, Conn, max_payload_size_for_write, write, header_of, Written, written, write_records,
  after_records, write_record_locked,
}

-- All bytes, one list behind the other.
abbrev pub joined : List Bytes → Bytes
joined [] = []
joined (x ∷ xs) = x ++ joined xs

abbrev pub payloads : List (Bytes × ℕ) → Bytes
payloads [] = []
payloads (x ∷ xs) = x.0 ++ payloads xs

All-take : (n : ℕ) (xs : Bytes) → All IsByte xs → All IsByte (take n xs)
All-take zero xs h = tt
All-take (suc n) [] h = tt
All-take (suc n) (x ∷ xs) h = (h.0, All-take n xs h.1)

All-drop : (n : ℕ) (xs : Bytes) → All IsByte xs → All IsByte (drop n xs)
All-drop zero xs h = h
All-drop (suc n) [] h = tt
All-drop (suc n) (x ∷ xs) h = All-drop n xs h.1

-- The first piece of a message: all of it, or 2^14 bytes.
abbrev first_piece : Bytes → ℕ
first_piece msg = if ltb max_plaintext (length msg) then max_plaintext else length msg

first_piece_lem :
    (len : ℕ)
    → 0 < len
    → let m = if ltb max_plaintext len then max_plaintext else len in
      (0 < m) × (m ≤ len) × (m ≤ max_plaintext)
first_piece_lem len h = ground arith

module _ (A : Algorithms) (N : Net) where
  -- Records are not sized dynamically.
  abbrev pub IsFixed : Conn A N → ℕ → Type 0
  IsFixed c typ = (c.dynamic_record_sizing_disabled || not (typ == 23)) ≡ true

  max_payload-IsFixed :
      (c : Conn A N) (typ : ℕ)
      → IsFixed c typ
      → max_payload_size_for_write A N c typ ≡ ok (some max_plaintext, c)
  unfolding max_payload_size_for_write
  max_payload-IsFixed c typ fixed = rw fixed refl

  write_buffered :
      (c : Conn A N) (msg : Bytes)
      → c.buffering ≡ true
      → write A N c msg ≡ (true, record c { send_buf = c.send_buf ++ msg })
  unfolding write
  write_buffered c msg b =
      ap
        (λ (t : Bool).
          if t
          then (true, record c { send_buf = c.send_buf ++ msg })
          else (let out = N.write msg c.net in
              (out.1, record c { bytes_sent = c.bytes_sent + out.0; net = out.2 })))
        b

  -- One round of the loop, on a connection that buffers.
  round_lem :
      (rand : ℕ → Option Bytes) (fuel n typ b : ℕ) (c : Conn A N) (msg wire : Bytes)
      (out : HalfConn A)
      → IsFixed c typ
      → c.buffering ≡ true
      → let m = first_piece (b ∷ msg) in
        encrypt A rand c.out (header_of A N typ c.vers m) (take m (b ∷ msg)) ≡ ok (sent wire out)
        → write_records A N rand (suc fuel) n typ c (b ∷ msg)
          ≡ write_records A N rand fuel
              (n + m)
              typ
              (record c { out = out; send_buf = c.send_buf ++ wire })
              (drop m (b ∷ msg))
  unfolding write_records
  round_lem rand fuel n typ b c msg wire out fixed buffering sends =
      rw
        (
          max_payload-IsFixed c typ fixed,
          sends,
          write_buffered (record c { out = out }) wire buffering,
        )
        refl

module _ (A : Algorithms) (L : Laws A) (N : Net) where
  -- What was written and how it is received.
  pub data Arrives (result : Run (Written A N)) (c : Conn A N) (r : HalfConn A) (n typ : ℕ)
      (msg : Bytes) : Type 0 where
    arrives :
        (wires : List Bytes) (contents : List (Bytes × ℕ)) (c' : Conn A N) (r' : HalfConn A)
        → result ≡ ok (written (n + length msg) c')
        → c'.send_buf ≡ c.send_buf ++ joined wires
        → Receives A r wires contents r'
        → payloads contents ≡ msg
        → All (λ x. x.1 ≡ typ) contents
        → Linked A L c'.out r'
        → Arrives result c r n typ msg

  -- The bytes of one record more, in front.
  Arrives-next :
      (rand : ℕ → Option Bytes) (fuel n typ b : ℕ) (c : Conn A N) (r : HalfConn A)
      (msg wire : Bytes) (out r₁ : HalfConn A)
      → IsFixed A N c typ
      → c.buffering ≡ true
      → let m = first_piece (b ∷ msg) in
        let c₁ : Conn A N = record c { out = out; send_buf = c.send_buf ++ wire } in
        encrypt A rand c.out (header_of A N typ c.vers m) (take m (b ∷ msg)) ≡ ok (sent wire out)
        → decrypt A r wire ≡ ok (received (take m (b ∷ msg)) typ r₁)
        → Arrives
            (write_records A N rand fuel (n + m) typ c₁ (drop m (b ∷ msg)))
            c₁
            r₁
            (n + m)
            typ
            (drop m (b ∷ msg))
        → Arrives (write_records A N rand (suc fuel) n typ c (b ∷ msg)) c r n typ (b ∷ msg)
  Arrives-next rand fuel n typ b c r msg wire out r₁ fixed buffering sends receives
        (arrives wires contents c' r' result sent_it received_it same types linked) =
      let m = first_piece (b ∷ msg) in
      let bound = first_piece_lem (length (b ∷ msg)) (omega arith) in
      let whole = take-append-drop m (b ∷ msg) in
      let total : n + m + length (drop m (b ∷ msg)) ≡ n + length (b ∷ msg) = omega (
        arith,
        length-append (take m (b ∷ msg)) (drop m (b ∷ msg)),
        ap length whole,
        length-take m (b ∷ msg) bound.1,
      ) in
      arrives (wire ∷ wires) ((take m (b ∷ msg), typ) ∷ contents) c' r'
        (round_lem A N rand fuel n typ b c msg wire out fixed buffering sends
          ∙ result
          ∙ ap (λ t. ok (written t c')) total)
        (sent_it ∙ append_assoc c.send_buf wire (joined wires)) (receives_next receives received_it)
        (ap (λ t. take m (b ∷ msg) ++ t) same ∙ whole) (refl, types) linked

  write_records-Arrives :
      (rand : ℕ → Option Bytes) (fuel n typ : ℕ) (c : Conn A N) (r : HalfConn A) (msg : Bytes)
      → Gives rand
      → Linked A L c.out r
      → IsSeq c.out.seq
      → IsFixed A N c typ
      → c.buffering ≡ true
      → 0 < typ
      → All IsByte msg
      → length msg ≤ fuel
      → number c.out.seq + length msg < 2 ^ 64
      → Arrives (write_records A N rand fuel n typ c msg) c r n typ msg
  unfolding write_records
  write_records-Arrives rand fuel n typ c r [] gives linked is_seq fixed buffering has_type bytes
        enough room =
      arrives [] [] c r (ap (λ t. ok (written t c)) (omega arith)) (sym (append-nil c.send_buf))
        receives_none refl tt linked
  write_records-Arrives rand zero n typ c r (b ∷ msg) gives linked is_seq fixed buffering has_type
        bytes enough room =
      absurd (omega arith)
  write_records-Arrives rand (suc fuel) n typ c r (b ∷ msg) gives linked is_seq fixed buffering
        has_type bytes enough room =
      let m = first_piece (b ∷ msg) in
      let bound = first_piece_lem (length (b ∷ msg)) (omega arith) in
      let text = take m (b ∷ msg) in
      let size : length text ≡ m = length-take m (b ∷ msg) bound.1 in
      let is : IsRecord (header_of A N typ c.vers m) text = record {
        bytes = All-take m (b ∷ msg) bytes;
        small = omega (arith, size, bound.2);
        fits = (ap hi (sym size), ap lo (sym size));
        has_type = has_type;
      } in
      let rest : length (drop m (b ∷ msg)) + m ≡ length (b ∷ msg) = omega (
        arith,
        length-append text (drop m (b ∷ msg)),
        ap length (take-append-drop m (b ∷ msg)),
        size,
      ) in
      elim (inc_seq_lem c.out.seq is_seq.0 is_seq.1) [
        | inr (top, panics) ↦ absurd (omega (arith, top, room))
        | inl (seq, next, seq_size, seq_bytes, counted) ↦
            elim (encrypt-Delivered A L rand c.out r (header_of A N typ c.vers m) text seq gives
              linked is next) [
                | delivered wire out r₁ sends receives linked₁ same ↦
                    Arrives-next rand fuel n typ b c r msg wire out r₁ fixed buffering sends
                      receives
                      (write_records-Arrives rand fuel (n + m) typ
                        (record c { out = out; send_buf = c.send_buf ++ wire }) r₁
                        (drop m (b ∷ msg)) gives linked₁
                        (ap length same ∙ seq_size, subst (All IsByte) (sym same) seq_bytes) fixed
                        buffering has_type (All-drop m (b ∷ msg) bytes)
                        (omega (arith, rest, bound.0, enough))
                        (omega (arith, rest, bound.0, room, counted, ap number same)))
              ]
      ]

  written_then :
      (rand : ℕ → Option Bytes) (typ : ℕ) (c : Conn A N) (r : HalfConn A) (msg : Bytes)
      (result : Run (Written A N))
      → typ ≢ 20
      → Arrives result c r 0 typ msg
      → Arrives (result >>= after_records A N rand typ) c r 0 typ msg
  unfolding after_records
  written_then rand typ c r msg result plain
        (arrives wires contents c' r' same sent_it received_it joins types linked) =
      let other : (typ == 20) ≡ false = ground arith in
      arrives wires contents c' r' (rw (same, other) refl) sent_it received_it joins types linked

  -- On a connection that buffers its writes and does not size records dynamically, with a sending half that is in
  -- step with the receiving half: writeRecordLocked of any bytes, with a content type other than 0 and
  -- change_cipher_spec, and before the sequence number can wrap, returns the number of bytes without an
  -- error. What it has put into the buffer is a list of records, of which the receiving half decrypts
  -- each; the payloads joined are the bytes, each has the content type, and the halves are in step.
  pub write_record_locked-Arrives :
      (rand : ℕ → Option Bytes) (typ : ℕ) (c : Conn A N) (r : HalfConn A) (msg : Bytes)
      → Gives rand
      → Linked A L c.out r
      → IsSeq c.out.seq
      → IsFixed A N c typ
      → c.buffering ≡ true
      → 0 < typ
      → typ ≢ 20
      → All IsByte msg
      → number c.out.seq + length msg < 2 ^ 64
      → Arrives (write_record_locked A N rand typ c msg) c r 0 typ msg
  unfolding write_record_locked
  write_record_locked-Arrives rand typ c r msg gives linked is_seq fixed buffering has_type plain
        bytes room =
      written_then rand typ c r msg (write_records A N rand (length msg) 0 typ c msg) plain (
        write_records-Arrives rand (length msg) 0 typ c r msg gives linked is_seq fixed buffering
          has_type bytes (le_refl (length msg)) room)
