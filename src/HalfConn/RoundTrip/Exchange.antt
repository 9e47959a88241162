-- ===== src/HalfConn/RoundTrip/Exchange.antt =====
-- A whole run of records over a pair of halves, from a change of keys on.
use mathlib.Core.Path.{ap, subst}
use utls.Base.{
  ℕ, ◌+◌, ◌^◌, ◌<◌, List, [], ◌∷◌, Bytes, IsByte, All, length, map, Option, ok, ◌≡◌, sym, ◌∙◌,
  arith, inl, inr,
}
use utls.HalfConn.{Algorithms, HalfConn}
use utls.HalfConn.Encrypt.{Header, sent, encrypt}
use utls.HalfConn.Decrypt.{received, decrypt}
use utls.HalfConn.Sequence.{number, inc_seq_lem}
use utls.HalfConn.Peers.{Laws, Linked}
use utls.HalfConn.RoundTrip.Steps.{Gives, delivered}
use utls.HalfConn.RoundTrip.Any.{IsRecord, encrypt-Delivered}

-- Eight bytes.
abbrev pub IsSeq : Bytes → Type 0
IsSeq seq = (length seq ≡ 8) × All IsByte seq

-- A header and the payload behind it.
pub record Message : Type 0 where
  pub header : Header
  pub payload : Bytes

abbrev pub content_of : Message → Bytes × ℕ
content_of m = (m.payload, m.header.typ)

module _ (A : Algorithms) where
  -- The records are encrypted one behind the other.
  pub data Sends (rand : ℕ → Option Bytes)
      : HalfConn A → List Message → List Bytes → HalfConn A → Type 0 where
    sends_none : {w : HalfConn A} → Sends rand w [] [] w
    sends_next :
        {w w₁ w₂ : HalfConn A} {m : Message} {ms : List Message} {wire : Bytes} {wires : List Bytes}
        → encrypt A rand w m.header m.payload ≡ ok (sent wire w₁)
        → Sends rand w₁ ms wires w₂
        → Sends rand w (m ∷ ms) (wire ∷ wires) w₂

  -- The records are decrypted one behind the other.
  pub data Receives : HalfConn A → List Bytes → List (Bytes × ℕ) → HalfConn A → Type 0 where
    receives_none : {r : HalfConn A} → Receives r [] [] r
    receives_next :
        {r r₁ r₂ : HalfConn A} {wire payload : Bytes} {typ : ℕ} {wires : List Bytes}
        {contents : List (Bytes × ℕ)}
        → decrypt A r wire ≡ ok (received payload typ r₁)
        → Receives r₁ wires contents r₂
        → Receives r (wire ∷ wires) ((payload, typ) ∷ contents) r₂

module _ (A : Algorithms) (L : Laws A) where
  pub data Exchanged (rand : ℕ → Option Bytes) (w r : HalfConn A) (ms : List Message) : Type 0 where
    exchanged :
        (wires : List Bytes) (w' r' : HalfConn A)
        → Sends A rand w ms wires w'
        → Receives A r wires (map content_of ms) r'
        → Linked A L w' r'
        → number w'.seq ≡ number w.seq + length ms
        → Exchanged rand w r ms

  -- Any run of records that ends before the sequence number wraps, sent by a half that is in step with the
  -- receiving half, is received: the same payloads and types in the same order, and the halves are in
  -- step afterwards, with the sequence number counted up by the number of records.
  pub exchange_lem :
      (rand : ℕ → Option Bytes) (w r : HalfConn A) (ms : List Message)
      → Gives rand
      → Linked A L w r
      → IsSeq w.seq
      → All (λ m. IsRecord m.header m.payload) ms
      → number w.seq + length ms < 2 ^ 64
      → Exchanged rand w r ms
  exchange_lem rand w r [] gives linked is_seq are room =
      exchanged [] w r sends_none receives_none linked (omega arith)
  exchange_lem rand w r (m ∷ ms) gives linked is_seq are room =
      elim (inc_seq_lem w.seq is_seq.0 is_seq.1) [
        | inr (top, panics) ↦ absurd (omega (arith, top, room))
        | inl (seq, next, size, bytes, counted) ↦
            elim (encrypt-Delivered A L rand w r m.header m.payload seq gives linked are.0 next) [
              | delivered wire w₁ r₁ sent_it received_it linked₁ same ↦
                  let number_same = ap number same in
                  elim (exchange_lem rand w₁ r₁ ms gives linked₁
                    (ap length same ∙ size, subst (All IsByte) (sym same) bytes) are.1
                    (omega (arith, number_same, counted, room))) [
                      | exchanged wires w₂ r₂ sends receives linked₂ counted₂ ↦
                          exchanged (wire ∷ wires) w₂ r₂ (sends_next sent_it sends)
                            (receives_next received_it receives) linked₂
                            (omega (arith, number_same, counted, counted₂))
                    ]
            ]
      ]
