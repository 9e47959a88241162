-- ===== src/HalfConn/RoundTrip/Any.antt =====
-- One record on a pair of halves that are in step, whatever protects it.
use mathlib.Core.Path.{subst}
use native.Mathlib.Decide.{ℕ_discrete}
use utls.Base.{ℕ, ◌≤◌, ◌<◌, Bytes, IsByte, All, length, Option, none, ok, ◌≡◌, sym}
use utls.HalfConn.{Algorithms, version_tls13, max_plaintext, aead, HalfConn, inc_seq}
use utls.HalfConn.Encrypt.{Header}
use utls.HalfConn.Peers.{Laws, Linked, by_stream, by_aead, by_cbc}
use utls.HalfConn.RoundTrip.Steps.{Gives, Fits, Delivered}
use utls.HalfConn.RoundTrip.Stream.{Delivered-stream}
use utls.HalfConn.RoundTrip.Aead.{Delivered-aead_old, Delivered-aead_new}
use utls.HalfConn.RoundTrip.Cbc.{Delivered-cbc}

-- What the callers of encrypt pass: a record of at most 2^14 bytes with its length and a type.
pub record IsRecord (h : Header) (payload : Bytes) : Type 0 where
  pub bytes : All IsByte payload
  pub small : length payload ≤ max_plaintext
  pub fits : Fits (length payload) h
  pub has_type : 0 < h.typ

module _ (A : Algorithms) (L : Laws A) where
  aead_any :
      (rand : ℕ → Option Bytes) (w r : HalfConn A) (h : Header) (payload seq : Bytes)
      (a a' : A.Aead)
      → Gives rand
      → (w.version ≡ version_tls13 → A.nonce_len a ≡ 0)
      → L.AeadPeers a a'
      → IsRecord h payload
      → inc_seq w.seq ≡ ok seq
      → Dec (w.version ≡ version_tls13)
      → Delivered A L rand
          (record w { cipher = aead a })
          (record r { version = w.version; cipher = aead a'; mac = none; seq = w.seq })
          h
          payload
          seq
  aead_any rand w r h payload seq a a' gives no_nonce peers is next (no old) =
      Delivered-aead_old A L rand w r h payload seq a a' gives old peers is.small is.fits next
  aead_any rand w r h payload seq a a' gives no_nonce peers is next (yes new) =
      subst
        (λ v.
          Delivered A L rand (record w { version = v; cipher = aead a })
            (record r { version = v; cipher = aead a'; mac = none; seq = w.seq }) h payload seq)
        (sym new)
        (Delivered-aead_new A L rand w r h payload seq a a' (no_nonce new) peers is.small
          is.has_type next)

  moved :
      (rand : ℕ → Option Bytes) {w r w₁ r₁ : HalfConn A} (h : Header) (payload seq : Bytes)
      → w₁ ≡ w
      → r₁ ≡ r
      → Delivered A L rand w₁ r₁ h payload seq
      → Delivered A L rand w r h payload seq
  moved rand {w} {r} {w₁} {r₁} h payload seq w_path r_path done =
      subst (λ x. Delivered A L rand w x h payload seq) r_path
        (subst (λ x. Delivered A L rand x r₁ h payload seq) w_path done)

  -- On two halves in step, with a reader of random bytes that gives them, any record of at most 2^14 bytes
  -- that is encrypted before the sequence number wraps is decrypted to the same payload and type, and the
  -- halves are in step afterwards.
  pub encrypt-Delivered :
      (rand : ℕ → Option Bytes) (w r : HalfConn A) (h : Header) (payload seq : Bytes)
      → Gives rand
      → Linked A L w r
      → IsRecord h payload
      → inc_seq w.seq ≡ ok seq
      → Delivered A L rand w r h payload seq
  encrypt-Delivered rand w r h payload seq gives linked is next = elim linked.protects [
    | by_stream s s' m wc wm rc rm old peers ↦
        moved rand h payload seq (λ i. record w { cipher = sym wc i; mac = sym wm i })
          (λ i. record r {
            version = linked.same_version i;
            cipher = sym rc i;
            mac = sym rm i;
            seq = linked.same_seq i;
          })
          (Delivered-stream A L rand w r h payload seq s s' m old peers is.fits next)
    | by_aead a a' wc rc rm no_nonce peers ↦
        moved rand h payload seq (λ i. record w { cipher = sym wc i })
          (λ i. record r {
            version = linked.same_version i;
            cipher = sym rc i;
            mac = sym rm i;
            seq = linked.same_seq i;
          })
          (aead_any rand w r h payload seq a a' gives no_nonce peers is next
            (ℕ_discrete w.version version_tls13))
    | by_cbc c c' m wc wm rc rm old peers ↦
        moved rand h payload seq (λ i. record w { cipher = sym wc i; mac = sym wm i })
          (λ i. record r {
            version = linked.same_version i;
            cipher = sym rc i;
            mac = sym rm i;
            seq = linked.same_seq i;
          })
          (Delivered-cbc A L rand w r h payload seq c c' m gives old peers is.bytes is.small is.fits
            next)
  ]
