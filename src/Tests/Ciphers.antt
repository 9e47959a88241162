-- ===== src/Tests/Ciphers.antt =====
-- Ciphers for tests: each byte is combined with a key, and tags and MACs are checksums.
use Prim.Native.Nat.{bit_xor}
use mathlib.Core.Path.{ap, ap₂}
use utls.Base.{
  ℕ, suc, ◌+◌, ◌%◌, ◌==◌, ==_iff, [], ◌∷◌, ◌++◌, Bytes, length, Option, none, some, if◌then◌else◌,
  ◌≡◌, refl, sym, ◌∙◌, arith, true,
}
use utls.HalfConn.{Algorithms}
use utls.HalfConn.Peers.{Laws}
use utls.NonceAead.Digits.{bit_xor_twice}

abbrev pub sum : Bytes → ℕ
sum [] = 0
sum (b ∷ bs) = b + sum bs

abbrev pub with_key : ℕ → Bytes → Bytes
with_key k [] = []
with_key k (b ∷ bs) = bit_xor b k ∷ with_key k bs

pub with_key_twice : (k : ℕ) (x : Bytes) → with_key k (with_key k x) ≡ x
with_key_twice k [] = refl
with_key_twice k (b ∷ bs) = ap₂ ◌∷◌ (bit_xor_twice b k) (with_key_twice k bs)

pub with_key-append : (k : ℕ) (x y : Bytes) → with_key k (x ++ y) ≡ with_key k x ++ with_key k y
with_key-append k [] y = refl
with_key-append k (b ∷ x) y = ap (◌∷◌ (bit_xor b k)) (with_key-append k x y)

pub length-with_key : (k : ℕ) (x : Bytes) → length (with_key k x) ≡ length x
length-with_key k [] = refl
length-with_key k (b ∷ bs) = ap suc (length-with_key k bs)

abbrev pub tag : ℕ → Bytes → Bytes → ℕ
tag k nonce extra = (k + sum nonce + sum extra) % 256

abbrev pub open_tagged : ℕ → Bytes → Bytes → Bytes → Option Bytes
open_tagged k nonce [] extra = none
open_tagged k nonce (t ∷ text) extra =
    if t == tag k nonce extra then some (with_key k text) else none

pub open_tagged_lem :
    (k : ℕ) (nonce text extra : Bytes)
    → open_tagged k nonce (tag k nonce extra ∷ with_key k text) extra ≡ some text
open_tagged_lem k nonce text extra =
    let t = tag k nonce extra in
    let same : (t == t) ≡ true = (==_iff t t).1 refl in rw (same, with_key_twice k text) refl

-- The key of an AEAD and the length of its explicit nonce.
pub record Key : Type 0 where
  pub key : ℕ
  pub explicit : ℕ

abbrev pub checksums : Algorithms
checksums = record {
  Stream = ℕ;
  Aead = Key;
  CbcMode = ℕ;
  Hash = ℕ;
  xor_key_stream = λ k x. (with_key k x, k);
  nonce_len = λ a. a.explicit;
  overhead = λ a. 1;
  seal = λ a nonce text extra. tag a.key nonce extra ∷ with_key a.key text;
  open_sealed = λ a nonce text extra. open_tagged a.key nonce text extra;
  block_size = λ k. 8;
  set_iv = λ iv k. k;
  crypt_blocks = λ k x. (with_key k x, k);
  size = λ m. 1;
  digest = λ m x. (m + sum x) % 256 ∷ [];
}

abbrev pub checksums-Laws : Laws checksums
checksums-Laws = record {
  StreamPeers = λ k k'. k ≡ k';
  AeadPeers = λ a a'. a ≡ a';
  CbcPeers = λ k k'. k ≡ k';
  xor_key_stream_lem =
      λ k k' x same. (ap (λ j. with_key j (with_key k x)) (sym same) ∙ with_key_twice k x, same);
  xor_key_stream-append = λ k x y. ap (λ t. (t, k)) (with_key-append k x y);
  open_sealed-seal = λ a a' nonce text extra same.
      ap (λ (b : Key). open_tagged b.key nonce (tag a.key nonce extra ∷ with_key a.key text) extra)
        (sym same)
      ∙ open_tagged_lem a.key nonce text extra;
  length-seal = λ a nonce text extra. omega (arith, length-with_key a.key text);
  overhead_peers = λ a a' same. refl;
  nonce_len_peers = λ a a' same. ap (λ (b : Key). b.explicit) same;
  overhead_bound = λ a. omega arith;
  block_size_peers = λ k k' same. refl;
  block_size_bound = λ k. (omega arith, omega arith);
  set_iv_peers = λ k k' iv same. same;
  block_size-set_iv = λ k iv. refl;
  crypt_blocks_lem = λ k k' x same whole. (
    ap (λ j. with_key j (with_key k x)) (sym same) ∙ with_key_twice k x,
    same,
    length-with_key k x,
  );
  length-digest = λ m x. refl;
  digest-IsByte = λ m x. (omega arith, tt);
  size_bound = λ m. omega arith;
}
