-- ===== src/HalfConn/RoundTrip/Blocks.antt =====
-- The blocks of a record in CBC mode: what is padded and encrypted, and what is decrypted and found.
use mathlib.Core.Path.{ap, subst}
use native.Mathlib.Nat.{mod-lt, add-mod_left}
use utls.Base.{
  ℕ, zero, suc, ◌+◌, ◌-◌, ◌%◌, ◌≤◌, ◌<◌, leb, Bool, true, false, [], ◌∷◌, ◌++◌, append_assoc, Bytes,
  IsByte, All, length, replicate, length-append, length-replicate, ok, if◌then◌else◌, ◌≡◌, refl,
  sym, ◌∙◌, arith,
}
use utls.HalfConn.{Algorithms, version_tls11, max_plaintext}
use utls.HalfConn.Encrypt.{with_iv, cbc_padding}
use utls.HalfConn.Padding.{extract_padding, round_up}
use utls.HalfConn.Padding.Correct.{extract_padding-IsPadded}
use utls.HalfConn.Padding.Blocks.{padded-mod, round_up-least}
use utls.HalfConn.Peers.{Laws}

-- The length of the explicit IV.
abbrev pub iv_len : ℕ → ℕ → ℕ
iv_len version block = if leb version_tls11 version then block else 0

-- The padding is q + 1 bytes q.
cbc_padding_lem :
    (A : Algorithms) (b n : ℕ)
    → 0 < b
    → b ≤ 256
    → (q : ℕ) × (q < 256) × (b - n % b ≡ suc q) × (cbc_padding A b n ≡ replicate (suc q) q)
cbc_padding_lem A b n positive small =
    let q = b - n % b - 1 in
    let size : b - n % b ≡ suc q = omega (arith, mod-lt n positive) in
    let byte : (suc q - 1) % 256 ≡ q = omega (arith, size) in
    (
      q,
      omega (arith, size),
      size,
      ap (λ k. replicate k ((k - 1) % 256)) size ∙ ap (replicate (suc q)) byte,
    )

pub whole_body : (v b t : ℕ) → t % b ≡ 0 → (iv_len v b + t) % b ≡ 0
whole_body v b t whole = if_both (leb version_tls11 v)
  where
    if_both : (old : Bool) → ((if old then b else 0) + t) % b ≡ 0
    if_both true = add-mod_left b t ∙ whole
    if_both false = ap (λ u. u % b) (omega arith) ∙ whole

All-++ : (xs ys : Bytes) → All IsByte xs → All IsByte ys → All IsByte (xs ++ ys)
All-++ [] ys h h' = h'
All-++ (x ∷ xs) ys h h' = (h.0, All-++ xs ys h.1 h')

pub All-replicate : (n b : ℕ) → b < 256 → All IsByte (replicate n b)
All-replicate zero b h = tt
All-replicate (suc n) b h = (h, All-replicate n b h)

abbrev pub padded_text : Bytes → Bytes → ℕ → Bytes
padded_text payload mac q = payload ++ (mac ++ replicate (suc q) q)

module _ (A : Algorithms) (L : Laws A) where
  with_iv_peers :
      (nonce : Bytes) (c c' : A.CbcMode)
      → L.CbcPeers c c'
      → L.CbcPeers (with_iv A nonce c) (with_iv A nonce c')
  with_iv_peers [] c c' peers = peers
  with_iv_peers (x ∷ iv) c c' peers = L.set_iv_peers c c' (x ∷ iv) peers

  block_size-with_iv :
      (nonce : Bytes) (c : A.CbcMode) → A.block_size (with_iv A nonce c) ≡ A.block_size c
  block_size-with_iv [] c = refl
  block_size-with_iv (x ∷ iv) c = L.block_size-set_iv c (x ∷ iv)

  -- What the receiver finds in the blocks: the text, the MAC and the padding.
  pub data Blocks (c c' : A.CbcMode) (m : A.Hash) (nonce payload mac : Bytes) : Type 0 where
    blocks :
        (q : ℕ) (c₁ c₂ : A.CbcMode) (out : Bytes)
        → cbc_padding A (A.block_size c) (length payload + length mac) ≡ replicate (suc q) q
        → A.crypt_blocks (with_iv A nonce c) (padded_text payload mac q) ≡ (out, c₁)
        → A.crypt_blocks (with_iv A nonce c') out ≡ (padded_text payload mac q, c₂)
        → L.CbcPeers c₁ c₂
        → extract_padding (padded_text payload mac q) ≡ ok (q + 1, 255)
        → length out % A.block_size c' ≡ 0
        → round_up (A.size m + 1) (A.block_size c') ≤ length out
        → Blocks c c' m nonce payload mac

  pub blocks_lem :
      (c c' : A.CbcMode) (m : A.Hash) (nonce payload mac : Bytes)
      → L.CbcPeers c c'
      → All IsByte payload
      → All IsByte mac
      → length payload ≤ max_plaintext
      → length mac ≡ A.size m
      → Blocks c c' m nonce payload mac
  blocks_lem c c' m nonce payload mac peers bytes mac_bytes small size =
      let b = A.block_size c in
      let n = length payload + length mac in
      let bound = L.block_size_bound c in
      let (q, hq, pad_size, is_padding) = cbc_padding_lem A b n bound.0 bound.1 in
      let padding = replicate (suc q) q in
      let text = payload ++ (mac ++ padding) in
      let d = with_iv A nonce c in
      let d' = with_iv A nonce c' in
      let out = A.crypt_blocks d text in
      let back = A.crypt_blocks d' out.0 in
      let total : length text ≡ n + (b - n % b) = omega (
        arith,
        pad_size,
        length-append payload (mac ++ padding),
        length-append mac padding,
        length-replicate (suc q) q,
      ) in
      let whole : length text % b ≡ 0 = ap (λ t. t % b) total ∙ padded-mod n b bound.0 in
      let (same, peers', kept) =
        L.crypt_blocks_lem d d' text (with_iv_peers nonce c c' peers)
          (ap (λ t. length text % t) (block_size-with_iv nonce c) ∙ whole) in
      let bp = L.block_size_peers c c' peers in
      blocks q out.1 back.1 out.0 is_padding refl (ap (λ t. (t, back.1)) same) peers'
        (extract_padding-IsPadded text q
          (All-++ payload (mac ++ padding) bytes
            (All-++ mac padding mac_bytes (All-replicate (suc q) q hq)))
          (omega (arith, total, hq, pad_size, size, L.size_bound m))
          (payload ++ mac, sym (append_assoc payload mac padding)))
        (ap (λ t. length out.0 % t) (sym bp) ∙ ap (λ t. t % b) kept ∙ whole)
        (subst (λ t. round_up (A.size m + 1) t ≤ length out.0) bp
          (round_up-least (A.size m + 1) b (length out.0) bound.0
            (omega (arith, kept, total, pad_size, size)) (ap (λ t. t % b) kept ∙ whole)))
