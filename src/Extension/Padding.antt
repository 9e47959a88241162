-- ===== src/Extension/Padding.antt =====
-- u_tls_extensions.go: BoringPaddingStyle, AlwaysPadToLen and UtlsPaddingExtension.Update.
use utls.Base.{
  ℕ, ◌+◌, ◌-◌, ◌≤◌, ◌<◌, ◌≡◌, ◌⊎◌, arith, Bool, true, false, ◌&&◌, ltb, leb, none, some,
  if◌then◌else◌,
}
use utls.Extension.{PaddingStyle, PaddingExtension}

-- The padding that brings `n` bytes up to `target`, the four bytes of the header counted; one byte
-- where there is not room for five.
pad_up : ℕ → ℕ → ℕ × Bool
pad_up target n = let p = target - n in if leb 5 p then (p - 4, true) else (1, true)

unfoldable pub boring_padding_style : PaddingStyle
unfolding pad_up
boring_padding_style n = if ltb 0xff n && ltb n 0x200 then pad_up 0x200 n else (0, false)

unfoldable pub always_pad_to_len : ℕ → PaddingStyle
unfolding pad_up
always_pad_to_len target n = if ltb n target then pad_up target n else (0, false)

-- UtlsPaddingExtension.Update
unfoldable pub update : PaddingExtension → ℕ → PaddingExtension
update p n = elim p.get_padding_len [
  | none ↦ p
  | some style ↦ record p { padding_len = (style n).0; will_pad = (style n).1 }
]

-- What the padding extension adds to a hello under a padding style.
abbrev pub added : ℕ × Bool → ℕ
added r = if r.1 then 4 + r.0 else 0

-- Under BoringPaddingStyle a hello of 256 to 507 bytes is padded to 512, one of 508 to 511 bytes to
-- at most 516, always with one byte of padding or more, and any other is left alone.
pub boring_padding_style_lem :
    (n : ℕ)
    → (0xff < n → n ≤ 507 → (n + added (boring_padding_style n) ≡ 512))
      × (507 < n
          → n < 0x200
          → (512 < n + added (boring_padding_style n)) × (n + added (boring_padding_style n) ≤ 516))
      × (0xff < n
          → n < 0x200
          → ((boring_padding_style n).1 ≡ true) × (1 ≤ (boring_padding_style n).0))
      × ((n ≤ 0xff) ⊎ (0x200 ≤ n) → boring_padding_style n ≡ (0, false))
unfolding boring_padding_style
boring_padding_style_lem n =
    (λ a b. ground arith, λ a b. ground arith, λ a b. ground arith, λ a. ground arith)

-- Under AlwaysPadToLen every hello comes out at the target or longer, and never more than five bytes
-- above the target if it was shorter.
pub always_pad_to_len_lem :
    (target n : ℕ)
    → (target ≤ n + added (always_pad_to_len target n))
      × (n < target → n + added (always_pad_to_len target n) ≤ target + 4)
      × (target ≤ n → added (always_pad_to_len target n) ≡ 0)
unfolding always_pad_to_len
always_pad_to_len_lem target n = (ground arith, λ a. ground arith, λ a. ground arith)
