-- ===== src/Extension/HostName.antt =====
-- handshake_client.go: hostnameInSNI. `net.ParseIP` is an argument: whether a text is an IP address.
pub mod Laws
use utls.Base.{
  ℕ, zero, suc, Bool, ◌&&◌, ◌==◌, [], ◌∷◌, Option, none, some, Bytes, take, if◌then◌else◌,
}
use mathlib.Core.List.{reverse}

-- The last element; it is read only where the list is not empty.
unfoldable pub last_or : ℕ → Bytes → ℕ
last_or d [] = d
last_or d (x ∷ xs) = last_or x xs

-- `name[:len(name)-1]`
without_last : Bytes → Bytes
without_last [] = []
without_last (x ∷ []) = []
without_last (x ∷ y ∷ xs) = x ∷ without_last (y ∷ xs)

-- `host[1 : len(host)-1]` if the host stands in brackets. A lone bracket is not a pair: its first
-- byte is not `]`.
pub unbracket : Bytes → Bytes
unbracket [] = []
unbracket (c ∷ cs) = if c == b'[' && last_or c cs == b']' then without_last cs else c ∷ cs

-- strings.LastIndex(host, "%")
last_percent : Bytes → Option ℕ
last_percent [] = none
last_percent (c ∷ cs) = elim (last_percent cs) [
  | some i ↦ some (suc i)
  | none ↦ if c == b'%' then some 0 else none
]

cut_at : Option ℕ → Bytes → Bytes
cut_at none host = host
cut_at (some zero) host = host
cut_at (some (suc i)) host = take (suc i) host

pub without_zone : Bytes → Bytes
without_zone host = cut_at (last_percent host) host

-- The loop that takes off one dot at a time, on the reversed name.
pub drop_dots : Bytes → Bytes
drop_dots [] = []
drop_dots (c ∷ cs) = if c == b'.' then drop_dots cs else c ∷ cs

unfoldable pub hostname_in_sni : (Bytes → Bool) → Bytes → Bytes
unfolding unbracket without_zone cut_at last_percent last_or without_last drop_dots
hostname_in_sni parse_ip name =
    if parse_ip (without_zone (unbracket name)) then [] else reverse (drop_dots (reverse name))
