-- ===== src/Base/Buffer.antt =====
-- Stores into a byte slice: `b[i] = v`, a run of them, and `copy(b[i:], src)`.
use Prim.Native.Nat.{ℕ, zero, suc}
use mathlib.Core.Path.{◌≡◌, refl, ap}
use mathlib.Core.List.{[], ◌∷◌, ◌++◌, append_assoc}
use native.Mathlib.Omega.{arith}
use utls.Base.Lists.{Bytes, length, length-append}
use utls.Base.Panic.{Run, ok, panic, ◌>>=◌}

-- `b[i] = v`, which panics out of range.
unfoldable pub put : Bytes → ℕ → ℕ → Run Bytes
put [] i v = panic
put (x ∷ b) zero v = ok (v ∷ b)
put (x ∷ b) (suc i) v = do b' ← put b i v; ok (x ∷ b')

-- `b[i] = v0; b[i+1] = v1; …`
unfoldable pub store : Bytes → ℕ → Bytes → Run Bytes
store b i [] = ok b
store b i (v ∷ vs) = do b' ← put b i v; store b' (suc i) vs

-- `copy(b, src)`: as many bytes as both have.
abbrev pub copy : Bytes → Bytes → Bytes
copy [] src = []
copy (x ∷ b) [] = x ∷ b
copy (x ∷ b) (v ∷ src) = v ∷ copy b src

-- `copy(b[i:], src)`, where the slice expression panics if `i` is beyond the end.
unfoldable pub copy_at : Bytes → ℕ → Bytes → Run Bytes
copy_at b zero src = ok (copy b src)
copy_at [] (suc i) src = panic
copy_at (x ∷ b) (suc i) src = do b' ← copy_at b i src; ok (x ∷ b')

length-concat : (pre : Bytes) (v : ℕ) → length (pre ++ v ∷ []) ≡ suc (length pre)
length-concat pre v = omega (arith, length-append pre (v ∷ []))

pub put-append :
    (pre : Bytes) (x v : ℕ) (post : Bytes)
    → put (pre ++ (x ∷ post)) (length pre) v ≡ ok (pre ++ (v ∷ post))
unfolding put
put-append [] x v post = refl
put-append (y ∷ pre) x v post = rw (put-append pre x v post)

-- Stores over the bytes `mid` replace them, and leave what stands before and behind.
pub store-append :
    (pre mid vs post : Bytes)
    → length mid ≡ length vs
    → store (pre ++ (mid ++ post)) (length pre) vs ≡ ok (pre ++ (vs ++ post))
unfolding store
store-append pre [] [] post h = refl
store-append pre [] (v ∷ vs) post h = absurd (omega arith)
store-append pre (m ∷ mid) [] post h = absurd (omega arith)
store-append pre (m ∷ mid) (v ∷ vs) post h =
    let more = store-append (pre ++ v ∷ []) mid vs post (omega arith) in
    rw (put-append pre m v (mid ++ post)) (
      rw
        (
          append_assoc pre (v ∷ []) (mid ++ post),
          append_assoc pre (v ∷ []) (vs ++ post),
          length-concat pre v,
        )
        at more)

copy-append :
    (mid src post : Bytes) → length mid ≡ length src → copy (mid ++ post) src ≡ src ++ post
copy-append [] [] [] h = refl
copy-append [] [] (p ∷ post) h = refl
copy-append [] (v ∷ src) post h = absurd (omega arith)
copy-append (m ∷ mid) [] post h = absurd (omega arith)
copy-append (m ∷ mid) (v ∷ src) post h = ap (◌∷◌ v) (copy-append mid src post (omega arith))

pub copy_at-append :
    (pre mid src post : Bytes)
    → length mid ≡ length src
    → copy_at (pre ++ (mid ++ post)) (length pre) src ≡ ok (pre ++ (src ++ post))
unfolding copy_at
copy_at-append [] mid src post h = ap ok (copy-append mid src post h)
copy_at-append (x ∷ pre) mid src post h = rw (copy_at-append pre mid src post h)
