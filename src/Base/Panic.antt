-- ===== src/Base/Panic.antt =====
-- A Go call either returns or panics. `error` values are part of what a call returns.
use mathlib.Core.Path.{◌≡◌, refl}
use mathlib.Core.Bool.{Bool, true, false}

pub data Run {ℓ} (A : Type ℓ) : Type ℓ where
  ok : A → Run A
  panic : Run A

-- A panic of the first call is a panic of the whole.
infixl 5 ◌>>=◌
abbrev pub ◌>>=◌ {κ μ} : {X : Type κ} {Y : Type μ} → Run X → (X → Run Y) → Run Y
panic >>= k = panic
ok x >>= k = k x

infixl 5 ◌>>◌
abbrev pub ◌>>◌ {μ} : {Y : Type μ} → Run (Unit {0}) → Run Y → Run Y
call >> k = call >>= λ _. k

-- `if !cond { panic(…) }`
abbrev pub check : Bool → Run (Unit {0})
check true = ok tt
check false = panic

-- A sequence that returns is made of two calls that return.
module _ {κ μ} {X : Type κ} {Y : Type μ} where
  pub >>=-returned :
      (call : Run X) (k : X → Run Y) {y : Y}
      → (call >>= k) ≡ ok y
      → (x : X) × (call ≡ ok x) × (k x ≡ ok y)
  >>=-returned panic k returned = cc
  >>=-returned (ok x) k returned = (x, refl, returned)

pub ok-injective {ℓ} : {A : Type ℓ} {a b : A} → ok a ≡ ok b → a ≡ b
ok-injective h = cc
