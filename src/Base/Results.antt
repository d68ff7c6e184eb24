-- ===== src/Base/Results.antt =====
-- A computation that raises: the value, or the exception as a value.
use mathlib.Core.Path.{◌≡◌, refl}
use mathlib.Core.Bool.{Bool, true, false}
use native.Mathlib.Omega.{arith}

pub data Result {ℓ κ} (E : Type ℓ) (A : Type κ) : Type (ℓ ⊔ κ) where
  err : E → Result E A
  ok : A → Result E A

-- `require(condition, message)`: raises unless the condition holds.
abbrev pub require : {E : Type 0} → Bool → E → Result E (Unit {0})
require false e = err e
require true e = ok tt

module _ {E A B : Type 0} where
  infixl 10 ◌>>=◌
  abbrev pub ◌>>=◌ : Result E A → (A → Result E B) → Result E B
  err e >>= next = err e
  ok a >>= next = next a

  -- What a chain that returned has gone through.
  abbrev Passed : Result E A → (A → Result E B) → B → Type 0
  Passed first next b = (a : A) × (first ≡ ok a) × (next a ≡ ok b)

  pub bind-eq-ok :
      (first : Result E A) (next : A → Result E B) {b : B}
      → (first >>= next) ≡ ok b
      → Passed first next b
  bind-eq-ok (err e) next h = absurd (ground arith)
  bind-eq-ok (ok a) next h = (a, refl, h)

module _ {E B : Type 0} where
  infixl 10 ◌>>◌
  abbrev pub ◌>>◌ : Result E (Unit {0}) → Result E B → Result E B
  first >> next = first >>= λ done. next
