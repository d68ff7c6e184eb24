-- ===== src/Base/Decimal.antt =====
-- `str(n)` and `int(s)` on natural numbers, and the digits that regular expressions test.
use Prim.Native.Nat.{ℕ, zero, suc, ◌+◌, ◌*◌, ◌/◌, ◌%◌, ◌-◌, ◌<◌, ◌≤◌}
use Prim.Native.Char.{code}
use Prim.Native.String.{String, ◌++◌ as ◌<>◌}
use mathlib.Core.Path.{◌≡◌, refl}
use mathlib.Core.Logic.{inl, inr}
use mathlib.Core.Bool.{Bool, true, false, ◌&&◌}
use mathlib.Core.List.{List, [], ◌∷◌, ◌++◌}
use native.Mathlib.Omega.{arith}
use text.Mathlib.TextLemmas.{cons-append, nil-append}
use alric_containers_image_b.Base.Tests.{ltb, leb, if◌then◌else◌, Bool-cases, ltb→lt}
use alric_containers_image_b.Base.Lists.{all}

-- The code points of a text.
abbrev pub codes : String → List ℕ
codes String.[] = []
codes (String.◌∷◌ c s) = code c ∷ codes s

pub codes-append : (s t : String) → codes (s <> t) ≡ codes s ++ codes t
codes-append String.[] t = rw nil-append
codes-append (String.◌∷◌ c s) t = rw (cons-append, codes-append s t)

abbrev digit : ℕ → String
digit zero = "0"
digit (suc zero) = "1"
digit (suc (suc zero)) = "2"
digit (suc (suc (suc zero))) = "3"
digit (suc (suc (suc (suc zero)))) = "4"
digit (suc (suc (suc (suc (suc zero))))) = "5"
digit (suc (suc (suc (suc (suc (suc zero)))))) = "6"
digit (suc (suc (suc (suc (suc (suc (suc zero))))))) = "7"
digit (suc (suc (suc (suc (suc (suc (suc (suc zero)))))))) = "8"
digit _ = "9"

show_fuel : ℕ → ℕ → String
show_fuel zero n = digit n
show_fuel (suc f) n =
    let rest = show_fuel f (n / 10) in if ltb n 10 then digit n else rest <> digit (n % 10)

-- `str(n)`
unfoldable pub show : ℕ → String
unfolding show_fuel
show n = show_fuel n n

-- `int(s)` on a run of digits, from the value of those before.
abbrev pub value : ℕ → List ℕ → ℕ
value acc [] = acc
value acc (c ∷ cs) = value (acc * 10 + (c - 48)) cs

-- `[0-9]` and `[1-9]`
abbrev pub is_digit : ℕ → Bool
is_digit c = leb 48 c && leb c 57

abbrev pub is_digit19 : ℕ → Bool
is_digit19 c = leb 49 c && leb c 57

-- `[1-9][0-9]*`
abbrev pub is_positive_number : List ℕ → Bool
is_positive_number [] = false
is_positive_number (c ∷ cs) = is_digit19 c && all is_digit cs

codes-digit : (d : ℕ) → d < 10 → codes (digit d) ≡ (48 + d) ∷ []
codes-digit zero h = refl
codes-digit (suc zero) h = refl
codes-digit (suc (suc zero)) h = refl
codes-digit (suc (suc (suc zero))) h = refl
codes-digit (suc (suc (suc (suc zero)))) h = refl
codes-digit (suc (suc (suc (suc (suc zero))))) h = refl
codes-digit (suc (suc (suc (suc (suc (suc zero)))))) h = refl
codes-digit (suc (suc (suc (suc (suc (suc (suc zero))))))) h = refl
codes-digit (suc (suc (suc (suc (suc (suc (suc (suc zero)))))))) h = refl
codes-digit (suc (suc (suc (suc (suc (suc (suc (suc (suc zero))))))))) h = refl
codes-digit (suc (suc (suc (suc (suc (suc (suc (suc (suc (suc n)))))))))) h = absurd (omega arith)

value-append : (acc : ℕ) (xs ys : List ℕ) → value acc (xs ++ ys) ≡ value (value acc xs) ys
value-append acc [] ys = refl
value-append acc (x ∷ xs) ys = value-append (acc * 10 + (x - 48)) xs ys

all-append :
    (p : ℕ → Bool) (xs ys : List ℕ) → all p xs ≡ true → all p ys ≡ true → all p (xs ++ ys) ≡ true
all-append p [] ys h k = k
all-append p (x ∷ xs) ys h k = ground (arith, all-append p xs ys)

value-show_fuel : (f n : ℕ) → n ≤ f → value 0 (codes (show_fuel f n)) ≡ n
unfolding show_fuel
value-show_fuel zero n h = rw (codes-digit n (omega arith)) (omega arith)
value-show_fuel (suc f) n h = elim (Bool-cases (ltb n 10)) [
  | inl e ↦ rw e (rw (codes-digit n (ltb→lt n 10 e)) (omega arith))
  | inr e ↦
      rw (e, codes-append, codes-digit (n % 10) (omega arith), value-append)
        (omega (arith, value-show_fuel f (n / 10) (ground arith)))
]

-- Printing a number and reading it back gives the number.
pub value-show : (n : ℕ) → value 0 (codes (show n)) ≡ n
unfolding show
value-show n = value-show_fuel n n (omega arith)

positive-append :
    (xs ys : List ℕ)
    → is_positive_number xs ≡ true
    → all is_digit ys ≡ true
    → is_positive_number (xs ++ ys) ≡ true
positive-append [] ys h k = cc
positive-append (x ∷ xs) ys h k = ground (arith, all-append is_digit xs ys)

digits-show_fuel : (f n : ℕ) → n ≤ f → 0 < n → is_positive_number (codes (show_fuel f n)) ≡ true
unfolding show_fuel
digits-show_fuel zero n h p = absurd (omega arith)
digits-show_fuel (suc f) n h p = elim (Bool-cases (ltb n 10)) [
  | inl e ↦ rw e (rw (codes-digit n (ltb→lt n 10 e)) (ground arith))
  | inr e ↦
      rw (e, codes-append, codes-digit (n % 10) (omega arith))
        (positive-append (codes (show_fuel f (n / 10))) ((48 + n % 10) ∷ [])
          (digits-show_fuel f (n / 10) (ground arith) (ground arith)) (ground arith))
]

-- A positive number prints with no leading zero, in digits only.
pub is_positive_number-show : (n : ℕ) → 0 < n → is_positive_number (codes (show n)) ≡ true
unfolding show
is_positive_number-show n p = digits-show_fuel n n (omega arith) p
