-- ===== src/Base/Maximum.antt =====
-- Python's `max` of a list: the first of the greatest.
use mathlib.Core.Path.{◌≡◌, refl, subst}
use mathlib.Core.Logic.{inl, inr}
use mathlib.Core.Bool.{Bool, true, false}
use mathlib.Core.Option.{Option, none, some}
use mathlib.Core.List.{List, [], ◌∷◌}
use native.Mathlib.Omega.{arith}
use alric_containers_image_b.Base.Tests.{if◌then◌else◌, Bool-cases}
use alric_containers_image_b.Base.Lists.{In}

module _ {A : Type 0} (le : A → A → Bool) where
  unfoldable pub max_from : A → List A → A
  max_from best [] = best
  max_from best (x ∷ xs) = max_from (if le x best then best else x) xs

  -- `max(xs, default=None)`
  unfoldable pub max_of : List A → Option A
  unfolding max_from
  max_of [] = none
  max_of (x ∷ xs) = some (max_from x xs)

-- What `max` needs of an order: it may leave different elements level.
pub record TotalPreorder {A : Type 0} (le : A → A → Bool) : Type 0 where
  pub total : (a b : A) → le a b ≡ false → le b a ≡ true
  pub trans : (a b c : A) → le a b ≡ true → le b c ≡ true → le a c ≡ true

module _ {A : Type 0} (le : A → A → Bool) where
  max_from-In : (x : A) (xs : List A) → In (max_from le x xs) (x ∷ xs)
  unfolding max_from
  max_from-In x [] = inl refl
  max_from-In x (y ∷ ys) = pick (le y x) (max_from-In x ys) (max_from-In y ys)
    where
      pick :
          (c : Bool)
          → In (max_from le x ys) (x ∷ ys)
          → In (max_from le y ys) (y ∷ ys)
          → In (max_from le (if c then x else y) ys) (x ∷ y ∷ ys)
      pick true (inl e) k = inl e
      pick true (inr h) k = inr (inr h)
      pick false h k = inr k

  -- The maximum is an element.
  pub max_of-In : (xs : List A) (m : A) → max_of le xs ≡ some m → In m xs
  unfolding max_of
  max_of-In [] m h = cc
  max_of-In (x ∷ xs) m h = subst (λ z. In z (x ∷ xs)) (ground arith) (max_from-In x xs)

  -- Only the empty list has none.
  pub max_of-eq-none : (xs : List A) (x : A) → max_of le xs ≡ none → ¬ In x xs
  unfolding max_of
  max_of-eq-none [] x h k = k
  max_of-eq-none (y ∷ ys) x h k = cc

module _ {A : Type 0} (le : A → A → Bool) (o : TotalPreorder le) where
  le_refl : (x : A) → le x x ≡ true
  le_refl x = ground (arith, o.total x x)

  le-max_from : (x z : A) (xs : List A) → le z x ≡ true → le z (max_from le x xs) ≡ true
  unfolding max_from
  le-max_from x z [] h = h
  le-max_from x z (y ∷ ys) h = elim (Bool-cases (le y x)) [
    | inl e ↦ rw e (le-max_from x z ys h)
    | inr e ↦ rw e (le-max_from y z ys (o.trans z x y h (o.total y x e)))
  ]

  In-le-max_from : (x z : A) (xs : List A) → In z xs → le z (max_from le x xs) ≡ true
  unfolding max_from
  In-le-max_from x z [] h = absurd h
  In-le-max_from x z (y ∷ ys) (inl e) = elim (Bool-cases (le y x)) [
    | inl q ↦ rw q (le-max_from x z ys (rw (e, q)))
    | inr q ↦ rw q (le-max_from y z ys (rw e (le_refl y)))
  ]
  In-le-max_from x z (y ∷ ys) (inr h) = In-le-max_from (if le y x then x else y) z ys h

  -- No element is above the maximum.
  pub In-le-max_of : (xs : List A) (m z : A) → max_of le xs ≡ some m → In z xs → le z m ≡ true
  unfolding max_of
  In-le-max_of [] m z h k = absurd k
  In-le-max_of (x ∷ xs) m z h (inl e) = rw e (
      subst (λ n. le x n ≡ true) {x = max_from le x xs} (ground arith)
        (le-max_from x x xs (le_refl x)))
  In-le-max_of (x ∷ xs) m z h (inr k) =
      subst (λ n. le z n ≡ true) (ground arith) (In-le-max_from x z xs k)
