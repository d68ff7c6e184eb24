-- ===== src/Base/Membership.antt =====
-- Membership in lists that are filtered, mapped or searched, and the greatest of a list.
use Prim.Native.Nat.{◌+◌}
use Prim.Native.String.{String}
use mathlib.Core.Path.{◌≡◌, refl, sym}
use mathlib.Core.Logic.{◌⊎◌, inl, inr}
use mathlib.Core.Bool.{Bool, true}
use mathlib.Core.List.{List, [], ◌∷◌, ◌++◌, map}
use native.Mathlib.Omega.{arith}
use text.Mathlib.TextEquality.{eq_iff}
use alric_containers_image_b.Base.Tests.{Bool-cases}
use alric_containers_image_b.Base.Lists.{In, keep, any, all, elem, length}

pub elem-In : (x : String) (xs : List String) → In x xs → elem x xs ≡ true
elem-In x [] h = absurd h
elem-In x (y ∷ ys) (inl e) = ground (arith, eq_iff x y, e)
elem-In x (y ∷ ys) (inr h) = ground (arith, elem-In x ys h)

module _ {A : Type 0} where
  -- The elements and the length of a list with one more element at its end.
  pub In-append : (x y : A) (xs : List A) → In x (xs ++ y ∷ []) → In x xs ⊎ (x ≡ y)
  In-append x y [] (inl e) = inr e
  In-append x y [] (inr m) = absurd m
  In-append x y (z ∷ xs) (inl e) = inl (inl e)
  In-append x y (z ∷ xs) (inr m) = elim (In-append x y xs m) [ inl k ↦ inl (inr k) | inr e ↦ inr e ]

  pub length-append : (xs : List A) (y : A) → length (xs ++ y ∷ []) ≡ length xs + 1
  length-append [] y = refl
  length-append (x ∷ xs) y = ground (arith, length-append xs y)

module _ {A : Type 0} (p : A → Bool) where
  pub In-keep : (x : A) (xs : List A) → In x xs → p x ≡ true → In x (keep p xs)
  In-keep x [] h k = h
  In-keep x (y ∷ ys) (inl e) k = rw (← e, k, keep) (inl e)
  In-keep x (y ∷ ys) (inr h) k = elim (Bool-cases (p y)) [
    | inl e ↦ rw (e, keep) (inr (In-keep x ys h k))
    | inr e ↦ rw (e, keep) (In-keep x ys h k)
  ]

  pub keep-In : (x : A) (xs : List A) → In x (keep p xs) → In x xs × (p x ≡ true)
  keep-In x [] h = absurd h
  keep-In x (y ∷ ys) h = elim (Bool-cases (p y)) [
    | inl e ↦ kept e (keep-In x ys) (rw (e, keep) at h)
    | inr e ↦ (let k = keep-In x ys (rw (e, keep) at h) in (inr k.0, k.1))
  ]
    where
      kept :
          p y ≡ true
          → (In x (keep p ys) → In x ys × (p x ≡ true))
          → (x ≡ y) ⊎ In x (keep p ys)
          → In x (y ∷ ys) × (p x ≡ true)
      kept e ih (inl q) = (inl q, rw (q, e))
      kept e ih (inr k) = let m = ih k in (inr m.0, m.1)

  pub any-In : (xs : List A) → any p xs ≡ true → (x : A) × In x xs × (p x ≡ true)
  any-In [] h = cc
  any-In (x ∷ xs) h = elim (Bool-cases (p x)) [
    | inl e ↦ (x, inl refl, e)
    | inr e ↦ (let m = any-In xs (ground arith) in (m.0, inr m.1, m.2))
  ]

  pub In-any : (x : A) (xs : List A) → In x xs → p x ≡ true → any p xs ≡ true
  In-any x [] h k = absurd h
  In-any x (y ∷ ys) (inl e) k = ground (arith, k, e)
  In-any x (y ∷ ys) (inr h) k = ground (arith, In-any x ys h k)

  pub all-In : (x : A) (xs : List A) → all p xs ≡ true → In x xs → p x ≡ true
  all-In x [] h k = absurd k
  all-In x (y ∷ ys) h (inl e) = ground arith
  all-In x (y ∷ ys) h (inr k) = all-In x ys (ground arith) k

  pub all_of_In : (xs : List A) → ((x : A) → In x xs → p x ≡ true) → all p xs ≡ true
  all_of_In [] h = refl
  all_of_In (x ∷ xs) h = ground (arith, h x (inl refl), all_of_In xs (λ y m. h y (inr m)))

module _ {A B : Type 0} (f : A → B) where
  pub In-map : (x : A) (xs : List A) → In x xs → In (f x) (map f xs)
  In-map x [] h = h
  In-map x (y ∷ ys) (inl e) = inl (rw e)
  In-map x (y ∷ ys) (inr h) = inr (In-map x ys h)

  pub map-In : (y : B) (xs : List A) → In y (map f xs) → (x : A) × In x xs × (f x ≡ y)
  map-In y [] h = absurd h
  map-In y (x ∷ xs) (inl e) = (x, inl refl, sym e)
  map-In y (x ∷ xs) (inr h) = let m = map-In y xs h in (m.0, inr m.1, m.2)
