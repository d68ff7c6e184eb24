-- ===== src/Base/Sorting.antt =====
-- What is in a sorted list.
use mathlib.Core.Path.{◌≡◌}
use mathlib.Core.Logic.{◌↔◌, ◌⊎◌, inl, inr}
use mathlib.Core.Bool.{Bool, true, false}
use mathlib.Core.List.{List, [], ◌∷◌}
use alric_containers_image_b.Base.Lists.{In}
use alric_containers_image_b.Base.Order.{sorted, insert_sorted}

module _ {A : Type 0} (test : A → A → Bool) where
  In-insert_sorted : (r x : A) (xs : List A) → In r (insert_sorted test x xs) ↔ ((r ≡ x) ⊎ In r xs)
  unfolding insert_sorted
  In-insert_sorted r x [] = (λ m. m, λ m. m)
  In-insert_sorted r x (y ∷ xs) = go (test x y) (In-insert_sorted r x xs)
    where
      go :
          (b : Bool)
          → In r (insert_sorted test x xs) ↔ ((r ≡ x) ⊎ In r xs)
          → In r (elim b [ true ↦ x ∷ y ∷ xs | false ↦ y ∷ insert_sorted test x xs ])
            ↔ ((r ≡ x) ⊎ In r (y ∷ xs))
      go true k = (λ m. m, λ m. m)
      go false k = (
        λ m. elim m [
          | inl e ↦ inr (inl e)
          | inr i ↦ elim (k.0 i) [ inl e ↦ inl e | inr j ↦ inr (inr j) ]
        ],
        λ m. elim m [
          | inl e ↦ inr (k.1 (inl e))
          | inr i ↦ elim i [ inl e ↦ inl e | inr j ↦ inr (k.1 (inr j)) ]
        ],
      )

  pub In-sorted : (r : A) (xs : List A) → In r (sorted test xs) ↔ In r xs
  unfolding sorted
  In-sorted r [] = (λ m. m, λ m. m)
  In-sorted r (x ∷ xs) =
      let k = In-sorted r xs in
      let i = In-insert_sorted r x (sorted test xs) in
      (
        λ m. elim (i.0 m) [ inl e ↦ inl e | inr j ↦ inr (k.0 j) ],
        λ m. i.1 (elim m [ inl e ↦ inl e | inr j ↦ inr (k.1 j) ]),
      )
