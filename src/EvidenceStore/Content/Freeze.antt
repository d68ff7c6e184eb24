-- ===== src/EvidenceStore/Content/Freeze.antt =====
-- What `FrozenObject.freeze` accepts, and the order of the metadata.
use alric_containers_image_b.Base.{
  ℕ, String, ◌≡◌, ◌++◌, Bool, not, none, some, List, [], ◌∷◌, arith, str_eq, all, if◌then◌else◌,
}
use alric_containers_image_b.Base.Order.{
  str_leb, str_order, TotalOrder, pair_order, sorted, sorted-IsSorted, sorted-eq_of_IsSorted,
  sorted-swap, all-sorted,
}
use alric_containers_image_b.EvidenceStore.Content.{item_leb, same_pairs_refl, freeze}

item_order : TotalOrder item_leb
item_order = pair_order str_leb str_leb str_order str_order

-- Freezing succeeds exactly when no metadata key is empty, and then holds the bytes and the sorted
-- pairs: the test that the constructor repeats never rejects what freeze built.
pub freeze_lem :
    (bytes : List ℕ) (items : List (String × String))
    → freeze bytes items ≡ (
        if all (λ (k, v). not (str_eq k "")) items
        then some (record { bytes = bytes; metadata = sorted item_leb items })
        else none)
unfolding freeze
freeze_lem bytes items = ground (
  arith,
  all-sorted item_leb (λ (k, v). not (str_eq k "")) items,
  sorted-eq_of_IsSorted item_leb item_order (sorted item_leb items)
      (sorted-IsSorted item_leb item_order items),
  same_pairs_refl (sorted item_leb items),
)

all-swap :
    {A : Type 0} (p : A → Bool) (xs : List A) (y z : A) (zs : List A)
    → all p (xs ++ y ∷ z ∷ zs) ≡ all p (xs ++ z ∷ y ∷ zs)
all-swap p [] y z zs = ground arith
all-swap p (x ∷ xs) y z zs = ground (arith, all-swap p xs y z zs)

-- Metadata given in another order, by exchanging two neighbours, freezes to the same object or is
-- refused alike.
pub freeze-swap :
    (bytes : List ℕ) (xs : List (String × String)) (y z : String × String)
    (zs : List (String × String))
    → freeze bytes (xs ++ y ∷ z ∷ zs) ≡ freeze bytes (xs ++ z ∷ y ∷ zs)
freeze-swap bytes xs y z zs = rw (
  freeze_lem,
  freeze_lem,
  sorted-swap item_leb item_order xs y z zs,
  all-swap (λ (k, v). not (str_eq k "")) xs y z zs,
)
