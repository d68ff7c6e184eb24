-- ===== src/EvidenceStore/Content.antt =====
-- `FrozenObject`, `StoredObject` and `metadata_pairs` of release/evidence_store.py.
pub mod Freeze
use mathlib.Core.List.{foldr}
use alric_containers_image_b.Base.{
  ℕ, String, ◌≡◌, refl, ◌↔◌, Bool, true, false, ◌&&◌, not, Option, none, some, List, [], ◌∷◌, arith,
  str_eq, eq_iff, ◌==◌, all, if◌then◌else◌,
}
use alric_containers_image_b.Base.Order.{str_leb, pair_leb, sorted}

-- The bytes, and the application metadata as a sorted tuple of pairs.
pub record FrozenObject : Type 0 where
  pub bytes : List ℕ
  pub metadata : List (String × String)

pub record StoredObject : Type 0 where
  pub content : FrozenObject
  pub version_id : String

abbrev pub same_bytes : List ℕ → List ℕ → Bool
same_bytes [] [] = true
same_bytes (x ∷ xs) (y ∷ ys) = x == y && same_bytes xs ys
same_bytes _ _ = false

abbrev pub same_pairs : List (String × String) → List (String × String) → Bool
same_pairs [] [] = true
same_pairs ((k, v) ∷ xs) ((j, w) ∷ ys) = str_eq k j && str_eq v w && same_pairs xs ys
same_pairs _ _ = false

-- `==` of two frozen dataclasses.
unfoldable pub same_content : FrozenObject → FrozenObject → Bool
same_content a b = same_bytes a.bytes b.bytes && same_pairs a.metadata b.metadata

same_bytes-eq : (xs ys : List ℕ) → same_bytes xs ys ≡ true → xs ≡ ys
same_bytes-eq [] [] h = refl
same_bytes-eq [] (y ∷ ys) h = cc
same_bytes-eq (x ∷ xs) [] h = cc
same_bytes-eq (x ∷ xs) (y ∷ ys) h = ground (arith, same_bytes-eq xs ys)

same_bytes_refl : (xs : List ℕ) → same_bytes xs xs ≡ true
same_bytes_refl [] = refl
same_bytes_refl (x ∷ xs) = ground (arith, same_bytes_refl xs)

same_pairs-eq : (xs ys : List (String × String)) → same_pairs xs ys ≡ true → xs ≡ ys
same_pairs-eq [] [] h = refl
same_pairs-eq [] (y ∷ ys) h = cc
same_pairs-eq (x ∷ xs) [] h = cc
same_pairs-eq ((k, v) ∷ xs) ((j, w) ∷ ys) h =
    ground (arith, eq_iff k j, eq_iff v w, same_pairs-eq xs ys)

same_pairs_refl : (xs : List (String × String)) → same_pairs xs xs ≡ true
same_pairs_refl [] = refl
same_pairs_refl ((k, v) ∷ xs) = ground (arith, eq_iff k k, eq_iff v v, same_pairs_refl xs)

pub same_content_iff : (a b : FrozenObject) → (same_content a b ≡ true) ↔ (a ≡ b)
unfolding same_content
same_content_iff a b = (
  λ h. ground (arith, same_bytes-eq a.bytes b.bytes, same_pairs-eq a.metadata b.metadata),
  λ h. ground (arith, same_bytes_refl a.bytes, same_pairs_refl a.metadata, h),
)

abbrev pub item_leb : String × String → String × String → Bool
item_leb = pair_leb str_leb str_leb

-- A dict has each key once.
abbrev pub HasDistinctKeys : List (String × String) → Type 0
HasDistinctKeys [] = Unit
HasDistinctKeys ((k, v) ∷ items) =
    (all (λ (j, w). not (str_eq k j)) items ≡ true) × HasDistinctKeys items

-- `metadata_pairs` on a mapping of texts to texts: none where it raises ValueError.
unfoldable pub metadata_pairs : List (String × String) → Option (List (String × String))
metadata_pairs items =
    if all (λ (k, v). not (str_eq k "")) items then some (sorted item_leb items) else none

-- `FrozenObject.freeze` on bytes; `__post_init__` runs the same test on the sorted pairs.
unfoldable pub freeze : List ℕ → List (String × String) → Option FrozenObject
unfolding metadata_pairs
freeze data_bytes items = elim (metadata_pairs items) [
  | none ↦ none
  | some pairs ↦ elim (metadata_pairs pairs) [
    | none ↦ none
    | some again ↦
        if same_pairs pairs again
        then some (record { bytes = data_bytes; metadata = pairs })
        else none
  ]
]

-- `tuple(sorted(set(texts)))`
abbrev insert_new : String → List String → List String
insert_new x [] = x ∷ []
insert_new x (y ∷ ys) =
    let rest = insert_new x ys in
    if str_eq x y then y ∷ ys else if str_leb x y then x ∷ y ∷ ys else y ∷ rest

unfoldable pub sorted_set : List String → List String
sorted_set = foldr insert_new []

abbrev pub same_texts : List String → List String → Bool
same_texts [] [] = true
same_texts (x ∷ xs) (y ∷ ys) = str_eq x y && same_texts xs ys
same_texts _ _ = false
