-- ===== src/Base/Order.antt =====
-- Python's order on texts and pairs, and `sorted`, by insertion.
use Prim.Native.Nat.{Ordering}
use Prim.Native.String.{String, compare}
use Prim.Native.String.compare
use mathlib.Core.Path.{◌≡◌, refl, ap}
use mathlib.Core.Bool.{Bool, true, false, ◌&&◌}
use mathlib.Core.List.{List, [], ◌∷◌, ◌++◌}
use native.Mathlib.Omega.{arith}
use text.Mathlib.Text.{is_le}
use text.Mathlib.TextEquality.{path_by_compare}
use alric_containers_image_b.Base.Tests.{if◌then◌else◌}
use alric_containers_image_b.Base.Lists.{all}

-- A test `leb` that is a total order.
pub record TotalOrder {A : Type 0} (leb : A → A → Bool) : Type 0 where
  pub total : (a b : A) → leb a b ≡ false → leb b a ≡ true
  pub antisym : (a b : A) → leb a b ≡ true → leb b a ≡ true → a ≡ b
  pub trans : (a b c : A) → leb a b ≡ true → leb b c ≡ true → leb a c ≡ true

abbrev pub str_leb : String → String → Bool
str_leb s t = is_le (compare s t)

flip : Ordering → Ordering
flip Ordering.lt = Ordering.gt
flip Ordering.eq = Ordering.eq
flip Ordering.gt = Ordering.lt

compare-flip : (s t : String) → compare t s ≡ flip (compare s t)
unfolding flip
compare-flip String.[] String.[] = rw compare.nil-nil
compare-flip String.[] (String.◌∷◌ d t) = rw (compare.nil-cons, compare.cons-nil)
compare-flip (String.◌∷◌ c s) String.[] = rw (compare.nil-cons, compare.cons-nil)
compare-flip (String.◌∷◌ c s) (String.◌∷◌ d t) =
    ground (arith, compare-flip s t, compare.cons-cons c d s t, compare.cons-cons d c t s)

str_leb_trans : (s t u : String) → str_leb s t ≡ true → str_leb t u ≡ true → str_leb s u ≡ true
str_leb_trans String.[] t String.[] h k = refl
str_leb_trans String.[] t (String.◌∷◌ e u) h k = rw compare.nil-cons
str_leb_trans (String.◌∷◌ c s) String.[] u h k = absurd (ground (arith, compare.cons-nil c s))
str_leb_trans (String.◌∷◌ c s) (String.◌∷◌ d t) String.[] h k =
    absurd (ground (arith, compare.cons-nil d t))
str_leb_trans (String.◌∷◌ c s) (String.◌∷◌ d t) (String.◌∷◌ e u) h k = ground (
  arith,
  str_leb_trans s t u,
  compare.cons-cons c d s t,
  compare.cons-cons d e t u,
  compare.cons-cons c e s u,
)

str_leb-total : (s t : String) → str_leb s t ≡ false → str_leb t s ≡ true
unfolding flip
str_leb-total s t h = ground (arith, compare-flip s t)

str_leb-antisym : (s t : String) → str_leb s t ≡ true → str_leb t s ≡ true → s ≡ t
unfolding flip
str_leb-antisym s t h k = path_by_compare s t (ground (arith, compare-flip s t))

pub str_order : TotalOrder str_leb
str_order = record { total = str_leb-total; antisym = str_leb-antisym; trans = str_leb_trans }

module _ {A B : Type 0} (leb_a : A → A → Bool) (leb_b : B → B → Bool) where
  -- Tuples are compared by the first component, then by the second.
  abbrev pub pair_leb : A × B → A × B → Bool
  pair_leb (a, b) (c, d) = if leb_a a c && leb_a c a then leb_b b d else leb_a a c

  module _ (oa : TotalOrder leb_a) (ob : TotalOrder leb_b) where
    pub pair_order : TotalOrder pair_leb
    pair_order = record {
      total = λ p q h. ground (arith, oa.total p.0 q.0, oa.total q.0 p.0, ob.total p.1 q.1);
      antisym = λ p q h k.
          ground
            (arith, oa.antisym p.0 q.0, ob.antisym p.1 q.1, oa.total p.0 q.0, oa.total q.0 p.0);
      trans = λ p q r h k. ground (
        arith,
        oa.trans p.0 q.0 r.0,
        oa.trans r.0 p.0 q.0,
        oa.trans q.0 r.0 p.0,
        oa.trans r.0 q.0 p.0,
        oa.trans q.0 p.0 r.0,
        oa.trans p.0 r.0 q.0,
        ob.trans p.1 q.1 r.1,
      );
    }

module _ {A : Type 0} (leb : A → A → Bool) where
  unfoldable pub insert_sorted : A → List A → List A
  insert_sorted x [] = x ∷ []
  insert_sorted x (y ∷ ys) =
      let rest = insert_sorted x ys in elim (leb x y) [ true ↦ x ∷ y ∷ ys | false ↦ y ∷ rest ]

  -- `sorted(xs)`
  unfoldable pub sorted : List A → List A
  unfolding insert_sorted
  sorted [] = []
  sorted (x ∷ xs) = insert_sorted x (sorted xs)

  abbrev pub IsSorted : List A → Type 0
  IsSorted [] = Unit
  IsSorted (x ∷ xs) = (all (leb x) xs ≡ true) × IsSorted xs

module _ {A : Type 0} (leb : A → A → Bool) (o : TotalOrder leb) where
  all_trans :
      (x y : A) (ys : List A) → leb x y ≡ true → all (leb y) ys ≡ true → all (leb x) ys ≡ true
  all_trans x y [] h k = refl
  all_trans x y (z ∷ zs) h k = ground (arith, o.trans x y z, all_trans x y zs h)

  all-insert_sorted :
      (z x : A) (ys : List A)
      → leb z x ≡ true
      → all (leb z) ys ≡ true
      → all (leb z) (insert_sorted leb x ys) ≡ true
  unfolding insert_sorted
  all-insert_sorted z x [] h k = ground arith
  all-insert_sorted z x (y ∷ ys) h k = ground (arith, all-insert_sorted z x ys)

  insert_sorted-IsSorted :
      (x : A) (ys : List A) → IsSorted leb ys → IsSorted leb (insert_sorted leb x ys)
  unfolding insert_sorted
  insert_sorted-IsSorted x [] s = (refl, tt)
  insert_sorted-IsSorted x (y ∷ ys) (low, s) = ground (
    arith,
    all_trans x y ys,
    o.total x y,
    all-insert_sorted y x ys,
    insert_sorted-IsSorted x ys s,
  )

  pub sorted-IsSorted : (xs : List A) → IsSorted leb (sorted leb xs)
  unfolding sorted
  sorted-IsSorted [] = tt
  sorted-IsSorted (x ∷ xs) = insert_sorted-IsSorted x (sorted leb xs) (sorted-IsSorted xs)

  -- Sorting what is sorted changes nothing.
  pub sorted-eq_of_IsSorted : (xs : List A) → IsSorted leb xs → sorted leb xs ≡ xs
  unfolding sorted
  sorted-eq_of_IsSorted [] s = refl
  sorted-eq_of_IsSorted (x ∷ []) s = refl
  sorted-eq_of_IsSorted (x ∷ y ∷ ys) (low, s) = ground (arith, sorted-eq_of_IsSorted (y ∷ ys) s)

  insert_sorted_comm :
      (x y : A) (zs : List A)
      → insert_sorted leb x (insert_sorted leb y zs) ≡ insert_sorted leb y (insert_sorted leb x zs)
  unfolding insert_sorted
  insert_sorted_comm x y [] = ground (arith, o.total x y, o.antisym x y)
  insert_sorted_comm x y (z ∷ zs) = ground (
    arith,
    o.total x y,
    o.total x z,
    o.total y z,
    o.antisym x y,
    o.trans x y z,
    o.trans y x z,
    insert_sorted_comm x y zs,
  )

  -- Exchanging two neighbours changes nothing in the sorted list.
  pub sorted-swap :
      (xs : List A) (y z : A) (zs : List A)
      → sorted leb (xs ++ y ∷ z ∷ zs) ≡ sorted leb (xs ++ z ∷ y ∷ zs)
  unfolding sorted
  sorted-swap [] y z zs = insert_sorted_comm y z (sorted leb zs)
  sorted-swap (x ∷ xs) y z zs = ap (insert_sorted leb x) (sorted-swap xs y z zs)

module _ {A : Type 0} (leb : A → A → Bool) (p : A → Bool) where
  all-insert : (x : A) (xs : List A) → all p (insert_sorted leb x xs) ≡ (p x && all p xs)
  unfolding insert_sorted
  all-insert x [] = refl
  all-insert x (y ∷ ys) = ground (arith, all-insert x ys)

  pub all-sorted : (xs : List A) → all p (sorted leb xs) ≡ all p xs
  unfolding sorted
  all-sorted [] = refl
  all-sorted (x ∷ xs) = rw (all-insert x (sorted leb xs), all-sorted xs)
