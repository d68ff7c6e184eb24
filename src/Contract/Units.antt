-- ===== src/Contract/Units.antt =====
-- The units of a promotion.
use alric_containers_image_b.Base.{
  ◌≡◌, refl, sym, ap, ◌∙◌, ◌⊎◌, inl, inr, Bool, true, false, Option, none, some, List, [], ◌∷◌, In,
  arith, if◌then◌else◌,
}
use mathlib.Core.Path.{subst}
use alric_containers_image_b.Contract.{
  Name, has, Resolution, publication_contract, unit_of, with_unit, seen_after, next_units,
  units_from,
}
use alric_containers_image_b.Contract.Pairs.{has-In, some_eq}

-- A framework whose resolution has its unit in the list.
pub record IsCovered (catalog requested : List Name) (units : List (List Name)) (name : Name)
    : Type 0 where
  pub resolution : Resolution
  pub resolved : publication_contract catalog name requested ≡ some resolution
  pub unit : List Name
  pub listed : In unit units
  pub inside : In resolution.runtime unit

-- The runtime was seen before, or has its unit in the list.
abbrev Found : List Name → List (List Name) → Resolution → Type 0
Found seen units r = In r.runtime seen ⊎ ((unit : List Name) × In unit units × In r.runtime unit)

runtime-unit_of : (catalog : List Name) (r : Resolution) → In r.runtime (unit_of catalog r)
runtime-unit_of catalog r = go r.dev
  where
    go :
        (o : Option Name)
        → In r.runtime (elim o [ none ↦ r.runtime ∷ [] | some dev ↦ r.runtime ∷ dev ∷ [] ])
    go none = inl refl
    go (some dev) = inl refl

module _ (catalog requested : List Name) where
  units_from-Found :
      (seen names : List Name) (units : List (List Name))
      → units_from catalog requested seen names ≡ some units
      → (name : Name) → In name names
      → (r : Resolution) × (publication_contract catalog name requested ≡ some r)
        × Found seen units r
  unfolding units_from
  units_from-Found seen [] units h name m = absurd m
  units_from-Found seen (n ∷ names) units h name m =
      go (publication_contract catalog n requested) refl h m
        (λ s us k x i. units_from-Found s names us k x i)
    where
      Later : Type 0
      Later =
          (s : List Name) (us : List (List Name))
          → units_from catalog requested s names ≡ some us
          → (x : Name) → In x names
          → (r : Resolution) × (publication_contract catalog x requested ≡ some r) × Found s us r

      moved :
          (r q : Resolution) (us : List (List Name))
          → Found (r.runtime ∷ seen) us q
          → Found seen (unit_of catalog r ∷ us) q
      moved r q us (inl (inl same)) = inr (
        unit_of catalog r,
        inl refl,
        subst (λ x. In x (unit_of catalog r)) (sym same) (runtime-unit_of catalog r),
      )
      moved r q us (inl (inr i)) = inl i
      moved r q us (inr (u, i, x)) = inr (u, inr i, x)

      branch :
          (r : Resolution)
          → publication_contract catalog n requested ≡ some r
          → (b : Bool) → has r.runtime seen ≡ b
          → (o : Option (List (List Name)))
          → units_from catalog requested (if b then seen else r.runtime ∷ seen) names ≡ o
          → (if b then o else with_unit catalog (unit_of catalog r) o) ≡ some units
          → (name ≡ n) ⊎ In name names
          → Later
          → (q : Resolution) × (publication_contract catalog name requested ≡ some q)
            × Found seen units q
      branch r e true f none g k m later = absurd (ground (arith, k))
      branch r e false f none g k m later = absurd (ground (arith, k))
      branch r e true f (some us) g k (inl same) later = (
        r,
        ap (λ x. publication_contract catalog x requested) same ∙ e,
        inl (has-In r.runtime seen f),
      )
      branch r e true f (some us) g k (inr i) later =
          let q = later seen us g name i in
          (q.0, q.1, subst (λ xs. Found seen xs q.0) (some_eq us units k) q.2)
      branch r e false f (some us) g k (inl same) later = (
        r,
        ap (λ x. publication_contract catalog x requested) same ∙ e,
        inr (
          unit_of catalog r,
          subst (In (unit_of catalog r)) (some_eq (unit_of catalog r ∷ us) units k) (inl refl),
          runtime-unit_of catalog r,
        ),
      )
      branch r e false f (some us) g k (inr i) later =
          let q = later (r.runtime ∷ seen) us g name i in
          (
            q.0,
            q.1,
            subst (λ xs. Found seen xs q.0) (some_eq (unit_of catalog r ∷ us) units k)
                (moved r q.0 us q.2),
          )

      go :
          (o : Option Resolution)
          → publication_contract catalog n requested ≡ o
          → next_units catalog seen o
              (units_from catalog requested (seen_after catalog seen o) names)
            ≡ some units
          → (name ≡ n) ⊎ In name names
          → Later
          → (q : Resolution) × (publication_contract catalog name requested ≡ some q)
            × Found seen units q
      go none e k m later = absurd (ground (arith, k))
      go (some r) e k m later = branch r e (has r.runtime seen) refl _ refl k m later

  -- When the loop of promotion_units returns, each of its frameworks is resolved, and one of the
  -- units holds the runtime of its resolution.
  pub units_from-IsCovered :
      (names : List Name) (units : List (List Name))
      → units_from catalog requested [] names ≡ some units
      → (name : Name) → In name names
      → IsCovered catalog requested units name
  units_from-IsCovered names units h name m = go (units_from-Found [] names units h name m)
    where
      go :
          ((r : Resolution) × (publication_contract catalog name requested ≡ some r)
            × Found [] units r)
          → IsCovered catalog requested units name
      go (r, e, inl i) = absurd i
      go (r, e, inr (unit, i, x)) = record {
        resolution = r;
        resolved = e;
        unit = unit;
        listed = i;
        inside = x;
      }
