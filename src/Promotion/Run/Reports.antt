-- ===== src/Promotion/Run/Reports.antt =====
-- What a batch does and reports.
use alric_containers_image_b.Base.{ℕ, String, ◌≡◌, true, ◌⊎◌, inl, inr, List, ok, In, arith}
use alric_containers_image_b.Base.Act.Triples.{Post-ok, Post-any}
use alric_containers_image_b.Promotion.Registry.{Registry}
use alric_containers_image_b.Promotion.Work.{skipped, authorized, UnitResult}
use alric_containers_image_b.Promotion.Run.{promote_batch}
use alric_containers_image_b.Promotion.Run.Units.{BatchHas}
use alric_containers_image_b.Promotion.Run.Closing.{IsExact}
use alric_containers_image_b.Promotion.Run.Whole.{Orderly, Good, OfUnit}
use alric_containers_image_b.Promotion.Run.Ends.{Good-Exact, promote_batch-Ends}

-- A unit that is skipped, or was authorized and is promoted with each of its frameworks.
pub record IsSettled (u : UnitResult) : Type 0 where
  pub outcome : (u.status ≡ skipped) ⊎ ((u.status ≡ authorized) × (u.promoted ≡ true))
  pub exact : IsExact u

module _ (D : Registry) (registry : String) (soak now : ℕ) where
  ended :
      (units : List (List String)) (world : D.World)
      → BatchHas Orderly (OfUnit IsExact) (promote_batch D registry soak now units world).1
  ended units world =
      Post-any (λ x. BatchHas Orderly (OfUnit Good)) (BatchHas Orderly (OfUnit IsExact))
        (BatchHas Orderly (OfUnit IsExact)) (promote_batch D registry soak now units world).0
        (promote_batch D registry soak now units world).1
        (λ x h. Good-Exact (promote_batch D registry soak now units world).1 h) (λ h. h)
        (promote_batch-Ends D registry soak now units world)

  -- However promote_batch ends, before each write of the tag stable the digest that it writes was
  -- verified and scanned for its framework, and so was a digest of every other framework of the
  -- unit; and no verification or scan of any unit follows a write.
  pub promote_batch-Orderly :
      (units : List (List String)) (world : D.World)
      → Orderly (promote_batch D registry soak now units world).1.0.trace
  promote_batch-Orderly units world = (ended units world).0

  -- However promote_batch ends, a unit that it leaves as promoted was authorized, and the evidence
  -- of each of its frameworks is promoted, was read back as confirmed, and has one digest, not
  -- empty, as the one selected, asked for and observed.
  pub promote_batch-IsExact :
      (units : List (List String)) (world : D.World) (u : UnitResult)
      → In u (promote_batch D registry soak now units world).1.1
      → IsExact u
  promote_batch-IsExact units world = (ended units world).1

  -- When promote_batch returns, no unit has failed: each was skipped, or was authorized and is
  -- promoted with one confirmed digest for each of its frameworks.
  pub promote_batch-IsSettled :
      (units : List (List String)) (world : D.World) (u : UnitResult)
      → (promote_batch D registry soak now units world).0 ≡ ok tt
      → In u (promote_batch D registry soak now units world).1.1
      → IsSettled u
  promote_batch-IsSettled units world u e m =
      let good =
        (Post-ok (λ x. BatchHas Orderly (OfUnit Good)) (BatchHas Orderly (OfUnit IsExact))
            (promote_batch D registry soak now units world).0
            (promote_batch D registry soak now units world).1 tt e
            (promote_batch-Ends D registry soak now units world)).1
          u m in
      record {
        outcome = elim good.0.outcome [ inl f ↦ absurd (ground (arith, f, good.1)) | inr k ↦ k ];
        exact = good.0.exact;
      }
