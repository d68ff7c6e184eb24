-- ===== src/Promotion/Run/Ends.antt =====
-- The end of `promote_batch`: its outer `finally`, its reports, and how a batch ends.
use alric_containers_image_b.Base.{
  ℕ, String, ◌≡◌, refl, sym, Bool, true, false, inl, inr, List, [], ◌∷◌, map, Result, ok, err, In,
  arith, if◌then◌else◌,
}
use mathlib.Core.Path.{subst}
use alric_containers_image_b.Base.Act.{Stop, stop, for_each}
use alric_containers_image_b.Base.Act.Triples.{Post, Triple, weaken, bind}
use alric_containers_image_b.Promotion.Evidence.{record_outcome}
use alric_containers_image_b.Promotion.Registry.{Registry}
use alric_containers_image_b.Promotion.Work.{UnitResult, Side, is_failed}
use alric_containers_image_b.Promotion.Batch.{entry_in, saved_unit}
use alric_containers_image_b.Promotion.Run.{
  new_unit, closed_unit, save_all, phases, close_all, report_one, report_all, closing, finish,
  promote_batch,
}
use alric_containers_image_b.Promotion.Run.Units.{BatchHas}
use alric_containers_image_b.Promotion.Run.Quiet.{Idle}
use alric_containers_image_b.Promotion.Run.Closing.{IsExact}
use alric_containers_image_b.Promotion.Run.Whole.{Orderly, Good, OfUnit, saves, phases-End}

closed-Exact : (u : UnitResult) → IsExact u → IsExact (closed_unit u)
closed-Exact u h = go (is_failed u.status) refl
  where
    go :
        (b : Bool)
        → is_failed u.status ≡ b
        → IsExact (
            if b
            then record u {
              members = λ name. record (u.members name) {
                entry =
                    record_outcome
                      (record (entry_in u name) { error = true })
                      false
                      (entry_in u name).skipped;
              };
            }
            else u)
    go true e p = absurd (ground (arith, e, (h p).0))
    go false e p = h p

closed-same : (u : UnitResult) → is_failed u.status ≡ false → closed_unit u ≡ u
closed-same u e = rw e

closed-Good : (u : UnitResult) → Good u → Good (closed_unit u)
closed-Good u h = subst Good (sym (closed-same u h.1)) h

saved-Good : (u : UnitResult) → Good u → Good (saved_unit u)
saved-Good u h = (record { outcome = h.0.outcome; exact = h.0.exact }, h.1)

pub Good-Exact :
    {D : Registry} (b : Side D × List UnitResult)
    → BatchHas Orderly (OfUnit Good) b
    → BatchHas Orderly (OfUnit IsExact) b
Good-Exact b h = (h.0, λ u m. (h.1 u m).0.exact)

each_map :
    (F : UnitResult → Type 0) (f : UnitResult → UnitResult)
    → ((u : UnitResult) → F u → F (f u))
    → (us : List UnitResult) → ((u : UnitResult) → In u us → F u)
    → (u : UnitResult) → In u (map f us)
    → F u
each_map F f k [] h u m = absurd m
each_map F f k (v ∷ us) h u (inl e) = subst F (sym e) (k v (h v (inl refl)))
each_map F f k (v ∷ us) h u (inr m) = each_map F f k us (λ x n. h x (inr n)) u m

module _ {D : Registry} (registry : String) (soak now : ℕ) where
  closes :
      (F : UnitResult → Type 0)
      → ((u : UnitResult) → F u → F (closed_unit u))
      → ((u : UnitResult) → F u → F (saved_unit u))
      → Triple
          (BatchHas Orderly (OfUnit F))
          (closing D registry soak now)
          (λ x. BatchHas Orderly (OfUnit F))
          (BatchHas Orderly (OfUnit F))
  closes F c k =
      bind {Q = λ x. BatchHas Orderly (OfUnit F)} {first = close_all D registry soak now}
        (record { run = λ b h. (h.0, each_map F closed_unit c b.1 h.1) })
        λ x.
          bind {first = save_all D registry soak now} {next = λ x. report_all D registry soak now}
            (saves registry soak now Orderly (OfUnit F) (λ s t u g h. h) (λ t u h. k u h))
            λ x. record {
              run = λ b h.
                  go (for_each b.0.eligible (report_one D registry soak now) b.0.world).0 b h;
            }
    where
      go :
          (r : Result Stop (Unit {0})) (b : Side D × List UnitResult)
          → BatchHas Orderly (OfUnit F) b
          → Post
              (λ x. BatchHas Orderly (OfUnit F))
              (BatchHas Orderly (OfUnit F))
              r
              (
                record b.0 {
                  world = (for_each b.0.eligible (report_one D registry soak now) b.0.world).1;
                },
                b.1,
              )
      go (ok x) b h = h
      go (err e) b h = h

  finishes :
      (r : Result Stop (Unit {0})) (b : Side D × List UnitResult)
      → Post (λ x. BatchHas Orderly (OfUnit Good)) (BatchHas Orderly (OfUnit IsExact)) r b
      → Post
          (λ x. BatchHas Orderly (OfUnit Good))
          (BatchHas Orderly (OfUnit IsExact))
          (finish D registry soak now r b).0
          (finish D registry soak now r b).1
  finishes (ok x) b h =
      (weaken (closes Good closed-Good saved-Good) (λ b h. h) (λ x b h. h) Good-Exact).run b h
  finishes (err Stop.killed) b h = h
  finishes (err Stop.failed) b h =
      (bind {first = closing D registry soak now} {next = λ x. stop Stop.failed}
          (closes IsExact closed-Exact (λ u h. h)) λ x. record { run = λ b h. h }).run
        b h

module _ (D : Registry) (registry : String) (soak now : ℕ) where
  abbrev begun : List (List String) → D.World → Side D × List UnitResult
  begun units world = (
    record { world = world; trace = []; authorized_pairs = []; eligible = [] },
    map new_unit units,
  )

  begun-Idle : (units : List (List String)) (u : UnitResult) → In u (map new_unit units) → Idle u
  begun-Idle [] u m = absurd m
  begun-Idle (names ∷ units) u (inl e) = subst Idle (sym e) (refl, refl)
  begun-Idle (names ∷ units) u (inr m) = begun-Idle units u m

  pub promote_batch-Ends :
      (units : List (List String)) (world : D.World)
      → Post
          (λ x. BatchHas Orderly (OfUnit Good))
          (BatchHas Orderly (OfUnit IsExact))
          (promote_batch D registry soak now units world).0
          (promote_batch D registry soak now units world).1
  unfolding promote_batch
  promote_batch-Ends units world =
      finishes registry soak now (phases D registry soak now (begun units world)).0
        (phases D registry soak now (begun units world)).1
        ((phases-End registry soak now).run (begun units world)
          (((λ ns n d m. absurd m), tt), begun-Idle units))
