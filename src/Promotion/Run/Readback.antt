-- ===== src/Promotion/Run/Readback.antt =====
-- The readback of the tags of a unit, and the last look at its pair.
use alric_containers_image_b.Base.{
  ℕ, String, ◌&&◌, Bool, true, false, none, some, List, Result, ok, err, if◌then◌else◌,
}
use alric_containers_image_b.Base.Act.{Stop}
use alric_containers_image_b.Base.Act.Triples.{Post, weaken, bind, attempted, Keeps, Keeps-demand}
use alric_containers_image_b.Promotion.Evidence.{Evidence, same_option}
use alric_containers_image_b.Promotion.Registry.{StableDetail, Registry}
use alric_containers_image_b.Promotion.Reference.{is_reference}
use alric_containers_image_b.Promotion.Work.{Phase, Event, Work, with_file}
use alric_containers_image_b.Promotion.Stable.{
  with_error, fail_closed, answered, ask, write_file, verify_stable,
}
use alric_containers_image_b.Promotion.Batch.{failed_unit, pair_of, fail}
use alric_containers_image_b.Promotion.Run.{
  refreshed, confirm_one, refresh_one, readback_one, final_pair_check, bound_or_none,
}
use alric_containers_image_b.Promotion.Run.Rules.{Statement, On, Keeps-call, Keeps-set_unit}
use alric_containers_image_b.Promotion.Run.Evaluations.{digest-Gives}
use alric_containers_image_b.Promotion.Run.Writes.{Open, Open-failed}

module _ {D : Registry} (registry : String) (soak now : ℕ) (T : List Event → Type 0) where
  abbrev Held : {A : Type 0} → Statement → Result Stop A × Work D → Type 0
  Held P r = Post (λ x. On P) (On P) r.0 r.1

  Keeps-ask :
      (P : Statement) (name digest : String) (e : Evidence)
      → Keeps (On P) (ask {D = D} registry name digest e)
  unfolding ask
  Keeps-ask P name digest e = record {
    run = λ w h.
        go (is_reference registry name digest && same_option e.digest (some digest))
          (D.describe_stable w.side.world name).0 w h;
  }
    where
      after :
          (r : Result Stop (List StableDetail)) (w : Work D)
          → On P w
          → Post (λ x. On P) (On P) (answered registry name digest e r) w
      after (ok details) w h = h
      after (err Stop.failed) w h = h
      after (err Stop.killed) w h = h

      go :
          (b : Bool) (r : Result Stop (List StableDetail)) (w : Work D)
          → On P w
          → Held P (
              if b
              then (
                answered registry name digest e r,
                record w {
                  side = record w.side { world = (D.describe_stable w.side.world name).1 };
                },
              )
              else (ok (with_error e), w))
      go true r w h = after r _ h
      go false r w h = h

  Keeps-verify_stable :
      (names : List String) (name digest : String)
      → Keeps (On (Open T names)) (verify_stable {D = D} registry name digest)
  unfolding verify_stable write_file
  Keeps-verify_stable names name digest = bind (Keeps-call (Open T names) D.file_access) λ x.
      bind {Q = λ e. On (Open T names)} (record { run = λ w h. h })
        λ e.
          bind
            (bind (Keeps-call (Open T names) D.file_access) λ x.
              Keeps-set_unit (Open T names) (with_file name (fail_closed digest e)) (λ t u h. h))
            λ x. bind (Keeps-ask (Open T names) name digest (fail_closed digest e)) λ found.
              bind
                (bind (Keeps-call (Open T names) D.file_access)
                  λ x. Keeps-set_unit (Open T names) (with_file name found.0) (λ t u h. h))
                λ x. Keeps-demand found.1

  pub Keeps-readback_one :
      (names : List String) (name : String)
      → Keeps (On (Open T names)) (readback_one D registry soak now name)
  unfolding readback_one confirm_one refresh_one fail
  Keeps-readback_one names name =
      bind
        (attempted
          (digest-Gives registry soak now (Open T names) name _ (λ w h. h)
            λ d. weaken (Keeps-verify_stable names name d) (λ w h. h.0) (λ x w h. h) (λ w h. h))
          (Keeps-set_unit (Open T names) (failed_unit Phase.readback (some name))
            (Open-failed T names Phase.readback (some name)))
          (λ w h. h))
        λ x.
          attempted
            (bind (Keeps-call (Open T names) D.file_access)
              λ x. Keeps-set_unit (Open T names) (refreshed name) (λ t u h. h))
            (Keeps-set_unit (Open T names) (failed_unit Phase.readback (some name))
              (Open-failed T names Phase.readback (some name)))
            (λ w h. h)

  pub Keeps-final_pair_check :
      (names : List String) → Keeps (On (Open T names)) (final_pair_check D registry soak now)
  unfolding final_pair_check fail
  Keeps-final_pair_check names = record {
    run = λ w h.
        (attempted (Keeps-demand (bound_or_none (pair_of w.unit w.unit.frameworks)))
            (Keeps-set_unit (Open T names) (failed_unit Phase.final_pair none)
              (Open-failed T names Phase.final_pair none))
            (λ v k. k)).run
          w h;
  }
