-- ===== src/Promotion/Run/Quiet.antt =====
-- Before the scans no unit is authorized: the inventory, the selection and the pairs.
use alric_containers_image_b.Base.{
  ℕ, String, ◌≡◌, refl, Bool, true, false, not, Option, none, some, List, all, any, Result, ok, err,
  if◌then◌else◌,
}
use alric_containers_image_b.Base.Act.{Act, demand, attempt, ◌>>◌}
use alric_containers_image_b.Base.Act.Triples.{bind, attempted, Keeps, Keeps-demand, Keeps-for_each}
use alric_containers_image_b.Candidate.{
  Image, Candidate, skip_reason, select_candidate, stable_state, duration,
}
use alric_containers_image_b.Promotion.Evidence.{Binding}
use alric_containers_image_b.Promotion.Registry.{Registry}
use alric_containers_image_b.Promotion.Work.{
  UnitStatus, Phase, UnitResult, Event, Work, is_failed, is_authorized, set_unit, set_entry,
  with_entry, given, granted, when,
}
use alric_containers_image_b.Promotion.Batch.{
  in_phase, failed_unit, choice_of, pair_of, authorize_pair, bind_pair, fail, read_inventory,
  inventory_unit, set_eligible, take_choice, select_one, selection_unit, pair_unit, entry_in,
}
use alric_containers_image_b.Promotion.Run.Rules.{
  Statement, On, Keeps-call, Keeps-set_unit, Keeps-while_ok, Keeps-guarded,
}

-- A unit that is not authorized, and has promoted nothing.
abbrev pub Idle : UnitResult → Type 0
Idle u = (is_authorized u.status ≡ false) × (u.promoted ≡ false)

-- The same, with a trace that these phases leave alone.
abbrev pub Calm : (List Event → Type 0) → Statement
Calm T t u = T t × Idle u

pub fails :
    (T : List Event → Type 0) (phase : Phase) (framework : Option String) (t : List Event)
    (u : UnitResult)
    → Calm T t u
    → Calm T t (failed_unit phase framework u)
fails T phase framework t u h = (h.0, (refl, refl))

module _ {D : Registry} where
  pub Keeps-given : {A : Type 0} (P : Statement) (o : Option A) → Keeps (On P) (given {D = D} o)
  Keeps-given P none = record { run = λ w h. h }
  Keeps-given P (some a) = record { run = λ w h. h }

  pub Keeps-granted :
      {E A : Type 0} (P : Statement) (r : Result E A) → Keeps (On P) (granted {D = D} r)
  Keeps-granted P (ok a) = record { run = λ w h. h }
  Keeps-granted P (err e) = record { run = λ w h. h }

  pub Keeps-when :
      (P : Statement) (b : Bool) (body : Act (Work D) (Unit {0}))
      → Keeps (On P) body
      → Keeps (On P) (when b body)
  Keeps-when P true body k = k
  Keeps-when P false body k = record { run = λ w h. h }

  module _ (registry : String) (soak now : ℕ) (T : List Event → Type 0) where
    pub Idle-inventory_unit : Keeps (On (Calm T)) (inventory_unit D registry soak now)
    unfolding inventory_unit read_inventory
    Idle-inventory_unit = record {
      run = λ w h.
          (Keeps-for_each w.unit.frameworks _ λ name m.
              bind
                (Keeps-guarded (Calm T) registry soak now Phase.inventory name _ (reads name)
                  (fails T Phase.inventory (some name)))
                λ more. record { run = λ v k. k }).run
            w h;
    }
      where
        reads : (name : String) → Keeps (On (Calm T)) (read_inventory D registry soak now name)
        reads name =
            bind (Keeps-call (Calm T) (λ w. D.inventory w name))
              λ details. Keeps-set_unit (Calm T) _ (λ t u h. h)

    Idle-take_choice :
        (name : String) (details : List Image) (quarantined : List String) (o : Option Candidate)
        → Keeps (On (Calm T)) (take_choice D registry soak now name details quarantined o)
    unfolding take_choice set_entry set_eligible
    Idle-take_choice name details quarantined none =
        bind (Keeps-granted (Calm T) (skip_reason details soak now quarantined))
          λ reason. Keeps-set_unit (Calm T) (with_entry name (choice_of none)) (λ t u h. h)
    Idle-take_choice name details quarantined (some c) = bind (Keeps-demand _) λ u.
        bind (Keeps-demand _) λ u.
          bind (Keeps-set_unit (Calm T) (with_entry name (choice_of (some c))) (λ t u h. h))
            λ u. record { run = λ w h. h }

    Idle-select_one : (name : String) → Keeps (On (Calm T)) (select_one D registry soak now name)
    unfolding select_one
    Idle-select_one name =
        bind {Q = λ details. On (Calm T)}
          (record { run = λ w h. (Keeps-given (Calm T) (w.unit.members name).details).run w h })
          λ details. bind (Keeps-call (Calm T) (λ w. D.quarantined w name)) λ quarantined.
            bind (Keeps-granted (Calm T) (select_candidate details (duration soak) now quarantined))
              λ selected.
                bind (Keeps-granted (Calm T) (stable_state details))
                  λ state. Idle-take_choice name details quarantined selected

    pub Idle-selection_unit : Keeps (On (Calm T)) (selection_unit D registry soak now)
    unfolding selection_unit
    Idle-selection_unit = record {
      run = λ w h.
          (Keeps-when (Calm T) (not (is_failed w.unit.status)) _ (
              bind (Keeps-set_unit (Calm T) (in_phase Phase.selection) (λ t u k. k)) λ u.
                Keeps-while_ok w.unit.frameworks _ λ name m.
                  Keeps-guarded (Calm T) registry soak now Phase.selection name _
                    (Idle-select_one name) (fails T Phase.selection (some name)))).run
            w h;
    }

    Idle-authorize_pair :
        (o : Option (Option Binding)) → Keeps (On (Calm T)) (authorize_pair D registry soak now o)
    unfolding bind_pair
    Idle-authorize_pair none = record { run = λ w h. h }
    Idle-authorize_pair (some none) = record { run = λ w h. h }
    Idle-authorize_pair (some (some b)) = record { run = λ w h. h }

    pub Idle-pair_unit : Keeps (On (Calm T)) (pair_unit D registry soak now)
    unfolding pair_unit fail
    Idle-pair_unit = record {
      run = λ w h.
          (Keeps-when (Calm T) (not (is_failed w.unit.status)) _ (
              bind (Keeps-set_unit (Calm T) (in_phase Phase.pair_authorization) (λ t u k. k))
                λ u. go w (all (λ name. (entry_in w.unit name).skipped) w.unit.frameworks))).run
            w h;
    }
      where
        binds : Work D → Act (Work D) (Unit {0})
        binds w =
            attempt
              (do
                demand (not (any (λ name. (entry_in w.unit name).skipped) w.unit.frameworks))
                authorize_pair D registry soak now (pair_of w.unit w.unit.frameworks))
              (fail D registry soak now Phase.pair_authorization none)

        go :
            (w : Work D) (b : Bool)
            → Keeps (On (Calm T)) (
                if b
                then set_unit
                    (λ u. record u { status = UnitStatus.skipped; phase = Phase.complete })
                else binds w)
        go w true = Keeps-set_unit (Calm T) _ (λ t u h. (h.0, (refl, h.1.1)))
        go w false =
            attempted
              (bind (Keeps-demand _) λ u. Idle-authorize_pair (pair_of w.unit w.unit.frameworks))
              (Keeps-set_unit (Calm T) _ (fails T Phase.pair_authorization none)) (λ v k. k)
