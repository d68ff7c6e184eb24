-- ===== src/Promotion/Run.antt =====
-- The writes of `promote_batch`, its loops over the units, and the whole of it.
pub mod Rules
pub mod Units
pub mod Quiet
pub mod Evaluations
pub mod Loops
pub mod Writes
pub mod Readback
pub mod Closing
pub mod Whole
pub mod Ends
pub mod Reports
use alric_containers_image_b.Base.{
  ℕ, String, Bool, true, false, not, ◌&&◌, ◌||◌, Option, none, some, List, [], ◌∷◌, ◌++◌, Result,
  ok, err, map, all, any, is_some, if◌then◌else◌,
}
use alric_containers_image_b.Base.Act.{
  Stop, Act, pure, stop, demand, for_each, attempt, ◌>>=◌, ◌>>◌,
}
use alric_containers_image_b.Promotion.Reference.{is_reference}
use alric_containers_image_b.Promotion.Evidence.{
  started, completed, write_failed, Binding, Evidence, no_evidence, record_outcome, verify_pair,
}
use alric_containers_image_b.Promotion.Registry.{Registry}
use alric_containers_image_b.Promotion.Work.{
  UnitStatus, pending, failed, skipped, authorized, Phase, Member, UnitResult, Event, wrote, Side,
  Work, is_failed, is_authorized, call, set_unit, log, entry_of, with_entry, set_entry, given, when,
  while_ok,
}
use alric_containers_image_b.Promotion.Stable.{verify_stable}
use alric_containers_image_b.Promotion.Batch.{
  entry_in, pair_of, fail, save, start_phase, guarded, inventory_unit, selection_unit, pair_unit,
  trust_unit, scan_unit,
}

abbrev pub recorded : Bool → String → UnitResult → UnitResult
recorded success name u = with_entry name (λ e. record_outcome e success false) u

abbrev pub recorded_all : Bool → List String → UnitResult → UnitResult
recorded_all success [] u = u
recorded_all success (name ∷ names) u = recorded_all success names (recorded success name u)

abbrev pub mark_started : Evidence → Evidence
mark_started e = record e { write_status = started }

abbrev pub mark_completed : Evidence → Evidence
mark_completed e = record e { write_status = completed }

abbrev pub mark_write_failed : Evidence → Evidence
mark_write_failed e = record e { write_status = write_failed }

-- `evidence[name] = refreshed`
abbrev pub refreshed : String → UnitResult → UnitResult
refreshed name u = with_entry name (λ e. (u.members name).file) u

abbrev pub all_promoted : UnitResult → Bool
all_promoted u = all (λ name. (entry_in u name).promoted) u.frameworks

abbrev pub bound_or_none : Option (Option Binding) → Bool
bound_or_none none = true
bound_or_none (some none) = false
bound_or_none (some (some binding)) = true

-- The part of the outer `finally`: a failed unit has promoted nothing.
abbrev pub closed_unit : UnitResult → UnitResult
closed_unit u =
    if is_failed u.status
    then record u {
      members = λ name. record (u.members name) {
        entry =
            record_outcome (record (entry_in u name) { error = true }) false
              (entry_in u name).skipped;
      };
    }
    else u

-- A unit before any phase.
abbrev pub new_unit : List String → UnitResult
new_unit frameworks = record {
  frameworks = frameworks;
  status = pending;
  phase = Phase.inventory;
  prewrite = false;
  promoted = false;
  errors = [];
  members = λ name. record { entry = no_evidence; file = no_evidence; details = none };
}

-- The summaries of a save.
abbrev pub units_in : (UnitStatus → Bool) → List UnitResult → List (List String)
units_in test [] = []
units_in test (u ∷ us) = if test u.status then u.frameworks ∷ units_in test us else units_in test us

abbrev pub is_empty {ℓ} : {A : Type ℓ} → List A → Bool
is_empty [] = true
is_empty (x ∷ xs) = false

abbrev pub batch_promoted : List UnitResult → Bool
batch_promoted us =
    not (is_empty (units_in is_authorized us))
    && is_empty (units_in is_failed us)
    && all (λ u. not (is_authorized u.status) || u.promoted) us

abbrev pub batch_authorized : Bool → List UnitResult → Bool
batch_authorized barrier_complete us =
    barrier_complete
    && not (is_empty (units_in is_authorized us))
    && is_empty (units_in is_failed us)

module _ (D : Registry) (registry : String) (soak now : ℕ) where
  abbrev pub Action : Type 0 → Type 0
  Action = Act (Work D)

  unfoldable pub write_stable : String → String → Action (Unit {0})
  unfolding call log is_reference
  write_stable name digest w =
      (do
        demand (is_reference registry name digest)
        log (wrote w.unit.frameworks name digest)
        call (λ world. D.create_tag world name digest))
        w

  -- One write; whether it failed is saved, and ends the unit's writes.
  unfoldable pub try_write : String → Action Bool
  unfolding write_stable set_entry fail
  try_write name =
      attempt
        (do
          entry ← entry_of name
          digest ← given entry.digest
          write_stable name digest
          set_entry name mark_completed
          pure true)
        (do
          set_entry name mark_write_failed
          fail D registry soak now Phase.write (some name)
          pure false)

  unfoldable pub write_one : String → Action Bool
  unfolding set_entry save try_write
  write_one name = do
    set_entry name mark_started
    save D registry soak now
    more ← try_write name
    save D registry soak now
    pure more

  unfoldable pub confirm_one : String → Action (Unit {0})
  unfolding verify_stable
  confirm_one name = do
    entry ← entry_of name
    digest ← given entry.digest
    verify_stable registry name digest

  unfoldable pub refresh_one : String → Action (Unit {0})
  unfolding call set_unit
  refresh_one name = do call D.file_access; set_unit (refreshed name)

  -- Every tag of the unit is read again, and the evidence is what the verifier left in the file.
  unfoldable pub readback_one : String → Action (Unit {0})
  unfolding confirm_one refresh_one fail
  readback_one name = do
    attempt (confirm_one name) (fail D registry soak now Phase.readback (some name))
    attempt (refresh_one name) (fail D registry soak now Phase.readback (some name))

  -- `unit['status'] != 'FAILED'`
  abbrev pub standing : (Bool → Action (Unit {0})) → Action (Unit {0})
  standing next w = next (not (is_failed w.unit.status)) w

  unfoldable pub final_pair_check : Action (Unit {0})
  unfolding verify_pair fail
  final_pair_check w =
      attempt (demand (bound_or_none (pair_of w.unit w.unit.frameworks)))
        (fail D registry soak now Phase.final_pair none) w

  unfoldable pub record_all : Action (Unit {0})
  record_all w = (
    ok tt,
    record w { unit = recorded_all (not (is_failed w.unit.status)) w.unit.frameworks w.unit },
  )

  unfoldable pub close_unit : Action (Unit {0})
  unfolding set_unit fail
  close_unit w =
      when (not (is_failed w.unit.status))
        (if all_promoted w.unit
          then set_unit (λ u. record u { phase = Phase.complete; promoted = true })
          else fail D registry soak now Phase.readback none)
        w

  unfoldable pub write_unit : Action (Unit {0})
  unfolding set_unit write_one readback_one final_pair_check record_all close_unit save
  write_unit w =
      when (is_authorized w.unit.status)
        (do
          start_phase D registry soak now Phase.write
          while_ok w.unit.frameworks write_one
          standing λ stands. when stands (start_phase D registry soak now Phase.readback)
          for_each w.unit.frameworks readback_one
          final_pair_check
          record_all
          close_unit
          save D registry soak now)
        w

  -- A loop over the units, which leaves each where it was when the loop was left.
  abbrev pub Batch : Type 0
  Batch = Side D × List UnitResult

  abbrev pub go_on :
      Result Stop (Unit {0})
      → UnitResult
      → List UnitResult
      → (Side D → Result Stop (Unit {0}) × Batch)
      → Side D
      → Result Stop (Unit {0}) × Batch
  go_on (ok done) u us rest side = ((rest side).0, ((rest side).1.0, u ∷ (rest side).1.1))
  go_on (err e) u us rest side = (err e, (side, u ∷ us))

  unfoldable pub over :
      Action (Unit {0}) → List UnitResult → Side D → Result Stop (Unit {0}) × Batch
  over body [] side = (ok tt, (side, []))
  over body (u ∷ us) side =
      let later = over body us in
      let (r, w) = body (record { side = side; unit = u }) in go_on r w.unit us later w.side

  abbrev pub phase_of : Action (Unit {0}) → Act Batch (Unit {0})
  phase_of body (side, us) = over body us side

  -- A save between the phases.
  unfoldable pub save_all : Act Batch (Unit {0})
  unfolding over save
  save_all = phase_of (save D registry soak now)

  abbrev pub any_failed : List UnitResult → Bool
  any_failed us = any (λ u. is_failed u.status) us

  abbrev pub raise_failures : Act Batch (Unit {0})
  raise_failures (side, us) = demand (not (any_failed us)) (side, us)

  -- The body of the outer `try`: every phase before the writes is over for all units first.
  unfoldable pub phases : Act Batch (Unit {0})
  unfolding over inventory_unit selection_unit pair_unit trust_unit scan_unit write_unit save_all
  phases = do
    save_all
    phase_of (inventory_unit D registry soak now)
    save_all
    phase_of (selection_unit D registry soak now)
    save_all
    phase_of (pair_unit D registry soak now)
    save_all
    phase_of (trust_unit D registry soak now)
    phase_of (scan_unit D registry soak now)
    save_all
    phase_of write_unit
    raise_failures

  abbrev pub close_all : Act Batch (Unit {0})
  close_all (side, us) = (ok tt, (side, map closed_unit us))

  -- The reports of CVEs; where one fails, its error is written to a file.
  unfoldable pub report_one : String → Act D.World (Unit {0})
  report_one name = attempt (λ world. D.report_cves world name) D.file_access

  abbrev pub report_all : Act Batch (Unit {0})
  report_all (side, us) =
      let (r, world) = for_each side.eligible report_one side.world in
      (r, (record side { world = world }, us))

  abbrev pub closing : Act Batch (Unit {0})
  closing = do close_all; λ b. save_all b; report_all

  -- The outer `finally`, for a run that was not ended from outside.
  abbrev pub finish : Result Stop (Unit {0}) → Act Batch (Unit {0})
  finish (err Stop.killed) = stop Stop.killed
  finish (ok done) = closing
  finish (err Stop.failed) = closing >> stop Stop.failed

  -- `promote_batch`, from the units that `promotion_units` resolved.
  unfoldable pub promote_batch : List (List String) → D.World → Result Stop (Unit {0}) × Batch
  unfolding phases save_all report_one
  promote_batch units world = let (r, b) = phases (start, map new_unit units) in finish r b
    where
      start : Side D
      start = record { world = world; trace = []; authorized_pairs = []; eligible = [] }
