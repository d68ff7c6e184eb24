-- ===== src/Promotion/Batch.antt =====
-- `promote_batch` of promotion_batch.py. The phases are loops over the units, and a unit's part of a
-- phase is an action on it.
use alric_containers_image_b.Base.{
  ℕ, String, Bool, true, false, not, Option, none, some, List, [], ◌∷◌, ◌++◌, ok, all, any,
  if◌then◌else◌,
}
use alric_containers_image_b.Base.Act.{
  Stop, Act, pure, stop, demand, for_each, attempt, ◌>>=◌, ◌>>◌,
}
use alric_containers_image_b.Base.Decimal.{codes}
use alric_containers_image_b.BuildTag.{is_build_tag}
use alric_containers_image_b.Candidate.{
  Image, Candidate, duration, select_candidate, skip_reason, stable_state,
}
use alric_containers_image_b.Promotion.Reference.{is_reference}
use alric_containers_image_b.Promotion.Evidence.{Binding, Evidence, verify_pair}
use alric_containers_image_b.Promotion.Registry.{Registry}
use alric_containers_image_b.Promotion.Work.{
  failed, skipped, authorized, Phase, UnitResult, trusted, scanned, Work, is_failed, is_pending,
  set_member, call, set_unit, log, entry_of, set_entry, given, granted, when, while_ok,
}

-- `fail` for a unit: it and all its frameworks.
abbrev pub failed_unit : Phase → Option String → UnitResult → UnitResult
failed_unit phase framework u = record u {
  status = failed;
  phase = phase;
  promoted = false;
  errors = u.errors ++ (phase, framework) ∷ [];
  members = λ name. record (u.members name) {
    entry = record (u.members name).entry { error = true; promoted = false };
  };
}

-- What a save writes of a unit.
abbrev pub saved_unit : UnitResult → UnitResult
saved_unit u = record u {
  members = λ name. record (u.members name) { file = (u.members name).entry };
}

abbrev pub entry_in : UnitResult → String → Evidence
entry_in u name = (u.members name).entry

abbrev pub mark_trusted : Evidence → Evidence
mark_trusted e = record e { trust_verified = true }

abbrev pub mark_scanned : Evidence → Evidence
mark_scanned e = record e { scan_passed = true }

abbrev pub in_phase : Phase → UnitResult → UnitResult
in_phase phase u = record u { phase = phase }

-- `verify_pair(*members)` where a unit is a pair.
abbrev pub pair_of : UnitResult → List String → Option (Option Binding)
pair_of u (runtime ∷ dev ∷ []) = some (verify_pair (entry_in u runtime) (entry_in u dev))
pair_of u _ = none

abbrev pub choice_of : Option Candidate → Evidence → Evidence
choice_of none e = record e { skipped = true }
choice_of (some c) e = record e {
  tag = some c.tag;
  digest = some c.digest;
  has_candidate_digest = true;
  candidate_digest = some c.digest;
}

module _ (D : Registry) (registry : String) (soak now : ℕ) where
  abbrev pub Action : Type 0 → Type 0
  Action = Act (Work D)

  unfoldable pub fail : Phase → Option String → Action (Unit {0})
  unfolding set_unit
  fail phase framework = set_unit (failed_unit phase framework)

  -- A save in the middle of a unit's work; the other units have not changed since the last.
  unfoldable pub save : Action (Unit {0})
  unfolding call set_unit
  save = do call D.file_access; set_unit saved_unit

  abbrev pub start_phase : Phase → Action (Unit {0})
  start_phase phase = set_unit (in_phase phase)

  -- `try: body` `except ERRORS: fail(…); break`
  unfoldable pub guarded : Phase → String → Action (Unit {0}) → Action Bool
  unfolding fail
  guarded phase name body =
      attempt (body >>= λ u. pure true) (fail phase (some name) >>= λ u. pure false)

  unfoldable pub read_inventory : String → Action (Unit {0})
  unfolding call set_unit
  read_inventory name = do
    details ← call (λ w. D.inventory w name)
    set_unit λ u. record u {
      members = set_member name (record (u.members name) { details = some details }) u.members;
    }

  -- The inventory goes on after a failure.
  unfoldable pub inventory_unit : Action (Unit {0})
  unfolding read_inventory guarded
  inventory_unit w =
      for_each w.unit.frameworks
        (λ name. guarded Phase.inventory name (read_inventory name) >>= λ more. pure tt) w

  abbrev pub details_of : String → Action (List Image)
  details_of name w = given (w.unit.members name).details w

  unfoldable pub set_eligible : String → Action (Unit {0})
  set_eligible name w =
      (ok tt, record w { side = record w.side { eligible = w.side.eligible ++ name ∷ [] } })

  -- A framework without a candidate is skipped, with a reason; a candidate is checked.
  unfoldable pub take_choice :
      String → List Image → List String → Option Candidate → Action (Unit {0})
  unfolding set_entry set_eligible is_reference
  take_choice name details quarantined none = do
    reason ← granted (skip_reason details soak now quarantined)
    set_entry name (choice_of none)
  take_choice name details quarantined (some c) = do
    demand (is_reference registry name c.digest)
    demand (is_build_tag (codes c.tag))
    set_entry name (choice_of (some c))
    set_eligible name

  unfoldable pub select_one : String → Action (Unit {0})
  unfolding call take_choice
  select_one name = do
    details ← details_of name
    quarantined ← call (λ w. D.quarantined w name)
    selected ← granted (select_candidate details (duration soak) now quarantined)
    state ← granted (stable_state details)
    take_choice name details quarantined selected

  unfoldable pub selection_unit : Action (Unit {0})
  unfolding set_unit guarded select_one
  selection_unit w =
      when (not (is_failed w.unit.status))
        (do
          start_phase Phase.selection
          while_ok w.unit.frameworks (λ name. guarded Phase.selection name (select_one name)))
        w

  unfoldable pub bind_pair : Binding → Action (Unit {0})
  unfolding set_unit
  bind_pair binding w = (
    ok tt,
    record w {
      side = record w.side { authorized_pairs = w.side.authorized_pairs ++ binding ∷ [] };
      unit = record w.unit {
        members = λ name. record (w.unit.members name) {
          entry = record (w.unit.members name).entry { pair_authorization = some binding };
        };
      };
    },
  )

  abbrev pub authorize_pair : Option (Option Binding) → Action (Unit {0})
  authorize_pair none = pure tt
  authorize_pair (some none) = stop Stop.failed
  authorize_pair (some (some binding)) = λ w. bind_pair binding w

  unfoldable pub pair_unit : Action (Unit {0})
  unfolding set_unit fail bind_pair verify_pair
  pair_unit w =
      when (not (is_failed w.unit.status))
        (do
          start_phase Phase.pair_authorization
          if all (λ name. (entry_in w.unit name).skipped) w.unit.frameworks
              then set_unit (λ u. record u { status = skipped; phase = Phase.complete })
              else (attempt
                  (do
                    demand (not (any (λ name. (entry_in w.unit name).skipped) w.unit.frameworks))
                    authorize_pair (pair_of w.unit w.unit.frameworks))
                  (fail Phase.pair_authorization none)))
        w

  unfoldable pub trust_one : String → Action (Unit {0})
  unfolding call log set_entry
  trust_one name = do
    entry ← entry_of name
    digest ← given entry.digest
    call (λ w. D.verify_promotion w name digest)
    log (trusted name digest)
    set_entry name mark_trusted

  unfoldable pub trust_unit : Action (Unit {0})
  unfolding set_unit guarded trust_one save
  trust_unit w =
      when (is_pending w.unit.status)
        (do
          start_phase Phase.trust
          while_ok w.unit.frameworks (λ name. guarded Phase.trust name (trust_one name))
          save)
        w

  unfoldable pub scan_one : String → Action (Unit {0})
  unfolding call log set_entry
  scan_one name = do
    entry ← entry_of name
    digest ← given entry.digest
    passes ← call (λ w. D.scan_passes w name digest)
    log (scanned name digest passes)
    demand passes
    set_entry name mark_scanned

  abbrev pub authorized_unit : UnitResult → UnitResult
  authorized_unit u =
      if is_failed u.status
      then u
      else record u { status = authorized; phase = Phase.prewrite_authorized; prewrite = true }

  unfoldable pub scan_unit : Action (Unit {0})
  unfolding set_unit guarded scan_one save
  scan_unit w =
      when (is_pending w.unit.status)
        (do
          start_phase Phase.scan
          while_ok w.unit.frameworks (λ name. guarded Phase.scan name (scan_one name))
          set_unit authorized_unit
          save)
        w
