-- ===== src/Alerts/Report.antt =====
-- `report` and `not_configured` of scripts/pipeline/operations/alert_delivery.py.
pub mod Proven
use alric_containers_image_b.Base.{
  ℕ, String, Bool, true, false, ◌&&◌, not, Option, none, some, List, [], ◌∷◌, ◌++◌, map, Result, ok,
  err, any, keep, str_eq, is_some,
}
use alric_containers_image_b.EvidenceStore.Content.{sorted_set}
use alric_containers_image_b.Alerts.Data.{
  Event, Record, AttemptStatus, Step, event_created, delivery_attempted, delivered, acknowledged,
  resolved, Entry, Dict, lookup, Adapter, Settings,
}
use alric_containers_image_b.Alerts.Delivery.{Cycle}
use alric_containers_image_b.Alerts.Cycle.{routed_of, run_cycle, fresh}

pub data DeliveryStatus : Type 0 where
  delivered_now already_delivered not_attempted not_configured_yet : DeliveryStatus
  last_status : AttemptStatus → DeliveryStatus

-- By whom, when, and where it can be verified; none is NOT_PROVEN.
pub record Acknowledgement : Type 0 where
  pub by : Option String
  pub at : String
  pub reference : String

pub record Summary : Type 0 where
  pub delivery : DeliveryStatus
  pub last_attempt : Option AttemptStatus
  pub acknowledgement : Option Acknowledgement
  pub resolved : Bool
  pub resolved_without_ack : Bool

abbrev pub is_delivered : Entry → Bool
is_delivered entry = elim entry.step [
  | event_created o s t ↦ false
  | delivery_attempted n s ↦ false
  | delivered r c ↦ true
  | acknowledged b a r ↦ false
  | resolved r ↦ false
]

abbrev pub is_resolved : Entry → Bool
is_resolved entry = elim entry.step [
  | event_created o s t ↦ false
  | delivery_attempted n s ↦ false
  | delivered r c ↦ false
  | acknowledged b a r ↦ false
  | resolved r ↦ true
]

-- `attempts[-1]`
abbrev pub last_attempt_of : Option AttemptStatus → List Entry → Option AttemptStatus
last_attempt_of found [] = found
last_attempt_of found (entry ∷ rest) = last_attempt_of (newer entry.step) rest
  where
    newer : Step → Option AttemptStatus
    newer (delivery_attempted n status) = some status
    newer _ = found

abbrev pub acknowledgement_in : Step → Option Acknowledgement
acknowledgement_in (acknowledged by at reference) =
    some (record { by = by; at = at; reference = reference })
acknowledgement_in _ = none

abbrev pub or_else_first : Option Acknowledgement → Option Acknowledgement → Option Acknowledgement
or_else_first (some a) later = some a
or_else_first none later = later

-- The first acknowledged entry.
abbrev pub ack_of : List Entry → Option Acknowledgement
ack_of [] = none
ack_of (entry ∷ rest) = or_else_first (acknowledgement_in entry.step) (ack_of rest)

abbrev pub delivery_of : Bool → Bool → Option AttemptStatus → DeliveryStatus
delivery_of true known last = delivered_now
delivery_of false true last = already_delivered
delivery_of false false none = not_attempted
delivery_of false false (some status) = last_status status

abbrev pub entries_of : String → List Entry → List Entry
entries_of id ledger = keep (λ entry. str_eq entry.event_id id) ledger

abbrev pub summary_of : Bool → List Entry → Summary
summary_of known entries = record {
  delivery = delivery_of (any is_delivered entries) known (last_attempt_of none entries);
  last_attempt = last_attempt_of none entries;
  acknowledgement = ack_of entries;
  resolved = any is_resolved entries;
  resolved_without_ack = any is_resolved entries && not (is_some (ack_of entries));
}

abbrev pub keys_of : {A : Type 0} → Dict A → List String
keys_of d = map (λ entry. entry.0) d

-- The summary that `report` returns; the ledger and the rejections stand in the run.
unfoldable pub report : Dict Event → Dict Record → List Entry → Dict Summary
report routed known ledger =
    map (λ id. (id, summary_of (is_some (lookup id known)) (entries_of id ledger)))
      (sorted_set (keys_of routed ++ keys_of known))

abbrev pub no_summary : Summary
no_summary = record {
  delivery = not_configured_yet;
  last_attempt = none;
  acknowledgement = none;
  resolved = false;
  resolved_without_ack = false;
}

-- `not_configured`: its summary and its ledger.
unfoldable pub not_configured : List Event → Dict Summary × List Entry
not_configured events = (
  map (λ e. (e.event_id, no_summary)) events,
  map
      (λ e. record {
        event_id = e.event_id;
        step = event_created e.occurrence_id e.severity e.test;
      })
      events,
)

module _ (A : Adapter) (is_before : String → String → Option Bool) (settings : Settings)
    (acknowledgers automation_actors : List String) where
  abbrev known_of : {E : Type 0} → Result E (Dict Record) → Dict Record
  known_of (ok known) = known
  known_of (err f) = []

  -- What `run_cycle` reports.
  unfoldable pub cycle_report : List Event → A.World → Dict Summary
  unfolding report run_cycle
  cycle_report events w =
      let (known, run) =
        run_cycle A is_before settings acknowledgers automation_actors events
          (fresh A is_before settings acknowledgers automation_actors w) in
      report (routed_of events []) (known_of known) run.ledger
