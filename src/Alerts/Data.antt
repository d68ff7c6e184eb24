-- ===== src/Alerts/Data.antt =====
-- The events, the records at the destination and the ledger of alert_delivery.py, and the adapter as
-- an interface. The times of ledger entries and the texts of errors are not kept.
use alric_containers_image_b.Base.{
  ℕ, String, Bool, true, false, not, ◌||◌, Option, none, some, List, [], ◌∷◌, Result, str_eq, elem,
  leb, ◌==◌, if◌then◌else◌,
}

-- Of an event, what this module reads.
pub record Event : Type 0 where
  pub event_id : String
  pub occurrence_id : String
  pub severity : String
  pub test : Bool

-- An alert that the destination holds.
pub record Record : Type 0 where
  pub event_id : String
  pub reference : String
  pub number : ℕ
  pub delivered_at : String

pub record Ack : Type 0 where
  pub actor : Option String
  pub actor_type : Option String
  pub at : String
  pub reference : String

-- The exceptions of the adapter: TransportTimeout, TransportError, HttpError and any other.
pub data Failure : Type 0 where
  transport_timeout : Failure
  transport_error : Bool → Failure
  http_error : ℕ → Failure
  other_error : Failure

pub data AttemptStatus : Type 0 where
  accepted failed_timeout failed_transport failed_auth : AttemptStatus
  failed_http failed_adapter failed_reconcile : AttemptStatus

pub record Class : Type 0 where
  pub status : AttemptStatus
  pub retryable : Bool
  pub ambiguous : Bool

-- `classify`; an ambiguous failure may have reached the destination.
abbrev pub classify : Failure → Class
classify transport_timeout = record { status = failed_timeout; retryable = true; ambiguous = true }
classify (transport_error sent) = record {
  status = failed_transport;
  retryable = true;
  ambiguous = sent;
}
classify (http_error status) =
    if status == 401 || status == 403
    then record { status = failed_auth; retryable = false; ambiguous = false }
    else if status == 408 || status == 429
    then record { status = failed_http; retryable = true; ambiguous = false }
    else if leb 500 status
    then record { status = failed_http; retryable = true; ambiguous = true }
    else record { status = failed_http; retryable = false; ambiguous = false }
classify other_error = record { status = failed_adapter; retryable = false; ambiguous = true }

-- The entries of the ledger, each with its state.
pub data Step : Type 0 where
  event_created : String → String → Bool → Step
  delivery_attempted : ℕ → AttemptStatus → Step
  delivered : String → Bool → Step
  acknowledged : Option String → String → String → Step
  resolved : String → Step

pub record Entry : Type 0 where
  pub event_id : String
  pub step : Step

-- Why an acknowledgement counts for nothing.
pub data Reason : Type 0 where
  not_human not_authorized no_reference before_delivery unreadable_time : Reason

pub data Verdict : Type 0 where
  valid : Verdict
  rejected : Reason → Verdict

abbrev pub is_user : Option String → Bool
is_user none = false
is_user (some t) = str_eq t "User"

abbrev pub among : Option String → List String → Bool
among none xs = false
among (some x) xs = elem x xs

-- `moment(ack.at) < moment(record.delivered_at)` is a parameter: none is that it raises.
abbrev pub timely : Option Bool → Verdict
timely none = rejected unreadable_time
timely (some true) = rejected before_delivery
timely (some false) = valid

module _ (is_before : String → String → Option Bool) where
  -- `verify_ack`
  unfoldable pub verify_ack : Ack → Record → List String → List String → Verdict
  verify_ack ack alert acknowledgers automation_actors =
      if not (is_user ack.actor_type) || among ack.actor automation_actors
      then rejected not_human
      else if not (among ack.actor acknowledgers)
      then rejected not_authorized
      else if str_eq ack.reference ""
      then rejected no_reference
      else timely (is_before ack.at alert.delivered_at)

-- Python dictionaries keyed by the event.
abbrev pub Dict : Type 0 → Type 0
Dict A = List (String × A)

abbrev pub lookup : {A : Type 0} → String → Dict A → Option A
lookup key [] = none
lookup key ((k, a) ∷ rest) = if str_eq key k then some a else lookup key rest

-- `d[key] = value`: in its place, or at the end.
abbrev pub set_item : {A : Type 0} → String → A → Dict A → Dict A
set_item key a [] = (key, a) ∷ []
set_item key a ((k, b) ∷ rest) =
    if str_eq key k then (k, a) ∷ rest else (k, b) ∷ set_item key a rest

-- The destination: each call returns or raises, and may have changed it in both cases.
pub record Adapter : Type 1 where
  pub World : Type 0
  pub deliver : World → Event → Option Record → Result Failure Record × World
  pub open_alerts : World → Result Failure (Dict Record) × World
  pub acknowledgements : World → Record → Result Failure (List Ack) × World
  pub resolve : World → Record → Result Failure (Unit {0}) × World

-- What the delivery reads of the policy; `load_policy` requires `IsValid` of it.
pub record Settings : Type 0 where
  pub max_attempts : ℕ
  pub backoff_seconds : List ℕ
