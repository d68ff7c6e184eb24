-- ===== src/Alerts/Send.antt =====
-- `deliver` of scripts/pipeline/operations/alert_events.py for an approved destination. The transport
-- and the reading of a receipt from a body are parameters.
pub mod Bounded
pub mod Safe
mod Tests
use alric_containers_image_b.Base.{
  ℕ, suc, zero, ◌+◌, ◌-◌, String, Bool, true, false, not, ◌&&◌, ◌||◌, Option, none, some, List, [],
  ◌∷◌, ltb, leb, ◌==◌, if◌then◌else◌,
}
use alric_containers_image_b.Base.Act.{Stop, Act, pure, stop, ◌>>=◌, ◌>>◌}
use alric_containers_image_b.Alerts.Data.{Event, Settings}
use alric_containers_image_b.Alerts.Delivery.{item}

-- What the transport did: TransportTimeout, TransportError with `sent`, or a response.
pub data Answer : Type 0 where
  timed_out : Answer
  broken : Bool → Answer
  response : ℕ → List ℕ → Answer

pub data Status : Type 0 where
  accepted ambiguous failed_timeout failed_transport failed_auth failed_http : Status
  retry_exhausted : Status

-- What an attempt leaves for the loop: `status`, `retry`, `http_status` and `receipt`.
pub record Attempt : Type 0 where
  pub status : Status
  pub retry : Bool
  pub http_status : Option ℕ
  pub receipt : Option String

pub record Sent : Type 0 where
  pub event_id : String
  pub occurrence_id : String
  pub status : Status
  pub last_failure : Option Status
  pub attempts : ℕ
  pub http_status : Option ℕ
  pub receipt : Option String

abbrev pub accepted_or_ambiguous : Option String → Status
accepted_or_ambiguous none = ambiguous
accepted_or_ambiguous (some r) = accepted

abbrev unless_accepted : Status → Option Status
unless_accepted accepted = none
unless_accepted status = some status

module _ (receipt_of : List ℕ → Option String) (idempotent : Bool) where
  -- The branches on a response.
  abbrev pub of_response : ℕ → List ℕ → Attempt
  of_response code body =
      if leb 200 code && ltb code 300
      then record {
        status = accepted_or_ambiguous (receipt_of body);
        retry = false;
        http_status = some code;
        receipt = receipt_of body;
      }
      else if code == 401 || code == 403
      then record { status = failed_auth; retry = false; http_status = some code; receipt = none }
      else if code == 408 || code == 429
      then record { status = failed_http; retry = true; http_status = some code; receipt = none }
      else if leb 500 code
      then record {
        status = failed_http;
        retry = idempotent;
        http_status = some code;
        receipt = none;
      }
      else record { status = failed_http; retry = false; http_status = some code; receipt = none }

  -- The body of the loop after the call; `http_status` of an earlier attempt stays.
  abbrev pub judge : Option ℕ → Answer → Attempt
  judge http timed_out = record {
    status = failed_timeout;
    retry = idempotent;
    http_status = http;
    receipt = none;
  }
  judge http (broken sent) = record {
    status = failed_transport;
    retry = not sent || idempotent;
    http_status = http;
    receipt = none;
  }
  judge http (response code body) = of_response code body

  module _ {World : Type 0} (transport : World → Event → Answer × World) (settings : Settings) where
    abbrev pub paused : Option ℕ → Act World (Unit {0})
    paused none = stop Stop.killed
    paused (some seconds) = pure tt

    -- `sleep(settings['backoff_seconds'][attempts - 1])`, which may raise IndexError.
    unfoldable pub pause : ℕ → Act World (Unit {0})
    pause attempts = paused (item settings.backoff_seconds (attempts - 1))

    abbrev pub sent : Event → ℕ → Attempt → Sent
    sent e attempts a = record {
      event_id = e.event_id;
      occurrence_id = e.occurrence_id;
      status = if a.retry then retry_exhausted else a.status;
      last_failure = unless_accepted a.status;
      attempts = attempts;
      http_status = a.http_status;
      receipt = a.receipt;
    }

    unfoldable pub call : Event → Option ℕ → Act World Attempt
    call e http w = pure (judge http (transport w e).0) (transport w e).1

    -- What follows an attempt: the end of the loop, or a pause and the rest.
    abbrev pub ended_or : Event → ℕ → Act World Sent → Attempt → Act World Sent
    ended_or e attempts later a =
        if not a.retry || leb settings.max_attempts attempts
        then pure (sent e attempts a)
        else later

    -- The loop, after `done` attempts; it is cut off when the fuel `left` is spent.
    unfoldable pub send_from : Event → ℕ → ℕ → Option ℕ → Act World Sent
    unfolding call pause
    send_from e done zero http = stop Stop.killed
    send_from e done (suc left) http = call e http >>= λ a.
        ended_or e (done + 1) (pause (done + 1) >> send_from e (done + 1) left a.http_status) a

    unfoldable pub send_one : Event → Act World Sent
    unfolding send_from
    send_one e = send_from e 0 settings.max_attempts none

    -- `deliver` with a destination.
    unfoldable pub deliver : List Event → Act World (List Sent)
    unfolding send_one
    deliver [] = pure []
    deliver (e ∷ es) = do first ← send_one e; others ← deliver es; pure (first ∷ others)
