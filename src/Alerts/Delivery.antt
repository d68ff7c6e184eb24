-- ===== src/Alerts/Delivery.antt =====
-- `deliver_one` of alert_delivery.py: attempts, reconciliation with the destination, and the ledger.
pub mod Kept
pub mod Held
pub mod Once
use alric_containers_image_b.Base.{
  ℕ, suc, zero, ◌+◌, ◌-◌, String, Bool, true, false, not, ◌||◌, Option, none, some, List, [], ◌∷◌,
  ◌++◌, Result, ok, err, leb, ◌==◌, if◌then◌else◌,
}
use alric_containers_image_b.Base.Act.{Stop, Act, pure, stop, ◌>>=◌, ◌>>◌}
use alric_containers_image_b.Alerts.Data.{
  Event, Record, Failure, Class, classify, AttemptStatus, accepted, Step, delivery_attempted,
  delivered, Entry, Reason, lookup, Dict, Adapter, Settings,
}

-- An acknowledgement that was rejected, or an error on the way: `rejected_acknowledgements`.
pub data Rejection : Type 0 where
  unreadable : String → Failure → Rejection
  refused : String → Option String → Reason → Rejection
  resolve_failed : String → Failure → Rejection

pub record Cycle (A : Adapter) : Type 0 where
  pub world : A.World
  pub ledger : List Entry
  pub slept : List ℕ
  pub rejections : List Rejection

-- How a round ends.
pub data Round : Type 0 where
  finished : Option Record → Round
  again : Round

-- `xs[n]`
abbrev pub item : List ℕ → ℕ → Option ℕ
item [] n = none
item (x ∷ xs) zero = some x
item (x ∷ xs) (suc n) = item xs n

module _ (A : Adapter) where
  -- `Ledger.add`
  unfoldable pub add : String → Step → Act (Cycle A) (Unit {0})
  add event_id step run = (
    ok tt,
    record run { ledger = run.ledger ++ record { event_id = event_id; step = step } ∷ [] },
  )

  -- No record, unless another attempt may be made.
  abbrev pub retry_or_end : Class → Bool → Round
  retry_or_end c last = if not c.retryable || last then finished none else again

  -- `landed`
  unfoldable pub found_there : Event → Class → Bool → Option Record → Act (Cycle A) Round
  unfolding add
  found_there event c last none = pure (retry_or_end c last)
  found_there event c last (some landed) = do
    add event.event_id (delivered landed.reference true)
    pure (finished (some landed))

  -- The destination was read again after an ambiguous failure.
  unfoldable pub reconcile :
      Event → Class → Bool → Result Failure (Dict Record) → Act (Cycle A) Round
  unfolding found_there
  reconcile event c last (err f) = pure (finished none)
  reconcile event c last (ok alerts) = found_there event c last (lookup event.event_id alerts)

  unfoldable pub reread : Event → Class → Bool → Act (Cycle A) Round
  unfolding reconcile
  reread event c last run =
      reconcile event c last (A.open_alerts run.world).0
        (record run { world = (A.open_alerts run.world).1 })

  -- A failed attempt: an alert that is open already is not updated twice.
  unfoldable pub after_failure : Event → Option Record → Class → Bool → Act (Cycle A) Round
  unfolding reread
  after_failure event (some existing) c last = pure (finished (some existing))
  after_failure event none c last =
      if c.ambiguous then reread event c last else pure (retry_or_end c last)

  unfoldable pub answered :
      Event → Option Record → ℕ → Bool → Result Failure Record → Act (Cycle A) Round
  unfolding add after_failure
  answered event existing attempt last (ok alert) = do
    add event.event_id (delivery_attempted attempt accepted)
    add event.event_id (delivered alert.reference false)
    pure (finished (some alert))
  answered event existing attempt last (err f) = do
    add event.event_id (delivery_attempted attempt (classify f).status)
    after_failure event existing (classify f) last

  -- The body of the loop.
  unfoldable pub round : Event → Option Record → ℕ → Bool → Act (Cycle A) Round
  unfolding answered
  round event existing attempt last run =
      answered event existing attempt last (A.deliver run.world event existing).0
        (record run { world = (A.deliver run.world event existing).1 })

  abbrev pub wait : Option ℕ → Act (Cycle A) (Unit {0})
  wait none run = (err Stop.killed, run)
  wait (some seconds) run = (ok tt, record run { slept = run.slept ++ seconds ∷ [] })

  -- `sleep(settings['backoff_seconds'][attempt - 1])`, whose IndexError nothing here handles.
  unfoldable pub sleep : Settings → ℕ → Act (Cycle A) (Unit {0})
  sleep settings attempt = wait (item settings.backoff_seconds (attempt - 1))

  abbrev pub go_on : Act (Cycle A) (Option Record) → Round → Act (Cycle A) (Option Record)
  go_on later (finished alert) = pure alert
  go_on later again = later

  -- `for attempt in range(attempt, attempt + left)`
  unfoldable pub attempts : Event → Option Record → Settings → ℕ → ℕ → Act (Cycle A) (Option Record)
  unfolding round sleep
  attempts event existing settings attempt zero = pure none
  attempts event existing settings attempt (suc left) =
      let later = attempts event existing settings (attempt + 1) left in
      round event existing attempt (attempt == settings.max_attempts)
      >>= go_on (sleep settings attempt >> later)

  unfoldable pub deliver_one : Event → Option Record → Settings → Act (Cycle A) (Option Record)
  unfolding attempts
  deliver_one event existing settings = attempts event existing settings 1 settings.max_attempts
