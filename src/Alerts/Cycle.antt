-- ===== src/Alerts/Cycle.antt =====
-- `run_cycle` of alert_delivery.py: deliveries, acknowledgements and resolutions of one run.
pub mod Genuine
pub mod Open
use alric_containers_image_b.Base.{
  ℕ, String, Bool, true, false, Option, none, some, List, [], ◌∷◌, ◌++◌, Result, ok, err, is_some,
  if◌then◌else◌,
}
use alric_containers_image_b.Base.Act.{Stop, Act, pure, for_each, ◌>>=◌, ◌>>◌}
use alric_containers_image_b.Alerts.Data.{
  Event, Record, Ack, Failure, failed_reconcile, Step, event_created, delivery_attempted,
  acknowledged, resolved, Entry, Verdict, valid, rejected, verify_ack, Dict, lookup, set_item,
  Adapter, Settings,
}
use alric_containers_image_b.Alerts.Delivery.{
  Rejection, unreadable, refused, resolve_failed, Cycle, add, deliver_one,
}

-- `{event['event_id']: event for event in events}`
abbrev pub routed_of : List Event → Dict Event → Dict Event
routed_of [] found = found
routed_of (e ∷ es) found = routed_of es (set_item e.event_id e found)

abbrev pub recorded : String → Option Record → Dict Record → Dict Record
recorded id none records = records
recorded id (some alert) records = set_item id alert records

module _ (A : Adapter) (is_before : String → String → Option Bool) (settings : Settings)
    (acknowledgers automation_actors : List String) where
  abbrev pub reject : Rejection → Act (Cycle A) (Unit {0})
  reject r run = (ok tt, record run { rejections = run.rejections ++ r ∷ [] })

  unfoldable pub announce : Event → Act (Cycle A) (Unit {0})
  unfolding add
  announce e = add A e.event_id (event_created e.occurrence_id e.severity e.test)

  -- The loop of deliveries; the records are the known ones with what was delivered.
  unfoldable pub deliver_all : Dict Event → Dict Record → Dict Record → Act (Cycle A) (Dict Record)
  unfolding deliver_one
  deliver_all [] known records = pure records
  deliver_all ((id, e) ∷ rest) known records =
      deliver_one A e (lookup id known) settings >>= λ alert.
      deliver_all rest known (recorded id alert records)

  abbrev pub judged : String → Ack → Verdict → Act (Cycle A) (Unit {0}) → Act (Cycle A) (Unit {0})
  judged id ack (rejected reason) others = reject (refused id ack.actor reason) >> others
  judged id ack valid others = λ run. add A id (acknowledged ack.actor ack.at ack.reference) run

  -- The first acknowledgement that is valid counts.
  unfoldable pub first_valid : String → Record → List Ack → Act (Cycle A) (Unit {0})
  unfolding add
  first_valid id alert [] = pure tt
  first_valid id alert (ack ∷ acks) =
      judged id ack (verify_ack is_before ack alert acknowledgers automation_actors)
        (first_valid id alert acks)

  abbrev pub read_acks : String → Record → Result Failure (List Ack) → Act (Cycle A) (Unit {0})
  read_acks id alert (err f) = reject (unreadable id f)
  read_acks id alert (ok acks) = first_valid id alert acks

  unfoldable pub acknowledge : String × Record → Act (Cycle A) (Unit {0})
  unfolding first_valid
  acknowledge (id, alert) run =
      read_acks id alert (A.acknowledgements run.world alert).0
        (record run { world = (A.acknowledgements run.world alert).1 })

  abbrev pub closed : String → Record → Result Failure (Unit {0}) → Act (Cycle A) (Unit {0})
  closed id alert (err f) = reject (resolve_failed id f)
  closed id alert (ok u) = λ run. add A id (resolved alert.reference) run

  unfoldable pub close : String → Record → Act (Cycle A) (Unit {0})
  unfolding add
  close id alert run =
      closed id alert (A.resolve run.world alert).0
        (record run { world = (A.resolve run.world alert).1 })

  unfoldable pub resolve_one : Dict Event → String × Record → Act (Cycle A) (Unit {0})
  unfolding close
  resolve_one routed (id, alert) = if is_some (lookup id routed) then pure tt else close id alert

  -- Without the destination's view no write is made.
  unfoldable pub not_reconciled : String × Event → Act (Cycle A) (Unit {0})
  unfolding add
  not_reconciled (id, e) = add A id (delivery_attempted 0 failed_reconcile)

  unfoldable pub with_view : Dict Event → Result Failure (Dict Record) → Act (Cycle A) (Dict Record)
  unfolding deliver_all acknowledge resolve_one not_reconciled
  with_view routed (err f) = do for_each routed not_reconciled; pure []
  with_view routed (ok known) = do
    records ← deliver_all routed known known
    for_each records acknowledge
    for_each known (resolve_one routed)
    pure known

  unfoldable pub look : List Event → Act (Cycle A) (Dict Record)
  unfolding with_view
  look events run =
      with_view (routed_of events []) (A.open_alerts run.world).0
        (record run { world = (A.open_alerts run.world).1 })

  -- `run_cycle` up to its report: what the destination was known to hold, and the run.
  unfoldable pub run_cycle : List Event → Act (Cycle A) (Dict Record)
  unfolding announce look
  run_cycle events = do for_each events announce; look events

  abbrev pub fresh : A.World → Cycle A
  fresh w = record { world = w; ledger = []; slept = []; rejections = [] }
