-- ===== src/Alerts/Tests.antt =====
-- Runs against a destination in memory, whose first answers may be failures.
use alric_containers_image_b.Base.{
  ℕ, ◌≤◌, String, ◌≡◌, ◌≢◌, refl, ap, Bool, true, false, Option, none, some, List, [], ◌∷◌, Result,
  ok, err, inl, inr, eq_iff, arith, leb, if◌then◌else◌,
}
use alric_containers_image_b.Base.Act.{for_each, ◌>>=◌}
use alric_containers_image_b.Alerts.Data.{
  Event, Record, Ack, Failure, transport_timeout, transport_error, http_error, other_error,
  failed_timeout, event_created, delivery_attempted, delivered, acknowledged, Entry, verify_ack,
  Dict, lookup, set_item, Adapter, Settings,
}
use alric_containers_image_b.Alerts.Delivery.{
  Cycle, add, deliver_one, attempts, round, answered, after_failure, reread, reconcile, found_there,
  sleep,
}
use alric_containers_image_b.Alerts.Delivery.Once.{Counts, Unprocessed}
use alric_containers_image_b.Alerts.Cycle.{
  announce, deliver_all, first_valid, acknowledge, close, resolve_one, not_reconciled, with_view,
  look, run_cycle, fresh,
}
use alric_containers_image_b.Alerts.Cycle.Genuine.{Genuine, run_cycle-Genuine}
use alric_containers_image_b.Alerts.Cycle.Open.{run_cycle-Single}
use alric_containers_image_b.EvidenceStore.Content.{sorted_set}
use alric_containers_image_b.Alerts.Report.{Summary, delivered_now, report, cycle_report}
use alric_containers_image_b.Alerts.Report.Proven.{cycle_report-IsHuman}

-- The open alerts, and the failures of the next creations.
abbrev World : Type 0
World = Dict Record × List Failure

abbrev lands : Failure → Bool
lands transport_timeout = true
lands (transport_error sent) = sent
lands (http_error status) = leb 500 status
lands other_error = true

abbrev record_of : Event → Record
record_of e = record { event_id = e.event_id; reference = "issue"; number = 1; delivered_at = "t1" }

abbrev opened : Event → Dict Record → Dict Record
opened e d = set_item e.event_id (record_of e) d

abbrev create : World → Event → Result Failure Record × World
create (d, []) e = (ok (record_of e), (opened e d, []))
create (d, f ∷ fs) e = (err f, (if lands f then opened e d else d, fs))

abbrev deliver_to : World → Event → Option Record → Result Failure Record × World
deliver_to w e none = create w e
deliver_to w e (some known) = (ok known, w)

abbrev ana : Ack
ana = record { actor = some "ana"; actor_type = some "User"; at = "t2"; reference = "issue#1" }

abbrev issues : Adapter
issues = record {
  World = World;
  deliver = deliver_to;
  open_alerts = λ w. (ok w.0, w);
  acknowledgements = λ w known. (ok (ana ∷ []), w);
  resolve = λ w known. (ok tt, w);
}

abbrev present : Option Record → ℕ
present none = 0
present (some r) = 1

abbrev count : World → String → ℕ
count w id = present (lookup id w.0)

present-le : (o : Option Record) → present o ≤ 1
present-le none = ground arith
present-le (some r) = ground arith

lookup-set_item :
    (id key : String) (r : Record) (d : Dict Record)
    → id ≢ key
    → lookup id (set_item key r d) ≡ lookup id d
lookup-set_item id key r [] other = ground (arith, eq_iff id key, other)
lookup-set_item id key r ((k, s) ∷ d) other =
    ground
      (arith, eq_iff id key, eq_iff id k, eq_iff key k, other, lookup-set_item id key r d other)

create-other :
    (w : World) (e : Event) (id : String) → id ≢ e.event_id → count (create w e).1 id ≡ count w id
create-other (d, []) e id other = ap present (lookup-set_item id e.event_id (record_of e) d other)
create-other (d, f ∷ fs) e id other = go (lands f)
  where
    go : (b : Bool) → present (lookup id (if b then opened e d else d)) ≡ present (lookup id d)
    go true = ap present (lookup-set_item id e.event_id (record_of e) d other)
    go false = refl

lands-false : (f : Failure) → Unprocessed f → lands f ≡ false
lands-false transport_timeout u = absurd u
lands-false (transport_error true) u = absurd u
lands-false (transport_error false) u = refl
lands-false (http_error status) u = ground arith
lands-false other_error u = absurd u

create-none :
    (w : World) (e : Event) (f : Failure)
    → (create w e).0 ≡ err f
    → Unprocessed f
    → count (create w e).1 e.event_id ≡ count w e.event_id
create-none (d, []) e f h u = absurd (ground arith)
create-none (d, g ∷ fs) e f h u = ground (arith, lands-false f u)

issues-Counts : Counts issues count
issues-Counts = record {
  create = λ w e. ground (arith, present-le (lookup e.event_id (create w e).1.0));
  create-Unprocessed = create-none;
  create_others = create-other;
  repeat = λ w e known id. refl;
  read = λ w id. refl;
  read-none = λ w alerts id q missing. ground (arith, q, missing);
  acks = λ w known id. refl;
  close = λ w known id. ground arith;
}

abbrev fire : Event
fire = record { event_id = "fire"; occurrence_id = "1-1"; severity = "high"; test = false }

abbrev settings : Settings
settings = record { max_attempts = 3; backoff_seconds = 2 ∷ 8 ∷ [] }

abbrev later : String → String → Option Bool
later a b = some false

-- The creation timed out and had landed: it is found, and acknowledged.
abbrev timed_out : World
timed_out = ([], transport_timeout ∷ [])

abbrev the_run : Cycle issues
the_run =
    (run_cycle issues later settings ("ana" ∷ []) ("bot" ∷ []) (fire ∷ [])
      (fresh issues later settings ("ana" ∷ []) ("bot" ∷ []) timed_out)).1

abbrev ana_acted : Entry
ana_acted = record { event_id = "fire"; step = acknowledged (some "ana") "t2" "issue#1" }

reconciles :
    the_run.ledger
    ≡ record { event_id = "fire"; step = event_created "1-1" "high" false }
      ∷ record { event_id = "fire"; step = delivery_attempted 1 failed_timeout }
      ∷ record { event_id = "fire"; step = delivered "issue" true }
      ∷ ana_acted
      ∷ []
unfolding run_cycle announce look with_view deliver_all deliver_one attempts round answered
    after_failure reread reconcile found_there sleep acknowledge first_valid verify_ack resolve_one
    close not_reconciled add for_each ◌>>=◌
reconciles = refl

run_cycle-Genuine_example :
    Genuine later ("ana" ∷ []) ("bot" ∷ []) issues timed_out "fire" (some "ana") "t2" "issue#1"
unfolding run_cycle announce look with_view deliver_all deliver_one attempts round answered
    after_failure reread reconcile found_there sleep acknowledge first_valid verify_ack resolve_one
    close not_reconciled add for_each ◌>>=◌
run_cycle-Genuine_example =
    run_cycle-Genuine later ("ana" ∷ []) ("bot" ∷ []) issues timed_out settings (fire ∷ [])
      ana_acted (some "ana") "t2" "issue#1" (inr (inr (inr (inl refl)))) refl

run_cycle-Single_example : count the_run.world "fire" ≤ 1
run_cycle-Single_example =
    run_cycle-Single issues count issues-Counts later settings ("ana" ∷ []) ("bot" ∷ []) (fire ∷ [])
      timed_out (λ id. ground arith) "fire"

abbrev fire_summary : Summary
fire_summary = record {
  delivery = delivered_now;
  last_attempt = some failed_timeout;
  acknowledgement = some (record { by = some "ana"; at = "t2"; reference = "issue#1" });
  resolved = false;
  resolved_without_ack = false;
}

cycle_report-IsHuman_example :
    Genuine later ("ana" ∷ []) ("bot" ∷ []) issues timed_out "fire" (some "ana") "t2" "issue#1"
unfolding run_cycle announce look with_view deliver_all deliver_one attempts round answered
    after_failure reread reconcile found_there sleep acknowledge first_valid verify_ack resolve_one
    close not_reconciled add for_each ◌>>=◌ cycle_report report sorted_set
cycle_report-IsHuman_example =
    cycle_report-IsHuman issues later settings ("ana" ∷ []) ("bot" ∷ []) (fire ∷ []) timed_out
      "fire" fire_summary (record { by = some "ana"; at = "t2"; reference = "issue#1" }) (inl refl)
      refl
