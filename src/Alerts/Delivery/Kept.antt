-- ===== src/Alerts/Delivery/Kept.antt =====
-- What a delivery keeps, whatever the destination answers.
use alric_containers_image_b.Base.{
  ℕ, zero, suc, ◌+◌, ◌-◌, String, Bool, true, false, Option, none, some, List, [], ◌∷◌, ◌++◌,
  Result, ok, err, if◌then◌else◌,
}
use alric_containers_image_b.Base.Act.{pure, ◌>>◌}
use alric_containers_image_b.Base.Act.Triples.{bind, Keeps}
use alric_containers_image_b.Alerts.Data.{
  Event, Record, Failure, Class, classify, Step, delivery_attempted, delivered, lookup, Dict,
  Adapter, Settings,
}
use alric_containers_image_b.Alerts.Delivery.{
  Cycle, Round, finished, again, item, add, retry_or_end, found_there, reconcile, reread,
  after_failure, go_on, wait, answered, round, sleep, attempts, deliver_one,
}

module _ (A : Adapter) where
  -- What the delivery adds to the ledger.
  abbrev pub IsDelivery : Step → Type 0
  IsDelivery (delivery_attempted n status) = Unit
  IsDelivery (delivered reference reconciled) = Unit
  IsDelivery _ = ⊥

  -- A statement about the run that none of the module's own changes breaks.
  pub record Closed (I : Cycle A → Type 0) : Type 0 where
    pub adds :
        (r : Cycle A) (id : String) (step : Step) → IsDelivery step → I r → I (add A id step r).1
    pub sleeps : (r : Cycle A) (slept : List ℕ) → I r → I (record r { slept = slept })
    pub reads : (r : Cycle A) → I r → I (record r { world = (A.open_alerts r.world).1 })

  module _ (I : Cycle A → Type 0) (closed : Closed I) where
    Keeps-add : (id : String) (step : Step) → IsDelivery step → Keeps I (add A id step)
    unfolding add
    Keeps-add id step d = record { run = λ r h. closed.adds r id step d h }

    pub Keeps-sleep : (settings : Settings) (n : ℕ) → Keeps I (sleep A settings n)
    unfolding sleep
    Keeps-sleep settings n = go (item settings.backoff_seconds (n - 1))
      where
        go : (o : Option ℕ) → Keeps I (wait A o)
        go none = record { run = λ r h. h }
        go (some s) = record { run = λ r h. closed.sleeps r (r.slept ++ s ∷ []) h }

    Keeps-found_there :
        (e : Event) (c : Class) (last : Bool) (o : Option Record)
        → Keeps I (found_there A e c last o)
    unfolding found_there
    Keeps-found_there e c last none = record { run = λ r h. h }
    Keeps-found_there e c last (some alert) =
        bind (Keeps-add e.event_id (delivered alert.reference true) tt)
          λ u. record { run = λ r h. h }

    Keeps-reread : (e : Event) (c : Class) (last : Bool) → Keeps I (reread A e c last)
    unfolding reread reconcile
    Keeps-reread e c last = record {
      run = λ r h.
          (go (A.open_alerts r.world).0).run (record r { world = (A.open_alerts r.world).1 })
            (closed.reads r h);
    }
      where
        go : (a : Result Failure (Dict Record)) → Keeps I (reconcile A e c last a)
        go (ok alerts) = Keeps-found_there e c last (lookup e.event_id alerts)
        go (err f) = record { run = λ r h. h }

    Keeps-after_failure :
        (e : Event) (existing : Option Record) (c : Class) (last : Bool)
        → Keeps I (after_failure A e existing c last)
    unfolding after_failure
    Keeps-after_failure e (some known) c last = record { run = λ r h. h }
    Keeps-after_failure e none c last = go c.ambiguous
      where
        go : (b : Bool) → Keeps I (if b then reread A e c last else pure (retry_or_end A c last))
        go true = Keeps-reread e c last
        go false = record { run = λ r h. h }

    Keeps-answered :
        (e : Event) (existing : Option Record) (n : ℕ) (last : Bool) (a : Result Failure Record)
        → Keeps I (answered A e existing n last a)
    unfolding answered
    Keeps-answered e existing n last (ok alert) =
        bind (Keeps-add e.event_id _ tt)
          λ u. bind (Keeps-add e.event_id _ tt) λ u. record { run = λ r h. h }
    Keeps-answered e existing n last (err f) =
        bind (Keeps-add e.event_id _ tt) λ u. Keeps-after_failure e existing (classify f) last

    module _ (e : Event) (existing : Option Record)
        (delivers : (r : Cycle A)
          → I r
          → I (record r { world = (A.deliver r.world e existing).1 })) where
      Keeps-round : (n : ℕ) (last : Bool) → Keeps I (round A e existing n last)
      unfolding round
      Keeps-round n last = record {
        run = λ r h.
            (Keeps-answered e existing n last (A.deliver r.world e existing).0).run
              (record r { world = (A.deliver r.world e existing).1 }) (delivers r h);
      }

      Keeps-attempts :
          (settings : Settings) (n left : ℕ) → Keeps I (attempts A e existing settings n left)
      unfolding attempts
      Keeps-attempts settings n zero = record { run = λ r h. h }
      Keeps-attempts settings n (suc left) =
          bind (Keeps-round n _) (next (Keeps-attempts settings (n + 1) left))
        where
          next :
              Keeps I (attempts A e existing settings (n + 1) left)
              → (o : Round)
              → Keeps I
                  (go_on A (sleep A settings n >> attempts A e existing settings (n + 1) left) o)
          next later (finished alert) = record { run = λ r h. h }
          next later again = bind (Keeps-sleep settings n) (λ u. later)

      -- A statement that no call of a delivery breaks.
      pub Keeps-deliver_one : (settings : Settings) → Keeps I (deliver_one A e existing settings)
      unfolding deliver_one
      Keeps-deliver_one settings = Keeps-attempts settings 1 settings.max_attempts

  abbrev pub InWorld : (A.World → Type 0) → Cycle A → Type 0
  InWorld P run = P run.world

  pub InWorld-Closed :
      (P : A.World → Type 0) → ((w : A.World) → P w → P (A.open_alerts w).1) → Closed (InWorld P)
  unfolding add
  InWorld-Closed P reads = record {
    adds = λ r id step d h. h;
    sleeps = λ r slept h. h;
    reads = λ r. reads r.world;
  }
