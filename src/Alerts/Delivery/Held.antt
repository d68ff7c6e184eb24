-- ===== src/Alerts/Delivery/Held.antt =====
-- Where the record that a delivery gives comes from.
use alric_containers_image_b.Base.{
  ℕ, zero, suc, ◌+◌, String, ◌≡◌, refl, Bool, true, false, not, ◌||◌, ◌⊎◌, inl, inr, Option, none,
  some, [], ◌∷◌, Result, ok, err, In, str_eq, eq_iff, arith, if◌then◌else◌,
}
use alric_containers_image_b.Base.Act.{pure, ◌>>◌}
use alric_containers_image_b.Base.Act.Triples.{Triple, Keeps, bind}
use alric_containers_image_b.Alerts.Data.{
  Event, Record, Failure, Class, classify, lookup, Dict, Adapter, Settings,
}
use alric_containers_image_b.Alerts.Delivery.{
  Cycle, Round, finished, again, add, retry_or_end, found_there, reconcile, reread, after_failure,
  go_on, answered, round, sleep, attempts, deliver_one,
}
use alric_containers_image_b.Alerts.Delivery.Kept.{Closed, InWorld, InWorld-Closed, Keeps-sleep}

pub lookup-In :
    {B : Type 0} (key : String) (b : B) (d : Dict B) → lookup key d ≡ some b → In (key, b) d
lookup-In key b [] h = absurd (ground arith)
lookup-In key b ((k, c) ∷ rest) h = go (str_eq key k) refl h (lookup-In key b rest)
  where
    go :
        (x : Bool)
        → str_eq key k ≡ x
        → (if x then some c else lookup key rest) ≡ some b
        → (lookup key rest ≡ some b → In (key, b) rest)
        → In (key, b) ((k, c) ∷ rest)
    go true e q ih = inl (ground (arith, q, e, eq_iff key k))
    go false e q ih = inr (ih q)

module _ (A : Adapter) (w : A.World) where
  -- The destination after calls of the adapter, from where it started.
  pub data Reached : A.World → Type 0 where
    begins : Reached w
    after_open_alerts : (v : A.World) → Reached v → Reached (A.open_alerts v).1
    after_deliver :
        (v : A.World) (e : Event) (existing : Option Record)
        → Reached v
        → Reached (A.deliver v e existing).1
    after_acknowledgements :
        (v : A.World) (alert : Record) → Reached v → Reached (A.acknowledgements v alert).1
    after_resolve : (v : A.World) (alert : Record) → Reached v → Reached (A.resolve v alert).1

  -- The destination listed the record under the event.
  pub record IsListed (id : String) (alert : Record) : Type 0 where
    pub place : A.World
    pub reached : Reached place
    pub alerts : Dict Record
    pub listed : (A.open_alerts place).0 ≡ ok alerts
    pub among_them : In (id, alert) alerts

  -- The destination gave the record for a delivery of the event.
  pub record IsAnswered (id : String) (alert : Record) : Type 0 where
    pub place : A.World
    pub reached : Reached place
    pub event : Event
    pub existing : Option Record
    pub of_event : event.event_id ≡ id
    pub given : (A.deliver place event existing).0 ≡ ok alert

  abbrev pub Held : String → Record → Type 0
  Held id alert = IsListed id alert ⊎ IsAnswered id alert

  abbrev pub HeldIfAny : String → Option Record → Type 0
  HeldIfAny id none = Unit
  HeldIfAny id (some alert) = Held id alert

  abbrev pub There : Cycle A → Type 0
  There = InWorld A Reached

  abbrev HeldRound : String → Round → Type 0
  HeldRound id again = Unit
  HeldRound id (finished o) = HeldIfAny id o

  -- An end with a record that is held.
  abbrev Gives : String → Round → Cycle A → Type 0
  Gives id o r = There r × HeldRound id o

  pub There-Closed : Closed A There
  There-Closed = InWorld-Closed A Reached (λ v h. after_open_alerts v h)

  Keeps-add : (id : String) (step : _) → Keeps There (add A id step)
  unfolding add
  Keeps-add id step = record { run = λ r h. h }

  retry_or_end-Held : (id : String) (c : Class) (last : Bool) → HeldRound id (retry_or_end A c last)
  retry_or_end-Held id c last = go (not c.retryable || last)
    where
      go : (b : Bool) → HeldRound id (if b then finished none else again)
      go true = tt
      go false = tt

  module _ (e : Event) where
    Held-found_there :
        (c : Class) (last : Bool) (o : Option Record)
        → HeldIfAny e.event_id o
        → Triple There (found_there A e c last o) (Gives e.event_id) There
    unfolding found_there
    Held-found_there c last none k = record {
      run = λ r h. (h, retry_or_end-Held e.event_id c last);
    }
    Held-found_there c last (some alert) k =
        bind (Keeps-add e.event_id _) λ u. record { run = λ r h. (h, k) }

    Held-reread :
        (c : Class) (last : Bool) → Triple There (reread A e c last) (Gives e.event_id) There
    unfolding reread reconcile
    Held-reread c last = record {
      run = λ r h.
          (go (A.open_alerts r.world).0 (λ d q alert m. inl (record {
            place = r.world;
            reached = h;
            alerts = d;
            listed = q;
            among_them = m;
          }))).run
            (record r { world = (A.open_alerts r.world).1 }) (after_open_alerts r.world h);
    }
      where
        found :
            (d : Dict Record)
            → ((alert : Record) → In (e.event_id, alert) d → Held e.event_id alert)
            → (o : Option Record) → lookup e.event_id d ≡ o
            → HeldIfAny e.event_id o
        found d k none q = tt
        found d k (some alert) q = k alert (lookup-In e.event_id alert d q)

        go :
            (a : Result Failure (Dict Record))
            → ((d : Dict Record)
                → a ≡ ok d
                → (alert : Record) → In (e.event_id, alert) d
                → Held e.event_id alert)
            → Triple There (reconcile A e c last a) (Gives e.event_id) There
        go (ok alerts) k =
            Held-found_there c last (lookup e.event_id alerts)
              (found alerts (k alerts refl) (lookup e.event_id alerts) refl)
        go (err f) k = record { run = λ r h. (h, tt) }

    Held-after_failure :
        (existing : Option Record) (c : Class) (last : Bool)
        → HeldIfAny e.event_id existing
        → Triple There (after_failure A e existing c last) (Gives e.event_id) There
    unfolding after_failure
    Held-after_failure (some known) c last k = record { run = λ r h. (h, k) }
    Held-after_failure none c last k = go c.ambiguous
      where
        go :
            (b : Bool)
            → Triple There
                (if b then reread A e c last else pure (retry_or_end A c last))
                (Gives e.event_id)
                There
        go true = Held-reread c last
        go false = record { run = λ r h. (h, retry_or_end-Held e.event_id c last) }

    module _ (existing : Option Record) (k : HeldIfAny e.event_id existing) where
      Held-answered :
          (n : ℕ) (last : Bool) (a : Result Failure Record)
          → ((alert : Record) → a ≡ ok alert → Held e.event_id alert)
          → Triple There (answered A e existing n last a) (Gives e.event_id) There
      unfolding answered
      Held-answered n last (ok alert) from =
          bind (Keeps-add e.event_id _)
            λ u. bind (Keeps-add e.event_id _) λ u. record { run = λ r h. (h, from alert refl) }
      Held-answered n last (err f) from =
          bind (Keeps-add e.event_id _) λ u. Held-after_failure existing (classify f) last k

      Held-round :
          (n : ℕ) (last : Bool) → Triple There (round A e existing n last) (Gives e.event_id) There
      unfolding round
      Held-round n last = record {
        run = λ r h.
            (Held-answered n last (A.deliver r.world e existing).0 (λ alert q. inr (record {
              place = r.world;
              reached = h;
              event = e;
              existing = existing;
              of_event = refl;
              given = q;
            }))).run
              (record r { world = (A.deliver r.world e existing).1 })
              (after_deliver r.world e existing h);
      }

      abbrev Ends : Option Record → Cycle A → Type 0
      Ends o r = There r × HeldIfAny e.event_id o

      Held-attempts :
          (settings : Settings) (n left : ℕ)
          → Triple There (attempts A e existing settings n left) Ends There
      unfolding attempts
      Held-attempts settings n zero = record { run = λ r h. (h, tt) }
      Held-attempts settings n (suc left) =
          bind (Held-round n _) (next (Held-attempts settings (n + 1) left))
        where
          next :
              Triple There (attempts A e existing settings (n + 1) left) Ends There
              → (o : Round)
              → Triple
                  (Gives e.event_id o)
                  (go_on A (sleep A settings n >> attempts A e existing settings (n + 1) left) o)
                  Ends
                  There
          next later (finished alert) = record { run = λ r h. h }
          next later again = record {
            run =
                λ r h. (bind (Keeps-sleep A There There-Closed settings n) (λ u. later)).run r h.0;
          }

      -- The record that deliver_one gives is one that the destination gave for the event.
      pub Held-deliver_one :
          (settings : Settings) → Triple There (deliver_one A e existing settings) Ends There
      unfolding deliver_one
      Held-deliver_one settings = Held-attempts settings 1 settings.max_attempts
