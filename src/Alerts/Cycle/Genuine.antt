-- ===== src/Alerts/Cycle/Genuine.antt =====
-- What the acknowledged entries of the ledger stand for.
use alric_containers_image_b.Base.{
  String, ◌≡◌, ◌≢◌, refl, sym, ◌∙◌, Bool, true, false, inl, inr, Option, none, some, List, [], ◌∷◌,
  Result, ok, err, In, In-elem, eq_iff, arith, is_some, if◌then◌else◌,
}
use alric_containers_image_b.Base.Membership.{elem-In, In-append}
use alric_containers_image_b.Base.Act.{pure}
use mathlib.Core.Path.{subst}
use alric_containers_image_b.Base.Act.Triples.{
  Triple, weaken, both, bind, Keeps, Keeps-for_each, Post-any,
}
use alric_containers_image_b.Alerts.Data.{
  Event, Record, Ack, Failure, Step, event_created, delivery_attempted, delivered, acknowledged,
  resolved, Entry, Verdict, valid, rejected, is_user, among, timely, verify_ack, Dict, lookup,
  Adapter, Settings,
}
use alric_containers_image_b.Alerts.Delivery.{Cycle, add, deliver_one}
use alric_containers_image_b.Alerts.Delivery.Kept.{Closed, IsDelivery, Keeps-deliver_one}
use alric_containers_image_b.Alerts.Delivery.Held.{
  lookup-In, Reached, begins, after_open_alerts, after_deliver, after_acknowledgements,
  after_resolve, Held, HeldIfAny, Held-deliver_one,
}
use alric_containers_image_b.Alerts.Cycle.Open.Routed.{In-set_item, Named, routed_of-Named}
use alric_containers_image_b.Alerts.Cycle.{
  routed_of, recorded, announce, deliver_all, judged, first_valid, read_acks, acknowledge, closed,
  close, resolve_one, not_reconciled, with_view, look, run_cycle, fresh,
}

module _ (is_before : String → String → Option Bool)
    (acknowledgers automation_actors : List String) where
  -- A person who may acknowledge did so at the destination, after the delivery.
  pub record IsHuman (ack : Ack) (alert : Record) : Type 0 where
    pub who : String
    pub acted : ack.actor ≡ some who
    pub person : ack.actor_type ≡ some "User"
    pub allowed : In who acknowledgers
    pub not_automation : ¬ In who automation_actors
    pub referenced : ack.reference ≢ ""
    pub in_time : is_before ack.at alert.delivered_at ≡ some false

  timely-valid : (o : Option Bool) → timely o ≡ valid → o ≡ some false
  timely-valid none h = absurd (ground arith)
  timely-valid (some true) h = absurd (ground arith)
  timely-valid (some false) h = refl

  is_user-eq : (o : Option String) → is_user o ≡ true → o ≡ some "User"
  is_user-eq none h = absurd (ground arith)
  is_user-eq (some t) h = ground (arith, eq_iff t "User")

  among-In :
      (o : Option String) (xs : List String)
      → among o xs ≡ true
      → (x : String) × (o ≡ some x) × In x xs
  among-In none xs h = absurd (ground arith)
  among-In (some x) xs h = (x, refl, In-elem x xs h)

  among-false : (x : String) (xs : List String) → among (some x) xs ≡ false → ¬ In x xs
  among-false x xs h k = absurd (ground (arith, elem-In x xs k))

  verify_ack-IsHuman :
      (ack : Ack) (alert : Record)
      → verify_ack is_before ack alert acknowledgers automation_actors ≡ valid
      → IsHuman ack alert
  unfolding verify_ack
  verify_ack-IsHuman ack alert h =
      let who = among-In ack.actor acknowledgers (ground arith) in
      record {
        who = who.0;
        acted = who.1;
        person = is_user-eq ack.actor_type (ground arith);
        allowed = who.2;
        not_automation = among-false who.0 automation_actors (ground (arith, who.1));
        referenced = λ e. absurd (ground (arith, eq_iff ack.reference "", e));
        in_time = timely-valid (is_before ack.at alert.delivered_at) (ground arith);
      }

  module _ (A : Adapter) (w : A.World) where
    -- An acknowledgement that the destination gave for a record of the event, with what the entry
    -- says of it, by a person who may acknowledge.
    pub record Genuine (id : String) (by : Option String) (at reference : String) : Type 0 where
      pub alert : Record
      pub held : Held A w id alert
      pub place : A.World
      pub reached : Reached A w place
      pub acks : List Ack
      pub read : (A.acknowledgements place alert).0 ≡ ok acks
      pub ack : Ack
      pub given : In ack acks
      pub by_actor : ack.actor ≡ by
      pub at_time : ack.at ≡ at
      pub by_reference : ack.reference ≡ reference
      pub human : IsHuman ack alert

  module _ (A : Adapter) (w : A.World) (settings : Settings) where
    -- An entry that says that an alert was acknowledged stands for what a person did.
    abbrev IsTrue : Entry → Type 0
    IsTrue entry =
        (by : Option String) (at reference : String)
        → entry.step ≡ acknowledged by at reference
        → Genuine A w entry.event_id by at reference

    abbrev Honest : Cycle A → Type 0
    Honest run = Reached A w run.world × ((entry : Entry) → In entry run.ledger → IsTrue entry)

    abbrev AllHeld : Dict Record → Type 0
    AllHeld records = (id : String) (alert : Record) → In (id, alert) records → Held A w id alert

    -- A new entry that is genuine.
    Honest-add :
        (id : String) (step : Step)
        → IsTrue (record { event_id = id; step = step })
        → Keeps Honest (add A id step)
    unfolding add
    Honest-add id step g = record {
      run = λ r h. (
        h.0,
        λ entry k. elim (In-append entry _ r.ledger k) [
          | inl old ↦ h.1 entry old
          | inr e ↦ subst IsTrue (sym e) g
        ],
      );
    }

    delivery-IsTrue :
        (id : String) (step : Step)
        → IsDelivery A step
        → IsTrue (record { event_id = id; step = step })
    delivery-IsTrue id (delivery_attempted n status) d by at reference q = absurd (ground arith)
    delivery-IsTrue id (delivered ref reconciled) d by at reference q = absurd (ground arith)
    delivery-IsTrue id (event_created o s t) d by at reference q = absurd d
    delivery-IsTrue id (acknowledged b a ref) d by at reference q = absurd d
    delivery-IsTrue id (resolved ref) d by at reference q = absurd d

    Honest-Closed : Closed A Honest
    unfolding add
    Honest-Closed = record {
      adds = λ r id step d h. (Honest-add id step (delivery-IsTrue id step d)).run r h;
      sleeps = λ r slept h. h;
      reads = λ r h. (after_open_alerts r.world h.0, h.1);
    }

    AllHeld-recorded :
        (id : String) (alert : Option Record) (records : Dict Record)
        → HeldIfAny A w id alert
        → AllHeld records
        → AllHeld (recorded id alert records)
    AllHeld-recorded id none records k all other found m = all other found m
    AllHeld-recorded id (some alert) records k all other found m =
        elim (In-set_item id alert records (other, found) m) [
          | inl e ↦ subst (λ x. Held A w x.0 x.1) (sym e) k
          | inr old ↦ all other found old
        ]

    HeldIfAny-lookup : (id : String) (d : Dict Record) → AllHeld d → HeldIfAny A w id (lookup id d)
    HeldIfAny-lookup id d all = go (lookup id d) refl
      where
        go : (o : Option Record) → lookup id d ≡ o → HeldIfAny A w id o
        go none q = tt
        go (some alert) q = all id alert (lookup-In id alert d q)

    -- One delivery keeps the run honest, and its record is held.
    Honest-deliver_one :
        (id : String) (e : Event) (existing : Option Record)
        → e.event_id ≡ id
        → HeldIfAny A w id existing
        → Triple Honest
            (deliver_one A e existing settings)
            (λ alert r. Honest r × HeldIfAny A w id alert)
            Honest
    Honest-deliver_one id e existing named k =
        weaken
          (both
            (Keeps-deliver_one A Honest Honest-Closed e existing
              (λ r h. (after_deliver r.world e existing h.0, h.1)) settings)
            (Held-deliver_one A w e existing (subst (λ x. HeldIfAny A w x existing) (sym named) k)
              settings))
          (λ r h. (h, h.0)) (λ alert r h. (h.0, subst (λ x. HeldIfAny A w x alert) named h.1.1))
          (λ r h. h.0)

    Honest-deliver_all :
        (routed : Dict Event) (known records : Dict Record)
        → Named routed
        → AllHeld known
        → AllHeld records
        → Triple Honest
            (deliver_all A is_before settings acknowledgers automation_actors routed known records)
            (λ all r. Honest r × AllHeld all)
            Honest
    unfolding deliver_all
    Honest-deliver_all [] known records named k all = record { run = λ r h. (h, all) }
    Honest-deliver_all ((id, e) ∷ rest) known records named k all =
        bind
          (Honest-deliver_one id e (lookup id known) (named id e (inl refl))
            (HeldIfAny-lookup id known k))
          λ alert. record {
            run = λ r h.
                (Honest-deliver_all rest known (recorded id alert records)
                    (λ i f m. named i f (inr m)) k (AllHeld-recorded id alert records h.1 all)).run
                  r h.0;
          }

    Honest-first_valid :
        (id : String) (alert : Record) (acks : List Ack)
        → ((ack : Ack)
            → In ack acks
            → IsHuman ack alert
            → Genuine A w id ack.actor ack.at ack.reference)
        → Keeps Honest
            (first_valid A is_before settings acknowledgers automation_actors id alert acks)
    unfolding first_valid
    Honest-first_valid id alert [] from = record { run = λ r h. h }
    Honest-first_valid id alert (ack ∷ acks) from =
        go (verify_ack is_before ack alert acknowledgers automation_actors) refl
          (Honest-first_valid id alert acks (λ other m. from other (inr m)))
      where
        go :
            (v : Verdict)
            → verify_ack is_before ack alert acknowledgers automation_actors ≡ v
            → Keeps Honest
                (first_valid A is_before settings acknowledgers automation_actors id alert acks)
            → Keeps Honest (
                judged A is_before settings acknowledgers automation_actors id ack v
                  (first_valid A is_before settings acknowledgers automation_actors id alert acks))
        go (rejected reason) q later = bind (record { run = λ r h. h }) (λ u. later)
        go valid q later =
            Honest-add id _ (acts (from ack (inl refl) (verify_ack-IsHuman ack alert q)))
          where
            acts :
                Genuine A w id ack.actor ack.at ack.reference
                → IsTrue
                    (record { event_id = id; step = acknowledged ack.actor ack.at ack.reference })
            acts g by at reference e = record {
              alert = g.alert;
              held = g.held;
              place = g.place;
              reached = g.reached;
              acks = g.acks;
              read = g.read;
              ack = g.ack;
              given = g.given;
              by_actor = g.by_actor ∙ ground (arith, e);
              at_time = g.at_time ∙ ground (arith, e);
              by_reference = g.by_reference ∙ ground (arith, e);
              human = g.human;
            }

    Honest-acknowledge :
        (id : String) (alert : Record)
        → Held A w id alert
        → Keeps Honest
            (acknowledge A is_before settings acknowledgers automation_actors (id, alert))
    unfolding acknowledge
    Honest-acknowledge id alert held = record {
      run = λ r h.
          (go (A.acknowledgements r.world alert).0 (λ acks q ack m human. record {
            alert = alert;
            held = held;
            place = r.world;
            reached = h.0;
            acks = acks;
            read = q;
            ack = ack;
            given = m;
            by_actor = refl;
            at_time = refl;
            by_reference = refl;
            human = human;
          })).run
            (record r { world = (A.acknowledgements r.world alert).1 })
            (after_acknowledgements r.world alert h.0, h.1);
    }
      where
        go :
            (a : Result Failure (List Ack))
            → ((acks : List Ack)
                → a ≡ ok acks
                → (ack : Ack) → In ack acks
                → IsHuman ack alert
                → Genuine A w id ack.actor ack.at ack.reference)
            → Keeps Honest
                (read_acks A is_before settings acknowledgers automation_actors id alert a)
        go (err f) from = record { run = λ r h. h }
        go (ok acks) from = Honest-first_valid id alert acks (from acks refl)

    Honest-close :
        (id : String) (alert : Record)
        → Keeps Honest (close A is_before settings acknowledgers automation_actors id alert)
    unfolding close
    Honest-close id alert = record {
      run = λ r h.
          (go (A.resolve r.world alert).0).run (record r { world = (A.resolve r.world alert).1 })
            (after_resolve r.world alert h.0, h.1);
    }
      where
        go :
            (a : Result Failure (Unit {0}))
            → Keeps Honest (closed A is_before settings acknowledgers automation_actors id alert a)
        go (err f) = record { run = λ r h. h }
        go (ok u) =
            Honest-add id (resolved alert.reference) (λ by at reference e. absurd (ground arith))

    Honest-resolve_one :
        (routed : Dict Event) (entry : String × Record)
        → Keeps Honest
            (resolve_one A is_before settings acknowledgers automation_actors routed entry)
    unfolding resolve_one
    Honest-resolve_one routed (id, alert) = go (is_some (lookup id routed))
      where
        go :
            (b : Bool)
            → Keeps Honest (
                if b
                then pure tt
                else close A is_before settings acknowledgers automation_actors id alert)
        go true = record { run = λ r h. h }
        go false = Honest-close id alert

    Honest-with_view :
        (routed : Dict Event) (a : Result Failure (Dict Record))
        → Named routed
        → ((known : Dict Record) → a ≡ ok known → AllHeld known)
        → Keeps Honest (with_view A is_before settings acknowledgers automation_actors routed a)
    unfolding with_view not_reconciled
    Honest-with_view routed (err f) named from =
        bind
          (Keeps-for_each routed _
            λ x k. Honest-add x.0 _ (λ by at reference e. absurd (ground arith)))
          (λ u. record { run = λ r h. h })
    Honest-with_view routed (ok known) named from =
        bind (Honest-deliver_all routed known known named (from known refl) (from known refl))
          λ records. record {
            run = λ r h.
                (bind (Keeps-for_each records _ (λ x k. Honest-acknowledge x.0 x.1 (h.1 x.0 x.1 k)))
                    λ u.
                      bind (Keeps-for_each known _ (λ x k. Honest-resolve_one routed x))
                        λ u. record { run = λ r h. h }).run
                  r h.0;
          }

    Honest-run_cycle :
        (events : List Event)
        → Keeps Honest (run_cycle A is_before settings acknowledgers automation_actors events)
    unfolding run_cycle announce look
    Honest-run_cycle events =
        bind
          (Keeps-for_each events _
            λ e k. Honest-add e.event_id _ (λ by at reference q. absurd (ground arith)))
          λ u. record {
            run = λ r h.
                (Honest-with_view (routed_of events []) (A.open_alerts r.world).0
                    (routed_of-Named events)
                    (λ known q id alert m. inl (record {
                      place = r.world;
                      reached = h.0;
                      alerts = known;
                      listed = q;
                      among_them = m;
                    }))).run
                  _ (after_open_alerts r.world h.0, h.1);
          }

    -- Every acknowledged entry in the ledger of a run comes from an acknowledgement that the
    -- destination gave, in this run, when it was asked for those of a record of the entry's event,
    -- a record that it had listed under the event or had given for a delivery of it. The entry has
    -- the actor, the time and the reference of the acknowledgement, whose actor is a person, is an
    -- authorized acknowledger and no automation actor, whose reference is not empty, and whose
    -- time is not before the delivery of that record.
    pub run_cycle-Genuine :
        (events : List Event) (entry : Entry) (by : Option String) (at reference : String)
        → In entry
            (run_cycle A is_before settings acknowledgers automation_actors events
              (fresh A is_before settings acknowledgers automation_actors w)).1.ledger
        → entry.step ≡ acknowledged by at reference
        → Genuine A w entry.event_id by at reference
    run_cycle-Genuine events entry by at reference m q =
        (Post-any (λ x. Honest) Honest Honest _ _ (λ x h. h) (λ h. h)
            ((Honest-run_cycle events).run
              (fresh A is_before settings acknowledgers automation_actors w)
              (begins, λ entry k. absurd k))).1
          entry m by at reference q
