-- ===== src/Alerts/Cycle/Open.antt =====
-- How many alerts a run leaves open for an event.
pub mod Routed
use alric_containers_image_b.Base.{
  ℕ, ◌≤◌, String, ◌≡◌, ◌≢◌, refl, sym, ap, ◌∙◌, Bool, true, false, ◌⊎◌, inl, inr, Option, none,
  some, List, [], ◌∷◌, Result, ok, err, In, str_eq, eq_iff, arith, is_some, Bool-cases,
  if◌then◌else◌,
}
use mathlib.Core.Path.{subst}
use alric_containers_image_b.Base.Act.{Stop, Act, pure, for_each, ◌>>=◌, ◌>>◌}
use alric_containers_image_b.Base.Act.Triples.{
  Post, Triple, weaken, both, bind, Post-map, Keeps, Keeps-for_each, Post-any,
}
use alric_containers_image_b.Alerts.Data.{
  Event, Record, Ack, Failure, Step, Verdict, valid, rejected, verify_ack, Dict, lookup, Adapter,
  Settings,
}
use alric_containers_image_b.Alerts.Delivery.{Cycle, add, deliver_one}
use alric_containers_image_b.Alerts.Delivery.Kept.{InWorld, InWorld-Closed, Keeps-deliver_one}
use alric_containers_image_b.Alerts.Delivery.Once.{Counts, deliver_one-One}
use alric_containers_image_b.Alerts.Cycle.{
  routed_of, recorded, reject, announce, deliver_all, judged, first_valid, read_acks, acknowledge,
  closed, close, resolve_one, not_reconciled, with_view, look, run_cycle, fresh,
}
use alric_containers_image_b.Alerts.Cycle.Open.Routed.{
  Distinct, Named, routed_of-Distinct, routed_of-Named,
}

module _ (A : Adapter) (count : A.World → String → ℕ) (lawful : Counts A count)
    (is_before : String → String → Option Bool) (settings : Settings)
    (acknowledgers automation_actors : List String) where
  -- What the delivery of one event may have changed.
  abbrev Fine : A.World → Event → Cycle A → Type 0
  Fine w e t =
      (count t.world e.event_id ≤ 1)
      × ((id : String) → id ≢ e.event_id → count t.world id ≡ count w id)

  Post-pair :
      {B : Type 0} (X Y : Cycle A → Type 0) (r : Result Stop B) (t : Cycle A)
      → Post (λ b. X) X r t
      → Post (λ b. Y) Y r t
      → Post (λ b s. X s × Y s) (λ s. X s × Y s) r t
  Post-pair X Y (ok b) t x y = (x, y)
  Post-pair X Y (err f) t x y = (x, y)

  deliver_one-Fine :
      (e : Event) (existing : Option Record) (s : Cycle A)
      → count s.world e.event_id ≤ 1
      → (existing ≡ none → count s.world e.event_id ≡ 0)
      → Post
          (λ x. Fine s.world e)
          (Fine s.world e)
          (deliver_one A e existing settings s).0
          (deliver_one A e existing settings s).1
  deliver_one-Fine e (some known) s h z = go
    where
      Same : A.World → Type 0
      Same w = (id : String) → count w id ≡ count s.world id

      go :
          Post
            (λ x. Fine s.world e)
            (Fine s.world e)
            (deliver_one A e (some known) settings s).0
            (deliver_one A e (some known) settings s).1
      go =
          (weaken
              (Keeps-deliver_one A (InWorld A Same)
                (InWorld-Closed A Same (λ w k id. lawful.read w id ∙ k id)) e (some known)
                (λ r k id. lawful.repeat r.world e known id ∙ k id) settings)
              (λ r k. k) (λ x r k. (ground (arith, k e.event_id), λ id other. k id))
              (λ r k. (ground (arith, k e.event_id), λ id other. k id))).run
            s (λ id. refl)
  deliver_one-Fine e none s h z =
      Post-pair (λ t. count t.world e.event_id ≤ 1) (InWorld A Others)
        (deliver_one A e none settings s).0 (deliver_one A e none settings s).1
        ((deliver_one-One A count lawful e settings).run s (z refl))
        ((Keeps-deliver_one A (InWorld A Others)
            (InWorld-Closed A Others (λ w k id other. lawful.read w id ∙ k id other)) e none
            (λ r k id other. lawful.create_others r.world e id other ∙ k id other) settings).run
          s (λ id other. refl))
    where
      Others : A.World → Type 0
      Others w = (id : String) → id ≢ e.event_id → count w id ≡ count s.world id

  -- At most one alert is open for each event.
  abbrev pub Single : Cycle A → Type 0
  Single run = (id : String) → count run.world id ≤ 1

  -- None is open for the events that are still to be created.
  abbrev Ready : Dict Record → Dict Event → Cycle A → Type 0
  Ready known rest run =
      (id : String) (e : Event) → In (id, e) rest → lookup id known ≡ none → count run.world id ≡ 0

  Fine-Single : (s t : Cycle A) (e : Event) → Single s → Fine s.world e t → Single t
  Fine-Single s t e h f id = elim (Bool-cases (str_eq id e.event_id)) [
    | inl q ↦ subst (λ j. count t.world j ≤ 1) (sym ((eq_iff id e.event_id).0 q)) f.0
    | inr q ↦
        subst (λ n. n ≤ 1)
          (sym (f.1 id (λ same. absurd (ground (arith, eq_iff id e.event_id, same))))) (h id)
  ]

  abbrev Deliveries : Dict Event → Dict Record → Dict Record → Act (Cycle A) (Dict Record)
  Deliveries = deliver_all A is_before settings acknowledgers automation_actors

  deliver_all-Single :
      (rest : Dict Event) (known records : Dict Record)
      → Distinct rest
      → Named rest
      → Triple
          (λ r. Single r × Ready known rest r)
          (Deliveries rest known records)
          (λ x. Single)
          Single
  unfolding deliver_all
  deliver_all-Single [] known records d n = record { run = λ r h. h.0 }
  deliver_all-Single ((id, e) ∷ rest) known records d n =
      bind {Q = λ alert r. Single r × Ready known rest r}
        (record {
          run = λ s h.
              Post-map {A = Option Record} {Q = λ x. Fine s.world e}
                {R = λ alert r. Single r × Ready known rest r}
                (λ alert t f. (Fine-Single s t e h.0 f, ready s t h.1 f))
                (λ t f. Fine-Single s t e h.0 f) (deliver_one A e (lookup id known) settings s).0
                (deliver_one A e (lookup id known) settings s).1
                (deliver_one-Fine e (lookup id known) s (h.0 e.event_id)
                  (λ q. ap (count s.world) named ∙ h.1 id e (inl refl) q));
        })
        λ alert.
          deliver_all-Single rest known (recorded id alert records) d.1 (λ j f m. n j f (inr m))
    where
      named : e.event_id ≡ id
      named = n id e (inl refl)

      ready :
          (s t : Cycle A) → Ready known ((id, e) ∷ rest) s → Fine s.world e t → Ready known rest t
      ready s t h f j g m q = f.1 j (λ same. d.0 (j, g) m (same ∙ named)) ∙ h j g (inr m) q

  -- Counts that do not grow.
  Single-down :
      (w v : A.World)
      → ((id : String) → count v id ≤ count w id)
      → ((id : String) → count w id ≤ 1)
      → (id : String) → count v id ≤ 1
  Single-down w v d h id = ground (arith, d id, h id)

  Single-first_valid :
      (id : String) (alert : Record) (acks : List Ack)
      → Keeps Single
          (first_valid A is_before settings acknowledgers automation_actors id alert acks)
  unfolding first_valid add
  Single-first_valid id alert [] = record { run = λ r h. h }
  Single-first_valid id alert (ack ∷ acks) =
      go (verify_ack is_before ack alert acknowledgers automation_actors)
        (Single-first_valid id alert acks)
    where
      go :
          (v : Verdict)
          → Keeps Single
              (first_valid A is_before settings acknowledgers automation_actors id alert acks)
          → Keeps Single (
              judged A is_before settings acknowledgers automation_actors id ack v
                (first_valid A is_before settings acknowledgers automation_actors id alert acks))
      go (rejected reason) later = bind (record { run = λ r h. h }) (λ u. later)
      go valid later = record { run = λ r h. h }

  Single-acknowledge :
      (entry : String × Record)
      → Keeps Single (acknowledge A is_before settings acknowledgers automation_actors entry)
  unfolding acknowledge
  Single-acknowledge (id, alert) = record {
    run = λ r h.
        (go (A.acknowledgements r.world alert).0).run
          (record r { world = (A.acknowledgements r.world alert).1 })
          (λ j. subst (λ n. n ≤ 1) (sym (lawful.acks r.world alert j)) (h j));
  }
    where
      go :
          (a : Result Failure (List Ack))
          → Keeps Single (read_acks A is_before settings acknowledgers automation_actors id alert a)
      go (err f) = record { run = λ r h. h }
      go (ok acks) = Single-first_valid id alert acks

  Single-resolve_one :
      (routed : Dict Event) (entry : String × Record)
      → Keeps Single (resolve_one A is_before settings acknowledgers automation_actors routed entry)
  unfolding resolve_one close add
  Single-resolve_one routed (id, alert) = go (is_some (lookup id routed))
    where
      told :
          (a : Result Failure (Unit {0}))
          → Keeps Single (closed A is_before settings acknowledgers automation_actors id alert a)
      told (err f) = record { run = λ r h. h }
      told (ok u) = record { run = λ r h. h }

      go :
          (b : Bool)
          → Keeps Single (
              if b
              then pure tt
              else close A is_before settings acknowledgers automation_actors id alert)
      go true = record { run = λ r h. h }
      go false = record {
        run = λ r h.
            (told (A.resolve r.world alert).0).run
              (record r { world = (A.resolve r.world alert).1 })
              (Single-down r.world (A.resolve r.world alert).1 (lawful.close r.world alert) h);
      }

  returned : (d : Dict Record) → Keeps Single (pure d)
  returned d = record { run = λ r h. h }

  Single-run_cycle :
      (events : List Event)
      → Keeps Single (run_cycle A is_before settings acknowledgers automation_actors events)
  unfolding run_cycle announce look add with_view not_reconciled
  Single-run_cycle events = bind (Keeps-for_each events _ (λ e k. record { run = λ r h. h })) λ u.
      record {
        run = λ r h.
            go r (A.open_alerts r.world).0 refl
              (λ id. subst (λ n. n ≤ 1) (sym (lawful.read r.world id)) (h id));
      }
    where
      go :
          (r : Cycle A) (a : Result Failure (Dict Record))
          → (A.open_alerts r.world).0 ≡ a
          → Single (record r { world = (A.open_alerts r.world).1 })
          → Post
              (λ x. Single)
              Single
              (with_view A is_before settings acknowledgers automation_actors
                (routed_of events [])
                a
                (record r { world = (A.open_alerts r.world).1 })).0
              (with_view A is_before settings acknowledgers automation_actors
                (routed_of events [])
                a
                (record r { world = (A.open_alerts r.world).1 })).1
      go r (err f) q h =
          (bind (Keeps-for_each (routed_of events []) _ (λ x k. record { run = λ r h. h }))
              λ u. returned []).run
            _ h
      go r (ok known) q h =
          (bind
              (deliver_all-Single (routed_of events []) known known (routed_of-Distinct events)
                (routed_of-Named events))
              λ records. bind (Keeps-for_each records _ (λ x k. Single-acknowledge x)) λ u.
                bind (Keeps-for_each known _ (λ x k. Single-resolve_one (routed_of events []) x))
                  λ u. returned known).run
            _
            (
              h,
              λ id e m missing.
                  lawful.read r.world id ∙ lawful.read-none r.world known id q missing,
            )

  -- Over a destination whose calls change the number of open alerts only as stated, a run from a
  -- destination with at most one open alert for each event leaves at most one open alert for each
  -- event, whatever each call met.
  pub run_cycle-Single :
      (events : List Event) (w : A.World)
      → ((id : String) → count w id ≤ 1)
      → (id : String)
      → count
          (run_cycle A is_before settings acknowledgers automation_actors events
            (fresh A is_before settings acknowledgers automation_actors w)).1.world
          id
        ≤ 1
  run_cycle-Single events w h =
      Post-any (λ x. Single) Single Single _ _ (λ x k. k) (λ k. k)
        ((Single-run_cycle events).run
          (fresh A is_before settings acknowledgers automation_actors w) h)
