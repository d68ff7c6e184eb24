-- ===== src/Alerts/Report/Proven.antt =====
-- What the summary of a run says of acknowledgements.
use alric_containers_image_b.Base.{
  String, ◌≡◌, refl, ap, ◌∙◌, Bool, Option, none, some, List, [], ◌∷◌, ◌++◌, In, inl, inr, arith,
  str_eq, eq_iff, is_some,
}
use mathlib.Core.Path.{subst}
use alric_containers_image_b.Base.Membership.{keep-In, map-In}
use alric_containers_image_b.EvidenceStore.Content.{sorted_set}
use alric_containers_image_b.Alerts.Data.{
  Event, Record, Step, event_created, delivery_attempted, delivered, acknowledged, resolved, Entry,
  Dict, lookup, Adapter, Settings,
}
use alric_containers_image_b.Alerts.Cycle.{routed_of, run_cycle, fresh}
use alric_containers_image_b.Alerts.Cycle.Genuine.{Genuine, run_cycle-Genuine}
use alric_containers_image_b.Alerts.Report.{
  Acknowledgement, Summary, acknowledgement_in, or_else_first, ack_of, entries_of, summary_of,
  keys_of, report, cycle_report,
}

acknowledgement_in-some :
    (step : Step) (a : Acknowledgement)
    → acknowledgement_in step ≡ some a
    → step ≡ acknowledged a.by a.at a.reference
acknowledgement_in-some (event_created o s t) a h = absurd (ground arith)
acknowledgement_in-some (delivery_attempted n s) a h = absurd (ground arith)
acknowledgement_in-some (delivered r c) a h = absurd (ground arith)
acknowledgement_in-some (acknowledged b t r) a h = ground arith
acknowledgement_in-some (resolved r) a h = absurd (ground arith)

ack_of-In :
    (entries : List Entry) (a : Acknowledgement)
    → ack_of entries ≡ some a
    → (entry : Entry) × In entry entries × (entry.step ≡ acknowledged a.by a.at a.reference)
ack_of-In [] a h = absurd (ground arith)
ack_of-In (entry ∷ rest) a h = go (acknowledgement_in entry.step) refl h (ack_of-In rest a)
  where
    go :
        (o : Option Acknowledgement)
        → acknowledgement_in entry.step ≡ o
        → or_else_first o (ack_of rest) ≡ some a
        → (ack_of rest ≡ some a
            → (e : Entry) × In e rest × (e.step ≡ acknowledged a.by a.at a.reference))
        → (e : Entry) × In e (entry ∷ rest) × (e.step ≡ acknowledged a.by a.at a.reference)
    go (some b) q k ih = (entry, inl refl, acknowledgement_in-some entry.step a (q ∙ k))
    go none q k ih = let m = ih k in (m.0, inr m.1, m.2)

-- An acknowledged row of a report has an entry of its event in the ledger.
report-In :
    (routed : Dict Event) (known : Dict Record) (ledger : List Entry) (id : String) (s : Summary)
    (a : Acknowledgement)
    → In (id, s) (report routed known ledger)
    → s.acknowledgement ≡ some a
    → (entry : Entry) × In entry ledger
      × (entry.event_id ≡ id)
      × (entry.step ≡ acknowledged a.by a.at a.reference)
unfolding report
report-In routed known ledger id s a m h =
    let row =
      map-In (λ i. (i, summary_of (is_some (lookup i known)) (entries_of i ledger))) (id, s)
        (sorted_set (keys_of routed ++ keys_of known)) m in
    let found = ack_of-In (entries_of row.0 ledger) a (ap (λ r. r.1.acknowledgement) row.2 ∙ h) in
    let kept = keep-In (λ e. str_eq e.event_id row.0) found.0 ledger found.1 in
    (found.0, kept.0, (eq_iff found.0.event_id row.0).0 kept.1 ∙ ap (λ r. r.0) row.2, found.2)

module _ (A : Adapter) (is_before : String → String → Option Bool) (settings : Settings)
    (acknowledgers automation_actors : List String) where
  -- A run reports an alert as acknowledged only by an acknowledgement that the destination gave,
  -- in this run, for a record of the alert's event, a record that it had listed under the event or
  -- had given for a delivery of it. The report has its actor, time and reference, and it is by an
  -- authorized person who is no automation actor, not before the delivery of that record.
  pub cycle_report-IsHuman :
      (events : List Event) (w : A.World) (id : String) (s : Summary) (a : Acknowledgement)
      → In (id, s) (cycle_report A is_before settings acknowledgers automation_actors events w)
      → s.acknowledgement ≡ some a
      → Genuine is_before acknowledgers automation_actors A w id a.by a.at a.reference
  unfolding cycle_report
  cycle_report-IsHuman events w id s a m h =
      let e =
        report-In (routed_of events []) _
          (run_cycle A is_before settings acknowledgers automation_actors events
            (fresh A is_before settings acknowledgers automation_actors w)).1.ledger
          id s a m h in
      subst (λ x. Genuine is_before acknowledgers automation_actors A w x a.by a.at a.reference) e.2
        (run_cycle-Genuine is_before acknowledgers automation_actors A w settings events e.0 a.by
          a.at a.reference e.1 e.3)
