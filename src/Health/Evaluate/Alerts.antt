-- ===== src/Health/Evaluate/Alerts.antt =====
-- The alerts of the frameworks' ages.
use alric_containers_image_b.Base.{
  ℕ, String, ◌≡◌, refl, sym, ◌↔◌, inl, inr, Bool, true, Option, none, some, List, [], ◌∷◌, ◌++◌,
  map, In, arith,
}
use alric_containers_image_b.Health.Evaluate.Others.{
  In-append, some-alerts, Others, Others-append, Others-when, Others-one, Others-gaps,
  Others-exceptions, Others-scope, Others-schedules,
}
use alric_containers_image_b.Base.Sorting.{In-sorted}
use mathlib.Core.Path.{subst}
use alric_containers_image_b.Base.Order.{sorted}
use alric_containers_image_b.Health.Evaluate.{
  Alert, Ages, Metrics, HealthPolicy, find, in_scope, framework_alerts, all_frameworks,
  truncation_alerts, gap_alert, schedule_alerts, exception_alerts, scope_alerts, by_name,
  then_reviews, evaluate,
}
use alric_containers_image_b.Health.Evaluate.AgeAlerts.{
  of_publication, of_stable, Age, age_of, limit_of, IsFailure, raised, IsCounted, IsFailing,
  level_of-alert, Fails, framework_alerts-Fails,
}

all_frameworks-Fails :
    (policy : HealthPolicy) (truncated : Bool) (age : Age) (framework : String)
    (items : List (String × Ages))
    → In (raised age framework) (all_frameworks policy truncated items)
      ↔ ((item : String × Ages) × In item items × Fails truncated policy age framework item)
unfolding all_frameworks
all_frameworks-Fails policy truncated age framework [] = (λ m. absurd m, λ h. absurd h.1)
all_frameworks-Fails policy truncated age framework (item ∷ items) =
    let j =
      In-append (raised age framework) (framework_alerts policy truncated item)
        (all_frameworks policy truncated items) in
    let k = all_frameworks-Fails policy truncated age framework items in
    let f = framework_alerts-Fails policy truncated age framework in
    (
      λ m. elim (j.0 m) [
        | inl i ↦ (item, inl refl, (f item).0 i)
        | inr i ↦ (let q = k.0 i in (q.0, inr q.1, q.2))
      ],
      λ h. j.1 (elim h.1 [
        | inl e ↦ inl ((f item).1 (subst (Fails truncated policy age framework) e h.2))
        | inr i ↦ inr (k.1 (h.0, i, h.2))
      ]),
    )

-- What is not about ages holds no alert of an age.
no_age :
    (age : Age) (framework : String) (xs : List Alert) → Others xs → ¬ In (raised age framework) xs
no_age of_publication framework xs h m =
    absurd (ground (arith, h (raised of_publication framework) m))
no_age of_stable framework xs h m = absurd (ground (arith, h (raised of_stable framework) m))

only_first :
    (age : Age) (framework : String) (xs ys : List Alert)
    → Others ys
    → In (raised age framework) (xs ++ ys) ↔ In (raised age framework) xs
only_first age framework xs ys h =
    let j = In-append (raised age framework) xs ys in
    (
      λ m. elim (j.0 m) [ inl i ↦ i | inr i ↦ absurd (no_age age framework ys h i) ],
      λ m. j.1 (inl m),
    )

-- When evaluate returns, a framework's age of publication or of stable is raised as an alert
-- exactly when the framework is among the metrics, is in the execution scope, has no exception or
-- an empty one, and either has no data though the search was not truncated or has an age over the
-- limit.
pub evaluate-Raises :
    (metrics : Metrics) (policy : HealthPolicy) (now : ℕ) (alerts : List Alert)
    → evaluate metrics policy now ≡ some alerts
    → (age : Age) (framework : String)
    → In (raised age framework) alerts
      ↔ IsFailing metrics.frameworks metrics.truncated policy age framework
unfolding evaluate
evaluate-Raises metrics policy now alerts h age framework =
    go (schedule_alerts policy metrics.schedules) (Others-schedules policy metrics.schedules) h
  where
    items : List (String × Ages)
    items = sorted by_name metrics.frameworks

    ages_alerts : List Alert
    ages_alerts = all_frameworks policy metrics.truncated items

    rest : List Alert → List Alert
    rest schedules =
        schedules
        ++ (exception_alerts now (sorted by_name policy.exceptions) ++ scope_alerts policy now)

    found :
        In (raised age framework) ages_alerts
        ↔ IsFailing metrics.frameworks metrics.truncated policy age framework
    found =
        let k = all_frameworks-Fails policy metrics.truncated age framework items in
        (
          λ m.
              let q = k.0 m in
              let l = (level_of-alert policy q.0.0).0 q.2.1 in
              moved q.0.0 q.0.1 (sym q.2.0) ((In-sorted by_name q.0 metrics.frameworks).0 q.1) l
                q.2.2,
          λ f. k.1 (
            (framework, f.ages),
            (In-sorted by_name (framework, f.ages) metrics.frameworks).1 f.measured,
            (refl, (level_of-alert policy framework).1 (f.scoped, f.counted), f.failure),
          ),
        )
      where
        moved :
            (name : String) (ages : Ages)
            → name ≡ framework
            → In (name, ages) metrics.frameworks
            → (in_scope policy.scope name ≡ true) × IsCounted (find name policy.exceptions)
            → IsFailure metrics.truncated (age_of age ages) (limit_of age policy)
            → IsFailing metrics.frameworks metrics.truncated policy age framework
        moved name ages e m l f = record {
          ages = ages;
          measured = subst (λ n. In (n, ages) metrics.frameworks) e m;
          scoped = subst (λ n. in_scope policy.scope n ≡ true) e l.0;
          counted = subst (λ n. IsCounted (find n policy.exceptions)) e l.1;
          failure = f;
        }

    go :
        (o : Option (List Alert))
        → ((xs : List Alert) → o ≡ some xs → Others xs)
        → then_reviews policy now
            (ages_alerts ++ (truncation_alerts metrics ++ map gap_alert metrics.evidence_gaps))
            o
          ≡ some alerts
        → In (raised age framework) alerts
          ↔ IsFailing metrics.frameworks metrics.truncated policy age framework
    go none k e = absurd (ground (arith, e))
    go (some schedules) k e =
        let before = truncation_alerts metrics ++ map gap_alert metrics.evidence_gaps in
        let p = only_first age framework (ages_alerts ++ before) (rest schedules) (
          Others-append schedules _ (k schedules refl) (
            Others-append (exception_alerts now (sorted by_name policy.exceptions))
              (scope_alerts policy now) (Others-exceptions now (sorted by_name policy.exceptions))
              (Others-scope policy now))) in
        let q = only_first age framework ages_alerts before (
          Others-append (truncation_alerts metrics) (map gap_alert metrics.evidence_gaps)
            (Others-when metrics.truncated _ (Others-one _ refl))
            (Others-gaps metrics.evidence_gaps)) in
        let same = some-alerts _ alerts e in
        (
          λ m. found.0 (q.0 (p.0 (subst (In (raised age framework)) (sym same) m))),
          λ f. subst (In (raised age framework)) same (p.1 (q.1 (found.1 f))),
        )
