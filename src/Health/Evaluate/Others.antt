-- ===== src/Health/Evaluate/Others.antt =====
-- The alerts that are not about the ages of frameworks.
use alric_containers_image_b.Base.{
  ℕ, String, ◌≡◌, refl, sym, ap, ◌↔◌, ◌⊎◌, inl, inr, Bool, true, false, ◌||◌, Option, none, some,
  List, [], ◌∷◌, ◌++◌, map, In, arith, ltb, if◌then◌else◌,
}
use mathlib.Core.Path.{subst}
use alric_containers_image_b.Health.Evaluate.{
  Metric, publication_age, stable_age, exception_review, scope_review, Alert, ScheduleAges,
  HealthPolicy, find, gap_alert, since_alerts, is_over, limited, appended, schedule_alerts,
  Exception, review_of, review_alerts, exception_alerts, scope_alerts,
}

abbrev pub is_age : Metric → Bool
is_age publication_age = true
is_age stable_age = true
is_age _ = false

pub In-append : {A : Type 0} (x : A) (xs ys : List A) → In x (xs ++ ys) ↔ (In x xs ⊎ In x ys)
In-append x [] ys = (λ m. inr m, λ m. elim m [ inl i ↦ absurd i | inr i ↦ i ])
In-append x (z ∷ xs) ys = (
  λ m. elim m [
    | inl e ↦ inl (inl e)
    | inr i ↦ elim ((In-append x xs ys).0 i) [ inl j ↦ inl (inr j) | inr j ↦ inr j ]
  ],
  λ m. elim m [
    | inl i ↦ elim i [ inl e ↦ inl e | inr j ↦ inr ((In-append x xs ys).1 (inl j)) ]
    | inr i ↦ inr ((In-append x xs ys).1 (inr i))
  ],
)

pub some-alerts : (a b : List Alert) → some a ≡ some b → a ≡ b
some-alerts a b h = ap (λ o. elim o [ none ↦ a | some x ↦ x ]) h

-- The alerts that are not about ages.
abbrev pub Others : List Alert → Type 0
Others xs = (x : Alert) → In x xs → is_age x.metric ≡ false

pub Others-append : (xs ys : List Alert) → Others xs → Others ys → Others (xs ++ ys)
Others-append xs ys h k x m = elim ((In-append x xs ys).0 m) [ inl i ↦ h x i | inr i ↦ k x i ]

pub Others-one : (x : Alert) → is_age x.metric ≡ false → Others (x ∷ [])
Others-one x h y (inl e) = subst (λ z. is_age z.metric ≡ false) (sym e) h
Others-one x h y (inr m) = absurd m

pub Others-when : (b : Bool) (xs : List Alert) → Others xs → Others (if b then xs else [])
Others-when true xs h = h
Others-when false xs h = λ x m. absurd m

pub Others-gaps : (runs : List String) → Others (map gap_alert runs)
Others-gaps [] x m = absurd m
Others-gaps (run ∷ runs) x (inl e) = subst (λ z. is_age z.metric ≡ false) (sym e) refl
Others-gaps (run ∷ runs) x (inr m) = Others-gaps runs x m

Others-review :
    (metric : Metric) (subject : String) (now : ℕ) (review : Option ℕ)
    → is_age metric ≡ false
    → Others (review_alerts metric subject now review)
Others-review metric subject now none h = Others-one _ h
Others-review metric subject now (some r) h = Others-when (ltb r now) _ (Others-one _ h)

pub Others-exceptions :
    (now : ℕ) (items : List (String × Exception)) → Others (exception_alerts now items)
unfolding exception_alerts
Others-exceptions now [] = λ x m. absurd m
Others-exceptions now ((framework, e) ∷ items) =
    Others-append (review_alerts exception_review framework now (review_of e))
      (exception_alerts now items) (Others-review exception_review framework now (review_of e) refl)
      (Others-exceptions now items)

pub Others-scope : (policy : HealthPolicy) (now : ℕ) → Others (scope_alerts policy now)
Others-scope policy now = go policy.scope
  where
    go :
        (o : Option (List String))
        → Others (elim o [
          | none ↦ []
          | some current ↦ review_alerts scope_review "execution_scope" now policy.scope_review_by
        ])
    go none = λ x m. absurd m
    go (some current) = Others-review scope_review "execution_scope" now policy.scope_review_by refl

Others-since :
    (cron : String) (limit : ℕ) (since max_gap : Option ℕ)
    → Others (since_alerts cron limit since max_gap)
Others-since cron limit none max_gap = Others-one _ refl
Others-since cron limit (some since) max_gap =
    Others-when (ltb limit since || is_over max_gap limit) _ (Others-one _ refl)

pub Others-schedules :
    (policy : HealthPolicy) (schedules : List ScheduleAges) (xs : List Alert)
    → schedule_alerts policy schedules ≡ some xs
    → Others xs
unfolding schedule_alerts
Others-schedules policy [] xs h = λ x m. absurd (subst (In x) (sym (some-alerts [] xs h)) m)
Others-schedules policy (s ∷ schedules) xs h =
    go (find s.cron policy.gap_limits) (schedule_alerts policy schedules)
      (Others-schedules policy schedules) h
  where
    go :
        (limit : Option ℕ) (rest : Option (List Alert))
        → ((ys : List Alert) → rest ≡ some ys → Others ys)
        → appended (limited s limit) rest ≡ some xs
        → Others xs
    go none rest k e = absurd (ground (arith, e))
    go (some limit) none k e = absurd (ground (arith, e))
    go (some limit) (some ys) k e = subst Others (some-alerts _ xs e) (
        Others-append (since_alerts s.cron limit s.since_last_run s.max_gap) ys
          (Others-since s.cron limit s.since_last_run s.max_gap) (k ys refl))
