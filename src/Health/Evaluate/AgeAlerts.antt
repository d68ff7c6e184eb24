-- ===== src/Health/Evaluate/AgeAlerts.antt =====
-- The alerts of the ages of one framework.
use alric_containers_image_b.Base.{
  ℕ, ◌<◌, String, ◌≡◌, refl, sym, ap, ◌↔◌, ◌⊎◌, inl, inr, Bool, true, false, Option, none, some,
  List, [], ◌∷◌, In, arith, ltb, ltb→lt, if◌then◌else◌,
}
use alric_containers_image_b.Health.Evaluate.Others.{In-append}
use mathlib.Core.Path.{subst}
use alric_containers_image_b.Health.Evaluate.{
  Level, alert, out_of_scope, unknown, Metric, publication_age, stable_age, Alert, Ages, Exception,
  empty_exception, exception, HealthPolicy, find, in_scope, excepted, level_of, age_alerts,
  framework_alerts,
}

-- One of the two ages of a framework.
pub data Age : Type 0 where
  of_publication of_stable : Age

abbrev pub metric_of : Age → Metric
metric_of of_publication = publication_age
metric_of of_stable = stable_age

abbrev pub age_of : Age → Ages → Option ℕ
age_of of_publication ages = ages.publication
age_of of_stable ages = ages.stable

abbrev pub limit_of : Age → HealthPolicy → ℕ
limit_of of_publication policy = policy.publication_limit
limit_of of_stable policy = policy.stable_limit

-- No data though the search was complete, or an age over the limit.
abbrev pub IsFailure : Bool → Option ℕ → ℕ → Type 0
IsFailure truncated age limit =
    ((age ≡ none) × (truncated ≡ false)) ⊎ ((a : ℕ) × (age ≡ some a) × (limit < a))

abbrev pub raised : Age → String → Alert
raised age framework = record { level = alert; metric = metric_of age; subject = framework }

-- There is no exception, or an empty one.
abbrev pub IsCounted : Option Exception → Type 0
IsCounted o = (o ≡ none) ⊎ (o ≡ some empty_exception)

-- The framework is one of the metrics, is in the scope, is not excepted, and its age is a failure.
pub record IsFailing (frameworks : List (String × Ages)) (truncated : Bool) (policy : HealthPolicy)
    (age : Age) (framework : String) : Type 0 where
  pub ages : Ages
  pub measured : In (framework, ages) frameworks
  pub scoped : in_scope policy.scope framework ≡ true
  pub counted : IsCounted (find framework policy.exceptions)
  pub failure : IsFailure truncated (age_of age ages) (limit_of age policy)

metric_of_injective : (a b : Age) → metric_of a ≡ metric_of b → a ≡ b
metric_of_injective of_publication of_publication e = refl
metric_of_injective of_publication of_stable e = absurd (ground (arith, e))
metric_of_injective of_stable of_publication e = absurd (ground (arith, e))
metric_of_injective of_stable of_stable e = refl

-- The alert of one age is raised, as an alert, for its failure.
abbrev Raised : Age → Age → String → String → Level → Type 0 → Type 0
Raised age other framework name level F = (age ≡ other) × (framework ≡ name) × (level ≡ alert) × F

raised-eq :
    (age other : Age) (framework name : String) (level : Level)
    → raised age framework ≡ record { level = level; metric = metric_of other; subject = name }
    → (age ≡ other) × (framework ≡ name) × (level ≡ alert)
raised-eq age other framework name level e = (
  metric_of_injective age other (ap (λ x. x.metric) e),
  ap (λ x. x.subject) e,
  sym (ap (λ x. x.level) e),
)

eq-raised :
    (age other : Age) (framework name : String) (level : Level)
    → age ≡ other
    → framework ≡ name
    → level ≡ alert
    → raised age framework ≡ record { level = level; metric = metric_of other; subject = name }
eq-raised age other framework name level a f l = rw (a, f, l)

age_alerts-Raised :
    (age other : Age) (framework name : String) (truncated : Bool) (level : Level) (limit : ℕ)
    (o : Option ℕ)
    → In (raised age framework) (age_alerts truncated level (metric_of other) name limit o)
      ↔ Raised age other framework name level (IsFailure truncated o limit)
age_alerts-Raised age other framework name true level limit none = (
  λ m. elim m [
    | inl e ↦ (let k = raised-eq age other framework name unknown e in absurd (ground (arith, k.2)))
    | inr i ↦ absurd i
  ],
  λ h. elim h.3 [ inl f ↦ absurd (ground (arith, f.1)) | inr f ↦ absurd (ground (arith, f.1)) ],
)
age_alerts-Raised age other framework name false level limit none = (
  λ m. elim m [
    | inl e ↦
        (let k = raised-eq age other framework name level e in (k.0, k.1, k.2, inl (refl, refl)))
    | inr i ↦ absurd i
  ],
  λ h. inl (eq-raised age other framework name level h.0 h.1 h.2),
)
age_alerts-Raised age other framework name truncated level limit (some a) = go (ltb limit a) refl
  where
    go :
        (b : Bool)
        → ltb limit a ≡ b
        → In (raised age framework) (
            if b
            then record { level = level; metric = metric_of other; subject = name } ∷ []
            else [])
          ↔ Raised age other framework name level (IsFailure truncated (some a) limit)
    go true e = (
      λ m. elim m [
        | inl q ↦
            (let k = raised-eq age other framework name level q in
              (k.0, k.1, k.2, inr (a, refl, ltb→lt limit a e)))
        | inr i ↦ absurd i
      ],
      λ h. inl (eq-raised age other framework name level h.0 h.1 h.2),
    )
    go false e = (
      λ m. absurd m,
      λ h. elim h.3 [
        | inl f ↦ absurd (ground (arith, f.0))
        | inr f ↦ absurd (ground (arith, f.1, f.2, e))
      ],
    )

pub level_of-alert :
    (policy : HealthPolicy) (framework : String)
    → (level_of policy framework ≡ alert)
      ↔ ((in_scope policy.scope framework ≡ true) × IsCounted (find framework policy.exceptions))
level_of-alert policy framework =
    go (in_scope policy.scope framework) (find framework policy.exceptions)
  where
    go :
        (b : Bool) (o : Option Exception)
        → ((if b then excepted o else out_of_scope) ≡ alert) ↔ ((b ≡ true) × IsCounted o)
    go true none = (λ e. (refl, inl refl), λ h. refl)
    go true (some empty_exception) = (λ e. (refl, inr refl), λ h. refl)
    go true (some (exception r)) = (
      λ e. absurd (ground (arith, e)),
      λ h. elim h.1 [ inl f ↦ absurd (ground (arith, f)) | inr f ↦ absurd (ground (arith, f)) ],
    )
    go false o = (λ e. absurd (ground (arith, e)), λ h. absurd (ground (arith, h.0)))

-- The failure of an age of one item.
abbrev pub Fails : Bool → HealthPolicy → Age → String → String × Ages → Type 0
Fails truncated policy age framework (name, ages) =
    (framework ≡ name)
    × (level_of policy name ≡ alert)
    × IsFailure truncated (age_of age ages) (limit_of age policy)

pub framework_alerts-Fails :
    (policy : HealthPolicy) (truncated : Bool) (age : Age) (framework : String)
    (item : String × Ages)
    → In (raised age framework) (framework_alerts policy truncated item)
      ↔ Fails truncated policy age framework item
unfolding framework_alerts
framework_alerts-Fails policy truncated age framework (name, ages) = go age
  where
    go :
        (x : Age)
        → In (raised x framework) (framework_alerts policy truncated (name, ages))
          ↔ Fails truncated policy x framework (name, ages)
    go x =
        let p =
          age_alerts-Raised x of_publication framework name truncated (level_of policy name)
            policy.publication_limit ages.publication in
        let s =
          age_alerts-Raised x of_stable framework name truncated (level_of policy name)
            policy.stable_limit ages.stable in
        let j =
          In-append (raised x framework)
            (age_alerts truncated (level_of policy name) publication_age name
              policy.publication_limit ages.publication)
            (age_alerts truncated (level_of policy name) stable_age name policy.stable_limit
              ages.stable) in
        (
          λ m. elim (j.0 m) [
            | inl i ↦
                (let k = p.0 i in
                  (
                    k.1,
                    k.2,
                    subst (λ y. IsFailure truncated (age_of y ages) (limit_of y policy)) (sym k.0)
                        k.3,
                  ))
            | inr i ↦
                (let k = s.0 i in
                  (
                    k.1,
                    k.2,
                    subst (λ y. IsFailure truncated (age_of y ages) (limit_of y policy)) (sym k.0)
                        k.3,
                  ))
          ],
          λ h. j.1 (place x p.1 s.1 h),
        )
      where
        place :
            (y : Age)
            → (Raised y of_publication framework name
                  (level_of policy name)
                  (IsFailure truncated ages.publication policy.publication_limit)
                → In (raised y framework) (
                    age_alerts truncated
                      (level_of policy name)
                      publication_age
                      name
                      policy.publication_limit
                      ages.publication))
            → (Raised y of_stable framework name
                  (level_of policy name)
                  (IsFailure truncated ages.stable policy.stable_limit)
                → In (raised y framework) (
                    age_alerts truncated
                      (level_of policy name)
                      stable_age
                      name
                      policy.stable_limit
                      ages.stable))
            → Fails truncated policy y framework (name, ages)
            → In (raised y framework) (
                age_alerts truncated
                  (level_of policy name)
                  publication_age
                  name
                  policy.publication_limit
                  ages.publication)
              ⊎ In (raised y framework) (
                  age_alerts truncated
                    (level_of policy name)
                    stable_age
                    name
                    policy.stable_limit
                    ages.stable)
        place of_publication p s h = inl (p (refl, h.0, h.1, h.2))
        place of_stable p s h = inr (s (refl, h.0, h.1, h.2))
