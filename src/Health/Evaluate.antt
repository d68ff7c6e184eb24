-- ===== src/Health/Evaluate.antt =====
-- `evaluate` of operational_health.py. Ages and limits are in hundredths of an hour, and the texts of
-- the messages are not kept; none is KeyError.
pub mod Others
pub mod AgeAlerts
pub mod Alerts
use alric_containers_image_b.Base.{
  ℕ, String, Bool, true, false, not, ◌&&◌, ◌||◌, Option, none, some, List, [], ◌∷◌, ◌++◌, map, ltb,
  leb, elem, str_eq, if◌then◌else◌,
}
use alric_containers_image_b.Base.Order.{sorted, str_leb}

pub data Level : Type 0 where
  alert known out_of_scope unknown : Level

pub data Metric : Type 0 where
  publication_age stable_age job_queries_truncated promotion_evidence : Metric
  schedule_gap exception_review scope_review : Metric

pub record Alert : Type 0 where
  pub level : Level
  pub metric : Metric
  pub subject : String

-- The ages of a framework; none is that there is no data.
pub record Ages : Type 0 where
  pub publication : Option ℕ
  pub stable : Option ℕ

pub record ScheduleAges : Type 0 where
  pub cron : String
  pub since_last_run : Option ℕ
  pub max_gap : Option ℕ

pub record Metrics : Type 0 where
  pub workflow : String
  pub frameworks : List (String × Ages)
  pub truncated : Bool
  pub evidence_gaps : List String
  pub schedules : List ScheduleAges

-- An entry of `exceptions`: an empty one, or one with its `review_by`. Its `reason` is taken to be there.
pub data Exception : Type 0 where
  empty_exception : Exception
  exception : Option ℕ → Exception

abbrev pub review_of : Exception → Option ℕ
review_of empty_exception = none
review_of (exception review) = review

-- The policy; a review is the moment of its date, and the scope is none where there is no `current`.
pub record HealthPolicy : Type 0 where
  pub publication_limit : ℕ
  pub stable_limit : ℕ
  pub exceptions : List (String × Exception)
  pub scope : Option (List String)
  pub scope_review_by : Option ℕ
  pub gap_limits : List (String × ℕ)

abbrev pub find : {A : Type 0} → String → List (String × A) → Option A
find key [] = none
find key ((k, a) ∷ items) = let rest = find key items in if str_eq k key then some a else rest

abbrev pub in_scope : Option (List String) → String → Bool
in_scope none framework = true
in_scope (some current) framework = elem framework current

-- `elif exception`: an empty one is none.
abbrev pub excepted : Option Exception → Level
excepted none = alert
excepted (some empty_exception) = alert
excepted (some (exception review)) = known

abbrev pub level_of : HealthPolicy → String → Level
level_of policy framework =
    if in_scope policy.scope framework
    then excepted (find framework policy.exceptions)
    else out_of_scope

-- The alert of an age, if any.
abbrev pub age_alerts : Bool → Level → Metric → String → ℕ → Option ℕ → List Alert
age_alerts truncated level metric framework limit none =
    record { level = if truncated then unknown else level; metric = metric; subject = framework }
    ∷ []
age_alerts truncated level metric framework limit (some age) =
    if ltb limit age
    then record { level = level; metric = metric; subject = framework } ∷ []
    else []

unfoldable pub framework_alerts : HealthPolicy → Bool → String × Ages → List Alert
framework_alerts policy truncated (framework, ages) =
    age_alerts truncated (level_of policy framework) publication_age framework
      policy.publication_limit ages.publication
    ++ age_alerts truncated (level_of policy framework) stable_age framework policy.stable_limit
        ages.stable

unfoldable pub all_frameworks : HealthPolicy → Bool → List (String × Ages) → List Alert
unfolding framework_alerts
all_frameworks policy truncated [] = []
all_frameworks policy truncated (item ∷ items) =
    framework_alerts policy truncated item ++ all_frameworks policy truncated items

abbrev pub truncation_alerts : Metrics → List Alert
truncation_alerts metrics =
    if metrics.truncated
    then record { level = alert; metric = job_queries_truncated; subject = metrics.workflow } ∷ []
    else []

abbrev pub gap_alert : String → Alert
gap_alert run = record { level = unknown; metric = promotion_evidence; subject = run }

abbrev pub schedule_alert : String → List Alert
schedule_alert cron = record { level = alert; metric = schedule_gap; subject = cron } ∷ []

abbrev pub is_over : Option ℕ → ℕ → Bool
is_over none limit = false
is_over (some gap) limit = ltb limit gap

abbrev pub since_alerts : String → ℕ → Option ℕ → Option ℕ → List Alert
since_alerts cron limit none max_gap = schedule_alert cron
since_alerts cron limit (some since) max_gap =
    if ltb limit since || is_over max_gap limit then schedule_alert cron else []

abbrev pub limited : ScheduleAges → Option ℕ → Option (List Alert)
limited s none = none
limited s (some limit) = some (since_alerts s.cron limit s.since_last_run s.max_gap)

abbrev pub appended : Option (List Alert) → Option (List Alert) → Option (List Alert)
appended (some xs) (some ys) = some (xs ++ ys)
appended _ _ = none

unfoldable pub schedule_alerts : HealthPolicy → List ScheduleAges → Option (List Alert)
schedule_alerts policy [] = some []
schedule_alerts policy (s ∷ schedules) =
    appended (limited s (find s.cron policy.gap_limits)) (schedule_alerts policy schedules)

-- A review that is missing or past.
abbrev pub review_alerts : Metric → String → ℕ → Option ℕ → List Alert
review_alerts metric subject now none =
    record { level = alert; metric = metric; subject = subject } ∷ []
review_alerts metric subject now (some review) =
    if ltb review now then record { level = alert; metric = metric; subject = subject } ∷ [] else []

unfoldable pub exception_alerts : ℕ → List (String × Exception) → List Alert
exception_alerts now [] = []
exception_alerts now ((framework, e) ∷ items) =
    review_alerts exception_review framework now (review_of e) ++ exception_alerts now items

abbrev pub scope_alerts : HealthPolicy → ℕ → List Alert
scope_alerts policy now = elim policy.scope [
  | none ↦ []
  | some current ↦ review_alerts scope_review "execution_scope" now policy.scope_review_by
]

abbrev pub by_name : {A : Type 0} → String × A → String × A → Bool
by_name a b = str_leb a.0 b.0

abbrev pub then_reviews : HealthPolicy → ℕ → List Alert → Option (List Alert) → Option (List Alert)
then_reviews policy now before none = none
then_reviews policy now before (some schedules) = some (
    before
    ++ (schedules
        ++ (exception_alerts now (sorted by_name policy.exceptions) ++ scope_alerts policy now)))

-- `evaluate`
unfoldable pub evaluate : Metrics → HealthPolicy → ℕ → Option (List Alert)
unfolding all_frameworks schedule_alerts exception_alerts sorted
evaluate metrics policy now =
    then_reviews policy now
      (all_frameworks policy metrics.truncated (sorted by_name metrics.frameworks)
        ++ (truncation_alerts metrics ++ map gap_alert metrics.evidence_gaps))
      (schedule_alerts policy metrics.schedules)
