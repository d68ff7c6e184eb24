-- ===== src/Health/Tests.antt =====
-- A cron twice an hour on three runs, a run of each of two crons, and the ages of three frameworks.
use alric_containers_image_b.Base.{
  ℕ, ◌*◌, String, ◌≡◌, refl, ◌↔◌, false, none, some, List, [], ◌∷◌, In, Result, ok, ltb,
  if◌then◌else◌, true, inl, inr,
}
use alric_containers_image_b.Health.Cron.{cron_occurrences}
use alric_containers_image_b.Health.Cron.Occurrences.{IsCron, IsDue, cron_occurrences-Exact}
use alric_containers_image_b.Health.Schedule.{Job, Run, Schedule, ScheduleHealth, schedule_health}
use alric_containers_image_b.Health.Schedule.Missing.{IsLatest, schedule_health-Missing}
use alric_containers_image_b.Health.Frameworks.{
  Item, Entry, no_entry, FrameworkHealth, framework_health,
}
use alric_containers_image_b.Health.Frameworks.Queries.{IsBounded, framework_health-IsBounded}
use alric_containers_image_b.Health.Frameworks.Proven.{IsSourced, framework_health-IsSourced}
use alric_containers_image_b.Health.Evaluate.{
  find, Level, Metric, Alert, Metrics, HealthPolicy, exception, empty_exception, evaluate,
}
use alric_containers_image_b.Health.Evaluate.AgeAlerts.{of_stable, raised, IsFailing}
use alric_containers_image_b.Health.Evaluate.Alerts.{evaluate-Raises}

abbrev at_minute : ℕ → ℕ
at_minute m = m * 60000000

abbrev run_at : ℕ → ℕ → Run
run_at id m = record {
  id = id;
  event = "schedule";
  head_branch = "develop";
  created_at = at_minute m;
}

abbrev runs : List Run
runs = run_at 2 63 ∷ run_at 1 16 ∷ run_at 3 65 ∷ []

-- At minutes 15 and 45, from the minute 10 to the minute 110.
abbrev expected : List ℕ
expected = at_minute 15 ∷ at_minute 45 ∷ at_minute 75 ∷ at_minute 105 ∷ []

occurs : cron_occurrences "15,45 * * * *" (at_minute 10) (at_minute 110) ≡ some expected
unfolding cron_occurrences
occurs = refl

abbrev measured : ScheduleHealth
measured = record {
  expected = 4;
  observed = 3;
  missing = at_minute 75 ∷ at_minute 105 ∷ [];
  duplicate_runs = 3 ∷ [];
  coverage = 2;
  delays = at_minute 1 ∷ at_minute 18 ∷ at_minute 20 ∷ [];
}

measures : schedule_health "15,45 * * * *" runs (at_minute 10) (at_minute 110) ≡ some measured
unfolding schedule_health
measures = refl

cron_occurrences-Exact_example :
    (minutes : List ℕ) × (hours : List ℕ) × IsCron "15,45 * * * *" minutes hours
    × ((t : ℕ) → In t expected ↔ IsDue minutes hours (at_minute 10) (at_minute 110) t)
cron_occurrences-Exact_example =
    cron_occurrences-Exact "15,45 * * * *" (at_minute 10) (at_minute 110) expected occurs

schedule_health-Missing_example :
    In (at_minute 75) measured.missing
    ↔ (In (at_minute 75) expected × ((r : Run) → In r runs → ¬ IsLatest expected r (at_minute 75)))
schedule_health-Missing_example =
    schedule_health-Missing "15,45 * * * *" runs (at_minute 10) (at_minute 110) expected measured
      occurs measures (at_minute 75)

-- The daily build ran in the run 1, the promotion in the run 2.
abbrev job : String → Job
job name = record { name = name; conclusion = some "success"; completed_at = none; steps = [] }

abbrev jobs_of : ℕ → List Job
jobs_of id = if ltb id 2 then job "build / go1" ∷ [] else job "promote / stable" ∷ []

abbrev crons : List Schedule
crons =
    record { cron = "0 3 * * *"; job = "build" }
    ∷ record { cron = "15 * * * *"; job = "promote" }
    ∷ []

abbrev metrics : Metrics
metrics = record {
  workflow = "build.yml";
  frameworks =
      ("python", record { publication = some 100; stable = some 9000 })
      ∷ ("go", record { publication = some 9000; stable = none })
      ∷ [];
  truncated = false;
  evidence_gaps = [];
  schedules = record { cron = "15 * * * *"; since_last_run = some 100; max_gap = none } ∷ [];
}

abbrev policy : HealthPolicy
policy = record {
  publication_limit = 4800;
  stable_limit = 4800;
  exceptions = ("go", exception (some 10)) ∷ ("node", empty_exception) ∷ [];
  scope = none;
  scope_review_by = none;
  gap_limits = ("15 * * * *", 300) ∷ [];
}

abbrev alerts : List Alert
alerts =
    record { level = Level.known; metric = Metric.publication_age; subject = "go" }
    ∷ record { level = Level.known; metric = Metric.stable_age; subject = "go" }
    ∷ record { level = Level.alert; metric = Metric.stable_age; subject = "python" }
    ∷ record { level = Level.alert; metric = Metric.exception_review; subject = "go" }
    ∷ record { level = Level.alert; metric = Metric.exception_review; subject = "node" }
    ∷ []

evaluates : evaluate metrics policy 20 ≡ some alerts
unfolding evaluate
evaluates = refl

evaluate-Raises_example :
    In (raised of_stable "python") alerts
    ↔ IsFailing metrics.frameworks false policy of_stable "python"
evaluate-Raises_example = evaluate-Raises metrics policy 20 alerts evaluates of_stable "python"

-- A push run whose batch job failed, with the evidence of one complete unit, and a later run.
abbrev batch_job : Job
batch_job = record {
  name = "promote / Authorize and promote stable candidates";
  conclusion = some "failure";
  completed_at = some 7;
  steps = [];
}

abbrev promote_job : Job
promote_job = record {
  name = "promote / Promote go";
  conclusion = some "success";
  completed_at = some 9;
  steps = record { name = "Promote to stable"; conclusion = some "success" } ∷ [];
}

abbrev dev_runs : List Run
dev_runs =
    record { id = 1; event = "push"; head_branch = "develop"; created_at = 5 }
    ∷ record { id = 2; event = "push"; head_branch = "develop"; created_at = 8 }
    ∷ record { id = 3; event = "pull_request"; head_branch = "feature"; created_at = 9 }
    ∷ []

abbrev jobs_in : ℕ → List Job
jobs_in id = if ltb id 2 then batch_job ∷ [] else promote_job ∷ []

abbrev evidence_in : Run → Result (Unit {0}) (List (String × Item))
evidence_in run =
    ok (("python", record { unit_complete = true; promoted = true; unit_status = true }) ∷ [])

abbrev health : FrameworkHealth
health = framework_health jobs_in evidence_in dev_runs ("go" ∷ "python" ∷ []) 2

abbrev entry_at : String → Entry
entry_at framework = elim (find framework health.frameworks) [ none ↦ no_entry | some e ↦ e ]

promoted_python : (entry_at "python").last_promotion ≡ some (some 7)
unfolding framework_health
promoted_python = refl

promoted_go : (entry_at "go").last_promotion ≡ some (some 9)
unfolding framework_health
promoted_go = refl

framework_health-IsBounded_example : IsBounded jobs_in evidence_in dev_runs 2 health
framework_health-IsBounded_example =
    framework_health-IsBounded jobs_in evidence_in dev_runs ("go" ∷ "python" ∷ []) 2

in_health : In ("python", entry_at "python") health.frameworks
unfolding framework_health
in_health = inr (inl refl)

framework_health-IsSourced_example :
    IsSourced jobs_in evidence_in dev_runs "python" (entry_at "python") (some 7)
framework_health-IsSourced_example =
    framework_health-IsSourced jobs_in evidence_in dev_runs ("go" ∷ "python" ∷ []) 2 "python"
      (entry_at "python") (some 7) in_health promoted_python
