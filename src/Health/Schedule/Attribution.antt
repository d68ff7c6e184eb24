-- ===== src/Health/Schedule/Attribution.antt =====
-- Each scheduled run is attributed to the one cron whose job it executed, or to none.
use alric_containers_image_b.Base.{ℕ, String, ◌≡◌, Option, none, some, List}
use alric_containers_image_b.Health.Schedule.{Job, Run, Schedule, Attributed, matched, only}

-- A scheduled run whose only cron is this one, or none.
pub record IsOf (jobs_for : ℕ → List Job) (schedules : List Schedule) (cron : Option String)
    (run : Run) : Type 0 where
  pub scheduled : run.event ≡ "schedule"
  pub owner : only (matched (jobs_for run.id) schedules) ≡ cron

-- Where a run is found.
abbrev pub place : Option String → Attributed → List Run
place none a = a.unattributed
place (some cron) a = a.of_cron cron
