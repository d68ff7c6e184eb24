-- ===== src/Health/Schedule.antt =====
-- `executed_groups`, `attribute_runs` and `schedule_health` of operational_health.py, before its
-- figures are rounded.
pub mod Attribution
pub mod Missing
use alric_containers_image_b.Base.{
  ℕ, ◌+◌, ◌-◌, String, Bool, true, false, not, ◌&&◌, ◌||◌, Option, none, some, List, [], ◌∷◌, ◌++◌,
  map, any, keep, ltb, leb, ◌==◌, str_eq, length, if◌then◌else◌,
}
use alric_containers_image_b.Base.Order.{sorted}
use alric_containers_image_b.Base.Decimal.{codes}
use alric_containers_image_b.Promotion.Reference.{is_space}
use alric_containers_image_b.Promotion.Evidence.{same_codes}
use alric_containers_image_b.Health.Cron.{cron_occurrences}

pub record Step : Type 0 where
  pub name : String
  pub conclusion : Option String

-- A job; a missing conclusion is none.
pub record Job : Type 0 where
  pub name : String
  pub conclusion : Option String
  pub completed_at : Option ℕ
  pub steps : List Step

pub record Run : Type 0 where
  pub id : ℕ
  pub event : String
  pub head_branch : String
  pub created_at : ℕ

abbrev pub is_text : Option String → String → Bool
is_text none text = false
is_text (some t) text = str_eq t text

-- `name.split(' / ')[0]`
abbrev pub starts_mark : List ℕ → Bool
starts_mark (a ∷ b ∷ c ∷ rest) = a == b' ' && b == b'/' && c == b' '
starts_mark _ = false

unfoldable pub before_mark : List ℕ → List ℕ
before_mark [] = []
before_mark (c ∷ cs) = let rest = before_mark cs in if starts_mark (c ∷ cs) then [] else c ∷ rest

-- `text.strip()`
abbrev pub is_nil : List ℕ → Bool
is_nil [] = true
is_nil (c ∷ cs) = false

unfoldable pub strip_left : List ℕ → List ℕ
unfolding is_space
strip_left [] = []
strip_left (c ∷ cs) = let rest = strip_left cs in if is_space c then rest else c ∷ cs

unfoldable pub strip_right : List ℕ → List ℕ
unfolding is_space
strip_right [] = []
strip_right (c ∷ cs) =
    let rest = strip_right cs in if is_space c && is_nil rest then [] else c ∷ rest

unfoldable pub group_of : Job → List ℕ
unfolding before_mark strip_left strip_right
group_of job = strip_right (strip_left (before_mark (codes job.name)))

abbrev pub Groups : Type 0
Groups = List (List ℕ × Bool)

-- `groups[group] = groups.get(group, False) or executed`
abbrev pub set_group : List ℕ → Bool → Groups → Groups
set_group group executed [] = (group, executed) ∷ []
set_group group executed ((g, e) ∷ groups) =
    if same_codes g group
    then (g, e || executed) ∷ groups
    else (g, e) ∷ set_group group executed groups

abbrev pub is_executed : Job → Bool
is_executed job = not (is_text job.conclusion "skipped")

abbrev pub groups_from : Groups → List Job → Groups
groups_from groups [] = groups
groups_from groups (job ∷ jobs) =
    groups_from (set_group (group_of job) (is_executed job) groups) jobs

-- `executed_groups`: the set of its groups.
unfoldable pub executed_groups : List Job → List (List ℕ)
unfolding group_of
executed_groups jobs = map (λ g. g.0) (keep (λ g. g.1) (groups_from [] jobs))

-- A cron and its job, as the policy declares them.
pub record Schedule : Type 0 where
  pub cron : String
  pub job : String

pub record Attributed : Type 0 where
  pub of_cron : String → List Run
  pub unattributed : List Run

abbrev pub has_group : List ℕ → List (List ℕ) → Bool
has_group group groups = any (λ g. same_codes g group) groups

unfoldable pub matched : List Job → List Schedule → List Schedule
unfolding executed_groups
matched jobs schedules = keep (λ s. has_group (codes s.job) (executed_groups jobs)) schedules

-- The cron of a run, where one alone matches.
abbrev pub only : List Schedule → Option String
only (s ∷ []) = some s.cron
only _ = none

abbrev pub attributed_to : Option String → Run → Attributed → Attributed
attributed_to (some cron) run a = record a {
  of_cron = λ c. if str_eq c cron then a.of_cron c ++ run ∷ [] else a.of_cron c;
}
attributed_to none run a = record a { unattributed = a.unattributed ++ run ∷ [] }

abbrev pub attribute_one : (ℕ → List Job) → List Schedule → Run → Attributed → Attributed
attribute_one jobs_for schedules run a =
    if str_eq run.event "schedule"
    then attributed_to (only (matched (jobs_for run.id) schedules)) run a
    else a

unfoldable pub attribute_from : (ℕ → List Job) → List Schedule → List Run → Attributed → Attributed
unfolding matched
attribute_from jobs_for schedules [] a = a
attribute_from jobs_for schedules (run ∷ runs) a =
    attribute_from jobs_for schedules runs (attribute_one jobs_for schedules run a)

-- `attribute_runs`
unfoldable pub attribute_runs : (ℕ → List Job) → List Run → List Schedule → Attributed
unfolding attribute_from
attribute_runs jobs_for runs schedules =
    attribute_from jobs_for schedules runs (record { of_cron = λ c. []; unattributed = [] })

-- `sorted(runs, key=lambda run: moment(run['created_at']))`
unfoldable pub sort_runs : List Run → List Run
unfolding sorted
sort_runs runs = sorted (λ r s. leb r.created_at s.created_at) runs

-- `[occurrence for occurrence in occurrences if occurrence <= created][-1]`
abbrev pub last_of : List ℕ → Option ℕ
last_of [] = none
last_of (t ∷ []) = some t
last_of (t ∷ u ∷ ts) = last_of (u ∷ ts)

unfoldable pub previous : List ℕ → Run → Option ℕ
previous occurrences run = last_of (keep (λ t. leb t run.created_at) occurrences)

-- What the loop over the runs has found.
pub record Coverage : Type 0 where
  pub covered : List (ℕ × List ℕ)
  pub delays : List ℕ
  pub duplicates : List ℕ

abbrev pub is_covered : ℕ → List (ℕ × List ℕ) → Bool
is_covered t entries = any (λ e. e.0 == t) entries

-- `covered.setdefault(occurrence, []).append(run['id'])`
abbrev pub cover : ℕ → ℕ → List (ℕ × List ℕ) → List (ℕ × List ℕ)
cover t id [] = (t, id ∷ []) ∷ []
cover t id ((u, ids) ∷ entries) =
    if u == t then (u, ids ++ id ∷ []) ∷ entries else (u, ids) ∷ cover t id entries

abbrev pub covered_by : Run → Option ℕ → Coverage → Coverage
covered_by run none c = c
covered_by run (some t) c = record {
  covered = cover t run.id c.covered;
  delays = c.delays ++ (run.created_at - t) ∷ [];
  duplicates = if is_covered t c.covered then c.duplicates ++ run.id ∷ [] else c.duplicates;
}

unfoldable pub coverage_from : List ℕ → List Run → Coverage → Coverage
unfolding previous
coverage_from occurrences [] c = c
coverage_from occurrences (run ∷ runs) c =
    coverage_from occurrences runs (covered_by run (previous occurrences run) c)

pub record ScheduleHealth : Type 0 where
  pub expected : ℕ
  pub observed : ℕ
  pub missing : List ℕ
  pub duplicate_runs : List ℕ
  pub coverage : ℕ
  pub delays : List ℕ

abbrev pub no_coverage : Coverage
no_coverage = record { covered = []; delays = []; duplicates = [] }

abbrev pub health_of : List Run → Option (List ℕ) → Option ScheduleHealth
health_of runs none = none
health_of runs (some occurrences) =
    let c = coverage_from occurrences (sort_runs runs) no_coverage in
    some (record {
      expected = length occurrences;
      observed = length runs;
      missing = keep (λ t. not (is_covered t c.covered)) occurrences;
      duplicate_runs = c.duplicates;
      coverage = length c.covered;
      delays = c.delays;
    })

-- `schedule_health`
unfoldable pub schedule_health : String → List Run → ℕ → ℕ → Option ScheduleHealth
unfolding cron_occurrences coverage_from sort_runs
schedule_health expression runs start end = health_of runs (cron_occurrences expression start end)
