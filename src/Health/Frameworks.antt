-- ===== src/Health/Frameworks.antt =====
-- `framework_health` of operational_health.py, before the ages are computed. The evidence of a run comes
-- from `batch_promotion_evidence`, a parameter.
pub mod Queries
pub mod Proven
use alric_containers_image_b.Base.{
  ℕ, zero, suc, ◌+◌, String, Bool, true, false, not, ◌&&◌, ◌||◌, Option, none, some, List, [], ◌∷◌,
  ◌++◌, Result, ok, err, map, all, any, keep, leb, ◌==◌, str_eq, is_some, if◌then◌else◌,
}
use alric_containers_image_b.Base.Order.{sorted}
use alric_containers_image_b.Base.Decimal.{codes}
use alric_containers_image_b.Promotion.Evidence.{same_codes}
use alric_containers_image_b.Health.Schedule.{Step, Job, Run, is_text, starts_mark}
use alric_containers_image_b.Health.Evaluate.{find}

-- What is read of the evidence of a framework: whether its unit was validated as complete, whether it
-- is promoted, and whether it has the status of a unit.
pub record Item : Type 0 where
  pub unit_complete : Bool
  pub promoted : Bool
  pub unit_status : Bool

-- The entry of a framework; a value that is set may be no time.
pub record Entry : Type 0 where
  pub last_publication : Option (Option ℕ)
  pub publication_run : Option ℕ
  pub last_promotion : Option (Option ℕ)
  pub promotion_run : Option ℕ
  pub last_promotion_checked : Option (Option ℕ)
  pub confirmed : Bool

abbrev pub no_entry : Entry
no_entry = record {
  last_publication = none;
  publication_run = none;
  last_promotion = none;
  promotion_run = none;
  last_promotion_checked = none;
  confirmed = false;
}

-- `name.split(' / ')[-1]`, with the segment so far and the characters of a mark that are left.
abbrev pub next_segment : List ℕ → ℕ → List ℕ → List ℕ × ℕ
next_segment segment (suc skip) cs = (segment, skip)
next_segment segment zero [] = (segment, zero)
next_segment segment zero (c ∷ cs) =
    if starts_mark (c ∷ cs) then ([], 2) else (segment ++ c ∷ [], zero)

unfoldable pub last_segment : List ℕ → ℕ → List ℕ → List ℕ
last_segment segment skip [] = segment
last_segment segment skip (c ∷ cs) =
    let (now, left) = next_segment segment skip (c ∷ cs) in last_segment now left cs

-- `name.endswith(suffix)`
unfoldable pub ends_with : List ℕ → List ℕ → Bool
ends_with [] suffix = same_codes [] suffix
ends_with (c ∷ cs) suffix = same_codes (c ∷ cs) suffix || ends_with cs suffix

unfoldable pub is_batch_job : Job → Bool
unfolding last_segment
is_batch_job job =
    same_codes (last_segment [] zero (codes job.name))
      (codes "Authorize and promote stable candidates")

abbrev pub is_concluded : Job → Bool
is_concluded job =
    (is_text job.conclusion "success" || is_text job.conclusion "failure")
    && is_some job.completed_at

-- The batch job, where one alone has concluded.
abbrev pub concluded : List Job → Option Job
concluded (job ∷ []) = if is_concluded job then some job else none
concluded _ = none

unfoldable pub batch_job_of : List Job → Option Job
unfolding is_batch_job
batch_job_of jobs = concluded (keep is_batch_job jobs)

unfoldable pub is_publication : String → Job → Bool
unfolding ends_with
is_publication framework job =
    ends_with (codes job.name) (codes "Build & push " ++ codes framework)
    && is_text job.conclusion "success"

unfoldable pub is_promotion : String → Job → Bool
unfolding ends_with
is_promotion framework job = ends_with (codes job.name) (codes "Promote " ++ codes framework)

abbrev pub first_step : List Step → Option Step
first_step [] = none
first_step (step ∷ steps) =
    let rest = first_step steps in if str_eq step.name "Promote to stable" then some step else rest

abbrev pub is_success : Option Step → Bool
is_success none = false
is_success (some step) = is_text step.conclusion "success"

abbrev pub is_accepted : Job → Item → Bool
is_accepted job item =
    item.unit_complete || (is_text job.conclusion "success" && not item.unit_status)

abbrev pub checked : Option ℕ → Entry → Entry
checked at e =
    if is_some e.last_promotion_checked then e else record e { last_promotion_checked = some at }

abbrev pub promoted_at : Bool → ℕ → Option ℕ → Entry → Entry
promoted_at confirmed run at e = if is_some e.last_promotion then e else record e {
  last_promotion = some at;
  promotion_run = some run;
  confirmed = confirmed || e.confirmed;
}

-- The part of the evidence of the batch.
abbrev pub with_evidence : Run → Option Job → Option Item → Entry → Entry
with_evidence run (some job) (some item) e =
    if is_accepted job item
    then (if item.promoted
        then promoted_at true run.id job.completed_at (checked job.completed_at e)
        else checked job.completed_at e)
    else e
with_evidence run _ _ e = e

abbrev pub published_at : Run → Job → Entry → Entry
published_at run job e =
    if is_some e.last_publication
    then e
    else record e { last_publication = some job.completed_at; publication_run = some run.id }

abbrev pub with_publication : String → Run → Job → Entry → Entry
with_publication framework run job e =
    if is_publication framework job then published_at run job e else e

abbrev pub with_promotion : String → Run → Job → Entry → Entry
with_promotion framework run job e =
    if is_promotion framework job
    then (let f = if is_text job.conclusion "success" then checked job.completed_at e else e in
        if is_success (first_step job.steps)
        then promoted_at false run.id job.completed_at f
        else f)
    else e

unfoldable pub with_jobs : String → Run → List Job → Entry → Entry
unfolding is_publication is_promotion
with_jobs framework run [] e = e
with_jobs framework run (job ∷ jobs) e =
    with_jobs framework run jobs
      (with_promotion framework run job (with_publication framework run job e))

-- The entries, and the runs whose jobs were asked for.
pub record FrameworkHealth : Type 0 where
  pub frameworks : List (String × Entry)
  pub asked : List ℕ
  pub job_queries : ℕ
  pub truncated : Bool
  pub evidence_gaps : List ℕ

abbrev pub is_complete : List (String × Entry) → Bool
is_complete state = all (λ s. is_some s.1.last_publication && is_some s.1.last_promotion) state

abbrev pub is_operational : Run → Bool
is_operational run =
    (str_eq run.event "push" || str_eq run.event "schedule" || str_eq run.event "workflow_dispatch")
    && str_eq run.head_branch "develop"

module _ (jobs_for : ℕ → List Job)
    (evidence_for : Run → Result (Unit {0}) (List (String × Item))) where
  -- The evidence of a run that has a batch job.
  abbrev pub evidence_of : Run → Option Job → Result (Unit {0}) (List (String × Item))
  evidence_of run none = ok []
  evidence_of run (some job) = evidence_for run

  abbrev pub items_of : Result (Unit {0}) (List (String × Item)) → List (String × Item)
  items_of (ok items) = items
  items_of (err e) = []

  abbrev pub gaps_of : Run → Result (Unit {0}) (List (String × Item)) → List ℕ
  gaps_of run (ok items) = []
  gaps_of run (err e) = run.id ∷ []

  abbrev pub entry_after : Run → String → Entry → Entry
  entry_after run framework e =
      let jobs = jobs_for run.id in
      let job = batch_job_of jobs in
      with_jobs framework run jobs
        (with_evidence run job (find framework (items_of (evidence_of run job))) e)

  abbrev pub after_run : Run → FrameworkHealth → FrameworkHealth
  after_run run h = record h {
    frameworks = map (λ s. (s.0, entry_after run s.0 s.1)) h.frameworks;
    asked = h.asked ++ run.id ∷ [];
    job_queries = h.job_queries + 1;
    evidence_gaps =
        h.evidence_gaps ++ gaps_of run (evidence_of run (batch_job_of (jobs_for run.id)));
  }

  unfoldable pub health_from : ℕ → List Run → FrameworkHealth → FrameworkHealth
  unfolding batch_job_of with_jobs
  health_from max_queries [] h = h
  health_from max_queries (run ∷ runs) h =
      let on = health_from max_queries runs (if is_operational run then after_run run h else h) in
      if not (is_operational run)
      then on
      else if is_complete h.frameworks
      then h
      else if leb max_queries h.job_queries
      then record h { truncated = true }
      else on

  -- `framework_health`
  unfoldable pub framework_health : List Run → List String → ℕ → FrameworkHealth
  unfolding health_from sorted
  framework_health runs frameworks max_queries =
      health_from max_queries (sorted (λ r s. leb s.created_at r.created_at) runs) (record {
        frameworks = map (λ f. (f, no_entry)) frameworks;
        asked = [];
        job_queries = 0;
        truncated = false;
        evidence_gaps = [];
      })
