-- ===== src/Health/Frameworks/Proven.antt =====
-- Where the times of the promotions come from.
use alric_containers_image_b.Base.{
  ℕ, String, ◌≡◌, refl, sym, ap, ◌⊎◌, inl, inr, Bool, true, false, ◌||◌, Option, none, some, List,
  [], ◌∷◌, Result, In, map, arith, leb, is_some, if◌then◌else◌,
}
use mathlib.Core.Path.{subst}
use alric_containers_image_b.Base.Sorting.{In-sorted}
use alric_containers_image_b.Base.Order.{sorted}
use alric_containers_image_b.Health.Schedule.{Job, Run, is_text}
use alric_containers_image_b.Health.Evaluate.{find}
use alric_containers_image_b.Health.Frameworks.{
  Item, Entry, no_entry, batch_job_of, is_publication, is_promotion, first_step, is_success,
  is_accepted, checked, promoted_at, with_evidence, with_publication, with_promotion, with_jobs,
  is_operational, evidence_of, items_of, entry_after, framework_health,
}
use alric_containers_image_b.Health.Frameworks.Queries.{begun, health_from-Keeps}

some-time : (a b : Option ℕ) → some a ≡ some b → a ≡ b
some-time a b h = ap (λ o. elim o [ none ↦ a | some x ↦ x ]) h

module _ (jobs_for : ℕ → List Job)
    (evidence_for : Run → Result (Unit {0}) (List (String × Item))) where
  -- A promotion by the evidence of the batch, accepted and promoted, or by the step of the framework's
  -- own job.
  abbrev pub ByBatch : String → Run → Option ℕ → Type 0
  ByBatch framework run at =
      (job : Job) × (item : Item) × (batch_job_of (jobs_for run.id) ≡ some job)
      × (find framework
            (items_of jobs_for evidence_for (evidence_of jobs_for evidence_for run (some job)))
          ≡ some item)
      × (is_accepted job item ≡ true)
      × (item.promoted ≡ true)
      × (at ≡ job.completed_at)

  abbrev pub ByStep : String → Run → Option ℕ → Type 0
  ByStep framework run at =
      (job : Job) × In job (jobs_for run.id)
      × (is_promotion framework job ≡ true)
      × (is_success (first_step job.steps) ≡ true)
      × (at ≡ job.completed_at)

  pub record IsSourced (runs : List Run) (framework : String) (entry : Entry) (at : Option ℕ)
      : Type 0 where
    pub run : Run
    pub listed : In run runs
    pub operational : is_operational run ≡ true
    pub recorded : entry.promotion_run ≡ some run.id
    pub source : ByBatch framework run at ⊎ ByStep framework run at

  abbrev Sound : List Run → String → Entry → Type 0
  Sound runs framework e =
      (at : Option ℕ) → e.last_promotion ≡ some at → IsSourced runs framework e at

  promoted_at-Sound :
      (runs : List Run) (framework : String) (confirmed : Bool) (run : Run) (at : Option ℕ)
      (e : Entry)
      → In run runs
      → is_operational run ≡ true
      → (ByBatch framework run at ⊎ ByStep framework run at)
      → Sound runs framework e
      → Sound runs framework (promoted_at confirmed run.id at e)
  promoted_at-Sound runs framework confirmed run at e m o s h = go (is_some e.last_promotion)
    where
      go :
          (b : Bool)
          → Sound runs framework (
              if b then e else record e {
                last_promotion = some at;
                promotion_run = some run.id;
                confirmed = confirmed || e.confirmed;
              })
      go true x q = h x q
      go false x q = record {
        run = run;
        listed = m;
        operational = o;
        recorded = refl;
        source = subst (λ y. ByBatch framework run y ⊎ ByStep framework run y) (some-time at x q) s;
      }

  checked-Sound :
      (runs : List Run) (framework : String) (at : Option ℕ) (e : Entry)
      → Sound runs framework e
      → Sound runs framework (checked at e)
  checked-Sound runs framework at e h = go (is_some e.last_promotion_checked)
    where
      go :
          (b : Bool)
          → Sound runs framework (if b then e else record e { last_promotion_checked = some at })
      go true x q = h x q
      go false x q =
          let k = h x q in
          record {
            run = k.run;
            listed = k.listed;
            operational = k.operational;
            recorded = k.recorded;
            source = k.source;
          }

  with_evidence-Sound :
      (runs : List Run) (framework : String) (run : Run) (job : Option Job) (item : Option Item)
      (e : Entry)
      → In run runs
      → is_operational run ≡ true
      → batch_job_of (jobs_for run.id) ≡ job
      → find framework (items_of jobs_for evidence_for (evidence_of jobs_for evidence_for run job))
        ≡ item
      → Sound runs framework e
      → Sound runs framework (with_evidence run job item e)
  with_evidence-Sound runs framework run none item e m o p q h = h
  with_evidence-Sound runs framework run (some job) none e m o p q h = h
  with_evidence-Sound runs framework run (some job) (some item) e m o p q h =
      go (is_accepted job item) refl item.promoted refl
    where
      go :
          (b : Bool)
          → is_accepted job item ≡ b
          → (c : Bool) → item.promoted ≡ c
          → Sound runs framework (
              if b
              then (if c
                  then promoted_at true run.id job.completed_at (checked job.completed_at e)
                  else checked job.completed_at e)
              else e)
      go false a c r = h
      go true a false r = checked-Sound runs framework job.completed_at e h
      go true a true r =
          promoted_at-Sound runs framework true run job.completed_at (checked job.completed_at e) m
            o (inl (job, item, p, q, a, r, refl))
            (checked-Sound runs framework job.completed_at e h)

  with_publication-Sound :
      (runs : List Run) (framework : String) (run : Run) (job : Job) (e : Entry)
      → Sound runs framework e
      → Sound runs framework (with_publication framework run job e)
  with_publication-Sound runs framework run job e h =
      go (is_publication framework job) (is_some e.last_publication)
    where
      go :
          (b c : Bool)
          → Sound runs framework (
              if b
              then (if c then e else record e {
                last_publication = some job.completed_at;
                publication_run = some run.id;
              })
              else e)
      go false c x q = h x q
      go true true x q = h x q
      go true false x q =
          let k = h x q in
          record {
            run = k.run;
            listed = k.listed;
            operational = k.operational;
            recorded = k.recorded;
            source = k.source;
          }

  with_promotion-Sound :
      (runs : List Run) (framework : String) (run : Run) (job : Job) (e : Entry)
      → In run runs
      → is_operational run ≡ true
      → In job (jobs_for run.id)
      → Sound runs framework e
      → Sound runs framework (with_promotion framework run job e)
  with_promotion-Sound runs framework run job e m o i h =
      go (is_promotion framework job) refl (is_success (first_step job.steps)) refl
        (if is_text job.conclusion "success" then checked job.completed_at e else e)
        (first (is_text job.conclusion "success"))
    where
      first : (c : Bool) → Sound runs framework (if c then checked job.completed_at e else e)
      first true = checked-Sound runs framework job.completed_at e h
      first false = h

      go :
          (b : Bool)
          → is_promotion framework job ≡ b
          → (d : Bool) → is_success (first_step job.steps) ≡ d
          → (f : Entry) → Sound runs framework f
          → Sound runs framework
              (if b then (if d then promoted_at false run.id job.completed_at f else f) else e)
      go false p d q f k = h
      go true p false q f k = k
      go true p true q f k =
          promoted_at-Sound runs framework false run job.completed_at f m o
            (inr (job, i, p, q, refl)) k

  with_jobs-Sound :
      (runs : List Run) (framework : String) (run : Run) (jobs : List Job) (e : Entry)
      → In run runs
      → is_operational run ≡ true
      → ((job : Job) → In job jobs → In job (jobs_for run.id))
      → Sound runs framework e
      → Sound runs framework (with_jobs framework run jobs e)
  unfolding with_jobs
  with_jobs-Sound runs framework run [] e m o i h = h
  with_jobs-Sound runs framework run (job ∷ jobs) e m o i h =
      with_jobs-Sound runs framework run jobs _ m o (λ j n. i j (inr n))
        (with_promotion-Sound runs framework run job (with_publication framework run job e) m o
          (i job (inl refl)) (with_publication-Sound runs framework run job e h))

  abbrev AllSound : List Run → List (String × Entry) → Type 0
  AllSound runs state = (s : String × Entry) → In s state → Sound runs s.0 s.1

  after_run-Sound :
      (runs : List Run) (run : Run) (state : List (String × Entry))
      → In run runs
      → is_operational run ≡ true
      → AllSound runs state
      → AllSound runs (map (λ s. (s.0, entry_after jobs_for evidence_for run s.0 s.1)) state)
  after_run-Sound runs run [] m o h s n = absurd n
  after_run-Sound runs run (t ∷ state) m o h s (inl e) =
      subst (λ x. Sound runs x.0 x.1) (sym e)
        (with_jobs-Sound runs t.0 run (jobs_for run.id) _ m o (λ j i. i)
          (with_evidence-Sound runs t.0 run (batch_job_of (jobs_for run.id)) _ t.1 m o refl refl
            (h t (inl refl))))
  after_run-Sound runs run (t ∷ state) m o h s (inr n) =
      after_run-Sound runs run state m o (λ x i. h x (inr i)) s n

  nothing-Sound :
      (runs : List Run) (frameworks : List String)
      → AllSound runs (map (λ f. (f, no_entry)) frameworks)
  nothing-Sound runs [] s n = absurd n
  nothing-Sound runs (f ∷ frameworks) s (inl e) =
      subst (λ x. Sound runs x.0 x.1) (sym e) (λ at q. absurd (ground (arith, q)))
  nothing-Sound runs (f ∷ frameworks) s (inr n) = nothing-Sound runs frameworks s n

  -- A time that framework_health gives as the last promotion of a framework comes from an
  -- operational run of the list, the one it names: from accepted evidence of the batch that says
  -- promoted, with the time of the batch's one concluded job, or from a promotion job of the
  -- framework whose promotion step succeeded, with the time of that job.
  pub framework_health-IsSourced :
      (runs : List Run) (frameworks : List String) (max_queries : ℕ) (framework : String)
      (entry : Entry) (at : Option ℕ)
      → In
          (framework, entry)
          (framework_health jobs_for evidence_for runs frameworks max_queries).frameworks
      → entry.last_promotion ≡ some at
      → IsSourced runs framework entry at
  unfolding framework_health
  framework_health-IsSourced runs frameworks max_queries framework entry at m e =
      health_from-Keeps jobs_for evidence_for (λ h. AllSound runs h.frameworks) max_queries
        (sorted (λ r s. leb s.created_at r.created_at) runs) (begun frameworks)
        (λ run g i o l p.
          after_run-Sound runs run g.frameworks
            ((In-sorted (λ r s. leb s.created_at r.created_at) run runs).0 i) o p)
        (λ g p. p) (nothing-Sound runs frameworks) (framework, entry) m at e
