-- ===== src/Health/Frameworks/Queries.antt =====
-- The loop over the runs, and the number of its queries.
use alric_containers_image_b.Base.{
  ℕ, ◌≤◌, String, ◌≡◌, refl, sym, inl, inr, Bool, true, false, not, List, [], ◌∷◌, Result, In,
  length, map, arith, leb, if◌then◌else◌,
}
use alric_containers_image_b.Base.Membership.{In-append, length-append}
use alric_containers_image_b.Base.Order.{sorted}
use alric_containers_image_b.Base.Sorting.{In-sorted}
use alric_containers_image_b.Health.Schedule.{Job, Run}
use alric_containers_image_b.Health.Frameworks.{
  Item, no_entry, FrameworkHealth, is_complete, is_operational, after_run, health_from,
  framework_health,
}

abbrev pub begun : List String → FrameworkHealth
begun frameworks = record {
  frameworks = map (λ f. (f, no_entry)) frameworks;
  asked = [];
  job_queries = 0;
  truncated = false;
  evidence_gaps = [];
}

module _ (jobs_for : ℕ → List Job)
    (evidence_for : Run → Result (Unit {0}) (List (String × Item))) where
  -- One round, as the loop takes it.
  pub health_from-Keeps :
      (P : FrameworkHealth → Type 0) (max_queries : ℕ) (runs : List Run) (h : FrameworkHealth)
      → ((run : Run) (g : FrameworkHealth)
          → In run runs
          → is_operational run ≡ true
          → leb max_queries g.job_queries ≡ false
          → P g
          → P (after_run jobs_for evidence_for run g))
      → ((g : FrameworkHealth) → P g → P (record g { truncated = true }))
      → P h
      → P (health_from jobs_for evidence_for max_queries runs h)
  unfolding health_from
  health_from-Keeps P max_queries [] h step cut p = p
  health_from-Keeps P max_queries (run ∷ runs) h step cut p =
      go (is_operational run) refl (is_complete h.frameworks) (leb max_queries h.job_queries) refl
        (λ g q. health_from-Keeps P max_queries runs g (λ r k m. step r k (inr m)) cut q)
    where
      go :
          (o : Bool)
          → is_operational run ≡ o
          → (c l : Bool) → leb max_queries h.job_queries ≡ l
          → ((g : FrameworkHealth) → P g → P (health_from jobs_for evidence_for max_queries runs g))
          → P (
              if not o
              then health_from jobs_for evidence_for max_queries runs
                  (if o then after_run jobs_for evidence_for run h else h)
              else if c
              then h
              else if l
              then record h { truncated = true }
              else health_from jobs_for evidence_for max_queries runs
                  (if o then after_run jobs_for evidence_for run h else h))
      go false e c l f later = later h p
      go true e true l f later = p
      go true e false true f later = cut h p
      go true e false false f later =
          later (after_run jobs_for evidence_for run h) (step run h (inl refl) e f p)

  -- The runs that were asked for are counted, are not too many, and are operational runs of the list.
  pub record IsBounded (runs : List Run) (max_queries : ℕ) (h : FrameworkHealth) : Type 0 where
    pub counted : length h.asked ≡ h.job_queries
    pub bounded : length h.asked ≤ max_queries
    pub operational :
        (id : ℕ)
        → In id h.asked
        → (run : Run) × In run runs × (is_operational run ≡ true) × (run.id ≡ id)

  asks :
      (runs : List Run) (max_queries : ℕ) (run : Run) (h : FrameworkHealth)
      → In run runs
      → is_operational run ≡ true
      → leb max_queries h.job_queries ≡ false
      → IsBounded runs max_queries h
      → IsBounded runs max_queries (after_run jobs_for evidence_for run h)
  asks runs max_queries run h m o l b = record {
    counted = ground (arith, length-append h.asked run.id, b.counted);
    bounded = ground (arith, length-append h.asked run.id, b.counted, l);
    operational = λ id k. elim (In-append id run.id h.asked k) [
      | inl old ↦ b.operational id old
      | inr e ↦ (run, m, o, sym e)
    ];
  }

  -- The runs whose jobs framework_health asks for are as many as its job_queries, at most
  -- max_queries, and each is an operational run of the list.
  pub framework_health-IsBounded :
      (runs : List Run) (frameworks : List String) (max_queries : ℕ)
      → IsBounded runs max_queries
          (framework_health jobs_for evidence_for runs frameworks max_queries)
  unfolding framework_health
  framework_health-IsBounded runs frameworks max_queries =
      health_from-Keeps (IsBounded runs max_queries) max_queries
        (sorted (λ r s. leb s.created_at r.created_at) runs) (begun frameworks)
        (λ run g m o l b.
          asks runs max_queries run g
            ((In-sorted (λ r s. leb s.created_at r.created_at) run runs).0 m) o l b)
        (λ g b. record { counted = b.counted; bounded = b.bounded; operational = b.operational })
        (record { counted = refl; bounded = omega arith; operational = λ id k. absurd k })
