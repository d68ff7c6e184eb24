-- ===== src/Health/Schedule/Missing.antt =====
-- The occurrences that no run covers.
use alric_containers_image_b.Base.{
  ℕ, zero, suc, ◌+◌, ◌≤◌, ◌<◌, String, ◌≡◌, refl, sym, ap, ◌∙◌, ◌↔◌, ◌⊎◌, inl, inr, Bool, true,
  false, not, ◌||◌, Option, none, some, List, [], ◌∷◌, In, keep, arith, leb, leb→le, ◌==◌,
  Bool-cases, if◌then◌else◌, length, ◌&&◌,
}
use mathlib.Core.Path.{subst}
use alric_containers_image_b.Base.Sorting.{In-sorted}
use alric_containers_image_b.Base.Membership.{In-keep, keep-In}
use alric_containers_image_b.Health.Cron.{
  minutes_from, cron_occurrences, occurrences_in, occurrences_of, rounds, first_minute, matches,
  cron_field, split_words, is_star,
}
use alric_containers_image_b.Health.Cron.Occurrences.{if_some}
use alric_containers_image_b.Base.Decimal.{codes}
use alric_containers_image_b.Health.Schedule.{
  Run, last_of, previous, Coverage, is_covered, cover, covered_by, coverage_from, sort_runs,
  ScheduleHealth, no_coverage, health_of, schedule_health,
}

-- Each is after the ones before it.
abbrev pub Ascending : List ℕ → Type 0
Ascending [] = Unit
Ascending (t ∷ ts) = ((u : ℕ) → In u ts → t < u) × Ascending ts

-- The last occurrence that is not after the run.
pub record IsLatest (occurrences : List ℕ) (run : Run) (t : ℕ) : Type 0 where
  pub member : In t occurrences
  pub before : t ≤ run.created_at
  pub latest : (u : ℕ) → In u occurrences → u ≤ run.created_at → u ≤ t

last_of-Greatest :
    (xs : List ℕ) (t : ℕ)
    → Ascending xs
    → last_of xs ≡ some t
    → In t xs × ((u : ℕ) → In u xs → u ≤ t)
last_of-Greatest [] t h e = absurd (ground (arith, e))
last_of-Greatest (x ∷ []) t h e =
    (inl (ground (arith, e)), λ u m. elim m [ inl k ↦ ground (arith, k, e) | inr k ↦ absurd k ])
last_of-Greatest (x ∷ y ∷ xs) t h e =
    let k = last_of-Greatest (y ∷ xs) t h.1 e in
    (
      inr k.0,
      λ u m. elim m [ inl q ↦ (let l = h.0 t k.0 in omega (arith, q, l)) | inr i ↦ k.1 u i ],
    )

last_of-some : (x : ℕ) (xs : List ℕ) → (t : ℕ) × (last_of (x ∷ xs) ≡ some t)
last_of-some x [] = (x, refl)
last_of-some x (y ∷ xs) = last_of-some y xs

Ascending-keep : (p : ℕ → Bool) (xs : List ℕ) → Ascending xs → Ascending (keep p xs)
Ascending-keep p [] h = tt
Ascending-keep p (x ∷ xs) h = go (p x) refl (Ascending-keep p xs h.1)
  where
    go :
        (b : Bool)
        → p x ≡ b
        → Ascending (keep p xs)
        → Ascending (elim b [ true ↦ x ∷ keep p xs | false ↦ keep p xs ])
    go true e k = (λ u m. h.0 u (keep-In p u xs m).0, k)
    go false e k = k

Ascending-minutes_from :
    (fuel : ℕ) (test : ℕ → Bool) (current end : ℕ)
    → Ascending (minutes_from fuel test current end)
      × ((u : ℕ) → In u (minutes_from fuel test current end) → current ≤ u)
unfolding minutes_from
Ascending-minutes_from zero test current end = (tt, λ u m. absurd m)
Ascending-minutes_from (suc fuel) test current end =
    go (leb current end) (test current) (Ascending-minutes_from fuel test (current + 60000000) end)
  where
    rest : List ℕ
    rest = minutes_from fuel test (current + 60000000) end

    go :
        (b c : Bool)
        → Ascending rest × ((u : ℕ) → In u rest → current + 60000000 ≤ u)
        → Ascending (if b then (if c then current ∷ rest else rest) else [])
          × ((u : ℕ) → In u (if b then (if c then current ∷ rest else rest) else []) → current ≤ u)
    go false c k = (tt, λ u m. absurd m)
    go true true k = (
      (λ u m. let l = k.1 u m in omega (arith, l), k.0),
      λ u m. elim m [ inl e ↦ omega (arith, e) | inr i ↦ (let l = k.1 u i in omega (arith, l)) ],
    )
    go true false k = (k.0, λ u m. let l = k.1 u m in omega (arith, l))

previous-IsLatest :
    (occurrences : List ℕ) (run : Run) (t : ℕ)
    → Ascending occurrences
    → (previous occurrences run ≡ some t) ↔ IsLatest occurrences run t
unfolding previous
previous-IsLatest occurrences run t h =
    let g = last_of-Greatest (keep test occurrences) in
    (
      λ e.
          let k = g t (Ascending-keep test occurrences h) e in
          let i = keep-In test t occurrences k.0 in
          record {
            member = i.0;
            before = leb→le t run.created_at i.1;
            latest = λ u m l. k.1 u (In-keep test u occurrences m (ground (arith, l)));
          },
      λ k.
          go (keep test occurrences) refl (Ascending-keep test occurrences h)
            (In-keep test t occurrences k.member (ground (arith, k.before))) k,
    )
  where
    test : ℕ → Bool
    test u = leb u run.created_at

    go :
        (xs : List ℕ)
        → keep test occurrences ≡ xs
        → Ascending xs
        → In t xs
        → IsLatest occurrences run t
        → last_of xs ≡ some t
    go [] e a m k = absurd m
    go (x ∷ xs) e a m k =
        let l = last_of-some x xs in
        let g = last_of-Greatest (x ∷ xs) l.0 a l.1 in
        let i = keep-In test l.0 occurrences (subst (In l.0) (sym e) g.0) in
        let below = k.latest l.0 i.0 (leb→le l.0 run.created_at i.1) in
        let above = g.1 t m in l.1 ∙ ap some (omega (arith, below, above))

is_covered-cover :
    (t u id : ℕ) (entries : List (ℕ × List ℕ))
    → is_covered t (cover u id entries) ≡ (u == t) || is_covered t entries
is_covered-cover t u id [] = refl
is_covered-cover t u id ((v, ids) ∷ entries) = ground (arith, is_covered-cover t u id entries)

-- Some run of the list has this occurrence as the last one before it.
abbrev Covers : List ℕ → List Run → ℕ → Type 0
Covers occurrences runs t = (r : Run) × In r runs × (previous occurrences r ≡ some t)

covered_by-Covers :
    (occurrences : List ℕ) (run : Run) (c : Coverage) (t : ℕ) (o : Option ℕ)
    → (is_covered t (covered_by run o c).covered ≡ true)
      ↔ ((is_covered t c.covered ≡ true) ⊎ (o ≡ some t))
covered_by-Covers occurrences run c t none =
    (λ h. inl h, λ h. elim h [ inl k ↦ k | inr e ↦ absurd (ground (arith, e)) ])
covered_by-Covers occurrences run c t (some u) =
    let e = is_covered-cover t u run.id c.covered in
    (
      λ h. elim (Bool-cases (u == t)) [
        | inl q ↦ inr (ground (arith, q))
        | inr q ↦ inl (ground (arith, h, e, q))
      ],
      λ h. elim h [ inl k ↦ ground (arith, k, e) | inr q ↦ ground (arith, q, e) ],
    )

coverage_from-Covers :
    (occurrences : List ℕ) (runs : List Run) (c : Coverage) (t : ℕ)
    → (is_covered t (coverage_from occurrences runs c).covered ≡ true)
      ↔ ((is_covered t c.covered ≡ true) ⊎ Covers occurrences runs t)
unfolding coverage_from
coverage_from-Covers occurrences [] c t =
    (λ h. inl h, λ h. elim h [ inl k ↦ k | inr k ↦ absurd k.1 ])
coverage_from-Covers occurrences (run ∷ runs) c t =
    let k = coverage_from-Covers occurrences runs (covered_by run (previous occurrences run) c) t in
    let j = covered_by-Covers occurrences run c t (previous occurrences run) in
    (
      λ h. elim (k.0 h) [
        | inl i ↦ elim (j.0 i) [ inl g ↦ inl g | inr e ↦ inr (run, inl refl, e) ]
        | inr (r, m, e) ↦ inr (r, inr m, e)
      ],
      λ h. k.1 (elim h [
        | inl g ↦ inl (j.1 (inl g))
        | inr (r, m, e) ↦ elim m [
          | inl q ↦ inl (j.1 (inr (ap (previous occurrences) (sym q) ∙ e)))
          | inr i ↦ inr (r, i, e)
        ]
      ]),
    )

In-sort_runs : (r : Run) (runs : List Run) → In r (sort_runs runs) ↔ In r runs
unfolding sort_runs
In-sort_runs r runs = In-sorted (λ r s. leb r.created_at s.created_at) r runs

Ascending-occurrences_in :
    (minutes hours : Option (List ℕ)) (start end : ℕ) (found : List ℕ)
    → occurrences_in minutes hours start end ≡ some found
    → Ascending found
Ascending-occurrences_in none hours start end found h = absurd (ground (arith, h))
Ascending-occurrences_in (some m) none start end found h = absurd (ground (arith, h))
Ascending-occurrences_in (some m) (some n) start end found h =
    subst Ascending (ap (λ o. elim o [ none ↦ [] | some xs ↦ xs ]) h)
      (Ascending-minutes_from (rounds (first_minute start) end) (matches m n) (first_minute start)
        end).0

Ascending-cron_occurrences :
    (expression : String) (start end : ℕ) (found : List ℕ)
    → cron_occurrences expression start end ≡ some found
    → Ascending found
unfolding cron_occurrences
Ascending-cron_occurrences expression start end found h = go (split_words (codes expression)) h
  where
    go : (words : List (List ℕ)) → occurrences_of words start end ≡ some found → Ascending found
    go (minute ∷ hour ∷ day ∷ month ∷ weekday ∷ []) k =
        Ascending-occurrences_in (cron_field minute 0 59) (cron_field hour 0 23) start end found
          (if_some (is_star day && is_star month && is_star weekday) _ found k).1
    go [] k = absurd (ground (arith, k))
    go (a ∷ []) k = absurd (ground (arith, k))
    go (a ∷ b ∷ []) k = absurd (ground (arith, k))
    go (a ∷ b ∷ c ∷ []) k = absurd (ground (arith, k))
    go (a ∷ b ∷ c ∷ d ∷ []) k = absurd (ground (arith, k))
    go (a ∷ b ∷ c ∷ d ∷ f ∷ g ∷ words) k = absurd (ground (arith, k))

-- The occurrences that schedule_health reports as missing are exactly those of the cron in the
-- window that are not the last occurrence at or before any of the runs.
pub schedule_health-Missing :
    (expression : String) (runs : List Run) (start end : ℕ) (found : List ℕ) (h : ScheduleHealth)
    → cron_occurrences expression start end ≡ some found
    → schedule_health expression runs start end ≡ some h
    → (t : ℕ) → In t h.missing ↔ (In t found × ((r : Run) → In r runs → ¬ IsLatest found r t))
unfolding schedule_health
schedule_health-Missing expression runs start end found h e k t =
    let same : some (measured found) ≡ some h = ap (health_of runs) (sym e) ∙ k in
    let asc = Ascending-cron_occurrences expression start end found e in
    subst (λ x. In t x.missing ↔ (In t found × ((r : Run) → In r runs → ¬ IsLatest found r t)))
      (ap (λ o. elim o [ none ↦ measured found | some x ↦ x ]) same)
      (
        λ m.
            let i = keep-In (λ u. not (is_covered u (covers found).covered)) t found m in
            (
              i.0,
              λ r n l.
                  let c =
                    (coverage_from-Covers found (sort_runs runs) no_coverage t).1
                      (inr (r, (In-sort_runs r runs).1 n, (previous-IsLatest found r t asc).1 l)) in
                  absurd (ground (arith, i.1, c)),
            ),
        λ m.
            In-keep (λ u. not (is_covered u (covers found).covered)) t found m.0
              (elim (Bool-cases (is_covered t (covers found).covered)) [
                | inr q ↦ ground (arith, q)
                | inl q ↦ elim ((coverage_from-Covers found (sort_runs runs) no_coverage t).0 q) [
                  | inl z ↦ absurd (ground (arith, z))
                  | inr (r, n, p) ↦
                      absurd
                        (m.1 r ((In-sort_runs r runs).0 n) ((previous-IsLatest found r t asc).0 p))
                ]
              ]),
      )
  where
    covers : List ℕ → Coverage
    covers occurrences = coverage_from occurrences (sort_runs runs) no_coverage

    measured : List ℕ → ScheduleHealth
    measured occurrences = record {
      expected = length occurrences;
      observed = length runs;
      missing = keep (λ u. not (is_covered u (covers occurrences).covered)) occurrences;
      duplicate_runs = (covers occurrences).duplicates;
      coverage = length (covers occurrences).covered;
      delays = (covers occurrences).delays;
    }
