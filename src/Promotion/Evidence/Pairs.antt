-- ===== src/Promotion/Evidence/Pairs.antt =====
-- What the binding of a pair and its completion say of the two pieces of evidence.
use alric_containers_image_b.Base.{
  ℕ, String, ◌≡◌, refl, sym, ap, ◌∙◌, Bool, true, false, ◌&&◌, ◌||◌, Option, none, some, List, [],
  ◌∷◌, eq_iff, arith, if◌then◌else◌,
}
use mathlib.Core.Path.{subst}
use alric_containers_image_b.Base.Decimal.{codes}
use alric_containers_image_b.BuildTag.{run_identity}
use alric_containers_image_b.Promotion.Evidence.{
  confirmed, WriteStatus, completed, Binding, Evidence, PairResult, pair_skipped, pair_bound,
  same_option, is_given, text_of, same_codes, same_run, bound, bound_runs, is_completed,
  is_promoted_exactly, is_untouched, completed_pair, verify_pair, verify_completed_pair,
}
use alric_containers_image_b.Promotion.Evidence.Outcome.{is_confirmed-confirmed}

-- The two pieces of evidence are of one build run, and name the digests of the binding.
pub record IsBinding (runtime dev : Evidence) (b : Binding) : Type 0 where
  pub runtime_kept : runtime.skipped ≡ false
  pub dev_kept : dev.skipped ≡ false
  pub runtime_run : run_identity (codes (text_of runtime.tag)) ≡ some b.source_run
  pub dev_run : run_identity (codes (text_of dev.tag)) ≡ some b.source_run
  pub runtime_asked : runtime.candidate_digest ≡ some b.runtime_digest
  pub dev_asked : dev.candidate_digest ≡ some b.dev_digest

pub same_codes-eq : (xs ys : List ℕ) → same_codes xs ys ≡ true → xs ≡ ys
same_codes-eq [] [] h = refl
same_codes-eq [] (y ∷ ys) h = absurd (ground (arith, h))
same_codes-eq (x ∷ xs) [] h = absurd (ground (arith, h))
same_codes-eq (x ∷ xs) (y ∷ ys) h = ground (arith, h, same_codes-eq xs ys (ground (arith, h)))

same_run-eq : (r s : List ℕ × List ℕ) → same_run r s ≡ true → r ≡ s
same_run-eq (a, b) (c, d) h =
    ground (arith, same_codes-eq a c (ground (arith, h)), same_codes-eq b d (ground (arith, h)))

given-text : (o : Option String) → is_given o ≡ true → o ≡ some (text_of o)
given-text none h = absurd (ground (arith, h))
given-text (some d) h = refl

if-some :
    {A : Type 0} (c : Bool) (x : Option A) (y : A)
    → (if c then x else none) ≡ some y
    → (c ≡ true) × (x ≡ some y)
if-some true x y h = (refl, h)
if-some false x y h = absurd (ground (arith, h))

some-injective : {A : Type 0} (x y : A) → some x ≡ some y → x ≡ y
some-injective x y h = ap (λ o. elim o [ none ↦ x | some z ↦ z ]) h

bound-some :
    (runtime dev : Evidence) (run : List ℕ × List ℕ) (b : Binding)
    → bound runtime dev run ≡ some b
    → (runtime.candidate_digest ≡ some b.runtime_digest)
      × (dev.candidate_digest ≡ some b.dev_digest)
      × (b.source_run ≡ run)
bound-some runtime dev run b h =
    let k = if-some (is_given runtime.candidate_digest && is_given dev.candidate_digest) _ b h in
    let e = some-injective _ b k.1 in
    (
      given-text runtime.candidate_digest (ground (arith, k.0)) ∙ ap (λ x. some x.runtime_digest) e,
      given-text dev.candidate_digest (ground (arith, k.0)) ∙ ap (λ x. some x.dev_digest) e,
      sym (ap (λ x. x.source_run) e),
    )

bound_runs-some :
    (runtime dev : Evidence) (r d : Option (List ℕ × List ℕ)) (b : Binding)
    → bound_runs runtime dev r d ≡ some b
    → (r ≡ some b.source_run)
      × (d ≡ some b.source_run)
      × (runtime.candidate_digest ≡ some b.runtime_digest)
      × (dev.candidate_digest ≡ some b.dev_digest)
bound_runs-some runtime dev none d b h = absurd (ground (arith, h))
bound_runs-some runtime dev (some r) none b h = absurd (ground (arith, h))
bound_runs-some runtime dev (some r) (some d) b h =
    let k = if-some (same_run r d) _ b h in
    let m = bound-some runtime dev r b k.1 in
    (ap some (sym m.2), ap some (sym (same_run-eq r d k.0) ∙ sym m.2), m.0, m.1)

pub verify_pair-IsBinding :
    (runtime dev : Evidence) (b : Binding)
    → verify_pair runtime dev ≡ some b
    → IsBinding runtime dev b
unfolding verify_pair
verify_pair-IsBinding runtime dev b h =
    go (runtime.skipped) refl (dev.skipped) refl
      (bound_runs runtime dev (run_identity (codes (text_of runtime.tag)))
        (run_identity (codes (text_of dev.tag))))
      refl h
  where
    go :
        (x : Bool)
        → runtime.skipped ≡ x
        → (y : Bool) → dev.skipped ≡ y
        → (o : Option Binding)
        → bound_runs runtime dev
            (run_identity (codes (text_of runtime.tag)))
            (run_identity (codes (text_of dev.tag)))
          ≡ o
        → (if x || y then none else o) ≡ some b
        → IsBinding runtime dev b
    go true e y f o q k = absurd (ground (arith, k))
    go false e true f o q k = absurd (ground (arith, k))
    go false e false f o q k =
        let m =
          bound_runs-some runtime dev (run_identity (codes (text_of runtime.tag)))
            (run_identity (codes (text_of dev.tag))) b (q ∙ k) in
        record {
          runtime_kept = e;
          dev_kept = f;
          runtime_run = m.0;
          dev_run = m.1;
          runtime_asked = m.2;
          dev_asked = m.3;
        }

-- A piece of evidence that is promoted, with this digest selected and observed.
pub record IsCompleted (e : Evidence) (digest : String) : Type 0 where
  pub promoted : e.promoted ≡ true
  pub written : e.write_status ≡ completed
  pub read : e.read_back_status ≡ confirmed
  pub selected : e.digest ≡ some digest
  pub observed : e.stable_digest_observed ≡ some digest

is_completed-completed : (s : WriteStatus) → is_completed s ≡ true → s ≡ completed
is_completed-completed WriteStatus.not_written h = absurd (ground (arith, h))
is_completed-completed WriteStatus.started h = absurd (ground (arith, h))
is_completed-completed completed h = refl
is_completed-completed WriteStatus.write_failed h = absurd (ground (arith, h))

some-same_option : (d : String) (o : Option String) → same_option (some d) o ≡ true → o ≡ some d
some-same_option d none h = absurd (ground (arith, h))
some-same_option d (some a) h = ground (arith, h, eq_iff d a)

exactly :
    (e : Evidence) (d : String)
    → e.candidate_digest ≡ some d
    → is_promoted_exactly e ≡ true
    → IsCompleted e d
exactly e d q h = record {
  promoted = ground (arith, h);
  written = is_completed-completed e.write_status (ground (arith, h));
  read = is_confirmed-confirmed e.read_back_status (ground (arith, h));
  selected =
      some-same_option d e.digest
        (subst (λ o. same_option o e.digest ≡ true) q (ground (arith, h)));
  observed =
      some-same_option d e.stable_digest_observed
        (subst (λ o. same_option o e.stable_digest_observed ≡ true) q (ground (arith, h)));
}

completed_pair-some :
    (runtime dev : Evidence) (o : Option Binding) (b : Binding)
    → completed_pair runtime dev o ≡ some (pair_bound b)
    → (o ≡ some b) × (is_promoted_exactly runtime ≡ true) × (is_promoted_exactly dev ≡ true)
completed_pair-some runtime dev none b h = absurd (ground (arith, h))
completed_pair-some runtime dev (some c) b h =
    let k = if-some (is_promoted_exactly runtime && is_promoted_exactly dev) _ (pair_bound b) h in
    (
      ap (λ r. elim r [ pair_skipped ↦ none | pair_bound x ↦ some x ]) (some-injective _ _ k.1),
      ground (arith, k.0),
      ground (arith, k.0),
    )

-- When verify_completed_pair returns a binding, neither piece of evidence was skipped, the tags of
-- both are of the source run of the binding, and each is promoted with its write completed and its
-- read-back confirmed, its digest of the binding being the one selected, asked for and observed.
pub verify_completed_pair-bound :
    (runtime dev : Evidence) (b : Binding)
    → verify_completed_pair runtime dev ≡ some (pair_bound b)
    → IsBinding runtime dev b × IsCompleted runtime b.runtime_digest × IsCompleted dev b.dev_digest
unfolding verify_completed_pair
verify_completed_pair-bound runtime dev b h =
    let k = completed_pair-some runtime dev (verify_pair runtime dev) b (
      not_skipped (runtime.skipped && dev.skipped) (is_untouched runtime && is_untouched dev)
        (completed_pair runtime dev (verify_pair runtime dev)) h) in
    let i = verify_pair-IsBinding runtime dev b k.0 in
    (
      i,
      exactly runtime b.runtime_digest i.runtime_asked k.1,
      exactly dev b.dev_digest i.dev_asked k.2,
    )
  where
    not_skipped :
        (x y : Bool) (o : Option PairResult)
        → (if x then (if y then some pair_skipped else none) else o) ≡ some (pair_bound b)
        → o ≡ some (pair_bound b)
    not_skipped true true o e = absurd (ground (arith, e))
    not_skipped true false o e = absurd (ground (arith, e))
    not_skipped false y o e = e
