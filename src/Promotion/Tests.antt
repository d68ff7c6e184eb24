-- ===== src/Promotion/Tests.antt =====
-- A batch with a pair, over a registry of one image in each repository.
use alric_containers_image_b.Base.{
  arith, String, ◌≡◌, refl, Bool, true, false, not, none, some, List, [], ◌∷◌, all, Result, ok, err,
  In, inl, str_eq, if◌then◌else◌,
}
use alric_containers_image_b.Base.Act.{Stop, ◌>>=◌, attempt, for_each}
use alric_containers_image_b.Promotion.Work.{UnitResult, while_ok}
use alric_containers_image_b.Promotion.Stable.{judge}
use alric_containers_image_b.Promotion.Evidence.{
  confirmed, completed, Binding, Evidence, no_evidence, pair_bound, verify_completed_pair,
  record_outcome,
}
use alric_containers_image_b.Promotion.Evidence.Pairs.{
  IsBinding, IsCompleted, verify_completed_pair-bound,
}
use alric_containers_image_b.Base.Decimal.{codes}
use alric_containers_image_b.BuildTag.{run_identity}
use alric_containers_image_b.Promotion.Run.{new_unit, is_empty}
use alric_containers_image_b.Promotion.Run.Whole.{Orderly}
use alric_containers_image_b.Promotion.Run.Closing.{IsExact}
use alric_containers_image_b.Candidate.{
  stable_state, Image, select_candidate, candidate_of, newest_tag,
}
use alric_containers_image_b.Promotion.Registry.{Registry, StableDetail}
use alric_containers_image_b.Promotion.Run.{promote_batch, batch_promoted}
use alric_containers_image_b.Promotion.Run.Reports.{
  IsSettled, promote_batch-Orderly, promote_batch-IsExact, promote_batch-IsSettled,
}

abbrev image : Image
image = record {
  digest = "sha256:0123456789abcdef0123456789abcdef0123456789abcdef0123456789abcdef";
  tags = "020124-0000-r2-a2" ∷ [];
  media_type = some "application/vnd.oci.image.index.v1+json";
  pushed = some 20;
}

-- The repositories whose tag `stable` stands at the image.
abbrev tagged : List String → String → Result Stop (List StableDetail) × List String
tagged world name = (
  if all (λ n. not (str_eq n name)) world
      then err Stop.failed
      else ok (
          record {
            repository = if str_eq name "py" then "image-base-py" else "image-base-py-dev";
            image = record image { tags = "stable" ∷ image.tags };
          }
          ∷ []),
  world,
)

abbrev small : Registry
small = record {
  World = List String;
  inventory = λ w name. (ok (image ∷ []), w);
  quarantined = λ w name. (ok [], w);
  verify_promotion = λ w name digest. (ok tt, w);
  scan_passes = λ w name digest. (ok true, w);
  create_tag = λ w name digest. (ok tt, name ∷ w);
  describe_stable = tagged;
  file_access = λ w. (ok tt, w);
  report_cves = λ w name. (ok tt, w);
}

abbrev pair : List (List String)
pair = ("py" ∷ "py-dev" ∷ []) ∷ []

promotes_pair : (promote_batch small "registry" 5 100 pair []).0 ≡ ok tt
unfolding promote_batch ◌>>=◌ for_each attempt while_ok select_candidate candidate_of newest_tag
    stable_state judge record_outcome
promotes_pair = refl

reports_pair : batch_promoted (promote_batch small "registry" 5 100 pair []).1.1 ≡ true
unfolding promote_batch ◌>>=◌ for_each attempt while_ok select_candidate candidate_of newest_tag
    stable_state judge record_outcome
reports_pair = refl

abbrev after : List UnitResult
after = (promote_batch small "registry" 5 100 pair []).1.1

abbrev first_unit : List UnitResult → UnitResult
first_unit [] = new_unit []
first_unit (u ∷ us) = u

In-first_unit : (us : List UnitResult) → is_empty us ≡ false → In (first_unit us) us
In-first_unit [] e = absurd (ground (arith, e))
In-first_unit (u ∷ us) e = inl refl

one_unit : is_empty after ≡ false
unfolding promote_batch ◌>>=◌ for_each attempt while_ok select_candidate candidate_of newest_tag
    stable_state judge record_outcome
one_unit = refl

is_first : In (first_unit after) after
is_first = In-first_unit after one_unit

promote_batch-Orderly_example : Orderly (promote_batch small "registry" 5 100 pair []).1.0.trace
promote_batch-Orderly_example = promote_batch-Orderly small "registry" 5 100 pair []

promote_batch-IsExact_example : IsExact (first_unit after)
promote_batch-IsExact_example =
    promote_batch-IsExact small "registry" 5 100 pair [] (first_unit after) is_first

promote_batch-IsSettled_example : IsSettled (first_unit after)
promote_batch-IsSettled_example =
    promote_batch-IsSettled small "registry" 5 100 pair [] (first_unit after) promotes_pair is_first

-- The evidence of a framework of the run.
abbrev of_member : Bool → Evidence
of_member dev = record no_evidence {
  tag = some "020124-0000-r2-a2";
  digest = some image.digest;
  candidate_digest = some image.digest;
  stable_digest_observed = some image.digest;
  read_back_status = confirmed;
  write_status = completed;
  promoted = dev;
}

abbrev binding : Binding
binding = record {
  runtime_tag = "020124-0000-r2-a2";
  dev_tag = "020124-0000-r2-a2";
  runtime_digest = image.digest;
  dev_digest = image.digest;
  source_run = (codes "2", codes "2");
}

completes : verify_completed_pair (of_member true) (of_member true) ≡ some (pair_bound binding)
unfolding verify_completed_pair run_identity
completes = refl

verify_completed_pair-bound_example :
    IsBinding (of_member true) (of_member true) binding
    × IsCompleted (of_member true) image.digest
    × IsCompleted (of_member true) image.digest
verify_completed_pair-bound_example =
    verify_completed_pair-bound (of_member true) (of_member true) binding completes

-- Evidence without a candidate digest of its own.
abbrev without_candidate : Evidence
without_candidate = record (of_member false) {
  has_candidate_digest = false;
  candidate_digest = none;
}
