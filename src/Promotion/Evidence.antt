-- ===== src/Promotion/Evidence.antt =====
-- The evidence of one framework, and what is concluded of it: `record_outcome` of
-- promotion_batch.py, `verify_pair` and `verify_completed_pair`. The texts of reasons are not kept.
pub mod Outcome
pub mod Pairs
pub mod Recorded
use alric_containers_image_b.Base.{
  ℕ, String, Bool, true, false, not, ◌&&◌, ◌||◌, Option, none, some, List, [], ◌∷◌, str_eq, ◌==◌,
  if◌then◌else◌,
}
use alric_containers_image_b.Base.Decimal.{codes}
use alric_containers_image_b.BuildTag.{run_identity}

pub data ReadBack : Type 0 where
  not_read read_failed mismatch confirmed : ReadBack

pub data WriteStatus : Type 0 where
  not_written started completed write_failed : WriteStatus

-- The binding of a pair.
pub record Binding : Type 0 where
  pub runtime_tag : String
  pub dev_tag : String
  pub runtime_digest : String
  pub dev_digest : String
  pub source_run : List ℕ × List ℕ

-- Without the key `candidate_digest`, its value is none.
pub record Evidence : Type 0 where
  pub skipped : Bool
  pub tag : Option String
  pub digest : Option String
  pub has_candidate_digest : Bool
  pub candidate_digest : Option String
  pub stable_digest_observed : Option String
  pub read_back_status : ReadBack
  pub read_back_error : Bool
  pub write_status : WriteStatus
  pub trust_verified : Bool
  pub scan_passed : Bool
  pub pair_authorization : Option Binding
  pub error : Bool
  pub promoted : Bool

abbrev pub no_evidence : Evidence
no_evidence = record {
  skipped = false;
  tag = none;
  digest = none;
  has_candidate_digest = true;
  candidate_digest = none;
  stable_digest_observed = none;
  read_back_status = not_read;
  read_back_error = false;
  write_status = not_written;
  trust_verified = false;
  scan_passed = false;
  pair_authorization = none;
  error = false;
  promoted = false;
}

abbrev pub is_confirmed : ReadBack → Bool
is_confirmed confirmed = true
is_confirmed _ = false

abbrev pub is_completed : WriteStatus → Bool
is_completed completed = true
is_completed _ = false

abbrev pub is_not_written : WriteStatus → Bool
is_not_written not_written = true
is_not_written _ = false

abbrev pub same_option : Option String → Option String → Bool
same_option none none = true
same_option (some a) (some b) = str_eq a b
same_option _ _ = false

-- A text that is there and not empty.
abbrev pub is_given : Option String → Bool
is_given none = false
is_given (some t) = not (str_eq t "")

-- `result.setdefault('candidate_digest', result.get('digest'))`
abbrev pub with_default : Evidence → Evidence
with_default e =
    if e.has_candidate_digest
    then e
    else record e { has_candidate_digest = true; candidate_digest = e.digest }

abbrev pub with_outcome : Evidence → Bool → Bool → Evidence
with_outcome e write_succeeded skipped = record e {
  skipped = skipped;
  promoted =
      write_succeeded
      && not skipped
      && is_confirmed e.read_back_status
      && is_given e.candidate_digest
      && same_option e.candidate_digest e.digest
      && same_option e.stable_digest_observed e.candidate_digest;
}

-- `record_outcome`
unfoldable pub record_outcome : Evidence → Bool → Bool → Evidence
record_outcome e write_succeeded skipped = with_outcome (with_default e) write_succeeded skipped

abbrev pub same_codes : List ℕ → List ℕ → Bool
same_codes [] [] = true
same_codes (x ∷ xs) (y ∷ ys) = x == y && same_codes xs ys
same_codes _ _ = false

abbrev pub same_run : List ℕ × List ℕ → List ℕ × List ℕ → Bool
same_run (r, a) (s, b) = same_codes r s && same_codes a b

abbrev pub text_of : Option String → String
text_of none = ""
text_of (some t) = t

-- The binding where both digests are given.
abbrev pub bound : Evidence → Evidence → List ℕ × List ℕ → Option Binding
bound runtime dev run =
    if is_given runtime.candidate_digest && is_given dev.candidate_digest
    then some (record {
      runtime_tag = text_of runtime.tag;
      dev_tag = text_of dev.tag;
      runtime_digest = text_of runtime.candidate_digest;
      dev_digest = text_of dev.candidate_digest;
      source_run = run;
    })
    else none

abbrev pub bound_runs :
    Evidence → Evidence → Option (List ℕ × List ℕ) → Option (List ℕ × List ℕ) → Option Binding
bound_runs runtime dev (some r) (some d) = if same_run r d then bound runtime dev r else none
bound_runs runtime dev _ _ = none

-- `verify_pair`: none is that it raises.
unfoldable pub verify_pair : Evidence → Evidence → Option Binding
unfolding run_identity
verify_pair runtime dev =
    if runtime.skipped || dev.skipped
    then none
    else bound_runs runtime dev (run_identity (codes (text_of runtime.tag)))
        (run_identity (codes (text_of dev.tag)))

pub data PairResult : Type 0 where
  pair_skipped : PairResult
  pair_bound : Binding → PairResult

abbrev pub is_untouched : Evidence → Bool
is_untouched e =
    not e.promoted
    && is_not_written e.write_status
    && same_option e.candidate_digest none
    && not e.error

abbrev pub is_promoted_exactly : Evidence → Bool
is_promoted_exactly e =
    e.promoted
    && is_completed e.write_status
    && is_confirmed e.read_back_status
    && same_option e.candidate_digest e.digest
    && same_option e.candidate_digest e.stable_digest_observed

abbrev pub completed_pair : Evidence → Evidence → Option Binding → Option PairResult
completed_pair runtime dev none = none
completed_pair runtime dev (some b) =
    if is_promoted_exactly runtime && is_promoted_exactly dev then some (pair_bound b) else none

-- `verify_completed_pair`
unfoldable pub verify_completed_pair : Evidence → Evidence → Option PairResult
unfolding verify_pair
verify_completed_pair runtime dev =
    if runtime.skipped && dev.skipped
    then (if is_untouched runtime && is_untouched dev then some pair_skipped else none)
    else completed_pair runtime dev (verify_pair runtime dev)
