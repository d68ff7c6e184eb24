-- ===== src/Promotion/Stable.antt =====
-- `verify_stable` of scripts/pipeline/release/verify_stable.py, on the evidence file of a framework.
use alric_containers_image_b.Base.{
  String, Bool, true, false, ◌&&◌, none, some, List, [], ◌∷◌, ◌++◌, Result, ok, err, str_eq, keep,
  length, ◌==◌, if◌then◌else◌,
}
use alric_containers_image_b.Base.Act.{Stop, Act, demand, ◌>>=◌, ◌>>◌}
use alric_containers_image_b.Base.Decimal.{codes}
use alric_containers_image_b.Candidate.{is_index}
use alric_containers_image_b.Promotion.Reference.{is_reference}
use alric_containers_image_b.Promotion.Evidence.{
  read_failed, mismatch, confirmed, Evidence, same_option, same_codes,
}
use alric_containers_image_b.Promotion.Registry.{StableDetail, Registry}
use alric_containers_image_b.Promotion.Work.{Work, call, set_unit, file_of, with_file}

abbrev pub fail_closed : String → Evidence → Evidence
fail_closed digest e = record e {
  has_candidate_digest = true;
  candidate_digest = some digest;
  stable_digest_observed = none;
  read_back_status = read_failed;
  read_back_error = false;
  promoted = false;
}

abbrev pub with_error : Evidence → Evidence × Bool
with_error e = (record e { read_back_error = true }, false)

abbrev pub is_repository : String → String → Bool
is_repository name text = same_codes (codes text) (codes "image-base-" ++ codes name)

-- The comparison of the observed digest.
abbrev pub compared : String → String → Evidence → Evidence × Bool
compared observed digest e =
    if str_eq observed digest
    then (record e { stable_digest_observed = some observed; read_back_status = confirmed }, true)
    else (
      record e {
        stable_digest_observed = some observed;
        read_back_status = mismatch;
        read_back_error = true;
      },
      false,
    )

-- What the answer of the registry says: the evidence, and whether it is confirmed.
unfoldable pub judge : String → String → String → Evidence → List StableDetail → Evidence × Bool
unfolding is_reference
judge registry name digest e (d ∷ []) =
    if is_repository name d.repository
      && length (keep (λ t. str_eq t "stable") d.image.tags) == 1
      && is_index d.image
      && is_reference registry name d.image.digest
    then compared d.image.digest digest e
    else with_error e
judge registry name digest e _ = with_error e

abbrev pub answered :
    String
    → String
    → String
    → Evidence
    → Result Stop (List StableDetail)
    → Result Stop (Evidence × Bool)
answered registry name digest e (ok details) = ok (judge registry name digest e details)
answered registry name digest e (err Stop.failed) = ok (with_error e)
answered registry name digest e (err Stop.killed) = err Stop.killed

module _ {D : Registry} (registry : String) where
  -- The registry is asked only about the candidate that was selected.
  unfoldable pub ask : String → String → Evidence → Act (Work D) (Evidence × Bool)
  ask name digest e w =
      if is_reference registry name digest && same_option e.digest (some digest)
      then (
        answered registry name digest e (D.describe_stable w.side.world name).0,
        record w { side = record w.side { world = (D.describe_stable w.side.world name).1 } },
      )
      else (ok (with_error e), w)

  unfoldable pub write_file : String → Evidence → Act (Work D) (Unit {0})
  unfolding call set_unit
  write_file name e = do call D.file_access; set_unit (with_file name e)

  -- `verify_stable`; the file is left with what was found, also where it raises.
  unfoldable pub verify_stable : String → String → Act (Work D) (Unit {0})
  unfolding call write_file ask
  verify_stable name digest = do
    call D.file_access
    evidence ← file_of name
    write_file name (fail_closed digest evidence)
    found ← ask name digest (fail_closed digest evidence)
    write_file name found.0
    demand found.1
