-- ===== src/Promotion/Registry.antt =====
-- What a batch uses of the outside: ECR, the trust and scan tools, and the files of its evidence.
use alric_containers_image_b.Base.{String, Bool, List, Result}
use alric_containers_image_b.Base.Act.{Stop}
use alric_containers_image_b.Candidate.{Image}

-- An entry of `imageDetails` of the tag `stable`, as `verify_stable` reads it.
pub record StableDetail : Type 0 where
  pub repository : String
  pub image : Image

-- Each call returns, raises one of ERRORS, or ends the process.
pub record Registry : Type 1 where
  pub World : Type 0
  -- `load_details`, with the copy that is left in the evidence.
  pub inventory : World → String → Result Stop (List Image) × World
  -- `load_quarantined_digests`
  pub quarantined : World → String → Result Stop (List String) × World
  -- `verify_promotion` and `scan_images` of a digest.
  pub verify_promotion : World → String → String → Result Stop (Unit {0}) × World
  pub scan_passes : World → String → String → Result Stop Bool × World
  -- `docker buildx imagetools create` of the tag `stable`.
  pub create_tag : World → String → String → Result Stop (Unit {0}) × World
  -- `describe-images` of the tag `stable`.
  pub describe_stable : World → String → Result Stop (List StableDetail) × World
  -- A read or a write of the evidence files, and the report of CVEs without a fix.
  pub file_access : World → Result Stop (Unit {0}) × World
  pub report_cves : World → String → Result Stop (Unit {0}) × World
