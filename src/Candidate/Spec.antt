-- ===== src/Candidate/Spec.antt =====
-- When a build may become `stable`, stated on the repository's images and not by the loop's tests.
use alric_containers_image_b.Base.{ℕ, ◌+◌, ◌≤◌, ◌<◌, String, ◌≡◌, ◌≢◌, true, some, List, In}
use alric_containers_image_b.Candidate.{Image, is_index, is_stable, tags_build}

module _ (details : List Image) (soak now : ℕ) (quarantined : List String) where
  -- The image was pushed at `t`, is an index with a build tag, has no digest that is `stable` or
  -- in quarantine, has completed the soak, and is newer than every `stable` image.
  pub record IsEligible (img : Image) (t : ℕ) : Type 0 where
    pub listed : In img details
    pub pushed : img.pushed ≡ some t
    pub index : is_index img ≡ true
    pub tagged : (tag : String) × In tag img.tags × (tags_build tag ≡ true)
    pub not_stable : (s : Image) → In s details → is_stable s ≡ true → s.digest ≢ img.digest
    pub not_quarantined : ¬ In img.digest quarantined
    pub soaked : t + soak ≤ now
    pub newer : (s : Image) (u : ℕ) → In s details → is_stable s ≡ true → s.pushed ≡ some u → u < t
