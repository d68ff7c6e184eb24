-- ===== src/Candidate/Tests.antt =====
-- A repository with a `stable` image, a newer build, a quarantined one and one still in soak.
use alric_containers_image_b.Base.{
  ℕ, ◌≤◌, String, ◌≡◌, refl, ◌≢◌, true, none, some, List, [], ◌∷◌, ok, err, In,
}
use alric_containers_image_b.Base.Decimal.{codes}
use alric_containers_image_b.BuildTag.{is_build_tag, build_tag_order, lex_leb}
use alric_containers_image_b.Candidate.{
  Image, duration, negative, Candidate, tags_build, candidate_of, newest_tag, select_candidate,
  Reason, skip_reason, all_quarantined, no_eligible, invalid_soak, stable_state,
}
use alric_containers_image_b.Candidate.Spec.{IsEligible}
use alric_containers_image_b.Candidate.Selection.{select_candidate-some, select_candidate-none}
use alric_containers_image_b.Candidate.Reasons.{skip_reason-Explained}

abbrev build : String → List String → ℕ → Image
build digest tags pushed = record {
  digest = digest;
  tags = tags;
  media_type = some "application/vnd.oci.image.index.v1+json";
  pushed = some pushed;
}

abbrev images : List Image
images =
    build "d1" ("stable" ∷ "010124-0000-r1-a1" ∷ []) 10
    ∷ build "d2" ("020124-0000-r2-a1" ∷ "020124-0000-r2-a2" ∷ []) 20
    ∷ build "d3" ("030124-0000-r3-a1" ∷ []) 30
    ∷ build "d4" ("040124-0000-r4-a1" ∷ []) 98
    ∷ []

abbrev chosen : Candidate
chosen = record { pushed = 20; tag = "020124-0000-r2-a2"; digest = "d2" }

selects : select_candidate images (duration 5) 100 ("d3" ∷ []) ≡ ok (some chosen)
unfolding select_candidate candidate_of newest_tag is_build_tag build_tag_order lex_leb
selects = refl

refuses_negative : select_candidate images negative 100 [] ≡ err invalid_soak
unfolding select_candidate
refuses_negative = refl

nothing : select_candidate images (duration 5) 100 ("d3" ∷ "d2" ∷ "d4" ∷ []) ≡ ok none
unfolding select_candidate candidate_of newest_tag is_build_tag build_tag_order lex_leb
nothing = refl

says_why : skip_reason images 5 100 ("d3" ∷ "d2" ∷ "d4" ∷ []) ≡ ok all_quarantined
unfolding skip_reason is_build_tag
says_why = refl

stable_is : stable_state images ≡ ok (some ("d1", 10))
unfolding stable_state
stable_is = refl

select_candidate-some_example :
    (img : Image) × IsEligible images 5 100 ("d3" ∷ []) img 20
    × (img.digest ≡ "d2")
    × In "020124-0000-r2-a2" img.tags
    × (tags_build "020124-0000-r2-a2" ≡ true)
    × ((tag : String)
        → In tag img.tags
        → tags_build tag ≡ true
        → lex_leb (build_tag_order (codes tag)) (build_tag_order (codes "020124-0000-r2-a2"))
          ≡ true)
    × ((other : Image) (t : ℕ) → IsEligible images 5 100 ("d3" ∷ []) other t → t ≤ 20)
select_candidate-some_example = select_candidate-some images 5 100 ("d3" ∷ []) chosen selects

select_candidate-none_example :
    ¬ IsEligible images 5 100
      ("d3" ∷ "d2" ∷ "d4" ∷ [])
      (build "d2" ("020124-0000-r2-a1" ∷ []) 20)
      20
select_candidate-none_example =
    select_candidate-none images 5 100 ("d3" ∷ "d2" ∷ "d4" ∷ []) nothing
      (build "d2" ("020124-0000-r2-a1" ∷ []) 20) 20

skip_reason-Explained_example :
    (reason : Reason) × (skip_reason images 5 100 ("d3" ∷ "d2" ∷ "d4" ∷ []) ≡ ok reason)
    × (reason ≢ no_eligible)
skip_reason-Explained_example = skip_reason-Explained images 5 100 ("d3" ∷ "d2" ∷ "d4" ∷ []) nothing
