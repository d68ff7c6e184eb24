-- ===== src/Candidate.antt =====
-- release/find_promotion_candidate.py: which build of a repository may become `stable`, why there is
-- none, and how old `stable` is. Times are microseconds, and so is a soak of so many hours.
pub mod Spec
pub mod Rounds
pub mod Selection
pub mod Reasons
mod Tests
use alric_containers_image_b.Base.{
  ℕ, ◌+◌, ◌-◌, String, Bool, true, false, not, ◌&&◌, ◌||◌, Option, none, some, List, [], ◌∷◌,
  Result, ok, err, ◌>>=◌, ◌>>◌, require, str_eq, elem, any, all, keep, map, ltb, leb, if◌then◌else◌,
}
use alric_containers_image_b.Base.Order.{str_leb}
use alric_containers_image_b.Base.Maximum.{max_of}
use alric_containers_image_b.Base.Decimal.{codes}
use alric_containers_image_b.BuildTag.{is_build_tag, build_tag_order, lex_leb}

-- An entry of `imageDetails`. A push time that is absent, unreadable or without a time zone is none.
pub record Image : Type 0 where
  pub digest : String
  pub tags : List String
  pub media_type : Option String
  pub pushed : Option ℕ

-- A number of hours: NaN or infinite, negative, or a duration.
pub data Soak : Type 0 where
  not_finite negative : Soak
  duration : ℕ → Soak

-- The ValueErrors of the module, and the OverflowError of a cutoff before the first date.
pub data SelectionError : Type 0 where
  invalid_soak unreadable_time overflow : SelectionError

pub record Candidate : Type 0 where
  pub pushed : ℕ
  pub tag : String
  pub digest : String

-- `pushed_at`
unfoldable pub pushed_at : Image → Result SelectionError ℕ
pushed_at img = elim img.pushed [ none ↦ err unreadable_time | some t ↦ ok t ]

abbrev pub is_index : Image → Bool
is_index img = elim img.media_type [
  | none ↦ false
  | some kind ↦
      str_eq kind "application/vnd.oci.image.index.v1+json"
      || str_eq kind "application/vnd.docker.distribution.manifest.list.v2+json"
]

abbrev pub is_stable : Image → Bool
is_stable img = elem "stable" img.tags

abbrev pub tags_build : String → Bool
tags_build tag = is_build_tag (codes tag)

-- `img["imageDigest"] in stable_digests`
abbrev pub has_stable_digest : List Image → Image → Bool
has_stable_digest details img = elem img.digest (map (λ s. s.digest) (keep is_stable details))

-- `[pushed_at(img) for img in images]`
unfoldable pub push_times : List Image → Result SelectionError (List ℕ)
unfolding pushed_at
push_times [] = ok []
push_times (img ∷ rest) = do t ← pushed_at img; ts ← push_times rest; ok (t ∷ ts)

-- `max((pushed_at(img) for img in stable_images), default=None)`
unfoldable pub stable_time : List Image → Result SelectionError (Option ℕ)
unfolding push_times max_of
stable_time details = do ts ← push_times (keep is_stable details); ok (max_of leb ts)

abbrev pub at_most : ℕ → Option ℕ → Bool
at_most t none = false
at_most t (some limit) = leb t limit

-- `max(build_tags, key=build_tag_order)`
unfoldable pub newest_tag : Image → Option String
unfolding max_of
newest_tag img =
    max_of (λ a b. lex_leb (build_tag_order (codes a)) (build_tag_order (codes b)))
      (keep tags_build img.tags)

-- The tests of the loop before the push time is read.
unfoldable pub is_skipped : List Image → List String → Image → Bool
is_skipped details quarantined img =
    has_stable_digest details img || elem img.digest quarantined || not (is_index img)

-- One round of the loop: the candidate that it appends, if any.
unfoldable pub candidate_of :
    List Image → List String → ℕ → Option ℕ → Image → Result SelectionError (Option Candidate)
unfolding is_skipped pushed_at
candidate_of details quarantined cutoff stable img =
    if is_skipped details quarantined img then ok none else elim (newest_tag img) [
      | none ↦ ok none
      | some tag ↦ do
        t ← pushed_at img
        ok (
            if ltb cutoff t || at_most t stable
            then none
            else some (record { pushed = t; tag = tag; digest = img.digest }))
    ]

abbrev pub cons_some {ℓ} : {A : Type ℓ} → Option A → List A → List A
cons_some none xs = xs
cons_some (some x) xs = x ∷ xs

unfoldable pub candidates :
    List Image → List String → ℕ → Option ℕ → List Image → Result SelectionError (List Candidate)
candidates details quarantined cutoff stable [] = ok []
candidates details quarantined cutoff stable (img ∷ rest) = do
  found ← candidate_of details quarantined cutoff stable img
  more ← candidates details quarantined cutoff stable rest
  ok (cons_some found more)

-- Candidates are compared as tuples.
unfoldable pub candidate_leb : Candidate → Candidate → Bool
candidate_leb a b =
    if ltb a.pushed b.pushed
    then true
    else leb a.pushed b.pushed
      && (if str_eq a.tag b.tag then str_leb a.digest b.digest else str_leb a.tag b.tag)

-- `now - timedelta(hours=soak_hours)`
unfoldable pub cutoff_time : ℕ → ℕ → Result SelectionError ℕ
cutoff_time now soak = if ltb now soak then err overflow else ok (now - soak)

-- `select_candidate`
unfoldable pub select_candidate :
    List Image → Soak → ℕ → List String → Result SelectionError (Option Candidate)
unfolding candidates candidate_leb stable_time cutoff_time max_of
select_candidate details not_finite now quarantined = err invalid_soak
select_candidate details negative now quarantined = err invalid_soak
select_candidate details (duration soak) now quarantined = do
  cutoff ← cutoff_time now soak
  stable ← stable_time details
  found ← candidates details quarantined cutoff stable details
  ok (max_of candidate_leb found)

pub data Reason : Type 0 where
  no_index already_stable all_quarantined in_soak would_regress no_eligible : Reason

-- `all(pushed_at(img) <= stable_time for img in outside)`, which stops at the first that fails.
unfoldable pub all_at_most : ℕ → List Image → Result SelectionError Bool
unfolding pushed_at
all_at_most limit [] = ok true
all_at_most limit (img ∷ rest) =
    let later = all_at_most limit rest in
    do t ← pushed_at img; if leb t limit then later else ok false

-- The images of `newer` that are not in quarantine and have passed the soak.
unfoldable pub outside_soak : List String → ℕ → List Image → Result SelectionError (List Image)
unfolding pushed_at
outside_soak quarantined cutoff [] = ok []
outside_soak quarantined cutoff (img ∷ rest) =
    let later = outside_soak quarantined cutoff rest in
    if elem img.digest quarantined
    then later
    else do t ← pushed_at img; more ← later; ok (if leb t cutoff then img ∷ more else more)

abbrev pub tagged_indexes : List Image → List Image
tagged_indexes = keep (λ img. is_index img && any tags_build img.tags)

-- The part of `skip_reason` after the soak.
unfoldable pub reason_outside : Option ℕ → List Image → Result SelectionError Reason
unfolding all_at_most
reason_outside stable [] = ok in_soak
reason_outside none (img ∷ rest) = ok no_eligible
reason_outside (some limit) (img ∷ rest) = do
  regress ← all_at_most limit (img ∷ rest)
  ok (if regress then would_regress else no_eligible)

-- The part of `skip_reason` on the indexes that are not `stable`.
unfoldable pub reason_newer :
    List String → ℕ → ℕ → Option ℕ → List Image → Result SelectionError Reason
unfolding reason_outside outside_soak cutoff_time
reason_newer quarantined now soak stable [] = ok already_stable
reason_newer quarantined now soak stable (img ∷ rest) =
    if all (λ i. elem i.digest quarantined) (img ∷ rest) then ok all_quarantined else do
      cutoff ← cutoff_time now soak
      outside ← outside_soak quarantined cutoff (img ∷ rest)
      reason_outside stable outside

-- `skip_reason`, at a soak that `select_candidate` accepts.
unfoldable pub skip_reason : List Image → ℕ → ℕ → List String → Result SelectionError Reason
unfolding reason_newer stable_time
skip_reason details soak now quarantined = elim (tagged_indexes details) [
  | [] ↦ ok no_index
  | img ∷ rest ↦ do
    stable ← stable_time details
    reason_newer quarantined now soak stable
        (keep (λ i. not (has_stable_digest details i)) (img ∷ rest))
]

-- The stable image with the latest push, the first of them on a tie.
unfoldable pub newest_stable : List Image → Result SelectionError (Option (Image × ℕ))
unfolding pushed_at
newest_stable [] = ok none
newest_stable (img ∷ rest) = do
  t ← pushed_at img
  later ← newest_stable rest
  ok (some (elim later [ none ↦ (img, t) | some (j, u) ↦ if leb u t then (img, t) else (j, u) ]))

-- `stable_digest` and `stable_pushed_at` of `stable_state`; the age is the clock less that time.
unfoldable pub stable_state : List Image → Result SelectionError (Option (String × ℕ))
unfolding newest_stable
stable_state details = do
  newest ← newest_stable (keep is_stable details)
  ok (elim newest [ none ↦ none | some (img, t) ↦ some (img.digest, t) ])
