-- ===== src/Candidate/Reasons.antt =====
-- `skip_reason` and the selections that find nothing.
use alric_containers_image_b.Base.{
  ℕ, ◌-◌, String, ◌≡◌, refl, sym, ap, ◌≢◌, inl, inr, true, false, not, ◌&&◌, Option, none, some,
  List, [], ◌∷◌, Result, ok, ◌>>=◌, arith, elem, any, all, keep, In, leb, Bool-cases, Option-cases,
}
use alric_containers_image_b.Base.Membership.{keep-In, any-In}
use alric_containers_image_b.Base.Maximum.{max_of-eq-none}
use alric_containers_image_b.Candidate.{
  Image, duration, SelectionError, Candidate, pushed_at, is_index, tags_build, has_stable_digest,
  stable_time, at_most, newest_tag, is_skipped, candidate_of, candidate_leb, select_candidate,
  Reason, in_soak, would_regress, no_eligible, all_at_most, outside_soak, tagged_indexes,
  reason_outside, reason_newer, skip_reason,
}
use alric_containers_image_b.Candidate.Rounds.{In-candidates}
use alric_containers_image_b.Candidate.Selection.{Run, select-Run, newest_tag-ne-none}

-- The push time is known, and is not past the soak and above the limit at once.
abbrev Waits : ℕ → Option ℕ → Image → Type 0
Waits cutoff limit img =
    (t : ℕ) × (img.pushed ≡ some t) × (leb t cutoff ≡ true → at_most t limit ≡ true)

-- What one fruitless round says of an index that is neither `stable` nor in quarantine.
round-Waits :
    (details : List Image) (quarantined : List String) (cutoff : ℕ) (limit : Option ℕ) (img : Image)
    (tag : String)
    → is_skipped details quarantined img ≡ false
    → newest_tag img ≡ some tag
    → candidate_of details quarantined cutoff limit img ≡ ok none
    → Waits cutoff limit img
unfolding candidate_of
round-Waits details quarantined cutoff limit img tag considered tagged h =
    elim (Option-cases img.pushed) [
      | inl e ↦ absurd (ground arith)
      | inr (t, e) ↦ (t, e, λ s. ground arith)
    ]

module _ (quarantined : List String) (cutoff : ℕ) (limit : Option ℕ) where
  abbrev Low : Image → Type 0
  Low img = (t : ℕ) × (img.pushed ≡ some t) × (at_most t limit ≡ true)

  Low-cons :
      (img : Image) (outs : List Image)
      → Low img
      → ((j : Image) → In j outs → Low j)
      → (j : Image) → In j (img ∷ outs)
      → Low j
  Low-cons img outs own low j (inl e) = (own.0, rw e own.1, own.2)
  Low-cons img outs own low j (inr m) = low j m

  -- The images outside the soak are all at or below the limit.
  outside-Low :
      (imgs : List Image)
      → ((img : Image) → In img imgs → elem img.digest quarantined ≡ false → Waits cutoff limit img)
      → (outside : List Image) × (outside_soak quarantined cutoff imgs ≡ ok outside)
        × ((img : Image) → In img outside → Low img)
  unfolding outside_soak pushed_at
  outside-Low [] waits = ([], refl, λ img m. absurd m)
  outside-Low (img ∷ rest) waits =
      let (outs, same, low) = outside-Low rest (λ j m free. waits j (inr m) free) in
      elim (Bool-cases (elem img.digest quarantined)) [
        | inl banned ↦ (outs, ground arith, low)
        | inr free ↦
            (let (t, time, under) = waits img (inl refl) free in
              elim (Bool-cases (leb t cutoff)) [
                | inl past ↦ (img ∷ outs, ground arith, Low-cons img outs (t, time, under past) low)
                | inr within ↦ (outs, ground arith, low)
              ])
      ]

all_at_most-true :
    (limit : ℕ) (imgs : List Image)
    → ((img : Image)
        → In img imgs
        → (t : ℕ) × (img.pushed ≡ some t) × (at_most t (some limit) ≡ true))
    → all_at_most limit imgs ≡ ok true
unfolding all_at_most pushed_at
all_at_most-true limit [] low = refl
all_at_most-true limit (img ∷ rest) low =
    let (t, time, under) = low img (inl refl) in
    ground (arith, time, under, all_at_most-true limit rest (λ j m. low j (inr m)))

abbrev Explained : Result SelectionError Reason → Type 0
Explained r = (reason : Reason) × (r ≡ ok reason) × (reason ≢ no_eligible)

reason_outside-Explained :
    (limit : Option ℕ) (outside : List Image)
    → ((img : Image) → In img outside → (t : ℕ) × (img.pushed ≡ some t) × (at_most t limit ≡ true))
    → Explained (reason_outside limit outside)
unfolding reason_outside
reason_outside-Explained limit [] low = (in_soak, refl, λ p. cc)
reason_outside-Explained none (img ∷ rest) low = let l = low img (inl refl) in cc (l.2)
reason_outside-Explained (some limit) (img ∷ rest) low =
    (would_regress, ground (arith, all_at_most-true limit (img ∷ rest) low), λ p. cc)

module _ (details : List Image) (soak now : ℕ) (quarantined : List String) where
  module _ (nothing : select_candidate details (duration soak) now quarantined ≡ ok none) where
    fruitless :
        (run : Run details soak now quarantined none) (img : Image)
        → In img (keep (λ i. not (has_stable_digest details i)) (tagged_indexes details))
        → elem img.digest quarantined ≡ false
        → Waits (now - soak) run.limit img
    unfolding is_skipped
    fruitless run img m free =
        let fresh =
          keep-In (λ i. not (has_stable_digest details i)) img (tagged_indexes details) m in
        let index = keep-In (λ i. is_index i && any tags_build i.tags) img details fresh.0 in
        let tag = any-In tags_build img.tags (ground (arith, index.1)) in
        let newest = newest_tag-ne-none img tag.0 tag.1 tag.2 in
        let (o, round, made) =
          In-candidates details quarantined (now - soak) run.limit details run.found img run.looped
            index.0 in
        round-Waits details quarantined (now - soak) run.limit img newest.0
          (ground (arith, fresh.1, index.1)) newest.1 (rw round (ap ok (none_made o made)))
      where
        none_made :
            (o : Option Candidate) → ((c : Candidate) → o ≡ some c → In c run.found) → o ≡ none
        none_made none made = refl
        none_made (some c) made =
            absurd (max_of-eq-none candidate_leb run.found c (sym run.chosen) (made c refl))

    reason_newer-Explained :
        (run : Run details soak now quarantined none) (newer : List Image)
        → ((img : Image)
            → In img newer
            → elem img.digest quarantined ≡ false
            → Waits (now - soak) run.limit img)
        → Explained (reason_newer quarantined now soak run.limit newer)
    unfolding reason_newer
    reason_newer-Explained run [] waits = (Reason.already_stable, refl, λ p. cc)
    reason_newer-Explained run (img ∷ rest) waits =
        elim (Bool-cases (all (λ i. elem i.digest quarantined) (img ∷ rest))) [
          | inl banned ↦ (Reason.all_quarantined, ground arith, λ p. cc)
          | inr some_free ↦
              (let (outs, same, low) =
                  outside-Low quarantined (now - soak) run.limit (img ∷ rest) waits in
                let (r, said, other) = reason_outside-Explained run.limit outs low in
                (r, ground (arith, run.in_time), other))
        ]

    -- Whenever a selection finds no candidate, the reason is computed from the same data without
    -- an error, and it is never the last resort that names no cause.
    pub skip_reason-Explained :
        (reason : Reason) × (skip_reason details soak now quarantined ≡ ok reason)
        × (reason ≢ no_eligible)
    unfolding skip_reason
    skip_reason-Explained =
        let run = select-Run details soak now quarantined none nothing in
        finish run (tagged_indexes details) (
          reason_newer-Explained run
            (keep (λ i. not (has_stable_digest details i)) (tagged_indexes details))
            (fruitless run))
      where
        finish :
            (run : Run details soak now quarantined none) (indexes : List Image)
            → Explained (
                reason_newer quarantined now soak run.limit
                  (keep (λ i. not (has_stable_digest details i)) indexes))
            → Explained (elim indexes [
              | [] ↦ ok Reason.no_index
              | img ∷ rest ↦ do
                stable ← stable_time details
                reason_newer quarantined now soak stable
                    (keep (λ i. not (has_stable_digest details i)) (img ∷ rest))
            ])
        finish run [] later = (Reason.no_index, refl, λ p. cc)
        finish run (img ∷ rest) later = rw run.measured later
