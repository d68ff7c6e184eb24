-- ===== src/Release/Lifecycle/Dev.antt =====
-- `approve_dev`, `complete_dev` and `promote_dev` of release/lifecycle.py.
use alric_containers_image_b.Base.{
  String, false, not, Option, none, some, List, [], ◌∷◌, ◌++◌, map, is_some, keep, if◌then◌else◌,
}
use alric_containers_image_b.Base.Act.{
  Stop, Act, pure, stop, demand, for_each, attempt, ◌>>=◌, ◌>>◌,
}
use alric_containers_image_b.Release.Data.{
  Environment, dev, dev_validated, dev_stable, Manifest, States,
}
use alric_containers_image_b.Release.Choice.{duration, verify_candidate, verify_approved, choose}
use alric_containers_image_b.Release.Destination.{Key, manifest_key, candidate_key, Destination}
use alric_containers_image_b.Release.Site.{
  Tools, Site, amd64, arm64, executed, call, report, validate_destination, verify_in, gate, other,
}
use alric_containers_image_b.Release.Lifecycle.{
  Setting, Order, Outcome, approved, waiting, skipped, is_release_id, same_images, same_publication,
  names_of, before_of, is_candidate_key, soak_of, or_stop, get_manifest, find_manifest, read_states,
  put_manifest, publish_in, list_keys,
}
use Prim.Native.String.{◌++◌ as ◌<>◌}

module _ (D : Destination) (T : Tools) (g : Setting) (o : Order) where
  -- The copy of a candidate that HOM may choose.
  abbrev pub approval : Manifest → Manifest
  approval candidate = record candidate {
    state = dev_stable;
    dev_stable_at = some o.stable_at;
    dev_readback = candidate.images;
  }

  -- What is checked before the tags of an environment are written again.
  unfoldable pub check_again : Environment → Manifest → Act (Site D T) (Unit {0})
  unfolding validate_destination gate
  check_again environment m = do
    validate_destination D T g.account environment m
    for_each m.images (gate D T environment m)

  -- The approval is put; a failure is reported and raised again.
  unfoldable pub persist : Manifest → Act (Site D T) (Unit {0})
  unfolding put_manifest report
  persist m =
      attempt
        (do demand (is_release_id m.release_id); put_manifest D T g o (manifest_key m.release_id) m)
        (do report D T; stop Stop.failed)

  unfoldable pub complete_dev : Manifest → States → Act (Site D T) Manifest
  unfolding check_again publish_in persist report verify_approved
  complete_dev candidate before = do
    check_again dev candidate
    publish_in D T g o dev false "" candidate before
    or_stop (verify_approved g.consumers_pass o.checked_at (approval candidate))
    persist (approval candidate)
    report D T
    pure (approval candidate)

  -- The consumers of one unit, by the name of its runtime.
  unfoldable pub execute_unit : Manifest → List String → Act (Site D T) (List (String × String))
  unfolding call
  execute_unit m [] = stop Stop.failed
  execute_unit m (runtime ∷ others) = do
    first ← call D T (λ r. executed runtime amd64) (λ s. T.execute s m runtime amd64)
    second ← call D T (λ r. executed runtime arm64) (λ s. T.execute s m runtime arm64)
    pure ((runtime <> "-amd64", first) ∷ (runtime <> "-arm64", second) ∷ [])

  unfoldable pub execute_all :
      Manifest → List (List String) → Act (Site D T) (List (String × String))
  unfolding execute_unit
  execute_all m [] = pure []
  execute_all m (unit ∷ units) = do
    results ← execute_unit m unit
    others ← execute_all m units
    pure (results ++ others)

  abbrev pub validation : Manifest → List (String × String) → Manifest
  validation m results = record m {
    consumer_results = results;
    state = dev_validated;
    dev_validated_at = some o.validated_at;
  }

  -- The validation of a release that has no candidate yet.
  unfoldable pub validate_release : Manifest → Act (Site D T) Manifest
  unfolding validate_destination verify_in execute_all put_manifest verify_candidate
  validate_release m = do
    validate_destination D T g.account dev m
    demand (g.is_valid m)
    for_each m.images (verify_in D T dev m)
    results ← execute_all m m.units
    or_stop (verify_candidate g.consumers_pass o.checked_at (validation m results))
    put_manifest D T g o (candidate_key m.release_id) (validation m results)
    pure (validation m results)

  -- A candidate that stands already, or the validation.
  unfoldable pub candidate_for : Manifest → Option Manifest → Act (Site D T) Manifest
  unfolding validate_release verify_candidate
  candidate_for m none = validate_release m
  candidate_for m (some candidate) = do
    or_stop (verify_candidate g.consumers_pass o.now candidate)
    demand (same_publication candidate m)
    pure candidate

  -- The choice among one candidate when it is validated; a disabled policy chooses nothing.
  unfoldable pub choose_now : Manifest → States → Act (Site D T) (Option Manifest)
  unfolding choose
  choose_now m before =
      if (g.policy dev).enabled
      then or_stop (
          choose g.consumers_pass o.now dev (g.policy dev) before false (m ∷ [])
            (duration (g.policy dev).soak) o.now none)
      else pure none

  -- A candidate that is not chosen waits.
  unfoldable pub finish_approval : Manifest → States → Option Manifest → Act (Site D T) Outcome
  unfolding report complete_dev
  finish_approval candidate before none = do report D T; pure (waiting candidate)
  finish_approval candidate before (some chosen) = do
    m ← complete_dev candidate before
    pure (approved m)

  unfoldable pub approve_new : Manifest → Act (Site D T) Outcome
  unfolding find_manifest candidate_for report read_states choose_now finish_approval
  approve_new m = do
    known ← find_manifest D T g o (candidate_key m.release_id)
    candidate ← candidate_for m known
    report D T
    before ← read_states D T g o (map (λ i. i.name) candidate.images)
    choice ← choose_now candidate before
    finish_approval candidate before choice

  -- An approval that stands already binds the same content.
  unfoldable pub approve_known : Manifest → Option Manifest → Act (Site D T) Outcome
  unfolding approve_new verify_approved
  approve_known m none = approve_new m
  approve_known m (some existing) = do
    or_stop (verify_approved g.consumers_pass o.now existing)
    demand (same_publication existing m)
    pure (approved existing)

  unfoldable pub run_approve_dev : Act (Site D T) Outcome
  unfolding call find_manifest approve_known
  run_approve_dev = do
    m ← call D T (λ m. other) T.from_publications
    demand (is_release_id m.release_id)
    existing ← find_manifest D T g o (manifest_key m.release_id)
    approve_known m existing

  -- A candidate that is not approved yet; the images of an approval are those of the candidate.
  abbrev pub unapproved : Manifest → Option Manifest → Act (Site D T) (List Manifest)
  unapproved candidate none = pure (candidate ∷ [])
  unapproved candidate (some existing) = do
    or_stop (verify_approved g.consumers_pass o.now existing)
    demand (same_images existing candidate)
    pure []

  -- The loop of `promote_dev` over the keys.
  unfoldable pub candidates_at : List Key → Act (Site D T) (List Manifest)
  unfolding get_manifest find_manifest verify_candidate verify_approved
  candidates_at [] = pure []
  candidates_at (key ∷ keys) = do
    candidate ← get_manifest D T g o key
    or_stop (verify_candidate g.consumers_pass o.now candidate)
    demand (is_release_id candidate.release_id)
    existing ← find_manifest D T g o (manifest_key candidate.release_id)
    kept ← unapproved candidate existing
    others ← candidates_at keys
    pure (kept ++ others)

  -- `[candidate_key(args.release)]`, or the candidates that are listed.
  unfoldable pub candidate_keys : Option String → Act (Site D T) (List Key)
  unfolding list_keys
  candidate_keys (some release) = do
    demand (is_release_id release)
    pure (candidate_key release ∷ [])
  candidate_keys none = do keys ← list_keys D T g o; pure (keep is_candidate_key keys)

  unfoldable pub finish_promotion : States → Option Manifest → Act (Site D T) Outcome
  unfolding report complete_dev
  finish_promotion states none = do demand (not (is_some o.release)); report D T; pure skipped
  finish_promotion states (some candidate) = do
    m ← complete_dev candidate (before_of candidate.images states)
    pure (approved m)

  unfoldable pub run_promote_dev : Act (Site D T) Outcome
  unfolding candidate_keys candidates_at read_states choose finish_promotion
  run_promote_dev = do
    keys ← candidate_keys o.release
    candidates ← candidates_at keys
    states ← read_states D T g o (names_of candidates)
    choice ← or_stop (
        choose g.consumers_pass o.now dev (g.policy dev) states o.resume candidates
          (soak_of g dev o) o.now o.release)
    finish_promotion states choice
