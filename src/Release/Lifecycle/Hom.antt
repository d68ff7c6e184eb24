-- ===== src/Release/Lifecycle/Hom.antt =====
-- `promote_hom`, `recover_hom` and `main` of release/lifecycle.py. The store of the source is DEV's.
use alric_containers_image_b.Base.{
  ℕ, String, Bool, true, false, not, ◌&&◌, ◌||◌, Option, none, some, List, [], ◌∷◌, map, str_eq,
  is_some, keep, if◌then◌else◌,
}
use alric_containers_image_b.Base.Act.{Act, pure, demand, for_each, attempt, ◌>>=◌, ◌>>◌}
use alric_containers_image_b.Release.Data.{Environment, dev, hom, Member, Manifest, States}
use alric_containers_image_b.Release.Choice.{same_digests, verify_approved, choose}
use alric_containers_image_b.Release.Destination.{
  Key, promoted_key, manifest_key, Doc, promoted_doc, Destination,
}
use alric_containers_image_b.Release.Publication.{Context, get}
use alric_containers_image_b.Release.Site.{
  Tools, Site, call, remotely, report, validate_destination, gate, check_quarantine, copy,
  check_copy, other,
}
use alric_containers_image_b.Release.Lifecycle.{
  Setting, Order, Outcome, promoted, skipped, Operation, approve_dev, promote_dev, promote_hom,
  recover_hom, is_release_id, names_of, before_of, is_manifest_key, manifest_in, soak_of, or_stop,
  or_missing, get_manifest, read_states, put_manifest, publish_in,
}
use alric_containers_image_b.Release.Lifecycle.Dev.{check_again, run_approve_dev, run_promote_dev}

-- The record of a completed promotion to HOM is of this manifest.
abbrev pub is_record_of : Context → Manifest → Doc → Bool
is_record_of c m (promoted_doc digest members) =
    str_eq digest (c.checksum m) && same_digests members m.images
is_record_of c m _ = false

abbrev pub environment_of : Operation → Environment
environment_of approve_dev = dev
environment_of promote_dev = dev
environment_of promote_hom = hom
environment_of recover_hom = hom

abbrev pub is_promotion : Operation → Bool
is_promotion approve_dev = false
is_promotion promote_dev = true
is_promotion promote_hom = true
is_promotion recover_hom = false

abbrev pub is_recovery : Operation → Bool
is_recovery approve_dev = false
is_recovery promote_dev = false
is_recovery promote_hom = false
is_recovery recover_hom = true

module _ (D : Destination) (T : Tools) (g : Setting) (o : Order) where
  -- `source.get(key)` and that it is valid.
  unfoldable pub source_manifest : Key → Act (Site D T) Manifest
  unfolding call
  source_manifest key = do
    doc ← call D T (λ d. other) (λ s. T.source_get s key)
    found ← or_missing doc
    or_missing (manifest_in found)

  unfoldable pub source_manifests : List Key → Act (Site D T) (List Manifest)
  unfolding source_manifest
  source_manifests [] = pure []
  source_manifests (key ∷ keys) = do
    m ← source_manifest key
    others ← source_manifests keys
    pure (m ∷ others)

  -- The key of the release, or the approvals that are listed.
  unfoldable pub source_keys : Option String → Act (Site D T) (List Key)
  unfolding call
  source_keys (some release) = do demand (is_release_id release); pure (manifest_key release ∷ [])
  source_keys none = do
    listed ← call D T (λ l. other) T.source_list
    demand listed.1
    pure (keep is_manifest_key listed.0)

  -- The gates of one image before anything is written.
  unfoldable pub source_gate : Manifest → Member → Act (Site D T) (Unit {0})
  unfolding check_quarantine gate
  source_gate m i = do check_quarantine D T i; gate D T dev m i

  -- The gates of the source, the copies, and the gates of the destination.
  unfoldable pub check_and_copy : Manifest → Act (Site D T) (Unit {0})
  unfolding validate_destination source_gate copy check_copy
  check_and_copy m = do
    validate_destination D T g.account hom m
    for_each m.images (source_gate m)
    for_each m.images (copy D T m)
    for_each m.images (check_copy D T m)

  -- What follows the choice of a release.
  unfoldable pub promote_to_hom : Manifest → States → Act (Site D T) Outcome
  unfolding report check_and_copy put_manifest publish_in
  promote_to_hom m states = do
    report D T
    check_and_copy m
    demand (is_release_id m.release_id)
    put_manifest D T g o (manifest_key m.release_id) m
    publish_in D T g o hom false "" m (before_of m.images states)
    report D T
    pure (promoted m)

  unfoldable pub finish_promotion : States → Option Manifest → Act (Site D T) Outcome
  unfolding report promote_to_hom
  finish_promotion states none = do demand (not (is_some o.release)); report D T; pure skipped
  finish_promotion states (some m) = promote_to_hom m states

  unfoldable pub run_promote_hom : Act (Site D T) Outcome
  unfolding source_keys source_manifests read_states choose finish_promotion
  run_promote_hom = do
    keys ← source_keys o.release
    manifests ← source_manifests keys
    for_each manifests (λ m. demand (g.is_valid m))
    states ← read_states D T g o (names_of manifests)
    choice ← or_stop (
        choose g.consumers_pass o.now hom (g.policy hom) states o.resume manifests (soak_of g hom o)
          o.now o.release)
    finish_promotion states choice

  abbrev pub reason_of : Option String → Option String
  reason_of none = none
  reason_of (some reason) = if g.is_blank reason then none else some reason

  -- The gates and the publication of a recovery.
  unfoldable pub recover_to : String → Manifest → Act (Site D T) Outcome
  unfolding check_again read_states publish_in
  recover_to reason m = do
    check_again D T g o hom m
    before ← read_states D T g o (map (λ i. i.name) m.images)
    publish_in D T g o hom true reason m before
    pure (promoted m)

  unfoldable pub run_recover_hom : Act (Site D T) Outcome
  unfolding get_manifest remotely get verify_approved recover_to
  run_recover_hom = do
    reason ← or_missing (reason_of o.reason)
    release ← or_missing o.release
    demand (is_release_id release)
    m ← get_manifest D T g o (manifest_key release)
    or_stop (verify_approved g.consumers_pass o.now m)
    receipt ← remotely D T (get D o.context (promoted_key release))
    demand (is_record_of o.context m receipt)
    recover_to reason m

  unfoldable pub run_operation : Operation → Act (Site D T) Outcome
  unfolding run_approve_dev run_promote_dev run_promote_hom run_recover_hom
  run_operation approve_dev = run_approve_dev D T g o
  run_operation promote_dev = run_promote_dev D T g o
  run_operation promote_hom = run_promote_hom
  run_operation recover_hom = run_recover_hom

  abbrev pub is_named : Option String → Bool
  is_named none = true
  is_named (some release) = is_release_id release

  -- The tests of `main` before the command runs.
  abbrev pub is_allowed : Operation → Bool
  is_allowed operation =
      (not (is_promotion operation) || (g.policy (environment_of operation)).enabled)
      && is_named o.release
      && (not o.resume || (is_promotion operation && o.is_manual))

  -- `main`: the exit code.
  unfoldable pub main : Operation → Act (Site D T) ℕ
  unfolding run_operation
  main operation =
      attempt (do demand (is_allowed operation); outcome ← run_operation operation; pure 0) (pure 1)
