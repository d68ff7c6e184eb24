-- ===== src/Release/Lifecycle/Tests.antt =====
-- A candidate that is promoted to DEV, an approval that is promoted to HOM, and runs that are cut off.
use alric_containers_image_b.Base.{
  ℕ, String, ◌≡◌, refl, ◌⊎◌, true, false, Option, none, some, List, [], ◌∷◌, Result, ok, str_eq,
  arith,
}
use alric_containers_image_b.Base.Act.{Stop, for_each, attempt, ◌>>=◌}
use alric_containers_image_b.BuildTag.{match_run}
use alric_containers_image_b.Base.Maximum.{max_of}
use alric_containers_image_b.Release.Data.{
  Environment, dev, hom, Member, ManifestState, Manifest, States,
}
use alric_containers_image_b.Release.Choice.{verify_approved, verify, choose, eligible, is_eligible}
use alric_containers_image_b.Release.Destination.{Doc, manifest_doc, View}
use alric_containers_image_b.Release.Publication.{
  Context, Run, start, publish_states, publish, observe, stable_digest, check_unchanged, hold, put,
  put_answer, put_receipt, get, complete, write_member, write_stable, read_index, tag_stable,
  confirm, mark_promoted, release_member, give_up,
}
use alric_containers_image_b.Release.Publication.Covered.{Unchanged}
use alric_containers_image_b.Release.Publication.Agreement.{Agrees}
use alric_containers_image_b.Release.Publication.Kept.{publish_states-Agrees}
use alric_containers_image_b.Release.Rehearsal.{has_digest, view_of, rehearsal, rehearsal-IsLawful}
use alric_containers_image_b.Release.Site.{
  Tools, Site, remotely, call, report, validate_destination, verify_in, scan_in, gate,
  check_quarantine, copy, check_copy,
}
use alric_containers_image_b.Release.Lifecycle.{
  Setting, Order, promote_dev, promote_hom, publish_in, put_manifest, get_optional, read_states,
}
use alric_containers_image_b.Release.Lifecycle.Dev.{approval, check_again, persist, complete_dev}
use alric_containers_image_b.Release.Lifecycle.Hom.{
  source_manifest, source_manifests, source_keys, source_gate, check_and_copy, promote_to_hom,
  finish_promotion, run_promote_hom, run_operation, main,
}
use alric_containers_image_b.Release.Lifecycle.Agreement.{invocations, invocations-Agrees}
use alric_containers_image_b.Release.Lifecycle.Gated.{Published, main-Published}
use alric_containers_image_b.Release.Lifecycle.Approval.{Stands, IsStored, complete_dev-ok}

abbrev images : List Member
images =
    record { name = "node"; digest = "sha256:n" }
    ∷ record { name = "python"; digest = "sha256:p" }
    ∷ []

abbrev candidate : Manifest
candidate = record {
  release_id = "r7-a1";
  run_id = 7;
  attempt = 1;
  images = images;
  state = ManifestState.dev_validated;
  dev_validated_at = some 5;
  dev_stable_at = none;
  dev_readback = [];
  units = ("node" ∷ []) ∷ ("python" ∷ []) ∷ [];
  consumer_results = [];
  image_details = "";
  source = "";
}

abbrev account : Environment → String
account dev = "100000000001"
account hom = "100000000002"

abbrev setting : Setting
setting = record {
  account = account;
  policy = λ e. record { enabled = true; soak = 10; frameworks = "node" ∷ "python" ∷ [] };
  is_valid = λ m. true;
  consumers_pass = λ m. true;
  is_blank = λ t. str_eq t "";
}

abbrev context : Context
context = record {
  event = "e1";
  started_at = 20;
  completed_at = 21;
  checksum = λ m. "sha256:m";
  same_doc = λ a b. true;
  index_matches = has_digest;
}

abbrev order : Order
order = record {
  context = context;
  release = none;
  soak_hours = none;
  resume = false;
  is_manual = false;
  reason = none;
  now = 20;
  validated_at = 5;
  stable_at = 21;
  checked_at = 22;
}

-- The promotion of the release to HOM.
abbrev requested : Order
requested = record order { release = some "r7-a1" }

abbrev answer : {A : Type 0} → A → Result Stop A × Unit {0}
answer a = (ok a, tt)

abbrev approved_document : Option Doc
approved_document = some (
    manifest_doc (record candidate {
      state = ManifestState.dev_stable;
      dev_stable_at = some 8;
      dev_readback = images;
    }))

-- Tools whose gates pass.
abbrev tools : Tools
tools = record {
  State = Unit {0};
  caller_account = λ s e. answer (account e);
  validate_ecr = λ s e name. answer tt;
  verify_image = λ s e m i. answer tt;
  scan_images = λ s e i. answer 0;
  load_quarantined_digests = λ s name. answer [];
  copy_image = λ s m i. answer tt;
  read_target = λ s m i. answer tt;
  execute = λ s m runtime arch. answer "pass";
  from_publications = λ s. answer candidate;
  source_get = λ s key. answer approved_document;
  source_list = λ s. answer ([], true);
  report = λ s. answer tt;
}

abbrev empty : View
empty = record { objects = λ k. none; stable = λ n. none }

abbrev states : States
states = ("node", none) ∷ ("python", none) ∷ []

abbrev run_at : ℕ → Run rehearsal
run_at budget = record {
  remote = (empty, budget);
  receipt = start rehearsal context candidate states dev false "";
}

abbrev site_at : ℕ → Site rehearsal tools
site_at budget = record { run = run_at budget; tools = tt; trail = [] }

-- Eight writes for the publication and one for the approval.
completes :
    (complete_dev rehearsal tools setting order candidate states (site_at 9)).0
    ≡ ok (approval rehearsal tools setting order candidate)
unfolding complete_dev persist check_again validate_destination gate verify_in scan_in call
    publish_in put_manifest remotely report verify_approved publish_states publish observe
    stable_digest check_unchanged hold put put_answer put_receipt get complete write_member
    write_stable read_index tag_stable confirm mark_promoted release_member give_up for_each attempt
    ◌>>=◌ match_run
completes = refl

complete_dev-ok_example :
    let v =
      view_of
        (complete_dev rehearsal tools setting order candidate states (site_at 9)).1.run.remote in
    (approval rehearsal tools setting order candidate
      ≡ approval rehearsal tools setting order candidate)
    × Stands rehearsal tools view_of rehearsal-IsLawful setting order candidate states v
    × IsStored rehearsal tools view_of rehearsal-IsLawful setting order candidate states v
complete_dev-ok_example =
    complete_dev-ok rehearsal tools view_of rehearsal-IsLawful setting order candidate states
      (site_at 9) (approval rehearsal tools setting order candidate) completes

-- The manifest, eight writes of the publication and the record of the promotion.
promotes :
    let s = main rehearsal tools setting requested promote_hom (site_at 10) in
    (s.0 ≡ ok 0) × ((view_of s.1.run.remote).stable "python" ≡ some "sha256:p")
unfolding main run_operation run_promote_hom source_keys source_manifests source_manifest
    read_states get_optional choose eligible is_eligible verify max_of finish_promotion
    promote_to_hom check_and_copy source_gate check_quarantine copy check_copy validate_destination
    gate verify_in scan_in call publish_in put_manifest remotely report verify_approved
    publish_states publish observe stable_digest check_unchanged hold put put_answer put_receipt get
    complete write_member write_stable read_index tag_stable confirm mark_promoted release_member
    give_up for_each attempt ◌>>=◌ match_run
promotes = (refl, refl)

main-Published_example :
    let s =
      main rehearsal tools setting requested promote_hom
        (record { run = run_at 5; tools = tt; trail = [] }) in
    Unchanged empty (view_of s.1.run.remote)
    ⊎ Published setting requested hom false empty (view_of s.1.run.remote) s.1.trail
main-Published_example =
    main-Published rehearsal tools view_of rehearsal-IsLawful setting requested promote_hom
      (run_at 5) tt

empty-Agrees : Agrees empty
empty-Agrees name d there unheld = absurd (ground arith)

invocations-Agrees_example : Agrees (
    view_of
      (invocations rehearsal tools setting
        ((order, promote_dev) ∷ (requested, promote_hom) ∷ [])
        (site_at 5)).run.remote)
invocations-Agrees_example =
    invocations-Agrees rehearsal tools setting view_of rehearsal-IsLawful
      ((order, promote_dev) ∷ (requested, promote_hom) ∷ []) (site_at 5) empty-Agrees

publish_states-Agrees_example :
    Agrees
      (view_of (publish_states rehearsal context candidate states dev false "" (empty, 4)).1.remote)
publish_states-Agrees_example =
    publish_states-Agrees rehearsal context view_of rehearsal-IsLawful candidate states dev false ""
      (empty, 4) empty-Agrees
