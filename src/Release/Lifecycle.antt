-- ===== src/Release/Lifecycle.antt =====
-- The commands of release/lifecycle.py: what they are given, and how they read, put and publish. Dev
-- has `approve_dev`, `complete_dev` and `promote_dev`, Hom has `promote_hom`, `recover_hom` and `main`.
pub mod Dev
pub mod Hom
pub mod Steps
pub mod Reads
pub mod Gates
pub mod Adds
pub mod Names
pub mod Warrant
pub mod Leads
pub mod DevRuns
pub mod HomRuns
pub mod Agreement
pub mod Gated
pub mod Approval
mod Tests
use alric_containers_image_b.Base.{
  ℕ, String, Bool, true, false, not, ◌&&◌, ◌||◌, Option, none, some, List, [], ◌∷◌, ◌++◌, map,
  Result, ok, err, str_eq, elem, ◌==◌, is_some, keep, if◌then◌else◌,
}
use alric_containers_image_b.Base.Act.{Stop, Act, pure, stop, demand, after, ◌>>=◌, ◌>>◌}
use alric_containers_image_b.Base.Decimal.{codes}
use alric_containers_image_b.BuildTag.{match_run}
use alric_containers_image_b.Release.Data.{
  Environment, dev, hom, Member, ManifestState, dev_validated, dev_stable, Manifest, States,
  FrameworkState, state_of, Policy,
}
use alric_containers_image_b.Release.Choice.{
  ChoiceError, SoakHours, duration, same_digests, verify_candidate, verify_approved, choose,
}
use alric_containers_image_b.Release.Documents.{same_lists}
use alric_containers_image_b.Release.Destination.{
  Key, state_key, promoted_key, manifest_key, candidate_key, Doc, manifest_doc, state_doc,
  empty_doc, promoted_doc, Destination,
}
use alric_containers_image_b.Release.Publication.{Context, Run, get, put, publish_states}
use alric_containers_image_b.Release.Site.{
  Tools, Site, Arch, amd64, arm64, executed, call, remotely, report, validate_destination,
  verify_in, gate, check_quarantine, copy, check_copy, other,
}

-- What the repository configures, and functions of other modules: `validate` of a manifest,
-- `verify_consumers`, and whether `str.strip` of a text is empty.
pub record Setting : Type 0 where
  pub account : Environment → String
  pub policy : Environment → Policy
  pub is_valid : Manifest → Bool
  pub consumers_pass : Manifest → Bool
  pub is_blank : String → Bool

-- The arguments of an invocation, a release that is not empty if there is one, and its times.
pub record Order : Type 0 where
  pub context : Context
  pub release : Option String
  pub soak_hours : Option SoakHours
  pub resume : Bool
  pub is_manual : Bool
  pub reason : Option String
  pub now : ℕ
  pub validated_at : ℕ
  pub stable_at : ℕ
  pub checked_at : ℕ

pub data Outcome : Type 0 where
  approved waiting promoted : Manifest → Outcome
  skipped : Outcome

pub data Operation : Type 0 where
  approve_dev promote_dev promote_hom recover_hom : Operation

-- `args.soak_hours`, which is that of the policy if it is not given.
abbrev pub soak_of : Setting → Environment → Order → SoakHours
soak_of g environment o = elim o.soak_hours [
  | none ↦ duration (g.policy environment).soak
  | some hours ↦ hours
]

-- `RELEASE_ID.fullmatch(…)`, as `manifest_key` asks.
abbrev pub is_release_id : String → Bool
is_release_id release = is_some (match_run (b'-' ∷ codes release))

abbrev pub same_images : Manifest → Manifest → Bool
same_images a b = same_digests a.images b.images && str_eq a.image_details b.image_details

-- `all(existing[key] == value for key, value in manifest.items())`, of the keys that
-- `from_publications` sets.
abbrev pub same_publication : Manifest → Manifest → Bool
same_publication existing m =
    str_eq existing.release_id m.release_id
    && existing.run_id == m.run_id
    && existing.attempt == m.attempt
    && same_images existing m
    && same_lists existing.units m.units
    && str_eq existing.source m.source

-- `{name for manifest in manifests for name in manifest['images']}`
abbrev pub add_names : List Member → List String → List String
add_names [] names = names
add_names (i ∷ rest) names =
    let later = add_names rest names in if elem i.name later then later else i.name ∷ later

abbrev pub names_of : List Manifest → List String
names_of [] = []
names_of (m ∷ ms) = add_names m.images (names_of ms)

-- `{name: states[name] for name in manifest['images']}`
abbrev pub before_of : List Member → States → States
before_of images states = map (λ i. (i.name, state_of i.name states)) images

abbrev pub is_candidate_key : Key → Bool
is_candidate_key (candidate_key release) = true
is_candidate_key _ = false

abbrev pub is_manifest_key : Key → Bool
is_manifest_key (manifest_key release) = true
is_manifest_key _ = false

-- A document that is read as a manifest; a document of another kind has not its fields.
abbrev pub manifest_in : Doc → Option Manifest
manifest_in (manifest_doc m) = some m
manifest_in _ = none

-- A document that need not be there: an empty one counts as none, as the code tests `if existing`,
-- `if previous` and `state or {}`.
abbrev pub known_manifest : Doc → Option (Option Manifest)
known_manifest (manifest_doc m) = some (some m)
known_manifest empty_doc = some none
known_manifest _ = none

abbrev pub state_in : Doc → Option (Option FrameworkState)
state_in (state_doc s) = some (some s)
state_in empty_doc = some none
state_in _ = none

module _ {S A : Type 0} where
  abbrev pub or_stop : Result ChoiceError A → Act S A
  or_stop (ok a) = pure a
  or_stop (err e) = stop Stop.failed

  abbrev pub or_missing : Option A → Act S A
  or_missing (some a) = pure a
  or_missing none = stop Stop.failed

module _ (D : Destination) (T : Tools) (g : Setting) (o : Order) where
  -- `store.get(key, optional=True)`
  unfoldable pub get_optional : Key → Act (Site D T) (Option Doc)
  get_optional key site =
      let (r, s) = D.get_object site.run.remote key in
      (r, record site { run = record site.run { remote = s } })

  -- `store.get(key)` of a manifest.
  unfoldable pub get_manifest : Key → Act (Site D T) Manifest
  unfolding remotely get
  get_manifest key = do doc ← remotely D T (get D o.context key); or_missing (manifest_in doc)

  abbrev pub optional_manifest : Option Doc → Act (Site D T) (Option Manifest)
  optional_manifest none = pure none
  optional_manifest (some doc) = or_missing (known_manifest doc)

  unfoldable pub find_manifest : Key → Act (Site D T) (Option Manifest)
  unfolding get_optional
  find_manifest key = do doc ← get_optional key; optional_manifest doc

  abbrev pub optional_state : Option Doc → Act (Site D T) (Option FrameworkState)
  optional_state none = pure none
  optional_state (some doc) = or_missing (state_in doc)

  -- `{name: store.get(f'state/{name}.json', optional=True) for name in names}`
  unfoldable pub read_states : List String → Act (Site D T) States
  unfolding get_optional
  read_states [] = pure []
  read_states (name ∷ names) = do
    doc ← get_optional (state_key name)
    state ← optional_state doc
    others ← read_states names
    pure ((name, state) ∷ others)

  -- `store.put(key, manifest, immutable=True)`
  unfoldable pub put_manifest : Key → Manifest → Act (Site D T) (Unit {0})
  unfolding remotely put
  put_manifest key m = remotely D T (put D o.context key (manifest_doc m) true)

  -- `publish_states(store, manifest, before, …)`
  unfoldable pub publish_in :
      Environment → Bool → String → Manifest → States → Act (Site D T) (Unit {0})
  unfolding publish_states
  publish_in environment recovery reason m before site =
      let (r, run) =
        publish_states D o.context m before environment recovery reason site.run.remote in
      (r, record site { run = run })

  -- `store.keys('releases/')`
  unfoldable pub list_keys : Act (Site D T) (List Key)
  list_keys site =
      let (r, s) = D.list_releases site.run.remote in
      after r (λ listed. do demand listed.1; pure listed.0)
        (record site { run = record site.run { remote = s } })
