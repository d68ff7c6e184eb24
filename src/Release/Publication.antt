-- ===== src/Release/Publication.antt =====
-- `publish_states` of release/lifecycle.py with `stable_digest` and `write_stable`, and `Store.put`
-- of release/release_store.py. The receipt is a mutable object: it stands in the state.
pub mod Views
pub mod Steps
pub mod Stores
pub mod Covered
pub mod Outcome
pub mod Agreement
pub mod Kept
pub mod Accepting
pub mod Returns
use alric_containers_image_b.Base.{
  ℕ, String, Bool, true, false, not, ◌&&◌, ◌||◌, Option, none, some, List, [], ◌∷◌, ◌++◌, map,
  Result, ok, err, str_eq, elem, all, if◌then◌else◌,
}
use alric_containers_image_b.Base.Act.{
  Stop, Act, pure, stop, after, demand, for_each, attempt, ◌>>=◌, ◌>>◌,
}
use alric_containers_image_b.Release.Data.{
  Environment, dev, hom, is_dev, Member, Manifest, Ordinal, ordering, ordinal_leb, FrameworkState,
  no_state, or_empty, watermark, States, state_of,
}
use alric_containers_image_b.Release.Destination.{
  Phase, Key, state_key, event_key, promoted_key, Status, in_progress, pass, fail, Receipt, Doc,
  state_doc, receipt_doc, promoted_doc, Detail, Described, image_not_found, entries, Put, done,
  exists_already, stopped, Observation, seen, unreadable, Destination,
}

-- What the run brings: its event key, times, and functions of other modules and libraries: the
-- checksum of a manifest, the comparison of two documents, and the verification of an index that
-- was fetched against the manifest's item (`verify_publication`).
pub record Context : Type 0 where
  pub event : String
  pub started_at : ℕ
  pub completed_at : ℕ
  pub checksum : Manifest → String
  pub same_doc : Doc → Doc → Bool
  pub index_matches : Member → List ℕ → Bool

-- The state of a hold: what was known, kept apart from automation.
abbrev pub hold_state : Option FrameworkState → String → String → FrameworkState
hold_state before release reason = record (or_empty before) {
  hold = true;
  pending_release = some release;
  reason = some reason;
}

abbrev pub max_ordinal : Ordinal → Ordinal → Ordinal
max_ordinal a b = if ordinal_leb b a then a else b

abbrev pub or_text : String → String → String
or_text s d = if str_eq s "" then d else s

abbrev pub observed_of : String → List (String × Option String) → Option (Option String)
observed_of name [] = none
observed_of name ((k, d) ∷ rest) = if str_eq name k then some d else observed_of name rest

abbrev pub same_digest : Option String → Option String → Bool
same_digest (some a) (some b) = str_eq a b
same_digest _ _ = false

pub record Run (D : Destination) : Type 0 where
  pub remote : D.State
  pub receipt : Receipt

-- `Store.get` wants the object there.
abbrev pub stored : Result Stop (Option Doc) → Result Stop Doc
stored (ok (some doc)) = ok doc
stored (ok none) = err Stop.failed
stored (err e) = err e

-- `stable_digest` of the answer: none if the tag is not there; it must name one image.
abbrev pub tagged : Result Stop Described → Result Stop (Option String)
tagged (ok image_not_found) = ok none
tagged (ok (entries (e ∷ []))) =
    if elem "stable" e.tags then ok (some e.digest) else err Stop.failed
tagged (ok (entries _)) = err Stop.failed
tagged (err e) = err e

-- The answer of `put-image`.
abbrev pub tag_answer : Put → Result Stop (Unit {0})
tag_answer (stopped e) = err e
tag_answer answer = ok tt

module _ (D : Destination) (c : Context) where
  abbrev pub remotely : {A : Type 0} → Run D → Result Stop A × D.State → Result Stop A × Run D
  remotely run (r, s) = (r, record run { remote = s })

  -- `receipt.update(…)`
  abbrev pub update : (Receipt → Receipt) → Act (Run D) (Unit {0})
  update f run = (ok tt, record run { receipt = f run.receipt })

  -- `Store.get(key)`
  unfoldable pub get : Key → Act (Run D) Doc
  get key run = let (r, s) = D.get_object run.remote key in remotely run (stored r, s)

  unfoldable pub stable_digest : String → Act (Run D) (Option String)
  stable_digest name run =
      let (r, s) = D.describe_stable run.remote name in remotely run (tagged r, s)

  -- What `Store.put` does with the answer: only an immutable record may be there already.
  unfoldable pub put_answer : Key → Doc → Bool → Put → Act (Run D) (Unit {0})
  unfolding get
  put_answer key doc immutable done = pure tt
  put_answer key doc true exists_already = do old ← get key; demand (c.same_doc old doc)
  put_answer key doc false exists_already = stop Stop.failed
  put_answer key doc immutable (stopped e) = stop e

  -- `Store.put(key, document, immutable)`
  unfoldable pub put : Key → Doc → Bool → Act (Run D) (Unit {0})
  unfolding put_answer
  put key doc immutable run =
      let (answer, s) = D.put_object run.remote key doc immutable in
      put_answer key doc immutable answer (record run { remote = s })

  -- `read_index` of release_trust.py, by digest or by the tag.
  unfoldable pub read_index : Member → Option String → Act (Run D) (Unit {0})
  read_index i reference run =
      let (r, s) = D.fetch_index run.remote i.name reference in
      after r (λ raw. demand (c.index_matches i raw)) (record run { remote = s })

  -- `put-image`; ImageAlreadyExistsException is no error.
  unfoldable pub tag_stable : Member → Act (Run D) (Unit {0})
  tag_stable i run =
      let (answer, s) = D.put_image run.remote i.name i.digest in
      (tag_answer answer, record run { remote = s })

  -- `require(stable_digest(…) == item['digest'])`
  unfoldable pub confirm : Member → Act (Run D) (Unit {0})
  unfolding stable_digest
  confirm i = do observed ← stable_digest i.name; demand (same_digest observed (some i.digest))

  unfoldable pub write_stable : Member → Act (Run D) (Unit {0})
  unfolding read_index tag_stable confirm
  write_stable i = do read_index i (some i.digest); tag_stable i; confirm i; read_index i none

  module _ (m : Manifest) (before : States) (environment : Environment) (recovery : Bool)
      (reason : String) where
    -- `observed_before`
    unfoldable pub observe : List Member → Act (Run D) (List (String × Option String))
    unfolding stable_digest
    observe [] = pure []
    observe (i ∷ rest) = do
      digest ← stable_digest i.name
      others ← observe rest
      pure ((i.name, digest) ∷ others)

    -- Outside a recovery a repository that is known and not held must show its recorded digest.
    abbrev pub is_expected : Receipt → String × Option FrameworkState → Bool
    is_expected receipt (name, none) = true
    is_expected receipt (name, some previous) =
        previous.hold || elim (observed_of name receipt.observed_before) [
          | none ↦ false
          | some digest ↦ elim previous.digest [
            | none ↦ false
            | some recorded ↦ same_digest digest (some recorded)
          ]
        ]

    unfoldable pub check_unchanged : Act (Run D) (Unit {0})
    check_unchanged run = demand (recovery || all (is_expected run.receipt) before) run

    -- `before[name]`, or KeyError, which is one of ERRORS.
    unfoldable pub previous_of : String → States → Act (Run D) (Option FrameworkState)
    previous_of name [] = stop Stop.failed
    previous_of name ((k, s) ∷ rest) = if str_eq name k then pure s else previous_of name rest

    -- The hold that is written before any tag.
    unfoldable pub hold : String → Member → Act (Run D) (Unit {0})
    unfolding previous_of put
    hold why i = do
      previous ← previous_of i.name before
      put (state_key i.name) (state_doc (hold_state previous m.release_id why)) false

    unfoldable pub put_receipt : Phase → Act (Run D) (Unit {0})
    unfolding put
    put_receipt phase run = put (event_key c.event phase) (receipt_doc run.receipt) true run

    unfoldable pub write_member : Member → Act (Run D) (Unit {0})
    unfolding write_stable
    write_member i = do write_stable i; update (λ r. record r { writes = r.writes ++ i ∷ [] })

    -- The state of a member once the release is confirmed.
    abbrev pub final_state : Option FrameworkState → Member → FrameworkState
    final_state previous i = record {
      release_id = some m.release_id;
      digest = some i.digest;
      high_watermark = some (max_ordinal (watermark (or_empty previous)) (ordering m));
      hold = recovery;
      pending_release = none;
      reason = some reason;
      event_key = some c.event;
      updated_at = some c.completed_at;
    }

    unfoldable pub release_member : Member → Act (Run D) (Unit {0})
    unfolding previous_of put
    release_member i = do
      previous ← previous_of i.name before
      put (state_key i.name) (state_doc (final_state previous i)) false

    -- A first promotion to HOM leaves a record that a recovery will ask for.
    unfoldable pub mark_promoted : Act (Run D) (Unit {0})
    unfolding put
    mark_promoted run =
        if not (is_dev environment) && not recovery
        then put (promoted_key m.release_id) (promoted_doc (c.checksum m) run.receipt.writes) true
            run
        else (ok tt, run)

    -- The body of the `try`.
    unfoldable pub complete : Act (Run D) (Unit {0})
    unfolding write_member put_receipt mark_promoted release_member confirm
    complete = do
      for_each m.images write_member
      for_each m.images confirm
      update (λ r. record r { status = pass; completed_at = some c.completed_at })
      put_receipt Phase.completed
      mark_promoted
      for_each m.images release_member

    -- One entry of `observed_after_failure`.
    unfoldable pub look_again : Member → Act (Run D) (Unit {0})
    unfolding stable_digest
    look_again i =
        attempt (do digest ← stable_digest i.name; note (i.name, seen digest))
          (note (i.name, unreadable))
      where
        note : String × Observation → Act (Run D) (Unit {0})
        note entry = update (λ r. record r { observed_after = r.observed_after ++ entry ∷ [] })

    -- The handler: observe again, hold every member again, leave the failed receipt, and raise.
    unfoldable pub give_up : Act (Run D) (Unit {0})
    unfolding hold put_receipt look_again
    give_up = do
      update (λ r. record r { status = fail; completed_at = some c.completed_at })
      for_each m.images look_again
      for_each m.images (λ i. attempt (hold "incomplete stable operation" i) (pure tt))
      attempt (put_receipt Phase.failed) (pure tt)
      stop Stop.failed

    -- `publish_states`, from a run with the receipt `start`.
    unfoldable pub publish : Act (Run D) (Unit {0})
    unfolding observe check_unchanged hold put_receipt complete give_up
    publish = do
      digests ← observe m.images
      update (λ r. record r { observed_before = digests })
      check_unchanged
      for_each m.images (hold (or_text reason "stable write in progress"))
      put_receipt Phase.started
      attempt complete give_up

    abbrev pub start : Receipt
    start = record {
      release_id = m.release_id;
      manifest_digest = c.checksum m;
      environment = environment;
      recovery = recovery;
      reason = reason;
      started_at = c.started_at;
      before = before;
      observed_before = [];
      writes = [];
      status = in_progress;
      completed_at = none;
      observed_after = [];
    }

    -- `publish_states`: what it raised or returned, and the destination and receipt that it left.
    unfoldable pub publish_states : D.State → Result Stop (Unit {0}) × Run D
    unfolding publish
    publish_states s = publish (record { remote = s; receipt = start })
