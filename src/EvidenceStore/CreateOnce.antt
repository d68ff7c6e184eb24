-- ===== src/EvidenceStore/CreateOnce.antt =====
-- What `create_once` leaves in a lawful store, on every branch.
use mathlib.Core.Path.{subst}
use alric_containers_image_b.Base.{
  String, ◌≡◌, refl, ◌≢◌, ◌⊎◌, ap, inl, inr, false, Option, none, some, arith, str_eq, Bool-cases,
}
use alric_containers_image_b.EvidenceStore.Content.{
  FrozenObject, StoredObject, same_content, same_content_iff,
}
use alric_containers_image_b.EvidenceStore.Protocol.{
  Reply, returned, missing, precondition_failed, response_lost, failed, Transport, View, Creates,
  IsLawful,
}
use alric_containers_image_b.EvidenceStore.{
  ReadStatus, WriteStatus, WriteResult, get, reconciled, read_back, after_put, create_once,
}

-- What each status says of the store before and after.
abbrev pub Says : WriteResult → FrozenObject → String → View → View → Type 0
Says r content key before after = elim r.status [
  | WriteStatus.created ↦
      (obj : StoredObject) × (r.object ≡ some obj)
      × (obj.content ≡ content)
      × Creates before after key content obj.version_id
  | WriteStatus.already_present_identical ↦
      (obj : StoredObject) × (r.object ≡ some obj)
      × (obj.content ≡ content)
      × (after key ≡ some obj)
  | WriteStatus.conflict ↦
      (obj : StoredObject) × (r.object ≡ some obj)
      × (obj.content ≢ content)
      × (after ≡ before)
      × (before key ≡ some obj)
  | WriteStatus.error ↦ r.object ≡ none
]

abbrev Did : View → View → String → FrozenObject → Type 0
Did before after key content =
    (after ≡ before) ⊎ ((version : String) × Creates before after key content version)

Says-conflict :
    (r : WriteResult) (content : FrozenObject) (key : String) (before after : View)
    → r.status ≡ WriteStatus.conflict
    → Says r content key before after
    → (obj : StoredObject) × (obj.content ≢ content) × (before key ≡ some obj)
Says-conflict r content key before after h says = let s = rw (h, Says) at says in (s.0, s.2, s.4)

module _ (before after : View) (key : String) (content : FrozenObject) where
  reconciled-Says :
      Did before after key content
      → (status : ReadStatus) (object : Option StoredObject)
      → ((obj : StoredObject)
          → status ≡ ReadStatus.found
          → object ≡ some obj
          → after key ≡ some obj)
      → Says (reconciled content status object) content key before after
  unfolding reconciled
  reconciled-Says did ReadStatus.found (some obj) there =
      elim (Bool-cases (same_content obj.content content)) [
        | inl e ↦ rw e (obj, refl, (same_content_iff obj.content content).0 e, there obj refl refl)
        | inr e ↦ rw e (conflicts did (there obj refl refl) e)
      ]
    where
      conflicts :
          Did before after key content
          → after key ≡ some obj
          → same_content obj.content content ≡ false
          → (o : StoredObject) × (some obj ≡ some o)
            × (o.content ≢ content)
            × (after ≡ before)
            × (before key ≡ some o)
      conflicts (inl same) h e = (
        obj,
        refl,
        λ p. ground (arith, (same_content_iff obj.content content).1 p),
        same,
        rw (← same) h,
      )
      conflicts (inr (v, made)) h e =
          absurd (ground (arith, made.now_there, (same_content_iff obj.content content).1))
  reconciled-Says did ReadStatus.found none there = refl
  reconciled-Says did ReadStatus.absent object there = refl
  reconciled-Says did ReadStatus.error object there = refl

  read_back-Says :
      (version : String)
      → Creates before after key content version
      → (status : ReadStatus) (object : Option StoredObject)
      → ((obj : StoredObject)
          → status ≡ ReadStatus.found
          → object ≡ some obj
          → after key ≡ some obj)
      → Says (read_back content status object) content key before after
  unfolding read_back
  read_back-Says version made ReadStatus.found (some obj) there =
      elim (Bool-cases (same_content obj.content content)) [
        | inl e ↦ rw e (obj, refl, (same_content_iff obj.content content).0 e, same_version)
        | inr e ↦ rw e refl
      ]
    where
      same_version : Creates before after key content obj.version_id
      same_version =
          subst (λ v. Creates before after key content v)
            (ground (arith, made.now_there, there obj refl refl)) made
  read_back-Says version made ReadStatus.found none there = refl
  read_back-Says version made ReadStatus.absent object there = refl
  read_back-Says version made ReadStatus.error object there = refl

module _ (T : Transport) (view : T.State → View) (L : IsLawful T view) where
  -- A read that is found answers with the object of the view, at the version asked for.
  get-found :
      (s : T.State) (key : String) (version : Option String) (obj : StoredObject)
      → (get T s key version).0.status ≡ ReadStatus.found
      → (get T s key version).0.object ≡ some obj
      → view s key ≡ some obj
  unfolding get
  get-found s key version obj h k = ground (arith, L.get-returned s key version obj)

  view-get :
      (s : T.State) (key : String) (version : Option String) → view (get T s key version).1 ≡ view s
  unfolding get
  view-get s key version = L.get-view s key version

  view-after_put :
      (s : T.State) (key : String) (content : FrozenObject) (reply : Reply (Option String))
      → view (after_put T key content reply s).1 ≡ view s
  unfolding after_put
  view-after_put s key content (returned (some version)) =
      ground (arith, view-get s key (some version))
  view-after_put s key content (returned none) = refl
  view-after_put s key content precondition_failed = view-get s key none
  view-after_put s key content response_lost = view-get s key none
  view-after_put s key content missing = refl
  view-after_put s key content failed = refl

  -- Over any lawful transport, whatever create_once meets, the store is as it was or has one new
  -- object: the requested content under the requested key, which was free.
  pub create_once-view :
      (s : T.State) (key : String) (content : FrozenObject)
      → (view (create_once T s key content).1 ≡ view s)
        ⊎ ((version : String) × Creates
              (view s)
              (view (create_once T s key content).1)
              key
              content
              version)
  unfolding create_once
  create_once-view s key content = rw view-after_put (L.put-view s key content)

  after_put-Says :
      (s t : T.State) (key : String) (content : FrozenObject) (reply : Reply (Option String))
      → Did (view s) (view t) key content
      → ((version : String)
          → reply ≡ returned (some version)
          → Creates (view s) (view t) key content version)
      → Says
          (after_put T key content reply t).0
          content
          key
          (view s)
          (view (after_put T key content reply t).1)
  unfolding after_put
  after_put-Says s t key content (returned (some version)) did made =
      elim (Bool-cases (str_eq version "")) [
        | inl e ↦ rw e refl
        | inr e ↦
            rw (e, view-get t key (some version))
              (read_back-Says (view s) (view t) key content version (made version refl)
                (get T t key (some version)).0.status (get T t key (some version)).0.object
                (get-found t key (some version)))
      ]
  after_put-Says s t key content (returned none) did made = refl
  after_put-Says s t key content precondition_failed did made = rw (view-get t key none) (
      reconciled-Says (view s) (view t) key content did (get T t key none).0.status
        (get T t key none).0.object (get-found t key none))
  after_put-Says s t key content response_lost did made = rw (view-get t key none) (
      reconciled-Says (view s) (view t) key content did (get T t key none).0.status
        (get T t key none).0.object (get-found t key none))
  after_put-Says s t key content missing did made = refl
  after_put-Says s t key content failed did made = refl

  -- Over any lawful transport, each status of create_once describes the store: created means that
  -- the key was free and now holds the content under the returned version, already present means
  -- that it holds the content, conflict means that nothing changed and the key held other content,
  -- and an error returns no object.
  pub create_once-Says :
      (s : T.State) (key : String) (content : FrozenObject)
      → Says
          (create_once T s key content).0
          content
          key
          (view s)
          (view (create_once T s key content).1)
  unfolding create_once
  create_once-Says s key content =
      after_put-Says s (T.put_if_absent s key content).1 key content
        (T.put_if_absent s key content).0 (L.put-view s key content) (L.put-returned s key content)

  -- Over any lawful transport, repeating a request under a key that was free never reports a
  -- conflict, whatever the first attempt did and answered.
  pub create_once_retry :
      (s : T.State) (key : String) (content : FrozenObject)
      → view s key ≡ none
      → (create_once T (create_once T s key content).1 key content).0.status ≢ WriteStatus.conflict
  create_once_retry s key content free h = clash (create_once-view s key content) (
      Says-conflict (create_once T t key content).0 content key (view t)
        (view (create_once T t key content).1) h (create_once-Says t key content))
    where
      t : T.State
      t = (create_once T s key content).1

      clash :
          Did (view s) (view t) key content
          → (obj : StoredObject) × (obj.content ≢ content) × (view t key ≡ some obj)
          → ⊥
      clash (inl same) c = ground (arith, c.2, free, ap (λ (v : View). v key) same)
      clash (inr (v, made)) c = c.1 (ground (arith, c.2, made.now_there))
