-- ===== src/Release/Publication/Returns.antt =====
-- `publish_states` on a destination that accepts every call.
use alric_containers_image_b.Base.{
  String, ◌≡◌, ◌≢◌, refl, sym, ap, ◌∙◌, ◌⊎◌, inl, inr, Bool, true, false, not, ◌&&◌, ◌||◌, Option,
  none, some, List, [], ◌∷◌, ok, In, map, str_eq, eq_iff, all, arith, Bool-cases, if◌then◌else◌,
}
use mathlib.Core.Path.{subst}
use alric_containers_image_b.Base.Membership.{all_of_In}
use alric_containers_image_b.Base.Act.{pure, for_each, attempt}
use alric_containers_image_b.Base.Act.Triples.{
  Post, weaken, bind, Keeps-rounds, for_each-all, attempted,
}
use alric_containers_image_b.Release.Data.{
  Environment, is_dev, Member, Manifest, FrameworkState, States,
}
use alric_containers_image_b.Release.Destination.{
  Phase, Key, state_key, event_key, promoted_key, Receipt, Doc, Destination, View, IsLawful,
}
use alric_containers_image_b.Release.Publication.{
  Context, Run, update, observed_of, same_digest, previous_of, observe, is_expected,
  check_unchanged, hold, put_receipt, write_member, release_member, mark_promoted, complete,
  give_up, publish, publish_states, promoted_doc, put,
}
use alric_containers_image_b.Release.Publication.Views.{Wrote}
use alric_containers_image_b.Release.Publication.Steps.{At}
use alric_containers_image_b.Release.Publication.Accepting.{
  IsAccepting, Live, Live-demand, Live-stable_digest, Live-confirm, Live-put_mutable, Live-put_new,
  Live-write_stable, Post-returns,
}

-- A write under another key leaves a key free.
none-Wrote :
    {v w : View} {key : Key} {doc : Doc} (k : Key)
    → Wrote v w key doc
    → k ≢ key
    → v.objects k ≡ none
    → w.objects k ≡ none
none-Wrote k wrote other h = elim wrote.one_object [
  | inl same ↦ ap (λ f. f k) same ∙ h
  | inr sets ↦ sets.others k other ∙ h
]

module _ (D : Destination) (c : Context) (view : D.State → View) (lawful : IsLawful D view)
    (m : Manifest) (accepts : IsAccepting D c view m.images) (before : States)
    (environment : Environment) (recovery : Bool) (reason : String) where
  abbrev On : (View → Type 0) → Run D → Type 0
  On = At D c view lawful

  -- No receipt of this run and no record of the release is there.
  abbrev Free : View → Type 0
  Free v =
      (v.objects (event_key c.event Phase.completed) ≡ none)
      × (v.objects (promoted_key m.release_id) ≡ none)

  abbrev pub Fresh : View → Type 0
  Fresh v = (v.objects (event_key c.event Phase.started) ≡ none) × Free v

  -- The states are those of the images.
  abbrev pub Knows : Type 0
  Knows = (i : Member) → In i m.images → In i.name (map (λ e. e.0) before)

  abbrev pub OneDigest : Type 0
  OneDigest = (i j : Member) → In i m.images → In j m.images → i.name ≡ j.name → i.digest ≡ j.digest

  -- A recovery, or the tags show what the states that are not held say.
  abbrev pub Expected : View → Type 0
  Expected u =
      (recovery ≡ true)
      ⊎ ((name : String) (previous : FrameworkState)
          → In (name, some previous) before
          → (previous.hold ≡ true)
            ⊎ (In name (map (λ i. i.name) m.images)
                × ((d : String) × (previous.digest ≡ some d) × (u.stable name ≡ some d))))

  Live-previous_of :
      (I : View → Type 0) (name : String) (known : States)
      → In name (map (λ e. e.0) known)
      → Live (On I) (previous_of D c m before environment recovery reason name known) (λ p. On I)
  unfolding previous_of
  Live-previous_of I name [] listed = absurd listed
  Live-previous_of I name ((k, d) ∷ rest) listed =
      go (str_eq name k) refl (λ e. Live-previous_of I name rest (later e))
    where
      later : str_eq name k ≡ false → In name (map (λ e. e.0) rest)
      later e = elim listed [ inl f ↦ absurd (ground (arith, eq_iff name k)) | inr h ↦ h ]

      go :
          (b : Bool)
          → str_eq name k ≡ b
          → (str_eq name k ≡ false
              → Live
                  (On I)
                  (previous_of D c m before environment recovery reason name rest)
                  (λ p. On I))
          → Live
              (On I)
              (if b then pure d else previous_of D c m before environment recovery reason name rest)
              (λ p. On I)
      go true e next = record { run = λ r h. h }
      go false e next = next e

  -- The holds, and the states at the end: they write state documents.
  Live-hold :
      (I : View → Type 0) (why : String) (i : Member)
      → Knows
      → In i m.images
      → ((v w : View) (doc : Doc) → Wrote v w (state_key i.name) doc → I v → I w)
      → Live (On I) (hold D c m before environment recovery reason why i) (λ u. On I)
  unfolding hold
  Live-hold I why i knows listed kept =
      bind (Live-previous_of I i.name before (knows i listed))
        λ p. Live-put_mutable D c view lawful m.images accepts I I _ _ (λ v w. kept v w _)

  Live-release_member :
      (i : Member)
      → Knows
      → In i m.images
      → Live
          (On (λ v. Unit {0}))
          (release_member D c m before environment recovery reason i)
          (λ u. On (λ v. Unit {0}))
  unfolding release_member
  Live-release_member i knows listed =
      bind (Live-previous_of (λ v. Unit {0}) i.name before (knows i listed)) λ p.
        Live-put_mutable D c view lawful m.images accepts (λ v. Unit {0}) (λ v. Unit {0}) _ _
          (λ v w k h. tt)

  Live-put_receipt :
      (I J : View → Type 0) (phase : Phase)
      → ((v : View) → I v → v.objects (event_key c.event phase) ≡ none)
      → ((v w : View) (doc : Doc) → Wrote v w (event_key c.event phase) doc → I v → J w)
      → Live (On I) (put_receipt D c m before environment recovery reason phase) (λ u. On J)
  unfolding put_receipt
  Live-put_receipt I J phase free leads = record {
    run = λ r h.
        (Live-put_new D c view lawful m.images accepts I J _ _ free (λ v w. leads v w _)).run r h;
  }

  Live-update : (I : View → Type 0) (f : Receipt → Receipt) → Live (On I) (update D c f) (λ u. On I)
  Live-update I f = record { run = λ r h. h }

  abbrev Tagged : Member → View → Type 0
  Tagged i v = v.stable i.name ≡ some i.digest

  -- Each write tags its member, and keeps the tags of the others.
  Live-write_member :
      (I : View → Type 0) (i : Member)
      → In i m.images
      → ((v w : View)
          → w.objects ≡ v.objects
          → w.stable i.name ≡ some i.digest
          → ((name : String) → name ≢ i.name → w.stable name ≡ v.stable name)
          → I v
          → I w)
      → Live
          (On I)
          (write_member D c m before environment recovery reason i)
          (λ u r. On I r × On (Tagged i) r)
  unfolding write_member
  Live-write_member I i listed moves =
      bind (Live-write_stable D c view lawful m.images accepts I i listed moves)
        (λ u. Live-update (λ v. I v × Tagged i v) _)

  Tagged-moves :
      (i j : Member)
      → (j.name ≡ i.name → j.digest ≡ i.digest)
      → (v w : View) → w.stable j.name ≡ some j.digest
      → ((name : String) → name ≢ j.name → w.stable name ≡ v.stable name)
      → Tagged i v
      → Tagged i w
  Tagged-moves i j same v w moved others h = elim (Bool-cases (str_eq i.name j.name)) [
    | inl e ↦ let q = equal e in ap (λ n. w.stable n) q ∙ (moved ∙ ap (λ d. some d) (same (sym q)))
    | inr e ↦ others i.name (λ q. ground (arith, eq_iff i.name j.name)) ∙ h
  ]
    where
      equal : str_eq i.name j.name ≡ true → i.name ≡ j.name
      equal e = ground (arith, eq_iff i.name j.name)

  abbrev Written : View → Type 0
  Written v = Free v × ((i : Member) → In i m.images → Tagged i v)

  Live-writes :
      OneDigest
      → Live
          (On Free)
          (for_each m.images (write_member D c m before environment recovery reason))
          (λ u. On Written)
  Live-writes one =
      for_each-all (λ i. On (Tagged i)) m.images _
        (λ i k. Live-write_member Free i k (λ v w same moved others h. (
          ap (λ f. f (event_key c.event Phase.completed)) same ∙ h.0,
          ap (λ f. f (promoted_key m.release_id)) same ∙ h.1,
        )))
        (λ i j k l.
          weaken
            (Live-write_member (Tagged i) j l
              (λ v w same moved others. Tagged-moves i j (λ e. one j i l k e) v w moved others))
            (λ r h. h) (λ u r h. h.0) (λ r h. tt))

  abbrev Ended : View → Type 0
  Ended v =
      (v.objects (promoted_key m.release_id) ≡ none) × ((i : Member) → In i m.images → Tagged i v)

  Live-mark_promoted :
      Live
        (On Ended)
        (mark_promoted D c m before environment recovery reason)
        (λ u. On (λ v. Unit {0}))
  unfolding mark_promoted
  Live-mark_promoted = record { run = λ r h. go r h (not (is_dev environment) && not recovery) }
    where
      go :
          (r : Run D)
          → On Ended r
          → (b : Bool)
          → Post
              (λ u. On (λ v. Unit {0}))
              (λ t. ⊥)
              (if b
                then put D c
                    (promoted_key m.release_id)
                    (promoted_doc (c.checksum m) r.receipt.writes)
                    true
                    r
                else (ok tt, r)).0
              (if b
                then put D c
                    (promoted_key m.release_id)
                    (promoted_doc (c.checksum m) r.receipt.writes)
                    true
                    r
                else (ok tt, r)).1
      go r h true =
          (Live-put_new D c view lawful m.images accepts Ended (λ v. Unit {0}) _ _ (λ v k. k.0)
              (λ v w wrote k. tt)).run
            r h
      go r h false = tt

  Live-complete :
      Knows
      → OneDigest
      → Live (On Free) (complete D c m before environment recovery reason) (λ u. On (λ v. Unit {0}))
  unfolding complete
  Live-complete knows one = bind (Live-writes one) λ u.
      bind
        (Keeps-rounds m.images _
          (λ i k. Live-confirm D c view lawful m.images accepts Written i (λ v h. h.1 i k)))
        λ u. bind (Live-update Written _) λ u.
          bind
            (Live-put_receipt Written Ended Phase.completed (λ v h. h.0.0)
              (λ v w doc wrote h. (
                none-Wrote (promoted_key m.release_id) wrote (λ e. ground arith) h.0.1,
                λ i k. ap (λ f. f i.name) wrote.tags_same ∙ h.1 i k,
              )))
            λ u.
              bind Live-mark_promoted
                λ u. Keeps-rounds m.images _ (λ i k. Live-release_member i knows k)

  -- `observe` finds what stands there, and changes nothing.
  Live-observe :
      (u : View) (xs : List Member)
      → Live (On (λ v. v ≡ u)) (observe D c m before environment recovery reason xs) (λ ds r.
        On (λ v. v ≡ u) r
        × ((name : String)
            → In name (map (λ i. i.name) xs)
            → observed_of name ds ≡ some (u.stable name)))
  unfolding observe
  Live-observe u [] = record { run = λ r h. (h, λ name k. absurd k) }
  Live-observe u (i ∷ rest) =
      bind (Live-stable_digest D c view lawful m.images accepts u i.name) λ d. record {
        run = λ r h.
            (bind (Live-observe u rest) λ ds. record { run = λ t k. (k.0, found d ds h.1 k.1) }).run
              r h.0;
      }
    where
      found :
          (d : Option String) (ds : List (String × Option String))
          → d ≡ u.stable i.name
          → ((name : String)
              → In name (map (λ j. j.name) rest)
              → observed_of name ds ≡ some (u.stable name))
          → (name : String) → In name (map (λ j. j.name) (i ∷ rest))
          → observed_of name ((i.name, d) ∷ ds) ≡ some (u.stable name)
      found d ds e later name listed = elim (Bool-cases (str_eq name i.name)) [
        | inl q ↦ here (ground (arith, eq_iff name i.name)) q
        | inr q ↦ elim listed [
          | inl f ↦ absurd (ground (arith, eq_iff name i.name))
          | inr k ↦ there q (later name k)
        ]
      ]
        where
          here :
              name ≡ i.name
              → str_eq name i.name ≡ true
              → observed_of name ((i.name, d) ∷ ds) ≡ some (u.stable name)
          here f q =
              ap (λ b. if b then some d else observed_of name ds) q
              ∙ ap (λ x. some x) (e ∙ ap (λ n. u.stable n) (sym f))

          there :
              str_eq name i.name ≡ false
              → observed_of name ds ≡ some (u.stable name)
              → observed_of name ((i.name, d) ∷ ds) ≡ some (u.stable name)
          there q k = ap (λ b. if b then some d else observed_of name ds) q ∙ k

  -- Every known state is as expected.
  is_expected-all :
      (u : View) (receipt : Receipt)
      → ((name : String)
          → In name (map (λ i. i.name) m.images)
          → observed_of name receipt.observed_before ≡ some (u.stable name))
      → Expected u
      → (recovery || all (is_expected D c m before environment recovery reason receipt) before)
        ≡ true
  is_expected-all u receipt table (inl e) = ground (arith, e)
  is_expected-all u receipt table (inr fits) = or_true recovery (all_of_In _ before one)
    where
      or_true : (b : Bool) {x : Bool} → x ≡ true → (b || x) ≡ true
      or_true b h = ground arith

      shown :
          (held : Bool) (o : Option (Option String)) (q : Option String) (d : String)
          → o ≡ some (some d)
          → q ≡ some d
          → (held || elim o [
            | none ↦ false
            | some digest ↦ elim q [
              | none ↦ false
              | some recorded ↦ same_digest digest (some recorded)
            ]
          ])
            ≡ true
      shown held o none d e f = absurd (ground arith)
      shown held none (some a) d e f = absurd (ground arith)
      shown held (some none) (some a) d e f = absurd (ground arith)
      shown held (some (some b)) (some a) d e f = or_true held (ground (arith, eq_iff b a))

      one :
          (x : String × Option FrameworkState)
          → In x before
          → is_expected D c m before environment recovery reason receipt x ≡ true
      one (name, none) listed = refl
      one (name, some previous) listed = elim (fits name previous listed) [
        | inl held ↦ ground (arith, held)
        | inr k ↦
            shown previous.hold (observed_of name receipt.observed_before) previous.digest k.1.0
              (table name k.0 ∙ ap (λ x. some x) k.1.2) k.1.1
      ]

  Live-publish :
      Knows
      → OneDigest
      → (u : View) → Fresh u
      → Expected u
      → Live
          (On (λ v. v ≡ u))
          (publish D c m before environment recovery reason)
          (λ x. On (λ v. Unit {0}))
  unfolding publish check_unchanged
  Live-publish knows one u fresh expected = bind (Live-observe u m.images) λ ds.
      bind
        {Q = λ x r.
          On (λ v. v ≡ u) r
          × ((name : String)
              → In name (map (λ i. i.name) m.images)
              → observed_of name r.receipt.observed_before ≡ some (u.stable name))}
        (record { run = λ r h. h })
        λ x. bind unchanged λ x.
          bind (Keeps-rounds m.images _ (λ i k. Live-hold Fresh _ i knows k Fresh-Wrote)) λ x.
            bind
              (Live-put_receipt Fresh Free Phase.started (λ v h. h.0)
                (λ v w doc wrote h. (
                  none-Wrote _ wrote (λ e. ground arith) h.1.0,
                  none-Wrote _ wrote (λ e. ground arith) h.1.1,
                )))
              λ x. attempts
    where
      Fresh-Wrote :
          {name : String} (v w : View) (doc : Doc)
          → Wrote v w (state_key name) doc
          → Fresh v
          → Fresh w
      Fresh-Wrote v w doc wrote h = (
        none-Wrote _ wrote (λ e. ground arith) h.0,
        (
          none-Wrote _ wrote (λ e. ground arith) h.1.0,
          none-Wrote _ wrote (λ e. ground arith) h.1.1,
        ),
      )

      unchanged :
          Live
            (λ r.
              On (λ v. v ≡ u) r
              × ((name : String)
                  → In name (map (λ i. i.name) m.images)
                  → observed_of name r.receipt.observed_before ≡ some (u.stable name)))
            (check_unchanged D c m before environment recovery reason)
            (λ x. On Fresh)
      unchanged = record {
        run = λ r h.
            (Live-demand (On Fresh) _ (is_expected-all u r.receipt h.1 expected)).run r
              (subst Fresh (sym h.0) fresh);
      }

      attempts :
          Live
            (On Free)
            (attempt
              (complete D c m before environment recovery reason)
              (give_up D c m before environment recovery reason))
            (λ x. On (λ v. Unit {0}))
      attempts = attempted (Live-complete knows one) (record { run = λ r h. absurd h }) (λ r h. h)

  -- On a lawful destination that accepts every call, and that gives the index of an image of the
  -- release when it is asked for its digest, or for its tag when that stands at its digest,
  -- publish_states returns, if the states that it is given are those of its images, no two of its
  -- images have one name and two digests, there is no receipt of the run and no record of the
  -- release yet, and it is a recovery or the tags show what the states that are not held say.
  pub publish_states-Returns :
      (s : D.State)
      → Knows
      → OneDigest
      → Fresh (view s)
      → Expected (view s)
      → (publish_states D c m before environment recovery reason s).0 ≡ ok tt
  unfolding publish_states
  publish_states-Returns s knows one fresh expected =
      (Post-returns (λ x. On (λ v. Unit {0})) _ _
        ((Live-publish knows one (view s) fresh expected).run _ refl)).1
