-- ===== src/Release/Publication/Covered.antt =====
-- What holds the members of a publication, and what the steps of it keep.
use alric_containers_image_b.Base.{
  String, str_eq, ◌≡◌, refl, sym, ◌⊎◌, inl, inr, Bool, true, false, not, ◌&&◌, Option, some, List,
  [], ◌∷◌, ok, In, if◌then◌else◌,
}
use mathlib.Core.Path.{subst}
use alric_containers_image_b.Base.Act.{pure}
use alric_containers_image_b.Base.Act.Triples.{Post, Triple, weaken, bind, Keeps}
use alric_containers_image_b.Release.Data.{
  Environment, is_dev, Member, Manifest, FrameworkState, States,
}
use alric_containers_image_b.Release.Destination.{
  Phase, Key, state_key, event_key, promoted_key, Doc, state_doc, promoted_doc, Destination, View,
  IsLawful,
}
use alric_containers_image_b.Release.Publication.{
  Context, Run, hold_state, previous_of, put, previous_of, hold, put_receipt, write_member,
  final_state, release_member, mark_promoted,
}
use alric_containers_image_b.Release.Publication.Steps.{
  At, Keeps-update, Keeps-write_stable, Keeps-put, put-Puts,
}
use alric_containers_image_b.Release.Publication.Views.{Wrote, StateAt, StateAt-Wrote}

-- The states of these members say that automation may not use them.
abbrev pub Held : List Member → View → Type 0
Held images v = (i : Member) → In i images → StateAt (λ d. d.hold ≡ true) i.name v.objects

-- The tag `stable` of each member stands at its digest.
abbrev pub Confirmed : List Member → View → Type 0
Confirmed images v = (i : Member) → In i images → v.stable i.name ≡ some i.digest

abbrev pub Unchanged : View → View → Type 0
Unchanged u v = (name : String) → v.stable name ≡ u.stable name

module _ (D : Destination) (c : Context) (view : D.State → View) (lawful : IsLawful D view)
    (m : Manifest) (before : States) (environment : Environment) (recovery : Bool)
    (reason : String) where
  abbrev On : (View → Type 0) → Run D → Type 0
  On = At D c view lawful

  -- What a statement about tags needs of a write.
  pub tags-Wrote :
      (T : (String → Option String) → Type 0) {v w : View} {k : Key} {doc : Doc}
      → Wrote v w k doc
      → T v.stable
      → T w.stable
  tags-Wrote T wrote h = subst T (sym wrote.tags_same) h

  pub Keeps-previous_of :
      (I : View → Type 0) (name : String) (known : States)
      → Keeps (On I) (previous_of D c m before environment recovery reason name known)
  unfolding previous_of
  Keeps-previous_of I name [] = record { run = λ r h. h }
  Keeps-previous_of I name ((k, d) ∷ rest) = go (str_eq name k) (Keeps-previous_of I name rest)
    where
      go :
          (b : Bool)
          → Keeps (On I) (previous_of D c m before environment recovery reason name rest)
          → Keeps
              (On I)
              (if b then pure d else previous_of D c m before environment recovery reason name rest)
      go true ih = record { run = λ r h. h }
      go false ih = ih

  -- A hold keeps every other hold.
  pub Keeps-hold-hold :
      (why name : String) (i : Member)
      → Keeps
          (On (λ v. StateAt (λ d. d.hold ≡ true) name v.objects))
          (hold D c m before environment recovery reason why i)
  unfolding hold
  Keeps-hold-hold why name i =
      bind (Keeps-previous_of (λ v. StateAt (λ d. d.hold ≡ true) name v.objects) i.name before) λ p.
        Keeps-put D c view lawful (λ v. StateAt (λ d. d.hold ≡ true) name v.objects) _ _ false
          λ v w. StateAt-Wrote _ _ (λ e. (hold_state p m.release_id why, refl, refl))

  pub hold-Holds :
      (T : (String → Option String) → Type 0) (why : String) (i : Member)
      → Triple
          (On (λ v. T v.stable))
          (hold D c m before environment recovery reason why i)
          (λ u r.
            On (λ v. T v.stable) r × On (λ v. StateAt (λ d. d.hold ≡ true) i.name v.objects) r)
          (On (λ v. T v.stable))
  unfolding hold
  hold-Holds T why i = bind (Keeps-previous_of (λ v. T v.stable) i.name before) λ p.
      weaken (put-Puts D c view lawful (λ v. T v.stable) _ _ (λ v w wrote. tags-Wrote T wrote))
        (λ r h. h)
        (λ u r h. (h.0, record { state = hold_state p m.release_id why; there = h.1; such = refl }))
        (λ r h. h)

  -- The receipts and the record of the promotion touch no tag and no state.
  pub Keeps-put_receipt :
      (I : View → Type 0) (phase : Phase)
      → ((v w : View) (doc : Doc) → Wrote v w (event_key c.event phase) doc → I v → I w)
      → Keeps (On I) (put_receipt D c m before environment recovery reason phase)
  unfolding put_receipt
  Keeps-put_receipt I phase kept = record {
    run = λ r h. (Keeps-put D c view lawful I _ _ true (λ v w. kept v w _)).run r h;
  }

  pub Keeps-mark_promoted :
      (I : View → Type 0)
      → ((v w : View) (doc : Doc) → Wrote v w (promoted_key m.release_id) doc → I v → I w)
      → Keeps (On I) (mark_promoted D c m before environment recovery reason)
  unfolding mark_promoted
  Keeps-mark_promoted I kept = record {
    run = λ r h. go r h (not (is_dev environment) && not recovery);
  }
    where
      go :
          (r : Run D)
          → On I r
          → (b : Bool)
          → Post
              (λ u. On I)
              (On I)
              (if b
                then put D c
                    (promoted_key m.release_id)
                    (promoted_doc (c.checksum m) r.receipt.writes)
                    true
                    r
                else (ok tt, r)).0
              (if b
                then put D c
                    (promoted_key m.release_id)
                    (promoted_doc (c.checksum m) r.receipt.writes)
                    true
                    r
                else (ok tt, r)).1
      go r h true = (Keeps-put D c view lawful I _ _ true (λ v w. kept v w _)).run r h
      go r h false = h

  -- Automation may not use the release, or its tags stand.
  abbrev pub Covered : View → Type 0
  Covered v = Held m.images v ⊎ Confirmed m.images v

  pub Confirmed-Wrote :
      {v w : View} {k : Key} {doc : Doc}
      → Wrote v w k doc
      → Confirmed m.images v
      → Confirmed m.images w
  Confirmed-Wrote wrote =
      tags-Wrote (λ f. (i : Member) → In i m.images → f i.name ≡ some i.digest) wrote

  -- A write that puts no state, or one that is held.
  abbrev Holds : Key → Doc → Type 0
  Holds k doc =
      (name : String)
      → k ≡ state_key name
      → (d : FrameworkState) × (doc ≡ state_doc d) × (d.hold ≡ true)

  pub Held-Wrote :
      {v w : View} (k : Key) (doc : Doc)
      → Holds k doc
      → Wrote v w k doc
      → Held m.images v
      → Held m.images w
  Held-Wrote k doc holds wrote held i listed =
      StateAt-Wrote k doc (holds i.name) wrote (held i listed)

  pub Covered-Wrote :
      {v w : View} (k : Key) (doc : Doc) → Holds k doc → Wrote v w k doc → Covered v → Covered w
  Covered-Wrote k doc holds wrote (inl h) = inl (Held-Wrote k doc holds wrote h)
  Covered-Wrote k doc holds wrote (inr h) = inr (Confirmed-Wrote wrote h)

  pub Covered-hold :
      (why : String) (i : Member)
      → Keeps (On Covered) (hold D c m before environment recovery reason why i)
  unfolding hold
  Covered-hold why i = bind (Keeps-previous_of Covered i.name before) λ p.
      Keeps-put D c view lawful Covered _ _ false
        λ v w. Covered-Wrote _ _ λ name e. (hold_state p m.release_id why, refl, refl)

  -- A recorded framework names the release, and is held after a recovery and only then.
  abbrev pub Settled : FrameworkState → Type 0
  Settled d = (d.release_id ≡ some m.release_id) × (d.hold ≡ recovery)

  abbrev pub Released : View → Type 0
  Released v = (i : Member) → In i m.images → StateAt Settled i.name v.objects

  pub release_member-Settles :
      (i : Member)
      → Triple
          (On (Confirmed m.images))
          (release_member D c m before environment recovery reason i)
          (λ u r. On (Confirmed m.images) r × On (λ v. StateAt Settled i.name v.objects) r)
          (On (Confirmed m.images))
  unfolding release_member
  release_member-Settles i = bind (Keeps-previous_of (Confirmed m.images) i.name before) λ p.
      weaken
        (put-Puts D c view lawful (Confirmed m.images) _ _ (λ v w wrote. Confirmed-Wrote wrote))
        (λ r h. h)
        (λ u r h. (
          h.0,
          record {
            state = final_state D c m before environment recovery reason p i;
            there = h.1;
            such = (refl, refl);
          },
        ))
        (λ r h. h)

  pub Keeps-release_member :
      (name : String) (i : Member)
      → Keeps
          (On (λ v. StateAt Settled name v.objects))
          (release_member D c m before environment recovery reason i)
  unfolding release_member
  Keeps-release_member name i =
      bind (Keeps-previous_of (λ v. StateAt Settled name v.objects) i.name before) λ p.
        Keeps-put D c view lawful (λ v. StateAt Settled name v.objects) _ _ false
          λ v w.
            StateAt-Wrote _ _
              (λ e. (final_state D c m before environment recovery reason p i, refl, (refl, refl)))

  pub Held-write_member :
      (i : Member)
      → Keeps (On (Held m.images)) (write_member D c m before environment recovery reason i)
  unfolding write_member
  Held-write_member i =
      bind
        (Keeps-write_stable D c view lawful
          (λ f. (j : Member) → In j m.images → StateAt (λ d. d.hold ≡ true) j.name f) i)
        (λ u. Keeps-update D c view lawful (Held m.images) _)
