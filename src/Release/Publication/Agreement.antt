-- ===== src/Release/Publication/Agreement.antt =====
-- The agreement of the tag `stable` of a framework with its state document, unless that is held, and
-- the steps of a publication.
use alric_containers_image_b.Base.{
  String, str_eq, eq_iff, ◌≡◌, ◌≢◌, sym, ap, ◌∙◌, inl, inr, Bool, true, false, Option, none, some,
  List, In, arith, Bool-cases,
}
use mathlib.Core.Path.{subst}
use alric_containers_image_b.Base.Act.Triples.{bind, Keeps}
use alric_containers_image_b.Release.Data.{Environment, Member, Manifest, FrameworkState, States}
use alric_containers_image_b.Release.Destination.{
  Key, state_key, Doc, state_doc, Destination, View, IsLawful,
}
use alric_containers_image_b.Release.Publication.{
  Context, Run, hold, write_member, tag_stable, write_stable, release_member, hold_state,
  tag_answer, final_state,
}
use alric_containers_image_b.Release.Publication.Steps.{
  At, Keeps-update, Keeps-confirm, Keeps-put, Keeps-read_index, Post-same,
}
use alric_containers_image_b.Release.Publication.Views.{Wrote, StateAt, state_key-cases}
use alric_containers_image_b.Release.Publication.Covered.{
  Held, Confirmed, Keeps-previous_of, Confirmed-Wrote,
}

-- A state document that is not held names the digest that the tag `stable` has.
abbrev pub Agrees : View → Type 0
Agrees v =
    (name : String) (d : FrameworkState)
    → v.objects (state_key name) ≡ some (state_doc d)
    → d.hold ≡ false
    → v.stable name ≡ d.digest

state_doc-eq :
    (o : Option Doc) (a b : FrameworkState)
    → o ≡ some (state_doc a)
    → o ≡ some (state_doc b)
    → a ≡ b
state_doc-eq o a b h k = ground arith

-- A write keeps it if a state that it writes is held or names the digest of the tag.
pub Agrees-Wrote :
    {v w : View} {key : Key} {doc : Doc}
    → ((name : String)
        → key ≡ state_key name
        → (d : FrameworkState) → doc ≡ state_doc d
        → d.hold ≡ false
        → v.stable name ≡ d.digest)
    → Wrote v w key doc
    → Agrees v
    → Agrees w
Agrees-Wrote {v} {w} {key} {doc} fits wrote was name d there unheld =
    ap (λ f. f name) wrote.tags_same ∙ elim wrote.one_object [
      | inl same ↦ was name d (sym (ap (λ f. f (state_key name)) same) ∙ there) unheld
      | inr sets ↦ elim (state_key-cases name key) [
        | inl e ↦ fits name e d (same_doc (ap w.objects (sym e) ∙ sets.now_there)) unheld
        | inr other ↦ was name d (sym (sets.others (state_key name) other) ∙ there) unheld
      ]
    ]
  where
    same_doc : w.objects (state_key name) ≡ some doc → doc ≡ state_doc d
    same_doc h = ground arith

-- The tag of a framework that is held may be moved.
Agrees-moved :
    (images : List Member) {v w : View} (i : Member)
    → In i images
    → w.objects ≡ v.objects
    → ((name : String) → name ≢ i.name → w.stable name ≡ v.stable name)
    → Held images v
    → Agrees v
    → Agrees w
Agrees-moved images {v} {w} i listed same others held was name d there unheld =
    elim (Bool-cases (str_eq name i.name)) [
      | inl e ↦ absurd (holds (held i listed) (ground (arith, eq_iff name i.name, e)))
      | inr e ↦ others name (λ h. ground (arith, eq_iff name i.name, e, h)) ∙ was name d here unheld
    ]
  where
    here : v.objects (state_key name) ≡ some (state_doc d)
    here = sym (ap (λ f. f (state_key name)) same) ∙ there

    holds : StateAt (λ x. x.hold ≡ true) i.name v.objects → name ≡ i.name → ⊥
    holds at e =
        let q = state_doc-eq _ at.state d (ap (λ n. v.objects (state_key n)) e ∙ at.there) here in
        ground arith

module _ (D : Destination) (c : Context) (view : D.State → View) (lawful : IsLawful D view)
    (m : Manifest) (before : States) (environment : Environment) (recovery : Bool)
    (reason : String) where
  abbrev On : (View → Type 0) → Run D → Type 0
  On = At D c view lawful

  -- The state while the tags are written, and once they are confirmed.
  abbrev pub Moving : View → Type 0
  Moving v = Agrees v × Held m.images v

  abbrev pub Standing : View → Type 0
  Standing v = Agrees v × Confirmed m.images v

  pub Agrees-hold :
      (why : String) (i : Member)
      → Keeps (On Agrees) (hold D c m before environment recovery reason why i)
  unfolding hold
  Agrees-hold why i =
      bind
        (Keeps-previous_of D c view lawful m before environment recovery reason Agrees i.name
          before)
        λ p.
          Keeps-put D c view lawful Agrees _ _ false
            λ v w. Agrees-Wrote λ name e d q h. absurd (held p d q h)
    where
      held :
          (p : Option FrameworkState) (d : FrameworkState)
          → state_doc (hold_state p m.release_id why) ≡ state_doc d
          → d.hold ≡ false
          → ⊥
      held p d q h = ground arith

  Keeps-tag_stable-Moving : (i : Member) → In i m.images → Keeps (On Moving) (tag_stable D c i)
  unfolding tag_stable
  Keeps-tag_stable-Moving i listed = record {
    run = λ r h.
        Post-same D c view lawful Moving (tag_answer (D.put_image r.remote i.name i.digest).0)
          (record r { remote = (D.put_image r.remote i.name i.digest).1 })
          (
            Agrees-moved m.images i listed (lawful.image-objects r.remote i.name i.digest)
                (λ name o. lawful.image-others r.remote i.name i.digest name o) h.1 h.0,
            subst (λ f. (j : Member) → In j m.images → StateAt (λ d. d.hold ≡ true) j.name f)
                (sym (lawful.image-objects r.remote i.name i.digest)) h.1,
          );
  }

  pub Moving-write_member :
      (i : Member)
      → In i m.images
      → Keeps (On Moving) (write_member D c m before environment recovery reason i)
  unfolding write_member write_stable
  Moving-write_member i listed =
      bind
        (bind (Keeps-read_index D c view lawful Moving i (some i.digest)) λ u.
          bind (Keeps-tag_stable-Moving i listed) λ u.
            bind (Keeps-confirm D c view lawful Moving i)
              λ u. Keeps-read_index D c view lawful Moving i none)
        (λ u. Keeps-update D c view lawful Moving _)

  pub Standing-Wrote :
      {v w : View} {k : Key} {doc : Doc}
      → ((name : String) → k ≢ state_key name)
      → Wrote v w k doc
      → Standing v
      → Standing w
  Standing-Wrote no_state wrote h = (
    Agrees-Wrote (λ name e. absurd (no_state name e)) wrote h.0,
    Confirmed-Wrote D c view lawful m before environment recovery reason wrote h.1,
  )

  pub Standing-release_member :
      (i : Member)
      → In i m.images
      → Keeps (On Standing) (release_member D c m before environment recovery reason i)
  unfolding release_member
  Standing-release_member i listed =
      bind
        (Keeps-previous_of D c view lawful m before environment recovery reason Standing i.name
          before)
        λ p. Keeps-put D c view lawful Standing _ _ false λ v w wrote h. (
          Agrees-Wrote (λ name e d q x. fits v p name d e q (h.1 i listed)) wrote h.0,
          Confirmed-Wrote D c view lawful m before environment recovery reason wrote h.1,
        )
    where
      fits :
          (v : View) (p : Option FrameworkState) (name : String) (d : FrameworkState)
          → state_key i.name ≡ state_key name
          → state_doc (final_state D c m before environment recovery reason p i) ≡ state_doc d
          → v.stable i.name ≡ some i.digest
          → v.stable name ≡ d.digest
      fits v p name d e q h = ground arith
