-- ===== src/Release/Lifecycle/Gated.antt =====
-- The tags after a run of `main`, with the release that it published and the gates of that.
use alric_containers_image_b.Base.{
  String, ◌≡◌, refl, sym, ap, ◌∙◌, ◌⊎◌, inl, inr, Bool, true, false, Option, List, [], ◌∷◌,
}
use alric_containers_image_b.Base.Act.Triples.{Post-any}
use alric_containers_image_b.Release.Data.{Environment, Member, Manifest, FrameworkState}
use alric_containers_image_b.Release.Destination.{
  Key, state_key, promoted_key, Doc, Destination, View, IsLawful,
}
use alric_containers_image_b.Release.Publication.{Run}
use alric_containers_image_b.Release.Publication.Views.{Wrote, StateAt-Wrote}
use alric_containers_image_b.Release.Publication.Covered.{Held, Confirmed, Unchanged}
use alric_containers_image_b.Release.Publication.Outcome.{publish_states-Covered}
use alric_containers_image_b.Release.Site.{Tools, Site, Event}
use alric_containers_image_b.Release.Lifecycle.{Setting, Order, Operation, publish_in}
use alric_containers_image_b.Release.Lifecycle.Hom.{main, environment_of, is_recovery}
use alric_containers_image_b.Release.Lifecycle.Steps.{
  IsRelease, IsKept, Here, state_stays, Post-always,
}
use alric_containers_image_b.Release.Lifecycle.Gates.{Gates, Gates-IsGrowing}
use alric_containers_image_b.Release.Lifecycle.Warrant.{Warrant, record_stays}
use alric_containers_image_b.Release.Lifecycle.Leads.{Publishes}
use alric_containers_image_b.Release.Lifecycle.Reads.{said, state_there}
use alric_containers_image_b.Release.Lifecycle.HomRuns.{Leads-main}

-- The states that a run saw are those of the destination that it found.
abbrev pub IsState : View → String → Option FrameworkState → Type 0
IsState v name state = state ≡ state_there v name

-- A release with its gates and its warrant, whose members are held or stand at their digests.
pub record Published (g : Setting) (o : Order) (environment : Environment) (recovery : Bool)
    (before after : View) (trail : List Event) : Type 0 where
  pub release : Manifest
  pub gates : Gates g environment recovery release trail
  pub warrant : Warrant g o (IsState before) environment recovery release before
  pub covered : Held release.images after ⊎ Confirmed release.images after

-- No tag, no record of a promotion and no recorded state has changed.
abbrev pub Untouched : View → View → Type 0
Untouched u v =
    Unchanged u v
    × ((release : String) → v.objects (promoted_key release) ≡ u.objects (promoted_key release))
    × ((name : String) → v.objects (state_key name) ≡ u.objects (state_key name))

record-Wrote :
    {v w : View} {key : Key} {doc : Doc} (release : String)
    → IsRelease key
    → Wrote v w key doc
    → w.objects (promoted_key release) ≡ v.objects (promoted_key release)
record-Wrote {key} release is_release wrote = elim wrote.one_object [
  | inl same ↦ ap (λ f. f (promoted_key release)) same
  | inr sets ↦ sets.others (promoted_key release) (record_stays key release is_release)
]

state-Wrote :
    {v w : View} {key : Key} {doc : Doc} (name : String)
    → IsRelease key
    → Wrote v w key doc
    → w.objects (state_key name) ≡ v.objects (state_key name)
state-Wrote {key} name is_release wrote = elim wrote.one_object [
  | inl same ↦ ap (λ f. f (state_key name)) same
  | inr sets ↦ sets.others (state_key name) (λ e. absurd (state_stays key name is_release (sym e)))
]

Untouched-IsKept : (u : View) → IsKept (λ v t. Untouched u v)
Untouched-IsKept u = record {
  grows = λ v e t h. h;
  puts = λ v w t key doc r wrote h. (
    λ name. ap (λ f. f name) wrote.tags_same ∙ h.0 name,
    λ release. record-Wrote release r wrote ∙ h.1 release,
    λ name. state-Wrote name r wrote ∙ h.2 name,
  );
}

covered-Wrote :
    (images : List Member) {v w : View} {key : Key} {doc : Doc}
    → IsRelease key
    → Wrote v w key doc
    → Held images v ⊎ Confirmed images v
    → Held images w ⊎ Confirmed images w
covered-Wrote images {key} {doc} r wrote (inl h) =
    inl (λ i k. StateAt-Wrote key doc (λ e. absurd (state_stays key i.name r e)) wrote (h i k))
covered-Wrote images r wrote (inr h) = inr (λ i k. ap (λ f. f i.name) wrote.tags_same ∙ h i k)

-- What a command leaves of the destination that it found.
abbrev pub Leaves : Setting → Order → Environment → Bool → View → View → List Event → Type 0
Leaves g o environment recovery u v t = Unchanged u v ⊎ Published g o environment recovery u v t

Leaves-IsKept :
    (g : Setting) (o : Order) (environment : Environment) (recovery : Bool) (u : View)
    → IsKept (λ v t. Leaves g o environment recovery u v t)
Leaves-IsKept g o environment recovery u = record { grows = grown; puts = put }
  where
    grown :
        (v : View) (e : Event) (t : List Event)
        → Leaves g o environment recovery u v t
        → Leaves g o environment recovery u v (e ∷ t)
    grown v e t (inl h) = inl h
    grown v e t (inr p) = inr (record {
      release = p.release;
      gates = (Gates-IsGrowing g environment recovery p.release).grown e t p.gates;
      warrant = p.warrant;
      covered = p.covered;
    })

    put :
        (v w : View) (t : List Event) (key : Key) (doc : Doc)
        → IsRelease key
        → Wrote v w key doc
        → Leaves g o environment recovery u v t
        → Leaves g o environment recovery u w t
    put v w t key doc r wrote (inl h) = inl (λ name. ap (λ f. f name) wrote.tags_same ∙ h name)
    put v w t key doc r wrote (inr p) = inr (record {
      release = p.release;
      gates = p.gates;
      warrant = p.warrant;
      covered = covered-Wrote p.release.images r wrote p.covered;
    })

-- The record of a promotion that was found was there from the start.
Warrant-before :
    (g : Setting) (o : Order) (environment : Environment) (recovery : Bool) (m : Manifest)
    (u v : View)
    → Untouched u v
    → Warrant g o (IsState u) environment recovery m v
    → Warrant g o (IsState u) environment recovery m u
Warrant-before g o environment false m u v h w = w
Warrant-before g o environment true m u v h w = record {
  approves = w.approves;
  release = w.release;
  doc = w.doc;
  there = sym (h.1 w.release) ∙ w.there;
  its = w.its;
}

module _ (D : Destination) (T : Tools) (view : D.State → View) (lawful : IsLawful D view)
    (g : Setting) (o : Order) where
  publish_in-Leaves :
      (environment : Environment) (recovery : Bool) (u : View)
      → Publishes D T view lawful g o
          (IsState u)
          environment
          recovery
          (λ v t. Untouched u v)
          (λ v t. Leaves g o environment recovery u v t)
  unfolding publish_in
  publish_in-Leaves environment recovery u reason m before = record {
    run = λ s h.
        Post-always (Here D T view lawful (λ v t. Leaves g o environment recovery u v t)) _ _ (
          left s h (
            publish_states-Covered D o.context view lawful m before environment recovery reason
              s.run.remote));
  }
    where
      left :
          (s : Site D T)
          → Here D T view lawful
              (λ v t.
                Untouched u v
                × Gates g environment recovery m t
                × Warrant g o (IsState u) environment recovery m v)
              s
          → {w : View} → Unchanged (view s.run.remote) w ⊎ Held m.images w ⊎ Confirmed m.images w
          → Leaves g o environment recovery u w s.trail
      left s h (inl same) = inl (λ name. same name ∙ h.0.0 name)
      left s h (inr covered) = inr (record {
        release = m;
        gates = h.1;
        warrant = Warrant-before g o environment recovery m u _ h.0 h.2;
        covered = covered;
      })

  -- On a lawful destination, however a run of main ends, with an error or cut off at any call, no
  -- tag stable is other than before, or there is one release that the run could publish: choose
  -- chose it by the policy of the environment, for the release and the resumption that the order
  -- asks for, or for none in an approval in DEV, on states that for each of its images are those
  -- that the destination held before the run, or, for a recovery, it is approved and the
  -- destination held the record of its promotion from the start; every gate of the command passed
  -- for each of its images in this run; and the documents of its images are all held, or their
  -- tags all stand at its digests.
  pub main-Published :
      (operation : Operation) (run : Run D) (tools : T.State)
      → let s = main D T g o operation (record { run = run; tools = tools; trail = [] }) in
        Unchanged (view run.remote) (view s.1.run.remote)
        ⊎ Published g o
            (environment_of operation)
            (is_recovery operation)
            (view run.remote)
            (view s.1.run.remote)
            s.1.trail
  main-Published operation run tools =
      Post-any (λ a. Here D T view lawful left) (Here D T view lawful left)
        (Here D T view lawful left) _ _ (λ a k. k) (λ k. k)
        ((Leads-main D T view lawful g o _ _ (Untouched-IsKept (view run.remote))
            (Leaves-IsKept g o (environment_of operation) (is_recovery operation) (view run.remote))
            (λ v t k. inl k.0) (IsState (view run.remote)) (λ v t k name. ap said (k.2 name))
            operation
            (publish_in-Leaves (environment_of operation) (is_recovery operation)
              (view run.remote))).run
          (record { run = run; tools = tools; trail = [] })
          (λ name. refl, λ release. refl, λ name. refl))
    where
      left : View → List Event → Type 0
      left v t = Leaves g o (environment_of operation) (is_recovery operation) (view run.remote) v t
