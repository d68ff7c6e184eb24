-- ===== src/Release/Lifecycle/Steps.antt =====
-- What the steps of a command keep: a statement about the destination as a reader sees it and the
-- calls that returned, that more calls and the release documents do not break.
use alric_containers_image_b.Base.{
  String, ◌≢◌, refl, arith, Option, none, some, List, ◌∷◌, Result, ok, err, In, inl,
}
use alric_containers_image_b.Base.Act.{Stop, Act, pure, stop}
use alric_containers_image_b.Base.Act.Triples.{
  Post, Triple, weaken, bind, Keeps, Keeps-demand, Keeps-for_each,
}
use alric_containers_image_b.Release.Data.{Environment, Member, Manifest}
use alric_containers_image_b.Release.Choice.{ChoiceError}
use alric_containers_image_b.Release.Destination.{
  Key, state_key, event_key, promoted_key, manifest_key, candidate_key, Doc, Destination, View,
  IsLawful,
}
use alric_containers_image_b.Release.Publication.{Run}
use alric_containers_image_b.Release.Publication.Views.{Wrote}
use alric_containers_image_b.Release.Site.{
  Tools, Site, Event, noted, call, remotely, report, validate_destination, verify_in, scan_in, gate,
  check_quarantine, copy, check_copy,
}
use alric_containers_image_b.Release.Lifecycle.{or_stop, or_missing}

-- The keys of the documents of a release.
pub data IsRelease : Key → Type 0 where
  of_manifest : (release : String) → IsRelease (manifest_key release)
  of_candidate : (release : String) → IsRelease (candidate_key release)

pub record IsKept (J : View → List Event → Type 0) : Type 0 where
  pub grows : (v : View) (e : Event) (t : List Event) → J v t → J v (e ∷ t)
  pub puts :
      (v w : View) (t : List Event) (key : Key) (doc : Doc)
      → IsRelease key
      → Wrote v w key doc
      → J v t
      → J w t

-- They are no state documents.
pub state_stays : (key : Key) (name : String) → IsRelease key → key ≢ state_key name
state_stays (manifest_key a) name r = λ e. ground arith
state_stays (candidate_key a) name r = λ e. ground arith
state_stays (promoted_key a) name r = elim r [ ]
state_stays (state_key a) name r = elim r [ ]
state_stays (event_key a p) name r = elim r [ ]

module _ {S A : Type 0} where
  -- What holds whatever the result is.
  pub Post-always : (I : S → Type 0) (r : Result Stop A) (s : S) → I s → Post (λ a. I) I r s
  Post-always I (ok a) s h = h
  Post-always I (err e) s h = h

  pub Keeps-or_stop : (I : S → Type 0) (r : Result ChoiceError A) → Keeps I (or_stop r)
  Keeps-or_stop I (ok a) = record { run = λ s h. h }
  Keeps-or_stop I (err e) = record { run = λ s h. h }

  pub Keeps-or_missing : (I : S → Type 0) (o : Option A) → Keeps I (or_missing o)
  Keeps-or_missing I (some a) = record { run = λ s h. h }
  Keeps-or_missing I none = record { run = λ s h. h }

  pub Keeps-pure : (I : S → Type 0) (a : A) → Keeps I (pure a)
  Keeps-pure I a = record { run = λ s h. h }

  pub Keeps-stop : (I : S → Type 0) (e : Stop) → Keeps I (stop {S = S} {A = A} e)
  Keeps-stop I e = record { run = λ s h. h }

module _ (D : Destination) (T : Tools) (view : D.State → View) (lawful : IsLawful D view) where
  abbrev pub Here : (View → List Event → Type 0) → Site D T → Type 0
  Here J site = J (view site.run.remote) site.trail

  -- A call that returned is in the trail.
  pub called :
      {A : Type 0} (J : View → List Event → Type 0) (event : A → Event)
      (tool : T.State → Result Stop A × T.State)
      → ((v : View) (e : Event) (t : List Event) → J v t → J v (e ∷ t))
      → Triple (Here J) (call D T event tool) (λ a s. Here J s × In (event a) s.trail) (Here J)
  unfolding call
  called J event tool grows = record { run = λ s h. go s h (tool s.tools) }
    where
      go :
          (s : Site D T)
          → Here J s
          → (x : Result Stop _ × T.State)
          → Post
              (λ a s. Here J s × In (event a) s.trail)
              (Here J)
              (noted D T event s x).0
              (noted D T event s x).1
      go s h (ok a, t) = (grows _ _ _ h, inl refl)
      go s h (err e, t) = h

  -- A step of the destination, for a trail that stays.
  pub remotely-Triple :
      {A : Type 0} (J : View → List Event → Type 0) (K : A → View → List Event → Type 0)
      (L : View → List Event → Type 0) (act : Act (Run D) A)
      → ((t : List Event)
          → Triple
              (λ r. J (view r.remote) t)
              act
              (λ a r. K a (view r.remote) t)
              (λ r. L (view r.remote) t))
      → Triple (Here J) (remotely D T act) (λ a. Here (K a)) (Here L)
  unfolding remotely
  remotely-Triple J K L act t = record {
    run = λ s h. go s (act s.run).0 (act s.run).1 ((t s.trail).run s.run h);
  }
    where
      go :
          (s : Site D T) (x : Result Stop _) (r : Run D)
          → Post (λ a u. K a (view u.remote) s.trail) (λ u. L (view u.remote) s.trail) x r
          → Post (λ a. Here (K a)) (Here L) x (record s { run = r })
      go s (ok a) r h = h
      go s (err e) r h = h

  module _ (J : View → List Event → Type 0) (kept : IsKept J) where
    pub Keeps-call :
        {A : Type 0} (event : A → Event) (tool : T.State → Result Stop A × T.State)
        → Keeps (Here J) (call D T event tool)
    Keeps-call event tool =
        weaken (called J event tool kept.grows) (λ s h. h) (λ a s h. h.0) (λ s h. h)

    pub Keeps-report : Keeps (Here J) (report D T)
    unfolding report
    Keeps-report = Keeps-call _ _

    pub Keeps-validate_destination :
        (account : Environment → String) (environment : Environment) (m : Manifest)
        → Keeps (Here J) (validate_destination D T account environment m)
    unfolding validate_destination
    Keeps-validate_destination account environment m =
        bind (Keeps-call _ _)
          λ id. bind (Keeps-demand _) λ u. Keeps-for_each m.images _ (λ i k. Keeps-call _ _)

    pub Keeps-verify_in :
        (environment : Environment) (m : Manifest) (i : Member)
        → Keeps (Here J) (verify_in D T environment m i)
    unfolding verify_in
    Keeps-verify_in environment m i = Keeps-call _ _

    pub Keeps-scan_in :
        (environment : Environment) (i : Member) → Keeps (Here J) (scan_in D T environment i)
    unfolding scan_in
    Keeps-scan_in environment i = bind (Keeps-call _ _) λ status. Keeps-demand _

    pub Keeps-gate :
        (environment : Environment) (m : Manifest) (i : Member)
        → Keeps (Here J) (gate D T environment m i)
    unfolding gate
    Keeps-gate environment m i =
        bind (Keeps-verify_in environment m i) λ u. Keeps-scan_in environment i

    pub Keeps-check_quarantine : (i : Member) → Keeps (Here J) (check_quarantine D T i)
    unfolding check_quarantine
    Keeps-check_quarantine i = bind (Keeps-call _ _) λ digests. Keeps-demand _

    pub Keeps-copy : (m : Manifest) (i : Member) → Keeps (Here J) (copy D T m i)
    unfolding copy
    Keeps-copy m i = Keeps-call _ _

    pub Keeps-check_copy : (m : Manifest) (i : Member) → Keeps (Here J) (check_copy D T m i)
    unfolding check_copy
    Keeps-check_copy m i = bind (Keeps-call _ _) λ u. Keeps-verify_in _ m i
