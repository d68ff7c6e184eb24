-- ===== src/Release/Lifecycle/Warrant.antt =====
-- Why a command may publish a release: it was chosen, or a recovery found it proven, and its gates
-- passed.
use alric_containers_image_b.Base.{
  ℕ, ◌≤◌, String, ◌≡◌, ◌≢◌, refl, sym, ap, ◌∙◌, ◌⊎◌, inl, inr, Bool, true, false, Option, none,
  some, List, Result, ok, err, In, require, ◌>>◌, arith,
}
use alric_containers_image_b.Base.Act.Triples.{Triple}
use alric_containers_image_b.Release.Data.{
  Environment, dev, Member, Manifest, FrameworkState, States, state_of,
}
use alric_containers_image_b.Release.Choice.{
  ChoiceError, SoakHours, duration, not_a_number, verify, verify_approved, choose,
}
use alric_containers_image_b.Release.Choice.Spec.{IsPromotable, choose-some}
use alric_containers_image_b.Release.Destination.{
  Key, state_key, event_key, promoted_key, manifest_key, candidate_key, Doc, View,
}
use alric_containers_image_b.Release.Publication.Views.{Wrote}
use alric_containers_image_b.Release.Lifecycle.{Setting, Order, or_stop}
use alric_containers_image_b.Release.Lifecycle.Hom.{is_record_of}
use alric_containers_image_b.Release.Lifecycle.Steps.{IsRelease}

-- What a choice is asked for: what the order says, or, to approve a publication in DEV, nothing.
abbrev pub IsAsked : Order → Environment → Option String → Bool → Type 0
IsAsked o environment requested resume =
    ((requested ≡ o.release) × (resume ≡ o.resume))
    ⊎ ((environment ≡ dev) × (requested ≡ none) × (resume ≡ false))

-- `choose` chose it by the policy of the environment, on what was seen of the state of each image.
pub record Chosen (g : Setting) (o : Order) (Seen : String → Option FrameworkState → Type 0)
    (environment : Environment) (m : Manifest) : Type 0 where
  pub states : States
  pub seen : (i : Member) → In i m.images → Seen i.name (state_of i.name states)
  pub requested : Option String
  pub resume : Bool
  pub asked : IsAsked o environment requested resume
  pub soak : ℕ
  pub soaks : (g.policy environment).soak ≤ soak
  pub enabled : (g.policy environment).enabled ≡ true
  pub verifies : verify g.consumers_pass o.now environment m ≡ ok tt
  pub promotable :
      IsPromotable environment (g.policy environment) states resume soak o.now requested m

-- An approved release with the record of its promotion to HOM.
pub record IsProven (g : Setting) (o : Order) (m : Manifest) (v : View) : Type 0 where
  pub approves : verify_approved g.consumers_pass o.now m ≡ ok tt
  pub release : String
  pub doc : Doc
  pub there : v.objects (promoted_key release) ≡ some doc
  pub its : is_record_of o.context m doc ≡ true

-- A document of a release is no record of a promotion.
pub record_stays : (key : Key) (release : String) → IsRelease key → promoted_key release ≢ key
record_stays (manifest_key a) release r = λ e. ground arith
record_stays (candidate_key a) release r = λ e. ground arith
record_stays (promoted_key a) release r = elim r [ ]
record_stays (state_key a) release r = elim r [ ]
record_stays (event_key a p) release r = elim r [ ]

module _ (g : Setting) (o : Order) (Seen : String → Option FrameworkState → Type 0) where
  abbrev pub Warrant : Environment → Bool → Manifest → View → Type 0
  Warrant environment false m v = Chosen g o Seen environment m
  Warrant environment true m v = IsProven g o m v

  pub IsProven-Wrote :
      {m : Manifest} {v w : View} {key : Key} {doc : Doc}
      → IsRelease key
      → Wrote v w key doc
      → IsProven g o m v
      → IsProven g o m w
  IsProven-Wrote {key} is_release wrote h = record {
    approves = h.approves;
    release = h.release;
    doc = h.doc;
    its = h.its;
    there = elim wrote.one_object [
      | inl same ↦ ap (λ f. f (promoted_key h.release)) same ∙ h.there
      | inr sets ↦
          sets.others (promoted_key h.release) (record_stays key h.release is_release) ∙ h.there
    ];
  }

  -- The soak of a choice is a duration.
  chosen_duration :
      (environment : Environment) (states : States) (resume : Bool) (manifests : List Manifest)
      (hours : SoakHours) (requested : Option String) (m : Manifest)
      → choose g.consumers_pass o.now environment
          (g.policy environment)
          states
          resume
          manifests
          hours
          o.now
          requested
        ≡ ok (some m)
      → (soak : ℕ) × (hours ≡ duration soak)
  unfolding choose
  chosen_duration environment states resume manifests (duration soak) requested m h = (soak, refl)
  chosen_duration environment states resume manifests not_a_number requested m h =
      absurd (never (g.policy environment).enabled h)
    where
      refused : Bool → Result ChoiceError (Option Manifest)
      refused b = do require b ChoiceError.disabled; err ChoiceError.invalid_soak

      never : (b : Bool) → refused b ≡ ok (some m) → ⊥
      never true e = ground arith
      never false e = ground arith

  pub choose-Chosen :
      (environment : Environment) (states : States) (resume : Bool) (manifests : List Manifest)
      (hours : SoakHours) (requested : Option String) (m : Manifest)
      → IsAsked o environment requested resume
      → ((n : Manifest)
          → In n manifests
          → (i : Member) → In i n.images
          → Seen i.name (state_of i.name states))
      → choose g.consumers_pass o.now environment
          (g.policy environment)
          states
          resume
          manifests
          hours
          o.now
          requested
        ≡ ok (some m)
      → In m manifests × Chosen g o Seen environment m
  choose-Chosen environment states resume manifests hours requested m asked seen h =
      let d = chosen_duration environment states resume manifests hours requested m h in
      let c =
        choose-some environment (g.policy environment) states resume d.0 o.now requested
          g.consumers_pass o.now manifests m
          (ap
              (λ x.
                choose g.consumers_pass o.now environment (g.policy environment) states resume
                  manifests x o.now requested)
              (sym d.1)
            ∙ h) in
      (
        c.2,
        record {
          states = states;
          seen = seen m c.2;
          requested = requested;
          resume = resume;
          asked = asked;
          soak = d.0;
          soaks = c.1;
          enabled = c.0;
          verifies = c.4 m c.2;
          promotable = c.3;
        },
      )

module _ {S A : Type 0} where
  -- A result that is returned is the one that was computed.
  pub or_stop-Gives :
      (I : S → Type 0) (r : Result ChoiceError A) → Triple I (or_stop r) (λ a s. I s × (r ≡ ok a)) I
  or_stop-Gives I (ok a) = record { run = λ s h. (h, refl) }
  or_stop-Gives I (err e) = record { run = λ s h. h }
