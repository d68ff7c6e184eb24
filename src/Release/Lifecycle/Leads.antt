-- ===== src/Release/Lifecycle/Leads.antt =====
-- What a command makes of a statement: it keeps it, or its publication leads to another one.
use alric_containers_image_b.Base.{String, Bool, Option, List}
use alric_containers_image_b.Base.Act.{Act, ◌>>=◌}
use alric_containers_image_b.Base.Act.Triples.{Triple, weaken, chain, Keeps}
use alric_containers_image_b.Release.Data.{Environment, Manifest, FrameworkState, States}
use alric_containers_image_b.Release.Destination.{Destination, View, IsLawful}
use alric_containers_image_b.Release.Site.{Tools, Site, Event}
use alric_containers_image_b.Release.Lifecycle.{Setting, Order, publish_in}
use alric_containers_image_b.Release.Lifecycle.Steps.{Here}
use alric_containers_image_b.Release.Lifecycle.Gates.{Gates}
use alric_containers_image_b.Release.Lifecycle.Warrant.{Warrant}

module _ (D : Destination) (T : Tools) (view : D.State → View) (lawful : IsLawful D view)
    (g : Setting) (o : Order) where
  -- A publication with its gates and its warrant leads from the one statement to the other.
  abbrev pub Publishes :
      (Seen : String → Option FrameworkState → Type 0) (environment : Environment) (recovery : Bool)
      (J Y : View → List Event → Type 0)
      → Type 0
  Publishes Seen environment recovery J Y =
      (reason : String) (m : Manifest) (before : States)
      → Triple
          (Here D T view lawful (λ v t.
            J v t × Gates g environment recovery m t × Warrant g o Seen environment recovery m v))
          (publish_in D T g o environment recovery reason m before) (λ u. Here D T view lawful Y)
          (Here D T view lawful Y)

  module _ (J Y : View → List Event → Type 0)
      (weaker : (v : View) (t : List Event) → J v t → Y v t) where
    abbrev At : (View → List Event → Type 0) → Site D T → Type 0
    At = Here D T view lawful

    -- A command, or a part of it, that may publish.
    abbrev pub Leads : {A : Type 0} → Act (Site D T) A → Type 0
    Leads act = Triple (At J) act (λ a. At Y) (At Y)

    pub Leads-kept : {A : Type 0} {act : Act (Site D T) A} → Keeps (At J) act → Leads act
    Leads-kept k = weaken k (λ s h. h) (λ a s h. weaker _ _ h) (λ s h. weaker _ _ h)

    -- A part that does not publish, and the rest.
    pub Leads-after :
        {A B : Type 0} {first : Act (Site D T) A} {next : A → Act (Site D T) B}
        → Keeps (At J) first
        → ((a : A) → Leads (next a))
        → Leads (first >>= next)
    Leads-after k later = chain k (λ s h. weaker _ _ h) later
