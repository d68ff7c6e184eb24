-- ===== src/Promotion/Run/Units.antt =====
-- What a loop over the units makes of each of them.
use alric_containers_image_b.Base.{ℕ, String, refl, sym, inl, inr, List, [], ◌∷◌, Result, ok, err}
use mathlib.Core.Path.{subst}
use alric_containers_image_b.Base.Act.{Stop, Act}
use alric_containers_image_b.Base.Act.Triples.{Post, Triple}
use alric_containers_image_b.Promotion.Registry.{Registry}
use alric_containers_image_b.Promotion.Work.{UnitResult, Event, Side, Work}
use alric_containers_image_b.Promotion.Run.{go_on, over}
use alric_containers_image_b.Promotion.Run.Rules.{Statement, On, Grows, Each, Stays}

abbrev pub BatchHas :
    {D : Registry} → (List Event → Type 0) → Statement → Side D × List UnitResult → Type 0
BatchHas I F b = I b.0.trace × Each F b.0.trace b.1

module _ {D : Registry} (registry : String) (soak now : ℕ) (body : Act (Work D) (Unit {0}))
    (I : List Event → Type 0) (P Q E : Statement) (sp : Stays P) (sq : Stays Q) (se : Stays E)
    (pe : (t : List Event) (u : UnitResult) → P t u → E t u)
    (qe : (t : List Event) (u : UnitResult) → Q t u → E t u)
    (works : (s : List Event)
      → Triple
          (On (λ t u. (Grows s t × I t) × P t u))
          body
          (λ x. On (λ t u. (Grows s t × I t) × Q t u))
          (On (λ t u. (Grows s t × I t) × E t u))) where
  abbrev Since : List Event → List Event → Type 0
  Since s t = Grows s t × I t

  first :
      (F : Statement) (t : List Event) (v : UnitResult) (vs : List UnitResult)
      → F t v
      → Each F t vs
      → Each F t (v ∷ vs)
  first F t v vs here rest x (inl e) = subst (F t) (sym e) here
  first F t v vs here rest x (inr m) = rest x m

  abbrev Ended : List Event → Result Stop (Unit {0}) → Side D × List UnitResult → Type 0
  Ended s r b = Post (λ x. BatchHas (Since s) Q) (BatchHas (Since s) E) r b

  later-Ended :
      (s t : List Event) (r : Result Stop (Unit {0})) (b : Side D × List UnitResult)
      (v : UnitResult)
      → Grows s t
      → Ended t r b
      → Q t v
      → Ended s r (b.0, v ∷ b.1)
  later-Ended s t (ok done) b v g k q =
      ((λ e m. k.0.0 e (g e m), k.0.1), first Q b.0.trace v b.1 (sq t b.0.trace v k.0.0 q) k.1)
  later-Ended s t (err x) b v g k q = (
    (λ e m. k.0.0 e (g e m), k.0.1),
    first E b.0.trace v b.1 (qe b.0.trace v (sq t b.0.trace v k.0.0 q)) k.1,
  )

  -- What the body makes of each unit, the loop makes of all; a stop leaves the rest as it was.
  over-from :
      (us : List UnitResult) (side : Side D)
      → I side.trace
      → Each P side.trace us
      → Ended side.trace
          (over D registry soak now body us side).0
          (over D registry soak now body us side).1
  unfolding over
  over-from [] side i h = ((λ e m. m, i), λ v m. absurd m)
  over-from (u ∷ us) side i h =
      go (body w₀).0 (body w₀).1 ((works side.trace).run w₀ ((λ e m. m, i), h u (inl refl)))
        (over-from us)
    where
      w₀ : Work D
      w₀ = record { side = side; unit = u }

      later : Side D → Result Stop (Unit {0}) × (Side D × List UnitResult)
      later = over D registry soak now body us

      go :
          (r : Result Stop (Unit {0})) (w : Work D)
          → Post
              (λ x. On (λ t u. (Grows side.trace t × I t) × Q t u))
              (On (λ t u. (Grows side.trace t × I t) × E t u))
              r
              w
          → ((s : Side D)
              → I s.trace
              → Each P s.trace us
              → Ended s.trace
                  (over D registry soak now body us s).0
                  (over D registry soak now body us s).1)
          → Ended side.trace
              (go_on D registry soak now r w.unit us later w.side).0
              (go_on D registry soak now r w.unit us later w.side).1
      go (ok done) w k ih =
          later-Ended side.trace w.side.trace (later w.side).0 (later w.side).1 w.unit k.0.0
            (ih w.side k.0.1 (λ v m. sp side.trace w.side.trace v k.0.0 (h v (inr m)))) k.1
      go (err x) w k ih = (
        k.0,
        first E w.side.trace w.unit us k.1
            (λ v m. pe w.side.trace v (sp side.trace w.side.trace v k.0.0 (h v (inr m)))),
      )

  drop :
      (r : Result Stop (Unit {0})) (s : List Event) (b : Side D × List UnitResult)
      → Ended s r b
      → Post (λ x. BatchHas I Q) (BatchHas I E) r b
  drop (ok done) s b k = (k.0.1, k.1)
  drop (err x) s b k = (k.0.1, k.1)

  pub over-Triple :
      Triple
        (BatchHas I P)
        (λ b. over D registry soak now body b.1 b.0)
        (λ x. BatchHas I Q)
        (BatchHas I E)
  over-Triple = record {
    run = λ b h.
        drop (over D registry soak now body b.1 b.0).0 b.0.trace
          (over D registry soak now body b.1 b.0).1 (over-from b.1 b.0 h.0 h.1);
  }
