-- ===== src/Promotion/Run/Whole.antt =====
-- The phases of `promote_batch`: the order of what they do outside, and what they leave.
use alric_containers_image_b.Base.{
  ℕ, String, ◌≡◌, refl, Bool, true, false, not, inl, inr, List, [], ◌∷◌, any, In, arith, Bool-cases,
}
use alric_containers_image_b.Base.Membership.{In-any}
use alric_containers_image_b.Base.Act.{Act, demand}
use alric_containers_image_b.Base.Act.Triples.{Post, Triple, weaken, bind, chain}
use alric_containers_image_b.Promotion.Registry.{Registry}
use alric_containers_image_b.Promotion.Work.{
  UnitResult, Event, trusted, scanned, wrote, Side, Work, is_failed,
}
use alric_containers_image_b.Promotion.Batch.{trust_unit, scan_unit, saved_unit, save}
use alric_containers_image_b.Promotion.Run.{
  over, write_unit, save_all, any_failed, raise_failures, phases,
}
use alric_containers_image_b.Promotion.Run.Rules.{Statement, On, Grows, Stays, Keeps-save}
use alric_containers_image_b.Promotion.Run.Units.{BatchHas, over-Triple}
use alric_containers_image_b.Promotion.Run.Quiet.{
  Idle, Idle-inventory_unit, Idle-selection_unit, Idle-pair_unit,
}
use alric_containers_image_b.Promotion.Run.Evaluations.{IsTrusted, IsReady, Evaluates}
use alric_containers_image_b.Promotion.Run.Loops.{trust_unit-Trusts, scan_unit-Readies}
use alric_containers_image_b.Promotion.Run.Writes.{IsCovered, Admits}
use alric_containers_image_b.Promotion.Run.Closing.{IsExact, IsDone, write_unit-Completes}

abbrev pub NoWrite : List Event → Type 0
NoWrite t = (names : List String) (name digest : String) → In (wrote names name digest) t → ⊥

-- Every write is covered by what was verified and scanned before, and no evaluation follows a write.
abbrev pub Orderly : List Event → Type 0
Orderly [] = Unit
Orderly (trusted name digest ∷ t) = NoWrite t × Orderly t
Orderly (scanned name digest passes ∷ t) = NoWrite t × Orderly t
Orderly (wrote names name digest ∷ t) = IsCovered t names name digest × Orderly t

-- The trace before the writes.
abbrev pub Barrier : List Event → Type 0
Barrier t = NoWrite t × Orderly t

abbrev pub Since : (List Event → Type 0) → List Event → List Event → Type 0
Since I s t = Grows s t × I t

trusts :
    (s t : List Event) (name digest : String)
    → Since Barrier s t
    → Since Barrier s (trusted name digest ∷ t)
trusts s t name digest h = (
  λ e m. inr (h.0 e m),
  (λ ns n d m. elim m [ inl e ↦ ground (arith, e) | inr k ↦ h.1.0 ns n d k ], h.1),
)

scans :
    (s t : List Event) (name digest : String) (passes : Bool)
    → Since Barrier s t
    → Since Barrier s (scanned name digest passes ∷ t)
scans s t name digest passes h = (
  λ e m. inr (h.0 e m),
  (λ ns n d m. elim m [ inl e ↦ ground (arith, e) | inr k ↦ h.1.0 ns n d k ], h.1),
)

evaluates : (s : List Event) → Evaluates (Since Barrier s)
evaluates s = record { trust = trusts s; scan = scans s }

admits : (s : List Event) → Admits (Since Orderly s)
admits s t names name digest c h = (λ e m. inr (h.0 e m), (c, h.1))

abbrev pub OfUnit : (UnitResult → Type 0) → Statement
OfUnit F t u = F u

-- A unit that is done and has not failed.
abbrev pub Good : UnitResult → Type 0
Good u = IsDone u × (is_failed u.status ≡ false)

abbrev Unpromoted : UnitResult → Type 0
Unpromoted u = u.promoted ≡ false

Trusted-Stays : Stays IsTrusted
Trusted-Stays s t u g h = record {
  idle = h.idle;
  whole = λ e n m. let k = h.whole e n m in (k.0, k.1, g (trusted n k.0) k.2);
}

Ready-Stays : Stays IsReady
Ready-Stays s t u g h = record {
  settled = h.settled;
  unpromoted = h.unpromoted;
  whole = λ e n m.
      let k = h.whole e n m in (k.0, k.1, g (trusted n k.0) k.2, g (scanned n k.0 true) k.3);
}

module _ {D : Registry} (registry : String) (soak now : ℕ) where
  pub saves :
      (I : List Event → Type 0) (F : Statement)
      → Stays F
      → ((t : List Event) (u : UnitResult) → F t u → F t (saved_unit u))
      → Triple (BatchHas I F) (save_all D registry soak now) (λ x. BatchHas I F) (BatchHas I F)
  unfolding save_all
  saves I F stays k =
      over-Triple registry soak now (save D registry soak now) I F F F stays stays stays
        (λ t u h. h) (λ t u h. h)
        (λ s. Keeps-save (λ t u. Since I s t × F t u) registry soak now (λ t u h. (h.0, k t u h.1)))

  quiets :
      (body : Act (Work D) (Unit {0}))
      → ((s : List Event)
          → Triple
              (On (λ t u. Since Barrier s t × Idle u))
              body
              (λ x. On (λ t u. Since Barrier s t × Idle u))
              (On (λ t u. Since Barrier s t × Idle u)))
      → Triple
          (BatchHas Barrier (OfUnit Idle))
          (λ b. over D registry soak now body b.1 b.0)
          (λ x. BatchHas Barrier (OfUnit Idle))
          (BatchHas Barrier (OfUnit Idle))
  quiets body works =
      over-Triple registry soak now body Barrier (OfUnit Idle) (OfUnit Idle) (OfUnit Idle)
        (λ s t u g h. h) (λ s t u g h. h) (λ s t u g h. h) (λ t u h. h) (λ t u h. h) works

  trust_all :
      Triple
        (BatchHas Barrier (OfUnit Idle))
        (λ b. over D registry soak now (trust_unit D registry soak now) b.1 b.0)
        (λ x. BatchHas Barrier IsTrusted)
        (BatchHas Barrier (OfUnit Unpromoted))
  trust_all =
      over-Triple registry soak now _ Barrier (OfUnit Idle) IsTrusted (OfUnit Unpromoted)
        (λ s t u g h. h) Trusted-Stays (λ s t u g h. h) (λ t u h. h.1) (λ t u h. h.idle.1)
        (λ s. trust_unit-Trusts registry soak now (Since Barrier s) (evaluates s))

  scan_all :
      Triple
        (BatchHas Barrier IsTrusted)
        (λ b. over D registry soak now (scan_unit D registry soak now) b.1 b.0)
        (λ x. BatchHas Barrier IsReady)
        (BatchHas Barrier (OfUnit Unpromoted))
  scan_all =
      over-Triple registry soak now _ Barrier IsTrusted IsReady (OfUnit Unpromoted) Trusted-Stays
        Ready-Stays (λ s t u g h. h) (λ t u h. h.idle.1) (λ t u h. h.unpromoted)
        (λ s. scan_unit-Readies registry soak now (Since Barrier s) (evaluates s))

  write_all :
      Triple
        (BatchHas Orderly IsReady)
        (λ b. over D registry soak now (write_unit D registry soak now) b.1 b.0)
        (λ x. BatchHas Orderly (OfUnit IsDone))
        (BatchHas Orderly (OfUnit IsExact))
  write_all =
      over-Triple registry soak now _ Orderly IsReady (OfUnit IsDone) (OfUnit IsExact) Ready-Stays
        (λ s t u g h. h) (λ s t u g h. h) (λ t u h p. absurd (ground (arith, p, h.unpromoted)))
        (λ t u h. h.exact)
        (λ s. write_unit-Completes registry soak now (Since Orderly s) (admits s))

  Idle-Exact :
      (b : Side D × List UnitResult)
      → BatchHas Barrier (OfUnit Idle) b
      → BatchHas Orderly (OfUnit IsExact) b
  Idle-Exact b h = (h.0.1, λ u m p. absurd (ground (arith, p, (h.1 u m).1)))

  Unpromoted-Exact :
      (b : Side D × List UnitResult)
      → BatchHas Barrier (OfUnit Unpromoted) b
      → BatchHas Orderly (OfUnit IsExact) b
  Unpromoted-Exact b h = (h.0.1, λ u m p. absurd (ground (arith, p, h.1 u m)))

  ready-Exact :
      (b : Side D × List UnitResult)
      → BatchHas Barrier IsReady b
      → BatchHas Orderly (OfUnit IsExact) b
  ready-Exact b h = (h.0.1, λ u m p. absurd (ground (arith, p, (h.1 u m).unpromoted)))

  done-Exact :
      (b : Side D × List UnitResult)
      → BatchHas Orderly (OfUnit IsDone) b
      → BatchHas Orderly (OfUnit IsExact) b
  done-Exact b h = (h.0, λ u m. (h.1 u m).exact)

  raises :
      Triple
        (BatchHas Orderly (OfUnit IsDone))
        (raise_failures D registry soak now)
        (λ x. BatchHas Orderly (OfUnit Good))
        (BatchHas Orderly (OfUnit IsExact))
  raises = record { run = λ b h. go b h (any_failed D registry soak now b.1) refl }
    where
      stands :
          (us : List UnitResult) (u : UnitResult)
          → any (λ v. is_failed v.status) us ≡ false
          → In u us
          → is_failed u.status ≡ false
      stands us u e m = elim (Bool-cases (is_failed u.status)) [
        | inl f ↦ absurd (ground (arith, e, In-any (λ v. is_failed v.status) u us m f))
        | inr f ↦ f
      ]

      go :
          (b : Side D × List UnitResult)
          → BatchHas Orderly (OfUnit IsDone) b
          → (f : Bool) → any_failed D registry soak now b.1 ≡ f
          → Post
              (λ x. BatchHas Orderly (OfUnit Good))
              (BatchHas Orderly (OfUnit IsExact))
              (demand (not f) b).0
              (demand (not f) b).1
      go b h true e = done-Exact b h
      go b h false e = (h.0, λ u m. (h.1 u m, stands b.1 u e m))

  Idle-save :
      Triple
        (BatchHas Barrier (OfUnit Idle))
        (save_all D registry soak now)
        (λ x. BatchHas Barrier (OfUnit Idle))
        (BatchHas Barrier (OfUnit Idle))
  Idle-save = saves Barrier (OfUnit Idle) (λ s t u g h. h) (λ t u h. h)

  pub phases-End :
      Triple
        (BatchHas Barrier (OfUnit Idle))
        (phases D registry soak now)
        (λ x. BatchHas Orderly (OfUnit Good))
        (BatchHas Orderly (OfUnit IsExact))
  unfolding phases
  phases-End = chain Idle-save Idle-Exact λ x.
      chain (quiets _ (λ s. Idle-inventory_unit registry soak now (Since Barrier s))) Idle-Exact
        λ x. chain Idle-save Idle-Exact λ x.
          chain (quiets _ (λ s. Idle-selection_unit registry soak now (Since Barrier s))) Idle-Exact
            λ x. chain Idle-save Idle-Exact λ x.
              chain (quiets _ (λ s. Idle-pair_unit registry soak now (Since Barrier s))) Idle-Exact
                λ x. chain Idle-save Idle-Exact λ x. chain trust_all Unpromoted-Exact λ x.
                  chain scan_all Unpromoted-Exact λ x.
                    chain
                      (saves Barrier IsReady Ready-Stays (λ t u h. record {
                        settled = h.settled;
                        unpromoted = h.unpromoted;
                        whole = h.whole;
                      }))
                      ready-Exact
                      λ x.
                        bind (weaken write_all (λ b h. (h.0.1, h.1)) (λ x b h. h) (λ b h. h))
                          λ x. raises
