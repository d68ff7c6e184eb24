-- ===== src/Promotion/Run/Loops.antt =====
-- The loops of the trust and scan evaluations over the frameworks of a unit.
use alric_containers_image_b.Base.{
  ℕ, String, ◌≡◌, refl, sym, Bool, true, false, ◌⊎◌, inl, inr, some, List, ◌∷◌, In, arith,
  if◌then◌else◌,
}
use mathlib.Core.Path.{subst}
use alric_containers_image_b.Base.Act.{Act, ◌>>◌}
use alric_containers_image_b.Base.Act.Triples.{Post, Triple, weaken, bind, chain}
use alric_containers_image_b.Promotion.Registry.{Registry}
use alric_containers_image_b.Promotion.Work.{
  UnitStatus, failed, pending, authorized, Phase, UnitResult, Event, scanned, Work, is_failed,
  is_pending, set_unit, with_entry, when, while_ok,
}
use alric_containers_image_b.Promotion.Batch.{
  mark_trusted, mark_scanned, in_phase, authorized_unit, guarded, trust_one, trust_unit, scan_one,
  scan_unit, save,
}
use alric_containers_image_b.Promotion.Run.Rules.{
  Statement, On, Failed, Keeps-set_unit, Keeps-save, while_ok-all, guarded-Guards, guarded-Passes,
}
use alric_containers_image_b.Promotion.Run.Quiet.{Idle, Calm, fails}
use alric_containers_image_b.Promotion.Run.Evaluations.{
  Trusted, Cleared, Whole, IsTrusted, IsReady, Trusted-with_entry, Cleared-with_entry, Evaluates,
  trust_one-Trusts, scan_one-Clears,
}

-- Units of fixed frameworks, on which the loops work.
abbrev Fixed : (List Event → Type 0) → List String → Statement
Fixed T names t u = Calm T t u × (u.frameworks ≡ names)

abbrev FixedTrusted : (List Event → Type 0) → List String → Statement
FixedTrusted T names t u = Fixed T names t u × Whole Trusted t u

Failed-or :
    (F : String → Statement) (names : List String) (t : List Event) (u : UnitResult)
    → u.frameworks ≡ names
    → (u.status ≡ failed ⊎ ((name : String) → In name names → F name t u))
    → u.status ≡ failed ⊎ Whole F t u
Failed-or F names t u e (inl f) = inl f
Failed-or F names t u e (inr all) = inr λ name m. all name (subst (In name) e m)

settled :
    (T : List Event → Type 0) (t : List Event) (u : UnitResult)
    → Calm T t u
    → (u.status ≡ failed ⊎ Whole Trusted t u)
    → T t × IsTrusted t u
settled T t u h (inl f) = (h.0, record { idle = h.1; whole = λ e. absurd (ground (arith, e, f)) })
settled T t u h (inr all) = (h.0, record { idle = h.1; whole = λ e. all })

module _ {D : Registry} where
  pub when_Post :
      {P Q X : Work D → Type 0} (b : Bool) (body : Act (Work D) (Unit {0}))
      → Triple P body (λ x. Q) X
      → (w : Work D) → P w
      → (b ≡ false → Q w)
      → Post (λ x. Q) X (when b body w).0 (when b body w).1
  when_Post true body k w h skip = k.run w h
  when_Post false body k w h skip = skip refl

module _ {D : Registry} where
  pub when_skipped :
      (Q X : Work D → Type 0) (b : Bool) (body : Act (Work D) (Unit {0})) (w : Work D)
      → b ≡ false
      → Q w
      → Post (λ x. Q) X (when b body w).0 (when b body w).1
  when_skipped Q X true body w e q = absurd (ground (arith, e))
  when_skipped Q X false body w e q = q

pending-cases : (s : UnitStatus) → (s ≡ pending) ⊎ (is_pending s ≡ false)
pending-cases pending = inl refl
pending-cases failed = inr refl
pending-cases UnitStatus.skipped = inr refl
pending-cases authorized = inr refl

failed-not_pending : (s : UnitStatus) → is_failed s ≡ true → is_pending s ≡ false
failed-not_pending failed e = refl
failed-not_pending pending e = absurd (ground (arith, e))
failed-not_pending UnitStatus.skipped e = refl
failed-not_pending authorized e = refl

-- After the scans a unit that has not failed is authorized.
authorizes :
    (t : List Event) (u : UnitResult) (b : Bool)
    → is_failed u.status ≡ b
    → Idle u
    → (u.status ≡ failed ⊎ Whole Cleared t u)
    → IsReady t (
        if b
        then u
        else record u { status = authorized; phase = Phase.prewrite_authorized; prewrite = true })
authorizes t u true e h k = record {
  settled = failed-not_pending u.status e;
  unpromoted = h.1;
  whole = λ q. absurd (ground (arith, e, q));
}
authorizes t u false e h (inl f) = absurd (ground (arith, e, f))
authorizes t u false e h (inr all) = record { settled = refl; unpromoted = h.1; whole = λ q. all }

module _ {D : Registry} (registry : String) (soak now : ℕ) where
  module _ (T : List Event → Type 0) (e : Evaluates T) where
    trust_rounds :
        (names : List String)
        → Triple
            (On (Fixed T names))
            (while_ok names (λ name.
              guarded D registry soak now Phase.trust name (trust_one D registry soak now name)))
            (λ x w.
              On (Fixed T names) w
              × (Failed w ⊎ ((name : String) → In name names → On (Trusted name) w)))
            (On (Fixed T names))
    trust_rounds names =
        while_ok-all (λ name. On (Trusted name)) names _ (λ w h. h)
          (λ name m.
            guarded-Guards registry soak now Phase.trust name _ (On (Trusted name))
              (trust_one-Trusts registry soak now T e (Fixed T names) name
                (λ t u d h. ((e.trust t name d h.0.0, h.0.1), h.1)) (λ t u h. h))
              (λ w h. (fails T Phase.trust (some name) w.side.trace w.unit h.0, h.1)) (λ w h. h))
          (λ n name m.
            guarded-Passes (λ w. On (Fixed T names) w × On (Trusted n) w) (On (Trusted n)) registry
              soak now Phase.trust name _
              (weaken
                (trust_one-Trusts registry soak now T e (λ t u. Fixed T names t u × Trusted n t u)
                  name
                  (λ t u d h.
                    (((e.trust t name d h.0.0.0, h.0.0.1), h.0.1), (h.1.0, h.1.1, inr h.1.2)))
                  (λ t u h. (h.0, Trusted-with_entry n name mark_trusted t u refl h.1)))
                (λ w h. h) (λ x w h. h.0.1) (λ w h. tt)))

    pub trust_unit-Trusts :
        Triple
          (On (Calm T))
          (trust_unit D registry soak now)
          (λ x. On (λ t u. T t × IsTrusted t u))
          (On (λ t u. T t × (u.promoted ≡ false)))
    unfolding trust_unit
    trust_unit-Trusts = record {
      run = λ w h.
          when_Post (is_pending w.unit.status) _
            (chain (Keeps-set_unit (Fixed T w.unit.frameworks) (in_phase Phase.trust) (λ t u k. k))
              (λ v k. (k.0.0, k.0.1.1))
              λ x.
                chain (trust_rounds w.unit.frameworks) (λ v k. (k.0.0, k.0.1.1))
                  λ x.
                    weaken
                      (Keeps-save
                        (λ t u.
                          Fixed T w.unit.frameworks t u × (u.status ≡ failed ⊎ Whole Trusted t u))
                        registry soak now (λ t u k. k))
                      (λ v k.
                        (k.0, Failed-or Trusted w.unit.frameworks v.side.trace v.unit k.0.1 k.1))
                      (λ x v k. settled T v.side.trace v.unit k.0.0 k.1)
                      (λ v k. (k.0.0.0, k.0.0.1.1)))
            w (h, refl)
            (λ e. (h.0, record { idle = h.1; whole = λ q. absurd (ground (arith, e, q)) }));
    }

    scan_rounds :
        (names : List String)
        → Triple
            (On (FixedTrusted T names))
            (while_ok names (λ name.
              guarded D registry soak now Phase.scan name (scan_one D registry soak now name)))
            (λ x w.
              On (FixedTrusted T names) w
              × (Failed w ⊎ ((name : String) → In name names → On (Cleared name) w)))
            (On (FixedTrusted T names))
    scan_rounds names =
        while_ok-all (λ name. On (Cleared name)) names _ (λ w h. h)
          (λ name m.
            guarded-Guards registry soak now Phase.scan name _ (On (Cleared name))
              (scan_one-Clears registry soak now T e (FixedTrusted T names) name
                (trusted_here name m) (logs name) (sets name))
              (λ w h. ((fails T Phase.scan (some name) w.side.trace w.unit h.0.0, h.0.1), h.1))
              (λ w h. h))
          (λ n name m.
            guarded-Passes (λ w. On (FixedTrusted T names) w × On (Cleared n) w) (On (Cleared n))
              registry soak now Phase.scan name _
              (weaken
                (scan_one-Clears registry soak now T e
                  (λ t u. FixedTrusted T names t u × Cleared n t u) name
                  (λ t u h. trusted_here name m t u h.0)
                  (λ t u d passes h.
                    (logs name t u d passes h.0, (h.1.0, h.1.1, inr h.1.2, inr h.1.3)))
                  (λ t u h.
                    (sets name t u h.0, Cleared-with_entry n name mark_scanned t u refl h.1)))
                (λ w h. h) (λ x w h. h.0.1) (λ w h. tt)))
      where
        trusted_here :
            (name : String)
            → In name names
            → (t : List Event) (u : UnitResult) → FixedTrusted T names t u
            → Trusted name t u
        trusted_here name m t u h = h.1 name (subst (In name) (sym h.0.1) m)

        logs :
            (name : String) (t : List Event) (u : UnitResult) (d : String) (passes : Bool)
            → FixedTrusted T names t u
            → FixedTrusted T names (scanned name d passes ∷ t) u
        logs name t u d passes h = (
          ((e.scan t name d passes h.0.0.0, h.0.0.1), h.0.1),
          λ n m. ((h.1 n m).0, (h.1 n m).1, inr (h.1 n m).2),
        )

        sets :
            (name : String) (t : List Event) (u : UnitResult)
            → FixedTrusted T names t u
            → FixedTrusted T names t (with_entry name mark_scanned u)
        sets name t u h = (h.0, λ n m. Trusted-with_entry n name mark_scanned t u refl (h.1 n m))

    pub scan_unit-Readies :
        Triple
          (On (λ t u. T t × IsTrusted t u))
          (scan_unit D registry soak now)
          (λ x. On (λ t u. T t × IsReady t u))
          (On (λ t u. T t × (u.promoted ≡ false)))
    unfolding scan_unit
    scan_unit-Readies = record {
      run = λ w h. elim (pending-cases w.unit.status) [
        | inl p ↦
            when_Post (is_pending w.unit.status) _ (work w.unit.frameworks) w
              (((h.0, h.1.idle), refl), h.1.whole p) (λ e. absurd (ground (arith, e, p)))
        | inr p ↦ when_skipped _ _ (is_pending w.unit.status) _ w p (
          h.0,
          record {
            settled = p;
            unpromoted = h.1.idle.1;
            whole = λ q. absurd (ground (arith, h.1.idle.0, q));
          },
        )
      ];
    }
      where
        work :
            (names : List String)
            → Triple
                (On (FixedTrusted T names))
                (do
                  set_unit (in_phase Phase.scan)
                  while_ok names (λ name.
                      guarded D registry soak now Phase.scan name
                        (scan_one D registry soak now name))
                  set_unit (authorized_unit D registry soak now)
                  save D registry soak now)
                (λ x. On (λ t u. T t × IsReady t u))
                (On (λ t u. T t × (u.promoted ≡ false)))
        work names =
            chain (Keeps-set_unit (FixedTrusted T names) (in_phase Phase.scan) (λ t u k. k))
              (λ v k. (k.0.0.0, k.0.0.1.1))
              λ x.
                chain (scan_rounds names) (λ v k. (k.0.0.0, k.0.0.1.1))
                  λ x.
                    bind {Q = λ x. On (λ t u. T t × IsReady t u)}
                      (record {
                        run = λ v k. (
                          k.0.0.0.0,
                          authorizes v.side.trace v.unit (is_failed v.unit.status) refl k.0.0.0.1
                              (Failed-or Cleared names v.side.trace v.unit k.0.0.1 k.1),
                        );
                      })
                      λ x.
                        weaken
                          (Keeps-save (λ t u. T t × IsReady t u) registry soak now
                            λ t u k. (
                              k.0,
                              record {
                                settled = k.1.settled;
                                unpromoted = k.1.unpromoted;
                                whole = k.1.whole;
                              },
                            ))
                          (λ v k. k) (λ x v k. k) (λ v k. (k.0, k.1.unpromoted))
