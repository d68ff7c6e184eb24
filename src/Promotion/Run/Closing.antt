-- ===== src/Promotion/Run/Closing.antt =====
-- The outcome of a unit that has been read back, and the whole of its writes.
use alric_containers_image_b.Base.{
  ℕ, String, ◌≡◌, refl, sym, Bool, true, false, not, ◌⊎◌, inl, inr, none, List, [], ◌∷◌, In, str_eq,
  eq_iff, arith, if◌then◌else◌,
}
use mathlib.Core.Path.{subst}
use alric_containers_image_b.Base.Membership.{all-In}
use alric_containers_image_b.Base.Act.{for_each, ◌>>◌}
use alric_containers_image_b.Base.Act.Triples.{Post, Triple, weaken, bind, chain, Keeps-for_each}
use alric_containers_image_b.Promotion.Evidence.{Evidence}
use alric_containers_image_b.Promotion.Registry.{Registry}
use alric_containers_image_b.Promotion.Work.{
  UnitStatus, failed, pending, authorized, Phase, UnitResult, Event, Work, is_failed, is_pending,
  is_authorized, set_unit, when, while_ok,
}
use alric_containers_image_b.Promotion.Batch.{in_phase, entry_in, start_phase, save, fail}
use alric_containers_image_b.Promotion.Run.{write_one, readback_one, standing, final_pair_check}
use alric_containers_image_b.Promotion.Run.Rules.{Statement, On, Keeps-set_unit, Keeps-save}
use alric_containers_image_b.Promotion.Run.Quiet.{Keeps-when}
use alric_containers_image_b.Promotion.Run.Evaluations.{IsReady}
use alric_containers_image_b.Promotion.Evidence.{record_outcome}
use alric_containers_image_b.Promotion.Evidence.Outcome.{Agreed, record_outcome-Agreed}
use alric_containers_image_b.Promotion.Run.{
  recorded, recorded_all, record_all, close_unit, write_unit, all_promoted,
}
use alric_containers_image_b.Promotion.Run.Loops.{when_Post, when_skipped}
use alric_containers_image_b.Promotion.Run.Writes.{Admits, Open, Writing, Keeps-writes}
use alric_containers_image_b.Promotion.Work.{skipped}
use alric_containers_image_b.Promotion.Run.Readback.{Keeps-readback_one, Keeps-final_pair_check}

-- A framework that is promoted, with one digest throughout.
abbrev pub Told : UnitResult → String → Type 0
Told u name = ((entry_in u name).promoted ≡ true) × Agreed (entry_in u name)

-- A unit is reported as promoted only when it was authorized and each of its frameworks is.
abbrev pub IsExact : UnitResult → Type 0
IsExact u =
    u.promoted ≡ true
    → (u.status ≡ authorized) × ((name : String) → In name u.frameworks → Told u name)

-- A unit after its writes.
pub record IsDone (u : UnitResult) : Type 0 where
  pub outcome :
      (u.status ≡ failed) ⊎ (u.status ≡ skipped) ⊎ ((u.status ≡ authorized) × (u.promoted ≡ true))
  pub exact : IsExact u

-- The recorded outcomes.
abbrev Honest : Evidence → Type 0
Honest e = e.promoted ≡ true → Agreed e

recorded_all-keeps :
    (P : UnitResult → Type 0) (success : Bool) (names : List String) (u : UnitResult)
    → ((name : String) (v : UnitResult) → P v → P (recorded success name v))
    → P u
    → P (recorded_all success names u)
recorded_all-keeps P success [] u k h = h
recorded_all-keeps P success (name ∷ names) u k h =
    recorded_all-keeps P success names (recorded success name u) k (k name u h)

record_outcome-Honest : (e : Evidence) (success : Bool) → Honest (record_outcome e success false)
record_outcome-Honest e success h = (record_outcome-Agreed e success false h).0

recorded-Honest :
    (success : Bool) (n name : String) (u : UnitResult)
    → (n ≡ name) ⊎ Honest (entry_in u n)
    → Honest (entry_in (recorded success name u) n)
recorded-Honest success n name u h = go (str_eq n name) refl h
  where
    go :
        (b : Bool)
        → str_eq n name ≡ b
        → (n ≡ name) ⊎ Honest (entry_in u n)
        → Honest
            (if b
              then record (u.members name) {
                entry = record_outcome (entry_in u name) success false;
              }
              else u.members n).entry
    go true e k = record_outcome-Honest (entry_in u name) success
    go false e (inl same) = absurd (ground (arith, e, same, eq_iff n name))
    go false e (inr k) = k

recorded_all-Honest :
    (success : Bool) (names : List String) (u : UnitResult) (n : String)
    → In n names
    → Honest (entry_in (recorded_all success names u) n)
recorded_all-Honest success [] u n m = absurd m
recorded_all-Honest success (name ∷ names) u n (inl e) =
    recorded_all-keeps (λ v. Honest (entry_in v n)) success names (recorded success name u)
      (λ k v h. recorded-Honest success n k v (inr h)) (recorded-Honest success n name u (inl e))
recorded_all-Honest success (name ∷ names) u n (inr m) =
    recorded_all-Honest success names (recorded success name u) n m

standing-cases :
    {X : Type 0} (s : UnitStatus)
    → is_pending s ≡ false
    → (s ≡ authorized) ⊎ (((s ≡ failed) ⊎ (s ≡ skipped) ⊎ X) × (is_authorized s ≡ false))
standing-cases pending e = absurd (ground (arith, e))
standing-cases failed e = inr (inl refl, refl)
standing-cases skipped e = inr (inr (inl refl), refl)
standing-cases authorized e = inl refl

active_failed : (s : UnitStatus) → (s ≡ authorized) ⊎ (s ≡ failed) → is_failed s ≡ true → s ≡ failed
active_failed s (inl a) e = absurd (ground (arith, a, e))
active_failed s (inr f) e = f

active_authorized :
    (s : UnitStatus) → (s ≡ authorized) ⊎ (s ≡ failed) → is_failed s ≡ false → s ≡ authorized
active_authorized s (inl a) e = a
active_authorized s (inr f) e = absurd (ground (arith, f, e))

told :
    (u : UnitResult) (n : String)
    → (entry_in u n).promoted ≡ true
    → Honest (entry_in u n)
    → Told u n
told u n p h = (p, h p)

-- A unit that is read again and recorded.
abbrev Recorded : (List Event → Type 0) → List String → Statement
Recorded T names t u = Open T names t u × ((n : String) → In n names → Honest (entry_in u n))

-- What is left where the process ends.
abbrev pub Left : (List Event → Type 0) → Statement
Left T t u = T t × IsExact u

module _ {D : Registry} (registry : String) (soak now : ℕ) (T : List Event → Type 0) where
  record_all-Records :
      (names : List String)
      → Triple
          (On (Open T names))
          (record_all D registry soak now)
          (λ x. On (Recorded T names))
          (On (Left T))
  unfolding record_all
  record_all-Records names = record {
    run = λ w h.
        let success = not (is_failed w.unit.status) in
        (
          recorded_all-keeps (λ u. Open T names w.side.trace u) success w.unit.frameworks w.unit
              (λ n v k. k) h,
          λ n m. recorded_all-Honest success w.unit.frameworks w.unit n (subst (In n) (sym h.3) m),
        );
  }

  closes :
      (names : List String) (w : Work D)
      → On (Recorded T names) w
      → (b : Bool) → is_failed w.unit.status ≡ b
      → (c : Bool) → all_promoted w.unit ≡ c
      → Post
          (λ x. On (λ t u. T t × IsDone u))
          (On (Left T))
          (when
            (not b)
            (if c
              then set_unit (λ u. record u { phase = Phase.complete; promoted = true })
              else fail D registry soak now Phase.readback none)
            w).0
          (when
            (not b)
            (if c
              then set_unit (λ u. record u { phase = Phase.complete; promoted = true })
              else fail D registry soak now Phase.readback none)
            w).1
  unfolding set_unit fail
  closes names w h true e c q = (
    h.0.0,
    record {
      outcome = inl (active_failed w.unit.status h.0.2 e);
      exact = λ p. absurd (ground (arith, p, h.0.1));
    },
  )
  closes names w h false e false q =
      (h.0.0, record { outcome = inl refl; exact = λ p. absurd (ground (arith, p)) })
  closes names w h false e true q =
      let a = active_authorized w.unit.status h.0.2 e in
      (
        h.0.0,
        record {
          outcome = inr (inr (a, refl));
          exact = λ p. (
            a,
            λ n m.
                told w.unit n (all-In (λ k. (entry_in w.unit k).promoted) n w.unit.frameworks q m)
                  (h.1 n (subst (In n) h.0.3 m)),
          );
        },
      )

  close_unit-Closes :
      (names : List String)
      → Triple
          (On (Recorded T names))
          (close_unit D registry soak now)
          (λ x. On (λ t u. T t × IsDone u))
          (On (Left T))
  unfolding close_unit
  close_unit-Closes names = record {
    run = λ w h. closes names w h (is_failed w.unit.status) refl (all_promoted w.unit) refl;
  }

  left : (names : List String) (w : Work D) → On (Open T names) w → On (Left T) w
  left names w h = (h.0, λ p. absurd (ground (arith, p, h.1)))

  module _ (admits : Admits T) where
    writes :
        (names : List String)
        → Triple
            (On (Writing T names))
            (do
              start_phase D registry soak now Phase.write
              while_ok names (write_one D registry soak now)
              standing D registry soak now
                  λ stands. when stands (start_phase D registry soak now Phase.readback)
              for_each names (readback_one D registry soak now)
              final_pair_check D registry soak now
              record_all D registry soak now
              close_unit D registry soak now
              save D registry soak now)
            (λ x. On (λ t u. T t × IsDone u))
            (On (Left T))
    writes names =
        chain (Keeps-set_unit (Writing T names) (in_phase Phase.write) (λ t u h. h))
          (λ w h. left names w h.0)
          λ x.
            chain
              (weaken (Keeps-writes registry soak now T admits names) (λ w h. h) (λ x w h. h.0)
                (λ w h. h.0))
              (left names)
              λ x.
                chain {Q = λ x. On (Open T names)} {Y = On (Open T names)}
                  (record {
                    run = λ w h.
                        (Keeps-when (Open T names) (not (is_failed w.unit.status)) _ (
                            Keeps-set_unit (Open T names) (in_phase Phase.readback)
                              (λ t u h. h))).run
                          w h;
                  })
                  (left names)
                  λ x.
                    chain
                      (Keeps-for_each names (readback_one D registry soak now)
                        (λ name m. Keeps-readback_one registry soak now T names name))
                      (left names)
                      λ x.
                        chain (Keeps-final_pair_check registry soak now T names) (left names) λ x.
                          bind (record_all-Records names) λ x. bind (close_unit-Closes names) λ x.
                            weaken
                              (Keeps-save (λ t u. T t × IsDone u) registry soak now
                                λ t u k. (k.0, record { outcome = k.1.outcome; exact = k.1.exact }))
                              (λ v k. k) (λ x v k. k) (λ v k. (k.0, k.1.exact))

    pub write_unit-Completes :
        Triple
          (On (λ t u. T t × IsReady t u))
          (write_unit D registry soak now)
          (λ x. On (λ t u. T t × IsDone u))
          (On (Left T))
    unfolding write_unit
    write_unit-Completes = record {
      run = λ w h.
          elim (standing-cases {X = (w.unit.status ≡ authorized) × (w.unit.promoted ≡ true)}
            w.unit.status h.1.settled) [
              | inl a ↦
                  when_Post (is_authorized w.unit.status) _ (writes w.unit.frameworks) w
                    ((h.0, h.1.unpromoted, inl a, refl), h.1.whole a)
                    (λ e. absurd (ground (arith, e, a)))
              | inr k ↦ when_skipped _ _ (is_authorized w.unit.status) _ w k.1 (
                h.0,
                record { outcome = k.0; exact = λ p. absurd (ground (arith, p, h.1.unpromoted)) },
              )
            ];
    }
