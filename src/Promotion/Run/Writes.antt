-- ===== src/Promotion/Run/Writes.antt =====
-- The writes of an authorized unit, its readback and its outcome.
use alric_containers_image_b.Base.{
  ℕ, String, ◌≡◌, refl, sym, ◌∙◌, false, ◌⊎◌, inr, Option, some, List, ◌∷◌, In, arith, true,
}
use mathlib.Core.Path.{subst}
use alric_containers_image_b.Base.Act.Triples.{Triple, bind, chain, attempted, Keeps, Keeps-demand}
use alric_containers_image_b.Promotion.Evidence.{Evidence}
use alric_containers_image_b.Promotion.Registry.{Registry}
use alric_containers_image_b.Promotion.Work.{
  failed, authorized, Phase, UnitResult, Event, trusted, scanned, wrote, log, set_entry, with_entry,
  while_ok,
}
use alric_containers_image_b.Promotion.Batch.{failed_unit, entry_in, fail}
use alric_containers_image_b.Promotion.Run.{
  mark_started, mark_completed, mark_write_failed, write_stable, try_write, write_one,
}
use alric_containers_image_b.Promotion.Run.Rules.{
  Statement, On, Keeps-call, Keeps-set_unit, Keeps-save, Keeps-while_ok,
}
use alric_containers_image_b.Promotion.Run.Evaluations.{
  Cleared, Whole, Cleared-with_entry, WithDigest, digest-Gives,
}

-- What is there when a tag is written: the digest and every framework of the unit were verified and
-- scanned.
pub record IsCovered (t : List Event) (names : List String) (name digest : String) : Type 0 where
  pub member : In name names
  pub verified : In (trusted name digest) t
  pub passed : In (scanned name digest true) t
  pub others :
      (k : String) → In k names → (d : String) × In (trusted k d) t × In (scanned k d true) t

-- A statement of the trace that such a write does not break.
abbrev pub Admits : (List Event → Type 0) → Type 0
Admits T =
    (t : List Event) (names : List String) (name digest : String)
    → IsCovered t names name digest
    → T t
    → T (wrote names name digest ∷ t)

abbrev pub IsActive : UnitResult → Type 0
IsActive u = (u.status ≡ authorized) ⊎ (u.status ≡ failed)

-- A unit at work, and the same while it writes.
abbrev pub Open : (List Event → Type 0) → List String → Statement
Open T names t u = T t × (u.promoted ≡ false) × IsActive u × (u.frameworks ≡ names)

abbrev pub Writing : (List Event → Type 0) → List String → Statement
Writing T names t u = Open T names t u × Whole Cleared t u

Writing-marked :
    (T : List Event → Type 0) (names : List String) (name : String) (f : Evidence → Evidence)
    (t : List Event) (u : UnitResult)
    → (f (entry_in u name)).digest ≡ (entry_in u name).digest
    → Writing T names t u
    → Writing T names t (with_entry name f u)
Writing-marked T names name f t u e h = (h.0, λ n m. Cleared-with_entry n name f t u e (h.1 n m))

pub Open-failed :
    (T : List Event → Type 0) (names : List String) (phase : Phase) (name : Option String)
    (t : List Event) (u : UnitResult)
    → Open T names t u
    → Open T names t (failed_unit phase name u)
Open-failed T names phase name t u h = (h.0, refl, inr refl, h.3)

some_injective : (a b : String) → some a ≡ some b → a ≡ b
some_injective a b e = ground (arith, e)

covered :
    (T : List Event → Type 0) (names : List String) (name d : String) (t : List Event)
    (u : UnitResult)
    → In name names
    → WithDigest (Writing T names) name d t u
    → IsCovered t names name d
covered T names name d t u m (h, q) = record {
  member = m;
  verified = subst (λ x. In (trusted name x) t) (same (here name m)) (here name m).2;
  passed = subst (λ x. In (scanned name x true) t) (same (here name m)) (here name m).3;
  others = λ k i. ((here k i).0, (here k i).2, (here k i).3);
}
  where
    here : (k : String) → In k names → Cleared k t u
    here k i = h.1 k (subst (In k) (sym h.0.3) i)

    same : (c : Cleared name t u) → c.0 ≡ d
    same c = some_injective c.0 d (sym c.1 ∙ q)

logged :
    (T : List Event → Type 0) (names : List String) (e : Event) (t : List Event) (u : UnitResult)
    → T (e ∷ t)
    → Writing T names t u
    → Writing T names (e ∷ t) u
logged T names e t u k h =
    ((k, h.0.1, h.0.2, h.0.3), λ n m. ((h.1 n m).0, (h.1 n m).1, inr (h.1 n m).2, inr (h.1 n m).3))

module _ {D : Registry} (registry : String) (soak now : ℕ) (T : List Event → Type 0)
    (admits : Admits T) where
  Keeps-write_stable :
      (names : List String) (name d : String)
      → In name names
      → Triple
          (On (WithDigest (Writing T names) name d))
          (write_stable D registry soak now name d)
          (λ x. On (Writing T names))
          (On (Writing T names))
  unfolding write_stable log
  Keeps-write_stable names name d m = record {
    run = λ w h.
        (chain {Q = λ x. On (WithDigest (Writing T names) name d)}
            {Y = On (WithDigest (Writing T names) name d)} (Keeps-demand _) (λ v k. k.0)
            λ x.
              bind {Q = λ x. On (Writing T names)}
                (record {
                  run = λ v k.
                      logged T names (wrote w.unit.frameworks name d) v.side.trace v.unit
                        (admits v.side.trace w.unit.frameworks name d
                          (subst (λ ns. IsCovered v.side.trace ns name d) (sym h.0.0.3)
                            (covered T names name d v.side.trace v.unit m k))
                          k.0.0.0)
                        k.0;
                })
                λ x. Keeps-call (Writing T names) (λ v. D.create_tag v name d)).run
          w h;
  }

  Keeps-write_one :
      (names : List String) (name : String)
      → In name names
      → Keeps (On (Writing T names)) (write_one D registry soak now name)
  unfolding write_one try_write set_entry fail
  Keeps-write_one names name m =
      bind
        (Keeps-set_unit (Writing T names) (with_entry name mark_started)
          (λ t u h. Writing-marked T names name mark_started t u refl h))
        λ x. bind (Keeps-save (Writing T names) registry soak now (λ t u h. h)) λ x.
          bind
            (attempted
              (digest-Gives registry soak now (Writing T names) name _ (λ w h. h)
                λ d. bind (Keeps-write_stable names name d m) λ x.
                  bind
                    (Keeps-set_unit (Writing T names) (with_entry name mark_completed)
                      (λ t u h. Writing-marked T names name mark_completed t u refl h))
                    λ x. record { run = λ w h. h })
              (bind
                (Keeps-set_unit (Writing T names) (with_entry name mark_write_failed)
                  (λ t u h. Writing-marked T names name mark_write_failed t u refl h))
                λ x.
                  bind
                    (Keeps-set_unit (Writing T names) _
                      (λ t u h. (Open-failed T names Phase.write (some name) t u h.0, h.1)))
                    λ x. record { run = λ w h. h })
              (λ w h. h))
            λ more.
              bind (Keeps-save (Writing T names) registry soak now (λ t u h. h))
                λ x. record { run = λ w h. h }

  pub Keeps-writes :
      (names : List String)
      → Keeps (On (Writing T names)) (while_ok names (write_one D registry soak now))
  Keeps-writes names = Keeps-while_ok names _ (Keeps-write_one names)
