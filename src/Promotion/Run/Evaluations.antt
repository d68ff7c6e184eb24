-- ===== src/Promotion/Run/Evaluations.antt =====
-- The trust and scan evaluations, and the units that they authorize.
use alric_containers_image_b.Base.{
  ℕ, String, ◌≡◌, refl, ◌∙◌, false, inl, inr, Option, none, some, List, ◌∷◌, In, str_eq, eq_iff,
  arith, Bool-cases, Bool, true,
}
use alric_containers_image_b.Base.Act.{Act, ◌>>=◌}
use alric_containers_image_b.Base.Act.Triples.{Post, Triple, weaken, bind, chain, demanded}
use alric_containers_image_b.Promotion.Evidence.{Evidence}
use alric_containers_image_b.Promotion.Registry.{Registry}
use alric_containers_image_b.Promotion.Work.{
  pending, authorized, UnitResult, Event, trusted, scanned, Work, is_pending, set_entry, with_entry,
  given, entry_of,
}
use alric_containers_image_b.Promotion.Batch.{
  mark_trusted, mark_scanned, entry_in, trust_one, scan_one,
}
use alric_containers_image_b.Promotion.Run.Rules.{Statement, On, Keeps-call, Keeps-set_unit}
use alric_containers_image_b.Promotion.Run.Quiet.{Idle}

-- The digest of a framework was verified, and scanned.
abbrev pub Trusted : String → Statement
Trusted name t u = (d : String) × ((entry_in u name).digest ≡ some d) × In (trusted name d) t

abbrev pub Cleared : String → Statement
Cleared name t u =
    (d : String) × ((entry_in u name).digest ≡ some d)
    × In (trusted name d) t
    × In (scanned name d true) t

-- Every framework of a unit.
abbrev pub Whole : (String → Statement) → Statement
Whole F t u = (name : String) → In name u.frameworks → F name t u

-- A pending unit is trusted as a whole.
pub record IsTrusted (t : List Event) (u : UnitResult) : Type 0 where
  pub idle : Idle u
  pub whole : u.status ≡ pending → Whole Trusted t u

-- No unit is pending, and an authorized one is cleared as a whole.
pub record IsReady (t : List Event) (u : UnitResult) : Type 0 where
  pub settled : is_pending u.status ≡ false
  pub unpromoted : u.promoted ≡ false
  pub whole : u.status ≡ authorized → Whole Cleared t u

digest-with_entry :
    (name other : String) (f : Evidence → Evidence) (u : UnitResult)
    → (f (entry_in u name)).digest ≡ (entry_in u name).digest
    → (entry_in (with_entry name f u) other).digest ≡ (entry_in u other).digest
digest-with_entry name other f u h = elim (Bool-cases (str_eq other name)) [
  | inl e ↦ ground (arith, e, h, eq_iff other name)
  | inr e ↦ ground (arith, e)
]

pub Trusted-with_entry :
    (n name : String) (f : Evidence → Evidence) (t : List Event) (u : UnitResult)
    → (f (entry_in u name)).digest ≡ (entry_in u name).digest
    → Trusted n t u
    → Trusted n t (with_entry name f u)
Trusted-with_entry n name f t u h k = (k.0, digest-with_entry name n f u h ∙ k.1, k.2)

pub Cleared-with_entry :
    (n name : String) (f : Evidence → Evidence) (t : List Event) (u : UnitResult)
    → (f (entry_in u name)).digest ≡ (entry_in u name).digest
    → Cleared n t u
    → Cleared n t (with_entry name f u)
Cleared-with_entry n name f t u h k = (k.0, digest-with_entry name n f u h ∙ k.1, k.2, k.3)

-- A statement of the trace that an evaluation that passed does not break.
pub record Evaluates (T : List Event → Type 0) : Type 0 where
  pub trust : (t : List Event) (name digest : String) → T t → T (trusted name digest ∷ t)
  pub scan :
      (t : List Event) (name digest : String) (passes : Bool)
      → T t
      → T (scanned name digest passes ∷ t)

-- A framework with a digest, under a statement.
abbrev pub WithDigest : Statement → String → String → Statement
WithDigest S name d t u = S t u × ((entry_in u name).digest ≡ some d)

module _ {D : Registry} (registry : String) (soak now : ℕ) where
  -- The digest of the evidence, which has to be there.
  pub digest-Gives :
      {A : Type 0} (S : Statement) (name : String) (next : String → Act (Work D) A)
      {Q : A → Work D → Type 0} {X : Work D → Type 0}
      → ((w : Work D) → On S w → X w)
      → ((d : String) → Triple (On (WithDigest S name d)) (next d) Q X)
      → Triple (On S) (entry_of name >>= λ entry. given entry.digest >>= next) Q X
  unfolding ◌>>=◌
  digest-Gives {A} S name next {Q} {X} keep works = record {
    run = λ w h. go w h (entry_in w.unit name).digest refl;
  }
    where
      go :
          (w : Work D)
          → On S w
          → (o : Option String) → (entry_in w.unit name).digest ≡ o
          → Post Q X ((given o >>= next) w).0 ((given o >>= next) w).1
      go w h none q = keep w h
      go w h (some d) q = (works d).run w (h, q)

  module _ (T : List Event → Type 0) (e : Evaluates T) where
    -- An evaluation of trust that returns adds its fact to what held, and to what it kept.
    pub trust_one-Trusts :
        (S : Statement) (name : String)
        → ((t : List Event) (u : UnitResult) (d : String) → S t u → S (trusted name d ∷ t) u)
        → ((t : List Event) (u : UnitResult) → S t u → S t (with_entry name mark_trusted u))
        → Triple
            (On S)
            (trust_one D registry soak now name)
            (λ x w. On S w × On (Trusted name) w)
            (On S)
    unfolding trust_one set_entry
    trust_one-Trusts S name logs sets =
        digest-Gives S name _ (λ w h. h)
          λ d.
            chain (Keeps-call (WithDigest S name d) (λ w. D.verify_promotion w name d)) (λ w h. h.0)
              λ x.
                bind {Q = λ x. On (λ t u. S t u × Trusted name t u)}
                  (record { run = λ w h. (logs w.side.trace w.unit d h.0, (d, h.1, inl refl)) })
                  λ x.
                    weaken
                      (Keeps-set_unit (λ t u. S t u × Trusted name t u)
                        (with_entry name mark_trusted)
                        λ t u h.
                          (sets t u h.0, Trusted-with_entry name name mark_trusted t u refl h.1))
                      (λ w h. h) (λ x w h. h) (λ w h. h.0)

    -- A scan that returns does so too, of a framework that was trusted.
    pub scan_one-Clears :
        (S : Statement) (name : String)
        → ((t : List Event) (u : UnitResult) → S t u → Trusted name t u)
        → ((t : List Event) (u : UnitResult) (d : String) (passes : Bool)
            → S t u
            → S (scanned name d passes ∷ t) u)
        → ((t : List Event) (u : UnitResult) → S t u → S t (with_entry name mark_scanned u))
        → Triple
            (On S)
            (scan_one D registry soak now name)
            (λ x w. On S w × On (Cleared name) w)
            (On S)
    unfolding scan_one set_entry
    scan_one-Clears S name trust logs sets =
        digest-Gives S name _ (λ w h. h)
          λ d.
            chain (Keeps-call (WithDigest S name d) (λ w. D.scan_passes w name d)) (λ w h. h.0)
              λ passes.
                bind {Q = λ x. On (λ t u. S t u × (passes ≡ true → Cleared name t u))}
                  (record {
                    run = λ w h. (
                      logs w.side.trace w.unit d passes h.0,
                      cleared name d passes w.side.trace w.unit h.1 (trust w.side.trace w.unit h.0),
                    );
                  })
                  λ x. bind (demanded passes (λ w h. h.0)) λ x.
                    weaken
                      (Keeps-set_unit (λ t u. S t u × Cleared name t u)
                        (with_entry name mark_scanned)
                        λ t u h.
                          (sets t u h.0, Cleared-with_entry name name mark_scanned t u refl h.1))
                      (λ w h. (h.1.0, h.1.1 h.0)) (λ x w h. h) (λ w h. h.0)
      where
        cleared :
            (name d : String) (passes : Bool) (t : List Event) (u : UnitResult)
            → (entry_in u name).digest ≡ some d
            → Trusted name t u
            → passes ≡ true
            → Cleared name (scanned name d passes ∷ t) u
        cleared name d passes t u q k e = (k.0, k.1, inr k.2, inl (ground (arith, q, k.1, e)))
