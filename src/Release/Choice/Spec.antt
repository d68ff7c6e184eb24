-- ===== src/Release/Choice/Spec.antt =====
-- `choose` and the promotable releases.
use alric_containers_image_b.Base.{
  ℕ, ◌+◌, ◌≤◌, String, ◌≡◌, refl, ◌⊎◌, inl, inr, Bool, true, false, not, ◌&&◌, ◌||◌, Option, none,
  some, List, [], ◌∷◌, Result, ok, require, arith, elem, any, In, In-elem, leb, is_some, bind-eq-ok,
  Bool-cases, if◌then◌else◌,
}
use mathlib.Core.Path.{subst}
use alric_containers_image_b.Base.Membership.{all-In, all_of_In, elem-In, any-In, In-any}
use alric_containers_image_b.Base.Maximum.{
  max_of, max_of-In, max_of-eq-none, In-le-max_of, TotalPreorder,
}
use alric_containers_image_b.Release.Data.{
  Environment, is_dev, Member, Manifest, ordering, ordinal_leb, States, watermark, Policy,
}
use alric_containers_image_b.Release.Choice.{
  ChoiceError, duration, hours, known, admits, changes, approved_at, is_soaked, is_requested,
  verify, is_eligible, eligible, choose,
}

abbrev manifest_leb : Manifest → Manifest → Bool
manifest_leb a b = ordinal_leb (ordering a) (ordering b)

manifest_order : TotalPreorder manifest_leb
manifest_order = record { total = λ a b h. ground arith; trans = λ a b c h k. ground arith }

module _ (environment : Environment) (policy : Policy) (states : States) (resume : Bool)
    (soak clock : ℕ) (requested : Option String) where
  -- A release may be written: it is the requested one if one is, wholly in scope and past its soak,
  -- none of its images is held unless automation resumes, none has seen a later release, and
  -- something would change (or the approval itself is what DEV lacks).
  pub record IsPromotable (m : Manifest) : Type 0 where
    pub wanted : is_requested requested m ≡ true
    pub in_scope : (i : Member) → In i m.images → In i.name policy.frameworks
    pub soaked : (t : ℕ) × (approved_at environment m ≡ some t) × (t + soak ≤ clock)
    pub free : (i : Member) → In i m.images → (known states i).hold ≡ true → resume ≡ true
    pub no_regress :
        (i : Member) → In i m.images → ordinal_leb (watermark (known states i)) (ordering m) ≡ true
    pub news :
        (is_dev environment ≡ true) ⊎ ((i : Member) × In i m.images × (changes m states i ≡ true))

  soaked-of :
      (o : Option ℕ) → is_soaked o soak clock ≡ true → (t : ℕ) × (o ≡ some t) × (t + soak ≤ clock)
  soaked-of none h = cc
  soaked-of (some t) h = (t, refl, ground arith)

  news-of :
      (m : Manifest)
      → (is_dev environment || any (changes m states) m.images) ≡ true
      → (is_dev environment ≡ true) ⊎ ((i : Member) × In i m.images × (changes m states i ≡ true))
  news-of m h = elim (Bool-cases (is_dev environment)) [
    | inl e ↦ inl e
    | inr e ↦ inr (any-In (changes m states) m.images (ground arith))
  ]

  of-news :
      (m : Manifest)
      → (is_dev environment ≡ true) ⊎ ((i : Member) × In i m.images × (changes m states i ≡ true))
      → (is_dev environment || any (changes m states) m.images) ≡ true
  of-news m (inl e) = ground arith
  of-news m (inr (i, listed, differs)) =
      ground (arith, In-any (changes m states) i m.images listed differs)

  module _ (consumers_pass : Manifest → Bool) (now : ℕ) where
    is_eligible-IsPromotable :
        (m : Manifest)
        → is_eligible consumers_pass now environment policy states resume soak clock requested m
          ≡ true
        → IsPromotable m
    unfolding is_eligible
    is_eligible-IsPromotable m h = record {
      wanted = ground arith;
      in_scope = λ i k.
          In-elem i.name policy.frameworks
            (all-In (λ j. elem j.name policy.frameworks) i m.images (ground arith) k);
      soaked = soaked-of (approved_at environment m) (ground arith);
      free =
          λ i k held. ground (arith, all-In (admits m resume states) i m.images (ground arith) k);
      no_regress =
          λ i k. ground (arith, all-In (admits m resume states) i m.images (ground arith) k);
      news = news-of m (ground arith);
    }

    IsPromotable-is_eligible :
        (m : Manifest)
        → IsPromotable m
        → is_eligible consumers_pass now environment policy states resume soak clock requested m
          ≡ true
    unfolding is_eligible
    IsPromotable-is_eligible m p = ground (
      arith,
      p.wanted,
      all_of_In (λ j. elem j.name policy.frameworks) m.images
          (λ i k. elem-In i.name policy.frameworks (p.in_scope i k)),
      p.soaked.1,
      p.soaked.2,
      all_of_In (admits m resume states) m.images
          (λ i k. ground (arith, p.no_regress i k, p.free i k)),
      of-news m p.news,
    )

    -- The loop's list, or the error of the first manifest that fails its verification.
    abbrev listed : List Manifest → Result ChoiceError (List Manifest)
    listed = eligible consumers_pass now environment policy states resume soak clock requested

    In-eligible :
        (ms found : List Manifest) (m : Manifest)
        → listed ms ≡ ok found
        → In m ms
        → (verify consumers_pass now environment m ≡ ok tt) × (IsPromotable m → In m found)
    unfolding eligible
    In-eligible [] found m h k = absurd k
    In-eligible (x ∷ xs) found m h k =
        let p = bind-eq-ok (verify consumers_pass now environment x) _ h in
        let q = bind-eq-ok (listed xs) _ p.2 in
        pick k p.1 q.0 (In-eligible xs q.0 m q.1) (ground arith)
      where
        test : Bool
        test =
            is_eligible consumers_pass now environment policy states resume soak clock requested x

        kept :
            (rest : List Manifest) (b : Bool)
            → (IsPromotable m → b ≡ true)
            → IsPromotable m
            → In m (if b then m ∷ rest else rest)
        kept rest true passes pr = inl refl
        kept rest false passes pr = absurd (ground (arith, passes pr))

        older : (rest : List Manifest) (b : Bool) → In m rest → In m (if b then x ∷ rest else rest)
        older rest true k = inr k
        older rest false k = k

        pick :
            (m ≡ x) ⊎ In m xs
            → verify consumers_pass now environment x ≡ ok tt
            → (rest : List Manifest)
            → (In m xs
                → (verify consumers_pass now environment m ≡ ok tt) × (IsPromotable m → In m rest))
            → found ≡ (if test then x ∷ rest else rest)
            → (verify consumers_pass now environment m ≡ ok tt) × (IsPromotable m → In m found)
        pick (inl e) verified rest ih split = (
          rw e verified,
          λ pr. rw split (
              subst
                (λ y. In m (
                  if is_eligible consumers_pass now environment policy states resume soak clock
                    requested y
                  then y ∷ rest
                  else rest))
                e (kept rest _ (IsPromotable-is_eligible m) pr)),
        )
        pick (inr k) verified rest ih split =
            let r = ih k in (r.0, λ pr. rw split (older rest test (r.1 pr)))

    eligible-In :
        (ms found : List Manifest) (m : Manifest)
        → listed ms ≡ ok found
        → In m found
        → In m ms × IsPromotable m
    unfolding eligible
    eligible-In [] found m h k = absurd (subst (λ l. In m l) {y = []} (ground arith) k)
    eligible-In (x ∷ xs) found m h k =
        let p = bind-eq-ok (verify consumers_pass now environment x) _ h in
        let q = bind-eq-ok (listed xs) _ p.2 in
        pick q.0 (eligible-In xs q.0 m q.1) (Bool-cases test) (ground arith)
      where
        test : Bool
        test =
            is_eligible consumers_pass now environment policy states resume soak clock requested x

        first :
            (rest : List Manifest)
            → (In m rest → In m xs × IsPromotable m)
            → test ≡ true
            → (m ≡ x) ⊎ In m rest
            → In m (x ∷ xs) × IsPromotable m
        first rest ih t (inl e) = (inl e, rw e (is_eligible-IsPromotable x t))
        first rest ih t (inr j) = let r = ih j in (inr r.0, r.1)

        pick :
            (rest : List Manifest)
            → (In m rest → In m xs × IsPromotable m)
            → (test ≡ true) ⊎ (test ≡ false)
            → found ≡ (if test then x ∷ rest else rest)
            → In m (x ∷ xs) × IsPromotable m
        pick rest ih (inl t) split =
            first rest ih t (subst (λ l. In m l) {x = found} {y = x ∷ rest} (ground arith) k)
        pick rest ih (inr f) split =
            let r = ih (subst (λ l. In m l) {x = found} {y = rest} (ground arith) k) in
            (inr r.0, r.1)

    module _ (manifests : List Manifest) where
      -- What a choice that returned has gone through.
      record Run (r : Option Manifest) : Type 0 where
        found : List Manifest
        allowed : policy.enabled ≡ true
        enough : (policy.soak ≤ soak) × (soak ≤ hours 8760)
        explicit : (resume ≡ true) → is_some requested ≡ true
        looped : listed manifests ≡ ok found
        chosen : max_of manifest_leb found ≡ r

      choose-Run :
          (r : Option Manifest)
          → choose consumers_pass now environment policy states resume manifests
              (duration soak)
              clock
              requested
            ≡ ok r
          → Run r
      unfolding choose
      choose-Run r h =
          let a = bind-eq-ok (require policy.enabled ChoiceError.disabled) _ h in
          let b = bind-eq-ok (require (leb policy.soak soak && leb soak (hours 8760)) _) _ a.2 in
          let c = bind-eq-ok (require (not resume || is_some requested) _) _ b.2 in
          let d = bind-eq-ok (listed manifests) _ c.2 in
          record {
            found = d.0;
            allowed = granted policy.enabled _ a.0 a.1;
            enough = within (granted (leb policy.soak soak && leb soak (hours 8760)) _ b.0 b.1);
            explicit = λ e. named e (granted (not resume || is_some requested) _ c.0 c.1);
            looped = d.1;
            chosen = ground arith;
          }
        where
          granted : (b : Bool) (e : ChoiceError) (u : Unit {0}) → require b e ≡ ok u → b ≡ true
          granted true e u g = refl
          granted false e u g = cc

          within :
              (leb policy.soak soak && leb soak (hours 8760)) ≡ true
              → (policy.soak ≤ soak) × (soak ≤ hours 8760)
          within g = ground arith

          named :
              resume ≡ true → (not resume || is_some requested) ≡ true → is_some requested ≡ true
          named e g = ground arith

      -- When choose returns a release, the policy is enabled and its soak is kept, the release is
      -- in the list and promotable, every release of the list was verified, and no promotable
      -- release of the list is ordered above it.
      pub choose-some :
          (m : Manifest)
          → choose consumers_pass now environment policy states resume manifests
              (duration soak)
              clock
              requested
            ≡ ok (some m)
          → (policy.enabled ≡ true)
            × (policy.soak ≤ soak)
            × In m manifests
            × IsPromotable m
            × ((other : Manifest)
                → In other manifests
                → verify consumers_pass now environment other ≡ ok tt)
            × ((other : Manifest)
                → In other manifests
                → IsPromotable other
                → ordinal_leb (ordering other) (ordering m) ≡ true)
      choose-some m h =
          let run = choose-Run (some m) h in
          let e =
            eligible-In manifests run.found m run.looped
              (max_of-In manifest_leb run.found m run.chosen) in
          (
            run.allowed,
            run.enough.0,
            e.0,
            e.1,
            λ other k. (In-eligible manifests run.found other run.looped k).0,
            λ other k pr.
                In-le-max_of manifest_leb manifest_order run.found m other run.chosen
                  ((In-eligible manifests run.found other run.looped k).1 pr),
          )

      -- When choose returns no release, no release of the list is promotable.
      pub choose-none :
          choose consumers_pass now environment policy states resume manifests
              (duration soak)
              clock
              requested
            ≡ ok none
          → (m : Manifest) → In m manifests
          → ¬ IsPromotable m
      choose-none h m k pr =
          let run = choose-Run none h in
          max_of-eq-none manifest_leb run.found m run.chosen
            ((In-eligible manifests run.found m run.looped k).1 pr)
