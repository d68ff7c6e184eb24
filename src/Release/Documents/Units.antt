-- ===== src/Release/Documents/Units.antt =====
-- The units of a release, and the release that a valid document names.
use alric_containers_image_b.Base.{
  ℕ, ◌<◌, String, ◌≡◌, refl, sym, ap, ◌∙◌, ◌↔◌, ◌⊎◌, inl, inr, Bool, true, false, ◌&&◌, Option,
  none, some, List, [], ◌∷◌, ◌++◌, map, ltb, Result, ok, err, require, ◌>>◌, bind-eq-ok, In,
  In-elem, elem, any, all, str_eq, eq_iff, arith, is_some, Bool-cases, if◌then◌else◌,
}
use Prim.Native.String.{◌++◌ as ◌<>◌}
use mathlib.Core.Path.{subst}
use alric_containers_image_b.Base.Membership.{elem-In, any-In, In-any, all-In}
use alric_containers_image_b.Base.Sorting.{In-sorted}
use alric_containers_image_b.Base.Order.{str_leb}
use alric_containers_image_b.Base.Decimal.{codes, codes-append, show}
use alric_containers_image_b.BuildTag.{match_run}
use alric_containers_image_b.BuildTag.RoundTrip.{match_run-run_text}
use alric_containers_image_b.Release.Lifecycle.{is_release_id}
use alric_containers_image_b.Release.Documents.{
  Scenario, catalog, scenarios, pair, DocumentError, bad_frameworks, bad_schema, wrong_id,
  wrong_source, bad_revision, wrong_units, with_pair, units_of, is_nonempty, is_distinct,
  is_admitted, release_units, Source, Document, positive, release_name, same_list, same_lists,
  frameworks_of, validate,
}

with_pair-ok :
    (whole : Bool) (s : Scenario) (later : Result DocumentError (List (List String)))
    (units : List (List String))
    → with_pair whole s later ≡ ok units
    → (whole ≡ true) × ((rest : List (List String)) × (later ≡ ok rest) × (units ≡ pair s ∷ rest))
with_pair-ok false s later units h = absurd (ground arith)
with_pair-ok true s (err e) units h = absurd (ground arith)
with_pair-ok true s (ok rest) units h = (refl, (rest, refl, ground arith))

abbrev meets : List String → Scenario → Bool
meets frameworks s = any (λ x. elem x frameworks) (pair s)

-- A scenario that meets the frameworks gives its pair.
pair-In-units :
    (ss : List Scenario) (frameworks : List String) (units : List (List String)) (s : Scenario)
    → units_of ss frameworks ≡ ok units
    → In s ss
    → meets frameworks s ≡ true
    → In (pair s) units
unfolding units_of
pair-In-units [] frameworks units s h k m = absurd k
pair-In-units (x ∷ ss) frameworks units s h k m =
    go (meets frameworks x) refl h (λ rest e i. pair-In-units ss frameworks rest s e i m)
  where
    here : In s (x ∷ ss) → (b : Bool) → meets frameworks x ≡ b → b ≡ false → In s ss
    here (inl e) b f q = absurd (ground (arith, e, f, q, m))
    here (inr i) b f q = i

    go :
        (b : Bool)
        → meets frameworks x ≡ b
        → (if b
            then with_pair (all (λ y. elem y frameworks) (pair x)) x (units_of ss frameworks)
            else units_of ss frameworks)
          ≡ ok units
        → ((rest : List (List String))
            → units_of ss frameworks ≡ ok rest
            → In s ss
            → In (pair s) rest)
        → In (pair s) units
    go true f e ih =
        let w = with_pair-ok _ x (units_of ss frameworks) units e in
        subst (λ us. In (pair s) us) (sym w.1.2)
          (elim k [ inl q ↦ inl (ap pair q) | inr i ↦ inr (ih w.1.0 w.1.1 i) ])
    go false f e ih = ih units e (here k false f refl)

-- Each unit is the pair of a scenario, and all of it is in the release.
units_of-Whole :
    (ss : List Scenario) (frameworks : List String) (units : List (List String))
    (unit : List String)
    → units_of ss frameworks ≡ ok units
    → In unit units
    → (name : String) → In name unit
    → elem name frameworks ≡ true
unfolding units_of
units_of-Whole [] frameworks units unit h k name i =
    absurd (subst (λ us. In unit us) (empty units h) k)
  where
    empty : (us : List (List String)) → units_of [] frameworks ≡ ok us → us ≡ []
    empty us e = ground arith
units_of-Whole (x ∷ ss) frameworks units unit h k name i =
    go (meets frameworks x) h (λ rest e j. units_of-Whole ss frameworks rest unit e j name i)
  where
    go :
        (b : Bool)
        → (if b
            then with_pair (all (λ y. elem y frameworks) (pair x)) x (units_of ss frameworks)
            else units_of ss frameworks)
          ≡ ok units
        → ((rest : List (List String))
            → units_of ss frameworks ≡ ok rest
            → In unit rest
            → elem name frameworks ≡ true)
        → elem name frameworks ≡ true
    go false e ih = ih units e k
    go true e ih =
        let w = with_pair-ok _ x (units_of ss frameworks) units e in
        elim (subst (λ us. In unit us) w.1.2 k) [
          | inl q ↦ all-In (λ y. elem y frameworks) name (pair x) w.0 (subst (λ u. In name u) q i)
          | inr j ↦ ih w.1.0 w.1.1 j
        ]

in_catalog : all (λ x. any (λ s. elem x (pair s)) scenarios) catalog ≡ true
in_catalog = refl

required :
    {A E : Type 0} (error : E) {next : Result E A} {a : A} (b : Bool)
    → (require b error >> next) ≡ ok a
    → (b ≡ true) × (next ≡ ok a)
required error true h = (refl, h)
required error false h = absurd (ground arith)

admitted : (a b c : Bool) → (a && b && c) ≡ true → c ≡ true
admitted a b c h = ground arith

-- When release_units returns, the frameworks are those of its units: each one is in a unit, and
-- all that is in a unit is one of them.
pub release_units-IsExact :
    (frameworks : List String) (units : List (List String))
    → release_units frameworks ≡ ok units
    → (name : String) → In name frameworks ↔ ((unit : List String) × In unit units × In name unit)
unfolding release_units
release_units-IsExact frameworks units h name = (covered, whole)
  where
    run : (is_admitted frameworks ≡ true) × (units_of scenarios frameworks ≡ ok units)
    run = required bad_frameworks (is_admitted frameworks) h

    covered : In name frameworks → (unit : List String) × In unit units × In name unit
    covered i =
        let s =
          any-In (λ s. elem name (pair s)) scenarios
            (all-In (λ x. any (λ s. elem x (pair s)) scenarios) name catalog in_catalog
              (known i)) in
        (
          pair s.0,
          pair-In-units scenarios frameworks units s.0 run.1 s.1 (
              In-any (λ x. elem x frameworks) name (pair s.0) (In-elem name (pair s.0) s.2)
                (elem-In name frameworks i)),
          In-elem name (pair s.0) s.2,
        )
      where
        known : In name frameworks → In name catalog
        known i = In-elem name catalog (
            all-In (λ x. elem x catalog) name frameworks
              (admitted (is_nonempty frameworks) (is_distinct frameworks)
                (all (λ x. elem x catalog) frameworks) run.0)
              i)

    whole : (unit : List String) × In unit units × In name unit → In name frameworks
    whole u =
        In-elem name frameworks (units_of-Whole scenarios frameworks units u.0 run.1 u.1 name u.2)

-- The name of a release is one that `manifest_key` accepts.
release_name-Id :
    (run attempt : ℕ) → 0 < run → 0 < attempt → is_release_id (release_name run attempt) ≡ true
release_name-Id run attempt p q =
    ap (λ o. is_some o)
      (ap match_run (ap (λ cs. b'-' ∷ cs) spelled) ∙ match_run-run_text run attempt p q)
  where
    spelled :
        codes (release_name run attempt)
        ≡ b'r' ∷ (codes (show run) ++ b'-' ∷ b'a' ∷ codes (show attempt))
    spelled =
        codes-append "r" (show run <> ("-a" <> show attempt))
        ∙ ap (λ cs. b'r' ∷ cs)
            (codes-append (show run) ("-a" <> show attempt)
              ∙ ap (λ cs. codes (show run) ++ cs) (codes-append "-a" (show attempt)))

same_list-eq : (xs ys : List String) → same_list xs ys ≡ true → xs ≡ ys
same_list-eq [] [] h = refl
same_list-eq (x ∷ xs) [] h = absurd (ground arith)
same_list-eq [] (y ∷ ys) h = absurd (ground arith)
same_list-eq (x ∷ xs) (y ∷ ys) h = ground (arith, eq_iff x y, same_list-eq xs ys)

same_lists-eq : (xs ys : List (List String)) → same_lists xs ys ≡ true → xs ≡ ys
same_lists-eq [] [] h = refl
same_lists-eq (x ∷ xs) [] h = absurd (ground arith)
same_lists-eq [] (y ∷ ys) h = absurd (ground arith)
same_lists-eq (x ∷ xs) (y ∷ ys) h = ground (arith, same_list-eq x y, same_lists-eq xs ys)

positive-ok : (o : Option ℕ) (n : ℕ) → positive o ≡ ok n → (o ≡ some n) × (0 < n)
positive-ok none n h = absurd (ground arith)
positive-ok (some k) n h = go (Bool-cases (ltb 0 k))
  where
    go : (ltb 0 k ≡ true) ⊎ (ltb 0 k ≡ false) → (some k ≡ some n) × (0 < n)
    go (inl e) = ground arith
    go (inr e) = absurd (ground arith)

-- When validate returns, the run and the attempt are positive numbers and spell the identifier of
-- the release, which manifest_key accepts, and the names of the images are those of the units of
-- the document.
pub validate-IsBound :
    (source : Source) (doc : Document)
    → validate source doc ≡ ok tt
    → ((run : ℕ) × (attempt : ℕ) × (doc.run_id ≡ some run)
        × (doc.attempt ≡ some attempt)
        × (doc.release_id ≡ release_name run attempt))
      × (is_release_id doc.release_id ≡ true)
      × ((name : String)
          → In name (map (λ e. e.0) doc.images)
            ↔ ((unit : List String) × In unit doc.units × In name unit))
unfolding validate frameworks_of
validate-IsBound source doc h =
    let a = required bad_schema _ h in
    let r = bind-eq-ok (positive doc.run_id) _ a.1 in
    let t = bind-eq-ok (positive doc.attempt) _ r.2 in
    let i = required wrong_id _ t.2 in
    let s = required wrong_source _ i.1 in
    let v = required bad_revision _ s.1 in
    let u = bind-eq-ok (release_units (frameworks_of doc)) _ v.1 in
    let w = required wrong_units _ u.2 in
    let run = positive-ok doc.run_id r.0 r.1 in
    let attempt = positive-ok doc.attempt t.0 t.1 in
    let id = same_text doc.release_id (release_name r.0 t.0) i.0 in
    (
      (r.0, t.0, run.0, attempt.0, id),
      ap is_release_id id ∙ release_name-Id r.0 t.0 run.1 attempt.1,
      λ name. same_names name u.0 u.1 (same_lists-eq doc.units u.0 w.0),
    )
  where
    same_text : (a b : String) → str_eq a b ≡ true → a ≡ b
    same_text a b h = ground (arith, eq_iff a b)

    same_names :
        (name : String) (units : List (List String))
        → release_units (frameworks_of doc) ≡ ok units
        → doc.units ≡ units
        → In name (map (λ e. e.0) doc.images)
          ↔ ((unit : List String) × In unit doc.units × In name unit)
    same_names name units e q =
        let exact = release_units-IsExact (frameworks_of doc) units e name in
        let sort = In-sorted str_leb name (map (λ e. e.0) doc.images) in
        (
          λ i.
              subst (λ us. (unit : List String) × In unit us × In name unit) (sym q)
                (exact.0 (sort.1 i)),
          λ x.
              sort.0 (exact.1 (subst (λ us. (unit : List String) × In unit us × In name unit) q x)),
        )
