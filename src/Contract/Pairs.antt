-- ===== src/Contract/Pairs.antt =====
-- The pair or the single framework that a publication is resolved to.
use alric_containers_image_b.Base.{
  ℕ, ◌≡◌, refl, sym, ap, ◌∙◌, ◌⊎◌, inl, inr, Bool, true, false, ◌&&◌, ◌||◌, Option, none, some,
  List, [], ◌∷◌, ◌++◌, In, all, arith, ◌==◌, if◌then◌else◌,
}
use mathlib.Core.Path.{subst}
use alric_containers_image_b.Promotion.Evidence.{same_codes}
use alric_containers_image_b.Promotion.Evidence.Pairs.{same_codes-eq}
use alric_containers_image_b.Base.Decimal.{codes, is_digit}
use alric_containers_image_b.Contract.{
  is_nonempty, is_unique, strip_prefix, digits_after, Name, has, dev_suffix, remove_dev,
  is_compiled, is_interpreted, Kind, interpreted, runtime_role, dev_role, Resolution, project,
  compiled_kind, supported, pair_of, single_of, is_request, publication_contract,
}

pub has-In : (name : Name) (names : List Name) → has name names ≡ true → In name names
has-In name [] h = absurd (ground (arith, h))
has-In name (n ∷ names) h = ground (arith, h, same_codes-eq name n, has-In name names)

remove_dev-cases : (name : Name) → (remove_dev name ≡ name) ⊎ (name ≡ remove_dev name ++ dev_suffix)
unfolding remove_dev
remove_dev-cases [] = inl refl
remove_dev-cases (c ∷ cs) = go (same_codes (c ∷ cs) dev_suffix) refl (remove_dev-cases cs)
  where
    go :
        (b : Bool)
        → same_codes (c ∷ cs) dev_suffix ≡ b
        → (remove_dev cs ≡ cs) ⊎ (cs ≡ remove_dev cs ++ dev_suffix)
        → ((if b then [] else c ∷ remove_dev cs) ≡ c ∷ cs)
          ⊎ (c ∷ cs ≡ (if b then [] else c ∷ remove_dev cs) ++ dev_suffix)
    go true e k = inr (same_codes-eq (c ∷ cs) dev_suffix e)
    go false e (inl k) = inl (ap (λ x. c ∷ x) k)
    go false e (inr k) = inr (ap (λ x. c ∷ x) k)

-- The resolution names the framework alone, interpreted, or the pair that it belongs to, whole in the
-- request and in the catalog.
pub record IsPair (catalog requested : List Name) (framework dev : Name) (r : Resolution)
    : Type 0 where
  pub compiled : is_compiled r.runtime ≡ true
  pub variant : dev ≡ r.runtime ++ dev_suffix
  pub runtime_asked : In r.runtime requested
  pub dev_asked : In dev requested
  pub runtime_known : In r.runtime catalog
  pub dev_known : In dev catalog
  pub target :
      ((framework ≡ r.runtime) × (r.role ≡ runtime_role) × (r.counterpart ≡ some dev))
      ⊎ ((framework ≡ dev) × (r.role ≡ dev_role) × (r.counterpart ≡ some r.runtime))

pub record IsSingle (catalog requested : List Name) (framework : Name) (r : Resolution)
    : Type 0 where
  pub interpreted : is_interpreted framework ≡ true
  pub alone : r.runtime ≡ framework
  pub asked : In framework requested
  pub known : In framework catalog

abbrev pub IsResolved : List Name → List Name → Name → Resolution → Type 0
IsResolved catalog requested framework r =
    ((r.dev ≡ none) × IsSingle catalog requested framework r)
    ⊎ ((dev : Name) × (r.dev ≡ some dev) × IsPair catalog requested framework dev r)

if_some :
    {A : Type 0} (c : Bool) (o : Option A) (x : A)
    → (if c then o else none) ≡ some x
    → (c ≡ true) × (o ≡ some x)
if_some true o x h = (refl, h)
if_some false o x h = absurd (ground (arith, h))

and_first : (a b : Bool) → a && b ≡ true → a ≡ true
and_first true b h = refl
and_first false b h = h

and_second : (a b : Bool) → a && b ≡ true → b ≡ true
and_second true b h = h
and_second false b h = absurd (ground (arith, h))

and_last : (a b c d : Bool) → a && b && c && d ≡ true → d ≡ true
and_last true true true d h = h
and_last false b c d h = absurd (ground (arith, h))
and_last true false c d h = absurd (ground (arith, h))
and_last true true false d h = absurd (ground (arith, h))

or_cases : (a b : Bool) → a || b ≡ true → (a ≡ true) ⊎ (b ≡ true)
or_cases true b h = inl refl
or_cases false b h = inr h

pub some_eq : {A : Type 0} (x y : A) → some x ≡ some y → x ≡ y
some_eq x y h = ap (λ o. elim o [ none ↦ x | some z ↦ z ]) h

same_codes_refl : (name : Name) → same_codes name name ≡ true
same_codes_refl [] = refl
same_codes_refl (c ∷ cs) = ground (arith, same_codes_refl cs)

-- A compiled name ends in a digit, so it is not a name with the suffix.
last : Name → Option ℕ
last [] = none
last (c ∷ []) = some c
last (c ∷ d ∷ cs) = last (d ∷ cs)

last-append : (before : Name) (c : ℕ) (cs : Name) → last (before ++ c ∷ cs) ≡ last (c ∷ cs)
unfolding last
last-append [] c cs = refl
last-append (x ∷ []) c cs = refl
last-append (x ∷ y ∷ before) c cs = last-append (y ∷ before) c cs

last-digit :
    (c : ℕ) (cs : Name)
    → all is_digit (c ∷ cs) ≡ true
    → (d : ℕ) × (last (c ∷ cs) ≡ some d) × (is_digit d ≡ true)
unfolding last
last-digit c [] h = (c, refl, ground (arith, h))
last-digit c (d ∷ cs) h = last-digit d cs (ground (arith, h))

strip_prefix-some :
    (prefix name rest : Name) → strip_prefix prefix name ≡ some rest → name ≡ prefix ++ rest
unfolding strip_prefix
strip_prefix-some [] name rest h = some_eq name rest h
strip_prefix-some (p ∷ prefix) [] rest h = absurd (ground (arith, h))
strip_prefix-some (p ∷ prefix) (c ∷ cs) rest h =
    let k = if_some (p == c) (strip_prefix prefix cs) rest h in
    ground (arith, k.0, strip_prefix-some prefix cs rest k.1)

digits_after-dev :
    (prefix name : Name) → digits_after (strip_prefix prefix (name ++ dev_suffix)) ≡ true → ⊥
unfolding last
digits_after-dev prefix name h = go (strip_prefix prefix (name ++ dev_suffix)) refl h
  where
    go :
        (o : Option Name) → strip_prefix prefix (name ++ dev_suffix) ≡ o → digits_after o ≡ true → ⊥
    go none e k = absurd (ground (arith, k))
    go (some []) e k = absurd (ground (arith, k))
    go (some (c ∷ cs)) e k =
        let d = last-digit c cs k in
        let same =
          sym (last-append name 45 (100 ∷ 101 ∷ 118 ∷ []))
          ∙ ap last (strip_prefix-some prefix (name ++ dev_suffix) (c ∷ cs) e)
          ∙ last-append prefix c cs
          ∙ d.1 in
        ground (arith, same, d.2)

is_compiled-dev : (name : Name) → is_compiled (name ++ dev_suffix) ≡ true → ⊥
unfolding is_compiled
is_compiled-dev name h = elim (or_cases _ _ h) [
  | inl k ↦ elim (or_cases _ _ k) [
    | inl j ↦ digits_after-dev (codes "go1-") name j
    | inr j ↦ digits_after-dev (codes "java") name j
  ]
  | inr k ↦ digits_after-dev (codes "dotnet") name k
]

module _ (catalog : List Name) where
  project-some :
      (name dev : Name)
      → project catalog name ≡ some dev
      → (is_compiled name ≡ true) × (dev ≡ name ++ dev_suffix) × In name catalog × In dev catalog
  unfolding project
  project-some name dev h =
      let k =
        if_some (has name catalog && is_compiled name && has (name ++ dev_suffix) catalog)
          (some (name ++ dev_suffix)) dev h in
      let e = some_eq (name ++ dev_suffix) dev k.1 in
      (
        ground (arith, k.0),
        sym e,
        has-In name catalog (ground (arith, k.0)),
        subst (λ x. In x catalog) e (has-In (name ++ dev_suffix) catalog (ground (arith, k.0))),
      )

  pair-IsPair :
      (framework : Name) (requested : List Name) (o : Option Name) (r : Resolution)
      → is_request catalog requested framework ≡ true
      → project catalog (remove_dev framework) ≡ o
      → pair_of catalog framework requested (remove_dev framework) o ≡ some r
      → IsResolved catalog requested framework r
  pair-IsPair framework requested none r q p h = absurd (ground (arith, h))
  pair-IsPair framework requested (some dev) r q p h =
      let k = if_some (has (remove_dev framework) requested && has dev requested) _ r h in
      let j = project-some (remove_dev framework) dev p in
      subst (IsResolved catalog requested framework) (some_eq _ r k.1) (
        inr (
          dev,
          refl,
          record {
            compiled = j.0;
            variant = j.1;
            runtime_asked = has-In (remove_dev framework) requested (ground (arith, k.0));
            dev_asked = has-In dev requested (ground (arith, k.0));
            runtime_known = j.2;
            dev_known = j.3;
            target = go (same_codes framework dev) refl;
          },
        ))
    where
      base : Name
      base = remove_dev framework

      go :
          (b : Bool)
          → same_codes framework dev ≡ b
          → ((framework ≡ base)
              × ((if b then dev_role else runtime_role) ≡ runtime_role)
              × (some (if b then base else dev) ≡ some dev))
            ⊎ ((framework ≡ dev)
                × ((if b then dev_role else runtime_role) ≡ dev_role)
                × (some (if b then base else dev) ≡ some base))
      go true e = inr (same_codes-eq framework dev e, refl, refl)
      go false e = elim (remove_dev-cases framework) [
        | inl k ↦ inl (sym k, refl, refl)
        | inr k ↦
            (let same = k ∙ sym (project-some (remove_dev framework) dev p).1 in
              absurd (
                ground (
                  arith,
                  e,
                  subst (λ x. same_codes framework x ≡ true) same (same_codes_refl framework),
                )))
      ]

  single-IsSingle :
      (framework : Name) (requested : List Name) (o : Option Kind) (r : Resolution)
      → is_request catalog requested framework ≡ true
      → is_compiled (remove_dev framework) ≡ false
      → supported catalog framework ≡ o
      → single_of catalog framework o ≡ some r
      → IsResolved catalog requested framework r
  unfolding supported
  single-IsSingle framework requested none r q c p h = absurd (ground (arith, h))
  single-IsSingle framework requested (some kind) r q c p h =
      subst (IsResolved catalog requested framework) (some_eq _ r h)
        (inl (refl, go (has framework catalog && is_interpreted framework) refl p))
    where
      go :
          (b : Bool)
          → has framework catalog && is_interpreted framework ≡ b
          → (if b then some interpreted else compiled_kind catalog (project catalog framework))
            ≡ some kind
          → IsSingle catalog requested framework (record {
            publication = framework;
            contract = framework;
            runtime = framework;
            dev = none;
            role = runtime_role;
            counterpart = none;
          })
      go true e k = record {
        interpreted = and_second (has framework catalog) (is_interpreted framework) e;
        alone = refl;
        asked = has-In framework requested (
            and_last (is_nonempty requested) (is_unique requested)
              (all (λ n. has n catalog) requested) (has framework requested) q);
        known =
            has-In framework catalog
              (and_first (has framework catalog) (is_interpreted framework) e);
      }
      go false e k = absurd (not_compiled (project catalog framework) refl k)
        where
          not_compiled :
              (o : Option Name)
              → project catalog framework ≡ o
              → compiled_kind catalog o ≡ some kind
              → ⊥
          not_compiled none f g = absurd (ground (arith, g))
          not_compiled (some dev) f g =
              let j = project-some framework dev f in
              elim (remove_dev-cases framework) [
                | inl n ↦ absurd (ground (arith, c, subst (λ x. is_compiled x ≡ true) (sym n) j.0))
                | inr n ↦
                    is_compiled-dev (remove_dev framework) (subst (λ x. is_compiled x ≡ true) n j.0)
              ]

  -- When publication_contract returns, the framework is either interpreted, in the request and the
  -- catalog, and resolved to itself without a build variant, or one of a compiled runtime and its
  -- variant, whose name is that of the runtime with the suffix, both in the request and in the
  -- catalog, with its role and with the other as the counterpart.
  pub publication_contract-IsResolved :
      (framework : Name) (requested : List Name) (r : Resolution)
      → publication_contract catalog framework requested ≡ some r
      → IsResolved catalog requested framework r
  unfolding publication_contract
  publication_contract-IsResolved framework requested r h =
      let k = if_some (is_request catalog requested framework) _ r h in
      go k.0 (is_compiled (remove_dev framework)) refl k.1
    where
      go :
          is_request catalog requested framework ≡ true
          → (b : Bool) → is_compiled (remove_dev framework) ≡ b
          → (if b
              then pair_of catalog framework requested
                  (remove_dev framework)
                  (project catalog (remove_dev framework))
              else single_of catalog framework (supported catalog framework))
            ≡ some r
          → IsResolved catalog requested framework r
      go q true e h =
          pair-IsPair framework requested (project catalog (remove_dev framework)) r q refl h
      go q false e h =
          single-IsSingle framework requested (supported catalog framework) r q e refl h
