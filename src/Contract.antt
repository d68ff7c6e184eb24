-- ===== src/Contract.antt =====
-- `publication_contract` and `plan` of scripts/pipeline/runtime/runtime_images.py, with the units and
-- pairs that the promotion takes from them. A name is the list of its characters, `\d` is an ASCII
-- digit, the catalog is a list of names, and none is ValueError.
pub mod Pairs
pub mod Units
mod Tests
use alric_containers_image_b.Base.{
  ℕ, String, Bool, true, false, not, ◌&&◌, ◌||◌, Option, none, some, List, [], ◌∷◌, ◌++◌, all, any,
  ◌==◌, if◌then◌else◌,
}
use alric_containers_image_b.Base.Decimal.{codes, is_digit}
use alric_containers_image_b.Promotion.Evidence.{same_codes}

abbrev pub Name : Type 0
Name = List ℕ

abbrev pub has : Name → List Name → Bool
has name names = any (λ n. same_codes name n) names

abbrev pub dev_suffix : Name
dev_suffix = codes "-dev"

-- What follows a prefix, if it is there.
unfoldable pub strip_prefix : Name → Name → Option Name
strip_prefix [] cs = some cs
strip_prefix (p ∷ ps) [] = none
strip_prefix (p ∷ ps) (c ∷ cs) = let rest = strip_prefix ps cs in if p == c then rest else none

abbrev pub is_digits : Name → Bool
is_digits [] = false
is_digits (c ∷ cs) = all is_digit (c ∷ cs)

abbrev pub digits_after : Option Name → Bool
digits_after none = false
digits_after (some rest) = is_digits rest

-- `name.removesuffix('-dev')`
unfoldable pub remove_dev : Name → Name
remove_dev [] = []
remove_dev (c ∷ cs) =
    let rest = remove_dev cs in if same_codes (c ∷ cs) dev_suffix then [] else c ∷ rest

-- `any(re.fullmatch(pattern, name) for pattern, _, _ in COMPILED)`
unfoldable pub is_compiled : Name → Bool
unfolding strip_prefix
is_compiled name =
    digits_after (strip_prefix (codes "go1-") name)
    || digits_after (strip_prefix (codes "java") name)
    || digits_after (strip_prefix (codes "dotnet") name)

-- The names that `runtime` accepts: `nodejs\d+(?:-dev)?` and `python3-\d+`.
unfoldable pub is_interpreted : Name → Bool
unfolding strip_prefix remove_dev
is_interpreted name =
    digits_after (strip_prefix (codes "nodejs") (remove_dev name))
    || digits_after (strip_prefix (codes "python3-") name)

pub data Kind : Type 0 where
  interpreted compiled : Kind

pub data Role : Type 0 where
  runtime_role dev_role : Role

-- The resolution; a missing `dev_framework` is none.
pub record Resolution : Type 0 where
  pub publication : Name
  pub contract : Name
  pub runtime : Name
  pub dev : Option Name
  pub role : Role
  pub counterpart : Option Name

-- `len(names) == len(set(names))`
abbrev pub is_unique : List Name → Bool
is_unique [] = true
is_unique (n ∷ names) = not (has n names) && is_unique names

abbrev pub is_nonempty : List Name → Bool
is_nonempty [] = false
is_nonempty (n ∷ names) = true

module _ (catalog : List Name) where
  -- `project`: the name of the pair's build variant.
  unfoldable pub project : Name → Option Name
  unfolding is_compiled
  project name =
      if has name catalog && is_compiled name && has (name ++ dev_suffix) catalog
      then some (name ++ dev_suffix)
      else none

  abbrev pub compiled_kind : Option Name → Option Kind
  compiled_kind none = none
  compiled_kind (some dev) = some compiled

  unfoldable pub supported : Name → Option Kind
  unfolding is_interpreted project
  supported name =
      if has name catalog && is_interpreted name
      then some interpreted
      else compiled_kind (project name)

  abbrev pub pair_of : Name → List Name → Name → Option Name → Option Resolution
  pair_of framework requested base none = none
  pair_of framework requested base (some dev) =
      if has base requested && has dev requested
      then some (record {
        publication = framework;
        contract = base;
        runtime = base;
        dev = some dev;
        role = if same_codes framework dev then dev_role else runtime_role;
        counterpart = some (if same_codes framework dev then base else dev);
      })
      else none

  abbrev pub single_of : Name → Option Kind → Option Resolution
  single_of framework none = none
  single_of framework (some kind) = some (record {
    publication = framework;
    contract = framework;
    runtime = framework;
    dev = none;
    role = runtime_role;
    counterpart = none;
  })

  abbrev pub is_request : List Name → Name → Bool
  is_request requested framework =
      is_nonempty requested
      && is_unique requested
      && all (λ n. has n catalog) requested
      && has framework requested

  -- `publication_contract`
  unfoldable pub publication_contract : Name → List Name → Option Resolution
  unfolding is_compiled supported project remove_dev
  publication_contract framework requested =
      if is_request requested framework
      then (if is_compiled (remove_dev framework)
          then pair_of framework requested (remove_dev framework) (project (remove_dev framework))
          else single_of framework (supported framework))
      else none

  -- Whether `plan` skips a framework.
  abbrev pub is_skipped : List Name → Name → Option Kind → Bool
  is_skipped requested name none = true
  is_skipped requested name (some interpreted) = false
  is_skipped requested name (some compiled) = not (has (name ++ dev_suffix) requested)

  -- `plan`: the planned frameworks, and those that are skipped.
  unfoldable pub plan_from : List Name → List Name → List Name × List Name
  unfolding supported
  plan_from requested [] = ([], [])
  plan_from requested (name ∷ names) =
      let (planned, skipped) = plan_from requested names in
      if is_skipped requested name (supported name)
      then (planned, name ∷ skipped)
      else (name ∷ planned, skipped)

  unfoldable pub plan : List Name → List Name × List Name
  unfolding plan_from
  plan requested = plan_from requested requested

  -- The unit of a resolution, and the loop of `promotion_units` after its validations.
  abbrev pub unit_of : Resolution → List Name
  unit_of r = elim r.dev [ none ↦ r.runtime ∷ [] | some dev ↦ r.runtime ∷ dev ∷ [] ]

  abbrev pub with_unit : List Name → Option (List (List Name)) → Option (List (List Name))
  with_unit unit none = none
  with_unit unit (some units) = some (unit ∷ units)

  abbrev pub seen_after : List Name → Option Resolution → List Name
  seen_after seen none = seen
  seen_after seen (some r) = if has r.runtime seen then seen else r.runtime ∷ seen

  abbrev pub next_units :
      List Name → Option Resolution → Option (List (List Name)) → Option (List (List Name))
  next_units seen none later = none
  next_units seen (some r) later = if has r.runtime seen then later else with_unit (unit_of r) later

  unfoldable pub units_from : List Name → List Name → List Name → Option (List (List Name))
  unfolding publication_contract
  units_from requested seen [] = some []
  units_from requested seen (name ∷ names) =
      next_units seen (publication_contract name requested)
        (units_from requested (seen_after seen (publication_contract name requested)) names)
