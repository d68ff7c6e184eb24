-- ===== src/Release/Documents.antt =====
-- `release_units` and `validate` of release/release_manifest.py, with the catalog and the scenarios of
-- consumer_apps/model.py. A number that is none is no int, or a negative one, which fails alike.
pub mod Units
mod Tests
use Prim.Native.String.{◌++◌ as ◌<>◌}
use alric_containers_image_b.Base.{
  ℕ, String, Bool, true, false, not, ◌&&◌, ◌||◌, Option, none, some, List, [], ◌∷◌, ◌++◌, map,
  Result, ok, suc, err, require, ◌>>=◌, ◌>>◌, str_eq, elem, any, all, length, ltb, ◌==◌,
  if◌then◌else◌,
}
use alric_containers_image_b.Base.Decimal.{codes, show, is_digit}
use alric_containers_image_b.Base.Order.{str_leb, sorted}
use alric_containers_image_b.Promotion.Reference.{is_hex, is_digest_part}

pub record Scenario : Type 0 where
  pub framework : String
  pub dev_framework : Option String

abbrev pub catalog : List String
catalog =
    "dotnet10" ∷ "dotnet10-dev" ∷ "go1-25" ∷ "go1-25-dev" ∷ "go1-26" ∷ "go1-26-dev" ∷ "java21"
    ∷ "java21-dev" ∷ "java25" ∷ "java25-dev" ∷ "nodejs22" ∷ "nodejs22-dev" ∷ "nodejs24"
    ∷ "nodejs24-dev" ∷ "python3-13" ∷ "python3-14" ∷ []

abbrev pub scenarios : List Scenario
scenarios =
    paired "dotnet10" "dotnet10-dev"
    ∷ paired "go1-25" "go1-25-dev"
    ∷ paired "go1-26" "go1-26-dev"
    ∷ paired "java21" "java21-dev"
    ∷ paired "java25" "java25-dev"
    ∷ paired "nodejs22" "nodejs22-dev"
    ∷ paired "nodejs24" "nodejs24-dev"
    ∷ alone "python3-13"
    ∷ alone "python3-14"
    ∷ []
  where
    paired : String → String → Scenario
    paired name dev = record { framework = name; dev_framework = some dev }

    alone : String → Scenario
    alone name = record { framework = name; dev_framework = none }

-- `pair`
abbrev pub pair : Scenario → List String
pair s = s.framework ∷ elim s.dev_framework [ none ↦ [] | some dev ↦ dev ∷ [] ]

pub data DocumentError : Type 0 where
  bad_frameworks incomplete_pair bad_schema bad_numbers wrong_id : DocumentError
  wrong_source bad_revision wrong_units bad_digest bad_platforms : DocumentError
  bad_sboms bad_tag : DocumentError

-- `len(frameworks) == len(set(frameworks))`
abbrev pub is_distinct : List String → Bool
is_distinct [] = true
is_distinct (x ∷ xs) = not (elem x xs) && is_distinct xs

abbrev pub is_nonempty : List String → Bool
is_nonempty [] = false
is_nonempty (x ∷ xs) = true

-- A round that has a pair in part fails.
abbrev pub with_pair :
    Bool
    → Scenario
    → Result DocumentError (List (List String))
    → Result DocumentError (List (List String))
with_pair is_whole s later = do require is_whole incomplete_pair; units ← later; ok (pair s ∷ units)

-- The loop over the scenarios.
unfoldable pub units_of : List Scenario → List String → Result DocumentError (List (List String))
units_of [] frameworks = ok []
units_of (s ∷ rest) frameworks =
    let later = units_of rest frameworks in
    if any (λ x. elem x frameworks) (pair s)
    then with_pair (all (λ x. elem x frameworks) (pair s)) s later
    else later

abbrev pub is_admitted : List String → Bool
is_admitted frameworks =
    is_nonempty frameworks && is_distinct frameworks && all (λ x. elem x catalog) frameworks

unfoldable pub release_units : List String → Result DocumentError (List (List String))
unfolding units_of
release_units frameworks = do
  require (is_admitted frameworks) bad_frameworks
  units_of scenarios frameworks

pub record Sbom : Type 0 where
  pub subject : String
  pub predicate_digest : String

pub record Item : Type 0 where
  pub digest : String
  pub platforms : List (String × String)
  pub tag : String
  pub sboms : List Sbom

pub record Document : Type 0 where
  pub schema_version : Option ℕ
  pub run_id : Option ℕ
  pub attempt : Option ℕ
  pub release_id : String
  pub repository : String
  pub branch : String
  pub source_registry : String
  pub source_sha : String
  pub units : List (List String)
  pub images : List (String × Item)

-- `configuration()` with `registry('DEV')`.
pub record Source : Type 0 where
  pub repository : String
  pub branch : String
  pub registry : String

-- `DIGEST.fullmatch`
abbrev pub is_digest : String → Bool
is_digest digest = is_digest_part (b'@' ∷ codes digest)

abbrev subset : List String → List String → Bool
subset xs ys = all (λ x. elem x ys) xs

abbrev pub same_set : List String → List String → Bool
same_set xs ys = subset xs ys && subset ys xs

-- `len(set(xs))`
abbrev pub count_distinct : List String → ℕ
count_distinct [] = 0
count_distinct (x ∷ xs) = let rest = count_distinct xs in if elem x xs then rest else suc rest

abbrev same_codes : List ℕ → List ℕ → Bool
same_codes [] [] = true
same_codes (x ∷ xs) (y ∷ ys) = x == y && same_codes xs ys
same_codes _ _ = false

-- `[0-9]{6}-[0-9]{4}` and a text behind it.
abbrev pub is_stamped : List ℕ → List ℕ → Bool
is_stamped text (a ∷ b ∷ c ∷ d ∷ e ∷ f ∷ dash ∷ g ∷ h ∷ i ∷ j ∷ rest) =
    all is_digit (a ∷ b ∷ c ∷ d ∷ e ∷ f ∷ g ∷ h ∷ i ∷ j ∷ [])
    && dash == b'-'
    && same_codes text rest
is_stamped text _ = false

abbrev pub same_list : List String → List String → Bool
same_list [] [] = true
same_list (x ∷ xs) (y ∷ ys) = str_eq x y && same_list xs ys
same_list _ _ = false

abbrev pub same_lists : List (List String) → List (List String) → Bool
same_lists [] [] = true
same_lists (x ∷ xs) (y ∷ ys) = same_list x y && same_lists xs ys
same_lists _ _ = false

abbrev pub positive : Option ℕ → Result DocumentError ℕ
positive none = err bad_numbers
positive (some n) = if ltb 0 n then ok n else err bad_numbers

-- `f'r{run}-a{attempt}'`
abbrev pub release_name : ℕ → ℕ → String
release_name run attempt = "r" <> (show run <> ("-a" <> show attempt))

abbrev pub is_schema : Option ℕ → Bool
is_schema none = false
is_schema (some n) = n == 1

-- One round of the loop over the images.
unfoldable pub validate_item : ℕ → ℕ → Item → Result DocumentError (Unit {0})
unfolding is_digest_part
validate_item run attempt item =
    let digests = map (λ p. p.1) item.platforms in
    do
      require (is_digest item.digest) bad_digest
      require
          (same_set (map (λ p. p.0) item.platforms) ("linux/amd64" ∷ "linux/arm64" ∷ [])
            && all is_digest digests
            && count_distinct digests == 2)
          bad_platforms
      require
          (length item.sboms == 3
            && same_set (map (λ s. s.subject) item.sboms) (item.digest ∷ digests)
            && all (λ s. is_digest s.predicate_digest) item.sboms)
          bad_sboms
      require (is_stamped (codes ("-r" <> (show run <> ("-a" <> show attempt)))) (codes item.tag))
          bad_tag

unfoldable pub validate_items : ℕ → ℕ → List (String × Item) → Result DocumentError (Unit {0})
unfolding validate_item
validate_items run attempt [] = ok tt
validate_items run attempt ((name, item) ∷ rest) =
    let later = validate_items run attempt rest in do validate_item run attempt item; later

-- `sorted(manifest['images'])`
unfoldable pub frameworks_of : Document → List String
unfolding sorted
frameworks_of doc = sorted str_leb (map (λ e. e.0) doc.images)

unfoldable pub validate : Source → Document → Result DocumentError (Unit {0})
unfolding release_units validate_items is_hex frameworks_of
validate source doc = do
  require (is_schema doc.schema_version) bad_schema
  run ← positive doc.run_id
  attempt ← positive doc.attempt
  require (str_eq doc.release_id (release_name run attempt)) wrong_id
  require
      (str_eq doc.repository source.repository
        && str_eq doc.branch source.branch
        && str_eq doc.source_registry source.registry)
      wrong_source
  require (length (codes doc.source_sha) == 40 && all is_hex (codes doc.source_sha)) bad_revision
  units ← release_units (frameworks_of doc)
  require (same_lists doc.units units) wrong_units
  validate_items run attempt doc.images
