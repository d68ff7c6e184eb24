-- ===== src/Release/Documents/Tests.antt =====
-- A document of one runtime and its variant, and the units of a release.
use alric_containers_image_b.Base.{
  ℕ, String, ◌≡◌, refl, ◌↔◌, true, some, List, [], ◌∷◌, ok, err, In,
}
use alric_containers_image_b.Base.Decimal.{show}
use alric_containers_image_b.Base.Order.{sorted, insert_sorted}
use alric_containers_image_b.Promotion.Reference.{is_hex, is_digest_part}
use alric_containers_image_b.Release.Lifecycle.{is_release_id}
use alric_containers_image_b.Release.Documents.{
  incomplete_pair, units_of, release_units, Item, Sbom, Source, Document, release_name,
  validate_item, validate_items, frameworks_of, validate,
}
use alric_containers_image_b.Release.Documents.Units.{release_units-IsExact, validate-IsBound}

abbrev digest_n : String
digest_n = "sha256:0000000000000000000000000000000000000000000000000000000000000001"

abbrev digest_a : String
digest_a = "sha256:000000000000000000000000000000000000000000000000000000000000000a"

abbrev digest_b : String
digest_b = "sha256:000000000000000000000000000000000000000000000000000000000000000b"

abbrev java : String
java = "java25"

abbrev sbom : String → Sbom
sbom digest = record { subject = digest; predicate_digest = digest_n }

abbrev item : Item
item = record {
  digest = digest_n;
  platforms = ("linux/amd64", digest_a) ∷ ("linux/arm64", digest_b) ∷ [];
  tag = "150326-0405-r7-a1";
  sboms = sbom digest_b ∷ sbom digest_n ∷ sbom digest_a ∷ [];
}

abbrev source : Source
source = record { repository = "alric/images"; branch = "main"; registry = "1.dkr" }

abbrev document : Document
document = record {
  schema_version = some 1;
  run_id = some 7;
  attempt = some 1;
  release_id = "r7-a1";
  repository = "alric/images";
  branch = "main";
  source_registry = "1.dkr";
  source_sha = "0123456789abcdef0123456789abcdef01234567";
  units = ("java25" ∷ "java25-dev" ∷ []) ∷ ("python3-14" ∷ []) ∷ [];
  images = ("python3-14", item) ∷ ("java25-dev", item) ∷ ("java25", item) ∷ [];
}

validates : validate source document ≡ ok tt
unfolding validate frameworks_of sorted insert_sorted release_units units_of validate_items
    validate_item is_digest_part is_hex show
validates = refl

-- A runtime without its variant.
refuses : release_units ("java25" ∷ "python3-14" ∷ []) ≡ err incomplete_pair
unfolding release_units units_of
refuses = refl

resolves :
    release_units ("python3-14" ∷ "java25-dev" ∷ "java25" ∷ [])
    ≡ ok (("java25" ∷ "java25-dev" ∷ []) ∷ ("python3-14" ∷ []) ∷ [])
unfolding release_units units_of
resolves = refl

release_units-IsExact_example : In java ("python3-14" ∷ "java25-dev" ∷ "java25" ∷ []) ↔ (
    (unit : List String) × In unit (("java25" ∷ "java25-dev" ∷ []) ∷ ("python3-14" ∷ []) ∷ [])
    × In java unit)
release_units-IsExact_example =
    release_units-IsExact ("python3-14" ∷ "java25-dev" ∷ "java25" ∷ [])
      (("java25" ∷ "java25-dev" ∷ []) ∷ ("python3-14" ∷ []) ∷ []) resolves java

validate-IsBound_example :
    ((run : ℕ) × (attempt : ℕ) × (some 7 ≡ some run)
      × (some 1 ≡ some attempt)
      × ("r7-a1" ≡ release_name run attempt))
    × (is_release_id "r7-a1" ≡ true)
    × ((name : String)
        → In name ("python3-14" ∷ "java25-dev" ∷ "java25" ∷ [])
          ↔ ((unit : List String) × In unit document.units × In name unit))
validate-IsBound_example = validate-IsBound source document validates
