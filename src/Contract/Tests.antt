-- ===== src/Contract/Tests.antt =====
-- A catalog with a pair, a Node framework and a Python one.
use alric_containers_image_b.Base.{◌≡◌, refl, inl, inr, none, some, List, [], ◌∷◌}
use alric_containers_image_b.Base.Decimal.{codes}
use alric_containers_image_b.Contract.{
  Name, Resolution, dev_role, publication_contract, plan, units_from,
}
use alric_containers_image_b.Contract.Units.{IsCovered, units_from-IsCovered}
use alric_containers_image_b.Contract.Pairs.{IsResolved, publication_contract-IsResolved}

abbrev go : Name
go = codes "go1-26"

abbrev go_dev : Name
go_dev = codes "go1-26-dev"

abbrev python : Name
python = codes "python3-13"

abbrev node_dev : Name
node_dev = codes "nodejs22-dev"

abbrev catalog : List Name
catalog = go ∷ go_dev ∷ node_dev ∷ python ∷ []

abbrev resolution : Resolution
resolution = record {
  publication = go_dev;
  contract = go;
  runtime = go;
  dev = some go_dev;
  role = dev_role;
  counterpart = some go;
}

resolves : publication_contract catalog go_dev catalog ≡ some resolution
unfolding publication_contract
resolves = refl

refuses_half : publication_contract catalog go (go ∷ python ∷ []) ≡ none
unfolding publication_contract
refuses_half = refl

plans : plan catalog catalog ≡ (go ∷ node_dev ∷ python ∷ [], go_dev ∷ [])
unfolding plan
plans = refl

units :
    units_from catalog catalog [] (python ∷ go_dev ∷ go ∷ [])
    ≡ some ((python ∷ []) ∷ (go ∷ go_dev ∷ []) ∷ [])
unfolding units_from
units = refl

publication_contract-IsResolved_example : IsResolved catalog catalog go_dev resolution
publication_contract-IsResolved_example =
    publication_contract-IsResolved catalog go_dev catalog resolution resolves

units_from-IsCovered_example :
    IsCovered catalog catalog ((python ∷ []) ∷ (go ∷ go_dev ∷ []) ∷ []) go
units_from-IsCovered_example =
    units_from-IsCovered catalog catalog (python ∷ go_dev ∷ go ∷ [])
      ((python ∷ []) ∷ (go ∷ go_dev ∷ []) ∷ []) units go (inr (inr (inl refl)))
