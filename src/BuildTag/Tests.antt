-- ===== src/BuildTag/Tests.antt =====
-- Build tags as the registry shows them.
use alric_containers_image_b.Base.{◌≡◌, refl, true, false, none, some, [], ◌∷◌, arith}
use alric_containers_image_b.Base.Decimal.{codes, show}
use alric_containers_image_b.BuildTag.{
  Stamp, is_build_tag, build_tag_order, run_identity, full_year, is_date,
}
use alric_containers_image_b.BuildTag.RoundTrip.{tag_text, tag_text-fields}

abbrev noon : Stamp
noon = record { day = 29; month = 2; year = 24; hour = 12; minute = 5 }

old_tag : is_build_tag (codes "290224-1205") ≡ true
unfolding is_build_tag
old_tag = refl

no_such_day : is_build_tag (codes "290223-1205-r7-a1") ≡ false
unfolding is_build_tag
no_such_day = refl

leading_zero : is_build_tag (codes "290224-1205-r07-a1") ≡ false
unfolding is_build_tag
leading_zero = refl

identity_of_newline : run_identity (codes "290224-1205-r7-a1\n") ≡ none
unfolding run_identity
identity_of_newline = refl

order_of_old : build_tag_order (codes "290224-1205") ≡ 2024 ∷ 2 ∷ 29 ∷ 12 ∷ 5 ∷ 0 ∷ 0 ∷ []
unfolding build_tag_order
order_of_old = refl

tag_text-fields_example :
    (is_build_tag (tag_text noon 70 1) ≡ true)
    × (build_tag_order (tag_text noon 70 1) ≡ full_year 24 ∷ 2 ∷ 29 ∷ 12 ∷ 5 ∷ 70 ∷ 1 ∷ [])
    × (run_identity (tag_text noon 70 1) ≡ some (codes (show 70), codes (show 1)))
tag_text-fields_example =
    tag_text-fields noon 70 1 (omega arith) (omega arith) (omega arith) (unfold is_date in refl)
