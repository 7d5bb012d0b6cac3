-- ===== src/Tests/Labels.antt =====
-- Tag names at concrete inputs.
use sky_personal_ledger.Base.{◌≡◌, refl, some, [], ◌∷◌, find_row}
use sky_personal_ledger.Model.{plain}
use sky_personal_ledger.Tags.{
  contains, unique_sorted_strings, transaction_tag_names, unique_names, sort_names, insert_sorted,
  retag,
}
use sky_personal_ledger.Tags.Counts.{tag_named, retag_row}
use sky_personal_ledger.Tests.Data.{tag_of, ledger}

sorted : unique_sorted_strings (3 ∷ 0 ∷ 2 ∷ 3 ∷ []) ≡ 2 ∷ 3 ∷ []
unfolding unique_sorted_strings unique_names sort_names insert_sorted contains
sorted = refl

tag_found : find_row (tag_named 7 5) ledger.tags ≡ some (tag_of 5 1)
unfolding find_row
tag_found = refl

-- Tag 5 is removed, and its count falls to 0.
retag_row_example :
    find_row (tag_named 7 5) (retag ledger.tags 7 (plain (5 ∷ 4 ∷ [])) (plain (6 ∷ 4 ∷ [])))
    ≡ some (tag_of 5 0)
unfolding transaction_tag_names unique_sorted_strings unique_names sort_names insert_sorted contains
retag_row_example =
    retag_row ledger.tags 7 5 (plain (5 ∷ 4 ∷ [])) (plain (6 ∷ 4 ∷ [])) (tag_of 5 1) tag_found
