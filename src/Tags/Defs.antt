-- ===== src/Tags/Defs.antt =====
-- Names are numbers, in the order of their texts; 0 is the empty name.
use sky_personal_ledger.Base.{
  ℕ, ◌+◌, ◌-◌, Bool, true, false, not, ◌&&◌, ◌||◌, Option, none, some, List, [], ◌∷◌, ltb, leb,
  ◌==◌, if◌then◌else◌, keep_if, update_rows,
}
use sky_personal_ledger.Model.{TagText, blank, other_json, json_array, json_text, plain, Tag}

unfoldable pub contains : ℕ → List ℕ → Bool
contains n [] = false
contains n (x ∷ xs) = x == n || contains n xs

-- The names not seen before, without the empty one.
unfoldable pub unique_names : List ℕ → List ℕ → List ℕ
unique_names seen [] = []
unique_names seen (n ∷ ns) = elim (n == 0 || contains n seen) [
  | true ↦ unique_names seen ns
  | false ↦ n ∷ unique_names (n ∷ seen) ns
]

unfoldable pub insert_sorted : ℕ → List ℕ → List ℕ
insert_sorted n [] = n ∷ []
insert_sorted n (x ∷ xs) = if leb n x then n ∷ x ∷ xs else x ∷ insert_sorted n xs

-- `sort.Strings`
unfoldable pub sort_names : List ℕ → List ℕ
unfolding insert_sorted
sort_names [] = []
sort_names (n ∷ ns) = insert_sorted n (sort_names ns)

-- `uniqueSortedStrings`, and `uniqueTagNames` of the repository.
unfoldable pub unique_sorted_strings : List ℕ → List ℕ
unique_sorted_strings names = sort_names (unique_names [] names)

unfoldable pub text_items : List (Option ℕ) → List ℕ
text_items [] = []
text_items (none ∷ items) = text_items items
text_items (some n ∷ items) = n ∷ text_items items

-- `transactionTagNames`
unfoldable pub transaction_tag_names : TagText → List ℕ
transaction_tag_names blank = []
transaction_tag_names other_json = unique_sorted_strings []
transaction_tag_names (json_array items) = unique_sorted_strings (text_items items)
transaction_tag_names (json_text n) = unique_sorted_strings (n ∷ [])
transaction_tag_names (plain names) = unique_sorted_strings names

-- `transactionTagNameDiff`
unfoldable pub transaction_tag_name_diff : TagText → TagText → List ℕ × List ℕ
transaction_tag_name_diff current next =
    let old = transaction_tag_names current in
    let new = transaction_tag_names next in
    (keep_if (λ n. not (contains n new)) old, keep_if (λ n. not (contains n old)) new)

abbrev pub tag_is : ℕ → List ℕ → Tag → Bool
tag_is user names t = t.user_id == user && (contains t.name names && not t.deleted)

abbrev pub used_more : Tag → Tag
used_more t = record t { used_count = t.used_count + 1 }

-- `CASE WHEN used_count > 0 THEN used_count - 1 ELSE 0 END`
abbrev pub used_less : Tag → Tag
used_less t = record t { used_count = if ltb 0 t.used_count then t.used_count - 1 else 0 }

-- `IncrementUsedCountsByNames`
unfoldable pub increment_used_counts : List Tag → ℕ → List ℕ → List Tag
increment_used_counts tags user names = elim (unique_sorted_strings names) [
  | [] ↦ tags
  | n ∷ ns ↦ update_rows (tag_is user (n ∷ ns)) used_more tags
]

-- `DecrementUsedCountsByNames`
unfoldable pub decrement_used_counts : List Tag → ℕ → List ℕ → List Tag
decrement_used_counts tags user names = elim (unique_sorted_strings names) [
  | [] ↦ tags
  | n ∷ ns ↦ update_rows (tag_is user (n ∷ ns)) used_less tags
]

-- What `Update` does to the counts: the removed names down, then the added names up.
unfoldable pub retag : List Tag → ℕ → TagText → TagText → List Tag
retag tags user current next =
    let (removed, added) = transaction_tag_name_diff current next in
    increment_used_counts (decrement_used_counts tags user removed) user added
