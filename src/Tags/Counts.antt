-- ===== src/Tags/Counts.antt =====
-- The use counts across an update: what `transactionTagNameDiff` leaves out is counted down, what
-- it adds is counted up, and every other tag keeps its count.
use sky_personal_ledger.Base.{
  ℕ, ◌+◌, ◌-◌, ◌≡◌, refl, sym, ap, ◌∙◌, inl, inr, Bool, true, false, not, ◌&&◌, some, List, [], ◌∷◌,
  arith, ◌==◌, if◌then◌else◌, ==_iff, Bool-cases, keep_if, find_row, update_rows,
  find_row-update_rows, find_row_holds,
}
use sky_personal_ledger.Model.{TagText, blank, other_json, json_array, json_text, plain, Tag}
use sky_personal_ledger.Tags.Defs.{
  contains, text_items, unique_sorted_strings, transaction_tag_names, transaction_tag_name_diff,
  tag_is, used_more, used_less, increment_used_counts, decrement_used_counts, retag,
}
use sky_personal_ledger.Tags.Names.{contains-unique_sorted_strings}

-- No transaction has the empty name as a tag.
names_not_empty : (t : TagText) → contains 0 (transaction_tag_names t) ≡ false
unfolding transaction_tag_names contains
names_not_empty blank = refl
names_not_empty other_json = contains-unique_sorted_strings 0 []
names_not_empty (json_array items) =
    ground (arith, contains-unique_sorted_strings 0 (text_items items))
names_not_empty (json_text n) = ground (arith, contains-unique_sorted_strings 0 (n ∷ []))
names_not_empty (plain names) = ground (arith, contains-unique_sorted_strings 0 names)

contains-keep_if :
    (n : ℕ) (p : ℕ → Bool) (xs : List ℕ) → contains n (keep_if p xs) ≡ (contains n xs && p n)
unfolding contains
contains-keep_if n p [] = refl
contains-keep_if n p (x ∷ xs) = elim (Bool-cases (x == n)) [
  | inl e ↦
      let same : p x ≡ p n = ap p ((==_iff x n).0 e) in
      ground (arith, contains-keep_if n p xs, same)
  | inr e ↦ ground (arith, contains-keep_if n p xs)
]

module _ (user : ℕ) (f : Tag → Tag) where
  update_no_names : (tags : List Tag) → update_rows (tag_is user []) f tags ≡ tags
  unfolding update_rows contains
  update_no_names [] = refl
  update_no_names (t ∷ tags) = ground (arith, update_no_names tags)

  update_names :
      (names : List ℕ) (tags : List Tag)
      → elim names [ [] ↦ tags | n ∷ ns ↦ update_rows (tag_is user (n ∷ ns)) f tags ]
        ≡ update_rows (tag_is user names) f tags
  update_names [] tags = sym (update_no_names tags)
  update_names (n ∷ ns) tags = refl

-- The row of a user's tag.
abbrev pub tag_named : ℕ → ℕ → Tag → Bool
tag_named user n t = t.user_id == user && (t.name == n && not t.deleted)

-- The tag is among the names of both tests.
tag_is-named :
    (user n : ℕ) (names : List ℕ) (t : Tag)
    → tag_named user n t ≡ true
    → tag_is user (unique_sorted_strings names) t ≡ (contains n names && not (n == 0))
tag_is-named user n names t h =
    let same : contains t.name (unique_sorted_strings names)
        ≡ contains n (unique_sorted_strings names) =
      ap (λ (m : ℕ). contains m (unique_sorted_strings names)) (ground arith) in
    ground (arith, same, contains-unique_sorted_strings n names)

increment_row :
    (tags : List Tag) (user n : ℕ) (names : List ℕ) (t : Tag)
    → find_row (tag_named user n) tags ≡ some t
    → find_row (tag_named user n) (increment_used_counts tags user names)
      ≡ some (if contains n names && not (n == 0) then used_more t else t)
unfolding increment_used_counts
increment_row tags user n names t f =
    rw (update_names user used_more (unique_sorted_strings names) tags) (
      find_row-update_rows (tag_is user (unique_sorted_strings names)) used_more (tag_named user n)
        tags (λ x. refl)
      ∙ rw f (rw (tag_is-named user n names t (find_row_holds (tag_named user n) tags t f))))

decrement_row :
    (tags : List Tag) (user n : ℕ) (names : List ℕ) (t : Tag)
    → find_row (tag_named user n) tags ≡ some t
    → find_row (tag_named user n) (decrement_used_counts tags user names)
      ≡ some (if contains n names && not (n == 0) then used_less t else t)
unfolding decrement_used_counts
decrement_row tags user n names t f =
    rw (update_names user used_less (unique_sorted_strings names) tags) (
      find_row-update_rows (tag_is user (unique_sorted_strings names)) used_less (tag_named user n)
        tags (λ x. refl)
      ∙ rw f (rw (tag_is-named user n names t (find_row_holds (tag_named user n) tags t f))))

-- The count of a tag after its transaction's tags change.
abbrev pub retagged : Bool → Bool → ℕ → ℕ
retagged true true c = c
retagged true false c = c - 1
retagged false true c = c + 1
retagged false false c = c

row_after :
    (a b z : Bool) (t : Tag)
    → (z ≡ true → (a ≡ false) × (b ≡ false))
    → (if (b && not a) && not z
        then used_more (if (a && not b) && not z then used_less t else t)
        else (if (a && not b) && not z then used_less t else t))
      ≡ record t { used_count = retagged a b t.used_count }
row_after true true true t h = cc ((h refl).0)
row_after true false true t h = cc ((h refl).0)
row_after false true true t h = cc ((h refl).1)
row_after false false true t h = refl
row_after true true false t h = refl
row_after true false false t h = ground arith
row_after false true false t h = refl
row_after false false false t h = refl

-- A tag that the update removes is counted down, one that it adds is counted up, and one that both
-- or neither of the two texts name keeps its count; nothing else of the row changes.
pub retag_row :
    (tags : List Tag) (user n : ℕ) (current next : TagText) (t : Tag)
    → find_row (tag_named user n) tags ≡ some t
    → find_row (tag_named user n) (retag tags user current next)
      ≡ some (record t {
        used_count =
            retagged
              (contains n (transaction_tag_names current))
              (contains n (transaction_tag_names next))
              t.used_count;
      })
unfolding retag transaction_tag_name_diff
retag_row tags user n current next t f =
    let old = transaction_tag_names current in
    let new = transaction_tag_names next in
    let removed = keep_if (λ m. not (contains m new)) old in
    let added = keep_if (λ m. not (contains m old)) new in
    increment_row (decrement_used_counts tags user removed) user n added _
      (decrement_row tags user n removed t f)
    ∙ rw
        (
          contains-keep_if n (λ m. not (contains m new)) old,
          contains-keep_if n (λ m. not (contains m old)) new,
        )
        (ap some (
          row_after (contains n old) (contains n new) (n == 0) t (λ z.
            let e : n ≡ 0 = (==_iff n 0).0 z in
            (
              ap (λ (m : ℕ). contains m old) e ∙ names_not_empty current,
              ap (λ (m : ℕ). contains m new) e ∙ names_not_empty next,
            ))))
