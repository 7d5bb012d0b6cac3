-- ===== src/Tags/Names.antt =====
-- The names are those of the input, each once, in order.
use sky_personal_ledger.Base.{
  ℕ, suc, ◌≤◌, ◌≡◌, refl, ◌∙◌, Bool, true, false, not, ◌&&◌, ◌||◌, List, [], ◌∷◌, arith, ◌==◌,
}
use sky_personal_ledger.Tags.Defs.{
  contains, unique_names, insert_sorted, sort_names, unique_sorted_strings,
}

abbrev pub Ascends : ℕ → List ℕ → Type 0
Ascends n [] = Unit
Ascends n (x ∷ xs) = (n ≤ x) × Ascends (suc x) xs

-- Weakly ascending, and without repetition: together `Ascends`.
abbrev Weakly : ℕ → List ℕ → Type 0
Weakly n [] = Unit
Weakly n (x ∷ xs) = (n ≤ x) × Weakly x xs

abbrev Nodup : List ℕ → Type 0
Nodup [] = Unit
Nodup (x ∷ xs) = (contains x xs ≡ false) × Nodup xs

contains-insert_sorted :
    (m n : ℕ) (xs : List ℕ) → contains m (insert_sorted n xs) ≡ (n == m || contains m xs)
unfolding contains insert_sorted
contains-insert_sorted m n [] = refl
contains-insert_sorted m n (x ∷ xs) = ground (arith, contains-insert_sorted m n xs)

contains-sort_names : (m : ℕ) (xs : List ℕ) → contains m (sort_names xs) ≡ contains m xs
unfolding contains sort_names
contains-sort_names m [] = refl
contains-sort_names m (x ∷ xs) =
    ground (arith, contains-insert_sorted m x (sort_names xs), contains-sort_names m xs)

insert_sorted-Weakly : (l n : ℕ) (xs : List ℕ) → l ≤ n → Weakly l xs → Weakly l (insert_sorted n xs)
unfolding insert_sorted
insert_sorted-Weakly l n [] h w = (h, tt)
insert_sorted-Weakly l n (x ∷ xs) h w = ground (arith, insert_sorted-Weakly x n xs)

sort_names-Weakly : (xs : List ℕ) → Weakly 0 (sort_names xs)
unfolding sort_names
sort_names-Weakly [] = tt
sort_names-Weakly (x ∷ xs) =
    insert_sorted-Weakly 0 x (sort_names xs) (omega arith) (sort_names-Weakly xs)

insert_sorted-Nodup :
    (n : ℕ) (xs : List ℕ) → contains n xs ≡ false → Nodup xs → Nodup (insert_sorted n xs)
unfolding insert_sorted contains
insert_sorted-Nodup n [] h d = (refl, tt)
insert_sorted-Nodup n (x ∷ xs) h d =
    ground (arith, insert_sorted-Nodup n xs, contains-insert_sorted x n xs)

sort_names-Nodup : (xs : List ℕ) → Nodup xs → Nodup (sort_names xs)
unfolding sort_names
sort_names-Nodup [] d = tt
sort_names-Nodup (x ∷ xs) d =
    insert_sorted-Nodup x (sort_names xs) (contains-sort_names x xs ∙ d.0) (sort_names-Nodup xs d.1)

contains-unique_names :
    (m : ℕ) (seen xs : List ℕ)
    → contains m (unique_names seen xs) ≡ (contains m xs && (not (m == 0) && not (contains m seen)))
unfolding contains unique_names
contains-unique_names m seen [] = refl
contains-unique_names m seen (x ∷ xs) =
    ground (arith, contains-unique_names m seen xs, contains-unique_names m (x ∷ seen) xs)

unique_names-Nodup : (seen xs : List ℕ) → Nodup (unique_names seen xs)
unfolding unique_names contains
unique_names-Nodup seen [] = tt
unique_names-Nodup seen (x ∷ xs) = ground (
  arith,
  unique_names-Nodup seen xs,
  unique_names-Nodup (x ∷ seen) xs,
  contains-unique_names x (x ∷ seen) xs,
)

strict :
    (n : ℕ) (xs : List ℕ) → Weakly n xs → Nodup xs → (contains n xs ≡ false) → Ascends (suc n) xs
unfolding contains
strict n [] w d c = tt
strict n (x ∷ xs) w d c = ground (arith, strict x xs w.1 d.1 d.0)

pub contains-unique_sorted_strings :
    (m : ℕ) (names : List ℕ)
    → contains m (unique_sorted_strings names) ≡ (contains m names && not (m == 0))
unfolding unique_sorted_strings
contains-unique_sorted_strings m names =
    contains-sort_names m (unique_names [] names)
    ∙ contains-unique_names m [] names
    ∙ (unfold contains in drop_true (contains m names) (m == 0))
  where
    drop_true : (a b : Bool) → (a && (not b && true)) ≡ (a && not b)
    drop_true a b = ground arith

-- The result names what the input names, but for the empty name, in strictly ascending order.
pub unique_sorted_strings-Ascends :
    (names : List ℕ)
    → Ascends 1 (unique_sorted_strings names)
      × ((m : ℕ) → contains m (unique_sorted_strings names) ≡ (contains m names && not (m == 0)))
unfolding unique_sorted_strings
unique_sorted_strings-Ascends names = (
  strict 0 (sort_names (unique_names [] names)) (sort_names-Weakly (unique_names [] names))
      (sort_names-Nodup (unique_names [] names) (unique_names-Nodup [] names))
      (contains-unique_sorted_strings 0 names ∙ and_false (contains 0 names)),
  λ m. contains-unique_sorted_strings m names,
)
  where
    and_false : (b : Bool) → (b && false) ≡ false
    and_false true = refl
    and_false false = refl
