-- ===== src/Backups/Sorting.antt =====
-- The exchange sort of `cleanupOldBackups`.
use sky_personal_ledger.Base.{
  ℕ, zero, suc, ◌≤◌, ◌≡◌, refl, ap, ◌∙◌, inl, inr, Bool, List, [], ◌∷◌, arith, ltb, if◌then◌else◌,
  Bool-cases, length, All, count_rows,
}
use sky_personal_ledger.Backups.Retention.{FileInfo, sweep, sort_from, sort_by_age}

-- Ordered by age, the oldest first.
unfoldable pub IsSorted : List FileInfo → Type 0
IsSorted [] = Unit
IsSorted (x ∷ infos) = All (λ (y : FileInfo). x.mod_time ≤ y.mod_time) infos × IsSorted infos

sweep-All :
    (P : FileInfo → Type 0) (x : FileInfo) (ys : List FileInfo)
    → P x
    → All P ys
    → P (sweep x ys).0 × All P (sweep x ys).1
unfolding sweep
sweep-All P x [] h hs = (h, tt)
sweep-All P x (y ∷ ys) h hs = elim (Bool-cases (ltb y.mod_time x.mod_time)) [
  | inl t ↦ let (m, rest) = sweep-All P y ys hs.0 hs.1 in rw t (m, (h, rest))
  | inr t ↦ let (m, rest) = sweep-All P x ys h hs.1 in rw t (m, (hs.0, rest))
]

sweep_least :
    (x : FileInfo) (ys : List FileInfo)
    → ((sweep x ys).0.mod_time ≤ x.mod_time)
      × All (λ (y : FileInfo). (sweep x ys).0.mod_time ≤ y.mod_time) (sweep x ys).1
unfolding sweep
sweep_least x [] = (omega arith, tt)
sweep_least x (y ∷ ys) =
    let (m, rest) = sweep_least (if ltb y.mod_time x.mod_time then y else x) ys in
    (omega (arith, m, older x y), (omega (arith, m, not_younger x y), rest))
  where
    older : (x y : FileInfo) → (if ltb y.mod_time x.mod_time then y else x).mod_time ≤ x.mod_time
    older x y = ground arith

    not_younger :
        (x y : FileInfo)
        → (if ltb y.mod_time x.mod_time then y else x).mod_time
          ≤ (if ltb y.mod_time x.mod_time then x else y).mod_time
    not_younger x y = ground arith

sweep_count :
    (p : FileInfo → Bool) (x : FileInfo) (ys : List FileInfo)
    → count_rows p ((sweep x ys).0 ∷ (sweep x ys).1) ≡ count_rows p (x ∷ ys)
unfolding sweep count_rows
sweep_count p x [] = refl
sweep_count p x (y ∷ ys) = elim (Bool-cases (ltb y.mod_time x.mod_time)) [
  | inl t ↦ rw t (swap (p (sweep y ys).0) (p x) (p y) _ _ (sweep_count p y ys))
  | inr t ↦ rw t (swap (p (sweep x ys).0) (p y) (p x) _ _ (sweep_count p x ys) ∙ turn (p y) (p x) _)
]
  where
    swap :
        (m a b : Bool) (r s : ℕ)
        → (if m then suc r else r) ≡ (if b then suc s else s)
        → (if m then suc (if a then suc r else r) else (if a then suc r else r))
          ≡ (if a then suc (if b then suc s else s) else (if b then suc s else s))
    swap m a b r s h = ground (arith, h)

    turn :
        (a b : Bool) (s : ℕ)
        → (if a then suc (if b then suc s else s) else (if b then suc s else s))
          ≡ (if b then suc (if a then suc s else s) else (if a then suc s else s))
    turn a b s = ground arith

length-sweep : (x : FileInfo) (ys : List FileInfo) → length (sweep x ys).1 ≡ length ys
unfolding sweep
length-sweep x [] = refl
length-sweep x (y ∷ ys) = ap suc (length-sweep (if ltb y.mod_time x.mod_time then y else x) ys)

sort_from-All :
    (P : FileInfo → Type 0) (n : ℕ) (xs : List FileInfo) → All P xs → All P (sort_from n xs)
unfolding sort_from
sort_from-All P zero xs h = h
sort_from-All P (suc n) [] h = tt
sort_from-All P (suc n) (x ∷ xs) (h, hs) =
    let (m, rest) = sweep-All P x xs h hs in (m, sort_from-All P n (sweep x xs).1 rest)

-- Enough fuel sorts.
sort_from-IsSorted : (n : ℕ) (xs : List FileInfo) → length xs ≤ n → IsSorted (sort_from n xs)
unfolding sort_from IsSorted
sort_from-IsSorted zero [] h = tt
sort_from-IsSorted zero (x ∷ xs) h = absurd (omega (arith, h))
sort_from-IsSorted (suc n) [] h = tt
sort_from-IsSorted (suc n) (x ∷ xs) h = (
  sort_from-All (λ (y : FileInfo). (sweep x xs).0.mod_time ≤ y.mod_time) n (sweep x xs).1
      (sweep_least x xs).1,
  sort_from-IsSorted n (sweep x xs).1 (omega (arith, h, length-sweep x xs)),
)

sort_from_count :
    (p : FileInfo → Bool) (n : ℕ) (xs : List FileInfo)
    → count_rows p (sort_from n xs) ≡ count_rows p xs
unfolding sort_from count_rows
sort_from_count p zero xs = refl
sort_from_count p (suc n) [] = refl
sort_from_count p (suc n) (x ∷ xs) =
    ap (λ (k : ℕ). if p (sweep x xs).0 then suc k else k) (sort_from_count p n (sweep x xs).1)
    ∙ sweep_count p x xs

length-sort_from : (n : ℕ) (xs : List FileInfo) → length (sort_from n xs) ≡ length xs
unfolding sort_from
length-sort_from zero xs = refl
length-sort_from (suc n) [] = refl
length-sort_from (suc n) (x ∷ xs) = ap suc (length-sort_from n (sweep x xs).1 ∙ length-sweep x xs)

-- The exchange sort orders the files by age, the oldest first, and holds every file as often as before:
-- whatever is counted, the two lists have the same number of it.
pub sort_by_age-IsSorted :
    (infos : List FileInfo)
    → IsSorted (sort_by_age infos)
      × ((p : FileInfo → Bool) → count_rows p (sort_by_age infos) ≡ count_rows p infos)
unfolding sort_by_age
sort_by_age-IsSorted infos = (
  sort_from-IsSorted (length infos) infos (omega arith),
  λ p. sort_from_count p (length infos) infos,
)

pub length-sort_by_age : (infos : List FileInfo) → length (sort_by_age infos) ≡ length infos
unfolding sort_by_age
length-sort_by_age infos = length-sort_from (length infos) infos
