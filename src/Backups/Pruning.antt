-- ===== src/Backups/Pruning.antt =====
-- What the retention of backups removes and leaves.
use sky_personal_ledger.Base.{
  ℕ, zero, suc, ◌+◌, ◌-◌, ◌≤◌, ◌≡◌, refl, ap, ◌∙◌, inl, inr, Bool, true, false, not, ◌&&◌, ◌||◌,
  some, ◌++◌, keep_if, keep_if-All, keep_if-All_of, Option, List, [], ◌∷◌, arith, leb,
  if◌then◌else◌, Bool-cases, Option-cases, ℤ, length, All, count_rows,
}
use sky_personal_ledger.Backups.Retention.{
  FileInfo, Cleanup, all_read, all_removable, remove_oldest, sort_by_age, stat_all, split_at,
  retained, cleanup_old_backups,
}
use sky_personal_ledger.Backups.Sorting.{IsSorted, sort_by_age-IsSorted, length-sort_by_age}

-- Every file of the first list is at most as young as every file of the second.
abbrev pub AllOlder : List FileInfo → List FileInfo → Type 0
AllOlder old young =
    All (λ (x : FileInfo). All (λ (y : FileInfo). x.mod_time ≤ y.mod_time) young) old

All-split :
    (P : FileInfo → Type 0) (n : ℕ) (xs : List FileInfo) → All P xs → All P (split_at n xs).1
unfolding split_at
All-split P zero xs h = h
All-split P (suc n) [] h = tt
All-split P (suc n) (x ∷ xs) h = All-split P n xs h.1

split_older :
    (n : ℕ) (xs : List FileInfo) → IsSorted xs → AllOlder (split_at n xs).0 (split_at n xs).1
unfolding split_at IsSorted
split_older zero xs h = tt
split_older (suc n) [] h = tt
split_older (suc n) (x ∷ xs) (least, rest) = (All-split _ n xs least, split_older n xs rest)

split_count :
    (p : FileInfo → Bool) (n : ℕ) (xs : List FileInfo)
    → count_rows p (split_at n xs).0 + count_rows p (split_at n xs).1 ≡ count_rows p xs
unfolding split_at count_rows
split_count p zero xs = omega arith
split_count p (suc n) [] = refl
split_count p (suc n) (x ∷ xs) = ground (arith, split_count p n xs)

split_rest : (n : ℕ) (xs : List FileInfo) → length (split_at n xs).1 ≡ length xs - n
unfolding split_at
split_rest zero xs = omega arith
split_rest (suc n) [] = omega arith
split_rest (suc n) (x ∷ xs) = split_rest n xs ∙ omega arith

length-stat_all :
    (stat : ℕ → Option ℕ) (files : List ℕ) → length (stat_all stat files) ≤ length files
unfolding stat_all
length-stat_all stat [] = omega arith
length-stat_all stat (f ∷ files) = elim (Option-cases (stat f)) [
  | inl e ↦ rw (stat_all, e) (omega (arith, length-stat_all stat files))
  | inr (t, e) ↦ rw (stat_all, e) (omega (arith, length-stat_all stat files))
]

count-keep_if :
    (p q : FileInfo → Bool) (xs rest : List FileInfo)
    → count_rows p (keep_if q xs) + count_rows p (keep_if (λ (x : FileInfo). not (q x)) xs ++ rest)
      ≡ count_rows p xs + count_rows p rest
unfolding count_rows
count-keep_if p q [] rest = omega arith
count-keep_if p q (x ∷ xs) rest = ground (arith, count-keep_if p q xs rest)

stuck_empty :
    (can_remove : ℕ → Bool) (xs : List FileInfo)
    → all_removable can_remove xs ≡ true
    → keep_if (λ (x : FileInfo). not (can_remove x.path)) xs ≡ []
stuck_empty can_remove [] h = refl
stuck_empty can_remove (x ∷ xs) h =
    let (first, rest) : (can_remove x.path ≡ true) × (all_removable can_remove xs ≡ true) =
      both_of (can_remove x.path) (all_removable can_remove xs) h in
    rw first (stuck_empty can_remove xs rest)
  where
    both_of : (a b : Bool) → (a && b) ≡ true → (a ≡ true) × (b ≡ true)
    both_of a b h = (ground (arith, h), ground (arith, h))

-- What a cleanup that may leave `most` files of `infos` comes to: besides the files that are kept it
-- leaves the ones that it could not remove.
pub record IsPruned (can_remove : ℕ → Bool) (most : ℕ) (infos : List FileInfo) (c : Cleanup)
    : Type 0 where
  pub stuck : List FileInfo
  pub kept : List FileInfo
  pub leaves : c.left ≡ stuck ++ kept
  pub number : length kept ≡ (if leb (length infos) most then length infos else most)
  pub removable : All (λ (x : FileInfo). can_remove x.path ≡ true) c.removed
  pub not_removable : All (λ (x : FileInfo). not (can_remove x.path) ≡ true) stuck
  pub removed_older : AllOlder c.removed kept
  pub stuck_older : AllOlder stuck kept
  pub reported : c.failed ≡ false → stuck ≡ []
  pub same :
      (p : FileInfo → Bool) → count_rows p c.removed + count_rows p c.left ≡ count_rows p infos

split-IsPruned :
    (can_remove : ℕ → Bool) (failed : Bool) (most : ℕ) (infos oldest kept : List FileInfo)
    → length kept ≡ (if leb (length infos) most then length infos else most)
    → AllOlder oldest kept
    → ((p : FileInfo → Bool) → count_rows p oldest + count_rows p kept ≡ count_rows p infos)
    → IsPruned can_remove most infos (remove_oldest can_remove failed (oldest, kept))
split-IsPruned can_remove failed most infos oldest kept number older same = record {
  stuck = keep_if (λ (x : FileInfo). not (can_remove x.path)) oldest;
  kept = kept;
  leaves = refl;
  number = number;
  removable = keep_if-All (λ (x : FileInfo). can_remove x.path) oldest;
  not_removable = keep_if-All (λ (x : FileInfo). not (can_remove x.path)) oldest;
  removed_older = keep_if-All_of _ (λ (x : FileInfo). can_remove x.path) oldest older;
  stuck_older = keep_if-All_of _ (λ (x : FileInfo). not (can_remove x.path)) oldest older;
  reported = λ h. stuck_empty can_remove oldest (none_failed failed _ h);
  same = λ p. count-keep_if p (λ (x : FileInfo). can_remove x.path) oldest kept ∙ same p;
}
  where
    none_failed : (a b : Bool) → (a || not b) ≡ false → b ≡ true
    none_failed a b h = ground (arith, h)

-- The retention keeps as many of the files that it can read as the setting says, or all if there are
-- no more. Of the others it removes every one that it can remove and leaves the rest, reporting an error
-- if there is any; none of them is younger than a file that is kept. Every file is removed or left.
pub cleanup_old_backups-keeps :
    (stat : ℕ → Option ℕ) (can_remove : ℕ → Bool) (files : List ℕ) (max : ℤ)
    → IsPruned can_remove
        (retained max)
        (stat_all stat files)
        (cleanup_old_backups stat can_remove (some files) max)
unfolding cleanup_old_backups
cleanup_old_backups-keeps stat can_remove files max =
    let infos = stat_all stat files in
    let (sorted, same) = sort_by_age-IsSorted infos in
    let n = length infos - retained max in
    let left : length (split_at n (sort_by_age infos)).1 ≡ length infos - n =
      split_rest n (sort_by_age infos) ∙ ap (λ (k : ℕ). k - n) (length-sort_by_age infos) in
    elim (Bool-cases (leb (length files) (retained max))) [
      | inl t ↦ rw t (record {
        stuck = [];
        kept = infos;
        leaves = refl;
        number = ground (arith, length-stat_all stat files, t);
        removable = tt;
        not_removable = tt;
        removed_older = tt;
        stuck_older = tt;
        reported = λ h. refl;
        same = λ p. nothing p infos;
      })
      | inr t ↦ rw t (
          split-IsPruned can_remove (not (all_read stat files)) (retained max) infos
            (split_at n (sort_by_age infos)).0 (split_at n (sort_by_age infos)).1
            (left ∙ ground arith) (split_older n (sort_by_age infos) sorted)
            (λ p. split_count p n (sort_by_age infos) ∙ same p))
    ]
  where
    nothing :
        (p : FileInfo → Bool) (xs : List FileInfo)
        → count_rows p [] + count_rows p xs ≡ count_rows p xs
    nothing p xs = unfold count_rows in omega arith
