-- ===== src/Backups/Retention.antt =====
-- `cleanupOldBackups`: the backup files of a user sorted by age, and the oldest of them removed.
use sky_personal_ledger.Base.{
  ℕ, zero, suc, ◌-◌, Bool, true, false, not, ◌&&◌, ◌||◌, ◌++◌, keep_if, Option, none, some, List,
  [], ◌∷◌, ltb, leb, if◌then◌else◌, ℤ, pos, pos_part, leb_ℤ, length,
}

pub record FileInfo : Type 0 where
  pub path : ℕ
  pub mod_time : ℕ

-- The inner loop at the item `x`: each later item that `x` is after is swapped with it.
unfoldable pub sweep : FileInfo → List FileInfo → FileInfo × List FileInfo
sweep x [] = (x, [])
sweep x (y ∷ ys) =
    let after = ltb y.mod_time x.mod_time in
    let rest = sweep (if after then y else x) ys in (rest.0, (if after then x else y) ∷ rest.1)

-- The outer loop; the fuel is the number of items.
unfoldable pub sort_from : ℕ → List FileInfo → List FileInfo
unfolding sweep
sort_from zero infos = infos
sort_from (suc n) [] = []
sort_from (suc n) (x ∷ infos) = let swept = sweep x infos in swept.0 ∷ sort_from n swept.1

unfoldable pub sort_by_age : List FileInfo → List FileInfo
unfolding sort_from
sort_by_age infos = sort_from (length infos) infos

-- The file information that `os.Stat` has of each file.
unfoldable pub stat_all : (ℕ → Option ℕ) → List ℕ → List FileInfo
stat_all stat [] = []
stat_all stat (path ∷ paths) =
    let rest = stat_all stat paths in
    elim (stat path) [ none ↦ rest | some time ↦ record { path = path; mod_time = time } ∷ rest ]

-- The first `n` items, and the others.
unfoldable pub split_at : ℕ → List FileInfo → List FileInfo × List FileInfo
split_at zero infos = ([], infos)
split_at (suc n) [] = ([], [])
split_at (suc n) (x ∷ infos) = let rest = split_at n infos in (x ∷ rest.0, rest.1)

abbrev pub retained : ℤ → ℕ
retained max = if leb_ℤ max (pos 0) then 10 else pos_part max

abbrev pub all_read : (ℕ → Option ℕ) → List ℕ → Bool
all_read stat [] = true
all_read stat (path ∷ paths) = elim (stat path) [ none ↦ false | some _ ↦ all_read stat paths ]

abbrev pub all_removable : (ℕ → Bool) → List FileInfo → Bool
all_removable can_remove [] = true
all_removable can_remove (x ∷ infos) = can_remove x.path && all_removable can_remove infos

-- What a cleanup removes and leaves of the files that can be read, and whether it returns an error.
pub record Cleanup : Type 0 where
  pub removed : List FileInfo
  pub left : List FileInfo
  pub failed : Bool

-- The loop of removals over the oldest files: one that cannot be removed stays, and is reported.
abbrev pub remove_oldest : (ℕ → Bool) → Bool → List FileInfo × List FileInfo → Cleanup
remove_oldest can_remove failed (oldest, rest) = record {
  removed = keep_if (λ (x : FileInfo). can_remove x.path) oldest;
  left = keep_if (λ (x : FileInfo). not (can_remove x.path)) oldest ++ rest;
  failed = failed || not (all_removable can_remove oldest);
}

-- `cleanupOldBackups` of the files that `filepath.Glob` finds, or of none where it fails.
unfoldable pub cleanup_old_backups : (ℕ → Option ℕ) → (ℕ → Bool) → Option (List ℕ) → ℤ → Cleanup
unfolding stat_all sort_by_age split_at
cleanup_old_backups stat can_remove none max = record { removed = []; left = []; failed = true }
cleanup_old_backups stat can_remove (some files) max =
    let infos = stat_all stat files in
    if leb (length files) (retained max)
    then record { removed = []; left = infos; failed = false }
    else remove_oldest can_remove (not (all_read stat files))
        (split_at (length infos - retained max) (sort_by_age infos))
