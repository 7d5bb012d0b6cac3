-- ===== src/Tests/Copies.antt =====
-- The automatic backup at concrete inputs; settings are stored as they are.
use sky_personal_ledger.Base.{
  ℕ, ◌-◌, ◌*◌, ◌≡◌, refl, Bool, true, false, Option, none, some, List, [], ◌∷◌, ◌==◌, if◌then◌else◌,
  not, pos, count_rows, ok, err, storage_failed,
}
use sky_personal_ledger.Backups.{
  AutoBackupSettings, normalize_auto_backup_settings, read_settings, load_settings, get_settings,
  save_settings_locked, with_last_backup, save_settings, record_successful_backup, BackupFile, Made,
  not_made, not_synced, made, remove_backup_files, back_up_all, FileInfo, sweep, sort_from,
  sort_by_age, stat_all, split_at, retained, cleanup_old_backups,
}
use sky_personal_ledger.Backups.Settings.{
  get_settings-save_settings, get_settings-record_successful_backup,
}
use sky_personal_ledger.Backups.Sorting.{IsSorted, sort_by_age-IsSorted}
use sky_personal_ledger.Backups.Pruning.{IsPruned, cleanup_old_backups-keeps}

abbrev plain : ℕ → ℕ
plain x = x

abbrev kept_settings : AutoBackupSettings
kept_settings = record {
  enabled = true;
  frequency = 2;
  hour = pos 4;
  max_backups = pos 10;
  last_backup = 0;
}

abbrev is_empty : Option AutoBackupSettings → Bool
is_empty none = true
is_empty (some s) = false

abbrev keep : AutoBackupSettings → Option AutoBackupSettings
keep s = some s

abbrev same : Option AutoBackupSettings → Option AutoBackupSettings
same value = value

abbrev ran_before : AutoBackupSettings
ran_before = record {
  enabled = false;
  frequency = 1;
  hour = pos 3;
  max_backups = pos 7;
  last_backup = 90;
}

saved :
    save_settings plain is_empty keep same (some (some ran_before)) true kept_settings
    ≡ ok (some (record kept_settings { last_backup = 90 }))
unfolding save_settings save_settings_locked with_last_backup load_settings read_settings
    normalize_auto_backup_settings
saved = refl

get_settings-save_settings_example :
    (merged : AutoBackupSettings) × (with_last_backup plain is_empty keep same
        (some (some ran_before))
        kept_settings
      ≡ ok merged)
    × (normalize_auto_backup_settings plain merged false
        ≡ get_settings plain is_empty keep same
            (some (some (record kept_settings { last_backup = 90 }))))
get_settings-save_settings_example =
    get_settings-save_settings plain (λ x. refl) refl refl is_empty keep same (λ s. refl)
      (λ s. refl) (some (some ran_before)) true (some (record kept_settings { last_backup = 90 }))
      kept_settings saved

-- The system table cannot be written.
get_settings-record_successful_backup_example :
    (s : AutoBackupSettings) × (get_settings plain is_empty keep same (some (some kept_settings))
      ≡ ok s)
    × (stored : Option AutoBackupSettings) × (get_settings plain is_empty keep same (some stored)
        ≡ ok (record s { last_backup = 95 }))
    × (record_successful_backup plain is_empty keep same
          (some (some kept_settings))
          false
          ran_before
          95
        ≡ (if false then ok (record s { last_backup = 95 }, stored) else err storage_failed))
get_settings-record_successful_backup_example =
    get_settings-record_successful_backup plain (λ x. refl) refl refl is_empty keep same (λ s. refl)
      (λ s. refl) (some kept_settings) false ran_before 95 refl

abbrev info : ℕ → ℕ → FileInfo
info path time = record { path = path; mod_time = time }

abbrev jumbled : List FileInfo
jumbled = info 1 30 ∷ info 2 10 ∷ info 3 20 ∷ []

in_order : sort_by_age jumbled ≡ info 2 10 ∷ info 3 20 ∷ info 1 30 ∷ []
unfolding sort_by_age sort_from sweep
in_order = refl

sort_by_age-IsSorted_example :
    IsSorted (sort_by_age jumbled)
    × ((p : FileInfo → Bool) → count_rows p (sort_by_age jumbled) ≡ count_rows p jumbled)
sort_by_age-IsSorted_example = sort_by_age-IsSorted jumbled

-- The file with number 5 cannot be read.
abbrev ages : ℕ → Option ℕ
ages path = if path == 5 then none else some (100 - path)

-- The file with number 3 cannot be removed.
abbrev can_unlink : ℕ → Bool
can_unlink path = not (path == 3)

abbrev copies : List ℕ
copies = 1 ∷ 2 ∷ 5 ∷ 3 ∷ 4 ∷ []

pruned : cleanup_old_backups ages can_unlink (some copies) (pos 2) ≡ record {
  removed = info 4 96 ∷ [];
  left = info 3 97 ∷ info 2 98 ∷ info 1 99 ∷ [];
  failed = true;
}
unfolding cleanup_old_backups stat_all sort_by_age sort_from sweep split_at
pruned = refl

cleanup_old_backups-keeps_example :
    IsPruned can_unlink
      (retained (pos 2))
      (stat_all ages copies)
      (cleanup_old_backups ages can_unlink (some copies) (pos 2))
cleanup_old_backups-keeps_example = cleanup_old_backups-keeps ages can_unlink copies (pos 2)

-- The backup of user 9 fails, and that of user 8 after its file has its name.
abbrev contents : ℕ → Made
contents user =
    if user == 9 then not_made else if user == 8 then not_synced 80 else made (user * 10)

-- The file of user 6 cannot be removed.
abbrev can_take_back : ℕ → Bool
can_take_back user = not (user == 6)

abbrev file : ℕ → ℕ → ℕ → BackupFile
file user run content = record { user = user; run = run; content = content }

abbrev older : List BackupFile
older = file 7 1 70 ∷ []

taken_back : back_up_all can_take_back contents true 2 [] (7 ∷ 5 ∷ 9 ∷ []) older ≡ (false, older)
unfolding back_up_all remove_backup_files
taken_back = refl

not_recorded : back_up_all can_take_back contents false 2 [] (7 ∷ 5 ∷ []) older ≡ (false, older)
unfolding back_up_all remove_backup_files
not_recorded = refl

-- The file of the user whose directory could not be synced stays, and one that cannot be removed.
left_behind :
    back_up_all can_take_back contents true 2 [] (7 ∷ 6 ∷ 8 ∷ []) older
    ≡ (false, file 8 2 80 ∷ file 6 2 60 ∷ older)
unfolding back_up_all remove_backup_files
left_behind = refl
