-- ===== src/Backups/Defs.antt =====
-- The settings of the automatic backup (`normalizeAutoBackupSettings`, `GetSettings`, `SaveSettings`,
-- `recordSuccessfulBackup`), the test whether a backup is due and its run over the users. A text is a
-- number, 0 the empty one; `trim` is `strings.TrimSpace`; `encode` and `decode` are `json.Marshal` and
-- `json.Unmarshal` of settings, and `is_blank` tests for the empty value. A backup file is known by its user and
-- the timestamp of its run.
use sky_personal_ledger.Base.{
  ℕ, ◌+◌, ◌*◌, Bool, true, false, not, ◌&&◌, ◌||◌, Option, none, some, List, [], ◌∷◌, ◌++◌, ltb,
  ◌==◌, if◌then◌else◌, ℤ, pos, ◌-ℤ◌, ltb_ℤ, leb_ℤ, ◌==ℤ◌, keep_if, Result, ok, err, ◌>>=◌, ◌>>◌,
  guard,
}
use sky_personal_ledger.Base.{auto_backup_settings_invalid, storage_failed}

-- The three frequencies.
abbrev pub daily : ℕ
daily = 1

abbrev pub weekly : ℕ
weekly = 2

abbrev pub monthly : ℕ
monthly = 3

pub record AutoBackupSettings : Type 0 where
  pub enabled : Bool
  pub frequency : ℕ
  pub hour : ℤ
  pub max_backups : ℤ
  pub last_backup : ℕ

unfoldable pub default_auto_backup_settings : AutoBackupSettings
default_auto_backup_settings = record {
  enabled = false;
  frequency = daily;
  hour = pos 3;
  max_backups = pos 10;
  last_backup = 0;
}

abbrev pub known_frequency : ℕ → Bool
known_frequency f = f == daily || (f == weekly || f == monthly)

-- A calendar date: its number of days from a fixed date on, its year and its month.
pub record Date : Type 0 where
  pub day : ℕ
  pub year : ℕ
  pub month : ℕ

-- `autoBackupDue`
unfoldable pub auto_backup_due : Date → Date → ℕ → Bool
auto_backup_due now last frequency =
    if frequency == daily
    then leb_ℤ (pos 1) (pos now.day -ℤ pos last.day)
    else if frequency == weekly
    then leb_ℤ (pos 7) (pos now.day -ℤ pos last.day)
    else if frequency == monthly
    then ltb (last.year * 12 + last.month) (now.year * 12 + now.month)
    else false

-- The tests of `checkAndBackup` on the settings that it got; `parse` reads the time of the last backup.
unfoldable pub should_backup : (ℕ → Option Date) → AutoBackupSettings → ℤ → Date → Bool
unfolding auto_backup_due
should_backup parse s hour now =
    s.enabled
    && (hour ==ℤ s.hour
        && (if s.last_backup == 0 then true else elim (parse s.last_backup) [
          | none ↦ true
          | some last ↦ auto_backup_due now last s.frequency
        ]))

module _ (trim : ℕ → ℕ) where
  unfoldable pub normalize_auto_backup_settings :
      AutoBackupSettings → Bool → Result AutoBackupSettings
  normalize_auto_backup_settings s allow_defaults = do
    let trimmed = trim s.frequency
    let frequency = (if trimmed == 0 && allow_defaults then daily else trimmed)
    guard (known_frequency frequency) auto_backup_settings_invalid
    guard (not (ltb_ℤ s.hour (pos 0) || ltb_ℤ (pos 23) s.hour)) auto_backup_settings_invalid
    let count = (if leb_ℤ s.max_backups (pos 0) && allow_defaults then pos 10 else s.max_backups)
    guard (not (ltb_ℤ count (pos 1) || ltb_ℤ (pos 365) count)) auto_backup_settings_invalid
    ok (record s { frequency = frequency; max_backups = count; last_backup = trim s.last_backup })

  module _ {Value : Type 0} (is_blank : Value → Bool) (encode : AutoBackupSettings → Value)
      (decode : Value → Option AutoBackupSettings) where
    -- The settings that a stored value stands for.
    unfoldable pub read_settings : Value → AutoBackupSettings
    unfolding normalize_auto_backup_settings
    read_settings value = elim (decode value) [
      | none ↦ default_auto_backup_settings
      | some s ↦ elim (normalize_auto_backup_settings s true) [
        | err _ ↦ default_auto_backup_settings
        | ok normal ↦ normal
      ]
    ]

    -- `loadSettingsLocked`: the settings, and whether any are stored, of the value that the system table
    -- has; it has none where it cannot be read.
    unfoldable pub load_settings : Option Value → Result (AutoBackupSettings × Bool)
    unfolding read_settings
    load_settings none = err storage_failed
    load_settings (some value) = ok (
        if is_blank value
        then (default_auto_backup_settings, false)
        else (read_settings value, true))

    -- `GetSettings`
    unfoldable pub get_settings : Option Value → Result AutoBackupSettings
    unfolding load_settings
    get_settings current = do loaded ← load_settings current; ok loaded.0

    -- `saveSettingsLocked`: the value that is stored, if the system table can be written.
    unfoldable pub save_settings_locked : Bool → AutoBackupSettings → Result Value
    unfolding normalize_auto_backup_settings
    save_settings_locked can_set s = do
      normal ← normalize_auto_backup_settings s false
      guard can_set storage_failed
      ok (encode normal)

    -- Settings that name no last backup take that of the stored ones.
    unfoldable pub with_last_backup : Option Value → AutoBackupSettings → Result AutoBackupSettings
    unfolding load_settings
    with_last_backup current s =
        if s.last_backup == 0
        then (do
          loaded ← load_settings current
          ok (if loaded.1 then record s { last_backup = loaded.0.last_backup } else s))
        else ok s

    -- `SaveSettings`
    unfoldable pub save_settings : Option Value → Bool → AutoBackupSettings → Result Value
    unfolding save_settings_locked with_last_backup
    save_settings current can_set s = do
      merged ← with_last_backup current s
      save_settings_locked can_set merged

    -- `recordSuccessfulBackup`: the settings that it returns and the value that is stored.
    unfoldable pub record_successful_backup :
        Option Value → Bool → AutoBackupSettings → ℕ → Result (AutoBackupSettings × Value)
    unfolding load_settings normalize_auto_backup_settings
    record_successful_backup current can_set fallback last_backup = do
      loaded ← load_settings current
      let latest = (if loaded.1 then loaded.0 else fallback)
      normal ← normalize_auto_backup_settings (record latest { last_backup = last_backup }) false
      guard can_set storage_failed
      ok (normal, encode normal)

-- A backup file: its user and its run.
pub record BackupFile : Type 0 where
  pub user : ℕ
  pub run : ℕ
  pub content : ℕ

abbrev pub is_file : ℕ → ℕ → BackupFile → Bool
is_file user run f = f.user == user && f.run == run

-- `os.Rename` over the file's name, and `os.Remove`.
abbrev pub write_file : BackupFile → List BackupFile → List BackupFile
write_file f disk = f ∷ keep_if (λ (g : BackupFile). not (is_file f.user f.run g)) disk

-- `removeBackupFiles`; a file that cannot be removed stays.
unfoldable pub remove_backup_files : (ℕ → Bool) → List ℕ → ℕ → List BackupFile → List BackupFile
remove_backup_files can_remove [] run disk = disk
remove_backup_files can_remove (user ∷ users) run disk =
    remove_backup_files can_remove users run
      (keep_if (λ (g : BackupFile). not (can_remove user && is_file user run g)) disk)

-- What comes of the backup of a user: it fails before its file has its name (it cannot be made,
-- serialized, is too large, or cannot be written or renamed); its file has its name, but
-- `writeFileAtomically` fails to sync the directory after the rename; or it is written.
pub data Made : Type 0 where
  not_made : Made
  not_synced : ℕ → Made
  made : ℕ → Made

-- The loop of `performBackup` over the users, with the files that it has made so far, and the end of
-- the run: `recorded` says whether `recordSuccessfulBackup` succeeds. A run that fails removes the
-- files that it has made as far as they can be removed; a file that was not synced is none of them.
unfoldable pub back_up_all :
    (ℕ → Bool) → (ℕ → Made) → Bool → ℕ → List ℕ → List ℕ → List BackupFile → Bool × List BackupFile
unfolding remove_backup_files
back_up_all can_remove make recorded run created [] disk =
    if recorded then (true, disk) else (false, remove_backup_files can_remove created run disk)
back_up_all can_remove make recorded run created (user ∷ users) disk =
    let more = λ (content : ℕ).
      back_up_all can_remove make recorded run (created ++ (user ∷ [])) users
        (write_file (record { user = user; run = run; content = content }) disk) in
    elim (make user) [
      | not_made ↦ (false, remove_backup_files can_remove created run disk)
      | not_synced content ↦ (
        false,
        remove_backup_files can_remove created run
            (write_file (record { user = user; run = run; content = content }) disk),
      )
      | made content ↦ more content
    ]
