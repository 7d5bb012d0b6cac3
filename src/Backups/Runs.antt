-- ===== src/Backups/Runs.antt =====
-- The run of the automatic backup over the users: all of its files or none.
use sky_personal_ledger.Base.{
  ℕ, ◌≡◌, ◌⊎◌, Bool, true, false, not, ◌&&◌, ◌||◌, List, ◌==◌, keep_if, All,
}
use sky_personal_ledger.Backups.Defs.{BackupFile, Made, not_made, not_synced, made}
use sky_personal_ledger.Backups.Files.{of_other_run, Holds}

abbrev pub is_unsynced : Made → Bool
is_unsynced not_made = false
is_unsynced (not_synced content) = true
is_unsynced (made content) = false

-- A file that a failed run may leave: it cannot be removed, or its directory could not be synced.
abbrev pub leftover : (ℕ → Bool) → (ℕ → Made) → ℕ → BackupFile → Bool
leftover can_remove make run g =
    g.run == run && (not (can_remove g.user) || is_unsynced (make g.user))

module _ (can_remove : ℕ → Bool) (make : ℕ → Made) (recorded : Bool) (run : ℕ) where
  abbrev clean : List BackupFile → List BackupFile
  clean disk = keep_if (λ (g : BackupFile). not (leftover can_remove make run g)) disk

  -- What a run may come to: a failure that leaves nothing but leftovers, or all files.
  abbrev pub AllOrNone : List ℕ → List BackupFile → Bool × List BackupFile → Type 0
  AllOrNone users base result =
      ((result.0 ≡ false) × (clean result.1 ≡ base))
      ⊎ ((result.0 ≡ true)
          × (keep_if (of_other_run run) result.1 ≡ base)
          × All (Holds make run result.1) users)
