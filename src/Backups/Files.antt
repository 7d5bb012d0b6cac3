-- ===== src/Backups/Files.antt =====
-- What a run of the automatic backup writes and removes.
use sky_personal_ledger.Base.{
  ℕ, ◌≡◌, refl, sym, ap, ◌∙◌, ◌⊎◌, inl, inr, Bool, true, false, not, ◌&&◌, some, List, [], ◌∷◌,
  ◌++◌, arith, ◌==◌, ==_iff, Bool-cases, keep_if, All, find_row,
}
use sky_personal_ledger.Backups.Defs.{
  BackupFile, is_file, write_file, Made, not_made, not_synced, made, remove_backup_files,
  back_up_all,
}

abbrev pub other_file : ℕ → ℕ → BackupFile → Bool
other_file user run g = not (is_file user run g)

pub keep_if-swap :
    {A : Type 0} (p q : A → Bool) (xs : List A)
    → keep_if p (keep_if q xs) ≡ keep_if q (keep_if p xs)
keep_if-swap p q [] = refl
keep_if-swap p q (x ∷ xs) = ground (arith, keep_if-swap p q xs)

keep_if-again : {A : Type 0} (p : A → Bool) (xs : List A) → keep_if p (keep_if p xs) ≡ keep_if p xs
keep_if-again p [] = refl
keep_if-again p (x ∷ xs) = ground (arith, keep_if-again p xs)

-- Files of other runs only.
abbrev pub OtherRuns : ℕ → List BackupFile → Type 0
OtherRuns run disk = All (λ (g : BackupFile). (g.run == run) ≡ false) disk

pub keep_if-others :
    (user run : ℕ) (disk : List BackupFile)
    → OtherRuns run disk
    → keep_if (other_file user run) disk ≡ disk
keep_if-others user run [] h = refl
keep_if-others user run (g ∷ disk) (h, hs) = ground (arith, h, keep_if-others user run disk hs)

-- What `removeBackupFiles` keeps in one of its rounds.
abbrev pub stays : (ℕ → Bool) → ℕ → ℕ → BackupFile → Bool
stays can_remove user run g = not (can_remove user && is_file user run g)

module _ (can_remove : ℕ → Bool) where
  pub remove-keep_if :
      (users : List ℕ) (run : ℕ) (p : BackupFile → Bool) (disk : List BackupFile)
      → remove_backup_files can_remove users run (keep_if p disk)
        ≡ keep_if p (remove_backup_files can_remove users run disk)
  unfolding remove_backup_files
  remove-keep_if [] run p disk = refl
  remove-keep_if (u ∷ users) run p disk =
      ap (remove_backup_files can_remove users run) (keep_if-swap (stays can_remove u run) p disk)
      ∙ remove-keep_if users run p (keep_if (stays can_remove u run) disk)

  pub remove-append :
      (users : List ℕ) (user run : ℕ) (disk : List BackupFile)
      → remove_backup_files can_remove (users ++ (user ∷ [])) run disk
        ≡ remove_backup_files can_remove users run (keep_if (stays can_remove user run) disk)
  unfolding remove_backup_files
  remove-append [] user run disk = refl
  remove-append (u ∷ users) user run disk =
      remove-append users user run (keep_if (stays can_remove u run) disk)
      ∙ ap (remove_backup_files can_remove users run)
          (keep_if-swap (stays can_remove user run) (stays can_remove u run) disk)

pub written_away :
    (user run content : ℕ) (disk : List BackupFile)
    → keep_if
        (other_file user run)
        (write_file (record { user = user; run = run; content = content }) disk)
      ≡ keep_if (other_file user run) disk
written_away user run content disk = ground (arith, keep_if-again (other_file user run) disk)

-- The file of a user, as this run writes it.
pub Holds : (ℕ → Made) → ℕ → List BackupFile → ℕ → Type 0
Holds make run disk user =
    (content : ℕ) × (make user ≡ made content)
    × (find_row (is_file user run) disk
        ≡ some (record { user = user; run = run; content = content }))

find_row-keep_if :
    (q p : BackupFile → Bool) (disk : List BackupFile)
    → ((g : BackupFile) → q g ≡ true → p g ≡ true)
    → find_row q (keep_if p disk) ≡ find_row q disk
unfolding find_row
find_row-keep_if q p [] h = refl
find_row-keep_if q p (g ∷ disk) h = ground (arith, h g, find_row-keep_if q p disk h)

abbrev pub file_of : ℕ → ℕ → ℕ → BackupFile
file_of user run content = record { user = user; run = run; content = content }

pub Holds-own :
    (make : ℕ → Made) (run user content : ℕ) (disk : List BackupFile)
    → make user ≡ made content
    → Holds make run (write_file (file_of user run content) disk) user
unfolding Holds find_row
Holds-own make run user content disk e =
    let mine : (user == user && run == run) ≡ true = ground arith in (content, e, rw mine refl)

-- A later file is another user's, or says the same.
Holds-on :
    (make : ℕ → Made) (run u content user : ℕ) (disk : List BackupFile)
    → make u ≡ made content
    → Holds make run disk user
    → Holds make run (write_file (file_of u run content) disk) user
unfolding Holds find_row
Holds-on make run u content user disk e (c, f, at) = elim (Bool-cases (u == user)) [
  | inl t ↦
      let same : u ≡ user = (==_iff u user).0 t in
      let run_same : (run == run) ≡ true = ground arith in
      let contents : content ≡ c = made_same (sym e ∙ ap make same ∙ f) in
      (c, f, rw (t, run_same) (file_same same contents))
  | inr t ↦ (
    c,
    f,
    rw t (find_row-keep_if (is_file user run) (other_file u run) disk (λ g h. apart g t h) ∙ at),
  )
]
  where
    made_same : {a b : ℕ} → made a ≡ made b → a ≡ b
    made_same h = cc

    file_same : {v w x y : ℕ} → v ≡ w → x ≡ y → some (file_of v run x) ≡ some (file_of w run y)
    file_same g h = rw (g, h) refl

    apart :
        (g : BackupFile)
        → (u == user) ≡ false
        → is_file user run g ≡ true
        → other_file u run g ≡ true
    apart g t h = ground (arith, t, h)

pub Made-cases :
    (m : Made) → (m ≡ not_made) ⊎ (((c : ℕ) × (m ≡ not_synced c)) ⊎ ((c : ℕ) × (m ≡ made c)))
Made-cases not_made = inl refl
Made-cases (not_synced c) = inr (inl (c, refl))
Made-cases (made c) = inr (inr (c, refl))

pub Holds-after :
    (can_remove : ℕ → Bool) (make : ℕ → Made) (recorded : Bool) (run : ℕ) (created users : List ℕ)
    (disk : List BackupFile) (user : ℕ)
    → (back_up_all can_remove make recorded run created users disk).0 ≡ true
    → Holds make run disk user
    → Holds make run (back_up_all can_remove make recorded run created users disk).1 user
unfolding back_up_all
Holds-after can_remove make recorded run created [] disk user done h = elim (Bool-cases recorded) [
  | inl t ↦ rw t h
  | inr t ↦ cc (rw t at done)
]
Holds-after can_remove make recorded run created (u ∷ users) disk user done h =
    elim (Made-cases (make u)) [
      | inl e ↦ cc (rw (back_up_all, e) at done)
      | inr (inl (content, e)) ↦ cc (rw (back_up_all, e) at done)
      | inr (inr (content, e)) ↦
          rw (back_up_all, e)
            (Holds-after can_remove make recorded run (created ++ (u ∷ [])) users
              (write_file (file_of u run content) disk) user (rw (back_up_all, e) at done)
              (Holds-on make run u content user disk e h))
    ]

abbrev pub of_other_run : ℕ → BackupFile → Bool
of_other_run run g = not (g.run == run)

pub kept_after :
    (user run content : ℕ) (disk : List BackupFile)
    → keep_if (of_other_run run) (write_file (file_of user run content) disk)
      ≡ keep_if (of_other_run run) disk
kept_after user run content disk =
    let same : (run == run) ≡ true = ground arith in rw same (narrower user run disk)
  where
    narrower :
        (user run : ℕ) (disk : List BackupFile)
        → keep_if (of_other_run run) (keep_if (other_file user run) disk)
          ≡ keep_if (of_other_run run) disk
    narrower user run [] = refl
    narrower user run (g ∷ disk) = ground (arith, narrower user run disk)
