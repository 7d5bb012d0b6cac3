-- ===== src/Backups/Settings.antt =====
-- The settings of the automatic backup: what is stored, and what is read again.
use sky_personal_ledger.Base.{
  ℕ, ◌≡◌, refl, sym, ap, ◌∙◌, subst, inl, inr, Bool, true, false, not, ◌&&◌, ◌||◌, Option, some,
  arith, ◌==◌, if◌then◌else◌, Option-cases, Result-cases, ℤ, pos, ltb_ℤ, leb_ℤ, ok, err, ◌>>◌,
  guard, >>=-eq-ok,
}
use sky_personal_ledger.Base.{auto_backup_settings_invalid, storage_failed}
use sky_personal_ledger.Backups.Defs.{
  daily, AutoBackupSettings, default_auto_backup_settings, known_frequency,
  normalize_auto_backup_settings, read_settings, load_settings, get_settings, save_settings_locked,
  with_last_backup, save_settings, record_successful_backup,
}

-- A known frequency, an hour of the day and between 1 and 365 files.
pub record InBounds (s : AutoBackupSettings) : Type 0 where
  pub frequency : known_frequency s.frequency ≡ true
  pub hour : (leb_ℤ (pos 0) s.hour ≡ true) × (leb_ℤ s.hour (pos 23) ≡ true)
  pub max_backups : (leb_ℤ (pos 1) s.max_backups ≡ true) × (leb_ℤ s.max_backups (pos 365) ≡ true)

ok_same : {A : Type 0} {a b : A} → ok a ≡ ok b → a ≡ b
ok_same h = cc

module _ (trim : ℕ → ℕ) (trim_again : (x : ℕ) → trim (trim x) ≡ trim x)
    (trim_daily : trim daily ≡ daily) (trim_blank : trim 0 ≡ 0) where
  record Normal (s : AutoBackupSettings) : Type 0 where
    pub bounds : InBounds s
    pub frequency : trim s.frequency ≡ s.frequency
    pub last_backup : trim s.last_backup ≡ s.last_backup

  normalize-Normal :
      (s : AutoBackupSettings) (defaults : Bool) {t : AutoBackupSettings}
      → normalize_auto_backup_settings trim s defaults ≡ ok t
      → Normal t
  unfolding normalize_auto_backup_settings
  normalize-Normal s defaults {t} h =
      let f = if trim s.frequency == 0 && defaults then daily else trim s.frequency in
      let m = if leb_ℤ s.max_backups (pos 0) && defaults then pos 10 else s.max_backups in
      let (_, g1, h1) = >>=-eq-ok (guard (known_frequency f) auto_backup_settings_invalid) _ h in
      let (_, g2, h2) =
        >>=-eq-ok
          (guard (not (ltb_ℤ s.hour (pos 0) || ltb_ℤ (pos 23) s.hour)) auto_backup_settings_invalid)
          _ h1 in
      let (_, g3, h3) =
        >>=-eq-ok (guard (not (ltb_ℤ m (pos 1) || ltb_ℤ (pos 365) m)) auto_backup_settings_invalid)
          _ h2 in
      let made : Normal
          (record s { frequency = f; max_backups = m; last_backup = trim s.last_backup }) =
        record {
          bounds = record {
            frequency = guarded (known_frequency f) g1;
            hour = between s.hour 0 23 (guarded _ g2);
            max_backups = between m 1 365 (guarded _ g3);
          };
          frequency = trimmed (trim s.frequency == 0 && defaults) s.frequency;
          last_backup = trim_again s.last_backup;
        } in
      subst Normal (ok_same h3) made
    where
      guarded : (b : Bool) {u : Unit {0}} → guard b auto_backup_settings_invalid ≡ ok u → b ≡ true
      guarded b h = ground arith

      between :
          (c : ℤ) (low high : ℕ)
          → not (ltb_ℤ c (pos low) || ltb_ℤ (pos high) c) ≡ true
          → (leb_ℤ (pos low) c ≡ true) × (leb_ℤ c (pos high) ≡ true)
      between c low high h = (ground (arith, h), ground (arith, h))

      trimmed :
          (b : Bool) (x : ℕ) → trim (if b then daily else trim x) ≡ (if b then daily else trim x)
      trimmed true x = trim_daily
      trimmed false x = trim_again x

  accepts :
      (s : AutoBackupSettings) (defaults : Bool)
      → InBounds s
      → trim s.frequency ≡ s.frequency
      → normalize_auto_backup_settings trim s defaults
        ≡ ok (record s { last_backup = trim s.last_backup })
  unfolding normalize_auto_backup_settings
  accepts s defaults b same =
      let named : (s.frequency == 0 && defaults) ≡ false =
        not_blank s.frequency defaults b.frequency in
      let hour : not (ltb_ℤ s.hour (pos 0) || ltb_ℤ (pos 23) s.hour) ≡ true =
        within s.hour 0 23 b.hour in
      let some_files : (leb_ℤ s.max_backups (pos 0) && defaults) ≡ false =
        positive s.max_backups defaults b.max_backups.0 in
      let count : not (ltb_ℤ s.max_backups (pos 1) || ltb_ℤ (pos 365) s.max_backups) ≡ true =
        within s.max_backups 1 365 b.max_backups in
      rw (same, named, b.frequency, hour, some_files, count) refl
    where
      not_blank : (f : ℕ) (d : Bool) → known_frequency f ≡ true → (f == 0 && d) ≡ false
      not_blank f d h = ground (arith, h)

      within :
          (c : ℤ) (low high : ℕ)
          → (leb_ℤ (pos low) c ≡ true) × (leb_ℤ c (pos high) ≡ true)
          → not (ltb_ℤ c (pos low) || ltb_ℤ (pos high) c) ≡ true
      within c low high (g, h) = ground (arith, g, h)

      positive : (c : ℤ) (d : Bool) → leb_ℤ (pos 1) c ≡ true → (leb_ℤ c (pos 0) && d) ≡ false
      positive c d h = ground (arith, h)

  Normal-normalize :
      (s : AutoBackupSettings) (defaults : Bool)
      → Normal s
      → normalize_auto_backup_settings trim s defaults ≡ ok s
  Normal-normalize s defaults n =
      accepts s defaults n.bounds n.frequency
      ∙ ap (λ (x : ℕ). ok (record s { last_backup = x })) n.last_backup

  -- Settings that are accepted have a known frequency, an hour from 0 to 23 and from 1 to 365 files,
  -- and are accepted again unchanged, with defaults allowed or not.
  pub normalize_auto_backup_settings-InBounds :
      (s : AutoBackupSettings) (defaults again : Bool) {t : AutoBackupSettings}
      → normalize_auto_backup_settings trim s defaults ≡ ok t
      → InBounds t × (normalize_auto_backup_settings trim t again ≡ ok t)
  normalize_auto_backup_settings-InBounds s defaults again {t} h =
      let n = normalize-Normal s defaults h in (n.bounds, Normal-normalize t again n)

  default-Normal : Normal default_auto_backup_settings
  unfolding default_auto_backup_settings
  default-Normal = record {
    bounds = record { frequency = refl; hour = (refl, refl); max_backups = (refl, refl) };
    frequency = trim_daily;
    last_backup = trim_blank;
  }

  module _ {Value : Type 0} (is_blank : Value → Bool) (encode : AutoBackupSettings → Value)
      (decode : Value → Option AutoBackupSettings)
      (decode-encode : (s : AutoBackupSettings) → decode (encode s) ≡ some s)
      (not_blank : (s : AutoBackupSettings) → is_blank (encode s) ≡ false) where
    read-Normal : (value : Value) → Normal (read_settings trim is_blank encode decode value)
    unfolding read_settings
    read-Normal value = elim (Option-cases (decode value)) [
      | inl e ↦ rw (read_settings, e) default-Normal
      | inr (s, e) ↦ elim (Result-cases (normalize_auto_backup_settings trim s true)) [
        | inl (_, f) ↦ rw (read_settings, e, f) default-Normal
        | inr (t, f) ↦ rw (read_settings, e, f) (normalize-Normal s true f)
      ]
    ]

    read_back :
        (t : AutoBackupSettings)
        → Normal t
        → read_settings trim is_blank encode decode (encode t) ≡ t
    unfolding read_settings
    read_back t n = rw (read_settings, decode-encode t, Normal-normalize t true n) refl

    loaded_back :
        (t : AutoBackupSettings)
        → Normal t
        → get_settings trim is_blank encode decode (some (encode t)) ≡ ok t
    unfolding get_settings load_settings
    loaded_back t n = rw (not_blank t) (ap ok (read_back t n))

    stamped :
        (s : AutoBackupSettings) (time : ℕ)
        → Normal s
        → normalize_auto_backup_settings trim (record s { last_backup = time }) false
          ≡ ok (record s { last_backup = trim time })
    stamped s time n =
        accepts (record s { last_backup = time }) false
          (record {
            frequency = n.bounds.frequency;
            hour = n.bounds.hour;
            max_backups = n.bounds.max_backups;
          })
          n.frequency

    -- Settings that are saved are read again as they were normalized, with the last backup of the
    -- stored settings where they name none.
    pub get_settings-save_settings :
        (current : Option Value) (can_set : Bool) (stored : Value) (s : AutoBackupSettings)
        → save_settings trim is_blank encode decode current can_set s ≡ ok stored
        → (merged : AutoBackupSettings) × (with_last_backup trim is_blank encode decode current s
            ≡ ok merged)
          × (normalize_auto_backup_settings trim merged false
              ≡ get_settings trim is_blank encode decode (some stored))
    unfolding save_settings save_settings_locked
    get_settings-save_settings current can_set stored s h =
        let (merged, m, h1) =
          >>=-eq-ok (with_last_backup trim is_blank encode decode current s) _ h in
        let (t, e, h2) = >>=-eq-ok (normalize_auto_backup_settings trim merged false) _ h1 in
        let (_, _, h3) = >>=-eq-ok (guard can_set storage_failed) _ h2 in
        (
          merged,
          m,
          e
              ∙ sym (loaded_back t (normalize-Normal merged false e))
              ∙ ap (λ (x : Value). get_settings trim is_blank encode decode (some x)) (ok_same h3),
        )

    -- Where settings are stored and can be read, recording a backup fails only if they cannot be written.
    -- It changes nothing of them but the time of the last backup, and it stores what it returns.
    pub get_settings-record_successful_backup :
        (value : Value) (can_set : Bool) (fallback : AutoBackupSettings) (time : ℕ)
        → is_blank value ≡ false
        → (s : AutoBackupSettings) × (get_settings trim is_blank encode decode (some value) ≡ ok s)
          × (stored : Value) × (get_settings trim is_blank encode decode (some stored)
              ≡ ok (record s { last_backup = trim time }))
          × (record_successful_backup trim is_blank encode decode (some value) can_set fallback time
              ≡ (if can_set
                  then ok (record s { last_backup = trim time }, stored)
                  else err storage_failed))
    unfolding record_successful_backup get_settings load_settings
    get_settings-record_successful_backup value can_set fallback time present =
        let s = read_settings trim is_blank encode decode value in
        let n = read-Normal value in
        let t : AutoBackupSettings = record s { last_backup = trim time } in
        let normal : Normal t = record {
          bounds = record {
            frequency = n.bounds.frequency;
            hour = n.bounds.hour;
            max_backups = n.bounds.max_backups;
          };
          frequency = n.frequency;
          last_backup = trim_again time;
        } in
        let accepted : normalize_auto_backup_settings trim (record s { last_backup = time }) false
            ≡ ok t =
          stamped s time n in
        (
          s,
          rw present refl,
          encode t,
          loaded_back t normal,
          rw (present, accepted) (written can_set t (encode t)),
        )
      where
        written :
            (b : Bool) (t : AutoBackupSettings) (v : Value)
            → ◌>>◌ {Next = AutoBackupSettings × Value} (guard b storage_failed) (ok (t, v))
              ≡ (if b then ok (t, v) else err storage_failed)
        written true t v = refl
        written false t v = refl
