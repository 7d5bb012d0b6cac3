-- ===== src/Reminders/Rows.antt =====
-- The reminder's own row under a payment.
use sky_personal_ledger.Base.{
  ℕ, ◌≡◌, refl, sym, ap, ◌∙◌, true, false, not, Option, none, some, arith, ◌==◌, if◌then◌else◌,
  ==_iff, ℤ, pos, ◌+ℤ◌, ◌-ℤ◌, ltb_ℤ, leb_ℤ, ◌==ℤ◌, -ℤ_parts, count_rows, update_rows, ok, guard,
  >>=-eq-ok,
}
use sky_personal_ledger.Base.{concurrent_balance_update, payment_exceeds_balance}
use sky_personal_ledger.Money.{exact, from_cents, add, sub, value, lt_amount, zero_amount}
use sky_personal_ledger.Model.{Reminder, Db}
use sky_personal_ledger.Balance.Mutation.{InRange}
use sky_personal_ledger.Balance.Conservation.{ok-injective}
use sky_personal_ledger.Lendings.Amounts.{
  is_valid-InRange, cents-from_cents, repaid_sum, value-from_cents,
}
use sky_personal_ledger.Money.Exact.{sub-eq-from_cents, cents-exact, from_cents-in_range}
use sky_personal_ledger.Transactions.{option_scans, sub_floor, reminder_scans, value_option}
use sky_personal_ledger.Reminders.Payment.{
  unpaid, exceeds, next_balance, pays_off, paid_row, pay_reminder,
}

-- What is owed after a payment of the principal `x`, and the date on which it was paid off.
abbrev pub owed_after : ℤ → Option ℤ → Option ℤ
owed_after x none = none
owed_after x (some b) = some (b -ℤ x)

abbrev pub off_at : ℕ → ℤ → Option ℤ → Option ℕ → Option ℕ
off_at now x none at = at
off_at now x (some b) at = if (b -ℤ x) ==ℤ pos 0 then some now else at

-- The reminder `r` after a payment of `a`, with the principal `x` and the interest `y`.
abbrev pub paid_reminder : ℤ → ℤ → ℤ → ℕ → Reminder → Reminder
paid_reminder a x y now r =
    paid_row (owed_after x r.current_balance) (r.total_paid +ℤ a) (r.interest_paid +ℤ y)
      (off_at now x r.current_balance r.paid_off_at) r

-- A principal that what is recorded as owed covers.
pub data Covers (x : ℤ) : Option ℤ → Type 0 where
  unrecorded : Covers x none
  covers : (b : ℤ) → leb_ℤ x b ≡ true → Covers x (some b)

pub record Written (db : Db) (r : Reminder) (user : ℕ) (a x y : ℤ) (now : ℕ) (db' : Db)
    : Type 0 where
  pub covered : Covers x r.current_balance
  pub only : count_rows (unpaid r user) db.reminders ≡ 1
  pub rows : db' ≡ record db {
    reminders =
        update_rows
          (unpaid r user)
          (paid_row
            (owed_after x r.current_balance)
            (r.total_paid +ℤ a)
            (r.interest_paid +ℤ y)
            (off_at now x r.current_balance r.paid_off_at))
          db.reminders;
  }

pub floor_lem :
    (b x : ℤ)
    → InRange b
    → InRange x
    → leb_ℤ (pos 0) x ≡ true
    → leb_ℤ x b ≡ true
    → (sub_floor (from_cents b) (exact x) ≡ exact (b -ℤ x)) × InRange (b -ℤ x)
floor_lem b x fb fx nx c =
    let fits : InRange (b -ℤ x) = ground (arith, -ℤ_parts b x) in
    let e : sub (from_cents b) (exact x) ≡ exact (b -ℤ x) =
      sub-eq-from_cents (from_cents b) (exact x)
      ∙ rw (cents-from_cents b fb, cents-exact x fx) (from_cents-in_range (b -ℤ x) fits) in
    (rw e (floor_off (b -ℤ x) (ground (arith, -ℤ_parts b x))), fits)
  where
    floor_off :
        (d : ℤ)
        → ltb_ℤ d (pos 0) ≡ false
        → (if lt_amount (exact d) zero_amount then zero_amount else exact d) ≡ exact d
    floor_off d h = rw h refl

module _ (db : Db) (user : ℕ) (a x y : ℤ) (now : ℕ) (fa : InRange a) (fx : InRange x)
    (fy : InRange y) (nx : leb_ℤ (pos 0) x ≡ true) where
  not_exceeded : (b : ℤ) → InRange b → exceeds (exact x) (some b) ≡ false → leb_ℤ x b ≡ true
  not_exceeded b fb h =
      let e : from_cents b ≡ exact b = from_cents-in_range b fb in
      let h1 : ltb_ℤ b x ≡ false = rw e at h in ground (arith, h1)

  next_lem :
      (o : Option ℤ) {b : Option ℤ}
      → option_scans o ≡ true
      → exceeds (exact x) o ≡ false
      → value_option (next_balance (exact x) o) ≡ ok b
      → Covers x o
        × (b ≡ owed_after x o)
        × ((at : Option ℕ)
            → (if pays_off (next_balance (exact x) o) then some now else at) ≡ off_at now x o at)
  next_lem none scans h e = (unrecorded, cc, λ at. refl)
  next_lem (some c) scans h e =
      let fc : InRange c = is_valid-InRange c scans in
      let less = not_exceeded c fc h in
      let (rest, fits) = floor_lem c x fc fx nx less in
      let (d, v, e1) = >>=-eq-ok (value (sub_floor (from_cents c) (exact x))) _ e in
      let same : d ≡ c -ℤ x =
        value-from_cents (c -ℤ x) d (ap value (from_cents-in_range (c -ℤ x) fits ∙ sym rest) ∙ v) in
      (covers c less, some_same e1 same, λ at. rw rest refl)
    where
      some_same : {A : Type 0} {u v : A} {w : Option A} → ok (some u) ≡ ok w → u ≡ v → w ≡ some v
      some_same h e = cc

  same_rows :
      (r : Reminder) (b b' : Option ℤ) (t t' s s' : ℤ) (at at' : Option ℕ)
      → b ≡ b'
      → t ≡ t'
      → s ≡ s'
      → at ≡ at'
      → ◌≡◌ {A = Db}
          (record db { reminders = update_rows (unpaid r user) (paid_row b t s at) db.reminders })
          (record db {
            reminders = update_rows (unpaid r user) (paid_row b' t' s' at') db.reminders;
          })
  same_rows r b b' t t' s s' at at' eb et es ea = rw (eb, et, es, ea) refl

  pub pay_reminder-Written :
      (r : Reminder) {db' : Db}
      → reminder_scans r ≡ true
      → pay_reminder db r user (exact a) (exact x) (exact y) now ≡ ok db'
      → Written db r user a x y now db'
  unfolding pay_reminder
  pay_reminder-Written r scans h =
      let (_, g, h1) =
        >>=-eq-ok (guard (not (exceeds (exact x) r.current_balance)) payment_exceeds_balance) _ h in
      let (t, et, h2) = >>=-eq-ok (value (add (from_cents r.total_paid) (exact a))) _ h1 in
      let (s, es, h3) = >>=-eq-ok (value (add (from_cents r.interest_paid) (exact y))) _ h2 in
      let (b, eb, h4) = >>=-eq-ok (value_option (next_balance (exact x) r.current_balance)) _ h3 in
      let (_, once, h5) =
        >>=-eq-ok (guard (count_rows (unpaid r user) db.reminders == 1) concurrent_balance_update) _
          h4 in
      let ft : InRange r.total_paid = is_valid-InRange r.total_paid (ground arith) in
      let fs : InRange r.interest_paid = is_valid-InRange r.interest_paid (ground arith) in
      let same_t = repaid_sum r.total_paid a t ft fa et in
      let same_s = repaid_sum r.interest_paid y s fs fy es in
      let (covered, same_b, same_at) =
        next_lem r.current_balance (ground arith) (ground arith) eb in
      record {
        covered = covered;
        only = (==_iff _ _).0 (ground arith);
        rows =
            sym (ok-injective h5)
            ∙ same_rows r _ _ _ _ _ _ _ _ same_b same_t same_s (same_at r.paid_off_at);
      }
