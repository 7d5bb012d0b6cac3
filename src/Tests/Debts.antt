-- ===== src/Tests/Debts.antt =====
-- Payments on reminders at concrete inputs.
use sky_personal_ledger.Base.{
  ◌-◌, ◌^◌, ◌≤◌, ◌≡◌, refl, ◌⊎◌, true, false, none, some, [], ◌∷◌, arith, ℤ, pos, ◌+ℤ◌, ◌-ℤ◌, neg_ℤ,
  leb_ℤ, abs_ℕ, +ℤ_parts, find_row, count_rows, update_rows, ok,
}
use sky_personal_ledger.Money.{from_cents, cents, is_valid, value, add, sub, negate, exact}
use sky_personal_ledger.Model.{Db, Reminder, Transaction, credit, is_debt_account}
use sky_personal_ledger.Balance.{
  account_is, read_account, update_account_balance, create_account_log, log_account_balance_change,
  apply_account_balance_mutation, account_balance_delta, present,
}
use sky_personal_ledger.Balance.Conservation.{Moves}
use sky_personal_ledger.Categories.{find_or_create_category}
use sky_personal_ledger.Transactions.{refund_reminder, reminder_scans}
use sky_personal_ledger.Reminders.{
  live_reminder, normalize_payment_split, payment_accounts, read_accounts, account_under,
  pay_reminder, create_payment_transaction, apply_debt_account_payment, pay_from, pay_down,
  payment_transaction, record_payment,
}
use sky_personal_ledger.Reminders.Split.{payment_of, IsSplit, normalize_payment_split-IsSplit}
use sky_personal_ledger.Reminders.Rows.{Covers, covers, paid_reminder}
use sky_personal_ledger.Reminders.Recorded.{record_payment-Paid}
use sky_personal_ledger.Reminders.Interest.{record_payment-Interest}
use sky_personal_ledger.Reminders.Refund.{Payable, refund_reminder-paid, refund_reminder-interest}
use sky_personal_ledger.Tests.Data.{ledger, account_of, or_ledger}

-- The reminder of the credit card, on which 30.00 are owed.
abbrev due : Reminder
due = record {
  id = 8;
  user_id = 7;
  account_id = some 2;
  principal = some (pos 9000);
  current_balance = some (pos 3000);
  total_paid = pos 6500;
  interest_paid = pos 500;
  is_enabled = true;
  paid_off_at = none;
  deleted = false;
}

abbrev owing : Db
owing = record ledger { reminders = due ∷ [] }

split_ok :
    normalize_payment_split (payment_of (pos 3200) (pos 0) (pos 200) (some 1))
    ≡ ok (exact (pos 3000), exact (pos 200))
unfolding normalize_payment_split add sub cents from_cents ◌-ℤ◌ ◌+ℤ◌
split_ok = refl

normalize_payment_split-IsSplit_example :
    (leb_ℤ (pos 1) (pos 3200) ≡ true)
    × ((x y : ℤ) × (exact (pos 3000) ≡ exact x)
        × (exact (pos 200) ≡ exact y)
        × IsSplit (pos 3200) x y
        × ((pos 0 ≡ pos 0) ⊎ (x ≡ pos 0))
        × ((pos 200 ≡ pos 0) ⊎ (y ≡ pos 200)))
normalize_payment_split-IsSplit_example =
    normalize_payment_split-IsSplit (pos 3200) (pos 0) (pos 200) (some 1) (omega arith)
      (omega arith) (omega arith) split_ok

-- 32.00 from the bank card, of which 2.00 are interest, pay the card off.
abbrev settled : Db
settled =
    or_ledger
      (record_payment owing 8 7 (payment_of (pos 3200) (pos 3000) (pos 200) (some 1)) 40 50 60)

settled_ok :
    record_payment owing 8 7 (payment_of (pos 3200) (pos 3000) (pos 200) (some 1)) 40 50 60
    ≡ ok settled
unfolding record_payment normalize_payment_split payment_accounts read_accounts account_under
    pay_reminder create_payment_transaction apply_debt_account_payment pay_from pay_down
    find_or_create_category find_row count_rows update_rows present read_account
    account_balance_delta apply_account_balance_mutation log_account_balance_change
    create_account_log update_account_balance is_debt_account is_valid from_cents value add sub
    cents negate ◌-ℤ◌ ◌+ℤ◌
settled_ok = refl

parts : IsSplit (pos 3200) (pos 3000) (pos 200)
unfolding IsSplit ◌+ℤ◌
parts = (refl, refl, refl)

due_found : find_row (live_reminder 8 7) owing.reminders ≡ some due
unfolding find_row
due_found = refl

record_payment-Paid_example :
    Covers (pos 3000) (some (pos 3000))
    × (find_row (live_reminder 8 7) settled.reminders
        ≡ some (paid_reminder (pos 3200) (pos 3000) (pos 200) 40 due))
record_payment-Paid_example =
    record_payment-Paid owing 8 7 (pos 3200) (pos 3000) (pos 200) (some 1) 40 50 60 due
      (omega arith) refl parts due_found settled_ok

due_scans : reminder_scans due ≡ true
unfolding is_valid from_cents
due_scans = refl

debt_found : find_row (account_is 2 7) owing.accounts ≡ some (account_of 2 credit (pos 3000))
unfolding find_row
debt_found = refl

record_payment-Interest_example : Moves 7 (neg_ℤ (pos 200)) owing settled
unfolding present is_debt_account
record_payment-Interest_example =
    record_payment-Interest owing 8 7 (pos 3200) (pos 3000) (pos 200) (some 1) 1 2
      (account_of 2 credit (pos 3000)) 40 50 60 due (omega arith) refl parts due_found refl refl
      debt_found refl refl settled_ok

abbrev paying : ℤ → ℤ → ℤ → Transaction
paying a p i = payment_transaction 50 7 1 60 8 a p i 40

payable : Payable due (pos 200) (pos 200)
unfolding ◌+ℤ◌
payable = record {
  scans = due_scans;
  owing_still = refl;
  paid = refl;
  interest = refl;
  paid_fits = omega arith;
  interest_fits = omega arith;
}

Payable-all : Payable due (pos 3200) (pos 200)
unfolding ◌+ℤ◌
Payable-all = record {
  scans = due_scans;
  owing_still = refl;
  paid = refl;
  interest = refl;
  paid_fits = omega arith;
  interest_fits = omega arith;
}

refund_reminder-paid_example :
    refund_reminder
      (paid_reminder (pos 3200) (pos 3000) (pos 200) 40 due)
      (paying (pos 3200) (pos 3000) (pos 200))
    ≡ ok due
refund_reminder-paid_example =
    refund_reminder-paid due (paying (pos 3200) (pos 3000) (pos 200)) (pos 3200) (pos 3000)
      (pos 200) 40 Payable-all (omega arith) parts refl (covers (pos 3000) refl) (refl, refl, refl)

refund_reminder-interest_example :
    refund_reminder
      (paid_reminder (pos 200) (pos 0) (pos 200) 40 due)
      (paying (pos 200) (pos 0) (pos 200))
    ≡ ok (record due { current_balance = some (pos 3000 +ℤ pos 200) })
refund_reminder-interest_example =
    refund_reminder-interest due (paying (pos 200) (pos 0) (pos 200)) (pos 200) (pos 3000) 40
      payable (omega arith) refl refl refl (fits) (refl, refl, refl)
  where
    fits : abs_ℕ (pos 3000 +ℤ pos 200) ≤ 2 ^ 53 - 1
    fits = ground (arith, +ℤ_parts (pos 3000) (pos 200))
