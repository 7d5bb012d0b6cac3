-- ===== src/Reminders/Defs.antt =====
-- Creating, deleting and toggling reminders, and the split of a payment into principal and interest.
-- The columns that only describe a reminder (name, days, rate, dates, colour, evidence) are left out.
use sky_personal_ledger.Base.{
  ℕ, Bool, true, false, not, ◌&&◌, ◌||◌, Option, none, some, ◌∷◌, ◌==◌, if◌then◌else◌, ℤ, pos,
  ◌==ℤ◌, find_row, count_rows, update_rows, Result, ok, ◌>>=◌, ◌>>◌, guard, or_error,
}
use sky_personal_ledger.Base.{
  reminder_not_found, payment_not_positive, payment_split_negative, payment_split_mismatch,
  linked_debt_balance_immutable,
}
use sky_personal_ledger.Money.{
  Amount, from_cents, cents, add, sub, round_money, lt_amount, le_amount, eq_amount, zero_amount,
}
use sky_personal_ledger.Model.{Account, Reminder, Db, is_debt_account}
use sky_personal_ledger.Balance.{present}
use sky_personal_ledger.Accounts.{get_account, check_date}
use sky_personal_ledger.Transactions.{reminder_is, reminder_scans, value_option}

pub record CreateReminderRequest : Type 0 where
  pub account_id : Option ℕ
  pub principal : Option Amount
  pub current_balance : Option Amount
  pub start_date : Option (Option ℕ)
  pub target_date : Option (Option ℕ)

-- `ensureAccountBelongsToUser`
unfoldable pub ensure_account_belongs : Db → Option ℕ → ℕ → Result (Unit {0})
ensure_account_belongs db none user = ok tt
ensure_account_belongs db (some id) user = do found ← get_account db id user; ok tt

-- Whether a balance of the request differs from the debt account's.
abbrev pub differs : Option Amount → Account → Bool
differs none a = false
differs (some b) a = not (eq_amount (round_money b) (round_money (from_cents a.current_balance)))

-- The balance of the new reminder: that of its debt account, or the request's.
unfoldable pub linked_balance : Db → Option ℕ → ℕ → Option Amount → Result (Option Amount)
linked_balance db none user balance = ok balance
linked_balance db (some id) user balance = do
  a ← get_account db id user
  (if is_debt_account a.type
      then (do
        guard (not (differs balance a)) linked_debt_balance_immutable
        ok (some (from_cents a.current_balance)))
      else ok balance)

abbrev pub new_reminder : ℕ → ℕ → Option ℕ → Option ℤ → Option ℤ → Reminder
new_reminder id user acct principal balance = record {
  id = id;
  user_id = user;
  account_id = acct;
  principal = principal;
  current_balance = balance;
  total_paid = pos 0;
  interest_paid = pos 0;
  is_enabled = true;
  paid_off_at = none;
  deleted = false;
}

-- `Create`: `id` is the new id.
unfoldable pub create_reminder : Db → ℕ → CreateReminderRequest → ℕ → Result Db
create_reminder db user req id = do
  ensure_account_belongs db (present req.account_id) user
  balance ← linked_balance db (present req.account_id) user req.current_balance
  check_date req.start_date
  check_date req.target_date
  p ← value_option req.principal
  b ← value_option balance
  ok (record db { reminders = new_reminder id user (present req.account_id) p b ∷ db.reminders })

-- `id = ? AND user_id = ?`, with the soft deletion that gorm adds.
abbrev pub live_reminder : ℕ → ℕ → Reminder → Bool
live_reminder id user r = reminder_is id user r && not r.deleted

-- `GetByID`: whatever fails, the reminder is not found.
unfoldable pub get_reminder : Db → ℕ → ℕ → Result Reminder
get_reminder db id user = do
  r ← or_error (find_row (live_reminder id user) db.reminders) reminder_not_found
  guard (reminder_scans r) reminder_not_found
  ok r

abbrev pub drop_reminder : Reminder → Reminder
drop_reminder r = record r { deleted = true }

-- `Delete`
unfoldable pub delete_reminder : Db → ℕ → ℕ → Result Db
delete_reminder db id user = do
  found ← get_reminder db id user
  guard (count_rows (live_reminder id user) db.reminders == 1) reminder_not_found
  ok (record db { reminders = update_rows (live_reminder id user) drop_reminder db.reminders })

abbrev pub set_enabled : Bool → Reminder → Reminder
set_enabled flag r = record r { is_enabled = flag }

-- `Toggle`
unfoldable pub toggle : Db → ℕ → ℕ → Result Db
toggle db id user = do
  r ← get_reminder db id user
  ok (record db {
    reminders = update_rows (live_reminder id user) (set_enabled (not r.is_enabled)) db.reminders;
  })

pub record RecordPaymentRequest : Type 0 where
  pub amount : Amount
  pub principal_amount : Amount
  pub interest_amount : Amount
  pub account_id : Option ℕ

-- `normalizeReminderPaymentSplit`: the principal and the interest of a payment. The float tests are
-- those of the source, each false on NaN but for the last, on cents.
unfoldable pub normalize_payment_split : RecordPaymentRequest → Result (Amount × Amount)
normalize_payment_split req = do
  guard (not (le_amount req.amount zero_amount)) payment_not_positive
  guard
      (not
        (lt_amount req.principal_amount zero_amount || lt_amount req.interest_amount zero_amount))
      payment_split_negative
  (if eq_amount req.principal_amount zero_amount && eq_amount req.interest_amount zero_amount
      then ok (req.amount, zero_amount)
      else (do
        let principal =
            (if eq_amount req.principal_amount zero_amount
              then sub req.amount req.interest_amount
              else req.principal_amount)
        let interest =
            (if eq_amount req.interest_amount zero_amount
              then sub req.amount principal
              else req.interest_amount)
        guard
            (not (
              lt_amount principal zero_amount
              || (lt_amount interest zero_amount
                  || not (cents (add principal interest) ==ℤ cents req.amount))))
            payment_split_mismatch
        ok (principal, interest)))
