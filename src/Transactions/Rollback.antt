-- ===== src/Transactions/Rollback.antt =====
-- transaction_rollback.go: what the deletion of a transaction gives back to the reminder or the
-- lending that it belongs to.
use sky_personal_ledger.Base.{
  ℕ, Bool, true, false, not, ◌&&◌, Option, none, some, List, ◌==◌, if◌then◌else◌, ℤ, ◌==ℤ◌,
  find_row, count_rows, update_rows, Result, ok, err, ◌>>=◌, ◌>>◌, guard,
}
use sky_personal_ledger.Base.{
  invalid_money, account_not_found, concurrent_balance_update, reminder_not_found,
}
use sky_personal_ledger.Money.{
  Amount, from_cents, is_valid, value, add, sub, lt_amount, eq_amount, zero_amount,
}
use sky_personal_ledger.Model.{
  TxType, income, expense, LendingType, lend_out, borrow_in, Account, Lending, LendingRecord,
  Reminder, Transaction, Db, log_rollback,
}
use sky_personal_ledger.Balance.{
  account_is, read_account, log_account_balance_change, amount_of, present,
}

-- A difference that is set to 0 where it is negative.
abbrev pub sub_floor : Amount → Amount → Amount
sub_floor a b = if lt_amount (sub a b) zero_amount then zero_amount else sub a b

-- The unscoped condition `id = ? AND user_id = ?`: a deleted row is found too.
abbrev pub reminder_is : ℕ → ℕ → Reminder → Bool
reminder_is id user r = r.id == id && r.user_id == user

abbrev pub option_scans : Option ℤ → Bool
option_scans none = true
option_scans (some c) = is_valid (from_cents c)

abbrev pub reminder_scans : Reminder → Bool
reminder_scans r =
    option_scans r.principal
    && (option_scans r.current_balance
        && (is_valid (from_cents r.total_paid) && is_valid (from_cents r.interest_paid)))

-- `loadLinkedReminderForRollbackTx`: no link, or a reminder that is gone, is no error.
unfoldable pub load_linked_reminder : Db → Transaction → Result (Option Reminder)
load_linked_reminder db tx = elim (present tx.reminder_id) [
  | none ↦ ok none
  | some id ↦ elim (find_row (reminder_is id tx.user_id) db.reminders) [
    | none ↦ ok none
    | some r ↦ if reminder_scans r then ok (some r) else err invalid_money
  ]
]

-- The principal and the interest of the payment that is rolled back.
unfoldable pub rolled_principal : Transaction → Amount
rolled_principal tx =
    if eq_amount (from_cents tx.principal_amount) zero_amount
    then amount_of tx
    else from_cents tx.principal_amount

unfoldable pub rolled_interest : Transaction → Amount
unfolding rolled_principal
rolled_interest tx =
    if eq_amount (from_cents tx.interest_amount) zero_amount
      && lt_amount (rolled_principal tx) (amount_of tx)
    then sub (amount_of tx) (rolled_principal tx)
    else from_cents tx.interest_amount

abbrev pub is_positive : Option ℤ → Bool
is_positive none = false
is_positive (some c) = lt_amount zero_amount (from_cents c)

-- `Value` of a nullable amount.
abbrev pub value_option : Option Amount → Result (Option ℤ)
value_option none = ok none
value_option (some a) = do c ← value a; ok (some c)

abbrev pub clear_if : Bool → Option ℕ → Option ℕ
clear_if true date = none
clear_if false date = date

-- The reminder after its payment is taken back.
unfoldable pub refund_reminder : Reminder → Transaction → Result Reminder
refund_reminder r tx = do
  paid ← value (sub_floor (from_cents r.total_paid) (amount_of tx))
  interest ← value (sub_floor (from_cents r.interest_paid) (rolled_interest tx))
  balance ← value_option (elim r.current_balance [
    | none ↦ none
    | some c ↦ some (add (from_cents c) (rolled_principal tx))
  ])
  ok (record r {
    current_balance = balance;
    total_paid = paid;
    interest_paid = interest;
    paid_off_at = clear_if (is_positive balance) r.paid_off_at;
  })

-- The debt account after its payment is taken back.
unfoldable pub refund_account : Account → Amount → Result Account
refund_account a principal = do
  balance ← value (add (from_cents a.current_balance) principal)
  paid ← value (sub_floor (from_cents a.total_paid) principal)
  ok (record a {
    current_balance = balance;
    total_paid = paid;
    paid_off_at = clear_if (is_positive (some balance)) a.paid_off_at;
  })

abbrev pub overwrite {ℓ} : {A : Type ℓ} → A → A → A
overwrite new old = new

-- The part of `revertReminderPaymentTx` about the reminder's account.
unfoldable pub refund_debt : Db → Transaction → Reminder → Option ℕ → Result Db
refund_debt db tx r none = ok db
refund_debt db tx r (some acct) = do
  account ← read_account db acct tx.user_id
  logged ←
      log_account_balance_change db tx.user_id acct log_rollback (rolled_principal tx)
        (rolled_principal tx)
        (record { of_transaction = some tx.id; of_reminder = some r.id; of_lending = none }) true
  refunded ← refund_account account (rolled_principal tx)
  guard (count_rows (account_is acct tx.user_id) logged.accounts == 1) account_not_found
  ok (record logged {
    accounts = update_rows (account_is acct tx.user_id) (overwrite refunded) logged.accounts;
  })

-- `revertReminderPaymentTx`
unfoldable pub revert_reminder_payment : Db → Transaction → Option Reminder → Result Db
revert_reminder_payment db tx none = ok db
revert_reminder_payment db tx (some r) = do
  refunded ← refund_reminder r tx
  guard (count_rows (reminder_is r.id tx.user_id) db.reminders == 1) reminder_not_found
  refund_debt
      (record db {
        reminders = update_rows (reminder_is r.id tx.user_id) (overwrite refunded) db.reminders;
      })
      tx r (present r.account_id)

abbrev pub lending_is : ℕ → ℕ → Lending → Bool
lending_is id user l = l.id == id && l.user_id == user

abbrev pub lending_scans : Lending → Bool
lending_scans l =
    is_valid (from_cents l.principal)
    && (is_valid (from_cents l.current_balance) && is_valid (from_cents l.total_repaid))

-- Whether the transaction is a repayment of the lending, and not the lending itself.
unfoldable pub is_repayment : LendingType → TxType → Bool
is_repayment lend_out income = true
is_repayment borrow_in expense = true
is_repayment _ _ = false

-- The lending after a transaction of it is taken back.
unfoldable pub refund_lending : Lending → Transaction → Result Lending
refund_lending l tx =
    if is_repayment l.type tx.type
    then (do
      repaid ← value (sub_floor (from_cents l.total_repaid) (amount_of tx))
      balance ← value (add (from_cents l.current_balance) (amount_of tx))
      let reopened = l.is_settled && is_positive (some balance)
      ok (record l {
        current_balance = balance;
        total_repaid = repaid;
        settled_at = clear_if reopened l.settled_at;
        is_settled = if reopened then false else l.is_settled;
      }))
    else (do
      balance ← value (sub_floor (from_cents l.current_balance) (amount_of tx))
      ok (record l { current_balance = balance }))

-- The rows of `Delete(&model.LendingRecord{})` with `user_id = ? AND transaction_id = ?`.
abbrev pub record_of : Transaction → LendingRecord → Bool
record_of tx r =
    r.user_id == tx.user_id
    && (elim r.transaction_id [ none ↦ false | some id ↦ id == tx.id ])
    && not r.deleted

abbrev pub drop_record : LendingRecord → LendingRecord
drop_record r = record r { deleted = true }

abbrev pub drop_records : Db → Lending → Transaction → List LendingRecord
drop_records db l tx =
    if is_repayment l.type tx.type
    then update_rows (record_of tx) drop_record db.lending_records
    else db.lending_records

-- The condition of the guarded update: the row still is what was read.
abbrev pub lending_unchanged : Lending → ℕ → Lending → Bool
lending_unchanged l user x =
    lending_is l.id user x
    && (x.current_balance ==ℤ l.current_balance
        && (x.total_repaid ==ℤ l.total_repaid
            && (if l.is_settled then x.is_settled else not x.is_settled)))

-- `revertLendingTransactionTx`
unfoldable pub revert_lending_transaction : Db → Transaction → Result Db
revert_lending_transaction db tx = elim (present tx.lending_id) [
  | none ↦ ok db
  | some id ↦ elim (find_row (lending_is id tx.user_id) db.lendings) [
    | none ↦ ok db
    | some l ↦ do
      guard (lending_scans l) invalid_money
      refunded ← refund_lending l tx
      guard (count_rows (lending_unchanged l tx.user_id) db.lendings == 1) concurrent_balance_update
      ok (record db {
        lendings = update_rows (lending_unchanged l tx.user_id) (overwrite refunded) db.lendings;
        lending_records = drop_records db l tx;
      })
  ]
]
