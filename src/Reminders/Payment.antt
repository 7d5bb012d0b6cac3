-- ===== src/Reminders/Payment.antt =====
-- `RecordPayment` of service/reminder.go: the reminder's row, the transaction of the payment and the
-- debt account.
use sky_personal_ledger.Base.{
  ℕ, Bool, true, false, not, ◌&&◌, Option, none, some, List, [], ◌∷◌, ltb, ◌==◌, if◌then◌else◌, ℤ,
  pos, ◌+ℤ◌, leb_ℤ, ◌==ℤ◌, find_row, count_rows, update_rows, Result, ok, ◌>>=◌, ◌>>◌, guard,
  or_error,
}
use sky_personal_ledger.Base.{
  invalid_money, account_not_found, same_account, concurrent_balance_update, reminder_not_found,
  payment_exceeds_balance,
}
use sky_personal_ledger.Money.{
  Amount, from_cents, cents, add, sub, negate, value, lt_amount, eq_amount, zero_amount,
}
use sky_personal_ledger.Model.{
  Account, Reminder, Transaction, expense, from_reminder, blank, log_expense, log_adjustment, Db,
}
use sky_personal_ledger.Balance.{
  present, account_is, read_account, account_balance_delta, apply_account_balance_mutation,
  log_account_balance_change,
}
use sky_personal_ledger.Categories.{repayment_name, find_or_create_category}
use sky_personal_ledger.Transactions.{sub_floor, reminder_scans, value_option}
use sky_personal_ledger.Reminders.Defs.{
  live_reminder, RecordPaymentRequest, normalize_payment_split,
}

-- The account ids that are given, each once, in order (`getAccountsForUserTx`).
unfoldable pub payment_accounts : Option ℕ → Option ℕ → List ℕ
payment_accounts none none = []
payment_accounts none (some b) = b ∷ []
payment_accounts (some a) none = a ∷ []
payment_accounts (some a) (some b) =
    if a == b then a ∷ [] else if ltb a b then a ∷ b ∷ [] else b ∷ a ∷ []

-- The accounts that are read, under their ids.
unfoldable pub read_accounts : Db → ℕ → List ℕ → Result (List (ℕ × Account))
read_accounts db user [] = ok []
read_accounts db user (id ∷ ids) = do
  a ← read_account db id user
  rest ← read_accounts db user ids
  ok ((id, a) ∷ rest)

unfoldable pub account_under : ℕ → List (ℕ × Account) → Option Account
account_under id [] = none
account_under id ((k, a) ∷ rest) = if k == id then some a else account_under id rest

abbrev pub account_at : Option ℕ → List (ℕ × Account) → Option Account
account_at none accounts = none
account_at (some id) accounts = account_under id accounts

-- The row still is what was read: the condition of the guarded update.
abbrev pub eq_option : Option ℤ → Option ℤ → Bool
eq_option none none = true
eq_option (some a) (some b) = a ==ℤ b
eq_option _ _ = false

abbrev pub unpaid : Reminder → ℕ → Reminder → Bool
unpaid r user x =
    live_reminder r.id user x
    && (x.total_paid ==ℤ r.total_paid
        && (x.interest_paid ==ℤ r.interest_paid && eq_option x.current_balance r.current_balance))

abbrev pub exceeds : Amount → Option ℤ → Bool
exceeds principal none = false
exceeds principal (some balance) = lt_amount (from_cents balance) principal

-- What is still owed after a payment of the principal, if anything is recorded.
abbrev pub next_balance : Amount → Option ℤ → Option Amount
next_balance principal none = none
next_balance principal (some balance) = some (sub_floor (from_cents balance) principal)

abbrev pub pays_off : Option Amount → Bool
pays_off none = false
pays_off (some a) = eq_amount a zero_amount

abbrev pub paid_row : Option ℤ → ℤ → ℤ → Option ℕ → Reminder → Reminder
paid_row balance paid interest at r = record r {
  current_balance = balance;
  total_paid = paid;
  interest_paid = interest;
  paid_off_at = at;
}

-- The part of `RecordPayment` about the reminder's own row, at the time `now`.
unfoldable pub pay_reminder : Db → Reminder → ℕ → Amount → Amount → Amount → ℕ → Result Db
pay_reminder db r user amount principal interest now = do
  guard (not (exceeds principal r.current_balance)) payment_exceeds_balance
  paid ← value (add (from_cents r.total_paid) amount)
  interests ← value (add (from_cents r.interest_paid) interest)
  balance ← value_option (next_balance principal r.current_balance)
  guard (count_rows (unpaid r user) db.reminders == 1) concurrent_balance_update
  ok (record db {
    reminders =
        update_rows (unpaid r user)
          (paid_row balance paid interests (
            if pays_off (next_balance principal r.current_balance)
            then some now
            else r.paid_off_at))
          db.reminders;
  })

abbrev pub payment_transaction : ℕ → ℕ → ℕ → ℕ → ℕ → ℤ → ℤ → ℤ → ℕ → Transaction
payment_transaction id user acct category reminder amount principal interest now = record {
  id = id;
  user_id = user;
  account_id = acct;
  category_id = some category;
  type = expense;
  amount = amount;
  principal_amount = principal;
  interest_amount = interest;
  transaction_date = now;
  tags = blank;
  to_account_id = none;
  member_id = none;
  paid_by_member_id = none;
  source = from_reminder;
  reminder_id = some reminder;
  lending_id = none;
  deleted = false;
}

-- `createPaymentTransactionTx`: `tx` and `category` are the new ids.
unfoldable pub create_payment_transaction :
    Db → ℕ → Reminder → Amount → Amount → Amount → Account → ℕ → ℕ → ℕ → Result Db
create_payment_transaction db user r amount principal interest source now tx category = do
  let found = find_or_create_category db user expense repayment_name category
  a ← value amount
  p ← value principal
  i ← value interest
  let booked = record found.1 {
    transactions =
        payment_transaction tx user source.id found.0 r.id a p i now ∷ found.1.transactions;
  }
  delta ← account_balance_delta booked user source.id (negate amount)
  apply_account_balance_mutation booked user source.id log_expense amount delta
      (record { of_transaction = some tx; of_reminder = some r.id; of_lending = none }) true

-- `current_balance_cents` and `total_paid_cents + ?` of a debt account.
abbrev pub pay_debt : ℤ → ℤ → Account → Account
pay_debt balance principal a = record a {
  current_balance = balance;
  total_paid = a.total_paid +ℤ principal;
}

abbrev pub mark_paid_off : ℕ → Account → Account
mark_paid_off now a = record a { paid_off_at = some now }

-- `applyDebtAccountPaymentTx`: the account is the row that was read before the payment.
unfoldable pub apply_debt_account_payment : Db → Account → ℕ → Amount → Option ℕ → ℕ → ℕ → Result Db
apply_debt_account_payment db a user principal tx reminder now =
    if eq_amount principal zero_amount then ok db else (do
      let next = sub_floor (from_cents a.current_balance) principal
      logged ←
          log_account_balance_change db user a.id log_adjustment principal
            (sub next (from_cents a.current_balance))
            (record { of_transaction = tx; of_reminder = some reminder; of_lending = none }) true
      balance ← value next
      guard (count_rows (account_is a.id user) logged.accounts == 1) account_not_found
      let paid =
          update_rows (account_is a.id user) (pay_debt balance (cents principal)) logged.accounts
      ok (record logged {
        accounts =
            update_rows (λ (x : Account). account_is a.id user x && leb_ℤ x.current_balance (pos 0))
              (mark_paid_off now) paid;
      }))

unfoldable pub pay_from :
    Db → ℕ → Reminder → Amount → Amount → Amount → Option Account → ℕ → ℕ → ℕ → Result Db
pay_from db user r amount principal interest none now tx category = ok db
pay_from db user r amount principal interest (some source) now tx category =
    create_payment_transaction db user r amount principal interest source now tx category

unfoldable pub pay_down : Db → Option Account → ℕ → Amount → Option ℕ → ℕ → ℕ → Result Db
pay_down db none user principal tx reminder now = ok db
pay_down db (some debt) user principal tx reminder now =
    apply_debt_account_payment db debt user principal tx reminder now

abbrev pub same_id : Option ℕ → Option ℕ → Bool
same_id (some a) (some b) = a == b
same_id _ _ = false

-- `RecordPayment`: `now` is the time, `tx` and `category` are the new ids.
unfoldable pub record_payment : Db → ℕ → ℕ → RecordPaymentRequest → ℕ → ℕ → ℕ → Result Db
record_payment db id user req now tx category = do
  split ← normalize_payment_split req
  r ← or_error (find_row (live_reminder id user) db.reminders) reminder_not_found
  guard (reminder_scans r) invalid_money
  guard (not (same_id (present req.account_id) (present r.account_id))) same_account
  paid ← pay_reminder db r user req.amount split.0 split.1 now
  accounts ←
      read_accounts paid user (payment_accounts (present req.account_id) (present r.account_id))
  let source = account_at (present req.account_id) accounts
  booked ← pay_from paid user r req.amount split.0 split.1 source now tx category
  pay_down booked (account_at (present r.account_id) accounts) user split.0
      (elim source [ none ↦ none | some _ ↦ some tx ]) r.id now
