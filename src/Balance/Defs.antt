-- ===== src/Balance/Defs.antt =====
-- Balance mutations with their log (transaction_balance.go, `updateAccountBalanceForUserTx` of
-- lending.go, `CreateWithDB` of repository/account_log.go).
use sky_personal_ledger.Base.{
  ℕ, Bool, true, false, not, ◌&&◌, Option, none, some, ◌∷◌, ◌==◌, if◌then◌else◌, ℤ, ◌+ℤ◌, find_row,
  count_rows, update_rows, Result, ok, ◌>>=◌, ◌>>◌, guard, or_error,
}
use sky_personal_ledger.Base.{invalid_money, account_not_found, record_not_found}
use sky_personal_ledger.Money.{Amount, from_cents, cents, is_valid, add, negate, value}
use sky_personal_ledger.Model.{Account, AccountLog, LogType, Transaction, Db, is_debt_account}

-- The condition `id = ? AND user_id = ?`, with the soft deletion that gorm adds.
abbrev pub account_is : ℕ → ℕ → Account → Bool
account_is acct user a = a.id == acct && (a.user_id == user && not a.deleted)

-- Every money column of a row goes through `Scan` when the row is read.
abbrev pub account_scans : Account → Bool
account_scans a =
    is_valid (from_cents a.initial_balance)
    && (is_valid (from_cents a.current_balance) && is_valid (from_cents a.total_paid))

-- `First(&account, "id = ? AND user_id = ?", …)` of a whole row.
unfoldable pub read_account : Db → ℕ → ℕ → Result Account
read_account db acct user = do
  a ← or_error (find_row (account_is acct user) db.accounts) account_not_found
  guard (account_scans a) invalid_money
  ok a

-- `updateAccountBalanceForUserTx`: `current_balance_cents + ?` on the rows that match.
abbrev pub credit : ℤ → Account → Account
credit delta a = record a { current_balance = a.current_balance +ℤ delta }

unfoldable pub update_account_balance : Db → ℕ → ℕ → Amount → Result Db
update_account_balance db acct user delta = do
  guard (count_rows (account_is acct user) db.accounts == 1) account_not_found
  ok (record db {
    accounts = update_rows (account_is acct user) (credit (cents delta)) db.accounts;
  })

-- The ids that a log row links to: transaction, reminder, lending.
pub record Links : Type 0 where
  pub of_transaction : Option ℕ
  pub of_reminder : Option ℕ
  pub of_lending : Option ℕ

abbrev pub log_row : ℕ → ℕ → LogType → ℤ → ℤ → ℤ → Links → AccountLog
log_row user acct type amount before after links = record {
  user_id = user;
  account_id = acct;
  type = type;
  amount = amount;
  balance_before = before;
  balance_after = after;
  transaction_id = links.of_transaction;
  reminder_id = links.of_reminder;
  lending_id = links.of_lending;
}

-- `AccountLogRepository.CreateWithDB`
unfoldable pub create_account_log :
    Db → ℕ → ℕ → LogType → Amount → Amount → Amount → Links → Result Db
create_account_log db user acct type amount before after links = do
  guard (count_rows (account_is acct user) db.accounts == 1) record_not_found
  a ← value amount
  b ← value before
  c ← value after
  ok (record db { account_logs = log_row user acct type a b c links ∷ db.account_logs })

-- `logAccountBalanceChangeTx`
unfoldable pub log_account_balance_change :
    Db → ℕ → ℕ → LogType → Amount → Amount → Links → Bool → Result Db
log_account_balance_change db user acct type amount delta links false = ok db
log_account_balance_change db user acct type amount delta links true = do
  account ← read_account db acct user
  let before = from_cents account.current_balance
  create_account_log db user acct type amount before (add before delta) links

-- `applyAccountBalanceMutationTx`
unfoldable pub apply_account_balance_mutation :
    Db → ℕ → ℕ → LogType → Amount → Amount → Links → Bool → Result Db
apply_account_balance_mutation db user acct type amount delta links log_change = do
  db' ← log_account_balance_change db user acct type amount delta links log_change
  update_account_balance db' acct user delta

-- `accountBalanceDeltaTx`: only the type is read. A debt account holds what is owed.
unfoldable pub account_balance_delta : Db → ℕ → ℕ → Amount → Result Amount
account_balance_delta db user acct cash_flow = do
  account ← or_error (find_row (account_is acct user) db.accounts) account_not_found
  ok (if is_debt_account account.type then negate cash_flow else cash_flow)

abbrev pub amount_of : Transaction → Amount
amount_of tx = from_cents tx.amount

-- `applyTransactionAccountDeltaTx`
unfoldable pub apply_transaction_account_delta :
    Db → Transaction → ℕ → LogType → Amount → Option ℕ → Option ℕ → Bool → Result Db
apply_transaction_account_delta db tx acct type cash_flow reminder lending log_change = do
  delta ← account_balance_delta db tx.user_id acct cash_flow
  apply_account_balance_mutation db tx.user_id acct type (amount_of tx) delta
      (record { of_transaction = some tx.id; of_reminder = reminder; of_lending = lending })
      log_change

-- `ToAccountID != nil && *ToAccountID != ""`
unfoldable pub present : Option ℕ → Option ℕ
present none = none
present (some n) = if n == 0 then none else some n
