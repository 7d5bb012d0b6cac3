-- ===== src/Accounts/Defs.antt =====
-- Creating, deleting, archiving, ordering and summing up accounts. The columns that only describe an
-- account (name, icon, colour, days, limits, dates, remark) are left out; a date of a request is
-- `none` where its text does not parse.
use sky_personal_ledger.Base.{
  ℕ, suc, Bool, true, false, not, ◌&&◌, ◌||◌, Option, none, some, List, [], ◌∷◌, ◌==◌,
  if◌then◌else◌, ℤ, pos, ◌==ℤ◌, keep_if, find_row, count_rows, update_rows, Result, ok, err, ◌>>=◌,
  ◌>>◌, guard, or_error,
}
use sky_personal_ledger.Base.{invalid_money, account_not_found, account_has_balance, invalid_date}
use sky_personal_ledger.Money.{
  Amount, from_cents, is_valid, add, sub, negate, value, lt_amount, le_amount, eq_amount,
  zero_amount,
}
use sky_personal_ledger.Model.{
  Account, AccountType, is_debt_account, TxType, income, expense, system, blank, Transaction, Db,
}
use sky_personal_ledger.Balance.{account_is, account_scans}
use sky_personal_ledger.Categories.{initial_balance_name, find_or_create_category}

pub record CreateAccountRequest : Type 0 where
  pub type : AccountType
  pub initial_balance : Amount
  pub start_date : Option (Option ℕ)
  pub target_date : Option (Option ℕ)

-- A date that is given must parse.
abbrev pub check_date : Option (Option ℕ) → Result (Unit {0})
check_date none = ok tt
check_date (some none) = err invalid_date
check_date (some (some date)) = ok tt

abbrev pub new_account : ℕ → ℕ → AccountType → ℤ → Account
new_account id user type c = record {
  id = id;
  user_id = user;
  type = type;
  initial_balance = c;
  current_balance = c;
  total_paid = pos 0;
  paid_off_at = none;
  is_archived = false;
  sort_order = 0;
  deleted = false;
}

-- The type and the amount of the transaction that stands for an initial balance: what is owed is an
-- expense.
unfoldable pub initial_flow : Bool → Amount → TxType × Amount
initial_flow debt initial =
    if debt
    then (if lt_amount zero_amount initial then (expense, initial) else (income, negate initial))
    else (if lt_amount zero_amount initial then (income, initial) else (expense, negate initial))

abbrev pub initial_transaction : ℕ → ℕ → ℕ → ℕ → TxType → ℤ → ℕ → Transaction
initial_transaction id user acct category type c now = record {
  id = id;
  user_id = user;
  account_id = acct;
  category_id = some category;
  type = type;
  amount = c;
  principal_amount = pos 0;
  interest_amount = pos 0;
  transaction_date = now;
  tags = blank;
  to_account_id = none;
  member_id = none;
  paid_by_member_id = none;
  source = system;
  reminder_id = none;
  lending_id = none;
  deleted = false;
}

-- `createInitialBalanceTransactionTx`: `tx` and `category` are the new ids.
unfoldable pub create_initial_balance_transaction :
    Db → ℕ → ℕ → AccountType → Amount → ℕ → ℕ → ℕ → Result Db
create_initial_balance_transaction db user acct type initial now tx category = do
  let flow = initial_flow (is_debt_account type) initial
  let found = find_or_create_category db user flow.0 initial_balance_name category
  c ← value flow.1
  ok (record found.1 {
    transactions = initial_transaction tx user acct found.0 flow.0 c now ∷ found.1.transactions;
  })

-- `Create`: `id`, `tx` and `category` are the new ids.
unfoldable pub create_account : Db → ℕ → CreateAccountRequest → ℕ → ℕ → ℕ → ℕ → Result Db
create_account db user req now id tx category = do
  check_date req.start_date
  check_date req.target_date
  c ← value req.initial_balance
  let opened = record db { accounts = new_account id user req.type c ∷ db.accounts }
  (if eq_amount req.initial_balance zero_amount
      then ok opened
      else create_initial_balance_transaction opened user id req.type req.initial_balance now tx
          category)

-- The rows that `DeleteForUserIfBalanceAllows` deletes.
abbrev pub deletable : ℕ → ℕ → Account → Bool
deletable id user a = account_is id user a && (a.is_archived || a.current_balance ==ℤ pos 0)

abbrev pub drop_account : Account → Account
drop_account a = record a { deleted = true }

-- `Delete`, with the reasons that it gives for a refusal.
unfoldable pub delete_account : Db → ℕ → ℕ → Result Db
delete_account db id user =
    if count_rows (deletable id user) db.accounts == 1
    then ok (record db { accounts = update_rows (deletable id user) drop_account db.accounts })
    else (do
      a ← or_error (find_row (account_is id user) db.accounts) account_not_found
      guard (is_valid (from_cents a.current_balance)) invalid_money
      guard (a.is_archived || a.current_balance ==ℤ pos 0) account_has_balance
      err account_not_found)

abbrev pub set_archived : Bool → Account → Account
set_archived flag a = record a { is_archived = flag }

-- `Archive`, by `UpdateMetadataForUser`, where the row is there.
unfoldable pub archive : Db → ℕ → ℕ → Bool → Result Db
archive db id user flag = do
  guard (not (count_rows (account_is id user) db.accounts == 0)) account_not_found
  ok (record db { accounts = update_rows (account_is id user) (set_archived flag) db.accounts })

-- `First(&account, "id = ?", id)` with the owner tested after it, `GetByID` of the service.
abbrev pub has_id : ℕ → Account → Bool
has_id id a = a.id == id && not a.deleted

unfoldable pub get_account : Db → ℕ → ℕ → Result Account
get_account db id user = do
  a ← or_error (find_row (has_id id) db.accounts) account_not_found
  guard (account_scans a && a.user_id == user) account_not_found
  ok a

unfoldable pub check_owned : Db → ℕ → List ℕ → Result (Unit {0})
check_owned db user [] = ok tt
check_owned db user (id ∷ ids) = do found ← get_account db id user; check_owned db user ids

abbrev pub set_order : ℕ → Account → Account
set_order i a = record a { sort_order = i }

unfoldable pub order_from : ℕ → List ℕ → List Account → List Account
order_from i [] accounts = accounts
order_from i (id ∷ ids) accounts =
    order_from (suc i) ids (update_rows (has_id id) (set_order i) accounts)

-- `UpdateSortOrder`
unfoldable pub update_sort_order : Db → ℕ → List ℕ → Result Db
update_sort_order db user ids = do
  check_owned db user ids
  ok (record db { accounts = order_from 0 ids db.accounts })

pub record AccountSummary : Type 0 where
  pub total_assets : Amount
  pub total_liabilities : Amount
  pub net_assets : Amount

-- `classifyAccountBalance`: a negative debt is an asset, a negative asset a liability.
unfoldable pub classify_account_balance : AccountType → Amount → Amount × Amount
classify_account_balance type balance =
    if is_debt_account type
    then (if le_amount zero_amount balance
        then (zero_amount, balance)
        else (negate balance, zero_amount))
    else (if le_amount zero_amount balance
        then (balance, zero_amount)
        else (zero_amount, negate balance))

unfoldable pub sum_up : List Account → Amount → Amount → Amount × Amount
sum_up [] assets liabilities = (assets, liabilities)
sum_up (a ∷ accounts) assets liabilities =
    let parts = classify_account_balance a.type (from_cents a.current_balance) in
    sum_up accounts (add assets parts.0) (add liabilities parts.1)

abbrev pub owned : ℕ → Account → Bool
owned user a = a.user_id == user && not a.deleted

unfoldable pub all_scan : List Account → Bool
all_scan [] = true
all_scan (a ∷ accounts) = account_scans a && all_scan accounts

-- `GetSummary`
unfoldable pub get_summary : Db → ℕ → Result AccountSummary
get_summary db user = do
  let accounts = keep_if (owned user) db.accounts
  guard (all_scan accounts) invalid_money
  let sums = sum_up accounts zero_amount zero_amount
  ok (record { total_assets = sums.0; total_liabilities = sums.1; net_assets = sub sums.0 sums.1 })
