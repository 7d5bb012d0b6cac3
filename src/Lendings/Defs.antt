-- ===== src/Lendings/Defs.antt =====
-- Creating, repaying, deleting and summing up lendings. An identifier that the code draws is an
-- argument (`fresh` and `now`), and texts (contact, remark, evidence) are left out.
use sky_personal_ledger.Base.{
  ℕ, Bool, true, false, not, ◌&&◌, ◌||◌, Option, none, some, ◌∷◌, ◌==◌, if◌then◌else◌, ℤ, pos,
  leb_ℤ, ◌==ℤ◌, find_row, count_rows, update_rows, Result, ok, ◌>>=◌, ◌>>◌, guard, or_error,
}
use sky_personal_ledger.Base.{
  invalid_money, lending_not_found, invalid_amount, already_settled, concurrent_balance_update,
  lending_overpayment, invalid_date,
}
use sky_personal_ledger.Money.{
  Amount, from_cents, cents, is_valid, add, sub, negate, round_money, value, lt_amount, le_amount,
  zero_amount,
}
use sky_personal_ledger.Model.{
  TxType, income, expense, eq_type, LogType, log_income, log_expense, from_lending, blank, Account,
  Category, Transaction, LendingType, lend_out, borrow_in, Lending, LendingRecord, Db,
}
use sky_personal_ledger.Balance.{
  present, read_account, account_balance_delta, apply_account_balance_mutation,
}
use sky_personal_ledger.Transactions.{lending_scans, lending_unchanged}

-- `id = ? AND user_id = ?`, with the soft deletion that gorm adds.
abbrev pub live_lending : ℕ → ℕ → Lending → Bool
live_lending id user l = l.id == id && (l.user_id == user && not l.deleted)

-- The name of the category of lendings.
abbrev pub lending_name : ℕ
lending_name = 1

abbrev pub lending_category : ℕ → TxType → Category → Bool
lending_category user type c =
    c.user_id == user && (eq_type c.type type && (c.name == lending_name && not c.deleted))

-- `findOrCreateLendingCategoryTx`
unfoldable pub find_or_create_lending_category : Db → ℕ → TxType → ℕ → ℕ × Db
find_or_create_lending_category db user type fresh =
    elim (find_row (lending_category user type) db.categories) [
      | some c ↦ (c.id, db)
      | none ↦ (
        fresh,
        record db {
          categories =
              record {
                id = fresh;
                user_id = user;
                name = lending_name;
                type = type;
                deleted = false;
              }
              ∷ db.categories;
        },
      )
    ]

-- What `createLendingTransactionTx` writes.
abbrev pub lending_transaction : ℕ → ℕ → ℕ → ℕ → ℕ → TxType → ℤ → ℕ → Transaction
lending_transaction id user lending acct category type c date = record {
  id = id;
  user_id = user;
  account_id = acct;
  category_id = some category;
  type = type;
  amount = c;
  principal_amount = pos 0;
  interest_amount = pos 0;
  transaction_date = date;
  tags = blank;
  to_account_id = none;
  member_id = none;
  paid_by_member_id = none;
  source = from_lending;
  reminder_id = none;
  lending_id = some lending;
  deleted = false;
}

-- `createLendingTransactionTx`: `tx` and `category` are the new ids.
unfoldable pub create_lending_transaction : Db → ℕ → ℕ → ℕ → TxType → Amount → ℕ → ℕ → ℕ → Result Db
create_lending_transaction db user lending acct type amount date tx category = do
  let found = find_or_create_lending_category db user type category
  c ← value amount
  ok (record found.1 {
    transactions =
        lending_transaction tx user lending acct found.0 type c date ∷ found.1.transactions;
  })

-- The cash that a lending or a repayment moves, with the type of its transaction.
unfoldable pub lent_type : LendingType → TxType
lent_type lend_out = expense
lent_type borrow_in = income

unfoldable pub lent_flow : LendingType → Amount → Amount
lent_flow lend_out amount = negate amount
lent_flow borrow_in amount = amount

unfoldable pub repaid_type : LendingType → TxType
repaid_type lend_out = income
repaid_type borrow_in = expense

unfoldable pub repaid_flow : LendingType → Amount → Amount
repaid_flow lend_out amount = amount
repaid_flow borrow_in amount = negate amount

abbrev pub flow_log : TxType → LogType
flow_log income = log_income
flow_log _ = log_expense

-- The transaction of a lending or of a repayment, with the account's balance.
unfoldable pub pay_lending : Db → ℕ → ℕ → ℕ → TxType → Amount → Amount → ℕ → ℕ → ℕ → Result Db
pay_lending db user lending acct type amount flow date tx category = do
  booked ← create_lending_transaction db user lending acct type amount date tx category
  delta ← account_balance_delta booked user acct flow
  apply_account_balance_mutation booked user acct (flow_log type) amount delta
      (record { of_transaction = some tx; of_reminder = none; of_lending = some lending }) true

-- `getAccountForUserTx` of an account that is named; the row that is found.
unfoldable pub named_account : Db → Option ℕ → ℕ → Result (Option Account)
named_account db none user = ok none
named_account db (some id) user = do account ← read_account db id user; ok (some account)

pub record CreateLendingRequest : Type 0 where
  pub type : LendingType
  pub principal : Amount
  pub lend_date : Option ℕ
  pub due_date : Option (Option ℕ)
  pub account_id : Option ℕ
  pub create_transaction : Bool

-- `!a.IsValid() || a.Cents() <= 0`, negated.
abbrev pub is_payable : Amount → Bool
is_payable a = is_valid a && not (leb_ℤ (cents a) (pos 0))

abbrev pub new_lending : ℕ → ℕ → CreateLendingRequest → ℤ → Option ℕ → Lending
new_lending id user req c due = record {
  id = id;
  user_id = user;
  type = req.type;
  principal = c;
  current_balance = c;
  total_repaid = pos 0;
  due_date = due;
  settled_at = none;
  account_id = present req.account_id;
  is_settled = false;
  deleted = false;
}

-- The payment that goes with a lending, if it is asked for and an account is named.
unfoldable pub pay_if : Bool → Option Account → Db → (ℕ → Result Db) → Result Db
pay_if asked none db pay = ok db
pay_if asked (some account) db pay = if asked then pay account.id else ok db

-- A due date that is given must be readable.
unfoldable pub parse_due_date : Option (Option ℕ) → Result (Option ℕ)
parse_due_date none = ok none
parse_due_date (some text) = do date ← or_error text invalid_date; ok (some date)

-- `Create`: `id`, `tx` and `category` are the new ids.
unfoldable pub create : Db → ℕ → CreateLendingRequest → ℕ → ℕ → ℕ → Result Db
create db user req id tx category = do
  guard (is_payable req.principal) invalid_amount
  let principal = round_money req.principal
  date ← or_error req.lend_date invalid_date
  due ← parse_due_date req.due_date
  account ← named_account db (present req.account_id) user
  c ← value principal
  let lent = record db { lendings = new_lending id user req c due ∷ db.lendings }
  pay_if req.create_transaction account lent (λ acct.
      pay_lending lent user id acct (lent_type req.type) principal (lent_flow req.type principal)
        date tx category)

pub record RecordRepaymentRequest : Type 0 where
  pub amount : Amount
  pub record_date : Option ℕ
  pub account_id : Option ℕ
  pub create_transaction : Bool

-- The columns that a repayment writes to its lending, the balance at 0 settling it.
abbrev pub repay_row : Bool → Option ℕ → ℤ → ℤ → Lending → Lending
repay_row settled at balance repaid l = record l {
  current_balance = balance;
  total_repaid = repaid;
  is_settled = settled;
  settled_at = at;
}

-- The condition of the guarded update: the live row still is what was read.
abbrev pub still_lending : Lending → ℕ → Lending → Bool
still_lending l user x = lending_unchanged l user x && not x.deleted

-- The first half of `RecordRepayment`'s transaction: the lending's own row.
unfoldable pub repay_lending : Db → Lending → ℕ → Amount → ℕ → Result Db
repay_lending db l user amount now = do
  guard (not (l.is_settled || le_amount (from_cents l.current_balance) zero_amount)) already_settled
  guard (not (lt_amount (round_money (from_cents l.current_balance)) amount)) lending_overpayment
  let next = sub (from_cents l.current_balance) amount
  let settles = cents next ==ℤ pos 0
  balance ← value (if settles then zero_amount else next)
  repaid ← value (add (from_cents l.total_repaid) amount)
  guard (count_rows (still_lending l user) db.lendings == 1) concurrent_balance_update
  ok (record db {
    lendings =
        update_rows (still_lending l user)
          (repay_row (settles || l.is_settled) (if settles then some now else l.settled_at) balance
            repaid)
          db.lendings;
  })

-- The row of `LendingRecord` that a repayment leaves.
abbrev pub repayment_entry :
    ℕ → ℕ → ℕ → ℤ → ℕ → RecordRepaymentRequest → Option Account → ℕ → LendingRecord
repayment_entry entry lending user c date req account tx = record {
  id = entry;
  lending_id = lending;
  user_id = user;
  amount = c;
  record_date = date;
  account_id = present req.account_id;
  transaction_id = elim account [
    | none ↦ none
    | some _ ↦ if req.create_transaction then some tx else none
  ];
  deleted = false;
}

-- The body of `RecordRepayment`'s transaction, at the rounded amount, once the lending is read.
unfoldable pub repay :
    Db → Lending → ℕ → ℕ → RecordRepaymentRequest → Amount → ℕ → ℕ → ℕ → ℕ → ℕ → Result Db
repay db l lending user req amount date now entry tx category = do
  repaid ← repay_lending db l user amount now
  account ← named_account repaid (present req.account_id) user
  paid ← pay_if req.create_transaction account repaid (λ acct.
      pay_lending repaid user lending acct (repaid_type l.type) amount (repaid_flow l.type amount)
        date tx category)
  c ← value amount
  ok (record paid {
    lending_records =
        repayment_entry entry lending user c date req account tx ∷ paid.lending_records;
  })

-- `RecordRepayment`: `now` is the time, `entry`, `tx` and `category` are the new ids.
unfoldable pub record_repayment : Db → ℕ → ℕ → RecordRepaymentRequest → ℕ → ℕ → ℕ → ℕ → Result Db
record_repayment db lending user req now entry tx category = do
  guard (is_payable req.amount) invalid_amount
  date ← or_error req.record_date invalid_date
  l ← or_error (find_row (live_lending lending user) db.lendings) lending_not_found
  guard (lending_scans l) invalid_money
  repay db l lending user req (round_money req.amount) date now entry tx category

-- `Delete` soft-deletes the lending and nothing else.
unfoldable pub delete : Db → ℕ → ℕ → Result Db
delete db id user = do
  guard (count_rows (live_lending id user) db.lendings == 1) lending_not_found
  ok (record db {
    lendings =
        update_rows (live_lending id user) (λ (l : Lending). record l { deleted = true })
          db.lendings;
  })
