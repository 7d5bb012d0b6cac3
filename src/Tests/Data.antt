-- ===== src/Tests/Data.antt =====
-- A small ledger: user 7 has a bank card (1), a credit card (2) and two lendings.
use sky_personal_ledger.Base.{ℕ, false, Option, none, some, [], ◌∷◌, ℤ, pos, Result, ok, err}
use sky_personal_ledger.Money.{exact}
use sky_personal_ledger.Model.{
  Account, AccountType, bank_card, credit, TxType, expense, transfer, Transaction, manual, plain,
  Lending, lend_out, Tag, Db,
}
use sky_personal_ledger.Transactions.{CreateTransactionRequest}

abbrev pub account_of : ℕ → AccountType → ℤ → Account
account_of id type balance = record {
  id = id;
  user_id = 7;
  type = type;
  initial_balance = pos 0;
  current_balance = balance;
  total_paid = pos 0;
  paid_off_at = none;
  is_archived = false;
  sort_order = id;
  deleted = false;
}

abbrev pub entry : ℕ → TxType → ℤ → Option ℕ → Transaction
entry id type c to = record {
  id = id;
  user_id = 7;
  account_id = 1;
  category_id = none;
  type = type;
  amount = c;
  principal_amount = pos 0;
  interest_amount = pos 0;
  transaction_date = 20;
  tags = plain (5 ∷ 4 ∷ []);
  to_account_id = to;
  member_id = none;
  paid_by_member_id = none;
  source = manual;
  reminder_id = none;
  lending_id = none;
  deleted = false;
}

abbrev pub lent : Lending
lent = record {
  id = 3;
  user_id = 7;
  type = lend_out;
  principal = pos 5000;
  current_balance = pos 2000;
  total_repaid = pos 3000;
  due_date = none;
  settled_at = none;
  account_id = some 1;
  is_settled = false;
  deleted = false;
}

abbrev pub tag_of : ℕ → ℕ → Tag
tag_of name count = record { user_id = 7; name = name; used_count = count; deleted = false }

abbrev pub ledger : Db
ledger = record {
  accounts = account_of 1 bank_card (pos 10000) ∷ account_of 2 credit (pos 3000) ∷ [];
  transactions = entry 11 expense (pos 400) none ∷ [];
  lendings = lent ∷ [];
  lending_records = [];
  reminders = [];
  account_logs = [];
  categories = [];
  members = [];
  tags = tag_of 4 1 ∷ tag_of 5 1 ∷ tag_of 6 0 ∷ [];
}

-- A repayment of 25.00 from the bank card to the credit card.
abbrev pub payment : Transaction
payment = entry 12 transfer (pos 2500) (some 2)

abbrev pub request : TxType → ℤ → Option ℕ → CreateTransactionRequest
request type c to = record {
  type = type;
  amount = exact c;
  account_id = 1;
  to_account_id = to;
  category_id = none;
  transaction_date = some 30;
  tags = plain (6 ∷ 4 ∷ []);
  member_id = none;
  paid_by_member_id = none;
}

-- What a fallible call returns, or else the ledger above.
abbrev pub or_ledger : Result Db → Db
or_ledger (ok db) = db
or_ledger (err e) = ledger

abbrev pub or_pair : Result (Transaction × Db) → Transaction × Db
or_pair (ok p) = p
or_pair (err e) = (payment, ledger)
