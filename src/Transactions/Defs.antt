-- ===== src/Transactions/Defs.antt =====
-- Requests, their validation, `createWithTx` and `Update`. A request's date is the instant that
-- `parseTransactionDate` makes of its text, or `none` where that fails. Attachments are left out:
-- the requests here carry no images.
use sky_personal_ledger.Base.{
  ℕ, Bool, true, false, not, ◌&&◌, ◌||◌, Option, none, some, [], ◌∷◌, ◌==◌, if◌then◌else◌, ℤ, pos,
  find_row, count_rows, update_rows, Result, ok, err, ◌>>=◌, ◌>>◌, guard, or_error,
}
use sky_personal_ledger.Base.{
  invalid_money, account_not_found, transaction_not_found, same_account, invalid_transaction_amount,
  invalid_transaction_type, category_not_found, category_type_mismatch, family_member_not_found,
  managed_transaction_immutable, system_transaction_immutable, invalid_date,
}
use sky_personal_ledger.Money.{Amount, from_cents, is_valid, value, le_amount, zero_amount}
use sky_personal_ledger.Model.{
  TxType, transfer, unknown_type, eq_type, Source, system, from_lending, from_reminder, TagText,
  Category, FamilyMember, Transaction, Db,
}
use sky_personal_ledger.Balance.{
  account_is, present, lock_balance_accounts, apply_balance_changes, revert_balance_changes,
}
use sky_personal_ledger.Tags.{transaction_tag_names, increment_used_counts, retag}

pub record CreateTransactionRequest : Type 0 where
  pub type : TxType
  pub amount : Amount
  pub account_id : ℕ
  pub to_account_id : Option ℕ
  pub category_id : Option ℕ
  pub transaction_date : Option ℕ
  pub tags : TagText
  pub member_id : Option ℕ
  pub paid_by_member_id : Option ℕ

-- `validateTransactionRequest`
unfoldable pub validate_transaction_request : CreateTransactionRequest → Result (Unit {0})
validate_transaction_request req = do
  guard (not (eq_type req.type unknown_type)) invalid_transaction_type
  guard (not (le_amount req.amount zero_amount || not (is_valid req.amount)))
      invalid_transaction_amount
  guard (not (req.account_id == 0)) account_not_found

-- `ensureAccountBelongsToUserTx`: only the id is read.
unfoldable pub ensure_account : Db → ℕ → ℕ → Result (Unit {0})
ensure_account db acct user = do
  found ← or_error (find_row (account_is acct user) db.accounts) account_not_found
  ok tt

abbrev pub category_is : ℕ → ℕ → Category → Bool
category_is id user c = c.id == id && (c.user_id == user && not c.deleted)

abbrev pub member_is : ℕ → ℕ → FamilyMember → Bool
member_is id user m = m.id == id && (m.user_id == user && not m.deleted)

-- `ensureFamilyMemberBelongsToUserTx`, where the request names a member.
unfoldable pub ensure_member : Db → Option ℕ → ℕ → Result (Unit {0})
ensure_member db none user = ok tt
ensure_member db (some id) user = do
  found ← or_error (find_row (member_is id user) db.members) family_member_not_found
  ok tt

unfoldable pub ensure_category : Db → Option ℕ → ℕ → TxType → Result (Unit {0})
ensure_category db none user type = ok tt
ensure_category db (some id) user type = do
  category ← or_error (find_row (category_is id user) db.categories) category_not_found
  guard (eq_type type transfer || eq_type category.type type) category_type_mismatch

-- The target of a transfer: named, and another account than the source.
unfoldable pub transfer_target : CreateTransactionRequest → Result (Option ℕ)
transfer_target req =
    if eq_type req.type transfer
    then elim (present req.to_account_id) [
      | none ↦ err same_account
      | some to ↦ if to == req.account_id then err same_account else ok (some to)
    ]
    else ok none

unfoldable pub ensure_target : Db → Option ℕ → ℕ → Result (Unit {0})
ensure_target db none user = ok tt
ensure_target db (some to) user = ensure_account db to user

-- `validateTransactionReferencesTx`
unfoldable pub validate_transaction_references :
    Db → ℕ → CreateTransactionRequest → Result (Unit {0})
validate_transaction_references db user req = do
  to ← transfer_target req
  ensure_account db req.account_id user
  ensure_target db to user
  ensure_category db (present req.category_id) user req.type
  ensure_member db (present req.member_id) user
  ensure_member db (present req.paid_by_member_id) user

abbrev pub transaction_is : ℕ → ℕ → Transaction → Bool
transaction_is id user tx = tx.id == id && (tx.user_id == user && not tx.deleted)

abbrev pub transaction_scans : Transaction → Bool
transaction_scans tx =
    is_valid (from_cents tx.amount)
    && (is_valid (from_cents tx.principal_amount) && is_valid (from_cents tx.interest_amount))

-- `GetByIDForUserWithDB`
unfoldable pub read_transaction : Db → ℕ → ℕ → Result Transaction
read_transaction db id user = do
  tx ← or_error (find_row (transaction_is id user) db.transactions) transaction_not_found
  guard (transaction_scans tx) invalid_money
  ok tx

-- The row that a request asks for, at `c` cents.
abbrev pub requested : ℕ → ℕ → CreateTransactionRequest → ℕ → ℤ → Source → Transaction
requested id user req date c source = record {
  id = id;
  user_id = user;
  account_id = req.account_id;
  category_id = req.category_id;
  type = req.type;
  amount = c;
  principal_amount = pos 0;
  interest_amount = pos 0;
  transaction_date = date;
  tags = req.tags;
  to_account_id = req.to_account_id;
  member_id = req.member_id;
  paid_by_member_id = req.paid_by_member_id;
  source = source;
  reminder_id = none;
  lending_id = none;
  deleted = false;
}

-- `createWithTx`; `id` is the new uuid.
unfoldable pub create_with_tx :
    Db → ℕ → CreateTransactionRequest → Source → ℕ → Result (Transaction × Db)
create_with_tx db user req source id = do
  validate_transaction_request req
  validate_transaction_references db user req
  date ← or_error req.transaction_date invalid_date
  c ← value req.amount
  let tx = requested id user req date c source
  lock_balance_accounts db (tx ∷ [])
  moved ← apply_balance_changes (record db { transactions = tx ∷ db.transactions }) tx true
  let counted = record moved {
    tags = increment_used_counts moved.tags user (transaction_tag_names tx.tags);
  }
  row ← read_transaction counted id user
  ok (row, counted)

unfoldable pub is_system_transaction : Transaction → Bool
is_system_transaction tx = elim tx.source [ system ↦ true | _ ↦ false ]

unfoldable pub is_business_managed_transaction : Transaction → Bool
is_business_managed_transaction tx =
    (elim tx.source [ from_lending ↦ true | from_reminder ↦ true | _ ↦ false ])
    || ((elim tx.lending_id [ none ↦ false | some _ ↦ true ])
        || (elim tx.reminder_id [ none ↦ false | some _ ↦ true ]))

-- The columns that `Update` writes.
abbrev pub rewrite_row : CreateTransactionRequest → ℕ → ℤ → Transaction → Transaction
rewrite_row req date c tx = record tx {
  account_id = req.account_id;
  category_id = req.category_id;
  type = req.type;
  amount = c;
  transaction_date = date;
  tags = req.tags;
  to_account_id = req.to_account_id;
  member_id = req.member_id;
  paid_by_member_id = req.paid_by_member_id;
}

-- `Update`
unfoldable pub update : Db → ℕ → ℕ → CreateTransactionRequest → Result (Transaction × Db)
update db id user req = do
  validate_transaction_request req
  date ← or_error req.transaction_date invalid_date
  current ← read_transaction db id user
  guard (not (is_system_transaction current)) system_transaction_immutable
  guard (not (is_business_managed_transaction current)) managed_transaction_immutable
  validate_transaction_references db user req
  c ← value req.amount
  let next = requested current.id user req date c current.source
  lock_balance_accounts db (current ∷ next ∷ [])
  reverted ← revert_balance_changes db current true
  guard (count_rows (transaction_is id user) reverted.transactions == 1) transaction_not_found
  let rewritten = record reverted {
    transactions =
        update_rows (transaction_is id user) (rewrite_row req date c) reverted.transactions;
  }
  moved ← apply_balance_changes rewritten next true
  let counted = record moved { tags = retag moved.tags user current.tags next.tags }
  row ← read_transaction counted id user
  ok (row, counted)
