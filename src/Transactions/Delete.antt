-- ===== src/Transactions/Delete.antt =====
-- `deleteWithTx` and `DeleteBatch` of transaction.go.
use sky_personal_ledger.Base.{
  ℕ, true, false, not, Option, none, some, List, [], ◌∷◌, ◌==◌, pos, count_rows, update_rows,
  Result, ok, ◌>>=◌, ◌>>◌, guard,
}
use sky_personal_ledger.Base.{transaction_not_found, system_transaction_immutable}
use sky_personal_ledger.Model.{Transaction, blank, manual, unknown_type, Reminder, Db}
use sky_personal_ledger.Balance.{present, lock_balance_accounts, revert_balance_changes}
use sky_personal_ledger.Tags.{transaction_tag_names, decrement_used_counts, sort_names}
use sky_personal_ledger.Transactions.Defs.{transaction_is, read_transaction, is_system_transaction}
use sky_personal_ledger.Transactions.Rollback.{
  load_linked_reminder, revert_reminder_payment, revert_lending_transaction,
}

-- The transaction with an account and nothing else, by which the reminder's account is locked.
abbrev pub lock_only : ℕ → ℕ → Transaction
lock_only user acct = record {
  id = 0;
  user_id = user;
  account_id = acct;
  category_id = none;
  type = unknown_type;
  amount = pos 0;
  principal_amount = pos 0;
  interest_amount = pos 0;
  transaction_date = 0;
  tags = blank;
  to_account_id = none;
  member_id = none;
  paid_by_member_id = none;
  source = manual;
  reminder_id = none;
  lending_id = none;
  deleted = false;
}

unfoldable pub accounts_to_lock : Transaction → ℕ → Option Reminder → List Transaction
accounts_to_lock tx user none = tx ∷ []
accounts_to_lock tx user (some r) = elim (present r.account_id) [
  | none ↦ tx ∷ []
  | some acct ↦ tx ∷ lock_only user acct ∷ []
]

abbrev pub drop_transaction : Transaction → Transaction
drop_transaction tx = record tx { deleted = true }

-- `deleteWithTx`
unfoldable pub delete_with_tx : Db → ℕ → ℕ → Result Db
delete_with_tx db id user = do
  tx ← read_transaction db id user
  guard (not (is_system_transaction tx)) system_transaction_immutable
  reminder ← load_linked_reminder db tx
  lock_balance_accounts db (accounts_to_lock tx user reminder)
  reverted ← revert_balance_changes db tx true
  refunded ← revert_reminder_payment reverted tx reminder
  reopened ← revert_lending_transaction refunded tx
  guard (count_rows (transaction_is id user) reopened.transactions == 1) transaction_not_found
  ok (record reopened {
    transactions = update_rows (transaction_is id user) drop_transaction reopened.transactions;
    tags = decrement_used_counts reopened.tags user (transaction_tag_names tx.tags);
  })

unfoldable pub delete_all : Db → List ℕ → ℕ → Result Db
delete_all db [] user = ok db
delete_all db (id ∷ ids) user = do db' ← delete_with_tx db id user; delete_all db' ids user

-- `DeleteBatch`: one database transaction over the ids in order.
unfoldable pub delete_batch : Db → List ℕ → ℕ → Result Db
unfolding delete_all
delete_batch db ids user = delete_all db (sort_names ids) user
