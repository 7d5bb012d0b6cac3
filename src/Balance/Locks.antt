-- ===== src/Balance/Locks.antt =====
-- The account locks of `lockBalanceAccountsTx`, and the two directions of a transaction.
use sky_personal_ledger.Base.{
  ℕ, Bool, Option, none, some, List, [], ◌∷◌, ltb, ◌==◌, if◌then◌else◌, find_row, Result, ok, err,
  ◌>>=◌, ◌>>◌, or_error,
}
use sky_personal_ledger.Base.{account_not_found, same_account}
use sky_personal_ledger.Money.{negate}
use sky_personal_ledger.Model.{
  log_income, log_expense, log_transfer_in, log_transfer_out, log_rollback, Transaction, TxType,
  income, expense, transfer, unknown_type, eq_type, Db,
}
use sky_personal_ledger.Balance.Defs.{
  account_is, amount_of, apply_transaction_account_delta, present,
}

-- `balanceAccountIDs`, sorted: at most two accounts.
unfoldable pub balance_account_ids : Transaction → List ℕ
unfolding present
balance_account_ids tx =
    if tx.account_id == 0
    then []
    else elim (if eq_type tx.type transfer then present tx.to_account_id else none) [
      | none ↦ tx.account_id ∷ []
      | some to ↦
          if to == tx.account_id
          then tx.account_id ∷ []
          else if ltb to tx.account_id
          then to ∷ tx.account_id ∷ []
          else tx.account_id ∷ to ∷ []
    ]

-- A write to the map of owners, kept in the order in which its keys are sorted.
unfoldable pub put_owner : ℕ → ℕ → List (ℕ × ℕ) → List (ℕ × ℕ)
put_owner acct user [] = (acct, user) ∷ []
put_owner acct user ((a, u) ∷ rest) =
    if ltb acct a
    then (acct, user) ∷ (a, u) ∷ rest
    else if acct == a
    then (acct, user) ∷ rest
    else (a, u) ∷ put_owner acct user rest

unfoldable pub put_owners : List ℕ → ℕ → List (ℕ × ℕ) → List (ℕ × ℕ)
put_owners [] user owners = owners
put_owners (a ∷ ids) user owners = put_owners ids user (put_owner a user owners)

unfoldable pub collect_owners : List Transaction → List (ℕ × ℕ) → List (ℕ × ℕ)
collect_owners [] owners = owners
collect_owners (tx ∷ txs) owners =
    collect_owners txs (put_owners (balance_account_ids tx) tx.user_id owners)

-- The accounts in the order in which they are locked, each with its owner.
unfoldable pub lock_order : List Transaction → List (ℕ × ℕ)
unfolding collect_owners put_owners put_owner balance_account_ids
lock_order txs = collect_owners txs []

unfoldable pub lock_all : Db → List (ℕ × ℕ) → Result (Unit {0})
lock_all db [] = ok tt
lock_all db ((acct, user) ∷ rest) = do
  locked ← or_error (find_row (account_is acct user) db.accounts) account_not_found
  lock_all db rest

-- `lockBalanceAccountsTx`
unfoldable pub lock_balance_accounts : Db → List Transaction → Result (Unit {0})
unfolding lock_all lock_order
lock_balance_accounts db txs = lock_all db (lock_order txs)

-- `applyBalanceChangesTx` after its locks.
unfoldable pub move_balances : Db → Transaction → TxType → Option ℕ → Bool → Result Db
move_balances db tx expense to log_change =
    apply_transaction_account_delta db tx tx.account_id log_expense (negate (amount_of tx)) none
      none log_change
move_balances db tx income to log_change =
    apply_transaction_account_delta db tx tx.account_id log_income (amount_of tx) none none
      log_change
move_balances db tx transfer none log_change = err same_account
move_balances db tx transfer (some to) log_change = do
  db' ←
      apply_transaction_account_delta db tx tx.account_id log_transfer_out (negate (amount_of tx))
        none none log_change
  apply_transaction_account_delta db' tx to log_transfer_in (amount_of tx) none none log_change
move_balances db tx unknown_type to log_change = ok db

-- `applyBalanceChangesTx`
unfoldable pub apply_balance_changes : Db → Transaction → Bool → Result Db
apply_balance_changes db tx log_change = do
  lock_balance_accounts db (tx ∷ [])
  move_balances db tx tx.type (present tx.to_account_id) log_change

unfoldable pub unmove_balances : Db → Transaction → TxType → Option ℕ → Bool → Result Db
unmove_balances db tx expense to log_change =
    apply_transaction_account_delta db tx tx.account_id log_rollback (amount_of tx) tx.reminder_id
      tx.lending_id log_change
unmove_balances db tx income to log_change =
    apply_transaction_account_delta db tx tx.account_id log_rollback (negate (amount_of tx))
      tx.reminder_id tx.lending_id log_change
unmove_balances db tx transfer none log_change =
    apply_transaction_account_delta db tx tx.account_id log_rollback (amount_of tx) none none
      log_change
unmove_balances db tx transfer (some to) log_change = do
  db' ←
      apply_transaction_account_delta db tx tx.account_id log_rollback (amount_of tx) none none
        log_change
  apply_transaction_account_delta db' tx to log_rollback (negate (amount_of tx)) none none
      log_change
unmove_balances db tx unknown_type to log_change = ok db

-- `revertBalanceChangesTx`
unfoldable pub revert_balance_changes : Db → Transaction → Bool → Result Db
revert_balance_changes db tx log_change = do
  lock_balance_accounts db (tx ∷ [])
  unmove_balances db tx tx.type (present tx.to_account_id) log_change
