-- ===== src/Tests/Balances.antt =====
-- Balance mutations at concrete inputs.
use sky_personal_ledger.Base.{
  ℕ, ◌≡◌, refl, true, [], ◌∷◌, map, arith, pos, ◌+ℤ◌, ◌-ℤ◌, find_row, count_rows, update_rows, ok,
}
use sky_personal_ledger.Money.{from_cents, cents, is_valid, value, add, negate}
use sky_personal_ledger.Model.{Db, is_debt_account}
use sky_personal_ledger.Balance.{
  read_account, update_account_balance, create_account_log, log_account_balance_change,
  apply_account_balance_mutation, account_balance_delta, apply_transaction_account_delta, present,
  balance_account_ids, put_owner, put_owners, collect_owners, lock_order, lock_all,
  lock_balance_accounts, move_balances, apply_balance_changes, unmove_balances,
  revert_balance_changes,
}
use sky_personal_ledger.Balance.Mutation.{Framed}
use sky_personal_ledger.Balance.Conservation.{Moves, apply_balance_changes-Moves}
use sky_personal_ledger.Balance.Frame.{revert_balance_changes-Moves}
use sky_personal_ledger.Balance.Undo.{Restores}
use sky_personal_ledger.Balance.Revert.{revert-apply}
use sky_personal_ledger.Balance.LockOrder.{
  lock_order-IsAscending, IsAscending, has_lock, needs_lock,
}
use sky_personal_ledger.Tests.Data.{ledger, payment, or_ledger}

abbrev paid : Db
paid = or_ledger (apply_balance_changes ledger payment true)

paid_ok : apply_balance_changes ledger payment true ≡ ok paid
unfolding apply_balance_changes lock_balance_accounts lock_all lock_order collect_owners put_owners
    put_owner balance_account_ids present move_balances apply_transaction_account_delta
    account_balance_delta apply_account_balance_mutation log_account_balance_change read_account
    create_account_log update_account_balance find_row count_rows update_rows is_debt_account
    is_valid from_cents value add cents negate ◌-ℤ◌ ◌+ℤ◌
paid_ok = refl

abbrev unpaid : Db
unpaid = or_ledger (revert_balance_changes paid payment true)

unpaid_ok : revert_balance_changes paid payment true ≡ ok unpaid
unfolding apply_balance_changes revert_balance_changes unmove_balances lock_balance_accounts
    lock_all lock_order collect_owners put_owners put_owner balance_account_ids present
    move_balances apply_transaction_account_delta account_balance_delta
    apply_account_balance_mutation log_account_balance_change read_account create_account_log
    update_account_balance find_row count_rows update_rows is_debt_account is_valid from_cents value
    add cents negate ◌-ℤ◌ ◌+ℤ◌
unpaid_ok = refl

-- Both balances moved, and the debt with the opposite sign.
paid_balances : map (λ a. a.current_balance) paid.accounts ≡ pos 7500 ∷ pos 500 ∷ []
unfolding apply_balance_changes revert_balance_changes unmove_balances lock_balance_accounts
    lock_all lock_order collect_owners put_owners put_owner balance_account_ids present
    move_balances apply_transaction_account_delta account_balance_delta
    apply_account_balance_mutation log_account_balance_change read_account create_account_log
    update_account_balance find_row count_rows update_rows is_debt_account is_valid from_cents value
    add cents negate ◌-ℤ◌ ◌+ℤ◌
paid_balances = refl

apply_balance_changes-Moves_example : Moves 7 (pos 0) ledger paid
apply_balance_changes-Moves_example = apply_balance_changes-Moves ledger payment paid_ok

revert_balance_changes-Moves_example : Moves 7 (pos 0) paid unpaid × Framed paid unpaid
unfolding present
revert_balance_changes-Moves_example = revert_balance_changes-Moves paid payment unpaid_ok

revert-apply_example : Restores ledger (revert_balance_changes paid payment true)
revert-apply_example =
    revert-apply ledger payment (omega arith) paid refl (λ e. unfold present in (λ p. cc)) paid_ok

lock_order-IsAscending_example :
    IsAscending (lock_order (payment ∷ []))
    × ((acct : ℕ) → has_lock acct (lock_order (payment ∷ [])) ≡ needs_lock acct (payment ∷ []))
lock_order-IsAscending_example = lock_order-IsAscending (payment ∷ [])
