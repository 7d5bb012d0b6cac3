-- ===== src/Tests/Movements.antt =====
-- Creating and updating transactions at concrete inputs.
use sky_personal_ledger.Base.{
  false, ◌≡◌, refl, none, some, pos, ◌+ℤ◌, ◌-ℤ◌, find_row, count_rows, update_rows, ok,
}
use sky_personal_ledger.Money.{from_cents, cents, is_valid, value, add, negate}
use sky_personal_ledger.Model.{Transaction, Db, income, transfer, manual, is_debt_account}
use sky_personal_ledger.Balance.{
  read_account, update_account_balance, create_account_log, log_account_balance_change,
  apply_account_balance_mutation, account_balance_delta, amount_of, apply_transaction_account_delta,
  present, balance_account_ids, put_owner, put_owners, collect_owners, lock_order, lock_all,
  lock_balance_accounts, move_balances, apply_balance_changes, unmove_balances,
  revert_balance_changes,
}
use sky_personal_ledger.Balance.Conservation.{Moves}
use sky_personal_ledger.Tags.{
  contains, unique_names, insert_sorted, sort_names, unique_sorted_strings, transaction_tag_names,
  increment_used_counts, decrement_used_counts, retag, transaction_tag_name_diff,
}
use sky_personal_ledger.Transactions.{
  validate_transaction_request, ensure_account, ensure_member, ensure_category, transfer_target,
  ensure_target, validate_transaction_references, read_transaction, create_with_tx,
  is_system_transaction, is_business_managed_transaction, update,
}
use sky_personal_ledger.Transactions.NetWorth.{create_with_tx-Moves, update-Moves}
use sky_personal_ledger.Balance.Frame.{undone_flow}
use sky_personal_ledger.Tests.Data.{ledger, request, or_pair}
use sky_personal_ledger.Transactions.{
  transaction_is, delete_with_tx, load_linked_reminder, accounts_to_lock, revert_reminder_payment,
  revert_lending_transaction,
}
use sky_personal_ledger.Transactions.Deletion.{delete_with_tx-Moves}
use sky_personal_ledger.Model.{expense}
use sky_personal_ledger.Tests.Data.{entry, or_ledger}

abbrev made : Transaction × Db
made = or_pair (create_with_tx ledger 7 (request income (pos 900) none) manual 12)

made_ok : create_with_tx ledger 7 (request income (pos 900) none) manual 12 ≡ ok (made.0, made.1)
unfolding create_with_tx validate_transaction_request validate_transaction_references
    transfer_target ensure_account ensure_target ensure_category ensure_member read_transaction
    increment_used_counts transaction_tag_names unique_sorted_strings unique_names sort_names
    insert_sorted contains apply_balance_changes lock_balance_accounts lock_all lock_order
    collect_owners put_owners put_owner balance_account_ids present move_balances
    apply_transaction_account_delta account_balance_delta apply_account_balance_mutation
    log_account_balance_change read_account create_account_log update_account_balance find_row
    count_rows update_rows is_debt_account is_valid from_cents value add cents negate ◌-ℤ◌ ◌+ℤ◌
made_ok = refl

create_with_tx-Moves_example : Moves 7 (cents (request income (pos 900) none).amount) ledger made.1
create_with_tx-Moves_example =
    create_with_tx-Moves ledger 7 (request income (pos 900) none) manual 12 made_ok

abbrev changed : Transaction × Db
changed = or_pair (update ledger 11 7 (request transfer (pos 900) (some 2)))

changed_ok : update ledger 11 7 (request transfer (pos 900) (some 2)) ≡ ok (changed.0, changed.1)
unfolding create_with_tx validate_transaction_request validate_transaction_references
    transfer_target ensure_account ensure_target ensure_category ensure_member read_transaction
    increment_used_counts transaction_tag_names unique_sorted_strings unique_names sort_names
    insert_sorted contains apply_balance_changes lock_balance_accounts lock_all lock_order
    collect_owners put_owners put_owner balance_account_ids present move_balances
    apply_transaction_account_delta account_balance_delta apply_account_balance_mutation
    log_account_balance_change read_account create_account_log update_account_balance find_row
    count_rows update_rows is_debt_account is_valid from_cents value add cents negate ◌-ℤ◌ ◌+ℤ◌
    update revert_balance_changes unmove_balances is_system_transaction
    is_business_managed_transaction retag transaction_tag_name_diff decrement_used_counts
changed_ok = refl

update-Moves_example :
    (current : Transaction) × (read_transaction ledger 11 7 ≡ ok current)
    × Moves 7
        (undone_flow current.type (present current.to_account_id) (cents (amount_of current))
          +ℤ pos 0)
        ledger
        changed.1
update-Moves_example = update-Moves ledger 11 7 (request transfer (pos 900) (some 2)) changed_ok

abbrev shrunk : Db
shrunk = or_ledger (delete_with_tx ledger 11 7)

shrunk_ok : delete_with_tx ledger 11 7 ≡ ok shrunk
unfolding delete_with_tx load_linked_reminder accounts_to_lock revert_reminder_payment
    revert_lending_transaction is_system_transaction revert_balance_changes unmove_balances
    decrement_used_counts read_transaction transaction_tag_names unique_sorted_strings unique_names
    sort_names insert_sorted contains lock_balance_accounts lock_all lock_order collect_owners
    put_owners put_owner balance_account_ids present apply_transaction_account_delta
    account_balance_delta apply_account_balance_mutation log_account_balance_change read_account
    create_account_log update_account_balance find_row count_rows update_rows is_debt_account
    is_valid from_cents value add cents negate ◌-ℤ◌ ◌+ℤ◌
shrunk_ok = refl

old_read : read_transaction ledger 11 7 ≡ ok (entry 11 expense (pos 400) none)
unfolding read_transaction find_row is_valid from_cents
old_read = refl

delete_with_tx-Moves_example :
    (is_system_transaction (entry 11 expense (pos 400) none) ≡ false)
    × (find_row (transaction_is 11 7) shrunk.transactions ≡ none)
    × Moves 7
        (undone_flow expense (present none) (cents (amount_of (entry 11 expense (pos 400) none))))
        ledger
        shrunk
unfolding present
delete_with_tx-Moves_example =
    delete_with_tx-Moves ledger 11 7 (entry 11 expense (pos 400) none) old_read refl shrunk_ok
