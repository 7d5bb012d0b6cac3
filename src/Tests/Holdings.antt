-- ===== src/Tests/Holdings.antt =====
-- Accounts at concrete inputs.
use sky_personal_ledger.Base.{
  ◌≡◌, refl, ◌⊎◌, true, ◌||◌, none, some, ◌∷◌, arith, if◌then◌else◌, pos, neg_part, ◌+ℤ◌, ◌-ℤ◌,
  neg_ℤ, ◌==ℤ◌, find_row, count_rows, update_rows, ok,
}
use sky_personal_ledger.Money.{from_cents, cents, is_valid, value, add, sub, negate, exact}
use sky_personal_ledger.Model.{Account, Db, credit, cash, is_debt_account}
use sky_personal_ledger.Balance.{account_is}
use sky_personal_ledger.Balance.NetWorth.{worth, net_worth}
use sky_personal_ledger.Balance.Conservation.{Moves}
use sky_personal_ledger.Categories.{find_or_create_category}
use sky_personal_ledger.Accounts.{
  CreateAccountRequest, create_account, create_initial_balance_transaction, initial_flow,
  delete_account, AccountSummary, classify_account_balance, sum_up, all_scan, get_summary,
}
use sky_personal_ledger.Accounts.Summary.{get_summary-net_worth, magnitude}
use sky_personal_ledger.Accounts.Opening.{Books, create_account-Moves}
use sky_personal_ledger.Accounts.Closing.{delete_account-Allowed}
use sky_personal_ledger.Tests.Data.{ledger, account_of, or_ledger}

abbrev summed : AccountSummary
summed = record {
  total_assets = exact (pos 10000);
  total_liabilities = exact (pos 3000);
  net_assets = exact (pos 7000);
}

summed_ok : get_summary ledger 7 ≡ ok summed
unfolding get_summary sum_up classify_account_balance all_scan is_debt_account is_valid from_cents
    add sub negate cents ◌-ℤ◌ ◌+ℤ◌ neg_ℤ
summed_ok = refl

get_summary-net_worth_example :
    (summed.net_assets ≡ exact (net_worth 7 ledger))
    × (neg_part (cents summed.total_assets) ≡ 0)
    × (neg_part (cents summed.total_liabilities) ≡ 0)
    × (cents summed.total_assets -ℤ cents summed.total_liabilities ≡ net_worth 7 ledger)
unfolding magnitude
get_summary-net_worth_example = get_summary-net_worth ledger 7 summed_ok (omega arith)

-- A loan that opens with 250.00 owed.
abbrev opening : CreateAccountRequest
opening = record {
  type = credit;
  initial_balance = exact (pos 25000);
  start_date = none;
  target_date = some (some 4);
}

abbrev opened : Db
opened = or_ledger (create_account ledger 7 opening 30 5 21 9)

opened_ok : create_account ledger 7 opening 30 5 21 9 ≡ ok opened
unfolding create_account create_initial_balance_transaction initial_flow find_or_create_category
    find_row is_debt_account is_valid from_cents cents value negate ◌-ℤ◌ ◌+ℤ◌ neg_ℤ
opened_ok = refl

opening_valid : is_valid opening.initial_balance ≡ true
unfolding is_valid
opening_valid = refl

create_account-Moves_example :
    Moves 7
      (if is_debt_account credit
        then neg_ℤ (cents opening.initial_balance)
        else cents opening.initial_balance)
      ledger
      opened
    × (((cents opening.initial_balance ≡ pos 0) × (opened.transactions ≡ ledger.transactions))
        ⊎ Books
            (if is_debt_account credit
              then neg_ℤ (cents opening.initial_balance)
              else cents opening.initial_balance)
            ledger
            opened)
create_account-Moves_example =
    create_account-Moves ledger 7 opening 30 5 21 9 opening_valid opened_ok

-- An empty wallet beside the other accounts.
abbrev wallet : Account
wallet = account_of 6 cash (pos 0)

abbrev with_wallet : Db
with_wallet = record ledger { accounts = wallet ∷ ledger.accounts }

abbrev closed : Db
closed = or_ledger (delete_account with_wallet 6 7)

closed_ok : delete_account with_wallet 6 7 ≡ ok closed
unfolding delete_account count_rows update_rows find_row
closed_ok = refl

wallet_found : find_row (account_is 6 7) with_wallet.accounts ≡ some wallet
unfolding find_row
wallet_found = refl

wallet_only : count_rows (account_is 6 7) with_wallet.accounts ≡ 1
unfolding count_rows
wallet_only = refl

delete_account-Allowed_example :
    ((wallet.is_archived || wallet.current_balance ==ℤ pos 0) ≡ true)
    × (find_row (account_is 6 7) closed.accounts ≡ none)
    × (net_worth 7 closed +ℤ worth 7 wallet ≡ net_worth 7 with_wallet)
delete_account-Allowed_example =
    delete_account-Allowed with_wallet 6 7 wallet wallet_found wallet_only closed_ok
