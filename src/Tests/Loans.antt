-- ===== src/Tests/Loans.antt =====
-- Repayments at concrete inputs.
use sky_personal_ledger.Base.{
  ◌≡◌, refl, true, false, none, some, [], ◌∷◌, map, if◌then◌else◌, pos, ◌+ℤ◌, ◌-ℤ◌, leb_ℤ, All,
  find_row, count_rows, update_rows, ok,
}
use sky_personal_ledger.Money.{
  exact, from_cents, cents, is_valid, value, add, sub, negate, round_money,
}
use sky_personal_ledger.Model.{Transaction, income, Lending, Db, is_debt_account}
use sky_personal_ledger.Balance.{
  read_account, update_account_balance, create_account_log, log_account_balance_change,
  apply_account_balance_mutation, account_balance_delta, present,
}
use sky_personal_ledger.Balance.Conservation.{Moves}
use sky_personal_ledger.Lendings.{
  live_lending, find_or_create_lending_category, create_lending_transaction, pay_lending,
  repaid_type, repaid_flow, named_account, pay_if, repay_lending, repay, record_repayment,
  RecordRepaymentRequest,
}
use sky_personal_ledger.Lendings.Soundness.{IsSound}
use sky_personal_ledger.Lendings.Effects.{
  record_repayment-IsSound, record_repayment-Moves, repayment_cash,
}
use sky_personal_ledger.Tests.Data.{entry, lent, ledger, or_ledger}
use sky_personal_ledger.Transactions.{revert_lending_transaction}
use sky_personal_ledger.Lendings.Refund.{revert-record_repayment}
use sky_personal_ledger.Model.{borrow_in}
use sky_personal_ledger.Lendings.{
  CreateLendingRequest, parse_due_date, create, lent_type, lent_flow,
}
use sky_personal_ledger.Lendings.Creation.{IsOpen, lent_cash, create-IsSound}

-- The last 20.00 of what was lent come back.
abbrev last : RecordRepaymentRequest
last = record {
  amount = exact (pos 2000);
  record_date = some 40;
  account_id = some 1;
  create_transaction = true;
}

abbrev settled : Db
settled = or_ledger (record_repayment ledger 3 7 last 41 21 22 23)

settled_ok : record_repayment ledger 3 7 last 41 21 22 23 ≡ ok settled
unfolding record_repayment repay repay_lending named_account pay_if pay_lending repaid_type
    repaid_flow create_lending_transaction find_or_create_lending_category round_money sub present
    account_balance_delta apply_account_balance_mutation log_account_balance_change read_account
    create_account_log update_account_balance find_row count_rows update_rows is_debt_account
    is_valid from_cents value add cents negate ◌-ℤ◌ ◌+ℤ◌
settled_ok = refl

settled_lending : map (λ l. l.is_settled) settled.lendings ≡ true ∷ []
unfolding record_repayment repay repay_lending named_account pay_if pay_lending repaid_type
    repaid_flow create_lending_transaction find_or_create_lending_category round_money sub present
    account_balance_delta apply_account_balance_mutation log_account_balance_change read_account
    create_account_log update_account_balance find_row count_rows update_rows is_debt_account
    is_valid from_cents value add cents negate ◌-ℤ◌ ◌+ℤ◌
settled_lending = refl

ledger-IsSound : All IsSound ledger.lendings
unfolding ◌+ℤ◌
ledger-IsSound = ((refl, refl, refl), tt)

record_repayment-IsSound_example : All IsSound settled.lendings
record_repayment-IsSound_example =
    record_repayment-IsSound ledger 3 7 last 41 21 22 23 settled_ok ledger-IsSound

record_repayment-Moves_example :
    (l : Lending) × (find_row (live_lending 3 7) ledger.lendings ≡ some l)
    × (l.is_settled ≡ false)
    × (leb_ℤ (cents last.amount) l.current_balance ≡ true)
    × Moves 7
        (elim (present last.account_id) [
          | none ↦ pos 0
          | some _ ↦
              if last.create_transaction then repayment_cash l.type (cents last.amount) else pos 0
        ])
        ledger
        settled
record_repayment-Moves_example = record_repayment-Moves ledger 3 7 last 41 21 22 23 settled_ok

abbrev came_back : Transaction
came_back = record (entry 22 income (pos 2000) none) { lending_id = some 3 }

revert-record_repayment_example :
    (db' : Db) × (revert_lending_transaction settled came_back ≡ ok db')
    × (db'.lendings ≡ ledger.lendings)
unfolding find_row count_rows present repaid_type cents
revert-record_repayment_example =
    revert-record_repayment ledger settled 3 7 last 41 21 22 23 lent came_back settled_ok refl refl
      refl refl refl refl refl refl refl

-- 30.00 are borrowed, and put on the bank card.
abbrev wanted : CreateLendingRequest
wanted = record {
  type = borrow_in;
  principal = exact (pos 3000);
  lend_date = some 50;
  due_date = some (some 80);
  account_id = some 1;
  create_transaction = true;
}

abbrev borrowed : Db
borrowed = or_ledger (create ledger 7 wanted 31 32 33)

borrowed_ok : create ledger 7 wanted 31 32 33 ≡ ok borrowed
unfolding create parse_due_date lent_type lent_flow named_account pay_if pay_lending
    create_lending_transaction find_or_create_lending_category round_money present
    account_balance_delta apply_account_balance_mutation log_account_balance_change read_account
    create_account_log update_account_balance find_row count_rows update_rows is_debt_account
    is_valid from_cents value add cents negate ◌-ℤ◌ ◌+ℤ◌
borrowed_ok = refl

create-IsSound_example :
    (l : Lending) × (borrowed.lendings ≡ l ∷ ledger.lendings)
    × IsOpen 31 7 wanted l
    × All IsSound borrowed.lendings
    × Moves 7
        (elim (present wanted.account_id) [
          | none ↦ pos 0
          | some _ ↦
              if wanted.create_transaction
              then lent_cash wanted.type (cents wanted.principal)
              else pos 0
        ])
        ledger
        borrowed
create-IsSound_example = create-IsSound ledger 7 wanted 31 32 33 borrowed_ok ledger-IsSound
