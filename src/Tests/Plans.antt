-- ===== src/Tests/Plans.antt =====
-- Budgets at concrete inputs.
use sky_personal_ledger.Base.{
  ◌≤◌, ◌≡◌, refl, Bool, false, none, some, List, [], ◌∷◌, arith, if◌then◌else◌, pos, find_row,
  count_rows, Result, ok, err,
}
use sky_personal_ledger.Money.{exact, from_cents, cents, is_valid, value}
use sky_personal_ledger.Model.{Db, expense}
use sky_personal_ledger.Balance.{present}
use sky_personal_ledger.Budgets.{
  Budget, SetBudgetRequest, scope_is, get_by_scope, ensure_family_member, ensure_expense_category,
  set_scope, set_total_budget, set_in_category, set_category_budget,
}
use sky_personal_ledger.Budgets.Scopes.{OneEach, AllScan, Stored, set_category_budget-OneEach}
use sky_personal_ledger.Tests.Data.{ledger}

abbrev monthly_total : Budget
monthly_total = record {
  id = 1;
  user_id = 7;
  category_id = none;
  member_id = none;
  amount = pos 300000;
  alert_threshold = pos 80;
  deleted = false;
}

abbrev shopping : Db
shopping = record ledger {
  categories = record { id = 4; user_id = 7; name = 6; type = expense; deleted = false } ∷ [];
}

abbrev planned : SetBudgetRequest
planned = record {
  category_id = some 4;
  member_id = none;
  amount = exact (pos 80000);
  alert_threshold = pos 0;
}

abbrev or_budgets : Result (List Budget) → List Budget
or_budgets (ok budgets) = budgets
or_budgets (err e) = []

abbrev budgets : List Budget
budgets = or_budgets (set_category_budget shopping (monthly_total ∷ []) 7 planned 2)

planned_ok : set_category_budget shopping (monthly_total ∷ []) 7 planned 2 ≡ ok budgets
unfolding set_category_budget set_in_category set_total_budget set_scope get_by_scope
    ensure_family_member ensure_expense_category present find_row value cents is_valid from_cents
planned_ok = refl

one_total : OneEach (monthly_total ∷ [])
unfolding count_rows
one_total user category member = at_most (scope_is user category member monthly_total)
  where
    at_most : (b : Bool) → (if b then 1 else 0) ≤ 1
    at_most b = ground arith

total_scans : AllScan (monthly_total ∷ [])
unfolding is_valid from_cents
total_scans = (refl, tt)

set_category_budget-OneEach_example :
    OneEach budgets × Stored budgets 7 (some 4) none (cents (exact (pos 80000)))
set_category_budget-OneEach_example =
    set_category_budget-OneEach shopping (monthly_total ∷ []) 7 planned 2 one_total total_scans
      planned_ok
