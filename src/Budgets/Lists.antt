-- ===== src/Budgets/Lists.antt =====
-- What is spent of each budget (`List`) and the summary of a month (`GetSummary`). The sums of a
-- month's expenses are arguments: by category, and by member and category, with 0 for the texts that
-- the queries give for a missing member or category. Names are left out.
use sky_personal_ledger.Base.{
  ℕ, ◌+◌, ◌*◌, ◌&&◌, Option, none, some, List, [], ◌∷◌, ◌++◌, ◌==◌, if◌then◌else◌, ℤ, pos, negsuc,
  pos_part, sub_ℕ, leb_ℤ,
}
use sky_personal_ledger.Money.{
  Amount, from_cents, cents, add, sub, divide, quot, lt_amount, zero_amount,
}
use sky_personal_ledger.Budgets.Defs.{Budget}

abbrev pub times_100 : ℤ → ℤ
times_100 (pos n) = pos (n * 100)
times_100 (negsuc n) = sub_ℕ 0 ((n + 1) * 100)

-- `moneyPercentage`
unfoldable pub money_percentage : Amount → Amount → ℤ
money_percentage amount total =
    if leb_ℤ (cents total) (pos 0)
    then pos 0
    else quot (times_100 (cents amount)) (pos_part (cents total))

pub record BudgetItem : Type 0 where
  pub id : ℕ
  pub category_id : Option ℕ
  pub member_id : Option ℕ
  pub amount : Amount
  pub spent : Amount
  pub remaining : Amount
  pub percentage : ℤ
  pub alert_threshold : ℤ

pub record BudgetList : Type 0 where
  pub total_budget : Option BudgetItem
  pub category_budgets : List BudgetItem
  pub member_budgets : List BudgetItem

pub record CategorySum : Type 0 where
  pub category_id : ℕ
  pub total : Amount

pub record MemberSum : Type 0 where
  pub member_id : ℕ
  pub category_id : ℕ
  pub total : Amount

-- A map that is read: the last write to a key, and 0 for a key that is not there.
unfoldable pub spent_in : List CategorySum → ℕ → Amount → Amount
spent_in [] category found = found
spent_in (s ∷ sums) category found =
    spent_in sums category (if s.category_id == category then s.total else found)

unfoldable pub spent_by : List MemberSum → ℕ → Amount → Amount
spent_by [] member found = found
spent_by (s ∷ sums) member found =
    spent_by sums member (if s.member_id == member then add found s.total else found)

unfoldable pub spent_by_in : List MemberSum → ℕ → ℕ → Amount → Amount
spent_by_in [] member category found = found
spent_by_in (s ∷ sums) member category found =
    spent_by_in sums member category
      (if s.member_id == member && s.category_id == category then s.total else found)

unfoldable pub total_spent : List CategorySum → Amount → Amount
total_spent [] total = total
total_spent (s ∷ sums) total = total_spent sums (add total s.total)

abbrev pub item_of : Budget → Amount → BudgetItem
item_of b spent = record {
  id = b.id;
  category_id = b.category_id;
  member_id = b.member_id;
  amount = from_cents b.amount;
  spent = spent;
  remaining = sub (from_cents b.amount) spent;
  percentage =
      if lt_amount zero_amount (from_cents b.amount)
      then money_percentage spent (from_cents b.amount)
      else pos 0;
  alert_threshold = b.alert_threshold;
}

-- The item of a budget, in the part of the list that its scope names.
unfoldable pub place :
    List CategorySum → List MemberSum → Budget → Option ℕ → Option ℕ → BudgetList → BudgetList
place sums member_sums b (some member) none list = record list {
  member_budgets =
      list.member_budgets ++ (item_of b (spent_by member_sums member zero_amount) ∷ []);
}
place sums member_sums b (some member) (some category) list = record list {
  member_budgets =
      list.member_budgets ++ (item_of b (spent_by_in member_sums member category zero_amount) ∷ []);
}
place sums member_sums b none none list = record list {
  total_budget = some (item_of b (total_spent sums zero_amount));
}
place sums member_sums b none (some category) list = record list {
  category_budgets = list.category_budgets ++ (item_of b (spent_in sums category zero_amount) ∷ []);
}

unfoldable pub place_all : List CategorySum → List MemberSum → List Budget → BudgetList → BudgetList
unfolding place
place_all sums member_sums [] list = list
place_all sums member_sums (b ∷ budgets) list =
    place_all sums member_sums budgets (place sums member_sums b b.member_id b.category_id list)

-- `List`, of the budgets of a user.
unfoldable pub list_budgets : List CategorySum → List MemberSum → List Budget → BudgetList
unfolding place_all
list_budgets sums member_sums budgets =
    place_all sums member_sums budgets
      (record { total_budget = none; category_budgets = []; member_budgets = [] })

-- The percentage over its limit of a category that is over or near its limit: 0 if it is near.
unfoldable pub over_limits : List BudgetItem → List ℤ
over_limits [] = []
over_limits (item ∷ items) =
    let rest = over_limits items in
    if lt_amount item.amount item.spent
    then (if lt_amount zero_amount item.amount
        then money_percentage (sub item.spent item.amount) item.amount
        else pos 0)
      ∷ rest
    else if leb_ℤ item.alert_threshold item.percentage
    then pos 0 ∷ rest
    else rest

abbrev pub first_two : List ℤ → List ℤ
first_two [] = []
first_two (x ∷ []) = x ∷ []
first_two (x ∷ y ∷ rest) = x ∷ y ∷ []

pub record BudgetSummary : Type 0 where
  pub total_amount : Amount
  pub total_spent : Amount
  pub percentage : ℤ
  pub daily_available : Amount
  pub days_remaining : ℕ
  pub over_budget_categories : List ℤ

abbrev pub daily : Amount → ℕ → Amount
daily remaining days =
    if lt_amount zero_amount remaining then divide remaining (pos days) else zero_amount

abbrev pub whole_summary : Option BudgetItem → ℕ → List ℤ → BudgetSummary
whole_summary none days over = record {
  total_amount = zero_amount;
  total_spent = zero_amount;
  percentage = pos 0;
  daily_available = zero_amount;
  days_remaining = days;
  over_budget_categories = over;
}
whole_summary (some total) days over = record {
  total_amount = total.amount;
  total_spent = total.spent;
  percentage = total.percentage;
  daily_available = daily (sub total.amount total.spent) days;
  days_remaining = days;
  over_budget_categories = over;
}

-- `GetSummary` of the list of the month, with the days that are left of it.
unfoldable pub budget_summary : BudgetList → ℕ → BudgetSummary
unfolding over_limits
budget_summary list days =
    whole_summary list.total_budget (if days == 0 then 1 else days)
      (first_two (over_limits list.category_budgets))
