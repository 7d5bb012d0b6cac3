-- ===== src/Budgets/Defs.antt =====
-- Setting and deleting budgets. The budgets are a table beside the database; a scope is a category and
-- a family member, either of them or both missing.
use sky_personal_ledger.Base.{
  ℕ, Bool, true, false, not, ◌&&◌, Option, none, some, List, ◌∷◌, ◌==◌, if◌then◌else◌, ℤ, pos,
  leb_ℤ, ◌==ℤ◌, find_row, update_rows, Result, ok, err, ◌>>=◌, ◌>>◌, guard, or_error,
}
use sky_personal_ledger.Base.{category_not_found, family_member_not_found, budget_not_found}
use sky_personal_ledger.Money.{Amount, from_cents, is_valid, value}
use sky_personal_ledger.Model.{Category, FamilyMember, expense, eq_type, Db}
use sky_personal_ledger.Balance.{present}

pub record Budget : Type 0 where
  pub id : ℕ
  pub user_id : ℕ
  pub category_id : Option ℕ
  pub member_id : Option ℕ
  pub amount : ℤ
  pub alert_threshold : ℤ
  pub deleted : Bool

pub record SetBudgetRequest : Type 0 where
  pub category_id : Option ℕ
  pub member_id : Option ℕ
  pub amount : Amount
  pub alert_threshold : ℤ

-- `IS NULL` or `= ?`
abbrev pub eq_id : Option ℕ → Option ℕ → Bool
eq_id none none = true
eq_id (some a) (some b) = a == b
eq_id _ _ = false

abbrev pub scope_is : ℕ → Option ℕ → Option ℕ → Budget → Bool
scope_is user category member b =
    b.user_id == user
    && (eq_id b.category_id category && (eq_id b.member_id member && not b.deleted))

-- `GetByScope`: a row that does not scan is an error like a missing one.
unfoldable pub get_by_scope : List Budget → ℕ → Option ℕ → Option ℕ → Option Budget
get_by_scope budgets user category member =
    elim (find_row (scope_is user category member) budgets) [
      | none ↦ none
      | some b ↦ if is_valid (from_cents b.amount) then some b else none
    ]

abbrev pub member_has_id : ℕ → FamilyMember → Bool
member_has_id id m = m.id == id && not m.deleted

-- `ensureFamilyMemberBelongsToUser`
unfoldable pub ensure_family_member : Db → Option ℕ → ℕ → Result (Unit {0})
unfolding present
ensure_family_member db member user = elim (present member) [
  | none ↦ ok tt
  | some id ↦ elim (find_row (member_has_id id) db.members) [
    | none ↦ err family_member_not_found
    | some m ↦ guard (m.user_id == user) family_member_not_found
  ]
]

abbrev pub category_has_id : ℕ → Category → Bool
category_has_id id c = c.id == id && not c.deleted

-- `ensureCategoryBelongsToUser`
unfoldable pub ensure_expense_category : Db → Option ℕ → ℕ → Result (Unit {0})
unfolding present
ensure_expense_category db category user = elim (present category) [
  | none ↦ err category_not_found
  | some id ↦ elim (find_row (category_has_id id) db.categories) [
    | none ↦ err category_not_found
    | some c ↦ guard (c.user_id == user && eq_type c.type expense) category_not_found
  ]
]

abbrev pub budget_is : ℕ → Budget → Bool
budget_is id b = b.id == id && not b.deleted

abbrev pub set_amount : ℤ → ℤ → Budget → Budget
set_amount c threshold b = record b { amount = c; alert_threshold = threshold }

abbrev pub new_budget : ℕ → ℕ → Option ℕ → Option ℕ → ℤ → ℤ → Budget
new_budget id user category member c threshold = record {
  id = id;
  user_id = user;
  category_id = category;
  member_id = member;
  amount = c;
  alert_threshold = threshold;
  deleted = false;
}

-- The end of both setters: the budget of the scope is changed, or there is a new one, `id`.
unfoldable pub set_scope :
    List Budget → ℕ → Option ℕ → Option ℕ → Amount → ℤ → ℕ → Result (List Budget)
unfolding get_by_scope
set_scope budgets user category member amount threshold id = do
  c ← value amount
  ok (elim (get_by_scope budgets user category member) [
    | some b ↦
        update_rows (budget_is b.id)
          (set_amount c (if leb_ℤ threshold (pos 0) then b.alert_threshold else threshold)) budgets
    | none ↦
        new_budget id user category member c (if threshold ==ℤ pos 0 then pos 80 else threshold)
        ∷ budgets
  ])

-- `SetTotalBudget`
unfoldable pub set_total_budget : Db → List Budget → ℕ → SetBudgetRequest → ℕ → Result (List Budget)
set_total_budget db budgets user req id = do
  ensure_family_member db req.member_id user
  set_scope budgets user none req.member_id req.amount req.alert_threshold id

unfoldable pub set_in_category :
    Db → List Budget → ℕ → SetBudgetRequest → ℕ → Option ℕ → Result (List Budget)
set_in_category db budgets user req id none = set_total_budget db budgets user req id
set_in_category db budgets user req id (some category) = do
  ensure_expense_category db (some category) user
  ensure_family_member db req.member_id user
  set_scope budgets user (some category) req.member_id req.amount req.alert_threshold id

-- `SetCategoryBudget`
unfoldable pub set_category_budget :
    Db → List Budget → ℕ → SetBudgetRequest → ℕ → Result (List Budget)
unfolding set_in_category
set_category_budget db budgets user req id = set_in_category db budgets user req id req.category_id

abbrev pub drop_budget : Budget → Budget
drop_budget b = record b { deleted = true }

-- `Delete`
unfoldable pub delete_budget : List Budget → ℕ → ℕ → Result (List Budget)
delete_budget budgets id user = do
  b ← or_error (find_row (budget_is id) budgets) budget_not_found
  guard (is_valid (from_cents b.amount) && b.user_id == user) budget_not_found
  ok (update_rows (budget_is id) drop_budget budgets)
