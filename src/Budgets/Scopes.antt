-- ===== src/Budgets/Scopes.antt =====
-- One budget for each scope.
use sky_personal_ledger.Base.{
  ℕ, ◌≤◌, ◌≡◌, refl, sym, ap, ◌∙◌, subst, inl, inr, Bool, true, false, ◌&&◌, Option, none, some,
  List, [], ◌∷◌, arith, ◌==◌, ==_iff, Bool-cases, Option-cases, ℤ, All, find_row, count_rows,
  update_rows, find_row-update_rows, count_rows-update_rows, find_row_holds, ok, >>=-eq-ok,
}
use sky_personal_ledger.Money.{Amount, exact, nan, from_cents, cents, is_valid, value}
use sky_personal_ledger.Money.Exact.{cents_bound, from_cents-in_range}
use sky_personal_ledger.Model.{Db}
use sky_personal_ledger.Balance.Mutation.{InRange}
use sky_personal_ledger.Budgets.Defs.{
  Budget, SetBudgetRequest, eq_id, scope_is, get_by_scope, ensure_family_member,
  ensure_expense_category, budget_is, set_amount, new_budget, set_scope, set_total_budget,
  set_in_category, set_category_budget,
}

-- Every scope of every user has one budget at most.
abbrev pub OneEach : List Budget → Type 0
OneEach budgets =
    (user : ℕ) (category member : Option ℕ) → count_rows (scope_is user category member) budgets ≤ 1

-- Every amount that is stored can be read.
abbrev pub AllScan : List Budget → Type 0
AllScan budgets = All (λ (b : Budget). is_valid (from_cents b.amount) ≡ true) budgets

in_bounds : (x : ℤ) → InRange x → is_valid (exact x) ≡ true
unfolding is_valid
in_bounds x fits = ground (arith, fits)

stored_amount :
    (a : Amount) (c : ℤ) → value a ≡ ok c → (c ≡ cents a) × (is_valid (from_cents c) ≡ true)
unfolding value
stored_amount nan c h = cc
stored_amount (exact d) c h =
    let same : c ≡ cents (exact d) = ok_same h in
    (
      same,
      ap (λ (x : ℤ). is_valid (from_cents x)) same
          ∙ readable (cents (exact d)) (cents_bound (exact d)),
    )
  where
    ok_same : {x y : ℤ} → ok x ≡ ok y → y ≡ x
    ok_same h = cc

    readable : (x : ℤ) → InRange x → is_valid (from_cents x) ≡ true
    readable x fits = ap is_valid (from_cents-in_range x fits) ∙ in_bounds x fits

find_row-scans :
    (p : Budget → Bool) (budgets : List Budget) (b : Budget)
    → AllScan budgets
    → find_row p budgets ≡ some b
    → is_valid (from_cents b.amount) ≡ true
unfolding find_row
find_row-scans p [] b h e = cc
find_row-scans p (x ∷ budgets) b (h, hs) e = elim (Bool-cases (p x)) [
  | inl t ↦ ap (λ (y : Budget). is_valid (from_cents y.amount)) (sym (the_row (rw t at e))) ∙ h
  | inr t ↦ find_row-scans p budgets b hs (rw t at e)
]
  where
    the_row : {x y : Budget} → some x ≡ some y → x ≡ y
    the_row h = cc

find_row-zero :
    (p : Budget → Bool) (budgets : List Budget)
    → find_row p budgets ≡ none
    → count_rows p budgets ≡ 0
unfolding find_row count_rows
find_row-zero p [] h = refl
find_row-zero p (x ∷ budgets) h = ground (arith, find_row-zero p budgets)

eq_id_refl : (o : Option ℕ) → eq_id o o ≡ true
eq_id_refl none = refl
eq_id_refl (some n) = ground arith

eq_id_eq : (a b : Option ℕ) → eq_id a b ≡ true → a ≡ b
eq_id_eq none none h = refl
eq_id_eq (some a) (some b) h = ap some ((==_iff a b).0 h)
eq_id_eq none (some b) h = cc
eq_id_eq (some a) none h = cc

-- A scope with a budget that is not there yet is the one that is looked for, or another.
added-OneEach :
    (budgets : List Budget) (id user : ℕ) (category member : Option ℕ) (c threshold : ℤ)
    → OneEach budgets
    → count_rows (scope_is user category member) budgets ≡ 0
    → OneEach (new_budget id user category member c threshold ∷ budgets)
unfolding count_rows
added-OneEach budgets id user category member c threshold each none_yet u k m =
    elim (Bool-cases (user == u && (eq_id category k && eq_id member m))) [
      | inl t ↦
          let here : count_rows (scope_is u k m) budgets ≡ 0 = same_scope t in
          rw (whole (user == u) (eq_id category k) (eq_id member m) t) (omega (arith, here))
      | inr t ↦ rw (part (user == u) (eq_id category k) (eq_id member m) t) (each u k m)
    ]
  where
    whole : (a b d : Bool) → (a && (b && d)) ≡ true → (a && (b && (d && true))) ≡ true
    whole a b d h = ground (arith, h)

    part : (a b d : Bool) → (a && (b && d)) ≡ false → (a && (b && (d && true))) ≡ false
    part a b d h = ground (arith, h)

    all_three : (a b d : Bool) → (a && (b && d)) ≡ true → (a ≡ true) × (b ≡ true) × (d ≡ true)
    all_three a b d h = (ground (arith, h), ground (arith, h), ground (arith, h))

    same_scope :
        (user == u && (eq_id category k && eq_id member m)) ≡ true
        → count_rows (scope_is u k m) budgets ≡ 0
    same_scope t =
        let (e, f, g) = all_three _ _ _ t in
        rw (sym ((==_iff user u).0 e), sym (eq_id_eq category k f), sym (eq_id_eq member m g))
          none_yet

-- What a setter leaves for a scope.
pub record Stored (budgets : List Budget) (user : ℕ) (category member : Option ℕ) (c : ℤ)
    : Type 0 where
  pub budget : Budget
  pub found : get_by_scope budgets user category member ≡ some budget
  pub amount : budget.amount ≡ c

found_in_scope :
    (budgets : List Budget) (user : ℕ) (category member : Option ℕ) (b : Budget)
    → find_row (scope_is user category member) budgets ≡ some b
    → is_valid (from_cents b.amount) ≡ true
    → get_by_scope budgets user category member ≡ some b
unfolding get_by_scope
found_in_scope budgets user category member b e v = rw (get_by_scope, e, v) refl

changed-Stored :
    (budgets : List Budget) (user : ℕ) (category member : Option ℕ) (b : Budget) (c threshold : ℤ)
    → find_row (scope_is user category member) budgets ≡ some b
    → is_valid (from_cents c) ≡ true
    → OneEach budgets
    → OneEach (update_rows (budget_is b.id) (set_amount c threshold) budgets)
      × Stored
          (update_rows (budget_is b.id) (set_amount c threshold) budgets)
          user
          category
          member
          c
changed-Stored budgets user category member b c threshold e v each =
    let q = scope_is user category member in
    let mine : budget_is b.id b ≡ true = itself (find_row_holds q budgets b e) in
    let found =
      find_row-update_rows (budget_is b.id) (set_amount c threshold) q budgets (λ x. refl)
      ∙ rw (e, mine) refl in
    (
      λ u k m.
          subst (λ (n : ℕ). n ≤ 1)
            (sym (
              count_rows-update_rows (budget_is b.id) (set_amount c threshold) (scope_is u k m)
                budgets (λ x. refl)))
            (each u k m),
      record {
        budget = set_amount c threshold b;
        found =
            found_in_scope (update_rows (budget_is b.id) (set_amount c threshold) budgets) user
              category member (set_amount c threshold b) found v;
        amount = refl;
      },
    )
  where
    itself : scope_is user category member b ≡ true → budget_is b.id b ≡ true
    itself h = ground (arith, h)

added-Stored :
    (budgets : List Budget) (id user : ℕ) (category member : Option ℕ) (c threshold : ℤ)
    → is_valid (from_cents c) ≡ true
    → Stored (new_budget id user category member c threshold ∷ budgets) user category member c
unfolding find_row
added-Stored budgets id user category member c threshold v =
    let b = new_budget id user category member c threshold in
    let own : (user == user) ≡ true = ground arith in
    record {
      budget = b;
      found =
          found_in_scope (b ∷ budgets) user category member b
            (rw (own, eq_id_refl category, eq_id_refl member) refl) v;
      amount = refl;
    }

set_scope-OneEach :
    (budgets : List Budget) (user : ℕ) (category member : Option ℕ) (amount : Amount)
    (threshold : ℤ) (id : ℕ) {after : List Budget}
    → OneEach budgets
    → AllScan budgets
    → set_scope budgets user category member amount threshold id ≡ ok after
    → OneEach after × Stored after user category member (cents amount)
unfolding set_scope get_by_scope
set_scope-OneEach budgets user category member amount threshold id {after} each scans h =
    let (c, v, h1) = >>=-eq-ok (value amount) _ h in
    let (same, valid) = stored_amount amount c v in
    subst (λ (x : ℤ). OneEach after × Stored after user category member x) same
      (elim (Option-cases (find_row (scope_is user category member) budgets)) [
        | inl e ↦
            subst (λ (l : List Budget). OneEach l × Stored l user category member c)
              (rows_of (rw e at h1))
              (
                added-OneEach budgets id user category member c _ each
                    (find_row-zero (scope_is user category member) budgets e),
                added-Stored budgets id user category member c _ valid,
              )
        | inr (b, e) ↦
            subst (λ (l : List Budget). OneEach l × Stored l user category member c)
              (rows_of
                (rw (e, find_row-scans (scope_is user category member) budgets b scans e) at h1))
              (changed-Stored budgets user category member b c _ e valid each)
      ])
  where
    rows_of : {x y : List Budget} → ok x ≡ ok y → x ≡ y
    rows_of h = cc

set_total-OneEach :
    (db : Db) (budgets : List Budget) (user : ℕ) (req : SetBudgetRequest) (id : ℕ)
    {after : List Budget}
    → OneEach budgets
    → AllScan budgets
    → set_total_budget db budgets user req id ≡ ok after
    → OneEach after × Stored after user none req.member_id (cents req.amount)
unfolding set_total_budget
set_total-OneEach db budgets user req id each scans h =
    let (_, _, h1) = >>=-eq-ok (ensure_family_member db req.member_id user) _ h in
    set_scope-OneEach budgets user none req.member_id req.amount req.alert_threshold id each scans
      h1

in_category-OneEach :
    (db : Db) (budgets : List Budget) (user : ℕ) (req : SetBudgetRequest) (id : ℕ)
    (category : Option ℕ) {after : List Budget}
    → OneEach budgets
    → AllScan budgets
    → set_in_category db budgets user req id category ≡ ok after
    → OneEach after × Stored after user category req.member_id (cents req.amount)
unfolding set_in_category
in_category-OneEach db budgets user req id none each scans h =
    set_total-OneEach db budgets user req id each scans h
in_category-OneEach db budgets user req id (some category) each scans h =
    let (_, _, h1) = >>=-eq-ok (ensure_expense_category db (some category) user) _ h in
    let (_, _, h2) = >>=-eq-ok (ensure_family_member db req.member_id user) _ h1 in
    set_scope-OneEach budgets user (some category) req.member_id req.amount req.alert_threshold id
      each scans h2

-- Setting a budget keeps every scope at one budget at most, whether it changes one or adds one, and
-- leaves the scope of the request with the amount of the request. Every stored amount can be read.
pub set_category_budget-OneEach :
    (db : Db) (budgets : List Budget) (user : ℕ) (req : SetBudgetRequest) (id : ℕ)
    {after : List Budget}
    → OneEach budgets
    → AllScan budgets
    → set_category_budget db budgets user req id ≡ ok after
    → OneEach after × Stored after user req.category_id req.member_id (cents req.amount)
unfolding set_category_budget
set_category_budget-OneEach db budgets user req id each scans h =
    in_category-OneEach db budgets user req id req.category_id each scans h
