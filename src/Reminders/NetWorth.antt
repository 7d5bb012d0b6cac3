-- ===== src/Reminders/NetWorth.antt =====
-- What a payment does to the net worth of its owner.
use sky_personal_ledger.Base.{
  ℕ, ◌≡◌, refl, sym, ap, ◌∙◌, ◌≢◌, inl, inr, Bool, true, false, not, ◌&&◌, Option, some, List, ◌∷◌,
  arith, ◌==◌, Bool-cases, ℤ, pos, pos_part, neg_part, ◌+ℤ◌, ◌-ℤ◌, neg_ℤ, leb_ℤ, ◌==ℤ◌, int_laws,
  eq_of_==ℤ, find_row, count_rows, update_rows, sum_rows, sum_rows-update_rows,
  find_row-update_rows, sum_rows-update_rows_same, find_row_holds, ok, guard, >>=-eq-ok,
}
use sky_personal_ledger.Base.{account_not_found}
use sky_personal_ledger.Money.{Amount, exact, from_cents, cents, negate, value}
use sky_personal_ledger.Money.Exact.{cents-exact, cents-negate, from_cents-in_range}
use sky_personal_ledger.Model.{
  Account, Reminder, expense, log_expense, log_adjustment, is_debt_account, Db,
}
use sky_personal_ledger.Balance.{account_is, credit, log_account_balance_change}
use sky_personal_ledger.Balance.Mutation.{InRange, Credited, log-Frame, flow-Credited}
use sky_personal_ledger.Balance.NetWorth.{
  worth, net_worth, net_worth-same, net_worth-Credited, net_worth-Credited_ne,
}
use sky_personal_ledger.Balance.Conservation.{Moves, ok-injective, add_zero}
use sky_personal_ledger.Categories.{
  repayment_name, find_or_create_category, find_or_create_category-frame,
}
use sky_personal_ledger.Lendings.Amounts.{value-from_cents}
use sky_personal_ledger.Transactions.{sub_floor}
use sky_personal_ledger.Reminders.Payment.{
  payment_transaction, create_payment_transaction, pay_debt, mark_paid_off,
  apply_debt_account_payment,
}
use sky_personal_ledger.Reminders.Rows.{floor_lem}

kept :
    (db db' : Db) (user acct k : ℕ) (delta : ℤ) (row d : Account)
    → k ≢ acct
    → Credited db user acct delta row db'
    → find_row (account_is k user) db.accounts ≡ some d
    → find_row (account_is k user) db'.accounts ≡ some d
kept db db' user acct k delta row d ne c found =
    let id_k = find_row_holds (account_is k user) db.accounts d found in
    let other : account_is acct user d ≡ false = ground (arith, ne) in
    ap (find_row (account_is k user)) c.accounts
    ∙ find_row-update_rows (account_is acct user) (credit delta) (account_is k user) db.accounts
        (λ x. refl)
    ∙ rw (found, other) refl

-- The transaction of a payment takes the amount from the source, and leaves other accounts and the
-- reminders alone.
pub booked-Effects :
    (db : Db) (user : ℕ) (r : Reminder) (a : ℤ) (p i : Amount) (source : Account)
    (now tx category : ℕ) {db' : Db}
    → InRange a
    → create_payment_transaction db user r (exact a) p i source now tx category ≡ ok db'
    → Moves user (neg_ℤ a) db db'
      × (db'.reminders ≡ db.reminders)
      × ((k : ℕ) (d : Account)
          → k ≢ source.id
          → find_row (account_is k user) db.accounts ≡ some d
          → find_row (account_is k user) db'.accounts ≡ some d)
unfolding create_payment_transaction
booked-Effects db user r a p i source now tx category {db' = db'} fa h =
    let found = find_or_create_category db user expense repayment_name category in
    let same = find_or_create_category-frame db user expense repayment_name category in
    let (ca, _, h1) = >>=-eq-ok (value (exact a)) _ h in
    let (cp, _, h2) = >>=-eq-ok (value p) _ h1 in
    let (ci, _, h3) = >>=-eq-ok (value i) _ h2 in
    let booked : Db = record found.1 {
      transactions =
          payment_transaction tx user source.id found.0 r.id ca cp ci now ∷ found.1.transactions;
    } in
    let (row, c, frame) =
      flow-Credited booked user source.id log_expense (exact a) (negate (exact a)) _ h3 in
    let accounts : booked.accounts ≡ db.accounts = ap (λ (x : Db). x.accounts) same in
    let paid : cents (negate (exact a)) ≡ neg_ℤ a =
      cents-negate (exact a) ∙ ap neg_ℤ (cents-exact a fa) in
    (
      (
        net_worth-Credited booked db' user source.id (cents (negate (exact a))) row c
            ∙ rw (paid, net_worth-same user db booked accounts) refl,
        λ other ne.
            net_worth-Credited_ne booked db' user source.id other _ row ne c
            ∙ net_worth-same other db booked accounts,
      ),
      ap (λ (x : Db). x.reminders) frame ∙ ap (λ (x : Db). x.reminders) same,
      λ k d ne at.
          kept booked db' user source.id k _ row d ne c
            (ap (find_row (account_is k user)) accounts ∙ at),
    )

-- What is paid on a debt account comes back as net worth.
less_owed : (b p s s' : ℤ) → s' +ℤ neg_ℤ b ≡ s +ℤ neg_ℤ (b -ℤ p) → s' ≡ s +ℤ p
less_owed b p s s' h = omega (int_laws, ap pos_part h, ap neg_part h)

-- The rows that are marked as paid off.
abbrev cleared : ℕ → ℕ → Account → Bool
cleared acct user x = account_is acct user x && leb_ℤ x.current_balance (pos 0)

abbrev paid_accounts : ℕ → ℕ → ℤ → ℤ → ℕ → List Account → List Account
paid_accounts acct user b p now xs =
    update_rows (cleared acct user) (mark_paid_off now)
      (update_rows (account_is acct user) (pay_debt b p) xs)

paid_worth :
    (d : Account) (user : ℕ) (p c : ℤ) (now : ℕ) (xs : List Account)
    → find_row (account_is d.id user) xs ≡ some d
    → count_rows (account_is d.id user) xs ≡ 1
    → is_debt_account d.type ≡ true
    → sum_rows (worth user) (paid_accounts d.id user (d.current_balance -ℤ p) c now xs)
      ≡ sum_rows (worth user) xs +ℤ p
paid_worth d user p c now xs found only debt =
    let mine : account_is d.id user d ≡ true = find_row_holds (account_is d.id user) xs d found in
    let own : (d.user_id == user && not d.deleted) ≡ true = ground arith in
    let moved =
      sum_rows-update_rows (account_is d.id user) (pay_debt (d.current_balance -ℤ p) c) (worth user)
        d xs only found in
    sum_rows-update_rows_same (cleared d.id user) (mark_paid_off now) (worth user)
      (update_rows (account_is d.id user) (pay_debt (d.current_balance -ℤ p) c) xs) (λ x m. refl)
    ∙ less_owed d.current_balance p _ _ (rw (own, debt) at moved)

paid_others :
    (acct user other : ℕ) (b p : ℤ) (now : ℕ) (xs : List Account)
    → other ≢ user
    → sum_rows (worth other) (paid_accounts acct user b p now xs) ≡ sum_rows (worth other) xs
paid_others acct user other b p now xs ne =
    sum_rows-update_rows_same (cleared acct user) (mark_paid_off now) (worth other)
      (update_rows (account_is acct user) (pay_debt b p) xs) (λ x m. refl)
    ∙ sum_rows-update_rows_same (account_is acct user) (pay_debt b p) (worth other) xs
        (λ x m. ground arith)

pub down-Effects :
    (db : Db) (d : Account) (user : ℕ) (p : ℤ) (tx : Option ℕ) (reminder now : ℕ) {db' : Db}
    → find_row (account_is d.id user) db.accounts ≡ some d
    → is_debt_account d.type ≡ true
    → InRange d.current_balance
    → InRange p
    → leb_ℤ (pos 0) p ≡ true
    → leb_ℤ p d.current_balance ≡ true
    → apply_debt_account_payment db d user (exact p) tx reminder now ≡ ok db'
    → Moves user p db db' × (db'.reminders ≡ db.reminders)
unfolding apply_debt_account_payment net_worth
down-Effects db d user p tx reminder now {db' = db'} found debt fb fp np covers h =
    elim (Bool-cases (p ==ℤ pos 0)) [
      | inl z ↦
          let e = ok-injective (rw z at h) in
          (
            (
              ap (λ (x : Db). sum_rows (worth user) x.accounts) (sym e)
                  ∙ add_zero (sum_rows (worth user) db.accounts)
                  ∙ ap (λ (c : ℤ). sum_rows (worth user) db.accounts +ℤ c)
                      (sym (eq_of_==ℤ p (pos 0) z)),
              λ other ne. ap (λ (x : Db). sum_rows (worth other) x.accounts) (sym e),
            ),
            ap (λ (x : Db). x.reminders) (sym e),
          )
      | inr z ↦
          let (rest, fits) = floor_lem d.current_balance p fb fp np covers in
          let (logged, l, h1) =
            >>=-eq-ok (log_account_balance_change db user d.id log_adjustment (exact p) _ _ true) _
              (rw z at h) in
          let (b, v, h2) =
            >>=-eq-ok (value (sub_floor (from_cents d.current_balance) (exact p))) _ h1 in
          let (_, _, h3) =
            >>=-eq-ok
              (guard (count_rows (account_is d.id user) logged.accounts == 1) account_not_found) _
              h2 in
          let (only, same) = log-Frame db user d.id log_adjustment (exact p) _ _ l in
          let e = ok-injective h3 in
          let exact_b : b ≡ d.current_balance -ℤ p =
            value-from_cents (d.current_balance -ℤ p) b
              (ap value (from_cents-in_range (d.current_balance -ℤ p) fits ∙ sym rest) ∙ v) in
          let unlogged : logged.accounts ≡ db.accounts = ap (λ (x : Db). x.accounts) same in
          let rows : db'.accounts
              ≡ paid_accounts d.id user (d.current_balance -ℤ p) (cents (exact p)) now db.accounts =
            ap (λ (x : Db). x.accounts) (sym e) ∙ rw (exact_b, unlogged) refl in
          (
            (
              ap (sum_rows (worth user)) rows
                  ∙ paid_worth d user p (cents (exact p)) now db.accounts found only debt,
              λ other ne.
                  ap (sum_rows (worth other)) rows
                  ∙ paid_others d.id user other _ _ now db.accounts ne,
            ),
            ap (λ (x : Db). x.reminders) (sym e) ∙ ap (λ (x : Db). x.reminders) same,
          )
    ]
