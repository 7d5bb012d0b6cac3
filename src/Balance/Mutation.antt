-- ===== src/Balance/Mutation.antt =====
-- What a successful balance mutation has done to the accounts.
use sky_personal_ledger.Base.{
  ℕ, ◌≤◌, ◌≡◌, refl, sym, ap, ◌∙◌, subst, ◌≢◌, inl, inr, Bool, true, false, Option, some, List,
  arith, ◌==◌, if◌then◌else◌, Option-cases, ℤ, ◌+ℤ◌, neg_ℤ, abs_ℕ, find_row, count_rows,
  update_rows, ok, ◌>>=◌, guard, >>=-eq-ok,
}
use sky_personal_ledger.Base.{account_not_found, record_not_found}
use sky_personal_ledger.Money.{
  Amount, nan, exact, max_exact_cents, from_cents, cents, is_valid, add, negate, value,
}
use sky_personal_ledger.Money.Exact.{
  add-eq-from_cents, from_cents-in_range, from_cents-out_of_range, cents-exact, cents-negate,
}
use sky_personal_ledger.Model.{Account, LogType, Transaction, Db, is_debt_account}
use sky_personal_ledger.Balance.Defs.{
  account_is, account_scans, read_account, credit, update_account_balance, Links,
  create_account_log, log_account_balance_change, apply_account_balance_mutation,
  account_balance_delta, amount_of, apply_transaction_account_delta,
}

abbrev pub InRange : ℤ → Type 0
InRange c = abs_ℕ c ≤ max_exact_cents

-- A cash flow in the convention of the account: a debt account holds what is owed.
abbrev pub signed : Account → ℤ → ℤ
signed a c = if is_debt_account a.type then neg_ℤ c else c

-- The one row of the account was credited, and its balance was and is in the exact range.
pub record Credited (db : Db) (user acct : ℕ) (delta : ℤ) (row : Account) (db' : Db) : Type 0 where
  pub found : find_row (account_is acct user) db.accounts ≡ some row
  pub only : count_rows (account_is acct user) db.accounts ≡ 1
  pub scans : account_scans row ≡ true
  pub fits : InRange (row.current_balance +ℤ delta)
  pub accounts : db'.accounts ≡ update_rows (account_is acct user) (credit delta) db.accounts

-- Nothing but the accounts and the log has changed.
abbrev pub Framed : Db → Db → Type 0
Framed db db' = db' ≡ record db { accounts = db'.accounts; account_logs = db'.account_logs }

pub Credited-same_accounts :
    {db db' db'' : Db} {user acct : ℕ} {delta : ℤ} {row : Account}
    → Credited db user acct delta row db'
    → db''.accounts ≡ db'.accounts
    → Credited db user acct delta row db''
Credited-same_accounts h e = record {
  found = h.found;
  only = h.only;
  scans = h.scans;
  fits = h.fits;
  accounts = e ∙ h.accounts;
}

is_valid-from_cents : (c : ℤ) → is_valid (from_cents c) ≡ true → InRange c
unfolding is_valid from_cents
is_valid-from_cents c h = ground arith

value_ok : (a : Amount) (c : ℤ) → value a ≡ ok c → a ≢ nan
unfolding value
value_ok nan c h e = cc
value_ok (exact d) c h e = cc

add_fits : (c : ℤ) (d : Amount) → InRange c → add (from_cents c) d ≢ nan → InRange (c +ℤ cents d)
unfolding from_cents
add_fits c d h ne =
    let sum : add (from_cents c) d ≡ from_cents (c +ℤ cents d) =
      add-eq-from_cents (from_cents c) d
      ∙ ap (λ (x : ℤ). from_cents (x +ℤ cents d))
          (ap cents (from_cents-in_range c h) ∙ cents-exact c h) in
    ground (arith, sum, from_cents-out_of_range (c +ℤ cents d))

pub read_account_inv :
    (db : Db) (acct user : ℕ) (row : Account)
    → read_account db acct user ≡ ok row
    → (find_row (account_is acct user) db.accounts ≡ some row) × (account_scans row ≡ true)
unfolding read_account
read_account_inv db acct user row h =
    elim (Option-cases (find_row (account_is acct user) db.accounts)) [
      | inl e ↦ cc (rw e at h)
      | inr (a, e) ↦ ground arith
    ]

pub scans-InRange : (a : Account) → account_scans a ≡ true → InRange a.current_balance
scans-InRange a h = is_valid-from_cents a.current_balance (ground arith)

create_account_log_inv :
    (db : Db) (user acct : ℕ) (type : LogType) (amount before after : Amount) (links : Links)
    {db' : Db}
    → create_account_log db user acct type amount before after links ≡ ok db'
    → (count_rows (account_is acct user) db.accounts ≡ 1)
      × (after ≢ nan)
      × (db' ≡ record db { account_logs = db'.account_logs })
unfolding create_account_log
create_account_log_inv db user acct type amount before after links h =
    let (_, g, h1) =
      >>=-eq-ok (guard (count_rows (account_is acct user) db.accounts == 1) record_not_found) _ h in
    let (_, _, h2) = >>=-eq-ok (value amount) _ h1 in
    let (_, _, h3) = >>=-eq-ok (value before) _ h2 in
    let (c, e, h4) = >>=-eq-ok (value after) _ h3 in (ground arith, value_ok after c e, cc)

-- A log row that is written: the account is the only one under its id, and nothing else has changed.
pub log-Frame :
    (db : Db) (user acct : ℕ) (type : LogType) (amount delta : Amount) (links : Links) {db' : Db}
    → log_account_balance_change db user acct type amount delta links true ≡ ok db'
    → (count_rows (account_is acct user) db.accounts ≡ 1)
      × (db' ≡ record db { account_logs = db'.account_logs })
unfolding log_account_balance_change
log-Frame db user acct type amount delta links h =
    let (row, _, h1) = >>=-eq-ok (read_account db acct user) _ h in
    let (only, _, same) =
      create_account_log_inv db user acct type amount (from_cents row.current_balance)
        (add (from_cents row.current_balance) delta) links h1 in
    (only, same)

update_account_balance_inv :
    (db : Db) (acct user : ℕ) (delta : Amount) {db' : Db}
    → update_account_balance db acct user delta ≡ ok db'
    → db' ≡ record db {
      accounts = update_rows (account_is acct user) (credit (cents delta)) db.accounts;
    }
unfolding update_account_balance
update_account_balance_inv db acct user delta h =
    let (_, _, e) =
      >>=-eq-ok (guard (count_rows (account_is acct user) db.accounts == 1) account_not_found) _
        h in
    cc

-- The writes of a log row and then of a balance.
logged_update :
    (db mid : Db) (accounts : List Account) {db' : Db}
    → mid ≡ record db { account_logs = mid.account_logs }
    → db' ≡ record mid { accounts = accounts }
    → db' ≡ record db { accounts = db'.accounts; account_logs = db'.account_logs }
logged_update db mid accounts e f = ground arith

mutation-Credited :
    (db : Db) (user acct : ℕ) (type : LogType) (amount delta : Amount) (links : Links) {db' : Db}
    → apply_account_balance_mutation db user acct type amount delta links true ≡ ok db'
    → (row : Account) × Credited db user acct (cents delta) row db' × Framed db db'
unfolding apply_account_balance_mutation log_account_balance_change
mutation-Credited db user acct type amount delta links h =
    let (mid, logged, h1) =
      >>=-eq-ok (log_account_balance_change db user acct type amount delta links true) _ h in
    let (row, was_read, h2) = >>=-eq-ok (read_account db acct user) _ logged in
    let (f, s) = read_account_inv db acct user row was_read in
    let (only, sum, same) =
      create_account_log_inv db user acct type amount (from_cents row.current_balance)
        (add (from_cents row.current_balance) delta) links h2 in
    let moved = update_account_balance_inv mid acct user delta h1 in
    (
      row,
      record {
        found = f;
        only = only;
        scans = s;
        fits = add_fits row.current_balance delta (scans-InRange row s) sum;
        accounts =
            ap (λ (d : Db). d.accounts) moved
            ∙ ap (λ (d : Db). update_rows (account_is acct user) (credit (cents delta)) d.accounts)
                same;
      },
      logged_update db mid _ same moved,
    )

pub cents-signed :
    (debt : Bool) (c : Amount)
    → cents (if debt then negate c else c) ≡ (if debt then neg_ℤ (cents c) else cents c)
cents-signed true c = cents-negate c
cents-signed false c = refl

-- A cash flow credits its account in the account's convention.
pub flow-Credited :
    (db : Db) (user acct : ℕ) (type : LogType) (amount flow : Amount) (links : Links) {db' : Db}
    → (account_balance_delta db user acct flow >>= λ delta.
        apply_account_balance_mutation db user acct type amount delta links true)
      ≡ ok db'
    → (row : Account) × Credited db user acct (signed row (cents flow)) row db' × Framed db db'
unfolding account_balance_delta
flow-Credited db user acct type amount flow links {db' = db'} h =
    elim (Option-cases (find_row (account_is acct user) db.accounts)) [
      | inl e ↦ cc (rw e at h)
      | inr (a, e) ↦
          let (row, c, frame) =
            mutation-Credited db user acct type amount
              (if is_debt_account a.type then negate flow else flow) links (rw e at h) in
          let same : row ≡ a = cc (c.found, e) in
          (
            row,
            subst (λ (d : ℤ). Credited db user acct d row db')
                (cents-signed (is_debt_account a.type) flow
                  ∙ ap (λ (x : Account). signed x (cents flow)) (sym same))
                c,
            frame,
          )
    ]

pub delta-Credited :
    (db : Db) (tx : Transaction) (acct : ℕ) (type : LogType) (cash_flow : Amount)
    (reminder lending : Option ℕ) {db' : Db}
    → apply_transaction_account_delta db tx acct type cash_flow reminder lending true ≡ ok db'
    → (row : Account) × Credited db tx.user_id acct (signed row (cents cash_flow)) row db'
      × Framed db db'
unfolding apply_transaction_account_delta
delta-Credited db tx acct type cash_flow reminder lending h =
    flow-Credited db tx.user_id acct type (amount_of tx) cash_flow _ h
