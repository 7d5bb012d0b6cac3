-- ===== src/Balance/NetWorth.antt =====
-- Balances under credits: the net worth of a user, and crediting back.
use sky_personal_ledger.Base.{
  ℕ, ◌≡◌, refl, ap, ◌∙◌, ◌≢◌, Bool, true, false, not, ◌&&◌, arith, ◌==◌, if◌then◌else◌, ℤ, pos,
  pos_part, neg_part, ◌+ℤ◌, neg_ℤ, int_laws, sum_rows, sum_rows-update_rows,
  sum_rows-update_rows_same, find_row_holds,
}
use sky_personal_ledger.Model.{Account, Db, is_debt_account}
use sky_personal_ledger.Balance.Defs.{account_is, credit}
use sky_personal_ledger.Balance.Mutation.{signed, Credited}

-- What a row counts for in a user's net worth: money held, less money owed.
abbrev pub worth : ℕ → Account → ℤ
worth user a = if a.user_id == user && not a.deleted then signed a a.current_balance else pos 0

unfoldable pub net_worth : ℕ → Db → ℤ
net_worth user db = sum_rows (worth user) db.accounts

signed-signed :
    (debt : Bool) (b c : ℤ)
    → (if debt
        then neg_ℤ (b +ℤ (if debt then neg_ℤ c else c))
        else (b +ℤ (if debt then neg_ℤ c else c)))
      ≡ (if debt then neg_ℤ b else b) +ℤ c
signed-signed true b c = omega int_laws
signed-signed false b c = refl

worth-credit :
    (user acct : ℕ) (c : ℤ) (row : Account)
    → account_is acct user row ≡ true
    → worth user (credit (signed row c) row) ≡ worth user row +ℤ c
worth-credit user acct c row h =
    let mine : (row.user_id == user && not row.deleted) ≡ true = ground arith in
    rw mine (signed-signed (is_debt_account row.type) row.current_balance c)

cancel : (s w t c : ℤ) → s +ℤ w ≡ t +ℤ (w +ℤ c) → s ≡ t +ℤ c
cancel s w t c h = omega (int_laws, ap pos_part h, ap neg_part h)

-- One credit by a cash flow changes the owner's net worth by the cash flow.
pub net_worth-Credited :
    (db db' : Db) (user acct : ℕ) (c : ℤ) (row : Account)
    → Credited db user acct (signed row c) row db'
    → net_worth user db' ≡ net_worth user db +ℤ c
unfolding net_worth
net_worth-Credited db db' user acct c row h =
    let total =
      sum_rows-update_rows (account_is acct user) (credit (signed row c)) (worth user) row
        db.accounts h.only h.found in
    let mine = find_row_holds (account_is acct user) db.accounts row h.found in
    rw h.accounts (
      cancel _ (worth user row) (sum_rows (worth user) db.accounts) c (
        total
        ∙ ap (λ (w : ℤ). sum_rows (worth user) db.accounts +ℤ w)
            (worth-credit user acct c row mine)))

pub net_worth-Credited_ne :
    (db db' : Db) (user acct other : ℕ) (d : ℤ) (row : Account)
    → other ≢ user
    → Credited db user acct d row db'
    → net_worth other db' ≡ net_worth other db
unfolding net_worth
net_worth-Credited_ne db db' user acct other d row ne h = rw h.accounts (
    sum_rows-update_rows_same (account_is acct user) (credit d) (worth other) db.accounts
      (λ a m. ground arith))

pub net_worth-same :
    (user : ℕ) (db db' : Db) → db'.accounts ≡ db.accounts → net_worth user db' ≡ net_worth user db
unfolding net_worth
net_worth-same user db db' e = ap (sum_rows (worth user)) e
