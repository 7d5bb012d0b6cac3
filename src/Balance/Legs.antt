-- ===== src/Balance/Legs.antt =====
-- A balance mutation succeeds where its row is there, readable, and stays in the exact range; and
-- what a credit leaves can be credited again.
use sky_personal_ledger.Base.{
  ℕ, ◌≡◌, refl, ap, ◌∙◌, subst, ◌≢◌, true, Option, some, ◌∷◌, arith, ◌==◌, if◌then◌else◌, ℤ, ◌+ℤ◌,
  find_row, count_rows, update_rows, find_row-update_rows, count_rows-update_rows, find_row_holds,
  Result, ok,
}
use sky_personal_ledger.Money.{Amount, from_cents, cents, is_valid, add, negate, value}
use sky_personal_ledger.Money.Exact.{add-eq-from_cents, from_cents-in_range, cents-exact}
use sky_personal_ledger.Model.{Account, LogType, Transaction, Db, is_debt_account}
use sky_personal_ledger.Balance.Defs.{
  account_is, account_scans, read_account, credit, update_account_balance, Links, log_row,
  create_account_log, log_account_balance_change, apply_account_balance_mutation,
  account_balance_delta, amount_of, apply_transaction_account_delta,
}
use sky_personal_ledger.Balance.Mutation.{
  InRange, signed, Credited, delta-Credited, scans-InRange, cents-signed,
}

abbrev pub Succeeds {ℓ} : {A : Type ℓ} → Result A → Type ℓ
Succeeds {A = A} r = (a : A) × (r ≡ ok a)

value-from_cents : (c : ℤ) → InRange c → value (from_cents c) ≡ ok c
unfolding value
value-from_cents c h = rw (from_cents-in_range c h) (rw (cents-exact c h))

value-add :
    (b : ℤ) (d : Amount)
    → InRange b
    → InRange (b +ℤ cents d)
    → value (add (from_cents b) d) ≡ ok (b +ℤ cents d)
value-add b d h k =
    rw (add-eq-from_cents (from_cents b) d)
      (rw (from_cents-in_range b h) (rw (cents-exact b h) (value-from_cents (b +ℤ cents d) k)))

module _ (db : Db) (user acct : ℕ) (row : Account)
    (found : find_row (account_is acct user) db.accounts ≡ some row)
    (only : count_rows (account_is acct user) db.accounts ≡ 1)
    (scans : account_scans row ≡ true) where
  read_succeeds : read_account db acct user ≡ ok row
  unfolding read_account
  read_succeeds = rw found (rw scans)

  only_one : (count_rows (account_is acct user) db.accounts == 1) ≡ true
  only_one = ground arith

  mutation-Succeeds :
      (type : LogType) (amount delta : Amount) (links : Links) (c : ℤ)
      → value amount ≡ ok c
      → InRange (row.current_balance +ℤ cents delta)
      → Succeeds (apply_account_balance_mutation db user acct type amount delta links true)
  unfolding apply_account_balance_mutation log_account_balance_change create_account_log
      update_account_balance
  mutation-Succeeds type amount delta links c v fits =
      let before = scans-InRange row scans in
      (
        record db {
          accounts = update_rows (account_is acct user) (credit (cents delta)) db.accounts;
          account_logs =
              log_row user acct type c row.current_balance (row.current_balance +ℤ cents delta)
                links
              ∷ db.account_logs;
        },
        rw read_succeeds (
            rw only_one (
              rw v (
                rw (value-from_cents row.current_balance before)
                  (rw (value-add row.current_balance delta before fits) (rw only_one))))),
      )

  delta-Succeeds :
      (tx : Transaction) (type : LogType) (flow : Amount) (reminder lending : Option ℕ)
      → tx.user_id ≡ user
      → InRange tx.amount
      → InRange (row.current_balance +ℤ signed row (cents flow))
      → Succeeds (apply_transaction_account_delta db tx acct type flow reminder lending true)
  unfolding apply_transaction_account_delta account_balance_delta
  delta-Succeeds tx type flow reminder lending owner amount fits = rw owner (
      rw found (
        mutation-Succeeds type (amount_of tx)
          (if is_debt_account row.type then negate flow else flow) _ tx.amount
          (value-from_cents tx.amount amount)
          (rw (cents-signed (is_debt_account row.type) flow) fits)))

  -- The mutation succeeds, and credits this row.
  pub leg :
      (tx : Transaction) (type : LogType) (flow : Amount) (reminder lending : Option ℕ)
      → tx.user_id ≡ user
      → InRange tx.amount
      → InRange (row.current_balance +ℤ signed row (cents flow))
      → (db' : Db) × (apply_transaction_account_delta db tx acct type flow reminder lending true
          ≡ ok db')
        × Credited db user acct (signed row (cents flow)) row db'
  leg tx type flow reminder lending owner amount fits =
      let (db', e) = delta-Succeeds tx type flow reminder lending owner amount fits in
      let (row', c, _) = delta-Credited db tx acct type flow reminder lending e in
      let credited : Credited db user acct (signed row' (cents flow)) row' db' =
        subst (λ (u : ℕ). Credited db u acct (signed row' (cents flow)) row' db') owner c in
      let same : row' ≡ row = cc (credited.found, found) in
      (
        db',
        e,
        subst (λ (r : Account). Credited db user acct (signed r (cents flow)) r db') same credited,
      )

valid-InRange : (c : ℤ) → InRange c → is_valid (from_cents c) ≡ true
unfolding is_valid from_cents
valid-InRange c h = ground arith

-- The row that a credit leaves.
module _ (db db' : Db) (user acct : ℕ) (d : ℤ) (row : Account)
    (h : Credited db user acct d row db') where
  pub found_after : find_row (account_is acct user) db'.accounts ≡ some (credit d row)
  found_after = rw h.accounts (
      find_row-update_rows (account_is acct user) (credit d) (account_is acct user) db.accounts
        (λ x. refl)
      ∙ rw h.found (ap some (rw (find_row_holds (account_is acct user) db.accounts row h.found))))

  pub count_after :
      (other : ℕ)
      → count_rows (account_is other user) db'.accounts
        ≡ count_rows (account_is other user) db.accounts
  count_after other = rw h.accounts (
      count_rows-update_rows (account_is acct user) (credit d) (account_is other user) db.accounts
        (λ x. refl))

  pub scans_after : account_scans (credit d row) ≡ true
  scans_after = ground (arith, h.scans, valid-InRange (row.current_balance +ℤ d) h.fits)

  -- The row of another account is as it was.
  pub found_other :
      (other : ℕ) (r : Account)
      → other ≢ acct
      → find_row (account_is other user) db.accounts ≡ some r
      → find_row (account_is other user) db'.accounts ≡ some r
  found_other other r ne f = rw h.accounts (
      find_row-update_rows (account_is acct user) (credit d) (account_is other user) db.accounts
        (λ x. refl)
      ∙ rw f (ap some (ground (arith, find_row_holds (account_is other user) db.accounts r f))))
