-- ===== src/Balance/Conservation.antt =====
-- The two directions of a transaction, in terms of the owner's net worth.
use sky_personal_ledger.Base.{
  ℕ, ◌≡◌, refl, ap, ◌∙◌, subst, ◌≢◌, true, Option, none, some, [], ◌∷◌, ℤ, pos, ◌+ℤ◌, neg_ℤ,
  int_laws, ok, ◌>>=◌, >>=-eq-ok,
}
use sky_personal_ledger.Money.{Amount, cents, negate}
use sky_personal_ledger.Money.Exact.{cents-negate}
use sky_personal_ledger.Model.{
  Transaction, TxType, income, expense, transfer, unknown_type, Db, LogType, log_expense,
  log_income, log_transfer_in, log_transfer_out,
}
use sky_personal_ledger.Balance.Defs.{
  Links, account_balance_delta, apply_account_balance_mutation, amount_of, present,
  apply_transaction_account_delta,
}
use sky_personal_ledger.Balance.Locks.{lock_balance_accounts, move_balances, apply_balance_changes}
use sky_personal_ledger.Balance.Mutation.{Framed, flow-Credited, delta-Credited}
use sky_personal_ledger.Balance.NetWorth.{net_worth, net_worth-Credited, net_worth-Credited_ne}

-- The money that a transaction brings its owner: none, if it goes from one account to another.
abbrev pub cash_flow : TxType → ℤ → ℤ
cash_flow income c = c
cash_flow expense c = neg_ℤ c
cash_flow transfer c = pos 0
cash_flow unknown_type c = pos 0

-- What a step does to the net worths: the owner's moves, no other does.
abbrev pub Moves : ℕ → ℤ → Db → Db → Type 0
Moves user c db db' =
    (net_worth user db' ≡ net_worth user db +ℤ c)
    × ((other : ℕ) → other ≢ user → net_worth other db' ≡ net_worth other db)

pub flow-Moves :
    (db : Db) (user acct : ℕ) (type : LogType) (amount flow : Amount) (links : Links) {db' : Db}
    → (account_balance_delta db user acct flow >>= λ delta.
        apply_account_balance_mutation db user acct type amount delta links true)
      ≡ ok db'
    → Moves user (cents flow) db db' × Framed db db'
flow-Moves db user acct type amount flow links {db' = db'} h =
    let (row, c, frame) = flow-Credited db user acct type amount flow links h in
    (
      (
        net_worth-Credited db db' user acct (cents flow) row c,
        λ other ne. net_worth-Credited_ne db db' user acct other _ row ne c,
      ),
      frame,
    )

pub delta-Moves :
    (db : Db) (tx : Transaction) (acct : ℕ) (type : LogType) (flow : Amount)
    (reminder lending : Option ℕ) {db' : Db}
    → apply_transaction_account_delta db tx acct type flow reminder lending true ≡ ok db'
    → Moves tx.user_id (cents flow) db db'
delta-Moves db tx acct type flow reminder lending {db' = db'} h =
    let (row, c, _) = delta-Credited db tx acct type flow reminder lending h in
    (
      net_worth-Credited db db' tx.user_id acct (cents flow) row c,
      λ other ne. net_worth-Credited_ne db db' tx.user_id acct other _ row ne c,
    )

pub add_neg : (w c : ℤ) → w +ℤ neg_ℤ c +ℤ c ≡ w +ℤ pos 0
add_neg w c = omega int_laws

pub add_zero : (w : ℤ) → w ≡ w +ℤ pos 0
add_zero w = omega int_laws

pub ok-injective : {a b : Db} → ok a ≡ ok b → a ≡ b
ok-injective h = cc

move_balances-Moves :
    (db : Db) (tx : Transaction) (type : TxType) (to : Option ℕ) {db' : Db}
    → move_balances db tx type to true ≡ ok db'
    → Moves tx.user_id (cash_flow type (cents (amount_of tx))) db db'
unfolding move_balances
move_balances-Moves db tx income to h =
    delta-Moves db tx tx.account_id log_income (amount_of tx) none none h
move_balances-Moves db tx expense to h =
    rw (← cents-negate (amount_of tx))
      (delta-Moves db tx tx.account_id log_expense (negate (amount_of tx)) none none h)
move_balances-Moves db tx transfer none h = cc
move_balances-Moves db tx transfer (some to) {db' = db'} h =
    let (mid, out, h1) =
      >>=-eq-ok
        (apply_transaction_account_delta db tx tx.account_id log_transfer_out
          (negate (amount_of tx)) none none true)
        _ h in
    let (mine, others) =
      delta-Moves db tx tx.account_id log_transfer_out (negate (amount_of tx)) none none out in
    let (mine', others') = delta-Moves mid tx to log_transfer_in (amount_of tx) none none h1 in
    (
      mine'
          ∙ ap (λ (w : ℤ). w +ℤ cents (amount_of tx))
              (mine ∙ ap (λ (c : ℤ). net_worth tx.user_id db +ℤ c) (cents-negate (amount_of tx)))
          ∙ add_neg (net_worth tx.user_id db) (cents (amount_of tx)),
      λ other ne. others' other ne ∙ others other ne,
    )
move_balances-Moves db tx unknown_type to {db' = db'} h =
    subst (Moves tx.user_id (pos 0) db) (ok-injective h)
      (add_zero (net_worth tx.user_id db), λ other ne. refl)

-- A transaction that is applied changes its owner's net worth by its amount: an income adds it, an
-- expense takes it, a transfer changes nothing, whatever the types of the accounts; and the net worth
-- of every other user stays.
pub apply_balance_changes-Moves :
    (db : Db) (tx : Transaction) {db' : Db}
    → apply_balance_changes db tx true ≡ ok db'
    → Moves tx.user_id (cash_flow tx.type (cents (amount_of tx))) db db'
unfolding apply_balance_changes
apply_balance_changes-Moves db tx h =
    let (_, _, moved) = >>=-eq-ok (lock_balance_accounts db (tx ∷ [])) _ h in
    move_balances-Moves db tx tx.type (present tx.to_account_id) moved
