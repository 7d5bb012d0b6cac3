-- ===== src/Balance/Frame.antt =====
-- What applying and reverting leave alone, and what reverting does to net worths.
use sky_personal_ledger.Base.{
  ℕ, ◌≡◌, refl, ap, ◌∙◌, subst, true, Option, none, some, [], ◌∷◌, arith, ℤ, pos, ◌+ℤ◌, neg_ℤ,
  int_laws, ok, >>=-eq-ok,
}
use sky_personal_ledger.Money.{cents, negate}
use sky_personal_ledger.Money.Exact.{cents-negate}
use sky_personal_ledger.Model.{
  Transaction, TxType, income, expense, transfer, unknown_type, Db, log_income, log_expense,
  log_transfer_in, log_transfer_out, log_rollback,
}
use sky_personal_ledger.Balance.Defs.{amount_of, present, apply_transaction_account_delta}
use sky_personal_ledger.Balance.Locks.{
  lock_balance_accounts, move_balances, apply_balance_changes, unmove_balances,
  revert_balance_changes,
}
use sky_personal_ledger.Balance.Mutation.{Framed, delta-Credited}
use sky_personal_ledger.Balance.NetWorth.{net_worth}
use sky_personal_ledger.Balance.Conservation.{Moves, delta-Moves, add_zero, ok-injective}

Framed-trans : (a b c : Db) → Framed a b → Framed b c → Framed a c
Framed-trans a b c h k = ground arith

Framed-eq : (a b : Db) → a ≡ b → Framed a b
Framed-eq a b h = ground arith

-- The money that a revert takes back from its owner.
abbrev pub undone_flow : TxType → Option ℕ → ℤ → ℤ
undone_flow income to c = neg_ℤ c
undone_flow expense to c = c
undone_flow transfer none c = c
undone_flow transfer (some to) c = pos 0
undone_flow unknown_type to c = pos 0

module _ (db : Db) (tx : Transaction) where
  move_balances-Framed :
      (type : TxType) (to : Option ℕ) {db' : Db}
      → move_balances db tx type to true ≡ ok db'
      → Framed db db'
  unfolding move_balances
  move_balances-Framed income to h =
      (delta-Credited db tx tx.account_id log_income (amount_of tx) none none h).2
  move_balances-Framed expense to h =
      (delta-Credited db tx tx.account_id log_expense (negate (amount_of tx)) none none h).2
  move_balances-Framed transfer none h = cc
  move_balances-Framed transfer (some to) {db' = db'} h =
      let (mid, out, h1) =
        >>=-eq-ok
          (apply_transaction_account_delta db tx tx.account_id log_transfer_out
            (negate (amount_of tx)) none none true)
          _ h in
      Framed-trans db mid db'
        (delta-Credited db tx tx.account_id log_transfer_out (negate (amount_of tx)) none none
          out).2
        (delta-Credited mid tx to log_transfer_in (amount_of tx) none none h1).2
  move_balances-Framed unknown_type to {db' = db'} h = Framed-eq db db' (ok-injective h)

  pub apply_balance_changes-Framed :
      {db' : Db} → apply_balance_changes db tx true ≡ ok db' → Framed db db'
  unfolding apply_balance_changes
  apply_balance_changes-Framed h =
      let (_, _, moved) = >>=-eq-ok (lock_balance_accounts db (tx ∷ [])) _ h in
      move_balances-Framed tx.type (present tx.to_account_id) moved

  unmove_balances-Moves :
      (type : TxType) (to : Option ℕ) {db' : Db}
      → unmove_balances db tx type to true ≡ ok db'
      → Moves tx.user_id (undone_flow type to (cents (amount_of tx))) db db' × Framed db db'
  unfolding unmove_balances
  unmove_balances-Moves income to h = (
    rw (← cents-negate (amount_of tx)) (
        delta-Moves db tx tx.account_id log_rollback (negate (amount_of tx)) tx.reminder_id
          tx.lending_id h),
    (delta-Credited db tx tx.account_id log_rollback (negate (amount_of tx)) tx.reminder_id
        tx.lending_id h).2,
  )
  unmove_balances-Moves expense to h = (
    delta-Moves db tx tx.account_id log_rollback (amount_of tx) tx.reminder_id tx.lending_id h,
    (delta-Credited db tx tx.account_id log_rollback (amount_of tx) tx.reminder_id tx.lending_id
        h).2,
  )
  unmove_balances-Moves transfer none h = (
    delta-Moves db tx tx.account_id log_rollback (amount_of tx) none none h,
    (delta-Credited db tx tx.account_id log_rollback (amount_of tx) none none h).2,
  )
  unmove_balances-Moves transfer (some to) {db' = db'} h =
      let (mid, back, h1) =
        >>=-eq-ok
          (apply_transaction_account_delta db tx tx.account_id log_rollback (amount_of tx) none none
            true)
          _ h in
      let (mine, others) =
        delta-Moves db tx tx.account_id log_rollback (amount_of tx) none none back in
      let (mine', others') =
        delta-Moves mid tx to log_rollback (negate (amount_of tx)) none none h1 in
      (
        (
          mine'
              ∙ ap (λ (w : ℤ). w +ℤ cents (negate (amount_of tx))) mine
              ∙ ap (λ (c : ℤ). net_worth tx.user_id db +ℤ cents (amount_of tx) +ℤ c)
                  (cents-negate (amount_of tx))
              ∙ sub_back (net_worth tx.user_id db) (cents (amount_of tx)),
          λ other ne. others' other ne ∙ others other ne,
        ),
        Framed-trans db mid db'
            (delta-Credited db tx tx.account_id log_rollback (amount_of tx) none none back).2
            (delta-Credited mid tx to log_rollback (negate (amount_of tx)) none none h1).2,
      )
    where
      sub_back : (w c : ℤ) → w +ℤ c +ℤ neg_ℤ c ≡ w +ℤ pos 0
      sub_back w c = omega int_laws
  unmove_balances-Moves unknown_type to {db' = db'} h = (
    subst (Moves tx.user_id (pos 0) db) (ok-injective h)
        (add_zero (net_worth tx.user_id db), λ other ne. refl),
    Framed-eq db db' (ok-injective h),
  )

  -- A transaction that is reverted changes its owner's net worth by the opposite of its amount: an
  -- income is taken back, an expense given back, a transfer changes nothing; a transfer whose target is
  -- missing gives its amount back. No other net worth changes, and no table but the accounts and their
  -- log.
  pub revert_balance_changes-Moves :
      {db' : Db}
      → revert_balance_changes db tx true ≡ ok db'
      → Moves tx.user_id
          (undone_flow tx.type (present tx.to_account_id) (cents (amount_of tx)))
          db
          db'
        × Framed db db'
  unfolding revert_balance_changes
  revert_balance_changes-Moves h =
      let (_, _, moved) = >>=-eq-ok (lock_balance_accounts db (tx ∷ [])) _ h in
      unmove_balances-Moves tx.type (present tx.to_account_id) moved
