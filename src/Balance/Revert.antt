-- ===== src/Balance/Revert.antt =====
-- `revertBalanceChangesTx` undoes `applyBalanceChangesTx`.
use sky_personal_ledger.Base.{
  ℕ, ◌≡◌, refl, sym, ap, ◌∙◌, subst, ◌≢◌, true, Option, none, some, [], ◌∷◌, ℤ, neg_ℤ, ok,
  >>=-eq-ok,
}
use sky_personal_ledger.Money.{cents, negate}
use sky_personal_ledger.Money.Exact.{cents-negate, neg_ℤ-neg_ℤ}
use sky_personal_ledger.Model.{
  Transaction, TxType, income, expense, transfer, unknown_type, Db, log_income, log_expense,
  log_transfer_in, log_transfer_out,
}
use sky_personal_ledger.Balance.Defs.{amount_of, apply_transaction_account_delta, present}
use sky_personal_ledger.Balance.Locks.{
  lock_all, lock_balance_accounts, lock_order, move_balances, apply_balance_changes,
  unmove_balances, revert_balance_changes,
}
use sky_personal_ledger.Balance.Mutation.{
  InRange, signed, Credited, Credited-same_accounts, delta-Credited,
}
use sky_personal_ledger.Balance.Conservation.{ok-injective}
use sky_personal_ledger.Balance.LockOrder.{lock_all-Credited, lock_all-same_accounts}
use sky_personal_ledger.Balance.Undo.{Restores, undo_leg, undo_transfer_legs}

module _ (db : Db) (tx : Transaction) (fits : InRange tx.amount) where
  abbrev Locked : Db → Type 0
  Locked d = lock_all d (lock_order (tx ∷ [])) ≡ ok tt

  undo_moves :
      (type : TxType) (to : Option ℕ) {db' : Db} (now : Db)
      → now.accounts ≡ db'.accounts
      → (type ≡ transfer → to ≢ some tx.account_id)
      → Locked db
      → move_balances db tx type to true ≡ ok db'
      → Restores db (unmove_balances now tx type to true) × Locked now
  unfolding move_balances unmove_balances
  undo_moves income to now same ne l h =
      let (row, moved, _) =
        delta-Credited db tx tx.account_id log_income (amount_of tx) none none h in
      let c = Credited-same_accounts moved same in
      (
        undo_leg db now tx tx.account_id (cents (amount_of tx)) row c fits (negate (amount_of tx))
            tx.reminder_id tx.lending_id (cents-negate (amount_of tx)),
        lock_all-Credited db now tx.user_id tx.account_id _ row _ c l,
      )
  undo_moves expense to now same ne l h =
      let (row, moved, _) =
        delta-Credited db tx tx.account_id log_expense (negate (amount_of tx)) none none h in
      let c = Credited-same_accounts moved same in
      (
        undo_leg db now tx tx.account_id (cents (negate (amount_of tx))) row c fits (amount_of tx)
            tx.reminder_id tx.lending_id
            (sym (ap neg_ℤ (cents-negate (amount_of tx)) ∙ neg_ℤ-neg_ℤ (cents (amount_of tx)))),
        lock_all-Credited db now tx.user_id tx.account_id _ row _ c l,
      )
  undo_moves transfer none now same ne l h = cc
  undo_moves transfer (some to) now same ne l h =
      let (mid, out, h1) =
        >>=-eq-ok
          (apply_transaction_account_delta db tx tx.account_id log_transfer_out
            (negate (amount_of tx)) none none true)
          _ h in
      let (r1, c1, _) =
        delta-Credited db tx tx.account_id log_transfer_out (negate (amount_of tx)) none none out in
      let (r2, received, _) =
        delta-Credited mid tx to log_transfer_in (amount_of tx) none none h1 in
      let c2 = Credited-same_accounts received same in
      let c = cents (amount_of tx) in
      (
        undo_transfer_legs db mid now tx tx.account_id to c r1 r2
            (subst (λ (x : ℤ). Credited db tx.user_id tx.account_id (signed r1 x) r1 mid)
              (cents-negate (amount_of tx)) c1)
            c2 (λ p. ne refl (ap some p)) fits (amount_of tx) (negate (amount_of tx)) refl
            (cents-negate (amount_of tx)),
        lock_all-Credited mid now tx.user_id to _ r2 _ c2
            (lock_all-Credited db mid tx.user_id tx.account_id _ r1 _ c1 l),
      )
  undo_moves unknown_type to {db' = db'} now same ne l h =
      let kept : now.accounts ≡ db.accounts =
        same ∙ sym (ap (λ (d : Db). d.accounts) (ok-injective h)) in
      ((now, refl, kept), lock_all-same_accounts db now (lock_order (tx ∷ [])) kept l)

  -- A transaction that was applied can be reverted, also after changes to other tables, and then the
  -- accounts are what they were. The amount is in the exact range, and a transfer goes to another
  -- account.
  pub revert-apply :
      {db' : Db} (now : Db)
      → now.accounts ≡ db'.accounts
      → (tx.type ≡ transfer → present tx.to_account_id ≢ some tx.account_id)
      → apply_balance_changes db tx true ≡ ok db'
      → Restores db (revert_balance_changes now tx true)
  unfolding apply_balance_changes revert_balance_changes lock_balance_accounts
  revert-apply now same ne h =
      let (_, l, h1) = >>=-eq-ok (lock_all db (lock_order (tx ∷ []))) _ h in
      let (restores, l') = undo_moves tx.type (present tx.to_account_id) now same ne l h1 in
      rw l' restores
