-- ===== src/Transactions/Deletion.antt =====
-- What deleting a transaction does to net worths and to its row.
use sky_personal_ledger.Base.{
  ℕ, ◌≡◌, refl, sym, ap, ◌∙◌, subst, inl, inr, true, false, not, Option, none, some, List, [], ◌∷◌,
  arith, ◌==◌, Option-cases, find_row, count_rows, update_rows, ok, guard, >>=-eq-ok,
}
use sky_personal_ledger.Base.{
  invalid_money, transaction_not_found, system_transaction_immutable, concurrent_balance_update,
}
use sky_personal_ledger.Money.{cents}
use sky_personal_ledger.Model.{Reminder, Transaction, Db}
use sky_personal_ledger.Balance.{present, amount_of, lock_balance_accounts, revert_balance_changes}
use sky_personal_ledger.Balance.Conservation.{Moves, ok-injective}
use sky_personal_ledger.Balance.Frame.{undone_flow, revert_balance_changes-Moves}
use sky_personal_ledger.Transactions.Defs.{transaction_is, read_transaction, is_system_transaction}
use sky_personal_ledger.Transactions.Rollback.{
  load_linked_reminder, revert_reminder_payment, revert_lending_transaction, lending_is,
  lending_scans, refund_lending, lending_unchanged,
}
use sky_personal_ledger.Transactions.Delete.{accounts_to_lock, drop_transaction, delete_with_tx}
use sky_personal_ledger.Transactions.NetWorth.{read_transaction_owner, Moves-same_accounts}

-- The rows that a rollback of a lending leaves alone.
abbrev SameLedger : Db → Db → Type 0
SameLedger db db' = (db'.accounts ≡ db.accounts) × (db'.transactions ≡ db.transactions)

same_ledger : (db : Db) {db' : Db} → ok db ≡ ok db' → SameLedger db db'
same_ledger db h = (
  ap (λ (d : Db). d.accounts) (sym (ok-injective h)),
  ap (λ (d : Db). d.transactions) (sym (ok-injective h)),
)

revert_lending_transaction-frame :
    (db : Db) (tx : Transaction) {db' : Db}
    → revert_lending_transaction db tx ≡ ok db'
    → SameLedger db db'
unfolding revert_lending_transaction
revert_lending_transaction-frame db tx h = elim (Option-cases (present tx.lending_id)) [
  | inl e ↦ same_ledger db (rw (revert_lending_transaction, e) at h)
  | inr (id, e) ↦ elim (Option-cases (find_row (lending_is id tx.user_id) db.lendings)) [
    | inl f ↦ same_ledger db (rw (revert_lending_transaction, e, f) at h)
    | inr (l, f) ↦
        let (_, _, h1) =
          >>=-eq-ok (guard (lending_scans l) invalid_money) _
            (rw (revert_lending_transaction, e, f) at h) in
        let (r, _, h2) = >>=-eq-ok (refund_lending l tx) _ h1 in
        let (_, _, h3) =
          >>=-eq-ok
            (guard (count_rows (lending_unchanged l tx.user_id) db.lendings == 1)
              concurrent_balance_update)
            _ h2 in
        (
          ap (λ (d : Db). d.accounts) (sym (ok-injective h3)),
          ap (λ (d : Db). d.transactions) (sym (ok-injective h3)),
        )
  ]
]

no_reminder :
    (db : Db) (tx : Transaction)
    → present tx.reminder_id ≡ none
    → load_linked_reminder db tx ≡ ok none
unfolding load_linked_reminder
no_reminder db tx e = rw (load_linked_reminder, e) refl

-- The rows that a deletion marks are not found again.
dropped :
    (id user : ℕ) (rows : List Transaction)
    → find_row (transaction_is id user) (update_rows (transaction_is id user) drop_transaction rows)
      ≡ none
unfolding find_row update_rows
dropped id user [] = refl
dropped id user (x ∷ rows) = ground (arith, dropped id user rows)

deletion :
    (db : Db) (id user : ℕ) {db' : Db}
    → delete_with_tx db id user ≡ ok db'
    → (tx : Transaction) × (read_transaction db id user ≡ ok tx)
      × (is_system_transaction tx ≡ false)
      × (find_row (transaction_is id user) db'.transactions ≡ none)
      × (present tx.reminder_id ≡ none
          → Moves user
              (undone_flow tx.type (present tx.to_account_id) (cents (amount_of tx)))
              db
              db')
unfolding delete_with_tx revert_reminder_payment
deletion db id user {db' = db'} h =
    let (tx, was_read, h1) = >>=-eq-ok (read_transaction db id user) _ h in
    let (_, g, h2) =
      >>=-eq-ok (guard (not (is_system_transaction tx)) system_transaction_immutable) _ h1 in
    let (reminder, loaded, h3) = >>=-eq-ok (load_linked_reminder db tx) _ h2 in
    let (_, _, h4) =
      >>=-eq-ok (lock_balance_accounts db (accounts_to_lock tx user reminder)) _ h3 in
    let (reverted, back, h5) = >>=-eq-ok (revert_balance_changes db tx true) _ h4 in
    let (refunded, repaid, h6) = >>=-eq-ok (revert_reminder_payment reverted tx reminder) _ h5 in
    let (reopened, lent, h7) = >>=-eq-ok (revert_lending_transaction refunded tx) _ h6 in
    let (_, _, h8) =
      >>=-eq-ok
        (guard (count_rows (transaction_is id user) reopened.transactions == 1)
          transaction_not_found)
        _ h7 in
    let e = ok-injective h8 in
    let (accounts, _) = revert_lending_transaction-frame refunded tx lent in
    (
      tx,
      was_read,
      ground arith,
      ap (λ (d : Db). find_row (transaction_is id user) d.transactions) (sym e)
          ∙ dropped id user reopened.transactions,
      λ unlinked.
          moved db reverted refunded db' tx id user reminder was_read
            (sym loaded ∙ no_reminder db tx unlinked) back repaid
            (ap (λ (d : Db). d.accounts) (sym e) ∙ accounts),
    )
  where
    moved :
        (db reverted refunded db' : Db) (tx : Transaction) (id user : ℕ)
        (reminder : Option Reminder)
        → read_transaction db id user ≡ ok tx
        → ok reminder ≡ ok none
        → revert_balance_changes db tx true ≡ ok reverted
        → revert_reminder_payment reverted tx reminder ≡ ok refunded
        → db'.accounts ≡ refunded.accounts
        → Moves user (undone_flow tx.type (present tx.to_account_id) (cents (amount_of tx))) db db'
    moved db reverted refunded db' tx id user none was_read gone back repaid after =
        let owner : tx.user_id ≡ user = read_transaction_owner db id user tx was_read in
        Moves-same_accounts user db _ reverted db'
          (after ∙ ap (λ (d : Db). d.accounts) (sym (ok-injective repaid)))
          (subst
            (λ (u : ℕ).
              Moves u (undone_flow tx.type (present tx.to_account_id) (cents (amount_of tx))) db
                reverted)
            owner (revert_balance_changes-Moves db tx back).0)
    moved db reverted refunded db' tx id user (some r) was_read gone back repaid after = cc

tx_of : {a b : Transaction} → ok a ≡ ok b → a ≡ b
tx_of h = cc

-- A deletion that succeeds is not of a system transaction, and leaves no row that is found under its
-- id. If no reminder is linked to the transaction, the owner's net worth changes by what reverting the
-- transaction does to it, and no other user's.
pub delete_with_tx-Moves :
    (db : Db) (id user : ℕ) (tx : Transaction) {db' : Db}
    → read_transaction db id user ≡ ok tx
    → present tx.reminder_id ≡ none
    → delete_with_tx db id user ≡ ok db'
    → (is_system_transaction tx ≡ false)
      × (find_row (transaction_is id user) db'.transactions ≡ none)
      × Moves user (undone_flow tx.type (present tx.to_account_id) (cents (amount_of tx))) db db'
delete_with_tx-Moves db id user tx {db' = db'} was_read unlinked h =
    let (t, read, manual, gone, moves) = deletion db id user h in
    subst
      (λ (x : Transaction).
        present x.reminder_id ≡ none
        → (is_system_transaction x ≡ false)
          × (find_row (transaction_is id user) db'.transactions ≡ none)
          × Moves user (undone_flow x.type (present x.to_account_id) (cents (amount_of x))) db db')
      (tx_of (sym read ∙ was_read)) (λ u. (manual, gone, moves u)) unlinked
