-- ===== src/Lendings/Refund.antt =====
-- Taking back the transaction of a repayment (`revertLendingTransactionTx`) undoes the repayment.
use sky_personal_ledger.Base.{
  update_back, find_row_unique, ℕ, ◌≡◌, refl, sym, ap, ◌∙◌, subst, true, false, none, some, arith,
  ℤ, pos, neg_part, ◌+ℤ◌, ◌-ℤ◌, leb_ℤ, find_row, count_rows, update_rows, touch,
  find_row-update_rows, find_row_holds, ok,
}
use sky_personal_ledger.Money.{exact, cents}
use sky_personal_ledger.Model.{LendingType, lend_out, borrow_in, Lending, Transaction, Db}
use sky_personal_ledger.Balance.{present}
use sky_personal_ledger.Balance.Mutation.{InRange}
use sky_personal_ledger.Transactions.{
  lending_is, lending_unchanged, is_repayment, overwrite, revert_lending_transaction,
}
use sky_personal_ledger.Lendings.Defs.{
  live_lending, still_lending, repay_row, repaid_type, repaid_flow, RecordRepaymentRequest,
  record_repayment,
}
use sky_personal_ledger.Lendings.Soundness.{Repaid}
use sky_personal_ledger.Lendings.Recorded.{record_repayment-Recorded, pay_if-Moves}
use sky_personal_ledger.Lendings.RefundRow.{
  refund_row, reverted, scans_after, and_left, unchanged_self, live_self, less_fits,
}

-- The rows after a repayment, and after its transaction is taken back.
revert_rows :
    (db after : Db) (l : Lending) (tx : Transaction) {mid : Db}
    → Repaid db l tx.user_id tx.amount mid
    → after.lendings ≡ mid.lendings
    → leb_ℤ (pos 1) tx.amount ≡ true
    → is_repayment l.type tx.type ≡ true
    → present tx.lending_id ≡ some l.id
    → count_rows (lending_is l.id tx.user_id) db.lendings ≡ 1
    → find_row (lending_is l.id tx.user_id) db.lendings ≡ some l
    → l.deleted ≡ false
    → neg_part l.total_repaid ≡ 0
    → l.settled_at ≡ none
    → (db' : Db) × (revert_lending_transaction after tx ≡ ok db') × (db'.lendings ≡ db.lendings)
revert_rows db after l tx e same positive rep linked one found alive nonneg never =
    let paid =
      repay_row e.settled e.at (l.current_balance -ℤ tx.amount) (l.total_repaid +ℤ tx.amount) in
    let key = lending_is l.id tx.user_id in
    let p = still_lending l tx.user_id in
    let back = lending_unchanged (paid l) tx.user_id in
    let mine : key l ≡ true = find_row_holds key db.lendings l found in
    let at : p l ≡ true = live_self l tx.user_id mine alive in
    let at_back : back (paid l) ≡ true = unchanged_self (paid l) tx.user_id mine in
    let (once, restored) =
      update_back key p back paid (overwrite l) l at at_back refl
        (λ x h. and_left _ _ (and_left _ _ h)) (λ x h. and_left _ _ h) db.lendings one found in
    let rows : after.lendings ≡ update_rows p paid db.lendings =
      same ∙ ap (λ (d : Db). d.lendings) e.wrote in
    let found' : find_row key after.lendings ≡ some (paid l) =
      ap (find_row key) rows
      ∙ find_row-update_rows p paid key db.lendings (λ x. refl)
      ∙ ap (touch p paid) found
      ∙ rw at refl in
    let less : InRange (l.current_balance -ℤ tx.amount) =
      less_fits l.current_balance tx.amount e.balance_fits positive e.covered in
    let refunded =
      refund_row l tx e.settled e.at rep positive e.covered e.balance_fits e.total_fits
        e.repaid_fits nonneg e.unsettled never e.stays in
    (
      _,
      reverted after tx l.id (paid l) l linked found'
          (scans_after l e.settled e.at _ _ e.scanned less e.repaid_fits) refunded
          (ap (count_rows back) rows ∙ once),
      ap (update_rows back (overwrite l)) rows ∙ restored,
    )

repaid_type-is_repayment : (type : LendingType) → is_repayment type (repaid_type type) ≡ true
unfolding is_repayment repaid_type
repaid_type-is_repayment lend_out = refl
repaid_type-is_repayment borrow_in = refl

live_key : (id user : ℕ) (l : Lending) → live_lending id user l ≡ true → lending_is id user l ≡ true
live_key id user l h = ground arith

live_id : (id user : ℕ) (l : Lending) → live_lending id user l ≡ true → l.id ≡ id
live_id id user l h = ground arith

live_alive : (id user : ℕ) (l : Lending) → live_lending id user l ≡ true → l.deleted ≡ false
live_alive id user l h = ground arith

-- A repayment that is recorded can be taken back by its transaction, also after changes to other
-- tables, and then every lending is what it was. The transaction is the lender's own, is linked to the
-- lending and has the repayment's type and amount; the lending's id is unique, its total repaid is not
-- negative and it was never settled.
pub revert-record_repayment :
    (db after : Db) (id user : ℕ) (req : RecordRepaymentRequest) (now entry tx category : ℕ)
    (l : Lending) (t : Transaction) {mid : Db}
    → record_repayment db id user req now entry tx category ≡ ok mid
    → after.lendings ≡ mid.lendings
    → count_rows (lending_is id user) db.lendings ≡ 1
    → find_row (lending_is id user) db.lendings ≡ some l
    → neg_part l.total_repaid ≡ 0
    → l.settled_at ≡ none
    → t.user_id ≡ user
    → present t.lending_id ≡ some id
    → t.type ≡ repaid_type l.type
    → t.amount ≡ cents req.amount
    → (db' : Db) × (revert_lending_transaction after t ≡ ok db') × (db'.lendings ≡ db.lendings)
revert-record_repayment db after id user req now entry tx category l t {mid = mid} h same one found
      nonneg never owner linked type amount =
    let (x, date, live, r) = record_repayment-Recorded db id user req now entry tx category h in
    let is_l : x ≡ l =
      find_row_unique (lending_is id user) (live_lending id user) db.lendings l x
        (λ y k. live_key id user y k) one found live in
    let mine = find_row_holds (live_lending id user) db.lendings l (live ∙ ap some is_l) in
    let its_id : l.id ≡ id = live_id id user l mine in
    let one' =
      ap (λ (i : ℕ). count_rows (lending_is i t.user_id) db.lendings) its_id
      ∙ ap (λ (u : ℕ). count_rows (lending_is id u) db.lendings) owner
      ∙ one in
    let found' =
      ap (λ (i : ℕ). find_row (lending_is i t.user_id) db.lendings) its_id
      ∙ ap (λ (u : ℕ). find_row (lending_is id u) db.lendings) owner
      ∙ found in
    let (_, books) =
      pay_if-Moves req.create_transaction r.account r.mid user id (repaid_type x.type)
        (exact (cents req.amount)) (repaid_flow x.type (exact (cents req.amount))) date tx category
        r.pays in
    let e =
      subst (λ (c : ℤ). Repaid db l t.user_id c r.mid) (sym amount)
        (subst (λ (u : ℕ). Repaid db l u (cents req.amount) r.mid) (sym owner)
          (subst (λ (y : Lending). Repaid db y user (cents req.amount) r.mid) is_l r.repaid)) in
    revert_rows db after l t e (same ∙ ap (λ (d : Db). d.lendings) r.entered ∙ books.0)
      (subst (λ (c : ℤ). leb_ℤ (pos 1) c ≡ true) (sym amount) r.payable)
      (ap (is_repayment l.type) type ∙ repaid_type-is_repayment l.type)
      (linked ∙ ap some (sym its_id)) one' found' (live_alive id user l mine) nonneg never
