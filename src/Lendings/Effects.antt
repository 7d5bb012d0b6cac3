-- ===== src/Lendings/Effects.antt =====
-- What a repayment does to the lendings and to the net worths.
use sky_personal_ledger.Base.{
  ℕ, ◌≡◌, sym, ap, ◌∙◌, subst, true, false, none, some, if◌then◌else◌, ℤ, pos, ◌+ℤ◌, neg_ℤ, leb_ℤ,
  All, find_row, ok,
}
use sky_personal_ledger.Money.{Amount, cents, exact}
use sky_personal_ledger.Money.Exact.{cents-negate, cents-exact, cents_bound}
use sky_personal_ledger.Model.{LendingType, lend_out, borrow_in, Lending, Db}
use sky_personal_ledger.Balance.{present}
use sky_personal_ledger.Balance.NetWorth.{net_worth, net_worth-same}
use sky_personal_ledger.Balance.Conservation.{Moves}
use sky_personal_ledger.Lendings.Defs.{
  live_lending, RecordRepaymentRequest, record_repayment, repaid_type, repaid_flow,
}
use sky_personal_ledger.Lendings.Soundness.{IsSound, repaid_rows}
use sky_personal_ledger.Lendings.Recorded.{
  record_repayment-Recorded, pay_if-Moves, named_account-cash,
}
use sky_personal_ledger.Base.{false}

-- A repayment that is recorded keeps the books of every lending sound: it takes from what is owed no
-- more than is owed, and settles the lending just when nothing is left.
pub record_repayment-IsSound :
    (db : Db) (lending user : ℕ) (req : RecordRepaymentRequest) (now entry tx category : ℕ)
    {db' : Db}
    → record_repayment db lending user req now entry tx category ≡ ok db'
    → All IsSound db.lendings
    → All IsSound db'.lendings
record_repayment-IsSound db lending user req now entry tx category h sound =
    let (l, date, _, r) = record_repayment-Recorded db lending user req now entry tx category h in
    let e = r.repaid in
    let (_, (same, _)) =
      pay_if-Moves req.create_transaction r.account r.mid user lending (repaid_type l.type)
        (exact (cents req.amount)) (repaid_flow l.type (exact (cents req.amount))) date tx category
        r.pays in
    subst (All IsSound)
      (sym (ap (λ (d : Db). d.lendings) r.entered ∙ same ∙ ap (λ (d : Db). d.lendings) e.wrote))
      (repaid_rows l user (cents req.amount) e.settled e.at db.lendings e.covered e.settles sound)

-- The cash that a repayment of `c` brings its owner.
abbrev pub repayment_cash : LendingType → ℤ → ℤ
repayment_cash lend_out c = c
repayment_cash borrow_in c = neg_ℤ c

flow-cents :
    (type : LendingType) (a : Amount)
    → cents (repaid_flow type (exact (cents a))) ≡ repayment_cash type (cents a)
unfolding repaid_flow
flow-cents lend_out a = cents-exact (cents a) (cents_bound a)
flow-cents borrow_in a =
    cents-negate (exact (cents a)) ∙ ap neg_ℤ (cents-exact (cents a) (cents_bound a))

-- The step in the middle of steps that leave the accounts.
pub between :
    (user : ℕ) (db mid paid db' : Db) (c d : ℤ)
    → mid.accounts ≡ db.accounts
    → db'.accounts ≡ paid.accounts
    → c ≡ d
    → Moves user c mid paid
    → Moves user d db db'
between user db mid paid db' c d before after e m =
    let (mine, others) = m in
    (
      net_worth-same user paid db' after
          ∙ mine
          ∙ ap (λ (w : ℤ). w +ℤ c) (net_worth-same user db mid before)
          ∙ ap (λ (x : ℤ). net_worth user db +ℤ x) e,
      λ other ne.
          net_worth-same other paid db' after
          ∙ others other ne
          ∙ net_worth-same other db mid before,
    )

-- A repayment that is recorded finds the owner's lending, unsettled and owing at least the amount. It
-- raises the owner's net worth by the amount for money lent out and lowers it by the amount for money
-- borrowed, if a transaction is asked for and an account is named; else it changes no net worth. No
-- other user's net worth changes.
pub record_repayment-Moves :
    (db : Db) (lending user : ℕ) (req : RecordRepaymentRequest) (now entry tx category : ℕ)
    {db' : Db}
    → record_repayment db lending user req now entry tx category ≡ ok db'
    → (l : Lending) × (find_row (live_lending lending user) db.lendings ≡ some l)
      × (l.is_settled ≡ false)
      × (leb_ℤ (cents req.amount) l.current_balance ≡ true)
      × Moves user
          (elim (present req.account_id) [
            | none ↦ pos 0
            | some _ ↦
                if req.create_transaction then repayment_cash l.type (cents req.amount) else pos 0
          ])
          db
          db'
record_repayment-Moves db lending user req now entry tx category {db' = db'} h =
    let (l, date, found, r) =
      record_repayment-Recorded db lending user req now entry tx category h in
    let e = r.repaid in
    let (moved, _) =
      pay_if-Moves req.create_transaction r.account r.mid user lending (repaid_type l.type)
        (exact (cents req.amount)) (repaid_flow l.type (exact (cents req.amount))) date tx category
        r.pays in
    (
      l,
      found,
      e.unsettled,
      e.covered,
      between user db r.mid r.paid db' _ _ (ap (λ (d : Db). d.accounts) e.wrote)
          (ap (λ (d : Db). d.accounts) r.entered)
          (named_account-cash r.mid (present req.account_id) user r.account req.create_transaction _
              r.named
            ∙ ap
                (λ (c : ℤ). elim (present req.account_id) [
                  | none ↦ pos 0
                  | some _ ↦ if req.create_transaction then c else pos 0
                ])
                (flow-cents l.type req.amount))
          moved,
    )
