-- ===== src/Lendings/Creation.antt =====
-- What the creation of a lending does to the lendings and to the net worths.
use sky_personal_ledger.Base.{
  ℕ, ◌≡◌, sym, ap, ◌∙◌, subst, true, false, none, some, if◌then◌else◌, ℤ, pos, neg_ℤ, leb_ℤ, All,
  ok,
}
use sky_personal_ledger.Money.{Amount, cents, exact}
use sky_personal_ledger.Money.Exact.{cents-negate, cents-exact, cents_bound}
use sky_personal_ledger.Model.{LendingType, lend_out, borrow_in, Lending, Db}
use sky_personal_ledger.Balance.{present}
use sky_personal_ledger.Balance.Conservation.{Moves}
use sky_personal_ledger.Lendings.Soundness.{IsSound}
use sky_personal_ledger.Lendings.Recorded.{pay_if-Moves, named_account-cash}
use sky_personal_ledger.Base.{
  guard, or_error, >>=-eq-ok, invalid_amount, invalid_date, ◌==ℤ◌, neg_part, false, ◌∷◌, refl,
  arith,
}
use sky_personal_ledger.Money.{is_valid, round_money, value}
use sky_personal_ledger.Balance.Conservation.{add_zero}
use sky_personal_ledger.Lendings.Defs.{
  CreateLendingRequest, parse_due_date, create, is_payable, named_account, new_lending, lent_type,
  lent_flow,
}
use sky_personal_ledger.Lendings.Amounts.{value-from_cents, round-payable}
use sky_personal_ledger.Lendings.Effects.{between}

value-positive :
    (a : Amount) (c : ℤ)
    → is_payable a ≡ true
    → value (round_money a) ≡ ok c
    → (neg_part c ≡ 0) × ((c ==ℤ pos 0) ≡ false)
unfolding round_money
value-positive a c h v =
    let same : c ≡ cents a = value-from_cents (cents a) c v in
    (ground (arith, same), ground (arith, same))

value-same : (a : Amount) (c : ℤ) → value (round_money a) ≡ ok c → c ≡ cents a
unfolding round_money
value-same a c v = value-from_cents (cents a) c v

-- The cash that a lending of `c` brings its owner.
abbrev pub lent_cash : LendingType → ℤ → ℤ
lent_cash lend_out c = neg_ℤ c
lent_cash borrow_in c = c

lent_flow-cents :
    (type : LendingType) (a : Amount)
    → cents (lent_flow type (exact (cents a))) ≡ lent_cash type (cents a)
unfolding lent_flow
lent_flow-cents lend_out a =
    cents-negate (exact (cents a)) ∙ ap neg_ℤ (cents-exact (cents a) (cents_bound a))
lent_flow-cents borrow_in a = cents-exact (cents a) (cents_bound a)

-- A lending of the request that owes its whole principal, which is positive, and is not settled.
pub record IsOpen (id user : ℕ) (req : CreateLendingRequest) (l : Lending) : Type 0 where
  pub named : l.id ≡ id
  pub owned : l.user_id ≡ user
  pub typed : l.type ≡ req.type
  pub positive : leb_ℤ (pos 1) l.principal ≡ true
  pub lent : l.principal ≡ cents req.principal
  pub owes : l.current_balance ≡ l.principal
  pub unpaid : l.total_repaid ≡ pos 0
  pub unsettled : l.is_settled ≡ false
  pub live : l.deleted ≡ false

-- A lending that is created is put before the others: it is the request's, owes its whole principal,
-- which is positive, and is not settled. The books of every lending are sound as before. The owner's
-- net worth falls by the principal for money lent out and rises by it for money borrowed, if a
-- transaction is asked for and an account is named; else no net worth changes, and no other user's
-- does.
pub create-IsSound :
    (db : Db) (user : ℕ) (req : CreateLendingRequest) (id tx category : ℕ) {db' : Db}
    → create db user req id tx category ≡ ok db'
    → All IsSound db.lendings
    → (l : Lending) × (db'.lendings ≡ l ∷ db.lendings)
      × IsOpen id user req l
      × All IsSound db'.lendings
      × Moves user
          (elim (present req.account_id) [
            | none ↦ pos 0
            | some _ ↦
                if req.create_transaction then lent_cash req.type (cents req.principal) else pos 0
          ])
          db
          db'
unfolding create
create-IsSound db user req id tx category {db' = db'} h sound =
    let (_, g, h1) = >>=-eq-ok (guard (is_payable req.principal) invalid_amount) _ h in
    let (date, _, h2) = >>=-eq-ok (or_error req.lend_date invalid_date) _ h1 in
    let (due, _, h3) = >>=-eq-ok (parse_due_date req.due_date) _ h2 in
    let (account, named, h4) = >>=-eq-ok (named_account db (present req.account_id) user) _ h3 in
    let (c, v, h5) = >>=-eq-ok (value (round_money req.principal)) _ h4 in
    let l = new_lending id user req c due in
    let lent : Db = record db { lendings = l ∷ db.lendings } in
    let (moved, books) =
      pay_if-Moves req.create_transaction account lent user id (lent_type req.type)
        (round_money req.principal) (lent_flow req.type (round_money req.principal)) date tx
        category h5 in
    let payable : is_payable req.principal ≡ true = ground arith in
    let (nonneg, open_) = value-positive req.principal c payable v in
    let same = value-same req.principal c v in
    (
      l,
      books.0,
      record {
        named = refl;
        owned = refl;
        typed = refl;
        positive = ground (arith, nonneg, open_);
        lent = same;
        owes = refl;
        unpaid = refl;
        unsettled = refl;
        live = refl;
      },
      subst (All IsSound) (sym books.0) ((nonneg, add_zero c, sym open_), sound),
      between user db lent db' db' _ _ refl refl
          (named_account-cash db (present req.account_id) user account req.create_transaction _
              named
            ∙ ap
                (λ (x : ℤ). elim (present req.account_id) [
                  | none ↦ pos 0
                  | some _ ↦ if req.create_transaction then x else pos 0
                ])
                (ap (λ (a : Amount). cents (lent_flow req.type a))
                    (round-payable req.principal (is_valid_of req.principal payable))
                  ∙ lent_flow-cents req.type req.principal))
          moved,
    )
  where
    is_valid_of : (a : Amount) → is_payable a ≡ true → is_valid a ≡ true
    is_valid_of a h = ground (arith, h)
