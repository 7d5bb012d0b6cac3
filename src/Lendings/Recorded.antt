-- ===== src/Lendings/Recorded.antt =====
-- What a repayment that is recorded went through.
use sky_personal_ledger.Base.{
  ℕ, ◌≡◌, refl, sym, ap, ◌∙◌, subst, inl, inr, Bool, true, false, Option, none, some, ◌∷◌, arith,
  if◌then◌else◌, Option-cases, ℤ, pos, ◌+ℤ◌, leb_ℤ, find_row, ok, guard, or_error, >>=-eq-ok,
  or_error-eq-ok,
}
use sky_personal_ledger.Base.{invalid_money, lending_not_found, invalid_amount, invalid_date}
use sky_personal_ledger.Money.{Amount, cents, exact, value}
use sky_personal_ledger.Model.{Account, TxType, Lending, LendingRecord, Db}
use sky_personal_ledger.Balance.{present, read_account}
use sky_personal_ledger.Balance.NetWorth.{net_worth, net_worth-same}
use sky_personal_ledger.Balance.Conservation.{Moves, flow-Moves, ok-injective, add_zero}
use sky_personal_ledger.Transactions.{lending_scans}
use sky_personal_ledger.Lendings.Defs.{
  live_lending, repay_lending, named_account, pay_if, pay_lending, create_lending_transaction,
  find_or_create_lending_category, lending_category, is_payable, repaid_type, repaid_flow, repay,
  record_repayment, RecordRepaymentRequest, flow_log, repayment_entry,
}
use sky_personal_ledger.Lendings.Soundness.{Repaid, repay_lending-Repaid}
use sky_personal_ledger.Lendings.Amounts.{round-payable}

-- The rows of lendings and their records are the same.
abbrev pub SameBooks : Db → Db → Type 0
SameBooks db db' = (db'.lendings ≡ db.lendings) × (db'.lending_records ≡ db.lending_records)

find_or_create_lending_category-frame :
    (db : Db) (user : ℕ) (type : TxType) (category : ℕ)
    → (find_or_create_lending_category db user type category).1 ≡ record db {
      categories = (find_or_create_lending_category db user type category).1.categories;
    }
unfolding find_or_create_lending_category
find_or_create_lending_category-frame db user type category =
    elim (Option-cases (find_row (lending_category user type) db.categories)) [
      | inl e ↦ rw (find_or_create_lending_category, e) refl
      | inr (a, e) ↦ rw (find_or_create_lending_category, e) refl
    ]

create_lending_transaction-frame :
    (db : Db) (user lending acct : ℕ) (type : TxType) (amount : Amount) (date tx category : ℕ)
    {db' : Db}
    → create_lending_transaction db user lending acct type amount date tx category ≡ ok db'
    → (db'.accounts ≡ db.accounts) × SameBooks db db'
unfolding create_lending_transaction
create_lending_transaction-frame db user lending acct type amount date tx category h =
    let (c, _, h1) = >>=-eq-ok (value amount) _ h in
    let made = find_or_create_lending_category-frame db user type category in
    let e = ok-injective h1 in
    (
      ap (λ (d : Db). d.accounts) (sym e) ∙ ap (λ (d : Db). d.accounts) made,
      (
        ap (λ (d : Db). d.lendings) (sym e) ∙ ap (λ (d : Db). d.lendings) made,
        ap (λ (d : Db). d.lending_records) (sym e) ∙ ap (λ (d : Db). d.lending_records) made,
      ),
    )

-- A payment moves the owner's net worth by its flow and leaves the books of lendings alone.
pub pay_lending-Moves :
    (db : Db) (user lending acct : ℕ) (type : TxType) (amount flow : Amount) (date tx category : ℕ)
    {db' : Db}
    → pay_lending db user lending acct type amount flow date tx category ≡ ok db'
    → Moves user (cents flow) db db' × SameBooks db db'
unfolding pay_lending
pay_lending-Moves db user lending acct type amount flow date tx category h =
    let (booked, made, h1) =
      >>=-eq-ok (create_lending_transaction db user lending acct type amount date tx category) _
        h in
    let (accounts, books) =
      create_lending_transaction-frame db user lending acct type amount date tx category made in
    let (moved, frame) = flow-Moves booked user acct (flow_log type) amount flow _ h1 in
    let (mine, others) = moved in
    (
      (
        mine ∙ ap (λ (w : ℤ). w +ℤ cents flow) (net_worth-same user db booked accounts),
        λ other ne. others other ne ∙ net_worth-same other db booked accounts,
      ),
      (
        ap (λ (d : Db). d.lendings) frame ∙ books.0,
        ap (λ (d : Db). d.lending_records) frame ∙ books.1,
      ),
    )

pub record Recorded (db : Db) (id user : ℕ) (req : RecordRepaymentRequest) (c : ℤ)
    (date tx category : ℕ) (lending : Lending) (db' : Db) : Type 0 where
  pub mid : Db
  pub account : Option Account
  pub paid : Db
  pub payable : leb_ℤ (pos 1) c ≡ true
  pub repaid : Repaid db lending user c mid
  pub named : named_account mid (present req.account_id) user ≡ ok account
  pub pays :
      pay_if req.create_transaction account mid (λ acct.
        pay_lending mid user id acct
          (repaid_type lending.type)
          (exact c)
          (repaid_flow lending.type (exact c))
          date
          tx
          category)
      ≡ ok paid
  pub entry : LendingRecord
  pub entered : db' ≡ record paid { lending_records = entry ∷ paid.lending_records }

repay-Recorded :
    (db : Db) (l : Lending) (id user : ℕ) (req : RecordRepaymentRequest) (c : ℤ)
    (date now entry tx category : ℕ) {db' : Db}
    → lending_scans l ≡ true
    → leb_ℤ (pos 1) c ≡ true
    → repay db l id user req (exact c) date now entry tx category ≡ ok db'
    → Recorded db id user req c date tx category l db'
unfolding repay
repay-Recorded db l id user req c date now entry tx category scans positive h =
    let (mid, e, h1) = >>=-eq-ok (repay_lending db l user (exact c) now) _ h in
    let (account, named, h2) = >>=-eq-ok (named_account mid (present req.account_id) user) _ h1 in
    let (paid, pays, h3) = >>=-eq-ok (pay_if req.create_transaction account mid _) _ h2 in
    let (d, _, h4) = >>=-eq-ok (value (exact c)) _ h3 in
    record {
      mid = mid;
      account = account;
      paid = paid;
      payable = positive;
      repaid = repay_lending-Repaid db l user c now scans positive e;
      named = named;
      pays = pays;
      entry = repayment_entry entry id user d date req account tx;
      entered = sym (ok-injective h4);
    }

pub record_repayment-Recorded :
    (db : Db) (id user : ℕ) (req : RecordRepaymentRequest) (now entry tx category : ℕ) {db' : Db}
    → record_repayment db id user req now entry tx category ≡ ok db'
    → (lending : Lending) × (date : ℕ) × (find_row (live_lending id user) db.lendings
        ≡ some lending)
      × Recorded db id user req (cents req.amount) date tx category lending db'
unfolding record_repayment
record_repayment-Recorded db id user req now entry tx category {db' = db'} h =
    let (_, g, h1) = >>=-eq-ok (guard (is_payable req.amount) invalid_amount) _ h in
    let (date, _, h2) = >>=-eq-ok (or_error req.record_date invalid_date) _ h1 in
    let (l, f, h3) =
      >>=-eq-ok (or_error (find_row (live_lending id user) db.lendings) lending_not_found) _ h2 in
    let (_, scans, h4) = >>=-eq-ok (guard (lending_scans l) invalid_money) _ h3 in
    let round = round-payable req.amount (ground arith) in
    (
      l,
      date,
      or_error-eq-ok _ _ f,
      repay-Recorded db l id user req (cents req.amount) date now entry tx category (ground arith)
          (ground arith)
          (subst (λ (a : Amount). repay db l id user req a date now entry tx category ≡ ok db')
            round h4),
    )

-- The cash that a repayment brings: none, unless a transaction is asked for and an account is named.
abbrev pub repaid_cash : Bool → Option Account → ℤ → ℤ
repaid_cash asked none c = pos 0
repaid_cash asked (some account) c = if asked then c else pos 0

unmoved :
    (db : Db) (user : ℕ) {db' : Db} → ok db ≡ ok db' → Moves user (pos 0) db db' × SameBooks db db'
unmoved db user {db' = db'} h =
    subst (λ (d : Db). Moves user (pos 0) db d × SameBooks db d) (ok-injective h)
      ((add_zero (net_worth user db), λ other ne. refl), (refl, refl))

pub pay_if-Moves :
    (asked : Bool) (account : Option Account) (db : Db) (user lending : ℕ) (type : TxType)
    (amount flow : Amount) (date tx category : ℕ) {db' : Db}
    → pay_if asked account db
        (λ acct. pay_lending db user lending acct type amount flow date tx category)
      ≡ ok db'
    → Moves user (repaid_cash asked account (cents flow)) db db' × SameBooks db db'
unfolding pay_if
pay_if-Moves asked none db user lending type amount flow date tx category h = unmoved db user h
pay_if-Moves true (some account) db user lending type amount flow date tx category h =
    pay_lending-Moves db user lending account.id type amount flow date tx category h
pay_if-Moves false (some account) db user lending type amount flow date tx category h =
    unmoved db user h

account_of : {a b : Option Account} → ok a ≡ ok b → a ≡ b
account_of h = cc

-- An account that is named was found.
pub named_account-cash :
    (db : Db) (id : Option ℕ) (user : ℕ) (account : Option Account) (asked : Bool) (c : ℤ)
    → named_account db id user ≡ ok account
    → repaid_cash asked account c ≡ (elim id [ none ↦ pos 0 | some _ ↦ if asked then c else pos 0 ])
unfolding named_account
named_account-cash db none user account asked c h =
    subst (λ (a : Option Account). repaid_cash asked a c ≡ pos 0) (account_of h) refl
named_account-cash db (some id) user account asked c h =
    let (a, _, e) = >>=-eq-ok (read_account db id user) _ h in
    subst (λ (x : Option Account). repaid_cash asked x c ≡ (if asked then c else pos 0))
      (account_of e) refl
