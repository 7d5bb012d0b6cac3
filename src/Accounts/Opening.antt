-- ===== src/Accounts/Opening.antt =====
-- What opening an account does to net worths.
use sky_personal_ledger.Base.{
  ℕ, suc, ◌≡◌, refl, sym, ap, ◌∙◌, ◌⊎◌, inl, inr, Bool, true, false, ◌&&◌, ◌∷◌, arith, ◌==◌,
  if◌then◌else◌, Bool-cases, ℤ, pos, negsuc, ◌+ℤ◌, neg_ℤ, leb_ℤ, ◌==ℤ◌, eq_of_parts, int_laws,
  eq_of_==ℤ, sum_rows, ok, >>=-eq-ok,
}
use sky_personal_ledger.Money.{
  Amount, nan, exact, cents, is_valid, value, lt_amount, eq_amount, zero_amount,
}
use sky_personal_ledger.Money.Exact.{cents-exact, cents_bound}
use sky_personal_ledger.Model.{AccountType, is_debt_account, system, Transaction, Db}
use sky_personal_ledger.Balance.Mutation.{InRange}
use sky_personal_ledger.Balance.NetWorth.{worth, net_worth}
use sky_personal_ledger.Balance.Conservation.{Moves, cash_flow, ok-injective}
use sky_personal_ledger.Categories.{
  initial_balance_name, find_or_create_category, find_or_create_category-frame,
}
use sky_personal_ledger.Accounts.Summary.{negate_below}
use sky_personal_ledger.Accounts.Defs.{
  CreateAccountRequest, check_date, new_account, initial_flow, initial_transaction,
  create_initial_balance_transaction, create_account,
}

value-exact : (c d : ℤ) → InRange c → value (exact c) ≡ ok d → d ≡ c
unfolding value
value-exact c d fits v = cc (v, cents-exact c fits)

-- The transaction of an initial balance of `c` brings what the account holds, and is positive.
initial_flow-cash :
    (debt : Bool) (c d : ℤ)
    → InRange c
    → (c ==ℤ pos 0) ≡ false
    → value (initial_flow debt (exact c)).1 ≡ ok d
    → (cash_flow (initial_flow debt (exact c)).0 d ≡ (if debt then neg_ℤ c else c))
      × (leb_ℤ (pos 1) d ≡ true)
unfolding initial_flow
initial_flow-cash true (pos n) d fits ne v =
    let test : lt_amount zero_amount (exact (pos n)) ≡ true = ground (arith, ne) in
    let e : d ≡ pos n = value-exact (pos n) d fits (rw test at v) in
    rw test (ap neg_ℤ e, ground (arith, e, ne))
initial_flow-cash false (pos n) d fits ne v =
    let test : lt_amount zero_amount (exact (pos n)) ≡ true = ground (arith, ne) in
    let e : d ≡ pos n = value-exact (pos n) d fits (rw test at v) in
    rw test (e, ground (arith, e, ne))
initial_flow-cash true (negsuc n) d fits ne v =
    let test : lt_amount zero_amount (exact (negsuc n)) ≡ false = ground arith in
    let e : d ≡ pos (suc n) =
      value-exact (pos (suc n)) d (omega (arith, fits))
        (rw (test, negate_below n (omega (arith, fits))) at v) in
    rw test (e ∙ eq_of_parts _ _ (omega int_laws), ground (arith, e))
initial_flow-cash false (negsuc n) d fits ne v =
    let test : lt_amount zero_amount (exact (negsuc n)) ≡ false = ground arith in
    let e : d ≡ pos (suc n) =
      value-exact (pos (suc n)) d (omega (arith, fits))
        (rw (test, negate_below n (omega (arith, fits))) at v) in
    rw test (ap neg_ℤ e ∙ eq_of_parts _ _ (omega int_laws), ground (arith, e))

-- A transaction that the system booked, of a positive amount, for the cash `c`.
pub record Books (c : ℤ) (db db' : Db) : Type 0 where
  pub tx : Transaction
  pub booked : db'.transactions ≡ tx ∷ db.transactions
  pub of_system : tx.source ≡ system
  pub positive : leb_ℤ (pos 1) tx.amount ≡ true
  pub brings : cash_flow tx.type tx.amount ≡ c

initial-Books :
    (db : Db) (user acct : ℕ) (type : AccountType) (c : ℤ) (now tx category : ℕ) {db' : Db}
    → InRange c
    → (c ==ℤ pos 0) ≡ false
    → create_initial_balance_transaction db user acct type (exact c) now tx category ≡ ok db'
    → Books (if is_debt_account type then neg_ℤ c else c) db db' × (db'.accounts ≡ db.accounts)
unfolding create_initial_balance_transaction
initial-Books db user acct type c now tx category fits ne h =
    let flow = initial_flow (is_debt_account type) (exact c) in
    let found = find_or_create_category db user flow.0 initial_balance_name category in
    let same = find_or_create_category-frame db user flow.0 initial_balance_name category in
    let (d, v, h1) = >>=-eq-ok (value flow.1) _ h in
    let (cash, positive) = initial_flow-cash (is_debt_account type) c d fits ne v in
    let e = ok-injective h1 in
    (
      record {
        tx = initial_transaction tx user acct found.0 flow.0 d now;
        booked =
            ap (λ (x : Db). x.transactions) (sym e)
            ∙ ap
                (λ (x : Db). initial_transaction tx user acct found.0 flow.0 d now ∷ x.transactions)
                same;
        of_system = refl;
        positive = positive;
        brings = cash;
      },
      ap (λ (x : Db). x.accounts) (sym e) ∙ ap (λ (x : Db). x.accounts) same,
    )

opened-Moves :
    (user id : ℕ) (type : AccountType) (c : ℤ) (db db' : Db)
    → db'.accounts ≡ new_account id user type c ∷ db.accounts
    → Moves user (if is_debt_account type then neg_ℤ c else c) db db'
unfolding net_worth sum_rows
opened-Moves user id type c db db' e =
    let mine : (user == user && true) ≡ true = ground arith in
    (
      ap (sum_rows (worth user)) e
          ∙ rw mine (
              turn (if is_debt_account type then neg_ℤ c else c)
                (sum_rows (worth user) db.accounts)),
      λ other ne. ap (sum_rows (worth other)) e ∙ not_mine other (ground (arith, ne)),
    )
  where
    turn : (a b : ℤ) → a +ℤ b ≡ b +ℤ a
    turn a b = eq_of_parts _ _ (omega int_laws)

    not_mine :
        (other : ℕ)
        → (user == other && true) ≡ false
        → sum_rows (worth other) (new_account id user type c ∷ db.accounts)
          ≡ sum_rows (worth other) db.accounts
    not_mine other h = rw h (eq_of_parts _ _ (omega int_laws))

valid-exact : (a : Amount) → is_valid a ≡ true → (a ≡ exact (cents a)) × InRange (cents a)
unfolding is_valid
valid-exact nan h = cc
valid-exact (exact c) h =
    let fits : InRange c = ground arith in
    (ap exact (sym (cents-exact c fits)), cents_bound (exact c))

-- The second half of a creation: the initial balance is booked, or there is none.
booked :
    (db : Db) (user id : ℕ) (type : AccountType) (initial : Amount) (c : ℤ) (now tx category : ℕ)
    {db' : Db}
    → initial ≡ exact c
    → InRange c
    → (if eq_amount initial zero_amount
        then ok db
        else create_initial_balance_transaction db user id type initial now tx category)
      ≡ ok db'
    → (((c ≡ pos 0) × (db'.transactions ≡ db.transactions))
        ⊎ Books (if is_debt_account type then neg_ℤ c else c) db db')
      × (db'.accounts ≡ db.accounts)
booked db user id type initial c now tx category e fits h = elim (Bool-cases (c ==ℤ pos 0)) [
  | inl z ↦
      let same = ok-injective (rw (e, z) at h) in
      (
        inl (eq_of_==ℤ c (pos 0) z, ap (λ (x : Db). x.transactions) (sym same)),
        ap (λ (x : Db). x.accounts) (sym same),
      )
  | inr z ↦
      let (books, same) = initial-Books db user id type c now tx category fits z (rw (e, z) at h) in
      (inr books, same)
]

-- An account that is opened adds to its owner's net worth what it holds, less what it owes, and changes
-- no other user's. If it does not open at 0, one transaction of the system is booked for that: of a
-- positive amount, and an income or an expense as the account adds to the net worth or takes from it.
-- The initial balance is a valid amount.
pub create_account-Moves :
    (db : Db) (user : ℕ) (req : CreateAccountRequest) (now id tx category : ℕ) {db' : Db}
    → is_valid req.initial_balance ≡ true
    → create_account db user req now id tx category ≡ ok db'
    → Moves user
        (if is_debt_account req.type
          then neg_ℤ (cents req.initial_balance)
          else cents req.initial_balance)
        db
        db'
      × (((cents req.initial_balance ≡ pos 0) × (db'.transactions ≡ db.transactions))
          ⊎ Books
              (if is_debt_account req.type
                then neg_ℤ (cents req.initial_balance)
                else cents req.initial_balance)
              db
              db')
unfolding create_account
create_account-Moves db user req now id tx category {db' = db'} valid h =
    let (_, _, h1) = >>=-eq-ok (check_date req.start_date) _ h in
    let (_, _, h2) = >>=-eq-ok (check_date req.target_date) _ h1 in
    let (c, v, h3) = >>=-eq-ok (value req.initial_balance) _ h2 in
    let (e, fits) = valid-exact req.initial_balance valid in
    let same : c ≡ cents req.initial_balance =
      value-exact (cents req.initial_balance) c fits (sym (ap value e) ∙ v) in
    let opened : Db = record db { accounts = new_account id user req.type c ∷ db.accounts } in
    let (books, accounts) =
      booked opened user id req.type req.initial_balance (cents req.initial_balance) now tx category
        e fits h3 in
    (
      opened-Moves user id req.type (cents req.initial_balance) db db'
          (accounts ∙ ap (λ (x : ℤ). new_account id user req.type x ∷ db.accounts) same),
      elim books [
        | inl n ↦ inl n
        | inr b ↦ inr (record {
          tx = b.tx;
          booked = b.booked;
          of_system = b.of_system;
          positive = b.positive;
          brings = b.brings;
        })
      ],
    )
