-- ===== src/Transactions/NetWorth.antt =====
-- What creating and updating a transaction does to net worths.
use sky_personal_ledger.Base.{
  ℕ, ◌≡◌, sym, ap, ◌∙◌, subst, true, not, List, [], ◌∷◌, arith, ◌==◌, ℤ, ◌+ℤ◌, int_laws, find_row,
  count_rows, update_rows, find_row_holds, Result, ok, ◌>>=◌, guard, or_error, >>=-eq-ok,
  or_error-eq-ok,
}
use sky_personal_ledger.Base.{
  transaction_not_found, managed_transaction_immutable, system_transaction_immutable, invalid_date,
}
use sky_personal_ledger.Money.{Amount, cents, nan, exact, from_cents, value}
use sky_personal_ledger.Money.Exact.{cents_bound, from_cents-in_range, cents-exact}
use sky_personal_ledger.Model.{Transaction, Source, Db, Tag}
use sky_personal_ledger.Balance.{
  present, amount_of, lock_balance_accounts, apply_balance_changes, revert_balance_changes,
}
use sky_personal_ledger.Balance.NetWorth.{net_worth, net_worth-same}
use sky_personal_ledger.Balance.Conservation.{Moves, cash_flow, apply_balance_changes-Moves}
use sky_personal_ledger.Balance.Frame.{undone_flow, revert_balance_changes-Moves}
use sky_personal_ledger.Tags.{transaction_tag_names, increment_used_counts, retag}
use sky_personal_ledger.Transactions.Defs.{
  CreateTransactionRequest, validate_transaction_request, validate_transaction_references,
  transaction_is, read_transaction, requested, create_with_tx, is_system_transaction,
  is_business_managed_transaction, rewrite_row, update,
}

value-cents : (a : Amount) (c : ℤ) → value a ≡ ok c → cents (from_cents c) ≡ cents a
unfolding value
value-cents nan c h = cc
value-cents (exact d) c h =
    let e : (cents (exact d)) ≡ c = cc in
    let fits = cents_bound (exact d) in
    rw (← e)
      (ap cents (from_cents-in_range (cents (exact d)) fits) ∙ cents-exact (cents (exact d)) fits)

pair_first :
    {x y : Transaction} {a b : Db}
    → ◌≡◌ {A = Result (Transaction × Db)} (ok (x, a)) (ok (y, b))
    → x ≡ y
pair_first h = cc

pair_second :
    {x y : Transaction} {a b : Db}
    → ◌≡◌ {A = Result (Transaction × Db)} (ok (x, a)) (ok (y, b))
    → a ≡ b
pair_second h = cc

-- Net worths are read off the accounts, so changes to other tables do not matter.
pub Moves-same_accounts :
    (user : ℕ) (db : Db) (c : ℤ) (mid db' : Db)
    → db'.accounts ≡ mid.accounts
    → Moves user c db mid
    → Moves user c db db'
Moves-same_accounts user db c mid db' e m =
    (net_worth-same user mid db' e ∙ m.0, λ other ne. net_worth-same other mid db' e ∙ m.1 other ne)

Moves-trans :
    (user : ℕ) (db mid db' : Db) (c d : ℤ)
    → Moves user c db mid
    → Moves user d mid db'
    → Moves user (c +ℤ d) db db'
Moves-trans user db mid db' c d m n = (
  n.0 ∙ ap (λ (w : ℤ). w +ℤ d) m.0 ∙ add_assoc (net_worth user db) c d,
  λ other ne. n.1 other ne ∙ m.1 other ne,
)
  where
    add_assoc : (w c d : ℤ) → w +ℤ c +ℤ d ≡ w +ℤ (c +ℤ d)
    add_assoc w c d = omega int_laws

pub read_transaction_owner :
    (db : Db) (id user : ℕ) (tx : Transaction)
    → read_transaction db id user ≡ ok tx
    → tx.user_id ≡ user
unfolding read_transaction
read_transaction_owner db id user tx h =
    let (t, e, h1) =
      >>=-eq-ok (or_error (find_row (transaction_is id user) db.transactions) transaction_not_found)
        _ h in
    let mine = find_row_holds (transaction_is id user) db.transactions t (or_error-eq-ok _ _ e) in
    ground arith

-- Applying a row that holds the amount of a request.
applied_request :
    (db moved : Db) (tx : Transaction) (amount : Amount)
    → value amount ≡ ok tx.amount
    → apply_balance_changes db tx true ≡ ok moved
    → Moves tx.user_id (cash_flow tx.type (cents amount)) db moved
applied_request db moved tx amount v h =
    subst (λ (c : ℤ). Moves tx.user_id (cash_flow tx.type c) db moved)
      (value-cents amount tx.amount v) (apply_balance_changes-Moves db tx h)

-- What a successful creation went through.
pub record Created (db : Db) (user : ℕ) (req : CreateTransactionRequest) (source : Source) (id : ℕ)
    (row : Transaction) (db' : Db) : Type 0 where
  pub date : ℕ
  pub c : ℤ
  pub moved : Db
  pub valid : validate_transaction_request req ≡ ok tt
  pub referenced : validate_transaction_references db user req ≡ ok tt
  pub valued : value req.amount ≡ ok c
  pub applied :
      apply_balance_changes
        (record db { transactions = requested id user req date c source ∷ db.transactions })
        (requested id user req date c source)
        true
      ≡ ok moved
  pub result : db' ≡ record moved {
    tags = increment_used_counts moved.tags user (transaction_tag_names req.tags);
  }
  pub was_read : read_transaction db' id user ≡ ok row

pub create_with_tx-Created :
    (db : Db) (user : ℕ) (req : CreateTransactionRequest) (source : Source) (id : ℕ)
    {row : Transaction} {db' : Db}
    → create_with_tx db user req source id ≡ ok (row, db')
    → Created db user req source id row db'
unfolding create_with_tx
create_with_tx-Created db user req source id {row = row} {db' = db'} h =
    let (_, valid, h1) = >>=-eq-ok (validate_transaction_request req) _ h in
    let (_, refs, h2) = >>=-eq-ok (validate_transaction_references db user req) _ h1 in
    let (date, _, h3) = >>=-eq-ok (or_error req.transaction_date invalid_date) _ h2 in
    let (c, v, h4) = >>=-eq-ok (value req.amount) _ h3 in
    let tx = requested id user req date c source in
    let (_, _, h5) = >>=-eq-ok (lock_balance_accounts db (tx ∷ [])) _ h4 in
    let (moved, e, h6) =
      >>=-eq-ok (apply_balance_changes (record db { transactions = tx ∷ db.transactions }) tx true)
        _ h5 in
    let counted : Db = record moved {
      tags = increment_used_counts moved.tags user (transaction_tag_names req.tags);
    } in
    let (r, rd, h7) = >>=-eq-ok (read_transaction counted id user) _ h6 in
    let result : counted ≡ db' = pair_second h7 in
    record {
      date = date;
      c = c;
      moved = moved;
      valid = valid;
      referenced = refs;
      valued = v;
      applied = e;
      result = sym result;
      was_read =
          subst (λ (d : Db). read_transaction d id user ≡ ok row) result
            (rd ∙ ap ok (pair_first h7));
    }

-- A transaction that is created changes its owner's net worth by its amount, as its type says, and
-- nobody else's.
pub create_with_tx-Moves :
    (db : Db) (user : ℕ) (req : CreateTransactionRequest) (source : Source) (id : ℕ)
    {row : Transaction} {db' : Db}
    → create_with_tx db user req source id ≡ ok (row, db')
    → Moves user (cash_flow req.type (cents req.amount)) db db'
unfolding net_worth
create_with_tx-Moves db user req source id {db' = db'} h =
    let made = create_with_tx-Created db user req source id h in
    let tx = requested id user req made.date made.c source in
    Moves-same_accounts user db _ made.moved db' (ap (λ (d : Db). d.accounts) made.result) (
      applied_request (record db { transactions = tx ∷ db.transactions }) made.moved tx req.amount
        made.valued made.applied)

abbrev done : Transaction → Db → Result (Transaction × Db)
done row db = ok (row, db)

-- The last steps of an update: the new row is applied, the tags are counted, the row is read back.
finish :
    (mid : Db) (id user : ℕ) (next : Transaction) (amount : Amount) (count : Db → List Tag)
    {row : Transaction} {db' : Db}
    → value amount ≡ ok next.amount
    → (apply_balance_changes mid next true >>= λ moved.
        read_transaction (record moved { tags = count moved }) id user >>= λ r.
        done r (record moved { tags = count moved }))
      ≡ done row db'
    → Moves next.user_id (cash_flow next.type (cents amount)) mid db'
finish mid id user next amount count {db' = db'} v h =
    let (moved, forth, h1) = >>=-eq-ok (apply_balance_changes mid next true) _ h in
    let (_, _, h2) =
      >>=-eq-ok (read_transaction (record moved { tags = count moved }) id user) _ h1 in
    Moves-same_accounts next.user_id mid _ moved db'
      (ap (λ (d : Db). d.accounts) (sym (pair_second h2)))
      (applied_request mid moved next amount v forth)

-- An update that succeeds finds the owner's transaction, and changes the owner's net worth by what
-- reverting that transaction does to it and by the flow of the request, and no other user's.
pub update-Moves :
    (db : Db) (id user : ℕ) (req : CreateTransactionRequest) {row : Transaction} {db' : Db}
    → update db id user req ≡ ok (row, db')
    → (current : Transaction) × (read_transaction db id user ≡ ok current)
      × Moves user
          (undone_flow current.type (present current.to_account_id) (cents (amount_of current))
            +ℤ cash_flow req.type (cents req.amount))
          db
          db'
unfolding update net_worth
update-Moves db id user req {row = row} {db' = db'} h =
    let (_, _, h1) = >>=-eq-ok (validate_transaction_request req) _ h in
    let (date, _, h2) = >>=-eq-ok (or_error req.transaction_date invalid_date) _ h1 in
    let (current, was_read, h3) = >>=-eq-ok (read_transaction db id user) _ h2 in
    let (_, _, h4) =
      >>=-eq-ok (guard (not (is_system_transaction current)) system_transaction_immutable) _ h3 in
    let (_, _, h5) =
      >>=-eq-ok
        (guard (not (is_business_managed_transaction current)) managed_transaction_immutable) _
        h4 in
    let (_, _, h6) = >>=-eq-ok (validate_transaction_references db user req) _ h5 in
    let (c, v, h7) = >>=-eq-ok (value req.amount) _ h6 in
    let next = requested current.id user req date c current.source in
    let (_, _, h8) = >>=-eq-ok (lock_balance_accounts db (current ∷ next ∷ [])) _ h7 in
    let (reverted, back, h9) = >>=-eq-ok (revert_balance_changes db current true) _ h8 in
    let (_, _, h10) =
      >>=-eq-ok
        (guard (count_rows (transaction_is id user) reverted.transactions == 1)
          transaction_not_found)
        _ h9 in
    let rewritten : Db = record reverted {
      transactions =
          update_rows (transaction_is id user) (rewrite_row req date c) reverted.transactions;
    } in
    let applied : Moves user (cash_flow req.type (cents req.amount)) reverted db' =
      finish rewritten id user next req.amount (λ (d : Db). retag d.tags user current.tags req.tags)
        v h10 in
    let (undone, _) = revert_balance_changes-Moves db current back in
    let owner : current.user_id ≡ user = read_transaction_owner db id user current was_read in
    (
      current,
      was_read,
      Moves-trans user db reverted db' _ _
          (subst
            (λ (u : ℕ).
              Moves u
                (undone_flow current.type (present current.to_account_id)
                  (cents (amount_of current)))
                db reverted)
            owner undone)
          applied,
    )
