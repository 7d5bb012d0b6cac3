-- ===== src/Accounts/Closing.antt =====
-- Which accounts are deleted, and what that does to net worths.
use sky_personal_ledger.Base.{
  update_away, count_rows-zero, find_row_unique, ℕ, ◌≡◌, refl, sym, ap, ◌∙◌, inl, inr, Bool, true,
  false, ◌&&◌, ◌||◌, none, some, arith, ◌==◌, ==_iff, Bool-cases, ℤ, pos, ◌+ℤ◌, ◌==ℤ◌, eq_of_parts,
  int_laws, find_row, count_rows, update_rows, sum_rows, sum_rows-update_rows, find_row_holds,
  find_row-some, ok, err, ◌>>◌, guard, or_error, >>=-eq-ok,
}
use sky_personal_ledger.Base.{invalid_money, account_not_found, account_has_balance}
use sky_personal_ledger.Money.{from_cents, is_valid}
use sky_personal_ledger.Model.{Account, Db}
use sky_personal_ledger.Balance.{account_is}
use sky_personal_ledger.Balance.NetWorth.{worth, net_worth}
use sky_personal_ledger.Balance.Conservation.{ok-injective}
use sky_personal_ledger.Accounts.Defs.{deletable, drop_account, delete_account}

narrow : (id user : ℕ) (a : Account) → deletable id user a ≡ true → account_is id user a ≡ true
narrow id user a h = ground arith

-- An account that is neither archived nor empty is not deleted, and the error says that it holds a
-- balance. The account is the only one with its id and its balance is an exact amount.
pub delete_account-refuses :
    (db : Db) (id user : ℕ) (a : Account)
    → find_row (account_is id user) db.accounts ≡ some a
    → count_rows (account_is id user) db.accounts ≡ 1
    → a.is_archived ≡ false
    → (a.current_balance ==ℤ pos 0) ≡ false
    → is_valid (from_cents a.current_balance) ≡ true
    → delete_account db id user ≡ err account_has_balance
unfolding delete_account
delete_account-refuses db id user a found one open_ holds scans =
    let kept : deletable id user a ≡ false =
      stays (account_is id user a) a.is_archived (a.current_balance ==ℤ pos 0) open_ holds in
    let none_deleted =
      count_rows-zero (account_is id user) (deletable id user) db.accounts a (narrow id user) one
        found kept in
    let test : (count_rows (deletable id user) db.accounts == 1) ≡ false =
      ground (arith, none_deleted) in
    rw (test, found, scans, open_, holds) refl
  where
    stays :
        (is_it archived empty : Bool)
        → archived ≡ false
        → empty ≡ false
        → (is_it && (archived || empty)) ≡ false
    stays is_it archived empty e f = ground arith

dropped : (id user : ℕ) (a : Account) → account_is id user (drop_account a) ≡ false
dropped id user a = ground arith

never : (b : Bool) {db : Db} → (do guard b account_has_balance; err account_not_found) ≡ ok db → ⊥
never true h = cc
never false h = cc

lost : (user : ℕ) (a : Account) (s : ℤ) → s +ℤ worth user (drop_account a) ≡ s
lost user a s = elim (Bool-cases (a.user_id == user)) [
  | inl t ↦ rw t (eq_of_parts _ _ (omega int_laws))
  | inr t ↦ rw t (eq_of_parts _ _ (omega int_laws))
]

allowed :
    (id user : ℕ) (a : Account)
    → deletable id user a ≡ true
    → (a.is_archived || a.current_balance ==ℤ pos 0) ≡ true
allowed id user a h = ground arith

-- An account that is deleted was archived or empty, and is not found again. It takes with it what it
-- adds to its owner's net worth, which is nothing if it is empty. The account is the only one with its
-- id.
pub delete_account-Allowed :
    (db : Db) (id user : ℕ) (a : Account) {db' : Db}
    → find_row (account_is id user) db.accounts ≡ some a
    → count_rows (account_is id user) db.accounts ≡ 1
    → delete_account db id user ≡ ok db'
    → ((a.is_archived || a.current_balance ==ℤ pos 0) ≡ true)
      × (find_row (account_is id user) db'.accounts ≡ none)
      × (net_worth user db' +ℤ worth user a ≡ net_worth user db)
unfolding delete_account net_worth
delete_account-Allowed db id user a {db' = db'} found one h =
    elim (Bool-cases (count_rows (deletable id user) db.accounts == 1)) [
      | inl e ↦
          let (r, at_r) = find_row-some (deletable id user) db.accounts ((==_iff _ _).0 e) in
          let same =
            find_row_unique (account_is id user) (deletable id user) db.accounts a r
              (narrow id user) one found at_r in
          let test : deletable id user a ≡ true =
            ap (deletable id user) (sym same)
            ∙ find_row_holds (deletable id user) db.accounts r at_r in
          let (only, here, gone) =
            update_away (account_is id user) (deletable id user) drop_account db.accounts a
              (narrow id user) one found test (dropped id user a) in
          let after : record db {
            accounts = update_rows (deletable id user) drop_account db.accounts;
          }
              ≡ db' =
            ok-injective (rw e at h) in
          let moved =
            sum_rows-update_rows (deletable id user) drop_account (worth user) a db.accounts only
              here in
          (
            allowed id user a test,
            ap (λ (x : Db). find_row (account_is id user) x.accounts) (sym after) ∙ gone,
            ap (λ (x : Db). sum_rows (worth user) x.accounts +ℤ worth user a) (sym after)
                ∙ moved
                ∙ lost user a _,
          )
      | inr e ↦
          let (_, _, h1) =
            >>=-eq-ok (or_error (find_row (account_is id user) db.accounts) account_not_found) _
              (rw e at h) in
          let (_, _, h2) = >>=-eq-ok (guard (is_valid (from_cents _)) invalid_money) _ h1 in
          absurd (never _ h2)
    ]
