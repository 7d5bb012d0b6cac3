-- ===== src/Reminders/Steps.antt =====
-- The steps that a recorded payment went through.
use sky_personal_ledger.Base.{
  ℕ, ◌≡◌, ap, true, false, not, Option, some, List, arith, ℤ, pos, pos_part, neg_part, leb_ℤ,
  +ℤ_parts, find_row, ok, guard, >>=-eq-ok,
}
use sky_personal_ledger.Base.{invalid_money, same_account}
use sky_personal_ledger.Money.{exact}
use sky_personal_ledger.Model.{Account, Reminder, Db}
use sky_personal_ledger.Balance.{present}
use sky_personal_ledger.Balance.Mutation.{InRange}
use sky_personal_ledger.Transactions.{reminder_scans}
use sky_personal_ledger.Reminders.Defs.{live_reminder}
use sky_personal_ledger.Reminders.Payment.{
  payment_accounts, read_accounts, account_at, pay_reminder, pay_from, pay_down, same_id,
  record_payment,
}
use sky_personal_ledger.Reminders.Split.{payment_of, IsSplit, normalize_payment_split-accepts}
use sky_personal_ledger.Reminders.Rows.{Written, pay_reminder-Written}

-- The steps of a payment that was recorded.
pub record Steps (db : Db) (id user : ℕ) (a p i : ℤ) (acct : Option ℕ) (now tx category : ℕ)
    (r : Reminder) (db' : Db) : Type 0 where
  pub scans : reminder_scans r ≡ true
  pub apart : same_id (present acct) (present r.account_id) ≡ false
  pub paid : Db
  pub written : Written db r user a p i now paid
  pub rows : List (ℕ × Account)
  pub read :
      read_accounts paid user (payment_accounts (present acct) (present r.account_id)) ≡ ok rows
  pub booked : Db
  pub books :
      pay_from paid user r
        (exact a)
        (exact p)
        (exact i)
        (account_at (present acct) rows)
        now
        tx
        category
      ≡ ok booked
  pub downs :
      (link : Option ℕ) × (pay_down booked
          (account_at (present r.account_id) rows)
          user
          (exact p)
          link
          r.id
          now
        ≡ ok db')

pub parts_fit : (a p i : ℤ) → InRange a → IsSplit a p i → InRange p × InRange i
unfolding IsSplit
parts_fit a p i fa (e, np, ni) = (
  ground (arith, +ℤ_parts p i, ap pos_part e, ap neg_part e, np, ni, fa),
  ground (arith, +ℤ_parts p i, ap pos_part e, ap neg_part e, np, ni, fa),
)

pub record_payment-Steps :
    (db : Db) (id user : ℕ) (a p i : ℤ) (acct : Option ℕ) (now tx category : ℕ) (r : Reminder)
    {db' : Db}
    → InRange a
    → leb_ℤ (pos 1) a ≡ true
    → IsSplit a p i
    → find_row (live_reminder id user) db.reminders ≡ some r
    → record_payment db id user (payment_of a p i acct) now tx category ≡ ok db'
    → Steps db id user a p i acct now tx category r db'
unfolding record_payment IsSplit
record_payment-Steps db id user a p i acct now tx category r fa positive parts found h =
    let (fp, fi) = parts_fit a p i fa parts in
    let accepts = normalize_payment_split-accepts a p i acct fa fp fi positive parts in
    let (_, scans, h1) =
      >>=-eq-ok (guard (reminder_scans r) invalid_money) _ (rw (accepts, found) at h) in
    let (_, apart, h2) =
      >>=-eq-ok (guard (not (same_id (present acct) (present r.account_id))) same_account) _ h1 in
    let (paid, e, h3) = >>=-eq-ok (pay_reminder db r user (exact a) (exact p) (exact i) now) _ h2 in
    let (rows, read, h4) =
      >>=-eq-ok (read_accounts paid user (payment_accounts (present acct) (present r.account_id))) _
        h3 in
    let (booked, books, h5) =
      >>=-eq-ok
        (pay_from paid user r (exact a) (exact p) (exact i) (account_at (present acct) rows) now tx
          category)
        _ h4 in
    let s : reminder_scans r ≡ true = ground arith in
    record {
      scans = s;
      apart = ground arith;
      paid = paid;
      written = pay_reminder-Written db user a p i now fa fp fi (nonneg parts) r s e;
      rows = rows;
      read = read;
      booked = booked;
      books = books;
      downs = (_, h5);
    }
  where
    nonneg : IsSplit a p i → leb_ℤ (pos 0) p ≡ true
    nonneg (_, n, _) = n
