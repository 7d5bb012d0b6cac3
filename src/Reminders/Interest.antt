-- ===== src/Reminders/Interest.antt =====
-- What a payment on a debt account does to net worths.
use sky_personal_ledger.Base.{
  ℕ, ◌≡◌, sym, ap, ◌∙◌, true, false, Option, some, arith, ◌==◌, ℤ, pos, pos_part, neg_part, ◌+ℤ◌,
  neg_ℤ, leb_ℤ, int_laws, find_row, find_row_holds, ok,
}
use sky_personal_ledger.Money.{exact}
use sky_personal_ledger.Model.{Account, Reminder, is_debt_account, Db}
use sky_personal_ledger.Balance.{present, account_is, read_account}
use sky_personal_ledger.Balance.Mutation.{InRange, read_account_inv, scans-InRange}
use sky_personal_ledger.Balance.NetWorth.{net_worth, net_worth-same}
use sky_personal_ledger.Balance.Conservation.{Moves}
use sky_personal_ledger.Reminders.Defs.{live_reminder}
use sky_personal_ledger.Reminders.Payment.{pay_from, pay_down, record_payment}
use sky_personal_ledger.Reminders.Split.{payment_of, IsSplit}
use sky_personal_ledger.Reminders.NetWorth.{booked-Effects, down-Effects}
use sky_personal_ledger.Reminders.Steps.{parts_fit, record_payment-Steps}
use sky_personal_ledger.Reminders.Reads.{read_two}

at_id :
    (db : Db) (user s : ℕ) (x : Account)
    → read_account db s user ≡ ok x
    → (x.id ≡ s)
      × (find_row (account_is x.id user) db.accounts ≡ some x)
      × InRange x.current_balance
at_id db user s x h =
    let (found, scans) = read_account_inv db s user x h in
    let here = find_row_holds (account_is s user) db.accounts x found in
    let same : x.id ≡ s = ground arith in
    (
      same,
      ap (λ (k : ℕ). find_row (account_is k user) db.accounts) same ∙ found,
      scans-InRange x scans,
    )

interest_only : (w a p i : ℤ) → p +ℤ i ≡ a → w +ℤ neg_ℤ a +ℤ p ≡ w +ℤ neg_ℤ i
interest_only w a p i h = omega (int_laws, ap pos_part h, ap neg_part h)

-- A payment from one account on a debt account takes the interest, and no more, from its owner's net
-- worth, and nothing from any other user's. The debt account owes at least the principal; the amount is
-- positive and its parts add up to it.
pub record_payment-Interest :
    (db : Db) (id user : ℕ) (a p i : ℤ) (acct : Option ℕ) (s k : ℕ) (d : Account)
    (now tx category : ℕ) (r : Reminder) {db' : Db}
    → InRange a
    → leb_ℤ (pos 1) a ≡ true
    → IsSplit a p i
    → find_row (live_reminder id user) db.reminders ≡ some r
    → present acct ≡ some s
    → present r.account_id ≡ some k
    → find_row (account_is k user) db.accounts ≡ some d
    → is_debt_account d.type ≡ true
    → leb_ℤ p d.current_balance ≡ true
    → record_payment db id user (payment_of a p i acct) now tx category ≡ ok db'
    → Moves user (neg_ℤ i) db db'
unfolding IsSplit pay_from pay_down
record_payment-Interest db id user a p i acct s k d now tx category r {db' = db'} fa positive parts
      found source linked at debt covers h =
    let st =
      record_payment-Steps db id user a p i acct now tx category r fa positive parts found h in
    let (fp, _) = parts_fit a p i fa parts in
    let (total, np, _) = parts in
    let apart : (s == k) ≡ false = rw (source, linked) at st.apart in
    let reads = read_two st.paid user s k apart (rw (source, linked) at st.read) in
    let same : st.paid.accounts ≡ db.accounts = ap (λ (x : Db). x.accounts) st.written.rows in
    let (source_id, _, _) = at_id st.paid user s reads.source reads.read_source in
    let (debt_id, debt_at, debt_fits) = at_id st.paid user k reads.debt reads.read_debt in
    let here : reads.debt ≡ d = list_of (
      sym (read_account_inv st.paid k user reads.debt reads.read_debt).0
      ∙ ap (find_row (account_is k user)) same
      ∙ at) in
    let ((mine, others), _, keep) =
      booked-Effects st.paid user r a (exact p) (exact i) reads.source now tx category fa
        (rw (source, reads.at_source) at st.books) in
    let (link, down) = st.downs in
    let ((mine', others'), _) =
      down-Effects st.booked reads.debt user p link r.id now
        (keep reads.debt.id reads.debt (ground (arith, debt_id, source_id, apart)) debt_at)
        (ap (λ (x : Account). is_debt_account x.type) here ∙ debt) debt_fits fp np
        (ap (λ (x : Account). leb_ℤ p x.current_balance) here ∙ covers)
        (rw (linked, reads.at_debt) at down) in
    (
      mine'
          ∙ ap (λ (w : ℤ). w +ℤ p)
              (mine ∙ ap (λ (w : ℤ). w +ℤ neg_ℤ a) (net_worth-same user db st.paid same))
          ∙ interest_only (net_worth user db) a p i total,
      λ other ne. others' other ne ∙ others other ne ∙ net_worth-same other db st.paid same,
    )
  where
    list_of : {x y : Account} → some x ≡ some y → x ≡ y
    list_of h = cc
