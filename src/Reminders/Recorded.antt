-- ===== src/Reminders/Recorded.antt =====
-- What a recorded payment does to its reminder.
use sky_personal_ledger.Base.{
  ℕ, ◌≡◌, refl, sym, ap, ◌∙◌, inl, inr, true, Option, none, some, arith, ◌==◌, Bool-cases, ℤ, pos,
  leb_ℤ, ==ℤ_refl, find_row, count_rows, find_row-update_rows, find_row_holds, ok, guard, >>=-eq-ok,
}
use sky_personal_ledger.Base.{account_not_found}
use sky_personal_ledger.Money.{Amount, exact, from_cents, value, eq_amount, zero_amount}
use sky_personal_ledger.Model.{Account, Reminder, log_adjustment, Db}
use sky_personal_ledger.Balance.{account_is, log_account_balance_change}
use sky_personal_ledger.Balance.Mutation.{InRange, log-Frame}
use sky_personal_ledger.Balance.Conservation.{ok-injective}
use sky_personal_ledger.Transactions.{sub_floor}
use sky_personal_ledger.Reminders.Defs.{live_reminder}
use sky_personal_ledger.Reminders.Payment.{
  eq_option, unpaid, apply_debt_account_payment, pay_from, pay_down, record_payment,
}
use sky_personal_ledger.Reminders.Split.{payment_of, IsSplit}
use sky_personal_ledger.Reminders.Rows.{Covers, paid_reminder}
use sky_personal_ledger.Reminders.NetWorth.{booked-Effects}
use sky_personal_ledger.Reminders.Steps.{record_payment-Steps}

pay_down-reminders :
    (db : Db) (debt : Option Account) (user : ℕ) (p : Amount) (tx : Option ℕ) (reminder now : ℕ)
    {db' : Db}
    → pay_down db debt user p tx reminder now ≡ ok db'
    → db'.reminders ≡ db.reminders
unfolding pay_down apply_debt_account_payment
pay_down-reminders db none user p tx reminder now h =
    ap (λ (x : Db). x.reminders) (sym (ok-injective h))
pay_down-reminders db (some d) user p tx reminder now h =
    elim (Bool-cases (eq_amount p zero_amount)) [
      | inl z ↦ ap (λ (x : Db). x.reminders) (sym (ok-injective (rw z at h)))
      | inr z ↦
          let (logged, l, h1) =
            >>=-eq-ok (log_account_balance_change db user d.id log_adjustment p _ _ true) _
              (rw z at h) in
          let (b, _, h2) = >>=-eq-ok (value (sub_floor (from_cents d.current_balance) p)) _ h1 in
          let (_, _, h3) =
            >>=-eq-ok
              (guard (count_rows (account_is d.id user) logged.accounts == 1) account_not_found) _
              h2 in
          ap (λ (x : Db). x.reminders) (sym (ok-injective h3))
          ∙ ap (λ (x : Db). x.reminders) (log-Frame db user d.id log_adjustment p _ _ l).1
    ]

pay_from-reminders :
    (db : Db) (user : ℕ) (r : Reminder) (a : ℤ) (p i : Amount) (source : Option Account)
    (now tx category : ℕ) {db' : Db}
    → InRange a
    → pay_from db user r (exact a) p i source now tx category ≡ ok db'
    → db'.reminders ≡ db.reminders
unfolding pay_from
pay_from-reminders db user r a p i none now tx category fa h =
    ap (λ (x : Db). x.reminders) (sym (ok-injective h))
pay_from-reminders db user r a p i (some source) now tx category fa h =
    let (_, same, _) = booked-Effects db user r a p i source now tx category fa h in same

eq_option_refl : (o : Option ℤ) → eq_option o o ≡ true
eq_option_refl none = refl
eq_option_refl (some c) = ==ℤ_refl c

still_unpaid :
    (id user : ℕ) (r : Reminder) → live_reminder id user r ≡ true → unpaid r user r ≡ true
still_unpaid id user r h =
    let live : live_reminder r.id user r ≡ true = ground arith in
    rw (live, ==ℤ_refl r.total_paid, ==ℤ_refl r.interest_paid, eq_option_refl r.current_balance)
      refl

-- A payment that is recorded leaves its reminder with the amount added to what was paid in all and the
-- interest to the interest, and with the principal taken from what is owed, which covers it; a reminder
-- that comes to 0 is paid off at the time of the payment. A reminder that records no balance still has
-- none. The payment's amount is positive and its parts add up to it.
pub record_payment-Paid :
    (db : Db) (id user : ℕ) (a p i : ℤ) (acct : Option ℕ) (now tx category : ℕ) (r : Reminder)
    {db' : Db}
    → InRange a
    → leb_ℤ (pos 1) a ≡ true
    → IsSplit a p i
    → find_row (live_reminder id user) db.reminders ≡ some r
    → record_payment db id user (payment_of a p i acct) now tx category ≡ ok db'
    → Covers p r.current_balance
      × (find_row (live_reminder id user) db'.reminders ≡ some (paid_reminder a p i now r))
record_payment-Paid db id user a p i acct now tx category r fa positive parts found h =
    let s =
      record_payment-Steps db id user a p i acct now tx category r fa positive parts found h in
    let (_, down) = s.downs in
    let test =
      still_unpaid id user r (find_row_holds (live_reminder id user) db.reminders r found) in
    (
      s.written.covered,
      ap (find_row (live_reminder id user)) (
            pay_down-reminders s.booked _ user _ _ r.id now down
            ∙ pay_from-reminders s.paid user r a _ _ _ now tx category fa s.books
            ∙ ap (λ (x : Db). x.reminders) s.written.rows)
          ∙ find_row-update_rows (unpaid r user) _ (live_reminder id user) db.reminders (λ x. refl)
          ∙ rw (found, test) refl,
    )
