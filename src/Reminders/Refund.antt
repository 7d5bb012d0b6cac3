-- ===== src/Reminders/Refund.antt =====
-- A payment and its rollback (`revertReminderPaymentTx` of service/transaction_rollback.go), on the
-- reminder's row.
use sky_personal_ledger.Base.{
  ℕ, ◌≡◌, refl, sym, ap, ◌∙◌, subst, true, false, ◌&&◌, Option, none, some, arith, ℤ, pos, pos_part,
  neg_part, ◌+ℤ◌, ◌-ℤ◌, ltb_ℤ, leb_ℤ, ◌==ℤ◌, +ℤ_parts, -ℤ_parts, eq_of_parts, int_laws, Result, ok,
  ◌>>=◌,
}
use sky_personal_ledger.Money.{Amount, exact, from_cents, add, value}
use sky_personal_ledger.Money.Exact.{add-eq-from_cents, cents-exact, from_cents-in_range}
use sky_personal_ledger.Model.{Reminder, Transaction}
use sky_personal_ledger.Balance.{amount_of}
use sky_personal_ledger.Balance.Mutation.{InRange}
use sky_personal_ledger.Lendings.Amounts.{is_valid-InRange, cents-from_cents}
use sky_personal_ledger.Transactions.{
  sub_floor, reminder_scans, option_scans, value_option, is_positive, clear_if, rolled_principal,
  rolled_interest, refund_reminder,
}
use sky_personal_ledger.Reminders.Split.{IsSplit}
use sky_personal_ledger.Reminders.Rows.{
  Covers, covers, owed_after, off_at, paid_reminder, floor_lem,
}
use sky_personal_ledger.Reminders.Steps.{parts_fit}

value_exact : (c : ℤ) → InRange c → value (exact c) ≡ ok c
unfolding value
value_exact c h = ap ok (cents-exact c h)

value_back :
    (t a : ℤ)
    → InRange a
    → InRange (t +ℤ a)
    → leb_ℤ (pos 0) t ≡ true
    → leb_ℤ (pos 0) a ≡ true
    → value (sub_floor (from_cents (t +ℤ a)) (exact a)) ≡ ok t
value_back t a fa ft nt na =
    let (e, fits) = floor_lem (t +ℤ a) a ft fa na (ground (arith, +ℤ_parts t a)) in
    rw e (value_exact _ fits) ∙ ap ok (taken t a)
  where
    taken : (t a : ℤ) → t +ℤ a -ℤ a ≡ t
    taken t a = eq_of_parts _ _ (omega int_laws)

-- The transaction of a payment of `a`, with the principal `p` and the interest `i`.
abbrev pub Pays : Transaction → ℤ → ℤ → ℤ → Type 0
Pays tx a p i = (tx.amount ≡ a) × (tx.principal_amount ≡ p) × (tx.interest_amount ≡ i)

principal_back :
    (tx : Transaction) (a p i : ℤ)
    → Pays tx a p i
    → InRange p
    → leb_ℤ (pos 1) p ≡ true
    → rolled_principal tx ≡ exact p
unfolding rolled_principal
principal_back tx a p i (_, e, _) fp positive =
    let r : from_cents p ≡ exact p = from_cents-in_range p fp in
    let ne : (p ==ℤ pos 0) ≡ false = ground (arith, positive) in rw (e, r, ne) refl

interest_back :
    (tx : Transaction) (a p i : ℤ)
    → Pays tx a p i
    → InRange a
    → IsSplit a p i
    → leb_ℤ (pos 1) p ≡ true
    → rolled_interest tx ≡ exact i
unfolding rolled_interest IsSplit
interest_back tx a p i (ea, ep, ei) fa (total, np, ni) positive =
    let (fp, fi) = parts_fit a p i fa (total, np, ni) in
    let ra : from_cents a ≡ exact a = from_cents-in_range a fa in
    let ri : from_cents i ≡ exact i = from_cents-in_range i fi in
    let given : ((i ==ℤ pos 0) && ltb_ℤ p a) ≡ false =
      ground (arith, total, ap pos_part total, ap neg_part total, +ℤ_parts p i) in
    rw (principal_back tx a p i (ea, ep, ei) fp positive, ea, ei, ra, ri, given) refl

-- The balance and the date of a payment of the principal `p`, after `q` is given back.
abbrev given_back : Amount → Option ℤ → Option Amount
given_back q owed = elim owed [ none ↦ none | some c ↦ some (add (from_cents c) q) ]

abbrev Restores : ℕ → ℤ → ℤ → Option ℤ → Option ℤ → Type 0
Restores now p q owed after =
    (value_option (given_back (exact q) (owed_after p owed)) ≡ ok after)
    × (clear_if (is_positive after) (off_at now p owed none) ≡ none)

sum_back :
    (c q : ℤ)
    → InRange c
    → InRange q
    → InRange (c +ℤ q)
    → value (add (from_cents c) (exact q)) ≡ ok (c +ℤ q)
sum_back c q fc fq fs =
    ap value (
      add-eq-from_cents (from_cents c) (exact q)
      ∙ rw (cents-from_cents c fc, cents-exact q fq) (from_cents-in_range (c +ℤ q) fs))
    ∙ value_exact (c +ℤ q) fs

owing : (s : ℤ) → InRange s → leb_ℤ (pos 1) s ≡ true → is_positive (some s) ≡ true
owing s fs h = let e : from_cents s ≡ exact s = from_cents-in_range s fs in rw e (ground (arith, h))

restores :
    (now : ℕ) (p : ℤ) (o : Option ℤ)
    → option_scans o ≡ true
    → Covers p o
    → leb_ℤ (pos 1) p ≡ true
    → Restores now p p o o
restores now p none scans c positive = (refl, refl)
restores now p (some b) scans (covers _ less) positive =
    let fb : InRange b = is_valid-InRange b scans in
    let fp : InRange p = ground arith in
    let fd : InRange (b -ℤ p) = ground (arith, -ℤ_parts b p) in
    let back : b -ℤ p +ℤ p ≡ b = whole_again b p in
    let e = sum_back (b -ℤ p) p fd fp (subst InRange (sym back) fb) in
    (rw (e, back) refl, rw (owing b fb (ground arith)) refl)
  where
    whole_again : (b p : ℤ) → b -ℤ p +ℤ p ≡ b
    whole_again b p = eq_of_parts _ _ (omega int_laws)

abbrev refunded : Reminder → Option ℕ → ℤ → ℤ → Option ℤ → Reminder
refunded r at paid interest balance = record r {
  current_balance = balance;
  total_paid = paid;
  interest_paid = interest;
  paid_off_at = clear_if (is_positive balance) at;
}

in_turn :
    (r : Reminder) (at : Option ℕ) (paid interest : Result ℤ) (balance : Result (Option ℤ))
    (t s : ℤ) (after : Option ℤ)
    → paid ≡ ok t
    → interest ≡ ok s
    → balance ≡ ok after
    → clear_if (is_positive after) at ≡ none
    → (do t' ← paid; s' ← interest; b' ← balance; ok (refunded r at t' s' b'))
      ≡ ok (record r {
        current_balance = after;
        total_paid = t;
        interest_paid = s;
        paid_off_at = none;
      })
in_turn r at paid interest balance t s after e f g h = rw (e, f, g, h) refl

refund_lem :
    (r : Reminder) (tx : Transaction) (a p i q : ℤ) (now : ℕ) (after : Option ℤ)
    → reminder_scans r ≡ true
    → InRange a
    → InRange i
    → InRange (r.total_paid +ℤ a)
    → InRange (r.interest_paid +ℤ i)
    → leb_ℤ (pos 0) r.total_paid ≡ true
    → leb_ℤ (pos 0) r.interest_paid ≡ true
    → leb_ℤ (pos 0) a ≡ true
    → leb_ℤ (pos 0) i ≡ true
    → r.paid_off_at ≡ none
    → amount_of tx ≡ exact a
    → rolled_principal tx ≡ exact q
    → rolled_interest tx ≡ exact i
    → Restores now p q r.current_balance after
    → refund_reminder (paid_reminder a p i now r) tx
      ≡ ok (record r { current_balance = after; paid_off_at = none })
unfolding refund_reminder
refund_lem r tx a p i q now after scans fa fi ft fs nt ns na ni open_ ea eq ei (balance, cleared) =
    in_turn r _ _ _ _ _ _ _
      (ap (λ x. value (sub_floor (from_cents (r.total_paid +ℤ a)) x)) ea
        ∙ value_back r.total_paid a fa ft nt na)
      (ap (λ x. value (sub_floor (from_cents (r.interest_paid +ℤ i)) x)) ei
        ∙ value_back r.interest_paid i fi fs ns ni)
      (ap (λ x. value_option (given_back x (owed_after p r.current_balance))) eq ∙ balance)
      (ap (λ x. clear_if (is_positive after) (off_at now p r.current_balance x)) open_ ∙ cleared)

-- What the rollback of a payment needs of the reminder: it scans, was not paid off, has paid nothing
-- negative, and its sums with the payment's stay in range.
pub record Payable (r : Reminder) (a i : ℤ) : Type 0 where
  pub scans : reminder_scans r ≡ true
  pub owing_still : r.paid_off_at ≡ none
  pub paid : leb_ℤ (pos 0) r.total_paid ≡ true
  pub interest : leb_ℤ (pos 0) r.interest_paid ≡ true
  pub paid_fits : InRange (r.total_paid +ℤ a)
  pub interest_fits : InRange (r.interest_paid +ℤ i)

-- A payment with a principal that is taken back leaves the reminder as it was before, also when it had
-- paid the reminder off. The reminder was not paid off before, and its principal was covered.
pub refund_reminder-paid :
    (r : Reminder) (tx : Transaction) (a p i : ℤ) (now : ℕ)
    → Payable r a i
    → InRange a
    → IsSplit a p i
    → leb_ℤ (pos 1) p ≡ true
    → Covers p r.current_balance
    → Pays tx a p i
    → refund_reminder (paid_reminder a p i now r) tx ≡ ok r
unfolding IsSplit
refund_reminder-paid r tx a p i now payable fa (total, np, ni) positive covered pays =
    let (fp, fi) = parts_fit a p i fa (total, np, ni) in
    let na : leb_ℤ (pos 0) a ≡ true =
      ground (arith, total, ap pos_part total, ap neg_part total, +ℤ_parts p i) in
    refund_lem r tx a p i p now r.current_balance payable.scans fa fi payable.paid_fits
      payable.interest_fits payable.paid payable.interest na ni payable.owing_still
      (ap from_cents pays.0 ∙ from_cents-in_range a fa) (principal_back tx a p i pays fp positive)
      (interest_back tx a p i pays fa (total, np, ni) positive)
      (restores now p r.current_balance (ground (arith, payable.scans)) covered positive)
    ∙ ap (λ (at : Option ℕ). ok (record r { paid_off_at = at })) (sym payable.owing_still)

grows :
    (now : ℕ) (a b : ℤ)
    → InRange b
    → InRange a
    → InRange (b +ℤ a)
    → leb_ℤ (pos 1) (b +ℤ a) ≡ true
    → Restores now (pos 0) a (some b) (some (b +ℤ a))
grows now a b fb fa fits positive =
    let same : b -ℤ pos 0 ≡ b = eq_of_parts _ _ (omega int_laws) in
    (rw (same, sum_back b a fb fa fits) refl, rw (owing (b +ℤ a) fits positive) refl)

-- A payment of interest only, by which nothing was paid of what is owed, adds its whole amount to what
-- is owed when it is taken back.
pub refund_reminder-interest :
    (r : Reminder) (tx : Transaction) (a b : ℤ) (now : ℕ)
    → Payable r a a
    → InRange a
    → leb_ℤ (pos 1) a ≡ true
    → r.current_balance ≡ some b
    → leb_ℤ (pos 1) b ≡ true
    → InRange (b +ℤ a)
    → Pays tx a (pos 0) a
    → refund_reminder (paid_reminder a (pos 0) a now r) tx
      ≡ ok (record r { current_balance = some (b +ℤ a) })
unfolding rolled_principal rolled_interest
refund_reminder-interest r tx a b now payable fa positive owed some_owed fits (ea, ep, ei) =
    let ra : from_cents a ≡ exact a = from_cents-in_range a fa in
    let r0 : from_cents (pos 0) ≡ exact (pos 0) = from_cents-in_range (pos 0) (omega arith) in
    let ne : (a ==ℤ pos 0) ≡ false = ground (arith, positive) in
    let na : leb_ℤ (pos 0) a ≡ true = ground (arith, positive) in
    let fb : InRange b = is_valid-InRange b (ground (arith, rw owed at payable.scans)) in
    refund_lem r tx a (pos 0) a a now (some (b +ℤ a)) payable.scans fa fa payable.paid_fits
      payable.interest_fits payable.paid payable.interest na na payable.owing_still
      (ap from_cents ea ∙ ra) (rw (ep, r0) (ap from_cents ea ∙ ra)) (rw (ei, ra, ne) refl)
      (rw owed (grows now a b fb fa fits (ground (arith, positive, some_owed, +ℤ_parts b a))))
    ∙ ap (λ (at : Option ℕ). ok (record r { current_balance = some (b +ℤ a); paid_off_at = at }))
        (sym payable.owing_still)
