-- ===== src/Lendings/RefundRow.antt =====
-- What taking a repayment back does to the row of its lending (`revertLendingTransactionTx`).
use sky_personal_ledger.Base.{
  ℕ, ◌≡◌, refl, sym, ap, ◌∙◌, Bool, true, false, not, ◌&&◌, Option, none, some, arith, ◌==◌,
  if◌then◌else◌, ℤ, pos, neg_part, ◌+ℤ◌, ◌-ℤ◌, leb_ℤ, -ℤ_parts, int_laws, ==ℤ_refl, find_row,
  count_rows, update_rows, Result, ok,
}
use sky_personal_ledger.Money.{exact, from_cents, value, add, sub, zero_amount, lt_amount, is_valid}
use sky_personal_ledger.Money.Exact.{
  add-eq-from_cents, sub-eq-from_cents, from_cents-in_range, cents-exact,
}
use sky_personal_ledger.Model.{Lending, Transaction, Db}
use sky_personal_ledger.Balance.{present}
use sky_personal_ledger.Balance.Mutation.{InRange}
use sky_personal_ledger.Transactions.{
  sub_floor, is_positive, clear_if, lending_is, lending_scans, lending_unchanged, is_repayment,
  refund_lending, overwrite, drop_records, revert_lending_transaction,
}
use sky_personal_ledger.Lendings.Defs.{still_lending, repay_row}
use sky_personal_ledger.Lendings.Amounts.{cents-from_cents}

value-exact : (c : ℤ) → InRange c → value (from_cents c) ≡ ok c
unfolding value
value-exact c h = ap value (from_cents-in_range c h) ∙ ap ok (cents-exact c h)

-- Adding back.
add_back :
    (b c : ℤ)
    → InRange (b -ℤ c)
    → InRange c
    → InRange b
    → value (add (from_cents (b -ℤ c)) (from_cents c)) ≡ ok b
add_back b c h1 h2 h3 =
    ap value (
      add-eq-from_cents (from_cents (b -ℤ c)) (from_cents c)
      ∙ rw (cents-from_cents (b -ℤ c) h1, cents-from_cents c h2) (ap from_cents (back b c)))
    ∙ value-exact b h3
  where
    back : (b c : ℤ) → (b -ℤ c) +ℤ c ≡ b
    back b c = omega int_laws

-- Taking back, with the floor at 0.
sub_back :
    (t c : ℤ)
    → InRange (t +ℤ c)
    → InRange c
    → InRange t
    → neg_part t ≡ 0
    → value (sub_floor (from_cents (t +ℤ c)) (from_cents c)) ≡ ok t
sub_back t c h1 h2 h3 nonneg =
    let e : sub (from_cents (t +ℤ c)) (from_cents c) ≡ exact t =
      sub-eq-from_cents (from_cents (t +ℤ c)) (from_cents c)
      ∙ rw (cents-from_cents (t +ℤ c) h1, cents-from_cents c h2) (ap from_cents (back t c))
      ∙ from_cents-in_range t h3 in
    let above : lt_amount (exact t) zero_amount ≡ false = ground (arith, nonneg) in
    rw (e, above) (ap value (sym (from_cents-in_range t h3)) ∙ value-exact t h3)
  where
    back : (t c : ℤ) → (t +ℤ c) -ℤ c ≡ t
    back t c = omega int_laws

same_row :
    (l : Lending) (at : Option ℕ) (settled : Bool)
    → at ≡ l.settled_at
    → settled ≡ l.is_settled
    → ◌≡◌ {A = Result Lending} (ok (record l { settled_at = at; is_settled = settled })) (ok l)
same_row l at settled e f = rw (e, f) refl

-- The row that a repayment wrote goes back to what it was.
pub refund_row :
    (l : Lending) (tx : Transaction) (settled : Bool) (at : Option ℕ)
    → is_repayment l.type tx.type ≡ true
    → leb_ℤ (pos 1) tx.amount ≡ true
    → leb_ℤ tx.amount l.current_balance ≡ true
    → InRange l.current_balance
    → InRange l.total_repaid
    → InRange (l.total_repaid +ℤ tx.amount)
    → neg_part l.total_repaid ≡ 0
    → l.is_settled ≡ false
    → l.settled_at ≡ none
    → (settled ≡ false → at ≡ l.settled_at)
    → refund_lending
        (repay_row settled at (l.current_balance -ℤ tx.amount) (l.total_repaid +ℤ tx.amount) l)
        tx
      ≡ ok l
unfolding refund_lending
refund_row l tx settled at rep positive covered bal tot sum nonneg open_ never stays =
    let small : InRange tx.amount = ground arith in
    let less : InRange (l.current_balance -ℤ tx.amount) =
      ground (arith, -ℤ_parts l.current_balance tx.amount) in
    let owed : is_positive (some l.current_balance) ≡ true =
      ground (arith, from_cents-in_range l.current_balance bal) in
    rw
      (
        rep,
        sub_back l.total_repaid tx.amount sum small tot nonneg,
        add_back l.current_balance tx.amount less small bal,
        owed,
      )
      (reopened l settled at open_ never stays)
  where
    reopened :
        (l : Lending) (settled : Bool) (at : Option ℕ)
        → l.is_settled ≡ false
        → l.settled_at ≡ none
        → (settled ≡ false → at ≡ l.settled_at)
        → ◌≡◌ {A = Result Lending}
            (ok (record l {
              settled_at = clear_if (settled && true) at;
              is_settled = if settled && true then false else settled;
            }))
            (ok l)
    reopened l true at open_ never stays = same_row l none false (sym never) (sym open_)
    reopened l false at open_ never stays = same_row l at false (stays refl) (sym open_)

pub reverted :
    (db : Db) (tx : Transaction) (id : ℕ) (l r : Lending)
    → present tx.lending_id ≡ some id
    → find_row (lending_is id tx.user_id) db.lendings ≡ some l
    → lending_scans l ≡ true
    → refund_lending l tx ≡ ok r
    → count_rows (lending_unchanged l tx.user_id) db.lendings ≡ 1
    → revert_lending_transaction db tx
      ≡ ok (record db {
        lendings = update_rows (lending_unchanged l tx.user_id) (overwrite r) db.lendings;
        lending_records = drop_records db l tx;
      })
unfolding revert_lending_transaction
reverted db tx id l r linked found scans refunded one =
    let counted : (count_rows (lending_unchanged l tx.user_id) db.lendings == 1) ≡ true =
      ground (arith, one) in
    rw (revert_lending_transaction, linked, found, scans, refunded, counted) refl

pub scans_after :
    (l : Lending) (settled : Bool) (at : Option ℕ) (b r : ℤ)
    → lending_scans l ≡ true
    → InRange b
    → InRange r
    → lending_scans (repay_row settled at b r l) ≡ true
unfolding is_valid
scans_after l settled at b r h hb hr =
    ground (arith, from_cents-in_range b hb, from_cents-in_range r hr)

pub and_left : (a b : Bool) → (a && b) ≡ true → a ≡ true
and_left a b h = ground arith

same_flag : (b : Bool) → (if b then b else not b) ≡ true
same_flag true = refl
same_flag false = refl

pub unchanged_self :
    (l : Lending) (user : ℕ) → lending_is l.id user l ≡ true → lending_unchanged l user l ≡ true
unchanged_self l user h =
    rw (h, ==ℤ_refl l.current_balance, ==ℤ_refl l.total_repaid, same_flag l.is_settled) refl

pub live_self :
    (l : Lending) (user : ℕ)
    → lending_is l.id user l ≡ true
    → l.deleted ≡ false
    → still_lending l user l ≡ true
live_self l user h alive = rw (unchanged_self l user h, alive) refl

pub less_fits : (b c : ℤ) → InRange b → leb_ℤ (pos 1) c ≡ true → leb_ℤ c b ≡ true → InRange (b -ℤ c)
less_fits b c h positive covered = ground (arith, -ℤ_parts b c)
