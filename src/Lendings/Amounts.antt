-- ===== src/Lendings/Amounts.antt =====
-- The amounts of a repayment, before and after.
use sky_personal_ledger.Base.{
  ◌≢◌, ℕ, ◌≡◌, refl, sym, ap, ◌∙◌, Bool, true, false, not, ◌||◌, Option, some, arith, if◌then◌else◌,
  ℤ, pos, ◌+ℤ◌, ◌-ℤ◌, leb_ℤ, ◌==ℤ◌, -ℤ_parts, eq_of_==ℤ, update_rows, ok, guard,
}
use sky_personal_ledger.Base.{lending_overpayment}
use sky_personal_ledger.Money.{
  nan, Amount, from_cents, cents, exact, is_valid, add, sub, round_money, value, lt_amount,
  zero_amount,
}
use sky_personal_ledger.Money.Exact.{
  add-eq-from_cents, sub-eq-from_cents, cents_bound, from_cents-in_range, from_cents-out_of_range,
  cents-exact,
}
use sky_personal_ledger.Model.{Lending, Db}
use sky_personal_ledger.Balance.Mutation.{InRange}
use sky_personal_ledger.Lendings.Defs.{still_lending, repay_row}

pub value-from_cents : (c d : ℤ) → value (from_cents c) ≡ ok d → d ≡ c
unfolding value from_cents cents
value-from_cents c d h = ground arith

pub round-payable : (a : Amount) → is_valid a ≡ true → round_money a ≡ exact (cents a)
unfolding round_money
round-payable a h = from_cents-in_range (cents a) (cents_bound a)

pub is_valid-InRange : (c : ℤ) → is_valid (from_cents c) ≡ true → InRange c
unfolding is_valid from_cents
is_valid-InRange c h = ground arith

pub cents-from_cents : (c : ℤ) → InRange c → cents (from_cents c) ≡ c
cents-from_cents c h = ap cents (from_cents-in_range c h) ∙ cents-exact c h

round-InRange : (b : ℤ) → InRange b → round_money (from_cents b) ≡ exact b
unfolding round_money
round-InRange b h = rw (cents-from_cents b h) (from_cents-in_range b h)

pub covers :
    (b c : ℤ)
    → InRange b
    → guard (not (lt_amount (round_money (from_cents b)) (exact c))) lending_overpayment ≡ ok tt
    → leb_ℤ c b ≡ true
covers b c fits h =
    let e : round_money (from_cents b) ≡ exact b = round-InRange b fits in ground (arith, e)

pub rest-exact :
    (b c : ℤ)
    → InRange b
    → leb_ℤ (pos 1) c ≡ true
    → leb_ℤ c b ≡ true
    → sub (from_cents b) (exact c) ≡ exact (b -ℤ c)
rest-exact b c fits positive covered =
    let small : InRange c = ground arith in
    let less : InRange (b -ℤ c) = ground (arith, -ℤ_parts b c) in
    sub-eq-from_cents (from_cents b) (exact c)
    ∙ rw (cents-from_cents b fits, cents-exact c small) (from_cents-in_range (b -ℤ c) less)

pub written :
    (d x : ℤ)
    → InRange d
    → value (if cents (exact d) ==ℤ pos 0 then zero_amount else exact d) ≡ ok x
    → x ≡ d
unfolding value cents
written d x fits h = ground (arith, cents-exact d fits, eq_of_==ℤ d (pos 0))

pub repaid_sum :
    (t c r : ℤ) → InRange t → InRange c → value (add (from_cents t) (exact c)) ≡ ok r → r ≡ t +ℤ c
repaid_sum t c r ft fc h = value-from_cents (t +ℤ c) r (
    sym (
      ap value (
        add-eq-from_cents (from_cents t) (exact c)
        ∙ rw (cents-from_cents t ft, cents-exact c fc) refl))
    ∙ h)

pub or_false : (b : Bool) → (b || false) ≡ b
or_false b = ground arith

value_not_nan : (s r : ℤ) → value (from_cents s) ≡ ok r → from_cents s ≢ nan
unfolding value
value_not_nan s r h e = cc (rw e at h)

pub settled_later :
    (now_settled before : Bool) (now : ℕ) (at : Option ℕ)
    → (now_settled || before) ≡ false
    → (if now_settled then some now else at) ≡ at
settled_later true before now at h = cc
settled_later false before now at h = refl

pub sum_fits :
    (t c r : ℤ)
    → InRange t
    → InRange c
    → value (add (from_cents t) (exact c)) ≡ ok r
    → InRange (t +ℤ c)
sum_fits t c r ft fc h =
    let e : add (from_cents t) (exact c) ≡ from_cents (t +ℤ c) =
      add-eq-from_cents (from_cents t) (exact c)
      ∙ rw (cents-from_cents t ft, cents-exact c fc) refl in
    ground
      (arith, from_cents-out_of_range (t +ℤ c), value_not_nan (t +ℤ c) r (sym (ap value e) ∙ h))

pub rows_written :
    (db : Db) (l : Lending) (user : ℕ) (settled : Bool) (at : Option ℕ) (b r b' r' : ℤ)
    → b ≡ b'
    → r ≡ r'
    → ◌≡◌ {A = Db}
        (record db {
          lendings = update_rows (still_lending l user) (repay_row settled at b r) db.lendings;
        })
        (record db {
          lendings = update_rows (still_lending l user) (repay_row settled at b' r') db.lendings;
        })
rows_written db l user settled at b r b' r' e f = rw (e, f) refl
