-- ===== src/Lendings/Soundness.antt =====
-- The books of a lending: what was lent is what is owed and what was repaid.
use sky_personal_ledger.Base.{
  ℕ, ◌≡◌, sym, ap, ◌∙◌, inl, inr, Bool, true, false, not, ◌||◌, Option, some, List, [], ◌∷◌, arith,
  ◌==◌, if◌then◌else◌, Bool-cases, ℤ, pos, neg_part, ◌+ℤ◌, ◌-ℤ◌, leb_ℤ, ◌==ℤ◌, -ℤ_parts, int_laws,
  eq_of_==ℤ, All, count_rows, update_rows, ok, guard, >>=-eq-ok,
}
use sky_personal_ledger.Base.{already_settled, concurrent_balance_update, lending_overpayment}
use sky_personal_ledger.Money.{
  from_cents, cents, exact, add, round_money, value, lt_amount, le_amount, zero_amount,
}
use sky_personal_ledger.Money.Exact.{cents-exact}
use sky_personal_ledger.Model.{Lending, Db}
use sky_personal_ledger.Balance.Mutation.{InRange}
use sky_personal_ledger.Balance.Conservation.{ok-injective}
use sky_personal_ledger.Transactions.{lending_scans}
use sky_personal_ledger.Lendings.Defs.{still_lending, repay_row, repay_lending}
use sky_personal_ledger.Lendings.Amounts.{
  is_valid-InRange, covers, rest-exact, written, repaid_sum, or_false, settled_later, sum_fits,
  rows_written,
}

-- What is owed is not negative and makes up the principal with what was repaid; the lending is settled
-- just when nothing is owed.
abbrev pub IsSound : Lending → Type 0
IsSound l =
    (neg_part l.current_balance ≡ 0)
    × (l.principal ≡ l.current_balance +ℤ l.total_repaid)
    × (l.is_settled ≡ (l.current_balance ==ℤ pos 0))

-- What a repayment of `amount` writes.
repaid_row :
    (l : Lending) (c : ℤ) (settled : Bool) (at : Option ℕ) (b r : ℤ) (x : Lending)
    → IsSound x
    → b ≡ x.current_balance -ℤ c
    → r ≡ x.total_repaid +ℤ c
    → neg_part b ≡ 0
    → settled ≡ (b ==ℤ pos 0)
    → IsSound (repay_row settled at b r x)
repaid_row l c settled at b r x s eb er nb es =
    (nb, s.1 ∙ rw (eb, er) (move x.current_balance x.total_repaid c), es)
  where
    move : (a t c : ℤ) → a +ℤ t ≡ (a -ℤ c) +ℤ (t +ℤ c)
    move a t c = omega int_laws

-- What a successful repayment of `c` did to the lendings.
pub record Repaid (db : Db) (l : Lending) (user : ℕ) (c : ℤ) (db' : Db) : Type 0 where
  pub settled : Bool
  pub at : Option ℕ
  pub unsettled : l.is_settled ≡ false
  pub covered : leb_ℤ c l.current_balance ≡ true
  pub scanned : lending_scans l ≡ true
  pub stays : settled ≡ false → at ≡ l.settled_at
  pub balance_fits : InRange l.current_balance
  pub total_fits : InRange l.total_repaid
  pub repaid_fits : InRange (l.total_repaid +ℤ c)
  pub settles : settled ≡ ((l.current_balance -ℤ c) ==ℤ pos 0)
  pub wrote : db' ≡ record db {
    lendings =
        update_rows
          (still_lending l user)
          (repay_row settled at (l.current_balance -ℤ c) (l.total_repaid +ℤ c))
          db.lendings;
  }

pub repay_lending-Repaid :
    (db : Db) (l : Lending) (user : ℕ) (c : ℤ) (now : ℕ) {db' : Db}
    → lending_scans l ≡ true
    → leb_ℤ (pos 1) c ≡ true
    → repay_lending db l user (exact c) now ≡ ok db'
    → Repaid db l user c db'
unfolding repay_lending
repay_lending-Repaid db l user c now {db' = db'} scans positive h =
    let (_, g, h1) =
      >>=-eq-ok
        (guard (not (l.is_settled || le_amount (from_cents l.current_balance) zero_amount))
          already_settled)
        _ h in
    let (_, g', h2) =
      >>=-eq-ok
        (guard (not (lt_amount (round_money (from_cents l.current_balance)) (exact c)))
          lending_overpayment)
        _ h1 in
    let fits = is_valid-InRange l.current_balance (ground arith) in
    let covered = covers l.current_balance c fits g' in
    let small : InRange c = ground arith in
    let less : InRange (l.current_balance -ℤ c) = ground (arith, -ℤ_parts l.current_balance c) in
    let rest = rest-exact l.current_balance c fits positive covered in
    let (b, eb, h3) =
      >>=-eq-ok
        (value (
          if cents (exact (l.current_balance -ℤ c)) ==ℤ pos 0
          then zero_amount
          else exact (l.current_balance -ℤ c)))
        _ (rw rest at h2) in
    let (r, er, h4) = >>=-eq-ok (value (add (from_cents l.total_repaid) (exact c))) _ h3 in
    let (_, _, h5) =
      >>=-eq-ok
        (guard (count_rows (still_lending l user) db.lendings == 1) concurrent_balance_update) _
        h4 in
    let eb' : b ≡ l.current_balance -ℤ c = written (l.current_balance -ℤ c) b less eb in
    let er' : r ≡ l.total_repaid +ℤ c =
      repaid_sum l.total_repaid c r (is_valid-InRange l.total_repaid (ground arith)) small er in
    let settled = (cents (exact (l.current_balance -ℤ c)) ==ℤ pos 0) || l.is_settled in
    let at = if cents (exact (l.current_balance -ℤ c)) ==ℤ pos 0 then some now else l.settled_at in
    let unsettled : l.is_settled ≡ false = ground arith in
    record {
      settled = settled;
      at = at;
      scanned = scans;
      stays =
          settled_later (cents (exact (l.current_balance -ℤ c)) ==ℤ pos 0) l.is_settled now
            l.settled_at;
      balance_fits = fits;
      total_fits = is_valid-InRange l.total_repaid (ground arith);
      repaid_fits =
          sum_fits l.total_repaid c r (is_valid-InRange l.total_repaid (ground arith)) small er;
      unsettled = unsettled;
      covered = covered;
      settles =
          rw (unsettled, cents-exact (l.current_balance -ℤ c) less)
            (or_false ((l.current_balance -ℤ c) ==ℤ pos 0));
      wrote =
          sym (ok-injective h5)
          ∙ rows_written db l user settled at b r (l.current_balance -ℤ c) (l.total_repaid +ℤ c) eb'
              er';
    }

pub repaid_rows :
    (l : Lending) (user : ℕ) (c : ℤ) (settled : Bool) (at : Option ℕ) (rows : List Lending)
    → leb_ℤ c l.current_balance ≡ true
    → settled ≡ ((l.current_balance -ℤ c) ==ℤ pos 0)
    → All IsSound rows
    → All IsSound (
        update_rows
          (still_lending l user)
          (repay_row settled at (l.current_balance -ℤ c) (l.total_repaid +ℤ c))
          rows)
unfolding update_rows
repaid_rows l user c settled at [] covered e h = tt
repaid_rows l user c settled at (x ∷ rows) covered e h =
    elim (Bool-cases (still_lending l user x)) [
      | inl t ↦
          let b : x.current_balance ≡ l.current_balance =
            eq_of_==ℤ x.current_balance l.current_balance (ground arith) in
          let r : x.total_repaid ≡ l.total_repaid =
            eq_of_==ℤ x.total_repaid l.total_repaid (ground arith) in
          rw t (
            repaid_row l c settled at _ _ x h.0 (ap (λ (z : ℤ). z -ℤ c) (sym b))
                (ap (λ (z : ℤ). z +ℤ c) (sym r)) (ground (arith, -ℤ_parts l.current_balance c)) e,
            repaid_rows l user c settled at rows covered e h.1,
          )
      | inr t ↦ rw t (h.0, repaid_rows l user c settled at rows covered e h.1)
    ]
