-- ===== src/Money/Defs.antt =====
-- The amounts of money.go and their arithmetic.
use sky_personal_ledger.Base.{
  ℕ, ◌+◌, ◌-◌, ◌*◌, ◌/◌, ◌%◌, ◌^◌, Bool, false, ◌&&◌, ◌||◌, ℤ, pos, negsuc, pos_part, sub_ℕ, ◌+ℤ◌,
  ◌-ℤ◌, neg_ℤ, ltb_ℤ, leb_ℤ, ◌==ℤ◌, abs_ℕ, leb, if◌then◌else◌, Result, ok, err, invalid_money,
}

abbrev pub max_exact_cents : ℕ
max_exact_cents = 2 ^ 53 - 1

-- `nan` is what the arithmetic returns out of range.
pub data Amount : Type 0 where
  nan : Amount
  exact : ℤ → Amount

abbrev pub in_range : ℤ → Bool
in_range c = leb_ℤ c (pos max_exact_cents) && leb_ℤ (neg_ℤ (pos max_exact_cents)) c

unfoldable pub from_cents : ℤ → Amount
unfolding neg_ℤ
from_cents c =
    if ltb_ℤ (pos max_exact_cents) c || ltb_ℤ c (neg_ℤ (pos max_exact_cents)) then nan else exact c

-- `Cents`: an amount that `FromFloat` refuses counts as 0.
unfoldable pub cents : Amount → ℤ
unfolding neg_ℤ
cents nan = pos 0
cents (exact c) = if in_range c then c else pos 0

unfoldable pub is_valid : Amount → Bool
unfolding neg_ℤ
is_valid nan = false
is_valid (exact c) = in_range c

-- `Add`, with the test that comes before the int64 sum.
unfoldable pub add : Amount → Amount → Amount
unfolding from_cents cents
add a b =
    let left = cents a in
    let right = cents b in
    if (ltb_ℤ (pos 0) right && ltb_ℤ (pos max_exact_cents -ℤ right) left)
      || (ltb_ℤ right (pos 0) && ltb_ℤ left (neg_ℤ (pos max_exact_cents) -ℤ right))
    then nan
    else from_cents (left +ℤ right)

unfoldable pub sub : Amount → Amount → Amount
unfolding from_cents cents
sub a b =
    let left = cents a in
    let right = cents b in
    if (ltb_ℤ right (pos 0) && ltb_ℤ (pos max_exact_cents +ℤ right) left)
      || (ltb_ℤ (pos 0) right && ltb_ℤ left (neg_ℤ (pos max_exact_cents) +ℤ right))
    then nan
    else from_cents (left -ℤ right)

unfoldable pub negate : Amount → Amount
unfolding from_cents cents
negate a = from_cents (neg_ℤ (cents a))

-- Go's `/` on int64, which truncates towards zero.
abbrev pub quot : ℤ → ℕ → ℤ
quot (pos n) d = pos (n / d)
quot (negsuc n) d = sub_ℕ 0 ((n + 1) / d)

-- `Divide`: the nearest number of cents, halves away from zero. `remainder` is the magnitude that
-- the source computes from `%` and its sign flip.
unfoldable pub divide : Amount → ℤ → Amount
unfolding from_cents cents
divide a divisor =
    if leb_ℤ divisor (pos 0)
    then exact (pos 0)
    else (let c = cents a in
        let quotient = quot c (pos_part divisor) in
        let remainder = abs_ℕ c % pos_part divisor in
        from_cents (
          if leb (pos_part divisor) (remainder * 2)
          then (if ltb_ℤ c (pos 0) then quotient -ℤ pos 1 else quotient +ℤ pos 1)
          else quotient))

-- The float comparisons of amounts: every one with NaN is false, but for `!=`.
abbrev pub lt_amount : Amount → Amount → Bool
lt_amount (exact a) (exact b) = ltb_ℤ a b
lt_amount _ _ = false

abbrev pub le_amount : Amount → Amount → Bool
le_amount (exact a) (exact b) = leb_ℤ a b
le_amount _ _ = false

abbrev pub eq_amount : Amount → Amount → Bool
eq_amount (exact a) (exact b) = a ==ℤ b
eq_amount _ _ = false

abbrev pub zero_amount : Amount
zero_amount = exact (pos 0)

-- `roundMoney` of service/money_precision.go.
unfoldable pub round_money : Amount → Amount
unfolding from_cents cents
round_money a = from_cents (cents a)

-- `Value`, what an amount writes to its column, and `Scan` of an int64 column.
unfoldable pub value : Amount → Result ℤ
unfolding cents
value nan = err invalid_money
value (exact c) = ok (cents (exact c))

unfoldable pub scan : ℤ → Result Amount
unfolding from_cents is_valid
scan c = if is_valid (from_cents c) then ok (from_cents c) else err invalid_money
