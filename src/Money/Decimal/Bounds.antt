-- ===== src/Money/Decimal/Bounds.antt =====
-- What `CentsFromDecimalString` accepts is an int64.
use sky_personal_ledger.Base.{
  ℕ, ◌-◌, ◌^◌, ◌≤◌, ◌<◌, ◌≡◌, inl, inr, Bool, List, [], ◌∷◌, arith, Bool-cases, ℤ, pos_part,
  neg_part, ok, guard, or_error, >>=-eq-ok,
}
use sky_personal_ledger.Base.{invalid_money}
use sky_personal_ledger.Money.Decimal.Digits.{is_digits, parse_uint, parse_digits}
use sky_personal_ledger.Money.Decimal.Defs.{
  trim_space, split_on, strip_sign, fractional_cents, assemble, parse_whole, parse_parts, is_blank,
  cents_from_decimal_string,
}

abbrev IsInt64 : ℤ → Type 0
IsInt64 c = (pos_part c ≤ 2 ^ 63 - 1) × (neg_part c ≤ 2 ^ 63)

assemble-IsInt64 :
    (negative : Bool) (whole fraction : ℕ) (c : ℤ)
    → fraction ≤ 100
    → assemble negative whole fraction ≡ ok c
    → IsInt64 c
unfolding assemble
assemble-IsInt64 negative whole fraction c f h = ground arith

-- Two digits make a number below a hundred.
parse_two_bound : (a b n : ℕ) → or_error (parse_uint (a ∷ b ∷ [])) invalid_money ≡ ok n → n < 100
unfolding parse_uint parse_digits
parse_two_bound a b n h = ground arith

fractional_cents_bound : (s : List ℕ) (n : ℕ) → fractional_cents s ≡ ok n → n ≤ 100
unfolding fractional_cents
fractional_cents_bound [] n h = omega (arith, parse_two_bound b'0' b'0' n h)
fractional_cents_bound (a ∷ []) n h = omega (arith, parse_two_bound a b'0' n h)
fractional_cents_bound (a ∷ b ∷ []) n h = omega (arith, parse_two_bound a b n h)
fractional_cents_bound (a ∷ b ∷ c ∷ s) n h =
    let (m, two, rest) = >>=-eq-ok (or_error (parse_uint (a ∷ b ∷ [])) invalid_money) _ h in
    ground (arith, parse_two_bound a b m two)

parse_parts-IsInt64 :
    (negative : Bool) (parts : List (List ℕ)) (c : ℤ)
    → parse_parts negative parts ≡ ok c
    → IsInt64 c
unfolding parse_parts
parse_parts-IsInt64 negative [] c h = cc
parse_parts-IsInt64 negative (whole ∷ []) c h =
    let (n, _, rest) = >>=-eq-ok (parse_whole whole) _ h in
    assemble-IsInt64 negative n 0 c (omega arith) rest
parse_parts-IsInt64 negative (whole ∷ fraction ∷ []) c h =
    let (n, _, rest) = >>=-eq-ok (parse_whole whole) _ h in
    let (_, _, rest') = >>=-eq-ok (guard (is_digits fraction) invalid_money) _ rest in
    let (f, e, last) = >>=-eq-ok (fractional_cents fraction) _ rest' in
    assemble-IsInt64 negative n f c (fractional_cents_bound fraction f e) last
parse_parts-IsInt64 negative (a ∷ b ∷ d ∷ s) c h = cc

-- A text that is accepted stands for an int64: neither the uint64 product nor the sign wraps.
pub cents_from_decimal_string_bounds :
    (text : List ℕ) (c : ℤ)
    → cents_from_decimal_string text ≡ ok c
    → (pos_part c ≤ 2 ^ 63 - 1) × (neg_part c ≤ 2 ^ 63)
unfolding cents_from_decimal_string
cents_from_decimal_string_bounds text c h =
    elim (Bool-cases (is_blank (strip_sign (trim_space text)).1)) [
      | inl e ↦ cc (rw e at h)
      | inr e ↦
          parse_parts-IsInt64 (strip_sign (trim_space text)).0
            (split_on b'.' (strip_sign (trim_space text)).1) c (rw e at h)
    ]
