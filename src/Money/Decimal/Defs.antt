-- ===== src/Money/Decimal/Defs.antt =====
-- `formatCents` and `CentsFromDecimalString` of backend/internal/money/money.go, over the bytes of
-- the text, with the parts of `strconv` and `strings` that they use. White space is ASCII's.
use sky_personal_ledger.Base.{
  ℕ, ◌+◌, ◌-◌, ◌*◌, ◌/◌, ◌%◌, ◌^◌, Bool, true, false, ◌&&◌, ◌||◌, List, [], ◌∷◌, ◌++◌, ltb, leb,
  ◌==◌, if◌then◌else◌, ℤ, pos, sub_ℕ, ltb_ℤ, abs_ℕ, Result, ok, err, ◌>>=◌, ◌>>◌, guard, or_error,
}
use sky_personal_ledger.Base.{invalid_money}
use mathlib.Core.List.{reverse}
use sky_personal_ledger.Money.Decimal.Digits.{max_u64, is_digits, format_uint, parse_uint}

abbrev pub max_i64 : ℕ
max_i64 = 2 ^ 63 - 1

abbrev pub is_space : ℕ → Bool
is_space c = c == 32 || (leb 9 c && leb c 13)

unfoldable pub trim_left : List ℕ → List ℕ
trim_left [] = []
trim_left (c ∷ s) = let rest = trim_left s in if is_space c then rest else c ∷ s

-- `strings.TrimSpace`
unfoldable pub trim_space : List ℕ → List ℕ
unfolding trim_left
trim_space s = reverse (trim_left (reverse (trim_left s)))

-- `strings.Split`
unfoldable pub split_on : ℕ → List ℕ → List (List ℕ)
split_on sep [] = [] ∷ []
split_on sep (c ∷ s) = elim (split_on sep s) [
  | [] ↦ [] ∷ []
  | part ∷ parts ↦ if c == sep then [] ∷ part ∷ parts else (c ∷ part) ∷ parts
]

unfoldable pub two_digits : ℕ → List ℕ
two_digits n = (b'0' + n / 10) ∷ (b'0' + n % 10) ∷ []

unfoldable pub format_cents : ℤ → List ℕ
format_cents c =
    let digits = format_uint (abs_ℕ c / 100) ++ (b'.' ∷ two_digits (abs_ℕ c % 100)) in
    if ltb_ℤ c (pos 0) then b'-' ∷ digits else digits

-- The sign and what follows it.
unfoldable pub strip_sign : List ℕ → Bool × List ℕ
strip_sign [] = (false, [])
strip_sign (c ∷ s) =
    if c == b'-' then (true, s) else if c == b'+' then (false, s) else (false, c ∷ s)

-- The first two digits of the fraction, padded with zeros, and one more where the third rounds up.
unfoldable pub fractional_cents : List ℕ → Result ℕ
fractional_cents [] = or_error (parse_uint (b'0' ∷ b'0' ∷ [])) invalid_money
fractional_cents (a ∷ []) = or_error (parse_uint (a ∷ b'0' ∷ [])) invalid_money
fractional_cents (a ∷ b ∷ []) = or_error (parse_uint (a ∷ b ∷ [])) invalid_money
fractional_cents (a ∷ b ∷ c ∷ _) = do
  n ← or_error (parse_uint (a ∷ b ∷ [])) invalid_money
  ok (if leb b'5' c then n + 1 else n)

-- From `if fractionalCents == 100` to the end: the carry, the limit and the sign.
unfoldable pub assemble : Bool → ℕ → ℕ → Result ℤ
assemble negative whole fraction =
    let carry = fraction == 100 in
    let whole' = if carry then whole + 1 else whole in
    let fraction' = if carry then 0 else fraction in
    let limit = if negative then max_i64 + 1 else max_i64 in
    if carry && whole == max_u64
    then err invalid_money
    else if ltb (limit / 100) whole' || (whole' == limit / 100 && ltb (limit % 100) fraction')
    then err invalid_money
    else if negative
    then ok (sub_ℕ 0 (whole' * 100 + fraction'))
    else ok (pos (whole' * 100 + fraction'))

unfoldable pub parse_whole : List ℕ → Result ℕ
parse_whole [] = or_error (parse_uint (b'0' ∷ [])) invalid_money
parse_whole (c ∷ s) = do
  guard (is_digits (c ∷ s)) invalid_money
  or_error (parse_uint (c ∷ s)) invalid_money

unfoldable pub parse_parts : Bool → List (List ℕ) → Result ℤ
parse_parts negative (whole ∷ []) = do n ← parse_whole whole; assemble negative n 0
parse_parts negative (whole ∷ fraction ∷ []) = do
  n ← parse_whole whole
  guard (is_digits fraction) invalid_money
  f ← fractional_cents fraction
  assemble negative n f
parse_parts negative _ = err invalid_money

-- No text after the sign, or a lone point.
unfoldable pub is_blank : List ℕ → Bool
is_blank [] = true
is_blank (c ∷ []) = c == b'.'
is_blank _ = false

unfoldable pub cents_from_decimal_string : List ℕ → Result ℤ
cents_from_decimal_string text =
    let (negative, body) = strip_sign (trim_space text) in
    if is_blank body then err invalid_money else parse_parts negative (split_on b'.' body)
