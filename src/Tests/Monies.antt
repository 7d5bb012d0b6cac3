-- ===== src/Tests/Monies.antt =====
-- Amounts at concrete inputs.
use sky_personal_ledger.Base.{◌-◌, ◌^◌, ◌≤◌, ◌≡◌, arith, pos, negsuc, pos_part, neg_part, ok}
use sky_personal_ledger.Money.{exact, cents, divide}
use sky_personal_ledger.Money.Exact.{IsNearest, divide_bounds}
use sky_personal_ledger.Money.Decimal.{format_cents, cents_from_decimal_string}
use sky_personal_ledger.Money.Decimal.RoundTrip.{cents_from_decimal_string-format_cents}
use sky_personal_ledger.Money.Decimal.Bounds.{cents_from_decimal_string_bounds}

divide_bounds_example :
    IsNearest
      (pos_part (cents (divide (exact (negsuc 999)) (pos 3))))
      (pos_part (cents (exact (negsuc 999))))
      3
    × IsNearest
        (neg_part (cents (divide (exact (negsuc 999)) (pos 3))))
        (neg_part (cents (exact (negsuc 999))))
        3
divide_bounds_example = divide_bounds (exact (negsuc 999)) 3 (omega arith)

cents_from_decimal_string-format_cents_example :
    cents_from_decimal_string (format_cents (negsuc 1234)) ≡ ok (negsuc 1234)
cents_from_decimal_string-format_cents_example =
    cents_from_decimal_string-format_cents (negsuc 1234) (omega arith) (omega arith)

cents_from_decimal_string_bounds_example :
    (pos_part (negsuc 1234) ≤ 2 ^ 63 - 1) × (neg_part (negsuc 1234) ≤ 2 ^ 63)
cents_from_decimal_string_bounds_example =
    cents_from_decimal_string_bounds (format_cents (negsuc 1234)) (negsuc 1234)
      (cents_from_decimal_string-format_cents (negsuc 1234) (omega arith) (omega arith))
