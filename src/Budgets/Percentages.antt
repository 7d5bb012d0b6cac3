-- ===== src/Budgets/Percentages.antt =====
-- The percentages of budgets.
use sky_personal_ledger.Base.{
  ℕ, ◌+◌, ◌*◌, ◌/◌, ◌≤◌, ◌<◌, ◌≡◌, refl, true, false, arith, ℤ, pos, negsuc, pos_part, leb_ℤ,
}
use native.Mathlib.Nat.{div-add-mod, mod-lt}
use sky_personal_ledger.Money.{Amount, cents, quot}
use sky_personal_ledger.Budgets.Lists.{times_100, money_percentage}

whole_percent : (n d : ℕ) → 0 < d → (n * 100 / d * d ≤ n * 100) × (n * 100 < (n * 100 / d + 1) * d)
whole_percent n d h = grind (arith, div-add-mod (n * 100) d, mod-lt (n * 100) h)

-- The percentage of an amount that is not negative in a positive total is a hundredfold of it, divided
-- and rounded down: `p` with p * total <= 100 * amount < (p + 1) * total, in cents.
pub money_percentage_bounds :
    (amount total : Amount)
    → leb_ℤ (pos 0) (cents amount) ≡ true
    → leb_ℤ (pos 1) (cents total) ≡ true
    → (money_percentage amount total ≡ pos (pos_part (money_percentage amount total)))
      × (pos_part (money_percentage amount total) * pos_part (cents total)
          ≤ pos_part (cents amount) * 100)
      × (pos_part (cents amount) * 100
          < (pos_part (money_percentage amount total) + 1) * pos_part (cents total))
unfolding money_percentage
money_percentage_bounds amount total n p =
    let positive : leb_ℤ (cents total) (pos 0) ≡ false = ground (arith, p) in
    rw positive (bounds (cents amount) (cents total) n p)
  where
    bounds :
        (c t : ℤ)
        → leb_ℤ (pos 0) c ≡ true
        → leb_ℤ (pos 1) t ≡ true
        → (quot (times_100 c) (pos_part t) ≡ pos (pos_part (quot (times_100 c) (pos_part t))))
          × (pos_part (quot (times_100 c) (pos_part t)) * pos_part t ≤ pos_part c * 100)
          × (pos_part c * 100 < (pos_part (quot (times_100 c) (pos_part t)) + 1) * pos_part t)
    bounds (pos n) t h p = (
      refl,
      (whole_percent n (pos_part t) (ground (arith, p))).0,
      (whole_percent n (pos_part t) (ground (arith, p))).1,
    )
    bounds (negsuc n) t h p = absurd (ground (arith, h))
