-- ===== src/Money/Exact.antt =====
-- The arithmetic on cents is exact, or says that it left the range.
use sky_personal_ledger.Base.{
  ℕ, ◌+◌, ◌*◌, ◌/◌, ◌%◌, ◌≤◌, ◌<◌, ◌≡◌, ℤ, pos, negsuc, ◌+ℤ◌, ◌-ℤ◌, neg_ℤ, abs_ℕ, pos_part,
  neg_part, ap, ◌∙◌, zero, suc, ltb_ℤ, sub_ℕ, leb, arith, int_laws, +ℤ_parts, -ℤ_parts,
  pos_part-neg_ℤ, neg_part-neg_ℤ, if◌then◌else◌,
}
use native.Mathlib.Nat.{div-add-mod, mod-lt}
use sky_personal_ledger.Money.Defs.{
  Amount, nan, exact, max_exact_cents, from_cents, cents, add, sub, negate, divide, quot,
}

-- The cents of any amount are in the exact range.
pub cents_bound : (a : Amount) → abs_ℕ (cents a) ≤ max_exact_cents
unfolding cents
cents_bound nan = omega arith
cents_bound (exact c) = ground arith

pub from_cents-in_range : (c : ℤ) → abs_ℕ c ≤ max_exact_cents → from_cents c ≡ exact c
unfolding from_cents
from_cents-in_range c h = ground arith

pub from_cents-out_of_range : (c : ℤ) → max_exact_cents < abs_ℕ c → from_cents c ≡ nan
unfolding from_cents
from_cents-out_of_range c h = ground arith

pub cents-exact : (c : ℤ) → abs_ℕ c ≤ max_exact_cents → cents (exact c) ≡ c
unfolding cents
cents-exact c h = ground arith

-- Whatever `Add`'s own test says, its result is the sum if that is in range, and NaN if not.
pub add-eq-from_cents : (a b : Amount) → add a b ≡ from_cents (cents a +ℤ cents b)
unfolding add
add-eq-from_cents a b = ground (
  arith,
  +ℤ_parts (cents a) (cents b),
  -ℤ_parts (pos max_exact_cents) (cents b),
  -ℤ_parts (neg_ℤ (pos max_exact_cents)) (cents b),
  pos_part-neg_ℤ (pos max_exact_cents),
  neg_part-neg_ℤ (pos max_exact_cents),
)

-- `Sub`, like `Add`: its result is the difference if that is in range, and NaN if not.
pub sub-eq-from_cents : (a b : Amount) → sub a b ≡ from_cents (cents a -ℤ cents b)
unfolding sub
sub-eq-from_cents a b = ground (
  arith,
  -ℤ_parts (cents a) (cents b),
  +ℤ_parts (pos max_exact_cents) (cents b),
  +ℤ_parts (neg_ℤ (pos max_exact_cents)) (cents b),
  pos_part-neg_ℤ (pos max_exact_cents),
  neg_part-neg_ℤ (pos max_exact_cents),
)

pub cents-negate : (a : Amount) → cents (negate a) ≡ neg_ℤ (cents a)
unfolding negate
cents-negate a = ground (arith, pos_part-neg_ℤ (cents a), neg_part-neg_ℤ (cents a), cents_bound a)

pub negate-eq-exact : (a : Amount) → negate a ≡ exact (neg_ℤ (cents a))
unfolding negate
negate-eq-exact a =
    ground (arith, pos_part-neg_ℤ (cents a), neg_part-neg_ℤ (cents a), cents_bound a)

-- The tests that come before the int64 arithmetic change nothing: a sum or a difference is the exact
-- one if that is in range, and NaN if not; an opposite is always exact.
pub arithmetic_exact :
    (a b : Amount)
    → (add a b ≡ from_cents (cents a +ℤ cents b))
      × (sub a b ≡ from_cents (cents a -ℤ cents b))
      × (negate a ≡ exact (neg_ℤ (cents a)))
arithmetic_exact a b = (add-eq-from_cents a b, sub-eq-from_cents a b, negate-eq-exact a)

pub neg_ℤ-neg_ℤ : (c : ℤ) → neg_ℤ (neg_ℤ c) ≡ c
neg_ℤ-neg_ℤ c = omega int_laws

pub negate-negate : (a : Amount) → negate (negate a) ≡ exact (cents a)
negate-negate a = negate-eq-exact (negate a) ∙ ap exact (rw cents-negate (neg_ℤ-neg_ℤ (cents a)))

-- The magnitude of a rounded quotient.
abbrev rounded : ℕ → ℕ → ℕ
rounded n d = if leb d (n % d * 2) then n / d + 1 else n / d

rounded_bounds :
    (n d : ℕ)
    → 0 < d
    → (2 * (rounded n d * d) ≤ 2 * n + d) × (2 * n + d < 2 * ((rounded n d + 1) * d))
rounded_bounds n d h = grind (arith, div-add-mod n d, mod-lt n h)

rounded-le : (n d : ℕ) → 0 < d → rounded n d ≤ n
rounded-le zero d h = grind arith
rounded-le (suc n) zero h = elim h [ ]
rounded-le (suc n) (suc zero) h = ground arith
rounded-le (suc n) (suc (suc d)) h = grind (arith, div-add-mod (suc n) (suc (suc d)))

-- The quotient that the source computes, by the sign of the dividend.
round_quot_lem :
    (c : ℤ) (d : ℕ)
    → (if leb d (abs_ℕ c % d * 2)
        then (if ltb_ℤ c (pos 0) then quot c d -ℤ pos 1 else quot c d +ℤ pos 1)
        else quot c d)
      ≡ (if ltb_ℤ c (pos 0) then sub_ℕ 0 (rounded (abs_ℕ c) d) else pos (rounded (abs_ℕ c) d))
unfolding ◌+ℤ◌ ◌-ℤ◌
round_quot_lem (pos n) d = ground arith
round_quot_lem (negsuc n) d = ground arith

signed : ℤ → ℕ → ℤ
signed (pos n) d = pos (rounded n d)
signed (negsuc n) d = sub_ℕ 0 (rounded (suc n) d)

-- The result of `Divide` by a positive divisor.
divide-signed : (a : Amount) (d : ℕ) → 0 < d → cents (divide a (pos d)) ≡ signed (cents a) d
unfolding divide signed
divide-signed a d h =
    ground (arith, round_quot_lem (cents a) d, rounded-le (abs_ℕ (cents a)) d h, cents_bound a)

-- `q` is `n` over `d`, rounded to the nearest number, halves up: 2qd <= 2n + d < 2(q + 1)d.
abbrev pub IsNearest : ℕ → ℕ → ℕ → Type 0
IsNearest q n d = (2 * (q * d) ≤ 2 * n + d) × (2 * n + d < 2 * ((q + 1) * d))

none_left : (d : ℕ) → 0 < d → IsNearest 0 0 d
none_left d h = (omega (arith, h), omega (arith, h))

signed-IsNearest :
    (c : ℤ) (d : ℕ)
    → 0 < d
    → IsNearest (pos_part (signed c d)) (pos_part c) d
      × IsNearest (neg_part (signed c d)) (neg_part c) d
unfolding signed
signed-IsNearest (pos n) d h = (rounded_bounds n d h, none_left d h)
signed-IsNearest (negsuc n) d h = (
  rw (positive (rounded (suc n) d)) (none_left d h),
  rw (negative (rounded (suc n) d)) (rounded_bounds (suc n) d h),
)
  where
    positive : (m : ℕ) → pos_part (sub_ℕ 0 m) ≡ 0
    positive m = ground arith

    negative : (m : ℕ) → neg_part (sub_ℕ 0 m) ≡ m
    negative m = ground arith

-- `Divide` by a positive `d` gives the nearest number of cents, halves away from zero, with the sign of
-- the dividend: the positive part of the result is the rounded quotient of the dividend's positive
-- part, and its negative part that of the negative part (so a part that is 0 stays 0).
pub divide_bounds :
    (a : Amount) (d : ℕ)
    → 0 < d
    → IsNearest (pos_part (cents (divide a (pos d)))) (pos_part (cents a)) d
      × IsNearest (neg_part (cents (divide a (pos d)))) (neg_part (cents a)) d
divide_bounds a d h = rw (divide-signed a d h) (signed-IsNearest (cents a) d h)
