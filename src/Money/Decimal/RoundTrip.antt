-- ===== src/Money/Decimal/RoundTrip.antt =====
-- What `formatCents` prints `CentsFromDecimalString` reads back.
use sky_personal_ledger.Base.{
  ℕ, zero, suc, ◌+◌, ◌-◌, ◌/◌, ◌%◌, ◌^◌, ◌≤◌, ◌<◌, ◌≡◌, refl, ◌∙◌, inl, inr, Bool, true, false, not,
  ◌&&◌, some, List, [], ◌∷◌, ◌++◌, arith, ltb, Bool-cases, ℤ, pos, negsuc, pos_part, neg_part, ok,
}
use mathlib.Core.List.{reverse, reverse-append, reverse-reverse}
use sky_personal_ledger.Money.Decimal.Digits.{
  max_u64, is_digit, is_digits, format_uint, parse_uint, format_digits, parse_digits,
  format_digits-is_digits, parse_digits-format_digits,
}
use sky_personal_ledger.Money.Decimal.Defs.{
  max_i64, is_space, trim_left, trim_space, split_on, two_digits, format_cents, strip_sign,
  fractional_cents, assemble, parse_whole, parse_parts, is_blank, cents_from_decimal_string,
}

no_space : List ℕ → Bool
no_space [] = true
no_space (c ∷ s) = not (is_space c) && no_space s

no_space-append : (xs ys : List ℕ) → no_space (xs ++ ys) ≡ (no_space xs && no_space ys)
unfolding no_space
no_space-append [] ys = refl
no_space-append (c ∷ xs) ys = ground (arith, no_space-append xs ys)

no_space-reverse : (xs : List ℕ) → no_space (reverse xs) ≡ no_space xs
unfolding no_space
no_space-reverse [] = refl
no_space-reverse (c ∷ xs) =
    rw (reverse-append (c ∷ []) xs)
      (ground (arith, no_space-append (reverse xs) (c ∷ []), no_space-reverse xs))

trim_left-no_space : (xs : List ℕ) → no_space xs ≡ true → trim_left xs ≡ xs
unfolding trim_left no_space
trim_left-no_space [] h = refl
trim_left-no_space (c ∷ xs) h = ground arith

trim_space-no_space : (xs : List ℕ) → no_space xs ≡ true → trim_space xs ≡ xs
unfolding trim_space
trim_space-no_space xs h =
    rw (trim_left-no_space xs h)
      (rw (trim_left-no_space (reverse xs) (no_space-reverse xs ∙ h)) (reverse-reverse xs))

is_digits-no_space : (xs : List ℕ) → is_digits xs ≡ true → no_space xs ≡ true
unfolding is_digits no_space
is_digits-no_space [] h = refl
is_digits-no_space (c ∷ xs) h = ground (arith, is_digits-no_space xs)

split_on-point :
    (xs : List ℕ) (a b : ℕ)
    → is_digits xs ≡ true
    → is_digit a ≡ true
    → is_digit b ≡ true
    → split_on b'.' (xs ++ (b'.' ∷ a ∷ b ∷ [])) ≡ xs ∷ (a ∷ b ∷ []) ∷ []
unfolding split_on is_digits
split_on-point [] a b h ha hb = ground arith
split_on-point (c ∷ xs) a b h ha hb =
    rw (split_on-point xs a b (ground arith) ha hb, split_on) (ground arith)

parse_uint-snoc :
    (xs : List ℕ) (a : ℕ) → parse_uint (xs ++ (a ∷ [])) ≡ parse_digits 0 (xs ++ (a ∷ []))
unfolding parse_uint
parse_uint-snoc [] a = refl
parse_uint-snoc (x ∷ xs) a = refl

parse_uint-format_digits :
    (f n : ℕ) → parse_uint (format_digits f n) ≡ parse_digits 0 (format_digits f n)
unfolding format_digits
parse_uint-format_digits zero n = parse_uint-snoc [] (b'0' + n % 10)
parse_uint-format_digits (suc f) n = elim (Bool-cases (ltb n 10)) [
  | inl e ↦ rw e (parse_uint-snoc [] (b'0' + n))
  | inr e ↦ rw e (parse_uint-snoc (format_digits f (n / 10)) (b'0' + n % 10))
]

parse_uint-format_uint : (n : ℕ) → n ≤ max_u64 → parse_uint (format_uint n) ≡ some n
unfolding format_uint
parse_uint-format_uint n h =
    parse_uint-format_digits n n ∙ parse_digits-format_digits n n (omega arith) h

format_uint-is_digits : (n : ℕ) → is_digits (format_uint n) ≡ true
unfolding format_uint
format_uint-is_digits n = format_digits-is_digits n n

parse_two_digits :
    (f : ℕ) → f < 100 → (is_digits (two_digits f) ≡ true) × (fractional_cents (two_digits f) ≡ ok f)
unfolding two_digits is_digits fractional_cents parse_uint
parse_two_digits f h = (ground arith, ground arith)

-- Of a text that ParseUint accepts, which is not empty.
parse_whole-digits :
    (xs : List ℕ) (w : ℕ) → is_digits xs ≡ true → parse_uint xs ≡ some w → parse_whole xs ≡ ok w
unfolding parse_whole parse_uint
parse_whole-digits [] w d h = cc
parse_whole-digits (c ∷ xs) w d h = rw (d, h)

strip_sign-digits :
    (xs ys : List ℕ) (w : ℕ)
    → is_digits xs ≡ true
    → parse_uint xs ≡ some w
    → strip_sign (xs ++ ys) ≡ (false, xs ++ ys)
unfolding strip_sign parse_uint is_digits
strip_sign-digits [] ys w d h = cc
strip_sign-digits (c ∷ xs) ys w d h = ground arith

is_blank-append : (xs : List ℕ) (p a b : ℕ) → is_blank (xs ++ (p ∷ a ∷ b ∷ [])) ≡ false
unfolding is_blank
is_blank-append [] p a b = refl
is_blank-append (x ∷ []) p a b = refl
is_blank-append (x ∷ y ∷ xs) p a b = refl

assemble_pos : (n : ℕ) → n ≤ max_i64 → assemble false (n / 100) (n % 100) ≡ ok (pos n)
unfolding assemble
assemble_pos n h = ground arith

assemble_neg :
    (m : ℕ) → suc m ≤ max_i64 + 1 → assemble true (suc m / 100) (suc m % 100) ≡ ok (negsuc m)
unfolding assemble
assemble_neg m h = ground arith

-- The printed digits of a magnitude, after whatever sign.
unsigned : ℕ → List ℕ
unsigned n = format_uint (n / 100) ++ (b'.' ∷ two_digits (n % 100))

split_on-unsigned :
    (n : ℕ) → split_on b'.' (unsigned n) ≡ format_uint (n / 100) ∷ two_digits (n % 100) ∷ []
unfolding unsigned two_digits
split_on-unsigned n =
    split_on-point (format_uint (n / 100)) _ _ (format_uint-is_digits (n / 100)) (ground arith)
      (ground arith)

parse_parts-unsigned :
    (negative : Bool) (n : ℕ)
    → n ≤ max_u64
    → parse_parts negative (split_on b'.' (unsigned n)) ≡ assemble negative (n / 100) (n % 100)
unfolding parse_parts
parse_parts-unsigned negative n h =
    let w = parse_two_digits (n % 100) (omega arith) in
    rw (split_on-unsigned n) (
      rw
        (parse_whole-digits (format_uint (n / 100)) (n / 100) (format_uint-is_digits (n / 100))
          (parse_uint-format_uint (n / 100) (omega arith)))
        (rw (w.0, w.1)))

unsigned-no_space : (n : ℕ) → no_space (unsigned n) ≡ true
unfolding unsigned two_digits no_space
unsigned-no_space n = ground (
  arith,
  no_space-append (format_uint (n / 100)) (b'.' ∷ two_digits (n % 100)),
  is_digits-no_space (format_uint (n / 100)) (format_uint-is_digits (n / 100)),
)

is_blank-unsigned : (n : ℕ) → is_blank (unsigned n) ≡ false
unfolding unsigned two_digits
is_blank-unsigned n = is_blank-append (format_uint (n / 100)) _ _ _

-- The part of the parser that follows the sign.
parse_unsigned :
    (text : List ℕ) (negative : Bool) (n : ℕ)
    → n ≤ max_u64
    → strip_sign (trim_space text) ≡ (negative, unsigned n)
    → cents_from_decimal_string text ≡ assemble negative (n / 100) (n % 100)
unfolding cents_from_decimal_string
parse_unsigned text negative n h e =
    rw e (rw (is_blank-unsigned n) (parse_parts-unsigned negative n h))

strip_sign-pos : (n : ℕ) → n ≤ max_u64 → strip_sign (trim_space (unsigned n)) ≡ (false, unsigned n)
strip_sign-pos n h = rw (trim_space-no_space (unsigned n) (unsigned-no_space n)) (
    unfold unsigned in
    strip_sign-digits (format_uint (n / 100)) _ (n / 100) (format_uint-is_digits (n / 100))
      (parse_uint-format_uint (n / 100) (omega arith)))

strip_sign-neg : (n : ℕ) → strip_sign (trim_space (b'-' ∷ unsigned n)) ≡ (true, unsigned n)
unfolding strip_sign
strip_sign-neg n =
    rw (trim_space-no_space (b'-' ∷ unsigned n) (unfold no_space in unsigned-no_space n))

format_cents-pos : (n : ℕ) → format_cents (pos n) ≡ unsigned n
unfolding format_cents unsigned
format_cents-pos n = ground arith

format_cents-neg : (n : ℕ) → format_cents (negsuc n) ≡ b'-' ∷ unsigned (suc n)
unfolding format_cents unsigned
format_cents-neg n = ground arith

-- Every int64 number of cents that is printed is read back as itself.
pub cents_from_decimal_string-format_cents :
    (c : ℤ)
    → pos_part c ≤ 2 ^ 63 - 1
    → neg_part c ≤ 2 ^ 63
    → cents_from_decimal_string (format_cents c) ≡ ok c
cents_from_decimal_string-format_cents (pos n) hp hn = rw (format_cents-pos n) (
    parse_unsigned (unsigned n) false n (omega arith) (strip_sign-pos n (omega arith))
    ∙ assemble_pos n (omega arith))
cents_from_decimal_string-format_cents (negsuc n) hp hn = rw (format_cents-neg n) (
    parse_unsigned (b'-' ∷ unsigned (suc n)) true (suc n) (omega arith) (strip_sign-neg (suc n))
    ∙ assemble_neg n (omega arith))
