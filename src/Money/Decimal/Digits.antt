-- ===== src/Money/Decimal/Digits.antt =====
-- `strconv.FormatUint` and `strconv.ParseUint` in base ten, and `isDigits` of money.go.
use sky_personal_ledger.Base.{
  ℕ, zero, suc, ◌+◌, ◌-◌, ◌*◌, ◌/◌, ◌%◌, ◌^◌, ◌≤◌, ◌≡◌, refl, inl, inr, Bool, true, ◌&&◌, Option,
  none, some, List, [], ◌∷◌, ◌++◌, arith, ltb, leb, if◌then◌else◌, Bool-cases, Option-cases,
}

abbrev pub max_u64 : ℕ
max_u64 = 2 ^ 64 - 1

abbrev pub is_digit : ℕ → Bool
is_digit c = leb b'0' c && leb c b'9'

unfoldable pub is_digits : List ℕ → Bool
is_digits [] = true
is_digits (c ∷ s) = is_digit c && is_digits s

-- With as much fuel as the number every digit is written.
unfoldable pub format_digits : ℕ → ℕ → List ℕ
format_digits zero n = (b'0' + n % 10) ∷ []
format_digits (suc f) n =
    let rest = format_digits f (n / 10) in
    if ltb n 10 then (b'0' + n) ∷ [] else rest ++ ((b'0' + n % 10) ∷ [])

unfoldable pub format_uint : ℕ → List ℕ
unfolding format_digits
format_uint n = format_digits n n

-- One digit read, with ParseUint's test of the 64-bit range.
abbrev pub push_digit : ℕ → ℕ → Option ℕ
push_digit n c =
    if is_digit c
    then (if ltb max_u64 (n * 10 + (c - b'0')) then none else some (n * 10 + (c - b'0')))
    else none

abbrev pub bind_option : Option ℕ → (ℕ → Option ℕ) → Option ℕ
bind_option none k = none
bind_option (some a) k = k a

unfoldable pub parse_digits : ℕ → List ℕ → Option ℕ
parse_digits n [] = some n
parse_digits n (c ∷ s) = bind_option (push_digit n c) (λ m. parse_digits m s)

unfoldable pub parse_uint : List ℕ → Option ℕ
unfolding parse_digits
parse_uint [] = none
parse_uint (c ∷ s) = parse_digits 0 (c ∷ s)

is_digits-append : (xs ys : List ℕ) → is_digits (xs ++ ys) ≡ (is_digits xs && is_digits ys)
unfolding is_digits
is_digits-append [] ys = refl
is_digits-append (c ∷ xs) ys = ground (arith, is_digits-append xs ys)

pub format_digits-is_digits : (f n : ℕ) → is_digits (format_digits f n) ≡ true
unfolding format_digits is_digits
format_digits-is_digits zero n = ground arith
format_digits-is_digits (suc f) n = ground (
  arith,
  is_digits-append (format_digits f (n / 10)) ((b'0' + n % 10) ∷ []),
  format_digits-is_digits f (n / 10),
)

parse_digits-append :
    (n : ℕ) (xs ys : List ℕ)
    → parse_digits n (xs ++ ys) ≡ bind_option (parse_digits n xs) (λ m. parse_digits m ys)
unfolding parse_digits
parse_digits-append n [] ys = refl
parse_digits-append n (c ∷ xs) ys = elim (Option-cases (push_digit n c)) [
  | inl e ↦ rw e
  | inr (m, e) ↦ rw e (parse_digits-append m xs ys)
]

-- What is printed is read back.
pub parse_digits-format_digits :
    (f n : ℕ) → n ≤ f → n ≤ max_u64 → parse_digits 0 (format_digits f n) ≡ some n
unfolding parse_digits format_digits
parse_digits-format_digits zero n h b = ground arith
parse_digits-format_digits (suc f) n h b = elim (Bool-cases (ltb n 10)) [
  | inl e ↦ rw e (ground arith)
  | inr e ↦ rw e (
      rw parse_digits-append
        (rw (parse_digits-format_digits f (n / 10) (ground arith) (omega arith)) (ground arith)))
]
