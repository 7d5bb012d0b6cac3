-- ===== src/Accounts/Summary.antt =====
-- What the summary of a user's accounts stands for: the net worth.
use sky_personal_ledger.Base.{
  ℕ, suc, ◌+◌, ◌≤◌, ◌≡◌, refl, sym, ap, ◌∙◌, subst, ◌⊎◌, inl, inr, Bool, true, false, List, [], ◌∷◌,
  arith, if◌then◌else◌, Bool-cases, ℤ, pos, negsuc, pos_part, neg_part, ◌+ℤ◌, ◌-ℤ◌, neg_ℤ, abs_ℕ,
  eq_of_parts, int_laws, keep_if, All, keep_if-All, sum_rows, ok, guard, >>=-eq-ok,
}
use sky_personal_ledger.Base.{invalid_money}
use sky_personal_ledger.Money.{
  Amount, exact, max_exact_cents, from_cents, cents, add, sub, negate, le_amount, zero_amount,
}
use sky_personal_ledger.Money.Exact.{
  add-eq-from_cents, sub-eq-from_cents, negate-eq-exact, from_cents-in_range, cents-exact,
}
use sky_personal_ledger.Model.{Account, AccountType, is_debt_account, Db}
use sky_personal_ledger.Balance.{account_scans}
use sky_personal_ledger.Balance.Mutation.{InRange, scans-InRange}
use sky_personal_ledger.Balance.NetWorth.{worth, net_worth}
use sky_personal_ledger.Accounts.Defs.{
  AccountSummary, classify_account_balance, sum_up, owned, all_scan, get_summary,
}

-- The magnitudes of the balances, summed up.
unfoldable pub magnitude : List Account → ℕ
magnitude [] = 0
magnitude (a ∷ accounts) = abs_ℕ a.current_balance + magnitude accounts

-- The worth of an account in parts: what is held, what is owed.
abbrev held : Account → ℕ
held a = if is_debt_account a.type then neg_part a.current_balance else pos_part a.current_balance

abbrev owed : Account → ℕ
owed a = if is_debt_account a.type then pos_part a.current_balance else neg_part a.current_balance

pub negate_below :
    (n : ℕ) → suc n ≤ max_exact_cents → negate (exact (negsuc n)) ≡ exact (pos (suc n))
negate_below n h =
    negate-eq-exact (exact (negsuc n))
    ∙ ap exact
        (ap neg_ℤ (cents-exact (negsuc n) (omega (arith, h))) ∙ eq_of_parts _ _ (omega int_laws))

classify_at :
    (type : AccountType) (b : ℤ)
    → InRange b
    → classify_account_balance type (from_cents b) ≡ (
        if is_debt_account type
        then (exact (pos (neg_part b)), exact (pos (pos_part b)))
        else (exact (pos (pos_part b)), exact (pos (neg_part b))))
unfolding classify_account_balance
classify_at type (pos n) h =
    let above : le_amount zero_amount (exact (pos n)) ≡ true = ground arith in
    rw (from_cents-in_range (pos n) h, above) refl
classify_at type (negsuc n) h =
    let below : le_amount zero_amount (exact (negsuc n)) ≡ false = ground arith in
    rw (from_cents-in_range (negsuc n) h, below, negate_below n (omega (arith, h))) refl

add_exact :
    (x y : ℕ) → x + y ≤ max_exact_cents → add (exact (pos x)) (exact (pos y)) ≡ exact (pos (x + y))
add_exact x y h =
    add-eq-from_cents (exact (pos x)) (exact (pos y))
    ∙ rw (cents-exact (pos x) (omega (arith, h)), cents-exact (pos y) (omega (arith, h)))
        (ap from_cents (sum x y))
    ∙ from_cents-in_range (pos (x + y)) (omega (arith, h))
  where
    sum : (x y : ℕ) → pos x +ℤ pos y ≡ pos (x + y)
    sum x y = eq_of_parts _ _ (omega int_laws)

-- The worth of a row in the parts that `classifyAccountBalance` gives.
worth_parts :
    (user : ℕ) (a : Account) → owned user a ≡ true → worth user a ≡ pos (held a) -ℤ pos (owed a)
worth_parts user a h = elim (Bool-cases (is_debt_account a.type)) [
  | inl e ↦ rw (h, e) (eq_of_parts _ _ (omega int_laws))
  | inr e ↦ rw (h, e) (eq_of_parts _ _ (omega int_laws))
]

held-owed : (a : Account) → held a + owed a ≡ abs_ℕ a.current_balance
held-owed a = ground arith

regroup :
    (x y h o : ℕ) (w r : ℤ)
    → w ≡ pos h -ℤ pos o
    → (pos (x + h) -ℤ pos (y + o)) +ℤ r ≡ (pos x -ℤ pos y) +ℤ (w +ℤ r)
regroup x y h o w r e = eq_of_parts _ _ (omega (int_laws, ap pos_part e, ap neg_part e))

sum_up-parts :
    (user : ℕ) (accounts : List Account) (x y : ℕ)
    → all_scan accounts ≡ true
    → All (λ a. owned user a ≡ true) accounts
    → x + y + magnitude accounts ≤ max_exact_cents
    → (h : ℕ) × (o : ℕ) × (sum_up accounts (exact (pos x)) (exact (pos y))
        ≡ (exact (pos h), exact (pos o)))
      × (h + o ≤ max_exact_cents)
      × (pos h -ℤ pos o ≡ (pos x -ℤ pos y) +ℤ sum_rows (worth user) accounts)
unfolding sum_up all_scan magnitude sum_rows
sum_up-parts user [] x y s own fits =
    (x, y, refl, omega (arith, fits), eq_of_parts _ _ (omega int_laws))
sum_up-parts user (a ∷ accounts) x y s own fits =
    let (mine, rest) : (account_scans a ≡ true) × (all_scan accounts ≡ true) =
      (ground arith, ground arith) in
    let parts = held-owed a in
    let (h, o, sums, small, total) =
      sum_up-parts user accounts (x + held a) (y + owed a) rest own.1
        (omega (arith, fits, parts)) in
    (
      h,
      o,
      step a (from_cents a.current_balance) accounts x y
            (classify_at a.type a.current_balance (scans-InRange a mine)
              ∙ split (is_debt_account a.type) a.current_balance)
            (add_exact x (held a) (omega (arith, fits, parts)))
            (add_exact y (owed a) (omega (arith, fits, parts)))
          ∙ sums,
      small,
      total
          ∙ regroup x y (held a) (owed a) (worth user a) (sum_rows (worth user) accounts)
              (worth_parts user a own.0),
    )
  where
    split :
        (debt : Bool) (b : ℤ)
        → ◌≡◌ {A = Amount × Amount}
            (if debt
              then (exact (pos (neg_part b)), exact (pos (pos_part b)))
              else (exact (pos (pos_part b)), exact (pos (neg_part b))))
            (
              exact (pos (if debt then neg_part b else pos_part b)),
              exact (pos (if debt then pos_part b else neg_part b)),
            )
    split true b = refl
    split false b = refl

    step :
        (a : Account) (balance : Amount) (accounts : List Account) (x y : ℕ)
        → classify_account_balance a.type balance ≡ (exact (pos (held a)), exact (pos (owed a)))
        → add (exact (pos x)) (exact (pos (held a))) ≡ exact (pos (x + held a))
        → add (exact (pos y)) (exact (pos (owed a))) ≡ exact (pos (y + owed a))
        → sum_up accounts
            (add (exact (pos x)) (classify_account_balance a.type balance).0)
            (add (exact (pos y)) (classify_account_balance a.type balance).1)
          ≡ sum_up accounts (exact (pos (x + held a))) (exact (pos (y + owed a)))
    step a balance accounts x y e f g = rw (e, f, g) refl

keep_first :
    (p : Account → Bool) (a : Account) (rest : List Account)
    → p a ≡ true
    → keep_if p (a ∷ rest) ≡ a ∷ keep_if p rest
keep_first p a rest h = rw h refl

drop_first :
    (p : Account → Bool) (a : Account) (rest : List Account)
    → p a ≡ false
    → keep_if p (a ∷ rest) ≡ keep_if p rest
drop_first p a rest h = rw h refl

worth_nothing : (user : ℕ) (a : Account) → owned user a ≡ false → worth user a ≡ pos 0
worth_nothing user a h = rw h refl

worth-owned :
    (user : ℕ) (accounts : List Account)
    → sum_rows (worth user) (keep_if (owned user) accounts) ≡ sum_rows (worth user) accounts
unfolding sum_rows
worth-owned user [] = refl
worth-owned user (a ∷ accounts) = elim (Bool-cases (owned user a)) [
  | inl e ↦
      ap (sum_rows (worth user)) (keep_first (owned user) a accounts e)
      ∙ ap (λ (w : ℤ). worth user a +ℤ w) (worth-owned user accounts)
  | inr e ↦
      ap (sum_rows (worth user)) (drop_first (owned user) a accounts e)
      ∙ worth-owned user accounts
      ∙ add_nothing (sum_rows (worth user) accounts) (worth user a) (worth_nothing user a e)
]
  where
    add_nothing : (s w : ℤ) → w ≡ pos 0 → s ≡ w +ℤ s
    add_nothing s w e = eq_of_parts _ _ (omega (int_laws, ap pos_part e, ap neg_part e))

summary_of : {s t : AccountSummary} → ok s ≡ ok t → s ≡ t
summary_of h = cc

one_part : (a : ℤ) → (pos_part a ≡ 0) ⊎ (neg_part a ≡ 0)
one_part (pos n) = inr refl
one_part (negsuc n) = inl refl

-- What a summary says of a net worth.
abbrev Stands : ℤ → AccountSummary → Type 0
Stands w s =
    (s.net_assets ≡ exact w)
    × (neg_part (cents s.total_assets) ≡ 0)
    × (neg_part (cents s.total_liabilities) ≡ 0)
    × (cents s.total_assets -ℤ cents s.total_liabilities ≡ w)

difference :
    (x y : ℕ) (w : ℤ)
    → x + y ≤ max_exact_cents
    → pos x -ℤ pos y ≡ w
    → Stands w (record {
      total_assets = exact (pos x);
      total_liabilities = exact (pos y);
      net_assets = sub (exact (pos x)) (exact (pos y));
    })
difference x y w small net =
    let cx = cents-exact (pos x) (omega (arith, small)) in
    let cy = cents-exact (pos y) (omega (arith, small)) in
    let inside : InRange (pos x -ℤ pos y) = omega (int_laws, small, one_part (pos x -ℤ pos y)) in
    (
      sub-eq-from_cents (exact (pos x)) (exact (pos y))
          ∙ rw (cx, cy) (from_cents-in_range (pos x -ℤ pos y) inside)
          ∙ ap exact net,
      ap neg_part cx,
      ap neg_part cy,
      rw (cx, cy) net,
    )

-- The summary's net assets are the net worth of the user, and the difference of its assets and its
-- liabilities, neither of them negative; as long as the magnitudes of the user's balances sum up to no
-- more than an exact amount.
pub get_summary-net_worth :
    (db : Db) (user : ℕ) {s : AccountSummary}
    → get_summary db user ≡ ok s
    → magnitude (keep_if (owned user) db.accounts) ≤ max_exact_cents
    → (s.net_assets ≡ exact (net_worth user db))
      × (neg_part (cents s.total_assets) ≡ 0)
      × (neg_part (cents s.total_liabilities) ≡ 0)
      × (cents s.total_assets -ℤ cents s.total_liabilities ≡ net_worth user db)
unfolding get_summary net_worth
get_summary-net_worth db user {s = s} h fits =
    let accounts = keep_if (owned user) db.accounts in
    let (_, scans, h1) = >>=-eq-ok (guard (all_scan accounts) invalid_money) _ h in
    let (x, y, sums, small, total) =
      sum_up-parts user accounts 0 0 (ground arith) (keep_if-All (owned user) db.accounts)
        (omega (arith, fits)) in
    let net : pos x -ℤ pos y ≡ sum_rows (worth user) db.accounts =
      total ∙ from_zero _ ∙ worth-owned user db.accounts in
    let e : record {
      total_assets = exact (pos x);
      total_liabilities = exact (pos y);
      net_assets = sub (exact (pos x)) (exact (pos y));
    }
        ≡ s =
      ap (λ (p : Amount × Amount). summary_record p) (sym sums) ∙ summary_of h1 in
    subst (Stands (sum_rows (worth user) db.accounts)) e (difference x y _ small net)
  where
    from_zero : (w : ℤ) → (pos 0 -ℤ pos 0) +ℤ w ≡ w
    from_zero w = eq_of_parts _ _ (omega int_laws)

    summary_record : Amount × Amount → AccountSummary
    summary_record p = record {
      total_assets = p.0;
      total_liabilities = p.1;
      net_assets = sub p.0 p.1;
    }
