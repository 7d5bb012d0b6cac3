-- ===== src/Reminders/Reads.antt =====
-- The two accounts that a payment reads, whatever the order of their ids.
use sky_personal_ledger.Base.{
  ℕ, ◌≡◌, refl, sym, ap, ◌∙◌, inl, inr, false, some, List, [], ◌∷◌, arith, ltb, ◌==◌, Bool-cases,
  Result-cases, ok, ◌>>=◌, >>=-eq-ok,
}
use sky_personal_ledger.Model.{Account, Db}
use sky_personal_ledger.Balance.{read_account}
use sky_personal_ledger.Reminders.Payment.{payment_accounts, read_accounts, account_under}

-- The two accounts of a payment.
pub record Reads (db : Db) (user s k : ℕ) (rows : List (ℕ × Account)) : Type 0 where
  pub source : Account
  pub debt : Account
  pub read_source : read_account db s user ≡ ok source
  pub read_debt : read_account db k user ≡ ok debt
  pub at_source : account_under s rows ≡ some source
  pub at_debt : account_under k rows ≡ some debt

list_of : {A : Type 0} {a b : A} → ok a ≡ ok b → a ≡ b
list_of h = cc

first_under : (s k : ℕ) (x y : Account) → account_under s ((s, x) ∷ (k, y) ∷ []) ≡ some x
unfolding account_under
first_under s k x y = ground arith

second_under :
    (s k : ℕ) (x y : Account) → (s == k) ≡ false → account_under k ((s, x) ∷ (k, y) ∷ []) ≡ some y
unfolding account_under
second_under s k x y ne = ground (arith, ne)

read_pair :
    (db : Db) (user s k : ℕ) {rows : List (ℕ × Account)}
    → (read_account db s user >>= λ x. read_account db k user >>= λ y. ok ((s, x) ∷ (k, y) ∷ []))
      ≡ ok rows
    → (x y : Account) × (read_account db s user ≡ ok x)
      × (read_account db k user ≡ ok y)
      × ((s, x) ∷ (k, y) ∷ [] ≡ rows)
read_pair db user s k h =
    let (x, rx, h1) = >>=-eq-ok (read_account db s user) _ h in
    let (y, ry, h2) = >>=-eq-ok (read_account db k user) _ h1 in (x, y, rx, ry, list_of h2)

read_accounts-pair :
    (db : Db) (user s k : ℕ)
    → read_accounts db user (s ∷ k ∷ [])
      ≡ (read_account db s user >>= λ x. read_account db k user >>= λ y. ok ((s, x) ∷ (k, y) ∷ []))
unfolding read_accounts
read_accounts-pair db user s k = elim (Result-cases (read_account db s user)) [
  | inl (e, f) ↦ rw f refl
  | inr (x, f) ↦ elim (Result-cases (read_account db k user)) [
    | inl (e, g) ↦ rw (f, g) refl
    | inr (y, g) ↦ rw (f, g) refl
  ]
]

pub read_two :
    (db : Db) (user s k : ℕ) {rows : List (ℕ × Account)}
    → (s == k) ≡ false
    → read_accounts db user (payment_accounts (some s) (some k)) ≡ ok rows
    → Reads db user s k rows
unfolding payment_accounts
read_two db user s k ne h = elim (Bool-cases (ltb s k)) [
  | inl t ↦
      let (x, y, rx, ry, e) =
        read_pair db user s k (sym (read_accounts-pair db user s k) ∙ rw (ne, t) at h) in
      record {
        source = x;
        debt = y;
        read_source = rx;
        read_debt = ry;
        at_source = ap (account_under s) (sym e) ∙ first_under s k x y;
        at_debt = ap (account_under k) (sym e) ∙ second_under s k x y ne;
      }
  | inr t ↦
      let (y, x, ry, rx, e) =
        read_pair db user k s (sym (read_accounts-pair db user k s) ∙ rw (ne, t) at h) in
      record {
        source = x;
        debt = y;
        read_source = rx;
        read_debt = ry;
        at_source = ap (account_under s) (sym e) ∙ second_under k s y x (ground (arith, ne));
        at_debt = ap (account_under k) (sym e) ∙ first_under k s y x;
      }
]
