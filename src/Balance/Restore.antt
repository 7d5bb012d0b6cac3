-- ===== src/Balance/Restore.antt =====
-- Crediting back what was credited gives the rows that were there.
use sky_personal_ledger.Base.{
  ℕ, ◌≡◌, refl, ap, ◌⊎◌, inl, inr, true, false, List, [], ◌∷◌, if◌then◌else◌, Bool-cases, ℤ, ◌+ℤ◌,
  neg_ℤ, int_laws, update_rows,
}
use mathlib.Core.Path.{ap₂}
use sky_personal_ledger.Model.{Account}
use sky_personal_ledger.Balance.Defs.{account_is, credit}

credit_back : (d : ℤ) (x : Account) → credit (neg_ℤ d) (credit d x) ≡ x
credit_back d x = ap (λ (c : ℤ). record x { current_balance = c }) (undo x.current_balance d)
  where
    undo : (b e : ℤ) → b +ℤ e +ℤ neg_ℤ e ≡ b
    undo b e = omega int_laws

credit_comm : (d e : ℤ) (x : Account) → credit d (credit e x) ≡ credit e (credit d x)
credit_comm d e x = ap (λ (c : ℤ). record x { current_balance = c }) (swap x.current_balance d e)
  where
    swap : (b p q : ℤ) → b +ℤ q +ℤ p ≡ b +ℤ p +ℤ q
    swap b p q = omega int_laws

module _ (acct user : ℕ) where
  pub update_rows_back :
      (d : ℤ) (xs : List Account)
      → update_rows
          (account_is acct user)
          (credit (neg_ℤ d))
          (update_rows (account_is acct user) (credit d) xs)
        ≡ xs
  unfolding update_rows
  update_rows_back d [] = refl
  update_rows_back d (x ∷ xs) = elim (Bool-cases (account_is acct user x)) [
    | inl e ↦ rw e (ap₂ ◌∷◌ (rw e (credit_back d x)) (update_rows_back d xs))
    | inr e ↦ rw e (rw e (ap (λ (r : List Account). x ∷ r) (update_rows_back d xs)))
  ]

  pub update_rows_swap :
      (other : ℕ) (d e : ℤ) (xs : List Account)
      → update_rows
          (account_is acct user)
          (credit d)
          (update_rows (account_is other user) (credit e) xs)
        ≡ update_rows
            (account_is other user)
            (credit e)
            (update_rows (account_is acct user) (credit d) xs)
  unfolding update_rows
  update_rows_swap other d e [] = refl
  update_rows_swap other d e (x ∷ xs) =
      ap₂ ◌∷◌
        (swap_row (Bool-cases (account_is acct user x)) (Bool-cases (account_is other user x)))
        (update_rows_swap other d e xs)
    where
      swap_row :
          (account_is acct user x ≡ true) ⊎ (account_is acct user x ≡ false)
          → (account_is other user x ≡ true) ⊎ (account_is other user x ≡ false)
          → (if account_is acct user (if account_is other user x then credit e x else x)
              then credit d (if account_is other user x then credit e x else x)
              else (if account_is other user x then credit e x else x))
            ≡ (if account_is other user (if account_is acct user x then credit d x else x)
                then credit e (if account_is acct user x then credit d x else x)
                else (if account_is acct user x then credit d x else x))
      swap_row (inl p) (inl q) = simp (p, q) (credit_comm d e x)
      swap_row (inl p) (inr q) = simp (p, q)
      swap_row (inr p) (inl q) = simp (p, q)
      swap_row (inr p) (inr q) = simp (p, q)
