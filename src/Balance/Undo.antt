-- ===== src/Balance/Undo.antt =====
-- A transaction that was applied can be reverted, and then every account row is what it was.
use sky_personal_ledger.Base.{
  ℕ, ◌≡◌, refl, sym, ap, ◌∙◌, ◌≢◌, Bool, true, false, Option, none, if◌then◌else◌, ℤ, ◌+ℤ◌, neg_ℤ,
  int_laws, update_rows, Result, ok, ◌>>=◌,
}
use sky_personal_ledger.Money.{Amount, cents}
use sky_personal_ledger.Money.Exact.{neg_ℤ-neg_ℤ}
use sky_personal_ledger.Model.{Account, Transaction, Db, is_debt_account, log_rollback}
use sky_personal_ledger.Balance.Defs.{account_is, credit, apply_transaction_account_delta}
use sky_personal_ledger.Balance.Mutation.{InRange, signed, Credited, scans-InRange}
use sky_personal_ledger.Balance.Restore.{update_rows_back, update_rows_swap}
use sky_personal_ledger.Balance.Legs.{leg, found_after, count_after, scans_after, found_other}

-- `signed` of the opposite flow.
signed_neg : (r : Account) (c : ℤ) → signed r (neg_ℤ c) ≡ neg_ℤ (signed r c)
signed_neg r c = flip (is_debt_account r.type)
  where
    flip : (b : Bool) → (if b then neg_ℤ (neg_ℤ c) else neg_ℤ c) ≡ neg_ℤ (if b then neg_ℤ c else c)
    flip true = refl
    flip false = refl

undo_balance : (b d : ℤ) → b +ℤ d +ℤ neg_ℤ d ≡ b
undo_balance b d = omega int_laws

-- What a revert has to show for itself.
abbrev pub Restores : Db → Result Db → Type 0
Restores db r = (db' : Db) × (r ≡ ok db') × (db'.accounts ≡ db.accounts)

module _ (db mid : Db) (tx : Transaction) (acct : ℕ) (c : ℤ) (row : Account)
    (h : Credited db tx.user_id acct (signed row c) row mid) (fits : InRange tx.amount) where
  undo_fits :
      (flow : Amount)
      → cents flow ≡ neg_ℤ c
      → InRange (row.current_balance +ℤ signed row c +ℤ signed row (cents flow))
  undo_fits flow e =
      rw (e, signed_neg row c, undo_balance row.current_balance (signed row c))
        (scans-InRange row h.scans)

  pub undo_leg :
      (flow : Amount) (reminder lending : Option ℕ)
      → cents flow ≡ neg_ℤ c
      → Restores db
          (apply_transaction_account_delta mid tx acct log_rollback flow reminder lending true)
  undo_leg flow reminder lending e =
      let d = signed row c in
      let (db', runs, back) =
        leg mid tx.user_id acct (credit d row) (found_after db mid tx.user_id acct d row h)
          (count_after db mid tx.user_id acct d row h acct ∙ h.only)
          (scans_after db mid tx.user_id acct d row h) tx log_rollback flow reminder lending refl
          fits (undo_fits flow e) in
      (
        db',
        runs,
        back.accounts
            ∙ ap (λ (x : ℤ). update_rows (account_is acct tx.user_id) (credit x) mid.accounts)
                (ap (signed row) e ∙ signed_neg row c)
            ∙ ap (update_rows (account_is acct tx.user_id) (credit (neg_ℤ d))) h.accounts
            ∙ update_rows_back acct tx.user_id d db.accounts,
      )

module _ (db mid db' : Db) (tx : Transaction) (from to : ℕ) (c : ℤ) (out in' : Account)
    (sent : Credited db tx.user_id from (signed out (neg_ℤ c)) out mid)
    (received : Credited mid tx.user_id to (signed in' c) in' db') (distinct : to ≢ from)
    (fits : InRange tx.amount) where
  pub undo_transfer_legs :
      (back forth : Amount)
      → cents back ≡ c
      → cents forth ≡ neg_ℤ c
      → Restores db (
          apply_transaction_account_delta db' tx from log_rollback back none none true >>= λ d.
          apply_transaction_account_delta d tx to log_rollback forth none none true)
  undo_transfer_legs back forth eb ef =
      let u = tx.user_id in
      let d = signed out (neg_ℤ c) in
      let e = signed in' c in
      let (db2, runs, first) =
        leg db' u from (credit d out)
          (found_other mid db' u to e in' received from (credit d out) (λ p. distinct (sym p))
            (found_after db mid u from d out sent))
          (count_after mid db' u to e in' received from
            ∙ count_after db mid u from d out sent from
            ∙ sent.only)
          (scans_after db mid u from d out sent) tx log_rollback back none none refl fits
          (undo_fits db mid tx from (neg_ℤ c) out sent fits back (eb ∙ sym (neg_ℤ-neg_ℤ c))) in
      let (db3, runs', second) =
        leg db2 u to (credit e in')
          (found_other db' db2 u from _ (credit d out) first to (credit e in') distinct
            (found_after mid db' u to e in' received))
          (count_after db' db2 u from _ (credit d out) first to
            ∙ count_after mid db' u to e in' received to
            ∙ received.only)
          (scans_after mid db' u to e in' received) tx log_rollback forth none none refl fits
          (undo_fits mid db' tx to c in' received fits forth ef) in
      let d_back : signed out (cents back) ≡ neg_ℤ d =
        rw eb (sym (ap neg_ℤ (signed_neg out c) ∙ neg_ℤ-neg_ℤ (signed out c))) in
      let e_back : signed in' (cents forth) ≡ neg_ℤ e = rw ef (signed_neg in' c) in
      let p = account_is from u in
      let q = account_is to u in
      (
        db3,
        rw runs runs',
        second.accounts
            ∙ ap (λ (x : ℤ). update_rows q (credit x) db2.accounts) e_back
            ∙ ap (update_rows q (credit (neg_ℤ e))) (
                first.accounts
                ∙ ap (λ (x : ℤ). update_rows p (credit x) db'.accounts) d_back
                ∙ ap (update_rows p (credit (neg_ℤ d))) (
                    received.accounts
                    ∙ ap (update_rows q (credit e)) sent.accounts
                    ∙ update_rows_swap to u from e d db.accounts))
            ∙ ap (update_rows q (credit (neg_ℤ e)))
                (update_rows_back from u d (update_rows q (credit e) db.accounts))
            ∙ update_rows_back to u e db.accounts,
      )
