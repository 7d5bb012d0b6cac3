-- ===== src/Balance/LockOrder.antt =====
-- The locks are taken in ascending order of account, each once; and an account that was there to
-- lock is there after a credit.
use sky_personal_ledger.Base.{
  ℕ, suc, ◌≤◌, ◌≡◌, refl, ◌∙◌, inl, inr, Bool, true, false, not, ◌&&◌, ◌||◌, Option, none, some,
  List, [], ◌∷◌, arith, ◌==◌, if◌then◌else◌, Bool-cases, Option-cases, ℤ, find_row,
  find_row-update_rows, ok, or_error, >>=-eq-ok, or_error-eq-ok,
}
use sky_personal_ledger.Base.{account_not_found}
use sky_personal_ledger.Model.{Account, Transaction, transfer, eq_type, Db}
use sky_personal_ledger.Balance.Defs.{account_is, credit, present}
use sky_personal_ledger.Balance.Locks.{
  balance_account_ids, put_owner, put_owners, collect_owners, lock_order, lock_all,
}
use sky_personal_ledger.Balance.Mutation.{Credited}

-- Every key is above `n`, and they ascend.
abbrev pub Ascends : ℕ → List (ℕ × ℕ) → Type 0
Ascends n [] = Unit
Ascends n ((a, _) ∷ rest) = (n ≤ a) × Ascends (suc a) rest

abbrev pub IsAscending : List (ℕ × ℕ) → Type 0
IsAscending owners = Ascends 0 owners

put_owner-Ascends :
    (n acct user : ℕ) (owners : List (ℕ × ℕ))
    → n ≤ acct
    → Ascends n owners
    → Ascends n (put_owner acct user owners)
unfolding put_owner
put_owner-Ascends n acct user [] h o = (h, tt)
put_owner-Ascends n acct user ((a, u) ∷ rest) h o =
    ground (arith, put_owner-Ascends (suc a) acct user rest)

put_owners-IsAscending :
    (ids : List ℕ) (user : ℕ) (owners : List (ℕ × ℕ))
    → IsAscending owners
    → IsAscending (put_owners ids user owners)
unfolding put_owners
put_owners-IsAscending [] user owners o = o
put_owners-IsAscending (a ∷ ids) user owners o =
    put_owners-IsAscending ids user (put_owner a user owners)
      (put_owner-Ascends 0 a user owners (omega arith) o)

collect_owners-IsAscending :
    (txs : List Transaction) (owners : List (ℕ × ℕ))
    → IsAscending owners
    → IsAscending (collect_owners txs owners)
unfolding collect_owners
collect_owners-IsAscending [] owners o = o
collect_owners-IsAscending (tx ∷ txs) owners o =
    collect_owners-IsAscending txs _
      (put_owners-IsAscending (balance_account_ids tx) tx.user_id owners o)

-- An account is among the locks.
pub has_lock : ℕ → List (ℕ × ℕ) → Bool
has_lock acct [] = false
has_lock acct ((a, _) ∷ rest) = a == acct || has_lock acct rest

abbrev mem_id : ℕ → List ℕ → Bool
mem_id a [] = false
mem_id a (b ∷ ids) = b == a || mem_id a ids

abbrev pub is_target : ℕ → Option ℕ → Bool
is_target acct none = false
is_target acct (some to) = not (to == 0) && to == acct

-- A transaction books on an account: on the one that it names, and a transfer on its target too.
abbrev pub books_on : ℕ → Transaction → Bool
books_on acct tx =
    not (tx.account_id == 0)
    && (tx.account_id == acct || (eq_type tx.type transfer && is_target acct tx.to_account_id))

pub needs_lock : ℕ → List Transaction → Bool
needs_lock acct [] = false
needs_lock acct (tx ∷ txs) = books_on acct tx || needs_lock acct txs

mem_id-balance_account_ids :
    (acct : ℕ) (tx : Transaction) → mem_id acct (balance_account_ids tx) ≡ books_on acct tx
unfolding balance_account_ids present
mem_id-balance_account_ids acct tx = elim (Option-cases tx.to_account_id) [
  | inl e ↦ rw e (elim (Bool-cases (eq_type tx.type transfer)) [
    | inl t ↦ rw t (alone acct tx.account_id)
    | inr t ↦ rw t (alone acct tx.account_id)
  ])
  | inr (to, e) ↦ rw e (elim (Bool-cases (eq_type tx.type transfer)) [
    | inl t ↦ rw t (ground arith)
    | inr t ↦ rw t (alone acct tx.account_id)
  ])
]
  where
    alone :
        (acct a : ℕ)
        → mem_id acct (if a == 0 then [] else a ∷ []) ≡ (not (a == 0) && (a == acct || false))
    alone acct a = ground arith

has_lock-put_owner :
    (b acct user : ℕ) (owners : List (ℕ × ℕ))
    → has_lock b (put_owner acct user owners) ≡ (acct == b || has_lock b owners)
unfolding has_lock put_owner
has_lock-put_owner b acct user [] = refl
has_lock-put_owner b acct user ((a, u) ∷ rest) = ground (arith, has_lock-put_owner b acct user rest)

has_lock-put_owners :
    (b : ℕ) (ids : List ℕ) (user : ℕ) (owners : List (ℕ × ℕ))
    → has_lock b (put_owners ids user owners) ≡ (mem_id b ids || has_lock b owners)
unfolding put_owners
has_lock-put_owners b [] user owners = refl
has_lock-put_owners b (a ∷ ids) user owners = ground (
  arith,
  has_lock-put_owners b ids user (put_owner a user owners),
  has_lock-put_owner b a user owners,
)

has_lock-collect_owners :
    (b : ℕ) (txs : List Transaction) (owners : List (ℕ × ℕ))
    → has_lock b (collect_owners txs owners) ≡ (needs_lock b txs || has_lock b owners)
unfolding collect_owners needs_lock
has_lock-collect_owners b [] owners = refl
has_lock-collect_owners b (tx ∷ txs) owners = ground (
  arith,
  has_lock-collect_owners b txs (put_owners (balance_account_ids tx) tx.user_id owners),
  has_lock-put_owners b (balance_account_ids tx) tx.user_id owners,
  mem_id-balance_account_ids b tx,
)

-- The accounts of some transactions are locked in strictly ascending order of their ids: the account
-- that one of them names, if it names any, the target of one that is a transfer, and no other.
pub lock_order-IsAscending :
    (txs : List Transaction)
    → IsAscending (lock_order txs)
      × ((acct : ℕ) → has_lock acct (lock_order txs) ≡ needs_lock acct txs)
unfolding lock_order has_lock
lock_order-IsAscending txs = (
  collect_owners-IsAscending txs [] tt,
  λ acct. has_lock-collect_owners acct txs [] ∙ or_false (needs_lock acct txs),
)
  where
    or_false : (b : Bool) → (b || false) ≡ b
    or_false true = refl
    or_false false = refl

pub lock_all-Credited :
    (db db' : Db) (user acct : ℕ) (d : ℤ) (row : Account) (owners : List (ℕ × ℕ))
    → Credited db user acct d row db'
    → lock_all db owners ≡ ok tt
    → lock_all db' owners ≡ ok tt
unfolding lock_all
lock_all-Credited db db' user acct d row [] h l = refl
lock_all-Credited db db' user acct d row ((a, u) ∷ rest) h l =
    let (r, f, l') =
      >>=-eq-ok (or_error (find_row (account_is a u) db.accounts) account_not_found) _ l in
    let ih = lock_all-Credited db db' user acct d row rest h l' in
    rw h.accounts (
      rw
        (find_row-update_rows (account_is acct user) (credit d) (account_is a u) db.accounts
          (λ x. refl))
        (rw (or_error-eq-ok _ account_not_found f) ih))

pub lock_all-same_accounts :
    (db db' : Db) (owners : List (ℕ × ℕ))
    → db'.accounts ≡ db.accounts
    → lock_all db owners ≡ ok tt
    → lock_all db' owners ≡ ok tt
unfolding lock_all
lock_all-same_accounts db db' [] e l = refl
lock_all-same_accounts db db' ((a, u) ∷ rest) e l =
    let (r, f, l') =
      >>=-eq-ok (or_error (find_row (account_is a u) db.accounts) account_not_found) _ l in
    rw e (rw (or_error-eq-ok _ account_not_found f) (lock_all-same_accounts db db' rest e l'))
