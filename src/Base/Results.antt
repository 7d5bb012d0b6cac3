-- ===== src/Base/Results.antt =====
-- The results of fallible calls, with the sentinel errors of the Go services.
use mathlib.Core.Path.{◌≡◌, refl}
use mathlib.Core.Logic.{◌⊎◌, inl, inr}
use mathlib.Core.Bool.{Bool, true, false}
use mathlib.Core.Option.{Option, none, some}

pub data Error : Type 0 where
  invalid_money account_not_found account_has_balance transaction_not_found same_account : Error
  invalid_transaction_amount invalid_transaction_type category_not_found : Error
  category_type_mismatch family_member_not_found managed_transaction_immutable : Error
  system_transaction_immutable lending_not_found invalid_amount already_settled : Error
  concurrent_balance_update lending_overpayment reminder_not_found payment_not_positive : Error
  payment_split_negative payment_split_mismatch payment_exceeds_balance invalid_date : Error
  unsafe_field_update record_not_found : Error
  linked_debt_balance_immutable auto_backup_settings_invalid invalid_token : Error
  token_expired invalid_token_scopes invalid_token_name invalid_token_expiry : Error
  token_not_found budget_not_found storage_failed : Error

-- The value of a call beside a nil error, or the error.
pub data Result {ℓ} (A : Type ℓ) : Type ℓ where
  err : Error → Result A
  ok : A → Result A

-- `gorm.ErrRecordNotFound` turned into the service's own error.
abbrev pub or_error {ℓ} : {A : Type ℓ} → Option A → Error → Result A
or_error none e = err e
or_error (some a) e = ok a

-- `if !test { return err }`
abbrev pub guard : Bool → Error → Result (Unit {0})
guard false failure = err failure
guard true _ = ok tt

infixl 5 ◌>>=◌ ◌>>◌
-- `if err != nil { return err }` after a call: the rest runs on its value.
abbrev pub ◌>>=◌ {ℓ₁ ℓ₂} :
    {Value : Type ℓ₁} {Next : Type ℓ₂} → Result Value → (Value → Result Next) → Result Next
err failure >>= rest = err failure
ok value >>= rest = rest value

-- A successful sequence: its first call succeeded, and the rest did on its value.
pub >>=-eq-ok {ℓ₁ ℓ₂} :
    {Value : Type ℓ₁} {Next : Type ℓ₂} (call : Result Value) (rest : Value → Result Next)
    {last : Next}
    → (call >>= rest) ≡ ok last
    → (value : Value) × (call ≡ ok value) × (rest value ≡ ok last)
>>=-eq-ok (err failure) rest done = cc
>>=-eq-ok (ok value) rest done = (value, refl, done)

abbrev pub ◌>>◌ {ℓ₁} : {Next : Type ℓ₁} → Result (Unit {0}) → Result Next → Result Next
test >> rest = test >>= (λ (_ : Unit {0}). rest)

pub or_error-eq-ok {ℓ} :
    {A : Type ℓ} (o : Option A) (e : Error) {a : A} → or_error o e ≡ ok a → o ≡ some a
or_error-eq-ok none e h = cc
or_error-eq-ok (some b) e h = cc

pub Result-cases {ℓ} :
    {A : Type ℓ} (r : Result A) → ((e : Error) × (r ≡ err e)) ⊎ ((a : A) × (r ≡ ok a))
Result-cases (err e) = inl (e, refl)
Result-cases (ok a) = inr (a, refl)
