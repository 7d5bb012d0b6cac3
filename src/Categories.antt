-- ===== src/Categories.antt =====
-- The categories that services look up by name and create when they are missing
-- (`findOrCreateInitialBalanceCategoryTx` of service/account.go, `findOrCreateRepaymentCategoryTx` of
-- service/reminder.go).
use sky_personal_ledger.Base.{
  ℕ, ◌≡◌, refl, inl, inr, Bool, false, not, ◌&&◌, none, some, ◌∷◌, ◌==◌, Option-cases, find_row,
}
use sky_personal_ledger.Model.{TxType, eq_type, Category, Db}

-- The names of the two categories.
abbrev pub initial_balance_name : ℕ
initial_balance_name = 2

abbrev pub repayment_name : ℕ
repayment_name = 3

abbrev pub category_named : ℕ → TxType → ℕ → Category → Bool
category_named user type name c =
    c.user_id == user && (eq_type c.type type && (c.name == name && not c.deleted))

-- The id of the category, and the database with it; `fresh` is the new id.
unfoldable pub find_or_create_category : Db → ℕ → TxType → ℕ → ℕ → ℕ × Db
find_or_create_category db user type name fresh =
    elim (find_row (category_named user type name) db.categories) [
      | some c ↦ (c.id, db)
      | none ↦ (
        fresh,
        record db {
          categories =
              record { id = fresh; user_id = user; name = name; type = type; deleted = false }
              ∷ db.categories;
        },
      )
    ]

pub find_or_create_category-frame :
    (db : Db) (user : ℕ) (type : TxType) (name fresh : ℕ)
    → (find_or_create_category db user type name fresh).1
      ≡ record db { categories = (find_or_create_category db user type name fresh).1.categories }
unfolding find_or_create_category
find_or_create_category-frame db user type name fresh =
    elim (Option-cases (find_row (category_named user type name) db.categories)) [
      | inl e ↦ rw (find_or_create_category, e) refl
      | inr (a, e) ↦ rw (find_or_create_category, e) refl
    ]
