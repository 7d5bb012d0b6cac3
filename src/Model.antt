-- ===== src/Model.antt =====
-- backend/internal/model: the rows of the ledger's tables, and the database that holds them.
--
-- Identifiers (uuid texts) are numbers and 0 is the empty text; user ids, times and dates are
-- numbers; a money column is its int64 of cents. `deleted` is gorm's soft deletion. Columns that
-- the modelled operations only copy (names, colours, remarks, images) are left out.
use sky_personal_ledger.Base.{ℕ, Bool, true, false, Option, List, ℤ}

pub data AccountType : Type 0 where
  cash bank_card alipay wechat credit loan mortgage car_loan consumer_loan : AccountType
  receivable payable savings investment fund stock crypto prepaid : AccountType
  qq_pay jd_pay apple_pay huabei baitiao other_account : AccountType

-- `IsDebtAccountType`
unfoldable pub is_debt_account : AccountType → Bool
is_debt_account credit = true
is_debt_account loan = true
is_debt_account mortgage = true
is_debt_account car_loan = true
is_debt_account consumer_loan = true
is_debt_account huabei = true
is_debt_account baitiao = true
is_debt_account payable = true
is_debt_account _ = false

-- `unknown_type` is any other text in the column.
pub data TxType : Type 0 where
  income expense transfer unknown_type : TxType

abbrev pub eq_type : TxType → TxType → Bool
eq_type income income = true
eq_type expense expense = true
eq_type transfer transfer = true
eq_type unknown_type unknown_type = true
eq_type _ _ = false

-- The source of a transaction after `normalizedTransactionSource`.
pub data Source : Type 0 where
  manual system from_lending from_reminder from_import other_source : Source

pub record Account : Type 0 where
  pub id : ℕ
  pub user_id : ℕ
  pub type : AccountType
  pub initial_balance : ℤ
  pub current_balance : ℤ
  pub total_paid : ℤ
  pub paid_off_at : Option ℕ
  pub is_archived : Bool
  pub sort_order : ℕ
  pub deleted : Bool

-- The Tags column as `transactionTagNames` reads it: blank, a JSON array (an item that is no text
-- is `none`), a JSON text, other JSON, or text that is no JSON, cut at the commas.
pub data TagText : Type 0 where
  blank other_json : TagText
  json_array : List (Option ℕ) → TagText
  json_text : ℕ → TagText
  plain : List ℕ → TagText

pub record Transaction : Type 0 where
  pub id : ℕ
  pub user_id : ℕ
  pub account_id : ℕ
  pub category_id : Option ℕ
  pub type : TxType
  pub amount : ℤ
  pub principal_amount : ℤ
  pub interest_amount : ℤ
  pub transaction_date : ℕ
  pub tags : TagText
  pub to_account_id : Option ℕ
  pub member_id : Option ℕ
  pub paid_by_member_id : Option ℕ
  pub source : Source
  pub reminder_id : Option ℕ
  pub lending_id : Option ℕ
  pub deleted : Bool

pub data LendingType : Type 0 where
  lend_out borrow_in : LendingType

pub record Lending : Type 0 where
  pub id : ℕ
  pub user_id : ℕ
  pub type : LendingType
  pub principal : ℤ
  pub current_balance : ℤ
  pub total_repaid : ℤ
  pub due_date : Option ℕ
  pub settled_at : Option ℕ
  pub account_id : Option ℕ
  pub is_settled : Bool
  pub deleted : Bool

pub record LendingRecord : Type 0 where
  pub id : ℕ
  pub lending_id : ℕ
  pub user_id : ℕ
  pub amount : ℤ
  pub record_date : ℕ
  pub account_id : Option ℕ
  pub transaction_id : Option ℕ
  pub deleted : Bool

pub record Reminder : Type 0 where
  pub id : ℕ
  pub user_id : ℕ
  pub account_id : Option ℕ
  pub principal : Option ℤ
  pub current_balance : Option ℤ
  pub total_paid : ℤ
  pub interest_paid : ℤ
  pub is_enabled : Bool
  pub paid_off_at : Option ℕ
  pub deleted : Bool

pub data LogType : Type 0 where
  log_income log_expense log_transfer_in log_transfer_out log_rollback log_adjustment : LogType

pub record AccountLog : Type 0 where
  pub user_id : ℕ
  pub account_id : ℕ
  pub type : LogType
  pub amount : ℤ
  pub balance_before : ℤ
  pub balance_after : ℤ
  pub transaction_id : Option ℕ
  pub reminder_id : Option ℕ
  pub lending_id : Option ℕ

-- A category's or family member's row, as far as ownership is checked.
pub record Category : Type 0 where
  pub id : ℕ
  pub user_id : ℕ
  pub name : ℕ
  pub type : TxType
  pub deleted : Bool

pub record FamilyMember : Type 0 where
  pub id : ℕ
  pub user_id : ℕ
  pub deleted : Bool

pub record Tag : Type 0 where
  pub user_id : ℕ
  pub name : ℕ
  pub used_count : ℕ
  pub deleted : Bool

pub record Db : Type 0 where
  pub accounts : List Account
  pub transactions : List Transaction
  pub lendings : List Lending
  pub lending_records : List LendingRecord
  pub reminders : List Reminder
  pub account_logs : List AccountLog
  pub categories : List Category
  pub members : List FamilyMember
  pub tags : List Tag
