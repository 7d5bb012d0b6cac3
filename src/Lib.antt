-- ===== src/Lib.antt =====
-- A model of the money logic of the Personal Ledger server (backend/internal of the repository, in
-- Go): amounts, balances with their log, transactions, tags of transactions, lendings, accounts,
-- reminders of debts, budgets, scheduled notifications, rate limits, the automatic backup and the API
-- tokens.
--
-- The parts and their files, with paths under backend/internal:
--   Base           shared names: Boolean tests, integers, lists, tables of rows, results of calls that
--                  may fail with one of the services' errors
--   Money          money/money.go and `roundMoney` of service/money_precision.go: an amount is NaN or
--                  an exact number of cents; Money/Decimal is `CentsFromDecimalString`, `formatCents`
--   Model          model/models.go and model/account_types.go: the rows and the database that holds
--                  them
--   Balance        service/transaction_balance.go, `updateAccountBalanceForUserTx` of
--                  service/lending.go, `CreateWithDB` of repository/account_log.go. Balance/Defs has
--                  one account's mutation and log row, Balance/Locks the locks and the two directions
--                  of a transaction; the theorems are in the other children
--   Tags           `transactionTagNames`, `transactionTagNameDiff`, `uniqueSortedStrings` of
--                  service/transaction.go and the use counts of repository/tag.go
--   Transactions   service/transaction.go (Defs: `createWithTx`, `Update`; Delete: `deleteWithTx`,
--                  `DeleteBatch`) and service/transaction_rollback.go (Rollback)
--   Lendings       service/lending.go: `Create`, `RecordRepayment`, `Delete`
--   Categories     the categories that services find by name or create (service/account.go,
--                  service/reminder.go)
--   Accounts       service/account.go and repository/account.go: `Create` with its initial balance,
--                  `Delete`, `Archive`, `UpdateSortOrder`, `GetByID`, `GetSummary`
--   Reminders      service/reminder.go: Defs has `Create`, `Delete`, `Toggle` and the split of a
--                  payment, Payment has `RecordPayment`; Refund is about `revertReminderPaymentTx`
--   Budgets        service/budget.go and repository/budget.go: Defs has the setters and `Delete`, Lists
--                  has `List` and `GetSummary`
--   Notifications  service/notification_scheduler.go, repository/notification_log.go and
--                  service/local_date.go: Defs has the deliveries, Checks the loop over the users with
--                  its checks, Calendar the days until a payment is due
--   Backups        service/backup_scheduler.go: Defs has the settings, the test whether a backup is
--                  due and the run over the users, Retention has `cleanupOldBackups`
--   Tokens         authz/principal.go, service/api_token.go, repository/api_token.go
--   RateLimit      middleware/rate_limiter.go: the login limiter and the global limiter
--   Tests          the definitions and the theorems at concrete inputs
--
-- How the parts interact: a service operation is a function from the database to a result; an error
-- discards the state, as gorm's Transaction rolls back. A creation applies the balance changes of its
-- row and counts its tags; an update reverts the old row and applies the new one; a deletion reverts
-- the row and takes back what a linked reminder or lending was paid. Every one of them goes through
-- `apply_account_balance_mutation`, which logs the account's balance before and after and then adds to
-- it. A debt account holds what is owed, so that its balance moves against the cash. The log row is
-- what refuses a balance out of the exact range: the update itself does not test it.
--
-- What stands for what: an identifier is a number and 0 is the empty text; a new uuid is an argument
-- (`id`, `tx`, `fresh`); a time or a date is a number, and the text of a date is the instant that it
-- parses to, or none. A money column is its number of cents. A table is a list of rows in the order in
-- which they are found; `deleted` is gorm's soft deletion. A row lock is the test that the row is
-- there, since the operations run one at a time. A row that is read whole has its money columns pass
-- `Scan`. A name is a number in the order of the texts.
--
-- The bounds: an amount is exact up to 2^53 - 1 cents, as in the source, and integers of the model are
-- unbounded where the source has tested that its int64 do not wrap. The exchange sort of the retention
-- is given the number of files as fuel, one for each round of its outer loop.
--
-- What is given from outside: the text functions of Go's library, JSON, SHA-256, the expiry dates,
-- the files of the backup, the system table of the settings and the sending of messages are arguments of
-- the definitions that use them, with what the code relies on as hypotheses of the theorems; calls of
-- these that may fail say whether they do, round for round for the deliveries and file for file for the
-- backup, and so do the writes of API tokens and what the notification checks read. All other queries
-- and writes fail for no other reason than a row that they do not find.
--
-- Not modelled: attachments and images, remarks, names and colours (only copied); float64 amounts
-- that are no whole number of cents; white space beyond ASCII; JSON of amounts; queries and
-- statistics; the updates of accounts and reminders that change describing columns only; users and
-- their sessions; import, restore, uploads, the channels of notifications, reports, handlers (input and output, or
-- third-party code); goroutines and tickers.
pub mod Base
pub mod Money
pub mod Model
pub mod Balance
pub mod Tags
pub mod Transactions
pub mod Lendings
pub mod Categories
pub mod Accounts
pub mod Reminders
pub mod Budgets
pub mod Notifications
pub mod Backups
pub mod Tokens
pub mod RateLimit
pub mod Tests
