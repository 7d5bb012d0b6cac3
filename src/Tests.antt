-- ===== src/Tests.antt =====
-- Runs of the modelled code on concrete inputs, and the theorems at concrete inputs.
mod Data
mod Monies
mod Balances
mod Movements
mod Loans
mod Limits
mod Labels
mod Holdings
mod Debts
mod Copies
mod Credentials
mod Plans
mod Notices
