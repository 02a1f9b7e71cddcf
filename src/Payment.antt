-- ===== src/Payment.antt =====
-- The collection of fares (app_base/modules/payment): ride payments in cash and through the
-- provider, the debts of passengers, top-ups of drivers, the provider's callbacks and the sweep
-- that reads again what no callback told. `Transactions`, `Debts` and `Topups` have the methods of
-- the repository, the others the use cases; the proofs are in modules of their own.
pub mod Transactions
pub mod Debts
pub mod Topups
pub mod Provider
pub mod Settlement
pub mod Cash
pub mod Prepare
pub mod Webhook
pub mod Sweep
pub mod Recharge
pub mod Kept
pub mod Traffic
pub mod Fallback
pub mod Pages
pub mod Tally
pub mod Posted
pub mod Invariant
pub mod Delivered
mod Tests
