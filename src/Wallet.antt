-- ===== src/Wallet.antt =====
-- The driver wallet: balances, the ledger behind them, top-ups and withdrawals
-- (app_base/modules/payment). `Entities` has the rows, `Session` the transaction of a request,
-- `Ledger`, `Verification`, `Withdrawals`, `Reserve` and `Provider` the repository's methods, and
-- `Service` the use cases of a withdrawal. The other children prove what holds of them.
pub mod Entities
pub mod Session
pub mod Ledger
pub mod Verification
pub mod Withdrawals
pub mod Reserve
pub mod Callbacks
pub mod Provider
pub mod Balance
pub mod Once
pub mod Custody
pub mod Payout
pub mod Reservation
pub mod Totals
pub mod Conservation
pub mod Settled
pub mod Service
pub mod Closed
pub mod Sound
pub mod Grown
pub mod Heard
pub mod Requests
pub mod Guesses
pub mod Tests
