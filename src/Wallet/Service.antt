-- ===== src/Wallet/Service.antt =====
-- The use cases of a withdrawal (app_base/modules/payment/application/wallet_service.py).
-- What the code takes from outside comes in as arguments: the identifiers that `uuid4` draws, the
-- moments, the answer of the payout provider. `Externals` has the functions of Python's libraries
-- that a result depends on. A use case returns the entity; its rendering as JSON is left out, and
-- so are the log lines.
mod Payouts
mod Withdraw
mod Serve
unfoldable pub use Payouts.*
unfoldable pub use Withdraw.*
unfoldable pub use Serve.*
