-- ===== src/Wallet/Session.antt =====
-- The transaction of a request on the tables of the wallet and of the payments.
use diddi_go_backend.Wallet.Entities.{Db}
use diddi_go_backend.Base.Transaction.{Transaction, Method, Task}
pub use diddi_go_backend.Base.Transaction.{
  Error, lookup_error, api_error, no_result_found, integrity_error, key_error,
  multiple_results_found, value_error, Result, ok, err,
}
unfoldable pub use diddi_go_backend.Base.Transaction.{
  pure, raise, call, lift, ask, handled, rethrow, finished, commit, followed, ◌>>=◌, ◌>>◌, raise_if,
  run_request,
}

-- A repository method.
abbrev pub Query : Type 0 → Type 0
Query A = Method Db A

abbrev pub Session : Type 0
Session = Transaction Db

-- A use case.
abbrev pub Action : Type 0 → Type 0
Action A = Task Db A
