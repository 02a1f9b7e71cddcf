-- ===== src/Wallet/Service/Serve.antt =====
-- `reconcile_withdrawal` of app_base/modules/payment/application/wallet_service.py, and the
-- requests about withdrawals in sequence.
use diddi_go_backend.Base.{ℕ, Option, none, some, List, [], ◌∷◌}
use diddi_go_backend.Base.Int.{ℤ}
use diddi_go_backend.Wallet.Entities.{Db, DriverWithdrawal}
use diddi_go_backend.Wallet.Session.{
  api_error, Action, pure, raise, commit, ask, ◌>>=◌, ◌>>◌, run_request,
}
use diddi_go_backend.Wallet.Withdrawals.{find_withdrawal}
use diddi_go_backend.Wallet.Service.Payouts.{
  Settings, Externals, Payout, Answer, apply_withdrawal_provider_payload,
}
use diddi_go_backend.Wallet.Service.Withdraw.{
  WithdrawalRequest, Draws, quote_withdrawal, request_withdrawal,
}

-- What `reconcile_withdrawal` does with the payout that the provider has, if any.
unfoldable pub apply_found :
    (entry_id now : ℕ) → DriverWithdrawal → Option Payout → Action DriverWithdrawal
apply_found entry_id now w none = pure w
apply_found entry_id now w (some p) = do
  w' ← apply_withdrawal_provider_payload entry_id now w p
  commit
  pure w'

unfoldable pub reconcile_found :
    (entry_id now : ℕ)
    → (DriverWithdrawal → Option Payout)
    → Option DriverWithdrawal
    → Action DriverWithdrawal
reconcile_found entry_id now provider none = raise (api_error 404 "WITHDRAWAL_NOT_FOUND")
reconcile_found entry_id now provider (some w) = apply_found entry_id now w (provider w)

-- `reconcile_withdrawal`, given what the provider has of a payout.
unfoldable pub reconcile_withdrawal :
    (entry_id now withdrawal_id : ℕ) → (DriverWithdrawal → Option Payout) → Action DriverWithdrawal
reconcile_withdrawal entry_id now withdrawal_id provider = do
  found ← ask (find_withdrawal withdrawal_id)
  reconcile_found entry_id now provider found

-- The requests of a driver, and of the job that polls the provider, with what comes from outside.
pub data Request : Type 0 where
  quote : (quote_id wallet_id now driver_user_id : ℕ) → ℤ → Request
  withdraw : Draws → WithdrawalRequest → (DriverWithdrawal → Answer) → Request
  reconcile : (entry_id now withdrawal_id : ℕ) → (DriverWithdrawal → Option Payout) → Request

-- The tables after a request, and after a sequence of them.
unfoldable pub serve : Settings → Externals → Request → Db → Db
serve cfg ext (Request.quote i wallet_id now user amount) db =
    (run_request (quote_withdrawal cfg ext i wallet_id now user amount) db).1
serve cfg ext (Request.withdraw d r provider) db =
    (run_request (request_withdrawal cfg ext d r provider) db).1
serve cfg ext (Request.reconcile entry_id now i provider) db =
    (run_request (reconcile_withdrawal entry_id now i provider) db).1

unfoldable pub serve_all : Settings → Externals → List Request → Db → Db
serve_all cfg ext [] db = db
serve_all cfg ext (r ∷ rs) db = serve_all cfg ext rs (serve cfg ext r db)
