-- ===== src/Payment/Traffic.antt =====
-- What the payment module is asked to do: every use case of
-- app_base/modules/payment/application/services.py and wallet_service.py that writes, each in its
-- own transaction (`get_session` of app_base/core/database.py), with what comes from outside.
use diddi_go_backend.Base.{ℕ, Option, List, [], ◌∷◌, String}
use diddi_go_backend.Base.Int.{ℤ}
use diddi_go_backend.Wallet.Entities.{Db}
use diddi_go_backend.Wallet.Session.{run_request}
use diddi_go_backend.Wallet.Service.{Settings, Externals, Request, serve}
use diddi_go_backend.Payment.Settlement.{Fresh}
use diddi_go_backend.Payment.Debts.{request_debt_cash, confirm_debt_cash}
use diddi_go_backend.Payment.Cash.{confirm_cash}
use diddi_go_backend.Payment.Prepare.{
  IntentAnswer, PaymentRequest, Texts, prepare_payment, prepare_debt_payment,
}
use diddi_go_backend.Payment.Webhook.{CallbackSettings, Delivery, apply_diddipay_webhook}
use diddi_go_backend.Payment.Sweep.{
  Sources, reconcile_pending, reconcile_transaction, reconcile_topup,
}
use diddi_go_backend.Payment.Recharge.{CodeDraws, create_topup, request_withdrawal_verification}

pub record Setup : Type 0 where
  pub settings : Settings
  pub ext : Externals
  pub texts : Texts
  pub callbacks : CallbackSettings

pub data Traffic : Type 0 where
  withdrawal : Request → Traffic
  code : CodeDraws → (user destination : ℕ) → String → Traffic
  recharge : Fresh → (id now user : ℕ) → ℤ → (method email : String) → IntentAnswer → Traffic
  payment : (id now : ℕ) → PaymentRequest → IntentAnswer → Traffic
  cash : Fresh → (id now ride_id collected_by : ℕ) → ℤ → Traffic
  debt_payment : (id now debt_id user : ℕ) → (email phone : Option String) → IntentAnswer → Traffic
  debt_cash : (now debt_id user : ℕ) → Traffic
  debt_settled : (now debt_id driver_id : ℕ) → Traffic
  callback : Fresh → ℕ → Delivery → Traffic
  sweep : Sources → (now limit created_before created_after : ℕ) → Traffic
  repair_payment : Sources → (now ride_id : ℕ) → Traffic
  repair_topup : Sources → (now topup_id : ℕ) → Traffic

-- The tables after one of them, and after a sequence of them.
unfoldable pub handle : Setup → Traffic → Db → Db
handle s (Traffic.withdrawal r) db = serve s.settings s.ext r db
handle s (Traffic.code d user destination phone) db =
    (run_request (request_withdrawal_verification s.ext d user destination phone) db).1
handle s (Traffic.recharge fresh i now user amount method email answer) db =
    (run_request (create_topup s.ext fresh i now user amount method email answer) db).1
handle s (Traffic.payment i now r answer) db =
    (run_request (prepare_payment s.ext s.texts i now r answer) db).1
handle s (Traffic.cash fresh i now ride by amount) db =
    (run_request (confirm_cash fresh i now ride by amount) db).1
handle s (Traffic.debt_payment i now debt user email phone answer) db =
    (run_request (prepare_debt_payment s.ext s.texts i now debt user email phone answer) db).1
handle s (Traffic.debt_cash now debt user) db = (run_request (request_debt_cash now debt user) db).1
handle s (Traffic.debt_settled now debt driver) db =
    (run_request (confirm_debt_cash now debt driver) db).1
handle s (Traffic.callback fresh now r) db =
    (run_request (apply_diddipay_webhook s.callbacks fresh now r) db).1
handle s (Traffic.sweep src now limit before after) db =
    (run_request (reconcile_pending s.ext s.texts src now limit before after) db).1
handle s (Traffic.repair_payment src now ride) db =
    (run_request (reconcile_transaction s.ext s.texts src now ride) db).1
handle s (Traffic.repair_topup src now topup) db =
    (run_request (reconcile_topup s.ext s.texts src now topup) db).1

unfoldable pub handle_all : Setup → List Traffic → Db → Db
handle_all s [] db = db
handle_all s (x ∷ xs) db = handle_all s xs (handle s x db)
