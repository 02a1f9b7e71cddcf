-- ===== src/Payment/Invariant.antt =====
-- What holds of the tables under any traffic of the payment module.
use diddi_go_backend.Base.{List, [], ◌∷◌}
use diddi_go_backend.Wallet.Entities.{Db}
use diddi_go_backend.Base.Keeps.{run-Keeps}
use diddi_go_backend.Wallet.Closed.{Closed}
use diddi_go_backend.Wallet.Custody.{IsSound}
use diddi_go_backend.Wallet.Sound.{IsSound-Closed}
use diddi_go_backend.Wallet.Requests.{serve-kept}
use diddi_go_backend.Payment.Traffic.{Setup, Traffic, handle, handle_all}
use diddi_go_backend.Payment.Kept.Paid.{
  confirm_cash-Keeps, request_debt_cash-Keeps, confirm_debt_cash-Keeps, prepare_payment-Keeps,
  prepare_debt_payment-Keeps, create_topup-Keeps, request_code-Keeps,
}
use diddi_go_backend.Payment.Kept.Called.{webhook-Keeps}
use diddi_go_backend.Payment.Kept.Swept.{sweep-Keeps, repair_payment-Keeps, repair_topup-Keeps}

module _ {P : Db → Type 0} (closed : Closed P) (s : Setup) where
  pub handle-kept : (x : Traffic) (db : Db) → P db → P (handle s x db)
  unfolding handle
  handle-kept (Traffic.withdrawal r) db h = serve-kept closed s.settings s.ext r db h
  handle-kept (Traffic.code d user destination phone) db h =
      run-Keeps _ db (request_code-Keeps closed s.ext s.texts d user destination phone) h
  handle-kept (Traffic.recharge fresh i now user amount m email a) db h =
      run-Keeps _ db (create_topup-Keeps closed s.ext s.texts fresh i now user amount m email a) h
  handle-kept (Traffic.payment i now r a) db h =
      run-Keeps _ db (prepare_payment-Keeps closed s.ext s.texts i now r a) h
  handle-kept (Traffic.cash fresh i now ride by amount) db h =
      run-Keeps _ db (confirm_cash-Keeps closed fresh i now ride by amount) h
  handle-kept (Traffic.debt_payment i now debt user email phone a) db h =
      run-Keeps _ db (prepare_debt_payment-Keeps closed s.ext s.texts i now debt user email phone a)
        h
  handle-kept (Traffic.debt_cash now debt user) db h =
      run-Keeps _ db (request_debt_cash-Keeps closed now debt user) h
  handle-kept (Traffic.debt_settled now debt driver) db h =
      run-Keeps _ db (confirm_debt_cash-Keeps closed now debt driver) h
  handle-kept (Traffic.callback fresh now r) db h =
      run-Keeps _ db (webhook-Keeps closed s.callbacks fresh now r) h
  handle-kept (Traffic.sweep src now limit before after) db h =
      run-Keeps _ db (sweep-Keeps closed s.ext s.texts src now limit before after) h
  handle-kept (Traffic.repair_payment src now ride) db h =
      run-Keeps _ db (repair_payment-Keeps closed s.ext s.texts src now ride) h
  handle-kept (Traffic.repair_topup src now topup) db h =
      run-Keeps _ db (repair_topup-Keeps closed s.ext s.texts src now topup) h

  pub handle_all-kept : (xs : List Traffic) (db : Db) → P db → P (handle_all s xs db)
  unfolding handle_all
  handle_all-kept [] db h = h
  handle_all-kept (x ∷ xs) db h = handle_all-kept xs (handle s x db) (handle-kept x db h)

-- Whatever the payment module is asked to do (withdrawals, codes, top-ups, ride payments in cash
-- and through the provider, debts, callbacks, sweeps and repairs), in any order, with any answers
-- of the provider and any errors, tables that are sound stay so: every driver's balance is the
-- one that the ledger explains, money is given back only for a withdrawal that is marked as
-- released, and the driver of every withdrawal has a wallet.
pub handle_all-IsSound :
    (s : Setup) (xs : List Traffic) (db : Db) → IsSound db → IsSound (handle_all s xs db)
handle_all-IsSound s xs db h = handle_all-kept IsSound-Closed s xs db h
