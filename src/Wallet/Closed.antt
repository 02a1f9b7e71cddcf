-- ===== src/Wallet/Closed.antt =====
-- What a property of the tables needs so that every use case keeps it: that the methods of
-- app_base/modules/payment/infra/repositories.py that write the wallets, the ledger, the
-- withdrawals and the callbacks do, and that it does not depend on the other tables.
use diddi_go_backend.Base.{ℕ, ◌≡◌, false, List, String}
use diddi_go_backend.Wallet.Entities.{
  Db, DriverLedgerEntry, DriverTopup, DriverWithdrawal, DriverWithdrawalQuote,
  DriverWithdrawalVerification, PassengerDebt, Transaction, WebhookEvent, entry_type_eq,
  withdrawal_released, withdrawal_succeeded,
}
use diddi_go_backend.Wallet.Ledger.{get_or_create_wallet, record_ledger_entry_once}
use diddi_go_backend.Wallet.Reserve.{reserve_withdrawal_from_quote}
use diddi_go_backend.Wallet.Provider.{ProviderState, mark_withdrawal_provider_state}
use diddi_go_backend.Wallet.Callbacks.{record_webhook_event}

-- The property does not depend on the tables that are not named above.
pub record Elsewhere (P : Db → Type 0) : Type 0 where
  pub others :
      (topups : List DriverTopup) (quotes : List DriverWithdrawalQuote)
      (verifications : List DriverWithdrawalVerification) (transactions : List Transaction)
      (debts : List PassengerDebt) (db : Db)
      → P db
      → P (record db {
        topups = topups;
        quotes = quotes;
        verifications = verifications;
        transactions = transactions;
        debts = debts;
      })

pub record Closed (P : Db → Type 0) : Type 0 where
  pub elsewhere : Elsewhere P
  pub create :
      (wallet_id now driver_id : ℕ) (currency : String) (db : Db)
      → P db
      → P (get_or_create_wallet wallet_id now driver_id currency db).1
  pub reserve :
      (wallet_id entry_id now : ℕ) (w : DriverWithdrawal) (db : Db)
      → P db
      → P (reserve_withdrawal_from_quote wallet_id entry_id now w db).1
  pub mark :
      (entry_id now i : ℕ) (p : ProviderState) (db : Db)
      → P db
      → P (mark_withdrawal_provider_state entry_id now i p db).1
  -- an entry of a type that no withdrawal posts
  pub post :
      (wallet_id now : ℕ) (e : DriverLedgerEntry) (db : Db)
      → entry_type_eq e.entry_type withdrawal_succeeded ≡ false
      → entry_type_eq e.entry_type withdrawal_released ≡ false
      → P db
      → P (record_ledger_entry_once wallet_id now e db).1
  pub recorded : (e : WebhookEvent) (db : Db) → P db → P (record_webhook_event e db).1
