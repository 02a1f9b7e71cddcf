-- ===== src/Payment/Settlement.antt =====
-- What a collected fare or a paid top-up posts to the ledger: `_record_ride_settlement`,
-- `_credit_driver_topup`, `_apply_transaction_status` and `_apply_topup_status` of
-- app_base/modules/payment/application/services.py.
use diddi_go_backend.Base.{ℕ, Bool, true, false, Option, none, some, String, if◌then◌else◌}
use diddi_go_backend.Base.Int.{ℤ}
use diddi_go_backend.Ride.Status as RideEnums
use diddi_go_backend.Ride.Entity.{Ride}
use diddi_go_backend.Wallet.Entities.{
  DriverLedgerEntry, DriverTopup, Transaction, PaymentStatus, TopupStatus, WalletEntryStatus,
  credit, debit, platform_commission, ride_payout, topup,
}
use diddi_go_backend.Wallet.Session.{Action, pure, ask, call, ◌>>=◌, ◌>>◌}
use diddi_go_backend.Wallet.Ledger.{record_ledger_entry_once}
use diddi_go_backend.Payment.Transactions.{find_ride, mark_external_status}
use diddi_go_backend.Payment.Topups.{mark_topup_status}
use diddi_go_backend.Payment.Provider.{is_succeeded, is_collected, topup_succeeded}

-- The identifiers that a call may draw: of a ledger entry, and of a wallet.
pub record Fresh : Type 0 where
  pub entry_id : ℕ
  pub wallet_id : ℕ

-- `ride.payment_method.value == PaymentMethod.CASH.value`
abbrev pub pays_cash : RideEnums.PaymentMethod → Bool
pays_cash RideEnums.PaymentMethod.cash = true
pays_cash RideEnums.PaymentMethod.mobile_money = false

abbrev pub commission_entry : Fresh → (now driver_id : ℕ) → ℤ → Ride → DriverLedgerEntry
commission_entry fresh now driver_id commission ride = record {
  id = fresh.entry_id;
  driver_id = driver_id;
  amount = commission;
  currency = ride.currency;
  direction = debit;
  entry_type = platform_commission;
  status = WalletEntryStatus.confirmed;
  reference_type = "ride";
  reference_id = ride.id;
  description = some "Commission DiddiGo sur course cash";
  created_at = some now;
}

abbrev pub payout_entry : Fresh → (now driver_id : ℕ) → ℤ → Ride → DriverLedgerEntry
payout_entry fresh now driver_id payout ride = record {
  id = fresh.entry_id;
  driver_id = driver_id;
  amount = payout;
  currency = ride.currency;
  direction = credit;
  entry_type = ride_payout;
  status = WalletEntryStatus.confirmed;
  reference_type = "ride";
  reference_id = ride.id;
  description = some "Montant net chauffeur sur course digitale";
  created_at = some now;
}

-- The entry that a ride's payment posts, if any.
unfoldable pub settlement_entry : Fresh → ℕ → Ride → PaymentStatus → Option DriverLedgerEntry
settlement_entry fresh now ride status = elim ride.driver_id [
  | none ↦ none
  | some driver_id ↦ elim ride.platform_commission [
    | none ↦ none
    | some commission ↦ elim ride.driver_payout_estimate [
      | none ↦ none
      | some payout ↦
          if pays_cash ride.payment_method
          then if is_collected status
            then some (commission_entry fresh now driver_id commission ride)
            else none
          else if is_succeeded status
          then some (payout_entry fresh now driver_id payout ride)
          else none
    ]
  ]
]

unfoldable pub post : Fresh → ℕ → Option DriverLedgerEntry → Action (Unit {0})
post fresh now none = pure tt
post fresh now (some e) = do posted ← call (record_ledger_entry_once fresh.wallet_id now e); pure tt

-- `_record_ride_settlement`
unfoldable pub record_ride_settlement : Fresh → ℕ → Ride → PaymentStatus → Action (Unit {0})
record_ride_settlement fresh now ride status =
    post fresh now (settlement_entry fresh now ride status)

-- the same for the ride of a payment, if it is found
unfoldable pub settle_found : Fresh → ℕ → PaymentStatus → Option Ride → Action (Unit {0})
settle_found fresh now status none = pure tt
settle_found fresh now status (some ride) = record_ride_settlement fresh now ride status

-- `_apply_transaction_status`
unfoldable pub apply_transaction_status :
    Fresh
    → ℕ
    → Transaction
    → PaymentStatus
    → String
    → Option ℕ
    → Option (Option ℕ)
    → Action Transaction
apply_transaction_status fresh now payment status provider_status paid_at next_action = do
  t ← call (mark_external_status payment.id status provider_status paid_at next_action)
  ride ← ask (find_ride t.ride_id)
  settle_found fresh now t.status ride
  pure t

abbrev pub topup_entry : Fresh → ℕ → DriverTopup → DriverLedgerEntry
topup_entry fresh now t = record {
  id = fresh.entry_id;
  driver_id = t.driver_id;
  amount = t.amount;
  currency = t.currency;
  direction = credit;
  entry_type = topup;
  status = WalletEntryStatus.confirmed;
  reference_type = "driver_topup";
  reference_id = t.id;
  description = some "Recharge chauffeur confirmee";
  created_at = some now;
}

-- `credit_topup`, and `_credit_driver_topup` behind its test
unfoldable pub credit_topup : Fresh → ℕ → DriverTopup → Action (Unit {0})
credit_topup fresh now t =
    post fresh now (if topup_succeeded t.status then some (topup_entry fresh now t) else none)

-- `_apply_topup_status`
unfoldable pub apply_topup_status :
    Fresh
    → ℕ
    → DriverTopup
    → TopupStatus
    → String
    → Option ℕ
    → Option (Option ℕ)
    → Action DriverTopup
apply_topup_status fresh now row status provider_status paid_at next_action = do
  t ← call (mark_topup_status row.id status provider_status paid_at next_action)
  credit_topup fresh now t
  pure t
