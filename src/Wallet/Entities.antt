-- ===== src/Wallet/Entities.antt =====
-- The entities of app_base/modules/payment/domain/entities.py and the tables that
-- app_base/modules/payment/infra/models.py keeps them in. Identifiers are numbers, amounts are
-- hundredths of a franc, moments are microseconds. The destination of a payout is a JSON object
-- that the code only compares: a number stands for its value.
use diddi_go_backend.Base.{ℕ, Bool, Option, List, String, ◌==◌}
use diddi_go_backend.Base.Int.{ℤ}
use diddi_go_backend.Ride.Entity.{Ride}

pub data PaymentStatus : Type 0 where
  pending requires_action processing succeeded failed cancelled : PaymentStatus
  partially_refunded refunded collected disputed : PaymentStatus

pub data PaymentMethod : Type 0 where
  cash mobile_money wave diddipay : PaymentMethod

pub data WalletEntryDirection : Type 0 where
  credit debit : WalletEntryDirection

pub data WalletEntryStatus : Type 0 where
  pending confirmed failed : WalletEntryStatus

pub data WalletEntryType : Type 0 where
  ride_payout platform_commission topup adjustment : WalletEntryType
  withdrawal_reserved withdrawal_succeeded withdrawal_released refund : WalletEntryType

pub data TopupStatus : Type 0 where
  pending requires_action processing succeeded failed cancelled : TopupStatus

pub data WithdrawalStatus : Type 0 where
  reserved processing succeeded failed released : WithdrawalStatus

-- Two members of an enumeration are equal when their places in it are.
abbrev pub entry_type_place : WalletEntryType → ℕ
entry_type_place ride_payout = 0
entry_type_place platform_commission = 1
entry_type_place topup = 2
entry_type_place adjustment = 3
entry_type_place withdrawal_reserved = 4
entry_type_place withdrawal_succeeded = 5
entry_type_place withdrawal_released = 6
entry_type_place refund = 7

abbrev pub entry_type_eq : WalletEntryType → WalletEntryType → Bool
entry_type_eq a b = entry_type_place a == entry_type_place b

pub record DriverWallet : Type 0 where
  pub id : ℕ
  pub driver_id : ℕ
  pub balance : ℤ
  pub currency : String
  pub updated_at : ℕ

pub record DriverLedgerEntry : Type 0 where
  pub id : ℕ
  pub driver_id : ℕ
  pub amount : ℤ
  pub currency : String
  pub direction : WalletEntryDirection
  pub entry_type : WalletEntryType
  pub status : WalletEntryStatus
  pub reference_type : String
  pub reference_id : ℕ
  pub description : Option String
  pub created_at : Option ℕ

pub record DriverTopup : Type 0 where
  pub id : ℕ
  pub driver_id : ℕ
  pub amount : ℤ
  pub currency : String
  pub method : PaymentMethod
  pub status : TopupStatus
  pub payment_intent_id : Option ℕ
  pub business_reference : Option String
  pub idempotency_key : Option String
  pub provider_status : Option String
  pub provider_next_action : Option ℕ
  pub created_at : Option ℕ
  pub paid_at : Option ℕ

pub record DriverWithdrawalQuote : Type 0 where
  pub id : ℕ
  pub driver_id : ℕ
  pub amount : ℤ
  pub fees : ℤ
  pub net_amount : ℤ
  pub currency : String
  pub expires_at : ℕ
  pub consumed_at : Option ℕ
  pub created_at : Option ℕ

pub record DriverWithdrawalVerification : Type 0 where
  pub id : ℕ
  pub driver_id : ℕ
  pub beneficiary_destination : ℕ
  pub recipient_phone : String
  pub code_hash : String
  pub expires_at : ℕ
  pub attempt_count : ℕ
  pub consumed_at : Option ℕ
  pub created_at : Option ℕ

pub record DriverWithdrawal : Type 0 where
  pub id : ℕ
  pub driver_id : ℕ
  pub quote_id : ℕ
  pub amount : ℤ
  pub fees : ℤ
  pub net_amount : ℤ
  pub beneficiary_reference : String
  pub beneficiary_destination : Option ℕ
  pub status : WithdrawalStatus
  pub currency : String
  pub payout_id : Option ℕ
  pub business_reference : Option String
  pub idempotency_key : Option String
  pub provider_status : Option String
  pub failure_code : Option String
  pub failure_message : Option String
  pub created_at : Option ℕ
  pub reserved_at : Option ℕ
  pub succeeded_at : Option ℕ
  pub released_at : Option ℕ
  pub updated_at : Option ℕ

pub data PassengerDebtStatus : Type 0 where
  open_debt mobile_money_pending cash_pending_confirmation settled : PassengerDebtStatus

-- The collection of a ride's fare, and what a passenger owes for one. The next action that the
-- provider asks for is a JSON object that the code hands on: a number stands for it.
pub record Transaction : Type 0 where
  pub id : ℕ
  pub ride_id : ℕ
  pub amount : ℤ
  pub currency : String
  pub method : PaymentMethod
  pub status : PaymentStatus
  pub collected_by : Option ℕ
  pub collected_at : Option ℕ
  pub created_at : Option ℕ
  pub payment_intent_id : Option ℕ
  pub business_reference : Option String
  pub idempotency_key : Option String
  pub provider_status : Option String
  pub provider_next_action : Option ℕ
  pub paid_at : Option ℕ

pub record PassengerDebt : Type 0 where
  pub id : ℕ
  pub passenger_user_id : ℕ
  pub ride_id : ℕ
  pub amount : ℤ
  pub status : PassengerDebtStatus
  pub currency : String
  pub reason : String
  pub created_at : Option ℕ
  pub updated_at : Option ℕ
  pub settled_at : Option ℕ
  pub settled_by : Option ℕ

-- A callback of the provider, as it is recorded.
pub record WebhookEvent : Type 0 where
  pub id : String
  pub payment_intent_id : Option ℕ
  pub event_type : String
  pub business_reference : Option String

-- The driver profile that a user has (`ride.driver_profiles`), as far as the wallet reads it.
pub record DriverAccount : Type 0 where
  pub id : ℕ
  pub user_id : ℕ

-- The tables that the wallet and the collection of fares read and write, with the rides.
pub record Db : Type 0 where
  pub drivers : List DriverAccount
  pub wallets : List DriverWallet
  pub ledger : List DriverLedgerEntry
  pub topups : List DriverTopup
  pub quotes : List DriverWithdrawalQuote
  pub verifications : List DriverWithdrawalVerification
  pub withdrawals : List DriverWithdrawal
  pub transactions : List Transaction
  pub debts : List PassengerDebt
  pub events : List WebhookEvent
  pub rides : List Ride
