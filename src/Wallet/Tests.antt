-- ===== src/Wallet/Tests.antt =====
-- A driver's wallet with one withdrawal under way, one quote to use and one code to enter, and
-- the wallet's theorems on it.
use Prim.Native.String.{◌++◌ as text_append}
use diddi_go_backend.Base.{
  Bool-cases, ◌==◌, inl, inr, ◌≡◌, refl, none, some, List, [], ◌∷◌, map, arith, String,
}
use diddi_go_backend.Base.Int.{pos, ◌+ℤ◌, ◌-ℤ◌}
use diddi_go_backend.Wallet.Entities.{
  DriverAccount, DriverWallet, DriverLedgerEntry, DriverWithdrawal, DriverWithdrawalQuote,
  DriverWithdrawalVerification, Db, credit, debit, topup, withdrawal_reserved, WalletEntryStatus,
  WithdrawalStatus,
}
use diddi_go_backend.Wallet.Session.{ok}
use diddi_go_backend.Wallet.Ledger.{record_ledger_entry_once}
use diddi_go_backend.Wallet.Reserve.{reserve_withdrawal_from_quote}
use diddi_go_backend.Wallet.Provider.{ProviderState, mark_withdrawal_provider_state}
use diddi_go_backend.Wallet.Service.{
  Settings, Externals, WithdrawalRequest, Draws, Answer, client_error, serve_all,
}
use diddi_go_backend.Wallet.Custody.{IsSound}
use diddi_go_backend.Wallet.Totals.{total_balance}
use diddi_go_backend.Wallet.Once.{record_once}
use diddi_go_backend.Wallet.Balance.{record_ledger_entry_once-IsBalanced}
use diddi_go_backend.Wallet.Payout.{mark-IsSound}
use diddi_go_backend.Wallet.Reservation.{reserve-IsSound}
use diddi_go_backend.Wallet.Conservation.{reserve_conserves, mark_conserves, paid_out}
use diddi_go_backend.Wallet.Settled.{Records, mark-Records, first_answer_stands}
use diddi_go_backend.Wallet.Guesses.{Guess, guess, wrong_codes_forgotten}
use diddi_go_backend.Wallet.Balance.{IsBalanced, ledger_balance}

abbrev amadou : DriverAccount
amadou = record { id = 1; user_id = 10 }

abbrev purse : DriverWallet
purse = record { id = 20; driver_id = 1; balance = pos 500000; currency = "XOF"; updated_at = 0 }

abbrev paid_in : DriverLedgerEntry
paid_in = record {
  id = 30;
  driver_id = 1;
  amount = pos 600000;
  currency = "XOF";
  direction = credit;
  entry_type = topup;
  status = WalletEntryStatus.confirmed;
  reference_type = "driver_topup";
  reference_id = 2;
  description = none;
  created_at = some 0;
}

abbrev set_aside : DriverLedgerEntry
set_aside = record {
  id = 31;
  driver_id = 1;
  amount = pos 100000;
  currency = "XOF";
  direction = debit;
  entry_type = withdrawal_reserved;
  status = WalletEntryStatus.confirmed;
  reference_type = "driver_withdrawal";
  reference_id = 7;
  description = none;
  created_at = some 0;
}

abbrev under_way : DriverWithdrawal
under_way = record {
  id = 7;
  driver_id = 1;
  quote_id = 3;
  amount = pos 100000;
  fees = pos 10000;
  net_amount = pos 90000;
  beneficiary_reference = "wave:1";
  beneficiary_destination = some 4;
  status = WithdrawalStatus.reserved;
  currency = "XOF";
  payout_id = none;
  business_reference = some "diddigo:driver_withdrawal:7";
  idempotency_key = some "diddigo:driver_withdrawal:7:v1";
  provider_status = none;
  failure_code = none;
  failure_message = none;
  created_at = some 0;
  reserved_at = some 0;
  succeeded_at = none;
  released_at = none;
  updated_at = some 0;
}

abbrev offered : DriverWithdrawalQuote
offered = record {
  id = 8;
  driver_id = 1;
  amount = pos 200000;
  fees = pos 10000;
  net_amount = pos 190000;
  currency = "XOF";
  expires_at = 900;
  consumed_at = none;
  created_at = some 0;
}

abbrev code_sent : DriverWithdrawalVerification
code_sent = record {
  id = 9;
  driver_id = 1;
  beneficiary_destination = 4;
  recipient_phone = "+225";
  code_hash = "hash of 123456";
  expires_at = 900;
  attempt_count = 0;
  consumed_at = none;
  created_at = some 0;
}

abbrev pub tables : Db
tables = record {
  drivers = amadou ∷ [];
  wallets = purse ∷ [];
  ledger = paid_in ∷ set_aside ∷ [];
  topups = [];
  quotes = offered ∷ [];
  verifications = code_sent ∷ [];
  withdrawals = under_way ∷ [];
  transactions = [];
  debts = [];
  events = [];
  rides = [];
}

tables-IsBalanced : IsBalanced tables
unfolding ledger_balance ◌+ℤ◌ ◌-ℤ◌
tables-IsBalanced d = elim (Bool-cases (1 == d)) [ inl h ↦ rw h refl | inr h ↦ rw h refl ]

pub tables-IsSound : IsSound tables
tables-IsSound = record {
  balanced = tables-IsBalanced;
  given_back = λ i h. ground arith;
  walleted = λ i. ground arith;
}

-- A top-up, twice, the second time with another identifier and amount.
abbrev bonus : DriverLedgerEntry
bonus = record paid_in { id = 32; reference_id = 5 }

abbrev bonus_again : DriverLedgerEntry
bonus_again = record paid_in { id = 33; reference_id = 5; amount = pos 1 }

record_ledger_entry_once-IsBalanced_example :
    IsBalanced (record_ledger_entry_once 21 50 bonus tables).1
record_ledger_entry_once-IsBalanced_example =
    record_ledger_entry_once-IsBalanced 21 50 bonus tables refl tables-IsBalanced

record_once_example :
    let db' = (record_ledger_entry_once 21 50 bonus tables).1 in
    record_ledger_entry_once 22 60 bonus_again db' ≡ (ok none, db')
record_once_example =
    record_once 21 50 22 60 bonus bonus_again tables
      (record { same_driver = refl; same_type = refl; same_kind = refl; same_target = refl })

-- A withdrawal from the quote that is open.
abbrev asked : DriverWithdrawal
asked = record under_way {
  id = 11;
  quote_id = 8;
  amount = pos 0;
  fees = pos 0;
  net_amount = pos 0;
  idempotency_key = some "diddigo:driver_withdrawal:11:v1";
}

reserve-IsSound_example : IsSound (reserve_withdrawal_from_quote 21 40 100 asked tables).1
reserve-IsSound_example = reserve-IsSound 21 40 100 asked tables tables-IsSound

reserve_conserves_example :
    total_balance 1 (reserve_withdrawal_from_quote 21 40 100 asked tables).1
    ≡ total_balance 1 tables
reserve_conserves_example = reserve_conserves 1 21 40 100 asked tables

abbrev paid : ProviderState
paid = record {
  status = WithdrawalStatus.succeeded;
  payout_id = some 77;
  provider_status = some "succeeded";
  failure_code = none;
  failure_message = none;
}

abbrev refused : ProviderState
refused = record {
  status = WithdrawalStatus.failed;
  payout_id = some 77;
  provider_status = some "failed";
  failure_code = some "NO_ACCOUNT";
  failure_message = none;
}

mark-IsSound_example : IsSound (mark_withdrawal_provider_state 41 200 7 refused tables).1
mark-IsSound_example = mark-IsSound 41 200 7 refused tables tables-IsSound

mark_conserves_example :
    total_balance 1 (mark_withdrawal_provider_state 41 200 7 paid tables).1
      +ℤ paid_out 1 WithdrawalStatus.succeeded under_way
    ≡ total_balance 1 tables
mark_conserves_example =
    mark_conserves 1 41 200 7 paid tables under_way tables-IsSound refl refl refl

mark-Records_example :
    Records 7 WithdrawalStatus.released (mark_withdrawal_provider_state 41 200 7 refused tables)
mark-Records_example = mark-Records 41 200 7 refused tables under_way tables-IsSound refl refl refl

first_answer_stands_example :
    let (r, db') = mark_withdrawal_provider_state 41 200 7 refused tables in
    mark_withdrawal_provider_state 42 300 7 paid db' ≡ (r, db')
first_answer_stands_example =
    first_answer_stands 41 200 7 42 300 refused paid tables under_way tables-IsSound refl refl refl
      refl

abbrev pub configured : Settings
configured = record {
  driver_withdrawal_min_amount_xof = 500;
  driver_withdrawal_fee_xof = 100;
  driver_withdrawal_quote_ttl_seconds = 900;
  driver_withdrawal_otp_max_attempts = 5;
}

-- Stand-ins that a test can compute.
abbrev hash_of : String → String
hash_of code = text_append "hash of " code

abbrev pub python : Externals
python = record { sha256_hex = hash_of; strip = λ s. s; uuid_text = λ i. "7" }

abbrev drawn : Draws
drawn = record {
  withdrawal_id = 11;
  wallet_id = 21;
  reserve_entry_id = 40;
  settle_entry_id = 41;
  now = 100;
  later = 200;
}

abbrev order : String → WithdrawalRequest
order code = record {
  driver_user_id = 10;
  quote_id = 8;
  beneficiary_reference = "wave:1";
  beneficiary_destination = 4;
  verification_id = 9;
  verification_code = code;
  profile_phone = "+225";
}

abbrev provider_down : DriverWithdrawal → Answer
provider_down w = client_error 422 "PAYOUT_REFUSED" "refus"

abbrev guesses : List Guess
guesses =
    record { draws = drawn; request = order "000000"; provider = provider_down }
    ∷ record { draws = drawn; request = order "000001"; provider = provider_down }
    ∷ []

wrong_codes_forgotten_example : serve_all configured python (map guess guesses) tables ≡ tables
wrong_codes_forgotten_example = wrong_codes_forgotten configured python guesses tables refl
