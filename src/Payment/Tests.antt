-- ===== src/Payment/Tests.antt =====
-- A payment, a top-up and a withdrawal under way, and the theorems of the payment module on them.
use mathlib.Core.List.{Permᴰ}
use diddi_go_backend.Base.Sort.{reverse_sort_by}
use diddi_go_backend.Base.{ℕ, ◌≡◌, refl, false, true, none, some, List, [], ◌∷◌, arith, String}
use diddi_go_backend.Base.Int.{pos}
use diddi_go_backend.Ride.Status as RideEnums
use diddi_go_backend.Ride.Status.{completed}
use diddi_go_backend.Ride.Entity.{Ride}
use diddi_go_backend.Wallet.Entities.{
  Db, PassengerDebt, PassengerDebtStatus, DriverTopup, PaymentMethod, PaymentStatus, TopupStatus,
  Transaction,
}
use diddi_go_backend.Wallet.Session.{
  ok, Session, run_request, call, ask, lift, pure, raise_if, ◌>>=◌, ◌>>◌,
}
use diddi_go_backend.Wallet.Custody.{IsSound}
use diddi_go_backend.Wallet.Callbacks.{record_webhook_event}
use diddi_go_backend.Wallet.Ledger.{record_ledger_entry_once, get_or_create_wallet, post_entry}
use diddi_go_backend.Wallet.Tests.{tables, tables-IsSound, configured, python}
use diddi_go_backend.Payment.Settlement.{
  settlement_entry, record_ride_settlement, payout_entry, Fresh, post, credit_topup,
  apply_topup_status,
}
use diddi_go_backend.Payment.Topups.{
  find_topup_by_payment_intent_id, mark_topup_status, list_stale_topups,
}
use diddi_go_backend.Payment.Transactions.{
  find_by_payment_intent_id, list_stale_transactions, find_ride,
}
use diddi_go_backend.Payment.Provider.{
  parse_status, payment_status_from_diddipay, topup_status_from_payment_status,
}
use diddi_go_backend.Payment.Prepare.{Texts}
use diddi_go_backend.Payment.Cash.{confirm_cash}
use diddi_go_backend.Payment.Webhook.{
  Callback, CallbackData, CallbackSettings, Delivery, duplicate, processed, apply_to_topup,
  apply_intent, apply_event, apply_new, read_field, readable, empty_field, apply_once,
  apply_content, apply_callback, apply_diddipay_webhook,
}
use diddi_go_backend.Payment.Sweep.{
  Report, Sources, absent, failed, reconcile_pending, for_each, reconcile_transaction_row,
  compare_transaction, reconcile_topup_row, compare_topup, reconcile_withdrawal_row,
  compare_withdrawal, list_stale_withdrawals,
}
use diddi_go_backend.Payment.Traffic.{Setup, Traffic, handle, handle_all}
use diddi_go_backend.Payment.Invariant.{handle_all-IsSound}
use diddi_go_backend.Payment.Delivered.{IsGenuine, delivered_once}
use diddi_go_backend.Payment.Fallback.{HasSameBooks, fallback_posts_nothing}
use diddi_go_backend.Payment.Debts.{created, debts_of, list_debts_for_passenger, total_pages}
use diddi_go_backend.Payment.Pages.{read_debts, pages_cover_debts}
use diddi_go_backend.Payment.Posted.{HasSameMoney, settled_once}
use diddi_go_backend.Payment.Tally.{IsAccounted, sweep_accounts}

-- A ride that was to be paid by mobile money.
abbrev finished_ride : Ride
finished_ride = record {
  id = 70;
  passenger_user_id = 11;
  status = completed;
  vehicle_category = RideEnums.VehicleCategory.standard;
  comfort_level = RideEnums.ComfortLevel.standard;
  is_review_account = false;
  pickup_location = none;
  requested_at = some 0;
  matched_at = some 1;
  arrived_at = some 2;
  started_at = some 3;
  completed_at = some 4;
  cancelled_at = none;
  estimated_fare = some (pos 250000);
  final_fare = some (pos 250000);
  currency = "XOF";
  driver_payout_estimate = some (pos 200000);
  platform_commission = some (pos 50000);
  payment_method = RideEnums.PaymentMethod.mobile_money;
  driver_id = some 1;
  vehicle_id = some 2;
  status_history = [];
}

abbrev awaited : Transaction
awaited = record {
  id = 71;
  ride_id = 70;
  amount = pos 250000;
  currency = "XOF";
  method = PaymentMethod.mobile_money;
  status = PaymentStatus.requires_action;
  collected_by = none;
  collected_at = none;
  created_at = some 10;
  payment_intent_id = some 72;
  business_reference = some "diddigo:ride:70";
  idempotency_key = some "diddigo:ride:70:collection:v1";
  provider_status = some "requires_action";
  provider_next_action = none;
  paid_at = none;
}

abbrev topping_up : DriverTopup
topping_up = record {
  id = 60;
  driver_id = 1;
  amount = pos 100000;
  currency = "XOF";
  method = PaymentMethod.wave;
  status = TopupStatus.pending;
  payment_intent_id = some 50;
  business_reference = some "diddigo:driver_topup:60";
  idempotency_key = some "diddigo:driver_topup:60:v1";
  provider_status = some "pending";
  provider_next_action = none;
  created_at = some 20;
  paid_at = none;
}

abbrev books : Db
books = record tables {
  topups = topping_up ∷ [];
  transactions = awaited ∷ [];
  rides = finished_ride ∷ [];
}

books-IsSound : IsSound books
books-IsSound = record {
  balanced = tables-IsSound.balanced;
  given_back = tables-IsSound.given_back;
  walleted = tables-IsSound.walleted;
}

abbrev news : CallbackData
news = record {
  payment_intent_id = readable 50;
  payout_id = empty_field;
  amount = readable (pos 1000);
  currency = some "XOF";
  business_reference = some "diddigo:driver_topup:60";
  status = some "succeeded";
  failure_code = none;
  failure_message = none;
}

abbrev event : Callback
event = record { id = "evt_1"; event_type = "payment.succeeded"; content = some news }

-- Stand-ins that a test can compute.
abbrev same_text : String → String
same_text s = s

abbrev keyed : CallbackSettings
keyed = record {
  secret_configured = true;
  hmac_hex = λ body. "signature";
  json_loads = λ body. some event;
  normalize = same_text;
}

abbrev delivery : Delivery
delivery = record { raw_body = "{}"; event_id_header = some "evt_1"; signature = some "signature" }

abbrev texts_kept : Texts
texts_kept = record { normalize = same_text; digits = same_text }

abbrev setup : Setup
setup = record { settings = configured; ext = python; texts = texts_kept; callbacks = keyed }

abbrev ids : Fresh
ids = record { entry_id = 80; wallet_id = 81 }

-- A provider that knows no intent and does not answer about payouts.
abbrev silent : Sources
silent = record { get_payment_intent = λ i. absent; get_payout = λ w. failed; fresh = λ i. ids }

abbrev evening : List Traffic
evening =
    Traffic.sweep silent 300 10 250 0
    ∷ Traffic.cash ids 90 400 70 10 (pos 250000)
    ∷ Traffic.callback ids 500 delivery
    ∷ []

handle_all-IsSound_example : IsSound (handle_all setup evening books)
handle_all-IsSound_example = handle_all-IsSound setup evening books books-IsSound

is_genuine : IsGenuine keyed delivery event news
unfolding read_field
is_genuine = record {
  configured = refl;
  signed = refl;
  body = refl;
  named = refl;
  content = refl;
  intent = (some 50, refl);
}

delivered_once_example :
    let later = handle_all setup evening (handle setup (Traffic.callback ids 200 delivery) books) in
    run_request (apply_diddipay_webhook keyed ids 600 delivery) later ≡ (ok duplicate, later)
unfolding apply_diddipay_webhook apply_callback apply_content apply_once apply_new apply_event
    read_field apply_intent apply_to_topup apply_topup_status credit_topup post
    record_ledger_entry_once get_or_create_wallet post_entry mark_topup_status record_webhook_event
    payment_status_from_diddipay parse_status topup_status_from_payment_status
    find_by_payment_intent_id find_topup_by_payment_intent_id run_request call ask lift pure
    raise_if ◌>>=◌ ◌>>◌
delivered_once_example =
    delivered_once setup ids ids 200 600 delivery delivery event event news news evening books
      processed is_genuine is_genuine refl refl

abbrev other_ids : Fresh
other_ids = record { entry_id = 90; wallet_id = 91 }

settled_once_example :
    let settled =
      (run_request
        (record_ride_settlement ids 100 finished_ride PaymentStatus.succeeded)
        books).1 in
    let later = handle_all setup evening settled in
    HasSameMoney later
      (run_request
        (record_ride_settlement other_ids 700 finished_ride PaymentStatus.succeeded)
        later).1
unfolding settlement_entry
settled_once_example =
    settled_once setup ids other_ids 100 700 finished_ride finished_ride PaymentStatus.succeeded
      PaymentStatus.succeeded (payout_entry ids 100 1 (pos 200000) finished_ride) evening books refl
      refl refl refl

abbrev session : Session
session = record { committed = books; current = books }

abbrev outcome : Report
outcome = record {
  checked = 3;
  updated = 0;
  unchanged = 0;
  missing = 2;
  mismatched = 0;
  errors = 1;
  updated_references = [];
}

sweep_accounts_example : IsAccounted 10 outcome
unfolding reconcile_pending for_each reconcile_transaction_row compare_transaction
    reconcile_topup_row compare_topup reconcile_withdrawal_row compare_withdrawal
    list_stale_transactions list_stale_topups list_stale_withdrawals ask pure ◌>>=◌
sweep_accounts_example = sweep_accounts python texts_kept silent 300 10 250 0 session outcome refl

fallback_posts_nothing_example :
    HasSameBooks books (run_request (confirm_cash ids 90 400 70 10 (pos 250000)) books).1
unfolding find_ride
fallback_posts_nothing_example =
    fallback_posts_nothing ids 90 400 70 10 (pos 250000) books finished_ride refl refl

abbrev debt_of : ℕ → PassengerDebt
debt_of i = record {
  id = i;
  passenger_user_id = 11;
  ride_id = i;
  amount = pos 5000;
  status = PassengerDebtStatus.open_debt;
  currency = "XOF";
  reason = "late_cancellation";
  created_at = some i;
  updated_at = some i;
  settled_at = none;
  settled_by = none;
}

abbrev indebted : Db
indebted = record books { debts = debt_of 1 ∷ debt_of 2 ∷ debt_of 3 ∷ [] }

-- The rows in another order.
abbrev swapped : List PassengerDebt → List PassengerDebt
swapped (d ∷ e ∷ ds) = e ∷ d ∷ ds
swapped ds = ds

pages_cover_debts_example :
    let total = (list_debts_for_passenger swapped 11 1 2 indebted).1 in
    read_debts (λ page. swapped) 11 2 indebted (total_pages total 2) 1
    ≡ reverse_sort_by created (debts_of 11 indebted)
pages_cover_debts_example =
    pages_cover_debts (λ page. swapped) 11 2 indebted (λ page. Permᴰ.swap refl refl)
      ((omega arith, (omega arith, tt)), ((omega arith, tt), (tt, tt))) (omega arith)
