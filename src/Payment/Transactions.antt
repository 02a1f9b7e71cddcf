-- ===== src/Payment/Transactions.antt =====
-- The rows of `payment.transactions`: the methods of app_base/modules/payment/infra/repositories.py
-- that read and write them.
use diddi_go_backend.Base.{
  ℕ, Bool, true, false, not, ◌&&◌, ◌||◌, Option, none, some, List, [], ◌∷◌, ◌++◌, String,
  if◌then◌else◌, ◌==◌, leb, find, any, update, take, is_some, or_else,
}
use diddi_go_backend.Base.Int.{ℤ}
use diddi_go_backend.Base.Sort.{sort_by}
use diddi_go_backend.Ride.Entity.{Ride}
use diddi_go_backend.Wallet.Entities.{Db, Transaction, PaymentStatus, PaymentMethod}
use diddi_go_backend.Wallet.Session.{
  Result, ok, err, lookup_error, integrity_error, multiple_results_found, Query,
}
use diddi_go_backend.Wallet.Withdrawals.{same_text, same_id}

abbrev pub has_transaction_id : ℕ → Transaction → Bool
has_transaction_id i t = t.id == i

abbrev pub is_payment_of : ℕ → Transaction → Bool
is_payment_of ride_id t = t.ride_id == ride_id

-- `scalar_one_or_none`
abbrev pub rows_where : {A : Type 0} → (A → Bool) → List A → List A
rows_where test [] = []
rows_where test (x ∷ xs) = if test x then x ∷ rows_where test xs else rows_where test xs

abbrev pub only_row : {A : Type 0} → List A → Result (Option A)
only_row [] = ok none
only_row (x ∷ []) = ok (some x)
only_row (x ∷ y ∷ xs) = err multiple_results_found

-- `find_by_ride_id`: no constraint makes the ride of a payment unique.
unfoldable pub find_by_ride_id : ℕ → Query (Option Transaction)
find_by_ride_id ride_id db = (only_row (rows_where (is_payment_of ride_id) db.transactions), db)

-- `find_by_payment_intent_id`, on a column that is unique
unfoldable pub find_by_payment_intent_id : ℕ → Db → Option Transaction
find_by_payment_intent_id intent_id db =
    find (λ t. same_id t.payment_intent_id (some intent_id)) db.transactions

-- `RideRepository.find_by_id`
unfoldable pub find_ride : ℕ → Db → Option Ride
find_ride i db = find (λ r. r.id == i) db.rides

-- A row that the constraints of `payment.transactions` do not let stand beside `t`.
abbrev pub payment_clashes : Transaction → Transaction → Bool
payment_clashes t row =
    row.id == t.id
    || same_id row.payment_intent_id t.payment_intent_id
    || same_text row.idempotency_key t.idempotency_key

-- `save`
unfoldable pub save : ℕ → Transaction → Query Transaction
save now t db = if any (payment_clashes t) db.transactions then (err integrity_error, db) else (
  ok t,
  record db {
    transactions =
        db.transactions ++ record t { created_at = some (or_else t.created_at now) } ∷ [];
  },
)

-- Another row that the unique columns do not let stand beside a row that is changed.
abbrev pub other_clashes : Transaction → Transaction → Bool
other_clashes t row =
    not (row.id == t.id)
    && (same_id row.payment_intent_id t.payment_intent_id
        || same_text row.idempotency_key t.idempotency_key)

-- A change to the row with an identifier, as `session.get` finds it.
unfoldable pub write_transaction : ℕ → (Transaction → Transaction) → Query Transaction
write_transaction i f db = elim (find (has_transaction_id i) db.transactions) [
  | none ↦ (err (lookup_error "No transaction"), db)
  | some row ↦ if any (other_clashes (f row)) db.transactions then (err integrity_error, db) else (
    ok (f row),
    record db { transactions = update (has_transaction_id i) f db.transactions },
  )
]

-- `update_collected`
unfoldable pub update_collected :
    (transaction_id collected_by : ℕ) → ℤ → (collected_at : ℕ) → Query Transaction
unfolding write_transaction
update_collected i collected_by amount collected_at = write_transaction i λ row. record row {
  collected_by = some collected_by;
  amount = amount;
  collected_at = some collected_at;
  method = PaymentMethod.cash;
  status = PaymentStatus.collected;
}

-- `prepare_cash_payment`
unfoldable pub prepare_cash_payment : ℕ → Query Transaction
unfolding write_transaction
prepare_cash_payment i = write_transaction i λ row. record row {
  method = PaymentMethod.cash;
  status = PaymentStatus.pending;
  payment_intent_id = none;
  business_reference = none;
  idempotency_key = none;
  provider_status = some "local";
  provider_next_action = none;
  paid_at = none;
}

-- The `next_action` of a call: none stands for `KEEP`.
abbrev pub next_or_kept : Option (Option ℕ) → Option ℕ → Option ℕ
next_or_kept none old = old
next_or_kept (some new) old = new

-- `if paid_at is not None: field = paid_at`
abbrev pub paid_or_kept : Option ℕ → Option ℕ → Option ℕ
paid_or_kept none old = old
paid_or_kept (some t) old = some t

-- `mark_external_status`
unfoldable pub mark_external_status :
    ℕ
    → PaymentStatus
    → String
    → (paid_at : Option ℕ) → (next_action : Option (Option ℕ)) → Query Transaction
unfolding write_transaction
mark_external_status i status provider_status paid_at next_action = write_transaction i λ row.
    record row {
      status = status;
      provider_status = some provider_status;
      paid_at = paid_or_kept paid_at row.paid_at;
      collected_at = paid_or_kept paid_at row.collected_at;
      provider_next_action = next_or_kept next_action row.provider_next_action;
    }

-- `replace_external_intent`
unfoldable pub replace_external_intent :
    (transaction_id payment_intent_id : ℕ)
    → (idempotency_key : String) → PaymentMethod
    → PaymentStatus
    → (provider_status : String) → Option ℕ
    → Query Transaction
unfolding write_transaction
replace_external_intent i intent_id key method status provider_status next_action =
    write_transaction i λ row. record row {
      payment_intent_id = some intent_id;
      idempotency_key = some key;
      method = method;
      status = status;
      provider_status = some provider_status;
      provider_next_action = next_action;
      paid_at = none;
      collected_at = none;
    }

-- `PENDING_PAYMENT_STATUSES`
abbrev pub is_pending_payment : PaymentStatus → Bool
is_pending_payment PaymentStatus.pending = true
is_pending_payment PaymentStatus.requires_action = true
is_pending_payment PaymentStatus.processing = true
is_pending_payment _ = false

abbrev pub within : (after before : ℕ) → Option ℕ → Bool
within after before none = false
within after before (some t) = leb t before && leb after t

-- `list_stale_transactions`
unfoldable pub list_stale_transactions :
    (created_before created_after limit : ℕ) → Db → List Transaction
list_stale_transactions before after limit db = take limit (
    sort_by (λ t. or_else t.created_at 0)
      (rows_where
        (λ t.
          is_some t.payment_intent_id
          && is_pending_payment t.status
          && within after before t.created_at)
        db.transactions))
