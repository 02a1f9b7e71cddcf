-- ===== src/Payment/Debts.antt =====
-- What passengers owe: the methods of app_base/modules/payment/infra/repositories.py on
-- `payment.passenger_debts`, and the use cases on them of
-- app_base/modules/payment/application/services.py but for the payment by mobile money.
use diddi_go_backend.Base.{
  ℕ, ◌+◌, ◌-◌, ◌*◌, ◌/◌, max, Bool, true, false, not, ◌||◌, Option, none, some, List, [], ◌∷◌, ◌++◌,
  if◌then◌else◌, ◌==◌, find, any, update, take, drop, length, or_else,
}
use diddi_go_backend.Base.Sort.{sort_by, reverse_sort_by}
use diddi_go_backend.Ride.Entity.{Ride}
use diddi_go_backend.Wallet.Entities.{
  Db, PassengerDebt, PassengerDebtStatus, settled, cash_pending_confirmation,
}
use diddi_go_backend.Wallet.Session.{
  ok, err, lookup_error, api_error, integrity_error, Query, Action, pure, raise, raise_if, ask,
  call, ◌>>=◌, ◌>>◌,
}
use diddi_go_backend.Payment.Transactions.{find_ride, rows_where}

abbrev pub has_debt_id : ℕ → PassengerDebt → Bool
has_debt_id i d = d.id == i

abbrev pub is_settled : PassengerDebtStatus → Bool
is_settled settled = true
is_settled _ = false

abbrev pub awaits_cash : PassengerDebtStatus → Bool
awaits_cash cash_pending_confirmation = true
awaits_cash _ = false

-- `find_debt_by_id`, `find_debt_by_ride_id` (a unique column)
abbrev pub find_debt_by_id : ℕ → Db → Option PassengerDebt
find_debt_by_id i db = find (has_debt_id i) db.debts

abbrev pub find_debt_by_ride_id : ℕ → Db → Option PassengerDebt
find_debt_by_ride_id ride_id db = find (λ d. d.ride_id == ride_id) db.debts

abbrev pub head : {A : Type 0} → List A → Option A
head [] = none
head (x ∷ xs) = some x

abbrev pub debts_of : ℕ → Db → List PassengerDebt
debts_of user_id db = rows_where (λ d. d.passenger_user_id == user_id) db.debts

-- `find_open_debt_for_passenger`: the oldest
unfoldable pub find_open_debt_for_passenger : ℕ → Db → Option PassengerDebt
find_open_debt_for_passenger user_id db = head (
    sort_by (λ d. or_else d.created_at 0)
      (rows_where (λ d. not (is_settled d.status)) (debts_of user_id db)))

-- `.offset((page - 1) * page_size).limit(page_size)`
abbrev pub page_of : {A : Type 0} → (page page_size : ℕ) → List A → List A
page_of page page_size xs = take page_size (drop ((page - 1) * page_size) xs)

abbrev pub created : PassengerDebt → ℕ
created d = or_else d.created_at 0

-- `list_debts_for_passenger`: a page, the newest first, and how many there are. Among debts created
-- at one moment the order is that in which this query reads the rows, which is `scan`.
unfoldable pub list_debts_for_passenger :
    (scan : List PassengerDebt → List PassengerDebt)
    → (user_id page page_size : ℕ) → Db
    → List PassengerDebt × ℕ
list_debts_for_passenger scan user_id page page_size db = (
  page_of page page_size (reverse_sort_by created (scan (debts_of user_id db))),
  length (debts_of user_id db),
)

-- `total_pages` of `list_passenger_debts`
unfoldable pub total_pages : (total page_size : ℕ) → ℕ
total_pages total page_size = max 1 ((total + page_size - 1) / page_size)

-- `save_debt`
unfoldable pub save_debt : ℕ → PassengerDebt → Query PassengerDebt
save_debt now d db =
    let row = record d {
      created_at = some (or_else d.created_at now);
      updated_at = some (or_else d.updated_at now);
    } in
    if any (λ e. e.id == d.id || e.ride_id == d.ride_id) db.debts
    then (err integrity_error, db)
    else (ok row, record db { debts = db.debts ++ row ∷ [] })

-- The row after `update_debt_status`; a settlement has its moment and its collector.
abbrev pub with_status : ℕ → PassengerDebtStatus → Option (ℕ × ℕ) → PassengerDebt → PassengerDebt
with_status now status none d = record d { status = status; updated_at = some now }
with_status now status (some (at, by)) d = record d {
  status = status;
  updated_at = some now;
  settled_at = some at;
  settled_by = some by;
}

-- `update_debt_status`
unfoldable pub update_debt_status :
    (now debt_id : ℕ) → PassengerDebtStatus → Option (ℕ × ℕ) → Query PassengerDebt
update_debt_status now i status settlement db = elim (find_debt_by_id i db) [
  | none ↦ (err (lookup_error "No passenger debt"), db)
  | some d ↦ (
    ok (with_status now status settlement d),
    record db { debts = update (has_debt_id i) (with_status now status settlement) db.debts },
  )
]

-- `get_passenger_debt`, once the row is read
unfoldable pub debt_of_passenger : ℕ → Option PassengerDebt → Action PassengerDebt
debt_of_passenger user_id none = raise (api_error 404 "PASSENGER_DEBT_NOT_FOUND")
debt_of_passenger user_id (some d) = do
  raise_if (not (d.passenger_user_id == user_id)) (api_error 403 "RIDE_NOT_OWNED_BY_USER")
  pure d

-- `get_passenger_debt`
unfoldable pub get_passenger_debt : (debt_id user_id : ℕ) → Action PassengerDebt
get_passenger_debt debt_id user_id = do
  found ← ask (find_debt_by_id debt_id)
  debt_of_passenger user_id found

-- `_owned_open_debt`
unfoldable pub owned_open_debt : (debt_id user_id : ℕ) → Action PassengerDebt
owned_open_debt debt_id user_id = do
  d ← get_passenger_debt debt_id user_id
  raise_if (is_settled d.status) (api_error 409 "PASSENGER_DEBT_SETTLEMENT_INVALID")
  pure d

-- `request_passenger_debt_cash_settlement`
unfoldable pub request_debt_cash : (now debt_id user_id : ℕ) → Action PassengerDebt
request_debt_cash now debt_id user_id = do
  d ← owned_open_debt debt_id user_id
  call (update_debt_status now d.id cash_pending_confirmation none)

abbrev pub driven_by : ℕ → Option Ride → Bool
driven_by driver_id none = false
driven_by driver_id (some r) = elim r.driver_id [ none ↦ false | some d ↦ d == driver_id ]

-- `confirm_passenger_debt_cash_settlement`, once the row is read
unfoldable pub confirm_debt_row : (now driver_id : ℕ) → Option PassengerDebt → Action PassengerDebt
confirm_debt_row now driver_id none = raise (api_error 404 "PASSENGER_DEBT_NOT_FOUND")
confirm_debt_row now driver_id (some d) = do
  raise_if (not (awaits_cash d.status)) (api_error 409 "PASSENGER_DEBT_SETTLEMENT_INVALID")
  ride ← ask (find_ride d.ride_id)
  raise_if (not (driven_by driver_id ride)) (api_error 403 "RIDE_NOT_OWNED_BY_USER")
  call (update_debt_status now d.id settled (some (now, driver_id)))

-- `confirm_passenger_debt_cash_settlement`
unfoldable pub confirm_debt_cash : (now debt_id driver_id : ℕ) → Action PassengerDebt
confirm_debt_cash now debt_id driver_id = do
  found ← ask (find_debt_by_id debt_id)
  confirm_debt_row now driver_id found
