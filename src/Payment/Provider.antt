-- ===== src/Payment/Provider.antt =====
-- What the code reads in the provider's answers (app_base/modules/payment/application/services.py
-- and wallet_service.py): statuses, amounts, and whether an answer is about the same money.
use diddi_go_backend.Base.{
  ℕ, Bool, true, false, not, ◌&&◌, ◌||◌, Option, none, some, List, [], ◌∷◌, String, if◌then◌else◌,
  ◌==◌, str_eq,
}
use diddi_go_backend.Base.Int.{ℤ, eqb_ℤ}
use diddi_go_backend.Wallet.Entities.{PaymentStatus, TopupStatus}
use diddi_go_backend.Wallet.Session.{Result, ok, err, api_error}
use diddi_go_backend.Wallet.Service.{int_of}

-- The fields of a payment intent. `next_action` is that of its first attempt, if it is an object.
pub record Intent : Type 0 where
  pub id : Option ℕ
  pub amount : Option ℤ
  pub currency : Option String
  pub business_reference : Option String
  pub status : Option String
  pub next_action : Option ℕ

-- The values of `PaymentStatus`, and the constructor that each makes.
abbrev pub status_value : PaymentStatus → String
status_value PaymentStatus.pending = "pending"
status_value PaymentStatus.requires_action = "requires_action"
status_value PaymentStatus.processing = "processing"
status_value PaymentStatus.succeeded = "succeeded"
status_value PaymentStatus.failed = "failed"
status_value PaymentStatus.cancelled = "cancelled"
status_value PaymentStatus.partially_refunded = "partially_refunded"
status_value PaymentStatus.refunded = "refunded"
status_value PaymentStatus.collected = "collected"
status_value PaymentStatus.disputed = "disputed"

abbrev pub all_statuses : List PaymentStatus
all_statuses =
    PaymentStatus.pending ∷ PaymentStatus.requires_action ∷ PaymentStatus.processing
    ∷ PaymentStatus.succeeded ∷ PaymentStatus.failed ∷ PaymentStatus.cancelled
    ∷ PaymentStatus.partially_refunded ∷ PaymentStatus.refunded ∷ PaymentStatus.collected
    ∷ PaymentStatus.disputed ∷ []

abbrev pub first_named : String → List PaymentStatus → Option PaymentStatus
first_named name [] = none
first_named name (s ∷ ss) = if str_eq (status_value s) name then some s else first_named name ss

abbrev pub status_or_invalid : Option PaymentStatus → Result PaymentStatus
status_or_invalid none = err (api_error 422 "PAYMENT_STATUS_INVALID")
status_or_invalid (some s) = ok s

-- The `try` of `_payment_status_from_diddipay`: `PaymentStatus(text)`, or the 422 where that raises.
unfoldable pub parse_status : String → Result PaymentStatus
parse_status text = status_or_invalid (first_named text all_statuses)

-- `_payment_status_from_diddipay` of services.py; `normalize` is `str.strip` and `str.lower`.
unfoldable pub payment_status_from_diddipay : (String → String) → String → Result PaymentStatus
unfolding parse_status
payment_status_from_diddipay normalize status =
    let normalized = normalize status in
    if str_eq normalized "expired" || str_eq normalized "abandoned"
    then ok PaymentStatus.cancelled
    else parse_status normalized

-- `_payment_status_from_diddipay` of wallet_service.py
unfoldable pub topup_intent_status : String → Result PaymentStatus
unfolding parse_status
topup_intent_status status = parse_status (if str_eq status "" then "requires_action" else status)

-- `_topup_status_from_payment_status`
unfoldable pub topup_status_from_payment_status : PaymentStatus → TopupStatus
topup_status_from_payment_status PaymentStatus.pending = TopupStatus.pending
topup_status_from_payment_status PaymentStatus.requires_action = TopupStatus.requires_action
topup_status_from_payment_status PaymentStatus.processing = TopupStatus.processing
topup_status_from_payment_status PaymentStatus.succeeded = TopupStatus.succeeded
topup_status_from_payment_status PaymentStatus.failed = TopupStatus.failed
topup_status_from_payment_status PaymentStatus.cancelled = TopupStatus.cancelled
topup_status_from_payment_status _ = TopupStatus.failed

-- `status is PaymentStatus.SUCCEEDED` and the like
abbrev pub is_succeeded : PaymentStatus → Bool
is_succeeded PaymentStatus.succeeded = true
is_succeeded _ = false

abbrev pub is_collected : PaymentStatus → Bool
is_collected PaymentStatus.collected = true
is_collected _ = false

-- `status in {FAILED, CANCELLED}`
abbrev pub is_terminal_failure : PaymentStatus → Bool
is_terminal_failure PaymentStatus.failed = true
is_terminal_failure PaymentStatus.cancelled = true
is_terminal_failure _ = false

abbrev pub topup_succeeded : TopupStatus → Bool
topup_succeeded TopupStatus.succeeded = true
topup_succeeded _ = false

-- `status is payment.status`
abbrev pub same_status : PaymentStatus → PaymentStatus → Bool
same_status a b = str_eq (status_value a) (status_value b)

abbrev pub topup_place : TopupStatus → ℕ
topup_place TopupStatus.pending = 0
topup_place TopupStatus.requires_action = 1
topup_place TopupStatus.processing = 2
topup_place TopupStatus.succeeded = 3
topup_place TopupStatus.failed = 4
topup_place TopupStatus.cancelled = 5

abbrev pub same_topup_status : TopupStatus → TopupStatus → Bool
same_topup_status a b = topup_place a == topup_place b

abbrev pub same_action : Option ℕ → Option ℕ → Bool
same_action none none = true
same_action (some a) (some b) = a == b
same_action _ _ = false

-- `_intent_mismatch_reason`: whether there is a reason
abbrev pub amount_differs : ℤ → Option ℤ → Bool
amount_differs amount none = true
amount_differs amount (some a) = not (eqb_ℤ a (int_of amount))

abbrev pub currency_differs : String → Option String → Bool
currency_differs currency none = true
currency_differs currency (some c) = not (str_eq c currency)

-- `business_reference and intent.get(…) not in {None, business_reference}`
abbrev pub reference_differs : Option String → Option String → Bool
reference_differs none given = false
reference_differs (some r) none = false
reference_differs (some r) (some g) = not (str_eq r "") && not (str_eq g r)

unfoldable pub intent_mismatch : Intent → ℤ → String → Option String → Bool
intent_mismatch i amount currency business_reference =
    amount_differs amount i.amount
    || currency_differs currency i.currency
    || reference_differs business_reference i.business_reference
