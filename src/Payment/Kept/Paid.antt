-- ===== src/Payment/Kept/Paid.antt =====
-- Payments in cash and through the provider, the debts and the top-ups
-- (app_base/modules/payment/application/services.py and wallet_service.py) keep every property
-- that the repository's methods keep.
use diddi_go_backend.Base.{ℕ, Option, none, some, String}
use diddi_go_backend.Base.Int.{ℤ}
use diddi_go_backend.Ride.Entity.{Ride}
use diddi_go_backend.Wallet.Entities.{Db, PassengerDebt, PaymentMethod, Transaction}
use diddi_go_backend.Base.Keeps.{
  Keeps, bind-Keeps, then-Keeps, ask-Keeps, pure-Keeps, raise-Keeps, raise_if-Keeps, lift-Keeps,
  if-Keeps, commit-Keeps,
}
use diddi_go_backend.Wallet.Closed.{Closed}
use diddi_go_backend.Wallet.Service.{Externals}
use diddi_go_backend.Wallet.Requests.{require_id-Keeps, driver_id-Keeps}
use diddi_go_backend.Payment.Settlement.{Fresh}
use diddi_go_backend.Payment.Transactions.{
  update_collected, prepare_cash_payment, replace_external_intent,
}
use diddi_go_backend.Payment.Provider.{Intent}
use diddi_go_backend.Payment.Debts.{
  debt_of_passenger, get_passenger_debt, owned_open_debt, request_debt_cash, confirm_debt_row,
  confirm_debt_cash,
}
use diddi_go_backend.Payment.Cash.{
  payment_or_new, confirm_cash_of, confirm_cash, new_cash_payment, cash_instead, prepare_cash,
}
use diddi_go_backend.Payment.Prepare.{
  IntentAnswer, intent, refused, Texts, PaymentRequest, answered, keep_intent, pay_or_reuse,
  pay_amount, prepare_diddipay_of, prepare_diddipay, prepare_with, prepare_payment_of,
  prepare_payment, prepare_debt_payment,
}
use diddi_go_backend.Payment.Recharge.{
  CodeDraws, keep_topup, topup_with, create_topup, request_withdrawal_verification,
}
use diddi_go_backend.Payment.Kept.Rows.{
  find_by_ride_id-Keeps, save-Keeps, write_transaction-Keeps, update_debt_status-Keeps,
  save_topup-Keeps, save_verification-Keeps,
}
use diddi_go_backend.Payment.Kept.Settled.{record_ride_settlement-Keeps, credit_topup-Keeps}

module _ {P : Db → Type 0} (closed : Closed P) where
  payment_or_new-Keeps :
      (now : ℕ) (new : Transaction) (o : Option Transaction) → Keeps P (payment_or_new now new o)
  unfolding payment_or_new
  payment_or_new-Keeps now new none = save-Keeps closed.elsewhere now new
  payment_or_new-Keeps now new (some t) = pure-Keeps t

  confirm_cash_of-Keeps :
      (fresh : Fresh) (i now by : ℕ) (amount : ℤ) (o : Option Ride)
      → Keeps P (confirm_cash_of fresh i now by amount o)
  unfolding confirm_cash_of update_collected
  confirm_cash_of-Keeps fresh i now by amount none = raise-Keeps _ _
  confirm_cash_of-Keeps fresh i now by amount (some ride) = then-Keeps (raise_if-Keeps _ _) (
      then-Keeps (raise_if-Keeps _ _) (
        bind-Keeps (find_by_ride_id-Keeps closed.elsewhere ride.id) λ found.
          bind-Keeps (payment_or_new-Keeps now _ found) λ t.
            bind-Keeps (write_transaction-Keeps closed.elsewhere t.id _) λ t'.
              then-Keeps (record_ride_settlement-Keeps closed fresh now ride t'.status)
                (pure-Keeps t')))

  pub confirm_cash-Keeps :
      (fresh : Fresh) (i now ride by : ℕ) (amount : ℤ)
      → Keeps P (confirm_cash fresh i now ride by amount)
  unfolding confirm_cash
  confirm_cash-Keeps fresh i now ride by amount =
      bind-Keeps (ask-Keeps _) λ found. confirm_cash_of-Keeps fresh i now by amount found

  new_cash_payment-Keeps : (i now : ℕ) (o : Option Ride) → Keeps P (new_cash_payment i now o)
  unfolding new_cash_payment
  new_cash_payment-Keeps i now none = raise-Keeps _ _
  new_cash_payment-Keeps i now (some ride) = save-Keeps closed.elsewhere now _

  cash_instead-Keeps :
      (i now ride : ℕ) (o : Option Transaction) → Keeps P (cash_instead i now ride o)
  unfolding cash_instead prepare_cash_payment
  cash_instead-Keeps i now ride none =
      bind-Keeps (ask-Keeps _) λ found. new_cash_payment-Keeps i now found
  cash_instead-Keeps i now ride (some t) =
      if-Keeps _ (pure-Keeps t)
        (then-Keeps (raise_if-Keeps _ _) (write_transaction-Keeps closed.elsewhere t.id _))

  prepare_cash-Keeps : (i now ride : ℕ) → Keeps P (prepare_cash i now ride)
  unfolding prepare_cash
  prepare_cash-Keeps i now ride =
      bind-Keeps (find_by_ride_id-Keeps closed.elsewhere ride)
        λ found. cash_instead-Keeps i now ride found

  answered-Keeps : (a : IntentAnswer) → Keeps P (answered a)
  unfolding answered
  answered-Keeps (intent i) = pure-Keeps i
  answered-Keeps (refused status_code code) = raise-Keeps _ _

  debt_of_passenger-Keeps :
      (user : ℕ) (o : Option PassengerDebt) → Keeps P (debt_of_passenger user o)
  unfolding debt_of_passenger
  debt_of_passenger-Keeps user none = raise-Keeps _ _
  debt_of_passenger-Keeps user (some d) = then-Keeps (raise_if-Keeps _ _) (pure-Keeps d)

  owned_open_debt-Keeps : (i user : ℕ) → Keeps P (owned_open_debt i user)
  unfolding owned_open_debt get_passenger_debt
  owned_open_debt-Keeps i user =
      bind-Keeps (bind-Keeps (ask-Keeps _) λ found. debt_of_passenger-Keeps user found)
        λ d. then-Keeps (raise_if-Keeps _ _) (pure-Keeps d)

  pub request_debt_cash-Keeps : (now i user : ℕ) → Keeps P (request_debt_cash now i user)
  unfolding request_debt_cash
  request_debt_cash-Keeps now i user =
      bind-Keeps (owned_open_debt-Keeps i user)
        λ d. update_debt_status-Keeps closed.elsewhere now d.id _ _

  confirm_debt_row-Keeps :
      (now driver : ℕ) (o : Option PassengerDebt) → Keeps P (confirm_debt_row now driver o)
  unfolding confirm_debt_row
  confirm_debt_row-Keeps now driver none = raise-Keeps _ _
  confirm_debt_row-Keeps now driver (some d) = then-Keeps (raise_if-Keeps _ _) (
      bind-Keeps (ask-Keeps _) λ ride.
        then-Keeps (raise_if-Keeps _ _) (update_debt_status-Keeps closed.elsewhere now d.id _ _))

  pub confirm_debt_cash-Keeps : (now i driver : ℕ) → Keeps P (confirm_debt_cash now i driver)
  unfolding confirm_debt_cash
  confirm_debt_cash-Keeps now i driver =
      bind-Keeps (ask-Keeps _) λ found. confirm_debt_row-Keeps now driver found

  module _ (ext : Externals) (texts : Texts) where
    keep_intent-Keeps :
        (i now : ℕ) (ride : Ride) (amount : ℤ) (m : PaymentMethod) (o : Option Transaction)
        (a : Intent)
        → Keeps P (keep_intent ext texts i now ride amount m o a)
    unfolding keep_intent replace_external_intent
    keep_intent-Keeps i now ride amount m none a = bind-Keeps (lift-Keeps _) λ status.
        bind-Keeps (require_id-Keeps closed a.id) λ intent_id. save-Keeps closed.elsewhere now _
    keep_intent-Keeps i now ride amount m (some t) a = bind-Keeps (lift-Keeps _) λ status.
        bind-Keeps (require_id-Keeps closed a.id)
          λ intent_id. write_transaction-Keeps closed.elsewhere t.id _

    pay_or_reuse-Keeps :
        (i now : ℕ) (ride : Ride) (amount : ℤ) (m : PaymentMethod) (a : IntentAnswer)
        (o : Option Transaction)
        → Keeps P (pay_or_reuse ext texts i now ride amount m a o)
    unfolding pay_or_reuse
    pay_or_reuse-Keeps i now ride amount m a none =
        bind-Keeps (answered-Keeps a) λ a'. keep_intent-Keeps i now ride amount m none a'
    pay_or_reuse-Keeps i now ride amount m a (some t) =
        if-Keeps _
          (bind-Keeps (answered-Keeps a) λ a'. keep_intent-Keeps i now ride amount m (some t) a')
          (if-Keeps _ (pure-Keeps t) (raise-Keeps _ _))

    pay_amount-Keeps :
        (i now : ℕ) (ride : Ride) (o : Option ℤ) (m : PaymentMethod) (a : IntentAnswer)
        → Keeps P (pay_amount ext texts i now ride o m a)
    unfolding pay_amount
    pay_amount-Keeps i now ride none m a = raise-Keeps _ _
    pay_amount-Keeps i now ride (some amount) m a = then-Keeps (raise_if-Keeps _ _) (
        bind-Keeps (find_by_ride_id-Keeps closed.elsewhere ride.id)
          λ found. pay_or_reuse-Keeps i now ride amount m a found)

    prepare_diddipay_of-Keeps :
        (i now : ℕ) (m : PaymentMethod) (a : IntentAnswer) (o : Option Ride)
        → Keeps P (prepare_diddipay_of ext texts i now m a o)
    unfolding prepare_diddipay_of
    prepare_diddipay_of-Keeps i now m a none = raise-Keeps _ _
    prepare_diddipay_of-Keeps i now m a (some ride) = pay_amount-Keeps i now ride _ m a

    prepare_diddipay-Keeps :
        (i now ride : ℕ) (m : PaymentMethod) (a : IntentAnswer)
        → Keeps P (prepare_diddipay ext texts i now ride m a)
    unfolding prepare_diddipay
    prepare_diddipay-Keeps i now ride m a =
        bind-Keeps (ask-Keeps _) λ found. prepare_diddipay_of-Keeps i now m a found

    prepare_with-Keeps :
        (i now : ℕ) (r : PaymentRequest) (ride : Ride) (a : IntentAnswer) (o : Option PaymentMethod)
        → Keeps P (prepare_with ext texts i now r ride a o)
    unfolding prepare_with
    prepare_with-Keeps i now r ride a none = raise-Keeps _ _
    prepare_with-Keeps i now r ride a (some m) = if-Keeps _ (prepare_cash-Keeps i now r.ride_id) (
        then-Keeps (raise_if-Keeps _ _) (
          then-Keeps (raise_if-Keeps _ _)
            (then-Keeps (raise_if-Keeps _ _) (prepare_diddipay-Keeps i now r.ride_id m a))))

    prepare_payment_of-Keeps :
        (i now : ℕ) (r : PaymentRequest) (a : IntentAnswer) (o : Option Ride)
        → Keeps P (prepare_payment_of ext texts i now r a o)
    unfolding prepare_payment_of
    prepare_payment_of-Keeps i now r a none = raise-Keeps _ _
    prepare_payment_of-Keeps i now r a (some ride) = then-Keeps (raise_if-Keeps _ _) (
        then-Keeps (raise_if-Keeps _ _)
          (then-Keeps (raise_if-Keeps _ _) (prepare_with-Keeps i now r ride a _)))

    pub prepare_payment-Keeps :
        (i now : ℕ) (r : PaymentRequest) (a : IntentAnswer)
        → Keeps P (prepare_payment ext texts i now r a)
    unfolding prepare_payment
    prepare_payment-Keeps i now r a =
        bind-Keeps (ask-Keeps _) λ found. prepare_payment_of-Keeps i now r a found

    pub prepare_debt_payment-Keeps :
        (i now debt user : ℕ) (email phone : Option String) (a : IntentAnswer)
        → Keeps P (prepare_debt_payment ext texts i now debt user email phone a)
    unfolding prepare_debt_payment
    prepare_debt_payment-Keeps i now debt user email phone a =
        bind-Keeps (owned_open_debt-Keeps debt user) λ d. then-Keeps (raise_if-Keeps _ _) (
          bind-Keeps (prepare_diddipay-Keeps i now d.ride_id _ a) λ t.
            bind-Keeps (update_debt_status-Keeps closed.elsewhere now d.id _ _) λ d'. pure-Keeps t)

    keep_topup-Keeps :
        (fresh : Fresh) (i now driver : ℕ) (amount : ℤ) (m : PaymentMethod) (a : Intent)
        → Keeps P (keep_topup ext fresh i now driver amount m a)
    unfolding keep_topup
    keep_topup-Keeps fresh i now driver amount m a = bind-Keeps (lift-Keeps _) λ status.
        bind-Keeps (require_id-Keeps closed a.id) λ intent_id.
          bind-Keeps (save_topup-Keeps closed.elsewhere now _)
            λ t. then-Keeps (credit_topup-Keeps closed fresh now t) (pure-Keeps t)

    topup_with-Keeps :
        (fresh : Fresh) (i now driver : ℕ) (amount : ℤ) (email : String) (a : IntentAnswer)
        (o : Option PaymentMethod)
        → Keeps P (topup_with ext fresh i now driver amount email a o)
    unfolding topup_with
    topup_with-Keeps fresh i now driver amount email a none = raise-Keeps _ _
    topup_with-Keeps fresh i now driver amount email a (some m) = then-Keeps (raise_if-Keeps _ _) (
        then-Keeps (raise_if-Keeps _ _)
          (bind-Keeps (answered-Keeps a) λ a'. keep_topup-Keeps fresh i now driver amount m a'))

    pub create_topup-Keeps :
        (fresh : Fresh) (i now user : ℕ) (amount : ℤ) (m email : String) (a : IntentAnswer)
        → Keeps P (create_topup ext fresh i now user amount m email a)
    unfolding create_topup
    create_topup-Keeps fresh i now user amount m email a =
        bind-Keeps (driver_id-Keeps closed user) λ driver.
          then-Keeps (raise_if-Keeps _ _) (topup_with-Keeps fresh i now driver amount email a _)

    pub request_code-Keeps :
        (d : CodeDraws) (user destination : ℕ) (phone : String)
        → Keeps P (request_withdrawal_verification ext d user destination phone)
    unfolding request_withdrawal_verification
    request_code-Keeps d user destination phone = bind-Keeps (driver_id-Keeps closed user) λ driver.
        then-Keeps (raise_if-Keeps _ _) (
          bind-Keeps (ask-Keeps _) λ latest. then-Keeps (raise_if-Keeps _ _) (
            then-Keeps (raise_if-Keeps _ _) (
              bind-Keeps (save_verification-Keeps closed.elsewhere d.now _)
                λ v. then-Keeps commit-Keeps (then-Keeps (raise_if-Keeps _ _) (pure-Keeps v)))))
