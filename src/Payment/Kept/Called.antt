-- ===== src/Payment/Kept/Called.antt =====
-- A callback of the provider, whatever it says and however it ends
-- (`apply_diddipay_webhook` of app_base/modules/payment/application/services.py), keeps every
-- property that the repository's methods keep.
use diddi_go_backend.Base.{ℕ, Option, none, some, String}
use diddi_go_backend.Wallet.Entities.{Db, DriverTopup, DriverWithdrawal, PaymentStatus, Transaction}
use diddi_go_backend.Base.Keeps.{
  Keeps, bind-Keeps, then-Keeps, call-Keeps, ask-Keeps, pure-Keeps, raise-Keeps, raise_if-Keeps,
  lift-Keeps, if-Keeps,
}
use diddi_go_backend.Wallet.Closed.{Closed}
use diddi_go_backend.Payment.Settlement.{Fresh}
use diddi_go_backend.Payment.Webhook.{
  Callback, CallbackData, CallbackSettings, Delivery, apply_payout, apply_to_topup, apply_intent,
  apply_event, apply_new, apply_once, apply_content, apply_callback, apply_diddipay_webhook,
}
use diddi_go_backend.Payment.Kept.Settled.{apply_transaction_status-Keeps, apply_topup_status-Keeps}

module _ {P : Db → Type 0} (closed : Closed P) where
  apply_payout-Keeps :
      (entry_id now i : ℕ) (d : CallbackData) (o : Option DriverWithdrawal)
      → Keeps P (apply_payout entry_id now i d o)
  unfolding apply_payout
  apply_payout-Keeps entry_id now i d none = raise-Keeps _ _
  apply_payout-Keeps entry_id now i d (some w) = then-Keeps (raise_if-Keeps _ _) (
      bind-Keeps (lift-Keeps _)
        λ target. bind-Keeps (call-Keeps _ (closed.mark entry_id now w.id _)) λ w'. pure-Keeps _)

  apply_to_topup-Keeps :
      (fresh : Fresh) (now : ℕ) (d : CallbackData) (s : PaymentStatus) (o : Option DriverTopup)
      → Keeps P (apply_to_topup fresh now d s o)
  unfolding apply_to_topup
  apply_to_topup-Keeps fresh now d s none = raise-Keeps _ _
  apply_to_topup-Keeps fresh now d s (some t) = bind-Keeps (lift-Keeps _) λ amount.
      then-Keeps (raise_if-Keeps _ _) (
        then-Keeps (raise_if-Keeps _ _)
          (bind-Keeps (apply_topup_status-Keeps closed fresh now t _ _ _ _) λ t'. pure-Keeps _))

  apply_intent-Keeps :
      (fresh : Fresh) (now i : ℕ) (d : CallbackData) (s : PaymentStatus) (o : Option Transaction)
      → Keeps P (apply_intent fresh now i d s o)
  unfolding apply_intent
  apply_intent-Keeps fresh now i d s (some t) = bind-Keeps (lift-Keeps _) λ amount.
      then-Keeps (raise_if-Keeps _ _) (
        then-Keeps (raise_if-Keeps _ _) (
          bind-Keeps (apply_transaction_status-Keeps closed fresh now t _ _ _ _)
            λ t'. pure-Keeps _))
  apply_intent-Keeps fresh now i d s none =
      bind-Keeps (ask-Keeps _) λ found. apply_to_topup-Keeps fresh now d s found

  module _ (cs : CallbackSettings) (fresh : Fresh) (now : ℕ) where
    apply_event-Keeps :
        (d : CallbackData) (payout_id intent_id : Option ℕ)
        → Keeps P (apply_event cs fresh now d payout_id intent_id)
    unfolding apply_event
    apply_event-Keeps d (some i) intent_id =
        bind-Keeps (ask-Keeps _) λ found. apply_payout-Keeps fresh.entry_id now i d found
    apply_event-Keeps d none none = raise-Keeps _ _
    apply_event-Keeps d none (some i) = bind-Keeps (lift-Keeps _) λ status.
        bind-Keeps (ask-Keeps _) λ payment. apply_intent-Keeps fresh now i d status payment

    pub apply_new-Keeps :
        (d : CallbackData) (intent_id : Option ℕ) → Keeps P (apply_new cs fresh now d intent_id)
    unfolding apply_new
    apply_new-Keeps d intent_id =
        bind-Keeps (lift-Keeps _) λ payout_id. apply_event-Keeps d payout_id intent_id

    apply_content-Keeps :
        (c : Callback) (o : Option CallbackData) → Keeps P (apply_content cs fresh now c o)
    unfolding apply_content apply_once
    apply_content-Keeps c none = raise-Keeps _ _
    apply_content-Keeps c (some d) = bind-Keeps (lift-Keeps _) λ intent_id.
        bind-Keeps (call-Keeps _ (closed.recorded _))
          λ stored. if-Keeps stored (apply_new-Keeps d intent_id) (pure-Keeps _)

    apply_callback-Keeps :
        (header : Option String) (o : Option Callback)
        → Keeps P (apply_callback cs fresh now header o)
    unfolding apply_callback
    apply_callback-Keeps header none = raise-Keeps _ _
    apply_callback-Keeps header (some c) =
        then-Keeps (raise_if-Keeps _ _) (apply_content-Keeps c c.content)

    pub webhook-Keeps : (r : Delivery) → Keeps P (apply_diddipay_webhook cs fresh now r)
    unfolding apply_diddipay_webhook
    webhook-Keeps r = then-Keeps (raise_if-Keeps _ _) (
        then-Keeps (raise_if-Keeps _ _)
          (apply_callback-Keeps r.event_id_header (cs.json_loads r.raw_body)))
