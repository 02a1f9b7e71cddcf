-- ===== src/Payment/Kept/Swept.antt =====
-- The sweep and the two repairs (`reconcile_pending`, `reconcile_transaction` and
-- `reconcile_topup` of app_base/modules/payment/application/services.py) keep every property that
-- the repository's methods keep.
use diddi_go_backend.Base.{ℕ, inl, inr, Option, none, some, List, [], ◌∷◌, Option-cases}
use diddi_go_backend.Wallet.Entities.{
  Db, DriverTopup, DriverWithdrawal, PaymentStatus, Transaction, WithdrawalStatus,
}
use diddi_go_backend.Wallet.Session.{Action, Result, ok, err}
use diddi_go_backend.Base.Keeps.{
  Keeps, bind-Keeps, call-Keeps, ask-Keeps, pure-Keeps, raise-Keeps, if-Keeps,
}
use diddi_go_backend.Wallet.Closed.{Closed}
use diddi_go_backend.Wallet.Service.{Externals, Payout}
use diddi_go_backend.Wallet.Requests.{require_id-Keeps}
use diddi_go_backend.Payment.Provider.{Intent}
use diddi_go_backend.Payment.Prepare.{Texts}
use diddi_go_backend.Payment.Sweep.{
  Report, Reading, found, absent, failed, Sources, update_transaction, compare_transaction,
  reconcile_transaction_row, update_topup, compare_topup, reconcile_topup_row, update_withdrawal,
  compare_withdrawal, reconcile_withdrawal_row, for_each, reconcile_pending, reconcile_payment,
  reconcile_transaction, reconcile_recharge, reconcile_topup,
}
use diddi_go_backend.Payment.Kept.Rows.{find_by_ride_id-Keeps}
use diddi_go_backend.Payment.Kept.Settled.{apply_transaction_status-Keeps, apply_topup_status-Keeps}

for_each-Keeps :
    {P : Db → Type 0} {A : Type 0} (step : A → Report → Action Report)
    → ((x : A) (r : Report) → Keeps P (step x r))
    → (xs : List A) (r : Report) → Keeps P (for_each step xs r)
unfolding for_each
for_each-Keeps step h [] r = pure-Keeps r
for_each-Keeps step h (x ∷ xs) r = bind-Keeps (h x r) λ r'. for_each-Keeps step h xs r'

module _ {P : Db → Type 0} (closed : Closed P) (ext : Externals) (texts : Texts) (src : Sources)
    (now : ℕ) where
  update_transaction-Keeps :
      (t : Transaction) (i : Intent) (r : Report) (s : Result PaymentStatus)
      → Keeps P (update_transaction ext texts src now t i r s)
  unfolding update_transaction
  update_transaction-Keeps t i r (err e) = pure-Keeps _
  update_transaction-Keeps t i r (ok s) =
      if-Keeps _ (pure-Keeps _)
        (bind-Keeps (apply_transaction_status-Keeps closed _ now t s _ _ _) λ t'. pure-Keeps _)

  compare_transaction-Keeps :
      (t : Transaction) (r : Report) (a : Reading Intent)
      → Keeps P (compare_transaction ext texts src now t r a)
  unfolding compare_transaction
  compare_transaction-Keeps t r absent = pure-Keeps _
  compare_transaction-Keeps t r failed = pure-Keeps _
  compare_transaction-Keeps t r (found i) =
      if-Keeps _ (pure-Keeps _) (update_transaction-Keeps t i r _)

  transaction_row-Keeps :
      (t : Transaction) (r : Report) → Keeps P (reconcile_transaction_row ext texts src now t r)
  unfolding reconcile_transaction_row
  transaction_row-Keeps t r = compare_transaction-Keeps t _ _

  update_topup-Keeps :
      (t : DriverTopup) (i : Intent) (r : Report) (s : Result PaymentStatus)
      → Keeps P (update_topup ext texts src now t i r s)
  unfolding update_topup
  update_topup-Keeps t i r (err e) = pure-Keeps _
  update_topup-Keeps t i r (ok s) =
      if-Keeps _ (pure-Keeps _)
        (bind-Keeps (apply_topup_status-Keeps closed _ now t _ _ _ _) λ t'. pure-Keeps _)

  compare_topup-Keeps :
      (t : DriverTopup) (r : Report) (a : Reading Intent)
      → Keeps P (compare_topup ext texts src now t r a)
  unfolding compare_topup
  compare_topup-Keeps t r absent = pure-Keeps _
  compare_topup-Keeps t r failed = pure-Keeps _
  compare_topup-Keeps t r (found i) = if-Keeps _ (pure-Keeps _) (update_topup-Keeps t i r _)

  topup_row-Keeps :
      (t : DriverTopup) (r : Report) → Keeps P (reconcile_topup_row ext texts src now t r)
  unfolding reconcile_topup_row
  topup_row-Keeps t r = compare_topup-Keeps t _ _

  update_withdrawal-Keeps :
      (w : DriverWithdrawal) (p : Payout) (r : Report) (o : Option WithdrawalStatus)
      → Keeps P (update_withdrawal ext texts src now w p r o)
  unfolding update_withdrawal
  update_withdrawal-Keeps w p r none = pure-Keeps _
  update_withdrawal-Keeps w p r (some target) =
      bind-Keeps (require_id-Keeps closed p.id)
        λ i. bind-Keeps (call-Keeps _ (closed.mark _ now w.id _)) λ w'. pure-Keeps _

  compare_withdrawal-Keeps :
      (w : DriverWithdrawal) (r : Report) (a : Reading Payout)
      → Keeps P (compare_withdrawal ext texts src now w r a)
  unfolding compare_withdrawal
  compare_withdrawal-Keeps w r absent = pure-Keeps _
  compare_withdrawal-Keeps w r failed = pure-Keeps _
  compare_withdrawal-Keeps w r (found p) =
      if-Keeps _ (pure-Keeps _) (update_withdrawal-Keeps w p r _)

  withdrawal_row-Keeps :
      (w : DriverWithdrawal) (r : Report) → Keeps P (reconcile_withdrawal_row ext texts src now w r)
  unfolding reconcile_withdrawal_row
  withdrawal_row-Keeps w r = compare_withdrawal-Keeps w _ _

  pub sweep-Keeps :
      (limit before after : ℕ) → Keeps P (reconcile_pending ext texts src now limit before after)
  unfolding reconcile_pending
  sweep-Keeps limit before after = bind-Keeps (ask-Keeps _) λ transactions.
      bind-Keeps (for_each-Keeps _ transaction_row-Keeps transactions _) λ r1.
        bind-Keeps (ask-Keeps _) λ topups.
          bind-Keeps (for_each-Keeps _ topup_row-Keeps topups r1) λ r2.
            bind-Keeps (ask-Keeps _)
              λ withdrawals. for_each-Keeps _ withdrawal_row-Keeps withdrawals r2

  reconcile_payment-Keeps :
      (o : Option Transaction) → Keeps P (reconcile_payment ext texts src now o)
  unfolding reconcile_payment
  reconcile_payment-Keeps none = raise-Keeps _ _
  reconcile_payment-Keeps (some t) = elim (Option-cases t.payment_intent_id) [
    | inl none_ ↦ rw none_ (raise-Keeps _ _)
    | inr (i, some_) ↦ rw some_ (transaction_row-Keeps t _)
  ]

  pub repair_payment-Keeps : (i : ℕ) → Keeps P (reconcile_transaction ext texts src now i)
  unfolding reconcile_transaction
  repair_payment-Keeps i =
      bind-Keeps (find_by_ride_id-Keeps closed.elsewhere i) λ found. reconcile_payment-Keeps found

  reconcile_recharge-Keeps :
      (o : Option DriverTopup) → Keeps P (reconcile_recharge ext texts src now o)
  unfolding reconcile_recharge
  reconcile_recharge-Keeps none = raise-Keeps _ _
  reconcile_recharge-Keeps (some t) = elim (Option-cases t.payment_intent_id) [
    | inl none_ ↦ rw none_ (raise-Keeps _ _)
    | inr (i, some_) ↦ rw some_ (topup_row-Keeps t _)
  ]

  pub repair_topup-Keeps : (i : ℕ) → Keeps P (reconcile_topup ext texts src now i)
  unfolding reconcile_topup
  repair_topup-Keeps i = bind-Keeps (ask-Keeps _) λ found. reconcile_recharge-Keeps found
