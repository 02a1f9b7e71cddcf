-- ===== src/Payment/Kept/Settled.antt =====
-- What a collected fare or a paid top-up posts (app_base/modules/payment/application/services.py)
-- keeps every property that the repository's methods keep.
use diddi_go_backend.Base.{
  ℕ, ◌≡◌, refl, Bool, true, false, Option, none, some, String, arith, if◌then◌else◌,
}
use diddi_go_backend.Ride.Entity.{Ride}
use diddi_go_backend.Wallet.Entities.{
  Db, DriverLedgerEntry, DriverTopup, Transaction, PaymentStatus, TopupStatus, entry_type_eq,
  withdrawal_released, withdrawal_succeeded,
}
use diddi_go_backend.Base.Keeps.{Keeps, bind-Keeps, then-Keeps, call-Keeps, ask-Keeps, pure-Keeps}
use diddi_go_backend.Wallet.Closed.{Closed}
use diddi_go_backend.Payment.Transactions.{mark_external_status}
use diddi_go_backend.Payment.Provider.{topup_succeeded}
use diddi_go_backend.Payment.Settlement.{
  Fresh, settlement_entry, post, record_ride_settlement, settle_found, apply_transaction_status,
  topup_entry, credit_topup, apply_topup_status,
}
use diddi_go_backend.Payment.Kept.Rows.{write_transaction-Keeps, mark_topup_status-Keeps}

-- An entry of a type that no withdrawal posts.
IsPostable : Option DriverLedgerEntry → Type 0
IsPostable none = Unit
IsPostable (some e) =
    (entry_type_eq e.entry_type withdrawal_succeeded ≡ false)
    × (entry_type_eq e.entry_type withdrawal_released ≡ false)

settlement-IsPostable :
    (fresh : Fresh) (now : ℕ) (ride : Ride) (status : PaymentStatus)
    → IsPostable (settlement_entry fresh now ride status)
unfolding settlement_entry IsPostable
settlement-IsPostable fresh now ride status = ground arith

topup-IsPostable :
    (b : Bool) (fresh : Fresh) (now : ℕ) (t : DriverTopup)
    → IsPostable (if b then some (topup_entry fresh now t) else none)
unfolding IsPostable
topup-IsPostable true fresh now t = (refl, refl)
topup-IsPostable false fresh now t = tt

module _ {P : Db → Type 0} (closed : Closed P) where
  post-Keeps :
      (fresh : Fresh) (now : ℕ) (o : Option DriverLedgerEntry)
      → IsPostable o
      → Keeps P (post fresh now o)
  unfolding post IsPostable
  post-Keeps fresh now none h = pure-Keeps tt
  post-Keeps fresh now (some e) (moves, gives) =
      bind-Keeps (call-Keeps _ λ db h. closed.post fresh.wallet_id now e db moves gives h)
        λ posted. pure-Keeps tt

  pub record_ride_settlement-Keeps :
      (fresh : Fresh) (now : ℕ) (ride : Ride) (status : PaymentStatus)
      → Keeps P (record_ride_settlement fresh now ride status)
  unfolding record_ride_settlement
  record_ride_settlement-Keeps fresh now ride status =
      post-Keeps fresh now _ (settlement-IsPostable fresh now ride status)

  settle_found-Keeps :
      (fresh : Fresh) (now : ℕ) (status : PaymentStatus) (o : Option Ride)
      → Keeps P (settle_found fresh now status o)
  unfolding settle_found
  settle_found-Keeps fresh now status none = pure-Keeps tt
  settle_found-Keeps fresh now status (some ride) =
      record_ride_settlement-Keeps fresh now ride status

  pub apply_transaction_status-Keeps :
      (fresh : Fresh) (now : ℕ) (t : Transaction) (s : PaymentStatus) (text : String)
      (paid_at : Option ℕ) (next : Option (Option ℕ))
      → Keeps P (apply_transaction_status fresh now t s text paid_at next)
  unfolding apply_transaction_status mark_external_status
  apply_transaction_status-Keeps fresh now t s text paid_at next =
      bind-Keeps (write_transaction-Keeps closed.elsewhere t.id _) λ t'.
        bind-Keeps (ask-Keeps _)
          λ ride. then-Keeps (settle_found-Keeps fresh now t'.status ride) (pure-Keeps t')

  pub credit_topup-Keeps :
      (fresh : Fresh) (now : ℕ) (t : DriverTopup) → Keeps P (credit_topup fresh now t)
  unfolding credit_topup
  credit_topup-Keeps fresh now t =
      post-Keeps fresh now _ (topup-IsPostable (topup_succeeded t.status) fresh now t)

  pub apply_topup_status-Keeps :
      (fresh : Fresh) (now : ℕ) (t : DriverTopup) (s : TopupStatus) (text : String)
      (paid_at : Option ℕ) (next : Option (Option ℕ))
      → Keeps P (apply_topup_status fresh now t s text paid_at next)
  unfolding apply_topup_status
  apply_topup_status-Keeps fresh now t s text paid_at next =
      bind-Keeps (mark_topup_status-Keeps closed.elsewhere t.id s text paid_at next)
        λ t'. then-Keeps (credit_topup-Keeps fresh now t') (pure-Keeps t')
