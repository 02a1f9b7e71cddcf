-- ===== src/Payment/Fallback.antt =====
-- Cash for a ride that was to be paid by mobile money: `confirm_cash` of
-- app_base/modules/payment/application/services.py after the fallback that `_prepare_cash` allows.
use mathlib.Core.Path.{subst}
use diddi_go_backend.Base.{
  sym, ℕ, ◌≡◌, refl, inl, inr, false, Option, none, some, arith, Option-cases, find,
}
use diddi_go_backend.Base.Int.{ℤ}
use diddi_go_backend.Ride.Entity.{Ride}
use diddi_go_backend.Wallet.Entities.{Db, Transaction, PaymentStatus}
use diddi_go_backend.Wallet.Session.{Session, ok, call, run_request, ask, ◌>>=◌}
use diddi_go_backend.Base.Keeps.{
  Keeps, bind-Keeps, bind_ok-Keeps, then-Keeps, pure-Keeps, raise_if-Keeps, run-Keeps,
}
use diddi_go_backend.Wallet.Closed.{Elsewhere}
use diddi_go_backend.Payment.Transactions.{
  find_ride, update_collected, write_transaction, has_transaction_id,
}
use diddi_go_backend.Payment.Settlement.{
  Fresh, pays_cash, settlement_entry, post, record_ride_settlement,
}
use diddi_go_backend.Payment.Cash.{payment_or_new, confirm_cash_of, confirm_cash}
use diddi_go_backend.Payment.Kept.Rows.{find_by_ride_id-Keeps, save-Keeps, write_transaction-Keeps}

-- The rides, the wallets and the ledger are those of other tables.
pub record HasSameBooks (before db : Db) : Type 0 where
  pub wallets : db.wallets ≡ before.wallets
  pub ledger : db.ledger ≡ before.ledger

books-Elsewhere : (before : Db) → Elsewhere (HasSameBooks before)
books-Elsewhere before = record {
  others = λ topups quotes verifications transactions debts db h. record {
    wallets = h.wallets;
    ledger = h.ledger;
  };
}

-- A collected payment has its status.
collected_status :
    (i by at : ℕ) (amount : ℤ) (s : Session) (t : Transaction)
    → (call (update_collected i by amount at) s).0 ≡ ok t
    → t.status ≡ PaymentStatus.collected
unfolding call update_collected write_transaction
collected_status i by at amount s t h =
    elim (Option-cases (find (has_transaction_id i) s.current.transactions)) [
      | inl absent ↦ absurd (ground arith)
      | inr (row, found) ↦ ground arith
    ]

-- The collection of a ride that is not a cash ride posts nothing.
nothing_posted :
    (fresh : Fresh) (now : ℕ) (ride : Ride) (status : PaymentStatus)
    → pays_cash ride.payment_method ≡ false
    → status ≡ PaymentStatus.collected
    → settlement_entry fresh now ride status ≡ none
unfolding settlement_entry
nothing_posted fresh now ride status digital collected = ground arith

module _ (before : Db) where
  settlement-Keeps :
      (fresh : Fresh) (now : ℕ) (ride : Ride) (status : PaymentStatus)
      → pays_cash ride.payment_method ≡ false
      → status ≡ PaymentStatus.collected
      → Keeps (HasSameBooks before) (record_ride_settlement fresh now ride status)
  unfolding record_ride_settlement post
  settlement-Keeps fresh now ride status digital collected =
      rw (nothing_posted fresh now ride status digital collected, post) (pure-Keeps tt)

  payment_or_new-Keeps :
      (now : ℕ) (new : Transaction) (o : Option Transaction)
      → Keeps (HasSameBooks before) (payment_or_new now new o)
  unfolding payment_or_new
  payment_or_new-Keeps now new none = save-Keeps (books-Elsewhere before) now new
  payment_or_new-Keeps now new (some t) = pure-Keeps t

  collect-Keeps :
      (i by at : ℕ) (amount : ℤ)
      → Keeps (HasSameBooks before) (call (update_collected i by amount at))
  unfolding update_collected
  collect-Keeps i by at amount = write_transaction-Keeps (books-Elsewhere before) i _

  cash_of-Keeps :
      (fresh : Fresh) (i now by : ℕ) (amount : ℤ) (ride : Ride)
      → pays_cash ride.payment_method ≡ false
      → Keeps (HasSameBooks before) (confirm_cash_of fresh i now by amount (some ride))
  unfolding confirm_cash_of
  cash_of-Keeps fresh i now by amount ride digital = then-Keeps (raise_if-Keeps _ _) (
      then-Keeps (raise_if-Keeps _ _) (
        bind-Keeps (find_by_ride_id-Keeps (books-Elsewhere before) ride.id) λ found.
          bind-Keeps (payment_or_new-Keeps now _ found) λ t.
            bind_ok-Keeps (collect-Keeps t.id by now amount) λ s t' collected.
              then-Keeps
                (settlement-Keeps fresh now ride t'.status digital
                  (collected_status t.id by now amount s t' collected))
                (pure-Keeps t')))

-- Confirming the cash collected for a ride whose payment method is mobile money, whether it
-- returns or raises, leaves every wallet and the ledger as they are: no commission is posted.
pub fallback_posts_nothing :
    (fresh : Fresh) (i now ride_id by : ℕ) (amount : ℤ) (db : Db) (ride : Ride)
    → find_ride ride_id db ≡ some ride
    → pays_cash ride.payment_method ≡ false
    → HasSameBooks db (run_request (confirm_cash fresh i now ride_id by amount) db).1
unfolding confirm_cash ask run_request ◌>>=◌
fallback_posts_nothing fresh i now ride_id by amount db ride found digital =
    let kept =
      run-Keeps (confirm_cash_of fresh i now by amount (some ride)) db
        (cash_of-Keeps db fresh i now by amount ride digital)
        (record { wallets = refl; ledger = refl }) in
    subst (λ o. HasSameBooks db (run_request (confirm_cash_of fresh i now by amount o) db).1)
      (sym found) kept
