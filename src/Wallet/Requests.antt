-- ===== src/Wallet/Requests.antt =====
-- Whole requests: each use case of app_base/modules/payment/application/wallet_service.py, with
-- the commits it makes and the rollback of `get_session`, keeps every property of the tables that the
-- repository's methods keep.
use diddi_go_backend.Base.{
  ℕ, inl, inr, Option, none, some, [], ◌∷◌, ◌++◌, arith, Option-cases, find, String, ltb, ◌==◌,
}
use diddi_go_backend.Base.Int.{ℤ}
use diddi_go_backend.Wallet.Entities.{
  Db, DriverWithdrawal, DriverWithdrawalQuote, DriverWithdrawalVerification,
}
use diddi_go_backend.Wallet.Verification.{
  consume_withdrawal_verification, write_verification, count_attempt, consumed, has_verification_id,
}
use diddi_go_backend.Base.Keeps.{
  Keeps, bind-Keeps, then-Keeps, rethrow-Keeps, call-Keeps, commit-Keeps, pure-Keeps, raise-Keeps,
  raise_if-Keeps, lift-Keeps, ask-Keeps, if-Keeps, run-Keeps,
}
use diddi_go_backend.Wallet.Closed.{Closed}
use diddi_go_backend.Wallet.Service.{
  Settings, Externals, Payout, Answer, payout, client_error, WithdrawalRequest, Draws,
  driver_id_for_user, save_withdrawal_quote, apply_withdrawal_provider_payload, require_id,
  reject_payout, conclude, quote_withdrawal, confirm_and_reserve, answer_existing, answer_or_create,
  apply_found, reconcile_found, request_withdrawal, reconcile_withdrawal, Request, serve,
}

module _ {P : Db → Type 0} (closed : Closed P) where
  pub require_id-Keeps : (i : Option ℕ) → Keeps P (require_id i)
  unfolding require_id
  require_id-Keeps none = raise-Keeps _ _
  require_id-Keeps (some i) = pure-Keeps i

  pub driver_id-Keeps : (user : ℕ) → Keeps P (driver_id_for_user user)
  unfolding driver_id_for_user
  driver_id-Keeps user = record {
    keeps = λ s h. elim (Option-cases (find (λ d. d.user_id == user) s.current.drivers)) [
      | inl absent ↦ ground arith
      | inr (d, found) ↦ ground arith
    ];
    sees = λ s h. elim (Option-cases (find (λ d. d.user_id == user) s.current.drivers)) [
      | inl absent ↦ ground arith
      | inr (d, found) ↦ ground arith
    ];
  }

  write_verification-kept :
      (i : ℕ) (f : DriverWithdrawalVerification → DriverWithdrawalVerification) (db : Db)
      → P db
      → P (write_verification i f db)
  write_verification-kept i f db h =
      closed.elsewhere.others db.topups db.quotes _ db.transactions db.debts db h

  consume-kept :
      (v driver destination : ℕ) (hash : String) (most now : ℕ) (db : Db)
      → P db
      → P (consume_withdrawal_verification v driver destination hash most now db).1
  unfolding consume_withdrawal_verification
  consume-kept v driver destination hash most now db h =
      let counted = write_verification-kept v count_attempt db h in
      let taken = write_verification-kept v (consumed now) db h in
      elim (Option-cases (find (has_verification_id v) db.verifications)) [
        | inl absent ↦ ground arith
        | inr (row, found) ↦ ground arith
      ]

  save_quote-kept : (q : DriverWithdrawalQuote) (db : Db) → P db → P (save_withdrawal_quote q db).1
  unfolding save_withdrawal_quote
  save_quote-kept q db h =
      let saved =
        closed.elsewhere.others db.topups (db.quotes ++ q ∷ []) db.verifications db.transactions
          db.debts db h in
      ground arith

  payout-Keeps :
      (entry_id now : ℕ) (w : DriverWithdrawal) (p : Payout)
      → Keeps P (apply_withdrawal_provider_payload entry_id now w p)
  unfolding apply_withdrawal_provider_payload
  payout-Keeps entry_id now w p = then-Keeps (raise_if-Keeps _ _) (
      then-Keeps (raise_if-Keeps _ _) (
        then-Keeps (raise_if-Keeps _ _) (
          bind-Keeps (lift-Keeps _) λ status.
            bind-Keeps (require_id-Keeps p.id)
              λ payout_id. call-Keeps _ (closed.mark entry_id now w.id _))))

  reject-Keeps :
      (d : Draws) (w : DriverWithdrawal) (code message : String)
      → Keeps P (reject_payout d w code message)
  unfolding reject_payout
  reject-Keeps d w code message =
      bind-Keeps (call-Keeps _ (closed.mark d.settle_entry_id d.later w.id _)) λ w'. commit-Keeps

  conclude-Keeps : (d : Draws) (w : DriverWithdrawal) (a : Answer) → Keeps P (conclude d w a)
  unfolding conclude
  conclude-Keeps d w (payout p) =
      bind-Keeps (payout-Keeps d.settle_entry_id d.later w p)
        λ w'. then-Keeps commit-Keeps (pure-Keeps w')
  conclude-Keeps d w (client_error status_code code message) =
      then-Keeps (if-Keeps (ltb status_code 500) (reject-Keeps d w code message) (pure-Keeps tt))
        (raise-Keeps _ _)

  answer_existing-Keeps :
      (driver_id : ℕ) (r : WithdrawalRequest) (w : DriverWithdrawal)
      → Keeps P (answer_existing driver_id r w)
  unfolding answer_existing
  answer_existing-Keeps driver_id r w = if-Keeps _ (raise-Keeps _ _) (pure-Keeps w)

  apply_found-Keeps :
      (entry_id now : ℕ) (w : DriverWithdrawal) (p : Option Payout)
      → Keeps P (apply_found entry_id now w p)
  unfolding apply_found
  apply_found-Keeps entry_id now w none = pure-Keeps w
  apply_found-Keeps entry_id now w (some p) =
      bind-Keeps (payout-Keeps entry_id now w p) λ w'. then-Keeps commit-Keeps (pure-Keeps w')

  reconcile_found-Keeps :
      (entry_id now : ℕ) (provider : DriverWithdrawal → Option Payout) (w : Option DriverWithdrawal)
      → Keeps P (reconcile_found entry_id now provider w)
  unfolding reconcile_found
  reconcile_found-Keeps entry_id now provider none = raise-Keeps _ _
  reconcile_found-Keeps entry_id now provider (some w) =
      apply_found-Keeps entry_id now w (provider w)

  reconcile-Keeps :
      (entry_id now withdrawal_id : ℕ) (provider : DriverWithdrawal → Option Payout)
      → Keeps P (reconcile_withdrawal entry_id now withdrawal_id provider)
  unfolding reconcile_withdrawal
  reconcile-Keeps entry_id now withdrawal_id provider =
      bind-Keeps (ask-Keeps _) λ found. reconcile_found-Keeps entry_id now provider found

  module _ (cfg : Settings) (ext : Externals) where
    quote-Keeps :
        (quote_id wallet_id now user : ℕ) (amount : ℤ)
        → Keeps P (quote_withdrawal cfg ext quote_id wallet_id now user amount)
    unfolding quote_withdrawal
    quote-Keeps quote_id wallet_id now user amount = bind-Keeps (driver_id-Keeps user) λ driver_id.
        then-Keeps (raise_if-Keeps _ _) (
          then-Keeps (raise_if-Keeps _ _) (
            bind-Keeps (call-Keeps _ (closed.create wallet_id now driver_id "XOF")) λ wallet.
              then-Keeps (raise_if-Keeps _ _) (
                bind-Keeps (call-Keeps _ (save_quote-kept _))
                  λ q. then-Keeps commit-Keeps (pure-Keeps q))))

    confirm-Keeps :
        (d : Draws) (r : WithdrawalRequest) (driver_id : ℕ)
        → Keeps P (confirm_and_reserve cfg ext d r driver_id)
    unfolding confirm_and_reserve
    confirm-Keeps d r driver_id =
        bind-Keeps (rethrow-Keeps _ _ (call-Keeps _ (consume-kept _ _ _ _ _ _))) λ v.
          bind-Keeps (rethrow-Keeps _ _ (call-Keeps _ (closed.reserve _ _ _ _)))
            λ w. then-Keeps commit-Keeps (pure-Keeps w)

    answer_or_create-Keeps :
        (d : Draws) (r : WithdrawalRequest) (provider : DriverWithdrawal → Answer) (driver_id : ℕ)
        (existing : Option DriverWithdrawal)
        → Keeps P (answer_or_create cfg ext d r provider driver_id existing)
    unfolding answer_or_create
    answer_or_create-Keeps d r provider driver_id (some w) = answer_existing-Keeps driver_id r w
    answer_or_create-Keeps d r provider driver_id none =
        bind-Keeps (confirm-Keeps d r driver_id) λ w. conclude-Keeps d w (provider w)

    request-Keeps :
        (d : Draws) (r : WithdrawalRequest) (provider : DriverWithdrawal → Answer)
        → Keeps P (request_withdrawal cfg ext d r provider)
    unfolding request_withdrawal
    request-Keeps d r provider = bind-Keeps (driver_id-Keeps r.driver_user_id) λ driver_id.
        then-Keeps (raise_if-Keeps _ _) (
          then-Keeps (raise_if-Keeps _ _) (
            bind-Keeps (ask-Keeps _)
              λ existing. answer_or_create-Keeps d r provider driver_id existing))

  pub serve-kept :
      (cfg : Settings) (ext : Externals) (r : Request) (db : Db) → P db → P (serve cfg ext r db)
  unfolding serve
  serve-kept cfg ext (Request.quote i wallet_id now user amount) db h =
      run-Keeps _ db (quote-Keeps cfg ext i wallet_id now user amount) h
  serve-kept cfg ext (Request.withdraw d r provider) db h =
      run-Keeps _ db (request-Keeps cfg ext d r provider) h
  serve-kept cfg ext (Request.reconcile entry_id now i provider) db h =
      run-Keeps _ db (reconcile-Keeps entry_id now i provider) h
