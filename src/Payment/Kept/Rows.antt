-- ===== src/Payment/Kept/Rows.antt =====
-- The methods of app_base/modules/payment/infra/repositories.py that write the payments, the
-- debts, the top-ups and the codes keep every property that does not depend on those tables.
use diddi_go_backend.Base.{ℕ, inl, inr, Option, List, String, Bool-cases, Option-cases, find, any}
use diddi_go_backend.Wallet.Entities.{
  Db, DriverTopup, DriverWithdrawalVerification, PassengerDebt, PassengerDebtStatus, TopupStatus,
  Transaction,
}
use diddi_go_backend.Wallet.Session.{call}
use diddi_go_backend.Wallet.Verification.{has_verification_id}
use diddi_go_backend.Base.Keeps.{Keeps, call-Keeps}
use diddi_go_backend.Wallet.Closed.{Elsewhere}
use diddi_go_backend.Payment.Transactions.{
  has_transaction_id, payment_clashes, other_clashes, save, write_transaction, find_by_ride_id,
}
use diddi_go_backend.Payment.Debts.{has_debt_id, update_debt_status}
use diddi_go_backend.Payment.Topups.{has_topup_id, topup_clashes, save_topup, mark_topup_status}
use diddi_go_backend.Payment.Recharge.{save_withdrawal_verification}

module _ {P : Db → Type 0} (free : Elsewhere P) where
  with_transactions : (ts : List Transaction) (db : Db) → P db → P (record db { transactions = ts })
  with_transactions ts db h = free.others db.topups db.quotes db.verifications ts db.debts db h

  with_topups : (ts : List DriverTopup) (db : Db) → P db → P (record db { topups = ts })
  with_topups ts db h = free.others ts db.quotes db.verifications db.transactions db.debts db h

  with_debts : (ds : List PassengerDebt) (db : Db) → P db → P (record db { debts = ds })
  with_debts ds db h = free.others db.topups db.quotes db.verifications db.transactions ds db h

  with_verifications :
      (vs : List DriverWithdrawalVerification) (db : Db)
      → P db
      → P (record db { verifications = vs })
  with_verifications vs db h = free.others db.topups db.quotes vs db.transactions db.debts db h

  pub find_by_ride_id-Keeps : (i : ℕ) → Keeps P (call (find_by_ride_id i))
  unfolding find_by_ride_id
  find_by_ride_id-Keeps i = call-Keeps _ λ db h. h

  pub save-Keeps : (now : ℕ) (t : Transaction) → Keeps P (call (save now t))
  unfolding save
  save-Keeps now t = call-Keeps _ λ db h.
      elim (Bool-cases (any (payment_clashes t) db.transactions)) [
        | inl clash ↦ rw clash h
        | inr fresh ↦ rw fresh (with_transactions _ db h)
      ]

  pub write_transaction-Keeps :
      (i : ℕ) (f : Transaction → Transaction) → Keeps P (call (write_transaction i f))
  unfolding write_transaction
  write_transaction-Keeps i f = call-Keeps _ λ db h.
      elim (Option-cases (find (has_transaction_id i) db.transactions)) [
        | inl absent ↦ rw (absent, write_transaction) h
        | inr (row, found) ↦ elim (Bool-cases (any (other_clashes (f row)) db.transactions)) [
          | inl clash ↦ rw (found, clash, write_transaction) h
          | inr free ↦ rw (found, free, write_transaction) (with_transactions _ db h)
        ]
      ]

  pub update_debt_status-Keeps :
      (now i : ℕ) (s : PassengerDebtStatus) (by : Option (ℕ × ℕ))
      → Keeps P (call (update_debt_status now i s by))
  unfolding update_debt_status
  update_debt_status-Keeps now i s by = call-Keeps _ λ db h.
      elim (Option-cases (find (has_debt_id i) db.debts)) [
        | inl absent ↦ rw (absent, update_debt_status) h
        | inr (row, found) ↦ rw (found, update_debt_status) (with_debts _ db h)
      ]

  pub save_topup-Keeps : (now : ℕ) (t : DriverTopup) → Keeps P (call (save_topup now t))
  unfolding save_topup
  save_topup-Keeps now t = call-Keeps _ λ db h.
      elim (Bool-cases (any (topup_clashes t) db.topups)) [
        | inl clash ↦ rw clash h
        | inr fresh ↦ rw fresh (with_topups _ db h)
      ]

  pub mark_topup_status-Keeps :
      (i : ℕ) (s : TopupStatus) (text : String) (paid_at : Option ℕ) (next : Option (Option ℕ))
      → Keeps P (call (mark_topup_status i s text paid_at next))
  unfolding mark_topup_status
  mark_topup_status-Keeps i s text paid_at next = call-Keeps _ λ db h.
      elim (Option-cases (find (has_topup_id i) db.topups)) [
        | inl absent ↦ rw (absent, mark_topup_status) h
        | inr (row, found) ↦ rw (found, mark_topup_status) (with_topups _ db h)
      ]

  pub save_verification-Keeps :
      (now : ℕ) (v : DriverWithdrawalVerification)
      → Keeps P (call (save_withdrawal_verification now v))
  unfolding save_withdrawal_verification
  save_verification-Keeps now v = call-Keeps _ λ db h.
      elim (Bool-cases (any (has_verification_id v.id) db.verifications)) [
        | inl clash ↦ rw clash h
        | inr fresh ↦ rw fresh (with_verifications _ db h)
      ]
