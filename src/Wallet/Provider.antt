-- ===== src/Wallet/Provider.antt =====
-- What the payout provider's answers do to a withdrawal: `mark_withdrawal_provider_state` of
-- app_base/modules/payment/infra/repositories.py. The lock on the row makes it one step.
use diddi_go_backend.Base.{
  ℕ, Bool, true, false, not, ◌&&◌, Option, none, some, List, String, if◌then◌else◌, ◌==◌, any,
  update,
}
use diddi_go_backend.Wallet.Entities.{
  Db, DriverWithdrawal, credit, debit, withdrawal_succeeded, withdrawal_released, WithdrawalStatus,
}
use diddi_go_backend.Wallet.Session.{no_result_found, integrity_error, ok, err, Query}
use diddi_go_backend.Wallet.Ledger.{find_wallet, move_balance, withdrawal_entry, insert_once}
use diddi_go_backend.Wallet.Withdrawals.{has_withdrawal_id, find_withdrawal, same_id}

-- `row.status in (SUCCEEDED, RELEASED)`
abbrev pub is_final : WithdrawalStatus → Bool
is_final WithdrawalStatus.succeeded = true
is_final WithdrawalStatus.released = true
is_final _ = false

-- What the provider answered about a payout.
pub record ProviderState : Type 0 where
  pub status : WithdrawalStatus
  pub payout_id : Option ℕ
  pub provider_status : Option String
  pub failure_code : Option String
  pub failure_message : Option String

-- `payout_id or row.payout_id`
abbrev pub keep_payout : Option ℕ → Option ℕ → Option ℕ
keep_payout (some p) old = some p
keep_payout none old = old

-- The writes that every answer makes on a row that is not final.
abbrev pub noted : ℕ → ProviderState → DriverWithdrawal → DriverWithdrawal
noted now p row = record row {
  payout_id = keep_payout p.payout_id row.payout_id;
  provider_status = p.provider_status;
  failure_code = p.failure_code;
  failure_message = p.failure_message;
  updated_at = some now;
}

abbrev pub write_withdrawal : DriverWithdrawal → Db → Db
write_withdrawal row db = record db {
  withdrawals = update (has_withdrawal_id row.id) (λ _. row) db.withdrawals;
}

-- Another withdrawal already has this payout (`uq_payment_driver_withdrawals_payout`).
abbrev pub payout_taken : DriverWithdrawal → List DriverWithdrawal → Bool
payout_taken row = any (λ w. not (w.id == row.id) && same_id w.payout_id row.payout_id)

-- `target is SUCCEEDED`: the money has left, and the ledger says so.
unfoldable pub settle_succeeded : (entry_id now : ℕ) → DriverWithdrawal → Query DriverWithdrawal
unfolding insert_once
settle_succeeded entry_id now row db =
    let row' = record row { status = WithdrawalStatus.succeeded; succeeded_at = some now } in
    let e = withdrawal_entry entry_id now row' withdrawal_succeeded debit "withdrawal_succeeded" in
    (ok row', record (write_withdrawal row' db) { ledger = (insert_once e db.ledger).1 })

-- `target in (FAILED, RELEASED)`: the amount goes back to the wallet, once.
unfoldable pub settle_released : (entry_id now : ℕ) → DriverWithdrawal → Query DriverWithdrawal
unfolding insert_once
settle_released entry_id now row db =
    let row' = record row { status = WithdrawalStatus.released; released_at = some now } in
    let e = withdrawal_entry entry_id now row' withdrawal_released credit "withdrawal_released" in
    let (inserted, ledger') = insert_once e db.ledger in
    let db' = record (write_withdrawal row' db) { ledger = ledger' } in
    if inserted
    then elim (find_wallet row.driver_id db.wallets) [
      | none ↦ (err no_result_found, db')
      | some w ↦
          (ok row', record db' { wallets = move_balance row.driver_id row.amount now db.wallets })
    ]
    else (ok row', db')

-- The branches of `mark_withdrawal_provider_state` on the target.
unfoldable pub settle :
    WithdrawalStatus → (entry_id now : ℕ) → DriverWithdrawal → Query DriverWithdrawal
settle WithdrawalStatus.succeeded entry_id now row db = settle_succeeded entry_id now row db
settle WithdrawalStatus.failed entry_id now row db = settle_released entry_id now row db
settle WithdrawalStatus.released entry_id now row db = settle_released entry_id now row db
settle target entry_id now row db =
    let row' = record row { status = target } in (ok row', write_withdrawal row' db)

-- `mark_withdrawal_provider_state`
unfoldable pub mark_withdrawal_provider_state :
    (entry_id now withdrawal_id : ℕ) → ProviderState → Query DriverWithdrawal
mark_withdrawal_provider_state entry_id now withdrawal_id p db =
    elim (find_withdrawal withdrawal_id db) [
      | none ↦ (err no_result_found, db)
      | some row ↦
          if is_final row.status
          then (ok row, db)
          else if payout_taken (noted now p row) db.withdrawals
          then (err integrity_error, db)
          else settle p.status entry_id now (noted now p row) db
    ]
