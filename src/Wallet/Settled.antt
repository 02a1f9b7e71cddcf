-- ===== src/Wallet/Settled.antt =====
-- The state of a withdrawal after the provider's answers, and the outcome of a reservation
-- (app_base/modules/payment/infra/repositories.py).
use mathlib.Core.Path.{subst}
use diddi_go_backend.Base.{ℕ, ◌≡◌, refl, inl, inr, true, false, some, arith, find, update}
use diddi_go_backend.Wallet.Entities.{Db, DriverWithdrawal, WithdrawalStatus}
use diddi_go_backend.Wallet.Session.{ok, Result}
use diddi_go_backend.Wallet.Withdrawals.{find_withdrawal, has_withdrawal_id}
use diddi_go_backend.Wallet.Provider.{
  ProviderState, is_final, noted, payout_taken, settle_released, settle_succeeded, settle,
  mark_withdrawal_provider_state,
}
use diddi_go_backend.Wallet.Custody.{IsSound, found_id, find-write}
use diddi_go_backend.Wallet.Payout.{driver_wallet, settle_released-eq, settle_succeeded-eq}

-- The status under which an answer is kept: a failed payout is a released one.
abbrev pub recorded_status : WithdrawalStatus → WithdrawalStatus
recorded_status WithdrawalStatus.failed = WithdrawalStatus.released
recorded_status target = target

-- The withdrawal as a call returns it and as the tables then have it.
abbrev pub Records : ℕ → WithdrawalStatus → Result DriverWithdrawal × Db → Type 0
Records i st (r, db) =
    (row : DriverWithdrawal) × (r ≡ ok row) × (find_withdrawal i db ≡ some row) × (row.status ≡ st)

module _ (entry_id now : ℕ) (old row : DriverWithdrawal) (db : Db)
    (found : find_withdrawal row.id db ≡ some old) (open_ : is_final old.status ≡ false)
    (same_driver : row.driver_id ≡ old.driver_id) (sound : IsSound db) where
  found_written :
      (row' : DriverWithdrawal)
      → row'.id ≡ row.id
      → find
          (has_withdrawal_id row.id)
          (update (has_withdrawal_id row.id) (λ _. row') db.withdrawals)
        ≡ some row'
  found_written row' e = ground (arith, find-write row.id row.id db.withdrawals old row' found e)

  succeeded-Records :
      Records row.id WithdrawalStatus.succeeded (settle_succeeded entry_id now row db)
  succeeded-Records =
      let row' = record row { status = WithdrawalStatus.succeeded; succeeded_at = some now } in
      elim (settle_succeeded-eq entry_id now old row db found open_ same_driver sound) [
        | inl e ↦ rw e (row', refl, found_written row' refl, refl)
        | inr e ↦ rw e (row', refl, found_written row' refl, refl)
      ]

  released-Records : Records row.id WithdrawalStatus.released (settle_released entry_id now row db)
  released-Records =
      let row' = record row { status = WithdrawalStatus.released; released_at = some now } in
      let (w, there) = driver_wallet entry_id now old row db found open_ same_driver sound in
      rw (settle_released-eq entry_id now old row db found open_ same_driver sound w there)
        (row', refl, found_written row' refl, refl)

  settle-Records :
      (target : WithdrawalStatus)
      → Records row.id (recorded_status target) (settle target entry_id now row db)
  unfolding settle
  settle-Records WithdrawalStatus.succeeded = succeeded-Records
  settle-Records WithdrawalStatus.failed = released-Records
  settle-Records WithdrawalStatus.released = released-Records
  settle-Records WithdrawalStatus.reserved =
      let row' = record row { status = WithdrawalStatus.reserved } in
      (row', refl, found_written row' refl, refl)
  settle-Records WithdrawalStatus.processing =
      let row' = record row { status = WithdrawalStatus.processing } in
      (row', refl, found_written row' refl, refl)

-- In sound tables, an answer about a withdrawal that is not final, with a payout that no other
-- row has, is recorded without an error: the call returns the row that the tables then have,
-- under the status of the answer, a failed payout as released.
pub mark-Records :
    (entry_id now i : ℕ) (p : ProviderState) (db : Db) (old : DriverWithdrawal)
    → IsSound db
    → find_withdrawal i db ≡ some old
    → is_final old.status ≡ false
    → payout_taken (noted now p old) db.withdrawals ≡ false
    → Records i (recorded_status p.status) (mark_withdrawal_provider_state entry_id now i p db)
unfolding mark_withdrawal_provider_state
mark-Records entry_id now i p db old sound found open_ free =
    let known = found_id i db.withdrawals old found in
    rw (found, open_, free, mark_withdrawal_provider_state)
      (subst
        (λ j.
          Records j (recorded_status p.status) (settle p.status entry_id now (noted now p old) db))
        known
        (settle-Records entry_id now old (noted now p old) db (simp known found) open_ refl sound
          p.status))

-- A final row answers every later call.
final_answer :
    (entry_id now i : ℕ) (p : ProviderState) (db : Db) (row : DriverWithdrawal)
    → find_withdrawal i db ≡ some row
    → is_final row.status ≡ true
    → mark_withdrawal_provider_state entry_id now i p db ≡ (ok row, db)
unfolding mark_withdrawal_provider_state
final_answer entry_id now i p db row found final = ground arith

-- In sound tables, after an answer that makes a withdrawal final which was not, with a payout
-- that no other row has, every later answer about it, whatever it says, returns the same row and
-- changes no table.
pub first_answer_stands :
    (entry_id now i entry_id' now' : ℕ) (p p' : ProviderState) (db : Db) (old : DriverWithdrawal)
    → IsSound db
    → find_withdrawal i db ≡ some old
    → is_final old.status ≡ false
    → payout_taken (noted now p old) db.withdrawals ≡ false
    → is_final (recorded_status p.status) ≡ true
    → let (r, db') = mark_withdrawal_provider_state entry_id now i p db in
      mark_withdrawal_provider_state entry_id' now' i p' db' ≡ (r, db')
first_answer_stands entry_id now i entry_id' now' p p' db old sound found open_ free final =
    let (row, returned, there, status) =
      mark-Records entry_id now i p db old sound found open_ free in
    rw returned (
      final_answer entry_id' now' i p' (mark_withdrawal_provider_state entry_id now i p db).1 row
        there (rw status final))
