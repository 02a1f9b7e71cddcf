-- ===== src/Wallet/Conservation.antt =====
-- No money is made or lost by a withdrawal: what `reserve_withdrawal_from_quote` and
-- `mark_withdrawal_provider_state` of app_base/modules/payment/infra/repositories.py do to what
-- a driver owns in all.
use diddi_go_backend.Base.{
  ℕ, ◌≡◌, ◌∙◌, refl, inl, inr, true, false, ◌||◌, Option, some, String, arith, ◌==◌, Bool-cases,
  Option-cases, find, any, if◌then◌else◌,
}
use diddi_go_backend.Base.Int.{ℤ, pos, ◌+ℤ◌, ◌-ℤ◌, int_laws, parts_of_eq}
use diddi_go_backend.Wallet.Entities.{
  Db, DriverWallet, DriverWithdrawal, DriverWithdrawalQuote, WithdrawalStatus,
}
use diddi_go_backend.Wallet.Ledger.{find_wallet, get_or_create_wallet, has_reference}
use diddi_go_backend.Wallet.Withdrawals.{find_withdrawal, has_quote_id}
use diddi_go_backend.Wallet.Reserve.{
  reserved_row, reserved_entry, clashes, write_reservation, replay_reservation,
  reserve_withdrawal_from_quote,
}
use diddi_go_backend.Wallet.Provider.{
  ProviderState, is_final, noted, payout_taken, write_withdrawal, settle_released, settle,
  mark_withdrawal_provider_state,
}
use diddi_go_backend.Wallet.Balance.{find_wallet-move, find_wallet-snoc, get_or_create_wallet-found}
use diddi_go_backend.Wallet.Custody.{IsSound, found_id}
use diddi_go_backend.Wallet.Payout.{driver_wallet, settle_released-eq, settle_succeeded-eq}
use diddi_go_backend.Wallet.Reservation.{replay-cases, reserve-cases}
use diddi_go_backend.Wallet.Totals.{
  is_pending, withdrawal_reserved_total, total_balance, reserved-snoc, reserved-write,
  reserved-destined,
}

get_or_create_wallet-total :
    (d i now e : ℕ) (c : String) (db : Db)
    → total_balance d (get_or_create_wallet i now e c db).1 ≡ total_balance d db
unfolding get_or_create_wallet total_balance
get_or_create_wallet-total d i now e c db = ground (arith, find_wallet-snoc d i now e c db.wallets)

replay-total :
    (d : ℕ) (w : DriverWithdrawal) (db : Db)
    → total_balance d (replay_reservation w db).1 ≡ total_balance d db
unfolding total_balance
replay-total d w db = elim (replay-cases w db) [
  | inl same ↦ rw same
  | inr filled ↦ rw (filled, reserved-destined d w.quote_id w db.withdrawals)
]

write_reservation-total :
    (d entry_id now : ℕ) (q : DriverWithdrawalQuote) (w : DriverWithdrawal) (db : Db)
    (wallet : DriverWallet)
    → find_wallet w.driver_id db.wallets ≡ some wallet
    → total_balance d (write_reservation entry_id now (reserved_row now q w) db).1
      ≡ total_balance d db
unfolding write_reservation total_balance
write_reservation-total d entry_id now q w db wallet there =
    let row = reserved_row now q w in
    let e = reserved_entry entry_id now row in
    elim (Bool-cases (any (clashes row) db.withdrawals || has_reference e db.ledger)) [
      | inl clash ↦ rw (clash, write_reservation)
      | inr free ↦
          rw (free, write_reservation)
            (rw
              (
                find_wallet-move d w.driver_id (pos 0 -ℤ q.amount) now db.wallets wallet there,
                reserved-snoc d db.withdrawals row,
              )
              (elim (Bool-cases (w.driver_id == d)) [
                | inl mine ↦ rw mine (omega int_laws)
                | inr other ↦ rw other (omega int_laws)
              ]))
    ]

-- `reserve_withdrawal_from_quote`, however it ends, leaves the balance and the amounts under way
-- of every driver the same in total: what it takes from the balance is held.
pub reserve_conserves :
    (d wallet_id entry_id now : ℕ) (w : DriverWithdrawal) (db : Db)
    → total_balance d (reserve_withdrawal_from_quote wallet_id entry_id now w db).1
      ≡ total_balance d db
unfolding reserve_withdrawal_from_quote
reserve_conserves d wallet_id entry_id now w db =
    elim (Option-cases (find (has_quote_id w.quote_id) db.quotes)) [
      | inl absent ↦ rw (absent, reserve_withdrawal_from_quote)
      | inr (q, found) ↦
          let created = (get_or_create_wallet wallet_id now w.driver_id q.currency db).1 in
          let (wallet, there) =
            get_or_create_wallet-found wallet_id now w.driver_id q.currency db in
          let same_total = get_or_create_wallet-total d wallet_id now w.driver_id q.currency db in
          elim (reserve-cases wallet_id entry_id now w db q found) [
            | inl same ↦ rw same
            | inr (inl replayed) ↦ rw replayed (replay-total d w db)
            | inr (inr (inl short)) ↦ rw short same_total
            | inr (inr (inr written)) ↦
                rw written
                  (write_reservation-total d entry_id now q w created wallet there ∙ same_total)
          ]
    ]

-- What a payout that went through takes from the driver.
abbrev pub paid_out : ℕ → WithdrawalStatus → DriverWithdrawal → ℤ
paid_out d WithdrawalStatus.succeeded w = if w.driver_id == d then w.amount else pos 0
paid_out d _ w = pos 0

module _ (d entry_id now : ℕ) (p : ProviderState) (old : DriverWithdrawal) (db : Db)
    (found : find_withdrawal old.id db ≡ some old) (pending : is_pending old.status ≡ true)
    (sound : IsSound db) where
  open_ : is_final old.status ≡ false
  open_ = ground arith

  -- What is held after the row is written back in a status, beside what was held.
  held_after :
      (st : WithdrawalStatus) (s r : Option ℕ)
      → let row' = record (noted now p old) { status = st; succeeded_at = s; released_at = r } in
        withdrawal_reserved_total d (write_withdrawal row' db).withdrawals
          +ℤ (if old.driver_id == d then old.amount else pos 0)
        ≡ withdrawal_reserved_total d db.withdrawals
          +ℤ (if is_pending st then (if old.driver_id == d then old.amount else pos 0) else pos 0)
  held_after st s r =
      let row' = record (noted now p old) { status = st; succeeded_at = s; released_at = r } in
      ground (arith, reserved-write d old.id db.withdrawals old row' found)

  released-total :
      total_balance d (settle_released entry_id now (noted now p old) db).1 +ℤ pos 0
      ≡ total_balance d db
  unfolding total_balance
  released-total =
      let (w, there) = driver_wallet entry_id now old (noted now p old) db found open_ refl sound in
      let held_ = held_after WithdrawalStatus.released old.succeeded_at (some now) in
      rw (settle_released-eq entry_id now old (noted now p old) db found open_ refl sound w there) (
        rw (find_wallet-move d old.driver_id old.amount now db.wallets w there)
          (elim (Bool-cases (old.driver_id == d)) [
            | inl mine ↦ rw mine (omega (int_laws, parts_of_eq _ _ (rw mine at held_)))
            | inr other ↦ rw other (omega (int_laws, parts_of_eq _ _ (rw other at held_)))
          ]))

  settle-total :
      (target : WithdrawalStatus)
      → total_balance d (settle target entry_id now (noted now p old) db).1 +ℤ paid_out d target old
        ≡ total_balance d db
  unfolding settle total_balance
  settle-total WithdrawalStatus.succeeded =
      elim (settle_succeeded-eq entry_id now old (noted now p old) db found open_ refl sound) [
        | inl e ↦ rw e (
            omega (
              int_laws,
              parts_of_eq _ _ (held_after WithdrawalStatus.succeeded (some now) old.released_at),
            ))
        | inr e ↦ rw e (
            omega (
              int_laws,
              parts_of_eq _ _ (held_after WithdrawalStatus.succeeded (some now) old.released_at),
            ))
      ]
  settle-total WithdrawalStatus.failed = released-total
  settle-total WithdrawalStatus.released = released-total
  settle-total WithdrawalStatus.reserved = omega (
    int_laws,
    parts_of_eq _ _ (held_after WithdrawalStatus.reserved old.succeeded_at old.released_at),
  )
  settle-total WithdrawalStatus.processing = omega (
    int_laws,
    parts_of_eq _ _ (held_after WithdrawalStatus.processing old.succeeded_at old.released_at),
  )

-- In sound tables, an answer about a withdrawal that is reserved or processing, with a payout
-- that no other row has, takes from its driver's balance and held amounts together what was paid
-- out: the amount if the payout succeeded, and nothing otherwise. No other driver's total
-- changes.
pub mark_conserves :
    (d entry_id now i : ℕ) (p : ProviderState) (db : Db) (old : DriverWithdrawal)
    → IsSound db
    → find_withdrawal i db ≡ some old
    → is_pending old.status ≡ true
    → payout_taken (noted now p old) db.withdrawals ≡ false
    → total_balance d (mark_withdrawal_provider_state entry_id now i p db).1
        +ℤ paid_out d p.status old
      ≡ total_balance d db
unfolding mark_withdrawal_provider_state
mark_conserves d entry_id now i p db old sound found pending free =
    let known = found_id i db.withdrawals old found in
    let open_' : is_final old.status ≡ false = ground arith in
    rw (found, open_', free, mark_withdrawal_provider_state)
      (settle-total d entry_id now p old db (simp known found) pending sound p.status)
