-- ===== src/Wallet/Payout.antt =====
-- What `mark_withdrawal_provider_state` of app_base/modules/payment/infra/repositories.py does to
-- sound tables.
use mathlib.Core.Path.{subst}
use diddi_go_backend.Base.{
  ℕ, ◌≡◌, ◌⊎◌, refl, inl, inr, true, false, some, List, [], ◌∷◌, ◌++◌, arith, ◌==◌, Bool-cases,
  Option-cases, any, is_some, find, update, if◌then◌else◌,
}
use diddi_go_backend.Wallet.Entities.{
  Db, DriverWallet, DriverLedgerEntry, DriverWithdrawal, withdrawal_released, withdrawal_succeeded,
  WithdrawalStatus, credit, debit,
}
use diddi_go_backend.Wallet.Session.{ok}
use diddi_go_backend.Wallet.Ledger.{find_wallet, move_balance, same_reference, withdrawal_entry}
use diddi_go_backend.Wallet.Withdrawals.{find_withdrawal, has_withdrawal_id}
use diddi_go_backend.Wallet.Provider.{
  ProviderState, is_final, noted, payout_taken, write_withdrawal, settle_released, settle_succeeded,
  settle, mark_withdrawal_provider_state,
}
use diddi_go_backend.Wallet.Balance.{balance_of, ledger_balance, move-balanced, still-balanced}
use diddi_go_backend.Wallet.Once.{any-snoc}
use diddi_go_backend.Wallet.Custody.{
  IsSound, gives_back, is_released, has_wallet, found_id, find-write, found-move, has_wallet_kept,
  reference-gives_back,
}

module _ (entry_id now : ℕ) (old row : DriverWithdrawal) (db : Db)
    (found : find_withdrawal row.id db ≡ some old) (open_ : is_final old.status ≡ false)
    (same_driver : row.driver_id ≡ old.driver_id) (sound : IsSound db) where
  -- A withdrawal that is not final has not been given back.
  not_given_back : any (gives_back row.id) db.ledger ≡ false
  not_given_back = elim (Bool-cases (any (gives_back row.id) db.ledger)) [
    | inl there ↦ let given = sound.given_back row.id there in ground arith
    | inr absent ↦ absent
  ]

  no_reference :
      any (same_reference row.driver_id withdrawal_released "driver_withdrawal" row.id) db.ledger
      ≡ false
  no_reference = ground (arith, not_given_back, reference-gives_back row.driver_id row.id db.ledger)

  pub driver_wallet : (w : DriverWallet) × (find_wallet row.driver_id db.wallets ≡ some w)
  driver_wallet =
      let there : is_some (find_wallet row.driver_id db.wallets) ≡ true =
        rw same_driver
          (subst (λ o. has_wallet db.wallets o ≡ true) found (sound.walleted row.id)) in
      elim (Option-cases (find_wallet row.driver_id db.wallets)) [
        | inl absent ↦ absurd (ground arith)
        | inr there_ ↦ there_
      ]

  -- The tables after the row is written back, with other wallets and another ledger.
  module _ (row' : DriverWithdrawal) (wallets' : List DriverWallet)
      (ledger' : List DriverLedgerEntry) (same_id_ : row'.id ≡ row.id)
      (same_driver' : row'.driver_id ≡ row.driver_id)
      (explained : (d : ℕ) → balance_of d wallets' ≡ ledger_balance d ledger')
      (returns : (i : ℕ)
        → any (gives_back i) ledger' ≡ true
        → (any (gives_back i) db.ledger ≡ true)
          ⊎ (((row.id == i) ≡ true) × (is_released row'.status ≡ true)))
      (same_wallets : (d : ℕ)
        → is_some (find_wallet d wallets') ≡ is_some (find_wallet d db.wallets)) where
    pub find-written :
        (i : ℕ)
        → find (has_withdrawal_id i) (update (has_withdrawal_id row'.id) (λ _. row') db.withdrawals)
          ≡ (if row.id == i then some row' else find_withdrawal i db)
    find-written i = simp same_id_ (find-write i row.id db.withdrawals old row' found same_id_)

    write-IsSound :
        IsSound (record (write_withdrawal row' db) { wallets = wallets'; ledger = ledger' })
    write-IsSound = record {
      balanced = explained;
      given_back = λ i h. rw (find-written i) (elim (Bool-cases (row.id == i)) [
        | inl same ↦ ground (arith, returns i h, not_given_back)
        | inr other ↦ ground (arith, returns i h, sound.given_back i)
      ]);
      walleted = λ i. rw (find-written i) (elim (Bool-cases (row.id == i)) [
        | inl same ↦ rw same (rw (same_wallets row'.driver_id, same_driver', driver_wallet.1))
        | inr other ↦ rw other (
            has_wallet_kept (find_withdrawal i db) db.wallets wallets' same_wallets
              (sound.walleted i))
      ]);
    }

  pub settle_released-eq :
      (w : DriverWallet)
      → find_wallet row.driver_id db.wallets ≡ some w
      → let row' = record row { status = WithdrawalStatus.released; released_at = some now } in
        settle_released entry_id now row db ≡ (
          ok row',
          record (write_withdrawal row' db) {
            wallets = move_balance row.driver_id row.amount now db.wallets;
            ledger =
                db.ledger
                ++ withdrawal_entry entry_id now row' withdrawal_released credit
                    "withdrawal_released"
                  ∷ [];
          },
        )
  unfolding settle_released
  settle_released-eq w there = ground (arith, no_reference)

  pub settle_succeeded-eq :
      let row' = record row { status = WithdrawalStatus.succeeded; succeeded_at = some now } in
      let e =
        withdrawal_entry entry_id now row' withdrawal_succeeded debit "withdrawal_succeeded" in
      (settle_succeeded entry_id now row db
        ≡ (ok row', record (write_withdrawal row' db) { ledger = db.ledger ++ e ∷ [] }))
      ⊎ (settle_succeeded entry_id now row db ≡ (ok row', write_withdrawal row' db))
  unfolding settle_succeeded
  settle_succeeded-eq = ground arith

  released-IsSound : IsSound (settle_released entry_id now row db).1
  released-IsSound =
      let (w, there) = driver_wallet in
      let row' = record row { status = WithdrawalStatus.released; released_at = some now } in
      let e = withdrawal_entry entry_id now row' withdrawal_released credit "withdrawal_released" in
      rw (settle_released-eq w there) (
        write-IsSound row' (move_balance row.driver_id row.amount now db.wallets)
          (db.ledger ++ e ∷ []) refl refl
          (λ d.
            move-balanced d row.driver_id row.amount now db.wallets w db.ledger e there
              (ground arith) (sound.balanced d))
          (λ i h. ground (arith, any-snoc (gives_back i) db.ledger e))
          (λ d. found-move d row.driver_id row.amount now db.wallets))

  succeeded-IsSound : IsSound (settle_succeeded entry_id now row db).1
  succeeded-IsSound =
      let row' = record row { status = WithdrawalStatus.succeeded; succeeded_at = some now } in
      let e =
        withdrawal_entry entry_id now row' withdrawal_succeeded debit "withdrawal_succeeded" in
      elim settle_succeeded-eq [
        | inl new ↦ rw new (
            write-IsSound row' db.wallets (db.ledger ++ e ∷ []) refl refl
              (λ d. still-balanced d db.wallets db.ledger e (ground arith) (sound.balanced d))
              (λ i h. ground (arith, any-snoc (gives_back i) db.ledger e)) (λ d. refl))
        | inr old_ ↦ rw old_ (
            write-IsSound row' db.wallets db.ledger refl refl sound.balanced (λ i h. inl h)
              (λ d. refl))
      ]

  pending-IsSound :
      (target : WithdrawalStatus) → IsSound (write_withdrawal (record row { status = target }) db)
  pending-IsSound target =
      write-IsSound (record row { status = target }) db.wallets db.ledger refl refl sound.balanced
        (λ i h. inl h) (λ d. refl)

  settle-IsSound : (target : WithdrawalStatus) → IsSound (settle target entry_id now row db).1
  unfolding settle
  settle-IsSound WithdrawalStatus.succeeded = succeeded-IsSound
  settle-IsSound WithdrawalStatus.failed = released-IsSound
  settle-IsSound WithdrawalStatus.released = released-IsSound
  settle-IsSound WithdrawalStatus.reserved = pending-IsSound WithdrawalStatus.reserved
  settle-IsSound WithdrawalStatus.processing = pending-IsSound WithdrawalStatus.processing

-- Whatever the provider answers about whichever withdrawal, and however the call ends, sound
-- tables stay sound.
pub mark-IsSound :
    (entry_id now i : ℕ) (p : ProviderState) (db : Db)
    → IsSound db
    → IsSound (mark_withdrawal_provider_state entry_id now i p db).1
unfolding mark_withdrawal_provider_state
mark-IsSound entry_id now i p db sound = elim (Option-cases (find_withdrawal i db)) [
  | inl absent ↦ rw (absent, mark_withdrawal_provider_state) sound
  | inr (row, found) ↦
      let known = found_id i db.withdrawals row found in
      elim (Bool-cases (is_final row.status)) [
        | inl final ↦ rw (found, final, mark_withdrawal_provider_state) sound
        | inr open_ ↦ elim (Bool-cases (payout_taken (noted now p row) db.withdrawals)) [
          | inl taken ↦ rw (found, open_, taken, mark_withdrawal_provider_state) sound
          | inr free ↦
              rw (found, open_, free, mark_withdrawal_provider_state)
                (settle-IsSound entry_id now row (noted now p row) db (simp known found) open_ refl
                  sound p.status)
        ]
      ]
]
