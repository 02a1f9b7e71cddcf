-- ===== src/Wallet/Reservation.antt =====
-- What `reserve_withdrawal_from_quote` and `record_ledger_entry_once` of
-- app_base/modules/payment/infra/repositories.py do to sound tables.
use diddi_go_backend.Base.{
  ℕ, ◌≡◌, ◌⊎◌, refl, inl, inr, true, false, ◌||◌, Option, none, some, List, [], ◌∷◌, ◌++◌, String,
  arith, ◌==◌, Bool-cases, Option-cases, any, is_some, find, update, if◌then◌else◌,
}
use diddi_go_backend.Base.Int.{pos, ◌-ℤ◌}
use diddi_go_backend.Wallet.Entities.{Db, DriverWallet, DriverWithdrawal, DriverWithdrawalQuote}
use diddi_go_backend.Wallet.Ledger.{
  find_wallet, has_reference, move_balance, get_or_create_wallet, new_wallet,
}
use diddi_go_backend.Wallet.Withdrawals.{
  find_withdrawal, has_withdrawal_id, has_quote, has_quote_id,
}
use diddi_go_backend.Wallet.Reserve.{
  clashes, reserved_row, reserved_entry, write_reservation, replay_reservation, destined,
  reserve_withdrawal_from_quote,
}
use diddi_go_backend.Wallet.Balance.{
  move-balanced, get_or_create_wallet-IsBalanced, get_or_create_wallet-found,
}
use diddi_go_backend.Wallet.Once.{any-snoc}
use diddi_go_backend.Wallet.Custody.{
  IsSound, gives_back, released_row, has_wallet, found-move, has_wallet_kept,
}

-- A wallet that is there stays there.
found-new :
    (d i now e : ℕ) (c : String) (ws : List DriverWallet)
    → is_some (find_wallet d ws) ≡ true
    → is_some (find_wallet d (ws ++ new_wallet i now e c ∷ [])) ≡ true
found-new d i now e c [] h = cc
found-new d i now e c (v ∷ ws) h = ground (arith, found-new d i now e c ws)

has_wallet-new :
    (o : Option DriverWithdrawal) (i now e : ℕ) (c : String) (ws : List DriverWallet)
    → has_wallet ws o ≡ true
    → has_wallet (ws ++ new_wallet i now e c ∷ []) o ≡ true
has_wallet-new none i now e c ws h = refl
has_wallet-new (some w) i now e c ws h = found-new w.driver_id i now e c ws h

pub get_or_create_wallet-IsSound :
    (i now e : ℕ) (c : String) (db : Db)
    → IsSound db
    → IsSound (get_or_create_wallet i now e c db).1
unfolding get_or_create_wallet
get_or_create_wallet-IsSound i now e c db sound =
    let explained = get_or_create_wallet-IsBalanced i now e c db sound.balanced in
    elim (Option-cases (find_wallet e db.wallets)) [
      | inr (w, found) ↦ rw (found, get_or_create_wallet) sound
      | inl absent ↦
          rw (absent, get_or_create_wallet)
            (record {
              balanced = rw (absent, get_or_create_wallet) at explained;
              given_back = sound.given_back;
              walleted = λ j.
                  has_wallet-new (find_withdrawal j db) i now e c db.wallets (sound.walleted j);
            })
    ]

-- A row at the end is found when no row before it has its id.
find-snoc :
    (i : ℕ) (ws : List DriverWithdrawal) (row : DriverWithdrawal)
    → any (clashes row) ws ≡ false
    → find (has_withdrawal_id i) (ws ++ row ∷ [])
      ≡ (if row.id == i then some row else find (has_withdrawal_id i) ws)
find-snoc i [] row h = refl
find-snoc i (v ∷ ws) row h = ground (arith, find-snoc i ws row)

-- The new row's id is in no row before it.
find-fresh :
    (ws : List DriverWithdrawal) (row : DriverWithdrawal)
    → any (clashes row) ws ≡ false
    → find (has_withdrawal_id row.id) ws ≡ none
find-fresh [] row h = refl
find-fresh (v ∷ ws) row h = ground (arith, find-fresh ws row)

no_given_back :
    (row : DriverWithdrawal) (db : Db)
    → IsSound db
    → any (clashes row) db.withdrawals ≡ false
    → any (gives_back row.id) db.ledger ≡ false
no_given_back row db sound fresh =
    ground (arith, sound.given_back row.id, find-fresh db.withdrawals row fresh)

-- A reservation moves the amount from the balance to the withdrawal, and stays sound.
write_reservation-IsSound :
    (entry_id now : ℕ) (row : DriverWithdrawal) (db : Db) (w : DriverWallet)
    → find_wallet row.driver_id db.wallets ≡ some w
    → IsSound db
    → IsSound (write_reservation entry_id now row db).1
unfolding write_reservation
write_reservation-IsSound entry_id now row db w there sound =
    let e = reserved_entry entry_id now row in
    let x = pos 0 -ℤ row.amount in
    elim (Bool-cases (any (clashes row) db.withdrawals || has_reference e db.ledger)) [
      | inl clash ↦ rw (clash, write_reservation) sound
      | inr free ↦
          let fresh : any (clashes row) db.withdrawals ≡ false = ground arith in
          rw (free, write_reservation)
            (record {
              balanced = λ d.
                  move-balanced d row.driver_id x now db.wallets w db.ledger e there (ground arith)
                    (sound.balanced d);
              given_back = λ i h. rw (find-snoc i db.withdrawals row fresh) (
                  ground (
                    arith,
                    any-snoc (gives_back i) db.ledger e,
                    sound.given_back i,
                    no_given_back row db sound fresh,
                  ));
              walleted = λ i.
                  rw (find-snoc i db.withdrawals row fresh) (elim (Bool-cases (row.id == i)) [
                    | inl same ↦
                        rw (same, found-move row.driver_id row.driver_id x now db.wallets, there)
                    | inr other ↦ rw other (
                        has_wallet_kept (find_withdrawal i db) db.wallets
                          (move_balance row.driver_id x now db.wallets)
                          (λ d. found-move d row.driver_id x now db.wallets) (sound.walleted i))
                  ]);
            })
    ]

released-destined :
    (i q : ℕ) (w : DriverWithdrawal) (ws : List DriverWithdrawal)
    → released_row (find (has_withdrawal_id i) (update (has_quote q) (destined w) ws))
      ≡ released_row (find (has_withdrawal_id i) ws)
released-destined i q w [] = refl
released-destined i q w (v ∷ ws) = ground (arith, released-destined i q w ws)

has_wallet-destined :
    (i q : ℕ) (w : DriverWithdrawal) (ws : List DriverWithdrawal) (vs : List DriverWallet)
    → has_wallet vs (find (has_withdrawal_id i) (update (has_quote q) (destined w) ws))
      ≡ has_wallet vs (find (has_withdrawal_id i) ws)
has_wallet-destined i q w [] vs = refl
has_wallet-destined i q w (v ∷ ws) vs = ground (arith, has_wallet-destined i q w ws vs)

destined-IsSound :
    (q : ℕ) (w : DriverWithdrawal) (db : Db)
    → IsSound db
    → IsSound (record db { withdrawals = update (has_quote q) (destined w) db.withdrawals })
destined-IsSound q w db sound = record {
  balanced = sound.balanced;
  given_back = λ i h. rw (released-destined i q w db.withdrawals) (sound.given_back i h);
  walleted = λ i. rw (has_wallet-destined i q w db.withdrawals db.wallets) (sound.walleted i);
}

-- A replay changes nothing but a missing destination.
pub replay-cases :
    (w : DriverWithdrawal) (db : Db)
    → ((replay_reservation w db).1 ≡ db)
      ⊎ ((replay_reservation w db).1
          ≡ record db { withdrawals = update (has_quote w.quote_id) (destined w) db.withdrawals })
unfolding replay_reservation
replay-cases w db = ground arith

replay-IsSound : (w : DriverWithdrawal) (db : Db) → IsSound db → IsSound (replay_reservation w db).1
replay-IsSound w db sound = elim (replay-cases w db) [
  | inl same ↦ rw same sound
  | inr filled ↦ rw filled (destined-IsSound w.quote_id w db sound)
]

-- Where a reservation from a quote that is there ends.
pub reserve-cases :
    (wallet_id entry_id now : ℕ) (w : DriverWithdrawal) (db : Db) (q : DriverWithdrawalQuote)
    → find (has_quote_id w.quote_id) db.quotes ≡ some q
    → let after = (reserve_withdrawal_from_quote wallet_id entry_id now w db).1 in
      let created = (get_or_create_wallet wallet_id now w.driver_id q.currency db).1 in
      (after ≡ db)
      ⊎ (after ≡ (replay_reservation w db).1)
      ⊎ (after ≡ created)
      ⊎ (after ≡ (write_reservation entry_id now (reserved_row now q w) created).1)
unfolding reserve_withdrawal_from_quote
reserve-cases wallet_id entry_id now w db q found = ground arith

-- `reserve_withdrawal_from_quote`, whether it reserves, replays or fails, keeps sound tables
-- sound.
pub reserve-IsSound :
    (wallet_id entry_id now : ℕ) (w : DriverWithdrawal) (db : Db)
    → IsSound db
    → IsSound (reserve_withdrawal_from_quote wallet_id entry_id now w db).1
unfolding reserve_withdrawal_from_quote
reserve-IsSound wallet_id entry_id now w db sound =
    elim (Option-cases (find (has_quote_id w.quote_id) db.quotes)) [
      | inl absent ↦ rw (absent, reserve_withdrawal_from_quote) sound
      | inr (q, found) ↦
          let created = (get_or_create_wallet wallet_id now w.driver_id q.currency db).1 in
          let (wallet, there) =
            get_or_create_wallet-found wallet_id now w.driver_id q.currency db in
          let sound' = get_or_create_wallet-IsSound wallet_id now w.driver_id q.currency db sound in
          elim (reserve-cases wallet_id entry_id now w db q found) [
            | inl same ↦ rw same sound
            | inr (inl replayed) ↦ rw replayed (replay-IsSound w db sound)
            | inr (inr (inl short)) ↦ rw short sound'
            | inr (inr (inr written)) ↦ rw written (
                write_reservation-IsSound entry_id now (reserved_row now q w) created wallet there
                  sound')
          ]
    ]
