-- ===== src/Wallet/Custody.antt =====
-- The invariant of the wallet's tables that ties withdrawals to the ledger, and its preservation
-- by the methods of app_base/modules/payment/infra/repositories.py.
use diddi_go_backend.Base.{
  ℕ, ◌≡◌, refl, Bool, true, false, ◌&&◌, Option, none, some, List, [], ◌∷◌, arith, ◌==◌, any,
  is_some, str_eq, find, update, if◌then◌else◌,
}
use diddi_go_backend.Base.Int.{ℤ}
use diddi_go_backend.Wallet.Entities.{
  Db, DriverWallet, DriverLedgerEntry, DriverWithdrawal, withdrawal_released, WithdrawalStatus,
  entry_type_eq,
}
use diddi_go_backend.Wallet.Ledger.{find_wallet, move_balance, same_reference}
use diddi_go_backend.Wallet.Withdrawals.{find_withdrawal, has_withdrawal_id}
use diddi_go_backend.Wallet.Balance.{IsBalanced}

-- The entry that gives the amount of a withdrawal back.
abbrev pub gives_back : ℕ → DriverLedgerEntry → Bool
gives_back i e =
    entry_type_eq e.entry_type withdrawal_released
    && str_eq e.reference_type "driver_withdrawal"
    && e.reference_id == i

abbrev pub is_released : WithdrawalStatus → Bool
is_released WithdrawalStatus.released = true
is_released _ = false

abbrev pub released_row : Option DriverWithdrawal → Bool
released_row none = false
released_row (some w) = is_released w.status

abbrev pub has_wallet : List DriverWallet → Option DriverWithdrawal → Bool
has_wallet ws none = true
has_wallet ws (some w) = is_some (find_wallet w.driver_id ws)

pub record IsSound (db : Db) : Type 0 where
  -- every balance is the one that the ledger explains
  pub balanced : IsBalanced db
  -- money is given back only for a withdrawal that is there and is marked as released
  pub given_back :
      (i : ℕ) → any (gives_back i) db.ledger ≡ true → released_row (find_withdrawal i db) ≡ true
  -- the driver of every withdrawal has a wallet
  pub walleted : (i : ℕ) → has_wallet db.wallets (find_withdrawal i db) ≡ true

pub found_id :
    (i : ℕ) (ws : List DriverWithdrawal) (w : DriverWithdrawal)
    → find (has_withdrawal_id i) ws ≡ some w
    → w.id ≡ i
found_id i [] w h = cc
found_id i (v ∷ ws) w h = ground (arith, found_id i ws w)

pub find-write :
    (i j : ℕ) (ws : List DriverWithdrawal) (w row : DriverWithdrawal)
    → find (has_withdrawal_id j) ws ≡ some w
    → row.id ≡ j
    → find (has_withdrawal_id i) (update (has_withdrawal_id j) (λ _. row) ws)
      ≡ (if j == i then some row else find (has_withdrawal_id i) ws)
find-write i j [] w row h e = cc
find-write i j (v ∷ ws) w row h e = ground (arith, find-write i j ws w row)

pub found-move :
    (d e : ℕ) (x : ℤ) (now : ℕ) (ws : List DriverWallet)
    → is_some (find_wallet d (move_balance e x now ws)) ≡ is_some (find_wallet d ws)
found-move d e x now [] = refl
found-move d e x now (v ∷ ws) = ground (arith, found-move d e x now ws)

pub has_wallet_kept :
    (o : Option DriverWithdrawal) (ws ws' : List DriverWallet)
    → ((d : ℕ) → is_some (find_wallet d ws') ≡ is_some (find_wallet d ws))
    → has_wallet ws o ≡ true
    → has_wallet ws' o ≡ true
has_wallet_kept none ws ws' same h = refl
has_wallet_kept (some w) ws ws' same h = rw (same w.driver_id) h

-- A clash with the reference of a release is a release of that withdrawal.
pub reference-gives_back :
    (d i : ℕ) (es : List DriverLedgerEntry)
    → any (same_reference d withdrawal_released "driver_withdrawal" i) es ≡ true
    → any (gives_back i) es ≡ true
reference-gives_back d i [] h = h
reference-gives_back d i (x ∷ es) h = ground (arith, reference-gives_back d i es)
