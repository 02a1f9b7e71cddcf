-- ===== src/Wallet/Balance.antt =====
-- A driver's balance and the ledger: in app_base/modules/payment/infra/repositories.py every
-- write to a balance stands beside the entry that explains it.
use diddi_go_backend.Base.{
  ℕ, ◌≡◌, inl, inr, Bool, false, not, ◌&&◌, Option, none, some, List, [], ◌∷◌, ◌++◌, String, arith,
  if◌then◌else◌, ◌==◌, Bool-cases, Option-cases,
}
use diddi_go_backend.Base.Int.{ℤ, pos, ◌+ℤ◌, int_laws}
use diddi_go_backend.Wallet.Entities.{
  Db, DriverWallet, DriverLedgerEntry, withdrawal_succeeded, entry_type_eq,
}
use diddi_go_backend.Wallet.Ledger.{
  find_wallet, new_wallet, is_confirmed, signed_amount, move_balance, get_or_create_wallet,
  has_reference, stamped, post_entry, record_ledger_entry_once,
}

abbrev pub balance_in : Option DriverWallet → ℤ
balance_in none = pos 0
balance_in (some w) = w.balance

-- The balance of a driver, none at all counting as zero.
abbrev pub balance_of : ℕ → List DriverWallet → ℤ
balance_of d ws = balance_in (find_wallet d ws)

-- A confirmed entry changes the balance by its signed amount, but for the record that a
-- withdrawal went through: its amount left the balance when it was reserved.
abbrev pub counts : DriverLedgerEntry → Bool
counts e = is_confirmed e.status && not (entry_type_eq e.entry_type withdrawal_succeeded)

abbrev pub effect : ℕ → DriverLedgerEntry → ℤ
effect d e = if (e.driver_id == d) && counts e then signed_amount e.direction e.amount else pos 0

-- The balance that the ledger explains.
unfoldable pub ledger_balance : ℕ → List DriverLedgerEntry → ℤ
ledger_balance d [] = pos 0
ledger_balance d (e ∷ es) = effect d e +ℤ ledger_balance d es

pub ledger_balance-snoc :
    (d : ℕ) (es : List DriverLedgerEntry) (e : DriverLedgerEntry)
    → ledger_balance d (es ++ e ∷ []) ≡ ledger_balance d es +ℤ effect d e
unfolding ledger_balance
ledger_balance-snoc d [] e = omega int_laws
ledger_balance-snoc d (x ∷ es) e = rw (ledger_balance-snoc d es e) (omega int_laws)

-- Every balance is the one that the ledger explains.
abbrev pub IsBalanced : Db → Type 0
IsBalanced db = (d : ℕ) → balance_of d db.wallets ≡ ledger_balance d db.ledger

pub find_wallet-move :
    (d e : ℕ) (x : ℤ) (now : ℕ) (ws : List DriverWallet) (w : DriverWallet)
    → find_wallet e ws ≡ some w
    → balance_of d (move_balance e x now ws)
      ≡ (if e == d then balance_of d ws +ℤ x else balance_of d ws)
find_wallet-move d e x now [] w h = cc
find_wallet-move d e x now (v ∷ ws) w h = ground (arith, find_wallet-move d e x now ws w)

pub find_wallet-snoc :
    (d i now e : ℕ) (c : String) (ws : List DriverWallet)
    → balance_of d (ws ++ new_wallet i now e c ∷ []) ≡ balance_of d ws
find_wallet-snoc d i now e c [] = ground arith
find_wallet-snoc d i now e c (v ∷ ws) = ground (arith, find_wallet-snoc d i now e c ws)

-- A balance moved by `x` beside an entry whose effect is `x` stays explained.
pub move-balanced :
    (d e : ℕ) (x : ℤ) (now : ℕ) (ws : List DriverWallet) (w : DriverWallet)
    (es : List DriverLedgerEntry) (entry : DriverLedgerEntry)
    → find_wallet e ws ≡ some w
    → effect d entry ≡ (if e == d then x else pos 0)
    → balance_of d ws ≡ ledger_balance d es
    → balance_of d (move_balance e x now ws) ≡ ledger_balance d (es ++ entry ∷ [])
move-balanced d e x now ws w es entry found moves h =
    rw (ledger_balance-snoc d es entry, find_wallet-move d e x now ws w found, moves, ← h)
      (elim (Bool-cases (e == d)) [ inl same ↦ rw same | inr other ↦ rw other (omega int_laws) ])

-- An entry with no effect can be added beside unchanged balances.
pub still-balanced :
    (d : ℕ) (ws : List DriverWallet) (es : List DriverLedgerEntry) (entry : DriverLedgerEntry)
    → effect d entry ≡ pos 0
    → balance_of d ws ≡ ledger_balance d es
    → balance_of d ws ≡ ledger_balance d (es ++ entry ∷ [])
still-balanced d ws es entry none_ h =
    rw (ledger_balance-snoc d es entry, none_, ← h) (omega int_laws)

-- A wallet is there after `get_or_create_wallet`, and balances are as they were.
pub get_or_create_wallet-IsBalanced :
    (i now e : ℕ) (c : String) (db : Db)
    → IsBalanced db
    → IsBalanced (get_or_create_wallet i now e c db).1
unfolding get_or_create_wallet
get_or_create_wallet-IsBalanced i now e c db h d =
    ground (arith, h d, find_wallet-snoc d i now e c db.wallets)

find_wallet-new :
    (i now e : ℕ) (c : String) (ws : List DriverWallet)
    → find_wallet e ws ≡ none
    → find_wallet e (ws ++ new_wallet i now e c ∷ []) ≡ some (new_wallet i now e c)
find_wallet-new i now e c [] h = ground arith
find_wallet-new i now e c (v ∷ ws) h = ground (arith, find_wallet-new i now e c ws)

pub get_or_create_wallet-found :
    (i now e : ℕ) (c : String) (db : Db)
    → (w : DriverWallet) × (find_wallet e (get_or_create_wallet i now e c db).1.wallets ≡ some w)
unfolding get_or_create_wallet
get_or_create_wallet-found i now e c db = elim (Option-cases (find_wallet e db.wallets)) [
  | inl absent ↦ (
    new_wallet i now e c,
    rw (absent, get_or_create_wallet) (find_wallet-new i now e c db.wallets absent),
  )
  | inr (w, found) ↦ (w, rw (found, get_or_create_wallet) found)
]

pub post_entry-IsBalanced :
    (now : ℕ) (e : DriverLedgerEntry) (db : Db) (w : DriverWallet)
    → find_wallet e.driver_id db.wallets ≡ some w
    → entry_type_eq e.entry_type withdrawal_succeeded ≡ false
    → IsBalanced db
    → IsBalanced (post_entry now e db).1
unfolding post_entry
post_entry-IsBalanced now e db w found moves h d = elim (Bool-cases (is_confirmed e.status)) [
  | inl yes_ ↦
      rw (found, yes_, post_entry)
        (move-balanced d e.driver_id (signed_amount e.direction e.amount) now db.wallets w db.ledger
          (stamped now e) found (ground arith) (h d))
  | inr no_ ↦
      rw (found, no_, post_entry)
        (still-balanced d db.wallets db.ledger (stamped now e) (ground arith) (h d))
]

-- `record_ledger_entry_once` keeps every driver's balance equal to the sum of the signed amounts of
-- the driver's confirmed entries in the ledger, those left out that record that a withdrawal went
-- through (their amounts left the balance with the reservation), for an entry of any type but such
-- a record.
pub record_ledger_entry_once-IsBalanced :
    (i now : ℕ) (e : DriverLedgerEntry) (db : Db)
    → entry_type_eq e.entry_type withdrawal_succeeded ≡ false
    → IsBalanced db
    → IsBalanced (record_ledger_entry_once i now e db).1
unfolding record_ledger_entry_once
record_ledger_entry_once-IsBalanced i now e db moves h =
    let db' = (get_or_create_wallet i now e.driver_id e.currency db).1 in
    let (w, found) = get_or_create_wallet-found i now e.driver_id e.currency db in
    let balanced = get_or_create_wallet-IsBalanced i now e.driver_id e.currency db h in
    elim (Bool-cases (has_reference e db'.ledger)) [
      | inl old ↦ rw old balanced
      | inr new ↦ rw new (post_entry-IsBalanced now e db' w found moves balanced)
    ]
