-- ===== src/Wallet/Ledger.antt =====
-- Wallets and ledger entries: `get_or_create_wallet`, `record_ledger_entry_once` and
-- `_insert_withdrawal_ledger_once` of app_base/modules/payment/infra/repositories.py.
-- The unique constraint on (driver, entry type, reference type, reference) decides whether an
-- insertion `on_conflict_do_nothing` adds a row.
use diddi_go_backend.Base.{
  ℕ, Bool, true, false, ◌&&◌, Option, none, some, List, [], ◌∷◌, ◌++◌, String, if◌then◌else◌, ◌==◌,
  str_eq, find, any, update, or_else,
}
use diddi_go_backend.Base.Int.{ℤ, pos, ◌+ℤ◌, ◌-ℤ◌}
use diddi_go_backend.Wallet.Entities.{
  DriverWallet, DriverLedgerEntry, DriverWithdrawal, WalletEntryDirection, credit, debit,
  WalletEntryStatus, WalletEntryType, entry_type_eq,
}
use diddi_go_backend.Wallet.Session.{ok, err, no_result_found, Query}

abbrev pub owned_by : ℕ → DriverWallet → Bool
owned_by driver_id w = w.driver_id == driver_id

abbrev pub find_wallet : ℕ → List DriverWallet → Option DriverWallet
find_wallet driver_id = find (owned_by driver_id)

-- A row as it is inserted. Its identifier and the moment come from outside.
abbrev pub new_wallet : (wallet_id now driver_id : ℕ) → String → DriverWallet
new_wallet wallet_id now driver_id currency = record {
  id = wallet_id;
  driver_id = driver_id;
  balance = pos 0;
  currency = currency;
  updated_at = now;
}

unfoldable pub get_or_create_wallet : (wallet_id now driver_id : ℕ) → String → Query DriverWallet
get_or_create_wallet wallet_id now driver_id currency db = elim (find_wallet driver_id db.wallets) [
  | some w ↦ (ok w, db)
  | none ↦
      let w = new_wallet wallet_id now driver_id currency in
      (ok w, record db { wallets = db.wallets ++ w ∷ [] })
]

-- The two rows agree on the columns of `uq_payment_driver_ledger_reference`.
abbrev pub same_reference : ℕ → WalletEntryType → String → ℕ → DriverLedgerEntry → Bool
same_reference driver_id entry_type reference_type reference_id e =
    e.driver_id == driver_id
    && entry_type_eq e.entry_type entry_type
    && str_eq e.reference_type reference_type
    && e.reference_id == reference_id

abbrev pub has_reference : DriverLedgerEntry → List DriverLedgerEntry → Bool
has_reference e = any (same_reference e.driver_id e.entry_type e.reference_type e.reference_id)

abbrev pub is_confirmed : WalletEntryStatus → Bool
is_confirmed WalletEntryStatus.confirmed = true
is_confirmed _ = false

-- `entry.amount if entry.direction is CREDIT else -entry.amount`
abbrev pub signed_amount : WalletEntryDirection → ℤ → ℤ
signed_amount credit amount = amount
signed_amount debit amount = pos 0 -ℤ amount

-- `wallet.balance = wallet.balance + delta; wallet.updated_at = now`
abbrev pub add_to_balance : ℤ → ℕ → DriverWallet → DriverWallet
add_to_balance delta now w = record w { balance = w.balance +ℤ delta; updated_at = now }

abbrev pub move_balance : ℕ → ℤ → ℕ → List DriverWallet → List DriverWallet
move_balance driver_id delta now = update (owned_by driver_id) (add_to_balance delta now)

-- The row that `record_ledger_entry_once` inserts.
abbrev pub stamped : ℕ → DriverLedgerEntry → DriverLedgerEntry
stamped now e = record e { created_at = some (or_else e.created_at now) }

-- What follows an insertion that added a row.
unfoldable pub post_entry : ℕ → DriverLedgerEntry → Query (Option DriverLedgerEntry)
post_entry now e db =
    let inserted = record db { ledger = db.ledger ++ stamped now e ∷ [] } in
    elim (find_wallet e.driver_id db.wallets) [
      | none ↦ (err no_result_found, inserted)
      | some w ↦ (
        ok (some e),
        if is_confirmed e.status
            then record inserted {
              wallets =
                  move_balance e.driver_id (signed_amount e.direction e.amount) now db.wallets;
            }
            else inserted,
      )
    ]

unfoldable pub record_ledger_entry_once :
    (wallet_id now : ℕ) → DriverLedgerEntry → Query (Option DriverLedgerEntry)
unfolding get_or_create_wallet post_entry
record_ledger_entry_once wallet_id now e db =
    let db' = (get_or_create_wallet wallet_id now e.driver_id e.currency db).1 in
    if has_reference e db'.ledger then (ok none, db') else post_entry now e db'

-- The row of `_insert_withdrawal_ledger_once`.
abbrev pub withdrawal_entry :
    (entry_id now : ℕ)
    → DriverWithdrawal
    → WalletEntryType
    → WalletEntryDirection
    → String
    → DriverLedgerEntry
withdrawal_entry entry_id now w entry_type direction description = record {
  id = entry_id;
  driver_id = w.driver_id;
  amount = w.amount;
  currency = w.currency;
  direction = direction;
  entry_type = entry_type;
  status = WalletEntryStatus.confirmed;
  reference_type = "driver_withdrawal";
  reference_id = w.id;
  description = some description;
  created_at = some now;
}

-- Whether a row was added, and the ledger after it.
unfoldable pub insert_once :
    DriverLedgerEntry → List DriverLedgerEntry → Bool × List DriverLedgerEntry
insert_once e ledger = if has_reference e ledger then (false, ledger) else (true, ledger ++ e ∷ [])
