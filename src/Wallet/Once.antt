-- ===== src/Wallet/Once.antt =====
-- `record_ledger_entry_once` of app_base/modules/payment/infra/repositories.py acts once for
-- each reference, however often a callback, a sweep or a retry repeats it.
use text.Mathlib.TextPositions.{eq_refl}
use diddi_go_backend.Base.{
  ℕ, ◌≡◌, inl, inr, Bool, true, none, some, List, [], ◌∷◌, ◌++◌, ◌||◌, arith, Bool-cases, any,
}
use diddi_go_backend.Base.Int.{ℤ}
use diddi_go_backend.Wallet.Entities.{Db, DriverWallet, DriverLedgerEntry}
use diddi_go_backend.Wallet.Session.{ok}
use diddi_go_backend.Wallet.Ledger.{
  find_wallet, move_balance, get_or_create_wallet, has_reference, same_reference, stamped,
  add_to_balance, post_entry, record_ledger_entry_once, signed_amount, is_confirmed,
}
use diddi_go_backend.Wallet.Balance.{get_or_create_wallet-found}

pub any-snoc {ℓ} :
    {A : Type ℓ} (test : A → Bool) (xs : List A) (x : A)
    → any test (xs ++ x ∷ []) ≡ (any test xs || test x)
any-snoc test [] x = ground arith
any-snoc test (y ∷ xs) x = ground (arith, any-snoc test xs x)

-- Two entries under one reference.
pub record SameReference (e f : DriverLedgerEntry) : Type 0 where
  pub same_driver : f.driver_id ≡ e.driver_id
  pub same_type : f.entry_type ≡ e.entry_type
  pub same_kind : f.reference_type ≡ e.reference_type
  pub same_target : f.reference_id ≡ e.reference_id

same_reference_self :
    (now : ℕ) (e f : DriverLedgerEntry)
    → SameReference e f
    → same_reference f.driver_id f.entry_type f.reference_type f.reference_id (stamped now e) ≡ true
same_reference_self now e f s =
    rw (s.same_driver, s.same_type, s.same_kind, s.same_target)
      (ground (arith, eq_refl e.reference_type))

find_wallet-moved :
    (d : ℕ) (x : ℤ) (now : ℕ) (ws : List DriverWallet) (w : DriverWallet)
    → find_wallet d ws ≡ some w
    → find_wallet d (move_balance d x now ws) ≡ some (add_to_balance x now w)
find_wallet-moved d x now [] w h = cc
find_wallet-moved d x now (v ∷ ws) w h = ground (arith, find_wallet-moved d x now ws w)

-- The reference is there, and so is the wallet: nothing is left to do.
unfoldable pub IsRecorded : DriverLedgerEntry → Db → Type 0
IsRecorded e db =
    (w : DriverWallet) × (find_wallet e.driver_id db.wallets ≡ some w)
    × (has_reference e db.ledger ≡ true)

pub IsRecorded-noop :
    (i now : ℕ) (e : DriverLedgerEntry) (db : Db)
    → IsRecorded e db
    → record_ledger_entry_once i now e db ≡ (ok none, db)
unfolding record_ledger_entry_once IsRecorded
IsRecorded-noop i now e db (w, found, there) = ground arith

post_entry-IsRecorded :
    (now : ℕ) (e f : DriverLedgerEntry) (db : Db) (w : DriverWallet)
    → SameReference e f
    → find_wallet e.driver_id db.wallets ≡ some w
    → IsRecorded f (post_entry now e db).1
unfolding post_entry IsRecorded
post_entry-IsRecorded now e f db w s found =
    let there : has_reference f (db.ledger ++ stamped now e ∷ []) ≡ true =
      rw (any-snoc, same_reference_self now e f s) (ground arith) in
    elim (Bool-cases (is_confirmed e.status)) [
      | inl yes_ ↦ (
        add_to_balance (signed_amount e.direction e.amount) now w,
        rw (s.same_driver, found, yes_, post_entry)
            (find_wallet-moved e.driver_id (signed_amount e.direction e.amount) now db.wallets w
              found),
        rw (found, yes_, post_entry) there,
      )
      | inr no_ ↦
          (w, rw (s.same_driver, found, no_, post_entry) found, rw (found, no_, post_entry) there)
    ]

pub record-IsRecorded :
    (i now : ℕ) (e f : DriverLedgerEntry) (db : Db)
    → SameReference e f
    → IsRecorded f (record_ledger_entry_once i now e db).1
unfolding record_ledger_entry_once IsRecorded
record-IsRecorded i now e f db s =
    let db' = (get_or_create_wallet i now e.driver_id e.currency db).1 in
    let (w, found) = get_or_create_wallet-found i now e.driver_id e.currency db in
    elim (Bool-cases (has_reference e db'.ledger)) [
      | inl old ↦ rw old (
        w,
        rw s.same_driver found,
        rw (s.same_driver, s.same_type, s.same_kind, s.same_target) old,
      )
      | inr new ↦ rw new (post_entry-IsRecorded now e f db' w s found)
    ]

-- After `record_ledger_entry_once`, whatever came of it, a second call with an entry of the same
-- driver, type and reference records nothing, returns none and leaves every table as it is,
-- whatever its amount, status and identifier.
pub record_once :
    (i now j later : ℕ) (e f : DriverLedgerEntry) (db : Db)
    → SameReference e f
    → let db' = (record_ledger_entry_once i now e db).1 in
      record_ledger_entry_once j later f db' ≡ (ok none, db')
record_once i now j later e f db s =
    IsRecorded-noop j later f (record_ledger_entry_once i now e db).1
      (record-IsRecorded i now e f db s)
