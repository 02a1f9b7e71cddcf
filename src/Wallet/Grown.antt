-- ===== src/Wallet/Grown.antt =====
-- How the ledger grows: every method of app_base/modules/payment/infra/repositories.py leaves it
-- alone or adds one entry under a reference that is new.
use diddi_go_backend.Base.{
  ℕ, ◌≡◌, ◌⊎◌, some, refl, inl, inr, true, false, List, [], ◌∷◌, ◌++◌, String, arith, Bool-cases,
  Option-cases, any, find,
}
use diddi_go_backend.Wallet.Entities.{
  Db, DriverLedgerEntry, DriverWithdrawal, WithdrawalStatus, withdrawal_released,
  withdrawal_succeeded, WebhookEvent, credit, debit,
}
use diddi_go_backend.Wallet.Ledger.{
  get_or_create_wallet, record_ledger_entry_once, post_entry, has_reference, same_reference,
  stamped, insert_once, withdrawal_entry,
}
use diddi_go_backend.Wallet.Withdrawals.{find_withdrawal, has_quote_id}
use diddi_go_backend.Wallet.Reserve.{
  clashes, reserved_row, reserved_entry, write_reservation, replay_reservation,
  reserve_withdrawal_from_quote,
}
use diddi_go_backend.Wallet.Reservation.{replay-cases, reserve-cases}
use diddi_go_backend.Wallet.Provider.{
  ProviderState, is_final, noted, payout_taken, settle, settle_released, settle_succeeded,
  mark_withdrawal_provider_state,
}
use diddi_go_backend.Wallet.Callbacks.{record_webhook_event}
use diddi_go_backend.Wallet.Closed.{Closed}
use diddi_go_backend.Wallet.Once.{any-snoc}

-- The ledger has an entry under the reference of `f`.
pub record IsPosted (f : DriverLedgerEntry) (db : Db) : Type 0 where
  pub posted : has_reference f db.ledger ≡ true

Grown : List DriverLedgerEntry → List DriverLedgerEntry → Type 0
Grown es es' =
    (es' ≡ es) ⊎ ((e : DriverLedgerEntry) × (has_reference e es ≡ false) × (es' ≡ es ++ e ∷ []))

Grown-IsPosted :
    (f : DriverLedgerEntry) (db db' : Db)
    → Grown db.ledger db'.ledger
    → IsPosted f db
    → IsPosted f db'
unfolding Grown
Grown-IsPosted f db db' (inl same) h = record { posted = rw same h.posted }
Grown-IsPosted f db db' (inr (e, new, grown)) h = record {
  posted =
      rw
        (
          grown,
          any-snoc (same_reference f.driver_id f.entry_type f.reference_type f.reference_id)
              db.ledger e,
          h.posted,
        )
        refl;
}

pub create-Grown :
    (i now d : ℕ) (c : String) (db : Db) → (get_or_create_wallet i now d c db).1.ledger ≡ db.ledger
unfolding get_or_create_wallet
create-Grown i now d c db = ground arith

insert-Grown : (e : DriverLedgerEntry) (es : List DriverLedgerEntry) → Grown es (insert_once e es).1
unfolding Grown insert_once
insert-Grown e es = elim (Bool-cases (has_reference e es)) [
  | inl old ↦ inl (rw old refl)
  | inr new ↦ inr (e, new, rw new refl)
]

succeeded-Grown :
    (entry_id now : ℕ) (row : DriverWithdrawal) (db : Db)
    → Grown db.ledger (settle_succeeded entry_id now row db).1.ledger
unfolding settle_succeeded
succeeded-Grown entry_id now row db =
    let row' = record row { status = WithdrawalStatus.succeeded; succeeded_at = some now } in
    insert-Grown
      (withdrawal_entry entry_id now row' withdrawal_succeeded debit "withdrawal_succeeded")
      db.ledger

released-Grown :
    (entry_id now : ℕ) (row : DriverWithdrawal) (db : Db)
    → Grown db.ledger (settle_released entry_id now row db).1.ledger
unfolding settle_released insert_once Grown
released-Grown entry_id now row db =
    let row' = record row { status = WithdrawalStatus.released; released_at = some now } in
    let e = withdrawal_entry entry_id now row' withdrawal_released credit "withdrawal_released" in
    elim (Bool-cases (has_reference e db.ledger)) [
      | inl old ↦ inl (ground arith)
      | inr new ↦ inr (e, new, ground arith)
    ]

settle-Grown :
    (target : WithdrawalStatus) (entry_id now : ℕ) (row : DriverWithdrawal) (db : Db)
    → Grown db.ledger (settle target entry_id now row db).1.ledger
unfolding settle Grown
settle-Grown WithdrawalStatus.succeeded i now row db = succeeded-Grown i now row db
settle-Grown WithdrawalStatus.failed i now row db = released-Grown i now row db
settle-Grown WithdrawalStatus.released i now row db = released-Grown i now row db
settle-Grown WithdrawalStatus.reserved i now row db = inl refl
settle-Grown WithdrawalStatus.processing i now row db = inl refl

mark-Grown :
    (entry_id now i : ℕ) (p : ProviderState) (db : Db)
    → Grown db.ledger (mark_withdrawal_provider_state entry_id now i p db).1.ledger
unfolding mark_withdrawal_provider_state Grown
mark-Grown entry_id now i p db = elim (Option-cases (find_withdrawal i db)) [
  | inl absent ↦ rw (absent, mark_withdrawal_provider_state) (inl refl)
  | inr (row, found) ↦ elim (Bool-cases (is_final row.status)) [
    | inl final ↦ rw (found, final, mark_withdrawal_provider_state) (inl refl)
    | inr open_ ↦ elim (Bool-cases (payout_taken (noted now p row) db.withdrawals)) [
      | inl taken ↦ rw (found, open_, taken, mark_withdrawal_provider_state) (inl refl)
      | inr free ↦
          rw (found, open_, free, mark_withdrawal_provider_state)
            (settle-Grown p.status entry_id now (noted now p row) db)
    ]
  ]
]

post-Grown :
    (wallet_id now : ℕ) (e : DriverLedgerEntry) (db : Db)
    → Grown db.ledger (record_ledger_entry_once wallet_id now e db).1.ledger
unfolding Grown record_ledger_entry_once post_entry
post-Grown wallet_id now e db =
    let db' = (get_or_create_wallet wallet_id now e.driver_id e.currency db).1 in
    let same = create-Grown wallet_id now e.driver_id e.currency db in
    elim (Bool-cases (has_reference e db'.ledger)) [
      | inl old ↦ inl (rw old same)
      | inr new ↦ inr (stamped now e, ground arith, ground arith)
    ]

write-Grown :
    (entry_id now : ℕ) (row : DriverWithdrawal) (db : Db)
    → Grown db.ledger (write_reservation entry_id now row db).1.ledger
unfolding write_reservation Grown
write-Grown entry_id now row db =
    let e = reserved_entry entry_id now row in
    elim (Bool-cases (any (clashes row) db.withdrawals)) [
      | inl clash ↦ inl (ground arith)
      | inr free ↦ elim (Bool-cases (has_reference e db.ledger)) [
        | inl old ↦ inl (ground arith)
        | inr new ↦ inr (e, new, ground arith)
      ]
    ]

replay-ledger : (w : DriverWithdrawal) (db : Db) → (replay_reservation w db).1.ledger ≡ db.ledger
replay-ledger w db = elim (replay-cases w db) [
  | inl same ↦ rw same refl
  | inr filled ↦ rw filled refl
]

same-IsPosted :
    (f : DriverLedgerEntry) (db db' : Db) → db'.ledger ≡ db.ledger → IsPosted f db → IsPosted f db'
unfolding Grown
same-IsPosted f db db' same u = Grown-IsPosted f db db' (inl same) u

reserve-IsPosted :
    (f : DriverLedgerEntry) (wallet_id entry_id now : ℕ) (w : DriverWithdrawal) (db : Db)
    → IsPosted f db
    → IsPosted f (reserve_withdrawal_from_quote wallet_id entry_id now w db).1
unfolding reserve_withdrawal_from_quote
reserve-IsPosted f wallet_id entry_id now w db u =
    elim (Option-cases (find (has_quote_id w.quote_id) db.quotes)) [
      | inl absent ↦ rw (absent, reserve_withdrawal_from_quote) u
      | inr (q, found) ↦
          let created = (get_or_create_wallet wallet_id now w.driver_id q.currency db).1 in
          let u' =
            same-IsPosted f db created (create-Grown wallet_id now w.driver_id q.currency db) u in
          elim (reserve-cases wallet_id entry_id now w db q found) [
            | inl same ↦ rw same u
            | inr (inl replayed) ↦ rw replayed (same-IsPosted f db _ (replay-ledger w db) u)
            | inr (inr (inl short)) ↦ rw short u'
            | inr (inr (inr written)) ↦ rw written (
                Grown-IsPosted f created _ (write-Grown entry_id now (reserved_row now q w) created)
                  u')
          ]
    ]

recorded-ledger : (e : WebhookEvent) (db : Db) → (record_webhook_event e db).1.ledger ≡ db.ledger
unfolding record_webhook_event
recorded-ledger e db = ground arith

pub IsPosted-Closed : (f : DriverLedgerEntry) → Closed (IsPosted f)
IsPosted-Closed f = record {
  elsewhere = record {
    others = λ topups quotes verifications transactions debts db u. record { posted = u.posted };
  };
  create = λ i now d c db u. same-IsPosted f db _ (create-Grown i now d c db) u;
  reserve = reserve-IsPosted f;
  mark = λ entry_id now i p db u. Grown-IsPosted f db _ (mark-Grown entry_id now i p db) u;
  post = λ i now e db moves gives u. Grown-IsPosted f db _ (post-Grown i now e db) u;
  recorded = λ e db u. same-IsPosted f db _ (recorded-ledger e db) u;
}
