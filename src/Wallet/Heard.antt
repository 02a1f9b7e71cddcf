-- ===== src/Wallet/Heard.antt =====
-- What is recorded of the provider's callbacks stays: no method of
-- app_base/modules/payment/infra/repositories.py removes an event.
use diddi_go_backend.Base.{ℕ, ◌≡◌, refl, inl, inr, true, String, arith, Option-cases, any, find}
use diddi_go_backend.Wallet.Entities.{
  Db, DriverLedgerEntry, DriverWithdrawal, WebhookEvent, WithdrawalStatus,
}
use diddi_go_backend.Wallet.Ledger.{get_or_create_wallet, record_ledger_entry_once, post_entry}
use diddi_go_backend.Wallet.Withdrawals.{find_withdrawal, has_quote_id}
use diddi_go_backend.Wallet.Reserve.{
  reserved_row, write_reservation, replay_reservation, reserve_withdrawal_from_quote,
}
use diddi_go_backend.Wallet.Reservation.{replay-cases, reserve-cases}
use diddi_go_backend.Wallet.Provider.{
  ProviderState, noted, settle, settle_released, settle_succeeded, mark_withdrawal_provider_state,
}
use diddi_go_backend.Wallet.Callbacks.{record_webhook_event, has_event_id}
use diddi_go_backend.Wallet.Once.{any-snoc}
use diddi_go_backend.Wallet.Closed.{Closed}

-- The event is among those recorded.
pub record IsHeard (i : String) (db : Db) : Type 0 where
  pub heard : any (has_event_id i) db.events ≡ true

create-events :
    (i now d : ℕ) (c : String) (db : Db) → (get_or_create_wallet i now d c db).1.events ≡ db.events
unfolding get_or_create_wallet
create-events i now d c db = ground arith

settle-events :
    (target : WithdrawalStatus) (i now : ℕ) (row : DriverWithdrawal) (db : Db)
    → (settle target i now row db).1.events ≡ db.events
unfolding settle settle_released settle_succeeded
settle-events target i now row db = ground arith

mark-events :
    (entry_id now i : ℕ) (p : ProviderState) (db : Db)
    → (mark_withdrawal_provider_state entry_id now i p db).1.events ≡ db.events
unfolding mark_withdrawal_provider_state
mark-events entry_id now i p db = elim (Option-cases (find_withdrawal i db)) [
  | inl absent ↦ ground arith
  | inr (row, found) ↦ ground (arith, settle-events p.status entry_id now (noted now p row) db)
]

post-events :
    (i now : ℕ) (e : DriverLedgerEntry) (db : Db)
    → (record_ledger_entry_once i now e db).1.events ≡ db.events
unfolding record_ledger_entry_once post_entry
post-events i now e db = ground (arith, create-events i now e.driver_id e.currency db)

write-events :
    (i now : ℕ) (row : DriverWithdrawal) (db : Db)
    → (write_reservation i now row db).1.events ≡ db.events
unfolding write_reservation
write-events i now row db = ground arith

replay-events : (w : DriverWithdrawal) (db : Db) → (replay_reservation w db).1.events ≡ db.events
replay-events w db = elim (replay-cases w db) [
  | inl same ↦ rw same refl
  | inr filled ↦ rw filled refl
]

reserve-events :
    (wallet_id entry_id now : ℕ) (w : DriverWithdrawal) (db : Db)
    → (reserve_withdrawal_from_quote wallet_id entry_id now w db).1.events ≡ db.events
unfolding reserve_withdrawal_from_quote
reserve-events wallet_id entry_id now w db =
    elim (Option-cases (find (has_quote_id w.quote_id) db.quotes)) [
      | inl absent ↦ rw (absent, reserve_withdrawal_from_quote) refl
      | inr (q, found) ↦
          let created = (get_or_create_wallet wallet_id now w.driver_id q.currency db).1 in
          let same_events = create-events wallet_id now w.driver_id q.currency db in
          elim (reserve-cases wallet_id entry_id now w db q found) [
            | inl same ↦ rw same refl
            | inr (inl replayed) ↦ rw replayed (replay-events w db)
            | inr (inr (inl short)) ↦ rw short same_events
            | inr (inr (inr written)) ↦
                rw (written, write-events entry_id now (reserved_row now q w) created) same_events
          ]
    ]

same-IsHeard : (i : String) (db db' : Db) → db'.events ≡ db.events → IsHeard i db → IsHeard i db'
same-IsHeard i db db' same h = record { heard = rw same h.heard }

recorded-IsHeard :
    (i : String) (e : WebhookEvent) (db : Db)
    → IsHeard i db
    → IsHeard i (record_webhook_event e db).1
unfolding record_webhook_event
recorded-IsHeard i e db h =
    let before = h.heard in record { heard = ground (arith, any-snoc (has_event_id i) db.events e) }

pub IsHeard-Closed : (i : String) → Closed (IsHeard i)
IsHeard-Closed i = record {
  elsewhere = record {
    others = λ topups quotes verifications transactions debts db h. record { heard = h.heard };
  };
  create = λ j now d c db h. same-IsHeard i db _ (create-events j now d c db) h;
  reserve = λ wallet_id entry_id now w db h.
      same-IsHeard i db _ (reserve-events wallet_id entry_id now w db) h;
  mark = λ entry_id now j p db h. same-IsHeard i db _ (mark-events entry_id now j p db) h;
  post = λ j now e db moves gives h. same-IsHeard i db _ (post-events j now e db) h;
  recorded = λ e db h. recorded-IsHeard i e db h;
}
