-- ===== src/Wallet/Sound.antt =====
-- Sound tables stay sound under every method that use cases write them with
-- (app_base/modules/payment/infra/repositories.py).
use diddi_go_backend.Base.{ℕ, ◌≡◌, inl, inr, false, some, arith, Bool-cases, any}
use diddi_go_backend.Wallet.Entities.{
  Db, DriverWallet, DriverLedgerEntry, entry_type_eq, withdrawal_released, withdrawal_succeeded,
  WebhookEvent,
}
use diddi_go_backend.Wallet.Ledger.{
  find_wallet, get_or_create_wallet, record_ledger_entry_once, post_entry, has_reference,
  is_confirmed, move_balance, signed_amount, stamped,
}
use diddi_go_backend.Wallet.Withdrawals.{find_withdrawal}
use diddi_go_backend.Wallet.Balance.{get_or_create_wallet-found, post_entry-IsBalanced}
use diddi_go_backend.Wallet.Once.{any-snoc}
use diddi_go_backend.Wallet.Custody.{IsSound, gives_back, found-move, has_wallet_kept}
use diddi_go_backend.Wallet.Payout.{mark-IsSound}
use diddi_go_backend.Wallet.Reservation.{reserve-IsSound, get_or_create_wallet-IsSound}
use diddi_go_backend.Wallet.Callbacks.{record_webhook_event, has_event_id}
use diddi_go_backend.Wallet.Closed.{Closed}

post_entry-IsSound :
    (now : ℕ) (e : DriverLedgerEntry) (db : Db) (w : DriverWallet)
    → find_wallet e.driver_id db.wallets ≡ some w
    → entry_type_eq e.entry_type withdrawal_succeeded ≡ false
    → entry_type_eq e.entry_type withdrawal_released ≡ false
    → IsSound db
    → IsSound (post_entry now e db).1
unfolding post_entry
post_entry-IsSound now e db w found moves gives sound =
    let explained = post_entry-IsBalanced now e db w found moves sound.balanced in
    let x = signed_amount e.direction e.amount in
    elim (Bool-cases (is_confirmed e.status)) [
      | inl yes_ ↦
          rw (found, yes_, post_entry)
            (record {
              balanced = rw (found, yes_, post_entry) at explained;
              given_back = λ i h.
                  sound.given_back i
                    (ground (arith, any-snoc (gives_back i) db.ledger (stamped now e)));
              walleted = λ i.
                  has_wallet_kept (find_withdrawal i db) db.wallets
                    (move_balance e.driver_id x now db.wallets)
                    (λ d. found-move d e.driver_id x now db.wallets) (sound.walleted i);
            })
      | inr no_ ↦
          rw (found, no_, post_entry)
            (record {
              balanced = rw (found, no_, post_entry) at explained;
              given_back = λ i h.
                  sound.given_back i
                    (ground (arith, any-snoc (gives_back i) db.ledger (stamped now e)));
              walleted = sound.walleted;
            })
    ]

record_ledger_entry_once-IsSound :
    (i now : ℕ) (e : DriverLedgerEntry) (db : Db)
    → entry_type_eq e.entry_type withdrawal_succeeded ≡ false
    → entry_type_eq e.entry_type withdrawal_released ≡ false
    → IsSound db
    → IsSound (record_ledger_entry_once i now e db).1
unfolding record_ledger_entry_once
record_ledger_entry_once-IsSound i now e db moves gives sound =
    let db' = (get_or_create_wallet i now e.driver_id e.currency db).1 in
    let (w, found) = get_or_create_wallet-found i now e.driver_id e.currency db in
    let sound' = get_or_create_wallet-IsSound i now e.driver_id e.currency db sound in
    elim (Bool-cases (has_reference e db'.ledger)) [
      | inl old ↦ rw old sound'
      | inr new ↦ rw new (post_entry-IsSound now e db' w found moves gives sound')
    ]

recorded-IsSound : (e : WebhookEvent) (db : Db) → IsSound db → IsSound (record_webhook_event e db).1
unfolding record_webhook_event
recorded-IsSound e db sound = elim (Bool-cases (any (has_event_id e.id) db.events)) [
  | inl old ↦ rw (old, record_webhook_event) sound
  | inr new ↦
      rw (new, record_webhook_event)
        (record {
          balanced = sound.balanced;
          given_back = sound.given_back;
          walleted = sound.walleted;
        })
]

pub IsSound-Closed : Closed IsSound
IsSound-Closed = record {
  elsewhere = record {
    others = λ topups quotes verifications transactions debts db sound. record {
      balanced = sound.balanced;
      given_back = sound.given_back;
      walleted = sound.walleted;
    };
  };
  create = get_or_create_wallet-IsSound;
  reserve = reserve-IsSound;
  mark = mark-IsSound;
  post = record_ledger_entry_once-IsSound;
  recorded = recorded-IsSound;
}
