-- ===== src/Payment/Posted.antt =====
-- A ride is settled once: `_record_ride_settlement` of
-- app_base/modules/payment/application/services.py, called again for a ride by a callback, a sweep,
-- a confirmation or a repair.
use diddi_go_backend.Base.{
  ℕ, String, true, ◌≡◌, refl, inl, inr, if◌then◌else◌, Option, none, some, List, arith, Bool-cases,
  Option-cases,
}
use diddi_go_backend.Ride.Entity.{Ride}
use diddi_go_backend.Wallet.Entities.{
  Db, DriverLedgerEntry, PaymentStatus, platform_commission, ride_payout,
}
use diddi_go_backend.Wallet.Session.{ok, call, pure, run_request, ◌>>=◌}
use diddi_go_backend.Wallet.Ledger.{
  get_or_create_wallet, has_reference, post_entry, record_ledger_entry_once,
}
use diddi_go_backend.Wallet.Balance.{balance_of, find_wallet-snoc, get_or_create_wallet-found}
use diddi_go_backend.Wallet.Once.{SameReference, IsRecorded, record-IsRecorded}
use diddi_go_backend.Wallet.Grown.{IsPosted, IsPosted-Closed, create-Grown}
use diddi_go_backend.Payment.Settlement.{
  Fresh, pays_cash, settlement_entry, post, record_ride_settlement,
}
use diddi_go_backend.Payment.Traffic.{Setup, Traffic, handle_all}
use diddi_go_backend.Payment.Invariant.{handle_all-kept}

-- The ledger and every driver's balance are those of other tables.
pub record HasSameMoney (before db : Db) : Type 0 where
  pub ledger : db.ledger ≡ before.ledger
  pub balance : (d : ℕ) → balance_of d db.wallets ≡ balance_of d before.wallets

-- What the entry of a ride's settlement refers to.
record IsForRide (ride : Ride) (e : DriverLedgerEntry) : Type 0 where
  of_driver : ride.driver_id ≡ some e.driver_id
  of_type :
      e.entry_type ≡ (if pays_cash ride.payment_method then platform_commission else ride_payout)
  of_kind : e.reference_type ≡ "ride"
  of_ride : e.reference_id ≡ ride.id

settlement_entry-IsForRide :
    (fresh : Fresh) (now : ℕ) (ride : Ride) (status : PaymentStatus) (e : DriverLedgerEntry)
    → settlement_entry fresh now ride status ≡ some e
    → IsForRide ride e
unfolding settlement_entry
settlement_entry-IsForRide fresh now ride status e h = record {
  of_driver = ground arith;
  of_type = ground arith;
  of_kind = ground arith;
  of_ride = ground arith;
}

IsForRide-SameReference :
    (ride ride' : Ride) (e f : DriverLedgerEntry)
    → ride'.id ≡ ride.id
    → ride'.driver_id ≡ ride.driver_id
    → ride'.payment_method ≡ ride.payment_method
    → IsForRide ride e
    → IsForRide ride' f
    → SameReference e f
IsForRide-SameReference ride ride' e f id driver_id method a b = record {
  same_driver = ground (arith, a.of_driver, b.of_driver, driver_id);
  same_type = ground (arith, a.of_type, b.of_type, method);
  same_kind = ground (arith, a.of_kind, b.of_kind);
  same_target = ground (arith, a.of_ride, b.of_ride, id);
}

-- The posting of an entry does not raise.
record-answers :
    (i now : ℕ) (e : DriverLedgerEntry) (db : Db)
    → (o : Option DriverLedgerEntry) × ((record_ledger_entry_once i now e db).0 ≡ ok o)
unfolding record_ledger_entry_once post_entry
record-answers i now e db =
    let created = (get_or_create_wallet i now e.driver_id e.currency db).1 in
    let (w, found) = get_or_create_wallet-found i now e.driver_id e.currency db in
    elim (Bool-cases (has_reference e created.ledger)) [
      | inl old ↦ (none, rw old refl)
      | inr new ↦ (some e, rw (new, found, post_entry) refl)
    ]

posted_tables :
    (fresh : Fresh) (now : ℕ) (e : DriverLedgerEntry) (db : Db)
    → (run_request (post fresh now (some e)) db).1
      ≡ (record_ledger_entry_once fresh.wallet_id now e db).1
unfolding run_request post ◌>>=◌ call pure
posted_tables fresh now e db =
    let (o, answer) = record-answers fresh.wallet_id now e db in rw answer refl

record-IsPosted :
    (i now : ℕ) (e f : DriverLedgerEntry) (db : Db)
    → SameReference e f
    → IsPosted f (record_ledger_entry_once i now e db).1
unfolding IsRecorded
record-IsPosted i now e f db s =
    let (w, found, there) = record-IsRecorded i now e f db s in record { posted = there }

created-balance :
    (i now d driver_id : ℕ) (currency : String) (db : Db)
    → balance_of d (get_or_create_wallet i now driver_id currency db).1.wallets
      ≡ balance_of d db.wallets
unfolding get_or_create_wallet
created-balance i now d driver_id currency db =
    ground (arith, find_wallet-snoc d i now driver_id currency db.wallets)

-- An entry whose reference is there moves no money.
posted-noop :
    (i now : ℕ) (f : DriverLedgerEntry) (db : Db)
    → IsPosted f db
    → HasSameMoney db (record_ledger_entry_once i now f db).1
unfolding record_ledger_entry_once
posted-noop i now f db h =
    let same = create-Grown i now f.driver_id f.currency db in
    let there : has_reference f (get_or_create_wallet i now f.driver_id f.currency db).1.ledger
        ≡ true =
      rw same h.posted in
    rw there
      (record { ledger = same; balance = λ d. created-balance i now d f.driver_id f.currency db })

nothing_posted :
    (fresh : Fresh) (now : ℕ) (db : Db) → HasSameMoney db (run_request (post fresh now none) db).1
unfolding run_request post pure
nothing_posted fresh now db = record { ledger = refl; balance = λ d. refl }

settled_again :
    (fresh : Fresh) (now : ℕ) (ride : Ride) (status : PaymentStatus) (db : Db)
    → ((f : DriverLedgerEntry) → IsForRide ride f → IsPosted f db)
    → HasSameMoney db (run_request (record_ride_settlement fresh now ride status) db).1
unfolding record_ride_settlement
settled_again fresh now ride status db there =
    elim (Option-cases (settlement_entry fresh now ride status)) [
      | inl nothing ↦ rw nothing (nothing_posted fresh now db)
      | inr (f, posts) ↦
          rw (posts, posted_tables fresh now f db)
            (posted-noop fresh.wallet_id now f db
              (there f (settlement_entry-IsForRide fresh now ride status f posts)))
    ]

-- Once a ride's settlement has posted an entry (the commission of a cash ride or the payout of
-- another), and after whatever the payment module has been asked to do since, settling a ride with
-- the same identifier, driver and payment method again, with any status and any amounts, leaves the
-- ledger and every driver's balance as they are.
pub settled_once :
    (s : Setup) (fresh fresh' : Fresh) (now now' : ℕ) (ride ride' : Ride)
    (status status' : PaymentStatus) (e : DriverLedgerEntry) (between : List Traffic) (db : Db)
    → settlement_entry fresh now ride status ≡ some e
    → ride'.id ≡ ride.id
    → ride'.driver_id ≡ ride.driver_id
    → ride'.payment_method ≡ ride.payment_method
    → let settled = (run_request (record_ride_settlement fresh now ride status) db).1 in
      let later = handle_all s between settled in
      HasSameMoney later (run_request (record_ride_settlement fresh' now' ride' status') later).1
unfolding record_ride_settlement
settled_once s fresh fresh' now now' ride ride' status status' e between db posts i d m =
    settled_again fresh' now' ride' status' _ λ f b.
      let same =
        IsForRide-SameReference ride ride' e f i d m
          (settlement_entry-IsForRide fresh now ride status e posts) b in
      handle_all-kept (IsPosted-Closed f) s between _
        (rw (posts, posted_tables fresh now e db) (record-IsPosted fresh.wallet_id now e f db same))
