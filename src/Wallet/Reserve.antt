-- ===== src/Wallet/Reserve.antt =====
-- The reservation of a withdrawal from its quote: `reserve_withdrawal_from_quote` of
-- app_base/modules/payment/infra/repositories.py. The locks on the quote and the wallet make it
-- one step.
use diddi_go_backend.Base.{
  ℕ, Bool, not, ◌&&◌, ◌||◌, none, some, [], ◌∷◌, ◌++◌, if◌then◌else◌, ◌==◌, leb, find, any, update,
  is_some,
}
use diddi_go_backend.Base.Int.{pos, ◌-ℤ◌, ltb_ℤ}
use diddi_go_backend.Wallet.Entities.{
  DriverLedgerEntry, DriverWithdrawal, DriverWithdrawalQuote, debit, withdrawal_reserved,
  WithdrawalStatus,
}
use diddi_go_backend.Wallet.Session.{lookup_error, no_result_found, integrity_error, ok, err, Query}
use diddi_go_backend.Wallet.Ledger.{
  find_wallet, get_or_create_wallet, has_reference, move_balance, withdrawal_entry,
}
use diddi_go_backend.Wallet.Withdrawals.{
  has_quote, has_quote_id, find_withdrawal_by_quote_id, same_text,
}

-- A row that the unique constraints of `driver_withdrawals` do not let stand beside `w`.
abbrev pub clashes : DriverWithdrawal → DriverWithdrawal → Bool
clashes w row =
    row.id == w.id || row.quote_id == w.quote_id || same_text row.idempotency_key w.idempotency_key

-- The row that a reservation inserts: the request with the amounts of its quote.
abbrev pub reserved_row : ℕ → DriverWithdrawalQuote → DriverWithdrawal → DriverWithdrawal
reserved_row now q w = record {
  id = w.id;
  driver_id = w.driver_id;
  quote_id = w.quote_id;
  amount = q.amount;
  fees = q.fees;
  net_amount = q.net_amount;
  beneficiary_reference = w.beneficiary_reference;
  beneficiary_destination = w.beneficiary_destination;
  status = WithdrawalStatus.reserved;
  currency = q.currency;
  payout_id = none;
  business_reference = w.business_reference;
  idempotency_key = w.idempotency_key;
  provider_status = none;
  failure_code = none;
  failure_message = none;
  created_at = some now;
  reserved_at = some now;
  succeeded_at = none;
  released_at = none;
  updated_at = some now;
}

-- The debit that a reservation writes beside it.
abbrev pub reserved_entry : (entry_id now : ℕ) → DriverWithdrawal → DriverLedgerEntry
reserved_entry entry_id now row =
    withdrawal_entry entry_id now row withdrawal_reserved debit
      "Montant reserve pour retrait chauffeur"

-- The end of `reserve_withdrawal_from_quote`, once the balance covers the amount.
unfoldable pub write_reservation : (entry_id now : ℕ) → DriverWithdrawal → Query DriverWithdrawal
write_reservation entry_id now row db =
    let e = reserved_entry entry_id now row in
    if any (clashes row) db.withdrawals || has_reference e db.ledger
    then (err integrity_error, db)
    else (
      ok row,
      record db {
        withdrawals = db.withdrawals ++ row ∷ [];
        quotes =
            update (has_quote_id row.quote_id) (λ q. record q { consumed_at = some now }) db.quotes;
        wallets = move_balance row.driver_id (pos 0 -ℤ row.amount) now db.wallets;
        ledger = db.ledger ++ e ∷ [];
      },
    )

-- An old row without a destination takes that of the request.
abbrev pub destined : DriverWithdrawal → DriverWithdrawal → DriverWithdrawal
destined w row = record row { beneficiary_destination = w.beneficiary_destination }

-- The answer for a quote that is consumed: the withdrawal made from it.
unfoldable pub replay_reservation : DriverWithdrawal → Query DriverWithdrawal
replay_reservation w db = elim (find_withdrawal_by_quote_id w.quote_id db) [
  | none ↦ (err (lookup_error "WITHDRAWAL_QUOTE_ALREADY_USED"), db)
  | some row ↦
      if not (is_some row.beneficiary_destination) && is_some w.beneficiary_destination
      then (
        ok (destined w row),
        record db { withdrawals = update (has_quote w.quote_id) (destined w) db.withdrawals },
      )
      else (ok row, db)
]

-- `reserve_withdrawal_from_quote`
unfoldable pub reserve_withdrawal_from_quote :
    (wallet_id entry_id now : ℕ) → DriverWithdrawal → Query DriverWithdrawal
reserve_withdrawal_from_quote wallet_id entry_id now w db =
    elim (find (has_quote_id w.quote_id) db.quotes) [
      | none ↦ (err (lookup_error "WITHDRAWAL_QUOTE_NOT_FOUND"), db)
      | some q ↦
          if not (q.driver_id == w.driver_id)
          then (err (lookup_error "WITHDRAWAL_QUOTE_NOT_FOUND"), db)
          else if is_some q.consumed_at
          then replay_reservation w db
          else if leb q.expires_at now
          then (err (lookup_error "WITHDRAWAL_QUOTE_EXPIRED"), db)
          else let created = (get_or_create_wallet wallet_id now w.driver_id q.currency db).1 in
            elim (find_wallet w.driver_id created.wallets) [
              | none ↦ (err no_result_found, created)
              | some wallet ↦
                  if ltb_ℤ wallet.balance q.amount
                  then (err (lookup_error "WITHDRAWAL_BALANCE_INSUFFICIENT"), created)
                  else write_reservation entry_id now (reserved_row now q w) created
            ]
    ]
