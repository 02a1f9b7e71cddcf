-- ===== src/Payment/Topups.antt =====
-- The rows of `payment.driver_topups`: the methods of
-- app_base/modules/payment/infra/repositories.py that read and write them.
use diddi_go_backend.Base.{
  ℕ, Bool, true, false, ◌&&◌, ◌||◌, Option, none, some, List, [], ◌∷◌, ◌++◌, String, if◌then◌else◌,
  ◌==◌, find, any, update, take, is_some, or_else,
}
use diddi_go_backend.Base.Sort.{sort_by}
use diddi_go_backend.Wallet.Entities.{Db, DriverTopup, TopupStatus}
use diddi_go_backend.Wallet.Session.{ok, err, lookup_error, integrity_error, Query}
use diddi_go_backend.Wallet.Withdrawals.{same_text, same_id}
use diddi_go_backend.Payment.Transactions.{rows_where, within, next_or_kept, paid_or_kept}

abbrev pub has_topup_id : ℕ → DriverTopup → Bool
has_topup_id i t = t.id == i

-- A row that the constraints of `payment.driver_topups` do not let stand beside `t`.
abbrev pub topup_clashes : DriverTopup → DriverTopup → Bool
topup_clashes t row =
    row.id == t.id
    || same_id row.payment_intent_id t.payment_intent_id
    || same_text row.idempotency_key t.idempotency_key

-- `save_topup`
unfoldable pub save_topup : ℕ → DriverTopup → Query DriverTopup
save_topup now t db = if any (topup_clashes t) db.topups then (err integrity_error, db) else (
  ok t,
  record db {
    topups = db.topups ++ record t { created_at = some (or_else t.created_at now) } ∷ [];
  },
)

-- `find_topup_by_id`, `find_topup_by_payment_intent_id`
unfoldable pub find_topup_by_id : ℕ → Db → Option DriverTopup
find_topup_by_id i db = find (has_topup_id i) db.topups

unfoldable pub find_topup_by_payment_intent_id : ℕ → Db → Option DriverTopup
find_topup_by_payment_intent_id intent_id db =
    find (λ t. same_id t.payment_intent_id (some intent_id)) db.topups

-- The row after `mark_topup_status`.
abbrev pub marked_topup :
    TopupStatus → String → Option ℕ → Option (Option ℕ) → DriverTopup → DriverTopup
marked_topup status provider_status paid_at next_action t = record t {
  status = status;
  provider_status = some provider_status;
  paid_at = paid_or_kept paid_at t.paid_at;
  provider_next_action = next_or_kept next_action t.provider_next_action;
}

-- `mark_topup_status`
unfoldable pub mark_topup_status :
    ℕ
    → TopupStatus
    → String
    → (paid_at : Option ℕ) → (next_action : Option (Option ℕ)) → Query DriverTopup
mark_topup_status i status provider_status paid_at next_action db =
    let mark = marked_topup status provider_status paid_at next_action in
    elim (find (has_topup_id i) db.topups) [
      | none ↦ (err (lookup_error "No topup"), db)
      | some t ↦ (ok (mark t), record db { topups = update (has_topup_id i) mark db.topups })
    ]

-- `PENDING_TOPUP_STATUSES`
abbrev pub is_pending_topup : TopupStatus → Bool
is_pending_topup TopupStatus.pending = true
is_pending_topup TopupStatus.requires_action = true
is_pending_topup TopupStatus.processing = true
is_pending_topup _ = false

-- `list_stale_topups`
unfoldable pub list_stale_topups : (created_before created_after limit : ℕ) → Db → List DriverTopup
list_stale_topups before after limit db = take limit (
    sort_by (λ t. or_else t.created_at 0)
      (rows_where
        (λ t.
          is_some t.payment_intent_id
          && is_pending_topup t.status
          && within after before t.created_at)
        db.topups))
