-- ===== src/Wallet/Callbacks.antt =====
-- The rows of `payment.webhook_events`: `record_webhook_event` of
-- app_base/modules/payment/infra/repositories.py.
use diddi_go_backend.Base.{Bool, true, false, [], ◌∷◌, ◌++◌, String, if◌then◌else◌, str_eq, any}
use diddi_go_backend.Wallet.Entities.{WebhookEvent}
use diddi_go_backend.Wallet.Session.{ok, Query}

abbrev pub has_event_id : String → WebhookEvent → Bool
has_event_id i e = str_eq e.id i

-- `record_webhook_event`: whether the event was new
unfoldable pub record_webhook_event : WebhookEvent → Query Bool
record_webhook_event e db =
    if any (has_event_id e.id) db.events
    then (ok false, db)
    else (ok true, record db { events = db.events ++ e ∷ [] })
