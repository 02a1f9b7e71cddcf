-- ===== src/Payment/Delivered.antt =====
-- A callback is acted on once: `apply_diddipay_webhook` of
-- app_base/modules/payment/application/services.py answers `duplicate` to every later delivery of
-- an event that it has processed.
use diddi_go_backend.Base.{
  ℕ, ◌≡◌, refl, inl, inr, Bool, true, false, ◌||◌, Option, some, List, [], ◌∷◌, ◌++◌, arith,
  Bool-cases, any,
}
use text.Mathlib.TextPositions.{eq_refl}
use diddi_go_backend.Wallet.Entities.{Db, WebhookEvent}
use diddi_go_backend.Wallet.Session.{
  Result, ok, err, Session, Action, call, finished, run_request, ◌>>=◌, ◌>>◌, raise_if, pure, lift,
}
use diddi_go_backend.Wallet.Callbacks.{record_webhook_event, has_event_id}
use diddi_go_backend.Wallet.Once.{any-snoc}
use diddi_go_backend.Base.Keeps.{Keeps, if-Keeps, pure-Keeps}
use diddi_go_backend.Wallet.Service.{differs, is_empty}
use diddi_go_backend.Payment.Settlement.{Fresh}
use diddi_go_backend.Payment.Webhook.{
  Callback, CallbackData, CallbackSettings, Delivery, Processed, duplicate, signature_fails,
  event_of, read_field, apply_event, apply_new, apply_once, apply_content, apply_callback,
  apply_diddipay_webhook,
}
use diddi_go_backend.Payment.Kept.Called.{apply_new-Keeps}
use diddi_go_backend.Payment.Traffic.{Setup, Traffic, handle, handle_all}
use diddi_go_backend.Payment.Invariant.{handle_all-kept}
use diddi_go_backend.Wallet.Heard.{IsHeard, IsHeard-Closed}

-- The request is signed, and its body is an event with its identifier and its content, in which
-- the payment intent is not unreadable.
pub record IsGenuine (cs : CallbackSettings) (r : Delivery) (c : Callback) (d : CallbackData)
    : Type 0 where
  pub configured : cs.secret_configured ≡ true
  pub signed : signature_fails cs r.signature (cs.hmac_hex r.raw_body) ≡ false
  pub body : cs.json_loads r.raw_body ≡ some c
  pub named : (is_empty c.id || differs r.event_id_header (some c.id)) ≡ false
  pub content : c.content ≡ some d
  pub intent : (i : Option ℕ) × (read_field d.payment_intent_id ≡ ok i)

module _ (cs : CallbackSettings) (fresh : Fresh) (now : ℕ) where
  -- A genuine request comes to the recording of its event and what follows.
  genuine_runs :
      (r : Delivery) (c : Callback) (d : CallbackData) (s : Session)
      → IsGenuine cs r c d
      → apply_diddipay_webhook cs fresh now r s ≡ apply_content cs fresh now c (some d) s
  unfolding apply_diddipay_webhook apply_callback apply_content apply_once apply_new apply_event
      ◌>>◌ ◌>>=◌ raise_if
  genuine_runs r c d s g =
      rw (g.configured, g.signed, g.body, apply_callback) (rw (g.named, g.content) refl)

  appended_now :
      (e : WebhookEvent) (db : Db) → IsHeard e.id (record db { events = db.events ++ e ∷ [] })
  appended_now e db = record {
    heard = ground (arith, eq_refl e.id, any-snoc (has_event_id e.id) db.events e);
  }

  -- However it ends, the transaction has the event from then on.
  content_hears :
      (r : Delivery) (c : Callback) (d : CallbackData) (s : Session)
      → IsGenuine cs r c d
      → IsHeard c.id (apply_content cs fresh now c (some d) s).1.current
  unfolding apply_content apply_once ◌>>=◌ call record_webhook_event lift
  content_hears r c d s g =
      let (intent_id, read) = g.intent in
      let e = event_of cs c d intent_id in
      let next : Bool → Action Processed = λ stored. apply_once cs fresh now d intent_id stored in
      let kept : (stored : Bool) → Keeps (IsHeard c.id) (next stored) = λ stored.
        if-Keeps stored (apply_new-Keeps (IsHeard-Closed c.id) cs fresh now d intent_id)
          (pure-Keeps duplicate) in
      elim (Bool-cases (any (has_event_id c.id) s.current.events)) [
        | inl old ↦ rw (read, old) ((kept false).sees s (record { heard = old }))
        | inr new ↦
            let heard_now = appended_now e s.current in
            rw (read, new)
              ((kept true).sees
                (record s { current = record s.current { events = s.current.events ++ e ∷ [] } })
                heard_now)
      ]

  -- A genuine request whose event is there is answered and changes nothing.
  repeated :
      (r : Delivery) (c : Callback) (d : CallbackData) (db : Db)
      → IsGenuine cs r c d
      → IsHeard c.id db
      → run_request (apply_diddipay_webhook cs fresh now r) db ≡ (ok duplicate, db)
  unfolding run_request apply_content apply_once ◌>>=◌ call record_webhook_event pure lift
  repeated r c d db g h =
      let (intent_id, read) = g.intent in
      rw (genuine_runs r c d (record { committed = db; current = db }) g) (rw (read, h.heard) refl)

finished_state :
    {A : Type 0} (p : Result A × Session) (a : A)
    → (finished p).0 ≡ ok a
    → (finished p).1 ≡ p.1.current
finished_state (ok b, s) a h = refl
finished_state (err e, s) a h = absurd (ground arith)

-- When a signed callback with an event has been answered without an error, and after whatever
-- the payment module has been asked to do since, a signed callback with the same event identifier,
-- in which the identifier of a payment intent is absent or can be read, is answered as a duplicate
-- and changes nothing.
pub delivered_once :
    (s : Setup) (fresh fresh' : Fresh) (now now' : ℕ) (r r' : Delivery) (c c' : Callback)
    (d d' : CallbackData) (between : List Traffic) (db : Db) (answer : Processed)
    → IsGenuine s.callbacks r c d
    → IsGenuine s.callbacks r' c' d'
    → c'.id ≡ c.id
    → (run_request (apply_diddipay_webhook s.callbacks fresh now r) db).0 ≡ ok answer
    → let later = handle_all s between (handle s (Traffic.callback fresh now r) db) in
      run_request (apply_diddipay_webhook s.callbacks fresh' now' r') later ≡ (ok duplicate, later)
unfolding handle run_request
delivered_once s fresh fresh' now now' r r' c c' d d' between db answer g g' same answered =
    let start : Session = record { committed = db; current = db } in
    let heard : IsHeard c.id (handle s (Traffic.callback fresh now r) db) =
      rw
        (
          finished_state (apply_diddipay_webhook s.callbacks fresh now r start) answer answered,
          genuine_runs s.callbacks fresh now r c d start g,
        )
        (content_hears s.callbacks fresh now r c d start g) in
    let later = handle_all-kept (IsHeard-Closed c.id) s between _ heard in
    repeated s.callbacks fresh' now' r' c' d' _ g' (rw same later)
