-- ===== src/Trip/During.antt =====
-- What happens during a ride and after it (app_base/modules/ride/application/services.py):
-- `add_stop`, `add_supplement`, `decide_supplement`, `rate`, `add_location_samples`,
-- `create_share_link` and `request_emergency`.
use diddi_go_backend.Base.{
  ℕ, suc, ◌+◌, Bool, false, not, ◌||◌, ◌&&◌, Option, none, some, List, String, if◌then◌else◌, ltb,
  leb, ◌==◌, update, map, str_eq, is_some, or_else,
}
use diddi_go_backend.Base.Int.{ℤ}
use diddi_go_backend.Base.Transaction.{
  api_error, Result, ok, err, pure, call, ask, lift, raise_if, ◌>>=◌, ◌>>◌,
}
use diddi_go_backend.Ride.Status.{completed, status_eq}
use diddi_go_backend.Trip.Entities.{
  Trip, TripDb, RideStop, RideSupplement, SupplementStatus, pending, RaterRole, RideRating,
  DriverProfile, RideRoutePoint, RideEmergencyEvent, passenger,
}
use diddi_go_backend.Trip.Rides.{save, find_by_share_token}
use diddi_go_backend.Trip.Extras.{
  add_stop_row, count_stops, add_supplement_row, find_supplement_for_update, save_supplement,
  supplement_status_eq, accepted_supplements_total, rater_eq, has_rated, save_rating,
  driver_rating_summary, save_route_point_batch, latest_emergency_event, save_emergency_event,
}
use diddi_go_backend.Trip.Money.{seconds, supplement_amount}
use diddi_go_backend.Trip.Access.{
  Settings, Externals, Sample, Actor, Flow, expect, load_ride, is_admin, is_assigned_driver,
  require_participant, require_active_ride_for_driver, rating_role_for_actor, not_owned,
  is_under_way,
}
use diddi_go_backend.Trip.Pricing.{is_filled}

-- The arguments of `add_stop` beside the ride and the caller.
pub record StopRequest : Type 0 where
  pub latitude : ℕ
  pub longitude : ℕ
  pub address : Option String
  pub note : Option String

unfoldable pub add_stop : (stop_id now ride_id : ℕ) → Actor → StopRequest → Flow RideStop
add_stop stop_id now ride_id actor r = require_active_ride_for_driver ride_id actor >>= λ t.
    ask (count_stops t.ride.id) >>= λ sequence.
    (let stop : RideStop = record {
      id = stop_id;
      ride_id = t.ride.id;
      sequence = sequence;
      latitude = r.latitude;
      longitude = r.longitude;
      address = r.address;
      note = r.note;
      created_at = now;
    } in
      call (add_stop_row stop) >> pure stop)

-- The label of a supplement: only another fee has one, and must.
unfoldable pub supplement_label : (type : String) → Option String → Result (Option String)
supplement_label type custom_label =
    if not (str_eq type "other")
    then ok none
    else if not (is_filled custom_label)
    then err (api_error 422 "SUPPLEMENT_LABEL_REQUIRED")
    else ok custom_label

-- `add_supplement`, of a type and a label that are stripped, the type in lower case.
unfoldable pub add_supplement :
    (supplement_id now ride_id : ℕ)
    → Actor
    → (supplement_type : String) → (amount : Option ℤ) → (custom_label : Option String)
    → Flow RideSupplement
add_supplement supplement_id now ride_id actor supplement_type amount custom_label =
    require_active_ride_for_driver ride_id actor >>= λ t.
    lift (supplement_amount supplement_type amount) >>= λ due.
    lift (supplement_label supplement_type custom_label) >>= λ label.
    (let supplement : RideSupplement = record {
      id = supplement_id;
      ride_id = t.ride.id;
      amount = due;
      reason = supplement_type;
      custom_label = label;
      source = "catalog";
      status = pending;
      created_by_user_id = some actor.user_id;
      created_at = now;
      decided_by_user_id = none;
      decided_at = none;
    } in
      call (add_supplement_row supplement) >> pure supplement)

-- the decision of a pending supplement, and the new total of the ride
unfoldable pub settle_supplement :
    (now : ℕ) → Actor → SupplementStatus → Trip → RideSupplement → Flow RideSupplement
settle_supplement now actor decision t s =
    let s' = record s {
      status = decision;
      decided_by_user_id = some actor.user_id;
      decided_at = some now;
    } in
    call (save_supplement s') >> ask (accepted_supplements_total t.ride.id) >>= λ total.
    call (save (record t { supplements_total = total })) >> pure s'

unfoldable pub decide_supplement :
    (now ride_id supplement_id : ℕ) → Actor → SupplementStatus → Flow RideSupplement
decide_supplement now ride_id supplement_id actor decision = load_ride ride_id >>= λ t.
    raise_if (not (is_admin actor || (t.ride.passenger_user_id == actor.user_id))) not_owned
    >> raise_if (not (is_under_way t)) (api_error 409 "RIDE_NOT_ACTIVE")
    >> ask (find_supplement_for_update t.ride.id supplement_id)
    >>= λ found. lift (expect (api_error 404 "SUPPLEMENT_NOT_FOUND") found) >>= λ s.
        (if supplement_status_eq s.status decision
          then pure s
          else (raise_if (not (supplement_status_eq s.status pending))
                (api_error 409 "SUPPLEMENT_ALREADY_DECIDED")
              >> settle_supplement now actor decision t s))

-- the driver's profile with the average of the ratings; a null average cannot be stored
abbrev pub rated_profile : ℕ × Option ℕ → DriverProfile → DriverProfile
rated_profile (n, average) p = record p {
  rating_count = n;
  rating_avg = or_else average p.rating_avg;
}

abbrev pub update_profile : (driver_id : ℕ) → TripDb → Result (Unit {0}) × TripDb
update_profile driver_id db = (
  ok tt,
  record db {
    profiles =
        update (λ (p : DriverProfile). p.id == driver_id)
          (rated_profile (driver_rating_summary driver_id db)) db.profiles;
  },
)

-- the summary of a passenger's rating on the driver's profile, where there is one
unfoldable pub refresh_driver_rating : Trip → RaterRole → Flow (Unit {0})
refresh_driver_rating t role =
    if rater_eq role passenger
    then elim t.ride.driver_id [ some d ↦ call (update_profile d) | none ↦ pure tt ]
    else pure tt

unfoldable pub rate :
    (rating_id ride_id rating : ℕ) → (comment : Option String) → Actor → Flow RideRating
rate rating_id ride_id rating comment actor = load_ride ride_id >>= λ t.
    ask (rating_role_for_actor t actor) >>= λ found. lift (expect not_owned found) >>= λ role.
    raise_if (not (status_eq t.ride.status completed)) (api_error 409 "RIDE_NOT_COMPLETED")
    >> ask (has_rated ride_id role)
    >>= λ rated.
        raise_if rated (api_error 409 "RATING_ALREADY_SUBMITTED")
        >> raise_if (not (leb 1 rating && leb rating 5)) (api_error 422 "RATING_OUT_OF_RANGE")
        >> (let row : RideRating = record {
          id = rating_id;
          ride_id = ride_id;
          rater_role = role;
          rating = rating;
          comment = comment;
        } in
            call (save_rating row) >> refresh_driver_rating t role >> pure row)

-- the point of a sample
abbrev pub route_point : (now ride_id : ℕ) → Sample → RideRoutePoint
route_point now ride_id s = record {
  ride_id = ride_id;
  location = s.location;
  recorded_at = or_else s.recorded_at now;
  heading = s.heading;
  speed_kmh = s.speed_kmh;
  accuracy_m = s.accuracy_m;
  source = or_else s.source "driver";
}

-- `add_location_samples`: how many samples the batch has, and whether it was known
unfoldable pub add_location_samples :
    Externals → (now ride_id : ℕ) → List Sample → (actor_user_id batch_id : ℕ) → Flow (ℕ × Bool)
add_location_samples ext now ride_id samples actor_user_id batch_id = load_ride ride_id >>= λ t.
    ask (is_assigned_driver t actor_user_id) >>= λ assigned.
    raise_if (not assigned) not_owned
    >> call (
        save_route_point_batch batch_id actor_user_id (ext.payload_hash samples)
          (map (route_point now ride_id) samples))
    >>= λ saved.
        raise_if saved.1.1 (api_error 409 "GPS_BATCH_IDEMPOTENCY_CONFLICT")
        >> pure (saved.0, saved.1.0)

-- `create_share_link`, with the token that `secrets.token_urlsafe` draws
unfoldable pub create_share_link : (token : String) → (now ride_id : ℕ) → Actor → Flow Trip
create_share_link token now ride_id actor = load_ride ride_id >>= λ t.
    require_participant t actor
    >> (let t1 = record t {
      share_token = if is_filled t.share_token then t.share_token else some token;
      share_expires_at = some (now + seconds 86400);
    } in
        call (save t1) >> pure t1)

-- `get_shared_ride`: the ride that a token shows
unfoldable pub get_shared_ride : (token : String) → (now : ℕ) → Flow Trip
get_shared_ride token now = ask (find_by_share_token token) >>= λ found.
    lift (expect (api_error 404 "SHARE_LINK_NOT_FOUND") found) >>= λ t.
    lift (expect (api_error 404 "SHARE_LINK_NOT_FOUND") t.share_expires_at) >>= λ expires.
    raise_if (ltb expires now) (api_error 404 "SHARE_LINK_NOT_FOUND") >> pure t

-- less than the limit ago; a moment to come counts as recent
abbrev pub is_recent : Settings → (now : ℕ) → Option RideEmergencyEvent → Bool
is_recent cfg now none = false
is_recent cfg now (some e) =
    ltb now (e.requested_at + seconds cfg.ride_emergency_rate_limit_seconds)

abbrev pub next_sequence : Option RideEmergencyEvent → ℕ
next_sequence none = 1
next_sequence (some e) = suc e.sequence

abbrev pub was_notified : Option RideEmergencyEvent → Bool
was_notified none = false
was_notified (some e) = e.contact_notified

-- `request_emergency`. `sent_to_contact` is whether the notification service, told whether to
-- include the contact, says that it reached the contact.
unfoldable pub request_emergency :
    Settings
    → (sent_to_contact : Bool → Bool) → (event_id now ride_id : ℕ) → Actor
    → (note : Option String) → Flow RideEmergencyEvent
request_emergency cfg sent_to_contact event_id now ride_id actor note = load_ride ride_id >>= λ t.
    require_participant t actor >> ask (latest_emergency_event t.ride.id) >>= λ latest.
    raise_if (is_recent cfg now latest) (api_error 429 "EMERGENCY_RATE_LIMITED")
    >> (let t1 = record t {
      emergency_requested_at =
          if is_some t.emergency_requested_at then t.emergency_requested_at else some now;
      emergency_status = some "open";
      emergency_note = if is_some t.emergency_note then t.emergency_note else note;
    } in
        let include = not (cfg.ride_emergency_contact_notify_once && was_notified latest) in
        let event : RideEmergencyEvent = record {
          id = event_id;
          ride_id = t.ride.id;
          actor_user_id = actor.user_id;
          actor_role = actor.role;
          requested_at = now;
          note = note;
          sequence = next_sequence latest;
          contact_notified = was_notified latest || sent_to_contact include;
        } in
        call (save t1) >> call (save_emergency_event event) >> pure event)
