-- ===== src/Trip/Kept.antt =====
-- The invariant of the tables and the use cases beside the course of a ride: `rate`, the
-- supplements, the stops, the samples, the share link and the emergency
-- (app_base/modules/ride/application/services.py).
use diddi_go_backend.Base.{
  ℕ, ◌≤◌, ◌≡◌, refl, inl, inr, Bool, true, false, not, ◌&&◌, Option, List, [], ◌∷◌, ◌++◌, String,
  arith, if◌then◌else◌, ◌==◌, ==_iff, any, count, count-snoc, leb, Bool-cases, Option-cases,
}
use mathlib.Core.Path.{subst}
use diddi_go_backend.Base.Int.{ℤ}
use diddi_go_backend.Base.Found.{snoc-All}
use diddi_go_backend.Base.Transaction.{Result}
use diddi_go_backend.Base.Safe.{
  Safe, bind-Safe, then-Safe, lift-Safe, guard-Safe, ask-Safe, with-Safe, end-Safe, if-Safe,
  call-Safe,
}
use diddi_go_backend.Trip.Entities.{
  Trip, TripDb, RideRating, RaterRole, passenger, SupplementStatus, RideSupplement, RideStop,
  RideEmergencyEvent, RideRoutePoint,
}
use diddi_go_backend.Trip.Extras.{
  add_stop_row, add_supplement_row, save_supplement, supplement_status_eq, rater_eq, is_rating,
  save_rating, save_route_point_batch, save_emergency_event,
}
use diddi_go_backend.Trip.Access.{
  Settings, Externals, Sample, Actor, require_active_ride_for_driver,
}
use diddi_go_backend.Trip.During.{
  StopRequest, add_stop, add_supplement, settle_supplement, decide_supplement, update_profile,
  refresh_driver_rating, rate, add_location_samples, create_share_link, request_emergency,
}
use diddi_go_backend.Trip.Sound.{Sound, and_both, InRange, Found, Step-refl, save-Safe}
use diddi_go_backend.Trip.Rules.{
  load-Safe, unit-Returns, quiet-Safe, beside-Safe, require_driver-Safe, require_participant-Safe,
  store-Safe,
}

any-count : {A : Type 0} (test : A → Bool) (xs : List A) → any test xs ≡ false → count test xs ≡ 0
any-count test [] h = refl
any-count test (x ∷ xs) h = ground (arith, any-count test xs)

rater_same : (a b : RaterRole) → rater_eq a b ≡ true → a ≡ b
rater_same a b h = ground arith

rating_key :
    (r : RideRating) (rows : List RideRating) (ride : ℕ) (role : RaterRole)
    → is_rating ride role r ≡ true
    → count (is_rating r.ride_id r.rater_role) rows ≡ 0
    → count (is_rating ride role) rows ≡ 0
rating_key r rows ride role mine h =
    let (a, b) = and_both (r.ride_id == ride) (rater_eq r.rater_role role) mine in
    let by_ride : count (is_rating ride r.rater_role) rows ≡ 0 =
      subst (λ n. count (is_rating n r.rater_role) rows ≡ 0) ((==_iff r.ride_id ride).0 a) h in
    subst (λ x. count (is_rating ride x) rows ≡ 0) (rater_same r.rater_role role b) by_ride

-- A new rating of a side that has not rated leaves one rating by side at most.
count_rated :
    (r : RideRating) (rows : List RideRating) (ride : ℕ) (role : RaterRole)
    → any (is_rating r.ride_id r.rater_role) rows ≡ false
    → count (is_rating ride role) rows ≤ 1
    → count (is_rating ride role) (rows ++ r ∷ []) ≤ 1
count_rated r rows ride role new h = elim (Bool-cases (is_rating ride role r)) [
  | inl mine ↦
      let none_yet = any-count (is_rating r.ride_id r.rater_role) rows new in
      let none_of : count (is_rating ride role) rows ≡ 0 =
        rating_key r rows ride role mine none_yet in
      ground (arith, count-snoc (is_rating ride role) rows r, none_of)
  | inr other ↦ ground (arith, count-snoc (is_rating ride role) rows r)
]

if_Sound :
    (c : Bool) (x y : Result Unit × TripDb)
    → Sound x.1
    → (c ≡ false → Sound y.1)
    → Sound (if c then x else y).1
if_Sound true x y hx hy = hx
if_Sound false x y hx hy = hy refl

save_rating-Sound : (r : RideRating) (db : TripDb) → Sound db → Sound (save_rating r db).1
unfolding save_rating
save_rating-Sound r db h = if_Sound (any (λ x. x.id == r.id) db.ratings) _ _ h λ _.
    if_Sound (not (leb 1 r.rating && leb r.rating 5)) _ _ h λ fits.
      if_Sound (any (is_rating r.ride_id r.rater_role) db.ratings) _ _ h λ new. record {
        paid = h.paid;
        single = h.single;
        in_range = snoc-All InRange db.ratings r h.in_range (ground arith, ground arith);
        once = λ ride role. count_rated r db.ratings ride role new (h.once ride role);
      }

require_active-Safe :
    {P : TripDb → Type 0} (i : ℕ) (actor : Actor)
    → Safe Sound P (require_active_ride_for_driver i actor) (λ _ _. Unit)
unfolding require_active_ride_for_driver
require_active-Safe i actor =
    bind-Safe (load-Safe i)
      λ t. then-Safe (then-Safe (require_driver-Safe t actor) (guard-Safe _ _)) (end-Safe t)

quiet_stop :
    (s : RideStop) (db : TripDb)
    → ((add_stop_row s db).1.rides ≡ db.rides) × ((add_stop_row s db).1.ratings ≡ db.ratings)
unfolding add_stop_row
quiet_stop s db = (ground arith, ground arith)

quiet_supplement :
    (s : RideSupplement) (db : TripDb)
    → ((add_supplement_row s db).1.rides ≡ db.rides)
      × ((add_supplement_row s db).1.ratings ≡ db.ratings)
unfolding add_supplement_row
quiet_supplement s db = (ground arith, ground arith)

quiet_decision :
    (s : RideSupplement) (db : TripDb)
    → ((save_supplement s db).1.rides ≡ db.rides) × ((save_supplement s db).1.ratings ≡ db.ratings)
unfolding save_supplement
quiet_decision s db = (ground arith, ground arith)

quiet_event :
    (e : RideEmergencyEvent) (db : TripDb)
    → ((save_emergency_event e db).1.rides ≡ db.rides)
      × ((save_emergency_event e db).1.ratings ≡ db.ratings)
unfolding save_emergency_event
quiet_event e db = (ground arith, ground arith)

quiet_batch :
    (batch actor : ℕ) (hash : String) (points : List RideRoutePoint) (db : TripDb)
    → ((save_route_point_batch batch actor hash points db).1.rides ≡ db.rides)
      × ((save_route_point_batch batch actor hash points db).1.ratings ≡ db.ratings)
unfolding save_route_point_batch
quiet_batch batch actor hash [] db = (refl, refl)
quiet_batch batch actor hash (p ∷ ps) db = (ground arith, ground arith)

pub add_stop-Safe :
    (stop now i : ℕ) (actor : Actor) (r : StopRequest)
    → Safe Sound (λ _. Unit) (add_stop stop now i actor r) (λ _ _. Unit)
unfolding add_stop
add_stop-Safe stop now i actor r = bind-Safe (require_active-Safe i actor) λ t.
    bind-Safe (ask-Safe _) λ n.
      then-Safe (quiet-Safe _ (λ db. (quiet_stop _ db).0) λ db. (quiet_stop _ db).1) (end-Safe _)

pub add_supplement-Safe :
    (supplement now i : ℕ) (actor : Actor) (type : String) (amount : Option ℤ)
    (label : Option String)
    → Safe Sound (λ _. Unit) (add_supplement supplement now i actor type amount label) (λ _ _. Unit)
unfolding add_supplement
add_supplement-Safe supplement now i actor type amount label =
    bind-Safe (require_active-Safe i actor) λ t. bind-Safe (lift-Safe _) λ due.
      bind-Safe (lift-Safe _) λ text.
        then-Safe (quiet-Safe _ (λ db. (quiet_supplement _ db).0) λ db. (quiet_supplement _ db).1)
          (end-Safe _)

settle-Safe :
    (now i : ℕ) (actor : Actor) (decision : SupplementStatus) (t : Trip) (s : RideSupplement)
    → Safe Sound (Found i t) (settle_supplement now actor decision t s) (λ _ _. Unit)
unfolding settle_supplement
settle-Safe now i actor decision t s =
    bind-Safe
      (then-Safe (beside-Safe i t _ (λ db. (quiet_decision _ db).0) λ db. (quiet_decision _ db).1)
        (ask-Safe _))
      λ total. then-Safe (save-Safe i t _ (Step-refl t.ride)) (end-Safe _)

pub decide_supplement-Safe :
    (now i supplement : ℕ) (actor : Actor) (decision : SupplementStatus)
    → Safe Sound (λ _. Unit) (decide_supplement now i supplement actor decision) (λ _ _. Unit)
unfolding decide_supplement
decide_supplement-Safe now i supplement actor decision = bind-Safe (load-Safe i) λ t.
    bind-Safe (then-Safe (then-Safe (guard-Safe _ _) (guard-Safe _ _)) (ask-Safe _)) λ found.
      bind-Safe (lift-Safe _) λ s. with-Safe λ _.
        if-Safe (supplement_status_eq s.status decision) (λ _. end-Safe s)
          λ _. then-Safe (guard-Safe _ _) (settle-Safe now i actor decision t s)

refresh-Safe :
    {P : TripDb → Type 0} (t : Trip) (role : RaterRole)
    → Safe Sound P (refresh_driver_rating t role) (λ _ _. Unit)
unfolding refresh_driver_rating
refresh-Safe t role =
    if-Safe (rater_eq role passenger)
      (λ _. elim (Option-cases t.ride.driver_id) [
        | inl nobody ↦ rw nobody (end-Safe tt)
        | inr (d, driven) ↦ rw driven (quiet-Safe (update_profile d) (λ db. refl) λ db. refl)
      ])
      λ _. end-Safe tt

pub rate-Safe :
    (rating_id i rating : ℕ) (comment : Option String) (actor : Actor)
    → Safe Sound (λ _. Unit) (rate rating_id i rating comment actor) (λ _ _. Unit)
unfolding rate
rate-Safe rating_id i rating comment actor = bind-Safe (load-Safe i) λ t.
    bind-Safe (ask-Safe _) λ found. bind-Safe (lift-Safe _) λ role.
      bind-Safe (then-Safe (guard-Safe _ _) (ask-Safe _)) λ rated.
        then-Safe (then-Safe (guard-Safe _ _) (guard-Safe _ _)) (
          then-Safe
            (then-Safe
              (call-Safe {Q = λ _ _. Unit} (save_rating _)
                λ db h p. (save_rating-Sound _ db h, unit-Returns _ _))
              (refresh-Safe t role))
            (end-Safe _))

pub samples-Safe :
    (ext : Externals) (now i : ℕ) (samples : List Sample) (user batch : ℕ)
    → Safe Sound (λ _. Unit) (add_location_samples ext now i samples user batch) (λ _ _. Unit)
unfolding add_location_samples
samples-Safe ext now i samples user batch = bind-Safe (load-Safe i) λ t.
    bind-Safe (ask-Safe _) λ assigned.
      bind-Safe
        (then-Safe (guard-Safe _ _)
          (quiet-Safe _ (λ db. (quiet_batch _ _ _ _ db).0) λ db. (quiet_batch _ _ _ _ db).1))
        λ saved. then-Safe (guard-Safe _ _) (end-Safe _)

pub share-Safe :
    (token : String) (now i : ℕ) (actor : Actor)
    → Safe Sound (λ _. Unit) (create_share_link token now i actor) (λ _ _. Unit)
unfolding create_share_link
share-Safe token now i actor =
    bind-Safe (load-Safe i)
      λ t. then-Safe (require_participant-Safe t actor) (store-Safe i t _ (Step-refl t.ride))

pub emergency-Safe :
    (cfg : Settings) (sent : Bool → Bool) (event now i : ℕ) (actor : Actor) (note : Option String)
    → Safe Sound (λ _. Unit) (request_emergency cfg sent event now i actor note) (λ _ _. Unit)
unfolding request_emergency
emergency-Safe cfg sent event now i actor message = bind-Safe (load-Safe i) λ t.
    bind-Safe (then-Safe (require_participant-Safe t actor) (ask-Safe _)) λ latest.
      then-Safe (guard-Safe _ _) (
        then-Safe
          (then-Safe (save-Safe i t _ (Step-refl t.ride))
            (quiet-Safe _ (λ db. (quiet_event _ db).0) λ db. (quiet_event _ db).1))
          (end-Safe _))
