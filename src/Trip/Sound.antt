-- ===== src/Trip/Sound.antt =====
-- What the tables of the ride use cases keep to, and the rules for the methods that change them
-- (app_base/modules/ride/infra/repositories.py).
use diddi_go_backend.Base.{
  ℕ, ◌≤◌, ◌≡◌, refl, sym, ◌∙◌, inl, inr, Bool, true, false, ◌&&◌, some, List, ◌==◌, ==_iff, ==_refl,
  find, any, count, All, arith, Bool-cases,
}
use mathlib.Core.Path.{subst}
use diddi_go_backend.Base.Int.{ℤ, ◌+ℤ◌}
use diddi_go_backend.Base.Found.{
  find-All, find-passes, find-any, update-All, snoc-All, count-replace, find-replace,
}
use diddi_go_backend.Base.Transaction.{call}
use diddi_go_backend.Base.Safe.{Safe, call-Safe}
use diddi_go_backend.Ride.Status.{completed, status_eq}
use diddi_go_backend.Ride.Entity.{Ride, is_active}
use diddi_go_backend.Trip.Entities.{Trip, TripDb, RideRating, RaterRole, has_id}
use diddi_go_backend.Trip.Rides.{save, add_or_update, to_row, conflicts, is_live_of}
use diddi_go_backend.Trip.Extras.{is_rating}

-- A completed ride has a final fare, which its commission and its payout add up to.
abbrev pub Shared : Ride → Type 0
Shared r =
    (fare : ℤ) × ((fee : ℤ) × ((payout : ℤ) × ((r.final_fare ≡ some fare)
          × ((r.platform_commission ≡ some fee)
              × ((r.driver_payout_estimate ≡ some payout) × (fee +ℤ payout ≡ fare))))))

abbrev pub IsPaidOut : Ride → Type 0
IsPaidOut r = status_eq r.status completed ≡ true → Shared r

abbrev pub IsPaidOutTrip : Trip → Type 0
IsPaidOutTrip t = IsPaidOut t.ride

abbrev pub InRange : RideRating → Type 0
InRange r = (1 ≤ r.rating) × (r.rating ≤ 5)

-- Completed rides are paid out in full; a passenger has one active ride at most; a rating is
-- between 1 and 5; and each side rates a ride once at most.
pub record Sound (db : TripDb) : Type 0 where
  pub paid : All IsPaidOutTrip db.rides
  pub single : (passenger : ℕ) → count (is_live_of passenger) db.rides ≤ 1
  pub in_range : All InRange db.ratings
  pub once : (ride : ℕ) (role : RaterRole) → count (is_rating ride role) db.ratings ≤ 1

-- The ride with an identifier, as the tables have it.
abbrev pub Found : ℕ → Trip → TripDb → Type 0
Found i t db = find (has_id i) db.rides ≡ some t

-- What a use case may make of a ride that it has loaded.
pub record Step (r r' : Ride) : Type 0 where
  pub same_id : r'.id ≡ r.id
  pub same_passenger : r'.passenger_user_id ≡ r.passenger_user_id
  pub live : is_active r' ≡ true → is_active r ≡ true
  pub pays : IsPaidOut r → IsPaidOut r'

pub Step-refl : (r : Ride) → Step r r
Step-refl r = record { same_id = refl; same_passenger = refl; live = λ h. h; pays = λ h. h }

pub Step-trans : {r s t : Ride} → Step r s → Step s t → Step r t
Step-trans a b = record {
  same_id = b.same_id ∙ a.same_id;
  same_passenger = b.same_passenger ∙ a.same_passenger;
  live = λ h. a.live (b.live h);
  pays = λ h. b.pays (a.pays h);
}

-- The row that a ride leaves stands for the ride.
pub Step-from_row : (t : Trip) (r : Ride) → Step t.ride r → Step (to_row t).ride r
unfolding is_active
Step-from_row t r h = record {
  same_id = h.same_id;
  same_passenger = h.same_passenger;
  live = h.live;
  pays = h.pays;
}

pub and_both : (a b : Bool) → (a && b) ≡ true → (a ≡ true) × (b ≡ true)
and_both true true h = (refl, refl)
and_both true false h = cc
and_both false b h = cc

live-Step :
    (r t : Trip) (passenger : ℕ)
    → Step r.ride t.ride
    → is_live_of passenger (to_row t) ≡ true
    → is_live_of passenger r ≡ true
unfolding is_active
live-Step r t passenger h l =
    let (same, active) = and_both (t.ride.passenger_user_id == passenger) (is_active t.ride) l in
    let same' : (r.ride.passenger_user_id == passenger) ≡ true =
      subst (λ n. (n == passenger) ≡ true) h.same_passenger same in
    rw same' (h.live active)

count_saved :
    (i : ℕ) (r t : Trip) (rows : List Trip) (passenger : ℕ)
    → find (has_id i) rows ≡ some r
    → i ≡ t.ride.id
    → Step r.ride t.ride
    → count (is_live_of passenger) (add_or_update t rows) ≤ count (is_live_of passenger) rows
count_saved i r t rows passenger found same h =
    let here : find (has_id t.ride.id) rows ≡ some r =
      subst (λ n. find (has_id n) rows ≡ some r) same found in
    rw (find-any (has_id t.ride.id) rows r here) (
      count-replace (has_id t.ride.id) (is_live_of passenger) rows r (to_row t) here
        (live-Step r t passenger h))

pub All_saved :
    (t : Trip) (rows : List Trip)
    → IsPaidOut t.ride
    → All IsPaidOutTrip rows
    → All IsPaidOutTrip (add_or_update t rows)
All_saved t rows h all = elim (Bool-cases (any (has_id t.ride.id) rows)) [
  | inl known ↦
      rw known (update-All IsPaidOutTrip (has_id t.ride.id) (λ _. to_row t) rows (λ _ _. h) all)
  | inr new ↦ rw new (snoc-All IsPaidOutTrip rows (to_row t) all h)
]

found_saved :
    (i : ℕ) (r t : Trip) (rows : List Trip)
    → find (has_id i) rows ≡ some r
    → i ≡ t.ride.id
    → find (has_id i) (add_or_update t rows) ≡ some (to_row t)
found_saved i r t rows found same =
    let here : find (has_id t.ride.id) rows ≡ some r =
      subst (λ n. find (has_id n) rows ≡ some r) same found in
    subst (λ n. find (has_id n) (add_or_update t rows) ≡ some (to_row t)) (sym same)
      (rw (find-any (has_id t.ride.id) rows r here)
        (find-replace (has_id t.ride.id) rows r (to_row t) here (==_refl t.ride.id)))

-- the identifier of a loaded ride
same_key :
    (i : ℕ) (r t : Trip) (rows : List Trip)
    → find (has_id i) rows ≡ some r
    → Step r.ride t.ride
    → i ≡ t.ride.id
same_key i r t rows found h =
    sym (h.same_id ∙ (==_iff r.ride.id i).0 (find-passes (has_id i) rows r found))

Sound-saved :
    (i : ℕ) (r t : Trip) (db : TripDb)
    → Sound db
    → Found i r db
    → Step r.ride t.ride
    → Sound (record db { rides = add_or_update t db.rides })
Sound-saved i r t db h found step =
    let same = same_key i r t db.rides found step in
    record {
      paid =
          All_saved t db.rides
            (step.pays (find-All IsPaidOutTrip (has_id i) db.rides r found h.paid)) h.paid;
      single = λ p. omega (arith, count_saved i r t db.rides p found same step, h.single p);
      in_range = h.in_range;
      once = h.once;
    }

-- A ride that is loaded, changed in a step and saved.
pub save-Safe :
    (i : ℕ) (r t : Trip)
    → Step r.ride t.ride
    → Safe Sound (Found i r) (call (save t)) (λ _. Found i (to_row t))
unfolding save
save-Safe i r t step = call-Safe (save t) λ db h found. elim (Bool-cases (conflicts t db.rides)) [
  | inl refused ↦ rw refused (h, tt)
  | inr free ↦ rw free (
    Sound-saved i r t db h found step,
    found_saved i r t db.rides found (same_key i r t db.rides found step),
  )
]
