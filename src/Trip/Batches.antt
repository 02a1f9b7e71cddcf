-- ===== src/Trip/Batches.antt =====
-- A batch of route points that is sent again (`save_route_point_batch` of
-- app_base/modules/ride/infra/repositories.py).
use diddi_go_backend.Base.{
  ℕ, ◌≡◌, refl, Bool, true, not, none, some, List, [], ◌∷◌, ◌++◌, String, arith, find, length,
  str_eq, ==_refl,
}
use diddi_go_backend.Base.Transaction.{ok}
use diddi_go_backend.Trip.Entities.{TripDb, RideRoutePoint, RideLocationBatch}
use diddi_go_backend.Trip.Extras.{is_batch, save_route_point_batch}

find_added :
    {A : Type 0} (test : A → Bool) (xs : List A) (y : A)
    → find test xs ≡ none
    → test y ≡ true
    → find test (xs ++ y ∷ []) ≡ some y
find_added test [] y h t = ground arith
find_added test (x ∷ xs) y h t = ground (arith, find_added test xs y)

stored_batch :
    (batch actor : ℕ) (hash : String) (p : RideRoutePoint) (ps : List RideRoutePoint) (db : TripDb)
    → find (is_batch p.ride_id batch) db.batches ≡ none
    → (save_route_point_batch batch actor hash (p ∷ ps) db).1.batches
      ≡ db.batches
        ++ record {
          ride_id = p.ride_id;
          batch_id = batch;
          actor_user_id = actor;
          samples_count = length (p ∷ ps);
          payload_hash = hash;
        }
          ∷ []
unfolding save_route_point_batch
stored_batch batch actor hash p ps db new = ground arith

known_batch :
    (batch actor : ℕ) (hash : String) (p : RideRoutePoint) (ps : List RideRoutePoint)
    (b : RideLocationBatch) (db : TripDb)
    → find (is_batch p.ride_id batch) db.batches ≡ some b
    → save_route_point_batch batch actor hash (p ∷ ps) db
      ≡ (ok (b.samples_count, (true, not (str_eq b.payload_hash hash))), db)
unfolding save_route_point_batch
known_batch batch actor hash p ps b db known = rw (known, save_route_point_batch) refl

-- Once a batch of points of a ride, not an empty one, has been stored under an identifier that the
-- ride had not used, any batch of that ride under the same identifier, not an empty one, is
-- answered with the size of the first one and as a replay, in conflict exactly when its hash
-- differs, and leaves the tables as they were.
pub resent_batch :
    (batch actor actor' : ℕ) (hash hash' : String) (p p' : RideRoutePoint)
    (ps ps' : List RideRoutePoint) (db : TripDb)
    → p'.ride_id ≡ p.ride_id
    → find (is_batch p.ride_id batch) db.batches ≡ none
    → let stored = (save_route_point_batch batch actor hash (p ∷ ps) db).1 in
      save_route_point_batch batch actor' hash' (p' ∷ ps') stored
      ≡ (ok (length (p ∷ ps), (true, not (str_eq hash hash'))), stored)
resent_batch batch actor actor' hash hash' p p' ps ps' db same new =
    let row : RideLocationBatch = record {
      ride_id = p.ride_id;
      batch_id = batch;
      actor_user_id = actor;
      samples_count = length (p ∷ ps);
      payload_hash = hash;
    } in
    let mine : is_batch p.ride_id batch row ≡ true = rw (==_refl p.ride_id, ==_refl batch) refl in
    let stored = (save_route_point_batch batch actor hash (p ∷ ps) db).1 in
    let there : find (is_batch p'.ride_id batch) stored.batches ≡ some row =
      rw (same, stored_batch batch actor hash p ps db new)
        (find_added (is_batch p.ride_id batch) db.batches row new mine) in
    known_batch batch actor' hash' p' ps' row stored there
