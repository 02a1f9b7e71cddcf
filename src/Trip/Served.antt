-- ===== src/Trip/Served.antt =====
-- What any sequence of requests leaves of the rides and of their ratings
-- (app_base/modules/ride/application/services.py).
use diddi_go_backend.Base.{
  ℕ, ◌+◌, ◌≤◌, ◌≡◌, refl, ◌∙◌, inl, inr, false, List, [], ◌∷◌, arith, if◌then◌else◌, ◌==◌, ==_iff,
  any, count, count-snoc, Bool-cases,
}
use mathlib.Core.Path.{subst}
use diddi_go_backend.Base.Found.{count-replace_le}
use diddi_go_backend.Base.Transaction.{call}
use diddi_go_backend.Base.Safe.{
  Safe, bind-Safe, then-Safe, lift-Safe, guard-Safe, passed-Safe, told-Safe, less-Safe, end-Safe,
  call-Safe, run-Safe,
}
use diddi_go_backend.Ride.Entity.{new_ride}
use diddi_go_backend.Trip.Entities.{Trip, TripDb, RideQuote, has_id}
use diddi_go_backend.Trip.Rides.{
  save, to_row, add_or_update, conflicts, is_live_of, has_active_ride, consume,
}
use diddi_go_backend.Trip.Access.{Settings, Externals, Flow}
use diddi_go_backend.Trip.Request.{RideRequest, ride_of_quote, create_ride, request_ride}
use diddi_go_backend.Trip.Serve.{
  TripRequest, requests, updates, asks_early_stop, confirms_early_stop, arrives, starts,
  reports_no_show, starts_waiting, stops_waiting, adds_stop, adds_supplement, decides_supplement,
  cancels, rates, sends_samples, shares, calls_emergency, silent, handle, serve_all,
}
use diddi_go_backend.Trip.Sound.{Sound, IsPaidOut, All_saved}
use diddi_go_backend.Trip.Rules.{quiet-Safe, record_transitions-Safe}
use diddi_go_backend.Trip.Handled.{
  mark_arrived-Safe, start_ride_with_code-Safe, mark_passenger_no_show-Safe, start_waiting-Safe,
  stop_waiting-Safe,
}
use diddi_go_backend.Trip.Closed.{
  update_status-Safe, request_early_stop-Safe, confirm_early_stop-Safe, cancel-Safe,
}
use diddi_go_backend.Trip.Kept.{
  add_stop-Safe, add_supplement-Safe, decide_supplement-Safe, rate-Safe, samples-Safe, share-Safe,
  emergency-Safe,
}

-- A saved ride adds at most itself to the active rides of a passenger.
count_added :
    (t : Trip) (rows : List Trip) (p : ℕ)
    → count (is_live_of p) (add_or_update t rows)
      ≤ count (is_live_of p) rows + (if is_live_of p (to_row t) then 1 else 0)
count_added t rows p = elim (Bool-cases (any (has_id t.ride.id) rows)) [
  | inl known ↦ rw known (count-replace_le (has_id t.ride.id) (is_live_of p) rows (to_row t))
  | inr new ↦ rw new (omega (arith, count-snoc (is_live_of p) rows (to_row t)))
]

-- The new ride of a passenger who has no active one.
single_added :
    (t : Trip) (rows : List Trip) (p : ℕ)
    → count (is_live_of t.ride.passenger_user_id) rows ≡ 0
    → count (is_live_of p) rows ≤ 1
    → count (is_live_of p) (add_or_update t rows) ≤ 1
single_added t rows p idle h = elim (Bool-cases (t.ride.passenger_user_id == p)) [
  | inl same ↦
      let idle' : count (is_live_of p) rows ≡ 0 =
        subst (λ n. count (is_live_of n) rows ≡ 0) ((==_iff t.ride.passenger_user_id p).0 same)
          idle in
      ground (arith, count_added t rows p, idle')
  | inr other ↦ ground (arith, count_added t rows p)
]

no_active : (p : ℕ) (db : TripDb) → has_active_ride p db ≡ false → count (is_live_of p) db.rides ≡ 0
unfolding has_active_ride
no_active p db h = ground arith

save_new-Safe :
    (t : Trip)
    → IsPaidOut t.ride
    → Safe Sound
        (λ db. has_active_ride t.ride.passenger_user_id db ≡ false)
        (call (save t))
        (λ _ _. Unit)
unfolding save
save_new-Safe t pays = call-Safe (save t) λ db h idle. elim (Bool-cases (conflicts t db.rides)) [
  | inl refused ↦ rw refused (h, tt)
  | inr free ↦ rw free (
    record {
      paid = All_saved t db.rides pays h.paid;
      single =
          λ p. single_added t db.rides p (no_active t.ride.passenger_user_id db idle) (h.single p);
      in_range = h.in_range;
      once = h.once;
    },
    tt,
  )
]

create-Safe :
    (now : ℕ) (r : RideRequest) (q : RideQuote)
    → Safe Sound
        (λ db. has_active_ride r.passenger_user_id db ≡ false)
        (create_ride now r q)
        (λ _ _. Unit)
unfolding create_ride ride_of_quote new_ride consume
create-Safe now r q =
    then-Safe
      (then-Safe
        (then-Safe (save_new-Safe (ride_of_quote now r q) λ e. cc)
          (quiet-Safe _ (λ db. refl) λ db. refl))
        (record_transitions-Safe _))
      (end-Safe _)

request-Safe :
    (now : ℕ) (r : RideRequest) → Safe Sound (λ _. Unit) (request_ride now r) (λ _ _. Unit)
unfolding request_ride
request-Safe now r = bind-Safe (told-Safe _) λ found. bind-Safe (lift-Safe _) λ q.
    bind-Safe
      (then-Safe (then-Safe (then-Safe (guard-Safe _ _) (guard-Safe _ _)) (guard-Safe _ _))
        (told-Safe (has_active_ride r.passenger_user_id)))
      λ live.
        then-Safe (passed-Safe live _)
          (less-Safe (λ db known. known.0.1 ∙ known.1) (create-Safe now r q))

silent-Safe :
    {A : Type 0} {m : Flow A}
    → Safe Sound (λ _. Unit) m (λ _ _. Unit)
    → Safe Sound (λ _. Unit) (silent m) (λ _ _. Unit)
silent-Safe h = bind-Safe h λ _. end-Safe tt

module _ (cfg : Settings) (ext : Externals) where
  handle-Safe : (r : TripRequest) → Safe Sound (λ _. Unit) (handle cfg ext r) (λ _ _. Unit)
  unfolding handle
  handle-Safe (requests now r) = silent-Safe (request-Safe now r)
  handle-Safe (updates a now later i s actor) =
      silent-Safe (update_status-Safe cfg ext a now later i s actor)
  handle-Safe (asks_early_stop now i u) = silent-Safe (request_early_stop-Safe cfg ext now i u)
  handle-Safe (confirms_early_stop a now later i actor) =
      silent-Safe (confirm_early_stop-Safe cfg ext a now later i actor)
  handle-Safe (arrives now i actor p) = silent-Safe (mark_arrived-Safe cfg ext now i actor p)
  handle-Safe (starts a now i actor code) =
      silent-Safe (start_ride_with_code-Safe cfg ext a now i actor code)
  handle-Safe (reports_no_show now later i actor) =
      silent-Safe (mark_passenger_no_show-Safe cfg ext now later i actor)
  handle-Safe (starts_waiting now i actor v) =
      silent-Safe (start_waiting-Safe cfg ext now i actor v)
  handle-Safe (stops_waiting now i actor s) = silent-Safe (stop_waiting-Safe cfg ext now i actor s)
  handle-Safe (adds_stop n now i actor r) = silent-Safe (add_stop-Safe n now i actor r)
  handle-Safe (adds_supplement n now i actor s a l) =
      silent-Safe (add_supplement-Safe n now i actor s a l)
  handle-Safe (decides_supplement now i n actor d) =
      silent-Safe (decide_supplement-Safe now i n actor d)
  handle-Safe (cancels now later i s actor) = silent-Safe (cancel-Safe cfg ext now later i s actor)
  handle-Safe (rates n i x c actor) = silent-Safe (rate-Safe n i x c actor)
  handle-Safe (sends_samples now i l u b) = silent-Safe (samples-Safe ext now i l u b)
  handle-Safe (shares s now i actor) = silent-Safe (share-Safe s now i actor)
  handle-Safe (calls_emergency f e now i actor n) =
      silent-Safe (emergency-Safe cfg f e now i actor n)

  -- From tables where every completed ride has a final fare that its commission and its payout add
  -- up to, no passenger has two active rides, every rating is between 1 and 5 and no side has rated
  -- a ride twice, any sequence of requests, whether they return or raise, leaves such tables.
  pub serve_all-Sound :
      (l : List TripRequest) (db : TripDb) → Sound db → Sound (serve_all cfg ext l db)
  unfolding serve_all
  serve_all-Sound [] db h = h
  serve_all-Sound (r ∷ rs) db h =
      serve_all-Sound rs _ (run-Safe (handle cfg ext r) db (handle-Safe r) h)
