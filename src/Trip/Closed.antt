-- ===== src/Trip/Closed.antt =====
-- The invariant of the tables and the use cases that end a ride
-- (app_base/modules/ride/application/services.py).
use diddi_go_backend.Base.{ℕ, ◌≡◌, ◌∙◌, Bool, false, none, some, String, arith}
use mathlib.Core.Path.{subst}
use diddi_go_backend.Base.Safe.{
  Safe, bind-Safe, then-Safe, lift-Safe, guard-Safe, ask-Safe, with-Safe, end-Safe, if-Safe,
  rethrow-Safe,
}
use diddi_go_backend.Ride.Status.{RideStatus, completed, waiting, status_eq}
use diddi_go_backend.Trip.Entities.{Trip, TripDb}
use diddi_go_backend.Trip.Rides.{to_row}
use diddi_go_backend.Trip.Pricing.{
  TraceAnswers, apply_actual_pricing, shared_fare, complete_fare, early_stop_fare,
}
use diddi_go_backend.Trip.Access.{Settings, Externals, Actor, is_admin, move}
use diddi_go_backend.Trip.Finish.{
  completed_trip, complete, change_status, resume_and_complete, update_status, request_early_stop,
  stop_early, confirm_early_stop, cancelled_status, close, cancel,
}
use diddi_go_backend.Trip.Sound.{
  Sound, Found, Step, Step-refl, Step-trans, Step-from_row, save-Safe,
}
use diddi_go_backend.Trip.Moves.{
  move-Step, Same, Same-trans, completed-Step, Ended, move-Ended, shared_fare-Shared,
}
use diddi_go_backend.Trip.Priced.{apply-Same, changed-ride, or_locked_fare-ride}
use diddi_go_backend.Trip.Rules.{
  load-Safe, require_driver-Safe, store_outcome-Safe, store-Safe, outcome-Safe,
}
use diddi_go_backend.Trip.Handled.{stop_waiting-Safe, finish_waiting-Safe}

module _ (cfg : Settings) (ext : Externals) where
  completed_trip-Step :
      (t t2 : Trip)
      → Same t.ride t2.ride
      → t2.ride.status ≡ completed
      → Step t.ride (completed_trip cfg ext t2).ride
  unfolding completed_trip complete_fare shared_fare
  completed_trip-Step t t2 same ends =
      completed-Step t.ride (completed_trip cfg ext t2).ride
        (record { same_id = same.same_id; same_passenger = same.same_passenger }) ends
        (shared_fare-Shared t2 _)

  complete-Safe :
      (answers : TraceAnswers) (now i : ℕ) (t : Trip)
      → Safe Sound (Found i t) (complete cfg ext answers now i t) (λ _ _. Unit)
  unfolding complete
  complete-Safe answers now i t = bind-Safe (ask-Safe _) λ has_points. bind-Safe (lift-Safe _) λ t1.
      with-Safe λ priced.
        bind-Safe (rethrow-Safe _ _ (lift-Safe (move t1 completed none now none))) λ t2.
          with-Safe λ moves.
            let same =
              subst (λ r. Same t.ride r)
                (or_locked_fare-ride (apply_actual_pricing ext.round_float answers has_points t) t1
                  priced)
                (apply-Same ext.round_float answers has_points t) in
            let end = move-Ended t1 t2 none now none moves in
            store_outcome-Safe cfg i t (completed_trip cfg ext t2)
              (completed_trip-Step t t2 (Same-trans same end.same) end.ends)

  change_status-Safe :
      (now i : ℕ) (t : Trip) (new_status : RideStatus)
      → status_eq new_status completed ≡ false
      → Safe Sound (Found i t) (change_status cfg ext now t new_status) (λ _ _. Unit)
  unfolding change_status
  change_status-Safe now i t new_status other =
      bind-Safe (rethrow-Safe _ _ (lift-Safe (move t new_status none now none))) λ t1.
        with-Safe
          λ e. store_outcome-Safe cfg i t t1 (move-Step t t1 new_status none now none other e)

  resume_and_complete-Safe :
      {P : TripDb → Type 0} (answers : TraceAnswers) (now later i : ℕ) (actor : Actor)
      → Safe Sound P (resume_and_complete cfg ext answers now later i actor) (λ _ _. Unit)
  unfolding resume_and_complete
  resume_and_complete-Safe answers now later i actor =
      bind-Safe (stop_waiting-Safe cfg ext now i actor "ride_completed")
        λ _. bind-Safe (load-Safe i) λ t. complete-Safe answers later i t

  pub update_status-Safe :
      (answers : TraceAnswers) (now later i : ℕ) (new_status : RideStatus) (actor : Actor)
      → Safe Sound
          (λ _. Unit)
          (update_status cfg ext answers now later i new_status actor)
          (λ _ _. Unit)
  unfolding update_status
  update_status-Safe answers now later i new_status actor = bind-Safe (load-Safe i) λ t.
      then-Safe (require_driver-Safe t actor) (
        if-Safe (status_eq new_status completed)
          (λ _.
            if-Safe (status_eq t.ride.status completed) (λ _. end-Safe t)
              λ _.
                if-Safe (status_eq t.ride.status waiting)
                  (λ _. resume_and_complete-Safe answers now later i actor)
                  λ _. complete-Safe answers later i t)
          λ other.
            then-Safe (then-Safe (guard-Safe _ _) (guard-Safe _ _))
              (change_status-Safe later i t new_status other))

  pub request_early_stop-Safe :
      (now i user : ℕ)
      → Safe Sound (λ _. Unit) (request_early_stop cfg ext now i user) (λ _ _. Unit)
  unfolding request_early_stop
  request_early_stop-Safe now i user = bind-Safe (load-Safe i) λ t.
      then-Safe (then-Safe (guard-Safe _ _) (guard-Safe _ _)) (store-Safe i t _ (Step-refl t.ride))

  stop_early-Step :
      (t t1 t2 : Trip) (actual now : ℕ)
      → Same t.ride t1.ride
      → Ended
          (record (early_stop_fare t1 actual) {
            completion_reason = some "early_stop";
            early_stop_confirmed_at = some now;
          })
          t2
      → Step t.ride t2.ride
  unfolding early_stop_fare shared_fare
  stop_early-Step t t1 t2 actual now same end =
      completed-Step t.ride t2.ride
        (record {
          same_id = end.same.same_id ∙ same.same_id;
          same_passenger = end.same.same_passenger ∙ same.same_passenger;
        })
        end.ends (end.paid (shared_fare-Shared t1 _))

  stop_early-Safe :
      (answers : TraceAnswers) (now i : ℕ) (t : Trip)
      → Safe Sound (Found i t) (stop_early cfg ext answers now t) (λ _ _. Unit)
  unfolding stop_early
  stop_early-Safe answers now i t = bind-Safe (ask-Safe _) λ has_points.
      bind-Safe (lift-Safe _) λ t1. with-Safe λ priced.
        bind-Safe (then-Safe (guard-Safe _ _) (lift-Safe _)) λ actual. with-Safe λ _.
          bind-Safe (lift-Safe _) λ t2. with-Safe λ moves.
            let same =
              subst (λ r. Same t.ride r)
                (changed-ride (apply_actual_pricing ext.round_float answers has_points t) t1 priced)
                (apply-Same ext.round_float answers has_points t) in
            store_outcome-Safe cfg i t t2
              (stop_early-Step t t1 t2 actual now same (move-Ended _ t2 (some now) now _ moves))

  pub confirm_early_stop-Safe :
      (answers : TraceAnswers) (now later i : ℕ) (actor : Actor)
      → Safe Sound (λ _. Unit) (confirm_early_stop cfg ext answers now later i actor) (λ _ _. Unit)
  unfolding confirm_early_stop
  confirm_early_stop-Safe answers now later i actor = bind-Safe (load-Safe i) λ t.
      bind-Safe
        (then-Safe
          (then-Safe (then-Safe (require_driver-Safe t actor) (guard-Safe _ _)) (guard-Safe _ _))
          (lift-Safe _))
        λ expires. with-Safe λ _. then-Safe (guard-Safe _ _) (
          if-Safe (status_eq t.ride.status waiting)
            (λ _.
              bind-Safe (stop_waiting-Safe cfg ext later i actor "early_stop")
                λ _. bind-Safe (load-Safe i) λ t'. stop_early-Safe answers now i t')
            λ _. stop_early-Safe answers now i t)

  cancelled_other :
      (reason : String) (is_driver by_admin : Bool)
      → status_eq (cancelled_status cfg ext reason is_driver by_admin) completed ≡ false
  cancelled_other reason is_driver by_admin = ground arith

  close-Safe :
      (later i : ℕ) (r t : Trip) (new_status : RideStatus) (reason : String)
      → Step r.ride t.ride
      → status_eq new_status completed ≡ false
      → Safe Sound (Found i r) (close cfg ext later new_status reason t) (λ _ _. Unit)
  unfolding close
  close-Safe later i r t new_status reason step other = bind-Safe (lift-Safe _) λ t1. with-Safe λ e.
      then-Safe
        (then-Safe (save-Safe i r _ (Step-trans step (move-Step t t1 new_status _ _ _ other e)))
          (outcome-Safe cfg _))
        (end-Safe _)

  pub cancel-Safe :
      (now later i : ℕ) (reason : String) (actor : Actor)
      → Safe Sound (λ _. Unit) (cancel cfg ext now later i reason actor) (λ _ _. Unit)
  unfolding cancel
  cancel-Safe now later i reason actor = bind-Safe (then-Safe (guard-Safe _ _) (load-Safe i)) λ t.
      bind-Safe (ask-Safe _) λ is_driver.
        let other = cancelled_other reason is_driver (is_admin actor) in
        then-Safe
          (then-Safe (then-Safe (then-Safe (guard-Safe _ _) (guard-Safe _ _)) (guard-Safe _ _))
            (guard-Safe _ _))
          (if-Safe (status_eq t.ride.status waiting)
            (λ _. bind-Safe (finish_waiting-Safe cfg ext now i t "ride_cancelled") λ t1.
              with-Safe λ _.
                close-Safe later i (to_row t1) t1 _ reason
                  (Step-from_row t1 t1.ride (Step-refl t1.ride)) other)
            λ _. close-Safe later i t t _ reason (Step-refl t.ride) other)
