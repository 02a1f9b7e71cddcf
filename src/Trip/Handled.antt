-- ===== src/Trip/Handled.antt =====
-- The invariant of the tables and the use cases of the course of a ride
-- (app_base/modules/ride/application/services.py).
use diddi_go_backend.Base.{ℕ, refl, sym, ◌∙◌, Option, String}
use mathlib.Core.Path.{subst}
use diddi_go_backend.Base.Safe.{
  Safe, bind-Safe, then-Safe, lift-Safe, guard-Safe, with-Safe, pure_with-Safe, raise-Safe,
  end-Safe, more-Safe, if-Safe, commit-Safe,
}
use diddi_go_backend.Ride.Status.{arrived, in_progress, waiting, cancelled_by_driver, status_eq}
use diddi_go_backend.Trip.Entities.{Trip, TripDb}
use diddi_go_backend.Trip.Rides.{to_row}
use diddi_go_backend.Trip.Pricing.{TraceAnswers, ensure_map_trace_started}
use diddi_go_backend.Trip.Access.{Settings, Externals, Actor}
use diddi_go_backend.Trip.Progress.{
  changed, mark_arrived, count_attempt, refuse_code, bill_pre_ride, accept_code,
  start_ride_with_code, is_right_code, mark_passenger_no_show, start_waiting, bill_wait,
  finish_waiting, stop_waiting,
}
use diddi_go_backend.Trip.Sound.{Sound, Found, Step, Step-refl, save-Safe}
use diddi_go_backend.Trip.Moves.{move-Step}
use diddi_go_backend.Trip.Priced.{ensure-ride, changed-ride}
use diddi_go_backend.Trip.Rules.{load-Safe, require_driver-Safe, store_move-Safe, store-Safe}

module _ (cfg : Settings) (ext : Externals) where
  pub mark_arrived-Safe :
      (now i : ℕ) (actor : Actor) (position : Option ℕ)
      → Safe Sound (λ _. Unit) (mark_arrived cfg ext now i actor position) (λ _ _. Unit)
  unfolding mark_arrived
  mark_arrived-Safe now i actor position = bind-Safe (load-Safe i) λ t.
      then-Safe (require_driver-Safe t actor) (
        if-Safe (status_eq t.ride.status arrived) (λ _. end-Safe t)
          λ _. bind-Safe (then-Safe (guard-Safe _ _) (lift-Safe _)) λ position. with-Safe λ _.
            bind-Safe (lift-Safe _) λ pickup. with-Safe λ _.
              bind-Safe (then-Safe (guard-Safe _ _) (lift-Safe _))
                λ t1. with-Safe λ e. store_move-Safe i t t1 (move-Step _ t1 arrived _ _ _ refl e))

  refuse_code-Safe :
      (i now : ℕ) (t : Trip) → Safe Sound (Found i t) (refuse_code cfg ext now t) (λ _ _. Unit)
  unfolding refuse_code count_attempt
  refuse_code-Safe i now t =
      then-Safe
        (then-Safe (save-Safe i t (count_attempt cfg ext now t) (Step-refl t.ride)) commit-Safe)
        (raise-Safe _)

  accept_code-Safe :
      (answers : TraceAnswers) (i now : ℕ) (t : Trip)
      → Safe Sound (Found i t) (accept_code cfg ext answers now t) (λ _ _. Unit)
  unfolding accept_code bill_pre_ride
  accept_code-Safe answers i now t = bind-Safe (lift-Safe _) λ t1. with-Safe λ e.
      bind-Safe (lift-Safe (changed (ensure_map_trace_started answers t1))) λ t2. with-Safe λ c.
        let step = move-Step _ t1 in_progress _ _ _ refl e in
        let same =
          sym (ensure-ride answers t1) ∙ changed-ride (ensure_map_trace_started answers t1) t2 c in
        store_move-Safe i t t2 (subst (λ r. Step t.ride r) same step)

  pub start_ride_with_code-Safe :
      (answers : TraceAnswers) (now i : ℕ) (actor : Actor) (code : String)
      → Safe Sound (λ _. Unit) (start_ride_with_code cfg ext answers now i actor code) (λ _ _. Unit)
  unfolding start_ride_with_code
  start_ride_with_code-Safe answers now i actor code = bind-Safe (load-Safe i) λ t.
      then-Safe
        (then-Safe
          (then-Safe (then-Safe (require_driver-Safe t actor) (guard-Safe _ _)) (guard-Safe _ _))
          (guard-Safe _ _))
        (if-Safe (is_right_code cfg ext t code) (λ _. accept_code-Safe answers i now t)
          λ _. refuse_code-Safe i now t)

  pub mark_passenger_no_show-Safe :
      (now later i : ℕ) (actor : Actor)
      → Safe Sound (λ _. Unit) (mark_passenger_no_show cfg ext now later i actor) (λ _ _. Unit)
  unfolding mark_passenger_no_show
  mark_passenger_no_show-Safe now later i actor = bind-Safe (load-Safe i) λ t.
      bind-Safe (then-Safe (then-Safe (require_driver-Safe t actor) (guard-Safe _ _)) (lift-Safe _))
        λ w. with-Safe λ _. bind-Safe (then-Safe (guard-Safe _ _) (lift-Safe _)) λ t1.
          with-Safe λ e. store_move-Safe i t t1 (move-Step _ t1 cancelled_by_driver _ _ _ refl e)

  pub start_waiting-Safe :
      (now i : ℕ) (actor : Actor) (speed : Option ℕ)
      → Safe Sound (λ _. Unit) (start_waiting cfg ext now i actor speed) (λ _ _. Unit)
  unfolding start_waiting
  start_waiting-Safe now i actor speed = bind-Safe (load-Safe i) λ t.
      then-Safe (require_driver-Safe t actor) (
        if-Safe (status_eq t.ride.status waiting) (λ _. end-Safe t)
          λ _. bind-Safe (then-Safe (guard-Safe _ _) (lift-Safe _)) λ v. with-Safe λ _.
            bind-Safe (then-Safe (guard-Safe _ _) (lift-Safe _))
              λ t1. with-Safe λ e. store-Safe i t t1 (move-Step _ t1 waiting _ _ _ refl e))

  -- The ride that no longer waits is what the tables have, and a step from the one that did.
  pub finish_waiting-Safe :
      (now i : ℕ) (t : Trip) (reason : String)
      → Safe Sound
          (Found i t)
          (finish_waiting cfg ext now t reason)
          (λ t1 db. Found i (to_row t1) db × Step t.ride t1.ride)
  unfolding finish_waiting bill_wait
  finish_waiting-Safe now i t reason = bind-Safe (then-Safe (guard-Safe _ _) (lift-Safe _)) λ w.
      with-Safe λ _. bind-Safe (lift-Safe _) λ t1. with-Safe λ e.
        let step = move-Step _ t1 in_progress _ _ _ refl e in
        then-Safe (save-Safe i t t1 step) (pure_with-Safe t1 step)

  pub stop_waiting-Safe :
      {P : TripDb → Type 0} (now i : ℕ) (actor : Actor) (reason : String)
      → Safe Sound P (stop_waiting cfg ext now i actor reason) (λ _ _. Unit)
  unfolding stop_waiting
  stop_waiting-Safe now i actor reason = bind-Safe (load-Safe i) λ t.
      then-Safe (require_driver-Safe t actor)
        (more-Safe (λ _ _ _. tt) (finish_waiting-Safe now i t reason))
