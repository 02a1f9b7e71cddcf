-- ===== src/Ride/History.antt =====
-- The history that `Ride.transition` writes (app_base/modules/ride/domain/entities.py): a path
-- of the status machine, and the source of the timestamps.
use diddi_go_backend.Base.{
  ℕ, ◌≡◌, refl, sym, ap, true, Option, none, some, List, [], ◌∷◌, ◌++◌, arith, inl, inr,
  if◌then◌else◌,
}
use diddi_go_backend.Ride.Status.{
  RideStatus, requested, matched, arrived, in_progress, completed, cancelled_by_passenger,
  cancelled_by_driver, status_in, allowed_transitions,
}
use diddi_go_backend.Ride.Entity.{Ride, RideStatusTransition, enter_status, attempt, new_ride}
use diddi_go_backend.Ride.Machine.{attempts, attempt-cases}

-- The entries lead from one status to another, each by a move that the table allows, each
-- beginning where the one before it ended, and all name the ride.
abbrev pub IsPath : ℕ → RideStatus → List RideStatusTransition → RideStatus → Type 0
IsPath id s [] t = s ≡ t
IsPath id s (h ∷ hs) t =
    (h.ride_id ≡ id)
    × (h.from_status ≡ some s)
    × (status_in h.to_status (allowed_transitions s) ≡ true)
    × IsPath id h.to_status hs t

IsPath-snoc :
    (id : ℕ) (s t u : RideStatus) (hs : List RideStatusTransition) (now : ℕ)
    → IsPath id s hs t
    → status_in u (allowed_transitions t) ≡ true
    → IsPath id s
        (hs
          ++ record {
            ride_id = id;
            from_status = some t;
            to_status = u;
            changed_at = now;
            metadata = none;
          }
            ∷ [])
        u
IsPath-snoc id s t u [] now p ok = (refl, ap some (sym p), rw p ok, refl)
IsPath-snoc id s t u (h ∷ hs) now p ok =
    (p.0, p.1, p.2, IsPath-snoc id h.to_status t u hs now p.3 ok)

-- The history of a ride that starts at `requested` and is driven by requests.
abbrev pub HasPath : Ride → Type 0
HasPath r = IsPath r.id requested r.status_history r.status

attempt-HasPath : (r : Ride) (t : RideStatus) (now : ℕ) → HasPath r → HasPath (attempt r t now)
unfolding enter_status
attempt-HasPath r t now h = elim (attempt-cases r t now) [
  | inl e ↦ rw e h
  | inr (ok, e) ↦ rw e (IsPath-snoc r.id requested r.status t r.status_history now h ok)
]

pub attempts-HasPath : (r : Ride) (l : List (RideStatus × ℕ)) → HasPath r → HasPath (attempts r l)
unfolding attempts
attempts-HasPath r [] h = h
attempts-HasPath r ((t, now) ∷ l) h =
    attempts-HasPath (attempt r t now) l (attempt-HasPath r t now h)

-- When the history first entered one of some statuses.
abbrev pub first_entry : List RideStatus → List RideStatusTransition → Option ℕ
first_entry ss [] = none
first_entry ss (h ∷ hs) = if status_in h.to_status ss then some h.changed_at else first_entry ss hs

-- The first of two moments that is there.
abbrev first_of_two : Option ℕ → Option ℕ → Option ℕ
first_of_two none b = b
first_of_two (some a) b = some a

first_entry-append :
    (ss : List RideStatus) (hs ks : List RideStatusTransition)
    → first_entry ss (hs ++ ks) ≡ first_of_two (first_entry ss hs) (first_entry ss ks)
first_entry-append ss [] ks = refl
first_entry-append ss (h ∷ hs) ks = ground (arith, first_entry-append ss hs ks)

-- Each timestamp is the moment at which the history first entered its status.
pub record IsFirstVisits (r : Ride) : Type 0 where
  pub match_first : r.matched_at ≡ first_entry (matched ∷ []) r.status_history
  pub arrival_first : r.arrived_at ≡ first_entry (arrived ∷ []) r.status_history
  pub start_first : r.started_at ≡ first_entry (in_progress ∷ []) r.status_history
  pub completion_first : r.completed_at ≡ first_entry (completed ∷ []) r.status_history
  pub cancellation_first :
      r.cancelled_at
      ≡ first_entry (cancelled_by_passenger ∷ cancelled_by_driver ∷ []) r.status_history

enter-IsFirstVisits :
    (r : Ride) (t : RideStatus) (now : ℕ)
    → IsFirstVisits r
    → IsFirstVisits (enter_status r t now none)
unfolding enter_status
enter-IsFirstVisits r t now h = record {
  match_first = rw first_entry-append (ground (arith, h.match_first));
  arrival_first = rw first_entry-append (ground (arith, h.arrival_first));
  start_first = rw first_entry-append (ground (arith, h.start_first));
  completion_first = rw first_entry-append (ground (arith, h.completion_first));
  cancellation_first = rw first_entry-append (ground (arith, h.cancellation_first));
}

attempt-IsFirstVisits :
    (r : Ride) (t : RideStatus) (now : ℕ) → IsFirstVisits r → IsFirstVisits (attempt r t now)
attempt-IsFirstVisits r t now h = elim (attempt-cases r t now) [
  | inl e ↦ rw e h
  | inr (ok, e) ↦ rw e (enter-IsFirstVisits r t now h)
]

pub attempts-IsFirstVisits :
    (r : Ride) (l : List (RideStatus × ℕ)) → IsFirstVisits r → IsFirstVisits (attempts r l)
unfolding attempts
attempts-IsFirstVisits r [] h = h
attempts-IsFirstVisits r ((t, now) ∷ l) h =
    attempts-IsFirstVisits (attempt r t now) l (attempt-IsFirstVisits r t now h)

-- Every new ride, after any requests: its history is a path of the table of transitions from
-- `requested` to its status, each entry naming the ride, and each of its timestamps is the
-- moment of the first entry into its status.
pub history_explains_ride :
    (id user : ℕ) (l : List (RideStatus × ℕ))
    → HasPath (attempts (new_ride id user) l) × IsFirstVisits (attempts (new_ride id user) l)
unfolding new_ride
history_explains_ride id user l = (
  attempts-HasPath (new_ride id user) l refl,
  attempts-IsFirstVisits (new_ride id user) l (ground arith),
)
