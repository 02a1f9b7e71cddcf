-- ===== src/Trip/Codes.antt =====
-- Wrong start codes: `start_ride_with_code` commits their count before it raises
-- (app_base/modules/ride/application/services.py).
use diddi_go_backend.Base.{
  ℕ, ◌+◌, ◌≤◌, ◌≡◌, refl, sym, inl, inr, Bool, true, false, not, ◌||◌, ◌&&◌, Option, none, some,
  List, [], ◌∷◌, ◌++◌, String, arith, if◌then◌else◌, is_some, ==_refl, ==_iff, find, any, update,
  length, All, Bool-cases,
}
use mathlib.Core.Path.{subst}
use diddi_go_backend.Base.Found.{find-any, find-passes, find-replace}
use diddi_go_backend.Base.Transaction.{
  api_error, Result, ok, err, Transaction, call, lift, ask, raise, raise_if, commit, run_request,
  ◌>>=◌, ◌>>◌,
}
use diddi_go_backend.Ride.Status.{RideStatus, arrived, status_eq}
use diddi_go_backend.Trip.Entities.{Trip, TripDb, has_id}
use diddi_go_backend.Trip.Rides.{
  save, find_by_id, to_row, add_or_update, driver_taken, token_taken, quote_taken, has_quote_id,
  holds_driver, has_share_token, conflicts,
}
use diddi_go_backend.Trip.Pricing.{TraceAnswers}
use diddi_go_backend.Trip.Access.{
  Settings, Externals, Actor, load_ride, require_driver, is_assigned_driver, is_admin,
}
use diddi_go_backend.Trip.Progress.{count_attempt, refuse_code, is_right_code, start_ride_with_code}

-- A replaced row is no second row of its own ride.
any_kept :
    (k : ℕ) (g : Trip → Bool) (y : Trip) (rows : List Trip)
    → has_id k y ≡ true
    → any (λ o. not (has_id k o) && g o) (update (has_id k) (λ _. y) rows)
      ≡ any (λ o. not (has_id k o) && g o) rows
any_kept k g y [] h = refl
any_kept k g y (x ∷ xs) h = ground (arith, any_kept k g y xs h)

driver_kept :
    (k : ℕ) (status : RideStatus) (driver : Option ℕ) (y : Trip) (rows : List Trip)
    → has_id k y ≡ true
    → driver_taken k status driver (update (has_id k) (λ _. y) rows)
      ≡ driver_taken k status driver rows
driver_kept k status none y rows h = refl
driver_kept k status (some d) y rows h = rw (any_kept k (holds_driver d) y rows h) refl

token_kept :
    (k : ℕ) (token : Option String) (y : Trip) (rows : List Trip)
    → has_id k y ≡ true
    → token_taken k token (update (has_id k) (λ _. y) rows) ≡ token_taken k token rows
token_kept k none y rows h = refl
token_kept k (some s) y rows h = any_kept k (has_share_token s) y rows h

quote_kept :
    (k : ℕ) (quote_id : Option ℕ) (y : Trip) (rows : List Trip)
    → has_id k y ≡ true
    → quote_taken k quote_id (update (has_id k) (λ _. y) rows) ≡ quote_taken k quote_id rows
quote_kept k none y rows h = refl
quote_kept k (some q) y rows h = any_kept k (has_quote_id q) y rows h

conflicts_kept :
    (t y : Trip) (rows : List Trip)
    → has_id t.ride.id y ≡ true
    → any (has_id t.ride.id) rows ≡ true
    → conflicts t rows ≡ false
    → conflicts t (
        if any (has_id t.ride.id) rows
        then update (has_id t.ride.id) (λ _. y) rows
        else rows ++ y ∷ [])
      ≡ false
conflicts_kept t y rows h known free =
    rw
      (
        known,
        driver_kept t.ride.id t.ride.status t.ride.driver_id y rows h,
        token_kept t.ride.id t.share_token y rows h,
        quote_kept t.ride.id t.quote_id y rows h,
      )
      free

module _ (cfg : Settings) (ext : Externals) (i : ℕ) (actor : Actor) where
  -- An actor who may start the ride, which has arrived and has not been started.
  pub record Facing (t : Trip) (db : TripDb) : Type 0 where
    pub found : find (has_id i) db.rides ≡ some t
    pub here : status_eq t.ride.status arrived ≡ true
    pub unused : is_some t.start_code_used_at ≡ false
    pub allowed : (is_admin actor || is_assigned_driver t actor.user_id db) ≡ true
    pub placed : conflicts t db.rides ≡ false

  -- A try of a code: the moment, what the map service would answer, and the code.
  abbrev pub Guess : Type 0
  Guess = ℕ × (TraceAnswers × String)

  unfoldable pub guess : Guess → TripDb → Result Trip × TripDb
  guess (now, (answers, code)) db =
      run_request (start_ride_with_code cfg ext answers now i actor code) db

  unfoldable pub guess_all : List Guess → TripDb → TripDb
  guess_all [] db = db
  guess_all (g ∷ gs) db = guess_all gs (guess g db).1

  abbrev pub IsWrong : Trip → Guess → Type 0
  IsWrong t g = is_right_code cfg ext t g.1.1 ≡ false

  loaded :
      (t : Trip) (s : Transaction TripDb)
      → find (has_id i) s.current.rides ≡ some t
      → load_ride i s ≡ (ok t, s)
  unfolding load_ride find_by_id ask lift ◌>>=◌
  loaded t s h = rw h refl

  permitted :
      (t : Trip) (s : Transaction TripDb)
      → (is_admin actor || is_assigned_driver t actor.user_id s.current) ≡ true
      → require_driver t actor s ≡ (ok tt, s)
  unfolding require_driver ask raise_if ◌>>=◌
  permitted t s h = rw h refl

  -- the transaction that a request opens
  abbrev opened : TripDb → Transaction TripDb
  opened db = record { committed = db; current = db }

  blocked_refused :
      (t : Trip) (db : TripDb) (g : Guess)
      → Facing t db
      → is_some t.start_code_blocked_at ≡ true
      → guess g db ≡ (err (api_error 423 "RIDE_START_CODE_BLOCKED"), db)
  unfolding guess run_request start_ride_with_code raise_if ◌>>=◌ ◌>>◌
  blocked_refused t db (now, (answers, code)) h blocked =
      rw
        (loaded t (opened db) h.found, permitted t (opened db) h.allowed, h.here, h.unused, blocked)
        refl

  wrong_counted :
      (t : Trip) (db : TripDb) (g : Guess)
      → Facing t db
      → is_some t.start_code_blocked_at ≡ false
      → IsWrong t g
      → (guess g db).1 ≡ record db { rides = add_or_update (count_attempt cfg ext g.0 t) db.rides }
  unfolding guess run_request start_ride_with_code raise_if ◌>>=◌ ◌>>◌ refuse_code save call commit
      raise count_attempt
  wrong_counted t db (now, (answers, code)) h free wrong =
      rw
        (
          loaded t (opened db) h.found,
          permitted t (opened db) h.allowed,
          h.here,
          h.unused,
          free,
          wrong,
          h.placed,
        )
        refl

  -- What is left after a wrong code is the same situation, with one more attempt.
  wrong-Facing :
      (t : Trip) (db : TripDb) (now : ℕ)
      → Facing t db
      → Facing
          (to_row (count_attempt cfg ext now t))
          (record db { rides = add_or_update (count_attempt cfg ext now t) db.rides })
  unfolding count_attempt is_assigned_driver
  wrong-Facing t db now h =
      let same : i ≡ t.ride.id =
        sym ((==_iff t.ride.id i).0 (find-passes (has_id i) db.rides t h.found)) in
      let found' : find (has_id t.ride.id) db.rides ≡ some t =
        subst (λ n. find (has_id n) db.rides ≡ some t) same h.found in
      let known = find-any (has_id t.ride.id) db.rides t found' in
      record {
        found =
            subst
              (λ n.
                find (has_id n) (add_or_update (count_attempt cfg ext now t) db.rides)
                ≡ some (to_row (count_attempt cfg ext now t)))
              (sym same)
              (rw known (find-replace (has_id t.ride.id) db.rides t _ found' (==_refl t.ride.id)));
        here = h.here;
        unused = h.unused;
        allowed = h.allowed;
        placed =
            conflicts_kept t (to_row (count_attempt cfg ext now t)) db.rides (==_refl t.ride.id)
              known h.placed;
      }

  refused_all :
      (gs : List Guess) (t : Trip) (db : TripDb)
      → Facing t db
      → is_some t.start_code_blocked_at ≡ true
      → guess_all gs db ≡ db
  unfolding guess_all
  refused_all [] t db h blocked = refl
  refused_all (g ∷ gs) t db h blocked =
      rw (blocked_refused t db g h blocked) (refused_all gs t db h blocked)

  wrong_codes :
      (gs : List Guess) (t : Trip) (db : TripDb)
      → Facing t db
      → is_some t.start_code_blocked_at ≡ false
      → All (IsWrong t) gs
      → 1 ≤ length gs
      → cfg.ride_start_code_max_attempts ≤ t.start_code_attempts + length gs
      → (t' : Trip) × (Facing t' (guess_all gs db) × (is_some t'.start_code_blocked_at ≡ true))
  unfolding guess_all count_attempt
  wrong_codes [] t db h free wrong some_guess enough = absurd (omega (arith, some_guess))
  wrong_codes (g ∷ gs) t db h free (bad, wrong) some_guess enough =
      let t1 = to_row (count_attempt cfg ext g.0 t) in
      let db1 : TripDb = record db {
        rides = add_or_update (count_attempt cfg ext g.0 t) db.rides;
      } in
      let next : Facing t1 db1 = wrong-Facing t db g.0 h in
      rw (wrong_counted t db g h free bad) (elim (Bool-cases (is_some t1.start_code_blocked_at)) [
        | inl blocked ↦ (t1, (rw (refused_all gs t1 db1 next blocked) next, blocked))
        | inr free' ↦ wrong_codes gs t1 db1 next free' wrong (ground arith) (ground arith)
      ])

  -- Let an actor who may start a ride try wrong codes, at least one and at least as many as are
  -- left before the maximum, on a ride that has arrived, has not started, is not blocked, and
  -- conflicts with no other row. Then every further try, of whatever code, is refused as blocked
  -- and leaves the tables as they were.
  pub wrong_codes_block :
      (gs : List Guess) (t : Trip) (db : TripDb) (g : Guess)
      → Facing t db
      → is_some t.start_code_blocked_at ≡ false
      → All (IsWrong t) gs
      → 1 ≤ length gs
      → cfg.ride_start_code_max_attempts ≤ t.start_code_attempts + length gs
      → guess g (guess_all gs db) ≡ (err (api_error 423 "RIDE_START_CODE_BLOCKED"), guess_all gs db)
  wrong_codes_block gs t db g h free wrong some_guess enough =
      let (t', (facing, blocked)) = wrong_codes gs t db h free wrong some_guess enough in
      blocked_refused t' (guess_all gs db) g facing blocked
