-- ===== src/Trip/Priced.antt =====
-- What the pricing of a ride does to the fields of the status machine
-- (`_apply_actual_pricing_if_possible` of app_base/modules/ride/application/services.py).
use diddi_go_backend.Base.{
  ℕ, ◌≡◌, refl, sym, ap, Bool, true, false, not, some, String, arith, is_some, if◌then◌else◌,
}
use mathlib.Core.Path.{subst}
use diddi_go_backend.Base.Transaction.{Result, ok, err, api_error}
use diddi_go_backend.Trip.Entities.{Trip}
use diddi_go_backend.Trip.Pricing.{
  Fraction, TraceAnswers, Analysis, Changed, and_then, started, ensure_map_trace_started, priced,
  answered, apply_actual_pricing,
}
use diddi_go_backend.Trip.Finish.{or_locked_fare}
use diddi_go_backend.Trip.Progress.{changed}
use diddi_go_backend.Trip.Moves.{Same, Same-refl, Same-trans}

and_then-Same :
    (t : Trip) (c : Changed) (f : Trip → Changed)
    → Same t.ride c.1.ride
    → ((u : Trip) → Same t.ride u.ride → Same t.ride (f u).1.ride)
    → Same t.ride (and_then c f).1.ride
and_then-Same t (ok u, t') f h hf = hf t' h
and_then-Same t (err e, t') f h hf = h

if-Same :
    (t : Trip) (c : Bool) (x y : Changed)
    → Same t.ride x.1.ride
    → Same t.ride y.1.ride
    → Same t.ride (if c then x else y).1.ride
if-Same t true x y hx hy = hx
if-Same t false x y hx hy = hy

started-Same : (r : Result String) (t : Trip) → (started r t).1.ride ≡ t.ride
started-Same (ok a) t = refl
started-Same (err e) t = refl

-- Starting the trace of a ride leaves the fields of the status machine as they were.
pub ensure-ride :
    (answers : TraceAnswers) (t : Trip) → (ensure_map_trace_started answers t).1.ride ≡ t.ride
unfolding ensure_map_trace_started
ensure-ride answers t = ground (arith, started-Same answers.start_trace t)

module _ (round_float : Fraction → ℕ) where
  priced-Same : (r : Result Analysis) (t : Trip) → Same t.ride (priced round_float r t).1.ride
  priced-Same (err e) t = Same-refl t.ride
  priced-Same (ok a) t = record { same_id = ground arith; same_passenger = ground arith }

  pub apply-Same :
      (answers : TraceAnswers) (has_points : Bool) (t : Trip)
      → Same t.ride (apply_actual_pricing round_float answers has_points t).1.ride
  unfolding apply_actual_pricing
  apply-Same answers false t = Same-refl t.ride
  apply-Same answers true t =
      and_then-Same t (ensure_map_trace_started answers t) _
        (subst (λ r. Same t.ride r) (sym (ensure-ride answers t)) (Same-refl t.ride))
        λ u hu. if-Same t (not (is_some u.map_trace_id)) _ _ hu (
          and_then-Same t (answered answers.append_trace_positions u) _ hu λ v hv.
            and_then-Same t (answered answers.finish_trace v) _ hv
              λ w hw. Same-trans hw (priced-Same answers.analyze_trace w))

pub changed-ride : (c : Changed) (t : Trip) → changed c ≡ ok t → c.1.ride ≡ t.ride
changed-ride (ok u, t') t h = let same : t' ≡ t = cc in ap (λ (x : Trip). x.ride) same
changed-ride (err e, t') t h = cc

pub or_locked_fare-ride : (c : Changed) (t : Trip) → or_locked_fare c ≡ ok t → c.1.ride ≡ t.ride
or_locked_fare-ride (ok u, t') t h = let same : t' ≡ t = cc in ap (λ (x : Trip). x.ride) same
or_locked_fare-ride (err (api_error n code), t') t h =
    let same : record t' {
      trace_analysis_status = some "provider_error";
      trace_analysis_error_code = some code;
    }
        ≡ t =
      cc in
    ap (λ (x : Trip). x.ride) same
or_locked_fare-ride (err e, t') t h = cc
