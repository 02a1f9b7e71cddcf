-- ===== src/Base/Transaction.antt =====
-- Errors, the repositories' calls and the transaction of a request, over any tables `D`.
-- A repository method runs on the tables as the open transaction sees them: what it has flushed
-- before it raises stays in the transaction. `run_request` is `get_session` of
-- app_base/core/database.py: it commits when the handler returns and rolls back when it raises.
use Prim.Native.Nat.{ℕ}
use Prim.Native.String.{String}
use mathlib.Core.Bool.{Bool}
use diddi_go_backend.Base.Tests.{if◌then◌else◌}

-- `LookupError(code)`, `ApiError(status_code, code, …)`, SQLAlchemy's `NoResultFound` (of
-- `scalar_one`), `MultipleResultsFound` (of `scalar_one_or_none`) and `IntegrityError` (of a unique
-- constraint), a missing key, a `ValueError`, and
-- `InvalidStatusTransition` where no handler catches it.
pub data Error : Type 0 where
  lookup_error : String → Error
  api_error : ℕ → String → Error
  no_result_found integrity_error key_error multiple_results_found : Error
  value_error invalid_status_transition : Error

pub data Result (A : Type 0) : Type 0 where
  ok : A → Result A
  err : Error → Result A

-- The tables as committed, and as the open transaction sees them.
pub record Transaction (D : Type 0) : Type 0 where
  pub committed : D
  pub current : D

-- A repository method on tables `D`, and a part of a use case.
abbrev pub Method : Type 0 → Type 0 → Type 0
Method D A = D → Result A × D

abbrev pub Task : Type 0 → Type 0 → Type 0
Task D A = Transaction D → Result A × Transaction D

module _ {D A : Type 0} where
  unfoldable pub pure : A → Task D A
  pure a s = (ok a, s)

  unfoldable pub raise : Error → Task D A
  raise e s = (err e, s)

  -- a call of a repository method
  unfoldable pub call : Method D A → Task D A
  call q s = let (r, db) = q s.current in (r, record s { current = db })

  -- what is known without the tables
  unfoldable pub lift : Result A → Task D A
  lift r s = (r, s)

  -- a query that changes nothing
  unfoldable pub ask : (D → A) → Task D A
  ask f s = (ok (f s.current), s)

  -- what an `except` does with the outcome of its block
  abbrev pub handled : Result A × Transaction D → (Error → Error) → Result A × Transaction D
  handled (ok a, s) handler = (ok a, s)
  handled (err e, s) handler = (err (handler e), s)

  -- `try: … except: raise handler(error)`
  unfoldable pub rethrow : Task D A → (Error → Error) → Task D A
  rethrow m handler s = handled (m s) handler

  -- the commit or the rollback at the end of a request
  abbrev pub finished : Result A × Transaction D → Result A × D
  finished (ok a, s) = (ok a, s.current)
  finished (err e, s) = (err e, s.committed)

-- `payment_repo.commit()`
unfoldable pub commit : {D : Type 0} → Task D (Unit {0})
commit s = (ok tt, record s { committed = s.current })

-- The rest of a use case, unless what came before raised.
abbrev pub followed :
    {D A B : Type 0} → Result A × Transaction D → (A → Task D B) → Result B × Transaction D
followed (ok a, s) f = f a s
followed (err e, s) f = (err e, s)

infixl 5 ◌>>=◌ ◌>>◌
unfoldable pub ◌>>=◌ : {D A B : Type 0} → Task D A → (A → Task D B) → Task D B
(m >>= f) s = followed (m s) f

unfoldable pub ◌>>◌ : {D B : Type 0} → Task D (Unit {0}) → Task D B → Task D B
m >> k = m >>= λ _. k

unfoldable pub raise_if : {D : Type 0} → Bool → Error → Task D (Unit {0})
raise_if c e s = (if c then err e else ok tt, s)

-- `get_session`: the tables after the request.
unfoldable pub run_request : {D A : Type 0} → Task D A → D → Result A × D
run_request m db = finished (m (record { committed = db; current = db }))
