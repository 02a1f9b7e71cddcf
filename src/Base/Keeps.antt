-- ===== src/Base/Keeps.antt =====
-- Properties of the tables that a use case keeps, whether it returns or raises: one rule for each
-- way of building an action.
use mathlib.Core.Path.{◌≡◌, refl}
use mathlib.Core.Bool.{Bool, true, false}
use diddi_go_backend.Base.Tests.{if◌then◌else◌}
use diddi_go_backend.Base.Transaction.{
  Error, Result, ok, err, Method, Transaction, Task, pure, raise, lift, ask, call, commit, rethrow,
  ◌>>=◌, ◌>>◌, raise_if, run_request, followed, handled, finished,
}

-- The property holds of what is committed and of what the transaction sees.
pub record Holds {D : Type 0} (P : D → Type 0) (s : Transaction D) : Type 0 where
  pub kept : P s.committed
  pub seen : P s.current

-- An action that keeps that so, and keeps what the transaction sees so whatever was committed.
pub record Keeps {D A : Type 0} (P : D → Type 0) (m : Task D A) : Type 0 where
  pub keeps : (s : Transaction D) → Holds P s → Holds P (m s).1
  pub sees : (s : Transaction D) → P s.current → P (m s).1.current

handled-state :
    {D A : Type 0} (p : Result A × Transaction D) (handler : Error → Error)
    → (handled p handler).1 ≡ p.1
handled-state (ok a, s) handler = refl
handled-state (err e, s) handler = refl

module _ {D : Type 0} {P : D → Type 0} where
  followed-Holds :
      {A B : Type 0} (p : Result A × Transaction D) (f : A → Task D B)
      → Holds P p.1
      → ((a : A) → Keeps P (f a))
      → Holds P (followed p f).1
  followed-Holds (ok a, s) f h hf = (hf a).keeps s h
  followed-Holds (err e, s) f h hf = h

  followed-sees :
      {A B : Type 0} (p : Result A × Transaction D) (f : A → Task D B)
      → P p.1.current
      → ((a : A) → Keeps P (f a))
      → P (followed p f).1.current
  followed-sees (ok a, s) f h hf = (hf a).sees s h
  followed-sees (err e, s) f h hf = h

  pub bind-Keeps :
      {A B : Type 0} {m : Task D A} {f : A → Task D B}
      → Keeps P m
      → ((a : A) → Keeps P (f a))
      → Keeps P (m >>= f)
  unfolding ◌>>=◌
  bind-Keeps {m = m} {f} hm hf = record {
    keeps = λ s h. followed-Holds (m s) f (hm.keeps s h) hf;
    sees = λ s h. followed-sees (m s) f (hm.sees s h) hf;
  }

  followed_ok-Holds :
      {A B : Type 0} (p : Result A × Transaction D) (f : A → Task D B)
      → Holds P p.1
      → ((a : A) → p.0 ≡ ok a → Keeps P (f a))
      → Holds P (followed p f).1
  followed_ok-Holds (ok a, s) f h hf = (hf a refl).keeps s h
  followed_ok-Holds (err e, s) f h hf = h

  followed_ok-sees :
      {A B : Type 0} (p : Result A × Transaction D) (f : A → Task D B)
      → P p.1.current
      → ((a : A) → p.0 ≡ ok a → Keeps P (f a))
      → P (followed p f).1.current
  followed_ok-sees (ok a, s) f h hf = (hf a refl).sees s h
  followed_ok-sees (err e, s) f h hf = h

  -- The same where what follows counts on what came before having returned its result.
  pub bind_ok-Keeps :
      {A B : Type 0} {m : Task D A} {f : A → Task D B}
      → Keeps P m
      → ((s : Transaction D) (a : A) → (m s).0 ≡ ok a → Keeps P (f a))
      → Keeps P (m >>= f)
  unfolding ◌>>=◌
  bind_ok-Keeps {m = m} {f} hm hf = record {
    keeps = λ s h. followed_ok-Holds (m s) f (hm.keeps s h) (hf s);
    sees = λ s h. followed_ok-sees (m s) f (hm.sees s h) (hf s);
  }

  pub then-Keeps :
      {B : Type 0} {m : Task D Unit} {k : Task D B} → Keeps P m → Keeps P k → Keeps P (m >> k)
  unfolding ◌>>◌
  then-Keeps hm hk = bind-Keeps hm λ _. hk

  pub rethrow-Keeps :
      {A : Type 0} (m : Task D A) (handler : Error → Error)
      → Keeps P m
      → Keeps P (rethrow m handler)
  unfolding rethrow
  rethrow-Keeps m handler hm = record {
    keeps = λ s h. rw (handled-state (m s) handler) (hm.keeps s h);
    sees = λ s h. rw (handled-state (m s) handler) (hm.sees s h);
  }

  pub call-Keeps : {A : Type 0} (q : Method D A) → ((db : D) → P db → P (q db).1) → Keeps P (call q)
  unfolding call
  call-Keeps q hq = record {
    keeps = λ s h. record { kept = h.kept; seen = hq s.current h.seen };
    sees = λ s h. hq s.current h;
  }

  pub commit-Keeps : Keeps P commit
  unfolding commit
  commit-Keeps = record { keeps = λ s h. record { kept = h.seen; seen = h.seen }; sees = λ s h. h }

  pub pure-Keeps : {A : Type 0} (a : A) → Keeps P (pure a)
  unfolding pure
  pure-Keeps a = record { keeps = λ s h. h; sees = λ s h. h }

  pub raise-Keeps : (A : Type 0) (e : Error) → Keeps P (raise {A = A} e)
  unfolding raise
  raise-Keeps A e = record { keeps = λ s h. h; sees = λ s h. h }

  pub raise_if-Keeps : (c : Bool) (e : Error) → Keeps P (raise_if c e)
  unfolding raise_if
  raise_if-Keeps c e = record { keeps = λ s h. h; sees = λ s h. h }

  pub lift-Keeps : {A : Type 0} (r : Result A) → Keeps P (lift r)
  unfolding lift
  lift-Keeps r = record { keeps = λ s h. h; sees = λ s h. h }

  pub ask-Keeps : {A : Type 0} (f : D → A) → Keeps P (ask f)
  unfolding ask
  ask-Keeps f = record { keeps = λ s h. h; sees = λ s h. h }

  pub if-Keeps :
      {A : Type 0} (c : Bool) {m k : Task D A}
      → Keeps P m
      → Keeps P k
      → Keeps P (if c then m else k)
  if-Keeps true hm hk = hm
  if-Keeps false hm hk = hk

  finished-Keeps : {A : Type 0} (p : Result A × Transaction D) → Holds P p.1 → P (finished p).1
  finished-Keeps (ok a, s) h = h.seen
  finished-Keeps (err e, s) h = h.kept

  -- The commit or the rollback of such an action leaves tables with the property.
  pub run-Keeps : {A : Type 0} (m : Task D A) (db : D) → Keeps P m → P db → P (run_request m db).1
  unfolding run_request
  run-Keeps m db hm h =
      finished-Keeps (m (record { committed = db; current = db }))
        (hm.keeps (record { committed = db; current = db }) (record { kept = h; seen = h }))

-- Rules that determine the property by the goal.
pub ruleset keeps_rules = (
  bind-Keeps, then-Keeps, rethrow-Keeps, commit-Keeps, pure-Keeps, raise-Keeps, raise_if-Keeps,
  lift-Keeps, ask-Keeps, if-Keeps,
)
