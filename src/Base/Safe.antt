-- ===== src/Base/Safe.antt =====
-- What a use case does with tables that have an invariant: from tables where `P` holds as well,
-- it leaves the invariant on what is committed and on what the transaction sees, and where it
-- returns, `Q` holds of its result and of what the transaction sees.
use mathlib.Core.Path.{◌≡◌, refl}
use mathlib.Core.Bool.{Bool, true, false}
use diddi_go_backend.Base.Tests.{if◌then◌else◌}
use diddi_go_backend.Base.Transaction.{
  Error, Result, ok, err, Method, Transaction, Task, pure, raise, lift, ask, call, commit, rethrow,
  ◌>>=◌, ◌>>◌, raise_if, run_request, followed, handled, finished,
}

-- `Q` of a result, where there is one
abbrev pub Returns : {D A : Type 0} → (A → D → Type 0) → Result A → D → Type 0
Returns Q (ok a) db = Q a db
Returns Q (err e) db = Unit

pub record Done {D A : Type 0} (I : D → Type 0) (Q : A → D → Type 0) (p : Result A × Transaction D)
    : Type 0 where
  pub kept : I p.1.committed
  pub seen : I p.1.current
  pub returns : Returns Q p.0 p.1.current

pub record Safe {D A : Type 0} (I P : D → Type 0) (m : Task D A) (Q : A → D → Type 0) : Type 0 where
  pub runs : (s : Transaction D) → I s.committed → I s.current → P s.current → Done I Q (m s)

Returns-more :
    {D A : Type 0} (Q Q' : A → D → Type 0) (r : Result A) (db : D)
    → ((a : A) → Q a db → Q' a db)
    → Returns Q r db
    → Returns Q' r db
Returns-more Q Q' (ok a) db w h = w a h
Returns-more Q Q' (err e) db w h = tt

module _ {D : Type 0} {I : D → Type 0} where
  followed-Done :
      {A B : Type 0} (p : Result A × Transaction D) (f : A → Task D B) {R : A → D → Type 0}
      {Q : B → D → Type 0}
      → Done I R p
      → ((a : A) → Safe I (R a) (f a) Q)
      → Done I Q (followed p f)
  followed-Done (ok a, s) f h hf = (hf a).runs s h.kept h.seen h.returns
  followed-Done (err e, s) f h hf = record { kept = h.kept; seen = h.seen; returns = tt }

  pub bind-Safe :
      {A B : Type 0} {P : D → Type 0} {m : Task D A} {f : A → Task D B} {R : A → D → Type 0}
      {Q : B → D → Type 0}
      → Safe I P m R
      → ((a : A) → Safe I (R a) (f a) Q)
      → Safe I P (m >>= f) Q
  unfolding ◌>>=◌
  bind-Safe {m = m} {f} hm hf = record {
    runs = λ s c v p. followed-Done (m s) f (hm.runs s c v p) hf;
  }

  pub then-Safe :
      {B : Type 0} {P R : D → Type 0} {m : Task D Unit} {k : Task D B} {Q : B → D → Type 0}
      → Safe I P m (λ _. R)
      → Safe I R k Q
      → Safe I P (m >> k) Q
  unfolding ◌>>◌
  then-Safe hm hk = bind-Safe hm λ _. hk

  pub lift-Safe :
      {A : Type 0} {P : D → Type 0} (r : Result A) → Safe I P (lift r) (λ a db. P db × (r ≡ ok a))
  unfolding lift
  lift-Safe (ok a) = record { runs = λ s c v p. record { kept = c; seen = v; returns = (p, refl) } }
  lift-Safe (err e) = record { runs = λ s c v p. record { kept = c; seen = v; returns = tt } }

  pub guard-Safe : {P : D → Type 0} (c : Bool) (e : Error) → Safe I P (raise_if c e) (λ _. P)
  unfolding raise_if
  guard-Safe true e = record { runs = λ s c v p. record { kept = c; seen = v; returns = tt } }
  guard-Safe false e = record { runs = λ s c v p. record { kept = c; seen = v; returns = p } }

  -- the same, with what a guard that does not raise says
  pub passed-Safe :
      {P : D → Type 0} (c : Bool) (e : Error) → Safe I P (raise_if c e) (λ _ db. P db × (c ≡ false))
  unfolding raise_if
  passed-Safe true e = record { runs = λ s c v p. record { kept = c; seen = v; returns = tt } }
  passed-Safe false e = record {
    runs = λ s c v p. record { kept = c; seen = v; returns = (p, refl) };
  }

  pub ask-Safe : {A : Type 0} {P : D → Type 0} (g : D → A) → Safe I P (ask g) (λ _. P)
  unfolding ask
  ask-Safe g = record { runs = λ s c v p. record { kept = c; seen = v; returns = p } }

  -- the same, with what was asked
  pub told-Safe :
      {A : Type 0} {P : D → Type 0} (g : D → A) → Safe I P (ask g) (λ a db. P db × (g db ≡ a))
  unfolding ask
  told-Safe g = record { runs = λ s c v p. record { kept = c; seen = v; returns = (p, refl) } }

  pub pure-Safe : {A : Type 0} {P : D → Type 0} (a : A) → Safe I P (pure a) (λ _. P)
  unfolding pure
  pure-Safe a = record { runs = λ s c v p. record { kept = c; seen = v; returns = p } }

  -- the same, with a fact about the result
  pub pure_with-Safe :
      {A : Type 0} {P : A → D → Type 0} {X : A → Type 0} (a : A)
      → X a
      → Safe I (P a) (pure a) (λ b db. P b db × X b)
  unfolding pure
  pure_with-Safe a x = record { runs = λ s c v p. record { kept = c; seen = v; returns = (p, x) } }

  -- the result of a use case of which nothing more is said
  pub end-Safe : {A : Type 0} {P : D → Type 0} (a : A) → Safe I P (pure a) (λ _ _. Unit)
  unfolding pure
  end-Safe a = record { runs = λ s c v p. record { kept = c; seen = v; returns = tt } }

  pub raise-Safe :
      {A : Type 0} {P : D → Type 0} {Q : A → D → Type 0} (e : Error) → Safe I P (raise e) Q
  unfolding raise
  raise-Safe e = record { runs = λ s c v p. record { kept = c; seen = v; returns = tt } }

  pub commit-Safe : {P : D → Type 0} → Safe I P commit (λ _. P)
  unfolding commit
  commit-Safe = record { runs = λ s c v p. record { kept = v; seen = v; returns = p } }

  pub call-Safe :
      {A : Type 0} {P : D → Type 0} {Q : A → D → Type 0} (q : Method D A)
      → ((db : D) → I db → P db → I (q db).1 × Returns Q (q db).0 (q db).1)
      → Safe I P (call q) Q
  unfolding call
  call-Safe q h = record {
    runs =
        λ s c v p. record { kept = c; seen = (h s.current v p).0; returns = (h s.current v p).1 };
  }

  handled-Done :
      {A : Type 0} {Q : A → D → Type 0} (p : Result A × Transaction D) (handler : Error → Error)
      → Done I Q p
      → Done I Q (handled p handler)
  handled-Done (ok a, s) handler h = h
  handled-Done (err e, s) handler h = record { kept = h.kept; seen = h.seen; returns = tt }

  pub rethrow-Safe :
      {A : Type 0} {P : D → Type 0} {Q : A → D → Type 0} (m : Task D A) (handler : Error → Error)
      → Safe I P m Q
      → Safe I P (rethrow m handler) Q
  unfolding rethrow
  rethrow-Safe m handler h = record {
    runs = λ s c v p. handled-Done (m s) handler (h.runs s c v p);
  }

  -- a fact that does not hang on the tables
  pub with-Safe :
      {A X : Type 0} {P : D → Type 0} {m : Task D A} {Q : A → D → Type 0}
      → (X → Safe I P m Q)
      → Safe I (λ db. P db × X) m Q
  with-Safe h = record { runs = λ s c v p. (h p.1).runs s c v p.0 }

  -- less is known
  pub less-Safe :
      {A : Type 0} {P P' : D → Type 0} {m : Task D A} {Q : A → D → Type 0}
      → ((db : D) → P' db → P db)
      → Safe I P m Q
      → Safe I P' m Q
  less-Safe w h = record { runs = λ s c v p. h.runs s c v (w s.current p) }

  -- less is said of the result
  pub more-Safe :
      {A : Type 0} {P : D → Type 0} {m : Task D A} {Q Q' : A → D → Type 0}
      → ((a : A) (db : D) → Q a db → Q' a db)
      → Safe I P m Q
      → Safe I P m Q'
  more-Safe {m = m} {Q} {Q'} w h = record {
    runs = λ s c v p.
        let d = h.runs s c v p in
        record {
          kept = d.kept;
          seen = d.seen;
          returns = Returns-more Q Q' (m s).0 (m s).1.current (λ a. w a (m s).1.current) d.returns;
        };
  }

  pub if-Safe :
      {A : Type 0} {P : D → Type 0} (c : Bool) {m k : Task D A} {Q : A → D → Type 0}
      → (c ≡ true → Safe I P m Q)
      → (c ≡ false → Safe I P k Q)
      → Safe I P (if c then m else k) Q
  if-Safe true hm hk = hm refl
  if-Safe false hm hk = hk refl

  finished-Safe :
      {A : Type 0} {Q : A → D → Type 0} (p : Result A × Transaction D)
      → Done I Q p
      → I (finished p).1
  finished-Safe (ok a, s) h = h.seen
  finished-Safe (err e, s) h = h.kept

  -- The commit or the rollback of a safe use case leaves the invariant.
  pub run-Safe :
      {A : Type 0} {Q : A → D → Type 0} (m : Task D A) (db : D)
      → Safe I (λ _. Unit) m Q
      → I db
      → I (run_request m db).1
  unfolding run_request
  run-Safe m db hm h =
      let s : Transaction D = record { committed = db; current = db } in
      finished-Safe (m s) (hm.runs s h h tt)
