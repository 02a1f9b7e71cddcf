-- ===== src/Payment/Tally.antt =====
-- The figures of a sweep (`ReconciliationReport` of
-- app_base/modules/payment/application/services.py): every row that is read again is counted once.
use mathlib.Core.Path.{subst}
use diddi_go_backend.Base.{
  ℕ, suc, ◌+◌, ◌*◌, ◌≤◌, ◌≡◌, refl, ap, Bool, true, false, Option, none, some, List, [], ◌∷◌, ◌++◌,
  String, arith, length, length-take_le, if◌then◌else◌,
}
use diddi_go_backend.Wallet.Entities.{
  Db, DriverTopup, DriverWithdrawal, PaymentStatus, Transaction, WithdrawalStatus,
}
use diddi_go_backend.Wallet.Session.{Action, Result, ok, err, Session, followed, pure, ask, ◌>>=◌}
use diddi_go_backend.Wallet.Service.{Externals, Payout}
use diddi_go_backend.Payment.Transactions.{list_stale_transactions}
use diddi_go_backend.Payment.Topups.{list_stale_topups}
use diddi_go_backend.Payment.Provider.{Intent}
use diddi_go_backend.Payment.Prepare.{Texts}
use diddi_go_backend.Payment.Sweep.{
  Report, empty_report, count_checked, count_unchanged, count_missing, count_mismatched,
  count_error, count_updated, Reading, found, absent, failed, Sources, update_transaction,
  compare_transaction, reconcile_transaction_row, update_topup, compare_topup, reconcile_topup_row,
  update_withdrawal, compare_withdrawal, reconcile_withdrawal_row, for_each, reconcile_pending,
  list_stale_withdrawals,
}

-- What the result of an action is, if it returns.
Holding : {A : Type 0} → (A → Type 0) → Result A → Type 0
Holding Q (ok a) = Q a
Holding Q (err e) = Unit

record Yields {A : Type 0} (Q : A → Type 0) (m : Action A) : Type 0 where
  yields : (s : Session) → Holding Q (m s).0

module _ {A B : Type 0} {Q : A → Type 0} {R : B → Type 0} where
  followed-Holding :
      (p : Result A × Session) (f : A → Action B)
      → Holding Q p.0
      → ((a : A) → Q a → Yields R (f a))
      → Holding R (followed p f).0
  unfolding Holding
  followed-Holding (ok a, s) f h hf = (hf a h).yields s
  followed-Holding (err e, s) f h hf = tt

  bind-Yields :
      {m : Action A} {f : A → Action B}
      → Yields Q m
      → ((a : A) → Q a → Yields R (f a))
      → Yields R (m >>= f)
  unfolding ◌>>=◌
  bind-Yields {m = m} {f} hm hf = record { yields = λ s. followed-Holding (m s) f (hm.yields s) hf }

pure-Yields : {A : Type 0} {Q : A → Type 0} (a : A) → Q a → Yields Q (pure a)
unfolding pure Holding
pure-Yields a h = record { yields = λ s. h }

ask-Yields : {A : Type 0} (f : Db → A) (Q : A → Type 0) → ((db : Db) → Q (f db)) → Yields Q (ask f)
unfolding ask Holding
ask-Yields f Q h = record { yields = λ s. h s.current }

anything-Holding : {A : Type 0} (r : Result A) → Holding (λ _. Unit) r
unfolding Holding
anything-Holding (ok a) = tt
anything-Holding (err e) = tt

weaken-Holding :
    {A : Type 0} {Q R : A → Type 0} (r : Result A)
    → Holding Q r
    → ((a : A) → Q a → R a)
    → Holding R r
unfolding Holding
weaken-Holding (ok a) h hf = hf a h
weaken-Holding (err e) h hf = tt

anything-Yields : {A : Type 0} (m : Action A) → Yields (λ _. Unit) m
anything-Yields m = record { yields = λ s. anything-Holding (m s).0 }

weaken-Yields :
    {A : Type 0} {Q R : A → Type 0} {m : Action A} → Yields Q m → ((a : A) → Q a → R a) → Yields R m
weaken-Yields {m = m} hm hf = record { yields = λ s. weaken-Holding (m s).0 (hm.yields s) hf }

if-Yields :
    {A : Type 0} {Q : A → Type 0} (c : Bool) {m k : Action A}
    → Yields Q m
    → Yields Q k
    → Yields Q (if c then m else k)
if-Yields true hm hk = hm
if-Yields false hm hk = hk

-- The report tells of `n` rows: each is counted once, under one outcome, and each that was
-- updated is named.
pub record IsTally (n : ℕ) (r : Report) : Type 0 where
  pub rows : r.checked ≡ n
  pub outcomes : r.updated + r.unchanged + r.missing + r.mismatched + r.errors ≡ n
  pub names : length r.updated_references ≡ r.updated

-- One more row is read, and its outcome is still to come.
record IsPending (n : ℕ) (r : Report) : Type 0 where
  rows : r.checked ≡ suc n
  outcomes : r.updated + r.unchanged + r.missing + r.mismatched + r.errors ≡ n
  names : length r.updated_references ≡ r.updated

length-snoc : {A : Type 0} (xs : List A) (x : A) → length (xs ++ x ∷ []) ≡ suc (length xs)
length-snoc [] x = refl
length-snoc (y ∷ xs) x = ap suc (length-snoc xs x)

module _ {n : ℕ} (r : Report) (h : IsPending n r) where
  unchanged-IsTally : IsTally (suc n) (count_unchanged r)
  unchanged-IsTally = record {
    rows = h.rows;
    outcomes = omega (arith, h.outcomes);
    names = h.names;
  }

  missing-IsTally : IsTally (suc n) (count_missing r)
  missing-IsTally = record { rows = h.rows; outcomes = omega (arith, h.outcomes); names = h.names }

  mismatched-IsTally : IsTally (suc n) (count_mismatched r)
  mismatched-IsTally = record {
    rows = h.rows;
    outcomes = omega (arith, h.outcomes);
    names = h.names;
  }

  error-IsTally : IsTally (suc n) (count_error r)
  error-IsTally = record { rows = h.rows; outcomes = omega (arith, h.outcomes); names = h.names }

  updated-IsTally : (name : String) → IsTally (suc n) (count_updated name r)
  updated-IsTally name = record {
    rows = h.rows;
    outcomes = omega (arith, h.outcomes);
    names = omega (arith, h.names, length-snoc r.updated_references name);
  }

empty-IsTally : IsTally 0 empty_report
empty-IsTally = record { rows = refl; outcomes = refl; names = refl }

checked-IsPending : {n : ℕ} (r : Report) → IsTally n r → IsPending n (count_checked r)
checked-IsPending r h = record {
  rows = omega (arith, h.rows);
  outcomes = h.outcomes;
  names = h.names;
}

for_each-Yields :
    {A : Type 0} (step : A → Report → Action Report)
    → ((n : ℕ) (x : A) (r : Report) → IsTally n r → Yields (IsTally (suc n)) (step x r))
    → (n : ℕ) (xs : List A) (r : Report) → IsTally n r
    → Yields (IsTally (length xs + n)) (for_each step xs r)
unfolding for_each
for_each-Yields step hs n [] r h =
    let same : n ≡ 0 + n = omega arith in pure-Yields r (subst (λ k. IsTally k r) same h)
for_each-Yields step hs n (x ∷ xs) r h = bind-Yields (hs n x r h) λ r' h'.
    let same : length xs + suc n ≡ suc (length xs) + n = omega arith in
    subst (λ k. Yields (IsTally k) (for_each step xs r')) same
      (for_each-Yields step hs (suc n) xs r' h')

either-IsTally :
    {n : ℕ} (c : Bool) (r : Report)
    → IsPending n r
    → (name : String) → IsTally (suc n) (if c then count_unchanged r else count_updated name r)
either-IsTally true r h name = unchanged-IsTally r h
either-IsTally false r h name = updated-IsTally r h name

module _ (ext : Externals) (texts : Texts) (src : Sources) (now : ℕ) where
  update_transaction-Yields :
      (n : ℕ) (t : Transaction) (i : Intent) (r : Report)
      → IsPending n r
      → (s : Result PaymentStatus)
      → Yields (IsTally (suc n)) (update_transaction ext texts src now t i r s)
  unfolding update_transaction
  update_transaction-Yields n t i r h (err e) = pure-Yields _ (error-IsTally r h)
  update_transaction-Yields n t i r h (ok status) =
      if-Yields _ (pure-Yields _ (unchanged-IsTally r h))
        (bind-Yields (anything-Yields _) λ t' any_. pure-Yields _ (updated-IsTally r h _))

  compare_transaction-Yields :
      (n : ℕ) (t : Transaction) (r : Report)
      → IsPending n r
      → (a : Reading Intent)
      → Yields (IsTally (suc n)) (compare_transaction ext texts src now t r a)
  unfolding compare_transaction
  compare_transaction-Yields n t r h absent = pure-Yields _ (missing-IsTally r h)
  compare_transaction-Yields n t r h failed = pure-Yields _ (error-IsTally r h)
  compare_transaction-Yields n t r h (found i) =
      if-Yields _ (pure-Yields _ (mismatched-IsTally r h)) (update_transaction-Yields n t i r h _)

  update_topup-Yields :
      (n : ℕ) (t : DriverTopup) (i : Intent) (r : Report)
      → IsPending n r
      → (s : Result PaymentStatus)
      → Yields (IsTally (suc n)) (update_topup ext texts src now t i r s)
  unfolding update_topup
  update_topup-Yields n t i r h (err e) = pure-Yields _ (error-IsTally r h)
  update_topup-Yields n t i r h (ok status) =
      if-Yields _ (pure-Yields _ (unchanged-IsTally r h))
        (bind-Yields (anything-Yields _) λ t' any_. pure-Yields _ (updated-IsTally r h _))

  compare_topup-Yields :
      (n : ℕ) (t : DriverTopup) (r : Report)
      → IsPending n r
      → (a : Reading Intent) → Yields (IsTally (suc n)) (compare_topup ext texts src now t r a)
  unfolding compare_topup
  compare_topup-Yields n t r h absent = pure-Yields _ (missing-IsTally r h)
  compare_topup-Yields n t r h failed = pure-Yields _ (error-IsTally r h)
  compare_topup-Yields n t r h (found i) =
      if-Yields _ (pure-Yields _ (mismatched-IsTally r h)) (update_topup-Yields n t i r h _)

  update_withdrawal-Yields :
      (n : ℕ) (w : DriverWithdrawal) (p : Payout) (r : Report)
      → IsPending n r
      → (o : Option WithdrawalStatus)
      → Yields (IsTally (suc n)) (update_withdrawal ext texts src now w p r o)
  unfolding update_withdrawal
  update_withdrawal-Yields n w p r h none = pure-Yields _ (error-IsTally r h)
  update_withdrawal-Yields n w p r h (some target) =
      bind-Yields (anything-Yields _)
        λ i any_. bind-Yields (anything-Yields _) λ w' any'. pure-Yields _ (either-IsTally _ r h _)

  compare_withdrawal-Yields :
      (n : ℕ) (w : DriverWithdrawal) (r : Report)
      → IsPending n r
      → (a : Reading Payout) → Yields (IsTally (suc n)) (compare_withdrawal ext texts src now w r a)
  unfolding compare_withdrawal
  compare_withdrawal-Yields n w r h absent = pure-Yields _ (missing-IsTally r h)
  compare_withdrawal-Yields n w r h failed = pure-Yields _ (error-IsTally r h)
  compare_withdrawal-Yields n w r h (found p) =
      if-Yields _ (pure-Yields _ (mismatched-IsTally r h)) (update_withdrawal-Yields n w p r h _)

  transaction-Yields :
      (n : ℕ) (t : Transaction) (r : Report)
      → IsTally n r
      → Yields (IsTally (suc n)) (reconcile_transaction_row ext texts src now t r)
  unfolding reconcile_transaction_row
  transaction-Yields n t r h = compare_transaction-Yields n t _ (checked-IsPending r h) _

  topup-Yields :
      (n : ℕ) (t : DriverTopup) (r : Report)
      → IsTally n r
      → Yields (IsTally (suc n)) (reconcile_topup_row ext texts src now t r)
  unfolding reconcile_topup_row
  topup-Yields n t r h = compare_topup-Yields n t _ (checked-IsPending r h) _

  withdrawal-Yields :
      (n : ℕ) (w : DriverWithdrawal) (r : Report)
      → IsTally n r
      → Yields (IsTally (suc n)) (reconcile_withdrawal_row ext texts src now w r)
  unfolding reconcile_withdrawal_row
  withdrawal-Yields n w r h = compare_withdrawal-Yields n w _ (checked-IsPending r h) _

  -- What a sweep yields, for the rows that it reads.
  sweep-Yields :
      (limit before after : ℕ)
      → Yields
          (λ r. (n : ℕ) × IsTally n r × (n ≤ limit * 3))
          (reconcile_pending ext texts src now limit before after)
  unfolding reconcile_pending list_stale_transactions list_stale_topups list_stale_withdrawals
  sweep-Yields limit before after =
      bind-Yields (ask-Yields _ (λ xs. length xs ≤ limit) λ db. length-take_le limit _) λ ts few.
        bind-Yields (for_each-Yields _ transaction-Yields 0 ts empty_report empty-IsTally) λ r1 h1.
          bind-Yields (ask-Yields _ (λ xs. length xs ≤ limit) λ db. length-take_le limit _)
            λ us few'. bind-Yields (for_each-Yields _ topup-Yields _ us r1 h1) λ r2 h2.
              bind-Yields (ask-Yields _ (λ xs. length xs ≤ limit) λ db. length-take_le limit _)
                λ ws few''. weaken-Yields (for_each-Yields _ withdrawal-Yields _ ws r2 h2) λ r3 h3.
                  (length ws + (length us + (length ts + 0)), h3, omega (arith, few, few', few''))

-- Each row that was read again is counted once, under one outcome, the updated rows are named,
-- and there are at most `limit` rows of each of the three kinds.
pub record IsAccounted (limit : ℕ) (r : Report) : Type 0 where
  pub outcomes : r.checked ≡ r.updated + r.unchanged + r.missing + r.mismatched + r.errors
  pub names : length r.updated_references ≡ r.updated
  pub bounded : r.checked ≤ limit * 3

-- In the report of a sweep that does not raise, the rows that were checked are exactly those
-- updated, unchanged, missing, mismatched or in error, each updated row is named, and there are
-- at most three times `limit` of them, whatever the provider answers.
pub sweep_accounts :
    (ext : Externals) (texts : Texts) (src : Sources) (now limit before after : ℕ) (s : Session)
    (r : Report)
    → (reconcile_pending ext texts src now limit before after s).0 ≡ ok r
    → IsAccounted limit r
unfolding Holding
sweep_accounts ext texts src now limit before after s r returned =
    let held = (sweep-Yields ext texts src now limit before after).yields s in
    let (n, h, few) =
      subst (Holding (λ r'. (n : ℕ) × IsTally n r' × (n ≤ limit * 3))) returned held in
    record {
      outcomes = omega (arith, h.rows, h.outcomes);
      names = h.names;
      bounded = omega (arith, h.rows, few);
    }
