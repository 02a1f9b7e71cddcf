-- ===== src/Wallet/Guesses.antt =====
-- Withdrawal requests with a wrong one-time code, and what is left of them after the rollback of
-- `get_session`: `consume_withdrawal_verification` of
-- app_base/modules/payment/infra/repositories.py within `request_withdrawal` of
-- app_base/modules/payment/application/wallet_service.py.
use diddi_go_backend.Base.{
  ℕ, ◌≡◌, refl, ap, ◌∙◌, inl, inr, Bool, true, false, not, Option, none, some, List, [], ◌∷◌, arith,
  Option-cases, find, String, ◌&&◌, map, ◌==◌, str_eq,
}
use diddi_go_backend.Wallet.Entities.{Db, DriverWithdrawal, DriverWithdrawalVerification}
use diddi_go_backend.Wallet.Session.{
  Error, Result, ok, err, Query, Session, Action, pure, raise, call, rethrow, ask, ◌>>=◌, ◌>>◌,
  raise_if, run_request, followed, handled, finished,
}
use diddi_go_backend.Wallet.Verification.{consume_withdrawal_verification, has_verification_id}
use diddi_go_backend.Wallet.Service.{
  Settings, Externals, Answer, WithdrawalRequest, Draws, driver_id_for_user, conclude,
  confirm_and_reserve, answer_existing, answer_or_create, request_withdrawal, Request, serve,
  serve_all,
}

-- A request whose code is not the one of the row that it names.
abbrev pub wrong_row : Option DriverWithdrawalVerification → String → Bool
wrong_row none hash = true
wrong_row (some v) hash = not (str_eq v.code_hash hash)

abbrev pub wrong_code : Externals → Db → WithdrawalRequest → Bool
wrong_code ext db r =
    wrong_row (find (has_verification_id r.verification_id) db.verifications)
      (ext.sha256_hex r.verification_code)

abbrev pub failed : {A : Type 0} → Result A → Bool
failed (ok a) = false
failed (err e) = true

-- `consume_withdrawal_verification` does not return when the code is wrong.
consume-refuses :
    (i driver destination : ℕ) (hash : String) (most now : ℕ) (db : Db)
    → wrong_row (find (has_verification_id i) db.verifications) hash ≡ true
    → failed (consume_withdrawal_verification i driver destination hash most now db).0 ≡ true
unfolding consume_withdrawal_verification
consume-refuses i driver destination hash most now db h =
    elim (Option-cases (find (has_verification_id i) db.verifications)) [
      | inl absent ↦ ground arith
      | inr (row, found) ↦ ground arith
    ]

-- An action that raises from a session, with nothing committed.
record Aborts {A : Type 0} (m : Action A) (s : Session) : Type 0 where
  pub raises : failed (m s).0 ≡ true
  pub kept : (m s).1.committed ≡ s.committed

handled-Aborts :
    {A : Type 0} (p : Result A × Session) (handler : Error → Error) (db : Db)
    → failed p.0 ≡ true
    → p.1.committed ≡ db
    → (failed (handled p handler).0 ≡ true) × ((handled p handler).1.committed ≡ db)
handled-Aborts (ok a, s) handler db h c = cc
handled-Aborts (err e, s) handler db h c = (refl, c)

followed-Aborts :
    {A B : Type 0} (p : Result A × Session) (f : A → Action B) (db : Db)
    → failed p.0 ≡ true
    → p.1.committed ≡ db
    → (failed (followed p f).0 ≡ true) × ((followed p f).1.committed ≡ db)
followed-Aborts (ok a, s) f db h c = cc
followed-Aborts (err e, s) f db h c = (refl, c)

call-Aborts :
    {A : Type 0} (q : Query A) (s : Session) → failed (q s.current).0 ≡ true → Aborts (call q) s
unfolding call
call-Aborts q s h = record { raises = h; kept = refl }

rethrow-Aborts :
    {A : Type 0} (m : Action A) (handler : Error → Error) (s : Session)
    → Aborts m s
    → Aborts (rethrow m handler) s
unfolding rethrow
rethrow-Aborts m handler s h =
    let (raises, kept) = handled-Aborts (m s) handler s.committed h.raises h.kept in
    record { raises = raises; kept = kept }

bind-Aborts :
    {A B : Type 0} (m : Action A) (f : A → Action B) (s : Session) → Aborts m s → Aborts (m >>= f) s
unfolding ◌>>=◌
bind-Aborts m f s h =
    let (raises, kept) = followed-Aborts (m s) f s.committed h.raises h.kept in
    record { raises = raises; kept = kept }

-- The tables after a request that has got this far.
abbrev left : {A : Type 0} → Result A × Session → Db
left p = (finished p).1

Aborts-left :
    {A : Type 0} (p : Result A × Session) (db : Db)
    → failed p.0 ≡ true
    → p.1.committed ≡ db
    → left p ≡ db
Aborts-left (ok a, s) db h c = cc
Aborts-left (err e, s) db h c = c

-- Before the first write, only what follows decides what is left.
followed-left :
    {A B : Type 0} (p : Result A × Session) (f : A → Action B) (s : Session)
    → p.1 ≡ s
    → ((a : A) → left (f a s) ≡ s.committed)
    → left (followed p f) ≡ s.committed
followed-left (ok a, s') f s same h = rw same (h a)
followed-left (err e, s') f s same h = rw same refl

bind-left :
    {A B : Type 0} (m : Action A) (f : A → Action B) (s : Session)
    → (m s).1 ≡ s
    → ((a : A) → left (f a s) ≡ s.committed)
    → left ((m >>= f) s) ≡ s.committed
unfolding ◌>>=◌
bind-left m f s same h = followed-left (m s) f s same h

then-left :
    {B : Type 0} (m : Action Unit) (k : Action B) (s : Session)
    → (m s).1 ≡ s
    → left (k s) ≡ s.committed
    → left ((m >> k) s) ≡ s.committed
unfolding ◌>>◌
then-left m k s same h = bind-left m (λ _. k) s same λ _. h

raise_if-same : (c : Bool) (e : Error) (s : Session) → (raise_if c e s).1 ≡ s
unfolding raise_if
raise_if-same c e s = refl

driver_id-same : (user : ℕ) (s : Session) → (driver_id_for_user user s).1 ≡ s
unfolding driver_id_for_user
driver_id-same user s = elim (Option-cases (find (λ d. d.user_id == user) s.current.drivers)) [
  | inl absent ↦ ground arith
  | inr (d, found) ↦ ground arith
]

module _ (cfg : Settings) (ext : Externals) where
  confirm-Aborts :
      (d : Draws) (r : WithdrawalRequest) (driver_id : ℕ) (s : Session)
      → wrong_code ext s.current r ≡ true
      → Aborts (confirm_and_reserve cfg ext d r driver_id) s
  unfolding confirm_and_reserve
  confirm-Aborts d r driver_id s h = bind-Aborts _ _ s (
      rethrow-Aborts _ _ s (
        call-Aborts _ s (
          consume-refuses r.verification_id driver_id r.beneficiary_destination
            (ext.sha256_hex r.verification_code) cfg.driver_withdrawal_otp_max_attempts d.now
            s.current h)))

  answer-left :
      (d : Draws) (r : WithdrawalRequest) (provider : DriverWithdrawal → Answer) (driver_id : ℕ)
      (existing : Option DriverWithdrawal) (db : Db)
      → wrong_code ext db r ≡ true
      → left (
          answer_or_create cfg ext d r provider driver_id existing
            (record { committed = db; current = db }))
        ≡ db
  unfolding answer_or_create answer_existing raise pure
  answer-left d r provider driver_id (some w) db h = ground arith
  answer-left d r provider driver_id none db h =
      let start : Session = record { committed = db; current = db } in
      let aborted =
        bind-Aborts _ (λ w. conclude d w (provider w)) start
          (confirm-Aborts d r driver_id start h) in
      Aborts-left _ db aborted.raises aborted.kept

  request-forgotten :
      (d : Draws) (r : WithdrawalRequest) (provider : DriverWithdrawal → Answer) (db : Db)
      → wrong_code ext db r ≡ true
      → (run_request (request_withdrawal cfg ext d r provider) db).1 ≡ db
  unfolding run_request request_withdrawal ask
  request-forgotten d r provider db h =
      let start : Session = record { committed = db; current = db } in
      bind-left (driver_id_for_user r.driver_user_id) _ start (driver_id-same _ start) λ driver_id.
        then-left _ _ start (raise_if-same _ _ start) (
          then-left _ _ start (raise_if-same _ _ start)
            (bind-left _ _ start refl λ existing. answer-left d r provider driver_id existing db h))

-- A withdrawal request with its draws and the provider it would ask.
pub record Guess : Type 0 where
  pub draws : Draws
  pub request : WithdrawalRequest
  pub provider : DriverWithdrawal → Answer

abbrev pub guess : Guess → Request
guess g = Request.withdraw g.draws g.request g.provider

-- Every request of the list has a wrong code.
abbrev pub all_wrong : Externals → Db → List Guess → Bool
all_wrong ext db [] = true
all_wrong ext db (g ∷ gs) = wrong_code ext db g.request && all_wrong ext db gs

-- However many withdrawal requests come whose code is not the one that was sent, the tables are
-- afterwards exactly what they were: the attempts that the check counts are rolled back with the
-- error, so no number of them locks the code.
pub wrong_codes_forgotten :
    (cfg : Settings) (ext : Externals) (gs : List Guess) (db : Db)
    → all_wrong ext db gs ≡ true
    → serve_all cfg ext (map guess gs) db ≡ db
unfolding serve_all serve
wrong_codes_forgotten cfg ext [] db h = refl
wrong_codes_forgotten cfg ext (g ∷ gs) db h =
    ap (serve_all cfg ext (map guess gs))
      (request-forgotten cfg ext g.draws g.request g.provider db (ground arith))
    ∙ wrong_codes_forgotten cfg ext gs db (ground arith)
