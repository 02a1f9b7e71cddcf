-- ===== src/Auth/Confirmed.antt =====
-- Every sign-in uses up a code that was sent: `verify_otp` of
-- app_base/modules/auth/application/services.py under any sequence of requests.
use diddi_go_backend.Base.{
  ℕ, ◌+◌, ◌≡◌, ◌⊎◌, refl, inl, inr, true, false, Option, none, some, List, [], ◌∷◌, ◌++◌, String,
  arith, Bool-cases, any, count-snoc,
}
use diddi_go_backend.Wallet.Session.{Result, Error, ok, err}
use diddi_go_backend.Wallet.Once.{any-snoc}
use diddi_go_backend.Auth.Entities.{
  User, UserRole, active, OtpCode, Tables, has_otp_id, is_open, save_user, save_otp,
  find_latest_unconsumed, mark_consumed, find_by_phone,
}
use diddi_go_backend.Auth.Service.{
  Checks, is_pending, SignIn, register, register_as, request_otp, sign_in, verify_code, verify_otp,
  and_then, attempt, sends, uses, run, new_otp,
}
use diddi_go_backend.Auth.Codes.{IsKeyed, open_codes, Moved, mark-Moved}

and_then-ok :
    {A B : Type 0} (r : Result A) (f : A → Result B) (b : B)
    → and_then r f ≡ ok b
    → (a : A) × (f a ≡ ok b)
unfolding and_then
and_then-ok (ok a) f b h = (a, h)
and_then-ok (err e) f b h = absurd (ground arith)

save_user-otps : (now : ℕ) (u : User) (t t' : Tables) → save_user now u t ≡ ok t' → t'.otps ≡ t.otps
unfolding save_user
save_user-otps now u t t' h = ground arith

same-Moved :
    (sent used : ℕ) (t t' t'' : Tables)
    → Moved sent used t t'
    → t''.otps ≡ t'.otps
    → Moved sent used t t''
unfolding open_codes
same-Moved sent used t t' t'' m same = record { keyed = rw same m.keyed; codes = rw same m.codes }

stay-Moved : (t t' : Tables) → IsKeyed t.otps → t'.otps ≡ t.otps → Moved 0 0 t t'
unfolding open_codes
stay-Moved t t' keyed same = record { keyed = rw same keyed; codes = rw same (omega arith) }

snoc-IsKeyed :
    (o : OtpCode) (os : List OtpCode)
    → any (has_otp_id o.id) os ≡ false
    → IsKeyed os
    → IsKeyed (os ++ o ∷ [])
unfolding IsKeyed
snoc-IsKeyed o [] fresh h = (refl, tt)
snoc-IsKeyed o (x ∷ xs) fresh (new, h) =
    (ground (arith, any-snoc (has_otp_id x.id) xs o), snoc-IsKeyed o xs (ground arith) h)

save_otp-Moved :
    (o : OtpCode) (t t' : Tables)
    → is_open o ≡ true
    → IsKeyed t.otps
    → save_otp o t ≡ ok t'
    → Moved 1 0 t t'
unfolding save_otp open_codes
save_otp-Moved o t t' open_ keyed h = elim (Bool-cases (any (has_otp_id o.id) t.otps)) [
  | inl clash ↦ absurd (ground arith)
  | inr fresh ↦
      let same : t'.otps ≡ t.otps ++ o ∷ [] = ground arith in
      record {
        keyed = rw same (snoc-IsKeyed o t.otps fresh keyed);
        codes = rw (same, count-snoc is_open t.otps o, open_) (omega arith);
      }
]

module _ (k : Checks) where
  sign_in-otps :
      (i now : ℕ) (phone : String) (o : Option User) (t t' : Tables)
      → sign_in k i now phone o t ≡ ok t'
      → t'.otps ≡ t.otps
  unfolding sign_in
  sign_in-otps i now phone none t t' h = save_user-otps now _ t t' h
  sign_in-otps i now phone (some u) t t' h = elim (Bool-cases (is_pending u.status)) [
    | inl yes_ ↦ save_user-otps now (record u { status = active }) t t' (rw (yes_, sign_in) at h)
    | inr no_ ↦ ground arith
  ]

  register-otps :
      (i now : ℕ) (phone full_name : String) (o : Option UserRole) (t t' : Tables)
      → register_as k i now phone full_name o t ≡ ok t'
      → t'.otps ≡ t.otps
  unfolding register_as
  register-otps i now phone full_name none t t' h = absurd (ground arith)
  register-otps i now phone full_name (some role) t t' h =
      let (u, saved) = and_then-ok _ _ t' h in save_user-otps now _ t t' saved

  verify_code-Moved :
      (i now : ℕ) (phone code : String) (override : Option String) (t t' : Tables)
      → IsKeyed t.otps
      → (o : Option OtpCode) → find_latest_unconsumed phone t ≡ o
      → verify_code k i now phone code override o t ≡ ok t'
      → Moved 0 1 t t'
  unfolding verify_code
  verify_code-Moved i now phone code override t t' keyed none latest h = absurd (ground arith)
  verify_code-Moved i now phone code override t t' keyed (some o) latest h =
      let (u1, h1) = and_then-ok _ _ t' h in
      let (u2, h2) = and_then-ok _ _ t' h1 in
      let marked = mark_consumed now o.id t in
      same-Moved 0 1 t marked t' (mark-Moved now phone t o keyed latest)
        (sign_in-otps i now phone (find_by_phone phone marked) marked t' h2)

  attempt-Moved :
      (x : SignIn) (t t' : Tables)
      → IsKeyed t.otps
      → attempt k x t ≡ ok t'
      → Moved (sends x) (uses x) t t'
  unfolding attempt register request_otp verify_otp
  attempt-Moved (SignIn.registration i now phone full_name role) t t' keyed h =
      let (p, h1) = and_then-ok _ _ t' h in
      stay-Moved t t' keyed (register-otps i now p full_name _ t t' h1)
  attempt-Moved (SignIn.code_request i now phone code) t t' keyed h =
      let (p, h1) = and_then-ok _ _ t' h in
      let (u, h2) = and_then-ok _ _ t' h1 in
      save_otp-Moved (new_otp k i now p code) t t' refl keyed h2
  attempt-Moved (SignIn.verification i now phone code override) t t' keyed h =
      let (p, h1) = and_then-ok _ _ t' h in
      verify_code-Moved i now p code override t t' keyed _ refl h1

Result-cases : {A : Type 0} (r : Result A) → ((a : A) × (r ≡ ok a)) ⊎ ((e : Error) × (r ≡ err e))
Result-cases (ok a) = inl (a, refl)
Result-cases (err e) = inr (e, refl)

-- In tables where no two codes have the same identifier, and under any sequence of
-- registrations, requests for a code and verifications, granted or refused: the codes that were
-- open and those sent are as many as the codes still open and the sign-ins that were granted. So
-- there are never more sign-ins than codes.
pub sign_ins_use_codes :
    (k : Checks) (xs : List SignIn) (t : Tables)
    → IsKeyed t.otps
    → let l = run k xs t in open_codes l.tables + l.signed_in ≡ open_codes t + l.sent
unfolding run
sign_ins_use_codes k [] t keyed = refl
sign_ins_use_codes k (x ∷ xs) t keyed = elim (Result-cases (attempt k x t)) [
  | inl (t', granted) ↦
      let m = attempt-Moved k x t t' keyed granted in
      rw granted (omega (arith, m.codes, sign_ins_use_codes k xs t' m.keyed))
  | inr (e, refused) ↦ rw refused (sign_ins_use_codes k xs t keyed)
]
