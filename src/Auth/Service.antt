-- ===== src/Auth/Service.antt =====
-- `register`, `request_otp` and `verify_otp` of app_base/modules/auth/application/services.py.
-- Each commits once, as the last thing it does to the tables: what raises before leaves them as
-- they were. Validating a phone number, hashing a code and drawing one are parameters; the tokens
-- and the payloads are left out, and so is `refresh`, which only reads.
use diddi_go_backend.Base.{
  ℕ, ◌+◌, Bool, true, false, not, ◌&&◌, Option, none, some, List, [], ◌∷◌, String, if◌then◌else◌,
  ltb, leb, str_eq, is_some,
}
use diddi_go_backend.Wallet.Session.{Result, ok, err, api_error}
use diddi_go_backend.Wallet.Service.{is_empty, seconds}
use diddi_go_backend.Auth.Entities.{
  UserRole, passenger, driver, admin, UserStatus, active, pending_verification, User, OtpCode,
  Tables, find_by_phone, save_user, save_otp, find_latest_unconsumed, mark_consumed,
}

-- `_validate_phone` (the number without spaces, none where it raises), `sha256(…).hexdigest()`,
-- and the settings, in seconds.
pub record Checks : Type 0 where
  pub validate_phone : String → Option String
  pub sha256_hex : String → String
  pub otp_rate_limit_seconds : ℕ
  pub otp_code_lifetime_seconds : ℕ

-- A step that may raise, and what follows it.
unfoldable pub and_then : {A B : Type 0} → Result A → (A → Result B) → Result B
and_then (ok a) f = f a
and_then (err e) f = err e

abbrev pub raise_when : Bool → ℕ → String → Result (Unit {0})
raise_when c status_code code = if c then err (api_error status_code code) else ok tt

abbrev pub role_of : String → Option UserRole
role_of s =
    if str_eq s "passenger"
    then some passenger
    else if str_eq s "driver"
    then some driver
    else if str_eq s "admin"
    then some admin
    else none

abbrev pub is_pending : UserStatus → Bool
is_pending pending_verification = true
is_pending _ = false

abbrev pub new_user : (id now : ℕ) → (phone : String) → Option String → UserRole → UserStatus → User
new_user id now phone full_name role status = record {
  id = id;
  phone = phone;
  role = role;
  status = status;
  full_name = full_name;
  is_review_account = false;
  created_at = some now;
  updated_at = none;
}

module _ (k : Checks) where
  unfoldable pub valid_phone : String → Result String
  valid_phone phone = elim (k.validate_phone phone) [
    | none ↦ err (api_error 422 "INVALID_PHONE_FORMAT")
    | some p ↦ ok p
  ]

  unfoldable pub register_as :
      (id now : ℕ) → (phone full_name : String) → Option UserRole → Tables → Result Tables
  register_as id now phone full_name none t = err (api_error 422 "INVALID_ROLE")
  register_as id now phone full_name (some role) t =
      and_then (raise_when (is_some (find_by_phone phone t)) 409 "PHONE_ALREADY_REGISTERED") λ _.
        save_user now
          (new_user id now phone (if is_empty full_name then none else some full_name) role
            pending_verification)
          t

  -- `register`
  unfoldable pub register : (id now : ℕ) → (phone full_name role : String) → Tables → Result Tables
  register id now phone full_name role t =
      and_then (valid_phone phone) λ p. register_as id now p full_name (role_of role) t

  -- The last code is good and was sent less than the limit ago.
  abbrev pub sent_recently : ℕ → Option OtpCode → Bool
  sent_recently now none = false
  sent_recently now (some o) =
      not (is_some o.consumed_at)
      && ltb now o.expires_at
      && ltb now (o.created_at + seconds k.otp_rate_limit_seconds)

  abbrev pub new_otp : (id now : ℕ) → (phone code : String) → OtpCode
  new_otp id now phone code = record {
    id = id;
    phone = phone;
    code_hash = k.sha256_hex code;
    expires_at = now + seconds k.otp_code_lifetime_seconds;
    created_at = now;
    consumed_at = none;
  }

  -- `request_otp`; `code` is what `randbelow` gives, as six digits
  unfoldable pub request_otp : (id now : ℕ) → (phone code : String) → Tables → Result Tables
  request_otp id now phone code t = and_then (valid_phone phone) λ p.
      and_then (raise_when (sent_recently now (find_latest_unconsumed p t)) 429 "OTP_RATE_LIMITED")
        λ _. save_otp (new_otp id now p code) t

  abbrev pub code_fails : String → Option String → OtpCode → Bool
  code_fails code none o = not (str_eq (k.sha256_hex code) o.code_hash)
  code_fails code (some given) o = not (str_eq code given)

  -- the user who signs in: made if there is none, activated if the account was pending
  unfoldable pub sign_in : (id now : ℕ) → String → Option User → Tables → Result Tables
  sign_in id now phone none t = save_user now (new_user id now phone none passenger active) t
  sign_in id now phone (some u) t =
      if is_pending u.status then save_user now (record u { status = active }) t else ok t

  -- `verify_otp`, once the code is read
  unfoldable pub verify_code :
      (id now : ℕ) → (phone code : String) → Option String → Option OtpCode → Tables → Result Tables
  verify_code id now phone code override none t = err (api_error 400 "OTP_INVALID")
  verify_code id now phone code override (some o) t =
      and_then (raise_when (leb o.expires_at now) 410 "OTP_EXPIRED") λ _.
        and_then (raise_when (code_fails code override o) 400 "OTP_INVALID")
          λ _. let t' = mark_consumed now o.id t in sign_in id now phone (find_by_phone phone t') t'

  -- `verify_otp`
  unfoldable pub verify_otp :
      (id now : ℕ) → (phone code : String) → Option String → Tables → Result Tables
  verify_otp id now phone code override t =
      and_then (valid_phone phone)
        λ p. verify_code id now p code override (find_latest_unconsumed p t) t

-- The requests, with what they draw.
pub data SignIn : Type 0 where
  registration : (id now : ℕ) → (phone full_name role : String) → SignIn
  code_request : (id now : ℕ) → (phone code : String) → SignIn
  verification : (id now : ℕ) → (phone code : String) → Option String → SignIn

unfoldable pub attempt : Checks → SignIn → Tables → Result Tables
attempt k (SignIn.registration i now phone full_name role) t =
    register k i now phone full_name role t
attempt k (SignIn.code_request i now phone code) t = request_otp k i now phone code t
attempt k (SignIn.verification i now phone code override) t =
    verify_otp k i now phone code override t

-- How many codes a request sends, and how many it uses, when it is granted.
abbrev pub sends : SignIn → ℕ
sends (SignIn.code_request i now phone code) = 1
sends _ = 0

abbrev pub uses : SignIn → ℕ
uses (SignIn.verification i now phone code override) = 1
uses _ = 0

-- A sequence of requests: how many codes were sent, how many sign-ins they gave, and the tables.
pub record Log : Type 0 where
  pub sent : ℕ
  pub signed_in : ℕ
  pub tables : Tables

-- One request before the rest: what raises leaves the tables as they were.
abbrev pub logged : SignIn → Result Tables → Tables → (Tables → Log) → Log
logged x (err e) t rest = rest t
logged x (ok t') t rest =
    let l = rest t' in record l { sent = sends x + l.sent; signed_in = uses x + l.signed_in }

unfoldable pub run : Checks → List SignIn → Tables → Log
run k [] t = record { sent = 0; signed_in = 0; tables = t }
run k (x ∷ xs) t = logged x (attempt k x t) t (run k xs)
