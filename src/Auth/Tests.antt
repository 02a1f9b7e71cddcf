-- ===== src/Auth/Tests.antt =====
-- A passenger who asks for a code, mistypes it and signs in, and the theorem on codes at it.
use diddi_go_backend.Base.{◌≡◌, ◌+◌, refl, none, some, List, [], ◌∷◌, String}
use diddi_go_backend.Auth.Entities.{OtpCode, Tables}
use diddi_go_backend.Auth.Service.{Checks, SignIn, run}
use diddi_go_backend.Auth.Codes.{IsKeyed, open_codes}
use diddi_go_backend.Auth.Confirmed.{sign_ins_use_codes}

-- Stand-ins that a test can compute.
abbrev same_text : String → String
same_text s = s

abbrev checks : Checks
checks = record {
  validate_phone = λ phone. some phone;
  sha256_hex = same_text;
  otp_rate_limit_seconds = 60;
  otp_code_lifetime_seconds = 300;
}

abbrev old_code : OtpCode
old_code = record {
  id = 1;
  phone = "+2250700000000";
  code_hash = "111111";
  expires_at = 50;
  created_at = 10;
  consumed_at = none;
}

abbrev tables : Tables
tables = record { users = []; otps = old_code ∷ [] }

abbrev morning : List SignIn
morning =
    SignIn.code_request 2 100 "+2250700000000" "123456"
    ∷ SignIn.verification 7 200 "+2250700000000" "000000" none
    ∷ SignIn.verification 7 300 "+2250700000000" "123456" none
    ∷ SignIn.verification 7 400 "+2250700000000" "123456" none
    ∷ []

sign_ins_use_codes_example :
    let l = run checks morning tables in
    open_codes l.tables + l.signed_in ≡ open_codes tables + l.sent
unfolding IsKeyed
sign_ins_use_codes_example = sign_ins_use_codes checks morning tables (refl, tt)
