-- ===== src/Auth/Entities.antt =====
-- The entities of app_base/modules/auth/domain/entities.py, and the methods of
-- app_base/modules/auth/infra/repositories.py on the tables that keep them.
use diddi_go_backend.Base.{
  ℕ, Bool, not, ◌&&◌, Option, none, some, List, [], ◌∷◌, ◌++◌, String, if◌then◌else◌, ◌==◌, str_eq,
  find, any, update, is_some, or_else,
}
use diddi_go_backend.Base.Sort.{reverse_sort_by}
use diddi_go_backend.Wallet.Session.{Result, ok, err, integrity_error}
use diddi_go_backend.Payment.Transactions.{rows_where}
use diddi_go_backend.Payment.Debts.{head}

pub data UserRole : Type 0 where
  passenger driver admin : UserRole

pub data UserStatus : Type 0 where
  active suspended pending_verification : UserStatus

pub record User : Type 0 where
  pub id : ℕ
  pub phone : String
  pub role : UserRole
  pub status : UserStatus
  pub full_name : Option String
  pub is_review_account : Bool
  pub created_at : Option ℕ
  pub updated_at : Option ℕ

pub record OtpCode : Type 0 where
  pub id : ℕ
  pub phone : String
  pub code_hash : String
  pub expires_at : ℕ
  pub created_at : ℕ
  pub consumed_at : Option ℕ

-- The tables `auth.users` and `auth.otp_codes`.
pub record Tables : Type 0 where
  pub users : List User
  pub otps : List OtpCode

abbrev pub has_user_id : ℕ → User → Bool
has_user_id i u = u.id == i

abbrev pub has_otp_id : ℕ → OtpCode → Bool
has_otp_id i o = o.id == i

-- `find_by_phone`, on a column that is unique
abbrev pub find_by_phone : String → Tables → Option User
find_by_phone phone t = find (λ u. str_eq u.phone phone) t.users

-- The row of a user that was there before.
abbrev pub rewritten : ℕ → User → User → User
rewritten now u row = record row {
  full_name = u.full_name;
  role = u.role;
  status = u.status;
  is_review_account = u.is_review_account;
  updated_at = some now;
}

-- The row of a new user.
abbrev pub inserted : ℕ → User → User
inserted now u = record u {
  created_at = some (or_else u.created_at now);
  updated_at = some (or_else u.updated_at now);
}

-- `SqlAlchemyUserRepository.save`
unfoldable pub save_user : ℕ → User → Tables → Result Tables
save_user now u t =
    if any (has_user_id u.id) t.users
    then ok (record t { users = update (has_user_id u.id) (rewritten now u) t.users })
    else if any (λ v. str_eq v.phone u.phone) t.users
    then err integrity_error
    else ok (record t { users = t.users ++ inserted now u ∷ [] })

-- `SqlAlchemyOTPRepository.save`
unfoldable pub save_otp : OtpCode → Tables → Result Tables
save_otp o t =
    if any (has_otp_id o.id) t.otps
    then err integrity_error
    else ok (record t { otps = t.otps ++ o ∷ [] })

abbrev pub is_open : OtpCode → Bool
is_open o = not (is_some o.consumed_at)

-- `find_latest_unconsumed`
unfoldable pub find_latest_unconsumed : String → Tables → Option OtpCode
find_latest_unconsumed phone t = head (
    reverse_sort_by (λ o. o.created_at)
      (rows_where (λ o. str_eq o.phone phone && is_open o) t.otps))

abbrev pub consumed : ℕ → OtpCode → OtpCode
consumed now o = record o { consumed_at = some now }

-- `mark_consumed`
unfoldable pub mark_consumed : (now otp_id : ℕ) → Tables → Tables
mark_consumed now i t = elim (find (has_otp_id i) t.otps) [
  | none ↦ t
  | some row ↦
      if is_some row.consumed_at
      then t
      else record t { otps = update (has_otp_id i) (consumed now) t.otps }
]
