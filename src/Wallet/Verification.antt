-- ===== src/Wallet/Verification.antt =====
-- The one-time code that confirms a withdrawal: `consume_withdrawal_verification` of
-- app_base/modules/payment/infra/repositories.py.
use diddi_go_backend.Base.{
  ℕ, ◌+◌, Bool, not, ◌||◌, none, some, String, if◌then◌else◌, ◌==◌, leb, str_eq, find, update,
  is_some,
}
use diddi_go_backend.Wallet.Entities.{Db, DriverWithdrawalVerification}
use diddi_go_backend.Wallet.Session.{lookup_error, ok, err, Query}

-- The rows of `driver_withdrawal_verifications`.
abbrev pub has_verification_id : ℕ → DriverWithdrawalVerification → Bool
has_verification_id i v = v.id == i

abbrev pub count_attempt : DriverWithdrawalVerification → DriverWithdrawalVerification
count_attempt v = record v { attempt_count = v.attempt_count + 1 }

abbrev pub consumed : ℕ → DriverWithdrawalVerification → DriverWithdrawalVerification
consumed now v = record v { consumed_at = some now }

abbrev pub write_verification :
    ℕ → (DriverWithdrawalVerification → DriverWithdrawalVerification) → Db → Db
write_verification i f db = record db {
  verifications = update (has_verification_id i) f db.verifications;
}

-- `consume_withdrawal_verification`
unfoldable pub consume_withdrawal_verification :
    (verification_id driver_id beneficiary_destination : ℕ) (code_hash : String)
    (max_attempts now : ℕ)
    → Query DriverWithdrawalVerification
consume_withdrawal_verification verification_id driver_id destination code_hash max_attempts now
      db =
    elim (find (has_verification_id verification_id) db.verifications) [
      | none ↦ (err (lookup_error "WITHDRAWAL_VERIFICATION_NOT_FOUND"), db)
      | some row ↦
          if not (row.driver_id == driver_id)
          then (err (lookup_error "WITHDRAWAL_VERIFICATION_NOT_FOUND"), db)
          else if is_some row.consumed_at
          then (err (lookup_error "WITHDRAWAL_VERIFICATION_USED"), db)
          else if leb row.expires_at now
          then (err (lookup_error "WITHDRAWAL_VERIFICATION_EXPIRED"), db)
          else if leb max_attempts row.attempt_count
          then (err (lookup_error "WITHDRAWAL_VERIFICATION_LOCKED"), db)
          else if not (row.beneficiary_destination == destination)
              || not (str_eq row.code_hash code_hash)
          then (
            if leb max_attempts (row.attempt_count + 1)
                then err (lookup_error "WITHDRAWAL_VERIFICATION_LOCKED")
                else err (lookup_error "WITHDRAWAL_VERIFICATION_INVALID"),
            write_verification verification_id count_attempt db,
          )
          else (ok (consumed now row), write_verification verification_id (consumed now) db)
    ]
