-- ===== src/Wallet/Withdrawals.antt =====
-- How the rows of `driver_withdrawals` and of their quotes are found
-- (app_base/modules/payment/infra/repositories.py), and how two values of a column that may be
-- null are compared.
use diddi_go_backend.Base.{ℕ, Bool, false, Option, some, String, ◌==◌, str_eq, find}
use diddi_go_backend.Wallet.Entities.{Db, DriverWithdrawal, DriverWithdrawalQuote}

abbrev pub has_withdrawal_id : ℕ → DriverWithdrawal → Bool
has_withdrawal_id i w = w.id == i

abbrev pub has_quote : ℕ → DriverWithdrawal → Bool
has_quote q w = w.quote_id == q

abbrev pub has_quote_id : ℕ → DriverWithdrawalQuote → Bool
has_quote_id i q = q.id == i

-- `find_withdrawal_by_id`, `find_withdrawal_by_quote_id`
abbrev pub find_withdrawal : ℕ → Db → Option DriverWithdrawal
find_withdrawal i db = find (has_withdrawal_id i) db.withdrawals

abbrev pub find_withdrawal_by_quote_id : ℕ → Db → Option DriverWithdrawal
find_withdrawal_by_quote_id q db = find (has_quote q) db.withdrawals

abbrev pub same_text : Option String → Option String → Bool
same_text (some a) (some b) = str_eq a b
same_text _ _ = false

abbrev pub same_id : Option ℕ → Option ℕ → Bool
same_id (some a) (some b) = a == b
same_id _ _ = false
