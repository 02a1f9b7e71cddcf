-- ===== src/Wallet/Totals.antt =====
-- What a driver owns in all: the balance and what is held for withdrawals under way, the
-- `withdrawal_reserved_total` of app_base/modules/payment/infra/repositories.py and the
-- `total_balance` of app_base/modules/payment/application/wallet_service.py.
use diddi_go_backend.Base.{
  ℕ, ◌≡◌, refl, inl, inr, Bool, true, false, ◌&&◌, some, List, [], ◌∷◌, ◌++◌, arith, ◌==◌,
  Bool-cases, find, update, if◌then◌else◌,
}
use diddi_go_backend.Base.Int.{ℤ, pos, ◌+ℤ◌, int_laws, parts_of_eq}
use diddi_go_backend.Wallet.Entities.{Db, DriverWithdrawal, WithdrawalStatus}
use diddi_go_backend.Wallet.Withdrawals.{has_withdrawal_id, has_quote}
use diddi_go_backend.Wallet.Reserve.{destined}
use diddi_go_backend.Wallet.Balance.{balance_of}

-- `status in ("reserved", "processing")`
abbrev pub is_pending : WithdrawalStatus → Bool
is_pending WithdrawalStatus.reserved = true
is_pending WithdrawalStatus.processing = true
is_pending _ = false

-- What a withdrawal holds of a driver's money.
abbrev pub held : ℕ → DriverWithdrawal → ℤ
held d w = if (w.driver_id == d) && is_pending w.status then w.amount else pos 0

-- `withdrawal_reserved_total`
pub withdrawal_reserved_total : ℕ → List DriverWithdrawal → ℤ
withdrawal_reserved_total d [] = pos 0
withdrawal_reserved_total d (w ∷ ws) = held d w +ℤ withdrawal_reserved_total d ws

-- `wallet.balance + reserved`
unfoldable pub total_balance : ℕ → Db → ℤ
total_balance d db = balance_of d db.wallets +ℤ withdrawal_reserved_total d db.withdrawals

pub reserved-snoc :
    (d : ℕ) (ws : List DriverWithdrawal) (w : DriverWithdrawal)
    → withdrawal_reserved_total d (ws ++ w ∷ []) ≡ withdrawal_reserved_total d ws +ℤ held d w
unfolding withdrawal_reserved_total
reserved-snoc d [] w = omega int_laws
reserved-snoc d (v ∷ ws) w = rw (reserved-snoc d ws w) (omega int_laws)

trade : (a s b c : ℤ) → c ≡ b → a +ℤ s +ℤ b ≡ c +ℤ s +ℤ a
trade a s b c e = rw e (omega int_laws)

-- A row written back in the place of another changes the total by what the two hold.
pub reserved-write :
    (d i : ℕ) (ws : List DriverWithdrawal) (old row : DriverWithdrawal)
    → find (has_withdrawal_id i) ws ≡ some old
    → withdrawal_reserved_total d (update (has_withdrawal_id i) (λ _. row) ws) +ℤ held d old
      ≡ withdrawal_reserved_total d ws +ℤ held d row
unfolding withdrawal_reserved_total
reserved-write d i [] old row h = cc
reserved-write d i (v ∷ ws) old row h = elim (Bool-cases (v.id == i)) [
  | inl this ↦
      rw this
        (trade (held d row) (withdrawal_reserved_total d ws) (held d old) (held d v) (ground arith))
  | inr other ↦
      rw other (omega (int_laws, parts_of_eq _ _ (reserved-write d i ws old row (rw other at h))))
]

pub reserved-destined :
    (d q : ℕ) (w : DriverWithdrawal) (ws : List DriverWithdrawal)
    → withdrawal_reserved_total d (update (has_quote q) (destined w) ws)
      ≡ withdrawal_reserved_total d ws
unfolding withdrawal_reserved_total
reserved-destined d q w [] = refl
reserved-destined d q w (v ∷ ws) = ground (arith, reserved-destined d q w ws)
