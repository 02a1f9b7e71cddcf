-- ===== src/Auth/Codes.antt =====
-- What becomes of one-time codes: `request_otp` and `verify_otp` of
-- app_base/modules/auth/application/services.py.
use diddi_go_backend.Base.{
  ℕ, suc, ◌+◌, ◌≡◌, refl, inl, inr, Bool, true, false, ◌&&◌, some, List, [], ◌∷◌, String, arith,
  All, Bool-cases, any, count, find, update, is_some, leb, str_eq, ◌==◌,
}
use diddi_go_backend.Base.Sort.{reverse_sort_by, insert_down}
use diddi_go_backend.Payment.Transactions.{rows_where}
use diddi_go_backend.Payment.Debts.{head}
use diddi_go_backend.Auth.Entities.{
  OtpCode, Tables, has_otp_id, is_open, consumed, find_latest_unconsumed, mark_consumed,
}

-- No two rows have the same identifier.
unfoldable pub IsKeyed : List OtpCode → Type 0
IsKeyed [] = Unit
IsKeyed (o ∷ os) = (any (has_otp_id o.id) os ≡ false) × IsKeyed os

-- The codes that can still confirm something.
unfoldable pub open_codes : Tables → ℕ
open_codes t = count is_open t.otps

IsFound : List OtpCode → OtpCode → Type 0
IsFound os o = find (has_otp_id o.id) os ≡ some o

module _ {A : Type 0} (Q : A → Type 0) where
  chosen-All :
      (test : A → Bool) (xs : List A)
      → All Q xs
      → All (λ x. Q x × (test x ≡ true)) (rows_where test xs)
  chosen-All test [] h = tt
  chosen-All test (x ∷ xs) (hx, hs) = elim (Bool-cases (test x)) [
    | inl yes_ ↦ rw yes_ ((hx, yes_), chosen-All test xs hs)
    | inr no_ ↦ rw no_ (chosen-All test xs hs)
  ]

  insert_down-All :
      (key : A → ℕ) (x : A) (xs : List A) → Q x → All Q xs → All Q (insert_down key x xs)
  insert_down-All key x [] hx hs = (hx, tt)
  insert_down-All key x (y ∷ ys) hx (hy, hs) = elim (Bool-cases (leb (key y) (key x))) [
    | inl yes_ ↦ rw yes_ (hx, (hy, hs))
    | inr no_ ↦ rw no_ (hy, insert_down-All key x ys hx hs)
  ]

  reverse_sort_by-All : (key : A → ℕ) (xs : List A) → All Q xs → All Q (reverse_sort_by key xs)
  reverse_sort_by-All key [] h = tt
  reverse_sort_by-All key (x ∷ xs) (hx, hs) =
      insert_down-All key x (reverse_sort_by key xs) hx (reverse_sort_by-All key xs hs)

  head-All : (xs : List A) (x : A) → head xs ≡ some x → All Q xs → Q x
  head-All [] x h hs = absurd (ground arith)
  head-All (y ∷ ys) x h (hy, hs) = let same : y ≡ x = ground arith in rw (← same) hy

-- With distinct identifiers, each row is the one that its identifier finds.
still-IsFound :
    (o : OtpCode) (all os : List OtpCode)
    → any (has_otp_id o.id) os ≡ false
    → All (IsFound all) os
    → All (IsFound (o ∷ all)) os
unfolding IsFound
still-IsFound o all [] h hs = tt
still-IsFound o all (x ∷ xs) h (hx, hs) = (ground arith, still-IsFound o all xs (ground arith) hs)

keyed-All : (os : List OtpCode) → IsKeyed os → All (IsFound os) os
unfolding IsKeyed IsFound
keyed-All [] h = tt
keyed-All (o ∷ os) (fresh, h) = (ground arith, still-IsFound o os os fresh (keyed-All os h))

-- The latest code is an open row, the one that its identifier finds.
latest_open :
    (phone : String) (t : Tables) (o : OtpCode)
    → IsKeyed t.otps
    → find_latest_unconsumed phone t ≡ some o
    → IsFound t.otps o × (is_open o ≡ true)
unfolding find_latest_unconsumed
latest_open phone t o keyed latest =
    let test : OtpCode → Bool = λ p. str_eq p.phone phone && is_open p in
    let R : OtpCode → Type 0 = λ p. IsFound t.otps p × (test p ≡ true) in
    let rows = rows_where test t.otps in
    let (found, passes) = head-All R (reverse_sort_by (λ p. p.created_at) rows) o latest (
      reverse_sort_by-All R (λ p. p.created_at) rows
        (chosen-All (IsFound t.otps) test t.otps (keyed-All t.otps keyed))) in
    (found, ground arith)

count-consumed :
    (i now : ℕ) (os : List OtpCode) (o : OtpCode)
    → find (has_otp_id i) os ≡ some o
    → is_open o ≡ true
    → suc (count is_open (update (has_otp_id i) (consumed now) os)) ≡ count is_open os
count-consumed i now [] o h open_ = absurd (ground arith)
count-consumed i now (x ∷ xs) o h open_ = ground (arith, count-consumed i now xs o)

any-consumed :
    (i j now : ℕ) (os : List OtpCode)
    → any (has_otp_id j) (update (has_otp_id i) (consumed now) os) ≡ any (has_otp_id j) os
any-consumed i j now [] = refl
any-consumed i j now (x ∷ xs) = ground (arith, any-consumed i j now xs)

consumed-IsKeyed :
    (i now : ℕ) (os : List OtpCode) → IsKeyed os → IsKeyed (update (has_otp_id i) (consumed now) os)
unfolding IsKeyed
consumed-IsKeyed i now [] h = tt
consumed-IsKeyed i now (x ∷ xs) (fresh, h) = elim (Bool-cases (x.id == i)) [
  | inl same ↦ rw same (fresh, h)
  | inr other ↦ rw other (rw (any-consumed i x.id now xs) fresh, consumed-IsKeyed i now xs h)
]

-- The tables after some codes were sent and others used.
pub record Moved (sent used : ℕ) (t t' : Tables) : Type 0 where
  pub keyed : IsKeyed t'.otps
  pub codes : open_codes t' + used ≡ open_codes t + sent

pub mark-Moved :
    (now : ℕ) (phone : String) (t : Tables) (o : OtpCode)
    → IsKeyed t.otps
    → find_latest_unconsumed phone t ≡ some o
    → Moved 0 1 t (mark_consumed now o.id t)
unfolding mark_consumed open_codes IsFound
mark-Moved now phone t o keyed latest =
    let (found, open_) = latest_open phone t o keyed latest in
    let unused : is_some o.consumed_at ≡ false = ground arith in
    rw (found, unused, mark_consumed)
      (record {
        keyed = consumed-IsKeyed o.id now t.otps keyed;
        codes = omega (arith, count-consumed o.id now t.otps o found open_);
      })
