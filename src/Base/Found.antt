-- ===== src/Base/Found.antt =====
-- What replacing a row, or adding one, does to a table: to a predicate on all its rows, and to the
-- number of its rows that pass a test.
use Prim.Native.Nat.{◌≤◌, ◌+◌}
use mathlib.Core.Path.{◌≡◌, subst}
use mathlib.Core.Logic.{inl, inr}
use mathlib.Core.Bool.{Bool, true, false}
use mathlib.Core.Option.{some}
use mathlib.Core.List.{List, [], ◌∷◌, ◌++◌}
use native.Mathlib.Omega.{arith}
use diddi_go_backend.Base.Tests.{if◌then◌else◌, Bool-cases}
use diddi_go_backend.Base.Rows.{find, any, count, update, All}

module _ {A : Type 0} where
  pub find-All :
      (P : A → Type 0) (test : A → Bool) (xs : List A) (x : A)
      → find test xs ≡ some x
      → All P xs
      → P x
  find-All P test [] x h ps = cc
  find-All P test (y ∷ xs) x h (p, ps) = elim (Bool-cases (test y)) [
    | inl passes ↦ let same : y ≡ x = ground arith in subst P same p
    | inr fails ↦ let later : find test xs ≡ some x = ground arith in find-All P test xs x later ps
  ]

  pub find-passes : (test : A → Bool) (xs : List A) (x : A) → find test xs ≡ some x → test x ≡ true
  find-passes test [] x h = cc
  find-passes test (y ∷ xs) x h = ground (arith, find-passes test xs x)

  pub find-any :
      (test : A → Bool) (xs : List A) (x : A) → find test xs ≡ some x → any test xs ≡ true
  find-any test [] x h = cc
  find-any test (y ∷ xs) x h = ground (arith, find-any test xs x)

  if-All :
      (P : A → Type 0) (c : Bool) (x y : A) (xs ys : List A)
      → P y
      → P x
      → All P xs
      → All P ys
      → All P (if c then y ∷ xs else x ∷ ys)
  if-All P true x y xs ys py px pxs pys = (py, pxs)
  if-All P false x y xs ys py px pxs pys = (px, pys)

  pub update-All :
      (P : A → Type 0) (test : A → Bool) (f : A → A) (xs : List A)
      → ((x : A) → P x → P (f x))
      → All P xs
      → All P (update test f xs)
  update-All P test f [] hf ps = tt
  update-All P test f (x ∷ xs) hf (p, ps) =
      if-All P (test x) x (f x) xs (update test f xs) (hf x p) p ps (update-All P test f xs hf ps)

  pub snoc-All : (P : A → Type 0) (xs : List A) (x : A) → All P xs → P x → All P (xs ++ x ∷ [])
  snoc-All P [] x ps p = (p, tt)
  snoc-All P (y ∷ xs) x (q, qs) p = (q, snoc-All P xs x qs p)

  -- A replaced row, where the new one passes the test only if the old one did.
  pub count-replace :
      (key test : A → Bool) (xs : List A) (x y : A)
      → find key xs ≡ some x
      → (test y ≡ true → test x ≡ true)
      → count test (update key (λ _. y) xs) ≤ count test xs
  count-replace key test [] x y h imp = cc
  count-replace key test (z ∷ xs) x y h imp = elim (Bool-cases (key z)) [
    | inl passes ↦
        let same : z ≡ x = ground arith in
        let imp' : test y ≡ true → test z ≡ true = rw same imp in ground (arith, imp')
    | inr fails ↦
        let later : find key xs ≡ some x = ground arith in
        ground (arith, count-replace key test xs x y later imp)
  ]

  -- A replaced row adds one at most, and none where the new one fails the test.
  pub count-replace_le :
      (key test : A → Bool) (xs : List A) (y : A)
      → count test (update key (λ _. y) xs) ≤ count test xs + (if test y then 1 else 0)
  count-replace_le key test [] y = omega arith
  count-replace_le key test (z ∷ xs) y = ground (arith, count-replace_le key test xs y)

  pub find-replace :
      (key : A → Bool) (xs : List A) (x y : A)
      → find key xs ≡ some x
      → key y ≡ true
      → find key (update key (λ _. y) xs) ≡ some y
  find-replace key [] x y h e = cc
  find-replace key (z ∷ xs) x y h e = ground (arith, find-replace key xs x y)
