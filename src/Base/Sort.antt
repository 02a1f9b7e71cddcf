-- ===== src/Base/Sort.antt =====
-- `ORDER BY` a number: a stable insertion sort.
use Prim.Native.Nat.{ℕ}
use mathlib.Core.List.{List, [], ◌∷◌}
use diddi_go_backend.Base.Tests.{if◌then◌else◌, leb}

module _ {ℓ} {A : Type ℓ} (key : A → ℕ) where
  abbrev pub insert_by : A → List A → List A
  insert_by x [] = x ∷ []
  insert_by x (y ∷ ys) = if leb (key x) (key y) then x ∷ y ∷ ys else y ∷ insert_by x ys

  abbrev pub sort_by : List A → List A
  sort_by [] = []
  sort_by (x ∷ xs) = insert_by x (sort_by xs)

  -- `ORDER BY … DESC`
  abbrev pub insert_down : A → List A → List A
  insert_down x [] = x ∷ []
  insert_down x (y ∷ ys) = if leb (key y) (key x) then x ∷ y ∷ ys else y ∷ insert_down x ys

  abbrev pub reverse_sort_by : List A → List A
  reverse_sort_by [] = []
  reverse_sort_by (x ∷ xs) = insert_down x (reverse_sort_by xs)
