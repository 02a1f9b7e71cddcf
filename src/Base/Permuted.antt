-- ===== src/Base/Permuted.antt =====
-- `ORDER BY … DESC` on a number that tells the rows apart: the order in which the rows are read
-- does not matter.
use Prim.Native.Nat.{ℕ}
use mathlib.Core.Path.{◌≡◌, refl, ap, sym, ◌∙◌, subst}
use mathlib.Core.Logic.{◌≢◌}
use mathlib.Core.List.{List, [], ◌∷◌, Permᴰ}
use native.Mathlib.Omega.{arith}
use diddi_go_backend.Base.Rows.{All}
use diddi_go_backend.Base.Sort.{insert_down, reverse_sort_by}

module _ {A : Type 0} where
  All-permuted : {xs ys : List A} (P : A → Type 0) → Permᴰ xs ys → All P xs → All P ys
  All-permuted P Permᴰ.nil h = h
  All-permuted P (Permᴰ.cons e d) (h, t) = (subst P e h, All-permuted P d t)
  All-permuted P (Permᴰ.swap e f) (h, (k, t)) = (subst P f k, (subst P e h, t))
  All-permuted P (Permᴰ.trans d d') h = All-permuted P d' (All-permuted P d h)

  module _ (key : A → ℕ) where
    -- No two elements have one key.
    abbrev pub IsKeyed : List A → Type 0
    IsKeyed [] = Unit {0}
    IsKeyed (x ∷ xs) = All (λ y. key x ≢ key y) xs × IsKeyed xs

    keyed-permuted : {xs ys : List A} → Permᴰ xs ys → IsKeyed xs → IsKeyed ys
    keyed-permuted Permᴰ.nil h = h
    keyed-permuted (Permᴰ.cons {l₂ = ys} e d) (h, t) = (
      subst (λ z. All (λ o. key z ≢ key o) ys) e (All-permuted (λ o. key _ ≢ key o) d h),
      keyed-permuted d t,
    )
    keyed-permuted (Permᴰ.swap {l = zs} e f) ((h, hs), (ks, t)) = (
      (
        λ same. h (ap key e ∙ sym same ∙ sym (ap key f)),
        subst (λ z. All (λ o. key z ≢ key o) zs) f ks,
      ),
      (subst (λ z. All (λ o. key z ≢ key o) zs) e hs, t),
    )
    keyed-permuted (Permᴰ.trans d d') h = keyed-permuted d' (keyed-permuted d h)

    insert_down-swap :
        (x y : A) (zs : List A)
        → key x ≢ key y
        → insert_down key x (insert_down key y zs) ≡ insert_down key y (insert_down key x zs)
    insert_down-swap x y [] h = ground arith
    insert_down-swap x y (z ∷ zs) h = ground (arith, insert_down-swap x y zs h)

    pub sort-permuted :
        {xs ys : List A}
        → Permᴰ xs ys
        → IsKeyed xs
        → reverse_sort_by key xs ≡ reverse_sort_by key ys
    sort-permuted Permᴰ.nil h = refl
    sort-permuted (Permᴰ.cons e d) (h, t) = rw (e, sort-permuted d t) refl
    sort-permuted (Permᴰ.swap {a = x} {b = y} {l = zs} e f) ((h, hs), t) =
        rw (← e, ← f) (insert_down-swap x y (reverse_sort_by key zs) h)
    sort-permuted (Permᴰ.trans d d') h = sort-permuted d h ∙ sort-permuted d' (keyed-permuted d h)
