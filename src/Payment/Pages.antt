-- ===== src/Payment/Pages.antt =====
-- The pages of a passenger's debts: `list_debts_for_passenger` of
-- app_base/modules/payment/infra/repositories.py and the `total_pages` of `list_passenger_debts`
-- (app_base/modules/payment/application/services.py).
use native.Mathlib.Nat.{mul_comm}
use native.Mathlib.Omega.{div_fact, mod_fact}
use diddi_go_backend.Base.{
  ℕ, zero, suc, ◌+◌, ◌-◌, ◌*◌, ◌/◌, ◌≤◌, ◌≡◌, refl, sym, ap, ◌∙◌, max, List, [], ◌∷◌, ◌++◌, arith,
  take, drop, length,
}
use diddi_go_backend.Base.Sort.{reverse_sort_by, insert_down}
use diddi_go_backend.Wallet.Entities.{Db, PassengerDebt}
use mathlib.Core.List.{Permᴰ}
use diddi_go_backend.Base.Permuted.{IsKeyed, sort-permuted}
use diddi_go_backend.Payment.Debts.{
  created, debts_of, page_of, list_debts_for_passenger, total_pages,
}

module _ {A : Type 0} where
  -- What a reader of the pages `page`, `page + 1`, … gets, for `n` of them.
  read_pages : (n page page_size : ℕ) → List A → List A
  read_pages zero page page_size xs = []
  read_pages (suc n) page page_size xs =
      page_of page page_size xs ++ read_pages n (suc page) page_size xs

  nothing : List A
  nothing = []

  take-nothing : (n : ℕ) → take n nothing ≡ nothing
  unfolding nothing
  take-nothing zero = refl
  take-nothing (suc n) = refl

  take-drop : (a b : ℕ) (xs : List A) → take (a + b) xs ≡ take a xs ++ take b (drop a xs)
  unfolding nothing
  take-drop zero b xs = let same : zero + b ≡ b = omega arith in rw same refl
  take-drop (suc a) b [] =
      let same : suc a + b ≡ suc (a + b) = omega arith in rw same (sym (take-nothing b))
  take-drop (suc a) b (x ∷ xs) =
      let same : suc a + b ≡ suc (a + b) = omega arith in rw same (ap (◌∷◌ x) (take-drop a b xs))

  drop-drop : (a b : ℕ) (xs : List A) → drop (a + b) xs ≡ drop b (drop a xs)
  drop-drop zero b xs = let same : zero + b ≡ b = omega arith in rw same refl
  drop-drop (suc a) zero [] = let same : suc a + zero ≡ suc a = omega arith in rw same refl
  drop-drop (suc a) (suc b) [] =
      let same : suc a + suc b ≡ suc (a + suc b) = omega arith in rw same refl
  drop-drop (suc a) b (x ∷ xs) =
      let same : suc a + b ≡ suc (a + b) = omega arith in rw same (drop-drop a b xs)

  take_all : (n : ℕ) (xs : List A) → length xs ≤ n → take n xs ≡ xs
  take_all zero [] h = refl
  take_all zero (x ∷ xs) h = absurd (omega arith)
  take_all (suc n) [] h = refl
  take_all (suc n) (x ∷ xs) h = ap (◌∷◌ x) (take_all n xs (omega arith))

  length-insert_down :
      (key : A → ℕ) (x : A) (xs : List A) → length (insert_down key x xs) ≡ suc (length xs)
  length-insert_down key x [] = refl
  length-insert_down key x (y ∷ ys) = ground (arith, length-insert_down key x ys)

  length-reverse_sort_by : (key : A → ℕ) (xs : List A) → length (reverse_sort_by key xs) ≡ length xs
  length-reverse_sort_by key [] = refl
  length-reverse_sort_by key (x ∷ xs) =
      omega
        (arith, length-insert_down key x (reverse_sort_by key xs), length-reverse_sort_by key xs)

  read_pages-eq :
      (n page page_size : ℕ) (xs : List A)
      → read_pages n (suc page) page_size xs ≡ take (n * page_size) (drop (page * page_size) xs)
  unfolding read_pages
  read_pages-eq zero page page_size xs =
      let none : zero * page_size ≡ zero = omega arith in rw none refl
  read_pages-eq (suc n) page page_size xs =
      let more : suc n * page_size ≡ page_size + n * page_size = omega arith in
      let here : suc page - 1 ≡ page = omega arith in
      let next : suc page * page_size ≡ page * page_size + page_size = omega arith in
      rw
        (
          read_pages-eq n (suc page) page_size xs,
          here,
          more,
          next,
          take-drop page_size (n * page_size) (drop (page * page_size) xs),
          drop-drop (page * page_size) page_size xs,
        )
        refl

max_times : (q s : ℕ) → q * s ≤ max 1 q * s
max_times zero s = omega arith
max_times (suc q) s = let same : max 1 (suc q) ≡ suc q = omega arith in rw same (omega arith)

enough_pages : (total k : ℕ) → total ≤ total_pages total (suc k) * suc k
unfolding total_pages
enough_pages total k =
    let m = total + suc k - 1 in
    let q = m / suc k in
    let swap : suc k * q ≡ q * suc k = mul_comm (suc k) q in
    omega (arith, div_fact m k, mod_fact m k, swap, max_times q (suc k))

module _ (scans : ℕ → List PassengerDebt → List PassengerDebt) (user_id page_size : ℕ)
    (db : Db) where
  -- What a passenger reads on `n` pages, from a page on; each page is a query of its own.
  pub read_debts : (n page : ℕ) → List PassengerDebt
  read_debts zero page = []
  read_debts (suc n) page =
      (list_debts_for_passenger (scans page) user_id page page_size db).0 ++ read_debts n (suc page)

  read_debts-pages :
      ((page : ℕ) → Permᴰ (debts_of user_id db) (scans page (debts_of user_id db)))
      → IsKeyed created (debts_of user_id db)
      → (n page : ℕ)
      → read_debts n page
        ≡ read_pages n page page_size (reverse_sort_by created (debts_of user_id db))
  unfolding read_debts read_pages list_debts_for_passenger
  read_debts-pages all keyed zero page = refl
  read_debts-pages all keyed (suc n) page =
      let same = sort-permuted created (all page) keyed in
      rw (← same, read_debts-pages all keyed n (suc page)) refl

-- A passenger whose debts were created at different moments, and who reads the pages of a size of
-- at least one, from the first to the last that `total_pages` announces for the total on the first
-- page, reads exactly the passenger's debts, each once and the newest first, in whatever order the
-- database reads the rows for each page.
pub pages_cover_debts :
    (scans : ℕ → List PassengerDebt → List PassengerDebt) (user_id page_size : ℕ) (db : Db)
    → ((page : ℕ) → Permᴰ (debts_of user_id db) (scans page (debts_of user_id db)))
    → IsKeyed created (debts_of user_id db)
    → 1 ≤ page_size
    → let total = (list_debts_for_passenger (scans 1) user_id 1 page_size db).1 in
      read_debts scans user_id page_size db (total_pages total page_size) 1
      ≡ reverse_sort_by created (debts_of user_id db)
unfolding list_debts_for_passenger
pages_cover_debts scans user_id zero db all keyed h = absurd (omega arith)
pages_cover_debts scans user_id (suc k) db all keyed h =
    let debts = debts_of user_id db in
    let sorted = reverse_sort_by created debts in
    let n = total_pages (length debts) (suc k) in
    let none : 0 * suc k ≡ 0 = omega arith in
    let enough : length sorted ≤ n * suc k =
      rw (length-reverse_sort_by created debts) (enough_pages (length debts) k) in
    read_debts-pages scans user_id (suc k) db all keyed n 1
    ∙ read_pages-eq n 0 (suc k) sorted
    ∙ rw none (take_all (n * suc k) sorted enough)
