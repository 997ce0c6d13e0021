-- ===== src/Db/Ascending.antt =====
-- Batches in ascending order: WHERE id > after_id ORDER BY id ASC LIMIT n, which the jobs ask for one
-- after the other.
use kyjness_community_be.Prelude.{
  ℕ, zero, suc, ◌<◌, ◌≡◌, ◌≢◌, refl, Bool, true, false, Option, none, some, List, [], ◌∷◌,
  if◌then◌else◌, take, keep, All, All-map, ltb, arith, Bool-split, ◌&&◌, ◌≤◌, drop,
}
use kyjness_community_be.Db.Keyset.{IsDistinct, All-keep}
use kyjness_community_be.Db.Walk.{keep_all}

module _ {Row : Type 0} (id_of : Row → ℕ) where
  unfoldable pub insert_asc : Row → List Row → List Row
  insert_asc r [] = r ∷ []
  insert_asc r (x ∷ xs) =
      let rest = insert_asc r xs in if ltb (id_of r) (id_of x) then r ∷ x ∷ xs else x ∷ rest

  -- ORDER BY id ASC
  unfoldable pub order_asc : List Row → List Row
  order_asc [] = []
  order_asc (r ∷ rows) = insert_asc r (order_asc rows)

  abbrev pub is_after : Option ℕ → Row → Bool
  is_after none r = true
  is_after (some after_id) r = ltb after_id (id_of r)

  -- the rows that satisfy a test, from `after_id` on, at most `limit`
  unfoldable pub batch : (Row → Bool) → Option ℕ → ℕ → List Row → List Row
  batch p after_id limit rows = take limit (order_asc (keep (λ r. is_after after_id r && p r) rows))

  abbrev pub IsAsc : List Row → Type 0
  IsAsc [] = Unit
  IsAsc (r ∷ rows) = All (λ x. id_of r < id_of x) rows × IsAsc rows

  All-insert_asc :
      (P : Row → Type 0) (r : Row) (xs : List Row) → P r → All P xs → All P (insert_asc r xs)
  unfolding insert_asc
  All-insert_asc P r [] k h = (k, tt)
  All-insert_asc P r (x ∷ xs) k h = by_test (ltb (id_of r) (id_of x)) (All-insert_asc P r xs k h.1)
    where
      by_test :
          (b : Bool)
          → All P (insert_asc r xs)
          → All P (if b then r ∷ x ∷ xs else x ∷ insert_asc r xs)
      by_test true rest = (k, h)
      by_test false rest = (h.0, rest)

  pub All-order_asc : (P : Row → Type 0) (rows : List Row) → All P rows → All P (order_asc rows)
  unfolding order_asc
  All-order_asc P [] h = tt
  All-order_asc P (r ∷ rows) h = All-insert_asc P r (order_asc rows) h.0 (All-order_asc P rows h.1)

  insert_asc-IsAsc :
      (r : Row) (xs : List Row)
      → All (λ x. id_of x ≢ id_of r) xs
      → IsAsc xs
      → IsAsc (insert_asc r xs)
  unfolding insert_asc
  insert_asc-IsAsc r [] ne h = (tt, tt)
  insert_asc-IsAsc r (x ∷ xs) ne h =
      by_test (ltb (id_of r) (id_of x)) refl (insert_asc-IsAsc r xs ne.1 h.1)
    where
      by_test :
          (b : Bool)
          → ltb (id_of r) (id_of x) ≡ b
          → IsAsc (insert_asc r xs)
          → IsAsc (if b then r ∷ x ∷ xs else x ∷ insert_asc r xs)
      by_test true e rest = ((ground arith, All-map (λ y lt. ground arith) xs h.0), h)
      by_test false e rest =
          let apart = ne.0 in
          (All-insert_asc (λ y. id_of x < id_of y) r xs (ground arith) h.0, rest)

  pub order_asc-IsAsc : (rows : List Row) → IsDistinct id_of rows → IsAsc (order_asc rows)
  unfolding order_asc
  order_asc-IsAsc [] h = tt
  order_asc-IsAsc (r ∷ rows) h =
      insert_asc-IsAsc r (order_asc rows) (All-order_asc (λ x. id_of x ≢ id_of r) rows h.0)
        (order_asc-IsAsc rows h.1)

  insert_front :
      (r : Row) (xs : List Row) → All (λ x. id_of r < id_of x) xs → insert_asc r xs ≡ r ∷ xs
  unfolding insert_asc
  insert_front r [] h = refl
  insert_front r (x ∷ xs) h = let first = h.0 in ground arith

  keep-insert_asc :
      (p : Row → Bool) (r : Row) (xs : List Row)
      → IsAsc xs
      → keep p (insert_asc r xs) ≡ (if p r then insert_asc r (keep p xs) else keep p xs)
  unfolding insert_asc
  keep-insert_asc p r [] h = ground arith
  keep-insert_asc p r (x ∷ xs) h =
      let rest = keep-insert_asc p r xs h.1 in
      Bool-split (ltb (id_of r) (id_of x))
        (λ lt.
          let front = insert_front r (keep p xs) (
            All-keep id_of (λ y. id_of r < id_of y) p xs
              (All-map (λ y below. ground arith) xs h.0)) in
          ground arith)
        (λ ge. ground arith)

  pub keep-order_asc :
      (p : Row → Bool) (rows : List Row)
      → IsDistinct id_of rows
      → order_asc (keep p rows) ≡ keep p (order_asc rows)
  unfolding order_asc
  keep-order_asc p [] h = refl
  keep-order_asc p (r ∷ rows) h =
      let rest = keep-order_asc p rows h.1 in
      let inserted = keep-insert_asc p r (order_asc rows) (order_asc-IsAsc rows h.1) in ground arith

  abbrev pub last_from : ℕ → List Row → ℕ
  last_from i [] = i
  last_from i (r ∷ rows) = last_from (id_of r) rows

  -- in ascending rows, those above the last of the first `m` are the others
  pub above_last :
      (i m : ℕ) (xs : List Row)
      → IsAsc xs
      → All (λ x. i < id_of x) xs
      → (i ≤ last_from i (take m xs))
        × (keep (is_after (some (last_from i (take m xs)))) xs ≡ drop m xs)
  above_last i zero xs asc h =
      (omega arith, keep_all (is_after (some i)) xs (All-map (λ x lt. ground arith) xs h))
  above_last i (suc m) [] asc h = (omega arith, refl)
  above_last i (suc m) (x ∷ xs) asc h =
      let (le, rest) = above_last (id_of x) m xs asc.1 asc.0 in
      let first = h.0 in (omega (arith, le, first), ground arith)
