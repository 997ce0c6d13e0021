-- ===== src/Db/Walk.antt =====
-- Keyset pages: a client that follows the cursors sees every row once, the newest first.
use kyjness_community_be.Prelude.{
  ℕ, zero, suc, ◌-◌, ◌≤◌, ◌<◌, ◌≡◌, refl, sym, ap, ◌∙◌, Bool, true, false, Option, none, some, List,
  [], ◌∷◌, if◌then◌else◌, length, length-take, take, drop, keep, All, All-map, ltb, ltb→lt, arith,
  Bool-split, take-append-drop,
}
use kyjness_community_be.Db.Keyset.{
  order_desc, is_before, page, last_id, walk, IsDistinct, IsDesc, order_desc-IsDesc,
  keep-order_desc, All-keep,
}

module _ {A : Type 0} where
  take-take-suc : (n : ℕ) (xs : List A) → take n (take (suc n) xs) ≡ take n xs
  take-take-suc zero xs = refl
  take-take-suc (suc n) [] = refl
  take-take-suc (suc n) (x ∷ xs) = ap (◌∷◌ x) (take-take-suc n xs)

  pub take_all : (n : ℕ) (xs : List A) → length xs ≤ n → take n xs ≡ xs
  take_all zero [] h = refl
  take_all zero (x ∷ xs) h = ground arith
  take_all (suc n) [] h = refl
  take_all (suc n) (x ∷ xs) h = ap (◌∷◌ x) (take_all n xs (omega arith))

  pub length-drop : (n : ℕ) (xs : List A) → length (drop n xs) ≡ length xs - n
  length-drop zero xs = omega arith
  length-drop (suc n) [] = omega arith
  length-drop (suc n) (x ∷ xs) = omega (arith, length-drop n xs)

  pub keep_all : (p : A → Bool) (xs : List A) → All (λ x. p x ≡ true) xs → keep p xs ≡ xs
  keep_all p [] h = refl
  keep_all p (x ∷ xs) h = let first = h.0 in ground (arith, keep_all p xs h.1)

  pub keep_narrow :
      (q p : A → Bool) (xs : List A)
      → ((x : A) → q x ≡ true → p x ≡ true)
      → keep q (keep p xs) ≡ keep q xs
  keep_narrow q p [] h = refl
  keep_narrow q p (x ∷ xs) h = ground (arith, h x, keep_narrow q p xs h)

  pub All_kept : (p : A → Bool) (xs : List A) → All (λ x. p x ≡ true) (keep p xs)
  All_kept p [] = tt
  All_kept p (x ∷ xs) = by_test (p x) refl (All_kept p xs)
    where
      by_test :
          (b : Bool)
          → p x ≡ b
          → All (λ x. p x ≡ true) (keep p xs)
          → All (λ x. p x ≡ true) (if b then x ∷ keep p xs else keep p xs)
      by_test true e rest = (e, rest)
      by_test false e rest = rest

module _ {Row : Type 0} (id_of : Row → ℕ) where
  -- in descending rows, those below the last of the first `m` are the others
  below_last :
      (i m : ℕ) (xs : List Row)
      → IsDesc id_of xs
      → All (λ x. id_of x < i) xs
      → (last_id id_of i (take m xs) ≤ i)
        × (keep (is_before id_of (some (last_id id_of i (take m xs)))) xs ≡ drop m xs)
  below_last i zero xs desc h =
      (omega arith, keep_all (is_before id_of (some i)) xs (All-map (λ x lt. ground arith) xs h))
  below_last i (suc m) [] desc h = (omega arith, refl)
  below_last i (suc m) (x ∷ xs) desc h =
      let (le, rest) = below_last (id_of x) m xs desc.1 desc.0 in
      let first = h.0 in (omega (arith, le, first), ground arith)

  keep-IsDesc : (p : Row → Bool) (xs : List Row) → IsDesc id_of xs → IsDesc id_of (keep p xs)
  keep-IsDesc p [] h = tt
  keep-IsDesc p (x ∷ xs) h = by_test (p x) (keep-IsDesc p xs h.1)
    where
      by_test :
          (b : Bool)
          → IsDesc id_of (keep p xs)
          → IsDesc id_of (if b then x ∷ keep p xs else keep p xs)
      by_test true rest = (All-keep id_of (λ y. id_of y < id_of x) p xs h.0, rest)
      by_test false rest = rest

  abbrev left : Option ℕ → List Row → List Row
  left cursor rows = keep (is_before id_of cursor) (order_desc id_of rows)

  page_lem :
      (cursor : Option ℕ) (size : ℕ) (rows : List Row)
      → IsDistinct id_of rows
      → page id_of cursor size rows
        ≡ (take size (left cursor rows), ltb size (length (left cursor rows)))
  unfolding page
  page_lem cursor size rows distinct =
      let sorted = keep-order_desc id_of (is_before id_of cursor) rows distinct in
      let shown = take-take-suc size (left cursor rows) in
      let size_of = length-take (suc size) (left cursor rows) in
      rw (sorted, shown, size_of) (ground arith)

  earlier :
      (c : Option ℕ) (x y : Row) (l : ℕ)
      → is_before id_of c x ≡ true
      → l ≤ id_of x
      → ltb (id_of y) l ≡ true
      → is_before id_of c y ≡ true
  earlier none x y l b le lt = refl
  earlier (some c) x y l b le lt = ground arith

  next_left :
      (cursor : Option ℕ) (size : ℕ) (rows : List Row)
      → IsDistinct id_of rows
      → 1 ≤ size
      → size < length (left cursor rows)
      → left (some (last_id id_of 0 (take size (left cursor rows)))) rows
        ≡ drop size (left cursor rows)
  next_left cursor size rows distinct pos more =
      by_rows (left cursor rows) size refl
        (keep-IsDesc (is_before id_of cursor) (order_desc id_of rows)
          (order_desc-IsDesc id_of rows distinct))
        (All_kept (is_before id_of cursor) (order_desc id_of rows)) pos more
    where
      by_rows :
          (m : List Row) (n : ℕ)
          → left cursor rows ≡ m
          → IsDesc id_of m
          → All (λ r. is_before id_of cursor r ≡ true) m
          → 1 ≤ n
          → n < length m
          → left (some (last_id id_of 0 (take n m))) rows ≡ drop n m
      by_rows m zero e desc before pos more = ground arith
      by_rows [] (suc n) e desc before pos more = ground arith
      by_rows (x ∷ xs) (suc n) e desc before pos more =
          let (le, rest) = below_last (id_of x) n xs desc.1 desc.0 in
          let narrowed =
            keep_narrow (is_before id_of (some (last_id id_of (id_of x) (take n xs))))
              (is_before id_of cursor) (order_desc id_of rows)
              (λ y lt. earlier cursor x y (last_id id_of (id_of x) (take n xs)) before.0 le lt) in
          sym narrowed
          ∙ ap (keep (is_before id_of (some (last_id id_of (id_of x) (take n xs))))) e
          ∙ ground arith

  walk-left :
      (fuel : ℕ) (cursor : Option ℕ) (size : ℕ) (rows : List Row)
      → IsDistinct id_of rows
      → 1 ≤ size
      → length (left cursor rows) < fuel
      → walk id_of fuel cursor size rows ≡ left cursor rows
  unfolding walk
  walk-left zero cursor size rows distinct pos enough = ground arith
  walk-left (suc fuel) cursor size rows distinct pos enough =
      let shown = page_lem cursor size rows distinct in
      Bool-split (ltb size (length (left cursor rows)))
        (λ more.
          let next = next_left cursor size rows distinct pos (ground arith) in
          let rest =
            walk-left fuel (some (last_id id_of 0 (take size (left cursor rows)))) size rows
              distinct pos
              (rw next (
                omega (
                  arith,
                  length-drop size (left cursor rows),
                  ltb→lt size (length (left cursor rows)) more,
                ))) in
          let whole = take-append-drop size (left cursor rows) in ground arith)
        (λ last. let whole = take_all size (left cursor rows) (ground arith) in ground arith)

  -- With rows of distinct ids and pages of at least one row, a client that follows the cursors for as
  -- many pages as there are rows, and one, is shown every row, the highest id first, and no row twice.
  pub walk_lem :
      (size : ℕ) (rows : List Row)
      → IsDistinct id_of rows
      → 1 ≤ size
      → walk id_of (suc (length (order_desc id_of rows))) none size rows ≡ order_desc id_of rows
  walk_lem size rows distinct pos =
      let all =
        keep_all (is_before id_of none) (order_desc id_of rows) (every (order_desc id_of rows)) in
      walk-left (suc (length (order_desc id_of rows))) none size rows distinct pos
        (rw all (omega arith))
      ∙ all
    where
      every : (xs : List Row) → All (λ x. is_before id_of none x ≡ true) xs
      every [] = tt
      every (x ∷ xs) = (refl, every xs)
