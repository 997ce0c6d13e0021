-- ===== src/Db/Keyset.antt =====
-- Keyset pages: WHERE id < cursor ORDER BY id DESC LIMIT size + 1, of which the last row only says that
-- there is more. Notifications, posts and the latest comments are listed so.
use kyjness_community_be.Prelude.{
  ℕ, zero, suc, ◌<◌, ◌≡◌, ◌≢◌, refl, Bool, true, false, Option, none, some, List, [], ◌∷◌, ◌++◌,
  if◌then◌else◌, length, take, keep, All, All-map, ltb, arith, Bool-split,
}

module _ {Row : Type 0} (id_of : Row → ℕ) where
  unfoldable pub insert_desc : Row → List Row → List Row
  insert_desc r [] = r ∷ []
  insert_desc r (x ∷ xs) =
      let rest = insert_desc r xs in if ltb (id_of x) (id_of r) then r ∷ x ∷ xs else x ∷ rest

  -- ORDER BY id DESC
  unfoldable pub order_desc : List Row → List Row
  order_desc [] = []
  order_desc (r ∷ rows) = insert_desc r (order_desc rows)

  abbrev pub is_before : Option ℕ → Row → Bool
  is_before none r = true
  is_before (some cursor) r = ltb (id_of r) cursor

  -- the rows of a page, and whether there are more
  unfoldable pub page : Option ℕ → ℕ → List Row → List Row × Bool
  page cursor size rows =
      let fetched = take (suc size) (order_desc (keep (is_before cursor) rows)) in
      (take size fetched, ltb size (length fetched))

  abbrev pub last_id : ℕ → List Row → ℕ
  last_id i [] = i
  last_id i (r ∷ rows) = last_id (id_of r) rows

  -- A client that asks for page after page, with the last id it has seen as the cursor.
  unfoldable pub walk : ℕ → Option ℕ → ℕ → List Row → List Row
  walk zero cursor size rows = []
  walk (suc fuel) cursor size rows =
      let (shown, more) = page cursor size rows in
      let rest = walk fuel (some (last_id 0 shown)) size rows in
      if more then shown ++ rest else shown

  abbrev pub IsDistinct : List Row → Type 0
  IsDistinct [] = Unit
  IsDistinct (r ∷ rows) = All (λ x. id_of x ≢ id_of r) rows × IsDistinct rows

  abbrev pub IsDesc : List Row → Type 0
  IsDesc [] = Unit
  IsDesc (r ∷ rows) = All (λ x. id_of x < id_of r) rows × IsDesc rows

  All-insert_desc :
      (P : Row → Type 0) (r : Row) (xs : List Row) → P r → All P xs → All P (insert_desc r xs)
  unfolding insert_desc
  All-insert_desc P r [] k h = (k, tt)
  All-insert_desc P r (x ∷ xs) k h =
      by_test (ltb (id_of x) (id_of r)) (All-insert_desc P r xs k h.1)
    where
      by_test :
          (b : Bool)
          → All P (insert_desc r xs)
          → All P (if b then r ∷ x ∷ xs else x ∷ insert_desc r xs)
      by_test true rest = (k, h)
      by_test false rest = (h.0, rest)

  pub All-order_desc : (P : Row → Type 0) (rows : List Row) → All P rows → All P (order_desc rows)
  unfolding order_desc
  All-order_desc P [] h = tt
  All-order_desc P (r ∷ rows) h =
      All-insert_desc P r (order_desc rows) h.0 (All-order_desc P rows h.1)

  insert_desc-IsDesc :
      (r : Row) (xs : List Row)
      → All (λ x. id_of x ≢ id_of r) xs
      → IsDesc xs
      → IsDesc (insert_desc r xs)
  unfolding insert_desc
  insert_desc-IsDesc r [] ne h = (tt, tt)
  insert_desc-IsDesc r (x ∷ xs) ne h =
      by_test (ltb (id_of x) (id_of r)) refl (insert_desc-IsDesc r xs ne.1 h.1)
    where
      by_test :
          (b : Bool)
          → ltb (id_of x) (id_of r) ≡ b
          → IsDesc (insert_desc r xs)
          → IsDesc (if b then r ∷ x ∷ xs else x ∷ insert_desc r xs)
      by_test true e rest = ((ground arith, All-map (λ y lt. ground arith) xs h.0), h)
      by_test false e rest =
          let apart = ne.0 in
          (All-insert_desc (λ y. id_of y < id_of x) r xs (ground arith) h.0, rest)

  pub order_desc-IsDesc : (rows : List Row) → IsDistinct rows → IsDesc (order_desc rows)
  unfolding order_desc
  order_desc-IsDesc [] h = tt
  order_desc-IsDesc (r ∷ rows) h =
      insert_desc-IsDesc r (order_desc rows) (All-order_desc (λ x. id_of x ≢ id_of r) rows h.0)
        (order_desc-IsDesc rows h.1)

  insert_front :
      (r : Row) (xs : List Row) → All (λ x. id_of x < id_of r) xs → insert_desc r xs ≡ r ∷ xs
  unfolding insert_desc
  insert_front r [] h = refl
  insert_front r (x ∷ xs) h = let first = h.0 in ground arith

  pub All-keep : (P : Row → Type 0) (p : Row → Bool) (xs : List Row) → All P xs → All P (keep p xs)
  All-keep P p [] h = tt
  All-keep P p (x ∷ xs) h = by_test (p x) (All-keep P p xs h.1)
    where
      by_test : (b : Bool) → All P (keep p xs) → All P (if b then x ∷ keep p xs else keep p xs)
      by_test true rest = (h.0, rest)
      by_test false rest = rest

  keep-insert_desc :
      (p : Row → Bool) (r : Row) (xs : List Row)
      → IsDesc xs
      → keep p (insert_desc r xs) ≡ (if p r then insert_desc r (keep p xs) else keep p xs)
  unfolding insert_desc
  keep-insert_desc p r [] h = ground arith
  keep-insert_desc p r (x ∷ xs) h =
      let rest = keep-insert_desc p r xs h.1 in
      Bool-split (ltb (id_of x) (id_of r))
        (λ lt.
          let front =
            insert_front r (keep p xs)
              (All-keep (λ y. id_of y < id_of r) p xs (All-map (λ y below. ground arith) xs h.0)) in
          ground arith)
        (λ ge. ground arith)

  pub keep-order_desc :
      (p : Row → Bool) (rows : List Row)
      → IsDistinct rows
      → order_desc (keep p rows) ≡ keep p (order_desc rows)
  unfolding order_desc
  keep-order_desc p [] h = refl
  keep-order_desc p (r ∷ rows) h =
      let rest = keep-order_desc p rows h.1 in
      let inserted = keep-insert_desc p r (order_desc rows) (order_desc-IsDesc rows h.1) in
      ground arith
