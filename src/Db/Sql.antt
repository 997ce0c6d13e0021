-- ===== src/Db/Sql.antt =====
-- The SQL statements that the code builds: SELECT ... WHERE is `keep` of the Prelude, and UPDATE and
-- DELETE are here, with the lemmas on how they change a count.
use kyjness_community_be.Prelude.{
  ◌+◌, ◌≤◌, ◌≡◌, refl, Bool, true, false, Option, none, some, List, [], ◌∷◌, ◌++◌, if◌then◌else◌,
  keep, head?, count_if, any_of, All, length, map, arith,
}

module _ {Row : Type 0} where
  -- UPDATE ... SET ... WHERE
  unfoldable pub update_where : (Row → Bool) → (Row → Row) → List Row → List Row
  update_where p f [] = []
  update_where p f (r ∷ rows) = (if p r then f r else r) ∷ update_where p f rows

  -- DELETE FROM ... WHERE
  unfoldable pub delete_where : (Row → Bool) → List Row → List Row
  delete_where p [] = []
  delete_where p (r ∷ rows) = if p r then delete_where p rows else r ∷ delete_where p rows

  -- `scalar_one_or_none()` where a key allows one row at most
  unfoldable pub one_or_none : (Row → Bool) → List Row → Option Row
  one_or_none p rows = head? (keep p rows)

  pub length-update_where :
      (p : Row → Bool) (f : Row → Row) (rows : List Row)
      → length (update_where p f rows) ≡ length rows
  unfolding update_where
  length-update_where p f [] = refl
  length-update_where p f (r ∷ rows) = omega (arith, length-update_where p f rows)

  -- an UPDATE that leaves a test alone leaves its count alone
  pub count_if-update_where :
      (q p : Row → Bool) (f : Row → Row)
      → ((r : Row) → q (f r) ≡ q r)
      → (rows : List Row) → count_if q (update_where p f rows) ≡ count_if q rows
  unfolding update_where
  count_if-update_where q p f same [] = refl
  count_if-update_where q p f same (r ∷ rows) =
      ground (arith, same r, count_if-update_where q p f same rows)

  pub count_if-delete_where-le :
      (q p : Row → Bool) (rows : List Row) → count_if q (delete_where p rows) ≤ count_if q rows
  unfolding delete_where
  count_if-delete_where-le q p [] = omega arith
  count_if-delete_where-le q p (r ∷ rows) = ground (arith, count_if-delete_where-le q p rows)

  -- what DELETE leaves, and the rows that satisfied both tests, make up the count
  pub count_if-delete_where :
      (q p : Row → Bool) (rows : List Row)
      → count_if q (delete_where p rows) + count_if q (keep p rows) ≡ count_if q rows
  unfolding delete_where
  count_if-delete_where q p [] = refl
  count_if-delete_where q p (r ∷ rows) = ground (arith, count_if-delete_where q p rows)

  -- an UPDATE after which a test is false takes the rows it reached out of the count of the test
  pub count_if-hide :
      (q p : Row → Bool) (f : Row → Row)
      → ((r : Row) → q (f r) ≡ false)
      → (rows : List Row)
      → count_if q (update_where p f rows) + count_if q (keep p rows) ≡ count_if q rows
  unfolding update_where
  count_if-hide q p f off [] = refl
  count_if-hide q p f off (r ∷ rows) = ground (arith, off r, count_if-hide q p f off rows)

  pub any_of-update_where :
      (q p : Row → Bool) (f : Row → Row)
      → ((r : Row) → q (f r) ≡ q r)
      → (rows : List Row) → any_of q (update_where p f rows) ≡ any_of q rows
  unfolding update_where
  any_of-update_where q p f same [] = refl
  any_of-update_where q p f same (r ∷ rows) =
      ground (arith, same r, any_of-update_where q p f same rows)

  -- a column that an UPDATE does not set
  pub map-update_where :
      {A : Type 0} (column : Row → A) (p : Row → Bool) (f : Row → Row)
      → ((r : Row) → column (f r) ≡ column r)
      → (rows : List Row) → map column (update_where p f rows) ≡ map column rows
  unfolding update_where
  map-update_where column p f same [] = refl
  map-update_where column p f same (r ∷ rows) =
      ground (arith, same r, map-update_where column p f same rows)

  pub update_where_none :
      (p : Row → Bool) (f : Row → Row) (rows : List Row)
      → any_of p rows ≡ false
      → update_where p f rows ≡ rows
  unfolding update_where
  update_where_none p f [] e = refl
  update_where_none p f (r ∷ rows) e = ground (arith, update_where_none p f rows)

  -- an UPDATE that reaches each row of a test, and leaves it false, leaves no row of the test
  pub any_of-hide :
      (q p : Row → Bool) (f : Row → Row)
      → ((r : Row) → q (f r) ≡ false)
      → ((r : Row) → p r ≡ false → q r ≡ false)
      → (rows : List Row) → any_of q (update_where p f rows) ≡ false
  unfolding update_where
  any_of-hide q p f off all [] = refl
  any_of-hide q p f off all (r ∷ rows) =
      ground (arith, off r, all r, any_of-hide q p f off all rows)

  pub All-update_where :
      (P : Row → Type 0) (p : Row → Bool) (f : Row → Row)
      → ((r : Row) → P r → P (f r))
      → (rows : List Row) → All P rows
      → All P (update_where p f rows)
  unfolding update_where
  All-update_where P p f keeps [] h = tt
  All-update_where P p f keeps (r ∷ rows) h = (one (p r), All-update_where P p f keeps rows h.1)
    where
      one : (b : Bool) → P (if b then f r else r)
      one true = keeps r h.0
      one false = h.0

  pub All-snoc :
      (P : Row → Type 0) (rows : List Row) (r : Row) → All P rows → P r → All P (rows ++ r ∷ [])
  All-snoc P [] r h k = (k, tt)
  All-snoc P (x ∷ rows) r h k = (h.0, All-snoc P rows r h.1 k)

  -- `... RETURNING` of a statement that reaches one row at most: the row as the statement leaves it
  unfoldable pub returning : (Row → Bool) → (Row → Row) → List Row → Option Row
  returning p f rows = elim (one_or_none p rows) [ none ↦ none | some r ↦ some (f r) ]
