-- ===== src/Media/Batches.antt =====
-- Lists of images under deletion and in batches, for `_keyset_cleanup` (app/domain/media/service.py).
use kyjness_community_be.Prelude.{
  ℕ, zero, suc, ◌+◌, ◌≤◌, ◌<◌, ◌≡◌, ◌≢◌, refl, ap, ◌∙◌, Bool, true, false, not, ◌&&◌, ◌||◌, Option,
  none, some, List, [], ◌∷◌, ◌++◌, if◌then◌else◌, map, keep, length, take, All, All-map, arith,
  Bool-split, Option-cases, inl, inr, any_of, opt_eq,
}
use kyjness_community_be.Db.Rows.{Image}
use kyjness_community_be.Db.Sql.{delete_where}
use kyjness_community_be.Db.Keyset.{IsDistinct, All-keep}
use kyjness_community_be.Db.Ascending.{
  insert_asc, order_asc, is_after, last_from, IsAsc, above_last,
}
use kyjness_community_be.Dogs.{mem_id}
use kyjness_community_be.Media.{refers}
use kyjness_community_be.Media.Cleanup.{deletable_ids}

abbrev pub id_of : Image → ℕ
id_of m = m.id

pub mem_id-append : (i : ℕ) (xs ys : List ℕ) → mem_id (xs ++ ys) i ≡ (mem_id xs i || mem_id ys i)
mem_id-append i [] ys = refl
mem_id-append i (j ∷ xs) ys = ground (arith, mem_id-append i xs ys)

pub delete_none : (rows : List Image) → delete_where (λ m. mem_id [] m.id) rows ≡ rows
unfolding delete_where
delete_none [] = refl
delete_none (m ∷ rows) = ap (◌∷◌ m) (delete_none rows)

pub delete_twice :
    (xs ys : List ℕ) (rows : List Image)
    → delete_where (λ m. mem_id ys m.id) (delete_where (λ m. mem_id xs m.id) rows)
      ≡ delete_where (λ m. mem_id (xs ++ ys) m.id) rows
unfolding delete_where
delete_twice xs ys [] = refl
delete_twice xs ys (m ∷ rows) = ground (arith, mem_id-append m.id xs ys, delete_twice xs ys rows)

pub delete_where-keep :
    (p : Image → Bool) (rows : List Image) → delete_where p rows ≡ keep (λ m. not (p m)) rows
unfolding delete_where
delete_where-keep p [] = refl
delete_where-keep p (m ∷ rows) = ground (arith, delete_where-keep p rows)

-- what DELETE removes and what it leaves
pub removed :
    (p : Image → Bool) (rows : List Image)
    → length (keep p rows) + length (delete_where p rows) ≡ length rows
unfolding delete_where
removed p [] = omega arith
removed p (m ∷ rows) = ground (arith, removed p rows)

pub keep-IsDistinct :
    (p : Image → Bool) (rows : List Image) → IsDistinct id_of rows → IsDistinct id_of (keep p rows)
keep-IsDistinct p [] h = tt
keep-IsDistinct p (m ∷ rows) h = by_test (p m) (keep-IsDistinct p rows h.1)
  where
    by_test :
        (b : Bool)
        → IsDistinct id_of (keep p rows)
        → IsDistinct id_of (if b then m ∷ keep p rows else keep p rows)
    by_test true rest = (All-keep id_of (λ x. x.id ≢ m.id) p rows h.0, rest)
    by_test false rest = rest

pub deletable-append :
    (fails : Image → Bool) (xs ys : List Image)
    → deletable_ids fails (xs ++ ys) ≡ deletable_ids fails xs ++ deletable_ids fails ys
deletable-append fails [] ys = refl
deletable-append fails (m ∷ xs) ys = ground (arith, deletable-append fails xs ys)

pub failed-append :
    (fails : Image → Bool) (xs ys : List Image)
    → map (λ m. m.file_key) (keep fails (xs ++ ys))
      ≡ map (λ m. m.file_key) (keep fails xs) ++ map (λ m. m.file_key) (keep fails ys)
failed-append fails [] ys = refl
failed-append fails (m ∷ xs) ys = ground (arith, failed-append fails xs ys)

pub deletable-le :
    (fails : Image → Bool) (l i : ℕ) (rows : List Image)
    → All (λ m. m.id ≤ l) rows
    → mem_id (deletable_ids fails rows) i ≡ true
    → i ≤ l
deletable-le fails l i [] h e = ground arith
deletable-le fails l i (m ∷ rows) h e =
    let first = h.0 in ground (arith, deletable-le fails l i rows h.1)

-- a DELETE of rows that a test is false of leaves the rows of the test
pub keep-delete :
    (q : Image → Bool) (ids : List ℕ)
    → ((m : Image) → mem_id ids m.id ≡ true → q m ≡ false)
    → (rows : List Image) → keep q (delete_where (λ m. mem_id ids m.id) rows) ≡ keep q rows
unfolding delete_where
keep-delete q ids h [] = refl
keep-delete q ids h (m ∷ rows) = ground (arith, h m, keep-delete q ids h rows)

pub up_to_last :
    (i n : ℕ) (xs : List Image)
    → IsAsc id_of xs
    → All (λ m. i < m.id) xs
    → All (λ m. m.id ≤ last_from id_of i (take n xs)) (take n xs)
up_to_last i zero xs asc h = tt
up_to_last i (suc n) [] asc h = tt
up_to_last i (suc n) (m ∷ xs) asc h =
    let (le, _) = above_last id_of m.id n xs asc.1 asc.0 in (le, up_to_last m.id n xs asc.1 asc.0)

pub later :
    (c : Option ℕ) (x y : Image) (l : ℕ)
    → is_after id_of c x ≡ true
    → x.id ≤ l
    → is_after id_of (some l) y ≡ true
    → is_after id_of c y ≡ true
later none x y l b le gt = refl
later (some c) x y l b le gt = ground arith

pub keep_both :
    (q r both : Image → Bool)
    → ((m : Image) → both m ≡ (q m && r m))
    → (rows : List Image) → keep q (keep r rows) ≡ keep both rows
keep_both q r both h [] = refl
keep_both q r both h (m ∷ rows) = ground (arith, h m, keep_both q r both h rows)

pub empty_of_length : (xs : List Image) → length xs ≡ 0 → xs ≡ []
empty_of_length [] h = refl
empty_of_length (m ∷ xs) h = ground arith

pub delete_where_cong :
    (a b : Image → Bool) (rows : List Image)
    → All (λ m. a m ≡ b m) rows
    → delete_where a rows ≡ delete_where b rows
unfolding delete_where
delete_where_cong a b [] h = refl
delete_where_cong a b (m ∷ rows) h =
    let first = h.0 in ground (arith, delete_where_cong a b rows h.1)

pub mem_kept_other :
    (q : Image → Bool) (i : ℕ) (rows : List Image)
    → All (λ m. m.id ≢ i) rows
    → mem_id (map (λ m. m.id) (keep q rows)) i ≡ false
mem_kept_other q i [] h = refl
mem_kept_other q i (m ∷ rows) h = let first = h.0 in ground (arith, mem_kept_other q i rows h.1)

-- with distinct ids, to delete the ids of the rows of a test is to delete the rows of the test
pub delete_kept :
    (q : Image → Bool) (rows : List Image)
    → IsDistinct id_of rows
    → delete_where (λ m. mem_id (map (λ x. x.id) (keep q rows)) m.id) rows ≡ delete_where q rows
unfolding delete_where
delete_kept q [] h = refl
delete_kept q (m ∷ rows) h =
    let here = mem_kept_other q m.id rows h.0 in
    let ids = map (λ (x : Image). x.id) (keep q rows) in
    let rest =
      delete_where_cong (λ x. mem_id (map (λ y. y.id) (keep q (m ∷ rows))) x.id)
        (λ x. mem_id ids x.id) rows (All-map (λ x ne. ground arith) rows h.0)
      ∙ delete_kept q rows h.1 in
    ground arith

pub mem_kept-insert_asc :
    (q : Image → Bool) (i : ℕ) (m : Image) (rows : List Image)
    → mem_id (map (λ x. x.id) (keep q (insert_asc id_of m rows))) i
      ≡ mem_id (map (λ x. x.id) (keep q (m ∷ rows))) i
unfolding insert_asc
mem_kept-insert_asc q i m [] = refl
mem_kept-insert_asc q i m (x ∷ rows) = ground (arith, mem_kept-insert_asc q i m rows)

pub mem_kept-order_asc :
    (q : Image → Bool) (i : ℕ) (rows : List Image)
    → mem_id (map (λ x. x.id) (keep q (order_asc id_of rows))) i
      ≡ mem_id (map (λ x. x.id) (keep q rows)) i
unfolding order_asc
mem_kept-order_asc q i [] = refl
mem_kept-order_asc q i (m ∷ rows) =
    let rest = mem_kept-order_asc q i rows in
    mem_kept-insert_asc q i m (order_asc id_of rows) ∙ ground arith

pub All_any {κ} : {P : Image → Type κ} → ((m : Image) → P m) → (rows : List Image) → All P rows
All_any f [] = tt
All_any f (m ∷ rows) = (f m, All_any f rows)

pub length-keep-le : (p : Image → Bool) (rows : List Image) → length (keep p rows) ≤ length rows
length-keep-le p [] = omega arith
length-keep-le p (m ∷ rows) = ground (arith, length-keep-le p rows)

pub length-insert_asc :
    (m : Image) (rows : List Image) → length (insert_asc id_of m rows) ≡ suc (length rows)
unfolding insert_asc
length-insert_asc m [] = refl
length-insert_asc m (x ∷ rows) = ground (arith, length-insert_asc m rows)

pub length-order_asc : (rows : List Image) → length (order_asc id_of rows) ≡ length rows
unfolding order_asc
length-order_asc [] = refl
length-order_asc (m ∷ rows) =
    omega (arith, length-insert_asc m (order_asc id_of rows), length-order_asc rows)

pub All-take : (P : Image → Type 0) (n : ℕ) (rows : List Image) → All P rows → All P (take n rows)
All-take P zero rows h = tt
All-take P (suc n) [] h = tt
All-take P (suc n) (m ∷ rows) h = (h.0, All-take P n rows h.1)

module _ {Row : Type 0} where
  pub delete_where_none :
      (p : Row → Bool) (rows : List Row) → any_of p rows ≡ false → delete_where p rows ≡ rows
  unfolding delete_where
  delete_where_none p [] e = refl
  delete_where_none p (r ∷ rows) e = ground (arith, delete_where_none p rows)

  refers-cons :
      (f : Row → Option ℕ) (i : ℕ) (ids : List ℕ) (rows : List Row)
      → any_of (λ r. opt_eq (f r) i) rows ≡ false
      → any_of (λ r. refers ids (f r)) rows ≡ false
      → any_of (λ r. refers (i ∷ ids) (f r)) rows ≡ false
  refers-cons f i ids [] h k = refl
  refers-cons f i ids (r ∷ rows) h k = elim (Option-cases (f r)) [
    | inl e ↦ ground (arith, refers-cons f i ids rows)
    | inr (j, e) ↦ ground (arith, refers-cons f i ids rows)
  ]

  refers_nothing :
      (f : Row → Option ℕ) (rows : List Row) → any_of (λ r. refers [] (f r)) rows ≡ false
  refers_nothing f [] = refl
  refers_nothing f (r ∷ rows) = elim (Option-cases (f r)) [
    | inl e ↦ ground (arith, refers_nothing f rows)
    | inr (j, e) ↦ ground (arith, refers_nothing f rows)
  ]

  -- rows that show none of the images show none of those that are deleted
  pub unreferenced :
      (f : Row → Option ℕ) (fails : Image → Bool) (rows : List Row) (images : List Image)
      → All (λ m. any_of (λ r. opt_eq (f r) m.id) rows ≡ false) images
      → any_of (λ r. refers (deletable_ids fails images) (f r)) rows ≡ false
  unreferenced f fails rows [] h = refers_nothing f rows
  unreferenced f fails rows (m ∷ images) h =
      let rest = unreferenced f fails rows images h.1 in
      Bool-split (fails m) (λ failed. ground arith)
        (λ went.
          let cons = refers-cons f m.id (deletable_ids fails images) rows h.0 rest in ground arith)
