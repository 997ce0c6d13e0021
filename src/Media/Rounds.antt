-- ===== src/Media/Rounds.antt =====
-- app/domain/media/service.py: the rounds of a cleanup, each of which takes the rows after the last one.
use mathlib.Core.Path.{subst}
use kyjness_community_be.Prelude.{
  ℕ, zero, suc, ◌+◌, ◌≤◌, ◌<◌, ◌≡◌, refl, sym, ap, ◌∙◌, Bool, true, false, not, ◌&&◌, Option, some,
  List, [], ◌∷◌, ◌++◌, ltb, ◌==◌, map, keep, length, length-take, take, drop, take-append-drop, All,
  All-map, arith, Bool-split,
}
use kyjness_community_be.Text.{Text}
use kyjness_community_be.Db.Rows.{Db, Image}
use kyjness_community_be.Db.Sql.{delete_where}
use kyjness_community_be.Db.Keyset.{IsDistinct}
use kyjness_community_be.Db.Walk.{All_kept, take_all, length-drop}
use kyjness_community_be.Db.Ascending.{
  order_asc, is_after, batch, last_from, IsAsc, above_last, order_asc-IsAsc, keep-order_asc,
  All-order_asc,
}
use kyjness_community_be.Dogs.{mem_id}
use kyjness_community_be.Media.{delete_images_by_ids, forget_images}
use kyjness_community_be.Media.Batches.{
  id_of, All-take, delete_none, delete_twice, delete_where-keep, removed, keep-IsDistinct,
  deletable-append, failed-append, deletable-le, keep-delete, up_to_last, later, keep_both,
  empty_of_length,
}
use kyjness_community_be.Media.Cleanup.{
  Cleaned, deletable_ids, add_batch, clean_batch, keyset_cleanup,
}

module _ (p fails : Image → Bool) where
  -- the images that are left for the batches after `last`, in the order in which they come
  abbrev pub ahead : Option ℕ → List Image → List Image
  ahead last rows = order_asc id_of (keep (λ m. is_after id_of last m && p m) rows)

  ahead-IsAsc :
      (last : Option ℕ) (rows : List Image) → IsDistinct id_of rows → IsAsc id_of (ahead last rows)
  ahead-IsAsc last rows h =
      order_asc-IsAsc id_of _ (keep-IsDistinct (λ m. is_after id_of last m && p m) rows h)

  ahead_after :
      (last : Option ℕ) (rows : List Image)
      → All (λ m. is_after id_of last m ≡ true) (ahead last rows)
  ahead_after last rows =
      All-order_asc id_of (λ m. is_after id_of last m ≡ true) _
        (All-map (λ m e. ground arith) _ (All_kept (λ m. is_after id_of last m && p m) rows))

  -- after a batch that was full, the rest of the images is ahead
  next_ahead :
      (last : Option ℕ) (size : ℕ) (rows : List Image)
      → IsDistinct id_of rows
      → 1 ≤ size
      → 1 ≤ length (ahead last rows)
      → let now = take size (ahead last rows) in
        ahead
          (some (last_from id_of 0 now))
          (delete_where (λ m. mem_id (deletable_ids fails now) m.id) rows)
        ≡ drop size (ahead last rows)
  next_ahead last size rows distinct pos some_left =
      by_rows (ahead last rows) size refl (ahead-IsAsc last rows distinct) (ahead_after last rows)
        pos some_left
    where
      by_rows :
          (m : List Image) (n : ℕ)
          → ahead last rows ≡ m
          → IsAsc id_of m
          → All (λ r. is_after id_of last r ≡ true) m
          → 1 ≤ n
          → 1 ≤ length m
          → ahead
              (some (last_from id_of 0 (take n m)))
              (delete_where (λ r. mem_id (deletable_ids fails (take n m)) r.id) rows)
            ≡ drop n m
      by_rows m zero e asc after pos some_left = ground arith
      by_rows [] (suc n) e asc after pos some_left = ground arith
      by_rows (x ∷ xs) (suc n) e asc after pos some_left =
          let l : ℕ = last_from id_of x.id (take n xs) in
          let (le, rest) = above_last id_of x.id n xs asc.1 asc.0 in
          let below = up_to_last x.id n xs asc.1 asc.0 in
          let gone =
            keep-delete (λ m. is_after id_of (some l) m && p m)
              (deletable_ids fails (x ∷ take n xs))
              (λ m e. ground (arith, deletable-le fails l m.id (x ∷ take n xs) (le, below) e))
              rows in
          let narrowed =
            keep_both (is_after id_of (some l)) (λ m. is_after id_of last m && p m)
              (λ m. is_after id_of (some l) m && p m)
              (λ m. ground (arith, later last x m l after.0 le)) rows in
          let sorted =
            keep-order_asc id_of (is_after id_of (some l))
              (keep (λ m. is_after id_of last m && p m) rows)
              (keep-IsDistinct (λ m. is_after id_of last m && p m) rows distinct) in
          ap (order_asc id_of) (gone ∙ sym narrowed)
          ∙ sorted
          ∙ ap (keep (is_after id_of (some l))) e
          ∙ ground arith

  ahead_kept : (last : Option ℕ) (rows : List Image) → All (λ m. p m ≡ true) (ahead last rows)
  ahead_kept last rows =
      All-order_asc id_of (λ m. p m ≡ true) _
        (All-map (λ m e. ground arith) _ (All_kept (λ m. is_after id_of last m && p m) rows))

  module _ (size : ℕ) (rows : List Image) (d : Db) (next : Option ℕ → Db → Option Cleaned) where
    batch_empty :
        (length rows == 0) ≡ true
        → clean_batch fails size rows d next
          ≡ some (record { total_deleted = 0; failed_file_keys = []; tables = d })
    unfolding clean_batch
    batch_empty empty = rw empty refl

    batch_last :
        (length rows == 0) ≡ false
        → ltb (length rows) size ≡ true
        → let (n, d') = delete_images_by_ids (deletable_ids fails rows) d in
          clean_batch fails size rows d next
          ≡ some (record {
            total_deleted = n;
            failed_file_keys = map (λ m. m.file_key) (keep fails rows);
            tables = d';
          })
    unfolding clean_batch
    batch_last full last = rw (full, last) refl

    batch_full :
        (length rows == 0) ≡ false
        → ltb (length rows) size ≡ false
        → let (n, d') = delete_images_by_ids (deletable_ids fails rows) d in
          clean_batch fails size rows d next
          ≡ add_batch n
              (map (λ m. m.file_key) (keep fails rows))
              (next (some (last_from id_of 0 rows)) d')
    unfolding clean_batch
    batch_full full more = rw (full, more) refl

  -- `Q` is kept by the deletions, and makes the query a batch of the test's images.
  module _ (size : ℕ) (pos : 1 ≤ size) (fetch : Option ℕ → ℕ → Db → List Image) (Q : Db → Type 0)
      (fetched : (last : Option ℕ) (limit : ℕ) (d : Db)
        → Q d
        → fetch last limit d ≡ batch id_of p last limit d.images)
      (kept : (rows : List Image) (d : Db)
        → Q d
        → All (λ m. p m ≡ true) rows
        → Q (delete_images_by_ids (deletable_ids fails rows) d).1) where
    -- The images whose deletion in the storage worked are gone, the keys of the others are reported, and
    -- the number is that of the rows that went.
    abbrev pub IsCleaned : Option ℕ → List Image → Cleaned → Type 0
    IsCleaned last xs c =
        let todo = ahead last xs in
        (c.tables.images ≡ delete_where (λ m. mem_id (deletable_ids fails todo) m.id) xs)
        × (c.failed_file_keys ≡ map (λ m. m.file_key) (keep fails todo))
        × (c.total_deleted + length c.tables.images ≡ length xs)

    pub cleaned :
        (fuel : ℕ) (last : Option ℕ) (d : Db)
        → Q d
        → IsDistinct id_of d.images
        → length (ahead last d.images) < fuel
        → (c : Cleaned) × (keyset_cleanup fetch fails size fuel last d ≡ some c)
          × IsCleaned last d.images c
          × Q c.tables
    unfolding keyset_cleanup batch delete_images_by_ids forget_images
    cleaned zero last d q distinct enough = ground arith
    cleaned (suc fuel) last d q distinct enough =
        let xs = d.images in
        let todo = ahead last xs in
        let now = take size todo in
        let ids = deletable_ids fails now in
        let keys_of : List Image → List Text = λ t. map (λ m. m.file_key) (keep fails t) in
        let without : List Image → List Image → List Image =
          λ t rows. delete_where (λ m. mem_id (deletable_ids fails t) m.id) rows in
        let got : fetch last size d ≡ now = fetched last size d q in
        let next : Option ℕ → Db → Option Cleaned =
          λ i e. keyset_cleanup fetch fails size fuel i e in
        let stepped : clean_batch fails size (fetch last size d) d next
            ≡ clean_batch fails size now d next =
          ap (λ rows. clean_batch fails size rows d next) got in
        let count = length-take size todo in
        let gone = without now xs in
        let d' : Db = (delete_images_by_ids ids d).1 in
        let q' : Q d' = kept now d q (All-take (λ m. p m ≡ true) size todo (ahead_kept last xs)) in
        let n : ℕ = length (keep (λ m. mem_id ids m.id) xs) in
        let went : n + length gone ≡ length xs = removed (λ m. mem_id ids m.id) xs in
        Bool-split (length now == 0)
          (λ empty.
            let nothing = empty_of_length todo (ground arith) in
            (
              record { total_deleted = 0; failed_file_keys = []; tables = d },
              stepped ∙ batch_empty size now d next empty,
              (
                sym (ap (λ t. without t xs) nothing ∙ delete_none xs),
                ap keys_of (sym nothing),
                omega arith,
              ),
              q,
            ))
          (λ full.
            Bool-split (ltb (length now) size)
              (λ last_batch.
                let whole = take_all size todo (ground arith) in
                (
                  record { total_deleted = n; failed_file_keys = keys_of now; tables = d' },
                  stepped ∙ batch_last size now d next full last_batch,
                  (ap (λ t. without t xs) whole, ap keys_of whole, went),
                  q',
                ))
              (λ more.
                let next_rows = next_ahead last size xs distinct pos (ground arith) in
                let (c, ran, (tables, keys, total), q2) =
                  cleaned fuel (some (last_from id_of 0 now)) d' q'
                    (subst (IsDistinct id_of) (sym (delete_where-keep (λ m. mem_id ids m.id) xs))
                      (keep-IsDistinct (λ m. not (mem_id ids m.id)) xs distinct))
                    (rw next_rows (ground (arith, length-drop size todo))) in
                let whole = take-append-drop size todo in
                (
                  record c {
                    total_deleted = n + c.total_deleted;
                    failed_file_keys = keys_of now ++ c.failed_file_keys;
                  },
                  stepped
                      ∙ batch_full size now d next full more
                      ∙ ap (add_batch n (keys_of now)) ran,
                  (
                    tables
                        ∙ ap (λ t. without t gone) next_rows
                        ∙ delete_twice ids (deletable_ids fails (drop size todo)) xs
                        ∙ ap (λ l. delete_where (λ m. mem_id l m.id) xs)
                            (sym (deletable-append fails now (drop size todo))
                              ∙ ap (deletable_ids fails) whole),
                    ap (λ k. keys_of now ++ k) (keys ∙ ap keys_of next_rows)
                        ∙ sym (failed-append fails now (drop size todo))
                        ∙ ap keys_of whole,
                    omega (arith, total, went),
                  ),
                  q2,
                )))

-- the rows that the ids of the first batches' images name are those of the test
