-- ===== src/Media/Swept.antt =====
-- app/domain/media/service.py: `_keyset_cleanup` ends, and what it has deleted then.
use kyjness_community_be.Prelude.{
  ℕ, ◌+◌, ◌-◌, ◌*◌, ◌≤◌, ◌<◌, ◌≡◌, refl, ap, ◌∙◌, Bool, true, not, ◌&&◌, Option, none, some, List,
  ltb, map, keep, length, All, All-map, arith,
}
use kyjness_community_be.Db.Rows.{Db, Image, User, DogProfile, PostImage}
use kyjness_community_be.Db.Sql.{delete_where, update_where_none}
use kyjness_community_be.Db.Keyset.{IsDistinct}
use kyjness_community_be.Db.Ascending.{order_asc, is_after, batch}
use kyjness_community_be.Dogs.{mem_id}
use kyjness_community_be.Media.{
  delete_images_by_ids, forget_images, refers, hour, is_orphan, is_expired_signup,
  get_orphan_images_older_than, get_expired_signup_images,
}
use kyjness_community_be.Media.Batches.{
  id_of, unreferenced, delete_where_none, keep_both, delete_where_cong, delete_kept,
  mem_kept-order_asc, All_any, length-keep-le, length-order_asc,
}
use kyjness_community_be.Media.Cleanup.{
  Cleaned, deletable_ids, keyset_cleanup, LockCall, may_run, sweep_unused_images,
  cleanup_expired_signup_images,
}
use kyjness_community_be.Media.Rounds.{ahead, cleaned}

delete_ahead :
    (p fails : Image → Bool) (rows : List Image)
    → IsDistinct id_of rows
    → delete_where (λ m. mem_id (deletable_ids fails (ahead p fails none rows)) m.id) rows
      ≡ delete_where (λ m. p m && not (fails m)) rows
delete_ahead p fails rows distinct =
    delete_where_cong _ (λ m. mem_id (map (λ x. x.id) (keep (λ x. p x && not (fails x)) rows)) m.id)
      rows
      (All_any
        (λ m.
          mem_kept-order_asc (λ x. not (fails x)) m.id _
          ∙ ap (λ l. mem_id (map (λ (x : Image). x.id) l) m.id)
              (keep_both (λ x. not (fails x)) (λ x. is_after id_of none x && p x)
                (λ x. p x && not (fails x)) (λ x. ground arith) rows))
        rows)
    ∙ delete_kept (λ m. p m && not (fails m)) rows distinct

module _ (p fails : Image → Bool) (d : Db) where
  -- what a cleanup of the images of a test leaves and reports
  abbrev pub IsSweptOf : Cleaned → Type 0
  IsSweptOf c =
      (c.tables.images ≡ delete_where (λ m. p m && not (fails m)) d.images)
      × (c.failed_file_keys
          ≡ map (λ m. m.file_key) (keep fails (order_asc (λ m. m.id) (keep p d.images))))
      × (c.total_deleted + length c.tables.images ≡ length d.images)

  swept :
      (size fuel : ℕ) (fetch : Option ℕ → ℕ → Db → List Image) (Q : Db → Type 0)
      → ((last : Option ℕ) (limit : ℕ) (d' : Db)
          → Q d'
          → fetch last limit d' ≡ batch id_of p last limit d'.images)
      → ((rows : List Image) (d' : Db)
          → Q d'
          → All (λ m. p m ≡ true) rows
          → Q (delete_images_by_ids (deletable_ids fails rows) d').1)
      → 1 ≤ size
      → IsDistinct id_of d.images
      → length d.images < fuel
      → Q d
      → (c : Cleaned) × (keyset_cleanup fetch fails size fuel none d ≡ some c)
        × IsSweptOf c
        × Q c.tables
  swept size fuel fetch Q fetched kept pos distinct enough q =
      let (c, ran, (tables, keys, total), q') =
        cleaned p fails size pos fetch Q fetched kept fuel none d q distinct (
          omega (
            arith,
            length-order_asc (keep (λ m. is_after id_of none m && p m) d.images),
            length-keep-le (λ m. is_after id_of none m && p m) d.images,
            enough,
          )) in
      (c, ran, (tables ∙ delete_ahead p fails d.images distinct, keys, total), q')

-- the tables in which images are shown are those of `d`
abbrev pub ShowsAs : Db → Db → Type 0
ShowsAs d d' =
    (d'.users ≡ d.users) × (d'.dog_profiles ≡ d.dog_profiles) × (d'.post_images ≡ d.post_images)

-- to delete orphans leaves the tables in which images are shown alone
forget_orphans :
    (now : ℕ) (fails : Image → Bool) (d d' : Db) (rows : List Image)
    → ShowsAs d d'
    → All (λ m. (ltb m.created_at (now - 24 * hour) && is_orphan d m) ≡ true) rows
    → ShowsAs d (delete_images_by_ids (deletable_ids fails rows) d').1
unfolding delete_images_by_ids forget_images is_orphan
forget_orphans now fails d d' rows (users, dogs, images) orphans =
    let ids = deletable_ids fails rows in
    (
      update_where_none (λ (u : User). refers ids u.profile_image_id) _ d'.users
            (rw users (
              unreferenced (λ (u : User). u.profile_image_id) fails d.users rows
                (All-map (λ m e. ground arith) rows orphans)))
          ∙ users,
      update_where_none (λ (r : DogProfile). refers ids r.profile_image_id) _ d'.dog_profiles
            (rw dogs (
              unreferenced (λ (r : DogProfile). r.profile_image_id) fails d.dog_profiles rows
                (All-map (λ m e. ground arith) rows orphans)))
          ∙ dogs,
      delete_where_none (λ (r : PostImage). mem_id ids r.image_id) d'.post_images
            (rw images (
              unreferenced (λ (r : PostImage). some r.image_id) fails d.post_images rows
                (All-map (λ m e. ground arith) rows orphans)))
          ∙ images,
    )

module _ (lock : LockCall) (runs : may_run lock ≡ true) (fails : Image → Bool) (size fuel now : ℕ)
    (d : Db) (pos : 1 ≤ size) (distinct : IsDistinct (λ m. m.id) d.images)
    (enough : length d.images < fuel) where
  -- A job that gets its lock, or runs without one, where images have distinct ids: the job that sweeps
  -- unused images ends, in rounds of at least one image, after one round more than
  -- there are images at most: exactly the images that are older than a day and that no user, dog or post
  -- shows are gone, but for those that the storage fails to delete, whose keys are reported; users, dogs
  -- and posts show what they showed.
  pub sweep_unused_images_lem :
      (c : Cleaned) × (sweep_unused_images lock fails size fuel now d ≡ some c)
      × IsSweptOf (λ m. ltb m.created_at (now - 24 * hour) && is_orphan d m) fails d c
      × ShowsAs d c.tables
  unfolding sweep_unused_images get_orphan_images_older_than is_orphan
  sweep_unused_images_lem =
      let (c, ran, done, shown) =
        swept (λ m. ltb m.created_at (now - 24 * hour) && is_orphan d m) fails d size fuel
          (get_orphan_images_older_than 24 now) (ShowsAs d)
          (λ last limit d' (users, dogs, images). rw (users, dogs, images) refl)
          (λ rows d' shows orphans. forget_orphans now fails d d' rows shows orphans) pos distinct
          enough (refl, refl, refl) in
      (c, rw runs ran, done, shown)

  -- The job that cleans up after sign-ups ends likewise: exactly the images that nobody has claimed in
  -- the lifetime of their token are gone, but for those that the storage fails to delete.
  pub cleanup_expired_signup_images_lem :
      (ttl : ℕ)
      → (c : Cleaned) × (cleanup_expired_signup_images lock fails size fuel ttl now d ≡ some c)
        × IsSweptOf (is_expired_signup ttl now) fails d c
  unfolding cleanup_expired_signup_images get_expired_signup_images
  cleanup_expired_signup_images_lem ttl =
      let (c, ran, done, _) =
        swept (is_expired_signup ttl now) fails d size fuel (get_expired_signup_images ttl now)
          (λ _. Unit {0}) (λ last limit d' q. refl) (λ rows d' q e. tt) pos distinct enough tt in
      (c, rw runs ran, done)
