-- ===== src/Media/Cleanup.antt =====
-- app/domain/media/service.py: `_keyset_cleanup` and the two jobs that run it under a lock. Which
-- deletions of the storage raise is an argument, and so is how the lock's call ends.
use kyjness_community_be.Prelude.{
  ℕ, zero, suc, ◌+◌, Bool, true, not, Option, none, some, List, [], ◌++◌, if◌then◌else◌, ltb, map,
  keep, length, ◌==◌,
}
use kyjness_community_be.Text.{Text}
use kyjness_community_be.Db.Rows.{Db, Image}
use kyjness_community_be.Db.Ascending.{last_from}
use kyjness_community_be.Media.{
  delete_images_by_ids, get_expired_signup_images, get_orphan_images_older_than,
}

-- how a cleanup ends: the number of rows deleted, the keys whose deletion failed, and the tables
pub record Cleaned : Type 0 where
  pub total_deleted : ℕ
  pub failed_file_keys : List Text
  pub tables : Db

abbrev pub deletable_ids : (Image → Bool) → List Image → List ℕ
deletable_ids fails rows = map (λ m. m.id) (keep (λ m. not (fails m)) rows)

abbrev pub add_batch : ℕ → List Text → Option Cleaned → Option Cleaned
add_batch n keys none = none
add_batch n keys (some c) = some (record c {
  total_deleted = n + c.total_deleted;
  failed_file_keys = keys ++ c.failed_file_keys;
})

-- One round of the loop; `next` is the rest of it. A batch with nothing to delete leaves the tables as
-- they are.
unfoldable pub clean_batch :
    (Image → Bool) → ℕ → List Image → Db → (Option ℕ → Db → Option Cleaned) → Option Cleaned
clean_batch fails batch_size rows d next =
    let (n, d') = delete_images_by_ids (deletable_ids fails rows) d in
    let keys = map (λ m. m.file_key) (keep fails rows) in
    if length rows == 0
    then some (record { total_deleted = 0; failed_file_keys = []; tables = d })
    else if ltb (length rows) batch_size
    then some (record { total_deleted = n; failed_file_keys = keys; tables = d' })
    else add_batch n keys (next (some (last_from (λ m. m.id) 0 rows)) d')

-- The loop on fuel: `none` says that the fuel ran out.
unfoldable pub keyset_cleanup :
    (Option ℕ → ℕ → Db → List Image) → (Image → Bool) → ℕ → ℕ → Option ℕ → Db → Option Cleaned
keyset_cleanup fetch fails batch_size zero last_id d = none
keyset_cleanup fetch fails batch_size (suc fuel) last_id d =
    clean_batch fails batch_size (fetch last_id batch_size d) d
      (λ next_id d'. keyset_cleanup fetch fails batch_size fuel next_id d')

-- `_try_acquire_job_lock`: without Redis, or if the call raises, the job goes on without a lock.
pub data LockCall : Type 0 where
  no_client raises : LockCall
  answered : Bool → LockCall

abbrev pub may_run : LockCall → Bool
may_run no_client = true
may_run raises = true
may_run (answered acquired) = acquired

abbrev pub under_lock : LockCall → Db → Option Cleaned → Option Cleaned
under_lock lock d run =
    if may_run lock
    then run
    else some (record { total_deleted = 0; failed_file_keys = []; tables = d })

unfoldable pub sweep_unused_images : LockCall → (Image → Bool) → ℕ → ℕ → ℕ → Db → Option Cleaned
sweep_unused_images lock fails batch_size fuel now d =
    under_lock lock d
      (keyset_cleanup (get_orphan_images_older_than 24 now) fails batch_size fuel none d)

unfoldable pub cleanup_expired_signup_images :
    LockCall → (Image → Bool) → ℕ → ℕ → ℕ → ℕ → Db → Option Cleaned
cleanup_expired_signup_images lock fails batch_size fuel ttl now d =
    under_lock lock d
      (keyset_cleanup (get_expired_signup_images ttl now) fails batch_size fuel none d)
