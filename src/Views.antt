-- ===== src/Views.antt =====
-- app/domain/posts/services/post_service.py: the count of views. A new visit is added to a hash of
-- Redis, the buffer, or to the row of the post if the buffer cannot be reached; a job moves the buffer
-- into the rows. The hashes of Redis are a parameter.
pub mod Merged
pub mod Conserved
mod Tests
use kyjness_community_be.Prelude.{
  ℕ, zero, suc, ◌+◌, ◌≡◌, ◌≢◌, Bool, true, false, not, ◌&&◌, Option, none, some, List, [], ◌∷◌,
  if◌then◌else◌, ◌==◌, is_none, take,
}
use kyjness_community_be.Db.Rows.{Db, Post}
use kyjness_community_be.Posts.{get_post_by_id, increment_view_count, increment_view_count_delta}

-- `VIEW_BUFFER_KEY`, and the key of a drain with its ULID as a number
pub data HashKey : Type 0 where
  buffer : HashKey
  drain : ℕ → HashKey

-- The number that the pairs of HGETALL give a field.
abbrev pub total : ℕ → List (ℕ × ℕ) → ℕ
total f [] = 0
total f ((g, n) ∷ fields) = (if g == f then n else 0) + total f fields

-- What is relied on of hashes whose fields are ids of posts and whose values are counts. HGET of a
-- field that is absent reads as 0, and HGETALL lists what HGET reads.
pub record Hashes (Store : Type 0) : Type 0 where
  pub hget : HashKey → ℕ → Store → ℕ
  pub hincrby : HashKey → ℕ → ℕ → Store → Store
  pub hgetall : HashKey → Store → List (ℕ × ℕ)
  pub exists : HashKey → Store → Bool
  pub rename : HashKey → HashKey → Store → Store
  pub delete : HashKey → Store → Store
  pub hget-hincrby :
      (k k' : HashKey) (f g n : ℕ) (s : Store)
      → k ≡ k'
      → hget k f (hincrby k' g n s) ≡ hget k f s + (if g == f then n else 0)
  pub hget-hincrby_ne :
      (k k' : HashKey) (f g n : ℕ) (s : Store) → k ≢ k' → hget k f (hincrby k' g n s) ≡ hget k f s
  pub total-hgetall : (k : HashKey) (f : ℕ) (s : Store) → total f (hgetall k s) ≡ hget k f s
  pub hget-absent : (k : HashKey) (f : ℕ) (s : Store) → exists k s ≡ false → hget k f s ≡ 0
  pub hget-rename_new :
      (k k' : HashKey) (f : ℕ) (s : Store) → k ≢ k' → hget k' f (rename k k' s) ≡ hget k f s
  pub hget-rename_old : (k k' : HashKey) (f : ℕ) (s : Store) → k ≢ k' → hget k f (rename k k' s) ≡ 0
  pub hget-rename_ne :
      (k k' k'' : HashKey) (f : ℕ) (s : Store)
      → k'' ≢ k
      → k'' ≢ k'
      → hget k'' f (rename k k' s) ≡ hget k'' f s
  pub hget-delete_self : (k : HashKey) (f : ℕ) (s : Store) → hget k f (delete k s) ≡ 0
  pub hget-delete_ne :
      (k k' : HashKey) (f : ℕ) (s : Store) → k ≢ k' → hget k f (delete k' s) ≡ hget k f s

-- SET NX of the key of a viewer: no client, a call that raises, or whether the key was created
pub data SetNx : Type 0 where
  no_client raises : SetNx
  created : Bool → SetNx

-- `_consume_view_if_new_redis`, where `ttl` is `settings.VIEW_CACHE_TTL_SECONDS`
unfoldable pub consume_view_if_new : ℕ → SetNx → Bool
consume_view_if_new zero reply = true
consume_view_if_new (suc ttl) no_client = true
consume_view_if_new (suc ttl) raises = true
consume_view_if_new (suc ttl) (created new) = new

-- How the drain is merged back: HGETALL raises, the call of HINCRBY after a number of them raises, the
-- last DEL raises, or no call does.
pub data Merge : Type 0 where
  hgetall_raises del_raises complete : Merge
  hincrby_raises : ℕ → Merge

-- How a flush that holds the lock goes on: HGETALL of the drain raises, the transaction fails and the
-- drain is merged back, or it commits, and the DEL of the drain that follows raises or not.
pub data Flush : Type 0 where
  unread : Flush
  rolled_back : Merge → Flush
  committed : Bool → Flush

-- the loop over `fields` inside the transaction
unfoldable pub add_views : List (ℕ × ℕ) → ℕ → Db → Db
add_views [] now d = d
add_views ((post_id, delta) ∷ fields) now d =
    add_views fields now
      (if delta == 0 then d else (increment_view_count_delta post_id delta now d).1)

module _ {Store : Type 0} (redis : Hashes Store) where
  -- `_get_buffer_pending`; without an answer of Redis nothing is pending.
  unfoldable pub get_buffer_pending : Bool → ℕ → Store → ℕ
  get_buffer_pending answers post_id s = if answers then redis.hget buffer post_id s else 0

  -- `_try_view_increment_in_buffer`
  unfoldable pub try_view_increment_in_buffer : Bool → ℕ → Store → Bool × Store
  try_view_increment_in_buffer answers post_id s =
      if answers then (true, redis.hincrby buffer post_id 1 s) else (false, s)

  -- `_apply_view_increment`: whether the row was written, and the two stores.
  unfoldable pub apply_view_increment : ℕ → SetNx → Bool → ℕ → ℕ → Db × Store → Bool × Db × Store
  apply_view_increment ttl reply answers post_id now (d, s) =
      let (buffered, s') = try_view_increment_in_buffer answers post_id s in
      let (_, d') = increment_view_count post_id now d in
      if not (consume_view_if_new ttl reply)
      then (false, d, s)
      else if buffered
      then (false, d, s')
      else (true, d', s)

  -- `get_post_detail`: the view count of the answer, `none` for a post that is not found.
  unfoldable pub get_post_detail :
      ℕ → SetNx → Bool → ℕ → Option ℕ → ℕ → Db × Store → Option ℕ × Db × Store
  get_post_detail ttl reply answers post_id viewer now (d, s) =
      let (written, d', s') = apply_view_increment ttl reply answers post_id now (d, s) in
      elim (get_post_by_id post_id viewer d) [
        | none ↦ (none, d, s)
        | some post ↦ (
          some (
              post.view_count + get_buffer_pending answers post_id s' + (if written then 1 else 0)),
          d',
          s',
        )
      ]

  unfoldable pub increment_all : List (ℕ × ℕ) → Store → Store
  increment_all [] s = s
  increment_all ((post_id, n) ∷ fields) s = increment_all fields (redis.hincrby buffer post_id n s)

  -- `_merge_drain_into_buffer`
  unfoldable pub merge_drain_into_buffer : Merge → HashKey → Store → Store
  merge_drain_into_buffer hgetall_raises k s = s
  merge_drain_into_buffer (hincrby_raises n) k s = increment_all (take n (redis.hgetall k s)) s
  merge_drain_into_buffer del_raises k s = increment_all (redis.hgetall k s) s
  merge_drain_into_buffer complete k s = redis.delete k (increment_all (redis.hgetall k s) s)

  -- what follows the renaming of the buffer to the drain `k`
  unfoldable pub flush_drain : Flush → HashKey → List (ℕ × ℕ) → ℕ → Db × Store → Db × Store
  flush_drain unread k fields now (d, s) = (d, s)
  flush_drain (rolled_back merge) k [] now (d, s) = (d, redis.delete k s)
  flush_drain (rolled_back merge) k (f ∷ fields) now (d, s) = (d, merge_drain_into_buffer merge k s)
  flush_drain (committed raised) k [] now (d, s) = (d, redis.delete k s)
  flush_drain (committed raised) k (f ∷ fields) now (d, s) =
      (add_views (f ∷ fields) now d, if raised then s else redis.delete k s)

  -- `locked` says that another job holds the lock, `ulid` is the fresh part of the drain's key.
  unfoldable pub flush_view_counts_to_db : Bool → Flush → ℕ → ℕ → Db × Store → Db × Store
  flush_view_counts_to_db locked end ulid now (d, s) =
      let s' = redis.rename buffer (drain ulid) s in
      if locked
      then (d, s)
      else if not (redis.exists buffer s)
      then (d, s)
      else flush_drain end (drain ulid) (redis.hgetall (drain ulid) s') now (d, s')
