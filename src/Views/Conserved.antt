-- ===== src/Views/Conserved.antt =====
-- app/domain/posts/services/post_service.py: no view is lost between the buffer and the rows.
use kyjness_community_be.Prelude.{
  ℕ, zero, suc, ◌+◌, ◌≡◌, ◌≢◌, refl, ◌∙◌, Bool, true, false, not, Option, some, List, [], ◌∷◌,
  if◌then◌else◌, arith, Bool-split, to_ℕ,
}
use kyjness_community_be.Db.Rows.{Db, Post}
use kyjness_community_be.Db.Sql.{one_or_none}
use kyjness_community_be.Db.Found.{one_or_none-update_where, one_or_none-test}
use kyjness_community_be.Posts.{is_undeleted_post, get_post_by_id, increment_view_count}
use kyjness_community_be.Views.{
  hgetall_raises, hincrby_raises, del_raises, complete, buffer, drain, total, Hashes, SetNx,
  no_client, consume_view_if_new, get_buffer_pending, try_view_increment_in_buffer,
  apply_view_increment, get_post_detail, Flush, unread, rolled_back, committed, flush_drain,
  flush_view_counts_to_db,
}
use kyjness_community_be.Views.Merged.{HasViews, add_views_lem, ne_drain, merge_lem, drain_other}

module _ {Store : Type 0} (redis : Hashes Store) where
  -- A flush after which no view is lost: HGETALL answers, and a drain that has to be merged back is.
  abbrev pub goes_through : Flush → Bool
  goes_through unread = false
  goes_through (rolled_back complete) = true
  goes_through (rolled_back _) = false
  goes_through (committed _) = true

  -- The count of a post that a reader is shown: its row's, and what the buffer holds.
  abbrev pub IsShown : ℕ → Db × Store → ℕ → Type 0
  IsShown post_id (d, s) n =
      (row : ℕ) × HasViews post_id d row × (row + redis.hget buffer post_id s ≡ n)

  -- what follows the renaming keeps what the buffer and the drain hold together with the row
  drained :
      (end : Flush) (ulid now post_id n row : ℕ) (fields : List (ℕ × ℕ)) (d : Db) (s : Store)
      → goes_through end ≡ true
      → HasViews post_id d row
      → total post_id fields ≡ redis.hget (drain ulid) post_id s
      → row + (redis.hget buffer post_id s + redis.hget (drain ulid) post_id s) ≡ n
      → IsShown post_id (flush_drain redis end (drain ulid) fields now (d, s)) n
  unfolding flush_drain
  drained unread ulid now post_id n row fields d s read has all sum = ground arith
  drained (rolled_back merge) ulid now post_id n row [] d s read has all sum =
      let kept = redis.hget-delete_ne buffer (drain ulid) post_id s (ne_drain redis ulid) in
      (row, has, omega (arith, kept, all, sum))
  drained (rolled_back complete) ulid now post_id n row (f ∷ fields) d s read has all sum =
      (row, has, omega (arith, merge_lem redis ulid post_id s, sum))
  drained (rolled_back hgetall_raises) ulid now post_id n row (f ∷ fields) d s read has all sum =
      ground arith
  drained (rolled_back del_raises) ulid now post_id n row (f ∷ fields) d s read has all sum =
      ground arith
  drained (rolled_back (hincrby_raises k)) ulid now post_id n row (f ∷ fields) d s read has all
        sum =
      ground arith
  drained (committed raised) ulid now post_id n row [] d s read has all sum =
      let kept = redis.hget-delete_ne buffer (drain ulid) post_id s (ne_drain redis ulid) in
      (row, has, omega (arith, kept, all, sum))
  drained (committed true) ulid now post_id n row (f ∷ fields) d s read has all sum = (
    row + total post_id (f ∷ fields),
    add_views_lem (f ∷ fields) post_id now row d has,
    omega (arith, all, sum),
  )
  drained (committed false) ulid now post_id n row (f ∷ fields) d s read has all sum =
      let kept = redis.hget-delete_ne buffer (drain ulid) post_id s (ne_drain redis ulid) in
      (
        row + total post_id (f ∷ fields),
        add_views_lem (f ∷ fields) post_id now row d has,
        omega (arith, kept, all, sum),
      )

  -- A flush whose drain is fresh leaves the count that a reader is shown of every undeleted post as it
  -- was, also if another job holds the lock, where HGETALL of the drain answers, and, if the transaction
  -- fails, no call of the merge back into the buffer raises. The DEL after a commit may raise.
  pub flush_keeps_views :
      (locked : Bool) (end : Flush) (ulid now post_id n : ℕ) (d : Db) (s : Store)
      → goes_through end ≡ true
      → IsShown post_id (d, s) n
      → IsShown post_id (flush_view_counts_to_db redis locked end ulid now (d, s)) n
  unfolding flush_view_counts_to_db
  flush_keeps_views locked end ulid now post_id n d s read (row, has, sum) =
      let s' = redis.rename buffer (drain ulid) s in
      let moved =
        drained end ulid now post_id n row (redis.hgetall (drain ulid) s') d s' read has
          (redis.total-hgetall (drain ulid) post_id s')
          (omega (
            arith,
            redis.hget-rename_old buffer (drain ulid) post_id s (ne_drain redis ulid),
            redis.hget-rename_new buffer (drain ulid) post_id s (ne_drain redis ulid),
            sum,
          )) in
      by_lock locked (redis.exists buffer s) moved
    where
      by_lock :
          (l e : Bool)
          → IsShown post_id
              (flush_drain redis end
                (drain ulid)
                (redis.hgetall (drain ulid) (redis.rename buffer (drain ulid) s))
                now
                (d, redis.rename buffer (drain ulid) s))
              n
          → IsShown post_id
              (if l
                then (d, s)
                else if not e
                then (d, s)
                else flush_drain redis end
                    (drain ulid)
                    (redis.hgetall (drain ulid) (redis.rename buffer (drain ulid) s))
                    now
                    (d, redis.rename buffer (drain ulid) s))
              n
      by_lock true e moved = (row, has, sum)
      by_lock false false moved = (row, has, sum)
      by_lock false true moved = moved

  -- a flush leaves the drain of another one as it was
  flush_other :
      (locked : Bool) (end : Flush) (ulid ulid' now f : ℕ) (d : Db) (s : Store)
      → ulid ≢ ulid'
      → redis.hget (drain ulid) f (flush_view_counts_to_db redis locked end ulid' now (d, s)).1
        ≡ redis.hget (drain ulid) f s
  unfolding flush_view_counts_to_db
  flush_other true end ulid ulid' now f d s ne = refl
  flush_other false end ulid ulid' now f d s ne =
      let s' = redis.rename buffer (drain ulid') s in
      let ne' : drain ulid ≢ drain ulid' = λ e. ne (ground arith) in
      let kept =
        drain_other redis end ulid ulid' now f (redis.hgetall (drain ulid') s') d s' ne'
        ∙ redis.hget-rename_ne buffer (drain ulid') (drain ulid) f s (λ e. ground arith) ne' in
      Bool-split (redis.exists buffer s) (λ there. ground arith) (λ absent. ground arith)

  -- If HGETALL of the drain raises, the views stay in the drain: the buffer is empty, and the rows are as
  -- they were. No later flush, with a drain of its own, takes them out again.
  pub flush_unread :
      (ulid now ulid' post_id : ℕ) (d : Db) (s : Store)
      → ulid ≢ ulid'
      → redis.exists buffer s ≡ true
      → let (d', s') = flush_view_counts_to_db redis false unread ulid now (d, s) in
        (d' ≡ d)
        × (redis.hget buffer post_id s' ≡ 0)
        × (redis.hget (drain ulid) post_id s' ≡ redis.hget buffer post_id s)
        × ((locked : Bool) (end : Flush) (now' : ℕ) (d2 : Db) (s2 : Store)
            → redis.hget
                (drain ulid)
                post_id
                (flush_view_counts_to_db redis locked end ulid' now' (d2, s2)).1
              ≡ redis.hget (drain ulid) post_id s2)
  unfolding flush_view_counts_to_db flush_drain
  flush_unread ulid now ulid' post_id d s ne there =
      let old = redis.hget-rename_old buffer (drain ulid) post_id s (ne_drain redis ulid) in
      let new = redis.hget-rename_new buffer (drain ulid) post_id s (ne_drain redis ulid) in
      (
        ground arith,
        ground arith,
        ground arith,
        λ locked end now' d2 s2. flush_other locked end ulid ulid' now' post_id d2 s2 ne,
      )

  -- A visit of a post that the reader finds adds one to the count shown if it is new for its viewer, and
  -- nothing otherwise; the answer carries the count after the visit, if Redis answers.
  pub get_post_detail_lem :
      (ttl : ℕ) (reply : SetNx) (post_id : ℕ) (viewer : Option ℕ) (now n : ℕ) (p : Post) (d : Db)
      (s : Store)
      → get_post_by_id post_id viewer d ≡ some p
      → one_or_none (is_undeleted_post post_id) d.posts ≡ some p
      → p.view_count + redis.hget buffer post_id s ≡ n
      → let (shown, d', s') = get_post_detail redis ttl reply true post_id viewer now (d, s) in
        let n' = n + to_ℕ (consume_view_if_new ttl reply) in
        (shown ≡ some n') × IsShown post_id (d', s') n'
  unfolding get_post_detail apply_view_increment try_view_increment_in_buffer get_buffer_pending
  get_post_detail_lem ttl reply post_id viewer now n p d s seen found sum =
      let plus_one = redis.hget-hincrby buffer buffer post_id post_id 1 s refl in
      Bool-split (consume_view_if_new ttl reply)
        (λ new. (ground arith, (p.view_count, (p, ground arith, refl), ground arith)))
        (λ old. (ground arith, (p.view_count, (p, ground arith, refl), ground arith)))

  -- With Redis away a visit is counted in the row of the post, and the answer carries that count.
  pub get_post_detail_fallback :
      (ttl post_id : ℕ) (viewer : Option ℕ) (now : ℕ) (p : Post) (d : Db) (s : Store)
      → get_post_by_id post_id viewer d ≡ some p
      → one_or_none (is_undeleted_post post_id) d.posts ≡ some p
      → let (shown, d', s') = get_post_detail redis ttl no_client false post_id viewer now (d, s) in
        (shown ≡ some (p.view_count + 1)) × HasViews post_id d' (p.view_count + 1) × (s' ≡ s)
  unfolding get_post_detail apply_view_increment try_view_increment_in_buffer get_buffer_pending
      increment_view_count consume_view_if_new
  get_post_detail_fallback ttl post_id viewer now p d s seen found =
      let add : Post → Post = λ p. record p { view_count = p.view_count + 1; updated_at = now } in
      let is_p = one_or_none-test (is_undeleted_post post_id) d.posts p found in
      let kept =
        one_or_none-update_where (is_undeleted_post post_id) (is_undeleted_post post_id) add
          (λ r. refl) d.posts p found in
      elim ttl [
        | zero ↦ (ground arith, (add p, ground arith, ground arith), ground arith)
        | suc t ↦ (ground arith, (add p, ground arith, ground arith), ground arith)
      ]
