-- ===== src/Views/Merged.antt =====
-- app/domain/posts/services/post_service.py: what the drain of a flush adds to the rows, or back to the
-- buffer.
use kyjness_community_be.Prelude.{
  ℕ, ◌+◌, ◌≡◌, ◌≢◌, refl, ◌∙◌, take, true, false, some, List, [], ◌∷◌, if◌then◌else◌, ◌==◌, arith,
  Bool-split,
}
use kyjness_community_be.Db.Rows.{Db, Post}
use kyjness_community_be.Db.Sql.{one_or_none}
use kyjness_community_be.Db.Found.{one_or_none-update_where, one_or_none-test}
use kyjness_community_be.Posts.{is_undeleted_post, increment_view_count_delta}
use kyjness_community_be.Views.{
  Merge, hgetall_raises, hincrby_raises, del_raises, complete, buffer, drain, total, Hashes,
  add_views, increment_all, merge_drain_into_buffer, Flush, unread, rolled_back, committed,
  flush_drain,
}

-- the row of an undeleted post, and its count
abbrev pub HasViews : ℕ → Db → ℕ → Type 0
HasViews post_id d n =
    (p : Post) × (one_or_none (is_undeleted_post post_id) d.posts ≡ some p) × (p.view_count ≡ n)

-- an increment of a row is an increment of the count of its post and of no other
delta_views :
    (post_id target delta now n : ℕ) (d : Db)
    → HasViews post_id d n
    → HasViews post_id
        (increment_view_count_delta target delta now d).1
        (n + (if target == post_id then delta else 0))
unfolding increment_view_count_delta
delta_views post_id target delta now n d (p, found, views) =
    let add : Post → Post = λ p. record p { view_count = p.view_count + delta; updated_at = now } in
    let is_p = one_or_none-test (is_undeleted_post post_id) d.posts p found in
    let kept =
      one_or_none-update_where (is_undeleted_post post_id) (is_undeleted_post target) add
        (λ r. refl) d.posts p found in
    Bool-split (delta == 0) (λ nothing. (p, ground arith, ground arith))
      (λ something. ((if is_undeleted_post target p then add p else p), ground arith, ground arith))

pub add_views_lem :
    (fields : List (ℕ × ℕ)) (post_id now n : ℕ) (d : Db)
    → HasViews post_id d n
    → HasViews post_id (add_views fields now d) (n + total post_id fields)
unfolding add_views
add_views_lem [] post_id now n d (p, found, views) = (p, found, omega (arith, views))
add_views_lem ((target, delta) ∷ fields) post_id now n d h =
    let (p, found, views) = delta_views post_id target delta now n d h in
    Bool-split (delta == 0)
      (λ nothing.
        let (q, there, sum) = add_views_lem fields post_id now n d h in
        (q, ground arith, ground arith))
      (λ something.
        let (q, there, sum) =
          add_views_lem fields post_id now (n + (if target == post_id then delta else 0))
            (increment_view_count_delta target delta now d).1 (p, found, views) in
        (q, ground arith, ground arith))

module _ {Store : Type 0} (redis : Hashes Store) where
  increment_all_lem :
      (fields : List (ℕ × ℕ)) (f : ℕ) (s : Store)
      → redis.hget buffer f (increment_all redis fields s) ≡ redis.hget buffer f s + total f fields
  unfolding increment_all
  increment_all_lem [] f s = omega arith
  increment_all_lem ((g, n) ∷ fields) f s = ground (
    arith,
    increment_all_lem fields f (redis.hincrby buffer g n s),
    redis.hget-hincrby buffer buffer f g n s refl,
  )

  increment_all_other :
      (fields : List (ℕ × ℕ)) (ulid f : ℕ) (s : Store)
      → redis.hget (drain ulid) f (increment_all redis fields s) ≡ redis.hget (drain ulid) f s
  unfolding increment_all
  increment_all_other [] ulid f s = refl
  increment_all_other ((g, n) ∷ fields) ulid f s =
      increment_all_other fields ulid f (redis.hincrby buffer g n s)
      ∙ redis.hget-hincrby_ne (drain ulid) buffer f g n s (λ e. ground arith)

  pub ne_drain : (ulid : ℕ) → buffer ≢ drain ulid
  ne_drain ulid e = ground arith

  pub merge_lem :
      (ulid f : ℕ) (s : Store)
      → redis.hget buffer f (merge_drain_into_buffer redis complete (drain ulid) s)
        ≡ redis.hget buffer f s + redis.hget (drain ulid) f s
  unfolding merge_drain_into_buffer
  merge_lem ulid f s = ground (
    arith,
    redis.hget-delete_ne buffer (drain ulid) f
        (increment_all redis (redis.hgetall (drain ulid) s) s) (ne_drain ulid),
    increment_all_lem (redis.hgetall (drain ulid) s) f s,
    redis.total-hgetall (drain ulid) f s,
  )

  merge_other :
      (merge : Merge) (ulid ulid' f : ℕ) (s : Store)
      → drain ulid ≢ drain ulid'
      → redis.hget (drain ulid) f (merge_drain_into_buffer redis merge (drain ulid') s)
        ≡ redis.hget (drain ulid) f s
  unfolding merge_drain_into_buffer
  merge_other hgetall_raises ulid ulid' f s ne = refl
  merge_other (hincrby_raises n) ulid ulid' f s ne =
      increment_all_other (take n (redis.hgetall (drain ulid') s)) ulid f s
  merge_other del_raises ulid ulid' f s ne =
      increment_all_other (redis.hgetall (drain ulid') s) ulid f s
  merge_other complete ulid ulid' f s ne =
      redis.hget-delete_ne (drain ulid) (drain ulid') f _ ne
      ∙ increment_all_other (redis.hgetall (drain ulid') s) ulid f s

  pub drain_other :
      (end : Flush) (ulid ulid' now f : ℕ) (fields : List (ℕ × ℕ)) (d : Db) (s : Store)
      → drain ulid ≢ drain ulid'
      → redis.hget (drain ulid) f (flush_drain redis end (drain ulid') fields now (d, s)).1
        ≡ redis.hget (drain ulid) f s
  unfolding flush_drain
  drain_other unread ulid ulid' now f fields d s ne = refl
  drain_other (rolled_back merge) ulid ulid' now f [] d s ne =
      redis.hget-delete_ne (drain ulid) (drain ulid') f s ne
  drain_other (rolled_back merge) ulid ulid' now f (x ∷ fields) d s ne =
      merge_other merge ulid ulid' f s ne
  drain_other (committed raised) ulid ulid' now f [] d s ne =
      redis.hget-delete_ne (drain ulid) (drain ulid') f s ne
  drain_other (committed true) ulid ulid' now f (x ∷ fields) d s ne = refl
  drain_other (committed false) ulid ulid' now f (x ∷ fields) d s ne =
      redis.hget-delete_ne (drain ulid) (drain ulid') f s ne
