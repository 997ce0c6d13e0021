-- ===== src/Users/Purged.antt =====
-- app/domain/users: the purge of withdrawn users ends, and what it has deleted then.
use mathlib.Core.Path.{subst}
use kyjness_community_be.Prelude.{
  ℕ, zero, suc, ◌+◌, ◌-◌, ◌*◌, ◌<◌, ◌≡◌, refl, sym, ap, ◌∙◌, Bool, true, false, none, some, ◌==◌,
  map, keep, length, count_if, arith, Bool-split,
}
use kyjness_community_be.Db.Rows.{Db, User}
use kyjness_community_be.Db.Sql.{delete_where, count_if-delete_where, map-update_where}
use kyjness_community_be.Db.Keyset.{IsDistinct}
use kyjness_community_be.Users.Purge.{
  mem_id, mem_opt, forget_users, is_purged, ids_of, chosen, purge_withdrawn_users_older_than,
  add_total, purge_loop, purge_withdrawn_users, day,
}
use kyjness_community_be.Users.Taken.{
  delete_where-IsDistinct, count_within, delete_where-within, id_of, delete_where_zero, some_taken,
  taken_users,
}

module _ (cutoff n : ℕ) where
  abbrev pub batch_of : Db → Db
  batch_of d = (purge_withdrawn_users_older_than cutoff (suc n) d).1

  abbrev pub taken_of : Db → User → Bool
  taken_of d u = mem_id (chosen cutoff (suc n) d) u.id

  users_of_batch : (d : Db) → (batch_of d).users ≡ delete_where (taken_of d) d.users
  unfolding purge_withdrawn_users_older_than forget_users
  users_of_batch d = refl

  ids_of_batch :
      (d : Db)
      → (purge_withdrawn_users_older_than cutoff (suc n) d).0 ≡ ids_of (keep (taken_of d) d.users)
  unfolding purge_withdrawn_users_older_than
  ids_of_batch d = refl

  abbrev pub IsPurged : Db → ℕ → Db → Type 0
  IsPurged d total d' =
      (d'.users ≡ delete_where (is_purged cutoff) d.users)
      × (total ≡ count_if (is_purged cutoff) d.users)

  last_round :
      (fuel : ℕ) (d : Db)
      → (length (purge_withdrawn_users_older_than cutoff (suc n) d).0 == 0) ≡ true
      → purge_loop cutoff (suc n) (suc fuel) d ≡ some (0, batch_of d)
  unfolding purge_loop
  last_round fuel d e = rw e refl

  next_round :
      (fuel : ℕ) (d : Db)
      → (length (purge_withdrawn_users_older_than cutoff (suc n) d).0 == 0) ≡ false
      → purge_loop cutoff (suc n) (suc fuel) d
        ≡ add_total
            (length (purge_withdrawn_users_older_than cutoff (suc n) d).0)
            (purge_loop cutoff (suc n) fuel (batch_of d))
  unfolding purge_loop
  next_round fuel d e = rw e refl

  purged :
      (fuel : ℕ) (d : Db)
      → IsDistinct id_of d.users
      → count_if (is_purged cutoff) d.users < fuel
      → (total : ℕ) × (d' : Db) × (purge_loop cutoff (suc n) fuel d ≡ some (total, d'))
        × IsPurged d total d'
  purged zero d distinct enough = ground arith
  purged (suc fuel) d distinct enough =
      let p = is_purged cutoff in
      let a = taken_of d in
      let within = taken_users cutoff (suc n) d distinct in
      let counts = count_within p a d.users within in
      let k : ℕ = length (purge_withdrawn_users_older_than cutoff (suc n) d).0 in
      let k_is : k ≡ length (ids_of (keep a d.users)) = ap (λ ids. length ids) (ids_of_batch d) in
      let left = users_of_batch d in
      Bool-split (k == 0)
        (λ stop.
          let none_left : count_if p d.users ≡ 0 =
            some_taken p n d.users (sym k_is ∙ ground arith) in
          (
            0,
            batch_of d,
            last_round fuel d stop,
            (
              left
                  ∙ sym (
                      delete_where_zero p (delete_where a d.users)
                        (omega (arith, counts, none_left)))
                  ∙ delete_where-within p a d.users within,
              sym none_left,
            ),
          ))
        (λ go.
          let left_count : count_if p (batch_of d).users ≡ count_if p (delete_where a d.users) =
            ap (λ us. count_if p us) left in
          let (total, d', ran, (users, total_is)) =
            purged fuel (batch_of d)
              (subst (IsDistinct id_of) (sym left) (delete_where-IsDistinct p a d.users distinct))
              (ground (arith, counts, left_count, k_is)) in
          (
            k + total,
            d',
            next_round fuel d go ∙ ap (add_total k) ran,
            (
              users ∙ ap (λ us. delete_where p us) left ∙ delete_where-within p a d.users within,
              ground (arith, counts, left_count, k_is),
            ),
          ))

-- The purge of withdrawn users ends after one round more than there are users to purge at most:
-- exactly the users who withdrew before the days that are given are gone, and the answer is how many.
pub purge_withdrawn_users_lem :
    (older_than_days now fuel : ℕ) (d : Db)
    → IsDistinct (λ u. u.id) d.users
    → count_if (is_purged (now - older_than_days * day)) d.users < fuel
    → (total : ℕ) × (d' : Db) × (purge_withdrawn_users older_than_days now fuel d
        ≡ some (total, d'))
      × (d'.users ≡ delete_where (is_purged (now - older_than_days * day)) d.users)
      × (total ≡ count_if (is_purged (now - older_than_days * day)) d.users)
unfolding purge_withdrawn_users
purge_withdrawn_users_lem older_than_days now fuel d distinct enough =
    let (total, d', ran, (users, total_is)) =
      purged (now - older_than_days * day) 199 fuel d distinct enough in
    (total, d', ran, users, total_is)

-- What goes with purged users: their likes of posts and of comments are deleted, and the counters
-- of likes that posts and comments carry stay as they were.
pub purge_likes_lem :
    (cutoff limit i : ℕ) (d : Db)
    → let ids = chosen cutoff limit d in
      let (deleted_ids, d') = purge_withdrawn_users_older_than cutoff limit d in
      (count_if (λ l. l.post_id == i) d'.post_likes
          + count_if (λ l. l.post_id == i) (keep (λ l. mem_id ids l.user_id) d.post_likes)
        ≡ count_if (λ l. l.post_id == i) d.post_likes)
      × (count_if (λ l. l.comment_id == i) d'.comment_likes
            + count_if (λ l. l.comment_id == i) (keep (λ l. mem_id ids l.user_id) d.comment_likes)
          ≡ count_if (λ l. l.comment_id == i) d.comment_likes)
      × (map (λ p. p.like_count) d'.posts ≡ map (λ p. p.like_count) d.posts)
      × (map (λ c. c.like_count) d'.comments ≡ map (λ c. c.like_count) d.comments)
unfolding purge_withdrawn_users_older_than forget_users
purge_likes_lem cutoff limit i d =
    let ids = chosen cutoff limit d in
    (
      count_if-delete_where (λ l. l.post_id == i) (λ l. mem_id ids l.user_id) d.post_likes,
      count_if-delete_where (λ l. l.comment_id == i) (λ l. mem_id ids l.user_id) d.comment_likes,
      map-update_where (λ p. p.like_count) (λ p. mem_opt ids p.user_id)
          (λ p. record p { user_id = none }) (λ p. refl) d.posts,
      map-update_where (λ c. c.like_count) (λ c. mem_opt ids c.author_id)
          (λ c. record c { author_id = none }) (λ c. refl) d.comments,
    )
