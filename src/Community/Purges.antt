-- ===== src/Community/Purges.antt =====
-- app/domain/users/model.py: a batch of the purge of withdrawn users, where none of them has left a like,
-- keeps the invariant. With likes it does not: the counts of likes stay as they were.
use mathlib.Core.Path.{subst}
use kyjness_community_be.Prelude.{ℕ, ◌≡◌, refl, sym, Bool, false, ◌||◌, none, List, any_of, arith}
use kyjness_community_be.Db.Rows.{Db}
use kyjness_community_be.Db.Sql.{update_where}
use kyjness_community_be.Media.Batches.{delete_where_none}
use kyjness_community_be.Users.Purge.{
  mem_id, mem_opt, forget_users, chosen, purge_withdrawn_users_older_than,
}
use kyjness_community_be.Community.Invariant.{IsSound, IsLikeTallied, IsCommentLikeTallied}
use kyjness_community_be.Community.Posts.{touch_posts-IsSound, touch_comments-IsSound}

-- a like of one of the users
abbrev pub have_liked : List ℕ → Db → Bool
have_liked ids d =
    any_of (λ l. mem_id ids l.user_id) d.post_likes
    || any_of (λ l. mem_id ids l.user_id) d.comment_likes

pub purge-IsSound :
    (cutoff limit : ℕ) (d : Db)
    → have_liked (chosen cutoff limit d) d ≡ false
    → IsSound d
    → IsSound (purge_withdrawn_users_older_than cutoff limit d).1
unfolding purge_withdrawn_users_older_than forget_users
purge-IsSound cutoff limit d unliked h =
    let ids = chosen cutoff limit d in
    let authored =
      touch_posts-IsSound (λ p. mem_opt ids p.user_id) (λ p. record p { user_id = none })
        (λ r. (refl, refl, refl, refl)) d h in
    let d1 : Db = record d {
      posts = update_where (λ p. mem_opt ids p.user_id) (λ p. record p { user_id = none }) d.posts;
    } in
    let commented =
      touch_comments-IsSound (λ c. mem_opt ids c.author_id) (λ c. record c { author_id = none })
        (λ r. (refl, refl, refl, refl, refl)) d1 authored in
    let comments =
      update_where (λ c. mem_opt ids c.author_id) (λ c. record c { author_id = none }) d.comments in
    let likes = delete_where_none (λ l. mem_id ids l.user_id) d.post_likes (ground arith) in
    let comment_likes =
      delete_where_none (λ l. mem_id ids l.user_id) d.comment_likes (ground arith) in
    record {
      post_likes = subst (λ ls. IsLikeTallied d1.posts ls) (sym likes) commented.post_likes;
      post_comments = commented.post_comments;
      comment_likes =
          subst (λ ls. IsCommentLikeTallied comments ls) (sym comment_likes)
            commented.comment_likes;
      likes_once = λ i u. rw likes (h.likes_once i u);
      comment_likes_once = λ i u. rw comment_likes (h.comment_likes_once i u);
      threads = commented.threads;
    }
