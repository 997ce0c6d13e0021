-- ===== src/Community/CommentLikes.antt =====
-- app/domain/likes/service.py: the likes of comments.
use kyjness_community_be.Prelude.{
  ℕ, ◌+◌, ◌-◌, ◌≤◌, ◌≡◌, refl, Bool, true, false, not, ◌&&◌, ◌||◌, none, some, List, [], ◌∷◌, ◌++◌,
  count_if, count_if-append, any_of, any_of-append, to_ℕ, arith, ◌==◌, Bool-split, is_none,
}
use kyjness_community_be.Db.Rows.{Db, Comment, CommentLike, Notification, like_on_comment}
use kyjness_community_be.Db.Sql.{
  update_where, delete_where, returning, count_if-delete_where-le, count_if-update_where,
}
use kyjness_community_be.Db.Action.{ok, err, comment_not_found}
use kyjness_community_be.Db.Found.{
  any_of_both, count_if-any_of, one_or_none_there, one_or_none_absent,
}
use kyjness_community_be.Db.Tally.{IsTallied-up, IsTallied-down, IsTallied-links, column_is_tally}
use kyjness_community_be.Db.Links.{
  insert_grows, delete_falls, delete_where_none, any_of-delete_where,
}
use kyjness_community_be.Comments
use kyjness_community_be.Comments.{is_comment}
use kyjness_community_be.Posts.{is_undeleted}
use kyjness_community_be.Likes.{Liked, like_comment, unlike_comment}
use kyjness_community_be.Comments.CommentLikes
use kyjness_community_be.Community.Invariant.{IsSound, likes_comment, comments_on}
use kyjness_community_be.Community.Threads.{IsThreaded-touch}
use kyjness_community_be.Community.Likes.{notify_author_notifies}

-- whether there is such a comment, not deleted
abbrev pub is_there : ℕ → Db → Bool
is_there comment_id d =
    any_of (λ c. is_comment comment_id c && (false || is_none c.deleted_at)) d.comments

module _ (comment_id user_id now : ℕ) (d : Db) where
  abbrev new_like : CommentLike
  new_like = record { comment_id = comment_id; user_id = user_id; created_at = now }

  owned :
      (l : CommentLike) (i : ℕ)
      → CommentLikes.is_like comment_id user_id l ≡ true
      → likes_comment i l ≡ (i == comment_id)
  owned l i k = ground arith

  abbrev up : Comment → Comment
  up p = record p { like_count = p.like_count + 1 }

  abbrev down : Comment → Comment
  down p = record p { like_count = p.like_count - 1 }

  -- the tables with the new like and the comment's count
  abbrev liked : Db
  liked = record d {
    comments = update_where (is_comment comment_id) up d.comments;
    comment_likes = d.comment_likes ++ new_like ∷ [];
  }

  likes_up :
      (i : ℕ)
      → count_if (likes_comment i) (d.comment_likes ++ new_like ∷ [])
        ≡ count_if (likes_comment i) d.comment_likes + to_ℕ (i == comment_id)
  likes_up =
      insert_grows (CommentLikes.is_like comment_id user_id) likes_comment comment_id owned
        d.comment_likes new_like (ground arith)

  liked-IsSound :
      (ns : List Notification)
      → 1 ≤ count_if (is_comment comment_id) d.comments
      → any_of (CommentLikes.is_like comment_id user_id) d.comment_likes ≡ false
      → IsSound d
      → IsSound (record liked { notifications = ns })
  liked-IsSound ns there fresh h = record {
    comment_likes =
        IsTallied-up (λ p. p.id) (λ p. p.like_count) (λ _. true) likes_comment d.comments
          d.comment_likes liked.comment_likes comment_id up there likes_up (λ r. (refl, refl, refl))
          h.comment_likes;
    post_comments =
        IsTallied-links (λ p. p.id) (λ p. p.comment_count) is_undeleted comments_on d.posts
          d.comments liked.comments
          (λ i.
            count_if-update_where (comments_on i) (is_comment comment_id) up (λ r. refl) d.comments)
          h.post_comments;
    post_likes = h.post_likes;
    comment_likes_once = λ i u. ground (
      arith,
      count_if-append (CommentLikes.is_like i u) d.comment_likes (new_like ∷ []),
      h.comment_likes_once i u,
      count_if-any_of (CommentLikes.is_like comment_id user_id) d.comment_likes fresh,
    );
    likes_once = h.likes_once;
    threads =
        IsThreaded-touch (is_comment comment_id) up (λ c. (refl, refl, refl)) d.comments h.threads;
  }

  -- A like of a comment that is there succeeds. It answers whether the like is new and how many likes the
  -- comment then has, the like is in the table, and the counts stay right.
  pub like_comment_lem :
      (nid : ℕ)
      → is_there comment_id d ≡ true
      → IsSound d
      → (a : Liked) × (d' : Db) × (like_comment comment_id user_id nid now d ≡ (ok a, d'))
        × IsSound d'
        × (a.inserted ≡ not (CommentLikes.has_like comment_id user_id d))
        × (a.like_count ≡ count_if (likes_comment comment_id) d'.comment_likes)
        × (CommentLikes.has_like comment_id user_id d' ≡ true)
  unfolding like_comment CommentLikes.has_like CommentLikes.create Comments.increment_like_count
      Comments.get_like_count Comments.get_comment_by_id returning
  like_comment_lem nid there h =
      let (p, found, shown, right) =
        column_is_tally (λ p. p.id) (λ p. p.like_count) (λ _. true) likes_comment d.comments
          d.comment_likes comment_id (λ c. false || is_none c.deleted_at) (λ r e. refl) there
          h.comment_likes in
      let (c, got, _) =
        one_or_none_there (λ c. is_comment comment_id c && (false || is_none c.deleted_at))
          d.comments there in
      Bool-split (any_of (CommentLikes.is_like comment_id user_id) d.comment_likes)
        (λ old. (
          record { is_liked = true; like_count = p.like_count; inserted = false; notice = none },
          d,
          ground arith,
          h,
          ground arith,
          right,
          old,
        ))
        (λ fresh.
          let (notice, ns, notified) =
            notify_author_notifies c.author_id user_id like_on_comment c.post_id (some comment_id)
              nid now liked in
          (
            record {
              is_liked = true;
              like_count = p.like_count + 1;
              inserted = true;
              notice = notice;
            },
            record liked { notifications = ns },
            ground arith,
            liked-IsSound ns
                (any_of_both (is_comment comment_id) (λ c. false || is_none c.deleted_at) d.comments
                  there)
                fresh h,
            ground arith,
            ground (arith, likes_up comment_id),
            ground (
              arith,
              any_of-append (CommentLikes.is_like comment_id user_id) d.comment_likes
                  (new_like ∷ []),
            ),
          ))

  -- A like of a comment that is deleted or absent is refused and changes nothing.
  pub like_comment_refused :
      (nid : ℕ)
      → is_there comment_id d ≡ false
      → like_comment comment_id user_id nid now d ≡ (err comment_not_found, d)
  unfolding like_comment Comments.get_comment_by_id
  like_comment_refused nid absent = ground (
    arith,
    one_or_none_absent (λ c. is_comment comment_id c && (false || is_none c.deleted_at)) d.comments
        absent,
  )

  likes_down :
      any_of (CommentLikes.is_like comment_id user_id) d.comment_likes ≡ true
      → IsSound d
      → (i : ℕ)
      → count_if
            (likes_comment i)
            (delete_where (CommentLikes.is_like comment_id user_id) d.comment_likes)
          + to_ℕ (i == comment_id)
        ≡ count_if (likes_comment i) d.comment_likes
  likes_down there h =
      delete_falls (CommentLikes.is_like comment_id user_id) likes_comment comment_id owned
        d.comment_likes (h.comment_likes_once comment_id user_id) there

  -- the tables without the like and with the comment's count lowered
  abbrev unliked : Db
  unliked = record d {
    comments = update_where (is_comment comment_id) down d.comments;
    comment_likes = delete_where (CommentLikes.is_like comment_id user_id) d.comment_likes;
  }

  unliked-IsSound :
      any_of (CommentLikes.is_like comment_id user_id) d.comment_likes ≡ true
      → IsSound d
      → IsSound unliked
  unliked-IsSound there h = record {
    comment_likes =
        IsTallied-down (λ p. p.id) (λ p. p.like_count) (λ _. true) likes_comment d.comments
          d.comment_likes unliked.comment_likes comment_id down (likes_down there h)
          (λ r. (refl, refl, refl)) h.comment_likes;
    post_comments =
        IsTallied-links (λ p. p.id) (λ p. p.comment_count) is_undeleted comments_on d.posts
          d.comments unliked.comments
          (λ i.
            count_if-update_where (comments_on i) (is_comment comment_id) down (λ r. refl)
              d.comments)
          h.post_comments;
    post_likes = h.post_likes;
    comment_likes_once = λ i u. ground (
      arith,
      h.comment_likes_once i u,
      count_if-delete_where-le (CommentLikes.is_like i u) (CommentLikes.is_like comment_id user_id)
          d.comment_likes,
    );
    likes_once = h.likes_once;
    threads =
        IsThreaded-touch (is_comment comment_id) down (λ c. (refl, refl, refl)) d.comments
          h.threads;
  }

  -- Taking back the like of a comment that is there succeeds, whether there was one or not. It answers how many
  -- likes the post then has, none of them is the user's, and the counts stay right.
  pub unlike_comment_lem :
      is_there comment_id d ≡ true
      → IsSound d
      → (d' : Db) × (unlike_comment comment_id user_id d
          ≡ (ok (false, count_if (likes_comment comment_id) d'.comment_likes), d'))
        × IsSound d'
        × (CommentLikes.has_like comment_id user_id d' ≡ false)
  unfolding unlike_comment CommentLikes.has_like CommentLikes.delete Comments.decrement_like_count
      Comments.get_comment_by_id Comments.get_like_count returning
  unlike_comment_lem there h =
      let (p, found, shown, right) =
        column_is_tally (λ p. p.id) (λ p. p.like_count) (λ _. true) likes_comment d.comments
          d.comment_likes comment_id (λ c. false || is_none c.deleted_at) (λ r e. refl) there
          h.comment_likes in
      let (c, got, _) =
        one_or_none_there (λ c. is_comment comment_id c && (false || is_none c.deleted_at))
          d.comments there in
      Bool-split (any_of (CommentLikes.is_like comment_id user_id) d.comment_likes)
        (λ old. (
          unliked,
          ground (arith, likes_down old h comment_id),
          unliked-IsSound old h,
          any_of-delete_where (CommentLikes.is_like comment_id user_id) d.comment_likes,
        ))
        (λ absent. (
          d,
          ground (
            arith,
            delete_where_none (CommentLikes.is_like comment_id user_id) d.comment_likes absent,
          ),
          h,
          absent,
        ))
