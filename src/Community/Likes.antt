-- ===== src/Community/Likes.antt =====
-- app/domain/likes/service.py: what a like and its withdrawal answer, and that the counts stay right.
use kyjness_community_be.Prelude.{
  ℕ, ◌+◌, ◌-◌, ◌≤◌, ◌≡◌, refl, true, false, not, Option, none, some, List, [], ◌∷◌, ◌++◌, count_if,
  count_if-append, any_of, any_of-append, to_ℕ, arith, ◌==◌, Bool-split,
}
use kyjness_community_be.Db.Rows.{Db, Post, PostLike, Notification, NotificationKind, like_on_post}
use kyjness_community_be.Db.Sql.{update_where, delete_where, returning, count_if-delete_where-le}
use kyjness_community_be.Db.Action.{ok, err, post_not_found}
use kyjness_community_be.Db.Found.{any_of_both, count_if-any_of}
use kyjness_community_be.Db.Tally.{IsTallied-up, IsTallied-down, IsTallied-touch, column_is_tally}
use kyjness_community_be.Db.Links.{
  insert_grows, delete_falls, delete_where_none, any_of-delete_where,
}
use kyjness_community_be.Posts
use kyjness_community_be.Posts.{is_post, is_undeleted, is_visible_to}
use kyjness_community_be.Likes.{Liked, like_post, unlike_post}
use kyjness_community_be.Likes.PostLikes
use kyjness_community_be.Comments.Service.{notify_author}
use kyjness_community_be.Notifications.{Notice, insert}
use kyjness_community_be.Community.Invariant.{IsSound, likes_post, comments_on}

-- A notification changes no other table, and never raises.
pub notify_author_notifies :
    (author : Option ℕ) (user_id : ℕ) (kind : NotificationKind) (post_id : ℕ)
    (comment_id : Option ℕ) (nid now : ℕ) (d : Db)
    → (notice : Option Notice) × (ns : List Notification) × (notify_author author user_id kind
          post_id comment_id nid now d
        ≡ (ok notice, record d { notifications = ns }))
unfolding notify_author insert
notify_author_notifies none user_id kind post_id comment_id nid now d =
    (none, d.notifications, refl)
notify_author_notifies (some a) user_id kind post_id comment_id nid now d =
    Bool-split (a == user_id) (λ e. (none, d.notifications, ground arith))
      (λ e. (some (notice_of a), added a, ground arith))
  where
    notice_of : ℕ → Notice
    notice_of a = record {
      recipient_user_id = a;
      notification_id = nid;
      kind = kind;
      actor_id = user_id;
      post_id = post_id;
      comment_id = comment_id;
    }

    added : ℕ → List Notification
    added a =
        d.notifications
        ++ record {
          id = nid;
          user_id = a;
          kind = kind;
          actor_id = some user_id;
          post_id = some post_id;
          comment_id = comment_id;
          read_at = none;
          created_at = now;
        }
          ∷ []

module _ (post_id user_id now : ℕ) (d : Db) where
  abbrev new_like : PostLike
  new_like = record { post_id = post_id; user_id = user_id; created_at = now }

  owned :
      (l : PostLike) (i : ℕ)
      → PostLikes.is_like post_id user_id l ≡ true
      → likes_post i l ≡ (i == post_id)
  owned l i k = ground arith

  abbrev up : Post → Post
  up p = record p { like_count = p.like_count + 1; updated_at = now }

  abbrev down : Post → Post
  down p = record p { like_count = p.like_count - 1; updated_at = now }

  -- the tables with the new like and the post's count
  abbrev liked : Db
  liked = record d {
    posts = update_where (is_post post_id) up d.posts;
    post_likes = d.post_likes ++ new_like ∷ [];
  }

  likes_up :
      (i : ℕ)
      → count_if (likes_post i) (d.post_likes ++ new_like ∷ [])
        ≡ count_if (likes_post i) d.post_likes + to_ℕ (i == post_id)
  likes_up =
      insert_grows (PostLikes.is_like post_id user_id) likes_post post_id owned d.post_likes
        new_like (ground arith)

  liked-IsSound :
      (ns : List Notification)
      → 1 ≤ count_if (is_post post_id) d.posts
      → any_of (PostLikes.is_like post_id user_id) d.post_likes ≡ false
      → IsSound d
      → IsSound (record liked { notifications = ns })
  liked-IsSound ns there fresh h = record {
    post_likes =
        IsTallied-up (λ p. p.id) (λ p. p.like_count) is_undeleted likes_post d.posts d.post_likes
          liked.post_likes post_id up there likes_up (λ r. (refl, refl, refl)) h.post_likes;
    post_comments =
        IsTallied-touch (λ p. p.id) (λ p. p.comment_count) is_undeleted comments_on d.posts
          d.comments (is_post post_id) up (λ r. (refl, refl, refl)) h.post_comments;
    comment_likes = h.comment_likes;
    likes_once = λ i u. ground (
      arith,
      count_if-append (PostLikes.is_like i u) d.post_likes (new_like ∷ []),
      h.likes_once i u,
      count_if-any_of (PostLikes.is_like post_id user_id) d.post_likes fresh,
    );
    comment_likes_once = h.comment_likes_once;
    threads = h.threads;
  }

  -- A like of a visible post succeeds. It answers whether the like is new and how many likes the post
  -- then has, the like is in the table, and the counts stay right.
  pub like_post_lem :
      (nid : ℕ)
      → Posts.post_is_visible post_id none d ≡ true
      → IsSound d
      → (a : Liked) × (d' : Db) × (like_post post_id user_id nid now d ≡ (ok a, d'))
        × IsSound d'
        × (a.inserted ≡ not (PostLikes.has_like post_id user_id d))
        × (a.like_count ≡ count_if (likes_post post_id) d'.post_likes)
        × (PostLikes.has_like post_id user_id d' ≡ true)
  unfolding like_post Posts.post_is_visible PostLikes.has_like PostLikes.create
      Posts.increment_like_count Posts.get_like_count Posts.get_post_author_id returning
  like_post_lem nid visible h =
      let (p, found, shown, right) =
        column_is_tally (λ p. p.id) (λ p. p.like_count) is_undeleted likes_post d.posts d.post_likes
          post_id (is_visible_to none d) (λ r e. ground arith) visible h.post_likes in
      Bool-split (any_of (PostLikes.is_like post_id user_id) d.post_likes)
        (λ old. (
          record { is_liked = true; like_count = p.like_count; inserted = false; notice = none },
          d,
          ground arith,
          h,
          ground arith,
          right,
          old,
        ))
        (λ fresh.
          let (notice, ns, notified) =
            notify_author_notifies (Posts.get_post_author_id post_id liked) user_id like_on_post
              post_id none nid now liked in
          (
            record {
              is_liked = true;
              like_count = p.like_count + 1;
              inserted = true;
              notice = notice;
            },
            record liked { notifications = ns },
            ground arith,
            liked-IsSound ns (any_of_both (is_post post_id) (is_visible_to none d) d.posts visible)
                fresh h,
            ground arith,
            ground (arith, likes_up post_id),
            ground (
              arith,
              any_of-append (PostLikes.is_like post_id user_id) d.post_likes (new_like ∷ []),
            ),
          ))

  -- A like of a post that is deleted, blinded or absent is refused and changes nothing.
  pub like_post_refused :
      (nid : ℕ)
      → Posts.post_is_visible post_id none d ≡ false
      → like_post post_id user_id nid now d ≡ (err post_not_found, d)
  unfolding like_post
  like_post_refused nid hidden = ground arith

  likes_down :
      any_of (PostLikes.is_like post_id user_id) d.post_likes ≡ true
      → IsSound d
      → (i : ℕ)
      → count_if (likes_post i) (delete_where (PostLikes.is_like post_id user_id) d.post_likes)
          + to_ℕ (i == post_id)
        ≡ count_if (likes_post i) d.post_likes
  likes_down there h =
      delete_falls (PostLikes.is_like post_id user_id) likes_post post_id owned d.post_likes
        (h.likes_once post_id user_id) there

  -- the tables without the like and with the post's count lowered
  abbrev unliked : Db
  unliked = record d {
    posts = update_where (is_post post_id) down d.posts;
    post_likes = delete_where (PostLikes.is_like post_id user_id) d.post_likes;
  }

  unliked-IsSound :
      any_of (PostLikes.is_like post_id user_id) d.post_likes ≡ true → IsSound d → IsSound unliked
  unliked-IsSound there h = record {
    post_likes =
        IsTallied-down (λ p. p.id) (λ p. p.like_count) is_undeleted likes_post d.posts d.post_likes
          unliked.post_likes post_id down (likes_down there h) (λ r. (refl, refl, refl))
          h.post_likes;
    post_comments =
        IsTallied-touch (λ p. p.id) (λ p. p.comment_count) is_undeleted comments_on d.posts
          d.comments (is_post post_id) down (λ r. (refl, refl, refl)) h.post_comments;
    comment_likes = h.comment_likes;
    likes_once = λ i u. ground (
      arith,
      h.likes_once i u,
      count_if-delete_where-le (PostLikes.is_like i u) (PostLikes.is_like post_id user_id)
          d.post_likes,
    );
    comment_likes_once = h.comment_likes_once;
    threads = h.threads;
  }

  -- Taking back the like of a visible post succeeds, whether there was one or not. It answers how many
  -- likes the post then has, none of them is the user's, and the counts stay right.
  pub unlike_post_lem :
      Posts.post_is_visible post_id none d ≡ true
      → IsSound d
      → (d' : Db) × (unlike_post post_id user_id now d
          ≡ (ok (false, count_if (likes_post post_id) d'.post_likes), d'))
        × IsSound d'
        × (PostLikes.has_like post_id user_id d' ≡ false)
  unfolding unlike_post PostLikes.has_like PostLikes.delete Posts.decrement_like_count
      Posts.post_is_visible Posts.get_like_count returning
  unlike_post_lem visible h =
      let (p, found, shown, right) =
        column_is_tally (λ p. p.id) (λ p. p.like_count) is_undeleted likes_post d.posts d.post_likes
          post_id (is_visible_to none d) (λ r e. ground arith) visible h.post_likes in
      Bool-split (any_of (PostLikes.is_like post_id user_id) d.post_likes)
        (λ there. (
          unliked,
          ground (arith, likes_down there h post_id),
          unliked-IsSound there h,
          any_of-delete_where (PostLikes.is_like post_id user_id) d.post_likes,
        ))
        (λ absent. (
          d,
          ground (arith, delete_where_none (PostLikes.is_like post_id user_id) d.post_likes absent),
          h,
          absent,
        ))
