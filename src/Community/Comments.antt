-- ===== src/Community/Comments.antt =====
-- app/domain/comments/service.py: creating and deleting a comment keeps the counts and the threads.
use kyjness_community_be.Prelude.{
  ℕ, ◌+◌, ◌-◌, ◌≤◌, ◌≡◌, refl, true, false, ◌&&◌, ◌||◌, Option, none, some, List, [], ◌∷◌, ◌++◌,
  count_if, count_if-append, any_of, to_ℕ, arith, ◌==◌, Option-cases, is_none, inl, inr,
}
use kyjness_community_be.Text.{Text}
use kyjness_community_be.Db.Rows.{Db, Post, Comment, Notification, comment_on_post}
use kyjness_community_be.Db.Sql.{update_where, returning, count_if-hide}
use kyjness_community_be.Db.Action.{ok}
use kyjness_community_be.Db.Found.{
  any_of_both, any_of-count_if, count_if-both, one_or_none_there, one_or_none-any_of,
  one_or_none-test,
}
use kyjness_community_be.Db.Tally.{IsTallied-up, IsTallied-down, IsTallied-touch, IsTallied-insert}
use kyjness_community_be.Db.Links.{count_if-keep}
use kyjness_community_be.Posts
use kyjness_community_be.Posts.{is_post, is_undeleted, is_visible_to}
use kyjness_community_be.Comments
use kyjness_community_be.Comments.{is_comment, is_undeleted_in}
use kyjness_community_be.Comments.Service.{
  create_comment, delete_comment, ensure_post_visible, ensure_parent,
}
use kyjness_community_be.Notifications.{Notice}
use kyjness_community_be.Community.Invariant.{
  IsSound, likes_post, likes_comment, comments_on, has_root, is_root,
}
use kyjness_community_be.Community.Threads.{IsThreaded-touch, IsThreaded-insert}
use kyjness_community_be.Community.Likes.{notify_author_notifies}

-- A parent that the service accepts is a root comment of the post, and not deleted.
pub ensure_parent_lem :
    (post_id : ℕ) (parent_id : Option ℕ) (d d' : Db)
    → ensure_parent post_id parent_id d ≡ (ok tt, d')
    → (d' ≡ d) × (has_root d.comments post_id parent_id ≡ true)
unfolding ensure_parent Comments.get_comment_by_id
ensure_parent_lem post_id none d d' e = (ground arith, refl)
ensure_parent_lem post_id (some parent_id) d d' e =
    elim (Option-cases (Comments.get_comment_by_id parent_id false d)) [
      | inl absent ↦ ground arith
      | inr (p, found) ↦
          let is_parent : (is_comment parent_id p && (false || is_none p.deleted_at)) ≡ true =
            one_or_none-test (λ c. is_comment parent_id c && (false || is_none c.deleted_at))
              d.comments p found in
          (
            ground arith,
            one_or_none-any_of (λ c. is_comment parent_id c && (false || is_none c.deleted_at))
                (is_root post_id parent_id) d.comments p found (ground arith),
          )
    ]

module _ (post_id now : ℕ) (d : Db) where
  abbrev pub up : Post → Post
  up p = record p { comment_count = p.comment_count + 1; updated_at = now }

  abbrev pub down : Post → Post
  down p = record p { comment_count = p.comment_count - 1; updated_at = now }

  module _ (comment_id user_id : ℕ) (content : Text) (parent_id : Option ℕ) where
    abbrev pub new_comment : Comment
    new_comment = record {
      id = comment_id;
      post_id = post_id;
      author_id = some user_id;
      parent_id = parent_id;
      content = content;
      like_count = 0;
      report_count = 0;
      is_blinded = false;
      created_at = now;
      updated_at = now;
      deleted_at = none;
    }

    -- the tables with the new comment and the post's count
    abbrev commented : Db
    commented = record d {
      posts = update_where (is_post post_id) up d.posts;
      comments = d.comments ++ new_comment ∷ [];
    }

    comments_up :
        (i : ℕ)
        → count_if (comments_on i) (d.comments ++ new_comment ∷ [])
          ≡ count_if (comments_on i) d.comments + to_ℕ (i == post_id)
    comments_up i = ground (arith, count_if-append (comments_on i) d.comments (new_comment ∷ []))

    commented-IsSound :
        (ns : List Notification)
        → 1 ≤ count_if (is_post post_id) d.posts
        → count_if (is_comment comment_id) d.comments ≡ 0
        → has_root d.comments post_id parent_id ≡ true
        → IsSound d
        → IsSound (record commented { notifications = ns })
    commented-IsSound ns there fresh rooted h = record {
      post_likes =
          IsTallied-touch (λ p. p.id) (λ p. p.like_count) is_undeleted likes_post d.posts
            d.post_likes (is_post post_id) up (λ r. (refl, refl, refl)) h.post_likes;
      post_comments =
          IsTallied-up (λ p. p.id) (λ p. p.comment_count) is_undeleted comments_on d.posts
            d.comments commented.comments post_id up there comments_up (λ r. (refl, refl, refl))
            h.post_comments;
      comment_likes =
          IsTallied-insert (λ c. c.id) (λ c. c.like_count) (λ _. true) likes_comment d.comments
            d.comment_likes new_comment fresh refl h.comment_likes;
      likes_once = h.likes_once;
      comment_likes_once = h.comment_likes_once;
      threads = IsThreaded-insert d.comments new_comment rooted h.threads;
    }

    -- A comment on a post that the user sees, as a root or as an answer to a root comment of the post
    -- that is not deleted, is created under the new UUID; the post counts one comment more, and the
    -- counts and threads stay right.
    pub create_comment_lem :
        (nid : ℕ)
        → Posts.post_is_visible post_id (some user_id) d ≡ true
        → ensure_parent post_id parent_id d ≡ (ok tt, d)
        → count_if (is_comment comment_id) d.comments ≡ 0
        → IsSound d
        → (notice : Option Notice) × (d' : Db) × (create_comment comment_id post_id user_id content
              parent_id nid now d
            ≡ (ok (comment_id, notice), d'))
          × IsSound d'
          × (d'.comments ≡ d.comments ++ new_comment ∷ [])
          × (count_if (comments_on post_id) d'.comments
              ≡ count_if (comments_on post_id) d.comments + 1)
    unfolding create_comment ensure_post_visible Posts.post_is_visible Posts.increment_comment_count
        Comments.create_comment
    create_comment_lem nid visible parent fresh h =
        let (notice, ns, notified) =
          notify_author_notifies (Posts.get_post_author_id post_id commented) user_id
            comment_on_post post_id (some comment_id) nid now commented in
        (
          notice,
          record commented { notifications = ns },
          ground arith,
          commented-IsSound ns
              (any_of_both (is_post post_id) (is_visible_to (some user_id) d) d.posts visible) fresh
              (ensure_parent_lem post_id parent_id d d parent).1 h,
          refl,
          ground (arith, comments_up post_id),
        )

  module _ (comment_id : ℕ) where
    abbrev pub hide : Comment → Comment
    hide c = record c { deleted_at = some now }

    -- the tables with the comment marked and the post's count lowered
    abbrev pub uncommented : Db
    uncommented = record d {
      posts = update_where (is_post post_id) down d.posts;
      comments = update_where (is_undeleted_in post_id comment_id) hide d.comments;
    }

    comments_down :
        any_of (is_undeleted_in post_id comment_id) d.comments ≡ true
        → IsSound d
        → (i : ℕ)
        → count_if (comments_on i) uncommented.comments + to_ℕ (i == post_id)
          ≡ count_if (comments_on i) d.comments
    comments_down there h i = ground (
      arith,
      count_if-hide (comments_on i) (is_undeleted_in post_id comment_id) hide (λ r. ground arith)
          d.comments,
      count_if-keep (comments_on i) (is_undeleted_in post_id comment_id) (i == post_id)
          (λ c k. ground arith) d.comments,
      any_of-count_if (is_undeleted_in post_id comment_id) d.comments there,
      count_if-both (is_comment comment_id) (λ c. c.post_id == post_id && is_none c.deleted_at)
          d.comments,
      h.comment_likes.unique comment_id,
    )

    pub uncommented-IsSound :
        any_of (is_undeleted_in post_id comment_id) d.comments ≡ true
        → IsSound d
        → IsSound uncommented
    uncommented-IsSound there h = record {
      post_likes =
          IsTallied-touch (λ p. p.id) (λ p. p.like_count) is_undeleted likes_post d.posts
            d.post_likes (is_post post_id) down (λ r. (refl, refl, refl)) h.post_likes;
      post_comments =
          IsTallied-down (λ p. p.id) (λ p. p.comment_count) is_undeleted comments_on d.posts
            d.comments uncommented.comments post_id down (comments_down there h)
            (λ r. (refl, refl, refl)) h.post_comments;
      comment_likes =
          IsTallied-touch (λ c. c.id) (λ c. c.like_count) (λ _. true) likes_comment d.comments
            d.comment_likes (is_undeleted_in post_id comment_id) hide (λ r. (refl, refl, refl))
            h.comment_likes;
      likes_once = h.likes_once;
      comment_likes_once = h.comment_likes_once;
      threads =
          IsThreaded-touch (is_undeleted_in post_id comment_id) hide (λ c. (refl, refl, refl))
            d.comments h.threads;
    }

    -- Deleting a comment of the post succeeds and lowers the number of its comments by one. The counts
    -- and threads stay right.
    pub delete_comment_lem :
        (c : Comment)
        → Comments.get_comment_by_id comment_id true d ≡ some c
        → (c.post_id == post_id) ≡ true
        → c.deleted_at ≡ none
        → IsSound d
        → (d' : Db) × (delete_comment post_id comment_id now d ≡ (ok tt, d'))
          × IsSound d'
          × (count_if (comments_on post_id) d'.comments + 1
              ≡ count_if (comments_on post_id) d.comments)
    unfolding delete_comment Comments.get_comment_by_id Posts.decrement_comment_count
        Comments.delete_comment returning
    delete_comment_lem c found here live h =
        let is_c : (is_comment comment_id c && (true || is_none c.deleted_at)) ≡ true =
          one_or_none-test (λ c. is_comment comment_id c && (true || is_none c.deleted_at))
            d.comments c found in
        let there : any_of (is_undeleted_in post_id comment_id) d.comments ≡ true =
          one_or_none-any_of (λ c. is_comment comment_id c && (true || is_none c.deleted_at))
            (is_undeleted_in post_id comment_id) d.comments c found (ground arith) in
        let (_, got, _) = one_or_none_there (is_undeleted_in post_id comment_id) d.comments there in
        (
          uncommented,
          ground arith,
          uncommented-IsSound there h,
          ground (arith, comments_down there h post_id),
        )

    -- Deleting a comment that is deleted already changes nothing, and is no error.
    pub delete_comment_again :
        (c : Comment) (t : ℕ)
        → Comments.get_comment_by_id comment_id true d ≡ some c
        → (c.post_id == post_id) ≡ true
        → c.deleted_at ≡ some t
        → delete_comment post_id comment_id now d ≡ (ok tt, d)
    unfolding delete_comment
    delete_comment_again c t found here gone = ground arith
