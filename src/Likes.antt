-- ===== src/Likes.antt =====
-- app/domain/likes/service.py: `LikeService`. What a method hands to `publish_after_commit` after its
-- transaction is part of its answer. Its statements are UPDATEs of single rows, which never raise
-- StaleDataError: only a flush of a changed object compares versions.
pub mod PostLikes
use kyjness_community_be.Prelude.{
  ℕ, Bool, true, false, not, Option, none, some, if◌then◌else◌, ◌==◌, is_none,
}
use kyjness_community_be.Db.Rows.{Db, NotificationKind, like_on_post, like_on_comment}
use kyjness_community_be.Db.Action.{
  Action, Result, ok, err, post_not_found, comment_not_found, pure, gets, run, transaction, ◌>>=◌,
  ◌>>◌, raise_if, or_raise,
}
use kyjness_community_be.Posts
use kyjness_community_be.Comments
use kyjness_community_be.Comments.CommentLikes
use kyjness_community_be.Comments.Service.{notify_author}
use kyjness_community_be.Likes.PostLikes
use kyjness_community_be.Notifications.{Notice}

-- the answer `(is_liked, like_count, inserted)` of a like, and what is published after the commit
pub record Liked : Type 0 where
  pub is_liked : Bool
  pub like_count : ℕ
  pub inserted : Bool
  pub notice : Option Notice

unfoldable pub like_post : ℕ → ℕ → ℕ → ℕ → Action Liked
like_post post_id user_id nid now = transaction (do
  visible ← gets (Posts.post_is_visible post_id none)
  raise_if (not visible) post_not_found
  inserted ← run (PostLikes.create post_id user_id now)
  if inserted
      then (do
        like_count ← run (Posts.increment_like_count post_id now)
        author_id ← gets (Posts.get_post_author_id post_id)
        notice ← notify_author author_id user_id like_on_post post_id none nid now
        pure
            (record { is_liked = true; like_count = like_count; inserted = true; notice = notice }))
      else (do
        like_count ← gets (Posts.get_like_count post_id)
        pure
            (record { is_liked = true; like_count = like_count; inserted = false; notice = none })))

-- the answer is `(is_liked, like_count)`
unfoldable pub unlike_post : ℕ → ℕ → ℕ → Action (Bool × ℕ)
unlike_post post_id user_id now = transaction (do
  visible ← gets (Posts.post_is_visible post_id none)
  raise_if (not visible) post_not_found
  deleted ← run (PostLikes.delete post_id user_id)
  like_count ←
      (if deleted
        then run (Posts.decrement_like_count post_id now)
        else gets (Posts.get_like_count post_id))
  pure (false, like_count))

unfoldable pub like_comment : ℕ → ℕ → ℕ → ℕ → Action Liked
like_comment comment_id user_id nid now = transaction (do
  row ← gets (Comments.get_comment_by_id comment_id false)
  comment_row ← or_raise row comment_not_found
  inserted ← run (CommentLikes.create comment_id user_id now)
  if inserted
      then (do
        like_count ← run (Comments.increment_like_count comment_id)
        notice ←
            notify_author comment_row.author_id user_id like_on_comment comment_row.post_id
              (some comment_id) nid now
        pure
            (record { is_liked = true; like_count = like_count; inserted = true; notice = notice }))
      else (do
        like_count ← gets (Comments.get_like_count comment_id)
        pure
            (record { is_liked = true; like_count = like_count; inserted = false; notice = none })))

unfoldable pub unlike_comment : ℕ → ℕ → Action (Bool × ℕ)
unlike_comment comment_id user_id = transaction (do
  row ← gets (Comments.get_comment_by_id comment_id false)
  or_raise row comment_not_found
  deleted ← run (CommentLikes.delete comment_id user_id)
  like_count ←
      (if deleted
        then run (Comments.decrement_like_count comment_id)
        else gets (Comments.get_like_count comment_id))
  pure (false, like_count))
