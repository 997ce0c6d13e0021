-- ===== src/Community/Invariant.antt =====
-- The tables of posts, comments and likes (app/domain/{posts,comments,likes}/model.py): the counts that
-- posts and comments cache, and the keys.
use kyjness_community_be.Prelude.{
  ℕ, ◌≤◌, ◌≡◌, Bool, true, ◌&&◌, List, Option, none, some, any_of, All, count_if, ◌==◌, is_none,
}
use kyjness_community_be.Db.Rows.{Db, Post, PostLike, Comment, CommentLike, Report}
use kyjness_community_be.Db.Tally.{IsTallied}
use kyjness_community_be.Posts.{is_undeleted}
use kyjness_community_be.Likes.PostLikes
use kyjness_community_be.Comments.CommentLikes

abbrev pub likes_post : ℕ → PostLike → Bool
likes_post i l = l.post_id == i

abbrev pub comments_on : ℕ → Comment → Bool
comments_on i c = c.post_id == i && is_none c.deleted_at

abbrev pub likes_comment : ℕ → CommentLike → Bool
likes_comment i l = l.comment_id == i

-- `like_count` of a post that is not deleted is the number of its likes.
abbrev pub IsLikeTallied : List Post → List PostLike → Type 0
IsLikeTallied = IsTallied (λ p. p.id) (λ p. p.like_count) is_undeleted likes_post

-- `comment_count` of a post that is not deleted is the number of its undeleted comments.
abbrev pub IsCommentTallied : List Post → List Comment → Type 0
IsCommentTallied = IsTallied (λ p. p.id) (λ p. p.comment_count) is_undeleted comments_on

-- `like_count` of a comment, deleted or not, is the number of its likes.
abbrev pub IsCommentLikeTallied : List Comment → List CommentLike → Type 0
IsCommentLikeTallied = IsTallied (λ c. c.id) (λ c. c.like_count) (λ _. true) likes_comment

abbrev pub is_root : ℕ → ℕ → Comment → Bool
is_root post_id comment_id r = r.id == comment_id && r.post_id == post_id && is_none r.parent_id

-- A comment answers nothing, or a root comment of its post: threads are two levels deep.
abbrev pub has_root : List Comment → ℕ → Option ℕ → Bool
has_root comments post_id none = true
has_root comments post_id (some parent_id) = any_of (is_root post_id parent_id) comments

abbrev pub IsThreaded : List Comment → Type 0
IsThreaded comments = All (λ c. has_root comments c.post_id c.parent_id ≡ true) comments

pub record IsSound (d : Db) : Type 0 where
  pub post_likes : IsLikeTallied d.posts d.post_likes
  pub post_comments : IsCommentTallied d.posts d.comments
  pub comment_likes : IsCommentLikeTallied d.comments d.comment_likes
  pub likes_once : (i u : ℕ) → count_if (PostLikes.is_like i u) d.post_likes ≤ 1
  pub comment_likes_once : (i u : ℕ) → count_if (CommentLikes.is_like i u) d.comment_likes ≤ 1
  pub threads : IsThreaded d.comments

-- the table of reports has no part in it
pub with_reports-IsSound :
    (d : Db) (reports : List Report) → IsSound d → IsSound (record d { reports = reports })
with_reports-IsSound d reports h = record {
  post_likes = h.post_likes;
  post_comments = h.post_comments;
  comment_likes = h.comment_likes;
  likes_once = h.likes_once;
  comment_likes_once = h.comment_likes_once;
  threads = h.threads;
}
