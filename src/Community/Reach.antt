-- ===== src/Community/Reach.antt =====
-- The community as a step relation: each step is a call of a service on posts, comments, likes and
-- reports, accepted or refused. A new row is given a UUID that is not in use. A purge of withdrawn users
-- is a step where they have left no like: with likes it makes the cached counts wrong.
use kyjness_community_be.Prelude.{ℕ, ◌≡◌, Bool, true, false, ◌&&◌, Option, some, count_if, arith}
use kyjness_community_be.Text.{Text}
use kyjness_community_be.Db.Rows.{Db, Post, TargetType}
use kyjness_community_be.Db.Counters.{IsCounted}
use kyjness_community_be.Db.Found.{one_or_none_there, one_or_none-All}
use kyjness_community_be.Posts
use kyjness_community_be.Posts.{is_post, is_visible_to, is_undeleted}
use kyjness_community_be.Posts.Service.{
  PostCreateRequest, PostUpdateRequest, create_post, update_post,
}
use kyjness_community_be.Comments.{is_comment}
use kyjness_community_be.Comments.Service
use kyjness_community_be.Likes
use kyjness_community_be.Reports.{submit_report}
use kyjness_community_be.Admin
use kyjness_community_be.Community.Invariant.{IsSound, likes_post, comments_on}
use kyjness_community_be.Community.Keeps.{
  like_post-IsSound, unlike_post-IsSound, like_comment-IsSound, unlike_comment-IsSound,
  create_comment-IsSound, delete_comment-IsSound,
}
use kyjness_community_be.Community.Edits.{
  create_post-IsSound, update_post-IsSound, update_comment-IsSound,
}
use kyjness_community_be.Users.Purge.{chosen, purge_withdrawn_users_older_than}
use kyjness_community_be.Community.Purges.{have_liked, purge-IsSound}
use kyjness_community_be.Community.Moderation

pub data Step (d : Db) : Db → Type 0 where
  post_created :
      (post_id user_id : ℕ) (request : PostCreateRequest) (next now : ℕ)
      → count_if (is_post post_id) d.posts ≡ 0
      → Step d (create_post post_id user_id request next now d).1
  post_updated :
      (post_id : ℕ) (request : PostUpdateRequest) (next now : ℕ)
      → Step d (update_post post_id request next now d).1
  post_deleted : (post_id now : ℕ) → Step d (Admin.delete_post post_id now d).1
  post_liked : (post_id user_id nid now : ℕ) → Step d (Likes.like_post post_id user_id nid now d).1
  post_unliked : (post_id user_id now : ℕ) → Step d (Likes.unlike_post post_id user_id now d).1
  comment_created :
      (comment_id post_id user_id : ℕ) (content : Text) (parent_id : Option ℕ) (nid now : ℕ)
      → count_if (is_comment comment_id) d.comments ≡ 0
      → Step d (Service.create_comment comment_id post_id user_id content parent_id nid now d).1
  comment_updated :
      (post_id comment_id : ℕ) (content : Text) (now : ℕ)
      → Step d (Service.update_comment post_id comment_id content now d).1
  comment_deleted :
      (post_id comment_id now : ℕ) → Step d (Service.delete_comment post_id comment_id now d).1
  comment_removed :
      (post_id comment_id now : ℕ) → Step d (Admin.delete_comment post_id comment_id now d).1
  comment_liked :
      (comment_id user_id nid now : ℕ) → Step d (Likes.like_comment comment_id user_id nid now d).1
  comment_unliked : (comment_id user_id : ℕ) → Step d (Likes.unlike_comment comment_id user_id d).1
  target_reported :
      (threshold report_id reporter_id : ℕ) (kind : TargetType) (target : ℕ) (reason : Option Text)
      (now : ℕ)
      → Step d (submit_report threshold report_id reporter_id kind target reason now d).1
  post_blinded : (post_id now : ℕ) → Step d (Admin.blind_post post_id now d).1
  post_unblinded : (post_id now : ℕ) → Step d (Admin.unblind_post post_id now d).1
  post_reports_reset : (post_id now : ℕ) → Step d (Admin.reset_post_reports post_id now d).1
  comment_blinded : (comment_id now : ℕ) → Step d (Admin.blind_comment comment_id now d).1
  comment_unblinded : (comment_id now : ℕ) → Step d (Admin.unblind_comment comment_id now d).1
  comment_reports_reset :
      (comment_id now : ℕ) → Step d (Admin.reset_comment_reports comment_id now d).1
  -- one transaction of the purge of withdrawn users
  users_purged :
      (cutoff limit : ℕ)
      → have_liked (chosen cutoff limit d) d ≡ false
      → Step d (purge_withdrawn_users_older_than cutoff limit d).1

-- any number of calls, one after another
pub data Reach (d : Db) : Db → Type 0 where
  start : Reach d d
  and_then : (d' d'' : Db) → Reach d d' → Step d' d'' → Reach d d''

pub Step-IsSound : (d d' : Db) → Step d d' → IsSound d → IsSound d'
Step-IsSound d d' (post_created i u request next now fresh) h =
    create_post-IsSound i u request next now d fresh h
Step-IsSound d d' (post_updated i request next now) h = update_post-IsSound i request next now d h
Step-IsSound d d' (post_deleted i now) h = Moderation.delete_post-IsSound i now d h
Step-IsSound d d' (post_liked i u nid now) h = like_post-IsSound i u nid now d h
Step-IsSound d d' (post_unliked i u now) h = unlike_post-IsSound i u now d h
Step-IsSound d d' (comment_created c i u content parent nid now fresh) h =
    create_comment-IsSound c i u content parent nid now d fresh h
Step-IsSound d d' (comment_updated i c content now) h = update_comment-IsSound i c content now d h
Step-IsSound d d' (comment_deleted i c now) h = delete_comment-IsSound i c now d h
Step-IsSound d d' (comment_removed i c now) h = Moderation.delete_comment-IsSound c now d h i
Step-IsSound d d' (comment_liked c u nid now) h = like_comment-IsSound c u nid now d h
Step-IsSound d d' (comment_unliked c u) h = unlike_comment-IsSound c u d h
Step-IsSound d d' (target_reported threshold r u kind target reason now) h =
    Moderation.submit_report-IsSound target now d h threshold r u reason kind
Step-IsSound d d' (post_blinded i now) h = Moderation.blind_post-IsSound i now d h
Step-IsSound d d' (post_unblinded i now) h = Moderation.unblind_post-IsSound i now d h
Step-IsSound d d' (post_reports_reset i now) h = Moderation.reset_post_reports-IsSound i now d h
Step-IsSound d d' (comment_blinded c now) h = Moderation.blind_comment-IsSound c now d h
Step-IsSound d d' (comment_unblinded c now) h = Moderation.unblind_comment-IsSound c now d h
Step-IsSound d d' (comment_reports_reset c now) h =
    Moderation.reset_comment_reports-IsSound c now d h
Step-IsSound d d' (users_purged cutoff limit unliked) h = purge-IsSound cutoff limit d unliked h

-- On sound tables, whatever sequence of calls is made, accepted or refused, that create, edit or delete
-- posts and comments, like and unlike them, report and moderate them, or purge withdrawn users who have
-- left no like, where new rows get fresh UUIDs: the tables stay sound, that is, the counts that posts and
-- comments cache are right, likes are unique, and replies answer root comments of their post.
pub Reach-IsSound : (d d' : Db) → Reach d d' → IsSound d → IsSound d'
Reach-IsSound d d' start h = h
Reach-IsSound d d' (and_then before after calls last) h =
    Step-IsSound before d' last (Reach-IsSound d before calls h)

-- After any sequence of such calls on sound tables (creating with fresh UUIDs, editing, deleting, liking,
-- reporting and moderating posts and comments, and purges of withdrawn users who have left no like), the
-- post that a viewer is shown carries the number of its likes and that of its undeleted comments.
pub shown_counts :
    (d d' : Db)
    → Reach d d'
    → IsSound d
    → (post_id : ℕ) (viewer : Option ℕ) → Posts.post_is_visible post_id viewer d' ≡ true
    → (p : Post) × (Posts.get_post_by_id post_id viewer d' ≡ some p)
      × (p.like_count ≡ count_if (likes_post post_id) d'.post_likes)
      × (p.comment_count ≡ count_if (comments_on post_id) d'.comments)
unfolding Posts.post_is_visible Posts.get_post_by_id
shown_counts d d' calls h post_id viewer visible =
    let sound = Reach-IsSound d d' calls h in
    let shown : Post → Bool = λ p. is_post post_id p && is_visible_to viewer d' p in
    let (p, found, _) = one_or_none_there shown d'.posts visible in
    let (likes, is_shown) =
      one_or_none-All
        (IsCounted (λ p. p.id) (λ p. p.like_count) is_undeleted
          (λ i. count_if (likes_post i) d'.post_likes))
        shown d'.posts p sound.post_likes.counted found in
    let (comments, _) =
      one_or_none-All
        (IsCounted (λ p. p.id) (λ p. p.comment_count) is_undeleted
          (λ i. count_if (comments_on i) d'.comments))
        shown d'.posts p sound.post_comments.counted found in
    (p, found, ground arith, ground arith)
