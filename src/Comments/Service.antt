-- ===== src/Comments/Service.antt =====
-- app/domain/comments/service.py: `CommentService`, and the permission checks of its routes
-- (app/api/dependencies/permissions.py). Its statements are UPDATEs of single rows, which never raise
-- StaleDataError.
use kyjness_community_be.Prelude.{
  ℕ, true, false, not, ◌||◌, Option, none, some, if◌then◌else◌, ◌==◌, is_none, opt_eq,
}
use kyjness_community_be.Text.{Text}
use kyjness_community_be.Db.Rows.{Db, NotificationKind, comment_on_post}
use kyjness_community_be.Db.Action.{
  Action, Result, ok, err, post_not_found, comment_not_found, forbidden, invalid_post_id_format,
  pure, gets, run, transaction, ◌>>=◌, ◌>>◌, raise_if, or_raise,
}
use kyjness_community_be.Posts.{
  post_is_visible, get_post_author_id, increment_comment_count, decrement_comment_count,
}
use kyjness_community_be.Comments
use kyjness_community_be.Comments.{PermissionRow, load_comment_author_permission_row}
use kyjness_community_be.Notifications.{Notice, insert}

-- `_ensure_post_visible`
unfoldable pub ensure_post_visible : ℕ → Option ℕ → Action (Unit {0})
ensure_post_visible post_id viewer = do
  visible ← gets (post_is_visible post_id viewer)
  raise_if (not visible) post_not_found

-- A reply is refused if its parent is not a comment of the post, is deleted, or is a reply itself.
unfoldable pub ensure_parent : ℕ → Option ℕ → Action (Unit {0})
ensure_parent post_id none = pure tt
ensure_parent post_id (some parent_id) = do
  row ← gets (Comments.get_comment_by_id parent_id false)
  parent ← or_raise row comment_not_found
  raise_if (not (parent.post_id == post_id) || not (is_none parent.deleted_at)) comment_not_found
  raise_if (not (is_none parent.parent_id)) comment_not_found

-- the notification of an author who is not the one that acts
unfoldable pub notify_author :
    Option ℕ → ℕ → NotificationKind → ℕ → Option ℕ → ℕ → ℕ → Action (Option Notice)
notify_author none user_id kind post_id comment_id nid now = pure none
notify_author (some author_id) user_id kind post_id comment_id nid now =
    if author_id == user_id then pure none else do
      new ← run (insert nid author_id kind user_id post_id comment_id now)
      pure (
          some (record {
            recipient_user_id = author_id;
            notification_id = new;
            kind = kind;
            actor_id = user_id;
            post_id = post_id;
            comment_id = comment_id;
          }))

-- `create_comment`: the id of the new comment, and what is published after the commit.
unfoldable pub create_comment : ℕ → ℕ → ℕ → Text → Option ℕ → ℕ → ℕ → Action (ℕ × Option Notice)
create_comment comment_id post_id user_id content parent_id nid now = transaction (do
  ensure_post_visible post_id (some user_id)
  ensure_parent post_id parent_id
  comment ← run (Comments.create_comment comment_id post_id user_id content parent_id now)
  run (increment_comment_count post_id now)
  post_author_id ← gets (get_post_author_id post_id)
  notice ← notify_author post_author_id user_id comment_on_post post_id (some comment.id) nid now
  pure (comment.id, notice))

unfoldable pub update_comment : ℕ → ℕ → Text → ℕ → Action (Unit {0})
update_comment post_id comment_id content now = transaction (do
  affected ← run (Comments.update_comment post_id comment_id content now)
  raise_if (affected == 0) comment_not_found)

-- A comment that is deleted already is left as it is.
unfoldable pub delete_comment : ℕ → ℕ → ℕ → Action (Unit {0})
delete_comment post_id comment_id now = transaction (do
  row ← gets (Comments.get_comment_by_id comment_id true)
  comment ← or_raise row comment_not_found
  raise_if (not (comment.post_id == post_id)) comment_not_found
  if not (is_none comment.deleted_at) then pure tt else (do
    deleted ← run (Comments.delete_comment post_id comment_id now)
    raise_if (not deleted) comment_not_found
    run (decrement_comment_count post_id now)
    pure tt))

-- the checks that `require_comment_author` and `require_comment_author_for_delete` share
unfoldable pub check_comment_author : Option PermissionRow → ℕ → ℕ → Result (Unit {0})
check_comment_author none post_id user_id = err post_not_found
check_comment_author (some row) post_id user_id =
    if is_none row.comment_id
    then err comment_not_found
    else if not (opt_eq row.comment_post_id post_id)
    then err invalid_post_id_format
    else if not (opt_eq row.comment_author_id user_id)
    then err forbidden
    else ok tt

unfoldable pub require_comment_author : ℕ → ℕ → ℕ → Db → Result (Unit {0})
require_comment_author post_id comment_id user_id d =
    check_comment_author (load_comment_author_permission_row post_id comment_id false d) post_id
      user_id

unfoldable pub require_comment_author_for_delete : ℕ → ℕ → ℕ → Db → Result (Unit {0})
require_comment_author_for_delete post_id comment_id user_id d =
    check_comment_author (load_comment_author_permission_row post_id comment_id true d) post_id
      user_id

unfoldable pub require_post_author : ℕ → ℕ → Db → Result (Unit {0})
require_post_author post_id user_id d = elim (get_post_author_id post_id d) [
  | none ↦ err post_not_found
  | some author_id ↦ if author_id == user_id then ok tt else err forbidden
]
