-- ===== src/Admin.antt =====
-- app/domain/admin/service.py: `AdminService` on posts and comments. A `raise` that stands after the
-- `async with db.begin()` block leaves what the block has committed.
use kyjness_community_be.Prelude.{
  ℕ, false, not, Option, none, some, if◌then◌else◌, ltb, length, take, ◌++◌, ◌∷◌, [], is_none,
}
use kyjness_community_be.Text.{Text}
use kyjness_community_be.Db.Rows.{post, comment}
use kyjness_community_be.Db.Action.{
  Action, post_not_found, comment_not_found, pure, gets, run, transaction, ◌>>=◌, ◌>>◌, raise_if,
}
use kyjness_community_be.Posts
use kyjness_community_be.Comments
use kyjness_community_be.Reports.{delete_by_target}

abbrev pub content_preview_len : ℕ
content_preview_len = 80

-- `_content_preview`, with the ellipsis `…`
unfoldable pub content_preview : Option Text → Text
content_preview none = []
content_preview (some text) =
    if ltb content_preview_len (length text)
    then take content_preview_len text ++ 8230 ∷ []
    else take content_preview_len text

unfoldable pub blind_post : ℕ → ℕ → Action (Unit {0})
blind_post post_id now = do
  found ← transaction (run (Posts.set_blinded post_id now))
  raise_if (not found) post_not_found

unfoldable pub unblind_post : ℕ → ℕ → Action (Unit {0})
unblind_post post_id now = do
  found ← transaction (run (Posts.unblind_post post_id now))
  raise_if (not found) post_not_found

unfoldable pub reset_post_reports : ℕ → ℕ → Action (Unit {0})
reset_post_reports post_id now = do
  found ←
      transaction
        (do run (delete_by_target post post_id now); run (Posts.reset_reports post_id now))
  raise_if (not found) post_not_found

unfoldable pub delete_post : ℕ → ℕ → Action (Unit {0})
delete_post post_id now =
    transaction
      (do answer ← run (Posts.delete_post post_id now); raise_if (not answer.0) post_not_found)

unfoldable pub blind_comment : ℕ → ℕ → Action (Unit {0})
blind_comment comment_id now = do
  found ← transaction (run (Comments.set_blinded comment_id now))
  raise_if (not found) comment_not_found

unfoldable pub unblind_comment : ℕ → ℕ → Action (Unit {0})
unblind_comment comment_id now = do
  found ← transaction (run (Comments.unblind_comment comment_id now))
  raise_if (not found) comment_not_found

unfoldable pub reset_comment_reports : ℕ → ℕ → Action (Unit {0})
reset_comment_reports comment_id now = do
  found ← transaction (do
    run (delete_by_target comment comment_id now)
    run (Comments.reset_reports comment_id now))
  raise_if (not found) comment_not_found

unfoldable pub delete_comment : ℕ → ℕ → ℕ → Action (Unit {0})
delete_comment post_id comment_id now = transaction (do
  row ← gets (Comments.get_comment_by_id comment_id false)
  raise_if (is_none row) comment_not_found
  deleted ← run (Comments.delete_comment post_id comment_id now)
  raise_if (not deleted) comment_not_found
  run (Posts.decrement_comment_count post_id now)
  pure tt)
