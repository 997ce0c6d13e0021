-- ===== src/Comments/Access.antt =====
-- app/api/dependencies/permissions.py: what the check before the edit of a comment makes sure of.
use kyjness_community_be.Prelude.{
  ℕ, ◌≡◌, Bool, true, false, some, any_of, arith, ◌==◌, Bool-split, Option-cases, opt_eq, inl, inr,
}
use kyjness_community_be.Db.Rows.{Db, Comment}
use kyjness_community_be.Db.Action.{ok}
use kyjness_community_be.Posts.{is_undeleted_post}
use kyjness_community_be.Comments
use kyjness_community_be.Comments.{
  PermissionRow, is_comment, is_undeleted_in, load_comment_author_permission_row,
}
use kyjness_community_be.Comments.Service.{
  check_comment_author, require_comment_author, require_comment_author_for_delete,
}

module _ (post_id comment_id user_id : ℕ) (d : Db) where
  -- what both checks look for
  abbrev pub IsAuthorsComment : Bool → Type 0
  IsAuthorsComment include_deleted =
      (c : Comment) × (Comments.get_comment_by_id comment_id include_deleted d ≡ some c)
      × ((c.post_id == post_id) ≡ true)
      × (opt_eq c.author_id user_id ≡ true)

  -- The check before an edit passes only on an undeleted post, for the author of an undeleted comment
  -- of this post.
  pub require_comment_author_sound :
      require_comment_author post_id comment_id user_id d ≡ ok tt
      → (any_of (is_undeleted_post post_id) d.posts ≡ true) × IsAuthorsComment false
  unfolding require_comment_author check_comment_author load_comment_author_permission_row
      Comments.get_comment_by_id
  require_comment_author_sound passed =
      Bool-split (any_of (is_undeleted_post post_id) d.posts)
        (λ post. elim (Option-cases (Comments.get_comment_by_id comment_id false d)) [
          | inl absent ↦ ground arith
          | inr (c, row) ↦ (post, (c, row, ground arith, ground arith))
        ])
        (λ no_post. ground arith)

  -- The check before a deletion passes only on an undeleted post, for the author of a comment of this
  -- post, deleted or not.
  pub require_comment_author_for_delete_sound :
      require_comment_author_for_delete post_id comment_id user_id d ≡ ok tt
      → (any_of (is_undeleted_post post_id) d.posts ≡ true) × IsAuthorsComment true
  unfolding require_comment_author_for_delete check_comment_author
      load_comment_author_permission_row Comments.get_comment_by_id
  require_comment_author_for_delete_sound passed =
      Bool-split (any_of (is_undeleted_post post_id) d.posts)
        (λ post. elim (Option-cases (Comments.get_comment_by_id comment_id true d)) [
          | inl absent ↦ ground arith
          | inr (c, row) ↦ (post, (c, row, ground arith, ground arith))
        ])
        (λ no_post. ground arith)
