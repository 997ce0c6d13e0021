-- ===== src/Comments.antt =====
-- app/domain/comments/model.py: `CommentsModel`; the likes of comments and the service are in the
-- children.
pub mod CommentLikes
pub mod Service
pub mod Access
pub mod Tree
pub mod Shown
pub mod Pages
use kyjness_community_be.Prelude.{
  ℕ, ◌+◌, ◌-◌, suc, Bool, true, false, not, ◌&&◌, ◌||◌, Option, none, some, List, [], ◌∷◌, ◌++◌,
  if◌then◌else◌, keep, map, take, length, any_of, ◌==◌, ltb, is_none, opt_eq,
}
use kyjness_community_be.Text.{Text}
use kyjness_community_be.Db.Rows.{Db, Comment, Post}
use kyjness_community_be.Db.Sql.{update_where, one_or_none, returning}
use kyjness_community_be.Posts.{is_post, is_undeleted, has_blocked}

abbrev pub is_comment : ℕ → Comment → Bool
is_comment comment_id c = c.id == comment_id

abbrev pub is_undeleted_comment : ℕ → Comment → Bool
is_undeleted_comment comment_id c = c.id == comment_id && is_none c.deleted_at

-- `CommentAuthorPermissionRow`
pub record PermissionRow : Type 0 where
  pub comment_id : Option ℕ
  pub comment_post_id : Option ℕ
  pub comment_author_id : Option ℕ

-- Post LEFT JOIN Comment: no row without the post, a row of NULLs without the comment.
unfoldable pub load_comment_author_permission_row : ℕ → ℕ → Bool → Db → Option PermissionRow
load_comment_author_permission_row post_id comment_id include_deleted d =
    if any_of (λ p. is_post post_id p && is_undeleted p) d.posts
    then some
        (elim (one_or_none
          (λ c. is_comment comment_id c && (include_deleted || is_none c.deleted_at)) d.comments) [
            | none ↦ record { comment_id = none; comment_post_id = none; comment_author_id = none }
            | some c ↦ record {
              comment_id = some c.id;
              comment_post_id = some c.post_id;
              comment_author_id = c.author_id;
            }
          ])
    else none

-- `comment_id` is the UUID that the new row is given.
unfoldable pub create_comment : ℕ → ℕ → ℕ → Text → Option ℕ → ℕ → Db → Comment × Db
create_comment comment_id post_id user_id content parent_id now d =
    let c : Comment = record {
      id = comment_id;
      post_id = post_id;
      author_id = some user_id;
      parent_id = parent_id;
      content = content;
      like_count = 0;
      report_count = 0;
      is_blinded = false;
      created_at = now;
      updated_at = now;
      deleted_at = none;
    } in
    (c, record d { comments = d.comments ++ c ∷ [] })

unfoldable pub get_comment_by_id : ℕ → Bool → Db → Option Comment
get_comment_by_id comment_id include_deleted d =
    one_or_none (λ c. is_comment comment_id c && (include_deleted || is_none c.deleted_at))
      d.comments

-- UPDATE comments SET ... WHERE ... RETURNING
abbrev pub update_comments : (Comment → Bool) → (Comment → Comment) → Db → Option Comment × Db
update_comments p f d =
    (returning p f d.comments, record d { comments = update_where p f d.comments })

abbrev pub is_undeleted_in : ℕ → ℕ → Comment → Bool
is_undeleted_in post_id comment_id c =
    is_comment comment_id c && c.post_id == post_id && is_none c.deleted_at

-- the number of rows that the UPDATE returns
unfoldable pub update_comment : ℕ → ℕ → Text → ℕ → Db → ℕ × Db
update_comment post_id comment_id content now d =
    let (_, d') =
      update_comments (is_undeleted_in post_id comment_id)
        (λ c. record c { content = content; updated_at = now }) d in
    (length (keep (is_undeleted_in post_id comment_id) d.comments), d')

unfoldable pub delete_comment : ℕ → ℕ → ℕ → Db → Bool × Db
delete_comment post_id comment_id now d =
    let (row, d') =
      update_comments (is_undeleted_in post_id comment_id) (λ c. record c { deleted_at = some now })
        d in
    (not (is_none row), d')

unfoldable pub get_like_count : ℕ → Db → ℕ
get_like_count comment_id d = elim (one_or_none (is_comment comment_id) d.comments) [
  | none ↦ 0
  | some c ↦ c.like_count
]

unfoldable pub increment_report_count : ℕ → Db → Option ℕ × Db
increment_report_count comment_id d =
    let (row, d') =
      update_comments (is_comment comment_id) (λ c. record c { report_count = c.report_count + 1 })
        d in
    (elim row [ none ↦ none | some c ↦ some c.report_count ], d')

unfoldable pub set_blinded : ℕ → ℕ → Db → Bool × Db
set_blinded comment_id now d =
    let (row, d') =
      update_comments (is_comment comment_id)
        (λ c. record c { is_blinded = true; updated_at = now }) d in
    (not (is_none row), d')

unfoldable pub unblind_comment : ℕ → ℕ → Db → Bool × Db
unblind_comment comment_id now d =
    let (row, d') =
      update_comments (is_undeleted_comment comment_id)
        (λ c. record c { is_blinded = false; updated_at = now }) d in
    (not (is_none row), d')

unfoldable pub reset_reports : ℕ → ℕ → Db → Bool × Db
reset_reports comment_id now d =
    let (row, d') =
      update_comments (is_undeleted_comment comment_id)
        (λ c. record c { report_count = 0; is_blinded = false; updated_at = now }) d in
    (not (is_none row), d')

unfoldable pub increment_like_count : ℕ → Db → ℕ × Db
increment_like_count comment_id d =
    let (row, d') =
      update_comments (is_comment comment_id) (λ c. record c { like_count = c.like_count + 1 }) d in
    (elim row [ none ↦ 0 | some c ↦ c.like_count ], d')

-- SQL's `greatest(like_count - 1, 0)` is subtraction on ℕ.
unfoldable pub decrement_like_count : ℕ → Db → ℕ × Db
decrement_like_count comment_id d =
    let (row, d') =
      update_comments (is_comment comment_id) (λ c. record c { like_count = c.like_count - 1 }) d in
    (elim row [ none ↦ 0 | some c ↦ c.like_count ], d')
