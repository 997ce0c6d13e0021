-- ===== src/Comments/CommentLikes.antt =====
-- app/domain/comments/model.py: `CommentLikesModel`.
use kyjness_community_be.Prelude.{
  ℕ, Bool, true, false, ◌&&◌, List, [], ◌∷◌, ◌++◌, if◌then◌else◌, keep, map, any_of, ◌==◌,
}
use kyjness_community_be.Db.Rows.{Db, CommentLike}
use kyjness_community_be.Db.Sql.{delete_where}

abbrev pub is_like : ℕ → ℕ → CommentLike → Bool
is_like comment_id user_id l = l.comment_id == comment_id && l.user_id == user_id

unfoldable pub has_like : ℕ → ℕ → Db → Bool
has_like comment_id user_id d = any_of (is_like comment_id user_id) d.comment_likes

-- as the list of the ids, where the code makes a set of it
unfoldable pub get_liked_comment_ids_for_user : ℕ → List ℕ → Db → List ℕ
get_liked_comment_ids_for_user user_id comment_ids d =
    map (λ l. l.comment_id)
      (keep (λ l. l.user_id == user_id && any_of (λ i. l.comment_id == i) comment_ids)
        d.comment_likes)

-- INSERT ... ON CONFLICT DO NOTHING RETURNING
unfoldable pub create : ℕ → ℕ → ℕ → Db → Bool × Db
create comment_id user_id now d =
    if any_of (is_like comment_id user_id) d.comment_likes then (false, d) else (
      true,
      record d {
        comment_likes =
            d.comment_likes
            ++ record { comment_id = comment_id; user_id = user_id; created_at = now } ∷ [];
      },
    )

-- DELETE ... RETURNING
unfoldable pub delete : ℕ → ℕ → Db → Bool × Db
delete comment_id user_id d = (
  any_of (is_like comment_id user_id) d.comment_likes,
  record d { comment_likes = delete_where (is_like comment_id user_id) d.comment_likes },
)
