-- ===== src/Likes/PostLikes.antt =====
-- app/domain/likes/model.py: `PostLikesModel`.
use kyjness_community_be.Prelude.{
  ℕ, Bool, true, false, ◌&&◌, List, [], ◌∷◌, ◌++◌, if◌then◌else◌, keep, map, length, any_of, ◌==◌,
}
use kyjness_community_be.Db.Rows.{Db, PostLike}
use kyjness_community_be.Db.Sql.{delete_where}

abbrev pub is_like : ℕ → ℕ → PostLike → Bool
is_like post_id user_id l = l.post_id == post_id && l.user_id == user_id

unfoldable pub has_like : ℕ → ℕ → Db → Bool
has_like post_id user_id d = any_of (is_like post_id user_id) d.post_likes

-- as the list of the ids, where the code makes a set of it
unfoldable pub get_liked_post_ids_for_user : ℕ → List ℕ → Db → List ℕ
get_liked_post_ids_for_user user_id post_ids d =
    map (λ l. l.post_id)
      (keep (λ l. l.user_id == user_id && any_of (λ i. l.post_id == i) post_ids) d.post_likes)

-- INSERT ... ON CONFLICT DO NOTHING RETURNING
unfoldable pub create : ℕ → ℕ → ℕ → Db → Bool × Db
create post_id user_id now d =
    if any_of (is_like post_id user_id) d.post_likes then (false, d) else (
      true,
      record d {
        post_likes =
            d.post_likes ++ record { post_id = post_id; user_id = user_id; created_at = now } ∷ [];
      },
    )

-- DELETE ... RETURNING
unfoldable pub delete : ℕ → ℕ → Db → Bool × Db
delete post_id user_id d = (
  any_of (is_like post_id user_id) d.post_likes,
  record d { post_likes = delete_where (is_like post_id user_id) d.post_likes },
)

unfoldable pub delete_by_post_id : ℕ → Db → ℕ × Db
delete_by_post_id post_id d = (
  length (keep (λ l. l.post_id == post_id) d.post_likes),
  record d { post_likes = delete_where (λ l. l.post_id == post_id) d.post_likes },
)
