-- ===== src/Posts/Update.antt =====
-- app/domain/posts/repository.py: `PostsModel.update_post`.
use kyjness_community_be.Prelude.{
  ℕ, ◌+◌, Bool, not, ◌&&◌, ◌||◌, Option, none, some, List, [], ◌∷◌, ◌++◌, if◌then◌else◌, ◌==◌, keep,
  map, take, any_of,
}
use kyjness_community_be.Text.{Text}
use kyjness_community_be.Db.Rows.{Db, Post}
use kyjness_community_be.Db.Sql.{delete_where}
use kyjness_community_be.Db.Action.{ok, err, Action, integrity_error, pure, ◌>>=◌}
use kyjness_community_be.Posts.{max_post_images, is_undeleted_post, update_posts, images_of}
use kyjness_community_be.Posts.Hashtags.{sync_post_hashtags}

-- `if value is not None: post_obj.field = value`
abbrev pub set_to : {A : Type 0} → Option A → A → A
set_to none old = old
set_to (some new) old = new

abbrev pub set_category : Option ℕ → Option ℕ → Option ℕ
set_category none old = old
set_category (some new) old = some new

-- the row after the flush, which counts `version_id_col` up
unfoldable pub edit_post : Option Text → Option Text → Option ℕ → ℕ → Post → Post
edit_post title content category_id now p = record p {
  title = set_to title p.title;
  content = set_to content p.content;
  category_id = set_category category_id p.category_id;
  updated_at = now;
  version = p.version + 1;
}

abbrev pub sync_given : ℕ → Option (List Text) → ℕ → Db → Db
sync_given post_id none next d = d
sync_given post_id (some names) next d = sync_post_hashtags post_id names next d

abbrev pub is_among : List ℕ → ℕ → Bool
is_among ids i = any_of (λ j. j == i) ids

-- the set `to_add`, in some order
unfoldable pub added : List ℕ → List ℕ → List ℕ
added old [] = []
added old (i ∷ ids) =
    let rest = added old ids in if is_among old i || is_among rest i then rest else i ∷ rest

abbrev pub old_images : ℕ → Db → List ℕ
old_images post_id d = map (λ l. l.image_id) (keep (λ l. l.post_id == post_id) d.post_images)

-- `uq_post_images_image_id` lets one post have an image.
unfoldable pub replace_images : ℕ → Option (List ℕ) → ℕ → Action (List ℕ × List ℕ)
replace_images post_id none now d = (ok ([], []), d)
replace_images post_id (some image_ids) now d =
    let old = old_images post_id d in
    let new = take max_post_images image_ids in
    let to_add = added old new in
    let released = keep (λ i. not (is_among new i)) old in
    if any_of (λ l. is_among to_add l.image_id) d.post_images then (err integrity_error, d) else (
      ok (released, to_add),
      record d {
        post_images =
            delete_where (λ l. l.post_id == post_id && is_among released l.image_id)
              (d.post_images ++ images_of post_id to_add now);
      },
    )

unfoldable pub update_post :
    ℕ
    → Option Text
    → Option Text
    → Option (List ℕ)
    → Option ℕ
    → Option (List Text)
    → ℕ
    → ℕ
    → Action (Option (List ℕ × List ℕ))
update_post post_id title content image_ids category_id hashtag_names next_hashtag now d =
    let (row, d1) =
      update_posts (is_undeleted_post post_id) (edit_post title content category_id now) d in
    elim row [
      | none ↦ (ok none, d1)
      | some _ ↦
          (do delta ← replace_images post_id image_ids now; pure (some delta))
            (sync_given post_id hashtag_names next_hashtag d1)
    ]
