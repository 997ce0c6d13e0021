-- ===== src/Posts/Service.antt =====
-- app/domain/posts/services/post_service.py: `PostService.create_post` with the hashtags that it writes, and
-- `PostService.update_post`.
use kyjness_community_be.Prelude.{
  ℕ, Bool, true, false, not, ◌&&◌, ◌||◌, Option, none, some, List, [], ◌∷◌, if◌then◌else◌, ◌==◌,
  leb, keep, take, any_of, is_none,
}
use kyjness_community_be.Text.{Text, strip, is_space, text_eq, lower_all}
use kyjness_community_be.Db.Rows.{Db, Post}
use kyjness_community_be.Db.Action.{
  Action, post_not_found, concurrent_update, invalid_request, invalid_image, or_raise, gets,
  transaction, ◌>>=◌, ◌>>◌, raise_if,
}
use kyjness_community_be.Posts
use kyjness_community_be.Posts.{category_exists, get_post_by_id}
use kyjness_community_be.Posts.Update

pub record PostCreateRequest : Type 0 where
  pub title : Text
  pub content : Text
  pub image_ids : Option (List ℕ)
  pub category_id : Option ℕ
  pub hashtags : Option (List Text)

-- what `_HASHTAG_ALLOWED_RE` does not remove
unfoldable pub is_hashtag_char : ℕ → Bool
is_hashtag_char c =
    (leb 48 c && leb c 57) || (leb 97 c && leb c 122) || (leb 44032 c && leb c 55203) || c == 95

unfoldable pub without_hash : Text → Text
without_hash [] = []
without_hash (c ∷ s) = if c == 35 then strip s else c ∷ s

unfoldable pub normalize_hashtag : Text → Text
normalize_hashtag v =
    take 50
      (keep is_hashtag_char (keep (λ c. not (is_space c)) (lower_all (without_hash (strip v)))))

abbrev pub is_empty : Text → Bool
is_empty [] = true
is_empty (_ ∷ _) = false

-- the rest of the loop, where `seen` holds what is in the result so far
unfoldable pub normalize_from : List Text → List Text → List Text
normalize_from seen [] = []
normalize_from seen (v ∷ raw) =
    elim (is_empty (normalize_hashtag v) || any_of (text_eq (normalize_hashtag v)) seen) [
      | true ↦ normalize_from seen raw
      | false ↦ normalize_hashtag v ∷ normalize_from (normalize_hashtag v ∷ seen) raw
    ]

unfoldable pub normalize_hashtags : List Text → List Text
normalize_hashtags raw = normalize_from [] raw

abbrev pub normalized : Option (List Text) → Option (List Text)
normalized none = none
normalized (some raw) = some (normalize_hashtags raw)

abbrev pub is_category : Option ℕ → Db → Bool
is_category none d = true
is_category (some category_id) d = category_exists category_id d

abbrev pub listed : Option (List ℕ) → List ℕ
listed none = []
listed (some image_ids) = image_ids

-- every id is the id of an image
unfoldable pub has_images : List ℕ → Db → Bool
has_images [] d = true
has_images (i ∷ image_ids) d = any_of (λ m. m.id == i) d.images && has_images image_ids d

unfoldable pub create_post : ℕ → ℕ → PostCreateRequest → ℕ → ℕ → Action ℕ
create_post post_id user_id request next_hashtag now = transaction (do
  known ← gets (is_category request.category_id)
  raise_if (not known) invalid_request
  found ← gets (has_images (listed request.image_ids))
  raise_if (not found) invalid_image
  Posts.create_post post_id user_id request.title request.content (listed request.image_ids)
      request.category_id (normalized request.hashtags) next_hashtag now)

-- A field that is not in `model_fields_set` is none, as one that is null.
pub record PostUpdateRequest : Type 0 where
  pub title : Option Text
  pub content : Option Text
  pub image_ids : Option (List ℕ)
  pub category_id : Option ℕ
  pub hashtags : Option (List Text)
  pub version : Option ℕ

-- the version that the client read is not the one of the post
abbrev pub is_stale : Option ℕ → Post → Bool
is_stale none p = false
is_stale (some version) p = not (version == p.version)

-- One request at a time edits a row, so the flush meets no other version: no `StaleDataError`.
unfoldable pub update_post : ℕ → PostUpdateRequest → ℕ → ℕ → Action (Unit {0})
update_post post_id request next_hashtag now = transaction (do
  found ← gets (get_post_by_id post_id none)
  post ← or_raise found post_not_found
  raise_if (is_stale request.version post) concurrent_update
  known ← gets (is_category request.category_id)
  raise_if (not known) invalid_request
  there ← gets (has_images (listed request.image_ids))
  raise_if (not there) invalid_image
  delta ←
      Update.update_post post_id request.title request.content request.image_ids request.category_id
        (normalized request.hashtags) next_hashtag now
  raise_if (is_none delta) post_not_found)
