-- ===== src/Community/Edits.antt =====
-- app/domain/{posts,comments}: a post that is created, or an edit of a post or a
-- comment, keeps the invariant.
use kyjness_community_be.Prelude.{
  ℕ, count_if, ◌≡◌, refl, Bool, true, false, Option, none, some, List, [], ◌∷◌, ◌++◌, ◌==◌, ◌&&◌,
  if◌then◌else◌, any_of, take, keep, not, is_none,
}
use kyjness_community_be.Text.{Text}
use kyjness_community_be.Db.Rows.{Db, Post, PostImage, Hashtag, PostHashtag}
use kyjness_community_be.Db.Action.{
  Error, Result, ok, err, Action, or_raise, raise_if, gets, run, pure, integrity_error,
  comment_not_found, ◌>>=◌, ◌>>◌, bind-keeps, transaction-keeps, post_not_found, concurrent_update,
  invalid_request, invalid_image,
}
use kyjness_community_be.Db.Sql.{returning, update_where, delete_where}
use kyjness_community_be.Posts
use kyjness_community_be.Posts.{
  is_post, max_post_images, images_of, is_undeleted_post, get_post_by_id,
}
use kyjness_community_be.Posts.Hashtags.{sync_post_hashtags}
use kyjness_community_be.Posts.Service.{
  PostCreateRequest, create_post, PostUpdateRequest, update_post, normalized, is_stale, is_category,
  has_images, listed,
}
use kyjness_community_be.Posts.Update
use kyjness_community_be.Posts.Update.{
  edit_post, sync_given, replace_images, added, old_images, is_among,
}
use kyjness_community_be.Comments
use kyjness_community_be.Comments.{is_undeleted_in}
use kyjness_community_be.Comments.Service
use kyjness_community_be.Community.Invariant.{IsSound}
use kyjness_community_be.Community.Posts.{
  inserted-IsSound, touch_posts-IsSound, touch_comments-IsSound,
}

-- hashtags and images have no part in it
with_links-IsSound :
    (d : Db) (tags : List Hashtag) (links : List PostHashtag) (images : List PostImage)
    → IsSound d
    → IsSound (record d { hashtags = tags; post_hashtags = links; post_images = images })
with_links-IsSound d tags links images h = record {
  post_likes = h.post_likes;
  post_comments = h.post_comments;
  comment_likes = h.comment_likes;
  likes_once = h.likes_once;
  comment_likes_once = h.comment_likes_once;
  threads = h.threads;
}

sync_given-IsSound :
    (post_id : ℕ) (names : Option (List Text)) (next : ℕ) (d : Db)
    → IsSound d
    → IsSound (sync_given post_id names next d)
unfolding sync_post_hashtags
sync_given-IsSound post_id none next d h = h
sync_given-IsSound post_id (some []) next d h = with_links-IsSound d _ _ _ h
sync_given-IsSound post_id (some (n ∷ names)) next d h = with_links-IsSound d _ _ _ h

replace_images-IsSound :
    (post_id : ℕ) (image_ids : Option (List ℕ)) (now : ℕ) (d : Db)
    → IsSound d
    → IsSound (replace_images post_id image_ids now d).1
unfolding replace_images
replace_images-IsSound post_id none now d h = h
replace_images-IsSound post_id (some image_ids) now d h =
    let old = old_images post_id d in
    let new = take max_post_images image_ids in
    let to_add = added old new in
    let released = keep (λ i. not (is_among new i)) old in
    let links =
      delete_where (λ l. l.post_id == post_id && is_among released l.image_id)
        (d.post_images ++ images_of post_id to_add now) in
    let answer : Bool → Result (List ℕ × List ℕ) × Db = λ taken.
      if taken
      then (err integrity_error, d)
      else (ok (released, to_add), record d { post_images = links }) in
    elim (any_of (λ l. is_among to_add l.image_id) d.post_images)
      as (λ taken. IsSound (answer taken).1) [
        | true ↦ h
        | false ↦ with_links-IsSound d d.hashtags d.post_hashtags links h
      ]

or_raise-IsSound :
    {A : Type 0} (found : Option A) (e : Error) (d : Db)
    → IsSound d
    → IsSound (or_raise found e d).1
or_raise-IsSound none e d h = h
or_raise-IsSound (some a) e d h = h

module _ (post_id : ℕ) (request : PostUpdateRequest) (next now : ℕ) where
  abbrev edit : Action (Option (List ℕ × List ℕ))
  edit =
      Update.update_post post_id request.title request.content request.image_ids request.category_id
        (normalized request.hashtags) next now

  edit-IsSound : (d : Db) → IsSound d → IsSound (edit d).1
  unfolding Update.update_post edit_post
  edit-IsSound d h =
      let p = is_undeleted_post post_id in
      let f : Post → Post = edit_post request.title request.content request.category_id now in
      let names = normalized request.hashtags in
      let touched = touch_posts-IsSound p f (λ r. (refl, refl, refl, refl)) d h in
      let d1 : Db = record d { posts = update_where p f d.posts } in
      let synced = sync_given-IsSound post_id names next d1 touched in
      let illustrated = replace_images-IsSound post_id request.image_ids now _ synced in
      let m : Action (Option (List ℕ × List ℕ)) =
        replace_images post_id request.image_ids now >>= λ delta. pure (some delta) in
      elim (returning p f d.posts)
        as (λ row.
          IsSound
            (elim row as (λ _. Result (Option (List ℕ × List ℕ)) × Db) [
              | none ↦ (ok none, d1)
              | some _ ↦ m (sync_given post_id names next d1)
            ]).1) [
              | none ↦ touched
              | some _ ↦
                  bind-keeps IsSound (replace_images post_id request.image_ids now)
                    (λ delta. pure (some delta)) _ illustrated (λ _ _. illustrated)
            ]

  -- the parts of the service, the last first
  abbrev edited : Action (Unit {0})
  edited = edit >>= λ delta. raise_if (is_none delta) post_not_found

  abbrev with_images : Action (Unit {0})
  with_images = gets (has_images (listed request.image_ids)) >>= λ there.
      raise_if (not there) invalid_image >> edited

  abbrev with_category : Action (Unit {0})
  with_category = gets (is_category request.category_id) >>= λ known.
      raise_if (not known) invalid_request >> with_images

  edited-IsSound : (d : Db) → IsSound d → IsSound (edited d).1
  edited-IsSound d h =
      bind-keeps IsSound edit (λ delta. raise_if (is_none delta) post_not_found) d
        (edit-IsSound d h) (λ _ _. edit-IsSound d h)

  with_images-IsSound : (d : Db) → IsSound d → IsSound (with_images d).1
  with_images-IsSound d h =
      bind-keeps IsSound (raise_if (not (has_images (listed request.image_ids) d)) invalid_image)
        (λ _. edited) d h (λ _ _. edited-IsSound d h)

  with_category-IsSound : (d : Db) → IsSound d → IsSound (with_category d).1
  with_category-IsSound d h =
      bind-keeps IsSound (raise_if (not (is_category request.category_id d)) invalid_request)
        (λ _. with_images) d h (λ _ _. with_images-IsSound d h)

  checked-IsSound :
      (post : Post) (d : Db)
      → IsSound d
      → IsSound ((raise_if (is_stale request.version post) concurrent_update >> with_category) d).1
  checked-IsSound post d h =
      bind-keeps IsSound (raise_if (is_stale request.version post) concurrent_update)
        (λ _. with_category) d h (λ _ _. with_category-IsSound d h)

  pub update_post-IsSound :
      (d : Db) → IsSound d → IsSound (update_post post_id request next now d).1
  unfolding update_post
  update_post-IsSound d h =
      let found = get_post_by_id post_id none d in
      let raised = or_raise-IsSound found post_not_found d h in
      let rest : Post → Action (Unit {0}) =
        λ post. raise_if (is_stale request.version post) concurrent_update >> with_category in
      transaction-keeps IsSound (or_raise found post_not_found >>= rest) d h (
        bind-keeps IsSound (or_raise found post_not_found) rest d raised
          (λ post _. checked-IsSound post _ raised))

module _ (post_id user_id : ℕ) (request : PostCreateRequest) (next now : ℕ) where
  abbrev insert : Action ℕ
  insert =
      Posts.create_post post_id user_id request.title request.content (listed request.image_ids)
        request.category_id (normalized request.hashtags) next now

  abbrev with_found : Action ℕ
  with_found = gets (has_images (listed request.image_ids)) >>= λ found.
      raise_if (not found) invalid_image >> insert

  abbrev with_known : Action ℕ
  with_known = gets (is_category request.category_id) >>= λ known.
      raise_if (not known) invalid_request >> with_found

  pub create_post-IsSound :
      (d : Db)
      → count_if (is_post post_id) d.posts ≡ 0
      → IsSound d
      → IsSound (create_post post_id user_id request next now d).1
  unfolding create_post
  create_post-IsSound d fresh h =
      let inserted =
        inserted-IsSound post_id user_id request.title request.content request.category_id now d
          fresh h (listed request.image_ids) (normalized request.hashtags) next in
      let with_images =
        bind-keeps IsSound (raise_if (not (has_images (listed request.image_ids) d)) invalid_image)
          (λ _. insert) d h (λ _ _. inserted) in
      transaction-keeps IsSound with_known d h (
        bind-keeps IsSound (raise_if (not (is_category request.category_id d)) invalid_request)
          (λ _. with_found) d h (λ _ _. with_images))

pub update_comment-IsSound :
    (post_id comment_id : ℕ) (content : Text) (now : ℕ) (d : Db)
    → IsSound d
    → IsSound (Service.update_comment post_id comment_id content now d).1
unfolding Service.update_comment Comments.update_comment
update_comment-IsSound post_id comment_id content now d h =
    let touched =
      touch_comments-IsSound (is_undeleted_in post_id comment_id)
        (λ c. record c { content = content; updated_at = now })
        (λ c. (refl, refl, refl, refl, refl)) d h in
    let update : Action ℕ = run (Comments.update_comment post_id comment_id content now) in
    let missing : ℕ → Action (Unit {0}) = λ affected. raise_if (affected == 0) comment_not_found in
    transaction-keeps IsSound (update >>= missing) d h
      (bind-keeps IsSound update missing d touched (λ _ _. touched))
