-- ===== src/Media.antt =====
-- app/domain/media: `MediaModel` (model.py) and the content types of image_policy.py. The UUID of a new
-- row and the time are arguments; settings that the code reads are arguments too.
pub mod Upload
pub mod Confirmed
pub mod Cleanup
pub mod Batches
pub mod Rounds
pub mod Swept
pub mod Tokens
pub mod SignupImages
mod Tests
use kyjness_community_be.Prelude.{
  ℕ, ◌-◌, ◌*◌, Bool, true, false, not, ◌&&◌, Option, none, some, List, [], ◌∷◌, ◌++◌, if◌then◌else◌,
  ◌==◌, ltb, is_none, keep, any_of, length, take, opt_eq,
}
use kyjness_community_be.Text.{Text, codes, strip, text_eq, lower_all}
use kyjness_community_be.Db.Rows.{Db, Image, User, DogProfile}
use kyjness_community_be.Db.Sql.{update_where, delete_where, one_or_none}
use kyjness_community_be.Db.Action.{Result, ok, err, invalid_file_type}
use kyjness_community_be.Db.Ascending.{batch}
use kyjness_community_be.Dogs.{mem_id}

unfoldable pub create_image :
    ℕ → Text → Text → Option Text → Option ℕ → Option ℕ → ℕ → Db → Image × Db
create_image image_id file_key file_url content_type size uploader_id now d =
    let img : Image = record {
      id = image_id;
      file_key = file_key;
      file_url = file_url;
      content_type = content_type;
      size = size;
      uploader_id = uploader_id;
      created_at = now;
    } in
    (img, record d { images = d.images ++ img ∷ [] })

unfoldable pub create_temp_image : ℕ → Text → Text → Option Text → Option ℕ → ℕ → Db → Image × Db
create_temp_image image_id file_key file_url content_type size now d =
    create_image image_id file_key file_url content_type size none now d

unfoldable pub get_image_by_id : ℕ → Db → Option Image
get_image_by_id image_id d = one_or_none (λ m. m.id == image_id) d.images

abbrev pub is_unclaimed : ℕ → Image → Bool
is_unclaimed image_id m = m.id == image_id && is_none m.uploader_id

unfoldable pub claim_image_ownership : ℕ → ℕ → Db → Bool × Db
claim_image_ownership image_id user_id d = (
  any_of (is_unclaimed image_id) d.images,
  record d {
    images =
        update_where (is_unclaimed image_id) (λ m. record m { uploader_id = some user_id })
          d.images;
  },
)

abbrev pub refers : List ℕ → Option ℕ → Bool
refers ids none = false
refers ids (some i) = mem_id ids i

-- the foreign keys to images: SET NULL for the pictures of users and dogs, CASCADE for those of posts
unfoldable pub forget_images : List ℕ → Db → Db
forget_images ids d = record d {
  users =
      update_where (λ u. refers ids u.profile_image_id) (λ u. record u { profile_image_id = none })
        d.users;
  dog_profiles =
      update_where (λ r. refers ids r.profile_image_id) (λ r. record r { profile_image_id = none })
        d.dog_profiles;
  post_images = delete_where (λ r. mem_id ids r.image_id) d.post_images;
}

unfoldable pub delete_image_record : Image → Db → Unit {0} × Db
delete_image_record image d = (
  tt,
  forget_images (image.id ∷ [])
      (record d { images = delete_where (λ m. m.id == image.id) d.images }),
)

unfoldable pub delete_images_by_ids : List ℕ → Db → ℕ × Db
delete_images_by_ids image_ids d = (
  length (keep (λ m. mem_id image_ids m.id) d.images),
  forget_images image_ids
      (record d { images = delete_where (λ m. mem_id image_ids m.id) d.images }),
)

-- `ttl` is `settings.SIGNUP_IMAGE_TOKEN_TTL_SECONDS`, in microseconds like a time
unfoldable pub is_expired_signup : ℕ → ℕ → Image → Bool
is_expired_signup ttl now m = is_none m.uploader_id && ltb m.created_at (now - ttl)

unfoldable pub get_expired_signup_images : ℕ → ℕ → Option ℕ → ℕ → Db → List Image
get_expired_signup_images ttl now after_id limit d =
    batch (λ m. m.id) (is_expired_signup ttl now) after_id limit d.images

abbrev pub hour : ℕ
hour = 3_600_000_000

-- no user, dog or post shows the image
unfoldable pub is_orphan : Db → Image → Bool
is_orphan d m =
    not (any_of (λ u. opt_eq u.profile_image_id m.id) d.users)
    && not (any_of (λ r. opt_eq r.profile_image_id m.id) d.dog_profiles)
    && not (any_of (λ p. p.image_id == m.id) d.post_images)

unfoldable pub get_orphan_images_older_than : ℕ → ℕ → Option ℕ → ℕ → Db → List Image
get_orphan_images_older_than older_than_hours now after_id limit d =
    batch (λ m. m.id) (λ m. ltb m.created_at (now - older_than_hours * hour) && is_orphan d m)
      after_id limit d.images

-- `_CONTENT_TYPE_EXT`
unfoldable pub extension : Text → Option Text
extension ct =
    if text_eq ct (codes "image/jpeg")
    then some (codes "jpg")
    else if text_eq ct (codes "image/png")
    then some (codes "png")
    else if text_eq ct (codes "image/webp")
    then some (codes "webp")
    else none

-- `s.split(";")[0]`
unfoldable pub before_semicolon : Text → Text
before_semicolon [] = []
before_semicolon (c ∷ s) = let rest = before_semicolon s in if c == 59 then [] else c ∷ rest

abbrev pub media_type : Text → Text
media_type content_type = lower_all (strip (before_semicolon content_type))

-- `allowed` is `settings.ALLOWED_IMAGE_TYPES`
unfoldable pub validate_image_content_type : List Text → Text → Result Text
validate_image_content_type allowed content_type =
    let ct = media_type content_type in
    if any_of (text_eq ct) allowed && not (is_none (extension ct))
    then ok ct
    else err invalid_file_type
