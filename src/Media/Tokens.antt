-- ===== src/Media/Tokens.antt =====
-- app/domain/media/service.py: the tokens with which an image is uploaded before its owner has signed up,
-- and the deletion of an image. Which calls of Redis and S3 raise is an argument.
use kyjness_community_be.Prelude.{
  ℕ, Bool, not, ◌||◌, Option, none, some, [], ◌∷◌, ◌==◌, opt_eq, if◌then◌else◌, length,
}
use kyjness_community_be.Text.{Text}
use kyjness_community_be.Ids.{IdResult, parse_public_id_value}
use kyjness_community_be.Db.Rows.{Db, Image}
use kyjness_community_be.Db.Action.{
  Result, ok, err, internal_server_error, image_not_found, Action, gets, run, transaction, raise,
  pure, ◌>>=◌, ◌>>◌,
}
use kyjness_community_be.Redis.{Redis, upload_token, Value, digest, status, logged_out, image_ref}
use kyjness_community_be.Media.{
  create_temp_image, delete_images_by_ids, get_image_by_id, delete_image_record,
}
use kyjness_community_be.Media.Upload.{
  Bucket, Faults, signup, MediaSettings, Promoted, s3_object_key, confirm_pending_key, discard,
}

-- Only `issue_upload_token` writes such keys, so that their values are references to images.
abbrev pub referred : Value → Text
referred (image_ref i) = i
referred (digest _) = []
referred (status _) = []
referred logged_out = []

abbrev pub id_option : IdResult → Option ℕ
id_option (IdResult.ok i) = some i
id_option (IdResult.err _) = none

-- which calls of Redis raise when a token is verified
pub record TokenFaults : Type 0 where
  pub get : Bool
  pub delete : Bool

-- which calls of an upload before a sign-up raise, besides those of the confirmation: SET, and the
-- transaction that takes the row back
pub record TempFaults : Type 0 where
  pub upload : Faults
  pub set : Bool
  pub undo : Bool

-- `SignupImageUploadData`
pub record SignupImage : Type 0 where
  pub id : ℕ
  pub file_url : Text
  pub signup_token : Text

module _ {Store : Type 0} (redis : Redis Store) (image_id_text : ℕ → Text)
    (parse_uuid : Text → Option ℕ) where
  -- `connected` is False where the client is None; `token` is what `secrets.token_urlsafe` draws, `ttl`
  -- is `settings.SIGNUP_IMAGE_TOKEN_TTL_SECONDS`.
  unfoldable pub issue_upload_token : Bool → Bool → Text → ℕ → ℕ → Store → Result Text × Store
  issue_upload_token connected raises token image_id ttl s =
      if not connected
      then (err internal_server_error, s)
      else if raises
      then (err internal_server_error, s)
      else (ok token, redis.set (upload_token token) (image_ref (image_id_text image_id)) ttl s)

  -- the image that a stored value names
  unfoldable pub image_of : Value → Option ℕ
  image_of v =
      if length (referred v) == 0
      then none
      else id_option (parse_public_id_value parse_uuid (referred v))

  unfoldable pub verify_upload_token : Bool → TokenFaults → Text → Store → Option ℕ × Store
  verify_upload_token connected faults token s =
      if length token == 0 || not connected
      then (none, s)
      else if faults.get
      then (none, s)
      else elim (redis.get (upload_token token) s) [
        | none ↦ (none, s)
        | some v ↦
            if faults.delete then (none, s) else (image_of v, redis.delete (upload_token token) s)
      ]

  module _ {Objects : Type 0} (s3 : Bucket Objects) (settings : MediaSettings)
      (is_word : ℕ → Bool) where
    -- the row of `image`, if there is one, and its object are taken back; a transaction that raises
    -- leaves both
    unfoldable pub take_back : TempFaults → Text → Option ℕ → Db → Objects → Db × Objects
    take_back faults key none d o =
        (d, discard s3 settings is_word faults.upload.delete_promoted key o)
    take_back faults key (some i) d o = if faults.undo then (d, o) else (
      (delete_images_by_ids (i ∷ []) d).1,
      discard s3 settings is_word faults.upload.delete_promoted key o,
    )

    -- `confirm_presigned_signup_upload` from the promotion on
    unfoldable pub register_temp :
        TempFaults
        → Bool
        → Text
        → ℕ
        → ℕ
        → ℕ
        → Result Promoted × Objects
        → Db
        → Store
        → Result SignupImage × Db × Objects × Store
    register_temp faults connected token ttl image_id now (err e, o) d s = (err e, d, o, s)
    register_temp faults connected token ttl image_id now (ok p, o) d s =
        let (image, d') =
          create_temp_image image_id p.file_key p.file_url (some p.content_type) (some p.size) now
            d in
        let (issued, s') = issue_upload_token connected faults.set token image.id ttl s in
        let unstored = take_back faults p.file_key none d o in
        let unissued = take_back faults p.file_key (some image.id) d' o in
        if faults.upload.insert
        then (err internal_server_error, unstored.0, unstored.1, s)
        else elim issued [
          | err e ↦ (err e, unissued.0, unissued.1, s')
          | ok signup_token ↦ (
            ok (record { id = image.id; file_url = image.file_url; signup_token = signup_token }),
            d',
            o,
            s',
          )
        ]

    unfoldable pub confirm_presigned_signup_upload :
        TempFaults
        → Bool
        → (Objects → Objects)
        → Text
        → Option ℕ
        → Text
        → Text
        → ℕ
        → ℕ
        → ℕ
        → Db
        → Objects
        → Store
        → Result SignupImage × Db × Objects × Store
    confirm_presigned_signup_upload faults connected meanwhile file_key size ulid token ttl image_id
          now d o s =
        register_temp faults connected token ttl image_id now
          (confirm_pending_key s3 settings is_word faults.upload meanwhile file_key signup size ulid
            o)
          d s

-- the transaction of `delete_image`, which answers the key of the image
abbrev pub delete_owned : ℕ → Option Image → Action Text
delete_owned user_id none = raise image_not_found
delete_owned user_id (some m) =
    if opt_eq m.uploader_id user_id
    then (do run (delete_image_record m); pure m.file_key)
    else raise image_not_found

unfoldable pub delete_row : ℕ → ℕ → Action Text
delete_row image_id user_id =
    transaction (do image ← gets (get_image_by_id image_id); delete_owned user_id image)

-- The object is deleted after the commit: a deletion that raises leaves an object without a row.
unfoldable pub delete_image :
    {Objects : Type 0}
    → Bucket Objects
    → Bool
    → ℕ
    → ℕ
    → Db
    → Objects
    → Result (Unit {0}) × Db × Objects
delete_image s3 raises image_id user_id d o =
    let (r, d') = delete_row image_id user_id d in
    elim r [
      | err e ↦ (err e, d', o)
      | ok key ↦
          if length key == 0
          then (ok tt, d', o)
          else if raises
          then (err internal_server_error, d', o)
          else (ok tt, d', s3.delete (s3_object_key key) o)
    ]
