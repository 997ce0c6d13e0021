-- ===== src/Media/SignupImages.antt =====
-- app/domain/media/service.py: what an upload before a sign-up leaves, how often its token is good, and
-- what the deletion of an image removes.
use mathlib.Core.Path.{subst}
use kyjness_community_be.Prelude.{
  ℕ, ◌<◌, ◌≡◌, ◌≢◌, refl, sym, ◌∙◌, Bool, true, false, not, ◌||◌, Option, none, some, List, [], ◌∷◌,
  ◌++◌, if◌then◌else◌, ◌==◌, opt_eq, length, any_of, arith, Bool-split,
}
use kyjness_community_be.Text.{Text}
use kyjness_community_be.Ids.{IdResult, parse_public_id_value}
use kyjness_community_be.Db.Rows.{Db, Image, User, DogProfile, PostImage}
use kyjness_community_be.Db.Sql.{delete_where, any_of-hide}
use kyjness_community_be.Db.Action.{Result, ok, err, internal_server_error, image_not_found}
use kyjness_community_be.Redis.{Redis, upload_token, image_ref}
use kyjness_community_be.Dogs.{mem_id}
use kyjness_community_be.Media.{
  create_image, create_temp_image, delete_images_by_ids, delete_image_record, forget_images,
  get_image_by_id, refers,
}
use kyjness_community_be.Media.Upload.{
  Bucket, signup, MediaSettings, Promoted, s3_object_key, confirm_pending_key,
}
use kyjness_community_be.Media.Confirmed.{IsFresh, IsFit, IsKept, confirmed}
use kyjness_community_be.Media.Tokens.{
  TokenFaults, TempFaults, SignupImage, issue_upload_token, image_of, verify_upload_token,
  take_back, register_temp, confirm_presigned_signup_upload, delete_row, delete_image,
}

abbrev pub quiet : TokenFaults
quiet = record { get = false; delete = false }

module _ {Store : Type 0} (redis : Redis Store) (image_id_text : ℕ → Text)
    (parse_uuid : Text → Option ℕ) where
  -- Where Redis answers, a token that was issued is good for its image once, if the text of the image's id is read back as the
  -- id: verified again, it names none. A verification leaves the other tokens as they were.
  pub verify-issue :
      (token : Text) (image_id ttl : ℕ) (s : Store)
      → parse_public_id_value parse_uuid (image_id_text image_id) ≡ IdResult.ok image_id
      → (length (image_id_text image_id) == 0) ≡ false
      → (length token == 0) ≡ false
      → 0 < ttl
      → (s1 : Store) × (issue_upload_token redis image_id_text parse_uuid true false token image_id
            ttl s
          ≡ (ok token, s1))
        × (s2 : Store) × (verify_upload_token redis image_id_text parse_uuid true quiet token s1
            ≡ (some image_id, s2))
        × (verify_upload_token redis image_id_text parse_uuid true quiet token s2 ≡ (none, s2))
        × ((other : Text)
            → other ≢ token
            → redis.get (upload_token other) s2 ≡ redis.get (upload_token other) s)
  unfolding issue_upload_token verify_upload_token image_of
  verify-issue token image_id ttl s back some_text given pos =
      let s1 = redis.set (upload_token token) (image_ref (image_id_text image_id)) ttl s in
      let s2 = redis.delete (upload_token token) s1 in
      let stored =
        redis.get-set_self (upload_token token) (image_ref (image_id_text image_id)) ttl s pos in
      let gone = redis.get-delete_self (upload_token token) s1 in
      (
        s1,
        ground arith,
        s2,
        ground arith,
        ground arith,
        λ other ne.
            let ne' : upload_token other ≢ upload_token token = λ e. ne (ground arith) in
            redis.get-delete_ne (upload_token other) (upload_token token) s1 ne'
            ∙ redis.get-set_ne (upload_token other) (upload_token token)
                (image_ref (image_id_text image_id)) ttl s ne',
      )

-- nothing shows the image
abbrev pub IsForgotten : ℕ → Db → Type 0
IsForgotten image_id d =
    (any_of (λ u. refers (image_id ∷ []) u.profile_image_id) d.users ≡ false)
    × (any_of (λ r. refers (image_id ∷ []) r.profile_image_id) d.dog_profiles ≡ false)
    × (any_of (λ r. mem_id (image_id ∷ []) r.image_id) d.post_images ≡ false)

delete_where_rest :
    {Row : Type 0} (p : Row → Bool) (rows : List Row) → any_of p (delete_where p rows) ≡ false
unfolding delete_where
delete_where_rest p [] = refl
delete_where_rest p (r ∷ rows) = ground (arith, delete_where_rest p rows)

forgotten : (image_id : ℕ) (d : Db) → IsForgotten image_id (forget_images (image_id ∷ []) d)
unfolding forget_images
forgotten image_id d = (
  any_of-hide (λ (u : User). refers (image_id ∷ []) u.profile_image_id) _ _ (λ u. refl) (λ u e. e)
      d.users,
  any_of-hide (λ (r : DogProfile). refers (image_id ∷ []) r.profile_image_id) _ _ (λ r. refl)
      (λ r e. e) d.dog_profiles,
  delete_where_rest (λ (r : PostImage). mem_id (image_id ∷ []) r.image_id) d.post_images,
)

-- how the deletion of the image that was found leaves the tables and the objects
abbrev pub IsDeleted :
    {Objects : Type 0}
    → Bucket Objects
    → Db
    → Objects
    → Option Image
    → Result (Unit {0})
    → Db
    → Objects
    → Type 0
IsDeleted s3 d o none r d' o' = (r ≡ err image_not_found) × (d' ≡ d) × (o' ≡ o)
IsDeleted s3 d o (some m) r d' o' =
    (r ≡ ok tt)
    × (d'.images ≡ delete_where (λ x. x.id == m.id) d.images)
    × IsForgotten m.id d'
    × (s3.head (s3_object_key m.file_key) o' ≡ none)

-- the image that was found, if it is the user's
abbrev pub mine : ℕ → Option Image → Option Image
mine user_id none = none
mine user_id (some m) = if opt_eq m.uploader_id user_id then some m else none

abbrev pub HasKey : Option Image → Type 0
HasKey none = Unit
HasKey (some m) = (length m.file_key == 0) ≡ false

module _ {Objects : Type 0} (s3 : Bucket Objects) (image_id user_id : ℕ) (d : Db)
    (o : Objects) where
  abbrev outcome : Result (Unit {0}) × Db × Objects
  outcome = delete_image s3 false image_id user_id d o

  -- An image is deleted for its uploader only: its row and its object are gone then, no user, dog or
  -- post shows it, where its key is not empty and S3 answers. Otherwise the tables and the objects
  -- stay, and the image is reported as not found.
  pub delete_image_lem :
      HasKey (get_image_by_id image_id d)
      → let (r, d', o') = delete_image s3 false image_id user_id d o in
        IsDeleted s3 d o (mine user_id (get_image_by_id image_id d)) r d' o'
  unfolding delete_image delete_row delete_image_record forget_images
  delete_image_lem keyed = by_found (get_image_by_id image_id d) refl keyed
    where
      by_found :
          (found : Option Image)
          → get_image_by_id image_id d ≡ found
          → HasKey found
          → IsDeleted s3 d o (mine user_id found) outcome.0 outcome.1 outcome.2
      by_found none e k = (ground arith, ground arith, ground arith)
      by_found (some m) e k = by_owner (opt_eq m.uploader_id user_id) refl
        where
          d' : Db
          d' = (delete_image_record m d).1

          by_owner :
              (b : Bool)
              → opt_eq m.uploader_id user_id ≡ b
              → IsDeleted s3 d o (if b then some m else none) outcome.0 outcome.1 outcome.2
          by_owner false ne = (ground arith, ground arith, ground arith)
          by_owner true own =
              let done : outcome ≡ (ok tt, d', s3.delete (s3_object_key m.file_key) o) =
                ground arith in
              subst
                (λ (x : Result (Unit {0}) × Db × Objects). IsDeleted s3 d o (some m) x.0 x.1 x.2)
                (sym done)
                (
                  refl,
                  refl,
                  forgotten m.id (record d { images = delete_where (λ x. x.id == m.id) d.images }),
                  s3.head-delete_self (s3_object_key m.file_key) o,
                )

-- a new row that is deleted again
undone_row :
    (m : Image) (rows : List Image)
    → any_of (λ x. mem_id (m.id ∷ []) x.id) rows ≡ false
    → delete_where (λ x. mem_id (m.id ∷ []) x.id) (rows ++ m ∷ []) ≡ rows
unfolding delete_where
undone_row m [] e = ground arith
undone_row m (x ∷ rows) e = ground (arith, undone_row m rows)

module _ {Store Objects : Type 0} (redis : Redis Store) (image_id_text : ℕ → Text)
    (parse_uuid : Text → Option ℕ) (s3 : Bucket Objects) (settings : MediaSettings)
    (is_word : ℕ → Bool) (faults : TempFaults) (ulid : Text) (expected : Option ℕ)
    (deleted_pending : faults.upload.delete_pending ≡ false)
    (discarded : faults.upload.delete_promoted ≡ false) (undoes : faults.undo ≡ false) where
  abbrev pub IsNew : Objects → Type 0
  IsNew o =
      IsFresh s3 settings is_word faults.upload signup ulid expected deleted_pending discarded o

  abbrev pub IsGood : ℕ → Text → Type 0
  IsGood size content_type =
      IsFit s3 settings is_word faults.upload signup ulid expected deleted_pending discarded size
        content_type

  -- how an upload before a sign-up leaves the tables, the objects and the tokens
  abbrev pub IsUploaded : Text → Db → Result SignupImage × Db × Objects × Store → Type 0
  IsUploaded token d (err e, d', o, s) = (d'.images ≡ d.images) × IsNew o
  IsUploaded token d (ok a, d', o, s) =
      (m : Image) × (d'.images ≡ d.images ++ m ∷ [])
      × (m.id ≡ a.id)
      × (m.uploader_id ≡ none)
      × (size : ℕ) × (content_type : Text) × (s3.head (s3_object_key m.file_key) o
          ≡ some (size, content_type))
      × IsGood size content_type
      × (a.signup_token ≡ token)
      × (redis.get (upload_token token) s ≡ some (image_ref (image_id_text a.id)))

  registered_temp :
      (connected : Bool) (token : Text) (ttl image_id now : ℕ) (r : Result Promoted) (o : Objects)
      (d : Db) (s : Store)
      → 0 < ttl
      → any_of (λ x. mem_id (image_id ∷ []) x.id) d.images ≡ false
      → IsKept s3 settings is_word faults.upload signup ulid expected deleted_pending discarded r o
      → IsUploaded token d (
          register_temp redis image_id_text parse_uuid s3 settings is_word faults connected token
            ttl image_id now
            (r, o)
            d
            s)
  unfolding register_temp issue_upload_token take_back create_temp_image create_image
      delete_images_by_ids forget_images
  registered_temp connected token ttl image_id now (err e) o d s pos new kept = (refl, kept)
  registered_temp connected token ttl image_id now (ok p) o d s pos new (there, fit, gone) =
      let m : Image = record {
        id = image_id;
        file_key = p.file_key;
        file_url = p.file_url;
        content_type = some p.content_type;
        size = some p.size;
        uploader_id = none;
        created_at = now;
      } in
      let d' : Db = record d { images = d.images ++ m ∷ [] } in
      let o' = s3.delete (s3_object_key p.file_key) o in
      let back : Db = (delete_images_by_ids (image_id ∷ []) d').1 in
      let out =
        register_temp redis image_id_text parse_uuid s3 settings is_word faults connected token ttl
          image_id now (ok p, o) d s in
      Bool-split faults.upload.insert
        (λ failed.
          let e : out ≡ (err internal_server_error, d, o', s) = ground arith in
          subst (IsUploaded token d) (sym e) (refl, gone))
        (λ stored.
          Bool-split (not connected || faults.set)
            (λ unissued.
              let e : out ≡ (err internal_server_error, back, o', s) = ground arith in
              subst (IsUploaded token d) (sym e) (undone_row m d.images new, gone))
            (λ issued.
              let s' = redis.set (upload_token token) (image_ref (image_id_text image_id)) ttl s in
              let a : SignupImage = record {
                id = image_id;
                file_url = p.file_url;
                signup_token = token;
              } in
              let e : out ≡ (ok a, d', o, s') = ground arith in
              subst (IsUploaded token d) (sym e) (
                m,
                refl,
                refl,
                refl,
                p.size,
                p.content_type,
                there,
                fit,
                refl,
                redis.get-set_self (upload_token token) (image_ref (image_id_text image_id)) ttl s
                    pos,
              )))

  -- Where the key and the id of the new image are new, and neither the deletion of the pending
  -- object nor what takes a failed upload back raises: an upload before a sign-up that goes through has stored a row without an uploader,
  -- whose object has the size and type asked for, and a token for its id; one that fails has left the
  -- rows of images as they were and no object under the new key.
  pub confirm_presigned_signup_upload_lem :
      (connected : Bool) (meanwhile : Objects → Objects) (file_key token : Text)
      (ttl image_id now : ℕ) (d : Db) (o : Objects) (s : Store)
      → 0 < ttl
      → any_of (λ x. mem_id (image_id ∷ []) x.id) d.images ≡ false
      → IsNew o
      → IsNew (meanwhile o)
      → IsUploaded token d (
          confirm_presigned_signup_upload redis image_id_text parse_uuid s3 settings is_word faults
            connected meanwhile file_key expected ulid token ttl image_id now d o s)
  unfolding confirm_presigned_signup_upload
  confirm_presigned_signup_upload_lem connected meanwhile file_key token ttl image_id now d o s pos
        new fresh fresh' =
      let (r, o') =
        confirm_pending_key s3 settings is_word faults.upload meanwhile file_key signup expected
          ulid o in
      registered_temp connected token ttl image_id now r o' d s pos new (
        confirmed s3 settings is_word faults.upload signup ulid expected deleted_pending discarded
          meanwhile file_key o fresh fresh')
