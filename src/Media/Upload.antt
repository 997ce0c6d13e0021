-- ===== src/Media/Upload.antt =====
-- app/infra/storage.py and app/domain/media/service.py: the confirmation of an upload. The bucket of S3
-- is a parameter, and which of its calls raise is an argument; `is_word` is Python's `\w`.
use kyjness_community_be.Prelude.{
  ℕ, zero, suc, ◌*◌, ◌≡◌, ◌≢◌, Bool, false, not, ◌&&◌, ◌||◌, Option, none, some, List, [], ◌∷◌,
  ◌++◌, length, reverse, if◌then◌else◌, ◌==◌, leb, ltb,
}
use kyjness_community_be.Text.{Text, codes, strip, drop_while}
use kyjness_community_be.Db.Rows.{Db, Image}
use kyjness_community_be.Db.Action.{
  Result, ok, err, invalid_request, invalid_image_file, internal_server_error,
}
use kyjness_community_be.Media.{create_image, extension, media_type, validate_image_content_type}

-- The objects of a bucket by their keys: the size and the content type of each. COPY gives the object
-- the content type that the source has, which is the one that the code passes.
pub record Bucket (Store : Type 0) : Type 0 where
  pub head : Text → Store → Option (ℕ × Text)
  pub copy : Text → Text → Store → Store
  pub delete : Text → Store → Store
  pub head-copy_self : (k src : Text) (s : Store) → head k (copy k src s) ≡ head src s
  pub head-copy_ne : (k k' src : Text) (s : Store) → k ≢ k' → head k (copy k' src s) ≡ head k s
  pub head-delete_self : (k : Text) (s : Store) → head k (delete k s) ≡ none
  pub head-delete_ne : (k k' : Text) (s : Store) → k ≢ k' → head k (delete k' s) ≡ head k s

-- which calls of a confirmation raise: of S3, in their order, and of the database
pub record Faults : Type 0 where
  pub head : Bool
  pub head_again : Bool
  pub copy : Bool
  pub delete_pending : Bool
  pub delete_promoted : Bool
  pub insert : Bool

-- the values of `purpose`
pub data Purpose : Type 0 where
  signup profile post : Purpose

unfoldable pub purpose_text : Purpose → Text
purpose_text signup = codes "signup"
purpose_text profile = codes "profile"
purpose_text post = codes "post"

abbrev pub is_slash : ℕ → Bool
is_slash c = c == 47

-- `s.strip().lstrip("/")`
unfoldable pub bare_key : Text → Text
bare_key k = drop_while is_slash (strip k)

unfoldable pub is_hex : ℕ → Bool
is_hex c = (leb 48 c && leb c 57) || (leb 97 c && leb c 102)

-- Characters of given kinds, one after the other; the rest of the text after them.
unfoldable pub match_kinds : List (ℕ → Bool) → Text → Option Text
match_kinds [] s = some s
match_kinds (p ∷ ps) [] = none
match_kinds (p ∷ ps) (c ∷ s) = let rest = match_kinds ps s in if p c then rest else none

abbrev pub exactly : Text → List (ℕ → Bool)
exactly [] = []
exactly (c ∷ s) = (λ x. x == c) ∷ exactly s

abbrev pub four_hex : List (ℕ → Bool)
four_hex = is_hex ∷ is_hex ∷ is_hex ∷ is_hex ∷ []

abbrev pub three_hex : List (ℕ → Bool)
three_hex = is_hex ∷ is_hex ∷ is_hex ∷ []

-- 8, 9, a or b
abbrev pub is_variant : ℕ → Bool
is_variant c = c == 56 || c == 57 || c == 97 || c == 98

-- `_PENDING_KEY_RE` up to the file name
abbrev pub pending_kinds : List (ℕ → Bool)
pending_kinds =
    exactly (codes "pending/")
    ++ four_hex
    ++ four_hex
    ++ exactly (codes "-")
    ++ four_hex
    ++ exactly (codes "-7")
    ++ three_hex
    ++ exactly (codes "-")
    ++ is_variant ∷ three_hex
    ++ exactly (codes "-")
    ++ four_hex
    ++ four_hex
    ++ four_hex
    ++ exactly (codes "/")

unfoldable pub is_file_name : (ℕ → Bool) → Text → Bool
is_file_name is_word [] = false
is_file_name is_word (c ∷ []) = is_word c || c == 46 || c == 45
is_file_name is_word (c ∷ d ∷ s) = (is_word c || c == 46 || c == 45) && is_file_name is_word (d ∷ s)

unfoldable pub is_valid_pending_file_key : (ℕ → Bool) → Text → Bool
is_valid_pending_file_key is_word file_key = elim (match_kinds pending_kinds (bare_key file_key)) [
  | none ↦ false
  | some name ↦ is_file_name is_word name
]

-- `_strip_redundant_media_prefixes`, on fuel: each round takes six characters off.
unfoldable pub strip_media : ℕ → Text → Text
strip_media zero k = k
strip_media (suc fuel) k = elim (match_kinds (exactly (codes "media/")) k) [
  | none ↦ k
  | some rest ↦ strip_media fuel (drop_while is_slash rest)
]

abbrev pub presigned_max_bytes : ℕ
presigned_max_bytes = 10 * 1024 * 1024

-- Keys of pending and of promoted objects are never empty, so that the code does not raise here.
unfoldable pub s3_object_key : Text → Text
s3_object_key key = codes "media/" ++ strip_media (length key) (bare_key key)

-- `S3_PUBLIC_BASE_URL`, `S3_BUCKET_NAME`, `AWS_REGION` and `ALLOWED_IMAGE_TYPES`
pub record MediaSettings : Type 0 where
  pub s3_public_base_url : Text
  pub s3_bucket_name : Text
  pub aws_region : Text
  pub allowed_image_types : List Text

unfoldable pub build_url : MediaSettings → Text → Text
build_url settings key =
    if length settings.s3_public_base_url == 0
    then codes "https://"
      ++ (settings.s3_bucket_name
          ++ (codes ".s3."
              ++ (settings.aws_region ++ (codes ".amazonaws.com/" ++ s3_object_key key))))
    else reverse (drop_while is_slash (reverse settings.s3_public_base_url))
      ++ (codes "/" ++ strip_media (length key) (bare_key key))

-- a value, a ValueError, or another exception
pub data Tried (A : Type 0) : Type 0 where
  got : A → Tried A
  value_error other_error : Tried A

unfoldable pub dest_key : Purpose → Text → Text → Text
dest_key purpose ulid ext = purpose_text purpose ++ (codes "/" ++ (ulid ++ (codes "." ++ ext)))

abbrev pub is_wrong_size : Option ℕ → ℕ → Bool
is_wrong_size none size = false
is_wrong_size (some expected) size = not (expected == size)

-- what `_confirm_pending_key` answers
pub record Promoted : Type 0 where
  pub file_key : Text
  pub file_url : Text
  pub content_type : Text
  pub size : ℕ

-- `expected_size` and the content type of an object, as they are checked before and after the promotion
unfoldable pub check_object : MediaSettings → Option ℕ → ℕ × Text → Result (Unit {0})
check_object settings expected_size (size, content_type) =
    if is_wrong_size expected_size size
    then err invalid_image_file
    else elim (validate_image_content_type settings.allowed_image_types content_type) [
      | ok _ ↦ ok tt
      | err e ↦ err e
    ]

module _ {Store : Type 0} (s3 : Bucket Store) (settings : MediaSettings) (is_word : ℕ → Bool) where
  unfoldable pub head_pending_object : Bool → Text → Store → Tried (ℕ × Text)
  head_pending_object raises key s =
      if not (is_valid_pending_file_key is_word key)
      then value_error
      else if raises
      then other_error
      else elim (s3.head (s3_object_key key) s) [ none ↦ value_error | some meta ↦ got meta ]

  -- the part of a promotion after HEAD
  unfoldable pub move_object :
      Faults → Text → Purpose → Text → ℕ × Text → Store → Tried (Text × ℕ × Text) × Store
  move_object faults key purpose ulid (size, content_type) s =
      if ltb size 1 || ltb presigned_max_bytes size
      then (value_error, s)
      else if length content_type == 0
      then (value_error, s)
      else elim (extension (media_type content_type)) [
        | none ↦ (value_error, s)
        | some ext ↦
            let dest = s3_object_key (dest_key purpose ulid ext) in
            let copied = s3.copy dest (s3_object_key key) s in
            if faults.copy
            then (other_error, s)
            else if faults.delete_pending
            then (other_error, copied)
            else (
              got (dest_key purpose ulid ext, size, content_type),
              s3.delete (s3_object_key key) copied,
            )
      ]

  unfoldable pub promote_pending_object :
      Faults → Text → Purpose → Text → Store → Tried (Text × ℕ × Text) × Store
  promote_pending_object faults key purpose ulid s =
      elim (head_pending_object faults.head_again key s) [
        | value_error ↦ (value_error, s)
        | other_error ↦ (other_error, s)
        | got meta ↦ move_object faults key purpose ulid meta s
      ]

  abbrev pub discard : Bool → Text → Store → Store
  discard raises key s = if raises then s else s3.delete (s3_object_key key) s

  -- the checks after the promotion, which delete the promoted object if they fail
  unfoldable pub recheck :
      Faults → Option ℕ → Tried (Text × ℕ × Text) × Store → Result Promoted × Store
  recheck faults expected_size (value_error, s) = (err invalid_image_file, s)
  recheck faults expected_size (other_error, s) = (err internal_server_error, s)
  recheck faults expected_size (got (key, size, content_type), s) =
      elim (check_object settings expected_size (size, content_type)) [
        | ok _ ↦ (
          ok (record {
            file_key = key;
            file_url = build_url settings key;
            content_type = content_type;
            size = size;
          }),
          s,
        )
        | err e ↦ (err e, discard faults.delete_promoted key s)
      ]

  -- `_confirm_pending_key`; `meanwhile` is what others do to the bucket between the first HEAD and the
  -- promotion.
  unfoldable pub confirm_pending_key :
      Faults → (Store → Store) → Text → Purpose → Option ℕ → Text → Store → Result Promoted × Store
  confirm_pending_key faults meanwhile file_key purpose expected_size ulid s =
      let key = bare_key file_key in
      if not (is_valid_pending_file_key is_word key)
      then (err invalid_request, s)
      else elim (head_pending_object faults.head key s) [
        | value_error ↦ (err invalid_image_file, s)
        | other_error ↦ (err internal_server_error, s)
        | got meta ↦ elim (check_object settings expected_size meta) [
          | err e ↦ (err e, s)
          | ok _ ↦
              recheck faults expected_size
                (promote_pending_object faults key purpose ulid (meanwhile s))
        ]
      ]

  -- `confirm_presigned_upload` from the promotion on: the row, and the roll-back of the storage
  unfoldable pub register :
      Faults → ℕ → Option ℕ → ℕ → Result Promoted × Store → Db → Result Image × Db × Store
  register faults image_id uploader_id now (err e, s) d = (err e, d, s)
  register faults image_id uploader_id now (ok p, s) d =
      let (image, d') =
        create_image image_id p.file_key p.file_url (some p.content_type) (some p.size) uploader_id
          now d in
      if faults.insert
      then (err internal_server_error, d, discard faults.delete_promoted p.file_key s)
      else (ok image, d', s)

  unfoldable pub confirm_presigned_upload :
      Faults
      → (Store → Store)
      → Text
      → Purpose
      → Option ℕ
      → Text
      → ℕ
      → ℕ
      → ℕ
      → Db
      → Store
      → Result Image × Db × Store
  confirm_presigned_upload faults meanwhile file_key purpose size ulid image_id user_id now d s =
      register faults image_id (some user_id) now
        (confirm_pending_key faults meanwhile file_key purpose size ulid s) d
