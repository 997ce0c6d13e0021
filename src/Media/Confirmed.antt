-- ===== src/Media/Confirmed.antt =====
-- app/domain/media/service.py: a confirmed upload has its row and its object; a failed one has neither.
use mathlib.Core.Path.{subst}
use kyjness_community_be.Prelude.{
  ℕ, ◌≤◌, ◌≡◌, ◌≢◌, refl, sym, ap, ◌∙◌, Bool, false, ◌||◌, Option, none, some, [], ◌∷◌, ◌++◌, ltb,
  length, arith, Bool-split, Option-cases, ◌⊎◌, inl, inr, ◌==◌,
}
use kyjness_community_be.Text.{Text, text_eq, text_eq_refl, text_eq→≡}
use kyjness_community_be.Db.Rows.{Db, Image}
use kyjness_community_be.Db.Action.{
  Result, Result-cases, ok, err, invalid_request, invalid_image_file, internal_server_error,
}
use kyjness_community_be.Media.{create_image, extension, media_type, validate_image_content_type}
use kyjness_community_be.Media.Upload.{
  Bucket, Faults, Purpose, MediaSettings, Tried, got, value_error, other_error, Promoted, dest_key,
  s3_object_key, bare_key, is_valid_pending_file_key, presigned_max_bytes, is_wrong_size,
  check_object, head_pending_object, move_object, promote_pending_object, recheck,
  confirm_pending_key, register, confirm_presigned_upload, build_url,
}

Tried-cases :
    {A : Type 0} (t : Tried A) → ((a : A) × (t ≡ got a)) ⊎ ((t ≡ value_error) ⊎ (t ≡ other_error))
Tried-cases (got a) = inl (a, refl)
Tried-cases value_error = inr (inl refl)
Tried-cases other_error = inr (inr refl)

module _ {Store : Type 0} (s3 : Bucket Store) where
  same_key {ℓ} : {P : Type ℓ} (k k' : Text) → (k ≡ k' → P) → (k ≢ k' → P) → P
  same_key k k' f g =
      Bool-split (text_eq k k') (λ e. f (text_eq→≡ k k' e))
        (λ e. g (λ same. ground (arith, ap (text_eq k) same, text_eq_refl k)))

  delete_keeps_none :
      (k k' : Text) (s : Store) → s3.head k s ≡ none → s3.head k (s3.delete k' s) ≡ none
  delete_keeps_none k k' s absent =
      same_key k k' (λ e. ap (λ x. s3.head x (s3.delete k' s)) e ∙ s3.head-delete_self k' s)
        (λ ne. s3.head-delete_ne k k' s ne ∙ absent)

  -- a copy that is deleted again leaves an absent key absent
  undone :
      (k dest src : Text) (s : Store)
      → s3.head k s ≡ none
      → s3.head k (s3.delete dest (s3.delete src (s3.copy dest src s))) ≡ none
  undone k dest src s absent =
      same_key k dest
        (λ e.
          ap (λ x. s3.head x (s3.delete dest (s3.delete src (s3.copy dest src s)))) e
          ∙ s3.head-delete_self dest _)
        (λ ne.
          delete_keeps_none k dest _
            (delete_keeps_none k src _ (s3.head-copy_ne k dest src s ne ∙ absent)))

  -- a copy to an absent key from a present one outlives its source
  moved :
      (dest src : Text) (m : ℕ × Text) (s : Store)
      → s3.head dest s ≡ none
      → s3.head src s ≡ some m
      → s3.head dest (s3.delete src (s3.copy dest src s)) ≡ some m
  moved dest src m s absent there =
      s3.head-delete_ne dest src _ (λ e. let same = ap (λ k. s3.head k s) e in ground arith)
      ∙ s3.head-copy_self dest src s
      ∙ there

  module _ (settings : MediaSettings) (is_word : ℕ → Bool) (faults : Faults) (purpose : Purpose)
      (ulid : Text) (expected : Option ℕ) (deleted_pending : faults.delete_pending ≡ false)
      (discarded : faults.delete_promoted ≡ false) where
    -- no object under a key that the promotion may choose
    abbrev pub IsFresh : Store → Type 0
    IsFresh s = (ext : Text) → s3.head (s3_object_key (dest_key purpose ulid ext)) s ≡ none

    abbrev pub IsFit : ℕ → Text → Type 0
    IsFit size content_type =
        (1 ≤ size)
        × (size ≤ presigned_max_bytes)
        × (is_wrong_size expected size ≡ false)
        × ((ct : Text) × (validate_image_content_type settings.allowed_image_types content_type
              ≡ ok ct))

    -- how a confirmation of the object may leave the bucket
    abbrev pub IsKept : Result Promoted → Store → Type 0
    IsKept (err e) s = IsFresh s
    IsKept (ok p) s =
        (s3.head (s3_object_key p.file_key) s ≡ some (p.size, p.content_type))
        × IsFit p.size p.content_type
        × IsFresh (s3.delete (s3_object_key p.file_key) s)

    abbrev pub IsKeptPair : Result Promoted × Store → Type 0
    IsKeptPair o = IsKept o.0 o.1

    rechecked :
        (ext key : Text) (size : ℕ) (ct : Text) (s : Store)
        → IsFresh s
        → s3.head (s3_object_key key) s ≡ some (size, ct)
        → 1 ≤ size
        → size ≤ presigned_max_bytes
        → let dest = dest_key purpose ulid ext in
          IsKeptPair (
            recheck s3 settings is_word faults expected (
              got (dest, size, ct),
              s3.delete (s3_object_key key) (s3.copy (s3_object_key dest) (s3_object_key key) s),
            ))
    unfolding recheck check_object
    rechecked ext key size ct s fresh there pos le =
        let dest = dest_key purpose ulid ext in
        let copied = s3.copy (s3_object_key dest) (s3_object_key key) s in
        let s1 = s3.delete (s3_object_key key) copied in
        let p : Promoted = record {
          file_key = dest;
          file_url = build_url settings dest;
          content_type = ct;
          size = size;
        } in
        let gone : IsFresh (s3.delete (s3_object_key dest) s1) = λ ext'.
          undone (s3_object_key (dest_key purpose ulid ext')) (s3_object_key dest)
            (s3_object_key key) s (fresh ext') in
        let outcome = recheck s3 settings is_word faults expected (got (dest, size, ct), s1) in
        Bool-split (is_wrong_size expected size)
          (λ wrong.
            let e : outcome ≡ (err invalid_image_file, s3.delete (s3_object_key dest) s1) =
              ground arith in
            subst IsKeptPair (sym e) gone)
          (λ right.
            elim (Result-cases (validate_image_content_type settings.allowed_image_types ct)) [
              | inl (t, valid) ↦
                  let e : outcome ≡ (ok p, s1) = ground arith in
                  subst IsKeptPair (sym e) (
                    moved (s3_object_key dest) (s3_object_key key) (size, ct) s (fresh ext) there,
                    (pos, le, right, (t, valid)),
                    gone,
                  )
              | inr (x, invalid) ↦
                  let e : outcome ≡ (err x, s3.delete (s3_object_key dest) s1) = ground arith in
                  subst IsKeptPair (sym e) gone
            ])

    moved_object :
        (key : Text) (size : ℕ) (ct : Text) (s : Store)
        → IsFresh s
        → s3.head (s3_object_key key) s ≡ some (size, ct)
        → IsKeptPair (
            recheck s3 settings is_word faults expected
              (move_object s3 settings is_word faults key purpose ulid (size, ct) s))
    unfolding recheck move_object
    moved_object key size ct s fresh there =
        let refused : IsKeptPair (err invalid_image_file, s) = fresh in
        let outcome =
          recheck s3 settings is_word faults expected
            (move_object s3 settings is_word faults key purpose ulid (size, ct) s) in
        Bool-split (ltb size 1 || ltb presigned_max_bytes size || length ct == 0)
          (λ bad.
            let e : outcome ≡ (err invalid_image_file, s) = ground arith in
            subst IsKeptPair (sym e) refused)
          (λ good. elim (Option-cases (extension (media_type ct))) [
            | inl unknown ↦
                let e : outcome ≡ (err invalid_image_file, s) = ground arith in
                subst IsKeptPair (sym e) refused
            | inr (ext, known) ↦
                let dest = dest_key purpose ulid ext in
                Bool-split faults.copy
                  (λ raised.
                    let e : outcome ≡ (err internal_server_error, s) = ground arith in
                    subst IsKeptPair (sym e) fresh)
                  (λ copied.
                    let e : outcome
                        ≡ recheck s3 settings is_word faults expected (
                          got (dest, size, ct),
                          s3.delete (s3_object_key key)
                              (s3.copy (s3_object_key dest) (s3_object_key key) s),
                        ) =
                      ground arith in
                    subst IsKeptPair (sym e)
                      (rechecked ext key size ct s fresh there (ground arith) (ground arith)))
          ])

    promoted :
        (key : Text) (s : Store)
        → IsFresh s
        → IsKeptPair (
            recheck s3 settings is_word faults expected
              (promote_pending_object s3 settings is_word faults key purpose ulid s))
    unfolding recheck promote_pending_object head_pending_object
    promoted key s fresh =
        let outcome =
          recheck s3 settings is_word faults expected
            (promote_pending_object s3 settings is_word faults key purpose ulid s) in
        Bool-split (is_valid_pending_file_key is_word key)
          (λ valid.
            Bool-split faults.head_again
              (λ raised.
                let e : outcome ≡ (err internal_server_error, s) = ground arith in
                subst IsKeptPair (sym e) fresh)
              (λ asked. elim (Option-cases (s3.head (s3_object_key key) s)) [
                | inl absent ↦
                    let e : outcome ≡ (err invalid_image_file, s) = ground arith in
                    subst IsKeptPair (sym e) fresh
                | inr ((size, ct), there) ↦
                    let e : outcome
                        ≡ recheck s3 settings is_word faults expected
                            (move_object s3 settings is_word faults key purpose ulid (size, ct) s) =
                      ground arith in
                    subst IsKeptPair (sym e) (moved_object key size ct s fresh there)
              ]))
          (λ invalid.
            let e : outcome ≡ (err invalid_image_file, s) = ground arith in
            subst IsKeptPair (sym e) fresh)

    -- how a confirmation leaves the tables and the bucket
    abbrev pub IsConfirmed : Db → Result Image → Db → Store → Type 0
    IsConfirmed d (err e) d' s = (d' ≡ d) × IsFresh s
    IsConfirmed d (ok m) d' s =
        (size : ℕ) × (content_type : Text) × (m.size ≡ some size)
        × (m.content_type ≡ some content_type)
        × (s3.head (s3_object_key m.file_key) s ≡ some (size, content_type))
        × IsFit size content_type
        × (d'.images ≡ d.images ++ m ∷ [])

    abbrev IsConfirmedTriple : Db → Result Image × Db × Store → Type 0
    IsConfirmedTriple d o = IsConfirmed d o.0 o.1 o.2

    registered :
        (image_id now : ℕ) (uploader_id : Option ℕ) (r : Result Promoted) (s : Store) (d : Db)
        → IsKept r s
        → IsConfirmedTriple d
            (register s3 settings is_word faults image_id uploader_id now (r, s) d)
    unfolding register create_image
    registered image_id now uploader_id (err e) s d kept = (refl, kept)
    registered image_id now uploader_id (ok p) s d (there, fit, gone) =
        let image : Image = record {
          id = image_id;
          file_key = p.file_key;
          file_url = p.file_url;
          content_type = some p.content_type;
          size = some p.size;
          uploader_id = uploader_id;
          created_at = now;
        } in
        let outcome = register s3 settings is_word faults image_id uploader_id now (ok p, s) d in
        Bool-split faults.insert
          (λ failed.
            let e : outcome
                ≡ (err internal_server_error, d, s3.delete (s3_object_key p.file_key) s) =
              ground arith in
            subst (IsConfirmedTriple d) (sym e) (refl, gone))
          (λ stored.
            let e : outcome ≡ (ok image, record d { images = d.images ++ image ∷ [] }, s) =
              ground arith in
            subst (IsConfirmedTriple d) (sym e)
              (p.size, p.content_type, refl, refl, there, fit, refl))

    pub confirmed :
        (meanwhile : Store → Store) (file_key : Text) (s : Store)
        → IsFresh s
        → IsFresh (meanwhile s)
        → IsKeptPair (
            confirm_pending_key s3 settings is_word faults meanwhile file_key purpose expected ulid
              s)
    unfolding confirm_pending_key
    confirmed meanwhile file_key s fresh fresh' =
        let outcome =
          confirm_pending_key s3 settings is_word faults meanwhile file_key purpose expected ulid
            s in
        let key = bare_key file_key in
        Bool-split (is_valid_pending_file_key is_word key)
          (λ valid. elim (Tried-cases (head_pending_object s3 settings is_word faults.head key s)) [
            | inl (meta, there) ↦ elim (Result-cases (check_object settings expected meta)) [
              | inl (t, checked) ↦
                  let e : outcome
                      ≡ recheck s3 settings is_word faults expected (
                          promote_pending_object s3 settings is_word faults key purpose ulid
                            (meanwhile s)) =
                    ground arith in
                  subst IsKeptPair (sym e) (promoted key (meanwhile s) fresh')
              | inr (x, unfit) ↦
                  let e : outcome ≡ (err x, s) = ground arith in subst IsKeptPair (sym e) fresh
            ]
            | inr (inl absent) ↦
                let e : outcome ≡ (err invalid_image_file, s) = ground arith in
                subst IsKeptPair (sym e) fresh
            | inr (inr raised) ↦
                let e : outcome ≡ (err internal_server_error, s) = ground arith in
                subst IsKeptPair (sym e) fresh
          ])
          (λ invalid.
            let e : outcome ≡ (err invalid_request, s) = ground arith in
            subst IsKeptPair (sym e) fresh)

    -- Where the promotion chooses a new key, and neither the deletion of the pending object nor that of
    -- a rejected one raises: a confirmation that goes through has stored the row of an image whose object
    -- has the size and the type that were asked for, whatever others did to the bucket between the checks;
    -- and one that fails has left the tables as they were and no object under the new key.
    pub confirm_presigned_upload_lem :
        (meanwhile : Store → Store) (file_key : Text) (image_id user_id now : ℕ) (d : Db)
        (s : Store)
        → IsFresh s
        → IsFresh (meanwhile s)
        → let (r, d', s') =
            confirm_presigned_upload s3 settings is_word faults meanwhile file_key purpose expected
              ulid image_id user_id now d s in
          IsConfirmed d r d' s'
    unfolding confirm_presigned_upload
    confirm_presigned_upload_lem meanwhile file_key image_id user_id now d s fresh fresh' =
        let (r, s') =
          confirm_pending_key s3 settings is_word faults meanwhile file_key purpose expected ulid
            s in
        registered image_id now (some user_id) r s' d (confirmed meanwhile file_key s fresh fresh')
