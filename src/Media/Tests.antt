-- ===== src/Media/Tests.antt =====
-- A bucket that is a function, two images, and the theorems at them.
use mathlib.Core.Logic.{ite, if_pos, if_neg}
use native.Mathlib.Decide.{ℕ_discrete}
use kyjness_community_be.Prelude.{
  ℕ, ◌-◌, ◌*◌, ◌≡◌, ◌≢◌, refl, ap, ◌∙◌, Bool, true, false, ◌&&◌, Option, none, some, [], ◌∷◌, ◌++◌,
  ltb, leb, arith, Bool-split,
}
use kyjness_community_be.Text.{Text, codes, is_space, drop_while, strip, lstrip_if, rstrip_if}
use mathlib.Core.List.{reverse, reverse-cons, reverse-append}
use kyjness_community_be.Ids.{IdResult, id_of_stripped, parse_public_id_value}
use kyjness_community_be.Db.Rows.{Db, Image}
use kyjness_community_be.Db.Empty.{no_rows}
use kyjness_community_be.Db.Sql.{one_or_none}
use kyjness_community_be.Db.Action.{ok}
use kyjness_community_be.Redis.{upload_token}
use kyjness_community_be.Redis.Memory.{Store, memory}
use kyjness_community_be.Media.{hour, is_orphan, get_image_by_id}
use kyjness_community_be.Media.Upload.{
  Bucket, Faults, profile, signup, purpose_text, match_kinds, exactly, s3_object_key, bare_key,
  strip_media, dest_key, MediaSettings, confirm_presigned_upload,
}
use kyjness_community_be.Media.Confirmed.{IsConfirmed, confirm_presigned_upload_lem}
use kyjness_community_be.Media.Cleanup.{Cleaned, answered, sweep_unused_images}
use kyjness_community_be.Media.Swept.{IsSweptOf, ShowsAs, sweep_unused_images_lem}
use kyjness_community_be.Media.Tokens.{
  TempFaults, issue_upload_token, verify_upload_token, confirm_presigned_signup_upload,
  delete_image,
}
use kyjness_community_be.Media.SignupImages.{
  quiet, verify-issue, HasKey, IsDeleted, mine, delete_image_lem, IsUploaded,
  confirm_presigned_signup_upload_lem,
}

abbrev Objects : Type 0
Objects = Text → Option (ℕ × Text)

Text-discrete : Discrete Text
Text-discrete = hlevel ℕ_discrete

write : Text → Option (ℕ × Text) → Objects → Objects
write k v o k' = ite (Text-discrete k' k) v (o k')

write_self : (k : Text) (v : Option (ℕ × Text)) (o : Objects) → write k v o k ≡ v
unfolding write
write_self k v o = if_pos (Text-discrete k k) refl v (o k)

write_ne : (k k' : Text) (v : Option (ℕ × Text)) (o : Objects) → k ≢ k' → write k' v o k ≡ o k
unfolding write
write_ne k k' v o ne = if_neg (Text-discrete k k') ne v (o k)

bucket : Bucket Objects
bucket = record {
  head = λ k o. o k;
  copy = λ k src o. write k (o src) o;
  delete = λ k o. write k none o;
  head-copy_self = λ k src o. write_self k (o src) o;
  head-copy_ne = λ k k' src o ne. write_ne k k' (o src) o ne;
  head-delete_self = λ k o. write_self k none o;
  head-delete_ne = λ k k' o ne. write_ne k k' none o ne;
}

-- nothing but an upload that waits for its confirmation
abbrev waiting : Objects
waiting k = elim (match_kinds (exactly (codes "media/pending/")) k) [
  | none ↦ none
  | some _ ↦ some (3, codes "image/png")
]

drop_kept :
    (p : ℕ → Bool) (s : Text) (c d : ℕ)
    → p d ≡ false
    → (t : Text) × (drop_while p ((s ++ d ∷ []) ++ c ∷ []) ≡ (t ++ d ∷ []) ++ c ∷ [])
unfolding drop_while
drop_kept p [] c d e = ([], ground arith)
drop_kept p (x ∷ s) c d e =
    let (t, same) = drop_kept p s c d e in
    Bool-split (p x) (λ px. (t, ground arith)) (λ px. (x ∷ s, ground arith))

-- `strip` keeps two characters in front that are no white space
strip_kept :
    (c d : ℕ) (s : Text)
    → is_space c ≡ false
    → is_space d ≡ false
    → (t : Text) × (strip (c ∷ d ∷ s) ≡ c ∷ d ∷ t)
unfolding strip lstrip_if rstrip_if drop_while
strip_kept c d s ec ed =
    let (t, same) = drop_kept is_space (reverse s) c d ed in
    let front : drop_while is_space (c ∷ d ∷ s) ≡ c ∷ d ∷ s = ground arith in
    (
      reverse t,
      ap (λ x. reverse (drop_while is_space (reverse x))) front
          ∙ ap (λ x. reverse (drop_while is_space x))
              (reverse-cons c (d ∷ s) ∙ ap (λ x. x ++ c ∷ []) (reverse-cons d s))
          ∙ ap reverse same
          ∙ reverse-append (t ++ d ∷ []) (c ∷ [])
          ∙ ap (λ x. c ∷ x) (reverse-append t (d ∷ [])),
    )

-- no promoted object is there yet
no_profile : (s : Text) → waiting (s3_object_key (112 ∷ 114 ∷ s)) ≡ none
unfolding s3_object_key bare_key drop_while match_kinds strip_media is_space
no_profile s = let (t, same) = strip_kept 112 114 s (ground arith) (ground arith) in rw same refl

no_signup : (s : Text) → waiting (s3_object_key (115 ∷ 105 ∷ s)) ≡ none
unfolding s3_object_key bare_key drop_while match_kinds strip_media is_space
no_signup s = let (t, same) = strip_kept 115 105 s (ground arith) (ground arith) in rw same refl

fresh_profile :
    (ext : Text) → bucket.head (s3_object_key (dest_key profile (codes "u") ext)) waiting ≡ none
unfolding dest_key bucket purpose_text
fresh_profile ext = no_profile _

fresh_signup :
    (ext : Text) → bucket.head (s3_object_key (dest_key signup (codes "u") ext)) waiting ≡ none
unfolding dest_key bucket purpose_text
fresh_signup ext = no_signup _

abbrev answered_calls : Faults
answered_calls = record {
  head = false;
  head_again = false;
  copy = false;
  delete_pending = false;
  delete_promoted = false;
  insert = false;
}

abbrev settings : MediaSettings
settings = record {
  s3_public_base_url = codes "https://cdn";
  s3_bucket_name = codes "b";
  aws_region = codes "r";
  allowed_image_types = codes "image/png" ∷ [];
}

abbrev is_word : ℕ → Bool
is_word c = leb 97 c && leb c 122

abbrev pending : Text
pending = codes "pending/01890a5d-ac96-774b-bcce-b302099a8057/a.png"

confirm_presigned_upload_lem_example :
    let (r, d', o) =
      confirm_presigned_upload bucket settings is_word answered_calls
        (λ x. x)
        pending
        profile
        (some 3)
        (codes "u")
        77
        10
        5
        no_rows
        waiting in
    IsConfirmed bucket settings is_word answered_calls profile
      (codes "u")
      (some 3)
      refl
      refl
      no_rows
      r
      d'
      o
confirm_presigned_upload_lem_example =
    confirm_presigned_upload_lem bucket settings is_word answered_calls profile (codes "u") (some 3)
      refl refl (λ x. x) pending 77 10 5 no_rows waiting fresh_profile fresh_profile

abbrev calls : TempFaults
calls = record { upload = answered_calls; set = false; undo = false }

-- the text of one id, and its parser
abbrev id_text : ℕ → Text
id_text i = codes "3f"

abbrev parse_uuid : Text → Option ℕ
parse_uuid s = some 77

confirm_presigned_signup_upload_lem_example :
    IsUploaded memory id_text parse_uuid bucket settings is_word calls
      (codes "u")
      (some 3)
      refl
      refl
      refl
      (codes "token")
      no_rows
      (confirm_presigned_signup_upload memory id_text parse_uuid bucket settings is_word calls true
        (λ x. x)
        pending
        (some 3)
        (codes "u")
        (codes "token")
        900
        77
        5
        no_rows
        waiting
        (λ k. none))
confirm_presigned_signup_upload_lem_example =
    confirm_presigned_signup_upload_lem memory id_text parse_uuid bucket settings is_word calls
      (codes "u") (some 3) refl refl refl true (λ x. x) pending (codes "token") 900 77 5 no_rows
      waiting (λ k. none) (ground arith) refl fresh_signup fresh_signup

read_back : parse_public_id_value parse_uuid (id_text 77) ≡ IdResult.ok 77
unfolding parse_public_id_value id_of_stripped strip is_space drop_while
read_back = refl

verify-issue_example :
    let token = codes "token" in
    (s1 : Store) × (issue_upload_token memory id_text parse_uuid true false token 77 900 (λ k. none)
      ≡ (ok token, s1))
    × (s2 : Store) × (verify_upload_token memory id_text parse_uuid true quiet token s1
        ≡ (some 77, s2))
    × (verify_upload_token memory id_text parse_uuid true quiet token s2 ≡ (none, s2))
    × ((other : Text)
        → other ≢ token
        → memory.get (upload_token other) s2 ≡ memory.get (upload_token other) (λ k. none))
verify-issue_example =
    verify-issue memory id_text parse_uuid (codes "token") 77 900 (λ k. none) read_back refl refl
      (ground arith)

abbrev picture : ℕ → Option ℕ → ℕ → Image
picture i uploader at = record {
  id = i;
  file_key = codes "post/a.png";
  file_url = codes "u";
  content_type = none;
  size = none;
  uploader_id = uploader;
  created_at = at;
}

abbrev gallery : Db
gallery = record no_rows {
  images = picture 5 (some 10) 1 ∷ picture 6 none 2 ∷ [];
  post_images = record { post_id = 1; image_id = 5; created_at = 3 } ∷ [];
}

keyed : HasKey (get_image_by_id 5 gallery)
unfolding get_image_by_id one_or_none
keyed = refl

delete_image_lem_example :
    let (r, d', o') = delete_image bucket false 5 10 gallery waiting in
    IsDeleted bucket gallery waiting (mine 10 (get_image_by_id 5 gallery)) r d' o'
delete_image_lem_example = delete_image_lem bucket 5 10 gallery waiting keyed

sweep_unused_images_lem_example :
    (c : Cleaned) × (sweep_unused_images (answered true) (λ m. false) 1 3 (30 * hour) gallery
      ≡ some c)
    × IsSweptOf
        (λ m. ltb m.created_at (30 * hour - 24 * hour) && is_orphan gallery m)
        (λ m. false)
        gallery
        c
    × ShowsAs gallery c.tables
sweep_unused_images_lem_example =
    sweep_unused_images_lem (answered true) refl (λ m. false) 1 3 (30 * hour) gallery (ground arith)
      (((λ e. ground arith), tt), (tt, tt)) (ground arith)
