-- ===== src/Posts/Tests.antt =====
-- A post with one image, a request that replaces the image and the hashtags, and the theorem at them.
use kyjness_community_be.Prelude.{ℕ, ◌≡◌, refl, false, none, some, [], ◌∷◌, any_of, keep}
use kyjness_community_be.Text.{codes}
use kyjness_community_be.Db.Rows.{Db, Post, Image}
use kyjness_community_be.Db.Empty.{no_rows}
use kyjness_community_be.Db.Action.{ok, err, concurrent_update}
use kyjness_community_be.Db.Sql.{one_or_none}
use kyjness_community_be.Posts.{get_post_by_id, has_blocked}
use kyjness_community_be.Posts.Service.{PostUpdateRequest, has_images, update_post}
use kyjness_community_be.Posts.Updated.{
  has_image, is_other, wanted_image, IsEdited, update_post_lem,
}

abbrev walk : Post
walk = record {
  id = 1;
  user_id = some 10;
  title = codes "walk";
  content = codes "text";
  category_id = none;
  view_count = 0;
  like_count = 0;
  comment_count = 0;
  report_count = 0;
  is_blinded = false;
  created_at = 1;
  updated_at = 1;
  deleted_at = none;
  version = 4;
}

abbrev photo : ℕ → Image
photo i = record {
  id = i;
  file_key = codes "post/k";
  file_url = codes "u";
  content_type = none;
  size = none;
  uploader_id = some 10;
  created_at = 1;
}

abbrev town : Db
town = record no_rows {
  posts = walk ∷ [];
  images = photo 5 ∷ photo 6 ∷ [];
  post_images =
      record { post_id = 1; image_id = 5; created_at = 1 }
      ∷ record { post_id = 2; image_id = 9; created_at = 1 }
      ∷ [];
}

abbrev request : PostUpdateRequest
request = record {
  title = some (codes "run");
  content = none;
  image_ids = some (6 ∷ []);
  category_id = none;
  hashtags = some (codes "Dog" ∷ []);
  version = some 4;
}

post_there : get_post_by_id 1 none town ≡ some walk
unfolding get_post_by_id has_blocked one_or_none
post_there = refl

update_post_lem_example :
    (d' : Db) × (update_post 1 request 1 50 town ≡ (ok tt, d'))
    × IsEdited 1 request 50 walk d'
    × ((i : ℕ) → any_of (has_image 1 i) d'.post_images ≡ wanted_image 1 (some (6 ∷ [])) town i)
    × (keep (is_other 1) d'.post_images ≡ keep (is_other 1) town.post_images)
    × ((later : PostUpdateRequest) (next' now' : ℕ)
        → update_post 1 (record later { version = some 4 }) next' now' d'
          ≡ (err concurrent_update, d'))
unfolding has_images
update_post_lem_example = update_post_lem 1 request 1 50 town walk post_there refl refl refl refl
