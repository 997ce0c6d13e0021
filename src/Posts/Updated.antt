-- ===== src/Posts/Updated.antt =====
-- app/domain/posts/services/post_service.py: what `PostService.update_post` leaves, and that the version
-- lets one of two updates through.
use kyjness_community_be.Prelude.{
  ℕ, ◌+◌, zero, suc, ◌≡◌, refl, ap, ◌∙◌, Bool, true, false, not, ◌&&◌, Option, none, some, List, [],
  ◌∷◌, ◌++◌, ◌==◌, keep, map, take, any_of, any_of-append, arith, Bool-split,
}
use kyjness_community_be.Text.{Text}
use kyjness_community_be.Db.Rows.{Db, Post, PostImage}
use kyjness_community_be.Db.Sql.{update_where, delete_where, one_or_none, returning}
use kyjness_community_be.Db.Found.{
  one_or_none_there, one_or_none-update_where, one_or_none-test, one_or_none-any_of,
}
use kyjness_community_be.Db.Action.{ok, err, concurrent_update}
use kyjness_community_be.Posts.{
  max_post_images, is_post, is_visible_to, has_blocked, get_post_by_id, is_undeleted_post,
  images_of,
}
use kyjness_community_be.Posts.Hashtags.{sync_post_hashtags}
use kyjness_community_be.Posts.Service.{
  is_category, listed, has_images, normalized, PostUpdateRequest, is_stale, update_post,
}
use kyjness_community_be.Posts.Update
use kyjness_community_be.Posts.Update.{
  edit_post, sync_given, is_among, added, old_images, replace_images,
}

is_among-added :
    (old ids : List ℕ) (i : ℕ)
    → is_among (added old ids) i ≡ (is_among ids i && not (is_among old i))
unfolding added
is_among-added old [] i = refl
is_among-added old (j ∷ ids) i =
    Bool-split (j == i)
      (λ e.
        let same : j ≡ i = ground arith in
        ground (
          arith,
          is_among-added old ids i,
          ap (is_among old) same,
          ap (is_among (added old ids)) same,
        ))
      (λ e. ground (arith, is_among-added old ids i))

is_among-keep :
    (f : ℕ → Bool) (ids : List ℕ) (i : ℕ) → is_among (keep f ids) i ≡ (is_among ids i && f i)
is_among-keep f [] i = refl
is_among-keep f (j ∷ ids) i =
    Bool-split (j == i)
      (λ e. let same : j ≡ i = ground arith in ground (arith, is_among-keep f ids i, ap f same))
      (λ e. ground (arith, is_among-keep f ids i))

is_among-take :
    (n : ℕ) (ids : List ℕ) (i : ℕ) → is_among (take n ids) i ≡ true → is_among ids i ≡ true
is_among-take zero ids i e = ground arith
is_among-take (suc n) [] i e = ground arith
is_among-take (suc n) (j ∷ ids) i e = ground (arith, is_among-take n ids i)

module _ (post_id : ℕ) where
  -- the post has the image
  abbrev pub has_image : ℕ → PostImage → Bool
  has_image i l = l.post_id == post_id && l.image_id == i

  abbrev pub is_other : PostImage → Bool
  is_other l = not (l.post_id == post_id)

  is_among-old :
      (links : List PostImage) (i : ℕ)
      → is_among (map (λ l. l.image_id) (keep (λ l. l.post_id == post_id) links)) i
        ≡ any_of (has_image i) links
  is_among-old [] i = refl
  is_among-old (l ∷ links) i = ground (arith, is_among-old links i)

  linked-images_of :
      (ids : List ℕ) (now i : ℕ) → any_of (has_image i) (images_of post_id ids now) ≡ is_among ids i
  linked-images_of [] now i = refl
  linked-images_of (j ∷ ids) now i = ground (arith, linked-images_of ids now i)

  abbrev is_released : List ℕ → PostImage → Bool
  is_released ids l = l.post_id == post_id && is_among ids l.image_id

  linked-delete :
      (ids : List ℕ) (i : ℕ) (links : List PostImage)
      → any_of (has_image i) (delete_where (is_released ids) links)
        ≡ (any_of (has_image i) links && not (is_among ids i))
  unfolding delete_where
  linked-delete ids i [] = refl
  linked-delete ids i (l ∷ links) =
      Bool-split (l.image_id == i)
        (λ e.
          let same : l.image_id ≡ i = ground arith in
          ground (arith, linked-delete ids i links, ap (is_among ids) same))
        (λ e. ground (arith, linked-delete ids i links))

  others-delete :
      (ids new_ids : List ℕ) (now : ℕ) (links : List PostImage)
      → keep is_other (delete_where (is_released ids) (links ++ images_of post_id new_ids now))
        ≡ keep is_other links
  unfolding delete_where
  others-delete ids [] now [] = refl
  others-delete ids (i ∷ new_ids) now [] = ground (arith, others-delete ids new_ids now [])
  others-delete ids new_ids now (l ∷ links) = ground (arith, others-delete ids new_ids now links)

  -- an image that is added is linked to no post
  none_taken :
      (old new wanted : List ℕ) (links : List PostImage)
      → ((i : ℕ) → any_of (has_image i) links ≡ true → is_among old i ≡ true)
      → ((i : ℕ) → is_among new i ≡ true → is_among wanted i ≡ true)
      → any_of (λ l. is_other l && is_among wanted l.image_id) links ≡ false
      → any_of (λ l. is_among (added old new) l.image_id) links ≡ false
  none_taken old new wanted [] mine sub free = refl
  none_taken old new wanted (l ∷ links) mine sub free = ground (
    arith,
    is_among-added old new l.image_id,
    mine l.image_id,
    sub l.image_id,
    none_taken old new wanted links (λ i e. mine i (ground arith)) sub (ground arith),
  )

  -- the images that the post has after a request
  abbrev pub wanted_image : Option (List ℕ) → Db → ℕ → Bool
  wanted_image none d i = any_of (has_image i) d.post_images
  wanted_image (some image_ids) d i = is_among (take max_post_images image_ids) i

  abbrev IsReplaced : Option (List ℕ) → Db → Db → Type 0
  IsReplaced image_ids d d' =
      (d'.posts ≡ d.posts)
      × (d'.user_blocks ≡ d.user_blocks)
      × ((i : ℕ) → any_of (has_image i) d'.post_images ≡ wanted_image image_ids d i)
      × (keep is_other d'.post_images ≡ keep is_other d.post_images)

  replaced :
      (image_ids : Option (List ℕ)) (now : ℕ) (d : Db)
      → any_of (λ l. is_other l && is_among (listed image_ids) l.image_id) d.post_images ≡ false
      → (delta : List ℕ × List ℕ) × (d' : Db) × (replace_images post_id image_ids now d
          ≡ (ok delta, d'))
        × IsReplaced image_ids d d'
  unfolding replace_images
  replaced none now d free = (([], []), d, refl, (refl, refl, (λ i. refl), refl))
  replaced (some image_ids) now d free =
      let old = old_images post_id d in
      let new = take max_post_images image_ids in
      let to_add = added old new in
      let released = keep (λ i. not (is_among new i)) old in
      let fresh =
        none_taken old new image_ids d.post_images (λ i e. is_among-old d.post_images i ∙ e)
          (is_among-take max_post_images image_ids) free in
      (
        (released, to_add),
        record d {
          post_images =
              delete_where (is_released released) (d.post_images ++ images_of post_id to_add now);
        },
        ground (arith, fresh),
        (
          refl,
          refl,
          (λ i. ground (
            arith,
            linked-delete released i (d.post_images ++ images_of post_id to_add now),
            any_of-append (has_image i) d.post_images (images_of post_id to_add now),
            linked-images_of to_add now i,
            is_among-added old new i,
            is_among-keep (λ j. not (is_among new j)) old i,
            is_among-old d.post_images i,
          )),
          others-delete released to_add now d.post_images,
        ),
      )

  is_there :
      (d : Db) (p : Post)
      → get_post_by_id post_id none d ≡ some p
      → any_of (is_undeleted_post post_id) d.posts ≡ true
  unfolding get_post_by_id
  is_there d p e =
      let test = one_or_none-test (λ r. is_post post_id r && is_visible_to none d r) d.posts p e in
      one_or_none-any_of (λ r. is_post post_id r && is_visible_to none d r)
        (is_undeleted_post post_id) d.posts p e (ground arith)

  synced :
      (names : Option (List Text)) (next : ℕ) (d : Db)
      → let d' = sync_given post_id names next d in
        (d'.posts ≡ d.posts) × (d'.user_blocks ≡ d.user_blocks) × (d'.post_images ≡ d.post_images)
  unfolding sync_post_hashtags
  synced none next d = (refl, refl, refl)
  synced (some []) next d = (refl, refl, refl)
  synced (some (n ∷ names)) next d = (refl, refl, refl)

  stale_refused :
      (request : PostUpdateRequest) (next now : ℕ) (d : Db) (p : Post)
      → get_post_by_id post_id none d ≡ some p
      → is_stale request.version p ≡ true
      → update_post post_id request next now d ≡ (err concurrent_update, d)
  unfolding update_post
  stale_refused request next now d p there stale = ground arith

  -- the row of the post after an update
  abbrev pub edited : PostUpdateRequest → ℕ → Post → Post
  edited request now = edit_post request.title request.content request.category_id now

  found_edited :
      (request : PostUpdateRequest) (now : ℕ) (d d' : Db) (p : Post)
      → get_post_by_id post_id none d ≡ some p
      → d'.posts ≡ update_where (is_undeleted_post post_id) (edited request now) d.posts
      → get_post_by_id post_id none d' ≡ some (edited request now p)
  unfolding get_post_by_id has_blocked edit_post
  found_edited request now d d' p there same =
      let q : Post → Bool = λ r. is_post post_id r && is_visible_to none d r in
      let test : q p ≡ true = one_or_none-test q d.posts p there in
      let moved =
        one_or_none-update_where q (is_undeleted_post post_id) (edited request now) (λ r. refl)
          d.posts p there in
      ap (one_or_none q) same ∙ moved ∙ ground arith

  wanted_same :
      (image_ids : Option (List ℕ)) (d d' : Db) (i : ℕ)
      → d'.post_images ≡ d.post_images
      → wanted_image image_ids d' i ≡ wanted_image image_ids d i
  wanted_same none d d' i same = ap (any_of (has_image i)) same
  wanted_same (some image_ids) d d' i same = refl

  set_to_lem :
      (given : Option Text) (old : Text)
      → Update.set_to given old ≡ elim given [ none ↦ old | some t ↦ t ]
  set_to_lem none old = refl
  set_to_lem (some t) old = refl

  set_category_lem :
      (given old : Option ℕ)
      → Update.set_category given old ≡ elim given [ none ↦ old | some c ↦ some c ]
  set_category_lem none old = refl
  set_category_lem (some c) old = refl

  -- what a reader finds is the post with the fields that the request gives
  abbrev pub IsEdited : PostUpdateRequest → ℕ → Post → Db → Type 0
  IsEdited request now p d' =
      (q : Post) × (get_post_by_id post_id none d' ≡ some q)
      × (q.title ≡ elim request.title [ none ↦ p.title | some t ↦ t ])
      × (q.content ≡ elim request.content [ none ↦ p.content | some t ↦ t ])
      × (q.category_id ≡ elim request.category_id [ none ↦ p.category_id | some c ↦ some c ])
      × (q.updated_at ≡ now)
      × (q.version ≡ p.version + 1)
      × (q.user_id ≡ p.user_id)
      × (q.created_at ≡ p.created_at)
      × (q.view_count ≡ p.view_count)
      × (q.like_count ≡ p.like_count)
      × (q.comment_count ≡ p.comment_count)

  -- An update of a post that is there goes through, where its version is the post's if it has one, its
  -- category exists, and its images exist and are of no other post. A reader then finds the post with
  -- the title, content and category that are given, the others as they were, and the next version; it has the first five of the images that are given, if any are, and no others; the
  -- images of other posts are as they were. A further update with the version that the post had before
  -- is refused and changes nothing.
  pub update_post_lem :
      (request : PostUpdateRequest) (next now : ℕ) (d : Db) (p : Post)
      → get_post_by_id post_id none d ≡ some p
      → is_stale request.version p ≡ false
      → is_category request.category_id d ≡ true
      → has_images (listed request.image_ids) d ≡ true
      → any_of (λ l. is_other l && is_among (listed request.image_ids) l.image_id) d.post_images
        ≡ false
      → (d' : Db) × (update_post post_id request next now d ≡ (ok tt, d'))
        × IsEdited request now p d'
        × ((i : ℕ) → any_of (has_image i) d'.post_images ≡ wanted_image request.image_ids d i)
        × (keep is_other d'.post_images ≡ keep is_other d.post_images)
        × ((later : PostUpdateRequest) (next' now' : ℕ)
            → update_post post_id (record later { version = some p.version }) next' now' d'
              ≡ (err concurrent_update, d'))
  unfolding update_post Update.update_post edit_post returning
  update_post_lem request next now d p there fresh known illustrated free =
      let names = normalized request.hashtags in
      let d1 : Db = record d {
        posts = update_where (is_undeleted_post post_id) (edited request now) d.posts;
      } in
      let d2 = sync_given post_id names next d1 in
      let (same_posts, same_blocks, same_links) = synced names next d1 in
      let (row, found, _) =
        one_or_none_there (is_undeleted_post post_id) d.posts (is_there d p there) in
      let (delta, d3, ran, (posts, blocks, linked, others)) = replaced request.image_ids now d2 (
        ap (any_of (λ l. is_other l && is_among (listed request.image_ids) l.image_id)) same_links
        ∙ free) in
      let inner : Update.update_post post_id request.title request.content request.image_ids
            request.category_id names next now d
          ≡ (ok (some delta), d3) =
        ground (arith, found, ran) in
      let shown = found_edited request now d d3 p there (posts ∙ same_posts) in
      (
        d3,
        ground (arith, inner, there, fresh, known, illustrated),
        (
          edited request now p,
          shown,
          set_to_lem request.title p.title,
          set_to_lem request.content p.content,
          set_category_lem request.category_id p.category_id,
          refl,
          refl,
          refl,
          refl,
          refl,
          refl,
          refl,
        ),
        (λ i. linked i ∙ wanted_same request.image_ids d d2 i same_links),
        others ∙ ap (keep is_other) same_links,
        (λ later next' now'.
            stale_refused (record later { version = some p.version }) next' now' d3
              (edited request now p) shown (ground arith)),
      )
