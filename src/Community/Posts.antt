-- ===== src/Community/Posts.antt =====
-- app/domain/posts/repository.py: the statements on posts keep the counts and the threads.
use kyjness_community_be.Prelude.{
  ℕ, ◌+◌, ◌≡◌, refl, sym, ap, take, Bool, true, false, not, ◌&&◌, Option, none, some, List, [], ◌∷◌,
  ◌++◌, if◌then◌else◌, count_if, any_of, any_of-append, map, keep, arith, ◌==◌, is_none, inl,
}
use kyjness_community_be.Text.{Text}
use kyjness_community_be.Db.Rows.{Db, Post, Comment, PostImage, Hashtag, PostHashtag}
use kyjness_community_be.Db.Sql.{
  update_where, delete_where, returning, count_if-update_where, count_if-hide, any_of-hide,
  update_where_none, count_if-delete_where, count_if-delete_where-le,
}
use kyjness_community_be.Db.Found.{one_or_none_there, one_or_none_absent, not_any}
use kyjness_community_be.Db.Tally.{
  IsTallied-update, IsTallied-touch, IsTallied-insert, IsTallied-links,
}
use kyjness_community_be.Db.Links.{count_if-keep}
use mathlib.Core.Path.{subst}
use kyjness_community_be.Db.Action.{Result, ok, err, integrity_error}
use kyjness_community_be.Posts.{
  max_post_images, is_taken, images_of, is_post, is_undeleted, is_undeleted_post, delete_post,
  create_post, post_is_visible, is_visible_to, has_blocked,
}
use kyjness_community_be.Posts.Hashtags.{sync_post_hashtags}
use kyjness_community_be.Likes.PostLikes
use kyjness_community_be.Community.Invariant.{IsSound, likes_post, likes_comment, comments_on}
use kyjness_community_be.Community.Threads.{IsThreaded-touch}

-- an UPDATE of posts that leaves their keys, likes, comments and deletion alone
pub touch_posts-IsSound :
    (p : Post → Bool) (f : Post → Post)
    → ((r : Post)
        → ((f r).id ≡ r.id)
          × ((f r).like_count ≡ r.like_count)
          × ((f r).comment_count ≡ r.comment_count)
          × ((f r).deleted_at ≡ r.deleted_at))
    → (d : Db) → IsSound d
    → IsSound (record d { posts = update_where p f d.posts })
touch_posts-IsSound p f same d h = record {
  post_likes =
      IsTallied-touch (λ p. p.id) (λ p. p.like_count) is_undeleted likes_post d.posts d.post_likes p
        f (λ r. ground (arith, same r)) h.post_likes;
  post_comments =
      IsTallied-touch (λ p. p.id) (λ p. p.comment_count) is_undeleted comments_on d.posts d.comments
        p f (λ r. ground (arith, same r)) h.post_comments;
  comment_likes = h.comment_likes;
  likes_once = h.likes_once;
  comment_likes_once = h.comment_likes_once;
  threads = h.threads;
}

-- an UPDATE of comments that leaves their keys, likes and deletion alone
pub touch_comments-IsSound :
    (p : Comment → Bool) (f : Comment → Comment)
    → ((c : Comment)
        → ((f c).id ≡ c.id)
          × ((f c).post_id ≡ c.post_id)
          × ((f c).parent_id ≡ c.parent_id)
          × ((f c).like_count ≡ c.like_count)
          × ((f c).deleted_at ≡ c.deleted_at))
    → (d : Db) → IsSound d
    → IsSound (record d { comments = update_where p f d.comments })
touch_comments-IsSound p f same d h = record {
  post_likes = h.post_likes;
  post_comments =
      IsTallied-links (λ p. p.id) (λ p. p.comment_count) is_undeleted comments_on d.posts d.comments
        (update_where p f d.comments)
        (λ i.
          count_if-update_where (comments_on i) p f
            (λ c. let (_, q, _, _, t) = same c in rw (q, t) refl) d.comments)
        h.post_comments;
  comment_likes =
      IsTallied-touch (λ c. c.id) (λ c. c.like_count) (λ _. true) likes_comment d.comments
        d.comment_likes p f (λ c. let (i, _, _, l, _) = same c in (i, l, refl)) h.comment_likes;
  likes_once = h.likes_once;
  comment_likes_once = h.comment_likes_once;
  threads =
      IsThreaded-touch p f (λ c. let (i, q, k, _, _) = same c in (i, q, k)) d.comments h.threads;
}

module _ (post_id now : ℕ) (d : Db) where
  abbrev drop_post : Post → Post
  drop_post p = record p { deleted_at = some now; updated_at = now }

  abbrev hide : Comment → Comment
  hide c = record c { deleted_at = some now }

  abbrev on_post : Comment → Bool
  on_post c = c.post_id == post_id && is_none c.deleted_at

  -- the tables without the post
  abbrev deleted : Db
  deleted = record d {
    posts = update_where (is_undeleted_post post_id) drop_post d.posts;
    comments = update_where on_post hide d.comments;
    post_likes = delete_where (likes_post post_id) d.post_likes;
    post_images = delete_where (λ i. i.post_id == post_id) d.post_images;
  }

  likes_left :
      (i : ℕ)
      → count_if (likes_post i) (delete_where (likes_post post_id) d.post_likes)
          + (if i == post_id then count_if (likes_post post_id) d.post_likes else 0)
        ≡ count_if (likes_post i) d.post_likes
  likes_left i = ground (
    arith,
    count_if-delete_where (likes_post i) (likes_post post_id) d.post_likes,
    count_if-keep (likes_post i) (likes_post post_id) (i == post_id) (λ l k. ground arith)
        d.post_likes,
  )

  comments_left :
      (i : ℕ)
      → count_if (comments_on i) (update_where on_post hide d.comments)
          + (if i == post_id then count_if on_post d.comments else 0)
        ≡ count_if (comments_on i) d.comments
  comments_left i = ground (
    arith,
    count_if-hide (comments_on i) on_post hide (λ c. ground arith) d.comments,
    count_if-keep (comments_on i) on_post (i == post_id) (λ c k. ground arith) d.comments,
  )

  deleted-IsSound : IsSound d → IsSound deleted
  deleted-IsSound h = record {
    post_likes =
        IsTallied-update (λ p. p.id) (λ p. p.like_count) is_undeleted likes_post d.posts
          d.post_likes deleted.post_likes (is_undeleted_post post_id) drop_post (λ r. refl)
          (λ r e k. inl refl) (λ r e k. ground (arith, likes_left r.id))
          (λ i e. ground (arith, likes_left i)) h.post_likes;
    post_comments =
        IsTallied-update (λ p. p.id) (λ p. p.comment_count) is_undeleted comments_on d.posts
          d.comments deleted.comments (is_undeleted_post post_id) drop_post (λ r. refl)
          (λ r e k. inl refl) (λ r e k. ground (arith, comments_left r.id))
          (λ i e. ground (arith, comments_left i)) h.post_comments;
    comment_likes =
        IsTallied-touch (λ c. c.id) (λ c. c.like_count) (λ _. true) likes_comment d.comments
          d.comment_likes on_post hide (λ c. (refl, refl, refl)) h.comment_likes;
    likes_once = λ i u. ground (
      arith,
      h.likes_once i u,
      count_if-delete_where-le (PostLikes.is_like i u) (likes_post post_id) d.post_likes,
    );
    comment_likes_once = h.comment_likes_once;
    threads = IsThreaded-touch on_post hide (λ c. (refl, refl, refl)) d.comments h.threads;
  }

  links_gone :
      (links : List PostImage)
      → any_of (λ i. i.post_id == post_id) (delete_where (λ i. i.post_id == post_id) links) ≡ false
  unfolding delete_where
  links_gone [] = refl
  links_gone (l ∷ links) = ground (arith, links_gone links)

  other_links :
      (links : List PostImage)
      → keep (λ i. not (i.post_id == post_id)) (delete_where (λ i. i.post_id == post_id) links)
        ≡ keep (λ i. not (i.post_id == post_id)) links
  unfolding delete_where
  other_links [] = refl
  other_links (l ∷ links) = ground (arith, other_links links)

  -- On sound tables deleting an undeleted post succeeds. After it no viewer sees the post, none of its
  -- likes, undeleted comments and links to images is left, the links of the other posts are as they
  -- were, the answer names the images that it was linked to, and the tables stay sound.
  pub delete_post_lem :
      any_of (is_undeleted_post post_id) d.posts ≡ true
      → IsSound d
      → (images : List ℕ) × (d' : Db) × (delete_post post_id now d ≡ ((true, images), d'))
        × IsSound d'
        × ((viewer : Option ℕ) → post_is_visible post_id viewer d' ≡ false)
        × (count_if (likes_post post_id) d'.post_likes ≡ 0)
        × (count_if (comments_on post_id) d'.comments ≡ 0)
        × (any_of (λ i. i.post_id == post_id) d'.post_images ≡ false)
        × (keep (λ i. not (i.post_id == post_id)) d'.post_images
            ≡ keep (λ i. not (i.post_id == post_id)) d.post_images)
        × (images ≡ map (λ i. i.image_id) (keep (λ i. i.post_id == post_id) d.post_images))
  unfolding delete_post returning PostLikes.delete_by_post_id post_is_visible
  delete_post_lem there h =
      let (_, got, _) = one_or_none_there (is_undeleted_post post_id) d.posts there in
      (
        map (λ i. i.image_id) (keep (λ i. i.post_id == post_id) d.post_images),
        deleted,
        ground arith,
        deleted-IsSound h,
        (λ viewer.
            any_of-hide (λ p. is_post post_id p && is_visible_to viewer deleted p)
              (is_undeleted_post post_id) drop_post (λ r. ground arith) (λ r e. ground arith)
              d.posts),
        ground (arith, likes_left post_id),
        ground (arith, comments_left post_id),
        links_gone d.post_images,
        other_links d.post_images,
        refl,
      )

  -- Deleting a post that is deleted already, or never was, changes nothing.
  pub delete_post_absent :
      any_of (is_undeleted_post post_id) d.posts ≡ false
      → delete_post post_id now d ≡ ((false, []), d)
  unfolding delete_post returning
  delete_post_absent absent = ground (
    arith,
    one_or_none_absent (is_undeleted_post post_id) d.posts absent,
    update_where_none (is_undeleted_post post_id) drop_post d.posts absent,
  )

module _ (post_id user_id : ℕ) (title content : Text) (category_id : Option ℕ) (now : ℕ)
    (d : Db) where
  abbrev pub new_post : Post
  new_post = record {
    id = post_id;
    user_id = some user_id;
    title = title;
    content = content;
    category_id = category_id;
    view_count = 0;
    like_count = 0;
    comment_count = 0;
    report_count = 0;
    is_blinded = false;
    created_at = now;
    updated_at = now;
    deleted_at = none;
    version = 1;
  }

  -- the tables with the new post, whatever its images and hashtags
  abbrev pub created : List PostImage → List Hashtag → List PostHashtag → Db
  created images tags links = record d {
    posts = d.posts ++ new_post ∷ [];
    post_images = images;
    hashtags = tags;
    post_hashtags = links;
  }

  abbrev pub IsCreated : Db → Type 0
  IsCreated d' =
      IsSound d'
      × (d'.posts ≡ d.posts ++ new_post ∷ [])
      × ((viewer : Option ℕ)
          → post_is_visible post_id viewer d'
            ≡ not (has_blocked viewer (some user_id) d.user_blocks))

  created-IsCreated :
      count_if (is_post post_id) d.posts ≡ 0
      → IsSound d
      → (images : List PostImage) (tags : List Hashtag) (links : List PostHashtag)
      → IsCreated (created images tags links)
  unfolding post_is_visible
  created-IsCreated fresh h images tags links = (
    record {
      post_likes =
          IsTallied-insert (λ p. p.id) (λ p. p.like_count) is_undeleted likes_post d.posts
            d.post_likes new_post fresh refl h.post_likes;
      post_comments =
          IsTallied-insert (λ p. p.id) (λ p. p.comment_count) is_undeleted comments_on d.posts
            d.comments new_post fresh refl h.post_comments;
      comment_likes = h.comment_likes;
      likes_once = h.likes_once;
      comment_likes_once = h.comment_likes_once;
      threads = h.threads;
    },
    refl,
    λ viewer. ground (
      arith,
      any_of-append (λ p. is_post post_id p && is_visible_to viewer (created images tags links) p)
          d.posts (new_post ∷ []),
      no_match viewer (created images tags links),
    ),
  )
    where
      no_match :
          (viewer : Option ℕ) (d' : Db)
          → any_of (λ p. is_post post_id p && is_visible_to viewer d' p) d.posts ≡ false
      no_match viewer d' = not_any (is_post post_id) (is_visible_to viewer d') d.posts fresh

  -- A new post under a UUID that no post has is seen by every viewer who has not blocked its author,
  -- and the counts and threads stay right. Where the unique key of images refuses it, nothing changes.
  pub create_post_lem :
      count_if (is_post post_id) d.posts ≡ 0
      → IsSound d
      → (image_ids : List ℕ) (hashtag_names : Option (List Text)) (next_hashtag : ℕ)
      → let outcome =
          create_post post_id user_id title content image_ids category_id hashtag_names next_hashtag
            now d in
        if is_taken (take max_post_images image_ids) d.post_images
        then (outcome ≡ (err integrity_error, d))
        else (outcome.0 ≡ ok post_id) × IsCreated outcome.1
  unfolding create_post sync_post_hashtags
  create_post_lem fresh h image_ids names next =
      by_test names (is_taken (take max_post_images image_ids) d.post_images) refl
    where
      ran : Option (List Text) → Result ℕ × Db
      ran names = create_post post_id user_id title content image_ids category_id names next now d

      made : Option (List Text) → Db
      made names =
          let d1 : Db = record d {
            posts = d.posts ++ new_post ∷ [];
            post_images = d.post_images ++ images_of post_id (take max_post_images image_ids) now;
          } in
          elim names [ none ↦ d1 | some tags ↦ sync_post_hashtags post_id tags next d1 ]

      made-IsCreated : (names : Option (List Text)) → IsCreated (made names)
      made-IsCreated none = created-IsCreated fresh h _ _ _
      made-IsCreated (some []) = created-IsCreated fresh h _ _ _
      made-IsCreated (some (n ∷ names)) = created-IsCreated fresh h _ _ _

      by_test :
          (names : Option (List Text)) (b : Bool)
          → is_taken (take max_post_images image_ids) d.post_images ≡ b
          → if b
            then (ran names ≡ (err integrity_error, d))
            else ((ran names).0 ≡ ok post_id) × IsCreated (ran names).1
      by_test names true e = ground arith
      by_test names false e =
          let is : ran names ≡ (ok post_id, made names) = ground arith in
          (
            ap (λ (x : Result ℕ × Db). x.0) is,
            subst (λ (x : Result ℕ × Db). IsCreated x.1) (sym is) (made-IsCreated names),
          )

  pub inserted-IsSound :
      count_if (is_post post_id) d.posts ≡ 0
      → IsSound d
      → (image_ids : List ℕ) (hashtag_names : Option (List Text)) (next_hashtag : ℕ)
      → IsSound
          (create_post post_id user_id title content image_ids category_id hashtag_names
            next_hashtag now d).1
  inserted-IsSound fresh h image_ids names next =
      by_test (is_taken (take max_post_images image_ids) d.post_images)
        (create_post_lem fresh h image_ids names next)
    where
      outcome : Result ℕ × Db
      outcome = create_post post_id user_id title content image_ids category_id names next now d

      by_test :
          (b : Bool)
          → (if b
              then (outcome ≡ (err integrity_error, d))
              else (outcome.0 ≡ ok post_id) × IsCreated outcome.1)
          → IsSound outcome.1
      by_test true refused = subst (λ (x : Result ℕ × Db). IsSound x.1) (sym refused) h
      by_test false (_, made) = made.0
