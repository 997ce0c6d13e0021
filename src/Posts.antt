-- ===== src/Posts.antt =====
-- app/domain/posts/repository.py: `PostsModel`, one function for each method that a modelled service
-- calls. The time is an argument `now`, and so is the UUID that a new row is given.
pub mod Hashtags
pub mod Service
pub mod Update
pub mod Updated
pub mod Tests
use kyjness_community_be.Prelude.{
  ℕ, ◌+◌, ◌-◌, Bool, true, false, not, ◌&&◌, ◌||◌, Option, none, some, List, [], ◌∷◌, ◌++◌,
  if◌then◌else◌, keep, map, take, length, any_of, ◌==◌, ltb, is_none, opt_eq,
}
use kyjness_community_be.Text.{Text}
use kyjness_community_be.Db.Rows.{Db, Post, PostImage, PostLike, UserBlock, Comment}
use kyjness_community_be.Db.Action.{Action, ok, err, integrity_error}
use kyjness_community_be.Db.Sql.{update_where, delete_where, one_or_none, returning}
use kyjness_community_be.Likes.PostLikes
use kyjness_community_be.Posts.Hashtags.{sync_post_hashtags}

-- `MAX_POST_IMAGES`
abbrev pub max_post_images : ℕ
max_post_images = 5

abbrev pub is_post : ℕ → Post → Bool
is_post post_id p = p.id == post_id

abbrev pub is_undeleted : Post → Bool
is_undeleted p = is_none p.deleted_at

-- `exists().where(UserBlock.blocker_id == ..., UserBlock.blocked_id == ...)`; with no viewer, and for
-- a NULL author, no block is found.
unfoldable pub has_blocked : Option ℕ → Option ℕ → List UserBlock → Bool
has_blocked none author blocks = false
has_blocked (some viewer) author blocks =
    any_of (λ b. b.blocker_id == viewer && opt_eq author b.blocked_id) blocks

abbrev pub is_visible_to : Option ℕ → Db → Post → Bool
is_visible_to viewer d p =
    is_undeleted p && not p.is_blinded && not (has_blocked viewer p.user_id d.user_blocks)

unfoldable pub category_exists : ℕ → Db → Bool
category_exists category_id d = any_of (λ c. c == category_id) d.categories

unfoldable pub post_is_visible : ℕ → Option ℕ → Db → Bool
post_is_visible post_id viewer d =
    any_of (λ p. is_post post_id p && is_visible_to viewer d p) d.posts

unfoldable pub get_post_by_id : ℕ → Option ℕ → Db → Option Post
get_post_by_id post_id viewer d =
    one_or_none (λ p. is_post post_id p && is_visible_to viewer d p) d.posts

unfoldable pub get_post_author_id : ℕ → Db → Option ℕ
get_post_author_id post_id d =
    elim (one_or_none (λ p. is_post post_id p && is_undeleted p) d.posts) [
      | none ↦ none
      | some p ↦ p.user_id
    ]

unfoldable pub get_blocked_author_ids : ℕ → Db → List ℕ
get_blocked_author_ids blocker_id d =
    map (λ b. b.blocked_id) (keep (λ b. b.blocker_id == blocker_id) d.user_blocks)

-- UPDATE posts SET ... WHERE ... RETURNING
abbrev pub update_posts : (Post → Bool) → (Post → Post) → Db → Option Post × Db
update_posts p f d = (returning p f d.posts, record d { posts = update_where p f d.posts })

unfoldable pub get_like_count : ℕ → Db → ℕ
get_like_count post_id d = elim (one_or_none (is_post post_id) d.posts) [
  | none ↦ 0
  | some p ↦ p.like_count
]

unfoldable pub increment_like_count : ℕ → ℕ → Db → ℕ × Db
increment_like_count post_id now d =
    let (row, d') =
      update_posts (is_post post_id)
        (λ p. record p { like_count = p.like_count + 1; updated_at = now }) d in
    (elim row [ none ↦ 0 | some p ↦ p.like_count ], d')

-- SQL's `greatest(like_count - 1, 0)` is subtraction on ℕ.
unfoldable pub decrement_like_count : ℕ → ℕ → Db → ℕ × Db
decrement_like_count post_id now d =
    let (row, d') =
      update_posts (is_post post_id)
        (λ p. record p { like_count = p.like_count - 1; updated_at = now }) d in
    (elim row [ none ↦ 0 | some p ↦ p.like_count ], d')

unfoldable pub increment_comment_count : ℕ → ℕ → Db → Bool × Db
increment_comment_count post_id now d =
    let (row, d') =
      update_posts (is_post post_id)
        (λ p. record p { comment_count = p.comment_count + 1; updated_at = now }) d in
    (not (is_none row), d')

unfoldable pub decrement_comment_count : ℕ → ℕ → Db → Bool × Db
decrement_comment_count post_id now d =
    let (row, d') =
      update_posts (is_post post_id)
        (λ p. record p { comment_count = p.comment_count - 1; updated_at = now }) d in
    (not (is_none row), d')

abbrev pub is_undeleted_post : ℕ → Post → Bool
is_undeleted_post post_id p = is_post post_id p && is_undeleted p

unfoldable pub increment_view_count : ℕ → ℕ → Db → Bool × Db
increment_view_count post_id now d =
    let (row, d') =
      update_posts (is_undeleted_post post_id)
        (λ p. record p { view_count = p.view_count + 1; updated_at = now }) d in
    (not (is_none row), d')

unfoldable pub increment_view_count_delta : ℕ → ℕ → ℕ → Db → Bool × Db
increment_view_count_delta post_id delta now d =
    let (row, d') =
      update_posts (is_undeleted_post post_id)
        (λ p. record p { view_count = p.view_count + delta; updated_at = now }) d in
    if delta == 0 then (true, d) else (not (is_none row), d')

unfoldable pub increment_report_count : ℕ → ℕ → Db → Option ℕ × Db
increment_report_count post_id now d =
    let (row, d') =
      update_posts (is_undeleted_post post_id)
        (λ p. record p { report_count = p.report_count + 1; updated_at = now }) d in
    (elim row [ none ↦ none | some p ↦ some p.report_count ], d')

unfoldable pub set_blinded : ℕ → ℕ → Db → Bool × Db
set_blinded post_id now d =
    let (row, d') =
      update_posts (is_undeleted_post post_id)
        (λ p. record p { is_blinded = true; updated_at = now }) d in
    (not (is_none row), d')

unfoldable pub unblind_post : ℕ → ℕ → Db → Bool × Db
unblind_post post_id now d =
    let (row, d') =
      update_posts (is_undeleted_post post_id)
        (λ p. record p { is_blinded = false; updated_at = now }) d in
    (not (is_none row), d')

unfoldable pub reset_reports : ℕ → ℕ → Db → Bool × Db
reset_reports post_id now d =
    let (row, d') =
      update_posts (is_undeleted_post post_id)
        (λ p. record p { report_count = 0; is_blinded = false; updated_at = now }) d in
    (not (is_none row), d')

abbrev pub images_of : ℕ → List ℕ → ℕ → List PostImage
images_of post_id image_ids now =
    map (λ i. record { post_id = post_id; image_id = i; created_at = now }) image_ids

-- a value that the list has twice
abbrev pub has_twice : List ℕ → Bool
has_twice [] = false
has_twice (i ∷ ids) = let rest = has_twice ids in if any_of (λ j. i == j) ids then true else rest

-- `uq_post_images_image_id` refuses an image twice, and one that a post has.
abbrev pub is_taken : List ℕ → List PostImage → Bool
is_taken ids links = has_twice ids || any_of (λ l. any_of (λ i. i == l.image_id) ids) links

-- `post_id` is the UUID that the new row is given and `next_hashtag` the next value of the sequence
-- of `hashtags.id`.
unfoldable pub create_post :
    ℕ → ℕ → Text → Text → List ℕ → Option ℕ → Option (List Text) → ℕ → ℕ → Action ℕ
create_post post_id user_id title content image_ids category_id hashtag_names next_hashtag now d =
    let post : Post = record {
      id = post_id;
      user_id = some user_id;
      title = title;
      content = content;
      category_id = category_id;
      view_count = 0;
      like_count = 0;
      comment_count = 0;
      report_count = 0;
      is_blinded = false;
      created_at = now;
      updated_at = now;
      deleted_at = none;
      version = 1;
    } in
    let d1 : Db = record d {
      posts = d.posts ++ post ∷ [];
      post_images = d.post_images ++ images_of post_id (take max_post_images image_ids) now;
    } in
    if is_taken (take max_post_images image_ids) d.post_images then (err integrity_error, d) else (
      ok post_id,
      elim hashtag_names [
        | none ↦ d1
        | some names ↦ sync_post_hashtags post_id names next_hashtag d1
      ],
    )

-- The post and its comments are marked as deleted, its likes and its links to images are removed; the
-- answer names the images that are set free.
unfoldable pub delete_post : ℕ → ℕ → Db → (Bool × List ℕ) × Db
delete_post post_id now d =
    let (row, d1) =
      update_posts (is_undeleted_post post_id)
        (λ p. record p { deleted_at = some now; updated_at = now }) d in
    elim row [
      | none ↦ ((false, []), d1)
      | some _ ↦
          let (_, d2) = PostLikes.delete_by_post_id post_id (record d1 {
            comments =
                update_where (λ c. c.post_id == post_id && is_none c.deleted_at)
                  (λ c. record c { deleted_at = some now }) d1.comments;
          }) in
          (
            (true, map (λ i. i.image_id) (keep (λ i. i.post_id == post_id) d2.post_images)),
            record d2 { post_images = delete_where (λ i. i.post_id == post_id) d2.post_images },
          )
    ]
