-- ===== src/Community/Tests.antt =====
-- One post, one comment, a like of each, and the theorems at them.
use kyjness_community_be.Prelude.{
  ℕ, suc, Bool, All, length, ◌≤◌, ◌+◌, ◌≡◌, refl, true, false, not, Option, none, some, List, [],
  ◌∷◌, ◌++◌, count_if, any_of, arith, ◌==◌, inr, leb, map, keep,
}
use kyjness_community_be.Text.{codes}
use kyjness_community_be.Db.Rows.{Db, Post, Comment, post}
use kyjness_community_be.Db.Sql.{one_or_none}
use kyjness_community_be.Db.Action.{ok}
use kyjness_community_be.Posts
use kyjness_community_be.Posts.{is_undeleted_post, is_post, create_post, delete_post}
use kyjness_community_be.Comments
use kyjness_community_be.Comments.{is_comment}
use kyjness_community_be.Comments.Service
use kyjness_community_be.Comments.Service.{ensure_parent}
use kyjness_community_be.Comments.Access.{IsAuthorsComment, require_comment_author_sound}
use kyjness_community_be.Comments.Tree.{CommentResponse, oldest, is_root_shown, get_comments}
use kyjness_community_be.Comments.Shown.{IsShown, get_comments_lem}
use kyjness_community_be.Comments.Pages.{read_roots, read_roots_all}
use kyjness_community_be.Db.Keyset.{order_desc, IsDistinct}
use kyjness_community_be.Posts.{post_is_visible, has_blocked}
use kyjness_community_be.Likes.{Liked, like_post}
use kyjness_community_be.Likes.PostLikes
use kyjness_community_be.Notifications.{Notice}
use kyjness_community_be.Reports.{submit_report}
use kyjness_community_be.Community.Invariant.{IsSound, likes_post, comments_on}
use kyjness_community_be.Community.Reach.{
  post_liked, Reach, start, and_then, Reach-IsSound, shown_counts,
}
use kyjness_community_be.Community.Likes.{like_post_lem}
use kyjness_community_be.Community.Comments.{new_comment, create_comment_lem, delete_comment_lem}
use kyjness_community_be.Community.Posts.{delete_post_lem}
use kyjness_community_be.Community.Reports.{IsReported, new_report, submit_report_post}

abbrev walk : Post
walk = record {
  id = 1;
  user_id = some 10;
  title = codes "walk";
  content = codes "to the park";
  category_id = none;
  view_count = 0;
  like_count = 1;
  comment_count = 1;
  report_count = 4;
  is_blinded = false;
  created_at = 3;
  updated_at = 3;
  deleted_at = none;
  version = 1;
}

abbrev reply : Comment
reply = record {
  id = 5;
  post_id = 1;
  author_id = some 11;
  parent_id = none;
  content = codes "nice";
  like_count = 1;
  report_count = 0;
  is_blinded = false;
  created_at = 4;
  updated_at = 4;
  deleted_at = none;
}

abbrev town : Db
town = record {
  users = [];
  user_blocks = [];
  categories = [];
  posts = walk ∷ [];
  hashtags = [];
  post_hashtags = [];
  post_images = record { post_id = 1; image_id = 77; created_at = 3 } ∷ [];
  post_likes = record { post_id = 1; user_id = 11; created_at = 4 } ∷ [];
  comments = reply ∷ [];
  comment_likes = record { comment_id = 5; user_id = 12; created_at = 5 } ∷ [];
  reports = [];
  notifications = [];
  images = [];
  dog_profiles = [];
  chat_rooms = [];
  chat_messages = [];
}

town-IsSound : IsSound town
town-IsSound = record {
  post_likes = record {
    unique = λ i. ground arith;
    counted = (inr refl, tt);
    known = λ i e. ground arith;
  };
  post_comments = record {
    unique = λ i. ground arith;
    counted = (inr refl, tt);
    known = λ i e. ground arith;
  };
  comment_likes = record {
    unique = λ i. ground arith;
    counted = (inr refl, tt);
    known = λ i e. ground arith;
  };
  likes_once = λ i u. ground arith;
  comment_likes_once = λ i u. ground arith;
  threads = (refl, tt);
}

abbrev liked_town : Db
liked_town = (like_post 1 12 100 50 town).1

calls : Reach town liked_town
calls = and_then town liked_town start (post_liked 1 12 100 50)

Reach-IsSound_example : IsSound liked_town
Reach-IsSound_example = Reach-IsSound town liked_town calls town-IsSound

visible : Posts.post_is_visible 1 none town ≡ true
unfolding Posts.post_is_visible Posts.has_blocked
visible = refl

shown_counts_example :
    (p : Post) × (Posts.get_post_by_id 1 none town ≡ some p)
    × (p.like_count ≡ count_if (likes_post 1) town.post_likes)
    × (p.comment_count ≡ count_if (comments_on 1) town.comments)
shown_counts_example = shown_counts town town start town-IsSound 1 none visible

like_post_lem_example :
    (a : Liked) × (d' : Db) × (like_post 1 12 100 50 town ≡ (ok a, d'))
    × IsSound d'
    × (a.inserted ≡ not (PostLikes.has_like 1 12 town))
    × (a.like_count ≡ count_if (likes_post 1) d'.post_likes)
    × (PostLikes.has_like 1 12 d' ≡ true)
like_post_lem_example = like_post_lem 1 12 50 town 100 visible town-IsSound

parent_there : ensure_parent 1 (some 5) town ≡ (ok tt, town)
unfolding ensure_parent Comments.get_comment_by_id one_or_none
parent_there = refl

seen : Posts.post_is_visible 1 (some 12) town ≡ true
unfolding Posts.post_is_visible Posts.has_blocked
seen = refl

create_comment_lem_example :
    (notice : Option Notice) × (d' : Db) × (Service.create_comment 6 1 12
        (codes "yes")
        (some 5)
        100
        50
        town
      ≡ (ok (6, notice), d'))
    × IsSound d'
    × (d'.comments ≡ town.comments ++ new_comment 1 50 town 6 12 (codes "yes") (some 5) ∷ [])
    × (count_if (comments_on 1) d'.comments ≡ count_if (comments_on 1) town.comments + 1)
create_comment_lem_example =
    create_comment_lem 1 50 town 6 12 (codes "yes") (some 5) 100 seen parent_there refl town-IsSound

found : Comments.get_comment_by_id 5 true town ≡ some reply
unfolding Comments.get_comment_by_id one_or_none
found = refl

delete_comment_lem_example :
    (d' : Db) × (Service.delete_comment 1 5 50 town ≡ (ok tt, d'))
    × IsSound d'
    × (count_if (comments_on 1) d'.comments + 1 ≡ count_if (comments_on 1) town.comments)
delete_comment_lem_example = delete_comment_lem 1 50 town 5 reply found refl refl town-IsSound

delete_post_lem_example :
    (images : List ℕ) × (d' : Db) × (delete_post 1 50 town ≡ ((true, images), d'))
    × IsSound d'
    × ((viewer : Option ℕ) → Posts.post_is_visible 1 viewer d' ≡ false)
    × (count_if (likes_post 1) d'.post_likes ≡ 0)
    × (count_if (comments_on 1) d'.comments ≡ 0)
    × (any_of (λ i. i.post_id == 1) d'.post_images ≡ false)
    × (keep (λ i. not (i.post_id == 1)) d'.post_images
        ≡ keep (λ i. not (i.post_id == 1)) town.post_images)
    × (images ≡ map (λ i. i.image_id) (keep (λ i. i.post_id == 1) town.post_images))
delete_post_lem_example = delete_post_lem 1 50 town refl town-IsSound

post_row : one_or_none (is_undeleted_post 1) town.posts ≡ some walk
unfolding one_or_none
post_row = refl

submit_report_post_example :
    (d' : Db) × (submit_report 5 200 12 post 1 none 50 town
      ≡ (ok (leb 5 (walk.report_count + 1)), d'))
    × IsSound d'
    × (d'.reports ≡ town.reports ++ new_report 5 200 12 1 none 50 town post ∷ [])
    × IsReported 5 200 12 1 none 50 town walk d'
    × (leb 5 (walk.report_count + 1) ≡ true
        → (viewer : Option ℕ) → Posts.post_is_visible 1 viewer d' ≡ false)
submit_report_post_example =
    submit_report_post 5 200 12 1 none 50 town walk post_row refl town-IsSound

comment_row : one_or_none (is_comment 5) town.comments ≡ some reply
unfolding one_or_none
comment_row = refl

may_edit : Service.require_comment_author 1 5 11 town ≡ ok tt
unfolding Service.require_comment_author Service.check_comment_author
    Comments.load_comment_author_permission_row one_or_none
may_edit = refl

may_delete : Service.require_comment_author_for_delete 1 5 11 town ≡ ok tt
unfolding Service.require_comment_author_for_delete Service.check_comment_author
    Comments.load_comment_author_permission_row one_or_none
may_delete = refl

require_comment_author_sound_example :
    (any_of (is_undeleted_post 1) town.posts ≡ true) × IsAuthorsComment 1 5 11 town false
require_comment_author_sound_example = require_comment_author_sound 1 5 11 town may_edit

post_seen : post_is_visible 1 (some 20) town ≡ true
unfolding post_is_visible has_blocked
post_seen = refl

get_comments_lem_example :
    (tree : List CommentResponse) × (more : Bool) × (get_comments
        (codes "gone")
        1
        5
        oldest
        none
        (some 20)
        town
      ≡ (ok (tree, more), town))
    × All (IsShown (codes "gone") 1 (some 20) town) tree
    × (length tree ≤ 5)
get_comments_lem_example = get_comments_lem (codes "gone") 1 (some 20) town 5 oldest none post_seen

roots-IsDistinct : IsDistinct (λ c. c.id) (keep (is_root_shown 1 (some 20) town) town.comments)
unfolding is_root_shown has_blocked
roots-IsDistinct = (tt, tt)

read_roots_all_example :
    let sorted = order_desc (λ c. c.id) (keep (is_root_shown 1 (some 20) town) town.comments) in
    read_roots (codes "gone") 1 5 (some 20) town (suc (length sorted)) none ≡ map (λ c. c.id) sorted
read_roots_all_example =
    read_roots_all (codes "gone") 1 5 (some 20) town post_seen roots-IsDistinct (ground arith)
