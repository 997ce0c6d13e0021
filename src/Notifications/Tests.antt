-- ===== src/Notifications/Tests.antt =====
-- Three notifications of two users, and the theorems at them.
use kyjness_community_be.Prelude.{ℕ, suc, ◌≡◌, none, [], ◌∷◌, keep, length, arith}
use kyjness_community_be.Db.Rows.{Db, Notification, like_on_post}
use kyjness_community_be.Db.Keyset.{order_desc}
use kyjness_community_be.Notifications.{is_for}
use kyjness_community_be.Notifications.Listing.{read_on, read_on_all}

abbrev note : ℕ → ℕ → Notification
note id user_id = record {
  id = id;
  user_id = user_id;
  kind = like_on_post;
  actor_id = none;
  post_id = none;
  comment_id = none;
  read_at = none;
  created_at = id;
}

abbrev inbox : Db
inbox = record {
  users = [];
  user_blocks = [];
  categories = [];
  posts = [];
  hashtags = [];
  post_hashtags = [];
  post_images = [];
  post_likes = [];
  comments = [];
  comment_likes = [];
  reports = [];
  notifications = note 1 10 ∷ note 2 11 ∷ note 3 10 ∷ [];
  images = [];
  dog_profiles = [];
  chat_rooms = [];
  chat_messages = [];
}

read_on_all_example :
    let sorted = order_desc (λ n. n.id) (keep (is_for 10) inbox.notifications) in
    read_on 10 1 inbox (suc (length sorted)) none ≡ sorted
read_on_all_example = read_on_all 10 1 inbox ((ground arith, tt), (tt, tt)) (ground arith)
