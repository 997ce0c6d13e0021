-- ===== src/Db/Empty.antt =====
-- A database with no rows.
use kyjness_community_be.Prelude.{[]}
use kyjness_community_be.Db.Rows.{Db}

abbrev pub no_rows : Db
no_rows = record {
  users = [];
  user_blocks = [];
  categories = [];
  posts = [];
  hashtags = [];
  post_hashtags = [];
  post_images = [];
  post_likes = [];
  comments = [];
  comment_likes = [];
  reports = [];
  notifications = [];
  images = [];
  dog_profiles = [];
  chat_rooms = [];
  chat_messages = [];
}
