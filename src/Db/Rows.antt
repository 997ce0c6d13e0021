-- ===== src/Db/Rows.antt =====
-- The ORM classes of app/domain/*/model.py: one record for each table, and the database as its
-- tables. A UUID is a number; a time is a number of microseconds; NULL is `none`. Columns that no
-- modelled statement reads (file URLs of joins, password hashes of listings) are kept as texts.
use kyjness_community_be.Prelude.{ℕ, Bool, Option, List}
use kyjness_community_be.Text.{Text}

pub data UserStatus : Type 0 where
  active suspended withdrawn : UserStatus

pub data TargetType : Type 0 where
  post comment : TargetType

pub data NotificationKind : Type 0 where
  comment_on_post like_on_post like_on_comment : NotificationKind

pub record User : Type 0 where
  pub id : ℕ
  pub version : ℕ
  pub email : Text
  pub password : Text
  pub nickname : Text
  pub profile_image_id : Option ℕ
  pub role : Text
  pub status : UserStatus
  pub created_at : ℕ
  pub updated_at : ℕ
  pub deleted_at : Option ℕ

pub record UserBlock : Type 0 where
  pub blocker_id : ℕ
  pub blocked_id : ℕ
  pub created_at : ℕ

pub record Post : Type 0 where
  pub id : ℕ
  pub user_id : Option ℕ
  pub title : Text
  pub content : Text
  pub category_id : Option ℕ
  pub view_count : ℕ
  pub like_count : ℕ
  pub comment_count : ℕ
  pub report_count : ℕ
  pub is_blinded : Bool
  pub created_at : ℕ
  pub updated_at : ℕ
  pub deleted_at : Option ℕ
  pub version : ℕ

pub record Hashtag : Type 0 where
  pub id : ℕ
  pub name : Text

-- the table `post_hashtags`
pub record PostHashtag : Type 0 where
  pub post_id : ℕ
  pub hashtag_id : ℕ

pub record PostImage : Type 0 where
  pub post_id : ℕ
  pub image_id : ℕ
  pub created_at : ℕ

pub record PostLike : Type 0 where
  pub post_id : ℕ
  pub user_id : ℕ
  pub created_at : ℕ

pub record Comment : Type 0 where
  pub id : ℕ
  pub post_id : ℕ
  pub author_id : Option ℕ
  pub parent_id : Option ℕ
  pub content : Text
  pub like_count : ℕ
  pub report_count : ℕ
  pub is_blinded : Bool
  pub created_at : ℕ
  pub updated_at : ℕ
  pub deleted_at : Option ℕ

pub record CommentLike : Type 0 where
  pub comment_id : ℕ
  pub user_id : ℕ
  pub created_at : ℕ

pub record Report : Type 0 where
  pub id : ℕ
  pub reporter_id : ℕ
  pub target_type : TargetType
  pub target_id : ℕ
  pub reason : Option Text
  pub created_at : ℕ
  pub deleted_at : Option ℕ

pub record Notification : Type 0 where
  pub id : ℕ
  pub user_id : ℕ
  pub kind : NotificationKind
  pub actor_id : Option ℕ
  pub post_id : Option ℕ
  pub comment_id : Option ℕ
  pub read_at : Option ℕ
  pub created_at : ℕ

pub record Image : Type 0 where
  pub id : ℕ
  pub file_key : Text
  pub file_url : Text
  pub content_type : Option Text
  pub size : Option ℕ
  pub uploader_id : Option ℕ
  pub created_at : ℕ

pub record DogProfile : Type 0 where
  pub id : ℕ
  pub owner_id : ℕ
  pub name : Text
  pub breed : Text
  pub gender : Text
  pub birth_date : ℕ
  pub profile_image_id : Option ℕ
  pub is_representative : Bool
  pub created_at : ℕ
  pub updated_at : ℕ

pub record ChatRoom : Type 0 where
  pub id : ℕ
  pub user1_id : ℕ
  pub user2_id : ℕ
  pub created_at : ℕ
  pub updated_at : ℕ

pub record ChatMessage : Type 0 where
  pub id : ℕ
  pub room_id : ℕ
  pub sender_id : ℕ
  pub content : Text
  pub is_read : Bool
  pub created_at : ℕ

-- The tables, each in the order in which its rows were inserted.
pub record Db : Type 0 where
  pub users : List User
  pub user_blocks : List UserBlock
  pub categories : List ℕ
  pub posts : List Post
  pub hashtags : List Hashtag
  pub post_hashtags : List PostHashtag
  pub post_images : List PostImage
  pub post_likes : List PostLike
  pub comments : List Comment
  pub comment_likes : List CommentLike
  pub reports : List Report
  pub notifications : List Notification
  pub images : List Image
  pub dog_profiles : List DogProfile
  pub chat_rooms : List ChatRoom
  pub chat_messages : List ChatMessage
