-- ===== src/Chat/Tests.antt =====
-- Two users without a room, and the theorems on rooms at them.
use kyjness_community_be.Prelude.{ℕ, ◌≡◌, refl, true, false, none, some, List, [], ◌∷◌, ◌++◌, arith}
use kyjness_community_be.Text.{codes}
use kyjness_community_be.Db.Rows.{Db, User, UserBlock, ChatRoom, ChatMessage, active}
use kyjness_community_be.Db.Sql.{one_or_none}
use kyjness_community_be.Db.Action.{ok}
use kyjness_community_be.Users.{get_user_by_id, block_exists_between}
use kyjness_community_be.Chat.{normalize_dm_user_ids, is_room_of, is_reachable, send_dm_from_ws}
use kyjness_community_be.Chat.Rooms.{IsPaired, send_dm_lem}

abbrev walker : ℕ → User
walker id = record {
  id = id;
  version = 1;
  email = codes "a@b.c";
  password = codes "hash";
  nickname = codes "mong";
  profile_image_id = none;
  role = codes "USER";
  status = active;
  created_at = 1;
  updated_at = 1;
  deleted_at = none;
}

abbrev with_rooms : List UserBlock → List ChatRoom → Db
with_rooms blocks rooms = record {
  users = walker 10 ∷ walker 11 ∷ [];
  user_blocks = blocks;
  categories = [];
  posts = [];
  hashtags = [];
  post_hashtags = [];
  post_images = [];
  post_likes = [];
  comments = [];
  comment_likes = [];
  reports = [];
  notifications = [];
  images = [];
  dog_profiles = [];
  chat_rooms = rooms;
  chat_messages = [];
}

abbrev strangers : Db
strangers = with_rooms [] []

no_rooms-IsPaired : IsPaired []
no_rooms-IsPaired = record { ordered = tt; once = λ pair. ground arith }

reachable : is_reachable 11 strangers ≡ true
unfolding get_user_by_id one_or_none
reachable = refl

free : block_exists_between 10 11 strangers ≡ false
unfolding block_exists_between
free = refl

abbrev room : ChatRoom
room = record { id = 70; user1_id = 10; user2_id = 11; created_at = 5; updated_at = 5 }

abbrev friends : Db
friends = with_rooms [] (room ∷ [])

reachable_back : is_reachable 10 friends ≡ true
unfolding get_user_by_id one_or_none
reachable_back = refl

free_back : block_exists_between 11 10 friends ≡ false
unfolding block_exists_between
free_back = refl

found : one_or_none (is_room_of (normalize_dm_user_ids 10 11)) friends.chat_rooms ≡ some room
unfolding one_or_none normalize_dm_user_ids
found = refl

abbrev at_odds : Db
at_odds = with_rooms (record { blocker_id = 11; blocked_id = 10; created_at = 1 } ∷ []) []

reachable_still : is_reachable 11 at_odds ≡ true
unfolding get_user_by_id one_or_none
reachable_still = refl

blocked : block_exists_between 10 11 at_odds ≡ true
unfolding block_exists_between
blocked = refl

send_dm_lem_example :
    (room : ChatRoom) × (m : ChatMessage) × (d' : Db) × (send_dm_from_ws 70 80 10 11
        (codes "hi")
        5
        strangers
      ≡ (ok (m, 11 ∷ 10 ∷ []), d'))
    × (one_or_none (is_room_of (normalize_dm_user_ids 10 11)) d'.chat_rooms ≡ some room)
    × (d'.chat_messages ≡ strangers.chat_messages ++ m ∷ [])
    × (m.id ≡ 80)
    × (m.room_id ≡ room.id)
    × (m.sender_id ≡ 10)
    × (m.content ≡ codes "hi")
    × (m.is_read ≡ false)
    × (m.created_at ≡ 5)
    × IsPaired d'.chat_rooms
send_dm_lem_example =
    send_dm_lem 70 10 11 5 strangers 80 (codes "hi") refl reachable free no_rooms-IsPaired
