-- ===== src/Chat/Rooms.antt =====
-- app/domain/chat/service.py: two users have one room, whoever opens it, and none against a block.
use kyjness_community_be.Prelude.{
  ℕ, ◌≤◌, ◌<◌, ◌≡◌, refl, ap, Bool, true, false, some, List, [], ◌∷◌, ◌++◌, if◌then◌else◌, any_of,
  any_of-append, count_if, count_if-append, All, ◌==◌, arith,
}
use mathlib.Core.Path.{subst}
use kyjness_community_be.Text.{Text}
use kyjness_community_be.Db.Rows.{Db, ChatRoom, ChatMessage}
use kyjness_community_be.Db.Sql.{one_or_none, All-snoc}
use kyjness_community_be.Db.Action.{ok, err, forbidden}
use kyjness_community_be.Db.Found.{
  one_or_none_there, one_or_none-test, one_or_none-any_of, count_if-any_of,
}
use kyjness_community_be.Users.{block_exists_between}
use kyjness_community_be.Chat.{
  normalize_dm_user_ids, is_room_of, insert_room, get_or_create_room, is_reachable,
  resolve_direct_room, send_dm_from_ws,
}

-- the CHECK and the UNIQUE constraint of the table
pub record IsPaired (rooms : List ChatRoom) : Type 0 where
  pub ordered : All (λ r. r.user1_id < r.user2_id) rooms
  pub once : (pair : ℕ × ℕ) → count_if (is_room_of pair) rooms ≤ 1

normalize_order :
    (a b : ℕ) → (a == b) ≡ false → (normalize_dm_user_ids a b).0 < (normalize_dm_user_ids a b).1
unfolding normalize_dm_user_ids
normalize_order a b ne = ground arith

normalize_comm : (a b : ℕ) → normalize_dm_user_ids a b ≡ normalize_dm_user_ids b a
unfolding normalize_dm_user_ids
normalize_comm a b = ground arith

module _ (room_id a b now : ℕ) (d : Db) where
  abbrev pair : ℕ × ℕ
  pair = normalize_dm_user_ids a b

  abbrev new_room : ChatRoom
  new_room = record {
    id = room_id;
    user1_id = pair.0;
    user2_id = pair.1;
    created_at = now;
    updated_at = now;
  }

  insert_room-IsPaired :
      (a == b) ≡ false
      → IsPaired d.chat_rooms
      → IsPaired (insert_room room_id pair now d).chat_rooms
  unfolding insert_room
  insert_room-IsPaired ne h = by_test (any_of (is_room_of pair) d.chat_rooms) refl
    where
      by_test :
          (t : Bool)
          → any_of (is_room_of pair) d.chat_rooms ≡ t
          → IsPaired
              (if t then d else record d { chat_rooms = d.chat_rooms ++ new_room ∷ [] }).chat_rooms
      by_test true e = h
      by_test false e = record {
        ordered =
            All-snoc (λ r. r.user1_id < r.user2_id) d.chat_rooms new_room h.ordered
              (normalize_order a b ne);
        once = λ other. ground (
          arith,
          count_if-append (is_room_of other) d.chat_rooms (new_room ∷ []),
          h.once other,
          h.once pair,
          count_if-any_of (is_room_of pair) d.chat_rooms e,
          same_pair other,
        );
      }
        where
          same_pair :
              (other : ℕ × ℕ)
              → is_room_of other new_room ≡ true
              → count_if (is_room_of other) d.chat_rooms ≡ 0
          same_pair other t =
              let same : pair ≡ other = ground arith in
              subst (λ q. count_if (is_room_of q) d.chat_rooms ≡ 0) same
                (count_if-any_of (is_room_of pair) d.chat_rooms e)

  insert_room_there : any_of (is_room_of pair) (insert_room room_id pair now d).chat_rooms ≡ true
  unfolding insert_room
  insert_room_there = ground (arith, any_of-append (is_room_of pair) d.chat_rooms (new_room ∷ []))

  insert_room_messages : (insert_room room_id pair now d).chat_messages ≡ d.chat_messages
  unfolding insert_room
  insert_room_messages = ground arith

  insert_room_again :
      (pair' : ℕ × ℕ) (room_id' now' : ℕ) (d' : Db)
      → any_of (is_room_of pair') d'.chat_rooms ≡ true
      → insert_room room_id' pair' now' d' ≡ d'
  unfolding insert_room
  insert_room_again pair' room_id' now' d' there = ground arith

  -- Opening a room with a reachable peer and no block succeeds: the room is the one of the two users, and
  -- the pairs of rooms stay ordered and unique.
  pub resolve_direct_room_lem :
      (b == a) ≡ false
      → is_reachable b d ≡ true
      → block_exists_between a b d ≡ false
      → IsPaired d.chat_rooms
      → (room : ChatRoom) × (d' : Db) × (resolve_direct_room room_id a b now d ≡ (ok room.id, d'))
        × (one_or_none (is_room_of pair) d'.chat_rooms ≡ some room)
        × IsPaired d'.chat_rooms
  unfolding resolve_direct_room get_or_create_room
  resolve_direct_room_lem ne reachable free h =
      let d' = insert_room room_id pair now d in
      let (room, found, _) = one_or_none_there (is_room_of pair) d'.chat_rooms insert_room_there in
      (room, d', ground arith, found, insert_room-IsPaired (ground arith) h)

  -- Against a block in either direction no room is opened and no message is stored.
  pub blocked_lem :
      (message_id : ℕ) (content : Text)
      → (b == a) ≡ false
      → is_reachable b d ≡ true
      → block_exists_between a b d ≡ true
      → (resolve_direct_room room_id a b now d ≡ (err forbidden, d))
        × (send_dm_from_ws room_id message_id a b content now d ≡ (err forbidden, d))
  unfolding resolve_direct_room send_dm_from_ws get_or_create_room
  blocked_lem message_id content ne reachable blocked = (ground arith, ground arith)

  -- Whoever opens the room after that gets the same room, under any UUID that is offered for a new one,
  -- and the tables stay as they are.
  pub resolve_direct_room_same :
      (room_id' now' : ℕ) (room : ChatRoom) (d' : Db)
      → (a == b) ≡ false
      → is_reachable a d' ≡ true
      → block_exists_between b a d' ≡ false
      → one_or_none (is_room_of pair) d'.chat_rooms ≡ some room
      → resolve_direct_room room_id' b a now' d' ≡ (ok room.id, d')
  unfolding resolve_direct_room get_or_create_room
  resolve_direct_room_same room_id' now' room d' ne reachable free found =
      let flipped = normalize_comm b a in
      let is_pair = one_or_none-test (is_room_of pair) d'.chat_rooms room found in
      let kept =
        insert_room_again pair room_id' now' d' (
          one_or_none-any_of (is_room_of pair) (is_room_of pair) d'.chat_rooms room found
            is_pair) in
      ground arith

  -- With one room for each ordered pair of users, a message to a reachable peer with no block is stored
  -- with its sender and its text, unread, in the one room of the two users, and is sent to both.
  pub send_dm_lem :
      (message_id : ℕ) (content : Text)
      → (b == a) ≡ false
      → is_reachable b d ≡ true
      → block_exists_between a b d ≡ false
      → IsPaired d.chat_rooms
      → (room : ChatRoom) × (m : ChatMessage) × (d' : Db) × (send_dm_from_ws room_id message_id a b
            content now d
          ≡ (ok (m, b ∷ a ∷ []), d'))
        × (one_or_none (is_room_of pair) d'.chat_rooms ≡ some room)
        × (d'.chat_messages ≡ d.chat_messages ++ m ∷ [])
        × (m.id ≡ message_id)
        × (m.room_id ≡ room.id)
        × (m.sender_id ≡ a)
        × (m.content ≡ content)
        × (m.is_read ≡ false)
        × (m.created_at ≡ now)
        × IsPaired d'.chat_rooms
  unfolding send_dm_from_ws get_or_create_room
  send_dm_lem message_id content ne reachable free h =
      let d1 = insert_room room_id pair now d in
      let (room, found, _) = one_or_none_there (is_room_of pair) d1.chat_rooms insert_room_there in
      let m : ChatMessage = record {
        id = message_id;
        room_id = room.id;
        sender_id = a;
        content = content;
        is_read = false;
        created_at = now;
      } in
      (
        room,
        m,
        record d1 { chat_messages = d1.chat_messages ++ m ∷ [] },
        ground arith,
        found,
        ap (λ ms. ms ++ m ∷ []) insert_room_messages,
        refl,
        refl,
        refl,
        refl,
        refl,
        refl,
        insert_room-IsPaired (ground arith) h,
      )
