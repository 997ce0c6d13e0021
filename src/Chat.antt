-- ===== src/Chat.antt =====
-- app/domain/chat: rooms of two users (model.py), and `ChatService` (service.py) up to the fan-out, whose
-- targets are part of the answer. Lists of rooms and messages are left out.
pub mod Rooms
mod Tests
use kyjness_community_be.Prelude.{
  ℕ, Bool, true, false, not, ◌&&◌, ◌||◌, Option, none, some, List, [], ◌∷◌, ◌++◌, if◌then◌else◌,
  any_of, ltb, ◌==◌, is_none,
}
use kyjness_community_be.Text.{Text}
use kyjness_community_be.Db.Rows.{Db, ChatRoom, ChatMessage, User}
use kyjness_community_be.Db.Sql.{update_where, one_or_none}
use kyjness_community_be.Db.Action.{
  Action, Result, ok, err, Error, invalid_request, user_not_found, forbidden, dm_same_user, pure,
  raise, gets, run, transaction, ◌>>=◌, ◌>>◌, raise_if, or_raise,
}
use kyjness_community_be.Users.{get_user_by_id, is_active_value, block_exists_between}

-- `normalize_dm_user_ids` of two different users
unfoldable pub normalize_dm_user_ids : ℕ → ℕ → ℕ × ℕ
normalize_dm_user_ids user_a user_b =
    if ltb user_a user_b then (user_a, user_b) else (user_b, user_a)

abbrev pub is_room_of : ℕ × ℕ → ChatRoom → Bool
is_room_of pair r = r.user1_id == pair.0 && r.user2_id == pair.1

-- INSERT ... ON CONFLICT (user1_id, user2_id) DO NOTHING
unfoldable pub insert_room : ℕ → ℕ × ℕ → ℕ → Db → Db
insert_room room_id pair now d = if any_of (is_room_of pair) d.chat_rooms then d else record d {
  chat_rooms =
      d.chat_rooms
      ++ record {
        id = room_id;
        user1_id = pair.0;
        user2_id = pair.1;
        created_at = now;
        updated_at = now;
      }
        ∷ [];
}

-- `room_id` is the UUID that a new room is given.
unfoldable pub get_or_create_room : ℕ → ℕ → ℕ → ℕ → Action ChatRoom
get_or_create_room room_id user_id peer_id now = do
  blocked ← gets (block_exists_between user_id peer_id)
  raise_if blocked forbidden
  run (λ d. (tt, insert_room room_id (normalize_dm_user_ids user_id peer_id) now d))
  row ← gets (λ d. one_or_none (is_room_of (normalize_dm_user_ids user_id peer_id)) d.chat_rooms)
  or_raise row invalid_request

-- the peer must be there and active
abbrev pub is_reachable : ℕ → Db → Bool
is_reachable peer_id d = elim (get_user_by_id peer_id d) [
  | none ↦ false
  | some u ↦ is_active_value u.status
]

unfoldable pub resolve_direct_room : ℕ → ℕ → ℕ → ℕ → Action ℕ
resolve_direct_room room_id user_id peer_id now d =
    if peer_id == user_id
    then (err invalid_request, d)
    else transaction
        (do
          reachable ← gets (is_reachable peer_id)
          raise_if (not reachable) user_not_found
          room ← get_or_create_room room_id user_id peer_id now
          pure room.id)
        d

abbrev pub add_message : ChatMessage → Db → ChatMessage × Db
add_message m d = (m, record d { chat_messages = d.chat_messages ++ m ∷ [] })

-- the message that is stored, and the users whose sockets it is sent to
unfoldable pub send_dm_from_ws : ℕ → ℕ → ℕ → ℕ → Text → ℕ → Action (ChatMessage × List ℕ)
send_dm_from_ws room_id message_id sender_id peer_id content now d =
    if peer_id == sender_id
    then (err dm_same_user, d)
    else transaction
        (do
          reachable ← gets (is_reachable peer_id)
          raise_if (not reachable) user_not_found
          room ← get_or_create_room room_id sender_id peer_id now
          m ← run (
              add_message (record {
                id = message_id;
                room_id = room.id;
                sender_id = sender_id;
                content = content;
                is_read = false;
                created_at = now;
              }))
          pure (m, peer_id ∷ sender_id ∷ []))
        d

abbrev pub is_member : ℕ → ChatRoom → Bool
is_member user_id r = r.user1_id == user_id || r.user2_id == user_id

abbrev pub is_room : ℕ → ChatRoom → Bool
is_room room_id r = r.id == room_id

-- an unread message of the room that the other user has sent
abbrev pub is_unread_by : ℕ → ℕ → ChatMessage → Bool
is_unread_by room_id user_id m =
    m.room_id == room_id && not (m.sender_id == user_id) && not m.is_read

unfoldable pub mark_room_read : ℕ → ℕ → Action (Unit {0})
mark_room_read room_id user_id = transaction (do
  row ← gets (λ d. one_or_none (is_room room_id) d.chat_rooms)
  room ← or_raise row forbidden
  raise_if (not (is_member user_id room)) forbidden
  run (λ d. (
    tt,
    record d {
      chat_messages =
          update_where (is_unread_by room_id user_id) (λ m. record m { is_read = true })
            d.chat_messages;
    },
  )))
