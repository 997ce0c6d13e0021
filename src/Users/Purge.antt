-- ===== src/Users/Purge.antt =====
-- app/domain/users: `purge_withdrawn_users_older_than` (model.py) with the foreign keys to `users` of
-- app/domain/*/model.py, and the loop `purge_withdrawn_users` (service.py).
use kyjness_community_be.Prelude.{
  ℕ, zero, suc, ◌+◌, ◌-◌, ◌*◌, Bool, false, ◌&&◌, ◌||◌, Option, none, some, List, if◌then◌else◌,
  ◌==◌, ltb, any_of, length, take, keep, map,
}
use kyjness_community_be.Db.Rows.{Db, User, ChatRoom, ChatMessage}
use kyjness_community_be.Db.Sql.{update_where, delete_where}
use kyjness_community_be.Users.{is_withdrawn_value}

abbrev pub mem_id : List ℕ → ℕ → Bool
mem_id ids i = any_of (λ j. i == j) ids

abbrev pub mem_opt : List ℕ → Option ℕ → Bool
mem_opt ids none = false
mem_opt ids (some i) = mem_id ids i

-- the rooms of a user go, and their messages with them
abbrev pub is_lost_room : List ℕ → ChatRoom → Bool
is_lost_room ids r = mem_id ids r.user1_id || mem_id ids r.user2_id

abbrev pub is_lost_message : List ℕ → List ChatRoom → ChatMessage → Bool
is_lost_message ids rooms m =
    mem_id ids m.sender_id || any_of (λ r. r.id == m.room_id && is_lost_room ids r) rooms

-- ON DELETE CASCADE and ON DELETE SET NULL of the keys to `users`
unfoldable pub forget_users : List ℕ → Db → Db
forget_users ids d = record d {
  user_blocks =
      delete_where (λ b. mem_id ids b.blocker_id || mem_id ids b.blocked_id) d.user_blocks;
  posts = update_where (λ p. mem_opt ids p.user_id) (λ p. record p { user_id = none }) d.posts;
  images =
      update_where (λ m. mem_opt ids m.uploader_id) (λ m. record m { uploader_id = none }) d.images;
  post_likes = delete_where (λ l. mem_id ids l.user_id) d.post_likes;
  comments =
      update_where (λ c. mem_opt ids c.author_id) (λ c. record c { author_id = none }) d.comments;
  comment_likes = delete_where (λ l. mem_id ids l.user_id) d.comment_likes;
  reports = delete_where (λ r. mem_id ids r.reporter_id) d.reports;
  notifications =
      update_where (λ n. mem_opt ids n.actor_id) (λ n. record n { actor_id = none })
        (delete_where (λ n. mem_id ids n.user_id) d.notifications);
  dog_profiles = delete_where (λ r. mem_id ids r.owner_id) d.dog_profiles;
  chat_rooms = delete_where (is_lost_room ids) d.chat_rooms;
  chat_messages = delete_where (is_lost_message ids d.chat_rooms) d.chat_messages;
}

abbrev pub is_purged : ℕ → User → Bool
is_purged cutoff u = elim u.deleted_at [
  | none ↦ false
  | some at ↦ is_withdrawn_value u.status && ltb at cutoff
]

abbrev pub ids_of : List User → List ℕ
ids_of users = map (λ u. u.id) users

-- the ids of at most `limit` users, in the order of the table
abbrev pub chosen : ℕ → ℕ → Db → List ℕ
chosen cutoff limit d = ids_of (take limit (keep (is_purged cutoff) d.users))

unfoldable pub purge_withdrawn_users_older_than : ℕ → ℕ → Db → List ℕ × Db
purge_withdrawn_users_older_than cutoff limit d =
    let ids = chosen cutoff limit d in
    (
      ids_of (keep (λ u. mem_id ids u.id) d.users),
      forget_users ids (record d { users = delete_where (λ u. mem_id ids u.id) d.users }),
    )

abbrev pub add_total : ℕ → Option (ℕ × Db) → Option (ℕ × Db)
add_total n none = none
add_total n (some (total, d)) = some (n + total, d)

-- The loop on fuel: `none` says that the fuel ran out.
unfoldable pub purge_loop : ℕ → ℕ → ℕ → Db → Option (ℕ × Db)
purge_loop cutoff limit zero d = none
purge_loop cutoff limit (suc fuel) d =
    let (deleted_ids, d') = purge_withdrawn_users_older_than cutoff limit d in
    let rest = add_total (length deleted_ids) (purge_loop cutoff limit fuel d') in
    if length deleted_ids == 0 then some (0, d') else rest

abbrev pub day : ℕ
day = 86_400_000_000

unfoldable pub purge_withdrawn_users : ℕ → ℕ → ℕ → Db → Option (ℕ × Db)
purge_withdrawn_users older_than_days now fuel d =
    purge_loop (now - older_than_days * day) 200 fuel d
