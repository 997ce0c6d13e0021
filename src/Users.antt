-- ===== src/Users.antt =====
-- app/domain/users/model.py: `UsersModel`. The UUID of a new user and the time are arguments.
pub mod Purge
pub mod Taken
pub mod Purged
pub mod Service
pub mod Account
pub mod Keys
pub mod Unique
mod Tests
use kyjness_community_be.Prelude.{
  ℕ, ◌-◌, ◌||◌, any_of, Bool, true, false, not, ◌&&◌, Option, none, some, List, [], ◌∷◌, ◌++◌, ◌==◌,
  is_none, if◌then◌else◌, length, take, keep,
}
use kyjness_community_be.Text.{Text, codes, text_eq}
use kyjness_community_be.Db.Rows.{Db, User, UserBlock, UserStatus, active, suspended, withdrawn}
use kyjness_community_be.Db.Sql.{update_where, delete_where, one_or_none, returning}

-- `UserStatus.is_active_value`, `is_withdrawn_value` (app/common/enums.py)
abbrev pub is_active_value : UserStatus → Bool
is_active_value active = true
is_active_value suspended = false
is_active_value withdrawn = false

abbrev pub is_withdrawn_value : UserStatus → Bool
is_withdrawn_value active = false
is_withdrawn_value suspended = false
is_withdrawn_value withdrawn = true

abbrev pub is_user : ℕ → User → Bool
is_user user_id u = u.id == user_id && is_none u.deleted_at

unfoldable pub get_user_by_id : ℕ → Db → Option User
get_user_by_id user_id d = one_or_none (is_user user_id) d.users

unfoldable pub get_user_by_id_including_deleted : ℕ → Db → Option User
get_user_by_id_including_deleted user_id d = one_or_none (λ u. u.id == user_id) d.users

-- `lower` is `str.lower`.
unfoldable pub get_user_by_email : (Text → Text) → Text → Db → Option User
get_user_by_email lower email d =
    one_or_none (λ u. text_eq u.email (lower email) && is_none u.deleted_at) d.users

-- `update_user` of the status
unfoldable pub update_status : ℕ → UserStatus → ℕ → Db → Bool × Db
update_status user_id new_status now d =
    let set : User → User = λ u. record u { status = new_status; updated_at = now } in
    (
      not (is_none (returning (is_user user_id) set d.users)),
      record d { users = update_where (is_user user_id) set d.users },
    )

unfoldable pub email_exists : (Text → Text) → Text → Db → Bool
email_exists lower email d =
    any_of (λ u. text_eq u.email (lower email) && is_none u.deleted_at) d.users

unfoldable pub nickname_exists : Text → Db → Bool
nickname_exists nickname d =
    any_of (λ u. text_eq u.nickname nickname && is_none u.deleted_at) d.users

unfoldable pub get_password_hash : ℕ → Db → Option Text
get_password_hash user_id d = elim (one_or_none (is_user user_id) d.users) [
  | none ↦ none
  | some u ↦ some u.password
]

-- `create_user` of a new UUID, up to the unique keys of the table
unfoldable pub create_user : (Text → Text) → ℕ → Text → Text → Text → Option ℕ → ℕ → Db → User × Db
create_user lower user_id email hashed_password nickname profile_image_id now d =
    let user : User = record {
      id = user_id;
      version = 1;
      email = lower email;
      password = hashed_password;
      nickname = nickname;
      profile_image_id = profile_image_id;
      role = codes "USER";
      status = active;
      created_at = now;
      updated_at = now;
      deleted_at = none;
    } in
    (user, record d { users = d.users ++ user ∷ [] })

-- the fields of an UPDATE that `update_user` lets through
pub record UserChange : Type 0 where
  pub nickname : Option Text
  pub profile_image_id : Option (Option ℕ)

abbrev pub change_user : UserChange → ℕ → User → User
change_user c now u = record u {
  nickname = elim c.nickname [ none ↦ u.nickname | some nickname ↦ nickname ];
  profile_image_id = elim c.profile_image_id [ none ↦ u.profile_image_id | some image ↦ image ];
  updated_at = now;
}

-- `update_user` of the profile
unfoldable pub update_user : ℕ → UserChange → ℕ → Db → Bool × Db
update_user user_id c now d =
    if is_none c.nickname && is_none c.profile_image_id then (true, d) else (
      any_of (is_user user_id) d.users,
      record d { users = update_where (is_user user_id) (change_user c now) d.users },
    )

unfoldable pub update_password : ℕ → Text → Db → Bool × Db
update_password user_id hashed_password d = (
  any_of (is_user user_id) d.users,
  record d {
    users = update_where (is_user user_id) (λ u. record u { password = hashed_password }) d.users;
  },
)

abbrev pub is_block : ℕ → ℕ → UserBlock → Bool
is_block blocker_id blocked_id b = b.blocker_id == blocker_id && b.blocked_id == blocked_id

unfoldable pub block_exists : ℕ → ℕ → Db → Bool
block_exists blocker_id blocked_id d = any_of (is_block blocker_id blocked_id) d.user_blocks

unfoldable pub block_user : ℕ → ℕ → ℕ → Db → Unit {0} × Db
block_user blocker_id blocked_id now d = (
  tt,
  record d {
    user_blocks =
        d.user_blocks
        ++ record { blocker_id = blocker_id; blocked_id = blocked_id; created_at = now } ∷ [];
  },
)

unfoldable pub unblock_user : ℕ → ℕ → Db → ℕ × Db
unblock_user blocker_id blocked_id d = (
  length (keep (is_block blocker_id blocked_id) d.user_blocks),
  record d { user_blocks = delete_where (is_block blocker_id blocked_id) d.user_blocks },
)

unfoldable pub block_exists_between : ℕ → ℕ → Db → Bool
block_exists_between user_a user_b d =
    any_of
      (λ b.
        (b.blocker_id == user_a && b.blocked_id == user_b)
        || (b.blocker_id == user_b && b.blocked_id == user_a))
      d.user_blocks

-- `_DELETED_AT_MAX_LEN`
abbrev pub deleted_at_max_len : ℕ
deleted_at_max_len = 255

-- `suffix` is the text `_deleted_{user_id}_{ts}` of `_deleted_at_suffix`.
unfoldable pub mask_for_withdrawal : Text → Text → Text
mask_for_withdrawal value suffix =
    take deleted_at_max_len (take (deleted_at_max_len - length suffix) value ++ suffix)

abbrev pub withdraw : Text → ℕ → User → User
withdraw suffix now u = record u {
  email = mask_for_withdrawal u.email suffix;
  nickname = mask_for_withdrawal u.nickname suffix;
  status = withdrawn;
  profile_image_id = none;
  deleted_at = some now;
  updated_at = now;
}

-- The code reads the row before it writes it; both reach the one undeleted row of the id.
unfoldable pub delete_user : ℕ → Text → ℕ → Db → Bool × Db
delete_user user_id suffix now d =
    if is_none (get_user_by_id user_id d)
    then (false, d)
    else (true, record d { users = update_where (is_user user_id) (withdraw suffix now) d.users })
