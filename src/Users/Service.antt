-- ===== src/Users/Service.antt =====
-- app/domain/users/service.py: `UserService`, and the password checks of app/core/security.py. The bcrypt
-- functions are parameters, `pepper` is `settings.PASSWORD_PEPPER`.
use kyjness_community_be.Prelude.{
  ℕ, Bool, true, false, not, ◌&&◌, ◌||◌, Option, none, some, List, [], ◌∷◌, ◌++◌, ◌==◌, is_none,
  if◌then◌else◌, length, keep,
}
use kyjness_community_be.Text.{Text, text_eq}
use kyjness_community_be.Db.Rows.{Db, User, UserBlock, DogProfile}
use kyjness_community_be.Db.Keyset.{order_desc}
use kyjness_community_be.Db.Ascending.{order_asc}
use kyjness_community_be.Db.Sql.{one_or_none}
use kyjness_community_be.Db.Action.{
  Action, pure, gets, run, transaction, ◌>>=◌, ◌>>◌, raise_if, or_raise, unauthorized,
  internal_server_error, invalid_user_info, nickname_already_exists,
}
use kyjness_community_be.Dogs.{DogProfileUpsertItem, upsert_dog_profile}
use kyjness_community_be.Media.{get_image_by_id}
use kyjness_community_be.Users.{
  UserChange, is_user, get_user_by_id, email_exists, nickname_exists, get_password_hash,
  update_user, update_password, block_exists, block_user, unblock_user, delete_user,
}

-- `UserAvailabilityQuery`, whose empty texts are None already, and its answer
pub record Availability (A : Type 0) : Type 0 where
  pub email : A
  pub nickname : A

abbrev pub available : (Text → Db → Bool) → Option Text → Db → Option Bool
available exists none d = none
available exists (some text) d = if length text == 0 then none else some (not (exists text d))

unfoldable pub check_availability :
    (Text → Text) → Availability (Option Text) → Action (Availability (Option Bool))
check_availability lower query = transaction (
    gets (λ d. record {
      email = available (email_exists lower) query.email d;
      nickname = available nickname_exists query.nickname d;
    }))

-- a row of `get_user_by_id_with_dogs`, which is the content of `UserProfileResponse`
pub record UserWithDogs : Type 0 where
  pub user : User
  pub dogs : List DogProfile
  pub representative_dog : Option DogProfile

abbrev pub with_dogs : Db → User → UserWithDogs
with_dogs d user = record {
  user = user;
  dogs = order_asc (λ r. r.id) (keep (λ r. r.owner_id == user.id) d.dog_profiles);
  representative_dog =
      one_or_none (λ r. r.owner_id == user.id && r.is_representative) d.dog_profiles;
}

unfoldable pub get_user_by_id_with_dogs : ℕ → Db → Option UserWithDogs
get_user_by_id_with_dogs user_id d = elim (get_user_by_id user_id d) [
  | none ↦ none
  | some user ↦ some (with_dogs d user)
]

unfoldable pub get_user_profile : ℕ → Action UserWithDogs
get_user_profile user_id =
    transaction (do found ← gets (get_user_by_id_with_dogs user_id); or_raise found unauthorized)

-- `UpdateUserRequest`; no `profile_image_id` stands for a field that is not set.
pub record UpdateUserRequest : Type 0 where
  pub nickname : Option Text
  pub profile_image_id : Option (Option ℕ)
  pub clear_profile_image : Bool
  pub dogs : Option (List DogProfileUpsertItem)

unfoldable pub wanted_nickname : Option Text → User → Action (Option Text)
wanted_nickname none user = pure none
wanted_nickname (some nickname) user = do
  taken ← gets (nickname_exists nickname)
  raise_if (not (text_eq nickname user.nickname) && taken) nickname_already_exists
  pure (some nickname)

abbrev pub existing_image : ℕ → Action (Option (Option ℕ))
existing_image image_id = do
  image ← gets (get_image_by_id image_id)
  raise_if (is_none image) invalid_user_info
  pure (some (some image_id))

unfoldable pub wanted_image : Bool → Option (Option ℕ) → Action (Option (Option ℕ))
wanted_image true image = pure (some none)
wanted_image false none = pure none
wanted_image false (some none) = pure (some none)
wanted_image false (some (some image_id)) = existing_image image_id

abbrev pub upsert_dogs :
    Bool → (ℕ → ℕ) → ℕ → Option (List DogProfileUpsertItem) → ℕ → Action (Unit {0})
upsert_dogs orm_runs new_id user_id none now = pure tt
upsert_dogs orm_runs new_id user_id (some items) now =
    upsert_dog_profile orm_runs new_id user_id items now

unfoldable pub update_user_profile :
    Bool → (ℕ → ℕ) → ℕ → UpdateUserRequest → ℕ → Action UserWithDogs
update_user_profile orm_runs new_id user_id request now = transaction (do
  found ← gets (get_user_by_id user_id)
  user ← or_raise found unauthorized
  nickname ← wanted_nickname request.nickname user
  image ← wanted_image request.clear_profile_image request.profile_image_id
  let change : UserChange = record { nickname = nickname; profile_image_id = image }
  set ← run (update_user user_id change now)
  raise_if (not set) internal_server_error
  upsert_dogs orm_runs new_id user_id request.dogs now
  updated ← gets (get_user_by_id_with_dogs user_id)
  or_raise updated internal_server_error)

unfoldable pub password_with_pepper : Text → Text → Text
password_with_pepper pepper plain = plain ++ pepper

module _ (verify_password : Text → Text → Bool) (pepper : Text) where
  unfoldable pub verify_password_with_legacy_fallback : Text → Text → Bool
  verify_password_with_legacy_fallback plain hashed =
      if length pepper == 0
      then verify_password plain hashed
      else verify_password (password_with_pepper pepper plain) hashed
        || verify_password plain hashed

  -- A hash is never empty, so that `not hashed` says that there is none.
  unfoldable pub change_password : (Text → Text) → ℕ → Text → Text → Action (Unit {0})
  change_password hash_password user_id current_password new_password = transaction (do
    found ← gets (get_password_hash user_id)
    hashed ← or_raise found unauthorized
    raise_if (not (verify_password_with_legacy_fallback current_password hashed)) unauthorized
    raise_if (verify_password_with_legacy_fallback new_password hashed) invalid_user_info
    set ← run (update_password user_id (hash_password (password_with_pepper pepper new_password)))
    raise_if (not set) internal_server_error)

abbrev pub users_of : List UserBlock → Db → List User
users_of [] d = []
users_of (b ∷ blocks) d = keep (is_user b.blocked_id) d.users ++ users_of blocks d

-- the users whom one blocks, the latest block first
unfoldable pub get_blocked_users : ℕ → Db → List User
get_blocked_users blocker_id d =
    users_of (order_desc (λ b. b.created_at) (keep (λ b. b.blocker_id == blocker_id) d.user_blocks))
      d

unfoldable pub get_blocked_list : ℕ → Action (List User)
get_blocked_list blocker_id = transaction (gets (get_blocked_users blocker_id))

abbrev pub toggle : ℕ → ℕ → ℕ → Bool → Action Bool
toggle blocker_id target_user_id now true =
    run (λ d. (false, (unblock_user blocker_id target_user_id d).1))
toggle blocker_id target_user_id now false =
    run (λ d. (true, (block_user blocker_id target_user_id now d).1))

unfoldable pub toggle_block_user : ℕ → ℕ → ℕ → Action Bool
toggle_block_user blocker_id target_user_id now = do
  raise_if (blocker_id == target_user_id) invalid_user_info
  transaction (do
    exists ← gets (block_exists blocker_id target_user_id)
    toggle blocker_id target_user_id now exists)

-- `UserService.delete_user`
unfoldable pub withdraw_user : ℕ → Text → ℕ → Action (Unit {0})
withdraw_user user_id suffix now = transaction (do
  user ← gets (get_user_by_id user_id)
  raise_if (is_none user) internal_server_error
  deleted ← run (delete_user user_id suffix now)
  raise_if (not deleted) internal_server_error)
