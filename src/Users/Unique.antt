-- ===== src/Users/Unique.antt =====
-- app/domain/users: no two users who have not withdrawn share an email or a nickname, whatever the
-- services do.
use kyjness_community_be.Prelude.{
  ℕ, ◌≤◌, ◌≡◌, refl, sym, Bool, true, false, not, ◌&&◌, Option, none, some, is_none, if◌then◌else◌,
  any_of, count_if, arith, Bool-split,
}
use mathlib.Core.Path.{subst}
use kyjness_community_be.Text.{Text}
use kyjness_community_be.Db.Rows.{Db, User}
use kyjness_community_be.Db.Sql.{update_where, count_if-hide}
use kyjness_community_be.Db.Action.{
  Action, gets, run, unauthorized, internal_server_error, raise_if, or_raise, ◌>>=◌, ◌>>◌,
  bind-keeps, transaction-keeps,
}
use kyjness_community_be.Users.{
  UserChange, is_user, get_user_by_id, update_user, change_user, withdraw, delete_user,
}
use kyjness_community_be.Users.Service.{
  UserWithDogs, UpdateUserRequest, wanted_nickname, wanted_image, upsert_dogs, update_user_profile,
  withdraw_user, get_user_by_id_with_dogs,
}
use kyjness_community_be.Users.Keys.{
  has_email, has_nickname, IsUnique, Fits, changed-IsUnique, upsert-users, wanted_nickname_lem,
  wanted_image_lem,
}

update_user-IsUnique :
    (user_id now : ℕ) (c : UserChange) (d : Db)
    → IsUnique d.users
    → count_if (is_user user_id) d.users ≤ 1
    → Fits user_id c.nickname d.users
    → IsUnique (update_user user_id c now d).1.users
unfolding update_user
update_user-IsUnique user_id now c d uniq one fits =
    by_test (is_none c.nickname && is_none c.profile_image_id)
  where
    by_test :
        (b : Bool)
        → let changed : Bool × Db = (
          any_of (is_user user_id) d.users,
          record d { users = update_where (is_user user_id) (change_user c now) d.users },
        ) in
          let answer : Bool × Db = if b then (true, d) else changed in IsUnique answer.1.users
    by_test true = uniq
    by_test false = changed-IsUnique user_id now c d.users uniq one fits

module _ (orm_runs : Bool) (new_id : ℕ → ℕ) (user_id : ℕ) (request : UpdateUserRequest)
    (now : ℕ) where
  -- the parts of `update_user_profile`, from the end
  abbrev saved : Option Text → Option (Option ℕ) → Action UserWithDogs
  saved nickname image = do
    let change : UserChange = record { nickname = nickname; profile_image_id = image }
    set ← run (update_user user_id change now)
    raise_if (not set) internal_server_error
    upsert_dogs orm_runs new_id user_id request.dogs now
    updated ← gets (get_user_by_id_with_dogs user_id)
    or_raise updated internal_server_error

  abbrev with_nickname : Option Text → Action UserWithDogs
  with_nickname nickname = do
    image ← wanted_image request.clear_profile_image request.profile_image_id
    saved nickname image

  abbrev with_user : User → Action UserWithDogs
  with_user user = do nickname ← wanted_nickname request.nickname user; with_nickname nickname

  abbrev Keeps : Db → Type 0
  Keeps d = IsUnique d.users

  -- the steps from the UPDATE on
  saved-users :
      (nickname : Option Text) (image : Option (Option ℕ)) (d : Db)
      → (saved nickname image d).1.users
        ≡ (update_user user_id
            (record { nickname = nickname; profile_image_id = image })
            now
            d).1.users
  saved-users nickname image d =
      let c : UserChange = record { nickname = nickname; profile_image_id = image } in
      let d' : Db = (update_user user_id c now d).1 in
      let kept = upsert-users orm_runs new_id user_id request.dogs now d' in ground arith

  -- Whatever an update of a profile answers, users who have not withdrawn have different emails and
  -- different nicknames after it if they had before, where no other row has the user's id.
  pub update_user_profile-IsUnique :
      (d : Db)
      → IsUnique d.users
      → count_if (is_user user_id) d.users ≤ 1
      → IsUnique (update_user_profile orm_runs new_id user_id request now d).1.users
  unfolding update_user_profile
  update_user_profile-IsUnique d uniq one =
      transaction-keeps Keeps
        (do
          found ← gets (get_user_by_id user_id)
          user ← or_raise found unauthorized
          with_user user)
        d uniq (by_user (get_user_by_id user_id d) refl)
    where
      by_user :
          (found : Option User)
          → get_user_by_id user_id d ≡ found
          → Keeps ((or_raise found unauthorized >>= with_user) d).1
      by_user none e = uniq
      by_user (some user) e =
          let (same, fits) = wanted_nickname_lem request.nickname user_id user d e one uniq in
          bind-keeps Keeps (wanted_nickname request.nickname user) with_nickname d
            (subst Keeps (sym same) uniq)
            (λ nickname is.
              subst (λ d'. Keeps (with_nickname nickname d').1) (sym same)
                (bind-keeps Keeps
                  (wanted_image request.clear_profile_image request.profile_image_id)
                  (saved nickname) d (subst Keeps (sym (image_same)) uniq)
                  (λ image _.
                    subst (λ d'. Keeps (saved nickname image d').1) (sym image_same)
                      (subst IsUnique (sym (saved-users nickname image d)) (
                        update_user-IsUnique user_id now
                          (record { nickname = nickname; profile_image_id = image }) d uniq one
                          (fits nickname is))))))
        where
          image_same : (wanted_image request.clear_profile_image request.profile_image_id d).1 ≡ d
          image_same = wanted_image_lem request.clear_profile_image request.profile_image_id d

-- A withdrawal keeps the emails and the nicknames of those who have not withdrawn apart.
pub withdraw_user-IsUnique :
    (user_id : ℕ) (suffix : Text) (now : ℕ) (d : Db)
    → IsUnique d.users
    → IsUnique (withdraw_user user_id suffix now d).1.users
unfolding withdraw_user delete_user
withdraw_user-IsUnique user_id suffix now d (emails, nicknames) =
    Bool-split (is_none (get_user_by_id user_id d))
      (λ gone.
        let same : (withdraw_user user_id suffix now d).1 ≡ d = ground arith in
        subst (λ e. IsUnique e.users) (sym same) (emails, nicknames))
      (λ there.
        let users = update_where (is_user user_id) (withdraw suffix now) d.users in
        let same : (withdraw_user user_id suffix now d).1 ≡ record d { users = users } =
          ground arith in
        subst (λ e. IsUnique e.users) (sym same)
          (
            (λ email. omega (
              arith,
              emails email,
              count_if-hide (has_email email) (is_user user_id) (withdraw suffix now)
                  (λ u. ground arith) d.users,
            )),
            λ nickname. omega (
              arith,
              nicknames nickname,
              count_if-hide (has_nickname nickname) (is_user user_id) (withdraw suffix now)
                  (λ u. ground arith) d.users,
            ),
          ))
