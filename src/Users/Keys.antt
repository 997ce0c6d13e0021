-- ===== src/Users/Keys.antt =====
-- app/domain/users: updates of users, and the emails and nicknames that they share with no one.
use kyjness_community_be.Prelude.{
  ℕ, ◌+◌, ◌≤◌, ◌≡◌, refl, sym, ap, ◌∙◌, Bool, true, false, not, ◌&&◌, Option, none, some, List, [],
  ◌∷◌, ◌++◌, is_none, if◌then◌else◌, any_of, keep, map, count_if, arith, Bool-split,
}
use mathlib.Core.Path.{subst}
use kyjness_community_be.Text.{Text, text_eq, text_eq_refl, text_eq→≡}
use kyjness_community_be.Db.Rows.{Db, User}
use kyjness_community_be.Db.Sql.{update_where, one_or_none, count_if-update_where}
use kyjness_community_be.Db.Found.{any_of-count_if, one_or_none-any_of, one_or_none-test}
use kyjness_community_be.Db.Action.{ok}
use kyjness_community_be.Dogs.{
  DogProfileUpsertItem, upsert_dog_profile, appoint, mem_id, get_ids_by_owner_id,
  bulk_update_by_owner, create_many, bulk_delete_by_owner_ids, set_representative,
  representative_id, plan_items, no_plan,
}
use kyjness_community_be.Users.{UserChange, is_user, get_user_by_id, nickname_exists, change_user}
use kyjness_community_be.Users.Service.{wanted_nickname, wanted_image, upsert_dogs}

abbrev pub has_email : Text → User → Bool
has_email email u = text_eq u.email email && is_none u.deleted_at

abbrev pub has_nickname : Text → User → Bool
has_nickname nickname u = text_eq u.nickname nickname && is_none u.deleted_at

abbrev pub IsUnique : List User → Type 0
IsUnique users =
    ((email : Text) → count_if (has_email email) users ≤ 1)
    × ((nickname : Text) → count_if (has_nickname nickname) users ≤ 1)

-- the nickname of a change is not another user's
abbrev pub Fits : ℕ → Option Text → List User → Type 0
Fits user_id none users = Unit {0}
Fits user_id (some nickname) users =
    count_if (λ u. has_nickname nickname u && not (is_user user_id u)) users ≡ 0

count_split :
    (q p : User → Bool) (users : List User)
    → count_if (λ u. q u && p u) users + count_if (λ u. q u && not (p u)) users ≡ count_if q users
count_split q p [] = refl
count_split q p (u ∷ users) = ground (arith, count_split q p users)

renamed :
    (i now : ℕ) (image : Option (Option ℕ)) (new n : Text) (users : List User)
    → count_if (has_nickname n) (
        update_where
          (is_user i)
          (change_user (record { nickname = some new; profile_image_id = image }) now)
          users)
      ≤ count_if (λ u. has_nickname n u && not (is_user i u)) users
        + (if text_eq new n then count_if (is_user i) users else 0)
unfolding update_where
renamed i now image new n [] = ground arith
renamed i now image new n (u ∷ users) = ground (arith, renamed i now image new n users)

pub changed-IsUnique :
    (i now : ℕ) (c : UserChange) (users : List User)
    → IsUnique users
    → count_if (is_user i) users ≤ 1
    → Fits i c.nickname users
    → IsUnique (update_where (is_user i) (change_user c now) users)
changed-IsUnique i now c users (emails, nicknames) one fits = (
  λ email.
      rw (count_if-update_where (has_email email) (is_user i) (change_user c now) (λ u. refl) users)
        (emails email),
  by_nickname c.nickname fits c.profile_image_id,
)
  where
    by_nickname :
        (nickname : Option Text)
        → Fits i nickname users
        → (image : Option (Option ℕ)) (n : Text)
        → count_if (has_nickname n) (
            update_where
              (is_user i)
              (change_user (record { nickname = nickname; profile_image_id = image }) now)
              users)
          ≤ 1
    by_nickname none fits image n =
        rw
          (count_if-update_where (has_nickname n) (is_user i)
            (change_user (record { nickname = none; profile_image_id = image }) now) (λ u. refl)
            users)
          (nicknames n)
    by_nickname (some new) fits image n =
        let bound = renamed i now image new n users in
        let split = count_split (has_nickname n) (is_user i) users in
        let at_most = nicknames n in
        Bool-split (text_eq new n)
          (λ same.
            let here : count_if (λ u. has_nickname n u && not (is_user i u)) users ≡ 0 =
              ap (λ t. count_if (λ u. has_nickname t u && not (is_user i u)) users)
                (sym (text_eq→≡ new n same))
              ∙ fits in
            ground arith)
          (λ other. ground arith)

appoint-users :
    (owner_id now : ℕ) (i : Option ℕ) (d : Db) → (appoint owner_id i now d).1.users ≡ d.users
unfolding set_representative
appoint-users owner_id now none d = refl
appoint-users owner_id now (some i) d = refl

-- dogs leave the table of users alone
pub upsert-users :
    (orm_runs : Bool) (new_id : ℕ → ℕ) (user_id : ℕ) (dogs : Option (List DogProfileUpsertItem))
    (now : ℕ) (d : Db)
    → (upsert_dogs orm_runs new_id user_id dogs now d).1.users ≡ d.users
unfolding upsert_dog_profile bulk_update_by_owner create_many bulk_delete_by_owner_ids
upsert-users orm_runs new_id user_id none now d = refl
upsert-users orm_runs new_id user_id (some items) now d =
    let p = plan_items items no_plan in
    let d1 : Db = (bulk_update_by_owner orm_runs user_id p.update_rows now d).1 in
    let created = (create_many new_id user_id p.create_rows now d1).0 in
    let d2 : Db = (create_many new_id user_id p.create_rows now d1).1 in
    let requested = p.update_ids ++ map (λ r. r.id) created in
    let d3 : Db =
      (bulk_delete_by_owner_ids user_id
        (keep (λ i. not (mem_id requested i)) (get_ids_by_owner_id user_id d)) d2).1 in
    let last = appoint-users user_id now (representative_id p created) d3 in ground arith

none_with :
    (q r : User → Bool) (users : List User)
    → any_of q users ≡ false
    → count_if (λ u. q u && r u) users ≡ 0
none_with q r [] e = refl
none_with q r (u ∷ users) e = ground (arith, none_with q r users)

own_counts :
    (i : ℕ) (user : User) (new : Text) (users : List User)
    → one_or_none (is_user i) users ≡ some user
    → text_eq new user.nickname ≡ true
    → 1 ≤ count_if (λ u. has_nickname new u && is_user i u) users
own_counts i user new users found e =
    any_of-count_if (λ u. has_nickname new u && is_user i u) users
      (one_or_none-any_of (is_user i) (λ u. has_nickname new u && is_user i u) users user found
        (let it = one_or_none-test (is_user i) users user found in
          let same = text_eq→≡ new user.nickname e in
          let own = ap (λ t. text_eq t new) (sym same) in
          let reflexive = text_eq_refl new in ground arith))

pub wanted_nickname_lem :
    (nickname : Option Text) (user_id : ℕ) (user : User) (d : Db)
    → get_user_by_id user_id d ≡ some user
    → count_if (is_user user_id) d.users ≤ 1
    → IsUnique d.users
    → ((wanted_nickname nickname user d).1 ≡ d)
      × ((n : Option Text) → (wanted_nickname nickname user d).0 ≡ ok n → Fits user_id n d.users)
unfolding wanted_nickname nickname_exists get_user_by_id
wanted_nickname_lem none user_id user d found one uniq =
    (refl, λ n e. let e' : none ≡ n = ground arith in subst (λ m. Fits user_id m d.users) e' tt)
wanted_nickname_lem (some new) user_id user d found one uniq =
    by_tests (text_eq new user.nickname) (nickname_exists new d) refl refl
  where
    free : nickname_exists new d ≡ false → Fits user_id (some new) d.users
    free e = none_with (has_nickname new) (λ u. not (is_user user_id u)) d.users e

    own : text_eq new user.nickname ≡ true → Fits user_id (some new) d.users
    own e =
        let at_most = uniq.1 new in
        let split = count_split (has_nickname new) (is_user user_id) d.users in
        omega (arith, own_counts user_id user new d.users found e, at_most, split)

    by_tests :
        (same taken : Bool)
        → text_eq new user.nickname ≡ same
        → nickname_exists new d ≡ taken
        → ((wanted_nickname (some new) user d).1 ≡ d)
          × ((n : Option Text)
              → (wanted_nickname (some new) user d).0 ≡ ok n
              → Fits user_id n d.users)
    by_tests false true is_same is_taken = (ground arith, λ n e. ground arith)
    by_tests false false is_same is_taken =
        let fits = free is_taken in
        (
          ground arith,
          λ n e.
              let e' : some new ≡ n = ground arith in subst (λ m. Fits user_id m d.users) e' fits,
        )
    by_tests true taken is_same is_taken =
        let fits = own is_same in
        (
          ground arith,
          λ n e.
              let e' : some new ≡ n = ground arith in subst (λ m. Fits user_id m d.users) e' fits,
        )

pub wanted_image_lem :
    (clear : Bool) (image : Option (Option ℕ)) (d : Db) → (wanted_image clear image d).1 ≡ d
unfolding wanted_image
wanted_image_lem true image d = refl
wanted_image_lem false none d = refl
wanted_image_lem false (some none) d = refl
wanted_image_lem false (some (some i)) d = ground arith
