-- ===== src/Users/Tests.antt =====
-- Two users, one of whom withdrew long ago, and the theorems at them.
use kyjness_community_be.Prelude.{
  ℕ, ◌+◌, ◌-◌, ◌*◌, ◌≤◌, ◌≡◌, refl, Bool, true, false, not, ◌&&◌, Option, none, some, [], ◌∷◌, ◌==◌,
  is_none, any_of, count_if, keep, map, take, ◌++◌, arith,
}
use kyjness_community_be.Text.{Text, codes, text_eq, text_eq_refl}
use kyjness_community_be.Db.Rows.{Db, User, UserStatus, active, withdrawn, PostLike}
use kyjness_community_be.Db.Empty.{no_rows}
use kyjness_community_be.Db.Sql.{update_where, delete_where, one_or_none}
use kyjness_community_be.Db.Action.{ok, err, internal_server_error}
use kyjness_community_be.Users.{
  get_user_by_id, get_password_hash, update_password, email_exists, nickname_exists,
}
use kyjness_community_be.Users.Purge.{
  mem_id, is_purged, chosen, purge_withdrawn_users_older_than, purge_withdrawn_users, day,
}
use kyjness_community_be.Users.Purged.{purge_withdrawn_users_lem, purge_likes_lem}
use kyjness_community_be.Users.Service.{
  UpdateUserRequest, update_user_profile, password_with_pepper,
  verify_password_with_legacy_fallback, change_password, withdraw_user,
}
use kyjness_community_be.Users.Account.{IsChanged, change_password_lem, withdraw_user_lem}
use kyjness_community_be.Users.Keys.{has_email, has_nickname, IsUnique}
use kyjness_community_be.Users.Unique.{update_user_profile-IsUnique}

abbrev person : ℕ → Text → UserStatus → Option ℕ → User
person i name state gone = record {
  id = i;
  version = 1;
  email = name;
  password = codes "old";
  nickname = name;
  profile_image_id = none;
  role = codes "USER";
  status = state;
  created_at = 1;
  updated_at = 1;
  deleted_at = gone;
}

abbrev like : ℕ → ℕ → PostLike
like post_id user_id = record { post_id = post_id; user_id = user_id; created_at = 2 }

abbrev town : Db
town = record no_rows {
  users = person 10 (codes "mong") active none ∷ person 11 (codes "coco") withdrawn (some 3) ∷ [];
  post_likes = like 1 10 ∷ like 1 11 ∷ [];
}

purge_withdrawn_users_lem_example :
    (total : ℕ) × (d' : Db) × (purge_withdrawn_users 1 (5 * day) 2 town ≡ some (total, d'))
    × (d'.users ≡ delete_where (is_purged (5 * day - 1 * day)) town.users)
    × (total ≡ count_if (is_purged (5 * day - 1 * day)) town.users)
purge_withdrawn_users_lem_example =
    purge_withdrawn_users_lem 1 (5 * day) 2 town (((λ e. ground arith), tt), (tt, tt))
      (ground arith)

-- the like of the user who is purged goes
purge_likes_lem_example :
    let ids = chosen 9 200 town in
    let (deleted_ids, d') = purge_withdrawn_users_older_than 9 200 town in
    (count_if (λ l. l.post_id == 1) d'.post_likes
        + count_if (λ l. l.post_id == 1) (keep (λ l. mem_id ids l.user_id) town.post_likes)
      ≡ count_if (λ l. l.post_id == 1) town.post_likes)
    × (count_if (λ l. l.comment_id == 1) d'.comment_likes
          + count_if (λ l. l.comment_id == 1) (keep (λ l. mem_id ids l.user_id) town.comment_likes)
        ≡ count_if (λ l. l.comment_id == 1) town.comment_likes)
    × (map (λ p. p.like_count) d'.posts ≡ map (λ p. p.like_count) town.posts)
    × (map (λ c. c.like_count) d'.comments ≡ map (λ c. c.like_count) town.comments)
purge_likes_lem_example = purge_likes_lem 9 200 1 town

purged_id : (purge_withdrawn_users_older_than 9 200 town).0 ≡ 11 ∷ []
unfolding purge_withdrawn_users_older_than
purged_id = refl

-- a hash that is the text itself
abbrev verify : Text → Text → Bool
verify plain hashed = text_eq plain hashed

abbrev hash : Text → Text
hash plain = plain

change_password_lem_example :
    IsChanged verify hash [] 10
      (codes "old")
      (codes "new")
      town
      (get_password_hash 10 town)
      (change_password verify [] hash 10 (codes "old") (codes "new") town)
change_password_lem_example =
    change_password_lem verify hash [] (λ p. text_eq_refl p) 10 (codes "old") (codes "new") town

password_changed : (change_password verify [] hash 10 (codes "old") (codes "new") town).0 ≡ ok tt
unfolding change_password get_password_hash one_or_none verify_password_with_legacy_fallback text_eq
    update_password password_with_pepper
password_changed = refl

withdraw_user_lem_example :
    (is_none (get_user_by_id 10 town) ≡ true
      → withdraw_user 10 (codes "_deleted_10_7") 7 town ≡ (err internal_server_error, town))
    × (is_none (get_user_by_id 10 town) ≡ false
        → (d' : Db) × (withdraw_user 10 (codes "_deleted_10_7") 7 town ≡ (ok tt, d'))
          × (get_user_by_id 10 d' ≡ none)
          × ((email : Text)
              → email_exists (λ t. t) email d'
                ≡ any_of
                    (λ u. not (u.id == 10) && text_eq u.email email && is_none u.deleted_at)
                    town.users)
          × ((nickname : Text)
              → nickname_exists nickname d'
                ≡ any_of
                    (λ u. not (u.id == 10) && text_eq u.nickname nickname && is_none u.deleted_at)
                    town.users)
          × (d'.users
              ≡ update_where
                  (λ u. u.id == 10 && is_none u.deleted_at)
                  (λ u. record u {
                    email = take 255 (take 242 u.email ++ codes "_deleted_10_7");
                    nickname = take 255 (take 242 u.nickname ++ codes "_deleted_10_7");
                    status = withdrawn;
                    profile_image_id = none;
                    deleted_at = some 7;
                    updated_at = 7;
                  })
                  town.users))
withdraw_user_lem_example = withdraw_user_lem (λ t. t) 10 (codes "_deleted_10_7") 7 town

abbrev rename : UpdateUserRequest
rename = record {
  nickname = some (codes "coco");
  profile_image_id = none;
  clear_profile_image = false;
  dogs = none;
}

one_email : (t : Text) → count_if (has_email t) town.users ≤ 1
one_email t = ground arith

one_nickname : (t : Text) → count_if (has_nickname t) town.users ≤ 1
one_nickname t = ground arith

update_user_profile-IsUnique_example :
    IsUnique (update_user_profile true (λ i. i) 10 rename 7 town).1.users
update_user_profile-IsUnique_example =
    update_user_profile-IsUnique true (λ i. i) 10 rename 7 town (one_email, one_nickname)
      (ground arith)
