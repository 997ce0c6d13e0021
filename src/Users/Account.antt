-- ===== src/Users/Account.antt =====
-- app/domain/users/service.py: what toggling a block, changing a password and withdrawing do.
use kyjness_community_be.Prelude.{
  ℕ, ◌-◌, ◌≡◌, refl, ap, ◌∙◌, Bool, true, false, not, ◌&&◌, Option, none, some, List, [], ◌∷◌, ◌++◌,
  ◌==◌, is_none, if◌then◌else◌, length, take, any_of, keep, head?, any_of-append, arith, Bool-split,
}
use kyjness_community_be.Text.{Text, text_eq}
use kyjness_community_be.Db.Rows.{Db, User, UserBlock, withdrawn}
use kyjness_community_be.Db.Sql.{update_where, delete_where, one_or_none, any_of-hide}
use kyjness_community_be.Db.Found.{one_or_none_absent}
use kyjness_community_be.Db.Action.{
  Result, ok, err, unauthorized, internal_server_error, invalid_user_info,
}
use kyjness_community_be.Users.{
  is_user, is_block, get_user_by_id, email_exists, nickname_exists, get_password_hash,
  update_password, block_exists, block_user, unblock_user, delete_user, withdraw,
  mask_for_withdrawal,
}
use kyjness_community_be.Users.Service.{
  password_with_pepper, verify_password_with_legacy_fallback, change_password, toggle_block_user,
  withdraw_user,
}

-- the pair of a block and another pair
abbrev pub is_same_pair : ℕ → ℕ → ℕ → ℕ → Bool
is_same_pair a b x y = a == x && b == y

unblocked :
    (a b x y : ℕ) (blocks : List UserBlock)
    → any_of (is_block x y) (delete_where (is_block a b) blocks)
      ≡ (not (is_same_pair a b x y) && any_of (is_block x y) blocks)
unfolding delete_where
unblocked a b x y [] = ground arith
unblocked a b x y (r ∷ blocks) = ground (arith, unblocked a b x y blocks)

-- Toggling a block of oneself is refused. Of another user it answers whether that user is blocked from
-- then on, which is what a block was not before; no other pair is blocked or unblocked.
pub toggle_block_user_lem :
    (a b now : ℕ) (d : Db)
    → (toggle_block_user a a now d ≡ (err invalid_user_info, d))
      × ((a == b) ≡ false
          → (d' : Db) × (toggle_block_user a b now d ≡ (ok (not (block_exists a b d)), d'))
            × ((x y : ℕ)
                → block_exists x y d' ≡ (
                    if is_same_pair a b x y then not (block_exists a b d) else block_exists x y d)))
unfolding toggle_block_user block_exists block_user unblock_user
toggle_block_user_lem a b now d = (
  ground arith,
  λ other.
      Bool-split (any_of (is_block a b) d.user_blocks)
        (λ on. (
          (unblock_user a b d).1,
          ground arith,
          λ x y. ground (arith, unblocked a b x y d.user_blocks),
        ))
        (λ off. (
          (block_user a b now d).1,
          ground arith,
          λ x y. ground (
            arith,
            any_of-append (is_block x y) d.user_blocks
                (record { blocker_id = a; blocked_id = b; created_at = now } ∷ []),
          ),
        )),
)

append_none : (t : Text) → t ++ [] ≡ t
append_none [] = refl
append_none (c ∷ t) = ap (◌∷◌ c) (append_none t)

abbrev hash_in : ℕ → List User → Option Text
hash_in i users = elim (head? (keep (is_user i) users)) [ none ↦ none | some u ↦ some u.password ]

hash-set :
    (i : ℕ) (h : Text) (users : List User)
    → hash_in i (update_where (is_user i) (λ u. record u { password = h }) users)
      ≡ (if any_of (is_user i) users then some h else none)
unfolding update_where
hash-set i h [] = ground arith
hash-set i h (u ∷ users) =
    Bool-split (is_user i u) (λ it. ground arith) (λ it. ground (arith, hash-set i h users))

hash-other :
    (i j : ℕ) (h : Text) (users : List User)
    → (i == j) ≡ false
    → hash_in j (update_where (is_user i) (λ u. record u { password = h }) users) ≡ hash_in j users
unfolding update_where
hash-other i j h [] e = ground arith
hash-other i j h (u ∷ users) e =
    Bool-split (is_user i u) (λ it. ground (arith, hash-other i j h users))
      (λ it. ground (arith, hash-other i j h users))

hash_there :
    (i : ℕ) (h : Text) (users : List User)
    → hash_in i users ≡ some h
    → any_of (is_user i) users ≡ true
hash_there i h [] e = ground arith
hash_there i h (u ∷ users) e =
    Bool-split (is_user i u) (λ it. ground arith) (λ it. ground (arith, hash_there i h users))

module _ (verify : Text → Text → Bool) (hash : Text → Text) (pepper : Text) where
  abbrev matches : Text → Text → Bool
  matches = verify_password_with_legacy_fallback verify pepper

  pub matches_own :
      ((p : Text) → verify p (hash p) ≡ true)
      → (new : Text) → matches new (hash (new ++ pepper)) ≡ true
  unfolding verify_password_with_legacy_fallback password_with_pepper
  matches_own self new = ground (arith, self (new ++ pepper), bare pepper)
    where
      bare : (t : Text) → (length t == 0) ≡ true → verify new (hash (new ++ t)) ≡ true
      bare [] e = ap (λ p. verify new (hash p)) (append_none new) ∙ self new
      bare (c ∷ t) e = ground arith

  -- what a change of a password does, once the stored hash is looked up
  abbrev pub IsChanged : ℕ → Text → Text → Db → Option Text → Result (Unit {0}) × Db → Type 0
  IsChanged user_id current new d none outcome = outcome ≡ (err unauthorized, d)
  IsChanged user_id current new d (some hashed) outcome =
      if not (matches current hashed)
      then (outcome ≡ (err unauthorized, d))
      else if matches new hashed
      then (outcome ≡ (err invalid_user_info, d))
      else (d' : Db) × (outcome ≡ (ok tt, d'))
        × (h : Text) × (get_password_hash user_id d' ≡ some h)
        × (matches new h ≡ true)
        × ((j : ℕ) → (user_id == j) ≡ false → get_password_hash j d' ≡ get_password_hash j d)

  -- Where bcrypt verifies a password against its own hash, a password is changed just if the current one
  -- verifies and the new one does not: the new one verifies then, and no other user's hash has changed.
  -- Otherwise the tables stay, and which of the two failed decides the error.
  pub change_password_lem :
      ((p : Text) → verify p (hash p) ≡ true)
      → (user_id : ℕ) (current new : Text) (d : Db)
      → IsChanged user_id current new d
          (get_password_hash user_id d)
          (change_password verify pepper hash user_id current new d)
  unfolding change_password update_password get_password_hash one_or_none
      verify_password_with_legacy_fallback password_with_pepper
  change_password_lem self user_id current new d = by_hash (hash_in user_id d.users) refl
    where
      by_hash :
          (found : Option Text)
          → hash_in user_id d.users ≡ found
          → IsChanged user_id current new d found
              (change_password verify pepper hash user_id current new d)
      by_hash none e = ground arith
      by_hash (some hashed) e = by_tests (matches current hashed) (matches new hashed) refl refl
        where
          d' : Db
          d' = (update_password user_id (hash (password_with_pepper pepper new)) d).1

          by_tests :
              (c w : Bool)
              → matches current hashed ≡ c
              → matches new hashed ≡ w
              → if not c
                then (change_password verify pepper hash user_id current new d
                    ≡ (err unauthorized, d))
                else if w
                then (change_password verify pepper hash user_id current new d
                    ≡ (err invalid_user_info, d))
                else (d' : Db) × (change_password verify pepper hash user_id current new d
                    ≡ (ok tt, d'))
                  × (h : Text) × (get_password_hash user_id d' ≡ some h)
                  × (matches new h ≡ true)
                  × ((j : ℕ)
                      → (user_id == j) ≡ false
                      → get_password_hash j d' ≡ get_password_hash j d)
          by_tests false w is_c is_w = ground arith
          by_tests true true is_c is_w = ground arith
          by_tests true false is_c is_w =
              let there = hash_there user_id hashed d.users e in
              (
                d',
                ground arith,
                hash (new ++ pepper),
                hash-set user_id (hash (new ++ pepper)) d.users ∙ ground arith,
                matches_own self new,
                λ j other. hash-other user_id j (hash (new ++ pepper)) d.users other,
              )

-- an UPDATE after which a test is false leaves the rows of the test that it does not reach
any_of-left :
    (q p : User → Bool) (f : User → User)
    → ((u : User) → q (f u) ≡ false)
    → (users : List User) → any_of q (update_where p f users) ≡ any_of (λ u. not (p u) && q u) users
unfolding update_where
any_of-left q p f off [] = refl
any_of-left q p f off (u ∷ users) = ground (arith, off u, any_of-left q p f off users)

any_of-cong :
    (q r : User → Bool)
    → ((u : User) → q u ≡ r u)
    → (users : List User) → any_of q users ≡ any_of r users
any_of-cong q r same [] = refl
any_of-cong q r same (u ∷ users) = ground (arith, same u, any_of-cong q r same users)

-- A withdrawal succeeds just if the user is there; it fails without a change. The user is not found then,
-- and the checks whether an email or a nickname exists answer for the other users only. The row stays,
-- withdrawn and without a picture, and its email and nickname are cut to end in the suffix in 255
-- characters; no other row changes.
pub withdraw_user_lem :
    (lower : Text → Text) (user_id : ℕ) (suffix : Text) (now : ℕ) (d : Db)
    → (is_none (get_user_by_id user_id d) ≡ true
        → withdraw_user user_id suffix now d ≡ (err internal_server_error, d))
      × (is_none (get_user_by_id user_id d) ≡ false
          → (d' : Db) × (withdraw_user user_id suffix now d ≡ (ok tt, d'))
            × (get_user_by_id user_id d' ≡ none)
            × ((email : Text)
                → email_exists lower email d'
                  ≡ any_of
                      (λ u.
                        not (u.id == user_id)
                        && text_eq u.email (lower email)
                        && is_none u.deleted_at)
                      d.users)
            × ((nickname : Text)
                → nickname_exists nickname d'
                  ≡ any_of
                      (λ u.
                        not (u.id == user_id)
                        && text_eq u.nickname nickname
                        && is_none u.deleted_at)
                      d.users)
            × (d'.users
                ≡ update_where
                    (λ u. u.id == user_id && is_none u.deleted_at)
                    (λ u. record u {
                      email = take 255 (take (255 - length suffix) u.email ++ suffix);
                      nickname = take 255 (take (255 - length suffix) u.nickname ++ suffix);
                      status = withdrawn;
                      profile_image_id = none;
                      deleted_at = some now;
                      updated_at = now;
                    })
                    d.users))
unfolding withdraw_user delete_user get_user_by_id email_exists nickname_exists mask_for_withdrawal
withdraw_user_lem lower user_id suffix now d = (
  λ gone. ground arith,
  λ there. (
    record d { users = update_where (is_user user_id) (withdraw suffix now) d.users },
    ground arith,
    one_or_none_absent (is_user user_id) _ (
        any_of-hide (is_user user_id) (is_user user_id) (withdraw suffix now) (λ u. ground arith)
          (λ u e. e) d.users),
    λ email.
        any_of-left (λ u. text_eq u.email (lower email) && is_none u.deleted_at) (is_user user_id)
          (withdraw suffix now) (λ u. ground arith) d.users
        ∙ any_of-cong _ _ (λ u. ground arith) d.users,
    λ nickname.
        any_of-left (λ u. text_eq u.nickname nickname && is_none u.deleted_at) (is_user user_id)
          (withdraw suffix now) (λ u. ground arith) d.users
        ∙ any_of-cong _ _ (λ u. ground arith) d.users,
    refl,
  ),
)
