-- ===== src/Auth/FirstLogin.antt =====
-- app/domain/auth/service.py: the first login after a sign-up.
use mathlib.Core.Path.{subst}
use kyjness_community_be.Prelude.{
  ℕ, ◌≤◌, ◌<◌, ◌≡◌, sym, ap, ◌∙◌, Bool, true, false, Option, none, some, List, [], ◌∷◌, ◌++◌,
  length, count_if, count_if-append, arith,
}
use kyjness_community_be.Text.{Text, text_eq_refl}
use kyjness_community_be.Db.Rows.{Db, User, active}
use kyjness_community_be.Db.Sql.{one_or_none}
use kyjness_community_be.Db.Action.{ok}
use kyjness_community_be.Redis.{Redis, user_refresh, user_status, digest, status}
use kyjness_community_be.Users.{email_exists, nickname_exists, create_user, get_user_by_email}
use kyjness_community_be.Users.Keys.{has_email, IsUnique}
use kyjness_community_be.Media.Tokens.{TokenFaults}
use kyjness_community_be.Auth.{
  remember_login, set_user_status_cache_best_effort, user_status_cache_ttl_seconds,
}
use kyjness_community_be.Auth.Signup.{
  SignUpRequest, Insert, inserted, check_token, join, join_with, signup, check_login, store_login,
  login,
}
use kyjness_community_be.Users.Service.{password_with_pepper, verify_password_with_legacy_fallback}
use kyjness_community_be.Users.Account.{matches_own}
use kyjness_community_be.Auth.Joined.{IsJoined, signup_lem}

module _ {Store : Type 0} (redis : Redis Store) (image_id_text : ℕ → Text)
    (parse_uuid : Text → Option ℕ) (lower : Text → Text) where
  module _ (connected : Bool) (faults : TokenFaults) (request : SignUpRequest) (user_id : ℕ)
      (hashed : Text) (now : ℕ) where
    -- the new user is found by the email
    found_by_email :
        (u : User) (users : List User)
        → count_if (has_email u.email) (users ++ u ∷ []) ≤ 1
        → u.deleted_at ≡ none
        → one_or_none (has_email u.email) (users ++ u ∷ []) ≡ some u
    unfolding one_or_none
    found_by_email u [] one here = let same = text_eq_refl u.email in ground arith
    found_by_email u (x ∷ users) one here =
        let both = count_if-append (has_email u.email) users (u ∷ []) in
        let same = text_eq_refl u.email in
        let rest = found_by_email u users (ground arith) here in ground arith

    logged_in :
        (verify : Text → Text → Bool) (pepper : Text) (d' : Db) (s' : Store) (u : User)
        (refresh_digest : ℕ → Text) (ttl : ℕ)
        → get_user_by_email lower request.email d' ≡ some u
        → u.status ≡ active
        → verify_password_with_legacy_fallback verify pepper request.password u.password ≡ true
        → 0 < ttl
        → login redis image_id_text parse_uuid lower verify pepper true false false request.email
            request.password refresh_digest ttl d' s'
          ≡ (ok u, remember_login redis false u.id (refresh_digest u.id) ttl s')
    unfolding login check_login store_login
    logged_in verify pepper d' s' u refresh_digest ttl found is_active matches pos = ground arith

    remembered :
        (user_id : ℕ) (refresh : Text) (ttl : ℕ) (s' : Store)
        → 0 < ttl
        → redis.get (user_refresh user_id) (remember_login redis false user_id refresh ttl s')
          ≡ some (digest refresh)
    unfolding remember_login set_user_status_cache_best_effort
    remembered user_id refresh ttl s' pos =
        let s1 = redis.set (user_refresh user_id) (digest refresh) ttl s' in
        let kept =
          redis.get-set_ne (user_refresh user_id) (user_status user_id) (status active)
            user_status_cache_ttl_seconds s1 (λ e. ground arith) in
        let stored = redis.get-set_self (user_refresh user_id) (digest refresh) ttl s' pos in
        ground arith

    -- Whoever has signed up can log in.
    login_after :
        (verify : Text → Text → Bool) (hash : Text → Text) (pepper : Text)
        → ((p : Text) → verify p (hash p) ≡ true)
        → (met : Insert) (d : Db) (s : Store) → IsUnique d.users
        → hashed ≡ hash (password_with_pepper pepper request.password)
        → (d' : Db) (s' : Store)
        → signup redis image_id_text parse_uuid lower connected faults met user_id request hashed
            now d s
          ≡ (ok tt, d', s')
        → (refresh_digest : ℕ → Text) (ttl : ℕ) → 0 < ttl
        → (u : User) × (s2 : Store) × (u.id ≡ user_id)
          × (login redis image_id_text parse_uuid lower verify pepper true false false request.email
                request.password refresh_digest ttl d' s'
              ≡ (ok u, s2))
          × (redis.get (user_refresh user_id) s2 ≡ some (digest (refresh_digest user_id)))
    unfolding get_user_by_email password_with_pepper
    login_after verify hash pepper self met d s unique is_hash d' s' done refresh_digest ttl pos =
        let (u, rows, id, email, nickname, password, is_active, here, image, _, _, kept) =
          subst (IsJoined redis image_id_text parse_uuid lower request user_id hashed d s) done (
            signup_lem redis image_id_text parse_uuid lower connected faults request user_id hashed
              now met d s) in
        let (emails, _) = kept unique in
        let found =
          found_by_email u d.users
            (subst (λ us. count_if (has_email u.email) us ≤ 1) rows (emails u.email)) here in
        let by_email : get_user_by_email lower request.email d' ≡ some u =
          ap (λ us. one_or_none (has_email (lower request.email)) us) rows
          ∙ ap (λ t. one_or_none (has_email t) (d.users ++ u ∷ [])) (sym email)
          ∙ found in
        let matches =
          ap (λ h. verify_password_with_legacy_fallback verify pepper request.password h)
            (password ∙ is_hash)
          ∙ matches_own verify hash pepper self request.password in
        (
          u,
          remember_login redis false u.id (refresh_digest u.id) ttl s',
          id,
          logged_in verify pepper d' s' u refresh_digest ttl by_email is_active matches pos,
          subst
              (λ i.
                redis.get (user_refresh i)
                  (remember_login redis false u.id (refresh_digest u.id) ttl s')
                ≡ some (digest (refresh_digest i)))
              id (remembered u.id (refresh_digest u.id) ttl s' pos),
        )

    -- With a free email and a free nickname, that no other transaction takes, and without a picture, a
    -- sign-up succeeds; the new user can log in with the email and the password of the request, where
    -- emails were apart before, bcrypt verifies a password against its own hash and no call of Redis
    -- raises, and the refresh token of the login is stored then.
    pub login_after_signup :
        (verify : Text → Text → Bool) (hash : Text → Text) (pepper : Text)
        → ((p : Text) → verify p (hash p) ≡ true)
        → (d : Db) (s : Store) → IsUnique d.users
        → hashed ≡ hash (password_with_pepper pepper request.password)
        → request.profile_image_id ≡ none
        → length request.signup_token ≡ 0
        → email_exists lower request.email d ≡ false
        → nickname_exists request.nickname d ≡ false
        → (refresh_digest : ℕ → Text) (ttl : ℕ) → 0 < ttl
        → (d' : Db) × (s' : Store) × (signup redis image_id_text parse_uuid lower connected faults
              inserted user_id request hashed now d s
            ≡ (ok tt, d', s'))
          × (u : User) × (s2 : Store) × (u.id ≡ user_id)
          × (login redis image_id_text parse_uuid lower verify pepper true false false request.email
                request.password refresh_digest ttl d' s'
              ≡ (ok u, s2))
          × (redis.get (user_refresh user_id) s2 ≡ some (digest (refresh_digest user_id)))
    unfolding signup check_token join_with join
    login_after_signup verify hash pepper self d s unique is_hash no_image no_token free_email
          free_nickname refresh_digest ttl pos =
        let d' : Db =
          (create_user lower user_id request.email hashed request.nickname none now d).1 in
        let done : signup redis image_id_text parse_uuid lower connected faults inserted user_id
              request hashed now d s
            ≡ (ok tt, d', s) =
          ground arith in
        let (u, s2, id, logged, kept) =
          login_after verify hash pepper self inserted d s unique is_hash d' s done refresh_digest
            ttl pos in
        (d', s, done, u, s2, id, logged, kept)
