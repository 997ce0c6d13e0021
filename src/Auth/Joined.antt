-- ===== src/Auth/Joined.antt =====
-- app/domain/auth/service.py: what a sign-up leaves, and what a login makes sure of.
use mathlib.Core.Path.{subst}
use kyjness_community_be.Prelude.{
  ℕ, ◌≡◌, refl, sym, ap, ◌∙◌, Bool, true, false, not, ◌&&◌, Option, none, some, List, [], ◌∷◌, ◌++◌,
  ◌==◌, is_none, length, any_of, count_if, count_if-append, arith, Bool-split, Option-cases, inl,
  inr,
}
use kyjness_community_be.Text.{Text, text_eq, text_eq→≡}
use kyjness_community_be.Db.Rows.{Db, User, active}
use kyjness_community_be.Db.Sql.{update_where}
use kyjness_community_be.Db.Found.{count_if-any_of}
use kyjness_community_be.Db.Action.{
  Result, ok, err, Error, signup_image_token_invalid, missing_required_field, email_already_exists,
  nickname_already_exists,
}
use kyjness_community_be.Redis.{Redis, upload_token, Value}
use kyjness_community_be.Users.{email_exists, nickname_exists, create_user}
use kyjness_community_be.Users.Keys.{has_email, has_nickname, IsUnique}
use kyjness_community_be.Media.{claim_image_ownership, is_unclaimed}
use kyjness_community_be.Media.Tokens.{TokenFaults, image_of, verify_upload_token}
use kyjness_community_be.Auth.Signup.{
  SignUpRequest, Insert, inserted, email_taken, nickname_taken, other_key, is_other_image,
  token_image, check_token, join, join_with, signup,
}

-- a new user with a free email and a free nickname
joined-IsUnique :
    (u : User) (users : List User)
    → IsUnique users
    → any_of (has_email u.email) users ≡ false
    → any_of (has_nickname u.nickname) users ≡ false
    → IsUnique (users ++ u ∷ [])
joined-IsUnique u users (emails, nicknames) free_email free_nickname = (
  λ email.
      let before = emails email in
      let both = count_if-append (has_email email) users (u ∷ []) in
      Bool-split (text_eq u.email email)
        (λ same.
          let zero : count_if (has_email email) users ≡ 0 =
            ap (λ t. count_if (has_email t) users) (sym (text_eq→≡ u.email email same))
            ∙ count_if-any_of (has_email u.email) users free_email in
          ground arith)
        (λ other. ground arith),
  λ nickname.
      let before = nicknames nickname in
      let both = count_if-append (has_nickname nickname) users (u ∷ []) in
      Bool-split (text_eq u.nickname nickname)
        (λ same.
          let zero : count_if (has_nickname nickname) users ≡ 0 =
            ap (λ t. count_if (has_nickname t) users) (sym (text_eq→≡ u.nickname nickname same))
            ∙ count_if-any_of (has_nickname u.nickname) users free_nickname in
          ground arith)
        (λ other. ground arith),
)

module _ {Store : Type 0} (redis : Redis Store) (image_id_text : ℕ → Text)
    (parse_uuid : Text → Option ℕ) (lower : Text → Text) where
  -- the token stands for the image before the sign-up
  abbrev pub NamesImage : Text → Store → ℕ → Type 0
  NamesImage token s i =
      (v : Value) × (redis.get (upload_token token) s ≡ some v)
      × (image_of redis image_id_text parse_uuid v ≡ some i)

  -- the image that a new user has: none, or one that nobody had and that is the user's now, for a token
  -- that is used up
  abbrev pub HasImage : SignUpRequest → ℕ → Option ℕ → Db → Store → Db → Store → Type 0
  HasImage request user_id none d s d' s' =
      (d'.images ≡ d.images) × (length request.signup_token ≡ 0)
  HasImage request user_id (some i) d s d' s' =
      NamesImage request.signup_token s i
      × (any_of (is_unclaimed i) d.images ≡ true)
      × (d'.images
          ≡ update_where (is_unclaimed i) (λ m. record m { uploader_id = some user_id }) d.images)
      × (redis.get (upload_token request.signup_token) s' ≡ none)
      × (is_other_image request.profile_image_id i ≡ false)

  -- how a sign-up leaves the tables
  abbrev pub IsJoined :
      SignUpRequest → ℕ → Text → Db → Store → Result (Unit {0}) × Db × Store → Type 0
  IsJoined request user_id hashed d s (err e, d', s') = d' ≡ d
  IsJoined request user_id hashed d s (ok _, d', s') =
      (u : User) × (d'.users ≡ d.users ++ u ∷ [])
      × (u.id ≡ user_id)
      × (u.email ≡ lower request.email)
      × (u.nickname ≡ request.nickname)
      × (u.password ≡ hashed)
      × (u.status ≡ active)
      × (u.deleted_at ≡ none)
      × HasImage request user_id u.profile_image_id d s d' s'
      × (email_exists lower request.email d ≡ false)
      × (nickname_exists request.nickname d ≡ false)
      × (IsUnique d.users → IsUnique d'.users)

  module _ (connected : Bool) (faults : TokenFaults) (request : SignUpRequest) (user_id : ℕ)
      (hashed : Text) (now : ℕ) where
    -- a token that names an image is used up
    used_up :
        (s : Store) (i : ℕ)
        → (verify_upload_token redis image_id_text parse_uuid connected faults request.signup_token
            s).0
          ≡ some i
        → redis.get
            (upload_token request.signup_token)
            (verify_upload_token redis image_id_text parse_uuid connected faults
              request.signup_token s).1
          ≡ none
    unfolding verify_upload_token
    used_up s i e =
        let gone = redis.get-delete_self (upload_token request.signup_token) s in
        elim (Option-cases (redis.get (upload_token request.signup_token) s)) [
          | inl absent ↦ ground arith
          | inr (v, there) ↦ ground arith
        ]

    token_names :
        (s : Store) (i : ℕ)
        → (verify_upload_token redis image_id_text parse_uuid connected faults request.signup_token
            s).0
          ≡ some i
        → NamesImage request.signup_token s i
    unfolding verify_upload_token
    token_names s i e = elim (Option-cases (redis.get (upload_token request.signup_token) s)) [
      | inl absent ↦ ground arith
      | inr (v, there) ↦ (v, there, ground arith)
    ]

    named :
        (asked found : Option ℕ) (i : ℕ)
        → token_image asked found ≡ ok (some i)
        → (found ≡ some i) × (is_other_image asked i ≡ false)
    named asked none i e = ground arith
    named asked (some j) i e =
        Bool-split (is_other_image asked j) (λ other. ground arith)
          (λ same.
            let j_is_i : j ≡ i = ground arith in
            (ap some j_is_i, ap (is_other_image asked) (sym j_is_i) ∙ same))

    checked_token :
        (s s' : Store) (i : ℕ)
        → check_token redis image_id_text parse_uuid lower connected faults request.profile_image_id
            request.signup_token s
          ≡ (ok (some i), s')
        → NamesImage request.signup_token s i
          × (redis.get (upload_token request.signup_token) s' ≡ none)
          × (is_other_image request.profile_image_id i ≡ false)
    unfolding check_token
    checked_token s s' i e =
        let v =
          verify_upload_token redis image_id_text parse_uuid connected faults request.signup_token
            s in
        Bool-split (length request.signup_token == 0) (λ bare. ground arith)
          (λ token.
            let is_named : token_image request.profile_image_id v.0 ≡ ok (some i) = ground arith in
            let after : v.1 ≡ s' = ground arith in
            let (found, right) = named request.profile_image_id v.0 i is_named in
            (
              token_names s i found,
              subst (λ x. redis.get (upload_token request.signup_token) x ≡ none) after
                  (used_up s i found),
              right,
            ))

    bare_token :
        (s s' : Store)
        → check_token redis image_id_text parse_uuid lower connected faults request.profile_image_id
            request.signup_token s
          ≡ (ok none, s')
        → length request.signup_token ≡ 0
    unfolding check_token
    bare_token s s' e =
        Bool-split (length request.signup_token == 0) (λ bare. ground arith)
          (λ token.
            let v =
              verify_upload_token redis image_id_text parse_uuid connected faults
                request.signup_token s in
            unnamed request.profile_image_id v.0 (ground arith))
      where
        unnamed : {A : Type 0} (asked found : Option ℕ) → token_image asked found ≡ ok none → A
        unnamed asked none e = ground arith
        unnamed asked (some j) e =
            Bool-split (is_other_image asked j) (λ other. ground arith) (λ same. ground arith)

    joined :
        (met : Insert) (checked : Result (Option ℕ) × Store) (s : Store) (d : Db)
        → check_token redis image_id_text parse_uuid lower connected faults request.profile_image_id
            request.signup_token s
          ≡ checked
        → email_exists lower request.email d ≡ false
        → nickname_exists request.nickname d ≡ false
        → IsJoined request user_id hashed d s (
            join_with redis image_id_text parse_uuid lower met user_id request hashed now checked d)
    unfolding join_with join email_exists nickname_exists create_user claim_image_ownership
    joined met (err e, s') s d is free_email free_nickname = refl
    joined email_taken (ok image, s') s d is free_email free_nickname = refl
    joined nickname_taken (ok image, s') s d is free_email free_nickname = refl
    joined other_key (ok image, s') s d is free_email free_nickname = refl
    joined inserted (ok none, s') s d is free_email free_nickname =
        let u : User =
          (create_user lower user_id request.email hashed request.nickname none now d).0 in
        (
          u,
          refl,
          refl,
          refl,
          refl,
          refl,
          refl,
          refl,
          (refl, bare_token s s' is),
          free_email,
          free_nickname,
          λ unique. joined-IsUnique u d.users unique free_email free_nickname,
        )
    joined inserted (ok (some i), s') s d is free_email free_nickname =
        let outcome =
          join_with redis image_id_text parse_uuid lower inserted user_id request hashed now
            (ok (some i), s') d in
        let (u, d1) =
          create_user lower user_id request.email hashed request.nickname (some i) now d in
        let d2 : Db = (claim_image_ownership i user_id d1).1 in
        Bool-split (any_of (is_unclaimed i) d.images)
          (λ unclaimed.
            let (names, gone, right) = checked_token s s' i is in
            let e : outcome ≡ (ok tt, d2, s') = ground arith in
            subst (IsJoined request user_id hashed d s) (sym e) (
              u,
              refl,
              refl,
              refl,
              refl,
              refl,
              refl,
              refl,
              (names, unclaimed, refl, gone, right),
              free_email,
              free_nickname,
              λ unique. joined-IsUnique u d.users unique free_email free_nickname,
            ))
          (λ claimed.
            let e : outcome ≡ (err signup_image_token_invalid, d, s') = ground arith in
            subst (IsJoined request user_id hashed d s) (sym e) refl)

    -- A sign-up that fails leaves the tables as they were. One that goes through has added one user, with
    -- the email in lower case, whose email and nickname nobody had who has not withdrawn, so that emails
    -- and nicknames stay apart. The picture is none without a token; with one it is the image that the
    -- token named, which had no uploader and has the user as its uploader now, and the token is used up.
    pub signup_lem :
        (met : Insert) (d : Db) (s : Store)
        → IsJoined request user_id hashed d s (
            signup redis image_id_text parse_uuid lower connected faults met user_id request hashed
              now d s)
    unfolding signup
    signup_lem met d s =
        let outcome =
          signup redis image_id_text parse_uuid lower connected faults met user_id request hashed
            now d s in
        let refused : (e : Error)
            → outcome ≡ (err e, d, s)
            → IsJoined request user_id hashed d s outcome =
          λ e is. subst (IsJoined request user_id hashed d s) (sym is) refl in
        Bool-split (not (is_none request.profile_image_id) && length request.signup_token == 0)
          (λ missing. refused missing_required_field (ground arith))
          (λ whole.
            Bool-split (email_exists lower request.email d)
              (λ taken. refused email_already_exists (ground arith))
              (λ free_email.
                Bool-split (nickname_exists request.nickname d)
                  (λ taken. refused nickname_already_exists (ground arith))
                  (λ free_nickname.
                    let checked =
                      check_token redis image_id_text parse_uuid lower connected faults
                        request.profile_image_id request.signup_token s in
                    let e : outcome
                        ≡ join_with redis image_id_text parse_uuid lower met user_id request hashed
                            now checked d =
                      ground arith in
                    subst (IsJoined request user_id hashed d s) (sym e)
                      (joined met checked s d refl free_email free_nickname))))
