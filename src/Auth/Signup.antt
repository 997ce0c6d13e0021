-- ===== src/Auth/Signup.antt =====
-- app/domain/auth/service.py: `AuthService.signup` and `login`. Redis and the functions on passwords and
-- tokens are parameters, and what the INSERT of the user meets is an argument.
use kyjness_community_be.Prelude.{
  ℕ, Bool, false, not, ◌&&◌, ◌||◌, Option, none, some, ◌==◌, is_none, if◌then◌else◌, length,
}
use kyjness_community_be.Text.{Text}
use kyjness_community_be.Db.Rows.{Db, User}
use kyjness_community_be.Db.Action.{
  Result, ok, err, Action, gets, run, raise, pure, raise_if, or_raise, ◌>>=◌, ◌>>◌, transaction,
  missing_required_field, email_already_exists, nickname_already_exists, signup_image_token_invalid,
  integrity_error, invalid_credentials, forbidden, internal_server_error,
}
use kyjness_community_be.Redis.{Redis}
use kyjness_community_be.Users.{
  is_active_value, email_exists, nickname_exists, create_user, get_user_by_email,
}
use kyjness_community_be.Users.Service.{verify_password_with_legacy_fallback}
use kyjness_community_be.Media.{claim_image_ownership}
use kyjness_community_be.Media.Tokens.{TokenFaults, verify_upload_token}
use kyjness_community_be.Auth.{remember_login}

-- `SignUpRequest`
pub record SignUpRequest : Type 0 where
  pub email : Text
  pub password : Text
  pub nickname : Text
  pub profile_image_id : Option ℕ
  pub signup_token : Text

-- The INSERT of a user, on the unique keys of the table: they count withdrawn users too, and what other
-- transactions have committed since the checks.
pub data Insert : Type 0 where
  inserted email_taken nickname_taken other_key : Insert

abbrev pub is_other_image : Option ℕ → ℕ → Bool
is_other_image none image_id = false
is_other_image (some i) image_id = not (i == image_id)

-- the image that a verified token lets a sign-up have
abbrev pub token_image : Option ℕ → Option ℕ → Result (Option ℕ)
token_image asked none = err signup_image_token_invalid
token_image asked (some i) =
    if is_other_image asked i then err signup_image_token_invalid else ok (some i)

abbrev pub claim : Option ℕ → ℕ → Action (Unit {0})
claim none user_id = pure tt
claim (some image_id) user_id = do
  attached ← run (claim_image_ownership image_id user_id)
  raise_if (not attached) signup_image_token_invalid

abbrev pub insert_user :
    Insert → (Text → Text) → ℕ → Text → Text → Text → Option ℕ → ℕ → Action User
insert_user inserted lower user_id email hashed nickname image now =
    run (create_user lower user_id email hashed nickname image now)
insert_user email_taken lower user_id email hashed nickname image now = raise email_already_exists
insert_user nickname_taken lower user_id email hashed nickname image now =
    raise nickname_already_exists
insert_user other_key lower user_id email hashed nickname image now = raise integrity_error

module _ {Store : Type 0} (redis : Redis Store) (image_id_text : ℕ → Text)
    (parse_uuid : Text → Option ℕ) (lower : Text → Text) where
  -- The token is deleted from Redis when it is looked at, whatever becomes of the transaction.
  unfoldable pub check_token :
      Bool → TokenFaults → Option ℕ → Text → Store → Result (Option ℕ) × Store
  check_token connected faults asked token s = if length token == 0 then (ok none, s) else (
    token_image asked
        (verify_upload_token redis image_id_text parse_uuid connected faults token s).0,
    (verify_upload_token redis image_id_text parse_uuid connected faults token s).1,
  )

  -- the transaction once the token is checked
  unfoldable pub join : Insert → ℕ → SignUpRequest → Text → ℕ → Option ℕ → Action (Unit {0})
  join met user_id request hashed now image = do
    created ← insert_user met lower user_id request.email hashed request.nickname image now
    claim image created.id

  unfoldable pub join_with :
      Insert
      → ℕ
      → SignUpRequest
      → Text
      → ℕ
      → Result (Option ℕ) × Store
      → Db
      → Result (Unit {0}) × Db × Store
  join_with met user_id request hashed now (err e, s) d = (err e, d, s)
  join_with met user_id request hashed now (ok image, s) d =
      let (r, d') = transaction (join met user_id request hashed now image) d in (r, d', s)

  -- `hashed` is the hash of the password with its pepper. Nothing is written before the token is
  -- checked, so that the transaction is that of `join_with`.
  unfoldable pub signup :
      Bool
      → TokenFaults
      → Insert
      → ℕ
      → SignUpRequest
      → Text
      → ℕ
      → Db
      → Store
      → Result (Unit {0}) × Db × Store
  signup connected faults met user_id request hashed now d s =
      if not (is_none request.profile_image_id) && length request.signup_token == 0
      then (err missing_required_field, d, s)
      else if email_exists lower request.email d
      then (err email_already_exists, d, s)
      else if nickname_exists request.nickname d
      then (err nickname_already_exists, d, s)
      else join_with met user_id request hashed now
          (check_token connected faults request.profile_image_id request.signup_token s) d

  -- `UserStatus`, the password and the tokens that a login answers
  unfoldable pub check_login : (Text → Text → Bool) → Text → Text → Text → Action User
  check_login verify_password pepper email password = transaction (do
    found ← gets (get_user_by_email lower email)
    user ← or_raise found invalid_credentials
    raise_if (not (is_active_value user.status)) forbidden
    raise_if
        (not (verify_password_with_legacy_fallback verify_password pepper password user.password))
        invalid_credentials
    pure user)

  -- `connected` is False where the client is None; the flags say which of the two SETs raises, and the
  -- first is not caught. `refresh` is the digest of the refresh token that is made for the user.
  unfoldable pub store_login : Bool → Bool → Bool → ℕ → Text → ℕ → Store → Result (Unit {0}) × Store
  store_login connected set_raises status_raises user_id refresh ttl s =
      if not connected || ttl == 0
      then (ok tt, s)
      else if set_raises
      then (err internal_server_error, s)
      else (ok tt, remember_login redis status_raises user_id refresh ttl s)

  unfoldable pub login :
      (Text → Text → Bool)
      → Text
      → Bool
      → Bool
      → Bool
      → Text
      → Text
      → (ℕ → Text)
      → ℕ
      → Db
      → Store
      → Result User × Store
  login verify_password pepper connected set_raises status_raises email password refresh_digest ttl
        d s =
      elim (check_login verify_password pepper email password d).0 [
        | err e ↦ (err e, s)
        | ok user ↦
            let (stored, s') =
              store_login connected set_raises status_raises user.id (refresh_digest user.id) ttl
                s in
            elim stored [ err e ↦ (err e, s') | ok _ ↦ (ok user, s') ]
      ]
