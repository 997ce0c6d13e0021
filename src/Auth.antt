-- ===== src/Auth.antt =====
-- app/domain/auth: refresh tokens (service.py) and the cache of users' statuses
-- (user_status_cache.py). Redis is a parameter; what becomes of each call of it is an argument.
pub mod Rotation
pub mod Sessions
pub mod Signup
pub mod Joined
pub mod FirstLogin
pub mod Gate
pub mod Access
mod Tests
use kyjness_community_be.Prelude.{
  ℕ, zero, suc, Bool, true, false, not, ◌&&◌, ◌||◌, Option, none, some, if◌then◌else◌, ◌==◌,
  is_none,
}
use kyjness_community_be.Text.{Text, text_eq}
use kyjness_community_be.Ids.{IdResult, jwt_sub_to_uuid}
use kyjness_community_be.Db.Rows.{Db, User, UserStatus, active, suspended, withdrawn}
use kyjness_community_be.Db.Action.{
  Result, ok, err, Error, unauthorized, internal_server_error, forbidden, invalid_credentials,
  user_not_found, user_withdrawn, Action, gets, run, transaction, or_raise, raise_if, ◌>>=◌, ◌>>◌,
}
use kyjness_community_be.Redis.{
  Redis, Key, user_refresh, user_status, access_blacklist, Value, digest, status, logged_out,
  image_ref,
}
use kyjness_community_be.Users.{
  is_active_value, is_withdrawn_value, get_user_by_id, get_user_by_email,
  get_user_by_id_including_deleted, update_status,
}

-- `USER_STATUS_CACHE_TTL_SECONDS`
abbrev pub user_status_cache_ttl_seconds : ℕ
user_status_cache_ttl_seconds = 240

-- `bulk_to_str(raw) == incoming_digest`
abbrev pub is_digest : Text → Option Value → Bool
is_digest incoming none = false
is_digest incoming (some (digest stored)) = text_eq stored incoming
is_digest incoming (some (status _)) = false
is_digest incoming (some logged_out) = false
is_digest incoming (some (image_ref _)) = false

-- `cached == UserStatus.ACTIVE.value`
abbrev pub is_active_cached : Value → Bool
is_active_cached (digest _) = false
is_active_cached (status s) = is_active_value s
is_active_cached logged_out = false
is_active_cached (image_ref _) = false

-- The call of the rotation script: it answers, or it raises, before or after the server has run it.
pub data EvalCall : Type 0 where
  answers raises_before raises_after : EvalCall

-- which calls of Redis raise
pub record Faults : Type 0 where
  pub status_get : Bool
  pub status_set : Bool
  pub digest_get : Bool
  pub digest_set : Bool
  pub eval : EvalCall

-- what `verify_refresh_token` finds in a token: the claim `sub`, if it is a text
pub record Claims : Type 0 where
  pub sub : Option Text

module _ {Store : Type 0} (redis : Redis Store) where
  -- the Lua script `_REFRESH_ROTATE_CAS_LUA`
  unfoldable pub refresh_rotate_cas : Key → Text → Text → ℕ → Store → Bool × Store
  refresh_rotate_cas key incoming new ttl s =
      if is_digest incoming (redis.get key s)
      then (if ttl == 0 then (false, s) else (true, redis.set key (digest new) ttl s))
      else (false, s)

  unfoldable pub refresh_rotation_sequential : Faults → Key → Text → Text → ℕ → Store → Bool × Store
  refresh_rotation_sequential faults key incoming new ttl s =
      if faults.digest_get
      then (false, s)
      else if not (is_digest incoming (redis.get key s))
      then (false, s)
      else if faults.digest_set
      then (false, s)
      else (true, redis.set key (digest new) ttl s)

  unfoldable pub by_eval : EvalCall → Faults → Key → Text → Text → ℕ → Store → Bool × Store
  by_eval answers faults key incoming new ttl s = refresh_rotate_cas key incoming new ttl s
  by_eval raises_before faults key incoming new ttl s =
      refresh_rotation_sequential faults key incoming new ttl s
  by_eval raises_after faults key incoming new ttl s =
      refresh_rotation_sequential faults key incoming new ttl
        (refresh_rotate_cas key incoming new ttl s).1

  -- `_try_refresh_rotation_redis`
  unfoldable pub try_refresh_rotation : Faults → ℕ → Text → Text → ℕ → Store → Bool × Store
  try_refresh_rotation faults user_id incoming new ttl s =
      if ttl == 0
      then (not faults.digest_get && is_digest incoming (redis.get (user_refresh user_id) s), s)
      else by_eval faults.eval faults (user_refresh user_id) incoming new ttl s

  -- `_ensure_user_may_refresh`: a cached status decides; otherwise the database does, and fills the
  -- cache.
  unfoldable pub may_refresh_cached :
      Option Value → Faults → ℕ → Db → Store → Result (Unit {0}) × Store
  may_refresh_cached (some cached) faults user_id d s =
      if is_active_cached cached then (ok tt, s) else (err unauthorized, s)
  may_refresh_cached none faults user_id d s = elim (get_user_by_id user_id d) [
    | none ↦ (err unauthorized, s)
    | some user ↦ (
      if is_active_value user.status then ok tt else err unauthorized,
      if faults.status_set
          then s
          else redis.set (user_status user_id) (status user.status) user_status_cache_ttl_seconds s,
    )
  ]

  unfoldable pub ensure_user_may_refresh : Faults → ℕ → Db → Store → Result (Unit {0}) × Store
  ensure_user_may_refresh faults user_id d s =
      may_refresh_cached (if faults.status_get then none else redis.get (user_status user_id) s)
        faults user_id d s

  unfoldable pub revoke_refresh_for_user : ℕ → Store → Store
  revoke_refresh_for_user user_id s = redis.delete (user_refresh user_id) s

  -- `invalidate_user_status_cache`; a DEL that raises is passed over.
  unfoldable pub invalidate_user_status_cache : Bool → ℕ → Store → Store
  invalidate_user_status_cache raises user_id s =
      if raises then s else redis.delete (user_status user_id) s

  unfoldable pub set_user_status_cache_best_effort : Bool → ℕ → UserStatus → Store → Store
  set_user_status_cache_best_effort raises user_id value s =
      if raises
      then s
      else redis.set (user_status user_id) (status value) user_status_cache_ttl_seconds s

  -- what a login writes into Redis: `refresh` is the digest of the new refresh token
  unfoldable pub remember_login : Bool → ℕ → Text → ℕ → Store → Store
  remember_login raises user_id refresh ttl s =
      if ttl == 0
      then s
      else set_user_status_cache_best_effort raises user_id active
          (redis.set (user_refresh user_id) (digest refresh) ttl s)

  -- `logout`, with a client: `ttl` is what remains of the access token, `jti` its stripped id.
  unfoldable pub logout : ℕ → Option Text → ℕ → Store → Store
  logout user_id none ttl s = redis.delete (user_refresh user_id) s
  logout user_id (some jti) ttl s =
      redis.delete (user_refresh user_id)
        (if ttl == 0 then s else redis.set (access_blacklist jti) logged_out ttl s)

  -- the functions of app/core/security.py that stand on JWT and SHA-256, and `UUID(s)`
  module _ (verify_refresh_token : Text → Option Claims) (refresh_token_digest : Text → Text)
      (parse_uuid : Text → Option ℕ) where
    -- `refresh_tokens` once the user is known; `new` is the token that `create_refresh_token` makes.
    unfoldable pub refresh_for_user :
        Faults → ℕ → Text → Text → Db → ℕ → Store → Result Text × Store
    refresh_for_user faults user_id token new d ttl s =
        let (may, s1) = ensure_user_may_refresh faults user_id d s in
        let (rotated, s2) =
          try_refresh_rotation faults user_id (refresh_token_digest token)
            (refresh_token_digest new) ttl s1 in
        elim may [ err e ↦ (err e, s1) | ok _ ↦ (if rotated then ok new else err unauthorized, s2) ]

    -- the user that the claims of a token name
    unfoldable pub user_of_claims : Claims → Option ℕ
    user_of_claims claims = elim claims.sub [
      | none ↦ none
      | some sub ↦ elim (jwt_sub_to_uuid parse_uuid sub) [
        | IdResult.ok u ↦ some u
        | IdResult.err _ ↦ none
      ]
    ]

    -- A token that does not verify raises an exception of the JWT library, which no handler knows: the
    -- general one answers it as an internal error.
    unfoldable pub refresh_tokens :
        Faults → Option Text → Text → Db → ℕ → Store → Result Text × Store
    refresh_tokens faults none new d ttl s = (err unauthorized, s)
    refresh_tokens faults (some token) new d ttl s = elim (verify_refresh_token token) [
      | none ↦ (err internal_server_error, s)
      | some claims ↦ elim (user_of_claims claims) [
        | none ↦ (err unauthorized, s)
        | some user_id ↦ refresh_for_user faults user_id token new d ttl s
      ]
    ]
