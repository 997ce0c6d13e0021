-- ===== src/Auth/Gate.antt =====
-- app/api/dependencies/auth.py: who a request is from, by its Authorization header; and `suspend_user` and
-- `activate_user` of app/domain/admin/service.py, whose effect these checks see. JWT is a parameter.
use kyjness_community_be.Prelude.{
  ℕ, Bool, true, false, not, ◌||◌, Option, none, some, ◌==◌, is_none, if◌then◌else◌, length, take,
  drop,
}
use kyjness_community_be.Text.{Text, codes, strip, text_eq}
use kyjness_community_be.Ids.{IdResult, jwt_sub_to_uuid}
use kyjness_community_be.Db.Rows.{Db, User, UserStatus, active, suspended}
use kyjness_community_be.Db.Action.{
  Result, ok, err, unauthorized, forbidden, internal_server_error, Action, gets, run, transaction,
  or_raise, raise_if, ◌>>=◌, ◌>>◌, pure, user_not_found, user_withdrawn,
}
use kyjness_community_be.Redis.{Redis, access_blacklist, user_status, Value}
use kyjness_community_be.Users.{
  is_active_value, is_withdrawn_value, get_user_by_id, get_user_by_id_including_deleted,
  update_status,
}
use kyjness_community_be.Auth.{
  is_active_cached, set_user_status_cache_best_effort, revoke_refresh_for_user,
  invalidate_user_status_cache,
}

-- `auth[7:].strip() or None` behind the prefix
abbrev pub bare_token : Text → Option Text
bare_token t = if length t == 0 then none else some t

unfoldable pub bearer_token : Option Text → Option Text
bearer_token none = none
bearer_token (some auth) =
    if text_eq (take 7 auth) (codes "Bearer ") then bare_token (strip (drop 7 auth)) else none

-- what `verify_access_token` finds in a token: the claims `jti` and `sub`, if they are texts
pub record AccessClaims : Type 0 where
  pub jti : Option Text
  pub sub : Option Text

-- whether there is a client of Redis, and which calls of it raise
pub record Reach : Type 0 where
  pub connected : Bool
  pub blacklist_get : Bool
  pub status_get : Bool
  pub status_set : Bool

abbrev pub if_active : User → Option User
if_active user = if is_active_value user.status then some user else none

abbrev pub is_refused : Option Value → Bool
is_refused none = false
is_refused (some cached) = not (is_active_cached cached)

module _ {Store : Type 0} (redis : Redis Store) (verify_access_token : Text → Option AccessClaims)
    (parse_uuid : Text → Option ℕ) where
  -- `_ensure_jti_not_blacklisted`: False for the exception
  unfoldable pub ensure_jti_not_blacklisted : Reach → Text → Store → Bool
  ensure_jti_not_blacklisted reach jti s =
      if not reach.connected || reach.blacklist_get
      then true
      else is_none (redis.get (access_blacklist jti) s)

  unfoldable pub passes_blacklist : Reach → Option Text → Store → Bool
  passes_blacklist reach none s = true
  passes_blacklist reach (some jti) s =
      if length (strip jti) == 0 then true else ensure_jti_not_blacklisted reach (strip jti) s

  -- the user whom the claims of a token name, if the token is not logged out
  unfoldable pub subject : Reach → AccessClaims → Store → Option ℕ
  subject reach claims s =
      if not (passes_blacklist reach claims.jti s) then none else elim claims.sub [
        | none ↦ none
        | some sub ↦ elim (jwt_sub_to_uuid parse_uuid sub) [
          | IdResult.ok u ↦ some u
          | IdResult.err _ ↦ none
        ]
      ]

  -- the user whom a header names
  unfoldable pub claimed_user : Reach → Option Text → Store → Option ℕ
  claimed_user reach header s = elim (bearer_token header) [
    | none ↦ none
    | some token ↦ elim (verify_access_token token) [
      | none ↦ none
      | some claims ↦ subject reach claims s
    ]
  ]

  unfoldable pub get_current_user_optional : Reach → Option Text → Db → Store → Option User
  get_current_user_optional reach header d s = elim (claimed_user reach header s) [
    | none ↦ none
    | some user_id ↦ elim (get_user_by_id user_id d) [ none ↦ none | some user ↦ if_active user ]
  ]

  abbrev pub cached_status : Reach → ℕ → Store → Option Value
  cached_status reach user_id s =
      if not reach.connected || reach.status_get then none else redis.get (user_status user_id) s

  abbrev pub remember_status : Reach → Option Value → User → ℕ → Store → Store
  remember_status reach (some _) user user_id s = s
  remember_status reach none user user_id s =
      if not reach.connected
      then s
      else set_user_status_cache_best_effort redis reach.status_set user_id user.status s

  -- `get_current_user` once the user is named
  unfoldable pub admit : Reach → ℕ → Db → Store → Result User × Store
  admit reach user_id d s =
      if is_refused (cached_status reach user_id s)
      then (err forbidden, s)
      else elim (get_user_by_id user_id d) [
        | none ↦ (err unauthorized, s)
        | some user ↦ (
          if is_active_value user.status then ok user else err forbidden,
          remember_status reach (cached_status reach user_id s) user user_id s,
        )
      ]

  -- Every exception before the user is named answers 401, and nothing is written before it.
  unfoldable pub get_current_user : Reach → Option Text → Db → Store → Result User × Store
  get_current_user reach header d s = elim (claimed_user reach header s) [
    | none ↦ (err unauthorized, s)
    | some user_id ↦ admit reach user_id d s
  ]

  unfoldable pub get_current_admin : Reach → Option Text → Db → Store → Result User × Store
  get_current_admin reach header d s =
      let (r, s') = get_current_user reach header d s in
      elim r [
        | err e ↦ (err e, s')
        | ok user ↦ (if text_eq user.role (codes "ADMIN") then ok user else err forbidden, s')
      ]

-- the transaction of `suspend_user` and `activate_user`
unfoldable pub change_status : ℕ → UserStatus → ℕ → Action (Unit {0})
change_status user_id new_status now = transaction (do
  found ← gets (get_user_by_id_including_deleted user_id)
  user ← or_raise found user_not_found
  raise_if (not (is_none user.deleted_at) || is_withdrawn_value user.status) user_withdrawn
  run (update_status user_id new_status now)
  pure tt)

module _ {Store : Type 0} (redis : Redis Store) where
  -- `connected` is False where the client is None; the flags say which of the two DELs raises. The first
  -- follows the commit and is not caught.
  unfoldable pub suspend_user :
      Bool → Bool → Bool → ℕ → ℕ → Db → Store → Result (Unit {0}) × Db × Store
  suspend_user connected refresh_raises status_raises user_id now d s =
      let (r, d') = change_status user_id suspended now d in
      elim r [
        | err e ↦ (err e, d', s)
        | ok _ ↦
            if not connected
            then (ok tt, d', s)
            else if refresh_raises
            then (err internal_server_error, d', s)
            else (
              ok tt,
              d',
              invalidate_user_status_cache redis status_raises user_id
                  (revoke_refresh_for_user redis user_id s),
            )
      ]

  unfoldable pub activate_user : Bool → ℕ → ℕ → Db → Store → Result (Unit {0}) × Db × Store
  activate_user raises user_id now d s =
      let (r, d') = change_status user_id active now d in
      elim r [
        | err e ↦ (err e, d', s)
        | ok _ ↦ (ok tt, d', invalidate_user_status_cache redis raises user_id s)
      ]
