-- ===== src/Auth/Sessions.antt =====
-- app/domain/auth/service.py: what a refresh answers after a refresh, a login, a logout and a change of
-- the user's status.
use kyjness_community_be.Prelude.{
  ℕ, ◌<◌, ◌≡◌, ◌≢◌, refl, ap, ◌∙◌, true, false, Option, none, some, if◌then◌else◌, arith,
  Bool-split, Option-cases, ◌⊎◌, inl, inr,
}
use kyjness_community_be.Text.{Text, text_eq, text_eq_refl}
use kyjness_community_be.Db.Rows.{Db, User, active}
use kyjness_community_be.Db.Action.{Result, ok, err, unauthorized}
use kyjness_community_be.Redis.{Redis, user_refresh, user_status, Value, digest, status}
use kyjness_community_be.Users.{is_active_value, get_user_by_id}
use kyjness_community_be.Auth.{
  answers, Faults, Claims, is_digest, refresh_rotate_cas, by_eval, try_refresh_rotation,
  may_refresh_cached, ensure_user_may_refresh, refresh_for_user, revoke_refresh_for_user, logout,
  remember_login, set_user_status_cache_best_effort, user_status_cache_ttl_seconds,
}
use kyjness_community_be.Auth.Rotation.{IsStale, stale_refused, rotated_once}

-- no call raises
abbrev pub quiet : Faults
quiet = record {
  status_get = false;
  status_set = false;
  digest_get = false;
  digest_set = false;
  eval = answers;
}

module _ {Store : Type 0} (redis : Redis Store) (verify_refresh_token : Text → Option Claims)
    (refresh_token_digest : Text → Text) (parse_uuid : Text → Option ℕ) (user_id : ℕ) (d : Db) where
  abbrev pub refresh : Faults → Text → Text → ℕ → Store → Result Text × Store
  refresh faults token new ttl s =
      refresh_for_user redis verify_refresh_token refresh_token_digest parse_uuid faults user_id
        token new d ttl s

  abbrev pub IsSpent : Text → Store → Type 0
  IsSpent token s = IsStale redis user_id (refresh_token_digest token) s

  status_key : user_refresh user_id ≢ user_status user_id
  status_key e = ground arith

  -- the check of the status writes its own key only
  cached_keeps :
      (cached : Option Value) (faults : Faults) (s : Store)
      → redis.get (user_refresh user_id) (may_refresh_cached redis cached faults user_id d s).1
        ≡ redis.get (user_refresh user_id) s
  unfolding may_refresh_cached
  cached_keeps (some cached) faults s = ground arith
  cached_keeps none faults s = elim (Option-cases (get_user_by_id user_id d)) [
    | inl absent ↦ ground arith
    | inr (u, found) ↦
        let kept =
          redis.get-set_ne (user_refresh user_id) (user_status user_id) (status u.status)
            user_status_cache_ttl_seconds s status_key in
        ground arith
  ]

  ensure_keeps :
      (faults : Faults) (s : Store)
      → redis.get (user_refresh user_id) (ensure_user_may_refresh redis faults user_id d s).1
        ≡ redis.get (user_refresh user_id) s
  unfolding ensure_user_may_refresh
  ensure_keeps faults s =
      cached_keeps (if faults.status_get then none else redis.get (user_status user_id) s) faults s

  cached_answer :
      (cached : Option Value) (faults : Faults) (s : Store)
      → let r = (may_refresh_cached redis cached faults user_id d s).0 in
        (r ≡ ok tt) ⊎ (r ≡ err unauthorized)
  unfolding may_refresh_cached
  cached_answer (some cached) faults s = ground arith
  cached_answer none faults s = elim (Option-cases (get_user_by_id user_id d)) [
    | inl absent ↦ ground arith
    | inr (u, found) ↦ ground arith
  ]

  ensure_answer :
      (faults : Faults) (s : Store)
      → let r = (ensure_user_may_refresh redis faults user_id d s).0 in
        (r ≡ ok tt) ⊎ (r ≡ err unauthorized)
  unfolding ensure_user_may_refresh
  ensure_answer faults s =
      cached_answer (if faults.status_get then none else redis.get (user_status user_id) s) faults s

  -- A token whose digest is not the stored one is refused, whichever calls raise.
  pub spent_refused :
      (faults : Faults) (token new : Text) (ttl : ℕ) (s : Store)
      → IsSpent token s
      → (refresh faults token new ttl s).0 ≡ err unauthorized
  unfolding refresh_for_user
  spent_refused faults token new ttl s spent =
      let s1 = (ensure_user_may_refresh redis faults user_id d s).1 in
      let refused =
        stale_refused redis user_id faults (refresh_token_digest token) (refresh_token_digest new)
          ttl s1 (ap (is_digest (refresh_token_digest token)) (ensure_keeps faults s) ∙ spent) in
      elim (ensure_answer faults s) [ inl may ↦ ground arith | inr may_not ↦ ground arith ]

  spends :
      (faults : Faults) (token new : Text) (ttl : ℕ) (s : Store)
      → 0 < ttl
      → text_eq (refresh_token_digest new) (refresh_token_digest token) ≡ false
      → (refresh faults token new ttl s).0 ≡ ok new
      → IsSpent token (refresh faults token new ttl s).1
  unfolding refresh_for_user
  spends faults token new ttl s pos other done =
      let s1 = (ensure_user_may_refresh redis faults user_id d s).1 in
      let once =
        rotated_once redis user_id faults (refresh_token_digest token) (refresh_token_digest new)
          ttl s1 pos other in
      elim (ensure_answer faults s) [
        | inl may ↦
            Bool-split
              (try_refresh_rotation redis faults user_id (refresh_token_digest token)
                (refresh_token_digest new) ttl s1).0
              (λ rotated. let spent = once rotated in ground arith) (λ kept. ground arith)
        | inr may_not ↦ ground arith
      ]

  -- A refresh token works once: after a refresh has succeeded with it, and with a lifetime for what it
  -- stores, no refresh with the same token succeeds, whichever calls of Redis raise in either.
  pub refresh_once :
      (faults faults' : Faults) (token new new' : Text) (ttl ttl' : ℕ) (s : Store)
      → 0 < ttl
      → text_eq (refresh_token_digest new) (refresh_token_digest token) ≡ false
      → (refresh faults token new ttl s).0 ≡ ok new
      → (refresh faults' token new' ttl' (refresh faults token new ttl s).1).0 ≡ err unauthorized
  refresh_once faults faults' token new new' ttl ttl' s pos other done =
      spent_refused faults' token new' ttl' (refresh faults token new ttl s).1
        (spends faults token new ttl s pos other done)

  -- After a logout no refresh token of the user is accepted, whichever calls of Redis raise.
  pub refresh_after_logout :
      (faults : Faults) (token new : Text) (jti : Option Text) (left ttl : ℕ) (s : Store)
      → (refresh faults token new ttl (logout redis user_id jti left s)).0 ≡ err unauthorized
  unfolding logout
  refresh_after_logout faults token new jti left ttl s =
      spent_refused faults token new ttl (logout redis user_id jti left s) (logged_off jti)
    where
      gone : (s : Store) → IsSpent token (redis.delete (user_refresh user_id) s)
      gone s = rw (redis.get-delete_self (user_refresh user_id) s) refl

      logged_off : (jti : Option Text) → IsSpent token (logout redis user_id jti left s)
      logged_off none = gone s
      logged_off (some j) = gone _

  -- After a revocation no refresh token of the user is accepted, whichever calls of Redis raise.
  pub refresh_after_revocation :
      (faults : Faults) (token new : Text) (ttl : ℕ) (s : Store)
      → (refresh faults token new ttl (revoke_refresh_for_user redis user_id s)).0
        ≡ err unauthorized
  unfolding revoke_refresh_for_user
  refresh_after_revocation faults token new ttl s =
      spent_refused faults token new ttl (revoke_refresh_for_user redis user_id s)
        (rw (redis.get-delete_self (user_refresh user_id) s) refl)

  -- A refresh with the token of a login succeeds, if no call raises.
  pub login_then_refresh :
      (token new : Text) (ttl : ℕ) (s : Store)
      → 0 < ttl
      → let s' = remember_login redis false user_id (refresh_token_digest token) ttl s in
        (refresh quiet token new ttl s').0 ≡ ok new
  unfolding refresh_for_user ensure_user_may_refresh may_refresh_cached try_refresh_rotation by_eval
      refresh_rotate_cas remember_login set_user_status_cache_best_effort
  login_then_refresh token new ttl s pos =
      let s0 = redis.set (user_refresh user_id) (digest (refresh_token_digest token)) ttl s in
      let stored =
        redis.get-set_self (user_refresh user_id) (digest (refresh_token_digest token)) ttl s pos in
      let kept =
        redis.get-set_ne (user_refresh user_id) (user_status user_id) (status active)
          user_status_cache_ttl_seconds s0 status_key in
      let known =
        redis.get-set_self (user_status user_id) (status active) user_status_cache_ttl_seconds s0
          (ground arith) in
      let same = text_eq_refl (refresh_token_digest token) in ground arith

  -- With no cached status, or no answer about it, a user whom the database does not know as active is
  -- refused, and the stored token stays as it was.
  pub inactive_refused :
      (faults : Faults) (token new : Text) (ttl : ℕ) (s : Store) (u : User)
      → (faults.status_get ≡ true) ⊎ (redis.get (user_status user_id) s ≡ none)
      → get_user_by_id user_id d ≡ some u
      → is_active_value u.status ≡ false
      → let (r, s') = refresh faults token new ttl s in
        (r ≡ err unauthorized)
        × (redis.get (user_refresh user_id) s' ≡ redis.get (user_refresh user_id) s)
  unfolding refresh_for_user ensure_user_may_refresh may_refresh_cached
  inactive_refused faults token new ttl s u uncached found inactive =
      let kept =
        redis.get-set_ne (user_refresh user_id) (user_status user_id) (status u.status)
          user_status_cache_ttl_seconds s status_key in
      elim uncached [ inl fails ↦ ground arith | inr missing ↦ ground arith ]
