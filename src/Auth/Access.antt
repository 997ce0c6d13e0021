-- ===== src/Auth/Access.antt =====
-- app/api/dependencies/auth.py: whom the two checks of a request let in, after a logout and after a
-- suspension too.
use mathlib.Core.Path.{subst}
use kyjness_community_be.Prelude.{
  ℕ, ◌<◌, ◌≡◌, refl, sym, Bool, true, false, Option, none, some, List, [], ◌∷◌, ◌==◌, is_none,
  if◌then◌else◌, length, any_of, All, arith, Bool-split, Option-cases, inl, inr,
}
use kyjness_community_be.Text.{Text, strip}
use kyjness_community_be.Db.Rows.{Db, User, suspended}
use kyjness_community_be.Db.Sql.{update_where, one_or_none}
use kyjness_community_be.Db.Found.{
  one_or_none-any_of, one_or_none_there, one_or_none-All, one_or_none-test,
}
use kyjness_community_be.Db.Action.{Result, Result-cases, ok, err, unauthorized, forbidden}
use kyjness_community_be.Redis.{Redis, access_blacklist, user_refresh, user_status, logged_out}
use kyjness_community_be.Users.{
  is_user, get_user_by_id, get_user_by_id_including_deleted, update_status,
}
use kyjness_community_be.Auth.{
  Faults, Claims, logout, refresh_for_user, revoke_refresh_for_user, invalidate_user_status_cache,
}
use kyjness_community_be.Auth.Sessions.{spent_refused}
use kyjness_community_be.Auth.Gate.{
  bearer_token, AccessClaims, Reach, ensure_jti_not_blacklisted, passes_blacklist, subject,
  claimed_user, get_current_user_optional, cached_status, is_refused, admit, get_current_user,
  change_status, suspend_user,
}

abbrev pub admitted : Result User → Option User
admitted (ok u) = some u
admitted (err _) = none

module _ {Store : Type 0} (redis : Redis Store) (verify_access_token : Text → Option AccessClaims)
    (parse_uuid : Text → Option ℕ) (reach : Reach) (header : Option Text) where
  abbrev pub named : Store → Option ℕ
  named s = claimed_user redis verify_access_token parse_uuid reach header s

  abbrev pub required : Db → Store → Result User
  required d s = (get_current_user redis verify_access_token parse_uuid reach header d s).0

  abbrev pub optional : Db → Store → Option User
  optional d s = get_current_user_optional redis verify_access_token parse_uuid reach header d s

  -- The check that demands a user lets in no one whom the check that does not demand one would not see.
  -- The two agree but for a cached status of the named user that is not active.
  pub optional_lem :
      (d : Db) (s : Store)
      → ((u : User) → required d s ≡ ok u → optional d s ≡ some u)
        × (((i : ℕ)
              → named s ≡ some i
              → is_refused (cached_status redis verify_access_token parse_uuid reach i s) ≡ false)
            → optional d s ≡ admitted (required d s))
  unfolding get_current_user get_current_user_optional admit
  optional_lem d s = elim (Option-cases (named s)) [
    | inl nobody ↦ (λ u e. ground arith, λ h. ground arith)
    | inr (i, is_i) ↦ elim (Option-cases (get_user_by_id i d)) [
      | inl absent ↦ (λ u e. ground arith, λ h. let fine = h i is_i in ground arith)
      | inr (user, found) ↦ (λ u e. ground arith, λ h. let fine = h i is_i in ground arith)
    ]
  ]

  -- After a logout with an access token that has a lifetime left, and where the blacklist answers, that
  -- token lets no one in, whoever the user is.
  pub logged_out_refused :
      (token jti : Text) (claims : AccessClaims) (user_id ttl : ℕ) (d : Db) (s : Store)
      → bearer_token header ≡ some token
      → verify_access_token token ≡ some claims
      → claims.jti ≡ some jti
      → (length (strip jti) == 0) ≡ false
      → 0 < ttl
      → (reach.connected ≡ true) × (reach.blacklist_get ≡ false)
      → let s' = logout redis user_id (some (strip jti)) ttl s in
        (required d s' ≡ err unauthorized) × (optional d s' ≡ none)
  unfolding get_current_user get_current_user_optional claimed_user subject passes_blacklist
      ensure_jti_not_blacklisted logout
  logged_out_refused token jti claims user_id ttl d s bearer verified has_jti full pos
        (on, answers) =
      let j = strip jti in
      let s1 = redis.set (access_blacklist j) logged_out ttl s in
      let stored = redis.get-set_self (access_blacklist j) logged_out ttl s pos in
      let kept =
        redis.get-delete_ne (access_blacklist j) (user_refresh user_id) s1 (λ e. ground arith) in
      (ground arith, ground arith)

all_suspended :
    (user_id now : ℕ) (users : List User)
    → All
        (λ u. is_user user_id u ≡ true → u.status ≡ suspended)
        (update_where
          (is_user user_id)
          (λ u. record u { status = suspended; updated_at = now })
          users)
unfolding update_where
all_suspended user_id now [] = tt
all_suspended user_id now (u ∷ users) =
    (by_test (is_user user_id u) refl, all_suspended user_id now users)
  where
    set : User → User
    set u = record u { status = suspended; updated_at = now }

    by_test :
        (b : Bool)
        → is_user user_id u ≡ b
        → is_user user_id (if b then set u else u) ≡ true
        → (if b then set u else u).status ≡ suspended
    by_test true e it = refl
    by_test false e it = ground arith

still_user :
    (user_id now : ℕ) (users : List User)
    → any_of (is_user user_id) users ≡ true
    → any_of (is_user user_id) (
        update_where
          (is_user user_id)
          (λ u. record u { status = suspended; updated_at = now })
          users)
      ≡ true
unfolding update_where
still_user user_id now [] e = ground arith
still_user user_id now (u ∷ users) e = ground (arith, still_user user_id now users)

-- a suspension that goes through leaves a user of the id, who is suspended
now_suspended :
    (user_id now : ℕ) (d d' : Db)
    → change_status user_id suspended now d ≡ (ok tt, d')
    → (u : User) × (get_user_by_id user_id d' ≡ some u) × (u.status ≡ suspended)
unfolding change_status update_status get_user_by_id get_user_by_id_including_deleted
now_suspended user_id now d d' done =
    elim (Option-cases (one_or_none (λ u. u.id == user_id) d.users)) [
      | inl absent ↦ ground arith
      | inr (u, found) ↦
          let same_id = one_or_none-test (λ (x : User). x.id == user_id) d.users u found in
          Bool-split (is_none u.deleted_at)
            (λ here.
              let users =
                update_where (is_user user_id)
                  (λ x. record x { status = suspended; updated_at = now }) d.users in
              let there =
                one_or_none-any_of (λ x. x.id == user_id) (is_user user_id) d.users u found
                  (ground arith) in
              let (r, first, it) =
                one_or_none_there (is_user user_id) users (still_user user_id now d.users there) in
              let (is_suspended, _) =
                one_or_none-All (λ x. is_user user_id x ≡ true → x.status ≡ suspended)
                  (is_user user_id) users r (all_suspended user_id now d.users) first in
              let rows : d' ≡ record d { users = users } = ground arith in
              (
                r,
                subst (λ e. one_or_none (is_user user_id) e.users ≡ some r) (sym rows) first,
                is_suspended it,
              ))
            (λ gone. ground arith)
    ]

module _ {Store : Type 0} (redis : Redis Store) (user_id now : ℕ) (d d' : Db) (s s' : Store)
    (refresh_raises status_raises : Bool)
    (done : suspend_user redis true refresh_raises status_raises user_id now d s
      ≡ (ok tt, d', s')) where
  stored :
      (change_status user_id suspended now d ≡ (ok tt, d'))
      × (s'
          ≡ invalidate_user_status_cache redis status_raises user_id
              (revoke_refresh_for_user redis user_id s))
  unfolding suspend_user
  stored = elim (Result-cases (change_status user_id suspended now d).0) [
    | inl (t, changed) ↦
        Bool-split refresh_raises (λ raised. (ground arith, ground arith))
          (λ deleted. (ground arith, ground arith))
    | inr (e, refused) ↦ (ground arith, ground arith)
  ]

  no_refresh : redis.get (user_refresh user_id) s' ≡ none
  unfolding invalidate_user_status_cache revoke_refresh_for_user
  no_refresh =
      let s1 = redis.delete (user_refresh user_id) s in
      let revoked = redis.get-delete_self (user_refresh user_id) s in
      let kept =
        redis.get-delete_ne (user_refresh user_id) (user_status user_id) s1 (λ e. ground arith) in
      let is = stored.1 in ground arith

  -- A suspension with a client of Redis that answers without an exception takes effect at once, whether or
  -- not it could delete the cached status: a request with a token of the user is forbidden, or not seen as
  -- the user's where no user is demanded, and no refresh token of the user is accepted, whichever calls of
  -- Redis these later requests find raising.
  pub suspend_user_lem :
      (verify_access_token : Text → Option AccessClaims) (parse_uuid : Text → Option ℕ)
      (reach : Reach) (header : Option Text)
      → named redis verify_access_token parse_uuid reach header s' ≡ some user_id
      → (verify_refresh_token : Text → Option Claims) (refresh_token_digest : Text → Text)
        (faults : Faults) (token new : Text) (ttl : ℕ)
      → (required redis verify_access_token parse_uuid reach header d' s' ≡ err forbidden)
        × (optional redis verify_access_token parse_uuid reach header d' s' ≡ none)
        × ((refresh_for_user redis verify_refresh_token refresh_token_digest parse_uuid faults
              user_id token new d' ttl s').0
            ≡ err unauthorized)
  unfolding get_current_user get_current_user_optional admit
  suspend_user_lem verify_access_token parse_uuid reach header is_named verify_refresh_token
        refresh_token_digest faults token new ttl =
      let (changed, is) = stored in
      let (u, found, is_suspended) = now_suspended user_id now d d' changed in
      (
        ground arith,
        ground arith,
        spent_refused redis verify_refresh_token refresh_token_digest parse_uuid user_id d' faults
            token new ttl s' (rw no_refresh refl),
      )
