-- ===== src/Auth/Tests.antt =====
-- A Redis that is a function, and the theorems on refresh tokens at it.
use kyjness_community_be.Prelude.{
  ℕ, ◌≡◌, refl, ap, true, false, Option, none, some, [], ◌∷◌, arith, length, ◌==◌,
}
use kyjness_community_be.Text.{Text, codes, text_eq, text_eq_refl, strip, is_space, drop_while}
use kyjness_community_be.Ids.{
  jwt_sub_to_uuid, id_of_stripped, base62_to_uuid, decode_stripped, decode, base62_index,
}
use kyjness_community_be.Db.Rows.{Db, User, active}
use kyjness_community_be.Db.Empty.{no_rows}
use kyjness_community_be.Db.Sql.{one_or_none}
use kyjness_community_be.Db.Action.{Result, ok, err, unauthorized, forbidden}
use kyjness_community_be.Redis.{user_refresh, digest}
use kyjness_community_be.Redis.Memory.{Store, memory}
use kyjness_community_be.Users.{
  get_user_by_id_including_deleted, update_status, email_exists, nickname_exists,
}
use kyjness_community_be.Users.Keys.{IsUnique}
use kyjness_community_be.Users.Service.{password_with_pepper}
use kyjness_community_be.Media.Tokens.{TokenFaults}
use kyjness_community_be.Auth.{
  Faults, Claims, raises_after, refresh_for_user, logout, remember_login,
}
use kyjness_community_be.Auth.Sessions.{refresh_once, login_then_refresh, quiet}
use kyjness_community_be.Auth.Signup.{SignUpRequest, inserted, signup, login}
use kyjness_community_be.Auth.Joined.{IsJoined, signup_lem}
use kyjness_community_be.Auth.FirstLogin.{login_after_signup}
use kyjness_community_be.Auth.Gate.{
  bearer_token, AccessClaims, Reach, passes_blacklist, subject, claimed_user, is_refused,
  cached_status, change_status, suspend_user,
}
use kyjness_community_be.Auth.Access.{
  admitted, named, required, optional, optional_lem, logged_out_refused, suspend_user_lem,
}

-- every token says that it is user 10's, and its digest is the token itself
abbrev verify : Text → Option Claims
verify token = some (record { sub = some (codes "A") })

abbrev digest_of : Text → Text
digest_of token = token

abbrev parse_uuid : Text → Option ℕ
parse_uuid s = none

abbrev dog_owner : User
dog_owner = record {
  id = 10;
  version = 1;
  email = codes "a@b.c";
  password = codes "hash";
  nickname = codes "mong";
  profile_image_id = none;
  role = codes "USER";
  status = active;
  created_at = 1;
  updated_at = 1;
  deleted_at = none;
}

abbrev accounts : Db
accounts = record no_rows { users = dog_owner ∷ [] }

abbrev empty : Store
empty k = none

-- after a login with the token "t1"
abbrev logged_in : Store
logged_in = remember_login memory false 10 (codes "t1") 60 empty

abbrev refresh : Faults → Text → Text → Store → Result Text × Store
refresh faults token new s =
    refresh_for_user memory verify digest_of parse_uuid faults 10 token new accounts 60 s

different : text_eq (codes "t2") (codes "t1") ≡ false
unfolding text_eq
different = refl

-- the second attempt comes while the script's answer is lost
abbrev lost_answer : Faults
lost_answer = record {
  status_get = false;
  status_set = false;
  digest_get = false;
  digest_set = false;
  eval = raises_after;
}

first_refresh : (refresh quiet (codes "t1") (codes "t2") logged_in).0 ≡ ok (codes "t2")
first_refresh =
    login_then_refresh memory verify digest_of parse_uuid 10 accounts (codes "t1") (codes "t2") 60
      empty (ground arith)

refresh_once_example :
    (refresh lost_answer
      (codes "t1")
      (codes "t3")
      (refresh quiet (codes "t1") (codes "t2") logged_in).1).0
    ≡ err unauthorized
refresh_once_example =
    refresh_once memory verify digest_of parse_uuid 10 accounts quiet lost_answer (codes "t1")
      (codes "t2") (codes "t3") 60 60 logged_in (ground arith) different first_refresh

-- a newcomer without a picture, whose password is its own hash
abbrev newcomer : SignUpRequest
newcomer = record {
  email = codes "c@d.e";
  password = codes "secret";
  nickname = codes "coco";
  profile_image_id = none;
  signup_token = [];
}

abbrev id_text : ℕ → Text
id_text i = []

abbrev calls : TokenFaults
calls = record { get = false; delete = false }

abbrev joined : Result (Unit {0}) × Db × Store
joined =
    signup memory id_text parse_uuid (λ t. t) true calls inserted 20 newcomer (codes "secret") 5
      accounts empty

signup_lem_example :
    IsJoined memory id_text parse_uuid (λ t. t) newcomer 20 (codes "secret") accounts empty joined
signup_lem_example =
    signup_lem memory id_text parse_uuid (λ t. t) true calls newcomer 20 (codes "secret") 5 inserted
      accounts empty

email_free : email_exists (λ t. t) (codes "c@d.e") accounts ≡ false
unfolding email_exists text_eq
email_free = refl

nickname_free : nickname_exists (codes "coco") accounts ≡ false
unfolding nickname_exists text_eq
nickname_free = refl

one_user : IsUnique accounts.users
one_user = ((λ t. ground arith), λ t. ground arith)

login_after_signup_example :
    (d' : Db) × (s' : Store) × (signup memory id_text parse_uuid
        (λ t. t)
        true
        calls
        inserted
        20
        newcomer
        (codes "secret")
        5
        accounts
        empty
      ≡ (ok tt, d', s'))
    × (u : User) × (s2 : Store) × (u.id ≡ 20)
    × (login memory id_text parse_uuid
          (λ t. t)
          text_eq
          []
          true
          false
          false
          (codes "c@d.e")
          (codes "secret")
          (λ i. codes "digest")
          60
          d'
          s'
        ≡ (ok u, s2))
    × (memory.get (user_refresh 20) s2 ≡ some (digest (codes "digest")))
unfolding password_with_pepper
login_after_signup_example =
    login_after_signup memory id_text parse_uuid (λ t. t) true calls newcomer 20 (codes "secret") 5
      text_eq (λ t. t) [] text_eq_refl accounts empty one_user refl refl refl email_free
      nickname_free (λ i. codes "digest") 60 (ground arith)

abbrev reach : Reach
reach = record { connected = true; blacklist_get = false; status_get = false; status_set = false }

abbrev header : Option Text
header = some (codes "Bearer t")

-- every access token is user 10's, with the id that is given
abbrev access : Option Text → Text → Option AccessClaims
access jti token = some (record { jti = jti; sub = some (codes "A") })

optional_lem_example :
    ((u : User)
      → required memory (access none) parse_uuid reach header accounts empty ≡ ok u
      → optional memory (access none) parse_uuid reach header accounts empty ≡ some u)
    × (((i : ℕ)
          → named memory (access none) parse_uuid reach header empty ≡ some i
          → is_refused (cached_status memory (access none) parse_uuid reach i empty) ≡ false)
        → optional memory (access none) parse_uuid reach header accounts empty
          ≡ admitted (required memory (access none) parse_uuid reach header accounts empty))
optional_lem_example = optional_lem memory (access none) parse_uuid reach header accounts empty

bearer : bearer_token header ≡ some (codes "t")
unfolding bearer_token strip is_space drop_while text_eq
bearer = refl

jti_full : (length (strip (codes "j")) == 0) ≡ false
unfolding strip is_space drop_while
jti_full = refl

logged_out_refused_example :
    let s' = logout memory 10 (some (strip (codes "j"))) 60 logged_in in
    (required memory (access (some (codes "j"))) parse_uuid reach header accounts s'
      ≡ err unauthorized)
    × (optional memory (access (some (codes "j"))) parse_uuid reach header accounts s' ≡ none)
logged_out_refused_example =
    logged_out_refused memory (access (some (codes "j"))) parse_uuid reach header (codes "t")
      (codes "j") (record { jti = some (codes "j"); sub = some (codes "A") }) 10 60 accounts
      logged_in bearer refl refl jti_full (ground arith) (refl, refl)

-- a suspension during which the cached status cannot be deleted
abbrev suspension : Result (Unit {0}) × Db × Store
suspension = suspend_user memory true false true 10 9 accounts logged_in

suspended_ok : suspension.0 ≡ ok tt
unfolding suspend_user change_status get_user_by_id_including_deleted one_or_none update_status
suspended_ok = refl

named_owner : named memory (access none) parse_uuid reach header suspension.2 ≡ some 10
unfolding claimed_user subject passes_blacklist bearer_token strip is_space drop_while text_eq
    jwt_sub_to_uuid id_of_stripped base62_to_uuid decode_stripped decode base62_index
named_owner = refl

suspend_user_lem_example :
    (required memory (access none) parse_uuid reach header suspension.1 suspension.2
      ≡ err forbidden)
    × (optional memory (access none) parse_uuid reach header suspension.1 suspension.2 ≡ none)
    × ((refresh_for_user memory verify digest_of parse_uuid quiet 10
          (codes "t1")
          (codes "t2")
          suspension.1
          60
          suspension.2).0
        ≡ err unauthorized)
suspend_user_lem_example =
    suspend_user_lem memory 10 9 accounts suspension.1 logged_in suspension.2 false true
      (ap (λ r. (r, suspension.1, suspension.2)) suspended_ok) (access none) parse_uuid reach header
      named_owner verify digest_of quiet (codes "t1") (codes "t2") 60
