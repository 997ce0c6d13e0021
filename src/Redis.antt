-- ===== src/Redis.antt =====
-- What the code relies on of Redis (app/infra/redis.py reaches a server): keys hold values, SET writes
-- one key, DEL removes one key. The keys are those that the modelled code builds from its prefixes.
pub mod Memory
use kyjness_community_be.Prelude.{ℕ, ◌≡◌, ◌≢◌, Option, none, some, ◌<◌}
use kyjness_community_be.Text.{Text}
use kyjness_community_be.Db.Rows.{UserStatus}

-- `user_refresh:{user_id}`, `user:status:{user_id}`, the blacklist key of an access token's `jti`, and
-- `upload_token:{token}`
pub data Key : Type 0 where
  user_refresh : ℕ → Key
  user_status : ℕ → Key
  access_blacklist upload_token : Text → Key

pub data Value : Type 0 where
  digest : Text → Value
  status : UserStatus → Value
  logged_out : Value
  image_ref : Text → Value

-- A server whose state is a `Store`. The expiry of keys is left out. SET with a lifetime of 0 is
-- refused by Redis, so the law of SET asks for a positive one.
pub record Redis (Store : Type 0) : Type 0 where
  pub get : Key → Store → Option Value
  pub set : Key → Value → ℕ → Store → Store
  pub delete : Key → Store → Store
  pub get-set_self :
      (k : Key) (v : Value) (ttl : ℕ) (s : Store) → 0 < ttl → get k (set k v ttl s) ≡ some v
  pub get-set_ne :
      (k k' : Key) (v : Value) (ttl : ℕ) (s : Store) → k ≢ k' → get k (set k' v ttl s) ≡ get k s
  pub get-delete_self : (k : Key) (s : Store) → get k (delete k s) ≡ none
  pub get-delete_ne : (k k' : Key) (s : Store) → k ≢ k' → get k (delete k' s) ≡ get k s
