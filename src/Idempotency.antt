-- ===== src/Idempotency.antt =====
-- app/api/dependencies/client.py: the key X-Idempotency-Key, and the route POST /posts of
-- app/domain/posts/routers/post_router.py that uses it. Redis, SHA-256 and the JSON of a response are
-- parameters; what becomes of each call of Redis is an argument.
pub mod Retry
mod Tests
use kyjness_community_be.Prelude.{
  ℕ, ◌≡◌, ◌≢◌, ◌<◌, Bool, true, false, not, ◌||◌, Option, none, some, List, [], ◌∷◌, ◌++◌,
  if◌then◌else◌, length, ltb,
}
use kyjness_community_be.Text.{Text, codes, strip}
use kyjness_community_be.Db.Rows.{Db}
use kyjness_community_be.Db.Action.{Result, ok, err, Error}
use kyjness_community_be.Posts.Service.{PostCreateRequest, create_post, is_empty}

-- `_result_redis_key` and `_lock_redis_key` of a fingerprint
pub data CacheKey : Type 0 where
  result_key lock_key : Text → CacheKey

-- What is relied on of Redis. SET NX writes like SET where there is no value, and nothing elsewhere.
-- A value is read before its lifetime is over: the expiry of a lock or of an answer is left out.
pub record Cache (Store : Type 0) : Type 0 where
  pub get : CacheKey → Store → Option Text
  pub set : CacheKey → Text → ℕ → Store → Store
  pub set_nx : CacheKey → Text → ℕ → Store → Bool × Store
  pub delete : CacheKey → Store → Store
  pub get-set_self :
      (k : CacheKey) (v : Text) (ttl : ℕ) (s : Store) → 0 < ttl → get k (set k v ttl s) ≡ some v
  pub get-set_ne :
      (k k' : CacheKey) (v : Text) (ttl : ℕ) (s : Store) → k ≢ k' → get k (set k' v ttl s) ≡ get k s
  pub set_nx-free :
      (k : CacheKey) (v : Text) (ttl : ℕ) (s : Store)
      → get k s ≡ none
      → set_nx k v ttl s ≡ (true, set k v ttl s)
  pub set_nx-held :
      (k : CacheKey) (v w : Text) (ttl : ℕ) (s : Store)
      → get k s ≡ some w
      → set_nx k v ttl s ≡ (false, s)
  pub get-delete_self : (k : CacheKey) (s : Store) → get k (delete k s) ≡ none
  pub get-delete_ne : (k k' : CacheKey) (s : Store) → k ≢ k' → get k (delete k' s) ≡ get k s

-- `ApiResponse[PostIdData]`
pub record Reply : Type 0 where
  pub code : Text
  pub post_id : Option ℕ
  pub message : Option Text
  pub request_id : Text

-- What is relied on of pydantic: the JSON of a response is not empty, and validates to the response.
pub record Codec : Type 0 where
  pub dump : Reply → Text
  pub validate_json : Text → Option Reply
  pub validate-dump : (r : Reply) → validate_json (dump r) ≡ some r
  pub dump_nonempty : (r : Reply) → is_empty (dump r) ≡ false

-- A call of Redis answers, or raises before or after the server has run it.
pub data Call : Type 0 where
  answers raises_before raises_after : Call

abbrev pub effect : {Store : Type 0} → Call → (Store → Store) → Store → Store
effect answers f s = f s
effect raises_before f s = s
effect raises_after f s = f s

-- whether the application has a Redis client, and what becomes of the four calls of a request
pub record Client : Type 0 where
  pub connected : Bool
  pub get_raises : Bool
  pub lock : Call
  pub save : Call
  pub unlock : Call

-- what `_normalize_idempotency_key` makes of the header: `None`, an HTTPException, or the key
pub data Header : Type 0 where
  absent invalid : Header
  key : Text → Header

unfoldable pub normalize_idempotency_key : Option Text → Header
normalize_idempotency_key none = absent
normalize_idempotency_key (some raw) =
    let s = strip raw in
    if is_empty s then absent else if ltb (length s) 8 || ltb 128 (length s) then invalid else key s

-- how `post_create_idempotency_before` ends: a response to replay, the fingerprint to go on with, or
-- an HTTPException
pub data Before : Type 0 where
  replay : Reply → Before
  proceed : Option Text → Before
  bad_key conflict : Before

-- the answer of the route
pub data Answer : Type 0 where
  created replayed : Reply → Answer
  refused : Error → Answer
  key_refused in_progress : Answer

module _ {Store : Type 0} (redis : Cache Store) (codec : Codec) (sha256 : Text → Text)
    (str_uuid : ℕ → Text) (lock_ttl result_ttl : ℕ) where
  unfoldable pub idempotency_fingerprint : ℕ → Text → Text
  idempotency_fingerprint user_id norm = sha256 (str_uuid user_id ++ codes ":" ++ norm)

  -- A value that is empty or does not validate is a miss.
  unfoldable pub cached_reply : Option Text → Option Reply
  cached_reply none = none
  cached_reply (some cached) = if is_empty cached then none else codec.validate_json cached

  unfoldable pub take_lock : Call → Text → Store → Before × Store
  take_lock answers fp s =
      let (got_lock, s') = redis.set_nx (lock_key fp) (codes "1") lock_ttl s in
      (if got_lock then proceed (some fp) else conflict, s')
  take_lock raises_before fp s = (proceed (some fp), s)
  take_lock raises_after fp s =
      (proceed (some fp), (redis.set_nx (lock_key fp) (codes "1") lock_ttl s).1)

  -- what follows the fingerprint
  unfoldable pub before_at : Client → Text → Text → Store → Before × Store
  before_at client fp request_id s =
      if not client.connected || client.get_raises
      then (proceed (some fp), s)
      else (elim (cached_reply (redis.get (result_key fp) s)) [
        | none ↦ take_lock client.lock fp s
        | some r ↦ (replay (record r { request_id = request_id }), s)
      ])

  unfoldable pub post_create_idempotency_before :
      Client → Option Text → ℕ → Text → Store → Before × Store
  post_create_idempotency_before client raw_key user_id request_id s =
      elim (normalize_idempotency_key raw_key) [
        | absent ↦ (proceed none, s)
        | invalid ↦ (bad_key, s)
        | key norm ↦ before_at client (idempotency_fingerprint user_id norm) request_id s
      ]

  unfoldable pub post_create_idempotency_after_failure : Client → Option Text → Store → Store
  post_create_idempotency_after_failure client none s = s
  post_create_idempotency_after_failure client (some fp) s =
      if client.connected then effect client.unlock (redis.delete (lock_key fp)) s else s

  unfoldable pub post_create_idempotency_after_success :
      Client → Option Text → Reply → Store → Store
  post_create_idempotency_after_success client none response s = s
  post_create_idempotency_after_success client (some fp) response s =
      if not client.connected
      then s
      else effect client.unlock (redis.delete (lock_key fp))
          (effect client.save (redis.set (result_key fp) (codec.dump response) result_ttl) s)

  -- the body of the route after `post_create_idempotency_before`
  unfoldable pub finish :
      Client → ℕ → ℕ → PostCreateRequest → ℕ → ℕ → Text → Before × Store → Db → Answer × Db × Store
  finish client post_id user_id request next_hashtag now request_id (replay r, s) d =
      (replayed r, d, s)
  finish client post_id user_id request next_hashtag now request_id (bad_key, s) d =
      (key_refused, d, s)
  finish client post_id user_id request next_hashtag now request_id (conflict, s) d =
      (in_progress, d, s)
  finish client post_id user_id request next_hashtag now request_id (proceed fp, s) d =
      let (result, d') = create_post post_id user_id request next_hashtag now d in
      elim result [
        | ok i ↦
            let out : Reply = record {
              code = codes "OK";
              post_id = some i;
              message = none;
              request_id = request_id;
            } in
            (created out, d', post_create_idempotency_after_success client fp out s)
        | err e ↦ (refused e, d', post_create_idempotency_after_failure client fp s)
      ]

  -- `create_post` of the router
  unfoldable pub post_posts :
      Client
      → Option Text
      → ℕ
      → ℕ
      → PostCreateRequest
      → ℕ
      → ℕ
      → Text
      → Db
      → Store
      → Answer × Db × Store
  post_posts client raw_key post_id user_id request next_hashtag now request_id d s =
      finish client post_id user_id request next_hashtag now request_id
        (post_create_idempotency_before client raw_key user_id request_id s) d
