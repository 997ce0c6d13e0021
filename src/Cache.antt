-- ===== src/Cache.antt =====
-- app/infra/cache.py: `get_or_compute_json`. Redis and the JSON of a value are parameters; which calls
-- raise, and what others do to the server between them, are arguments.
pub mod Transparent
mod Tests
use kyjness_community_be.Prelude.{
  ℕ, zero, suc, ◌≡◌, ◌≢◌, Bool, true, false, not, ◌||◌, Option, none, some, if◌then◌else◌, length,
  ◌==◌,
}
use kyjness_community_be.Text.{Text, text_eq}
use kyjness_community_be.Db.Action.{Result, ok, err}

-- the two keys of a call: of the cached value and of the lock
pub data CacheKey : Type 0 where
  value_key lock_key : CacheKey

-- What is relied on of Redis; the expiry of a lock or a value is something that others may do.
pub record Server (Store : Type 0) : Type 0 where
  pub get : CacheKey → Store → Option Text
  pub setex : CacheKey → Text → Store → Store
  pub set_nx : CacheKey → Text → Store → Bool × Store
  pub delete : CacheKey → Store → Store
  pub get-setex_self : (k : CacheKey) (v : Text) (s : Store) → get k (setex k v s) ≡ some v
  pub get-setex_ne :
      (k k' : CacheKey) (v : Text) (s : Store) → k ≢ k' → get k (setex k' v s) ≡ get k s
  pub set_nx-free :
      (k : CacheKey) (v : Text) (s : Store) → get k s ≡ none → set_nx k v s ≡ (true, setex k v s)
  pub set_nx-held :
      (k : CacheKey) (v w : Text) (s : Store) → get k s ≡ some w → set_nx k v s ≡ (false, s)
  pub get-delete_self : (k : CacheKey) (s : Store) → get k (delete k s) ≡ none
  pub get-delete_ne : (k k' : CacheKey) (s : Store) → k ≢ k' → get k (delete k' s) ≡ get k s

-- What is relied on of pydantic: the JSON of a value is not empty and validates to it.
pub record Adapter (A : Type 0) : Type 0 where
  pub dump_json : A → Text
  pub validate_json : Text → Option A
  pub validate-dump : (a : A) → validate_json (dump_json a) ≡ some a
  pub dump_nonempty : (a : A) → (length (dump_json a) == 0) ≡ false

-- whether there is a client, and which calls raise; `poll` by the rounds that are left
pub record CacheFaults : Type 0 where
  pub connected : Bool
  pub get : Bool
  pub lock : Bool
  pub poll : ℕ → Bool
  pub save : Bool
  pub release : Bool

-- `_WAIT_MAX_SECONDS` over `_WAIT_INTERVAL_SECONDS`
abbrev pub wait_rounds : ℕ
wait_rounds = 20

module _ {Store A : Type 0} (redis : Server Store) (adapter : Adapter A) where
  -- `_decode`
  unfoldable pub decode : Option Text → Option A
  decode none = none
  decode (some raw) = if length raw == 0 then none else adapter.validate_json raw

  -- `_RELEASE_LOCK_LUA`
  abbrev pub held_by : Text → Option Text → Bool
  held_by lock_value none = false
  held_by lock_value (some v) = text_eq v lock_value

  unfoldable pub release_lock : Bool → Text → Store → Store
  release_lock raises lock_value s =
      if raises
      then s
      else if held_by lock_value (redis.get lock_key s)
      then redis.delete lock_key s
      else s

  -- the polling of a worker that has not got the lock; `meanwhile` is what others do in each round
  unfoldable pub wait : (ℕ → Bool) → (ℕ → Store → Store) → ℕ → Result A → Store → Result A × Store
  wait raises meanwhile zero loaded s = (loaded, s)
  wait raises meanwhile (suc rounds) loaded s =
      let s' = meanwhile rounds s in
      let rest = wait raises meanwhile rounds loaded s' in
      if raises rounds
      then (loaded, s')
      else elim (decode (redis.get value_key s')) [ some a ↦ (ok a, s') | none ↦ rest ]

  -- the worker that has the lock: what is loaded is saved, and the lock is released in any case
  unfoldable pub compute : CacheFaults → Text → Result A → Store → Result A × Store
  compute faults lock_value (err e) s = (err e, release_lock faults.release lock_value s)
  compute faults lock_value (ok a) s = (
    ok a,
    release_lock faults.release lock_value
        (if faults.save then s else redis.setex value_key (adapter.dump_json a) s),
  )

  unfoldable pub after_miss :
      CacheFaults → (ℕ → Store → Store) → Text → Result A → Store → Result A × Store
  after_miss faults meanwhile lock_value loaded s =
      let (acquired, s') = redis.set_nx lock_key lock_value s in
      let waited = wait faults.poll meanwhile wait_rounds loaded s' in
      if faults.lock
      then (loaded, s)
      else if acquired
      then compute faults lock_value loaded s'
      else waited

  -- `loaded` is what `loader` answers or raises, `lock_value` the random value of the lock.
  unfoldable pub get_or_compute_json :
      CacheFaults → (ℕ → Store → Store) → Text → Result A → Store → Result A × Store
  get_or_compute_json faults meanwhile lock_value loaded s =
      if not faults.connected || faults.get
      then (loaded, s)
      else elim (decode (redis.get value_key s)) [
        | some a ↦ (ok a, s)
        | none ↦ after_miss faults meanwhile lock_value loaded s
      ]
