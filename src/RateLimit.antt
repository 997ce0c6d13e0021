-- ===== src/RateLimit.antt =====
-- app/core/middleware/rate_limit.py: the fixed-window limit, its fallback in memory, and the
-- middleware. Times are whole microseconds; `int(...)` of a time in seconds rounds down. A reply of
-- Redis is an argument: `none` where the call raises.
pub mod Evict
pub mod Window
pub mod Middleware
pub mod Policy
mod Tests
use kyjness_community_be.Prelude.{
  ℕ, zero, suc, ◌+◌, ◌-◌, ◌*◌, ◌/◌, Bool, true, false, not, ◌||◌, Option, none, some, List, [], ◌∷◌,
  ltb, leb, ◌==◌, if◌then◌else◌, length, keep, max,
}
use kyjness_community_be.Text.{Text, codes, rstrip_if}
use mathlib.Core.Logic.{ite}
use native.Mathlib.Decide.{ℕ_discrete}

-- `limit:identity`: the prefix before the first colon is the label of the rejection metric.
pub data LimitKind : Type 0 where
  login signup_upload global chat : LimitKind

pub record LimitKey : Type 0 where
  pub kind : LimitKind
  pub identity : Text

pub LimitKey-discrete : Discrete LimitKey
LimitKey-discrete = hlevel ℕ_discrete

-- An entry of `_memory_store`: the count and the end of the window.
pub record Entry : Type 0 where
  pub key : LimitKey
  pub count : ℕ
  pub window_end : ℕ

-- `_memory_store`, in insertion order
abbrev pub Store : Type 0
Store = List Entry

abbrev pub second : ℕ
second = 1_000_000

-- `_MEMORY_MAX_KEYS`
abbrev pub memory_max_keys : ℕ
memory_max_keys = 10_000

unfoldable pub has_key : LimitKey → Entry → Bool
has_key k e = ite (LimitKey-discrete k e.key) true false

-- `_memory_store.get(key)`
unfoldable pub find : LimitKey → Store → Option Entry
find k [] = none
find k (e ∷ s) = let rest = find k s in if has_key k e then some e else rest

-- `_memory_store[key] = ...`: an old key keeps its place, a new one goes last.
unfoldable pub put : Entry → Store → Store
put e [] = e ∷ []
put e (d ∷ s) = let rest = put e s in if has_key e.key d then e ∷ s else d ∷ rest

-- `del _memory_store[key]`
unfoldable pub remove : LimitKey → Store → Store
remove k [] = []
remove k (e ∷ s) = let rest = remove k s in if has_key k e then s else e ∷ rest

-- `min(_memory_store.keys(), key=...)`: the first entry whose window ends earliest.
unfoldable pub oldest_from : Entry → Store → Entry
oldest_from best [] = best
oldest_from best (e ∷ s) = oldest_from (if ltb e.window_end best.window_end then e else best) s

-- The `while` loop. Each round deletes a key, so the length of the store is enough fuel.
unfoldable pub evict_oldest : ℕ → Store → Store
evict_oldest zero s = s
evict_oldest (suc fuel) [] = []
evict_oldest (suc fuel) (e ∷ s) =
    let next = evict_oldest fuel (remove (oldest_from e s).key (e ∷ s)) in
    if leb memory_max_keys (length (e ∷ s)) then next else e ∷ s

unfoldable pub is_live : ℕ → Entry → Bool
is_live now e = not (ltb e.window_end now)

-- `_memory_evict_if_needed`
unfoldable pub evict_if_needed : ℕ → Store → Store
evict_if_needed now s =
    if ltb (length s) memory_max_keys
    then s
    else let live = keep (is_live now) s in evict_oldest (length live) live

-- `_check_memory_fixed_window`: whether the request passes, the seconds to wait, and the store.
unfoldable pub check_entry : LimitKey → ℕ → ℕ → ℕ → Store → Option Entry → Bool × ℕ × Store
check_entry k window_sec max_count now s none =
    (true, 0, put (record { key = k; count = 1; window_end = now + window_sec * second }) s)
check_entry k window_sec max_count now s (some e) =
    if leb e.window_end now
    then (true, 0, put (record { key = k; count = 1; window_end = now + window_sec * second }) s)
    else let s' = put (record { key = k; count = e.count + 1; window_end = e.window_end }) s in
      if ltb max_count (e.count + 1)
      then (false, (e.window_end - now) / second, s')
      else (true, 0, s')

unfoldable pub check_memory_fixed_window : LimitKey → ℕ → ℕ → ℕ → Store → Bool × ℕ × Store
unfolding check_entry
check_memory_fixed_window k window_sec max_count now s =
    let s' = evict_if_needed now s in check_entry k window_sec max_count now s' (find k s')

-- What becomes of the call of Redis: no client, a call that raises, or the count and the TTL that
-- the script answers (a negative TTL is `none`).
pub data RedisReply : Type 0 where
  absent raises : RedisReply
  answer : ℕ → Option ℕ → RedisReply

-- `_check_redis_fixed_window`, where the call answers
unfoldable pub check_redis_fixed_window : ℕ → ℕ → ℕ → Option ℕ → Bool × ℕ
check_redis_fixed_window window_sec max_count count ttl =
    let retry_after : ℕ = elim ttl [ none ↦ window_sec | some t ↦ t ] in
    if ltb max_count count then (false, retry_after) else (true, 0)

-- The result of `check_fixed_window`; `rejections` are the labels that `count_rejection` counted.
pub record Checked : Type 0 where
  pub allowed : Bool
  pub retry_after : ℕ
  pub store : Store
  pub rejections : List LimitKind

unfoldable pub counted : LimitKey → Bool × ℕ × Store → Checked
counted k (allowed, retry_after, s) = record {
  allowed = allowed;
  retry_after = retry_after;
  store = s;
  rejections = if allowed then [] else k.kind ∷ [];
}

unfoldable pub check_fixed_window : RedisReply → LimitKey → ℕ → ℕ → Bool → ℕ → Store → Checked
unfolding counted
check_fixed_window absent k window_sec max_count fail_open now s =
    if fail_open
    then counted k (true, 0, s)
    else counted k (check_memory_fixed_window k window_sec max_count now s)
check_fixed_window raises k window_sec max_count fail_open now s =
    if fail_open
    then counted k (true, 0, s)
    else counted k (check_memory_fixed_window k window_sec max_count now s)
check_fixed_window (answer count ttl) k window_sec max_count fail_open now s =
    let (allowed, retry_after) = check_redis_fixed_window window_sec max_count count ttl in
    counted k (allowed, retry_after, s)
