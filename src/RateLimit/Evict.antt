-- ===== src/RateLimit/Evict.antt =====
-- app/core/middleware/rate_limit.py: `_memory_evict_if_needed` and the size of the store.
use kyjness_community_be.Prelude.{
  ℕ, zero, suc, ◌+◌, ◌*◌, ◌≤◌, ◌<◌, ◌≡◌, ◌≢◌, refl, Bool, true, false, Option, none, some, [], ◌∷◌,
  ltb, if◌then◌else◌, length, keep, count_if, any_of, arith, length-keep,
}
use kyjness_community_be.RateLimit.{
  LimitKey, LimitKey-discrete, Entry, Store, memory_max_keys, second, has_key, find, put, remove,
  oldest_from, evict_oldest, is_live, evict_if_needed, check_entry, check_memory_fixed_window,
}
use mathlib.Core.Logic.{if_pos, if_neg}

pub has_key_self : (k : LimitKey) (e : Entry) → k ≡ e.key → has_key k e ≡ true
unfolding has_key
has_key_self k e h = if_pos (LimitKey-discrete k e.key) h true false

pub has_key_ne : (k : LimitKey) (e : Entry) → k ≢ e.key → has_key k e ≡ false
unfolding has_key
has_key_ne k e h = if_neg (LimitKey-discrete k e.key) h true false

length-remove :
    (k : LimitKey) (s : Store) → any_of (has_key k) s ≡ true → suc (length (remove k s)) ≡ length s
unfolding remove
length-remove k [] h = ground arith
length-remove k (e ∷ s) h = ground (arith, length-remove k s)

any_pick :
    (p : Entry → Bool) (b e : Entry) (s : Store) (t : Bool)
    → any_of p ((if t then e else b) ∷ s) ≡ true
    → any_of p (b ∷ e ∷ s) ≡ true
any_pick p b e s true h = ground (arith, h)
any_pick p b e s false h = ground (arith, h)

any-oldest : (b : Entry) (s : Store) → any_of (has_key (oldest_from b s).key) (b ∷ s) ≡ true
unfolding oldest_from
any-oldest b [] = rw (has_key_self b.key b refl) refl
any-oldest b (e ∷ s) =
    let t = ltb e.window_end b.window_end in
    let next : Entry = if t then e else b in
    any_pick (has_key (oldest_from next s).key) b e s t (any-oldest next s)

evict_oldest-lt :
    (fuel : ℕ) (s : Store) → length s ≤ fuel → length (evict_oldest fuel s) < memory_max_keys
unfolding evict_oldest
evict_oldest-lt zero s h = omega arith
evict_oldest-lt (suc fuel) [] h = omega arith
evict_oldest-lt (suc fuel) (e ∷ s) h =
    let next = remove (oldest_from e s).key (e ∷ s) in
    let shorter = length-remove (oldest_from e s).key (e ∷ s) (any-oldest e s) in
    ground (arith, shorter, evict_oldest-lt fuel next)

-- After an eviction there is room for one more key: the loop ends with fewer than 10,000 keys.
pub evict_if_needed-lt : (now : ℕ) (s : Store) → length (evict_if_needed now s) < memory_max_keys
unfolding evict_if_needed
evict_if_needed-lt now s =
    ground (arith, evict_oldest-lt (length (keep (is_live now) s)) (keep (is_live now) s))

evict_oldest_none : (fuel : ℕ) (s : Store) → length s < memory_max_keys → evict_oldest fuel s ≡ s
unfolding evict_oldest
evict_oldest_none zero s h = refl
evict_oldest_none (suc fuel) [] h = refl
evict_oldest_none (suc fuel) (e ∷ s) h = ground arith

-- If fewer than 10,000 windows are still open, a full store loses its closed windows and no other.
pub evict_closed_only :
    (now : ℕ) (s : Store)
    → memory_max_keys ≤ length s
    → count_if (is_live now) s < memory_max_keys
    → evict_if_needed now s ≡ keep (is_live now) s
unfolding evict_if_needed
evict_closed_only now s full open_windows = ground (
  arith,
  length-keep (is_live now) s,
  evict_oldest_none (length (keep (is_live now) s)) (keep (is_live now) s),
)

pub length-put-le : (e : Entry) (s : Store) → length (put e s) ≤ length s + 1
unfolding put
length-put-le e [] = omega arith
length-put-le e (d ∷ s) = ground (arith, length-put-le e s)

length-check_entry-le :
    (k : LimitKey) (w m now : ℕ) (s : Store) (o : Option Entry)
    → length (check_entry k w m now s o).2 ≤ length s + 1
unfolding check_entry
length-check_entry-le k w m now s none = length-put-le _ s
length-check_entry-le k w m now s (some e) = ground (
  arith,
  length-put-le (record { key = k; count = 1; window_end = now + w * second }) s,
  length-put-le (record { key = k; count = e.count + 1; window_end = e.window_end }) s,
)

-- The store of the fallback never holds more than 10,000 keys after a request, whatever it held.
pub length-check_memory-le :
    (k : LimitKey) (window_sec max_count now : ℕ) (s : Store)
    → length (check_memory_fixed_window k window_sec max_count now s).2 ≤ memory_max_keys
unfolding check_memory_fixed_window
length-check_memory-le k w m now s =
    let s' = evict_if_needed now s in
    omega (arith, length-check_entry-le k w m now s' (find k s'), evict_if_needed-lt now s)
