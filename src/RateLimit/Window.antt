-- ===== src/RateLimit/Window.antt =====
-- app/core/middleware/rate_limit.py: how many requests of a key pass within one window.
use kyjness_community_be.Prelude.{
  ℕ, ◌+◌, ◌-◌, ◌*◌, ◌≤◌, ◌<◌, ◌≡◌, ◌≢◌, refl, true, false, Option, none, some, List, [], ◌∷◌, leb,
  if◌then◌else◌, length, count_if, All, to_ℕ, arith, min, max, ◌∙◌,
}
use kyjness_community_be.RateLimit.{
  LimitKey, LimitKey-discrete, Entry, Store, memory_max_keys, second, has_key, find, put,
  evict_if_needed, check_entry, check_memory_fixed_window,
}
use kyjness_community_be.RateLimit.Evict.{has_key_self, has_key_ne, length-put-le}

abbrev entry : LimitKey → ℕ → ℕ → Entry
entry k count end = record { key = k; count = count; window_end = end }

find-put_self : (e : Entry) (s : Store) → find e.key (put e s) ≡ some e
unfolding find put
find-put_self e [] = ground (arith, has_key_self e.key e refl)
find-put_self e (d ∷ s) = ground (arith, has_key_self e.key e refl, find-put_self e s)

has_key_eq : (k : LimitKey) (e : Entry) → has_key k e ≡ true → k ≡ e.key
unfolding has_key
has_key_eq k e h = elim (LimitKey-discrete k e.key) [ yes p ↦ p | no p ↦ absurd (ground arith) ]

find-put_ne : (k : LimitKey) (e : Entry) (s : Store) → k ≢ e.key → find k (put e s) ≡ find k s
unfolding find put
find-put_ne k e [] h = ground (arith, has_key_ne k e h)
find-put_ne k e (d ∷ s) h =
    ground (arith, has_key_ne k e h, has_key_eq e.key d, has_key_eq k d, find-put_ne k e s h)

find-check_entry_ne :
    (k j : LimitKey) (w m now : ℕ) (s : Store) (o : Option Entry)
    → k ≢ j
    → find k (check_entry j w m now s o).2 ≡ find k s
unfolding check_entry
find-check_entry_ne k j w m now s none h = find-put_ne k (entry j 1 (now + w * second)) s h
find-check_entry_ne k j w m now s (some e) h = ground (
  arith,
  find-put_ne k (entry j 1 (now + w * second)) s h,
  find-put_ne k (entry j (e.count + 1) e.window_end) s h,
)

length-check_entry-le :
    (k : LimitKey) (w m now : ℕ) (s : Store) (o : Option Entry)
    → length (check_entry k w m now s o).2 ≤ length s + 1
unfolding check_entry
length-check_entry-le k w m now s none = length-put-le (entry k 1 (now + w * second)) s
length-check_entry-le k w m now s (some e) = ground (
  arith,
  length-put-le (entry k 1 (now + w * second)) s,
  length-put-le (entry k (e.count + 1) e.window_end) s,
)

module _ (window_sec max_count : ℕ) where
  -- Of the requests, in order, how many of the key's pass.
  unfoldable pub passed : LimitKey → Store → List (LimitKey × ℕ) → ℕ
  passed k s [] = 0
  passed k s ((j, now) ∷ calls) =
      let (allowed, _, s') = check_memory_fixed_window j window_sec max_count now s in
      to_ℕ (if has_key k (entry j 0 0) then allowed else false) + passed k s' calls

  abbrev pub requests : LimitKey → List (LimitKey × ℕ) → ℕ
  requests k calls = count_if (λ c. has_key k (entry c.0 0 0)) calls

  -- a store with room: the request is decided with no eviction
  check_with_room :
      (j : LimitKey) (now : ℕ) (s : Store)
      → length s < memory_max_keys
      → check_memory_fixed_window j window_sec max_count now s
        ≡ check_entry j window_sec max_count now s (find j s)
  unfolding check_memory_fixed_window evict_if_needed
  check_with_room j now s room = ground arith

  check_open :
      (k : LimitKey) (now c end : ℕ) (s : Store)
      → now < end
      → let (allowed, _, s') = check_entry k window_sec max_count now s (some (entry k c end)) in
        (allowed ≡ leb (c + 1) max_count) × (find k s' ≡ some (entry k (c + 1) end))
  unfolding check_entry
  check_open k now c end s open_window = ground (arith, find-put_self (entry k (c + 1) end) s)

  pub passed_open :
      (k : LimitKey) (c end : ℕ) (s : Store) (calls : List (LimitKey × ℕ))
      → find k s ≡ some (entry k c end)
      → length s + length calls ≤ memory_max_keys
      → All (λ call. call.1 < end) calls
      → passed k s calls ≡ min (requests k calls) (max_count - c)
  unfolding passed
  passed_open k c end s [] found room times = omega arith
  passed_open k c end s ((j, now) ∷ calls) found room times = elim (LimitKey-discrete k j) [
    | yes p ↦
        let next = check_entry k window_sec max_count now s (some (entry k c end)) in
        let opened = check_open k now c end s times.0 in
        let smaller = length-check_entry-le k window_sec max_count now s (some (entry k c end)) in
        let rest = passed_open k (c + 1) end next.2 calls opened.1 (omega arith) times.1 in
        rw
          (
            check_with_room j now s (omega arith),
            ← p,
            found,
            has_key_self k (entry k 0 0) refl,
            rest,
            opened.0,
          )
          (ground arith)
    | no p ↦
        let next = check_entry j window_sec max_count now s (find j s) in
        let kept = find-check_entry_ne k j window_sec max_count now s (find j s) p in
        let smaller = length-check_entry-le j window_sec max_count now s (find j s) in
        let rest = passed_open k c end next.2 calls (kept ∙ found) (omega arith) times.1 in
        rw (check_with_room j now s (omega arith), has_key_ne k (entry j 0 0) p, rest)
          (ground arith)
  ]

  -- Of the requests of a key in one window exactly the first `max_count` pass: the first request
  -- opens the window, the others come before its end, and the store has room for every key that
  -- occurs. With a limit of 0 the opening request still passes.
  pub passed_window :
      (k : LimitKey) (now : ℕ) (s : Store) (calls : List (LimitKey × ℕ))
      → find k s ≡ none
      → length s + length calls < memory_max_keys
      → All (λ call. call.1 < now + window_sec * second) calls
      → passed k s ((k, now) ∷ calls) ≡ min (requests k calls + 1) (max max_count 1)
  unfolding passed check_entry
  passed_window k now s calls fresh room times =
      let end = now + window_sec * second in
      let grown = length-put-le (entry k 1 end) s in
      let rest =
        passed_open k 1 end (put (entry k 1 end) s) calls (find-put_self (entry k 1 end) s)
          (omega arith) times in
      rw
        (
          check_with_room k now s (omega arith),
          fresh,
          has_key_self k (entry k 0 0) refl,
          check_entry,
          rest,
        )
        (omega arith)
