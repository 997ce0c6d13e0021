-- ===== src/Cache/Tests.antt =====
-- A server of two values, whose cached values are texts, and the theorems at it.
use kyjness_community_be.Prelude.{
  ℕ, ◌≡◌, ◌≢◌, refl, false, Option, none, some, [], ◌∷◌, inl, arith, Bool, true,
}
use kyjness_community_be.Text.{Text}
use kyjness_community_be.Db.Action.{ok}
use kyjness_community_be.Cache.{
  CacheKey, value_key, lock_key, Server, Adapter, CacheFaults, decode, get_or_compute_json,
}
use kyjness_community_be.Cache.Transparent.{IsFresh, get_or_compute_json_lem, lock_lem}

abbrev Store : Type 0
Store = Option Text × Option Text

abbrev read : CacheKey → Store → Option Text
read value_key s = s.0
read lock_key s = s.1

abbrev write : CacheKey → Option Text → Store → Store
write value_key v s = (v, s.1)
write lock_key v s = (s.0, v)

abbrev write_if_free : Option Text → CacheKey → Text → Store → Bool × Store
write_if_free none k v s = (true, write k (some v) s)
write_if_free (some w) k v s = (false, s)

read_self : (k : CacheKey) (v : Option Text) (s : Store) → read k (write k v s) ≡ v
read_self value_key v s = refl
read_self lock_key v s = refl

read_ne :
    (k k' : CacheKey) (v : Option Text) (s : Store) → k ≢ k' → read k (write k' v s) ≡ read k s
read_ne value_key value_key v s ne = ground arith
read_ne value_key lock_key v s ne = refl
read_ne lock_key value_key v s ne = refl
read_ne lock_key lock_key v s ne = ground arith

server : Server Store
server = record {
  get = read;
  setex = λ k v s. write k (some v) s;
  set_nx = λ k v s. write_if_free (read k s) k v s;
  delete = λ k s. write k none s;
  get-setex_self = λ k v s. read_self k (some v) s;
  get-setex_ne = λ k k' v s ne. read_ne k k' (some v) s ne;
  set_nx-free = λ k v s e. ground arith;
  set_nx-held = λ k v w s e. ground arith;
  get-delete_self = λ k s. read_self k none s;
  get-delete_ne = λ k k' s ne. read_ne k k' none s ne;
}

-- the JSON of a number is one character
abbrev as_json : Text → Option ℕ
as_json [] = none
as_json (n ∷ s) = some n

adapter : Adapter ℕ
adapter = record {
  dump_json = λ n. n ∷ [];
  validate_json = as_json;
  validate-dump = λ n. refl;
  dump_nonempty = λ n. ground arith;
}

abbrev quiet : CacheFaults
quiet = record {
  connected = true;
  get = false;
  lock = false;
  poll = λ n. false;
  save = false;
  release = false;
}

abbrev fresh : Store
fresh = (none, none)

get_or_compute_json_lem_example :
    let (r, s') = get_or_compute_json server adapter quiet (λ n s. s) (9 ∷ []) (ok 5) fresh in
    (r ≡ ok 5) × IsFresh server adapter 5 s'
unfolding decode server
get_or_compute_json_lem_example =
    get_or_compute_json_lem server adapter 5 quiet (λ n s. s) (9 ∷ []) (λ n s h. h) fresh (inl refl)

lock_lem_example :
    let s' = (get_or_compute_json server adapter quiet (λ n s. s) (9 ∷ []) (ok 5) fresh).1 in
    (quiet.release ≡ false → server.get lock_key fresh ≡ none → server.get lock_key s' ≡ none)
    × ((w : Text) → server.get lock_key fresh ≡ some w → s' ≡ fresh)
lock_lem_example = lock_lem server adapter (9 ∷ []) quiet (ok 5) fresh
