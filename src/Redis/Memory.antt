-- ===== src/Redis/Memory.antt =====
-- A Redis that is a function.
use kyjness_community_be.Prelude.{◌≡◌, ◌≢◌, refl, Option, none, some}
use mathlib.Core.Logic.{ite, if_pos, if_neg}
use native.Mathlib.Decide.{ℕ_discrete}
use kyjness_community_be.Redis.{Redis, Key, Value}

abbrev pub Store : Type 0
Store = Key → Option Value

pub Key-discrete : Discrete Key
Key-discrete = hlevel ℕ_discrete

unfoldable pub write : Key → Option Value → Store → Store
write k v s k' = ite (Key-discrete k' k) v (s k')

pub write_self : (k : Key) (v : Option Value) (s : Store) → write k v s k ≡ v
unfolding write
write_self k v s = if_pos (Key-discrete k k) refl v (s k)

pub write_ne : (k k' : Key) (v : Option Value) (s : Store) → k ≢ k' → write k' v s k ≡ s k
unfolding write
write_ne k k' v s ne = if_neg (Key-discrete k k') ne v (s k)

abbrev pub memory : Redis Store
memory = record {
  get = λ k s. s k;
  set = λ k v ttl s. write k (some v) s;
  delete = λ k s. write k none s;
  get-set_self = λ k v ttl s pos. write_self k (some v) s;
  get-set_ne = λ k k' v ttl s ne. write_ne k k' (some v) s ne;
  get-delete_self = λ k s. write_self k none s;
  get-delete_ne = λ k k' s ne. write_ne k k' none s ne;
}
