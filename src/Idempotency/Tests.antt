-- ===== src/Idempotency/Tests.antt =====
-- A Redis that is a function, a code for responses, and the theorems on POST /posts at them.
use kyjness_community_be.Prelude.{
  ℕ, zero, suc, ◌≡◌, ◌≢◌, refl, ap, Bool, true, false, Option, none, some, [], ◌∷◌, ◌++◌, length,
  take, drop, arith,
}
use mathlib.Core.Logic.{ite, if_pos, if_neg}
use native.Mathlib.Decide.{ℕ_discrete}
use kyjness_community_be.Text.{Text, codes, strip, text_eq, lower, lower_all}
use kyjness_community_be.Db.Rows.{Db}
use kyjness_community_be.Db.Empty.{no_rows}
use kyjness_community_be.Db.Action.{invalid_request}
use kyjness_community_be.Posts.Service.{
  PostCreateRequest, create_post, normalize_hashtags, normalize_from, normalize_hashtag,
  without_hash, is_hashtag_char, has_images,
}
use kyjness_community_be.Posts
use kyjness_community_be.Posts.{category_exists}
use kyjness_community_be.Idempotency.{
  Cache, CacheKey, Codec, Reply, key, normalize_idempotency_key, post_posts, finish, Before,
  idempotency_fingerprint, post_create_idempotency_before, before_at, cached_reply, take_lock,
  Answer, created, replayed, refused, in_progress, proceed,
}
use kyjness_community_be.Idempotency.Retry.{retry_replays, in_flight_refused, quiet, IsFree}

abbrev Store : Type 0
Store = CacheKey → Option Text

CacheKey-discrete : Discrete CacheKey
CacheKey-discrete = hlevel ℕ_discrete

write : CacheKey → Option Text → Store → Store
write k v s k' = ite (CacheKey-discrete k' k) v (s k')

write_self : (k : CacheKey) (v : Option Text) (s : Store) → write k v s k ≡ v
unfolding write
write_self k v s = if_pos (CacheKey-discrete k k) refl v (s k)

write_ne : (k k' : CacheKey) (v : Option Text) (s : Store) → k ≢ k' → write k' v s k ≡ s k
unfolding write
write_ne k k' v s ne = if_neg (CacheKey-discrete k k') ne v (s k)

abbrev write_new : Option Text → CacheKey → Text → Store → Bool × Store
write_new none k v s = (true, write k (some v) s)
write_new (some _) k v s = (false, s)

abbrev memory : Cache Store
memory = record {
  get = λ k s. s k;
  set = λ k v ttl s. write k (some v) s;
  set_nx = λ k v ttl s. write_new (s k) k v s;
  delete = λ k s. write k none s;
  get-set_self = λ k v ttl s pos. write_self k (some v) s;
  get-set_ne = λ k k' v ttl s ne. write_ne k k' (some v) s ne;
  set_nx-free = λ k v ttl s free. ap (λ o. write_new o k v s) free;
  set_nx-held = λ k v w ttl s held. ap (λ o. write_new o k v s) held;
  get-delete_self = λ k s. write_self k none s;
  get-delete_ne = λ k k' s ne. write_ne k k' none s ne;
}

take-length : (s t : Text) → take (length s) (s ++ t) ≡ s
take-length [] t = refl
take-length (c ∷ s) t = ap (λ r. c ∷ r) (take-length s t)

drop-length : (s t : Text) → drop (length s) (s ++ t) ≡ t
drop-length [] t = refl
drop-length (c ∷ s) t = drop-length s t

-- texts that begin with the lengths of their parts
abbrev dump_id : Option ℕ → ℕ
dump_id none = 0
dump_id (some i) = suc i

abbrev read_id : ℕ → Option ℕ
read_id zero = none
read_id (suc i) = some i

abbrev dump_message : Option Text → Text → Text
dump_message none t = 0 ∷ t
dump_message (some m) t = suc (length m) ∷ m ++ t

abbrev read_message : ℕ → Option Text → Text → Option Reply
read_message i code [] = none
read_message i none (n ∷ t) = none
read_message i (some code) (zero ∷ t) =
    some (record { code = code; post_id = read_id i; message = none; request_id = t })
read_message i (some code) (suc n ∷ t) =
    some (record {
      code = code;
      post_id = read_id i;
      message = some (take n t);
      request_id = drop n t;
    })

abbrev dump : Reply → Text
dump r = dump_id r.post_id ∷ length r.code ∷ r.code ++ dump_message r.message r.request_id

abbrev validate : Text → Option Reply
validate [] = none
validate (i ∷ []) = none
validate (i ∷ n ∷ t) = read_message i (some (take n t)) (drop n t)

read-dump_id : (o : Option ℕ) → read_id (dump_id o) ≡ o
read-dump_id none = refl
read-dump_id (some i) = refl

read-dump_message :
    (o : Option ℕ) (code : Text) (m : Option Text) (t : Text)
    → read_message (dump_id o) (some code) (dump_message m t)
      ≡ some (record { code = code; post_id = o; message = m; request_id = t })
read-dump_message o code none t =
    ap (λ i. some (record { code = code; post_id = i; message = none; request_id = t }))
      (read-dump_id o)
read-dump_message o code (some m) t =
    let i = read-dump_id o in
    let front = take-length m t in let back = drop-length m t in ground arith

validate-dump_lem : (r : Reply) → validate (dump r) ≡ some r
validate-dump_lem r =
    let rest = dump_message r.message r.request_id in
    let front = take-length r.code rest in
    let back = drop-length r.code rest in
    let there = read-dump_message r.post_id r.code r.message r.request_id in ground arith

abbrev json : Codec
json = record {
  dump = dump;
  validate_json = validate;
  validate-dump = validate-dump_lem;
  dump_nonempty = λ r. refl;
}

abbrev print_uuid : ℕ → Text
print_uuid i = i ∷ []

abbrev sha : Text → Text
sha t = t

abbrev header : Option Text
header = some (codes " retry-0001 ")

abbrev norm : Text
norm = codes "retry-0001"

header_valid : normalize_idempotency_key header ≡ key norm
unfolding normalize_idempotency_key strip
header_valid = refl

abbrev empty : Store
empty k = none

abbrev walk : PostCreateRequest
walk = record {
  title = codes "walk";
  content = codes "in the park";
  image_ids = none;
  category_id = none;
  hashtags = some (codes "#Dog Park" ∷ codes "dogpark" ∷ codes "!" ∷ []);
}

-- with a category that is not there
abbrev lost : PostCreateRequest
lost = record walk { category_id = some 3 }

tags_example :
    normalize_hashtags (codes "#Dog Park" ∷ codes "dogpark" ∷ codes "!" ∷ []) ≡ codes "dogpark" ∷ []
unfolding normalize_hashtags normalize_from normalize_hashtag lower_all without_hash strip lower
    is_hashtag_char text_eq
tags_example = refl

abbrev run_route : PostCreateRequest → Answer × Db × Store
run_route request =
    post_posts memory json sha print_uuid 120 3600 quiet header 1 10 request 1 50 (codes "r1")
      no_rows empty

abbrev first : Reply
first = record { code = codes "OK"; post_id = some 1; message = none; request_id = codes "r1" }

first-created : (run_route walk).0 ≡ created first
unfolding post_posts finish post_create_idempotency_before normalize_idempotency_key strip before_at
    cached_reply take_lock create_post has_images Posts.create_post
first-created = refl

lost-refused : (run_route lost).0 ≡ refused invalid_request
unfolding post_posts finish post_create_idempotency_before normalize_idempotency_key strip before_at
    cached_reply take_lock create_post category_exists
lost-refused = refl

abbrev print : Text
print = idempotency_fingerprint memory json sha print_uuid 120 3600 10 norm

empty-IsFree : IsFree memory json sha print_uuid 120 3600 print empty
unfolding cached_reply
empty-IsFree = (refl, refl)

first_run : run_route walk ≡ (created first, (run_route walk).1, (run_route walk).2)
first_run = ap (λ a. (a, (run_route walk).1, (run_route walk).2)) first-created

abbrev route_at : ℕ → PostCreateRequest → ℕ → ℕ → Text → Db → Store → Answer × Db × Store
route_at post_id request next now request_id d s =
    post_posts memory json sha print_uuid 120 3600 quiet header post_id 10 request next now
      request_id d s

retry_replays_example :
    route_at 2 lost 1 60 (codes "r2") no_rows (run_route walk).2
    ≡ (replayed (record first { request_id = codes "r2" }), no_rows, (run_route walk).2)
retry_replays_example =
    retry_replays memory json sha print_uuid 120 3600 (ground arith) (ground arith) header norm
      header_valid 10 quiet quiet 1 2 walk lost 1 50 1 60 (codes "r1") (codes "r2") no_rows
      (run_route walk).1 no_rows empty (run_route walk).2 first refl refl first_run refl refl

abbrev begun : Before × Store
begun =
    post_create_idempotency_before memory json sha print_uuid 120 3600 quiet header 10 (codes "r1")
      empty

in_flight_refused_example :
    (begun.0 ≡ proceed (some print))
    × (route_at 2 walk 1 60 (codes "r2") no_rows begun.1 ≡ (in_progress, no_rows, begun.1))
in_flight_refused_example =
    in_flight_refused memory json sha print_uuid 120 3600 (ground arith) (ground arith) header norm
      header_valid 10 2 walk 1 60 (codes "r1") (codes "r2") no_rows empty empty-IsFree
