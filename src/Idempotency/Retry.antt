-- ===== src/Idempotency/Retry.antt =====
-- app/domain/posts/routers/post_router.py: POST /posts under retries with one idempotency key.
use kyjness_community_be.Prelude.{
  ℕ, ◌≡◌, ◌≢◌, ◌<◌, refl, sym, Bool, true, false, Option, none, some, ◌⊎◌, inl, inr, arith,
  Bool-cases, Option-cases,
}
use mathlib.Core.Path.{subst}
use kyjness_community_be.Text.{Text, codes}
use kyjness_community_be.Db.Rows.{Db}
use kyjness_community_be.Db.Action.{Result-cases, Error}
use kyjness_community_be.Posts.Service.{PostCreateRequest, create_post}
use kyjness_community_be.Idempotency.{
  Cache, result_key, lock_key, Codec, Reply, Call, answers, raises_before, raises_after, effect,
  Client, key, normalize_idempotency_key, Before, replay, proceed, conflict, Answer, created,
  replayed, refused, in_progress, idempotency_fingerprint, cached_reply, take_lock, before_at,
  post_create_idempotency_before, post_create_idempotency_after_failure,
  post_create_idempotency_after_success, finish, post_posts,
}

-- a client whose calls all answer
abbrev pub quiet : Client
quiet = record {
  connected = true;
  get_raises = false;
  lock = answers;
  save = answers;
  unlock = answers;
}

keys_differ : (fp fp' : Text) → result_key fp ≢ lock_key fp'
keys_differ fp fp' = ground arith

-- no answer that validates, and no lock, is kept for a fingerprint
abbrev pub IsFree :
    {Store : Type 0}
    → Cache Store
    → Codec
    → (Text → Text)
    → (ℕ → Text)
    → ℕ
    → ℕ
    → Text
    → Store
    → Type 0
IsFree redis codec sha256 str_uuid lock_ttl result_ttl fp s =
    (cached_reply redis codec sha256 str_uuid lock_ttl result_ttl (redis.get (result_key fp) s)
      ≡ none)
    × (redis.get (lock_key fp) s ≡ none)

module _ {Store : Type 0} (redis : Cache Store) (codec : Codec) (sha256 : Text → Text)
    (str_uuid : ℕ → Text) (lock_ttl result_ttl : ℕ) (lock_pos : 0 < lock_ttl)
    (result_pos : 0 < result_ttl) (raw_key : Option Text) (norm : Text)
    (valid : normalize_idempotency_key raw_key ≡ key norm) (user_id : ℕ) where
  abbrev pub fp : Text
  fp = idempotency_fingerprint redis codec sha256 str_uuid lock_ttl result_ttl user_id norm

  abbrev pub route :
      Client → ℕ → PostCreateRequest → ℕ → ℕ → Text → Db → Store → Answer × Db × Store
  route client post_id request next now request_id d s =
      post_posts redis codec sha256 str_uuid lock_ttl result_ttl client raw_key post_id user_id
        request next now request_id d s

  -- whether the SET of the answer is run
  abbrev pub saves : Call → Bool
  saves answers = true
  saves raises_before = false
  saves raises_after = true

  effect-delete :
      (c : Call) (s : Store)
      → redis.get (result_key fp) (effect c (redis.delete (lock_key fp)) s)
        ≡ redis.get (result_key fp) s
  effect-delete answers s = redis.get-delete_ne _ _ s (keys_differ fp fp)
  effect-delete raises_before s = refl
  effect-delete raises_after s = redis.get-delete_ne _ _ s (keys_differ fp fp)

  effect-set :
      (c : Call) (v : Text) (s : Store)
      → saves c ≡ true
      → redis.get (result_key fp) (effect c (redis.set (result_key fp) v result_ttl) s) ≡ some v
  effect-set answers v s h = redis.get-set_self _ v result_ttl s result_pos
  effect-set raises_before v s h = ground arith
  effect-set raises_after v s h = redis.get-set_self _ v result_ttl s result_pos

  after_success_saved :
      (client : Client) (out : Reply) (s : Store)
      → client.connected ≡ true
      → saves client.save ≡ true
      → redis.get (result_key fp) (
          post_create_idempotency_after_success redis codec sha256 str_uuid lock_ttl result_ttl
            client
            (some fp)
            out
            s)
        ≡ some (codec.dump out)
  unfolding post_create_idempotency_after_success
  after_success_saved client out s connected saved =
      let s1 = effect client.save (redis.set (result_key fp) (codec.dump out) result_ttl) s in
      let kept = effect-delete client.unlock s1 in
      let there = effect-set client.save (codec.dump out) s saved in ground arith

  IsOutcome : Before → Type 0
  IsOutcome b = ((r : Reply) × (b ≡ replay r)) ⊎ ((b ≡ conflict) ⊎ (b ≡ proceed (some fp)))

  take_lock-IsOutcome :
      (c : Call) (s : Store)
      → IsOutcome (take_lock redis codec sha256 str_uuid lock_ttl result_ttl c fp s).0
  unfolding take_lock IsOutcome
  take_lock-IsOutcome answers s =
      elim (Bool-cases (redis.set_nx (lock_key fp) (codes "1") lock_ttl s).0) [
        | inl e ↦ inr (inr (ground arith))
        | inr e ↦ inr (inl (ground arith))
      ]
  take_lock-IsOutcome raises_before s = inr (inr refl)
  take_lock-IsOutcome raises_after s = inr (inr refl)

  abbrev before : Client → Text → Store → Before × Store
  before client request_id s =
      post_create_idempotency_before redis codec sha256 str_uuid lock_ttl result_ttl client raw_key
        user_id request_id s

  before-at :
      (client : Client) (request_id : Text) (s : Store)
      → before client request_id s
        ≡ before_at redis codec sha256 str_uuid lock_ttl result_ttl client fp request_id s
  unfolding post_create_idempotency_before
  before-at client request_id s = ground arith

  abbrev cached_at : Store → Option Reply
  cached_at s =
      cached_reply redis codec sha256 str_uuid lock_ttl result_ttl (redis.get (result_key fp) s)

  before-IsOutcome :
      (client : Client) (request_id : Text) (s : Store) → IsOutcome (before client request_id s).0
  unfolding before_at IsOutcome
  before-IsOutcome client request_id s =
      let here = before-at client request_id s in
      let locked = take_lock-IsOutcome client.lock s in
      elim (Bool-cases client.connected) [
        | inr off ↦ inr (inr (ground arith))
        | inl on ↦ elim (Bool-cases client.get_raises) [
          | inl raised ↦ inr (inr (ground arith))
          | inr got ↦ elim (Option-cases (cached_at s)) [
            | inl miss ↦
                let same : (before client request_id s).0
                    ≡ (take_lock redis codec sha256 str_uuid lock_ttl result_ttl client.lock fp
                        s).0 =
                  ground arith in
                subst IsOutcome (sym same) locked
            | inr hit ↦ inl (record hit.0 { request_id = request_id }, ground arith)
          ]
        ]
      ]

  abbrev rest :
      Client → ℕ → PostCreateRequest → ℕ → ℕ → Text → Db → Before → Store → Answer × Db × Store
  rest client post_id request next now request_id d b s =
      finish redis codec sha256 str_uuid lock_ttl result_ttl client post_id user_id request next now
        request_id (b, s) d

  module _ (client : Client) (post_id : ℕ) (request : PostCreateRequest) (next now : ℕ)
      (request_id : Text) (d d1 : Db) (s s1 : Store) (reply : Reply) (on : client.connected ≡ true)
      (saved : saves client.save ≡ true) where
    finish_proceed :
        rest client post_id request next now request_id d (proceed (some fp)) s
          ≡ (created reply, d1, s1)
        → redis.get (result_key fp) s1 ≡ some (codec.dump reply)
    unfolding finish
    finish_proceed ran = elim (Result-cases (create_post post_id user_id request next now d).0) [
      | inl (i, made) ↦
          let kept =
            after_success_saved client
              (record {
                code = codes "OK";
                post_id = some i;
                message = none;
                request_id = request_id;
              })
              s on saved in
          ground arith
      | inr (e, failed) ↦ ground arith
    ]

    finish_created :
        (b : Before)
        → IsOutcome b
        → rest client post_id request next now request_id d b s ≡ (created reply, d1, s1)
        → redis.get (result_key fp) s1 ≡ some (codec.dump reply)
    unfolding finish IsOutcome
    finish_created b (inl (r, e)) ran = ground arith
    finish_created b (inr (inl e)) ran = ground arith
    finish_created b (inr (inr e)) ran = finish_proceed (
        subst
          (λ b'. rest client post_id request next now request_id d b' s ≡ (created reply, d1, s1)) e
          ran)

  before_hit :
      (client : Client) (request_id : Text) (s : Store) (reply : Reply)
      → client.connected ≡ true
      → client.get_raises ≡ false
      → redis.get (result_key fp) s ≡ some (codec.dump reply)
      → before client request_id s ≡ (replay (record reply { request_id = request_id }), s)
  unfolding before_at cached_reply
  before_hit client request_id s reply on got there =
      let here = before-at client request_id s in
      let full = codec.dump_nonempty reply in
      let valid_json = codec.validate-dump reply in ground arith

  -- Once a request with a client of Redis has created its post and the SET of its answer was run, a retry
  -- of the user with the same key, whatever it asks for, replays that answer, with the identifier of the
  -- retry, and creates nothing, where the retry has a client of Redis whose GET answers.
  pub retry_replays :
      (client retry : Client) (post_id post_id' : ℕ) (request request' : PostCreateRequest)
      (next now next' now' : ℕ) (request_id request_id' : Text) (d d1 d2 : Db) (s s1 : Store)
      (reply : Reply)
      → client.connected ≡ true
      → saves client.save ≡ true
      → route client post_id request next now request_id d s ≡ (created reply, d1, s1)
      → retry.connected ≡ true
      → retry.get_raises ≡ false
      → route retry post_id' request' next' now' request_id' d2 s1
        ≡ (replayed (record reply { request_id = request_id' }), d2, s1)
  unfolding post_posts finish
  retry_replays client retry post_id post_id' request request' next now next' now' request_id
        request_id' d d1 d2 s s1 reply on saved ran on' got =
      let (b, s') = before client request_id s in
      let there =
        finish_created client post_id request next now request_id d d1 s' s1 reply on saved b
          (before-IsOutcome client request_id s) ran in
      let hit = before_hit retry request_id' s1 reply on' got there in ground arith

  abbrev pub IsKeyFree : Store → Type 0
  IsKeyFree s = IsFree redis codec sha256 str_uuid lock_ttl result_ttl fp s

  abbrev locked : Store → Store
  locked s = redis.set (lock_key fp) (codes "1") lock_ttl s

  before_free :
      (request_id : Text) (s : Store)
      → IsKeyFree s
      → before quiet request_id s ≡ (proceed (some fp), locked s)
  unfolding before_at take_lock
  before_free request_id s (miss, free) =
      let here = before-at quiet request_id s in
      let taken = redis.set_nx-free (lock_key fp) (codes "1") lock_ttl s free in ground arith

  unlocked-IsKeyFree : (s : Store) → IsKeyFree s → IsKeyFree (redis.delete (lock_key fp) (locked s))
  unlocked-IsKeyFree s (miss, free) =
      let other = redis.get-delete_ne _ _ (locked s) (keys_differ fp fp) in
      let other' = redis.get-set_ne _ _ (codes "1") lock_ttl s (keys_differ fp fp) in
      (ground arith, redis.get-delete_self _ _)

  -- Where every call of Redis answers: while a request with a free key is between its two hooks, another
  -- one of the user with the key is answered that it is in progress, and changes nothing.
  pub in_flight_refused :
      (post_id : ℕ) (request : PostCreateRequest) (next now : ℕ) (request_id request_id' : Text)
      (d : Db) (s : Store)
      → IsKeyFree s
      → let (b, s') =
          post_create_idempotency_before redis codec sha256 str_uuid lock_ttl result_ttl quiet
            raw_key user_id request_id s in
        (b ≡ proceed (some fp))
        × (route quiet post_id request next now request_id' d s' ≡ (in_progress, d, s'))
  unfolding post_posts finish before_at take_lock
  in_flight_refused post_id request next now request_id request_id' d s free =
      let first = before_free request_id s free in
      let second = before-at quiet request_id' (locked s) in
      let other = redis.get-set_ne _ _ (codes "1") lock_ttl s (keys_differ fp fp) in
      let miss = free.0 in
      let there = redis.get-set_self (lock_key fp) (codes "1") lock_ttl s lock_pos in
      let held =
        redis.set_nx-held (lock_key fp) (codes "1") (codes "1") lock_ttl (locked s) there in
      (ground arith, ground arith)

  -- A request with a free key whose post is refused leaves the tables as they are and the key free.
  pub refusal_frees :
      (post_id : ℕ) (request : PostCreateRequest) (next now : ℕ) (request_id : Text) (d d1 : Db)
      (s s1 : Store) (e : Error)
      → IsKeyFree s
      → route quiet post_id request next now request_id d s ≡ (refused e, d1, s1)
      → (d1 ≡ d) × IsKeyFree s1
  unfolding post_posts finish create_post post_create_idempotency_after_failure
  refusal_frees post_id request next now request_id d d1 s s1 e free ran =
      let first = before_free request_id s free in
      let again = unlocked-IsKeyFree s free in
      let at : s1 ≡ redis.delete (lock_key fp) (locked s) = ground arith in
      (ground arith, subst IsKeyFree (sym at) again)
