-- ===== src/Cache/Transparent.antt =====
-- app/infra/cache.py: a cache that holds what the loader would answer is not noticed, and its lock is
-- given back.
use mathlib.Core.Path.{subst}
use kyjness_community_be.Prelude.{
  ℕ, zero, suc, ◌≡◌, refl, sym, ap, ◌∙◌, Bool, true, false, not, ◌||◌, none, some, if◌then◌else◌,
  arith, Bool-split, Option-cases, inl, inr, ◌⊎◌,
}
use kyjness_community_be.Text.{Text, text_eq_refl}
use kyjness_community_be.Db.Action.{Result, ok, err}
use kyjness_community_be.Cache.{
  value_key, lock_key, Server, Adapter, CacheFaults, wait_rounds, decode, release_lock, wait,
  compute, after_miss, get_or_compute_json,
}

module _ {Store A : Type 0} (redis : Server Store) (adapter : Adapter A) (a : A) where
  -- the cache holds the value, or nothing that could be read as one
  abbrev pub IsFresh : Store → Type 0
  IsFresh s =
      (decode redis adapter (redis.get value_key s) ≡ none)
      ⊎ (decode redis adapter (redis.get value_key s) ≡ some a)

  abbrev IsAnswer : Result A × Store → Type 0
  IsAnswer o = (o.0 ≡ ok a) × IsFresh o.1

  released :
      (raises : Bool) (lock_value : Text) (s : Store)
      → redis.get value_key (release_lock redis adapter raises lock_value s) ≡ redis.get value_key s
  unfolding release_lock
  released raises lock_value s =
      let kept = redis.get-delete_ne value_key lock_key s (λ e. ground arith) in ground arith

  saved_lem :
      (s : Store)
      → decode redis adapter (redis.get value_key (redis.setex value_key (adapter.dump_json a) s))
        ≡ some a
  unfolding decode
  saved_lem s =
      rw (redis.get-setex_self value_key (adapter.dump_json a) s, adapter.dump_nonempty a)
        (adapter.validate-dump a)

  waited :
      (raises : ℕ → Bool) (meanwhile : ℕ → Store → Store)
      → ((n : ℕ) (s : Store) → IsFresh s → IsFresh (meanwhile n s))
      → (rounds : ℕ) (s : Store) → IsFresh s
      → IsAnswer (wait redis adapter raises meanwhile rounds (ok a) s)
  unfolding wait
  waited raises meanwhile keeps zero s fresh = (refl, fresh)
  waited raises meanwhile keeps (suc rounds) s fresh =
      let s' = meanwhile rounds s in
      let fresh' = keeps rounds s fresh in
      let out = wait redis adapter raises meanwhile (suc rounds) (ok a) s in
      Bool-split (raises rounds)
        (λ raised. let e : out ≡ (ok a, s') = ground arith in subst IsAnswer (sym e) (refl, fresh'))
        (λ answered. elim fresh' [
          | inl missing ↦
              let e : out ≡ wait redis adapter raises meanwhile rounds (ok a) s' = ground arith in
              subst IsAnswer (sym e)
                (waited raises meanwhile keeps rounds s' (keeps rounds s fresh))
          | inr hit ↦
              let e : out ≡ (ok a, s') = ground arith in subst IsAnswer (sym e) (refl, inr hit)
        ])

  computed :
      (faults : CacheFaults) (lock_value : Text) (s : Store)
      → IsFresh s
      → IsAnswer (compute redis adapter faults lock_value (ok a) s)
  unfolding compute
  computed faults lock_value s fresh =
      let saved = redis.setex value_key (adapter.dump_json a) s in
      let same = released faults.release lock_value (if faults.save then s else saved) in
      (
        refl,
        subst (λ v. (decode redis adapter v ≡ none) ⊎ (decode redis adapter v ≡ some a)) (sym same)
            (by_save faults.save),
      )
    where
      by_save :
          (b : Bool) → IsFresh (if b then s else redis.setex value_key (adapter.dump_json a) s)
      by_save true = fresh
      by_save false = inr (saved_lem s)

  locked-IsFresh :
      (lock_value : Text) (s : Store) → IsFresh s → IsFresh (redis.setex lock_key lock_value s)
  locked-IsFresh lock_value s fresh =
      subst (λ v. (decode redis adapter v ≡ none) ⊎ (decode redis adapter v ≡ some a))
        (sym (redis.get-setex_ne value_key lock_key lock_value s (λ e. ground arith))) fresh

  missed :
      (faults : CacheFaults) (meanwhile : ℕ → Store → Store) (lock_value : Text)
      → ((n : ℕ) (s : Store) → IsFresh s → IsFresh (meanwhile n s))
      → (s : Store) → IsFresh s
      → IsAnswer (after_miss redis adapter faults meanwhile lock_value (ok a) s)
  unfolding after_miss
  missed faults meanwhile lock_value keeps s fresh =
      let out = after_miss redis adapter faults meanwhile lock_value (ok a) s in
      Bool-split faults.lock
        (λ raised. let e : out ≡ (ok a, s) = ground arith in subst IsAnswer (sym e) (refl, fresh))
        (λ asked. elim (Option-cases (redis.get lock_key s)) [
          | inl free ↦
              let got = redis.set_nx-free lock_key lock_value s free in
              let e : out
                  ≡ compute redis adapter faults lock_value (ok a)
                      (redis.setex lock_key lock_value s) =
                ground arith in
              subst IsAnswer (sym e)
                (computed faults lock_value _ (locked-IsFresh lock_value s fresh))
          | inr (w, held) ↦
              let refused = redis.set_nx-held lock_key lock_value w s held in
              let e : out ≡ wait redis adapter faults.poll meanwhile wait_rounds (ok a) s =
                ground arith in
              subst IsAnswer (sym e) (waited faults.poll meanwhile keeps wait_rounds s fresh)
        ])

  -- A cache that holds the loader's value, or nothing that reads as one, is not noticed: whichever calls
  -- raise, and whatever others do that keeps it so, the loader's value is answered, and the cache is as
  -- described afterwards too.
  pub get_or_compute_json_lem :
      (faults : CacheFaults) (meanwhile : ℕ → Store → Store) (lock_value : Text)
      → ((n : ℕ) (s : Store) → IsFresh s → IsFresh (meanwhile n s))
      → (s : Store) → IsFresh s
      → let (r, s') = get_or_compute_json redis adapter faults meanwhile lock_value (ok a) s in
        (r ≡ ok a) × IsFresh s'
  unfolding get_or_compute_json
  get_or_compute_json_lem faults meanwhile lock_value keeps s fresh =
      let out = get_or_compute_json redis adapter faults meanwhile lock_value (ok a) s in
      Bool-split (not faults.connected || faults.get)
        (λ away. let e : out ≡ (ok a, s) = ground arith in subst IsAnswer (sym e) (refl, fresh))
        (λ asked. elim fresh [
          | inl missing ↦
              let e : out ≡ after_miss redis adapter faults meanwhile lock_value (ok a) s =
                ground arith in
              subst IsAnswer (sym e) (missed faults meanwhile lock_value keeps s (inl missing))
          | inr hit ↦
              let e : out ≡ (ok a, s) = ground arith in subst IsAnswer (sym e) (refl, inr hit)
        ])

module _ {Store A : Type 0} (redis : Server Store) (adapter : Adapter A) (lock_value : Text) where
  wait_alone :
      (raises : ℕ → Bool) (rounds : ℕ) (loaded : Result A) (s : Store)
      → (wait redis adapter raises (λ n x. x) rounds loaded s).1 ≡ s
  unfolding wait
  wait_alone raises zero loaded s = refl
  wait_alone raises (suc rounds) loaded s =
      let rest = wait_alone raises rounds loaded s in
      elim (Option-cases (decode redis adapter (redis.get value_key s))) [
        | inl missing ↦ ground arith
        | inr (v, hit) ↦ ground arith
      ]

  own_released :
      (s : Store)
      → redis.get lock_key s ≡ some lock_value
      → redis.get lock_key (release_lock redis adapter false lock_value s) ≡ none
  unfolding release_lock
  own_released s own =
      let gone = redis.get-delete_self lock_key s in
      let same = text_eq_refl lock_value in ground arith

  computed_lock :
      (faults : CacheFaults) (loaded : Result A) (s : Store)
      → faults.release ≡ false
      → redis.get lock_key s ≡ some lock_value
      → redis.get lock_key (compute redis adapter faults lock_value loaded s).1 ≡ none
  unfolding compute
  computed_lock faults (err e) s releases own =
      ap (λ b. redis.get lock_key (release_lock redis adapter b lock_value s)) releases
      ∙ own_released s own
  computed_lock faults (ok a) s releases own =
      let saved = redis.setex value_key (adapter.dump_json a) s in
      let kept =
        redis.get-setex_ne lock_key value_key (adapter.dump_json a) s (λ e. ground arith) in
      ap
        (λ b.
          redis.get lock_key
            (release_lock redis adapter b lock_value (if faults.save then s else saved)))
        releases
      ∙ own_released (if faults.save then s else saved) (ground arith)

  -- Where no one else touches the server meanwhile: a lock that was free is free again afterwards,
  -- whatever the loader does, unless its release raises; and where the lock is held, nothing is written.
  pub lock_lem :
      (faults : CacheFaults) (loaded : Result A) (s : Store)
      → let s' = (get_or_compute_json redis adapter faults (λ n x. x) lock_value loaded s).1 in
        (faults.release ≡ false → redis.get lock_key s ≡ none → redis.get lock_key s' ≡ none)
        × ((w : Text) → redis.get lock_key s ≡ some w → s' ≡ s)
  unfolding get_or_compute_json after_miss
  lock_lem faults loaded s =
      let on_lock = redis.setex lock_key lock_value s in
      let taken = computed_lock faults loaded on_lock in
      elim (Option-cases (decode redis adapter (redis.get value_key s))) [
        | inl missing ↦ (
          λ releases free.
              let got = redis.set_nx-free lock_key lock_value s free in
              let given = taken releases (redis.get-setex_self lock_key lock_value s) in
              ground arith,
          λ w held.
              let refused = redis.set_nx-held lock_key lock_value w s held in
              let alone = wait_alone faults.poll wait_rounds loaded s in ground arith,
        )
        | inr (v, hit) ↦ (λ releases free. ground arith, λ w held. ground arith)
      ]
