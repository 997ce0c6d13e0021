-- ===== src/Auth/Rotation.antt =====
-- app/domain/auth/service.py: a refresh token is good for one rotation, and for none after a logout or
-- a suspension.
use kyjness_community_be.Prelude.{
  ℕ, ◌<◌, ◌≡◌, ◌≢◌, Bool, true, false, not, ◌&&◌, if◌then◌else◌, ◌==◌, arith, ◌⊎◌, inl, inr,
}
use mathlib.Core.Path.{subst}
use kyjness_community_be.Text.{Text, text_eq}
use kyjness_community_be.Redis.{Redis, Key, user_refresh, user_status, digest}
use kyjness_community_be.Auth.{
  EvalCall, answers, raises_before, raises_after, Faults, is_digest, refresh_rotate_cas,
  refresh_rotation_sequential, by_eval, try_refresh_rotation,
}

module _ {Store : Type 0} (redis : Redis Store) (user_id : ℕ) where
  abbrev key : Key
  key = user_refresh user_id

  other_key : key ≢ user_status user_id
  other_key e = ground arith

  -- the text under the user's key is the digest of a token that is not the one presented
  abbrev pub IsStale : Text → Store → Type 0
  IsStale incoming s = is_digest incoming (redis.get key s) ≡ false

  set-IsStale :
      (incoming new : Text) (ttl : ℕ) (s : Store)
      → 0 < ttl
      → text_eq new incoming ≡ false
      → IsStale incoming (redis.set key (digest new) ttl s)
  set-IsStale incoming new ttl s pos other =
      rw (redis.get-set_self key (digest new) ttl s pos) other

  -- A digest that is not the stored one rotates nothing, whichever calls raise.
  pub stale_refused :
      (faults : Faults) (incoming new : Text) (ttl : ℕ) (s : Store)
      → IsStale incoming s
      → try_refresh_rotation redis faults user_id incoming new ttl s ≡ (false, s)
  unfolding try_refresh_rotation by_eval refresh_rotate_cas refresh_rotation_sequential
  stale_refused faults incoming new ttl s stale = by_call faults.eval
    where
      by_call :
          (call : EvalCall)
          → (if ttl == 0
              then (not faults.digest_get && is_digest incoming (redis.get key s), s)
              else by_eval redis call faults key incoming new ttl s)
            ≡ (false, s)
      by_call answers = ground arith
      by_call raises_before = ground arith
      by_call raises_after = ground arith

  -- what is left by a call that has written the new digest, or nothing
  settled :
      (incoming new : Text) (ttl : ℕ) (s : Store) (r : Bool × Store)
      → 0 < ttl
      → text_eq new incoming ≡ false
      → (r ≡ (false, s)) ⊎ (r ≡ (true, redis.set key (digest new) ttl s))
      → r.0 ≡ true
      → IsStale incoming r.1
  settled incoming new ttl s r pos other (inl kept) done = ground arith
  settled incoming new ttl s r pos other (inr written) done =
      let stale = set-IsStale incoming new ttl s pos other in ground arith

  cas_outcome :
      (incoming new : Text) (ttl : ℕ) (s : Store)
      → let r = refresh_rotate_cas redis key incoming new ttl s in
        (r ≡ (false, s)) ⊎ (r ≡ (true, redis.set key (digest new) ttl s))
  unfolding refresh_rotate_cas
  cas_outcome incoming new ttl s = ground arith

  sequential_outcome :
      (faults : Faults) (incoming new : Text) (ttl : ℕ) (s : Store)
      → let r = refresh_rotation_sequential redis faults key incoming new ttl s in
        (r ≡ (false, s)) ⊎ (r ≡ (true, redis.set key (digest new) ttl s))
  unfolding refresh_rotation_sequential
  sequential_outcome faults incoming new ttl s = ground arith

  -- a call that raised after the server had run it leaves the new digest, which the second try refuses
  late_outcome :
      (faults : Faults) (incoming new : Text) (ttl : ℕ) (s : Store)
      → 0 < ttl
      → text_eq new incoming ≡ false
      → (by_eval redis raises_after faults key incoming new ttl s).0 ≡ true
      → IsStale incoming (by_eval redis raises_after faults key incoming new ttl s).1
  unfolding by_eval
  late_outcome faults incoming new ttl s pos other done =
      settled incoming new ttl (refresh_rotate_cas redis key incoming new ttl s).1
        (by_eval redis raises_after faults key incoming new ttl s) pos other
        (sequential_outcome faults incoming new ttl
          (refresh_rotate_cas redis key incoming new ttl s).1)
        done

  called :
      (faults : Faults) (incoming new : Text) (ttl : ℕ) (s : Store)
      → 0 < ttl
      → by_eval redis faults.eval faults key incoming new ttl s
        ≡ try_refresh_rotation redis faults user_id incoming new ttl s
  unfolding try_refresh_rotation
  called faults incoming new ttl s pos = ground arith

  call_once :
      (faults : Faults) (incoming new : Text) (ttl : ℕ) (s : Store)
      → 0 < ttl
      → text_eq new incoming ≡ false
      → (call : EvalCall) → (by_eval redis call faults key incoming new ttl s).0 ≡ true
      → IsStale incoming (by_eval redis call faults key incoming new ttl s).1
  unfolding by_eval
  call_once faults incoming new ttl s pos other answers done =
      settled incoming new ttl s (by_eval redis answers faults key incoming new ttl s) pos other
        (cas_outcome incoming new ttl s) done
  call_once faults incoming new ttl s pos other raises_before done =
      settled incoming new ttl s (by_eval redis raises_before faults key incoming new ttl s) pos
        other (sequential_outcome faults incoming new ttl s) done
  call_once faults incoming new ttl s pos other raises_after done =
      late_outcome faults incoming new ttl s pos other done

  -- Once a rotation has succeeded, its old digest is stale, whichever calls raised.
  pub rotated_once :
      (faults : Faults) (incoming new : Text) (ttl : ℕ) (s : Store)
      → 0 < ttl
      → text_eq new incoming ≡ false
      → (try_refresh_rotation redis faults user_id incoming new ttl s).0 ≡ true
      → IsStale incoming (try_refresh_rotation redis faults user_id incoming new ttl s).1
  rotated_once faults incoming new ttl s pos other =
      subst (λ r. r.0 ≡ true → IsStale incoming r.1) (called faults incoming new ttl s pos)
        (call_once faults incoming new ttl s pos other faults.eval)
