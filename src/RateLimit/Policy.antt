-- ===== src/RateLimit/Policy.antt =====
-- app/core/middleware/rate_limit.py: what the middleware does when Redis is away, what it counts,
-- and which paths share a limit.
use kyjness_community_be.Prelude.{
  ℕ, zero, suc, ◌≡◌, refl, Bool, true, false, [], ◌∷◌, ◌++◌, if◌then◌else◌, arith, ◌∙◌,
}
use kyjness_community_be.Text.{Text}
use kyjness_community_be.RateLimit.{
  LimitKey, Store, RedisReply, absent, raises, answer, check_fixed_window,
  check_memory_fixed_window,
}
use kyjness_community_be.RateLimit.Middleware.{
  LimitSettings, Scope, forward, send_429, rstrip_slash, is_skip_path, path_is_login,
  path_is_signup_upload, is_critical_path, plan, key_of, call,
}
use mathlib.Core.List.{reverse-append, append-nil, append_assoc}

-- A refusal counts one rejection under the label of its key; a request that passes counts none.
pub rejections_lem :
    (redis : RedisReply) (k : LimitKey) (w m : ℕ) (fail_open : Bool) (now : ℕ) (s : Store)
    → let c = check_fixed_window redis k w m fail_open now s in
      c.rejections ≡ (if c.allowed then [] else k.kind ∷ [])
unfolding check_fixed_window
rejections_lem absent k w m true now s = refl
rejections_lem absent k w m false now s = refl
rejections_lem raises k w m true now s = refl
rejections_lem raises k w m false now s = refl
rejections_lem (answer count ttl) k w m fail_open now s = refl

-- a call of Redis that is not made, or raises
pub data IsAway : RedisReply → Type 0 where
  no_client : IsAway absent
  failing : IsAway raises

module _ (settings : LimitSettings) (scope : Scope) (now : ℕ) (s : Store) where
  -- With Redis away, a login or a signup upload is decided by the memory store, under the key, window
  -- and limit of its path: it is forwarded exactly if that store lets it pass, and otherwise refused
  -- with the seconds that the store gives and one counted rejection.
  pub call_memory_fallback :
      (redis : RedisReply)
      → IsAway redis
      → scope.is_http ≡ true
      → scope.is_options ≡ false
      → is_skip_path scope.path ≡ false
      → is_critical_path settings scope.path ≡ true
      → let p = plan settings scope.path in
        let (allowed, retry_after, kept) =
          check_memory_fixed_window (key_of settings scope) p.window_sec p.max_count now s in
        call settings scope redis now s ≡ (
          if allowed then forward else send_429 p.code retry_after,
          kept,
          if allowed then [] else p.kind ∷ [],
        )
  unfolding call check_fixed_window key_of
  call_memory_fallback absent no_client http options skip critical =
      ground (arith, http, options, skip, critical)
  call_memory_fallback raises failing http options skip critical =
      ground (arith, http, options, skip, critical)
  call_memory_fallback (answer _ _) away http options skip critical = elim away [ ]

abbrev pub slashes : ℕ → Text
slashes zero = []
slashes (suc n) = slashes n ++ b'/' ∷ []

rstrip-snoc : (path : Text) → rstrip_slash (path ++ b'/' ∷ []) ≡ rstrip_slash path
unfolding rstrip_slash
rstrip-snoc path = rw (reverse-append path (b'/' ∷ []))

rstrip-slashes : (path : Text) (n : ℕ) → rstrip_slash (path ++ slashes n) ≡ rstrip_slash path
rstrip-slashes path zero = rw append-nil
rstrip-slashes path (suc n) =
    rw (← append_assoc path (slashes n) (b'/' ∷ []))
      (rstrip-snoc (path ++ slashes n) ∙ rstrip-slashes path n)

-- A path keeps its limit, its key and its fallback with any number of slashes behind it.
pub plan-slashes :
    (settings : LimitSettings) (path : Text) (n : ℕ)
    → (plan settings (path ++ slashes n) ≡ plan settings path)
      × (is_critical_path settings (path ++ slashes n) ≡ is_critical_path settings path)
unfolding plan is_critical_path path_is_login path_is_signup_upload
plan-slashes settings path n = (rw (rstrip-slashes path n), rw (rstrip-slashes path n))
