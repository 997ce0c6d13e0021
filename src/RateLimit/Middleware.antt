-- ===== src/RateLimit/Middleware.antt =====
-- app/core/middleware/rate_limit.py, `RateLimitMiddleware.__call__`: which limit a request is under.
use kyjness_community_be.Prelude.{
  ℕ, Bool, not, ◌||◌, Option, none, some, List, [], ◌++◌, if◌then◌else◌, ◌==◌,
}
use kyjness_community_be.Text.{Text, codes, text_eq, rstrip_if}
use kyjness_community_be.RateLimit.{
  LimitKind, login, signup_upload, global, LimitKey, Store, RedisReply, check_fixed_window,
}

-- the fields of `settings` that the middleware reads, and `API_PREFIX` without its last slashes
pub record LimitSettings : Type 0 where
  pub prefix : Text
  pub rate_limit_window : ℕ
  pub rate_limit_max_requests : ℕ
  pub login_rate_limit_window : ℕ
  pub login_rate_limit_max_attempts : ℕ
  pub signup_upload_rate_limit_window : ℕ
  pub signup_upload_rate_limit_max : ℕ

pub record Scope : Type 0 where
  pub is_http : Bool
  pub path : Text
  pub is_options : Bool
  pub client : Option Text

pub data ApiCode : Type 0 where
  login_rate_limit_exceeded rate_limit_exceeded : ApiCode

-- the request goes on to the application, or a 429 with a code and the seconds to wait is sent
pub data Outcome : Type 0 where
  forward : Outcome
  send_429 : ApiCode → ℕ → Outcome

-- `path.rstrip("/")`
unfoldable pub rstrip_slash : Text → Text
unfolding rstrip_if
rstrip_slash path = rstrip_if (λ c. c == b'/') path

-- `path in _SKIP_PATHS`
unfoldable pub is_skip_path : Text → Bool
is_skip_path path =
    text_eq path (codes "/livez")
    || text_eq path (codes "/readyz")
    || text_eq path (codes "/metrics")

-- `get_client_ip_from_scope`
unfoldable pub get_client_ip_from_scope : Scope → Text
get_client_ip_from_scope scope = elim scope.client [ none ↦ codes "unknown" | some ip ↦ ip ]

module _ (settings : LimitSettings) where
  unfoldable pub path_is_login : Text → Bool
  path_is_login path = text_eq (rstrip_slash path) (settings.prefix ++ codes "/auth/login")

  unfoldable pub path_is_signup_upload : Text → Bool
  path_is_signup_upload path =
      let p = rstrip_slash path in
      text_eq p (settings.prefix ++ codes "/media/images/signup/presign")
      || text_eq p (settings.prefix ++ codes "/media/images/signup/confirm")

  unfoldable pub is_critical_path : Text → Bool
  is_critical_path path = path_is_login path || path_is_signup_upload path

  -- What the three branches choose: the kind of the key, the window, the limit and the code.
  pub record Plan : Type 0 where
    pub kind : LimitKind
    pub window_sec : ℕ
    pub max_count : ℕ
    pub code : ApiCode

  unfoldable pub plan : Text → Plan
  plan path =
      if path_is_login path
      then record {
        kind = login;
        window_sec = settings.login_rate_limit_window;
        max_count = settings.login_rate_limit_max_attempts;
        code = login_rate_limit_exceeded;
      }
      else if path_is_signup_upload path
      then record {
        kind = signup_upload;
        window_sec = settings.signup_upload_rate_limit_window;
        max_count = settings.signup_upload_rate_limit_max;
        code = rate_limit_exceeded;
      }
      else record {
        kind = global;
        window_sec = settings.rate_limit_window;
        max_count = settings.rate_limit_max_requests;
        code = rate_limit_exceeded;
      }

  unfoldable pub key_of : Scope → LimitKey
  key_of scope = record { kind = (plan scope.path).kind; identity = get_client_ip_from_scope scope }

  -- `__call__`: the outcome, the store and the rejections that were counted.
  unfoldable pub call : Scope → RedisReply → ℕ → Store → Outcome × Store × List LimitKind
  call scope redis now s =
      if not scope.is_http
      then (forward, s, [])
      else if scope.is_options || is_skip_path scope.path
      then (forward, s, [])
      else let p = plan scope.path in
        let checked =
          check_fixed_window redis (key_of scope) p.window_sec p.max_count
            (not (is_critical_path scope.path)) now s in
        if checked.allowed
        then (forward, checked.store, checked.rejections)
        else (send_429 p.code checked.retry_after, checked.store, checked.rejections)
