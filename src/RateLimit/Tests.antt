-- ===== src/RateLimit/Tests.antt =====
-- The theorems on the limit at concrete stores, settings and requests.
use kyjness_community_be.Prelude.{
  ℕ, zero, suc, ◌+◌, ◌≤◌, ◌<◌, ◌≡◌, refl, min, max, true, false, some, [], ◌∷◌, length, count_if,
  arith,
}
use kyjness_community_be.Text.{Text, codes, text_eq}
use kyjness_community_be.RateLimit.{
  login, LimitKey, Store, memory_max_keys, check_memory_fixed_window, evict_if_needed, is_live,
  find,
}
use kyjness_community_be.RateLimit.Middleware.{
  LimitSettings, Scope, is_critical_path, is_skip_path, rstrip_slash, path_is_login,
  path_is_signup_upload,
}
use kyjness_community_be.RateLimit.Evict.{evict_if_needed-lt, length-check_memory-le}
use kyjness_community_be.RateLimit.Window.{passed, requests, passed_window}

abbrev ip : Text
ip = codes "10.0.0.1"

abbrev key : LimitKey
key = record { kind = login; identity = ip }

-- a store with as many entries, all of a window that ended at time 5
abbrev closed : ℕ → Store
closed zero = []
closed (suc n) = record { key = key; count = 1; window_end = 5 } ∷ closed n

length-closed : (n : ℕ) → length (closed n) ≡ n
length-closed zero = refl
length-closed (suc n) = ground (arith, length-closed n)

none_live : (n : ℕ) → count_if (is_live 9) (closed n) ≡ 0
unfolding is_live
none_live zero = refl
none_live (suc n) = ground (arith, none_live n)

evict_if_needed-lt_example : length (evict_if_needed 9 (closed 10_000)) < memory_max_keys
evict_if_needed-lt_example = evict_if_needed-lt 9 (closed 10_000)

length-check_memory-le_example :
    length (check_memory_fixed_window key 60 5 9 (closed 10_000)).2 ≤ memory_max_keys
length-check_memory-le_example = length-check_memory-le key 60 5 9 (closed 10_000)

passed_window_example :
    passed 60 2 key [] ((key, 0) ∷ (key, 1) ∷ (key, 2) ∷ [])
    ≡ min (requests 60 2 key ((key, 1) ∷ (key, 2) ∷ []) + 1) (max 2 1)
unfolding find
passed_window_example =
    passed_window 60 2 key 0 [] ((key, 1) ∷ (key, 2) ∷ []) refl (ground arith)
      (ground arith, (ground arith, tt))

abbrev settings : LimitSettings
settings = record {
  prefix = codes "/v1";
  rate_limit_window = 60;
  rate_limit_max_requests = 100;
  login_rate_limit_window = 60;
  login_rate_limit_max_attempts = 5;
  signup_upload_rate_limit_window = 3600;
  signup_upload_rate_limit_max = 10;
}

abbrev to_login : Scope
to_login = record {
  is_http = true;
  path = codes "/v1/auth/login";
  is_options = false;
  client = some ip;
}

critical : is_critical_path settings to_login.path ≡ true
unfolding is_critical_path path_is_login path_is_signup_upload rstrip_slash text_eq
critical = refl

no_skip : is_skip_path to_login.path ≡ false
unfolding is_skip_path text_eq
no_skip = refl
