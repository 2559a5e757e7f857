-- ===== src/Auth/RateLimit/Endpoints.antt =====
-- backend/auth_rate_limit.py: the functions that the endpoints call. `enabled` is the setting
-- `auth_rate_limit_enabled`; each limiter reads the clock itself, so a call takes a time for each.
pub mod Laws
mod Tests
use headendarr.Prelude.{
  ℕ, List, [], ◌∷◌, ◌++◌, Option, none, some, Bool, true, false, if◌then◌else◌,
}
use headendarr.Prelude.Dict.{Key, is_empty}
use headendarr.Prelude.Text.{Text, codes, text_key, strip, lower, or_text, or_missing}
use headendarr.Auth.RateLimit.{RateLimitResult, pass}
use headendarr.Auth.RateLimit.Sliding.{SlidingWindowLimiter, check_and_record}
use headendarr.Auth.RateLimit.Backoff
use headendarr.Auth.RateLimit.Backoff.{FailureBackoffLimiter}
use headendarr.Auth.RateLimit.Distinct
use headendarr.Auth.RateLimit.Distinct.{DistinctValueFailureLimiter}

-- The limiters of the module; `V` is the type of the digests of stream keys.
pub record Limiters (V : Type 0) : Type 0 where
  pub login_ip_failures : FailureBackoffLimiter Text
  pub login_user_failures : FailureBackoffLimiter Text
  pub stream_key_ip_failures : DistinctValueFailureLimiter Text V
  pub oidc_start_ip_limiter : SlidingWindowLimiter Text
  pub oidc_callback_ip_limiter : SlidingWindowLimiter Text

unfoldable pub ip_key : Option Text → Text
ip_key ip_address = or_text (strip (or_missing ip_address (codes "unknown"))) (codes "unknown")

unfoldable pub user_key : Option Text → Option Text → Text
user_key username ip_address =
    or_text (lower (strip (or_missing username []))) (codes "unknown")
    ++ codes "|"
    ++ ip_key ip_address

module _ {V : Type 0} where
  unfoldable pub precheck_login :
      Bool → Limiters V → Option Text → Option Text → ℕ → ℕ → RateLimitResult × Limiters V
  precheck_login enabled l ip_address username now_ip now_user =
      if enabled
      then (let (ip_result, by_ip) =
            Backoff.precheck l.login_ip_failures (ip_key ip_address) now_ip in
          let (user_result, by_user) =
            Backoff.precheck l.login_user_failures (user_key username ip_address) now_user in
          if ip_result.allowed
          then (
            if user_result.allowed then pass else user_result,
            record l { login_ip_failures = by_ip; login_user_failures = by_user },
          )
          else (ip_result, record l { login_ip_failures = by_ip }))
      else (pass, l)

  unfoldable pub record_login_failure :
      Bool → Limiters V → Option Text → Option Text → ℕ → ℕ → Limiters V
  record_login_failure enabled l ip_address username now_ip now_user =
      if enabled
      then record l {
        login_ip_failures = Backoff.record_failure l.login_ip_failures (ip_key ip_address) now_ip;
        login_user_failures =
            Backoff.record_failure l.login_user_failures (user_key username ip_address) now_user;
      }
      else l

  unfoldable pub record_login_success : Bool → Limiters V → Option Text → Option Text → Limiters V
  record_login_success enabled l ip_address username =
      if enabled
      then record l {
        login_ip_failures = Backoff.record_success l.login_ip_failures (ip_key ip_address);
        login_user_failures =
            Backoff.record_success l.login_user_failures (user_key username ip_address);
      }
      else l

  unfoldable pub precheck_stream_key :
      Bool → Limiters V → Option Text → ℕ → RateLimitResult × Limiters V
  precheck_stream_key enabled l ip_address now =
      if enabled
      then (let (result, by_ip) =
            Distinct.precheck l.stream_key_ip_failures (ip_key ip_address) now in
          (result, record l { stream_key_ip_failures = by_ip }))
      else (pass, l)

  unfoldable pub check_oidc_start :
      Bool → Limiters V → Option Text → ℕ → RateLimitResult × Limiters V
  check_oidc_start enabled l ip_address now =
      if enabled
      then (let (result, by_ip) =
            check_and_record l.oidc_start_ip_limiter (ip_key ip_address) now in
          (result, record l { oidc_start_ip_limiter = by_ip }))
      else (pass, l)

  unfoldable pub check_oidc_callback :
      Bool → Limiters V → Option Text → ℕ → RateLimitResult × Limiters V
  check_oidc_callback enabled l ip_address now =
      if enabled
      then (let (result, by_ip) =
            check_and_record l.oidc_callback_ip_limiter (ip_key ip_address) now in
          (result, record l { oidc_callback_ip_limiter = by_ip }))
      else (pass, l)

-- `digest` is `hashlib.sha256(...).hexdigest()`, which is not under src/.
module _ {V : Type 0} ⦃of_value : Key V⦄ (digest : Text → V) where
  unfoldable pub digest_of : Option Text → Option V
  digest_of value =
      let value_text = strip (or_missing value []) in
      if is_empty value_text then none else some (digest value_text)

  unfoldable pub record_stream_key_failure :
      Bool → Limiters V → Option Text → Option Text → ℕ → RateLimitResult × Limiters V
  unfolding digest_of
  record_stream_key_failure enabled l ip_address stream_key now =
      if enabled
      then (let (result, by_ip) =
            Distinct.record_failure l.stream_key_ip_failures (ip_key ip_address)
              (digest_of stream_key) now in
          (result, record l { stream_key_ip_failures = by_ip }))
      else (pass, l)
