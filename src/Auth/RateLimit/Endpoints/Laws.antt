-- ===== src/Auth/RateLimit/Endpoints/Laws.antt =====
-- Who gets past the login endpoint's limiters.
use headendarr.Prelude.{ℕ, ◌≤◌, ◌<◌, ◌≡◌, ◌↔◌, refl, Option, Bool, true, false, length, arith}
use headendarr.Prelude.Dict.{Distinct}
use headendarr.Prelude.Text.{Text, text_key}
use headendarr.Auth.RateLimit.Backoff.{FailureBackoffLimiter, failures_at, until_of, precheck}
use headendarr.Auth.RateLimit.Backoff.Laws.{precheck-allowed_iff, precheck-record_success}
use headendarr.Auth.RateLimit.Endpoints.{
  Limiters, ip_key, user_key, precheck_login, record_login_success,
}

-- No cooldown of the key runs, and its recent failures are below the limit.
abbrev pub IsClear : FailureBackoffLimiter Text → Text → ℕ → Type 0
IsClear l key now = (until_of l key ≤ now) × (length (failures_at l key now) < l.max_attempts)

module _ {V : Type 0} where
  precheck_login-both :
      (l : Limiters V) (ip username : Option Text) (now_ip now_user : ℕ)
      → ((precheck_login true l ip username now_ip now_user).0.allowed ≡ true) ↔ (
          ((precheck l.login_ip_failures (ip_key ip) now_ip).0.allowed ≡ true)
          × ((precheck l.login_user_failures (user_key username ip) now_user).0.allowed ≡ true))
  unfolding precheck_login
  precheck_login-both l ip username now_ip now_user = ground arith

  -- With rate limits enabled and at least one attempt allowed, a login is let through exactly when
  -- the address is clear and the user at that address is clear.
  pub precheck_login-allowed_iff :
      (l : Limiters V) (ip username : Option Text) (now_ip now_user : ℕ)
      → 1 ≤ l.login_ip_failures.max_attempts
      → 1 ≤ l.login_user_failures.max_attempts
      → ((precheck_login true l ip username now_ip now_user).0.allowed ≡ true) ↔ (
          IsClear l.login_ip_failures (ip_key ip) now_ip
          × IsClear l.login_user_failures (user_key username ip) now_user)
  precheck_login-allowed_iff l ip username now_ip now_user h k =
      let both = precheck_login-both l ip username now_ip now_user in
      let by_ip = precheck-allowed_iff l.login_ip_failures (ip_key ip) now_ip h in
      let by_user = precheck-allowed_iff l.login_user_failures (user_key username ip) now_user k in
      (
        λ a. (by_ip.0 (both.0 a).0, by_user.0 (both.0 a).1),
        λ c. both.1 (by_ip.1 c.0, by_user.1 c.1),
      )

  -- After a login has succeeded the same user at the same address is let through at any time,
  -- whether or not rate limits are enabled. Both limiters are well formed and allow at least one
  -- attempt.
  pub precheck_login-record_login_success :
      (enabled : Bool) (l : Limiters V) (ip username : Option Text) (now_ip now_user : ℕ)
      → 1 ≤ l.login_ip_failures.max_attempts
      → 1 ≤ l.login_user_failures.max_attempts
      → Distinct l.login_ip_failures.events × Distinct l.login_ip_failures.cooldown_until
      → Distinct l.login_user_failures.events × Distinct l.login_user_failures.cooldown_until
      → (precheck_login enabled
          (record_login_success enabled l ip username)
          ip
          username
          now_ip
          now_user).0.allowed
        ≡ true
  unfolding precheck_login record_login_success
  precheck_login-record_login_success false l ip username now_ip now_user h k d e = refl
  precheck_login-record_login_success true l ip username now_ip now_user h k d e = ground (
    arith,
    (precheck-record_success l.login_ip_failures (ip_key ip) now_ip h d.0 d.1).0,
    (precheck-record_success l.login_user_failures (user_key username ip) now_user k e.0 e.1).0,
  )
