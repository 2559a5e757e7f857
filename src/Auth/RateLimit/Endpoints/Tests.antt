-- ===== src/Auth/RateLimit/Endpoints/Tests.antt =====
-- Runs of the endpoints' functions, and their theorems at a concrete state.
use headendarr.Prelude.{ℕ, ◌≡◌, ◌↔◌, refl, [], ◌∷◌, some, none, true, arith}
use headendarr.Prelude.Text.{Text, codes, strip, lower}
use headendarr.Auth.RateLimit.Sliding.{new_sliding_window}
use headendarr.Auth.RateLimit.Backoff.{FailureBackoffLimiter}
use headendarr.Auth.RateLimit.Distinct.{new_distinct}
use headendarr.Auth.RateLimit.Endpoints.{Limiters, ip_key, user_key, precheck_login}
use headendarr.Auth.RateLimit.Endpoints.Laws.{IsClear, precheck_login-allowed_iff}

abbrev address : Text
address = codes "10.0.0.1"

abbrev locked : FailureBackoffLimiter Text
locked = record {
  window_seconds = 60;
  max_attempts = 2;
  cooldown_base_seconds = 30;
  cooldown_max_seconds = 100;
  events = (address, 1000000 ∷ 2000000 ∷ 3000000 ∷ []) ∷ [];
  cooldown_until = (address, 33000000) ∷ [];
}

abbrev limiters : Limiters ℕ
limiters = record {
  login_ip_failures = locked;
  login_user_failures = record locked { events = []; cooldown_until = [] };
  stream_key_ip_failures = new_distinct 60 2 30 15 300;
  oidc_start_ip_limiter = new_sliding_window 60 10;
  oidc_callback_ip_limiter = new_sliding_window 60 10;
}

user_key_test : user_key (some (codes " Ann ")) none ≡ codes "ann|unknown"
unfolding user_key ip_key strip lower
user_key_test = refl

precheck_login-allowed_iff_example :
    ((precheck_login true limiters (some address) (some (codes "ann")) 4000000 4000000).0.allowed
      ≡ true)
    ↔ (IsClear locked (ip_key (some address)) 4000000
        × IsClear limiters.login_user_failures
            (user_key (some (codes "ann")) (some address))
            4000000)
precheck_login-allowed_iff_example =
    precheck_login-allowed_iff limiters (some address) (some (codes "ann")) 4000000 4000000
      (omega arith) (omega arith)
