-- ===== src/Auth/RateLimit/Backoff/Tests.antt =====
-- Runs of `_FailureBackoffLimiter`, and its theorems at concrete limiters.
use headendarr.Prelude.{ℕ, ◌≤◌, ◌<◌, ◌≡◌, ◌≢◌, ◌↔◌, refl, [], ◌∷◌, true, length, arith, ℕ_discrete}
use headendarr.Prelude.Dict.{nat_key, get, set}
use headendarr.Auth.RateLimit.{prune}
use headendarr.Auth.RateLimit.Backoff.{
  FailureBackoffLimiter, cooldown_for, failures_at, until_of, precheck, record_failure,
  record_success,
}
use headendarr.Auth.RateLimit.Backoff.Laws.{precheck-allowed_iff, precheck-record_success}

-- Two failures a minute; cooldowns of 30 s, 60 s and so on, up to 100 s. Address 5 has failed twice.
abbrev failing : FailureBackoffLimiter ℕ
failing = record {
  window_seconds = 60;
  max_attempts = 2;
  cooldown_base_seconds = 30;
  cooldown_max_seconds = 100;
  events = (5, 1000000 ∷ 2000000 ∷ []) ∷ [];
  cooldown_until = [];
}

third_failure : until_of (record_failure failing 5 3000000) 5 ≡ 33000000
unfolding record_failure cooldown_for get set prune ℕ_discrete
third_failure = refl

precheck-allowed_iff_example :
    ((precheck failing 6 3000000).0.allowed ≡ true)
    ↔ ((until_of failing 6 ≤ 3000000) × (length (failures_at failing 6 3000000) < 2))
precheck-allowed_iff_example = precheck-allowed_iff failing 6 3000000 (omega arith)

precheck-record_success_example :
    ((precheck (record_success failing 5) 5 3000000).0.allowed ≡ true)
    × ((other : ℕ)
        → 5 ≢ other
        → (precheck (record_success failing 5) other 3000000).0
          ≡ (precheck failing other 3000000).0)
unfolding get
precheck-record_success_example =
    precheck-record_success failing 5 3000000 (omega arith) (refl, tt) tt
