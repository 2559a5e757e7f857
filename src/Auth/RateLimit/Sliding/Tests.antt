-- ===== src/Auth/RateLimit/Sliding/Tests.antt =====
-- Runs of `_SlidingWindowLimiter`, and its theorems at concrete limiters.
use headendarr.Prelude.{
  ℕ, ◌+◌, ◌*◌, ◌≤◌, ◌≡◌, refl, List, [], ◌∷◌, true, false, length, arith, ℕ_discrete, max,
}
use headendarr.Prelude.Dict.{nat_key, get, set}
use headendarr.Auth.RateLimit.{second, cutoff, recent, prune, retry_window}
use headendarr.Auth.RateLimit.Sliding.{SlidingWindowLimiter, check_and_record}
use headendarr.Auth.RateLimit.Sliding.Window.{start, run, times_of, sliding-window-le}
use headendarr.Auth.RateLimit.Sliding.Retry.{retry-allowed, retry-denied}

-- Two requests a minute, of which address 5 made two, at 1.0 s and at 2.5 s.
abbrev full : SlidingWindowLimiter ℕ
full = record { window_seconds = 60; max_attempts = 2; events = (5, 1000000 ∷ 2500000 ∷ []) ∷ [] }

refused : (check_and_record full 5 3500000).0.retry_after ≡ 57
unfolding check_and_record get set prune retry_window ℕ_discrete
refused = refl

retry-allowed_example :
    ((check_and_record full 5 3500000).0.allowed ≡ false)
    × ((check_and_record (check_and_record full 5 3500000).1 5 61600000).0.allowed ≡ true)
unfolding check_and_record get set prune retry_window ℕ_discrete
retry-allowed_example =
    retry-allowed full 5 3500000 61600000 1000000 (2500000 ∷ []) refl refl (omega arith)

retry-denied_example :
    (check_and_record
      (check_and_record full 5 3500000).1
      5
      (3500000 + (check_and_record full 5 3500000).0.retry_after * second)).0.allowed
    ≡ false
unfolding get prune ℕ_discrete
retry-denied_example =
    retry-denied full 5 3500000 1000000 (2500000 ∷ []) refl (omega arith) (omega arith)

abbrev requests : List (ℕ × ℕ)
requests = (5, 1000000) ∷ (6, 1000000) ∷ (5, 2000000) ∷ (5, 3000000) ∷ (5, 62000000) ∷ []

sliding-window-le_example :
    length (recent (cutoff (max 1 60) 62000000) (times_of 5 (run (start 60 2) requests).log))
    ≤ max 1 2
sliding-window-le_example = sliding-window-le 60 2 requests 5 62000000 (omega arith) (omega arith)
