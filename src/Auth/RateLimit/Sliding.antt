-- ===== src/Auth/RateLimit/Sliding.antt =====
-- backend/auth_rate_limit.py, `_SlidingWindowLimiter`: at most so many requests of a key in a window.
pub mod Window
pub mod Retry
mod Tests
use headendarr.Prelude.{
  ℕ, ◌+◌, ◌-◌, ◌*◌, ◌≤◌, ◌<◌, ◌≡◌, max, refl, sym, ap, ◌∙◌, List, [], ◌∷◌, ◌++◌, Bool, true, false,
  length, length-append, leb, All, ite, if◌then◌else◌, arith, ◌⊎◌, inl, inr, le-or-lt, le→leb,
  lt→leb_false, Option, some, subst, if_pos, if_neg, ◌≢◌,
}
use headendarr.Prelude.Dict.{Dict, Key, get, set, or_else, get-set}
use headendarr.Auth.RateLimit.{
  RateLimitResult, pass, second, cutoff, prune, retry_window, prune-append, recent, Covers,
  Covers-later, Covers-prune, Covers-record, Covers-length,
}

pub record SlidingWindowLimiter (K : Type 0) : Type 0 where
  pub window_seconds : ℕ
  pub max_attempts : ℕ
  pub events : Dict K (List ℕ)

pub new_sliding_window : {K : Type 0} → ℕ → ℕ → SlidingWindowLimiter K
new_sliding_window window_seconds max_attempts = record {
  window_seconds = max 1 window_seconds;
  max_attempts = max 1 max_attempts;
  events = [];
}

module _ {K : Type 0} ⦃of_key : Key K⦄ where
  abbrev pub history_of : SlidingWindowLimiter K → K → List ℕ
  history_of l key = or_else [] (get key l.events)

  abbrev pub kept_at : SlidingWindowLimiter K → K → ℕ → List ℕ
  kept_at l key now = prune (cutoff l.window_seconds now) (history_of l key)

  abbrev pub with_history : SlidingWindowLimiter K → K → List ℕ → SlidingWindowLimiter K
  with_history l key history = record l { events = set key history l.events }

  -- The history in the dict is pruned in place, on the denying branch too.
  unfoldable pub check_and_record :
      SlidingWindowLimiter K → K → ℕ → RateLimitResult × SlidingWindowLimiter K
  check_and_record l key now =
      let history = kept_at l key now in
      if leb l.max_attempts (length history)
      then (
        record { allowed = false; retry_after = retry_window l.window_seconds now history },
        with_history l key history,
      )
      else (pass, with_history l key (history ++ now ∷ []))

  pub check-denied :
      (l : SlidingWindowLimiter K) (key : K) (now : ℕ)
      → l.max_attempts ≤ length (kept_at l key now)
      → check_and_record l key now ≡ (
        record {
          allowed = false;
          retry_after = retry_window l.window_seconds now (kept_at l key now);
        },
        with_history l key (kept_at l key now),
      )
  unfolding check_and_record
  check-denied l key now h = rw (le→leb _ _ h)

  pub check-allowed :
      (l : SlidingWindowLimiter K) (key : K) (now : ℕ)
      → length (kept_at l key now) < l.max_attempts
      → check_and_record l key now ≡ (pass, with_history l key (kept_at l key now ++ now ∷ []))
  unfolding check_and_record
  check-allowed l key now h = rw (lt→leb_false _ _ h)
