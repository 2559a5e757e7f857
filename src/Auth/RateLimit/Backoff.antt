-- ===== src/Auth/RateLimit/Backoff.antt =====
-- backend/auth_rate_limit.py, `_FailureBackoffLimiter`: failures of a key in a window, and a cooldown
-- that doubles with each failure above the limit.
pub mod Laws
mod Tests
use headendarr.Prelude.{
  ℕ, ◌+◌, ◌-◌, ◌*◌, ◌^◌, min, max, List, [], ◌∷◌, ◌++◌, Bool, true, false, not, ◌&&◌, length, leb,
  ltb, if◌then◌else◌,
}
use headendarr.Prelude.Dict.{Dict, Key, get, set, pop, or_else, is_empty}
use headendarr.Auth.RateLimit.{
  RateLimitResult, pass, second, cutoff, prune, retry_window, whole_seconds,
}

pub record FailureBackoffLimiter (K : Type 0) : Type 0 where
  pub window_seconds : ℕ
  pub max_attempts : ℕ
  pub cooldown_base_seconds : ℕ
  pub cooldown_max_seconds : ℕ
  pub events : Dict K (List ℕ)
  pub cooldown_until : Dict K ℕ

unfoldable pub new_backoff : {K : Type 0} → ℕ → ℕ → ℕ → ℕ → FailureBackoffLimiter K
new_backoff window_seconds max_attempts cooldown_base_seconds cooldown_max_seconds = record {
  window_seconds = max 1 window_seconds;
  max_attempts = max 1 max_attempts;
  cooldown_base_seconds = max 1 cooldown_base_seconds;
  cooldown_max_seconds = max (max 1 cooldown_base_seconds) cooldown_max_seconds;
  events = [];
  cooldown_until = [];
}

module _ {K : Type 0} where
  -- The cooldown after so many failures above the limit, in seconds.
  unfoldable pub cooldown_for : FailureBackoffLimiter K → ℕ → ℕ
  cooldown_for l over_limit =
      min l.cooldown_max_seconds (l.cooldown_base_seconds * 2 ^ (over_limit - 1))

module _ {K : Type 0} ⦃of_key : Key K⦄ where
  abbrev pub failures_at : FailureBackoffLimiter K → K → ℕ → List ℕ
  failures_at l key now = prune (cutoff l.window_seconds now) (or_else [] (get key l.events))

  abbrev pub until_of : FailureBackoffLimiter K → K → ℕ
  until_of l key = or_else 0 (get key l.cooldown_until)

  unfoldable pub precheck :
      FailureBackoffLimiter K → K → ℕ → RateLimitResult × FailureBackoffLimiter K
  precheck l key now =
      let history = failures_at l key now in
      if ltb now (until_of l key)
      then (record { allowed = false; retry_after = whole_seconds (until_of l key - now) }, l)
      else (
        if leb l.max_attempts (length history) && not (is_empty history)
            then record { allowed = false; retry_after = retry_window l.window_seconds now history }
            else pass,
        record l { events = set key history l.events },
      )

  unfoldable pub record_failure : FailureBackoffLimiter K → K → ℕ → FailureBackoffLimiter K
  record_failure l key now =
      let history = failures_at l key now ++ now ∷ [] in
      let over_limit = length history - l.max_attempts in
      record l {
        events = set key history l.events;
        cooldown_until =
            if ltb 0 over_limit
            then set key (now + cooldown_for l over_limit * second) l.cooldown_until
            else l.cooldown_until;
      }

  unfoldable pub record_success : FailureBackoffLimiter K → K → FailureBackoffLimiter K
  record_success l key = record l {
    events = pop key l.events;
    cooldown_until = pop key l.cooldown_until;
  }
