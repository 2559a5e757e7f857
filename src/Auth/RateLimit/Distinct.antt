-- ===== src/Auth/RateLimit/Distinct.antt =====
-- backend/auth_rate_limit.py, `_DistinctValueFailureLimiter`: how many different wrong stream keys an
-- address has tried in a window. A value stands for the SHA-256 digest that the source stores, taken
-- to tell values apart; `none` is a value that is blank after stripping.
pub mod Laws
pub mod Repeats
mod Tests
use headendarr.Prelude.{
  ℕ, ◌+◌, ◌-◌, ◌*◌, ◌^◌, min, max, List, [], ◌∷◌, ◌++◌, Option, none, some, Bool, true, false,
  length, leb, ltb, any_of, ite, if◌then◌else◌,
}
use headendarr.Prelude.Dict.{Dict, Key, get, set, or_else}
use headendarr.Auth.RateLimit.{RateLimitResult, pass, second, cutoff, whole_seconds}

pub record DistinctValueFailureLimiter (K V : Type 0) : Type 0 where
  pub window_seconds : ℕ
  pub max_distinct_values : ℕ
  pub cooldown_base_seconds : ℕ
  pub cooldown_increment_seconds : ℕ
  pub cooldown_max_seconds : ℕ
  pub events : Dict K (List (ℕ × V))
  pub cooldown_until : Dict K ℕ

unfoldable pub new_distinct : {K V : Type 0} → ℕ → ℕ → ℕ → ℕ → ℕ → DistinctValueFailureLimiter K V
new_distinct window_seconds max_distinct_values base increment cooldown_max_seconds = record {
  window_seconds = max 1 window_seconds;
  max_distinct_values = max 1 max_distinct_values;
  cooldown_base_seconds = max 1 base;
  cooldown_increment_seconds = max 1 increment;
  cooldown_max_seconds = max (max 1 base) cooldown_max_seconds;
  events = [];
  cooldown_until = [];
}

module _ {V : Type 0} where
  -- `while history and history[0][0] < cutoff: history.popleft()`
  unfoldable pub prune_entries : ℕ → List (ℕ × V) → List (ℕ × V)
  prune_entries before [] = []
  prune_entries before ((t, v) ∷ history) =
      if ltb t before then prune_entries before history else (t, v) ∷ history

module _ {V : Type 0} ⦃of_value : Key V⦄ where
  unfoldable pub seen : V → List (ℕ × V) → Bool
  seen v [] = false
  seen v ((t, w) ∷ history) = ite (of_value.same w v) true (seen v history)

  -- `len({entry_value for _, entry_value in history})`
  unfoldable pub distinct_values : List (ℕ × V) → ℕ
  unfolding seen
  distinct_values [] = 0
  distinct_values ((t, v) ∷ history) = (if seen v history then 0 else 1) + distinct_values history

module _ {K V : Type 0} where
  -- The cooldown for so many distinct values, in seconds.
  unfoldable pub cooldown_for : DistinctValueFailureLimiter K V → ℕ → ℕ
  cooldown_for l distinct_failures =
      let over_limit = distinct_failures - l.max_distinct_values in
      min l.cooldown_max_seconds (
        l.cooldown_base_seconds
        + (if ltb 0 over_limit then l.cooldown_increment_seconds * (2 ^ over_limit - 1) else 0))

module _ {K V : Type 0} ⦃of_key : Key K⦄ where
  abbrev pub entries_at : DistinctValueFailureLimiter K V → K → ℕ → List (ℕ × V)
  entries_at l key now = prune_entries (cutoff l.window_seconds now) (or_else [] (get key l.events))

  abbrev pub until_of : DistinctValueFailureLimiter K V → K → ℕ
  until_of l key = or_else 0 (get key l.cooldown_until)

  unfoldable pub precheck :
      DistinctValueFailureLimiter K V → K → ℕ → RateLimitResult × DistinctValueFailureLimiter K V
  precheck l key now =
      if ltb now (until_of l key)
      then (record { allowed = false; retry_after = whole_seconds (until_of l key - now) }, l)
      else (pass, record l { events = set key (entries_at l key now) l.events })

module _ {K V : Type 0} ⦃of_key : Key K⦄ ⦃of_value : Key V⦄ where
  unfoldable pub record_failure :
      DistinctValueFailureLimiter K V
      → K
      → Option V
      → ℕ
      → RateLimitResult × DistinctValueFailureLimiter K V
  record_failure l key none now = (pass, l)
  record_failure l key (some value) now =
      let history = entries_at l key now ++ (now, value) ∷ [] in
      let distinct_failures = distinct_values history in
      let bounded_cooldown = cooldown_for l distinct_failures in
      let after = record l { events = set key history l.events } in
      if leb l.max_distinct_values distinct_failures
      then (
        record { allowed = false; retry_after = bounded_cooldown },
        record after {
          cooldown_until = set key (now + bounded_cooldown * second) l.cooldown_until;
        },
      )
      else (pass, after)
