-- ===== src/Auth/RateLimit/Distinct/Tests.antt =====
-- Runs of `_DistinctValueFailureLimiter`, and its theorems at concrete limiters.
use headendarr.Prelude.{ℕ, ◌≡◌, refl, List, [], ◌∷◌, some, none, arith, ℕ_discrete}
use headendarr.Prelude.Dict.{nat_key, get, set}
use headendarr.Auth.RateLimit.Distinct.{
  DistinctValueFailureLimiter, new_distinct, record_failure, cooldown_for, distinct_values,
  prune_entries,
}
use headendarr.Auth.RateLimit.Distinct.Repeats.{
  Call, checks, fails, AllAllowed, new_distinct-AllAllowed,
}

-- Two distinct wrong keys a minute; address 5 has tried the key 77.
abbrev guessing : DistinctValueFailureLimiter ℕ ℕ
guessing = record {
  window_seconds = 60;
  max_distinct_values = 2;
  cooldown_base_seconds = 30;
  cooldown_increment_seconds = 15;
  cooldown_max_seconds = 300;
  events = (5, (1000000, 77) ∷ []) ∷ [];
  cooldown_until = [];
}

second_guess : (record_failure guessing 5 (some 78) 2000000).0.retry_after ≡ 30
unfolding record_failure cooldown_for distinct_values prune_entries get set ℕ_discrete
second_guess = refl

abbrev stubborn : List (Call ℕ ℕ)
stubborn =
    fails 5 (some 77) 1000000
    ∷ checks 5 2000000
    ∷ fails 5 (some 77) 3000000
    ∷ fails 5 none 4000000
    ∷ fails 5 (some 77) 5000000
    ∷ []

new_distinct-AllAllowed_example : AllAllowed 5 (new_distinct 60 2 30 15 300) stubborn
new_distinct-AllAllowed_example =
    new_distinct-AllAllowed 60 2 30 15 300 5 77 stubborn (omega arith)
      ((λ _. refl), (tt, ((λ _. refl), (tt, ((λ _. refl), tt)))))
