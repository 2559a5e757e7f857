-- ===== src/Cso/Capacity/Tests.antt =====
-- Runs of `CsoCapacityRegistry`, and its theorems at concrete registries.
use headendarr.Prelude.{ℕ, ◌≤◌, ◌≡◌, refl, List, [], ◌∷◌, some, true, false, arith, ℕ_discrete}
use headendarr.Prelude.Dict.{nat_key, get, set}
use headendarr.Cso.Capacity.{CapacityRegistry, empty_registry, try_reserve}
use headendarr.Cso.Capacity.Counts.{WellFormed}
use headendarr.Cso.Capacity.Limits.{active, Reserves, try_reserve-Reserves}
use headendarr.Cso.Capacity.Histories.{
  Call, reserves, releases, releases_all, externals, run, run-active-le,
}

-- Key 7: owner 1 holds slots 10 and 11, owner 2 holds slot 12, and one more connection is external.
abbrev shared : CapacityRegistry ℕ ℕ ℕ
shared = record {
  allocations = (7, (1, (10, 1) ∷ (11, 1) ∷ []) ∷ (2, (12, 1) ∷ []) ∷ []) ∷ [];
  external_counts = (7, 1) ∷ [];
}

shared-WellFormed : WellFormed shared
unfolding get ℕ_discrete
shared-WellFormed = record {
  keys_once = (refl, tt);
  owners_once = ((refl, (refl, tt)), tt);
  slots_once = (((refl, (refl, tt)), ((refl, tt), tt)), tt);
}

full_at_four : (try_reserve shared 7 3 4 13).0 ≡ false
unfolding try_reserve get set ℕ_discrete
full_at_four = refl

room_at_five : (try_reserve shared 7 3 5 13).0 ≡ true
unfolding try_reserve get set ℕ_discrete
room_at_five = refl

try_reserve-Reserves_example : Reserves shared 7 3 5 13 (try_reserve shared 7 3 5 13)
try_reserve-Reserves_example = try_reserve-Reserves shared 7 3 5 13

abbrev busy : List (Call ℕ ℕ ℕ)
busy =
    reserves 7 1 2 10
    ∷ reserves 7 2 2 12
    ∷ externals ((7, some 1) ∷ [])
    ∷ releases 7 1 10
    ∷ releases_all 2
    ∷ []

run-active-le_example : active (run empty_registry busy) 7 ≤ 2
run-active-le_example = run-active-le (λ _. 2) busy 7 (omega arith)
