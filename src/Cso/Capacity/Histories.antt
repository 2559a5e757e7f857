-- ===== src/Cso/Capacity/Histories.antt =====
-- Histories of `CsoCapacityRegistry`: any calls, from the registry of a new process.
use headendarr.Prelude.{
  ℕ, ◌+◌, ◌≤◌, List, [], ◌∷◌, Option, none, All, arith, ◌≢◌, inl, inr, Option-cases, le-or-lt,
}
use headendarr.Prelude.Dict.{Key, get, set, set-Distinct}
use headendarr.Cso.Capacity.{
  CapacityRegistry, empty_registry, owners_of, slots_of, external_of, try_reserve, release,
  release_all, set_external_counts,
}
use headendarr.Cso.Capacity.Counts.{WellFormed, with_owner-WellFormed, slots_once}
use headendarr.Cso.Capacity.Limits.{
  active, held, try_reserve-Reserves, try_reserve-held, try_reserve-full, try_reserve-granted,
}
use headendarr.Cso.Capacity.Release.{release-WellFormed, active-release}
use headendarr.Cso.Capacity.ReleaseAll.{release_all-WellFormed, active-release_all}

pub data Call (K O S : Type 0) : Type 0 where
  reserves : K → O → ℕ → S → Call K O S
  releases : K → O → S → Call K O S
  releases_all : O → Call K O S
  externals : List (K × Option ℕ) → Call K O S

module _ {K O S : Type 0} where
  -- Every reservation of a key asks for at most the key's limit.
  abbrev pub Asks : (K → ℕ) → Call K O S → Type 0
  Asks limit_of (reserves key owner limit slot) = limit ≤ limit_of key
  Asks limit_of (releases key owner slot) = Unit
  Asks limit_of (releases_all owner) = Unit
  Asks limit_of (externals counts) = Unit

module _ {K O S : Type 0} ⦃of_key : Key K⦄ ⦃of_owner : Key O⦄ ⦃of_slot : Key S⦄ where
  pub step : CapacityRegistry K O S → Call K O S → CapacityRegistry K O S
  step r (reserves key owner limit slot) = (try_reserve r key owner limit slot).1
  step r (releases key owner slot) = release r key owner slot
  step r (releases_all owner) = release_all r owner
  step r (externals counts) = set_external_counts r counts

  pub run : CapacityRegistry K O S → List (Call K O S) → CapacityRegistry K O S
  unfolding step
  run r [] = r
  run r (c ∷ cs) = run (step r c) cs

  pub try_reserve-WellFormed :
      (r : CapacityRegistry K O S) (key : K) (owner : O) (limit : ℕ) (slot : S)
      → WellFormed r
      → WellFormed (try_reserve r key owner limit slot).1
  try_reserve-WellFormed r key owner limit slot w =
      let held_slots = slots_of (owners_of r key) owner in
      let touched = with_owner-WellFormed r key owner held_slots (slots_once r key owner w) w in
      elim (Option-cases (held r key owner slot)) [
        | inr (v, e) ↦
            let h : held r key owner slot ≢ none = λ n. cc in
            rw (try_reserve-held r key owner limit slot h) touched
        | inl n ↦ elim (le-or-lt limit (active r key + external_of r key)) [
          | inl full ↦ rw (try_reserve-full r key owner limit slot n full) touched
          | inr room ↦ rw (try_reserve-granted r key owner limit slot n room) (
              with_owner-WellFormed r key owner (set slot 1 held_slots)
                (set-Distinct slot 1 held_slots (slots_once r key owner w)) w)
        ]
      ]

  step-WellFormed :
      (r : CapacityRegistry K O S) (c : Call K O S) → WellFormed r → WellFormed (step r c)
  unfolding step set_external_counts
  step-WellFormed r (reserves key owner limit slot) w =
      try_reserve-WellFormed r key owner limit slot w
  step-WellFormed r (releases key owner slot) w = release-WellFormed r key owner slot w
  step-WellFormed r (releases_all owner) w = release_all-WellFormed r owner w
  step-WellFormed r (externals counts) w = record {
    keys_once = w.keys_once;
    owners_once = w.owners_once;
    slots_once = w.slots_once;
  }

  -- No step brings a key above its limit.
  step-le :
      (limit_of : K → ℕ) (r : CapacityRegistry K O S) (c : Call K O S) (k : K)
      → WellFormed r
      → Asks limit_of c
      → active r k ≤ limit_of k
      → active (step r c) k ≤ limit_of k
  unfolding step set_external_counts
  step-le limit_of r (reserves key owner limit slot) k w a h =
      elim (try_reserve-Reserves r key owner limit slot) [
        | inl (_, _, same) ↦ omega (arith, same k)
        | inr rest ↦ elim rest [
          | inl (_, _, _, same) ↦ omega (arith, same k)
          | inr (_, _, within, now) ↦ ground (arith, now k)
        ]
      ]
  step-le limit_of r (releases key owner slot) k w a h =
      omega (arith, active-release r key k owner slot w)
  step-le limit_of r (releases_all owner) k w a h = omega (arith, active-release_all r owner k w)
  step-le limit_of r (externals counts) k w a h = h

  run-le :
      (limit_of : K → ℕ) (r : CapacityRegistry K O S) (cs : List (Call K O S)) (k : K)
      → WellFormed r
      → All (Asks limit_of) cs
      → active r k ≤ limit_of k
      → active (run r cs) k ≤ limit_of k
  unfolding run
  run-le limit_of r [] k w a h = h
  run-le limit_of r (c ∷ cs) k w a h =
      run-le limit_of (step r c) cs k (step-WellFormed r c w) a.1 (step-le limit_of r c k w a.0 h)

  -- After any calls from an empty registry in which every reservation of a key asks for at most the
  -- key's limit, the slots in use for the key are within that limit.
  pub run-active-le :
      (limit_of : K → ℕ) (cs : List (Call K O S)) (k : K)
      → All (Asks limit_of) cs
      → active (run empty_registry cs) k ≤ limit_of k
  run-active-le limit_of cs k a =
      run-le limit_of empty_registry cs k
        (record { keys_once = tt; owners_once = tt; slots_once = tt }) a (unfold get in omega arith)
