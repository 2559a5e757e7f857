-- ===== src/Cso/Capacity/ReleaseAll.antt =====
-- `CsoCapacityRegistry.release_all`: one owner gives up its slots of every key.
use headendarr.Prelude.{
  ℕ, ◌+◌, ◌≡◌, refl, [], ◌∷◌, none, true, false, length, ite, arith, if◌then◌else◌,
}
use headendarr.Prelude.Dict.{
  is_empty, Dict, Key, get, pop, or_else, Distinct, AllValues, pop-Distinct, get-pop, AllValues-pop,
}
use headendarr.Cso.Capacity.{CapacityRegistry, owners_of, slots_of, release_entries, release_all}
use headendarr.Cso.Capacity.Counts.{WellFormed, total_active-pop, owners_once_of}
use headendarr.Cso.Capacity.Limits.{active, held}
use headendarr.Cso.Capacity.Release.{is_empty→nil}

module _ {K O S : Type 0} ⦃of_key : Key K⦄ ⦃of_owner : Key O⦄ ⦃of_slot : Key S⦄ where
  release_entries-missing :
      (owner : O) (k : K) (d : Dict K (Dict O (Dict S ℕ)))
      → get k d ≡ none
      → get k (release_entries owner d) ≡ none
  unfolding release_entries get
  release_entries-missing owner k [] h = refl
  release_entries-missing owner k ((j, current) ∷ rest) h =
      ground (arith, release_entries-missing owner k rest)

  get-release_entries :
      (owner : O) (k : K) (d : Dict K (Dict O (Dict S ℕ)))
      → Distinct d
      → or_else [] (get k (release_entries owner d)) ≡ pop owner (or_else [] (get k d))
  unfolding release_entries get pop
  get-release_entries owner k [] h = refl
  get-release_entries owner k ((j, current) ∷ rest) h = ground (
    arith,
    is_empty→nil (pop owner current),
    release_entries-missing owner k rest,
    get-release_entries owner k rest h.1,
  )

  pub owners_of-release_all :
      (r : CapacityRegistry K O S) (owner : O) (k : K)
      → WellFormed r
      → owners_of (release_all r owner) k ≡ pop owner (owners_of r k)
  unfolding release_all
  owners_of-release_all r owner k w = get-release_entries owner k r.allocations w.keys_once

  release_entries-Distinct :
      (owner : O) (d : Dict K (Dict O (Dict S ℕ))) → Distinct d → Distinct (release_entries owner d)
  unfolding release_entries get
  release_entries-Distinct owner [] h = tt
  release_entries-Distinct owner ((j, current) ∷ rest) h =
      ground (arith, release_entries-missing owner j rest, release_entries-Distinct owner rest h.1)

  release_entries-AllValues :
      (P : Dict O (Dict S ℕ) → Type 0) (owner : O)
      → ((current : Dict O (Dict S ℕ)) → P current → P (pop owner current))
      → (d : Dict K (Dict O (Dict S ℕ))) → AllValues P d
      → AllValues P (release_entries owner d)
  unfolding release_entries
  release_entries-AllValues P owner f [] h = tt
  release_entries-AllValues P owner f ((j, current) ∷ rest) h =
      elim (is_empty (pop owner current))
        as (λ b. AllValues P (
          if b
          then release_entries owner rest
          else (j, pop owner current) ∷ release_entries owner rest)) [
            | true ↦ release_entries-AllValues P owner f rest h.1
            | false ↦ (f current h.0, release_entries-AllValues P owner f rest h.1)
          ]

  pub release_all-WellFormed :
      (r : CapacityRegistry K O S) (owner : O) → WellFormed r → WellFormed (release_all r owner)
  unfolding release_all
  release_all-WellFormed r owner w = record {
    keys_once = release_entries-Distinct owner r.allocations w.keys_once;
    owners_once =
        release_entries-AllValues Distinct owner (pop-Distinct owner) r.allocations w.owners_once;
    slots_once =
        release_entries-AllValues (AllValues Distinct) owner (AllValues-pop Distinct owner)
          r.allocations w.slots_once;
  }

  -- After `release_all` on a well-formed registry the owner holds no slot of any key, and every
  -- other owner holds what it held.
  pub held-release_all :
      (r : CapacityRegistry K O S) (owner o : O) (k : K) (s : S)
      → WellFormed r
      → held (release_all r owner) k o s ≡ ite (of_owner.same owner o) none (held r k o s)
  unfolding get
  held-release_all r owner o k s w = ground (
    arith,
    owners_of-release_all r owner k w,
    get-pop owner o (owners_of r k) (owners_once_of r k w),
  )

  -- `release_all` on a well-formed registry lowers the count of each key by the slots that the
  -- owner held for it.
  pub active-release_all :
      (r : CapacityRegistry K O S) (owner : O) (k : K)
      → WellFormed r
      → active (release_all r owner) k + length (slots_of (owners_of r k) owner) ≡ active r k
  active-release_all r owner k w =
      ground (arith, owners_of-release_all r owner k w, total_active-pop (owners_of r k) owner)
