-- ===== src/Cso/Capacity/Limits.antt =====
-- The counts of `CsoCapacityRegistry`: what a reservation, a release and `release_all` do to the
-- number of slots in use for each key, and the limit over any history.
use headendarr.Prelude.{
  ℕ, ◌+◌, ◌≤◌, ◌≡◌, ◌≢◌, ◌⊎◌, inl, inr, refl, Option, none, Bool, true, false, ite, arith,
  Option-cases, le-or-lt, ◌<◌,
}
use headendarr.Prelude.Dict.{Dict, Key, get, set, length-set_new}
use headendarr.Cso.Capacity.{
  CapacityRegistry, total_active, owners_of, slots_of, external_of, with_owner, try_reserve,
}
use headendarr.Cso.Capacity.Counts.{total_active-set, owners_of-with_owner}

module _ {K O S : Type 0} ⦃of_key : Key K⦄ ⦃of_owner : Key O⦄ ⦃of_slot : Key S⦄ where
  -- The slots in use for a key.
  abbrev pub active : CapacityRegistry K O S → K → ℕ
  active r key = total_active (owners_of r key)

  abbrev pub held : CapacityRegistry K O S → K → O → S → Option ℕ
  held r key owner slot = get slot (slots_of (owners_of r key) owner)

  active-with_owner :
      (r : CapacityRegistry K O S) (key other : K) (owner : O) (slots : Dict S ℕ)
      → active (with_owner r key owner slots) other
        ≡ ite
            (of_key.same key other)
            (total_active (set owner slots (owners_of r key)))
            (active r other)
  active-with_owner r key other owner slots =
      ground (arith, owners_of-with_owner r key other owner slots)

  -- Storing the slots that an owner has already changes no count.
  active-touch :
      (r : CapacityRegistry K O S) (key other : K) (owner : O)
      → active (with_owner r key owner (slots_of (owners_of r key) owner)) other ≡ active r other
  active-touch r key other owner = ground (
    arith,
    active-with_owner r key other owner (slots_of (owners_of r key) owner),
    total_active-set (owners_of r key) owner (slots_of (owners_of r key) owner),
  )

  active-grant :
      (r : CapacityRegistry K O S) (key other : K) (owner : O) (slot : S)
      → held r key owner slot ≡ none
      → active (with_owner r key owner (set slot 1 (slots_of (owners_of r key) owner))) other
        ≡ ite (of_key.same key other) (active r key + 1) (active r other)
  active-grant r key other owner slot h = ground (
    arith,
    active-with_owner r key other owner (set slot 1 (slots_of (owners_of r key) owner)),
    total_active-set (owners_of r key) owner (set slot 1 (slots_of (owners_of r key) owner)),
    length-set_new slot 1 (slots_of (owners_of r key) owner) h,
  )

  pub try_reserve-held :
      (r : CapacityRegistry K O S) (key : K) (owner : O) (limit : ℕ) (slot : S)
      → held r key owner slot ≢ none
      → try_reserve r key owner limit slot
        ≡ (true, with_owner r key owner (slots_of (owners_of r key) owner))
  unfolding try_reserve
  try_reserve-held r key owner limit slot h = ground arith

  pub try_reserve-full :
      (r : CapacityRegistry K O S) (key : K) (owner : O) (limit : ℕ) (slot : S)
      → held r key owner slot ≡ none
      → limit ≤ active r key + external_of r key
      → try_reserve r key owner limit slot
        ≡ (false, with_owner r key owner (slots_of (owners_of r key) owner))
  unfolding try_reserve
  try_reserve-full r key owner limit slot h f =
      ground (arith, total_active-set (owners_of r key) owner (slots_of (owners_of r key) owner))

  pub try_reserve-granted :
      (r : CapacityRegistry K O S) (key : K) (owner : O) (limit : ℕ) (slot : S)
      → held r key owner slot ≡ none
      → active r key + external_of r key < limit
      → try_reserve r key owner limit slot
        ≡ (true, with_owner r key owner (set slot 1 (slots_of (owners_of r key) owner)))
  unfolding try_reserve
  try_reserve-granted r key owner limit slot h f =
      ground (arith, total_active-set (owners_of r key) owner (slots_of (owners_of r key) owner))

  -- Every outcome of a reservation: the owner holds the slot already; the key is full; or the slot is
  -- granted within the limit.
  abbrev pub Reserves :
      CapacityRegistry K O S → K → O → ℕ → S → Bool × CapacityRegistry K O S → Type 0
  Reserves r key owner limit slot (granted, after) =
      ((held r key owner slot ≢ none)
        × (granted ≡ true)
        × ((other : K) → active after other ≡ active r other))
      ⊎ ((held r key owner slot ≡ none)
          × (limit ≤ active r key + external_of r key)
          × (granted ≡ false)
          × ((other : K) → active after other ≡ active r other))
      ⊎ ((held r key owner slot ≡ none)
          × (granted ≡ true)
          × (active after key + external_of r key ≤ limit)
          × ((other : K)
              → active after other
                ≡ ite (of_key.same key other) (active r key + 1) (active r other)))

  -- Every outcome of a reservation: the owner holds the slot already and nothing is counted; or the
  -- key is full and the reservation is refused with no count changed; or the slot is granted, the
  -- key counts one more, which is within the limit with the connections seen outside, and no other
  -- key changes.
  pub try_reserve-Reserves :
      (r : CapacityRegistry K O S) (key : K) (owner : O) (limit : ℕ) (slot : S)
      → Reserves r key owner limit slot (try_reserve r key owner limit slot)
  try_reserve-Reserves r key owner limit slot = elim (Option-cases (held r key owner slot)) [
    | inr (v, e) ↦
        let h : held r key owner slot ≢ none = λ n. cc in
        rw (try_reserve-held r key owner limit slot h)
          (inl (h, refl, λ other. active-touch r key other owner))
    | inl n ↦ elim (le-or-lt limit (active r key + external_of r key)) [
      | inl full ↦
          rw (try_reserve-full r key owner limit slot n full)
            (inr (inl (n, full, refl, λ other. active-touch r key other owner)))
      | inr room ↦ rw (try_reserve-granted r key owner limit slot n room) (
          inr (
            inr (
              n,
              refl,
              ground (arith, active-grant r key key owner slot n),
              λ other. active-grant r key other owner slot n,
            )))
    ]
  ]
