-- ===== src/Cso/Capacity/Ownership.antt =====
-- What one owner of `CsoCapacityRegistry` holds, for sessions that hold one slot at most.
use headendarr.Prelude.{
  ℕ, ◌+◌, ◌≡◌, ◌≢◌, ◌⊎◌, inl, inr, refl, ◌∙◌, Option, none, some, Bool, true, false, ite, arith,
  le-or-lt,
}
use headendarr.Prelude.Dict.{Dict, Key, get, set, get-set}
use headendarr.Cso.Capacity.{
  CapacityRegistry, owners_of, slots_of, with_owner, try_reserve, release, release_all, external_of,
}
use headendarr.Cso.Capacity.Counts.{WellFormed, owners_of-with_owner}
use headendarr.Cso.Capacity.Limits.{held, active, try_reserve-full, try_reserve-granted}
use headendarr.Cso.Capacity.Release.{held-release}
use headendarr.Cso.Capacity.ReleaseAll.{held-release_all}
use headendarr.Cso.Capacity.Histories.{try_reserve-WellFormed}

module _ {K O S : Type 0} ⦃of_key : Key K⦄ ⦃of_owner : Key O⦄ ⦃of_slot : Key S⦄ where
  -- An owner holds one slot and no other, or none at all.
  abbrev pub Exactly : CapacityRegistry K O S → O → Option (K × S) → Type 0
  Exactly r owner none = (k : K) (s : S) → held r k owner s ≡ none
  Exactly r owner (some (key, slot)) =
      (k : K) (s : S)
      → held r k owner s ≡ ite (of_key.same key k) (ite (of_slot.same slot s) (some 1) none) none

  -- No other owner's slots are different.
  abbrev pub Undisturbed : O → CapacityRegistry K O S → CapacityRegistry K O S → Type 0
  Undisturbed owner r after = (o : O) (k : K) (s : S) → owner ≢ o → held after k o s ≡ held r k o s

  pub Undisturbed-trans :
      (owner : O) (q r s : CapacityRegistry K O S)
      → Undisturbed owner q r
      → Undisturbed owner r s
      → Undisturbed owner q s
  Undisturbed-trans owner q r s f g = λ o k slot n. g o k slot n ∙ f o k slot n

  pub same-Exactly :
      (o : O) (r after : CapacityRegistry K O S) (slot : Option (K × S))
      → ((k : K) (s : S) → held after k o s ≡ held r k o s)
      → Exactly r o slot
      → Exactly after o slot
  same-Exactly o r after none same exact = λ k s. same k s ∙ exact k s
  same-Exactly o r after (some (key, slot)) same exact = λ k s. same k s ∙ exact k s

  held-with_owner :
      (r : CapacityRegistry K O S) (key k : K) (owner o : O) (slots : Dict S ℕ) (s : S)
      → held (with_owner r key owner slots) k o s
        ≡ ite
            (of_key.same key k)
            (ite (of_owner.same owner o) (get s slots) (held r k o s))
            (held r k o s)
  held-with_owner r key k owner o slots s =
      ground
        (arith, owners_of-with_owner r key k owner slots, get-set owner o slots (owners_of r key))

  -- Storing what an owner has already changes what nobody holds.
  held-touch :
      (r : CapacityRegistry K O S) (key k : K) (owner o : O) (s : S)
      → held (with_owner r key owner (slots_of (owners_of r key) owner)) k o s ≡ held r k o s
  held-touch r key k owner o s =
      ground (arith, held-with_owner r key k owner o (slots_of (owners_of r key) owner) s)

  held-grant :
      (r : CapacityRegistry K O S) (key k : K) (owner o : O) (slot s : S)
      → held (with_owner r key owner (set slot 1 (slots_of (owners_of r key) owner))) k o s
        ≡ ite
            (of_key.same key k)
            (ite
              (of_owner.same owner o)
              (ite (of_slot.same slot s) (some 1) (held r k o s))
              (held r k o s))
            (held r k o s)
  held-grant r key k owner o slot s = ground (
    arith,
    held-with_owner r key k owner o (set slot 1 (slots_of (owners_of r key) owner)) s,
    get-set slot s 1 (slots_of (owners_of r key) owner),
  )

  -- What a reservation by an owner that holds nothing leaves.
  pub record Reserved (r : CapacityRegistry K O S) (owner : O) (key : K) (slot : S)
      (result : Bool × CapacityRegistry K O S) : Type 0 where
    pub outcome :
        ((result.0 ≡ false) × Exactly result.1 owner none)
        ⊎ ((result.0 ≡ true) × Exactly result.1 owner (some (key, slot)))
    pub undisturbed : Undisturbed owner r result.1
    pub well_formed : WellFormed result.1

  pub try_reserve-Reserved :
      (r : CapacityRegistry K O S) (key : K) (owner : O) (limit : ℕ) (slot : S)
      → WellFormed r
      → Exactly r owner none
      → Reserved r owner key slot (try_reserve r key owner limit slot)
  try_reserve-Reserved r key owner limit slot w idle =
      let wf = try_reserve-WellFormed r key owner limit slot w in
      elim (le-or-lt limit (active r key + external_of r key)) [
        | inl full ↦
            let e = try_reserve-full r key owner limit slot (idle key slot) full in
            rw e (record {
              outcome = inl (refl, λ k s. held-touch r key k owner owner s ∙ idle k s);
              undisturbed = λ o k s n. held-touch r key k owner o s;
              well_formed = rw e at wf;
            })
        | inr room ↦
            let e = try_reserve-granted r key owner limit slot (idle key slot) room in
            rw e (record {
              outcome =
                  inr
                    (refl, λ k s. ground (arith, held-grant r key k owner owner slot s, idle k s));
              undisturbed = λ o k s n. ground (arith, held-grant r key k owner o slot s);
              well_formed = rw e at wf;
            })
      ]

  pub release-Exactly :
      (r : CapacityRegistry K O S) (key : K) (owner : O) (slot : S)
      → WellFormed r
      → Exactly r owner (some (key, slot))
      → Exactly (release r key owner slot) owner none
  release-Exactly r key owner slot w only =
      λ k s. ground (arith, held-release r key k owner owner slot s w, only k s)

  pub release-Undisturbed :
      (r : CapacityRegistry K O S) (key : K) (owner : O) (slot : S)
      → WellFormed r
      → Undisturbed owner r (release r key owner slot)
  release-Undisturbed r key owner slot w =
      λ o k s n. ground (arith, held-release r key k owner o slot s w)

  -- Releasing another slot leaves the one that is held.
  pub release_other-Exactly :
      (r : CapacityRegistry K O S) (key : K) (owner : O) (slot other : S)
      → WellFormed r
      → other ≢ slot
      → Exactly r owner (some (key, slot))
      → Exactly (release r key owner other) owner (some (key, slot))
  release_other-Exactly r key owner slot other w n only =
      λ k s. ground (arith, held-release r key k owner owner other s w, only k s)

  pub release_all-Exactly :
      (r : CapacityRegistry K O S) (owner : O)
      → WellFormed r
      → Exactly (release_all r owner) owner none
  release_all-Exactly r owner w = λ k s. ground (arith, held-release_all r owner owner k s w)

  pub release_all-Undisturbed :
      (r : CapacityRegistry K O S) (owner : O)
      → WellFormed r
      → Undisturbed owner r (release_all r owner)
  release_all-Undisturbed r owner w = λ o k s n. ground (arith, held-release_all r owner o k s w)
