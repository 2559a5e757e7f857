-- ===== src/Cso/Capacity.antt =====
-- backend/cso/capacity.py, `CsoCapacityRegistry`: how many upstream connections are in use for each
-- capacity key (an account, a playlist or a source). The types of keys, owners and slots are left
-- open; they are the keys of Python dicts. The lock makes each method one step.
pub mod Counts
pub mod Limits
pub mod Release
pub mod ReleaseAll
pub mod Histories
pub mod Ownership
mod Tests
use headendarr.Prelude.{
  ℕ, ◌+◌, List, [], ◌∷◌, Option, none, some, Bool, true, false, length, leb, ltb, if◌then◌else◌,
}
use headendarr.Prelude.Dict.{Dict, Key, get, set, pop, values, sum_values, or_else, is_empty}

-- key → owner → slot → 1, and key → connections seen outside the registry.
pub record CapacityRegistry (K O S : Type 0) : Type 0 where
  pub allocations : Dict K (Dict O (Dict S ℕ))
  pub external_counts : Dict K ℕ

pub record Usage : Type 0 where
  pub allocations : ℕ
  pub external : ℕ
  pub total : ℕ

abbrev pub empty_registry : {K O S : Type 0} → CapacityRegistry K O S
empty_registry = record { allocations = []; external_counts = [] }

module _ {O S : Type 0} where
  -- `sum(len(slots) for slots in current.values())`
  abbrev pub total_active : Dict O (Dict S ℕ) → ℕ
  total_active = sum_values (λ slots. length slots)

module _ {O S : Type 0} ⦃of_owner : Key O⦄ where
  -- The slots that one owner holds, none if it is missing.
  abbrev pub slots_of : Dict O (Dict S ℕ) → O → Dict S ℕ
  slots_of current owner = or_else [] (get owner current)

  unfoldable pub without_slot : Dict O (Dict S ℕ) → O → Dict S ℕ → Dict O (Dict S ℕ)
  without_slot current owner [] = pop owner current
  without_slot current owner (s ∷ slots) = set owner (s ∷ slots) current

module _ {K O S : Type 0} ⦃of_owner : Key O⦄ where
  -- The loop of `release_all` over the keys; a key whose owners are all gone is popped.
  unfoldable pub release_entries : O → Dict K (Dict O (Dict S ℕ)) → Dict K (Dict O (Dict S ℕ))
  release_entries owner [] = []
  release_entries owner ((key, current) ∷ rest) =
      let left = pop owner current in
      let after = release_entries owner rest in if is_empty left then after else (key, left) ∷ after

module _ {K : Type 0} ⦃of_key : Key K⦄ where
  -- A count that `int` cannot read is `none` and counts as zero.
  unfoldable pub positive_counts : List (K × Option ℕ) → Dict K ℕ → Dict K ℕ
  positive_counts [] counts = counts
  positive_counts ((key, count) ∷ rest) counts =
      positive_counts rest
        (if ltb 0 (or_else 0 count) then set key (or_else 0 count) counts else counts)

module _ {K O S : Type 0} ⦃of_key : Key K⦄ ⦃of_owner : Key O⦄ ⦃of_slot : Key S⦄ where
  -- The owners of a key, and the connections seen outside, none if it is missing.
  abbrev pub owners_of : CapacityRegistry K O S → K → Dict O (Dict S ℕ)
  owners_of r key = or_else [] (get key r.allocations)

  abbrev pub external_of : CapacityRegistry K O S → K → ℕ
  external_of r key = or_else 0 (get key r.external_counts)

  -- What `setdefault` leaves behind, on the rejecting branch too.
  unfoldable pub with_owner : CapacityRegistry K O S → K → O → Dict S ℕ → CapacityRegistry K O S
  with_owner r key owner slots = record r {
    allocations = set key (set owner slots (owners_of r key)) r.allocations;
  }

  unfoldable pub try_reserve :
      CapacityRegistry K O S → K → O → ℕ → S → Bool × CapacityRegistry K O S
  unfolding with_owner
  try_reserve r key owner limit slot =
      let current = owners_of r key in
      let owner_slots = slots_of current owner in
      let touched = with_owner r key owner owner_slots in
      elim (get slot owner_slots) [
        | some _ ↦ (true, touched)
        | none ↦
            if leb limit (total_active (set owner owner_slots current) + external_of r key)
            then (false, touched)
            else (true, with_owner r key owner (set slot 1 owner_slots))
      ]

  -- `if not current: self._allocations.pop(key, None)`, where `current` is in the dict otherwise.
  unfoldable pub put_back : CapacityRegistry K O S → K → Dict O (Dict S ℕ) → CapacityRegistry K O S
  put_back r key [] = record r { allocations = pop key r.allocations }
  put_back r key (o ∷ current) = record r { allocations = set key (o ∷ current) r.allocations }

  unfoldable pub release : CapacityRegistry K O S → K → O → S → CapacityRegistry K O S
  unfolding put_back without_slot
  release r key owner slot =
      let current = owners_of r key in
      let owner_slots = slots_of current owner in
      if is_empty current
      then r
      else if is_empty owner_slots
      then r
      else put_back r key (without_slot current owner (pop slot owner_slots))

  unfoldable pub release_all : CapacityRegistry K O S → O → CapacityRegistry K O S
  unfolding release_entries
  release_all r owner = record r { allocations = release_entries owner r.allocations }

  unfoldable pub set_external_counts :
      CapacityRegistry K O S → List (K × Option ℕ) → CapacityRegistry K O S
  unfolding positive_counts
  set_external_counts r counts = record r { external_counts = positive_counts counts [] }

  -- `none` is a key that is missing or blank.
  unfoldable pub get_usage : CapacityRegistry K O S → Option K → Usage
  get_usage r none = record { allocations = 0; external = 0; total = 0 }
  get_usage r (some key) =
      let allocations = total_active (owners_of r key) in
      let external = external_of r key in
      record { allocations = allocations; external = external; total = allocations + external }
