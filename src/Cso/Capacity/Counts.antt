-- ===== src/Cso/Capacity/Counts.antt =====
-- What the methods of `CsoCapacityRegistry` do to the owners of each key.
use headendarr.Prelude.{ℕ, ◌+◌, ◌≡◌, [], ◌∷◌, length, ite, arith}
use headendarr.Prelude.Dict.{
  Dict, Key, get, set, pop, weight, sum_values-set, sum_values-pop, get-set, get-pop, Distinct,
  AllValues, AllValues-set, AllValues-pop, AllValues-get, set-Distinct, pop-Distinct, Holds-or_else,
}
use headendarr.Cso.Capacity.{
  CapacityRegistry, total_active, owners_of, slots_of, with_owner, put_back, without_slot,
}

module _ {O S : Type 0} ⦃of_owner : Key O⦄ where
  slots_weight :
      (current : Dict O (Dict S ℕ)) (owner : O)
      → weight (λ slots. length slots) (get owner current) ≡ length (slots_of current owner)
  slots_weight current owner = ground arith

  pub total_active-set :
      (current : Dict O (Dict S ℕ)) (owner : O) (slots : Dict S ℕ)
      → total_active (set owner slots current) + length (slots_of current owner)
        ≡ total_active current + length slots
  total_active-set current owner slots = omega (
    arith,
    slots_weight current owner,
    sum_values-set (λ (xs : Dict S ℕ). length xs) owner slots current,
  )

  pub total_active-pop :
      (current : Dict O (Dict S ℕ)) (owner : O)
      → total_active (pop owner current) + length (slots_of current owner) ≡ total_active current
  total_active-pop current owner = omega (
    arith,
    slots_weight current owner,
    sum_values-pop (λ (xs : Dict S ℕ). length xs) owner current,
  )

  pub total_active-without_slot :
      (current : Dict O (Dict S ℕ)) (owner : O) (slots : Dict S ℕ)
      → total_active (without_slot current owner slots) + length (slots_of current owner)
        ≡ total_active current + length slots
  unfolding without_slot
  total_active-without_slot current owner [] = omega (arith, total_active-pop current owner)
  total_active-without_slot current owner (s ∷ slots) = total_active-set current owner (s ∷ slots)

  pub without_slot-Distinct :
      (current : Dict O (Dict S ℕ)) (owner : O) (slots : Dict S ℕ)
      → Distinct current
      → Distinct (without_slot current owner slots)
  unfolding without_slot
  without_slot-Distinct current owner [] d = pop-Distinct owner current d
  without_slot-Distinct current owner (s ∷ slots) d = set-Distinct owner (s ∷ slots) current d

  pub slots_of-without_slot :
      (current : Dict O (Dict S ℕ)) (owner other : O) (slots : Dict S ℕ)
      → Distinct current
      → slots_of (without_slot current owner slots) other
        ≡ ite (of_owner.same owner other) slots (slots_of current other)
  unfolding without_slot
  slots_of-without_slot current owner other [] d = ground (arith, get-pop owner other current d)
  slots_of-without_slot current owner other (s ∷ slots) d =
      ground (arith, get-set owner other (s ∷ slots) current)

module _ {K O S : Type 0} ⦃of_key : Key K⦄ ⦃of_owner : Key O⦄ ⦃of_slot : Key S⦄ where
  -- No key, no owner of a key and no slot of an owner stands twice, as in any Python dict.
  pub record WellFormed (r : CapacityRegistry K O S) : Type 0 where
    pub keys_once : Distinct r.allocations
    pub owners_once : AllValues Distinct r.allocations
    pub slots_once : AllValues (AllValues Distinct) r.allocations

  pub owners_of-with_owner :
      (r : CapacityRegistry K O S) (key other : K) (owner : O) (slots : Dict S ℕ)
      → owners_of (with_owner r key owner slots) other
        ≡ ite (of_key.same key other) (set owner slots (owners_of r key)) (owners_of r other)
  unfolding with_owner
  owners_of-with_owner r key other owner slots =
      ground (arith, get-set key other (set owner slots (owners_of r key)) r.allocations)

  pub owners_of-put_back :
      (r : CapacityRegistry K O S) (key other : K) (current : Dict O (Dict S ℕ))
      → Distinct r.allocations
      → owners_of (put_back r key current) other
        ≡ ite (of_key.same key other) current (owners_of r other)
  unfolding put_back
  owners_of-put_back r key other [] d = ground (arith, get-pop key other r.allocations d)
  owners_of-put_back r key other (o ∷ current) d =
      ground (arith, get-set key other (o ∷ current) r.allocations)

  pub owners_once_of :
      (r : CapacityRegistry K O S) (key : K) → WellFormed r → Distinct (owners_of r key)
  owners_once_of r key w =
      Holds-or_else Distinct [] (get key r.allocations) tt
        (AllValues-get Distinct key r.allocations w.owners_once)

  pub slots_once_of :
      (r : CapacityRegistry K O S) (key : K) → WellFormed r → AllValues Distinct (owners_of r key)
  slots_once_of r key w =
      Holds-or_else (AllValues Distinct) [] (get key r.allocations) tt
        (AllValues-get (AllValues Distinct) key r.allocations w.slots_once)

  pub slots_once :
      (r : CapacityRegistry K O S) (key : K) (owner : O)
      → WellFormed r
      → Distinct (slots_of (owners_of r key) owner)
  slots_once r key owner w =
      Holds-or_else Distinct [] (get owner (owners_of r key)) tt
        (AllValues-get Distinct owner (owners_of r key) (slots_once_of r key w))

  pub with_owner-WellFormed :
      (r : CapacityRegistry K O S) (key : K) (owner : O) (slots : Dict S ℕ)
      → Distinct slots
      → WellFormed r
      → WellFormed (with_owner r key owner slots)
  unfolding with_owner
  with_owner-WellFormed r key owner slots d w =
      let current = set owner slots (owners_of r key) in
      record {
        keys_once = set-Distinct key current r.allocations w.keys_once;
        owners_once =
            AllValues-set Distinct key current r.allocations
              (set-Distinct owner slots (owners_of r key) (owners_once_of r key w)) w.owners_once;
        slots_once =
            AllValues-set (AllValues Distinct) key current r.allocations
              (AllValues-set Distinct owner slots (owners_of r key) d (slots_once_of r key w))
              w.slots_once;
      }

  pub put_back-WellFormed :
      (r : CapacityRegistry K O S) (key : K) (current : Dict O (Dict S ℕ))
      → Distinct current
      → AllValues Distinct current
      → WellFormed r
      → WellFormed (put_back r key current)
  unfolding put_back
  put_back-WellFormed r key [] d e w = record {
    keys_once = pop-Distinct key r.allocations w.keys_once;
    owners_once = AllValues-pop Distinct key r.allocations w.owners_once;
    slots_once = AllValues-pop (AllValues Distinct) key r.allocations w.slots_once;
  }
  put_back-WellFormed r key (o ∷ current) d e w = record {
    keys_once = set-Distinct key (o ∷ current) r.allocations w.keys_once;
    owners_once = AllValues-set Distinct key (o ∷ current) r.allocations d w.owners_once;
    slots_once = AllValues-set (AllValues Distinct) key (o ∷ current) r.allocations e w.slots_once;
  }
