-- ===== src/Cso/Capacity/Release.antt =====
-- The releases of `CsoCapacityRegistry`: who holds which slot afterwards, and how many are in use.
use headendarr.Prelude.{
  ℕ, ◌+◌, ◌≡◌, ◌⊎◌, inl, inr, refl, List, [], ◌∷◌, none, true, length, ite, arith, Bool-cases,
  Option-cases, ap,
}
use headendarr.Prelude.Dict.{
  is_empty, Dict, Key, get, pop, Distinct, AllValues, length-pop_old, pop_missing, pop-Distinct,
  get-pop, AllValues-pop, AllValues-set, weight,
}
use headendarr.Cso.Capacity.{CapacityRegistry, owners_of, slots_of, put_back, without_slot, release}
use headendarr.Cso.Capacity.Counts.{
  WellFormed, total_active-without_slot, owners_of-put_back, without_slot-Distinct,
  slots_of-without_slot, owners_once_of, slots_once_of, slots_once, put_back-WellFormed,
}
use headendarr.Cso.Capacity.Limits.{active, held}

pub is_empty→nil {ℓ} : {A : Type ℓ} (xs : List A) → is_empty xs ≡ true → xs ≡ []
is_empty→nil [] h = refl
is_empty→nil (x ∷ xs) h = cc

slots_of-nil :
    {O S : Type 0} ⦃of_owner : Key O⦄ (current : Dict O (Dict S ℕ)) (owner : O)
    → current ≡ []
    → slots_of current owner ≡ []
unfolding get
slots_of-nil [] owner e = refl
slots_of-nil (o ∷ current) owner e = cc

module _ {S : Type 0} ⦃of_slot : Key S⦄ where
  get-nil : (slot : S) (slots : Dict S ℕ) → slots ≡ [] → get slot slots ≡ none
  unfolding get
  get-nil slot [] e = refl
  get-nil slot (s ∷ slots) e = cc

  length-pop :
      (slot : S) (slots : Dict S ℕ)
      → length (pop slot slots) + weight (λ _. 1) (get slot slots) ≡ length slots
  length-pop slot slots = elim (Option-cases (get slot slots)) [
    | inl n ↦ rw n (omega (arith, ap length (pop_missing slot slots n)))
    | inr (v, e) ↦ rw e (length-pop_old slot slots (λ n. cc))
  ]

module _ {O S : Type 0} ⦃of_owner : Key O⦄ where
  pub without_slot-slots :
      (current : Dict O (Dict S ℕ)) (owner : O) (slots : Dict S ℕ) ⦃of_slot : Key S⦄
      → Distinct slots
      → AllValues Distinct current
      → AllValues Distinct (without_slot current owner slots)
  unfolding without_slot
  without_slot-slots current owner [] d e = AllValues-pop Distinct owner current e
  without_slot-slots current owner (s ∷ slots) d e =
      AllValues-set Distinct owner (s ∷ slots) current d e

module _ {K O S : Type 0} ⦃of_key : Key K⦄ ⦃of_owner : Key O⦄ ⦃of_slot : Key S⦄ where
  -- The owners of a key after the slot is gone, whether or not it was there.
  abbrev left_after : CapacityRegistry K O S → K → O → S → Dict O (Dict S ℕ)
  left_after r key owner slot =
      without_slot (owners_of r key) owner (pop slot (slots_of (owners_of r key) owner))

  -- A release either does nothing, when the owner holds nothing for the key, or takes the slot out.
  release-cases :
      (r : CapacityRegistry K O S) (key : K) (owner : O) (slot : S)
      → ((slots_of (owners_of r key) owner ≡ []) × (release r key owner slot ≡ r))
        ⊎ (release r key owner slot ≡ put_back r key (left_after r key owner slot))
  unfolding release
  release-cases r key owner slot = elim (Bool-cases (is_empty (owners_of r key))) [
    | inl e ↦
        inl (slots_of-nil (owners_of r key) owner (is_empty→nil (owners_of r key) e), ground arith)
    | inr e ↦ elim (Bool-cases (is_empty (slots_of (owners_of r key) owner))) [
      | inl f ↦ inl (is_empty→nil (slots_of (owners_of r key) owner) f, ground arith)
      | inr f ↦ inr (ground arith)
    ]
  ]

  pub release-WellFormed :
      (r : CapacityRegistry K O S) (key : K) (owner : O) (slot : S)
      → WellFormed r
      → WellFormed (release r key owner slot)
  release-WellFormed r key owner slot w = elim (release-cases r key owner slot) [
    | inl (_, e) ↦ rw e w
    | inr e ↦
        let slots =
          pop-Distinct slot (slots_of (owners_of r key) owner) (slots_once r key owner w) in
        rw e (
          put_back-WellFormed r key (left_after r key owner slot)
            (without_slot-Distinct (owners_of r key) owner _ (owners_once_of r key w))
            (without_slot-slots (owners_of r key) owner _ slots (slots_once_of r key w)) w)
  ]

  -- After a release from a well-formed registry nobody else's slots have changed, and the released
  -- slot is free.
  pub held-release :
      (r : CapacityRegistry K O S) (key k : K) (owner o : O) (slot s : S)
      → WellFormed r
      → held (release r key owner slot) k o s
        ≡ ite
            (of_key.same key k)
            (ite
              (of_owner.same owner o)
              (ite (of_slot.same slot s) none (held r k o s))
              (held r k o s))
            (held r k o s)
  held-release r key k owner o slot s w = elim (release-cases r key owner slot) [
    | inl (n, e) ↦ rw e (ground (arith, get-nil slot (slots_of (owners_of r key) owner) n))
    | inr e ↦ rw e (
        ground (
          arith,
          owners_of-put_back r key k (left_after r key owner slot) w.keys_once,
          slots_of-without_slot (owners_of r key) owner o
              (pop slot (slots_of (owners_of r key) owner)) (owners_once_of r key w),
          get-pop slot s (slots_of (owners_of r key) owner) (slots_once r key owner w),
        ))
  ]

  -- A release from a well-formed registry gives back one slot of its key if the owner held it, and
  -- none otherwise, and leaves the count of every other key alone.
  pub active-release :
      (r : CapacityRegistry K O S) (key k : K) (owner : O) (slot : S)
      → WellFormed r
      → active (release r key owner slot) k
          + ite (of_key.same key k) (weight (λ _. 1) (held r key owner slot)) 0
        ≡ active r k
  active-release r key k owner slot w = elim (release-cases r key owner slot) [
    | inl (n, e) ↦ rw e (ground (arith, get-nil slot (slots_of (owners_of r key) owner) n))
    | inr e ↦ rw e (
        ground (
          arith,
          owners_of-put_back r key k (left_after r key owner slot) w.keys_once,
          total_active-without_slot (owners_of r key) owner
              (pop slot (slots_of (owners_of r key) owner)),
          length-pop slot (slots_of (owners_of r key) owner),
        ))
  ]
