-- ===== src/Prelude/Dict.antt =====
-- Python's `dict`: an association list in insertion order. A new key goes to the end, a key that is
-- present keeps its place when its value is replaced, and a key that is removed leaves the rest alone.
use Prim.Native.Nat.{ℕ, ◌+◌}
use mathlib.Core.Path.{◌≡◌, refl}
use mathlib.Core.Logic.{◌≢◌, ite}
use mathlib.Core.List.{List, [], ◌∷◌, map}
use mathlib.Core.Bool.{Bool, true, false}
use mathlib.Core.Option.{Option, none, some}
use native.Mathlib.Omega.{arith}
unfoldable pub use native.Mathlib.Decide.{ℕ_discrete}
use headendarr.Prelude.Lists.{length, sum_by, All}

-- What a dict asks of its keys: `==` decides equality.
pub record Key {ℓ} (K : Type ℓ) : Type ℓ where
  pub same : Discrete K

abbrev pub Dict {ℓ} : Type ℓ → Type ℓ → Type ℓ
Dict K V = List (K × V)

module _ {ℓ} {K V : Type ℓ} where
  abbrev pub keys : Dict K V → List K
  keys = map (λ e. e.0)

  abbrev pub values : Dict K V → List V
  values = map (λ e. e.1)

module _ {ℓ} {K V : Type ℓ} ⦃key : Key K⦄ where
  -- `d.get(k)`
  unfoldable pub get : K → Dict K V → Option V
  get k [] = none
  get k ((j, v) ∷ d) = ite (key.same j k) (some v) (get k d)

  -- `d[k] = v`
  unfoldable pub set : K → V → Dict K V → Dict K V
  set k v [] = (k, v) ∷ []
  set k v ((j, w) ∷ d) = ite (key.same j k) ((j, v) ∷ d) ((j, w) ∷ set k v d)

  -- `d.pop(k, None)`
  unfoldable pub pop : K → Dict K V → Dict K V
  pop k [] = []
  pop k ((j, w) ∷ d) = ite (key.same j k) d ((j, w) ∷ pop k d)

  -- No key stands twice.
  abbrev pub Distinct : Dict K V → Type ℓ
  Distinct [] = Unit
  Distinct ((j, w) ∷ d) = (get j d ≡ none) × Distinct d

  pub get-set_self : (k : K) (v : V) (d : Dict K V) → get k (set k v d) ≡ some v
  unfolding get set
  get-set_self k v [] = ground arith
  get-set_self k v ((j, w) ∷ d) = ground (arith, get-set_self k v d)

  pub get-set_ne : (k j : K) (v : V) (d : Dict K V) → k ≢ j → get j (set k v d) ≡ get j d
  unfolding get set
  get-set_ne k j v [] n = ground arith
  get-set_ne k j v ((i, w) ∷ d) n = ground (arith, get-set_ne k j v d n)

  pub get-set :
      (k j : K) (v : V) (d : Dict K V) → get j (set k v d) ≡ ite (key.same k j) (some v) (get j d)
  unfolding get set
  get-set k j v [] = refl
  get-set k j v ((i, w) ∷ d) = ground (arith, get-set k j v d)

  pub get-pop_ne : (k j : K) (d : Dict K V) → k ≢ j → get j (pop k d) ≡ get j d
  unfolding get pop
  get-pop_ne k j [] n = refl
  get-pop_ne k j ((i, w) ∷ d) n = ground (arith, get-pop_ne k j d n)

  pub get-pop_self : (k : K) (d : Dict K V) → Distinct d → get k (pop k d) ≡ none
  unfolding get pop
  get-pop_self k [] n = refl
  get-pop_self k ((i, w) ∷ d) n = ground (arith, get-pop_self k d)

  pub set-Distinct : (k : K) (v : V) (d : Dict K V) → Distinct d → Distinct (set k v d)
  unfolding get set
  set-Distinct k v [] n = (refl, tt)
  set-Distinct k v ((j, w) ∷ d) n = ground (arith, set-Distinct k v d, get-set_ne k j v d)

  pub pop-Distinct : (k : K) (d : Dict K V) → Distinct d → Distinct (pop k d)
  unfolding get pop
  pop-Distinct k [] n = tt
  pop-Distinct k ((j, w) ∷ d) n = ground (arith, pop-Distinct k d, get-pop_ne k j d)

  pub get-pop :
      (k j : K) (d : Dict K V) → Distinct d → get j (pop k d) ≡ ite (key.same k j) none (get j d)
  unfolding get pop
  get-pop k j [] n = ground arith
  get-pop k j ((i, w) ∷ d) n = ground (arith, get-pop k j d)

  -- A key that is missing grows the dict by one, and a key that is present leaves its size.
  pub length-set_new :
      (k : K) (v : V) (d : Dict K V) → get k d ≡ none → length (set k v d) ≡ length d + 1
  unfolding get set
  length-set_new k v [] h = omega arith
  length-set_new k v ((j, w) ∷ d) h = ground (arith, length-set_new k v d)

  pub length-set_old :
      (k : K) (v : V) (d : Dict K V) → get k d ≢ none → length (set k v d) ≡ length d
  unfolding get set
  length-set_old k v [] h = absurd (h refl)
  length-set_old k v ((j, w) ∷ d) h = ground (arith, length-set_old k v d)

  pub length-pop_old : (k : K) (d : Dict K V) → get k d ≢ none → length (pop k d) + 1 ≡ length d
  unfolding get pop
  length-pop_old k [] h = absurd (h refl)
  length-pop_old k ((j, w) ∷ d) h = ground (arith, length-pop_old k d)

  pub pop_missing : (k : K) (d : Dict K V) → get k d ≡ none → pop k d ≡ d
  unfolding get pop
  pop_missing k [] h = refl
  pop_missing k ((j, w) ∷ d) h = ground (arith, pop_missing k d)

-- `d.get(k) or default`, and what `d.setdefault(k, default)` returns.
abbrev pub or_else {ℓ} : {A : Type ℓ} → A → Option A → A
or_else a none = a
or_else a (some b) = b

-- `not xs`
abbrev pub is_empty {ℓ} : {A : Type ℓ} → List A → Bool
is_empty [] = true
is_empty (x ∷ xs) = false

-- A number attached to a value that may be missing.
abbrev pub weight {ℓ} : {A : Type ℓ} → (A → ℕ) → Option A → ℕ
weight f none = 0
weight f (some a) = f a

abbrev pub Holds {ℓ κ} : {A : Type ℓ} → (A → Type κ) → Option A → Type κ
Holds P none = Unit
Holds P (some a) = P a

module _ {ℓ} {K V : Type ℓ} where
  -- `sum(f(v) for v in d.values())`
  abbrev pub sum_values : (V → ℕ) → Dict K V → ℕ
  sum_values f = sum_by (λ e. f e.1)

  abbrev pub AllValues {κ} : (V → Type κ) → Dict K V → Type κ
  AllValues P = All (λ e. P e.1)

module _ {ℓ} {K V : Type ℓ} ⦃key : Key K⦄ where
  pub sum_values-set :
      (f : V → ℕ) (k : K) (v : V) (d : Dict K V)
      → sum_values f (set k v d) + weight f (get k d) ≡ sum_values f d + f v
  unfolding get set
  sum_values-set f k v [] = omega arith
  sum_values-set f k v ((j, w) ∷ d) = ground (arith, sum_values-set f k v d)

  pub sum_values-pop :
      (f : V → ℕ) (k : K) (d : Dict K V)
      → sum_values f (pop k d) + weight f (get k d) ≡ sum_values f d
  unfolding get pop
  sum_values-pop f k [] = omega arith
  sum_values-pop f k ((j, w) ∷ d) = ground (arith, sum_values-pop f k d)

  pub AllValues-set {κ} :
      (P : V → Type κ) (k : K) (v : V) (d : Dict K V)
      → P v
      → AllValues P d
      → AllValues P (set k v d)
  unfolding set
  AllValues-set P k v [] p h = (p, tt)
  AllValues-set P k v ((j, w) ∷ d) p h =
      elim (key.same j k) as (λ t. AllValues P (ite t ((j, v) ∷ d) ((j, w) ∷ set k v d))) [
        | yes _ ↦ (p, h.1)
        | no _ ↦ (h.0, AllValues-set P k v d p h.1)
      ]

  pub AllValues-pop {κ} :
      (P : V → Type κ) (k : K) (d : Dict K V) → AllValues P d → AllValues P (pop k d)
  unfolding pop
  AllValues-pop P k [] h = tt
  AllValues-pop P k ((j, w) ∷ d) h =
      elim (key.same j k) as (λ t. AllValues P (ite t d ((j, w) ∷ pop k d))) [
        | yes _ ↦ h.1
        | no _ ↦ (h.0, AllValues-pop P k d h.1)
      ]

  pub AllValues-get {κ} :
      (P : V → Type κ) (k : K) (d : Dict K V) → AllValues P d → Holds P (get k d)
  unfolding get
  AllValues-get P k [] h = tt
  AllValues-get P k ((j, w) ∷ d) h =
      elim (key.same j k) as (λ t. Holds P (ite t (some w) (get k d))) [
        | yes _ ↦ h.0
        | no _ ↦ AllValues-get P k d h.1
      ]

pub Holds-or_else {ℓ κ} :
    {A : Type ℓ} (P : A → Type κ) (a : A) (o : Option A) → P a → Holds P o → P (or_else a o)
Holds-or_else P a none p h = p
Holds-or_else P a (some b) p h = h

instance abbrev pub nat_key : Key ℕ
nat_key = record { same = ℕ_discrete }
