-- ===== src/Auth/RateLimit/Distinct/Repeats.antt =====
-- Failures that repeat one value, under `_DistinctValueFailureLimiter`.
use headendarr.Prelude.{
  ℕ, ◌+◌, ◌-◌, ◌*◌, ◌≤◌, ◌≡◌, ◌≢◌, refl, List, [], ◌∷◌, ◌++◌, Option, none, some, true, false, All,
  All-append, ite, ltb, leb, le→ltb_false, lt→leb_false, if◌then◌else◌, arith,
}
use headendarr.Prelude.Dict.{Key, get, set, or_else, get-set_ne, get-set}
use headendarr.Auth.RateLimit.{RateLimitResult, pass, second, cutoff, whole_seconds}
use headendarr.Auth.RateLimit.Distinct.{
  DistinctValueFailureLimiter, new_distinct, distinct_values, cooldown_for, entries_at, until_of,
  precheck, record_failure,
}
use headendarr.Auth.RateLimit.Distinct.Laws.{Only, prune_entries-All, distinct_values-Only}

pub data Call (K V : Type 0) : Type 0 where
  checks : K → ℕ → Call K V
  fails : K → Option V → ℕ → Call K V

module _ {K V : Type 0} where
  -- Every failure of a key is with one value, or with a blank one.
  abbrev pub Repeats : K → V → Call K V → Type 0
  Repeats k v (checks key now) = Unit
  Repeats k v (fails key none now) = Unit
  Repeats k v (fails key (some value) now) = key ≡ k → value ≡ v

  abbrev pub key_of : Call K V → K
  key_of (checks key now) = key
  key_of (fails key value now) = key

module _ {K V : Type 0} ⦃of_key : Key K⦄ where
  precheck-clear :
      (l : DistinctValueFailureLimiter K V) (key : K) (now : ℕ)
      → until_of l key ≡ 0
      → (precheck l key now).0.allowed ≡ true
  unfolding precheck
  precheck-clear l key now h = rw h (rw (le→ltb_false now 0 (omega arith)))

module _ {K V : Type 0} ⦃of_key : Key K⦄ ⦃of_value : Key V⦄ where
  -- What a call answers, and the limiter that it leaves.
  abbrev pub answer :
      DistinctValueFailureLimiter K V → Call K V → RateLimitResult × DistinctValueFailureLimiter K V
  answer l (checks key now) = precheck l key now
  answer l (fails key value now) = record_failure l key value now

  -- Whatever is called, each call for a key is allowed.
  abbrev pub AllAllowed : K → DistinctValueFailureLimiter K V → List (Call K V) → Type 0
  AllAllowed k l [] = Unit
  AllAllowed k l (c ∷ cs) =
      (key_of c ≡ k → (answer l c).0.allowed ≡ true) × AllAllowed k (answer l c).1 cs

  -- A key that has failed with one value only.
  pub record IsRepeating (k : K) (v : V) (l : DistinctValueFailureLimiter K V) : Type 0 where
    pub two_allowed : 2 ≤ l.max_distinct_values
    pub one_value : All (Only v) (or_else [] (get k l.events))
    pub no_cooldown : until_of l k ≡ 0

  abbrev Kept : K → V → RateLimitResult × DistinctValueFailureLimiter K V → Type 0
  Kept k v (_, l) = IsRepeating k v l

  with_events-IsRepeating :
      (k : K) (v : V) (l : DistinctValueFailureLimiter K V) (key : K) (history : List (ℕ × V))
      → (key ≡ k → All (Only v) history)
      → IsRepeating k v l
      → IsRepeating k v (record l { events = set key history l.events })
  with_events-IsRepeating k v l key history f r = record {
    two_allowed = r.two_allowed;
    one_value =
        rw (get-set key k history l.events)
          (elim (of_key.same key k)
            as (λ d. All (Only v) (or_else [] (ite d (some history) (get k l.events)))) [
              | yes p ↦ f p
              | no n ↦ r.one_value
            ]);
    no_cooldown = r.no_cooldown;
  }

  entries-All :
      (k : K) (v : V) (l : DistinctValueFailureLimiter K V) (key : K) (now : ℕ)
      → IsRepeating k v l
      → key ≡ k
      → All (Only v) (entries_at l key now)
  entries-All k v l key now r p =
      rw p (
        prune_entries-All v (cutoff l.window_seconds now) (or_else [] (get k l.events)) r.one_value)

  fails_once :
      (k : K) (v : V) (l : DistinctValueFailureLimiter K V) (key : K) (value : V) (now : ℕ)
      → key ≡ k
      → value ≡ v
      → IsRepeating k v l
      → record_failure l key (some value) now
        ≡ (pass, record l { events = set key (entries_at l key now ++ (now, value) ∷ []) l.events })
  unfolding record_failure
  fails_once k v l key value now p q r =
      let history = entries_at l key now ++ (now, value) ∷ [] in
      let only = distinct_values-Only v history (
        All-append (Only v) (entries_at l key now) ((now, value) ∷ [])
          (entries-All k v l key now r p) (q, tt)) in
      rw (
        lt→leb_false l.max_distinct_values (distinct_values history) (omega (arith, r.two_allowed)))

  fails_elsewhere :
      (k : K) (v : V) (l : DistinctValueFailureLimiter K V) (key : K) (value : V) (now : ℕ)
      → key ≢ k
      → IsRepeating k v l
      → IsRepeating k v (record_failure l key (some value) now).1
  unfolding record_failure
  fails_elsewhere k v l key value now n r =
      let history = entries_at l key now ++ (now, value) ∷ [] in
      let until = now + cooldown_for l (distinct_values history) * second in
      let kept = with_events-IsRepeating k v l key history (λ p. absurd (n p)) r in
      elim (leb l.max_distinct_values (distinct_values history))
        as (λ b. Kept k v (
          if b
          then (
            record { allowed = false; retry_after = cooldown_for l (distinct_values history) },
            record l {
              events = set key history l.events;
              cooldown_until = set key until l.cooldown_until;
            },
          )
          else (pass, record l { events = set key history l.events }))) [
            | true ↦ record {
              two_allowed = kept.two_allowed;
              one_value = kept.one_value;
              no_cooldown = rw (get-set_ne key k until l.cooldown_until n) r.no_cooldown;
            }
            | false ↦ kept
          ]

  checks-IsRepeating :
      (k : K) (v : V) (l : DistinctValueFailureLimiter K V) (key : K) (now : ℕ)
      → IsRepeating k v l
      → IsRepeating k v (precheck l key now).1
  unfolding precheck
  checks-IsRepeating k v l key now r =
      elim (ltb now (until_of l key))
        as (λ b. Kept k v (
          if b
          then (record { allowed = false; retry_after = whole_seconds (until_of l key - now) }, l)
          else (pass, record l { events = set key (entries_at l key now) l.events }))) [
            | true ↦ r
            | false ↦
                with_events-IsRepeating k v l key (entries_at l key now)
                  (entries-All k v l key now r) r
          ]

  fails-IsRepeating :
      (k : K) (v : V) (l : DistinctValueFailureLimiter K V) (key : K) (value : V) (now : ℕ)
      → (key ≡ k → value ≡ v)
      → IsRepeating k v l
      → IsRepeating k v (record_failure l key (some value) now).1
  fails-IsRepeating k v l key value now f r = elim (of_key.same key k) [
    | yes p ↦ rw (fails_once k v l key value now p (f p) r) (
        with_events-IsRepeating k v l key (entries_at l key now ++ (now, value) ∷ [])
          (λ _.
            All-append (Only v) (entries_at l key now) ((now, value) ∷ [])
              (entries-All k v l key now r p) (f p, tt))
          r)
    | no n ↦ fails_elsewhere k v l key value now n r
  ]

  answer-IsRepeating :
      (k : K) (v : V) (l : DistinctValueFailureLimiter K V) (c : Call K V)
      → Repeats k v c
      → IsRepeating k v l
      → IsRepeating k v (answer l c).1
  unfolding record_failure
  answer-IsRepeating k v l (checks key now) f r = checks-IsRepeating k v l key now r
  answer-IsRepeating k v l (fails key none now) f r = r
  answer-IsRepeating k v l (fails key (some value) now) f r =
      fails-IsRepeating k v l key value now f r

  answer-allowed :
      (k : K) (v : V) (l : DistinctValueFailureLimiter K V) (c : Call K V)
      → Repeats k v c
      → IsRepeating k v l
      → key_of c ≡ k
      → (answer l c).0.allowed ≡ true
  unfolding record_failure
  answer-allowed k v l (checks key now) f r p = precheck-clear l key now (rw p r.no_cooldown)
  answer-allowed k v l (fails key none now) f r p = refl
  answer-allowed k v l (fails key (some value) now) f r p =
      rw (fails_once k v l key value now p (f p) r) refl

  repeating-AllAllowed :
      (k : K) (v : V) (l : DistinctValueFailureLimiter K V) (cs : List (Call K V))
      → All (Repeats k v) cs
      → IsRepeating k v l
      → AllAllowed k l cs
  repeating-AllAllowed k v l [] f r = tt
  repeating-AllAllowed k v l (c ∷ cs) f r = (
    answer-allowed k v l c f.0 r,
    repeating-AllAllowed k v (answer l c).1 cs f.1 (answer-IsRepeating k v l c f.0 r),
  )

  -- Where two or more distinct values are allowed, a key whose every failure is with the same
  -- value, or a blank one, is never refused, however often it fails and whatever other keys do:
  -- each check before a try and each record of a failure answers that it is allowed.
  pub new_distinct-AllAllowed :
      (window allowed base increment longest : ℕ) (k : K) (v : V) (cs : List (Call K V))
      → 2 ≤ allowed
      → All (Repeats k v) cs
      → AllAllowed k (new_distinct window allowed base increment longest) cs
  unfolding new_distinct get
  new_distinct-AllAllowed window allowed base increment longest k v cs h f =
      repeating-AllAllowed k v (new_distinct window allowed base increment longest) cs f
        (record { two_allowed = omega arith; one_value = tt; no_cooldown = refl })
