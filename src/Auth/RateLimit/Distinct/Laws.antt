-- ===== src/Auth/RateLimit/Distinct/Laws.antt =====
-- Whom `_DistinctValueFailureLimiter` bars.
use headendarr.Prelude.{
  ℕ, ◌+◌, ◌*◌, ◌≤◌, ◌<◌, ◌≡◌, refl, ap, List, [], ◌∷◌, ◌++◌, some, true, false, All, ite, ltb,
  lt→ltb, le→leb, if◌then◌else◌, arith,
}
use headendarr.Prelude.Dict.{Key, get-set_self}
use headendarr.Auth.RateLimit.{RateLimitResult, second}
use headendarr.Auth.RateLimit.Distinct.{
  DistinctValueFailureLimiter, prune_entries, seen, distinct_values, cooldown_for, entries_at,
  until_of, precheck, record_failure,
}

module _ {V : Type 0} where
  abbrev pub Only : V → ℕ × V → Type 0
  Only v (t, w) = w ≡ v

  pub prune_entries-All :
      (v : V) (before : ℕ) (history : List (ℕ × V))
      → All (Only v) history
      → All (Only v) (prune_entries before history)
  unfolding prune_entries
  prune_entries-All v before [] h = tt
  prune_entries-All v before ((t, w) ∷ history) h =
      elim (ltb t before)
        as (λ b. All (Only v) (if b then prune_entries before history else (t, w) ∷ history)) [
          | true ↦ prune_entries-All v before history h.1
          | false ↦ h
        ]

module _ {V : Type 0} ⦃of_value : Key V⦄ where
  -- Among failures with one value there is one distinct value at most.
  pub distinct_values-Only :
      (v : V) (history : List (ℕ × V)) → All (Only v) history → distinct_values history ≤ 1
  unfolding distinct_values
  distinct_values-Only v [] h = omega arith
  distinct_values-Only v ((t, w) ∷ []) h = omega arith
  distinct_values-Only v ((t, w) ∷ (u, x) ∷ history) h =
      ground (arith, distinct_values-Only v ((u, x) ∷ history) h.1)

  seen-append :
      (v w : V) (t : ℕ) (history : List (ℕ × V))
      → seen v (history ++ (t, w) ∷ [])
        ≡ (if seen v history then true else ite (of_value.same w v) true false)
  unfolding seen
  seen-append v w t [] = refl
  seen-append v w t ((u, x) ∷ history) = ground (arith, seen-append v w t history)

  -- One more failure raises the count of distinct values exactly if its value is new.
  pub distinct_values-append :
      (v : V) (t : ℕ) (history : List (ℕ × V))
      → distinct_values (history ++ (t, v) ∷ [])
        ≡ distinct_values history + (if seen v history then 0 else 1)
  unfolding distinct_values
  distinct_values-append v t [] = omega arith
  distinct_values-append v t ((u, x) ∷ history) =
      ground (arith, distinct_values-append v t history, seen-append x v t history)

module _ {K V : Type 0} ⦃of_key : Key K⦄ where
  precheck-barred :
      (l : DistinctValueFailureLimiter K V) (key : K) (now : ℕ)
      → now < until_of l key
      → (precheck l key now).0.allowed ≡ false
  unfolding precheck
  precheck-barred l key now h = rw (lt→ltb now (until_of l key) h)

module _ {K V : Type 0} ⦃of_key : Key K⦄ ⦃of_value : Key V⦄ where
  refuses :
      (l : DistinctValueFailureLimiter K V) (key : K) (value : V) (now : ℕ)
      → l.max_distinct_values ≤ distinct_values (entries_at l key now ++ (now, value) ∷ [])
      → let n = distinct_values (entries_at l key now ++ (now, value) ∷ []) in
        ((record_failure l key (some value) now).0
          ≡ record { allowed = false; retry_after = cooldown_for l n })
        × (until_of (record_failure l key (some value) now).1 key ≡ now + cooldown_for l n * second)
  unfolding record_failure
  refuses l key value now h =
      let n = distinct_values (entries_at l key now ++ (now, value) ∷ []) in
      rw (le→leb l.max_distinct_values n h)
        (refl, rw (get-set_self key (now + cooldown_for l n * second) l.cooldown_until))

  -- A failure that brings the distinct values of a key to the limit is refused with a `retry_after`
  -- of at most the longest cooldown, and a check of the key before it has run out is refused.
  pub record_failure-barred :
      (l : DistinctValueFailureLimiter K V) (key : K) (value : V) (now later : ℕ)
      → l.max_distinct_values ≤ distinct_values (entries_at l key now ++ (now, value) ∷ [])
      → later < now + (record_failure l key (some value) now).0.retry_after * second
      → ((record_failure l key (some value) now).0.allowed ≡ false)
        × ((record_failure l key (some value) now).0.retry_after ≤ l.cooldown_max_seconds)
        × ((precheck (record_failure l key (some value) now).1 key later).0.allowed ≡ false)
  unfolding cooldown_for
  record_failure-barred l key value now later h before =
      let r = refuses l key value now h in
      (
        ap (λ (x : RateLimitResult). x.allowed) r.0,
        rw r.0 (omega arith),
        precheck-barred (record_failure l key (some value) now).1 key later
            (omega (arith, r.1, ap (λ (x : RateLimitResult). x.retry_after) r.0)),
      )
