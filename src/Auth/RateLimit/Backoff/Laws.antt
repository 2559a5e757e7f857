-- ===== src/Auth/RateLimit/Backoff/Laws.antt =====
-- Who `_FailureBackoffLimiter` lets through.
use native.Mathlib.Nat.{pow-suc}
use headendarr.Prelude.{
  ℕ, zero, suc, ◌+◌, ◌-◌, ◌*◌, ◌^◌, ◌≤◌, ◌<◌, ◌≡◌, ◌≢◌, ◌↔◌, refl, [], ◌∷◌, ◌++◌, true, false,
  length, length-append, lt→ltb, arith,
}
use headendarr.Prelude.Dict.{Key, get, Distinct, get-set_self, get-set_ne, get-pop_self, get-pop_ne}
use headendarr.Auth.RateLimit.{second, prune}
use headendarr.Auth.RateLimit.Backoff.{
  FailureBackoffLimiter, cooldown_for, failures_at, until_of, precheck, record_failure,
  record_success,
}

two_pow_pos : (n : ℕ) → 1 ≤ 2 ^ n
two_pow_pos zero = omega arith
two_pow_pos (suc n) = rw (pow-suc 2 n) (omega (arith, two_pow_pos n))

two_pow_mono : (n m : ℕ) → n ≤ m → 2 ^ n ≤ 2 ^ m
two_pow_mono zero m h = two_pow_pos m
two_pow_mono (suc n) zero h = absurd (omega arith)
two_pow_mono (suc n) (suc m) h = rw (pow-suc 2 n, pow-suc 2 m) (omega (arith, two_pow_mono n m))

times_mono : (b p q : ℕ) → p ≤ q → b * p ≤ b * q
times_mono b p q h = grind arith

module _ {K : Type 0} where
  -- A cooldown is never shorter than the base nor longer than the maximum, and more failures never
  -- shorten it, where the base is at most the maximum.
  pub cooldown_for_bounds :
      (l : FailureBackoffLimiter K) (over more : ℕ)
      → l.cooldown_base_seconds ≤ l.cooldown_max_seconds
      → over ≤ more
      → (l.cooldown_base_seconds ≤ cooldown_for l over)
        × (cooldown_for l over ≤ cooldown_for l more)
        × (cooldown_for l more ≤ l.cooldown_max_seconds)
  unfolding cooldown_for
  cooldown_for_bounds l over more h le =
      let p = two_pow_pos (over - 1) in
      let q = two_pow_mono (over - 1) (more - 1) (omega arith) in
      ground (
        arith,
        times_mono l.cooldown_base_seconds 1 (2 ^ (over - 1)) p,
        times_mono l.cooldown_base_seconds (2 ^ (over - 1)) (2 ^ (more - 1)) q,
      )

module _ {K : Type 0} ⦃of_key : Key K⦄ where
  -- A request is let through exactly when no cooldown runs and the window holds fewer failures than
  -- the limit.
  pub precheck-allowed_iff :
      (l : FailureBackoffLimiter K) (key : K) (now : ℕ)
      → 1 ≤ l.max_attempts
      → ((precheck l key now).0.allowed ≡ true)
        ↔ ((until_of l key ≤ now) × (length (failures_at l key now) < l.max_attempts))
  unfolding precheck
  precheck-allowed_iff l key now h = ground arith

  -- While a cooldown runs, every check is refused.
  precheck-barred :
      (l : FailureBackoffLimiter K) (key : K) (now : ℕ)
      → now < until_of l key
      → ((precheck l key now).0.allowed ≡ false) × (1 ≤ (precheck l key now).0.retry_after)
  unfolding precheck
  precheck-barred l key now h = rw (lt→ltb now (until_of l key) h) (refl, omega arith)

  -- A check reads nothing but the limits and what the dicts hold for its key.
  precheck-eq :
      (l m : FailureBackoffLimiter K) (key : K) (now : ℕ)
      → l.window_seconds ≡ m.window_seconds
      → l.max_attempts ≡ m.max_attempts
      → get key l.events ≡ get key m.events
      → get key l.cooldown_until ≡ get key m.cooldown_until
      → (precheck l key now).0 ≡ (precheck m key now).0
  unfolding precheck
  precheck-eq l m key now w a e c = ground arith

  until_of-record_failure :
      (l : FailureBackoffLimiter K) (key : K) (now : ℕ)
      → l.max_attempts ≤ length (failures_at l key now)
      → until_of (record_failure l key now) key
        ≡ now + cooldown_for l (length (failures_at l key now) + 1 - l.max_attempts) * second
  unfolding record_failure
  until_of-record_failure l key now full =
      let failures = failures_at l key now in
      let over : length (failures ++ now ∷ []) ≡ length failures + 1 =
        length-append failures (now ∷ []) in
      rw (over, lt→ltb 0 (length failures + 1 - l.max_attempts) (omega arith))
        (rw (
          get-set_self key (now + cooldown_for l (length failures + 1 - l.max_attempts) * second)
            l.cooldown_until))

  -- A failure above the limit bars its key until its cooldown has run out: a check before then is
  -- refused, with a `retry_after` of at least a second.
  pub precheck-record_failure_barred :
      (l : FailureBackoffLimiter K) (key : K) (now later : ℕ)
      → l.max_attempts ≤ length (failures_at l key now)
      → later < now + cooldown_for l (length (failures_at l key now) + 1 - l.max_attempts) * second
      → ((precheck (record_failure l key now) key later).0.allowed ≡ false)
        × (1 ≤ (precheck (record_failure l key now) key later).0.retry_after)
  precheck-record_failure_barred l key now later full before =
      precheck-barred (record_failure l key now) key later
        (omega (arith, until_of-record_failure l key now full))

  pub precheck-record_failure_ne :
      (l : FailureBackoffLimiter K) (key other : K) (now later : ℕ)
      → key ≢ other
      → (precheck (record_failure l key now) other later).0 ≡ (precheck l other later).0
  unfolding record_failure
  precheck-record_failure_ne l key other now later n =
      precheck-eq (record_failure l key now) l other later refl refl
        (get-set_ne key other _ l.events n)
        (ground (
          arith,
          get-set_ne key other
              (now
                + cooldown_for l (length (failures_at l key now ++ now ∷ []) - l.max_attempts)
                  * second)
              l.cooldown_until n,
        ))

  -- A success forgets the failures and the cooldown of its key: the next check lets it through, at any
  -- time. Other keys are checked as before.
  pub precheck-record_success :
      (l : FailureBackoffLimiter K) (key : K) (now : ℕ)
      → 1 ≤ l.max_attempts
      → Distinct l.events
      → Distinct l.cooldown_until
      → ((precheck (record_success l key) key now).0.allowed ≡ true)
        × ((other : K)
            → key ≢ other
            → (precheck (record_success l key) other now).0 ≡ (precheck l other now).0)
  unfolding record_success prune
  precheck-record_success l key now h d e = (
    (precheck-allowed_iff (record_success l key) key now h).1 (
      rw (get-pop_self key l.cooldown_until e) (omega arith),
      rw (get-pop_self key l.events d) h,
    ),
    λ other n.
        precheck-eq (record_success l key) l other now refl refl (get-pop_ne key other l.events n)
          (get-pop_ne key other l.cooldown_until n),
  )
