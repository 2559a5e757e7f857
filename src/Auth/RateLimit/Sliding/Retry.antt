-- ===== src/Auth/RateLimit/Sliding/Retry.antt =====
-- The `retry_after` of `_SlidingWindowLimiter`: when a refused client gets through.
use headendarr.Prelude.{
  ℕ, ◌+◌, ◌-◌, ◌*◌, ◌≤◌, ◌≡◌, refl, ap, List, [], ◌∷◌, true, false, length, length-append, ◌∙◌, ltb,
  lt→ltb, le→ltb_false, arith,
}
use headendarr.Prelude.Dict.{Key, get-set_self}
use headendarr.Auth.RateLimit.{
  RateLimitResult, second, cutoff, prune, prune-append, retry_window, whole_seconds,
}
use headendarr.Auth.RateLimit.Sliding.{
  SlidingWindowLimiter, history_of, kept_at, with_history, check_and_record, check-denied,
  check-allowed,
}

length-prune-le : (before : ℕ) (history : List ℕ) → length (prune before history) ≤ length history
length-prune-le before history =
    let p = prune-append before history in
    omega (arith, ap length p.1, length-append p.0 (prune before history))

prune-head :
    (before : ℕ) (history : List ℕ) (t : ℕ) (rest : List ℕ)
    → prune before history ≡ t ∷ rest
    → before ≤ t
unfolding prune
prune-head before [] t rest e = cc
prune-head before (u ∷ history) t rest e = ground (arith, prune-head before history t rest)

drops_first :
    (window now later t : ℕ) (rest : List ℕ)
    → now ≤ window * second + t
    → now + (whole_seconds (window * second + t - now) + 1) * second ≤ later
    → length (prune (cutoff window later) (t ∷ rest)) ≤ length rest
unfolding prune
drops_first window now later t rest h w =
    let e : ltb t (later - window * second) ≡ true = lt→ltb _ _ (omega arith) in
    rw e (length-prune-le (cutoff window later) rest)

keeps_all :
    (window now t : ℕ) (rest : List ℕ)
    → second ≤ window * second + t - now
    → prune (cutoff window (now + whole_seconds (window * second + t - now) * second)) (t ∷ rest)
      ≡ t ∷ rest
unfolding prune
keeps_all window now t rest h =
    let e : ltb t (now + whole_seconds (window * second + t - now) * second - window * second)
        ≡ false =
      le→ltb_false t (now + whole_seconds (window * second + t - now) * second - window * second)
        (omega arith) in
    rw e

module _ {K : Type 0} ⦃of_key : Key K⦄ where
  history_of_same :
      (l : SlidingWindowLimiter K) (key : K) (history : List ℕ)
      → history_of (with_history l key history) key ≡ history
  history_of_same l key history = rw (get-set_self key history l.events)

  -- What a full limiter says, and the state that it leaves.
  full-denied :
      (l : SlidingWindowLimiter K) (key : K) (now t : ℕ) (rest : List ℕ)
      → kept_at l key now ≡ t ∷ rest
      → l.max_attempts ≤ length (t ∷ rest)
      → check_and_record l key now ≡ (
        record {
          allowed = false;
          retry_after = whole_seconds (l.window_seconds * second + t - now);
        },
        with_history l key (t ∷ rest),
      )
  unfolding retry_window
  full-denied l key now t rest e h = check-denied l key now (rw e h) ∙ (rw e refl)

  -- A refused client that waits one second longer than `retry_after` says, and makes no request in
  -- the meantime, is allowed. The limiter holds exactly `max_attempts` times that the window
  -- counts.
  pub retry-allowed :
      (l : SlidingWindowLimiter K) (key : K) (now later t : ℕ) (rest : List ℕ)
      → kept_at l key now ≡ t ∷ rest
      → length (t ∷ rest) ≡ l.max_attempts
      → now + ((check_and_record l key now).0.retry_after + 1) * second ≤ later
      → ((check_and_record l key now).0.allowed ≡ false)
        × ((check_and_record (check_and_record l key now).1 key later).0.allowed ≡ true)
  retry-allowed l key now later t rest e h w =
      let d = full-denied l key now t rest e (omega arith) in
      let head = prune-head (cutoff l.window_seconds now) (history_of l key) t rest e in
      let waited : now + (whole_seconds (l.window_seconds * second + t - now) + 1) * second
          ≤ later =
        rw d at w in
      rw d (
        refl,
        ap (λ (r : RateLimitResult × SlidingWindowLimiter K). r.0.allowed)
            (check-allowed (with_history l key (t ∷ rest)) key later (
              rw (history_of_same l key (t ∷ rest)) (
                omega
                  (arith, drops_first l.window_seconds now later t rest (omega arith) waited)))),
      )

  -- A refused client that waits exactly `retry_after` seconds is refused again, whenever a whole
  -- second or more was left: `retry_after` rounds the time that is left down.
  pub retry-denied :
      (l : SlidingWindowLimiter K) (key : K) (now t : ℕ) (rest : List ℕ)
      → kept_at l key now ≡ t ∷ rest
      → l.max_attempts ≤ length (t ∷ rest)
      → second ≤ l.window_seconds * second + t - now
      → (check_and_record
          (check_and_record l key now).1
          key
          (now + (check_and_record l key now).0.retry_after * second)).0.allowed
        ≡ false
  retry-denied l key now t rest e h w = rw (full-denied l key now t rest e h) (
      ap (λ (r : RateLimitResult × SlidingWindowLimiter K). r.0.allowed)
        (check-denied (with_history l key (t ∷ rest)) key _
          (rw (history_of_same l key (t ∷ rest), keeps_all l.window_seconds now t rest w) h)))
