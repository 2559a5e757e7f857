-- ===== src/Auth/RateLimit/Sliding/Window.antt =====
-- The limit of `_SlidingWindowLimiter` over any requests in the order of their times.
use headendarr.Prelude.{
  ℕ, ◌≤◌, ◌≡◌, ◌≢◌, max, refl, ap, subst, List, [], ◌∷◌, ◌++◌, length, length-append, ite, if_pos,
  if_neg, if◌then◌else◌, arith, inl, inr, le-or-lt,
}
use native.Mathlib.Nat.{le_trans}
use headendarr.Prelude.Dict.{Key, get, get-set}
use headendarr.Auth.RateLimit.{
  cutoff, prune-append, recent, Covers, Covers-later, Covers-prune, Covers-record, Covers-length,
}
use headendarr.Auth.RateLimit.Sliding.{
  SlidingWindowLimiter, new_sliding_window, history_of, kept_at, with_history, check_and_record,
  check-denied, check-allowed,
}

-- The limiter beside a log of every request that it has allowed, oldest first.
pub record Logged (K : Type 0) : Type 0 where
  pub limiter : SlidingWindowLimiter K
  pub log : List (K × ℕ)

module _ {K : Type 0} where
  -- Requests in the order of their times, none before a first time.
  abbrev pub InOrder : ℕ → List (K × ℕ) → Type 0
  InOrder from [] = Unit
  InOrder from ((_, t) ∷ calls) = (from ≤ t) × InOrder t calls

  abbrev pub latest : ℕ → List (K × ℕ) → ℕ
  latest from [] = from
  latest from ((_, t) ∷ calls) = latest t calls

module _ {K : Type 0} ⦃of_key : Key K⦄ where
  abbrev pub times_of : K → List (K × ℕ) → List ℕ
  times_of k [] = []
  times_of k ((j, t) ∷ log) = ite (of_key.same j k) (t ∷ times_of k log) (times_of k log)

  times_of-append :
      (k j : K) (t : ℕ) (log : List (K × ℕ))
      → times_of k (log ++ (j, t) ∷ [])
        ≡ ite (of_key.same j k) (times_of k log ++ t ∷ []) (times_of k log)
  times_of-append k j t [] = ground arith
  times_of-append k j t ((i, u) ∷ log) = ground (arith, times_of-append k j t log)

  history_of-with_history :
      (l : SlidingWindowLimiter K) (key k : K) (history : List ℕ)
      → history_of (with_history l key history) k ≡ ite (of_key.same key k) history (history_of l k)
  history_of-with_history l key k history = ground (arith, get-set key k history l.events)

  pub step : Logged K → K × ℕ → Logged K
  step g (key, now) =
      let (r, l) = check_and_record g.limiter key now in
      record { limiter = l; log = if r.allowed then g.log ++ (key, now) ∷ [] else g.log }

  pub run : Logged K → List (K × ℕ) → Logged K
  unfolding step
  run g [] = g
  run g (c ∷ cs) = run (step g c) cs

  -- The limiter knows of each key's allowed requests all that a window can still count, and its
  -- histories are within the limit.
  pub record Remembers (window attempts time : ℕ) (g : Logged K) : Type 0 where
    pub window_kept : g.limiter.window_seconds ≡ window
    pub attempts_kept : g.limiter.max_attempts ≡ attempts
    pub covers : (k : K) → Covers (cutoff window time) (times_of k g.log) (history_of g.limiter k)
    pub bounded : (k : K) → length (history_of g.limiter k) ≤ attempts

  replace-Remembers :
      (window attempts time now : ℕ) (g : Logged K) (key : K) (history : List ℕ)
      (log : List (K × ℕ))
      → time ≤ now
      → Remembers window attempts time g
      → Covers (cutoff window now) (times_of key log) history
      → length history ≤ attempts
      → ((k : K) → key ≢ k → times_of k log ≡ times_of k g.log)
      → Remembers window attempts now
          (record { limiter = with_history g.limiter key history; log = log })
  replace-Remembers window attempts time now g key history log le r c b same = record {
    window_kept = r.window_kept;
    attempts_kept = r.attempts_kept;
    covers = λ k.
        rw (history_of-with_history g.limiter key k history)
          (elim (of_key.same key k)
            as (λ d.
              Covers (cutoff window now) (times_of k log)
                (ite d history (history_of g.limiter k))) [
                  | yes p ↦ subst (λ j. Covers (cutoff window now) (times_of j log) history) p c
                  | no n ↦ rw (same k n) (
                      Covers-later (cutoff window time) (cutoff window now) (times_of k g.log)
                        (history_of g.limiter k) (omega arith) (r.covers k))
                ]);
    bounded = λ k.
        rw (history_of-with_history g.limiter key k history)
          (elim (of_key.same key k)
            as (λ d. length (ite d history (history_of g.limiter k)) ≤ attempts) [
              | yes p ↦ b
              | no n ↦ r.bounded k
            ]);
  }

  -- What a limiter that remembers still knows of a key, pruned for a later time.
  kept-Covers :
      (window attempts time now : ℕ) (g : Logged K) (key : K)
      → time ≤ now
      → Remembers window attempts time g
      → Covers (cutoff window now) (times_of key g.log) (kept_at g.limiter key now)
  kept-Covers window attempts time now g key le r = rw r.window_kept (
      Covers-prune (cutoff window time) (cutoff window now) (times_of key g.log)
        (history_of g.limiter key) (omega arith) (r.covers key))

  kept-length :
      (window attempts time now : ℕ) (g : Logged K) (key : K)
      → Remembers window attempts time g
      → length (kept_at g.limiter key now) ≤ attempts
  kept-length window attempts time now g key r =
      let p = prune-append (cutoff g.limiter.window_seconds now) (history_of g.limiter key) in
      omega (arith, r.bounded key, ap length p.1, length-append p.0 (kept_at g.limiter key now))

  step-Remembers :
      (window attempts time : ℕ) (g : Logged K) (key : K) (now : ℕ)
      → time ≤ now
      → Remembers window attempts time g
      → Remembers window attempts now (step g (key, now))
  unfolding step
  step-Remembers window attempts time g key now le r =
      let history = kept_at g.limiter key now in
      elim (le-or-lt g.limiter.max_attempts (length history)) [
        | inl full ↦ rw (check-denied g.limiter key now full) (
            replace-Remembers window attempts time now g key history g.log le r
              (kept-Covers window attempts time now g key le r)
              (kept-length window attempts time now g key r) (λ k n. refl))
        | inr room ↦ rw (check-allowed g.limiter key now room) (
            replace-Remembers window attempts time now g key (history ++ now ∷ [])
              (g.log ++ (key, now) ∷ []) le r
              (rw (times_of-append key key now g.log, if_pos (of_key.same key key) refl)
                (Covers-record (cutoff window now) (times_of key g.log) history now
                  (kept-Covers window attempts time now g key le r)))
              (omega (arith, r.attempts_kept, length-append history (now ∷ [])))
              (λ k n. rw (times_of-append k key now g.log, if_neg (of_key.same key k) n)))
      ]

  run-Remembers :
      (window attempts time : ℕ) (g : Logged K) (calls : List (K × ℕ))
      → InOrder time calls
      → Remembers window attempts time g
      → Remembers window attempts (latest time calls) (run g calls)
  unfolding run
  run-Remembers window attempts time g [] o r = r
  run-Remembers window attempts time g ((key, now) ∷ calls) o r =
      run-Remembers window attempts now (step g (key, now)) calls o.1
        (step-Remembers window attempts time g key now o.0 r)

  abbrev pub start : ℕ → ℕ → Logged K
  start window_seconds max_attempts = record {
    limiter = new_sliding_window window_seconds max_attempts;
    log = [];
  }

  -- Whatever the requests, if their times do not go back: of the requests of a key that a new
  -- limiter has allowed, at most `max_attempts` lie in the window that ends at the last request or
  -- later.
  pub sliding-window-le :
      (window_seconds max_attempts : ℕ) (calls : List (K × ℕ)) (k : K) (now : ℕ)
      → InOrder 0 calls
      → latest 0 calls ≤ now
      → length (
          recent
            (cutoff (max 1 window_seconds) now)
            (times_of k (run (start window_seconds max_attempts) calls).log))
        ≤ max 1 max_attempts
  unfolding new_sliding_window get
  sliding-window-le window_seconds max_attempts calls k now o le =
      let r =
        run-Remembers (max 1 window_seconds) (max 1 max_attempts) 0
          (start window_seconds max_attempts) calls o
          (record {
            window_kept = refl;
            attempts_kept = refl;
            covers = λ j. ([], refl, tt);
            bounded = λ j. omega arith;
          }) in
      le_trans
        (Covers-length (cutoff (max 1 window_seconds) (latest 0 calls))
          (cutoff (max 1 window_seconds) now) _ _ (omega arith) (r.covers k))
        (r.bounded k)
