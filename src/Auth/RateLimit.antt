-- ===== src/Auth/RateLimit.antt =====
-- backend/auth_rate_limit.py: the limiters in front of the login, stream-key and OIDC endpoints.
-- `time.time()` is an argument of each call, in microseconds, and `int(x)` of seconds rounds down; the
-- windows and cooldowns are whole seconds, as in the source. A lock makes each method one step.
pub mod Sliding
pub mod Backoff
pub mod Distinct
pub mod Endpoints
use headendarr.Prelude.{
  ℕ, ◌+◌, ◌-◌, ◌*◌, ◌/◌, ◌≤◌, ◌<◌, ◌≡◌, max, refl, List, [], ◌∷◌, ◌++◌, Bool, true, false, ltb, All,
  if◌then◌else◌, arith, ap, sym, ◌∙◌, inl, inr, Bool-cases, ltb→lt, leb, lt→leb_false, keep, length,
  length-keep-le, All-append, All-map,
}
use mathlib.Core.List.{append_assoc}

pub record RateLimitResult : Type 0 where
  pub allowed : Bool
  pub retry_after : ℕ

abbrev pub pass : RateLimitResult
pass = record { allowed = true; retry_after = 0 }

abbrev pub second : ℕ
second = 1000000

-- `max(1, int(seconds))` of a difference in time
abbrev pub whole_seconds : ℕ → ℕ
whole_seconds ticks = max 1 (ticks / second)

-- `now - self.window_seconds`; a cutoff before the clock's start cuts nothing, as in the source.
abbrev pub cutoff : ℕ → ℕ → ℕ
cutoff window_seconds now = now - window_seconds * second

-- `while history and history[0] < cutoff: history.popleft()`
unfoldable pub prune : ℕ → List ℕ → List ℕ
prune before [] = []
prune before (t ∷ history) = if ltb t before then prune before history else t ∷ history

-- `max(1, int(self.window_seconds - (now - history[0])))`, for a history that is not empty
unfoldable pub retry_window : ℕ → ℕ → List ℕ → ℕ
retry_window window_seconds now [] = 1
retry_window window_seconds now (t ∷ history) = whole_seconds (window_seconds * second + t - now)

-- A prune drops a prefix of times before the cutoff, and nothing else.
pub prune-append :
    (before : ℕ) (history : List ℕ)
    → (dropped : List ℕ) × (history ≡ dropped ++ prune before history)
      × All (λ t. t < before) dropped
unfolding prune
prune-append before [] = ([], refl, tt)
prune-append before (t ∷ history) =
    let rest = prune-append before history in
    elim (Bool-cases (ltb t before)) [
      | inl e ↦ rw e (t ∷ rest.0, ap (◌∷◌ t) rest.1, (ltb→lt t before e, rest.2))
      | inr e ↦ rw e ([], refl, tt)
    ]

-- The times that are not before a cutoff: what a window counts.
abbrev pub recent : ℕ → List ℕ → List ℕ
recent before = keep (λ t. leb before t)

recent_old :
    (before : ℕ) (old new : List ℕ)
    → All (λ t. t < before) old
    → recent before (old ++ new) ≡ recent before new
recent_old before [] new h = refl
recent_old before (t ∷ old) new h = rw (lt→leb_false before t h.0) (recent_old before old new h.1)

-- `log` is every time that counted, and `history` what a limiter still knows of it: whatever it has
-- forgotten is before the cutoff.
abbrev pub Covers : ℕ → List ℕ → List ℕ → Type 0
Covers before log history = (old : List ℕ) × (log ≡ old ++ history) × All (λ t. t < before) old

pub Covers-prune :
    (before later : ℕ) (log history : List ℕ)
    → before ≤ later
    → Covers before log history
    → Covers later log (prune later history)
Covers-prune before later log history le (old, e, h) =
    let p = prune-append later history in
    (
      old ++ p.0,
      e ∙ ap (◌++◌ old) p.1 ∙ sym (append_assoc old p.0 (prune later history)),
      All-append (λ t. t < later) old p.0
          (All-map (λ t. t < before) (λ t. t < later) (λ t lt. omega arith) old h) p.2,
    )

pub Covers-later :
    (before later : ℕ) (log history : List ℕ)
    → before ≤ later
    → Covers before log history
    → Covers later log history
Covers-later before later log history le (old, e, h) =
    (old, e, All-map (λ t. t < before) (λ t. t < later) (λ t lt. omega arith) old h)

pub Covers-record :
    (before : ℕ) (log history : List ℕ) (now : ℕ)
    → Covers before log history
    → Covers before (log ++ now ∷ []) (history ++ now ∷ [])
Covers-record before log history now (old, e, h) =
    (old, ap (λ l. l ++ now ∷ []) e ∙ append_assoc old history (now ∷ []), h)

-- So the window of the log holds no more times than the history.
pub Covers-length :
    (before later : ℕ) (log history : List ℕ)
    → before ≤ later
    → Covers before log history
    → length (recent later log) ≤ length history
Covers-length before later log history le (old, e, h) =
    rw
      (
        e,
        recent_old later old history
            (All-map (λ t. t < before) (λ t. t < later) (λ t lt. omega arith) old h),
      )
      (length-keep-le (λ t. leb later t) history)
