-- ===== src/Cso/Ingest/Health/Slowness.antt =====
-- The loop over its turns: what it takes to give a source up for its low speed.
use headendarr.Prelude.{
  ℕ, ◌+◌, ◌*◌, ◌≤◌, ◌≡◌, ◌⊎◌, inl, inr, refl, List, [], ◌∷◌, Option, none, some,
}
use headendarr.Cso.Sources.{second}
use headendarr.Cso.Ingest.Health.Turns.{IsSlowAt, HasRecovered, Next, health_turn-Turns}
use headendarr.Cso.Ingest.Health.{
  Health, Verdict, continues, http_error_burst, stall_timeout, under_speed, Reading, reads_now,
  health_turn, health_loop,
}

-- A reading that is slow twelve seconds after `since`, and none before it that has recovered.
pub data Finishes (start since : ℕ) : List Reading → Type 0 where
  gives_up :
      (r : Reading) (readings : List Reading)
      → IsSlowAt start r
      → since + 12 * second ≤ r.now
      → Finishes start since (r ∷ readings)
  goes_on :
      (r : Reading) (readings : List Reading)
      → ¬ (HasRecovered start r)
      → Finishes start since readings
      → Finishes start since (r ∷ readings)

-- A slow reading, from which on no reading has recovered until one is slow twelve seconds later.
pub data SlowRun (start : ℕ) : List Reading → Type 0 where
  begins :
      (r : Reading) (readings : List Reading)
      → IsSlowAt start r
      → Finishes start r.now readings
      → SlowRun start (r ∷ readings)
  later :
      (r : Reading) (readings : List Reading)
      → SlowRun start readings
      → SlowRun start (r ∷ readings)

-- What explains that the loop gives up, with or without a low speed seen before.
abbrev Explained : ℕ → Option ℕ → List Reading → Type 0
Explained start none readings = SlowRun start readings
Explained start (some since) readings = SlowRun start readings ⊎ Finishes start since readings

later-Explained :
    (start : ℕ) (low : Option ℕ) (r : Reading) (readings : List Reading)
    → SlowRun start readings
    → Explained start low (r ∷ readings)
later-Explained start none r readings run = later r readings run
later-Explained start (some since) r readings run = inl (later r readings run)

same-Explained :
    (start : ℕ) (low : Option ℕ) (r : Reading) (readings : List Reading)
    → ¬ (HasRecovered start r)
    → Explained start low readings
    → Explained start low (r ∷ readings)
same-Explained start none r readings n run = later r readings run
same-Explained start (some since) r readings n (inl run) = inl (later r readings run)
same-Explained start (some since) r readings n (inr f) = inr (goes_on r readings n f)

seen-Explained :
    (start : ℕ) (r : Reading) (readings : List Reading)
    → IsSlowAt start r
    → Explained start (some r.now) readings
    → SlowRun start (r ∷ readings)
seen-Explained start r readings slow (inl run) = later r readings run
seen-Explained start r readings slow (inr f) = begins r readings slow f

Next-Explained :
    (start : ℕ) (low after : Option ℕ) (r : Reading) (readings : List Reading)
    → Next start low r after
    → Explained start after readings
    → Explained start low (r ∷ readings)
Next-Explained start low after r readings (inl reset) x =
    later-Explained start low r readings (rw reset at x)
Next-Explained start low after r readings (inr (inl (same, n))) x =
    same-Explained start low r readings n (rw same at x)
Next-Explained start low after r readings (inr (inr (unseen, now_seen, slow))) x =
    rw unseen (seen-Explained start r readings slow (rw now_seen at x))

gives-Explained :
    (start : ℕ) (low : Option ℕ) (r : Reading) (readings : List Reading)
    → (since : ℕ) × (low ≡ some since) × IsSlowAt start r × (since + 12 * second ≤ r.now)
    → Explained start low (r ∷ readings)
gives-Explained start low r readings (since, seen, slow, long) =
    rw seen (inr (gives_up r readings slow long))

health_loop-Explained :
    (start : ℕ) (h : Health) (readings : List Reading)
    → h.last_source_start_ts ≡ start
    → (health_loop h readings).0 ≡ under_speed
    → Explained start h.low_speed_since readings
unfolding health_loop
health_loop-Explained start h [] same e = cc
health_loop-Explained start h (r ∷ readings) same e =
    let turn = health_turn (reads_now h r) r.now in
    let turns = health_turn-Turns start (reads_now h r) r.now same in
    let next = health_loop turn.1 readings in
    let result : Verdict → Verdict × Health = λ v. elim v [
      | continues ↦ next
      | http_error_burst ↦ turn
      | stall_timeout ↦ turn
      | under_speed ↦ turn
    ] in
    elim turn.0
        as (λ v.
          turn.0 ≡ v
          → (result v).0 ≡ under_speed
          → Explained start h.low_speed_since (r ∷ readings)) [
            | continues ↦ λ goes e'.
                Next-Explained start h.low_speed_since turn.1.low_speed_since r readings
                  (turns.next goes)
                  (health_loop-Explained start turn.1 readings turns.same_start e')
            | http_error_burst ↦ λ v e'. cc (v, e')
            | stall_timeout ↦ λ v e'. cc (v, e')
            | under_speed ↦
                λ gave e'. gives-Explained start h.low_speed_since r readings (turns.gives gave)
          ]
      refl e

-- Where the health loop starts without a low speed seen and gives a source up for its speed:
-- among its readings is a slow one, and a later slow one at least twelve seconds after it, and
-- none in between has recovered. A slow reading has a fresh speed below nine tenths of real time,
-- and one that has recovered a fresh speed of nine tenths or more, each after the time to start
-- and outside of a stall.
pub health_loop-SlowRun :
    (h : Health) (readings : List Reading)
    → h.low_speed_since ≡ none
    → (health_loop h readings).0 ≡ under_speed
    → SlowRun h.last_source_start_ts readings
health_loop-SlowRun h readings unseen e =
    rw unseen at (health_loop-Explained h.last_source_start_ts h readings refl e)
