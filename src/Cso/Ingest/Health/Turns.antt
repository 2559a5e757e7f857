-- ===== src/Cso/Ingest/Health/Turns.antt =====
-- What one turn of the loop does with the speed that it reads.
use headendarr.Prelude.{
  ℕ, ◌+◌, ◌*◌, ◌≤◌, ◌<◌, ◌≡◌, ◌⊎◌, inl, inr, refl, Option, none, some, length, ltb, leb, arith,
  if◌then◌else◌, if-Holds, elim-Holds,
}
use headendarr.Cso.Sources.{second}
use headendarr.Cso.Ingest.Health.{
  Health, Verdict, continues, http_error_burst, stall_timeout, under_speed, Reading, recent_errors,
  is_starting, is_stalled, is_stale_speed, keeps_up, judge_speed, judge_stream, health_turn,
}

-- The source has had its time to start and does not stall, and there is a fresh speed.
abbrev pub Measured : ℕ → Reading → ℕ → Type 0
Measured start r value =
    (start + 8 * second ≤ r.now)
    × ((r.chunk_ts ≡ 0) ⊎ (r.now < r.chunk_ts + 20 * second))
    × (r.speed ≡ some value)
    × (r.now < r.speed_ts + 6 * second)

-- The speed is below nine tenths of real time, or it is not.
abbrev pub IsSlowAt : ℕ → Reading → Type 0
IsSlowAt start r = (value : ℕ) × Measured start r value × (value < 900)

abbrev pub HasRecovered : ℕ → Reading → Type 0
HasRecovered start r = (value : ℕ) × Measured start r value × (900 ≤ value)

-- What becomes of the time since when the speed is low.
abbrev pub Next : ℕ → Option ℕ → Reading → Option ℕ → Type 0
Next start low r after =
    (after ≡ none)
    ⊎ ((after ≡ low) × (¬ (HasRecovered start r)))
    ⊎ ((low ≡ none) × (after ≡ some r.now) × IsSlowAt start r)

pub record Turns (start : ℕ) (low : Option ℕ) (r : Reading) (t : Verdict × Health) : Type 0 where
  pub same_start : t.1.last_source_start_ts ≡ start
  pub next : t.0 ≡ continues → Next start low r t.1.low_speed_since
  pub gives :
      t.0 ≡ under_speed
      → (since : ℕ) × (low ≡ some since) × IsSlowAt start r × (since + 12 * second ≤ r.now)

abbrev pub reading_of : Health → ℕ → Reading
reading_of h now = record {
  now = now;
  chunk_ts = h.last_chunk_ts;
  speed = h.last_ffmpeg_speed;
  speed_ts = h.last_ffmpeg_speed_ts;
  errors = h.http_error_timestamps;
}

slow-not_recovered :
    (start : ℕ) (r : Reading) (speed : ℕ)
    → r.speed ≡ some speed
    → speed < 900
    → ¬ (HasRecovered start r)
slow-not_recovered start r speed read slow recovered =
    ground (arith, read, recovered.1.2, recovered.2, slow)

judge_speed-Turns :
    (start : ℕ) (h : Health) (now speed : ℕ)
    → h.last_source_start_ts ≡ start
    → Measured start (reading_of h now) speed
    → Turns start h.low_speed_since (reading_of h now) (judge_speed h now speed)
unfolding judge_speed
judge_speed-Turns start h now speed same m =
    let P : Verdict × Health → Type 0 = Turns start h.low_speed_since (reading_of h now) in
    if-Holds P (ltb speed 900) _ (continues, record h { low_speed_since = none })
      (λ slow.
        let is_slow : IsSlowAt start (reading_of h now) = (speed, m, ground (arith, slow)) in
        elim-Holds P h.low_speed_since (continues, record h { low_speed_since = some now }) _
          (λ unseen. record {
            same_start = same;
            next = λ _. inr (inr (unseen, refl, is_slow));
            gives = λ e. cc;
          })
          (λ since seen.
            if-Holds P (leb (since + 12 * second) now) (under_speed, h) (continues, h)
              (λ long. record {
                same_start = same;
                next = λ e. cc;
                gives = λ _. (since, seen, is_slow, ground (arith, long));
              })
              (λ _. record {
                same_start = same;
                next = λ _. inr (
                    inl (
                      refl,
                      slow-not_recovered start (reading_of h now) speed m.2 (ground (arith, slow)),
                    ));
                gives = λ e. cc;
              })))
      (λ _. record { same_start = same; next = λ _. inl refl; gives = λ e. cc })

judge_stream-Turns :
    (start : ℕ) (h : Health) (now : ℕ)
    → h.last_source_start_ts ≡ start
    → start + 8 * second ≤ now
    → Turns start h.low_speed_since (reading_of h now) (judge_stream h now)
unfolding judge_stream
judge_stream-Turns start h now same started =
    let P : Verdict × Health → Type 0 = Turns start h.low_speed_since (reading_of h now) in
    let unknown : Verdict × Health = (continues, record h { low_speed_since = none }) in
    let stall : Verdict × Health = if keeps_up h now then (continues, h) else (stall_timeout, h) in
    let reset : P unknown = record { same_start = same; next = λ _. inl refl; gives = λ e. cc } in
    if-Holds P (is_stalled h now) stall _
      (λ stalled.
        if-Holds P (keeps_up h now) (continues, h) (stall_timeout, h)
          (λ _. record {
            same_start = same;
            next = λ _. inr (inl (refl, (λ recovered. ground (arith, stalled, recovered.1.1))));
            gives = λ e. cc;
          })
          (λ _. record { same_start = same; next = λ e. cc; gives = λ e. cc }))
      (λ flows.
        elim-Holds P h.last_ffmpeg_speed unknown _ (λ _. reset)
          (λ speed read.
            if-Holds P (is_stale_speed h now) unknown (judge_speed h now speed) (λ _. reset)
              (λ fresh.
                judge_speed-Turns start h now speed same
                  (started, ground (arith, flows), read, ground (arith, fresh)))))

pub health_turn-Turns :
    (start : ℕ) (h : Health) (now : ℕ)
    → h.last_source_start_ts ≡ start
    → Turns start h.low_speed_since (reading_of h now) (health_turn h now)
unfolding health_turn
health_turn-Turns start h now same =
    let errors = recent_errors now h.http_error_timestamps in
    let pruned = record h { http_error_timestamps = errors } in
    let P : Verdict × Health → Type 0 = Turns start h.low_speed_since (reading_of h now) in
    if-Holds P (is_starting h now) (continues, h) _
      (λ starting. record {
        same_start = same;
        next = λ _. inr (inl (refl, (λ recovered. ground (arith, starting, same, recovered.1.0))));
        gives = λ e. cc;
      })
      (λ started.
        if-Holds P (leb 4 (length errors)) (http_error_burst, pruned) (judge_stream pruned now)
          (λ _. record { same_start = same; next = λ e. cc; gives = λ e. cc })
          (λ _.
            let turns = judge_stream-Turns start pruned now same (ground (arith, started, same)) in
            record { same_start = turns.same_start; next = turns.next; gives = turns.gives }))
