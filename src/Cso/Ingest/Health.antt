-- ===== src/Cso/Ingest/Health.antt =====
-- `_health_loop`: what one turn of the loop, a second after the one before, makes of the readings of the
-- stream. Times are in microseconds, and the speed that ffmpeg reports is in thousandths of real time.
pub mod Turns
pub mod Slowness
mod Tests
use headendarr.Prelude.{
  ℕ, ◌+◌, ◌*◌, List, [], ◌∷◌, Bool, true, false, not, ◌&&◌, ◌||◌, Option, none, some, length, ltb,
  leb, ◌==◌, if◌then◌else◌,
}
use headendarr.Cso.Sources.{second}

pub record Health : Type 0 where
  pub last_source_start_ts : ℕ
  pub last_chunk_ts : ℕ
  pub last_ffmpeg_speed : Option ℕ
  pub last_ffmpeg_speed_ts : ℕ
  pub low_speed_since : Option ℕ
  pub http_error_timestamps : List ℕ

-- The loop goes on, or asks for a failover with a reason.
pub data Verdict : Type 0 where
  continues : Verdict
  http_error_burst : Verdict
  stall_timeout : Verdict
  under_speed : Verdict

unfoldable pub recent_errors : ℕ → List ℕ → List ℕ
recent_errors now [] = []
recent_errors now (at ∷ timestamps) =
    let rest = recent_errors now timestamps in
    if ltb (at + 10 * second) now then rest else at ∷ timestamps

abbrev pub is_starting : Health → ℕ → Bool
is_starting h now = ltb now (h.last_source_start_ts + 8 * second)

abbrev pub is_stalled : Health → ℕ → Bool
is_stalled h now = not (h.last_chunk_ts == 0) && leb (h.last_chunk_ts + 20 * second) now

abbrev pub is_stale_speed : Health → ℕ → Bool
is_stale_speed h now = leb (h.last_ffmpeg_speed_ts + 6 * second) now

abbrev pub keeps_up : Health → ℕ → Bool
keeps_up h now = elim h.last_ffmpeg_speed [
  | none ↦ false
  | some speed ↦ not (is_stale_speed h now) && leb 1000 speed
]

-- What is made of a speed that is fresh.
unfoldable pub judge_speed : Health → ℕ → ℕ → Verdict × Health
judge_speed h now speed =
    if ltb speed 900
    then (elim h.low_speed_since [
      | none ↦ (continues, record h { low_speed_since = some now })
      | some since ↦ if leb (since + 12 * second) now then (under_speed, h) else (continues, h)
    ])
    else (continues, record h { low_speed_since = none })

unfoldable pub judge_stream : Health → ℕ → Verdict × Health
judge_stream h now =
    let unknown : Verdict × Health = (continues, record h { low_speed_since = none }) in
    if is_stalled h now
    then (if keeps_up h now then (continues, h) else (stall_timeout, h))
    else elim h.last_ffmpeg_speed [
      | none ↦ unknown
      | some speed ↦ if is_stale_speed h now then unknown else judge_speed h now speed
    ]

unfoldable pub health_turn : Health → ℕ → Verdict × Health
health_turn h now =
    let errors = recent_errors now h.http_error_timestamps in
    let pruned = record h { http_error_timestamps = errors } in
    if is_starting h now
    then (continues, h)
    else if leb 4 (length errors)
    then (http_error_burst, pruned)
    else judge_stream pruned now

-- What the other tasks have read between two turns.
pub record Reading : Type 0 where
  pub now : ℕ
  pub chunk_ts : ℕ
  pub speed : Option ℕ
  pub speed_ts : ℕ
  pub errors : List ℕ

abbrev pub reads_now : Health → Reading → Health
reads_now h r = record h {
  last_chunk_ts = r.chunk_ts;
  last_ffmpeg_speed = r.speed;
  last_ffmpeg_speed_ts = r.speed_ts;
  http_error_timestamps = r.errors;
}

-- The loop over its turns, which ends with the first failover.
unfoldable pub health_loop : Health → List Reading → Verdict × Health
health_loop h [] = (continues, h)
health_loop h (r ∷ readings) =
    let turn = health_turn (reads_now h r) r.now in
    let next = health_loop turn.1 readings in
    elim turn.0 [
      | continues ↦ next
      | http_error_burst ↦ turn
      | stall_timeout ↦ turn
      | under_speed ↦ turn
    ]
