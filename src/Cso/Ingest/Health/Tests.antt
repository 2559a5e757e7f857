-- ===== src/Cso/Ingest/Health/Tests.antt =====
-- Runs of the health loop.
use headendarr.Prelude.{◌≡◌, refl, ◌*◌, List, [], ◌∷◌, some, none}
use headendarr.Cso.Sources.{second}
use headendarr.Cso.Ingest.Health.{
  Health, Reading, under_speed, recent_errors, judge_speed, judge_stream, health_turn, health_loop,
}
use headendarr.Cso.Ingest.Health.Slowness.{SlowRun, health_loop-SlowRun}

abbrev slow_since_10 : Health
slow_since_10 = record {
  last_source_start_ts = 1;
  last_chunk_ts = 25 * second;
  last_ffmpeg_speed = some 700;
  last_ffmpeg_speed_ts = 25 * second;
  low_speed_since = some (10 * second);
  http_error_timestamps = [];
}

gives_up : (health_turn slow_since_10 (26 * second)).0 ≡ under_speed
unfolding health_turn recent_errors judge_stream judge_speed
gives_up = refl

-- A speed above real time during a stall does not end the time at which the speed was low.
remembers_low_speed :
    (health_loop slow_since_10 (
      record {
        now = 31 * second;
        chunk_ts = 11 * second;
        speed = some 1000;
        speed_ts = 30 * second;
        errors = [];
      }
      ∷ record {
        now = 32 * second;
        chunk_ts = 32 * second;
        speed = some 800;
        speed_ts = 32 * second;
        errors = [];
      }
      ∷ [])).0
    ≡ under_speed
unfolding health_loop health_turn recent_errors judge_stream judge_speed
remembers_low_speed = refl

abbrev slow_readings : List Reading
slow_readings =
    record {
      now = 10 * second;
      chunk_ts = 10 * second;
      speed = some 800;
      speed_ts = 10 * second;
      errors = [];
    }
    ∷ record {
      now = 23 * second;
      chunk_ts = 23 * second;
      speed = some 700;
      speed_ts = 23 * second;
      errors = [];
    }
    ∷ []

abbrev healthy : Health
healthy = record slow_since_10 { low_speed_since = none }

health_loop-SlowRun_example : SlowRun 1 slow_readings
unfolding health_loop health_turn recent_errors judge_stream judge_speed
health_loop-SlowRun_example = health_loop-SlowRun healthy slow_readings refl refl
