-- ===== src/Hls/Manager.antt =====
-- backend/hls_multiplexer.py, `MultiplexerManager`: the streams by URL, mode and header token. The type
-- of the keys is left open. Whether ffmpeg can be spawned is an argument; a direct stream always starts.
pub mod Cleanup
mod Tests
use headendarr.Prelude.{
  ℕ, ◌+◌, ◌-◌, List, [], ◌∷◌, Option, none, some, Bool, true, false, ltb, keep, if◌then◌else◌,
}
use headendarr.Prelude.Dict.{Dict, Key, get, set, pop, is_empty}
use headendarr.Hls.Multiplexer.{Stream, Stopped, stop}

pub data Mode : Type 0 where
  ffmpeg direct : Mode

unfoldable pub new_stream : {C : Type 0} → ℕ → ℕ → Stream C
new_stream max_history_bytes now = record {
  queues = [];
  running = false;
  last_activity = now;
  history = [];
  history_bytes = 0;
  max_history_bytes = max_history_bytes;
}

-- Does the upstream process of a new stream start? `create_subprocess_exec` may raise in ffmpeg mode.
abbrev pub starts : Mode → Bool → Bool
starts ffmpeg spawned = spawned
starts direct spawned = true

module _ {C : Type 0} where
  -- `start` of the two subclasses; a running stream is left alone.
  unfoldable pub start : Stream C → Mode → Bool → Stream C
  start s mode spawned = if s.running then s else record s { running = starts mode spawned }

module _ {C : Type 0} where
  -- `now - stream.last_activity > idle_timeout`
  abbrev pub is_idle : ℕ → ℕ → Stream C → Bool
  is_idle now idle_timeout s = ltb (s.last_activity + idle_timeout) now

module _ {K C : Type 0} ⦃of_key : Key K⦄ where
  unfoldable pub get_stream :
      Dict K (Stream C) → K → Mode → Bool → ℕ → ℕ → Stream C × Dict K (Stream C)
  unfolding new_stream start
  get_stream active key mode spawned max_history_bytes now = elim (get key active) [
    | some s ↦ (s, active)
    | none ↦ let s = start (new_stream max_history_bytes now) mode spawned in (s, set key s active)
  ]

  -- One stream of `cleanup_idle_streams` that is idle: its callback removes the entry.
  unfoldable pub stop_entry : Dict K (Stream C) → K × Stream C → Dict K (Stream C)
  unfolding stop
  stop_entry active (key, s) = if (stop s true).called_back then pop key active else active

  unfoldable pub stop_entries : Dict K (Stream C) → List (K × Stream C) → Dict K (Stream C)
  unfolding stop_entry
  stop_entries active [] = active
  stop_entries active (e ∷ entries) = stop_entries (stop_entry active e) entries

  unfoldable pub cleanup_idle_streams : Dict K (Stream C) → ℕ → ℕ → Dict K (Stream C)
  unfolding stop_entries
  cleanup_idle_streams active now idle_timeout =
      stop_entries active (keep (λ e. is_idle now idle_timeout e.1) active)
