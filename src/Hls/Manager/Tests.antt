-- ===== src/Hls/Manager/Tests.antt =====
-- The theorems of `MultiplexerManager` at concrete streams.
use headendarr.Prelude.{
  ℕ, ◌≡◌, refl, [], ◌∷◌, none, some, true, false, ◌&&◌, if◌then◌else◌, ℕ_discrete,
}
use headendarr.Prelude.Dict.{Dict, nat_key, get}
use headendarr.Hls.Multiplexer.{Stream}
use headendarr.Hls.Manager.{ffmpeg, get_stream, cleanup_idle_streams, is_idle}
use headendarr.Hls.Manager.Cleanup.{cleanup_idle_streams-get, get_stream-failed_forever}

abbrev idle : Stream ℕ
idle = record {
  queues = [];
  running = true;
  last_activity = 10;
  history = [];
  history_bytes = 0;
  max_history_bytes = 100;
}

abbrev two_streams : Dict ℕ (Stream ℕ)
two_streams = (1, idle) ∷ (2, record idle { running = false }) ∷ []

cleanup_idle_streams-get_example :
    get 1 (cleanup_idle_streams two_streams 500 300) ≡ elim (get 1 two_streams) [
      | none ↦ none
      | some s ↦ if is_idle 500 300 s && s.running then none else some s
    ]
unfolding get ℕ_discrete
cleanup_idle_streams-get_example = cleanup_idle_streams-get two_streams 500 300 1 (refl, (refl, tt))

get_stream-failed_forever_example :
    let (failed, remembered) = get_stream two_streams 3 ffmpeg false 100 20 in
    let swept = cleanup_idle_streams remembered 900 300 in
    (failed.running ≡ false) × ((get_stream swept 3 ffmpeg true 100 900).0 ≡ failed)
unfolding get ℕ_discrete
get_stream-failed_forever_example =
    get_stream-failed_forever two_streams 3 true 100 20 900 300 (refl, (refl, tt)) refl
