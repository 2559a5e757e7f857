-- ===== src/Cso/Ingest/Samples.antt =====
-- Ingest sessions to run: one that is new, one that reads a source, and one with a reader.
use headendarr.Prelude.{ℕ, refl, [], ◌∷◌, true, false, none, some, arith}
use headendarr.Prelude.Dict.{get, nat_key}
use headendarr.Prelude.Text.{Text, codes, text_key}
use headendarr.Cso.Types.{CsoSource}
use headendarr.Cso.ByteQueue.{new_queue}
use headendarr.Cso.Capacity.{empty_registry}
use headendarr.Cso.Capacity.Counts.{WellFormed}
use headendarr.Cso.External.{playlist, capacity_key_key}
use headendarr.Cso.Ingest.{World, new_ingest_session, IngestSession, slot_key}
use headendarr.Cso.Ingest.Start.{Upstream}
use headendarr.Cso.Ingest.Holding.{IsSettled}

abbrev pub sample_source : ℕ → CsoSource
sample_source n = record {
  id = n;
  source_type = codes "channel";
  url = codes "http://up/1.ts";
  playlist_id = 3;
  playlist = some (record { enabled = true; connections = 1; hls_proxy_use_ffmpeg = false });
  xc_account_id = 0;
  xc_account = none;
  priority = 10;
  channel_id = some 4;
  use_hls_proxy = false;
  container_extension = none;
  last_health_check_status = none;
}

-- One URL for each source, on which ffmpeg starts; nothing is known of the media.
abbrev pub sample_upstream : Upstream
sample_upstream = record {
  urls = λ source. source.url ∷ [];
  is_playlist = λ url. false;
  variants = λ url. [];
  probe = λ source. none;
  starts = λ source url program. true;
  start_error = λ source url. codes "refused";
}

abbrev pub new_world : World
new_world = record { registry = empty_registry; failed_sources = [] }

abbrev pub new_session : ℕ → Text → IngestSession
new_session channel owner =
    new_ingest_session channel owner (sample_source 7 ∷ sample_source 8 ∷ []) true 0

pub new_world-WellFormed : WellFormed new_world.registry
new_world-WellFormed = record { keys_once = tt; owners_once = tt; slots_once = tt }

pub new_session-IsSettled :
    (channel : ℕ) (owner : Text) → IsSettled (new_session channel owner) new_world
unfolding get
new_session-IsSettled channel owner = record {
  well_formed = new_world-WellFormed;
  exact = λ k s. refl;
  resting = λ _. refl;
}

-- A session that reads source 7, and the registry that has its slot.
abbrev pub running_session : IngestSession
running_session = record (new_session 4 (codes "a")) {
  running = true;
  has_process = true;
  reads = true;
  current_source = some (sample_source 7);
  current_capacity_key = some (playlist 3);
}

abbrev pub running_world : World
running_world = record {
  registry = record {
    allocations = (playlist 3, (codes "a", (some 7, 1) ∷ []) ∷ []) ∷ [];
    external_counts = [];
  };
  failed_sources = [];
}

pub running-IsSettled : IsSettled running_session running_world
unfolding get
running-IsSettled = record {
  well_formed = record {
    keys_once = (refl, tt);
    owners_once = ((refl, tt), tt);
    slots_once = (((refl, tt), tt), tt);
  };
  exact = λ k s. ground arith;
  resting = λ e. cc;
}

-- The same session with a reader, and a read that the upstream refused.
abbrev pub used_session : IngestSession
used_session = record running_session { subscribers = (codes "tv", new_queue 50) ∷ [] }

pub used-IsSettled : IsSettled used_session running_world
used-IsSettled = record {
  well_formed = running-IsSettled.well_formed;
  exact = running-IsSettled.exact;
  resting = running-IsSettled.resting;
}
