-- ===== src/Cso/External/Tests.antt =====
-- Runs of the counting of external connections.
use headendarr.Prelude.{List, [], ◌∷◌, Bool, true, false, none, some, ℕ, ◌==◌}
use headendarr.Prelude.Text.{codes}
use headendarr.Cso.Types.{CsoSource}
use headendarr.Cso.External.{ActivitySession}

abbrev only_source : CsoSource
only_source = record {
  id = 7;
  xc_account_id = 0;
  playlist_id = 3;
  xc_account = none;
  source_type = codes "channel";
  priority = 0;
  channel_id = some 2;
  container_extension = none;
  last_health_check_status = none;
  playlist = some record { enabled = true; connections = 2; hls_proxy_use_ffmpeg = false };
  use_hls_proxy = false;
  url = codes "http://up/1.ts";
}

abbrev tvh_session : ActivitySession
tvh_session = record {
  endpoint = codes "/tic-tvh/stream";
  display_url = codes "http://up/2.ts";
  xc_account_id = 4;
  playlist_id = 0;
  source_id = 0;
  channel_id = 9;
}

abbrev has_ingest : ℕ → Bool
has_ingest channel = channel == 1

abbrev candidates : ℕ → List CsoSource
candidates channel = only_source ∷ []
