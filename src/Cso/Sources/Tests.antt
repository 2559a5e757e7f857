-- ===== src/Cso/Sources/Tests.antt =====
-- Runs of backend/cso/sources.py.
use headendarr.Prelude.{ℕ_discrete, arith, refl, [], ◌∷◌, false, none, some}
use headendarr.Prelude.Dict.{get, nat_key}
use headendarr.Cso.Types.{CsoSource}
use headendarr.Prelude.Text.{codes}
use headendarr.Cso.Sources.{FailedSources, order_cso_channel_sources}
use headendarr.Cso.Sources.Order.{Ranked, order_cso_channel_sources-Ranked}
use mathlib.Core.List.{Permᴰ}

abbrev first_source : CsoSource
first_source = record {
  id = 1;
  priority = 10;
  channel_id = some 4;
  last_health_check_status = none;
  source_type = codes "channel";
  url = codes "http://up/1.ts";
  playlist_id = 3;
  playlist = none;
  xc_account_id = 0;
  xc_account = none;
  use_hls_proxy = false;
  container_extension = none;
}

abbrev second_source : CsoSource
second_source = record {
  id = 2;
  priority = 5;
  channel_id = some 4;
  last_health_check_status = none;
  source_type = codes "channel";
  url = codes "http://up/1.ts";
  playlist_id = 3;
  playlist = none;
  xc_account_id = 0;
  xc_account = none;
  use_hls_proxy = false;
  container_extension = none;
}

-- Source 1 has failed and its hold has not ended.
abbrev held_cache : FailedSources
held_cache = (4, (1, 9) ∷ []) ∷ []

order_cso_channel_sources-Ranked_example :
    let result =
      (order_cso_channel_sources held_cache (first_source ∷ second_source ∷ []) (some 4) 7).0 in
    Ranked ((1, 9) ∷ []) 7 result × Permᴰ (first_source ∷ second_source ∷ []) result
unfolding get ℕ_discrete
order_cso_channel_sources-Ranked_example =
    order_cso_channel_sources-Ranked held_cache (first_source ∷ second_source ∷ []) 4 7
      (omega arith) (refl, tt)
