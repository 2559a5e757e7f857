-- ===== src/Cso/Subscriptions/Tests.antt =====
-- Runs of the choice of a proxy session.
use headendarr.Prelude.{◌≡◌, refl, true, false, none, some}
use headendarr.Prelude.Dict.{get}
use headendarr.Prelude.Text.{codes, strip, lower, one_of, text_discrete}
use headendarr.Profiles.Policy.{clean_key}
use headendarr.Cso.Subscriptions.{
  Candidate, vod_passthrough_profile_for_source, should_use_vod_proxy_session,
}

abbrev movie : Candidate
movie = record {
  episode_extension = none;
  source_extension = some (codes "MKV ");
  group_extension = none;
}

passes_on : should_use_vod_proxy_session true (some movie) (codes "matroska") ≡ true
unfolding should_use_vod_proxy_session vod_passthrough_profile_for_source clean_key strip lower
    one_of text_discrete get
passes_on = refl

remuxes : should_use_vod_proxy_session true (some movie) (codes "mp4") ≡ false
unfolding should_use_vod_proxy_session vod_passthrough_profile_for_source clean_key strip lower
    one_of text_discrete get
remuxes = refl
