-- ===== src/Cso/Policy/Tests.antt =====
-- Runs of backend/cso/policy.py.
use headendarr.Prelude.{◌≡◌, refl, [], none, some, true}
use headendarr.Prelude.Text.{codes, is_space, strip, lower, one_of, text_discrete}
use headendarr.Profiles.Request.{Modifiers}
use headendarr.Profiles.Resolve.{Settings}
use headendarr.Profiles.Policy.{Policy, clean_key, empty_policy, apply_stream_profile_modifiers}
use headendarr.Cso.Policy.{
  reshapes, resolve_vod_channel_output_policy, generate_vod_channel_ingest_policy,
  resolve_live_pipe_container, resolve_vod_pipe_container,
}
use headendarr.Cso.Policy.Copies.{Copies, resolve_vod_channel_output_policy-Copies}
use headendarr.Cso.Policy.Laws.{
  generate_vod_channel_ingest_policy-shared, resolve_pipe_container-mpegts,
}

abbrev plain_settings : Settings
plain_settings = record {
  stream_profiles = [];
  tvh_cso_stream_profile = none;
  supported_in_environment = none;
}

abbrev first_viewer : Policy
first_viewer = record empty_policy {
  container = some (codes "hls");
  video_codec = some (codes "h264");
  audio_codec = some (codes "aac");
  transcode = some true;
}

abbrev at_480p : Modifiers
at_480p = record { qty = some (codes "480p"); seg = none }

generate_vod_channel_ingest_policy-shared_example :
    generate_vod_channel_ingest_policy plain_settings
      (some (apply_stream_profile_modifiers first_viewer at_480p))
    ≡ record (generate_vod_channel_ingest_policy plain_settings (some first_viewer)) {
      audio_bitrate = (apply_stream_profile_modifiers first_viewer at_480p).audio_bitrate;
    }
generate_vod_channel_ingest_policy-shared_example =
    generate_vod_channel_ingest_policy-shared plain_settings first_viewer at_480p

resolve_pipe_container-mpegts_example :
    (resolve_vod_pipe_container none none ≡ codes "mpegts")
    × (resolve_live_pipe_container none ≡ codes "mpegts")
resolve_pipe_container-mpegts_example = resolve_pipe_container-mpegts none none

resolve_vod_channel_output_policy-Copies_example : Copies first_viewer (
    resolve_vod_channel_output_policy
      (some first_viewer)
      (generate_vod_channel_ingest_policy plain_settings (some first_viewer)))
unfolding clean_key strip is_space lower one_of text_discrete reshapes
resolve_vod_channel_output_policy-Copies_example =
    resolve_vod_channel_output_policy-Copies plain_settings first_viewer refl refl refl
