-- ===== src/Cso/Policy/Laws.antt =====
-- What the policies of backend/cso/policy.py decide.
use headendarr.Prelude.{◌≡◌, Option, some, arith}
use headendarr.Prelude.Text.{codes}
use headendarr.Profiles.Request.{Modifiers}
use headendarr.Profiles.Resolve.{Settings}
use headendarr.Profiles.Policy.{Policy, apply_stream_profile_modifiers}
use headendarr.Cso.Types.{CsoSource}
use headendarr.Cso.Policy.{
  Probe, generate_vod_channel_ingest_policy, resolve_live_pipe_container,
  resolve_vod_pipe_container,
}

-- The quality and the segment type that the first viewer asks for make no difference to the
-- shared ingest of a VOD channel, except to its audio bit rate.
pub generate_vod_channel_ingest_policy-shared :
    (settings : Settings) (policy : Policy) (modifiers : Modifiers)
    → generate_vod_channel_ingest_policy settings
        (some (apply_stream_profile_modifiers policy modifiers))
      ≡ record (generate_vod_channel_ingest_policy settings (some policy)) {
        audio_bitrate = (apply_stream_profile_modifiers policy modifiers).audio_bitrate;
      }
unfolding generate_vod_channel_ingest_policy apply_stream_profile_modifiers
generate_vod_channel_ingest_policy-shared settings policy modifiers = ground arith

pub resolve_pipe_container-mpegts :
    (source : Option CsoSource) (probe : Option Probe)
    → (resolve_vod_pipe_container source probe ≡ codes "mpegts")
      × (resolve_live_pipe_container probe ≡ codes "mpegts")
unfolding resolve_vod_pipe_container resolve_live_pipe_container
resolve_pipe_container-mpegts source probe = ground arith
