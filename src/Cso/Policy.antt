-- ===== src/Cso/Policy.antt =====
-- backend/cso/policy.py: what an ingest and an output do with a stream. `none`, for a policy, is None or
-- an empty dict, which the source treats alike. `policy_log_label` makes a line for the log and is left
-- out. The source and its probe are records of what the functions read of them.
pub mod Laws
pub mod Copies
mod Tests
use headendarr.Prelude.{
  List, [], ◌∷◌, Bool, true, false, not, ◌&&◌, ◌||◌, Option, none, some, ℕ, ltb, if◌then◌else◌,
}
use headendarr.Prelude.Dict.{or_else, is_empty}
use headendarr.Prelude.Text.{Text, codes, strip, lower, or_text, or_missing, one_of, ends_with}
use headendarr.Cso.Types.{CsoSource}
use headendarr.Profiles.ContentType.{content_type_for_media_path}
use headendarr.Profiles.Resolve.{Settings}
use headendarr.Profiles.Policy.{
  Policy, empty_policy, clean_key, truthy, generate_cso_policy_from_profile,
}

pub record Probe : Type 0 where
  pub container : Option Text
  pub video_codec : Option Text
  pub audio_codec : Option Text

abbrev pub no_probe : Probe
no_probe = record { container = none; video_codec = none; audio_codec = none }

abbrev pub vod_channel_ts_safe_video_codecs : List Text
vod_channel_ts_safe_video_codecs =
    codes "h264" ∷ codes "h265" ∷ codes "hevc" ∷ codes "mpeg2video" ∷ []

abbrev pub live_pipe_ts_safe_audio_codecs : List Text
live_pipe_ts_safe_audio_codecs =
    codes "" ∷ codes "aac" ∷ codes "ac3" ∷ codes "eac3" ∷ codes "mp2" ∷ codes "mp3" ∷ []

abbrev pub vod_types : List Text
vod_types = codes "vod_movie" ∷ codes "vod_episode" ∷ []

-- `value and value not in values`
abbrev unsafe : List Text → Text → Bool
unsafe safe value = not (is_empty value) && not (one_of safe value)

unfoldable pub policy_content_type : Option Policy → Text
policy_content_type policy =
    content_type_for_media_path
      (some (or_else (codes "mpegts") (or_else empty_policy policy).container))

unfoldable pub resolve_cso_output_policy : Option Policy → Bool → Policy
resolve_cso_output_policy policy use_slate_as_input =
    let resolved = or_else empty_policy policy in
    if use_slate_as_input
    then record resolved {
      output_mode = some (codes "force_remux");
      container = some (codes "mpegts");
      video_codec = some (codes "copy");
      audio_codec = some (codes "copy");
      subtitle_mode = some (codes "copy");
    }
    else resolved

unfoldable pub ingest_video_codec : Text → Text
ingest_video_codec video_codec =
    let resolved = if one_of (codes "copy" ∷ []) video_codec then codes "h264" else video_codec in
    if one_of vod_channel_ts_safe_video_codecs resolved then resolved else codes "h264"

unfoldable pub generate_vod_channel_ingest_policy : Settings → Option Policy → Policy
generate_vod_channel_ingest_policy settings output_policy =
    let resolved =
      or_else (generate_cso_policy_from_profile settings (some (codes "h264-aac-mpegts")))
        output_policy in
    let video_codec = or_text (clean_key resolved.video_codec) (codes "h264") in
    let audio_codec = or_text (clean_key resolved.audio_codec) (codes "aac") in
    record resolved {
      output_mode = some (codes "force_transcode");
      video_codec = some (ingest_video_codec video_codec);
      audio_codec =
          some (if one_of (codes "copy" ∷ []) audio_codec then codes "aac" else audio_codec);
      container = some (codes "hls");
      hls_segment_type = some (codes "fmp4");
      hls_playlist_mode = some (codes "event");
      target_width = some 0;
      target_height = some 0;
      output_fps = some 0;
      output_pixel_format = some [];
      target_video_bitrate = some [];
      target_video_maxrate = some [];
      target_video_bufsize = some [];
      audio_sample_rate = some 48000;
      audio_channels = some 2;
      subtitle_mode = some (codes "drop");
      transcode = some true;
    }

-- Whether the output asks for another size or another bit rate.
unfoldable pub reshapes : Policy → Bool
reshapes policy =
    ltb 0 (or_else 0 policy.target_width)
    || not (is_empty (strip (or_missing policy.target_video_bitrate [])))
    || not (is_empty (strip (or_missing policy.target_video_maxrate [])))
    || not (is_empty (strip (or_missing policy.target_video_bufsize [])))
    || not (is_empty (strip (or_missing policy.audio_bitrate [])))

-- From the codecs on: what the ingest has made already is copied.
unfoldable pub reuse_codecs : Policy → Text → Text → Policy
reuse_codecs resolved video_codec audio_codec =
    if not (one_of ([] ∷ codes "copy" ∷ video_codec ∷ []) (clean_key resolved.video_codec))
    then resolved
    else if not (one_of ([] ∷ codes "copy" ∷ audio_codec ∷ []) (clean_key resolved.audio_codec))
    then resolved
    else record resolved {
      output_mode = some (codes "force_remux");
      video_codec = some (codes "copy");
      audio_codec = some (codes "copy");
    }

unfoldable pub resolve_vod_channel_output_policy : Option Policy → Policy → Policy
resolve_vod_channel_output_policy policy ingest_policy =
    let dropped = record (or_else empty_policy policy) { subtitle_mode = some (codes "drop") } in
    let container_key = or_text (clean_key dropped.container) (codes "mpegts") in
    let ingest_container = or_text (clean_key ingest_policy.container) (codes "mpegts") in
    let video_codec = or_text (clean_key ingest_policy.video_codec) (codes "h264") in
    let audio_codec = or_text (clean_key ingest_policy.audio_codec) (codes "aac") in
    let resolved =
      if truthy ingest_policy.deinterlace
      then record dropped { deinterlace = some false }
      else dropped in
    if not
      (one_of (codes "mpegts" ∷ codes "matroska" ∷ codes "mp4" ∷ codes "hls" ∷ []) container_key)
    then dropped
    else if reshapes resolved
    then resolved
    else if one_of (codes "mpegts" ∷ []) ingest_container
        && one_of (codes "matroska" ∷ []) container_key
        && one_of (codes "aac" ∷ []) audio_codec
    then record resolved {
      output_mode = some (codes "force_transcode");
      video_codec = some [];
      audio_codec = some (codes "aac");
    }
    else reuse_codecs resolved video_codec audio_codec

unfoldable pub resolve_vod_pipe_container : Option CsoSource → Option Probe → Text
resolve_vod_pipe_container source source_probe =
    let video_codec = clean_key (or_else no_probe source_probe).video_codec in
    if not (is_empty video_codec) && one_of vod_channel_ts_safe_video_codecs video_codec
    then codes "mpegts"
    else if not (is_empty video_codec)
    then codes "mpegts"
    else elim source [
      | none ↦ codes "mpegts"
      | some s ↦ if not (one_of vod_types s.source_type) then codes "mpegts" else codes "mpegts"
    ]

unfoldable pub resolve_live_pipe_container : Option Probe → Text
resolve_live_pipe_container source_probe =
    let probe = or_else no_probe source_probe in
    if unsafe vod_channel_ts_safe_video_codecs (clean_key probe.video_codec)
    then codes "mpegts"
    else if unsafe live_pipe_ts_safe_audio_codecs (clean_key probe.audio_codec)
    then codes "mpegts"
    else codes "mpegts"

-- `clean_key(probe.get("container")) or clean_key(getattr(source, "container_extension", ""))`
unfoldable pub container_of : Option CsoSource → Option Probe → Text
container_of source probe =
    or_text (clean_key (or_else no_probe probe).container)
      (elim source [ none ↦ [] | some s ↦ clean_key s.container_extension ])

unfoldable pub is_segmented_source : Option CsoSource → Bool
is_segmented_source none = false
is_segmented_source (some source) =
    ends_with (codes ".m3u8") (lower (strip source.url))
    || one_of vod_types (clean_key (some source.source_type))

unfoldable pub source_uses_segmented_handoff : Option CsoSource → Option Probe → Bool
source_uses_segmented_handoff source source_probe =
    let probe = or_else no_probe source_probe in
    is_segmented_source source
    || unsafe (codes "mpegts" ∷ codes "ts" ∷ []) (container_of source source_probe)
    || unsafe vod_channel_ts_safe_video_codecs (clean_key probe.video_codec)
    || unsafe live_pipe_ts_safe_audio_codecs (clean_key probe.audio_codec)

unfoldable pub segmented_hls_segment_type : Option CsoSource → Option Probe → Text
segmented_hls_segment_type source source_probe =
    if one_of (codes "mpegts" ∷ codes "ts" ∷ []) (container_of source source_probe)
    then codes "mpegts"
    else codes "fmp4"

unfoldable pub should_prefer_direct_vod_url_input : Option CsoSource → ℕ → Option Probe → Bool
should_prefer_direct_vod_url_input none start_seconds source_probe = false
should_prefer_direct_vod_url_input (some source) start_seconds source_probe =
    if is_empty source.url
    then false
    else ltb 0 start_seconds
      || not (
          one_of
            (codes "mp4"
              ∷ codes "mkv"
              ∷ codes "matroska"
              ∷ codes "webm"
              ∷ codes "mpegts"
              ∷ codes "ts"
              ∷ [])
            (container_of (some source) source_probe))

unfoldable pub pipe_container_from_content_type : Text → Text
pipe_container_from_content_type content_type =
    let lowered = lower (strip content_type) in
    if one_of (codes "video/mp4" ∷ []) lowered
    then codes "mp4"
    else if one_of (codes "video/x-msvideo" ∷ codes "video/avi" ∷ codes "video/msvideo" ∷ [])
        lowered
    then codes "avi"
    else if one_of (codes "video/x-flv" ∷ codes "video/flv" ∷ []) lowered
    then codes "flv"
    else if one_of (codes "video/webm" ∷ codes "audio/webm" ∷ []) lowered
    then codes "webm"
    else if one_of (codes "video/mp2t" ∷ codes "video/ts" ∷ []) lowered
    then codes "mpegts"
    else if one_of (codes "video/x-matroska" ∷ codes "audio/x-matroska" ∷ []) lowered
    then codes "matroska"
    else []

abbrev setdefault {ℓ} : {A : Type ℓ} → Option A → A → Option A
setdefault none value = some value
setdefault (some old) value = some old

unfoldable pub effective_vod_hls_runtime_policy : Option Policy → Option CsoSource → Policy
effective_vod_hls_runtime_policy policy none = or_else empty_policy policy
effective_vod_hls_runtime_policy policy (some source) =
    let resolved = or_else empty_policy policy in
    if one_of vod_types source.source_type
    then record resolved {
      hls_playlist_mode = setdefault resolved.hls_playlist_mode (codes "event");
      hls_list_size = setdefault resolved.hls_list_size 0;
    }
    else resolved
