-- ===== src/Profiles/Table.antt =====
-- backend/stream_profiles.py: the tables of profiles. `SUPPORTED_STREAM_PROFILES` is joined from three
-- lists of entries, in the order of the source; each entry has every key but `hls_segment_type`, so that
-- the template of `_gen_profile_definition` is only seen for a name that is not in the table.
use headendarr.Prelude.{List, [], ◌∷◌, ◌++◌, false, none, ℕ}
use headendarr.Prelude.Dict.{Dict, get, or_else}
use headendarr.Prelude.Text.{Text, codes, text_key}
use headendarr.Profiles.Profile.{Profile}
use headendarr.Profiles.CopiedVideo.{copied_video_profiles}
use headendarr.Profiles.H26x.{h26x_profiles}
use headendarr.Profiles.OpenCodecs.{open_codec_profiles}

abbrev pub supported_stream_profiles : Dict Text Profile
supported_stream_profiles = copied_video_profiles ++ h26x_profiles ++ open_codec_profiles

abbrev pub default_profile_template : Profile
default_profile_template = record {
  label = [];
  description = [];
  output_mode = codes "force_remux";
  container = codes "mpegts";
  video_codec = [];
  audio_codec = [];
  subtitle_mode = codes "copy";
  transcode = false;
  tvh_profile_name = codes "pass";
  hls_segment_type = none;
}

-- `_gen_profile_definition(SUPPORTED_STREAM_PROFILES.get(name) or {})`
unfoldable pub profile_definition : Text → Profile
unfolding get
profile_definition name = or_else default_profile_template (get name supported_stream_profiles)

pub record QualityPreset : Type 0 where
  pub target_width : ℕ
  pub target_video_bitrate : Text
  pub target_video_maxrate : Text
  pub target_video_bufsize : Text
  pub audio_bitrate : Text

abbrev pub profile_quality_presets : Dict Text QualityPreset
profile_quality_presets =
    (
      codes "1080p",
      record {
        target_width = 1920;
        target_video_bitrate = codes "2500k";
        target_video_maxrate = codes "3200k";
        target_video_bufsize = codes "5000k";
        audio_bitrate = codes "160k";
      },
    )
    ∷ (
      codes "720p",
      record {
        target_width = 1280;
        target_video_bitrate = codes "1300k";
        target_video_maxrate = codes "1700k";
        target_video_bufsize = codes "2600k";
        audio_bitrate = codes "128k";
      },
    )
    ∷ (
      codes "480p",
      record {
        target_width = 854;
        target_video_bitrate = codes "600k";
        target_video_maxrate = codes "800k";
        target_video_bufsize = codes "1200k";
        audio_bitrate = codes "96k";
      },
    )
    ∷ []

abbrev pub profile_hls_segment_types : Dict Text Text
profile_hls_segment_types = (codes "ts", codes "mpegts") ∷ (codes "fmp4", codes "fmp4") ∷ []

abbrev pub tvh_compatible_profile_ids_order : List Text
tvh_compatible_profile_ids_order =
    codes "pass"
    ∷ codes "matroska"
    ∷ codes "webtv-h264-aac-mpegts"
    ∷ codes "webtv-h264-aac-matroska"
    ∷ codes "webtv-h264-aac-mp4"
    ∷ codes "webtv-vp8-vorbis-webm"
    ∷ []

abbrev pub tvh_profile_to_stream_profile : Dict Text Text
tvh_profile_to_stream_profile =
    (codes "matroska", codes "matroska")
    ∷ (codes "webtv-h264-aac-mpegts", codes "h264-aac-mpegts")
    ∷ (codes "webtv-h264-aac-matroska", codes "h264-aac-matroska")
    ∷ (codes "webtv-h264-aac-mp4", codes "h264-aac-mp4")
    ∷ (codes "webtv-vp8-vorbis-webm", codes "vp8-vorbis-webm")
    ∷ []
