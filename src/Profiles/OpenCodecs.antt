-- ===== src/Profiles/OpenCodecs.antt =====
-- `SUPPORTED_STREAM_PROFILES` of backend/stream_profiles.py: the profiles of VP8 and AV1, in the order of the source.
use headendarr.Prelude.{[], ◌∷◌, true, none, some}
use headendarr.Prelude.Dict.{Dict}
use headendarr.Prelude.Text.{Text, codes}
use headendarr.Profiles.Profile.{Profile}

abbrev pub open_codec_profiles : Dict Text Profile
open_codec_profiles =
    (
      codes "vp8-vorbis-webm",
      record {
        label = codes "vp8-vorbis-webm";
        description = codes "Transcode to VP8/Vorbis in WebM.";
        output_mode = codes "force_transcode";
        container = codes "webm";
        video_codec = codes "vp8";
        audio_codec = codes "vorbis";
        subtitle_mode = codes "drop";
        transcode = true;
        tvh_profile_name = codes "webtv-vp8-vorbis-webm";
        hls_segment_type = none;
      },
    )
    ∷ (
      codes "av1-aac-hls",
      record {
        label = codes "av1-aac-hls";
        description = codes "Transcode to AV1/AAC in HLS.";
        output_mode = codes "force_transcode";
        container = codes "hls";
        video_codec = codes "av1";
        audio_codec = codes "aac";
        subtitle_mode = codes "drop";
        transcode = true;
        tvh_profile_name = codes "pass";
        hls_segment_type = some (codes "fmp4");
      },
    )
    ∷ (
      codes "av1-aac-mp4",
      record {
        label = codes "av1-aac-mp4";
        description = codes "Transcode to AV1/AAC in MP4.";
        output_mode = codes "force_transcode";
        container = codes "mp4";
        video_codec = codes "av1";
        audio_codec = codes "aac";
        subtitle_mode = codes "drop";
        transcode = true;
        tvh_profile_name = codes "pass";
        hls_segment_type = none;
      },
    )
    ∷ (
      codes "av1-aac-matroska",
      record {
        label = codes "av1-aac-matroska";
        description = codes "Transcode to AV1/AAC in Matroska.";
        output_mode = codes "force_transcode";
        container = codes "matroska";
        video_codec = codes "av1";
        audio_codec = codes "aac";
        subtitle_mode = codes "copy";
        transcode = true;
        tvh_profile_name = codes "pass";
        hls_segment_type = none;
      },
    )
    ∷ (
      codes "av1-opus-hls",
      record {
        label = codes "av1-opus-hls";
        description = codes "Transcode to AV1/Opus in HLS with fMP4 segments.";
        output_mode = codes "force_transcode";
        container = codes "hls";
        video_codec = codes "av1";
        audio_codec = codes "opus";
        subtitle_mode = codes "drop";
        transcode = true;
        tvh_profile_name = codes "pass";
        hls_segment_type = some (codes "fmp4");
      },
    )
    ∷ (
      codes "av1-opus-webm",
      record {
        label = codes "av1-opus-webm";
        description = codes "Transcode to AV1/Opus in WebM.";
        output_mode = codes "force_transcode";
        container = codes "webm";
        video_codec = codes "av1";
        audio_codec = codes "opus";
        subtitle_mode = codes "drop";
        transcode = true;
        tvh_profile_name = codes "pass";
        hls_segment_type = none;
      },
    )
    ∷ []
