-- ===== src/Profiles/H26x.antt =====
-- `SUPPORTED_STREAM_PROFILES` of backend/stream_profiles.py: the profiles of H.264 and H.265, in the order of the source.
use headendarr.Prelude.{[], ◌∷◌, true, none}
use headendarr.Prelude.Dict.{Dict}
use headendarr.Prelude.Text.{Text, codes}
use headendarr.Profiles.Profile.{Profile}

abbrev pub h26x_profiles : Dict Text Profile
h26x_profiles =
    (
      codes "h264-aac-mpegts",
      record {
        label = codes "h264-aac-mpegts";
        description = codes "Transcode to H.264/AAC in MPEG-TS.";
        output_mode = codes "force_transcode";
        container = codes "mpegts";
        video_codec = codes "h264";
        audio_codec = codes "aac";
        subtitle_mode = codes "copy";
        transcode = true;
        tvh_profile_name = codes "webtv-h264-aac-mpegts";
        hls_segment_type = none;
      },
    )
    ∷ (
      codes "h264-aac-matroska",
      record {
        label = codes "h264-aac-matroska";
        description = codes "Transcode to H.264/AAC in Matroska.";
        output_mode = codes "force_transcode";
        container = codes "matroska";
        video_codec = codes "h264";
        audio_codec = codes "aac";
        subtitle_mode = codes "copy";
        transcode = true;
        tvh_profile_name = codes "webtv-h264-aac-matroska";
        hls_segment_type = none;
      },
    )
    ∷ (
      codes "h264-aac-hls",
      record {
        label = codes "h264-aac-hls";
        description = codes "Transcode to H.264/AAC in HLS.";
        output_mode = codes "force_transcode";
        container = codes "hls";
        video_codec = codes "h264";
        audio_codec = codes "aac";
        subtitle_mode = codes "drop";
        transcode = true;
        tvh_profile_name = codes "pass";
        hls_segment_type = none;
      },
    )
    ∷ (
      codes "h264-aac-mp4",
      record {
        label = codes "h264-aac-mp4";
        description = codes "Transcode to H.264/AAC in MP4.";
        output_mode = codes "force_transcode";
        container = codes "mp4";
        video_codec = codes "h264";
        audio_codec = codes "aac";
        subtitle_mode = codes "drop";
        transcode = true;
        tvh_profile_name = codes "webtv-h264-aac-mp4";
        hls_segment_type = none;
      },
    )
    ∷ (
      codes "h265-aac-mp4",
      record {
        label = codes "h265-aac-mp4";
        description = codes "Transcode to H.265/AAC in MP4.";
        output_mode = codes "force_transcode";
        container = codes "mp4";
        video_codec = codes "h265";
        audio_codec = codes "aac";
        subtitle_mode = codes "drop";
        transcode = true;
        tvh_profile_name = codes "pass";
        hls_segment_type = none;
      },
    )
    ∷ (
      codes "h265-aac-matroska",
      record {
        label = codes "h265-aac-matroska";
        description = codes "Transcode to H.265/AAC in Matroska.";
        output_mode = codes "force_transcode";
        container = codes "matroska";
        video_codec = codes "h265";
        audio_codec = codes "aac";
        subtitle_mode = codes "copy";
        transcode = true;
        tvh_profile_name = codes "pass";
        hls_segment_type = none;
      },
    )
    ∷ (
      codes "h265-ac3-mp4",
      record {
        label = codes "h265-ac3-mp4";
        description = codes "Transcode to H.265/AC3 in MP4.";
        output_mode = codes "force_transcode";
        container = codes "mp4";
        video_codec = codes "h265";
        audio_codec = codes "ac3";
        subtitle_mode = codes "drop";
        transcode = true;
        tvh_profile_name = codes "pass";
        hls_segment_type = none;
      },
    )
    ∷ (
      codes "h265-ac3-matroska",
      record {
        label = codes "h265-ac3-matroska";
        description = codes "Transcode to H.265/AC3 in Matroska.";
        output_mode = codes "force_transcode";
        container = codes "matroska";
        video_codec = codes "h265";
        audio_codec = codes "ac3";
        subtitle_mode = codes "copy";
        transcode = true;
        tvh_profile_name = codes "pass";
        hls_segment_type = none;
      },
    )
    ∷ []
