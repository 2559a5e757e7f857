-- ===== src/Profiles/CopiedVideo.antt =====
-- `SUPPORTED_STREAM_PROFILES` of backend/stream_profiles.py: the profiles that copy the video, in the order of the source.
use headendarr.Prelude.{[], ◌∷◌, true, false, none}
use headendarr.Prelude.Dict.{Dict}
use headendarr.Prelude.Text.{Text, codes}
use headendarr.Profiles.Profile.{Profile}

abbrev pub copied_video_profiles : Dict Text Profile
copied_video_profiles =
    (
      codes "mpegts",
      record {
        label = codes "mpegts";
        description = codes "Force remux to MPEG-TS.";
        output_mode = codes "force_remux";
        container = codes "mpegts";
        video_codec = codes "";
        audio_codec = codes "";
        subtitle_mode = codes "copy";
        transcode = false;
        tvh_profile_name = codes "pass";
        hls_segment_type = none;
      },
    )
    ∷ (
      codes "matroska",
      record {
        label = codes "matroska";
        description = codes "Force remux to Matroska.";
        output_mode = codes "force_remux";
        container = codes "matroska";
        video_codec = codes "";
        audio_codec = codes "";
        subtitle_mode = codes "copy";
        transcode = false;
        tvh_profile_name = codes "matroska";
        hls_segment_type = none;
      },
    )
    ∷ (
      codes "mp4",
      record {
        label = codes "mp4";
        description = codes "Force remux to MP4.";
        output_mode = codes "force_remux";
        container = codes "mp4";
        video_codec = codes "";
        audio_codec = codes "";
        subtitle_mode = codes "drop";
        transcode = false;
        tvh_profile_name = codes "pass";
        hls_segment_type = none;
      },
    )
    ∷ (
      codes "webm",
      record {
        label = codes "webm";
        description = codes "Force remux to WebM.";
        output_mode = codes "force_remux";
        container = codes "webm";
        video_codec = codes "";
        audio_codec = codes "";
        subtitle_mode = codes "drop";
        transcode = false;
        tvh_profile_name = codes "pass";
        hls_segment_type = none;
      },
    )
    ∷ (
      codes "hls",
      record {
        label = codes "hls";
        description = codes "Force remux to HLS (MPEG-TS segments).";
        output_mode = codes "force_remux";
        container = codes "hls";
        video_codec = codes "";
        audio_codec = codes "";
        subtitle_mode = codes "drop";
        transcode = false;
        tvh_profile_name = codes "pass";
        hls_segment_type = none;
      },
    )
    ∷ (
      codes "aac-mpegts",
      record {
        label = codes "aac-mpegts";
        description = codes "Transcode audio to AAC in MPEG-TS (copy video).";
        output_mode = codes "force_transcode";
        container = codes "mpegts";
        video_codec = codes "";
        audio_codec = codes "aac";
        subtitle_mode = codes "copy";
        transcode = true;
        tvh_profile_name = codes "pass";
        hls_segment_type = none;
      },
    )
    ∷ (
      codes "aac-matroska",
      record {
        label = codes "aac-matroska";
        description = codes "Transcode audio to AAC in Matroska (copy video).";
        output_mode = codes "force_transcode";
        container = codes "matroska";
        video_codec = codes "";
        audio_codec = codes "aac";
        subtitle_mode = codes "copy";
        transcode = true;
        tvh_profile_name = codes "pass";
        hls_segment_type = none;
      },
    )
    ∷ (
      codes "aac-mp4",
      record {
        label = codes "aac-mp4";
        description = codes "Transcode audio to AAC in MP4 (copy video).";
        output_mode = codes "force_transcode";
        container = codes "mp4";
        video_codec = codes "";
        audio_codec = codes "aac";
        subtitle_mode = codes "drop";
        transcode = true;
        tvh_profile_name = codes "pass";
        hls_segment_type = none;
      },
    )
    ∷ (
      codes "aac-hls",
      record {
        label = codes "aac-hls";
        description = codes "Transcode audio to AAC in HLS (copy video).";
        output_mode = codes "force_transcode";
        container = codes "hls";
        video_codec = codes "";
        audio_codec = codes "aac";
        subtitle_mode = codes "drop";
        transcode = true;
        tvh_profile_name = codes "pass";
        hls_segment_type = none;
      },
    )
    ∷ []
