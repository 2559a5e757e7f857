-- ===== src/Profiles/Profile.antt =====
-- A profile of backend/stream_profiles.py, with every key but `hls_segment_type` present.
use headendarr.Prelude.{Bool, Option}
use headendarr.Prelude.Text.{Text}

pub record Profile : Type 0 where
  pub label : Text
  pub description : Text
  pub output_mode : Text
  pub container : Text
  pub video_codec : Text
  pub audio_codec : Text
  pub subtitle_mode : Text
  pub transcode : Bool
  pub tvh_profile_name : Text
  pub hls_segment_type : Option Text
