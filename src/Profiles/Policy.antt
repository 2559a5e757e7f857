-- ===== src/Profiles/Policy.antt =====
-- backend/stream_profiles.py: the policy that a profile stands for. A policy is a dict in the source;
-- here each key that the program writes is a field, `none` where the key is missing.
pub mod Laws
use headendarr.Prelude.{
  List, [], ◌∷◌, map, Bool, true, false, not, ◌&&◌, Option, none, some, ℕ, if◌then◌else◌,
}
use headendarr.Prelude.Dict.{Dict, get, or_else, is_empty}
use headendarr.Prelude.Text.{Text, codes, text_key, strip, lower, or_text, or_missing, one_of}
use headendarr.Profiles.Profile.{Profile}
use headendarr.Profiles.Table.{
  QualityPreset, profile_quality_presets, profile_hls_segment_types, profile_definition,
  supported_stream_profiles,
}
use headendarr.Profiles.Request.{
  Modifiers, ProfileRequest, parse_stream_profile_request, format_stream_profile_request,
}
use headendarr.Profiles.Resolve.{Settings, ProfileSettings, profile_settings_map}

pub record Policy : Type 0 where
  pub output_mode : Option Text
  pub container : Option Text
  pub video_codec : Option Text
  pub audio_codec : Option Text
  pub subtitle_mode : Option Text
  pub transcode : Option Bool
  pub deinterlace : Option Bool
  pub hwaccel : Option Bool
  pub target_width : Option ℕ
  pub target_height : Option ℕ
  pub output_fps : Option ℕ
  pub output_pixel_format : Option Text
  pub target_video_bitrate : Option Text
  pub target_video_maxrate : Option Text
  pub target_video_bufsize : Option Text
  pub audio_bitrate : Option Text
  pub audio_sample_rate : Option ℕ
  pub audio_channels : Option ℕ
  pub hls_segment_type : Option Text
  pub hls_playlist_mode : Option Text
  pub hls_list_size : Option ℕ

abbrev pub empty_policy : Policy
empty_policy = record {
  output_mode = none;
  container = none;
  video_codec = none;
  audio_codec = none;
  subtitle_mode = none;
  transcode = none;
  deinterlace = none;
  hwaccel = none;
  target_width = none;
  target_height = none;
  output_fps = none;
  output_pixel_format = none;
  target_video_bitrate = none;
  target_video_maxrate = none;
  target_video_bufsize = none;
  audio_bitrate = none;
  audio_sample_rate = none;
  audio_channels = none;
  hls_segment_type = none;
  hls_playlist_mode = none;
  hls_list_size = none;
}

-- `str(value or "").strip().lower()`, which is also `clean_key` of backend/utils.py
unfoldable pub clean_key : Option Text → Text
clean_key value = lower (strip (or_missing value []))

-- `bool(policy.get(key))`
abbrev pub truthy : Option Bool → Bool
truthy value = or_else false value

abbrev with_preset : Policy → Option QualityPreset → Policy
with_preset resolved none = resolved
with_preset resolved (some preset) = record resolved {
  target_width = some preset.target_width;
  target_video_bitrate = some preset.target_video_bitrate;
  target_video_maxrate = some preset.target_video_maxrate;
  target_video_bufsize = some preset.target_video_bufsize;
  audio_bitrate = some preset.audio_bitrate;
}

abbrev with_segment_type : Policy → Option Text → Policy
with_segment_type resolved none = resolved
with_segment_type resolved (some segment_type) = record resolved {
  hls_segment_type = some segment_type;
}

unfoldable pub can_scale : Policy → Bool
can_scale policy = truthy policy.transcode && not (is_empty (clean_key policy.video_codec))

unfoldable pub is_hls : Policy → Bool
is_hls policy = one_of (codes "hls" ∷ []) (clean_key policy.container)

unfoldable pub apply_stream_profile_modifiers : Policy → Modifiers → Policy
apply_stream_profile_modifiers policy modifiers =
    let scaled =
      if can_scale policy
      then with_preset policy (get (clean_key modifiers.qty) profile_quality_presets)
      else policy in
    if is_hls scaled
    then with_segment_type scaled (get (clean_key modifiers.seg) profile_hls_segment_types)
    else scaled

-- The dict `policy` of `generate_cso_policy_from_profile`.
unfoldable pub policy_of : Profile → Option ProfileSettings → Policy
policy_of profile settings = record empty_policy {
  output_mode = some profile.output_mode;
  container = some profile.container;
  video_codec = some profile.video_codec;
  audio_codec = some profile.audio_codec;
  subtitle_mode = some profile.subtitle_mode;
  transcode = some profile.transcode;
  deinterlace = some (elim settings [ none ↦ false | some s ↦ s.deinterlace ]);
  hwaccel = some (elim settings [ none ↦ false | some s ↦ s.hwaccel ]);
  target_width = some 0;
  target_video_bitrate = some [];
  target_video_maxrate = some [];
  target_video_bufsize = some [];
  audio_bitrate = some [];
  hls_segment_type = some (or_else (codes "mpegts") profile.hls_segment_type);
}

unfoldable pub generate_cso_policy_from_profile : Settings → Option Text → Policy
generate_cso_policy_from_profile settings profile =
    let parsed_profile = parse_stream_profile_request profile in
    let profile_settings = profile_settings_map settings.stream_profiles [] in
    apply_stream_profile_modifiers
      (policy_of (profile_definition parsed_profile.profile_id)
        (get parsed_profile.profile_id profile_settings))
      parsed_profile.modifiers

unfoldable pub is_hls_stream_profile : Option Text → Bool
is_hls_stream_profile profile =
    one_of (codes "hls" ∷ []) (
      lower
        (strip (profile_definition (parse_stream_profile_request profile).profile_id).container))

unfoldable pub default_browser_stream_profile_request : Text
default_browser_stream_profile_request =
    format_stream_profile_request (some (codes "h264-aac-hls"))
      record { qty = none; seg = some (codes "fmp4") }

pub record ProfileOption : Type 0 where
  pub profile : Text
  pub enabled : Bool
  pub hwaccel : Bool
  pub deinterlace : Bool
  pub transcode : Bool

unfoldable pub profile_option : Dict Text ProfileSettings → Text × Profile → ProfileOption
profile_option settings (name, profile) = elim (get name settings) [
  | none ↦ record {
    profile = name;
    enabled = true;
    hwaccel = false;
    deinterlace = false;
    transcode = profile.transcode;
  }
  | some configured ↦ record {
    profile = name;
    enabled = configured.enabled;
    hwaccel = configured.hwaccel;
    deinterlace = configured.deinterlace;
    transcode = profile.transcode;
  }
]

unfoldable pub get_profile_options_payload : Settings → List ProfileOption
get_profile_options_payload settings =
    map (profile_option (profile_settings_map settings.stream_profiles []))
      supported_stream_profiles

pub record ProfileDefinition : Type 0 where
  pub name : Text
  pub label : Text
  pub description : Text
  pub container : Text
  pub transcode : Bool
  pub supports_hwaccel : Bool
  pub supports_deinterlace : Bool

unfoldable pub definition_of : Text × Profile → ProfileDefinition
definition_of (name, profile) =
    let supports_video_filters =
      profile.transcode && not (is_empty (lower (strip profile.video_codec))) in
    record {
      name = name;
      label = or_text profile.label name;
      description = profile.description;
      container = or_text profile.container (codes "mpegts");
      transcode = profile.transcode;
      supports_hwaccel = supports_video_filters;
      supports_deinterlace = supports_video_filters;
    }

unfoldable pub get_stream_profile_definitions : List ProfileDefinition
get_stream_profile_definitions = map definition_of supported_stream_profiles
