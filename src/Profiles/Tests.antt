-- ===== src/Profiles/Tests.antt =====
-- Runs of the functions of backend/stream_profiles.py.
use headendarr.Prelude.{◌≡◌, refl, ◌⊎◌, [], ◌∷◌, Option, none, some, true, false}
use headendarr.Prelude.Text.{
  Text, codes, strip, lower, split, one_of, text_discrete, ends_with, partition,
}
use headendarr.Prelude.Dict.{get}
use headendarr.Profiles.Table.{profile_definition}
use headendarr.Profiles.Request.{
  Modifiers, parse_stream_profile_request, match_request, bracketed, request_of, modifiers_of,
  add_pairs, add_pair, with_modifier, quality_value, is_quality, is_segment_type, all_digits,
  format_stream_profile_request, in_brackets, join_parts, qty_part, seg_part,
}
use headendarr.Profiles.ContentType.{content_type_for_media_path, content_type_of}
use headendarr.Profiles.Resolve.{
  Settings, is_supported, resolve_cso_profile_name, resolve_tvh_cso_profile_name,
  channel_profile_override,
}
use headendarr.Profiles.Resolve.Laws.{
  Grants, resolve_cso_profile_name-Grants, resolve_tvh_cso_profile_name-mpegts,
}
use headendarr.Profiles.Policy.{Policy, empty_policy}

parsed :
    parse_stream_profile_request (some (codes " H264-AAC-HLS[QTY=480,seg = fmp4,x=1]")) ≡ record {
      raw = codes "h264-aac-hls[qty=480p,seg=fmp4]";
      profile_id = codes "h264-aac-hls";
      modifiers = record { qty = some (codes "480p"); seg = some (codes "fmp4") };
    }
unfolding parse_stream_profile_request match_request bracketed request_of modifiers_of add_pairs
    add_pair with_modifier quality_value is_quality is_segment_type all_digits
    format_stream_profile_request in_brackets join_parts qty_part seg_part strip lower partition
    split text_discrete get
parsed = refl

typed : content_type_for_media_path (some (codes " Film.MKV?token=1 ")) ≡ codes "video/x-matroska"
unfolding content_type_for_media_path content_type_of strip lower one_of ends_with partition
typed = refl

abbrev app_settings : Settings
app_settings = record {
  stream_profiles =
      (codes "aac-mp4", some record { enabled = some false; hwaccel = none; deinterlace = none })
      ∷ [];
  tvh_cso_stream_profile = some (codes "aac-mpegts");
  supported_in_environment = none;
}

abbrev asked : Option Text
asked = some (codes "h264-aac-hls[qty=480p]")

abbrev scaled_down : Modifiers
scaled_down = record { qty = some (codes "480p"); seg = some (codes "fmp4") }

abbrev hls_policy : Policy
hls_policy = record empty_policy {
  container = some (codes "hls");
  video_codec = some (codes "h264");
  audio_codec = some (codes "aac");
  transcode = some true;
}

resolve_tvh_cso_profile_name-mpegts_example :
    (is_supported (resolve_tvh_cso_profile_name app_settings) ≡ true)
    × (one_of
          (codes "mpegts" ∷ [])
          (lower (strip (profile_definition (resolve_tvh_cso_profile_name app_settings)).container))
        ≡ true)
resolve_tvh_cso_profile_name-mpegts_example = resolve_tvh_cso_profile_name-mpegts app_settings

resolve_cso_profile_name-Grants_example :
    Grants app_settings
      (parse_stream_profile_request asked)
      (resolve_cso_profile_name app_settings asked none)
    ⊎ Grants app_settings
        (parse_stream_profile_request (some (channel_profile_override none)))
        (resolve_cso_profile_name app_settings asked none)
resolve_cso_profile_name-Grants_example = resolve_cso_profile_name-Grants app_settings asked none
