-- ===== src/Profiles/Request/Tests.antt =====
-- A request that is written and read back.
use headendarr.Prelude.{◌≡◌, refl, some}
use headendarr.Prelude.Text.{Text, codes, is_space, rstrip, lower, has, text_discrete}
use headendarr.Prelude.Dict.{get}
use headendarr.Profiles.Request.{
  parse_stream_profile_request, format_stream_profile_request, is_quality, is_segment_type,
}
use headendarr.Profiles.Request.Names.{IsName}
use headendarr.Profiles.Request.RoundTrip.{parse-format}

abbrev hls_name : Text
hls_name = codes "h264-aac-hls"

hls_name-IsName : IsName hls_name
unfolding is_space rstrip lower has
hls_name-IsName = record { starts = refl; ends = refl; small = refl; plain = refl }

parse-format_example :
    parse_stream_profile_request (
      some (
        format_stream_profile_request
          (some hls_name)
          record { qty = some (codes "480p"); seg = some (codes "ts") }))
    ≡ record {
      raw =
          format_stream_profile_request
            (some hls_name)
            record { qty = some (codes "480p"); seg = some (codes "ts") };
      profile_id = hls_name;
      modifiers = record { qty = some (codes "480p"); seg = some (codes "ts") };
    }
unfolding is_quality is_segment_type get text_discrete
parse-format_example =
    parse-format hls_name (some (codes "480p")) (some (codes "ts")) hls_name-IsName refl refl
