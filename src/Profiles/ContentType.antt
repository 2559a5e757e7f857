-- ===== src/Profiles/ContentType.antt =====
-- `content_type_for_media_path` of backend/stream_profiles.py. `none` is an argument of None.
use headendarr.Prelude.{[], ◌∷◌, ◌||◌, Option, if◌then◌else◌}
use headendarr.Prelude.Dict.{is_empty}
use headendarr.Prelude.Text.{Text, codes, strip, lower, or_missing, partition, ends_with, one_of}

-- `text.split("?", 1)[0]`
abbrev before_query : Text → Text
before_query text = (partition b'?' text).0

-- The tests of `content_type_for_media_path` in their order, of a path that is not empty.
unfoldable pub content_type_of : Text → Text
content_type_of path =
    if one_of (codes "hls" ∷ codes "m3u8" ∷ []) path || ends_with (codes ".m3u8") path
    then codes "application/vnd.apple.mpegurl"
    else if ends_with (codes ".m4s") path
    then codes "video/iso.segment"
    else if one_of (codes "mp4" ∷ codes "m4v" ∷ []) path
        || ends_with (codes ".mp4") path
        || ends_with (codes ".m4v") path
    then codes "video/mp4"
    else if one_of (codes "mpegts" ∷ codes "ts" ∷ []) path || ends_with (codes ".ts") path
    then codes "video/mp2t"
    else if one_of (codes "matroska" ∷ codes "mkv" ∷ []) path || ends_with (codes ".mkv") path
    then codes "video/x-matroska"
    else if one_of (codes "webm" ∷ []) path || ends_with (codes ".webm") path
    then codes "video/webm"
    else if one_of (codes "mpd" ∷ []) path || ends_with (codes ".mpd") path
    then codes "application/dash+xml"
    else if one_of (codes "mov" ∷ []) path || ends_with (codes ".mov") path
    then codes "video/quicktime"
    else codes "video/mp2t"

unfoldable pub content_type_for_media_path : Option Text → Text
content_type_for_media_path path_or_name =
    let text = lower (strip (or_missing path_or_name [])) in
    if is_empty text then codes "video/mp2t" else content_type_of (before_query text)
