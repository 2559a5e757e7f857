-- ===== src/Cso/VodCache.antt =====
-- backend/cso/vod_cache.py: `VodHeadProbeStateStore`, the upstreams that answered no HEAD request, kept
-- in memory and in a file, and the entries of `VodCacheManager`. The key of an upstream, which has the host
-- that urlparse finds, and the key of an entry are arguments. The file of the store is what was written
-- to it last; the file of an entry is its size, if it exists. Times are in seconds.
pub mod HeadProbe
pub mod Cleanup
mod Tests
use headendarr.Prelude.{
  ℕ, ◌+◌, ◌-◌, ◌*◌, max, List, [], ◌∷◌, Bool, true, false, not, ◌&&◌, ◌||◌, Option, none, some,
  length, ltb, leb, ◌==◌, if◌then◌else◌,
}
use headendarr.Prelude.Dict.{Dict, get, set, pop, or_else, is_empty}
use headendarr.Prelude.Text.{Text, codes, text_key, strip, or_text, or_missing}
use headendarr.Cso.Types.{CsoSource}
use headendarr.Profiles.ContentType.{content_type_for_media_path}
use headendarr.Profiles.Policy.{clean_key}

pub record VodHeadProbeStateEntry : Type 0 where
  pub expires_at : ℕ
  pub failure_reason : Text
  pub head_supported : Bool
  pub last_failure_at : ℕ

pub record VodHeadProbeStateStore : Type 0 where
  pub state : Option (Dict Text VodHeadProbeStateEntry)
  pub file : Dict Text VodHeadProbeStateEntry

abbrev pub vod_head_probe_state_ttl_seconds : ℕ
vod_head_probe_state_ttl_seconds = 7 * 24 * 60 * 60

-- The loop of `_load_state` over the file.
unfoldable pub cleaned :
    Dict Text VodHeadProbeStateEntry
    → ℕ
    → Dict Text VodHeadProbeStateEntry
    → Dict Text VodHeadProbeStateEntry
cleaned [] now found = found
cleaned ((key, e) ∷ payload) now found =
    let kept = record e {
      failure_reason = or_text (strip e.failure_reason) (codes "head_failed");
    } in
    cleaned payload now
      (if ltb 0 e.expires_at && ltb e.expires_at now then found else set key kept found)

unfoldable pub load_state : VodHeadProbeStateStore → ℕ → Dict Text VodHeadProbeStateEntry
load_state s now = elim s.state [ some state ↦ state | none ↦ cleaned s.file now [] ]

unfoldable pub should_skip_head : VodHeadProbeStateStore → Text → ℕ → Bool × VodHeadProbeStateStore
should_skip_head s key now =
    let state = load_state s now in
    (
      elim (get key state) [ none ↦ false | some e ↦ not e.head_supported ],
      record s { state = some state },
    )

unfoldable pub mark_head_failed : VodHeadProbeStateStore → Text → Text → ℕ → VodHeadProbeStateStore
mark_head_failed s key reason now =
    let e : VodHeadProbeStateEntry = record {
      expires_at = now + vod_head_probe_state_ttl_seconds;
      failure_reason = or_text (strip reason) (codes "head_failed");
      head_supported = false;
      last_failure_at = now;
    } in
    let state = set key e (load_state s now) in record { state = some state; file = state }

unfoldable pub mark_head_supported : VodHeadProbeStateStore → Text → ℕ → VodHeadProbeStateStore
mark_head_supported s key now =
    let state = load_state s now in
    let left = pop key state in
    elim (get key state) [
      | none ↦ record s { state = some state }
      | some _ ↦ record { state = some left; file = left }
    ]

-- The program starts anew: what was in memory is gone.
abbrev pub restarted : VodHeadProbeStateStore → VodHeadProbeStateStore
restarted s = record s { state = none }

pub record VodCacheEntry : Type 0 where
  pub upstream_url : Text
  pub final_file : Option ℕ
  pub has_part_file : Bool
  pub expected_size : ℕ
  pub complete : Bool
  pub content_type : Option Text
  pub last_access_ts : ℕ
  pub active_sessions : ℕ
  pub active_readers : ℕ
  pub downloader_running : Bool

unfoldable pub touch_entry : VodCacheEntry → ℕ → VodCacheEntry
touch_entry e now = record e { last_access_ts = now }

unfoldable pub get_entry :
    Dict Text VodCacheEntry → Text → ℕ → Option VodCacheEntry × Dict Text VodCacheEntry
get_entry entries key now = elim (get key entries) [
  | none ↦ (none, entries)
  | some e ↦ (some (touch_entry e now), set key (touch_entry e now) entries)
]

unfoldable pub attach_session : VodCacheEntry → ℕ → VodCacheEntry
attach_session e now = touch_entry (record e { active_sessions = e.active_sessions + 1 }) now

unfoldable pub detach_session : VodCacheEntry → ℕ → VodCacheEntry
detach_session e now = touch_entry (record e { active_sessions = e.active_sessions - 1 }) now

unfoldable pub is_kept : ℕ → ℕ → VodCacheEntry → Bool
is_kept idle_seconds now e =
    e.downloader_running
    || ltb 0 e.active_readers
    || ltb 0 e.active_sessions
    || ltb now (e.last_access_ts + max 30 idle_seconds)

-- The entries that are left, and how many were removed with their files.
unfoldable pub cleanup : ℕ → ℕ → Dict Text VodCacheEntry → ℕ × Dict Text VodCacheEntry
cleanup idle_seconds now [] = (0, [])
cleanup idle_seconds now ((key, e) ∷ entries) =
    let rest = cleanup idle_seconds now entries in
    if is_kept idle_seconds now e then (rest.0, (key, e) ∷ rest.1) else (rest.0 + 1, rest.1)

-- `_vod_content_type_for_source`
unfoldable pub vod_content_type_for_source : CsoSource → Option Text
vod_content_type_for_source source =
    let extension = clean_key source.container_extension in
    if is_empty extension then none else some (content_type_for_media_path (some extension))

abbrev typed_entry : CsoSource → VodCacheEntry → VodCacheEntry
typed_entry source e =
    if e.complete && is_empty (or_missing e.content_type [])
    then record e { content_type = vod_content_type_for_source source }
    else e

-- An entry that is complete and whose size is not known takes the size of its file.
abbrev known_size : VodCacheEntry → ℕ
known_size e =
    if e.complete && e.expected_size == 0 then or_else 0 e.final_file else e.expected_size

abbrev renewed_entry : Text → VodCacheEntry → VodCacheEntry
renewed_entry upstream_url e = record e {
  upstream_url = or_text (strip upstream_url) e.upstream_url;
  expected_size = known_size e;
}

-- `final_file` and `has_part_file` are what the disk has for a new entry.
unfoldable pub get_or_create_entry :
    Dict Text VodCacheEntry
    → Text
    → CsoSource
    → Text
    → Option ℕ
    → Bool
    → ℕ
    → VodCacheEntry × Dict Text VodCacheEntry
get_or_create_entry entries key source upstream_url final_file has_part_file now =
    let new : VodCacheEntry = record {
      upstream_url = strip upstream_url;
      final_file = final_file;
      has_part_file = has_part_file;
      expected_size = 0;
      complete = false;
      content_type = none;
      last_access_ts = now;
      active_sessions = 0;
      active_readers = 0;
      downloader_running = false;
    } in
    let found : VodCacheEntry = elim (get key entries) [
      | none ↦ new
      | some e ↦ renewed_entry upstream_url e
    ] in
    let entry = touch_entry (typed_entry source found) now in (entry, set key entry entries)
