-- ===== src/Cso/VodCache/Tests.antt =====
-- Runs of the VOD cache.
use headendarr.Prelude.{◌+◌, ◌≡◌, refl, [], ◌∷◌, true, false, none, some, leb}
use headendarr.Prelude.Dict.{Dict}
use headendarr.Prelude.Text.{Text, codes, text_key}
use headendarr.Cso.VodCache.{
  VodHeadProbeStateStore, VodCacheEntry, should_skip_head, mark_head_failed, load_state, cleaned,
  restarted, cleanup, vod_head_probe_state_ttl_seconds, attach_session, detach_session, touch_entry,
  is_kept,
}
use headendarr.Cso.VodCache.HeadProbe.{run, asks, answers, mark_head_failed-should_skip_head}

abbrev empty_store : VodHeadProbeStateStore
empty_store = record { state = none; file = [] }

mark_head_failed-should_skip_head_example :
    ((should_skip_head
        (run
          (mark_head_failed empty_store (codes "a") (codes "timeout") 5)
          ((6, asks (codes "a")) ∷ (7, answers []) ∷ []))
        (codes "a")
        1000000).0
      ≡ true)
    × ((should_skip_head
          (restarted (mark_head_failed empty_store (codes "a") (codes "timeout") 5))
          (codes "a")
          1000000).0
        ≡ leb 1000000 (5 + vod_head_probe_state_ttl_seconds))
unfolding load_state cleaned
mark_head_failed-should_skip_head_example =
    mark_head_failed-should_skip_head empty_store (codes "a") (codes "timeout") 5
      ((6, asks (codes "a")) ∷ (7, answers []) ∷ []) 1000000 tt (tt, ((λ e. cc), tt))

abbrev cached : VodCacheEntry
cached = record {
  upstream_url = codes "http://up/1.mkv";
  final_file = some 100;
  has_part_file = false;
  expected_size = 100;
  complete = true;
  content_type = none;
  last_access_ts = 10;
  active_sessions = 0;
  active_readers = 0;
  downloader_running = false;
}

abbrev two_entries : Dict Text VodCacheEntry
two_entries =
    (codes "movie:1", cached) ∷ (codes "movie:22", record cached { active_sessions = 1 }) ∷ []

removes_one : (cleanup 600 1000 two_entries).0 ≡ 1
unfolding cleanup is_kept
removes_one = refl

detaches : (detach_session (attach_session cached 20) 30).active_sessions ≡ 0
unfolding attach_session detach_session touch_entry
detaches = refl
