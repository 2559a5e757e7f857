-- ===== src/Cso/Ingest/Leaks.antt =====
-- Two paths on which the state of an ingest session goes wrong: the branch of
-- `_switch_source_after_failure` for a session that nobody uses, and a segmented handoff that stays
-- behind when its source does not start.
use headendarr.Prelude.{ℕ, ◌≡◌, refl, List, [], ◌∷◌, true, false, Option, none, some, arith}
use headendarr.Prelude.Text.{Text, text_key}
use headendarr.Cso.Types.{CsoSource}
use headendarr.Cso.Capacity.Ownership.{Exactly, release_other-Exactly}
use headendarr.Cso.External.{CapacityKey, capacity_key_key}
use headendarr.Cso.Ingest.{World, IngestSession, slot_key, is_used}
use headendarr.Cso.Ingest.Start.{
  Upstream, Hunt, is_segmented, try_urls, settle, activate_process, try_reserved, clear_source,
  select_variant, handle_source_failure,
}
use headendarr.Cso.Ingest.Stop.{stop}
use headendarr.Cso.Ingest.Holding.{IsSettled}
use headendarr.Cso.Ingest.Failover.{
  ReaderEnd, Round, Switched, drop_unused, switch_source_after_failure,
}

-- When the source of a session fails that nobody uses, and that holds exactly the slot it names,
-- the failover gives that slot never back: the owner still holds it afterwards, and a forced stop
-- then changes nothing.
pub switch_source_after_failure-leaks :
    (u : Upstream) (refreshed : Option (List CsoSource)) (rounds : List Round) (s : IngestSession)
    (w : World) (e : ReaderEnd) (now restarted_at : ℕ) (key : CapacityKey) (source : CsoSource)
    → IsSettled s w
    → s.current_capacity_key ≡ some key
    → s.current_source ≡ some source
    → is_used s ≡ false
    → (r : Switched) × (switch_source_after_failure u refreshed rounds s w e now restarted_at
        ≡ some r)
      × Exactly r.world.registry s.capacity_owner_key (some (key, some source.id))
      × (stop r.session r.world true now ≡ (r.session, r.world))
unfolding switch_source_after_failure drop_unused clear_source stop
switch_source_after_failure-leaks u refreshed rounds s w e now restarted_at key source settled k c
      unused =
    let dropped = drop_unused (record s { failover_exhausted = false }) w in
    let exact : Exactly w.registry s.capacity_owner_key (some (key, some source.id)) =
      rw (k, c) at settled.exact in
    (
      record { switched = false; session = dropped.0; world = dropped.1 },
      rw unused refl,
      rw k (
          release_other-Exactly w.registry key s.capacity_owner_key (some source.id) none
            settled.well_formed (λ e. cc) exact),
      rw unused refl,
    )

try_urls-handoff :
    (u : Upstream) (source : CsoSource) (now : ℕ) (urls : List Text) (s : IngestSession) (w : World)
    (raised : Option Text)
    → is_segmented u source ≡ false
    → s.segmented_handoff ≡ true
    → (try_urls u source now urls s w raised).session.segmented_handoff ≡ true
unfolding try_urls
try_urls-handoff u source now [] s w raised plain stale = stale
try_urls-handoff u source now (url ∷ urls) s w raised plain stale =
    let next =
      try_urls-handoff u source now urls s (handle_source_failure s w source now)
        (some (u.start_error source (select_variant u s source url).ingest_url)) plain stale in
    rw plain (ground (arith, next, stale))

-- If a segmented handoff is left from a source that failed, and a source without one then starts,
-- the session runs and nothing reads the pipe of its process.
pub try_reserved-unread :
    (u : Upstream) (source : CsoSource) (now : ℕ) (h : Hunt)
    → is_segmented u source ≡ false
    → h.session.segmented_handoff ≡ true
    → (try_reserved u source now h).0 ≡ true
    → ((try_reserved u source now h).1.session.running ≡ true)
      × ((try_reserved u source now h).1.session.reads ≡ false)
unfolding try_reserved settle activate_process
try_reserved-unread u source now h plain stale started =
    let kept = try_urls-handoff u source now (u.urls source) h.session h.world none plain stale in
    (ground (arith, started), ground (arith, started, kept))
