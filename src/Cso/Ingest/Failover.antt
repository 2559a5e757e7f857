-- ===== src/Cso/Ingest/Failover.antt =====
-- `_switch_source_after_failure`: a source, another or the same, is started when the one that is read
-- has ended or is unhealthy. The events that it records are left out. A return code is `none` for None;
-- only whether it is zero is asked. Each round of the loop is given the times when it begins and when
-- it has ended, and who uses the session when it begins, since other tasks run while it sleeps.
pub mod Ends
use headendarr.Prelude.{
  ℕ, ◌+◌, ◌*◌, List, [], ◌∷◌, Bool, true, false, not, ◌&&◌, ◌||◌, Option, none, some, length, ltb,
  leb, ◌==◌, keep, any_of, map, if◌then◌else◌,
}
use headendarr.Prelude.Dict.{Dict, get, set, or_else, is_empty, nat_key}
use headendarr.Prelude.Text.{Text, codes, text_key, strip, lower, one_of, contains}
use headendarr.Cso.Types.{CsoSource}
use headendarr.Cso.ByteQueue.{ByteBudgetQueue}
use headendarr.Cso.Capacity.{release}
use headendarr.Cso.External.{CapacityKey, capacity_key_key}
use headendarr.Cso.Sources.{member, second}
use headendarr.Cso.Ingest.{World, IngestSession, Slot, slot_key, source_slot, is_used}
use headendarr.Cso.Ingest.Start.{
  Upstream, CsoStartResult, Started, is_available, start_best_source, handle_source_failure,
  clear_source,
}

pub record ReaderEnd : Type 0 where
  pub reason : Text
  pub return_code : Option ℕ
  pub saw_data : Bool
  pub ffmpeg_error : Text

-- `return_code not in (None, 0)`, and `return_code == 0`
abbrev failed_code : Option ℕ → Bool
failed_code none = false
failed_code (some code) = not (code == 0)

abbrev zero_code : Option ℕ → Bool
zero_code none = false
zero_code (some code) = code == 0

abbrev is_reader_end : ReaderEnd → Bool
is_reader_end e = one_of (codes "ingest_reader_ended" ∷ []) e.reason

unfoldable pub is_graceful : ReaderEnd → Bool
is_graceful e = is_reader_end e && e.saw_data && zero_code e.return_code

abbrev connectivity_tokens : List Text
connectivity_tokens =
    codes "connection refused"
    ∷ codes "timed out"
    ∷ codes "network is unreachable"
    ∷ codes "name or service not known"
    ∷ codes "could not resolve"
    ∷ codes "forbidden"
    ∷ codes "unauthorized"
    ∷ codes "http error"
    ∷ codes "server returned"
    ∷ codes "invalid data"
    ∷ []

unfoldable pub is_connectivity_failure : ReaderEnd → Bool
is_connectivity_failure e =
    is_reader_end e
    && failed_code e.return_code
    && any_of (λ token. contains token (lower e.ffmpeg_error)) connectivity_tokens

abbrev has_many : List CsoSource → Bool
has_many sources = ltb 1 (length sources)

unfoldable pub is_terminal : IngestSession → ReaderEnd → Bool
is_terminal s e = is_connectivity_failure e && not (has_many s.sources)

unfoldable pub holds_down : IngestSession → ReaderEnd → Bool
holds_down s e =
    has_many s.sources
    && (one_of (codes "under_speed" ∷ codes "stall_timeout" ∷ []) e.reason
        || is_connectivity_failure e)

abbrev source_hold_down : ℕ
source_hold_down = 20 * second

abbrev pub recovery_window : ℕ
recovery_window = 12 * second

abbrev add_failed : ℕ → List ℕ → List ℕ
add_failed id failed = if member id failed then failed else id ∷ failed

-- The branch of a session that nobody uses. The slot that is released is the default, None.
unfoldable pub drop_unused : IngestSession → World → IngestSession × World
drop_unused s w = (
  clear_source s,
  elim s.current_capacity_key [
    | none ↦ w
    | some key ↦ record w { registry = release w.registry key s.capacity_owner_key none }
  ],
)

abbrev pub with_failed : IngestSession → ReaderEnd → ℕ → Option CsoSource → IngestSession
with_failed s e now none = s
with_failed s e now (some failed) = record s {
  failover_failed_sources = add_failed failed.id s.failover_failed_sources;
  failed_source_until =
      if holds_down s e && ltb 0 failed.id
      then set failed.id (now + source_hold_down) s.failed_source_until
      else s.failed_source_until;
}

-- The source that failed is taken down and its capacity given back.
unfoldable pub take_down : IngestSession → World → ReaderEnd → ℕ → IngestSession × World
take_down s w e now = (
  record (with_failed s e now s.current_source) {
    current_source = none;
    current_source_url = [];
    current_capacity_key = none;
    hls_variants = [];
    current_variant_position = none;
    current_program_index = 0;
    has_process = false;
    running = s.allow_failover && not (is_terminal s e);
  },
  elim s.current_capacity_key [
    | none ↦ w
    | some key ↦ record w { registry = release w.registry key s.capacity_owner_key (source_slot s) }
  ],
)

abbrev pub eligible_ids : IngestSession → List ℕ
eligible_ids s = map (λ source. source.id) (keep is_available s.sources)

pub record Switched : Type 0 where
  pub switched : Bool
  pub session : IngestSession
  pub world : World

abbrev pub of_start : Started → Switched
of_start r = record {
  switched = true;
  session = record r.session {
    running = true;
    failover_in_progress = false;
    failover_exhausted = false;
  };
  world = r.world;
}

pub record Round : Type 0 where
  pub now : ℕ
  pub ended : ℕ
  pub subscribers : Dict Text ByteBudgetQueue
  pub lifecycle_references : List Text

abbrev pub used_by : IngestSession → Round → IngestSession
used_by s r = record s {
  subscribers = r.subscribers;
  lifecycle_references = r.lifecycle_references;
}

-- One round: the sources that have not failed in this cycle, or all of them once each has failed.
unfoldable pub try_round : Upstream → IngestSession → World → ℕ → Started
try_round u s w now =
    let eligible = eligible_ids s in
    let cycle_failed = keep (λ id. member id eligible) s.failover_failed_sources in
    let untried = keep (λ id. not (member id cycle_failed)) eligible in
    let recycled = record s { failover_failed_sources = [] } in
    if is_empty untried && not (is_empty eligible)
    then start_best_source u recycled w now [] true
    else start_best_source u s w now (if is_empty untried then [] else cycle_failed) false

abbrev pub exhausted : Started → Switched
exhausted r = record {
  switched = false;
  session = record r.session {
    failover_in_progress = false;
    failover_exhausted = true;
    running = false;
  };
  world = r.world;
}

-- The `while` loop, over the rounds that there is time for; `none` is a loop that still sleeps.
unfoldable pub retry : Upstream → ℕ → List Round → IngestSession → World → Option Switched
retry u deadline [] s w = none
retry u deadline (r ∷ rounds) s w =
    let started = try_round u (used_by s r) w r.now in
    let next = retry u deadline rounds started.session started.world in
    if started.result.success
    then some (of_start started)
    else if not (is_used (used_by s r))
    then some (record { switched = false; session = started.session; world = started.world })
    else if leb deadline r.ended
    then some (exhausted started)
    else next

-- The source that failed is the only one that is switched on.
unfoldable pub is_only : Option ℕ → IngestSession → Bool
is_only none s = false
is_only (some id) s = length (eligible_ids s) == 1 && member id (eligible_ids s)

-- After the sources are read anew: the only source that is switched on, if it ended gracefully, starts
-- again at once; otherwise the rounds, until the deadline counted from `restarted_at`, when they begin.
unfoldable pub replace_source :
    Upstream → Option ℕ → Bool → ℕ → ℕ → List Round → IngestSession → World → Option Switched
replace_source u failed_id graceful now restarted_at rounds s w =
    let again = record s { failover_failed_sources = [] } in
    let restarted = start_best_source u again w now [] true in
    if graceful && is_only failed_id s
    then (if restarted.result.success
        then some (record {
          switched = true;
          session = record restarted.session { running = true };
          world = restarted.world;
        })
        else retry u (restarted_at + recovery_window) rounds restarted.session restarted.world)
    else retry u (restarted_at + recovery_window) rounds s w

abbrev pub refreshed_sources : Option (List CsoSource) → List CsoSource → List CsoSource
refreshed_sources none old = old
refreshed_sources (some sources) old = sources

abbrev pub mark_failed : IngestSession → World → ReaderEnd → ℕ → Option CsoSource → World
mark_failed s w e now none = w
mark_failed s w e now (some failed) =
    if one_of (codes "capacity_blocked" ∷ []) e.reason
    then w
    else handle_source_failure s w failed now

abbrev pub id_of : Option CsoSource → Option ℕ
id_of none = none
id_of (some source) = some source.id

-- `refreshed` is what `_refresh_sources_from_db` finds, `none` for no channel. `restarted_at` is the
-- time when the sources have been read and the restart tried.
unfoldable pub switch_source_after_failure :
    Upstream
    → Option (List CsoSource)
    → List Round
    → IngestSession
    → World
    → ReaderEnd
    → ℕ
    → ℕ
    → Option Switched
switch_source_after_failure u refreshed rounds s w e now restarted_at =
    let fresh = record s { failover_exhausted = false } in
    let unused = drop_unused fresh w in
    let down = take_down fresh w e now in
    let hunting = record down.0 {
      failover_in_progress = true;
      sources = refreshed_sources refreshed s.sources;
    } in
    if not (is_used s)
    then some (record { switched = false; session = unused.0; world = unused.1 })
    else if not s.allow_failover
    then some (record { switched = false; session = down.0; world = down.1 })
    else if is_terminal s e
    then some (record {
      switched = false;
      session = record down.0 {
        failover_in_progress = false;
        failover_exhausted = true;
        running = false;
      };
      world = down.1;
    })
    else replace_source u (id_of s.current_source) (is_graceful e) now restarted_at rounds hunting
        (mark_failed fresh down.1 e now s.current_source)
