-- ===== src/Cso/Ingest/Stop.antt =====
-- `stop`, and the removals that end in it. What is done to processes and tasks is left out; a segmented
-- handoff is stopped with the session.
use headendarr.Prelude.{
  ℕ, [], ◌∷◌, Bool, true, false, not, ◌&&◌, ◌||◌, none, some, length, if◌then◌else◌,
}
use headendarr.Prelude.Dict.{Dict, pop}
use headendarr.Prelude.Text.{Text, text_key}
use headendarr.Cso.ByteQueue.{ByteBudgetQueue, put_eof}
use headendarr.Cso.Capacity.{release, release_all}
use headendarr.Cso.External.{capacity_key_key}
use headendarr.Cso.Ingest.{World, IngestSession, slot_key, is_used, discard_name, source_slot}

abbrev pub put_eof_each : ℕ → Dict Text ByteBudgetQueue → Dict Text ByteBudgetQueue
put_eof_each now [] = []
put_eof_each now ((id, q) ∷ subscribers) = (id, put_eof q now) ∷ put_eof_each now subscribers

abbrev pub released_key : IngestSession → World → World
released_key s w = elim s.current_capacity_key [
  | none ↦ w
  | some key ↦ record w { registry = release w.registry key s.capacity_owner_key (source_slot s) }
]

abbrev pub released_all : IngestSession → World → World
released_all s w = record w { registry = release_all w.registry s.capacity_owner_key }

unfoldable pub stopped : IngestSession → ℕ → IngestSession
stopped s now = record s {
  running = false;
  has_process = false;
  reads = false;
  current_capacity_key = none;
  current_source = none;
  current_source_url = [];
  hls_variants = [];
  current_variant_position = none;
  current_program_index = 0;
  failover_failed_sources = [];
  failover_in_progress = false;
  failover_exhausted = false;
  segmented_handoff = false;
  history = [];
  history_bytes = 0;
  subscribers = put_eof_each now s.subscribers;
}

unfoldable pub stop : IngestSession → World → Bool → ℕ → IngestSession × World
stop s w force now =
    if (not s.running && not s.has_process && not (is_used s)) || (not force && is_used s)
    then (s, w)
    else (stopped s now, released_all s (released_key s w))

unfoldable pub remove_subscriber : IngestSession → World → Text → ℕ → ℕ × IngestSession × World
remove_subscriber s w subscriber_id now =
    let left = record s { subscribers = pop subscriber_id s.subscribers } in
    let (session, world) = if not (is_used left) then stop left w true now else (left, w) in
    (length left.subscribers, session, world)

unfoldable pub remove_lifecycle_reference :
    IngestSession → World → Text → ℕ → ℕ × IngestSession × World
remove_lifecycle_reference s w reference_id now =
    let left = record s {
      lifecycle_references = discard_name reference_id s.lifecycle_references;
    } in
    let (session, world) = if not (is_used left) then stop left w true now else (left, w) in
    (length left.lifecycle_references, session, world)
