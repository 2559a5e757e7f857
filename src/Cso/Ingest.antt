-- ===== src/Cso/Ingest.antt =====
-- backend/cso/live_ingest.py, `CsoIngestSession`: the state of one upstream connection that is shared by
-- its subscribers, and the methods that keep them. The processes, their pipes, the statistics of speed
-- and the events that are recorded are left out; `reads` is whether a task reads the pipe of the
-- process, and `segmented_handoff` whether there is a segmented handoff. Times are in microseconds.
pub mod Start
pub mod Failover
pub mod Stop
pub mod Holding
pub mod Readers
pub mod Leaks
pub mod Health
pub mod Steps
pub mod Samples
mod Tests
use headendarr.Prelude.{
  refl, ℕ, ℕ_discrete, ◌+◌, ◌*◌, List, [], ◌∷◌, ◌++◌, Bool, true, false, not, ◌&&◌, ◌||◌, Option,
  none, some, length, if◌then◌else◌,
}
use headendarr.Prelude.Dict.{Dict, Key, get, set, pop, is_empty}
use headendarr.Prelude.Text.{Text, text_key, text_discrete}
use headendarr.Cso.Types.{CsoSource}
use headendarr.Cso.ByteQueue.{Bytes, ByteBudgetQueue, put_drop_oldest}
use headendarr.Cso.Fanout.{trim_history, primed_queue}
use headendarr.Cso.Capacity.{CapacityRegistry}
use headendarr.Cso.External.{CapacityKey, source_capacity_key}
use headendarr.Cso.Sources.{FailedSources}

-- A slot is a source's id, or the default of `slot_id`, which is None.
abbrev pub Slot : Type 0
Slot = Option ℕ

unfoldable pub slot_discrete : Discrete Slot
unfolding ℕ_discrete
slot_discrete none none = yes refl
slot_discrete none (some b) = no (λ e. cc)
slot_discrete (some a) none = no (λ e. cc)
slot_discrete (some a) (some b) = elim (ℕ_discrete a b) [
  | yes p ↦ yes (cc)
  | no n ↦ no (λ e. n (cc))
]

instance abbrev pub slot_key : Key Slot
slot_key = record { same = slot_discrete }

abbrev pub Registry : Type 0
Registry = CapacityRegistry CapacityKey Text Slot

-- What sessions share: `cso_capacity_registry` and `_cso_channel_failed_sources`.
pub record World : Type 0 where
  pub registry : Registry
  pub failed_sources : FailedSources

pub record Variant : Type 0 where
  pub program_index : ℕ
  pub variant_url : Text

pub record IngestSession : Type 0 where
  pub channel_id : ℕ
  pub capacity_owner_key : Text
  pub sources : List CsoSource
  pub allow_failover : Bool
  pub running : Bool
  pub has_process : Bool
  pub reads : Bool
  pub process_token : ℕ
  pub last_activity : ℕ
  pub subscribers : Dict Text ByteBudgetQueue
  pub lifecycle_references : List Text
  pub history : List Bytes
  pub history_bytes : ℕ
  pub max_history_bytes : ℕ
  pub queue_max_bytes : ℕ
  pub current_source : Option CsoSource
  pub current_source_url : Text
  pub current_capacity_key : Option CapacityKey
  pub failed_source_until : Dict ℕ ℕ
  pub failover_failed_sources : List ℕ
  pub failover_in_progress : Bool
  pub failover_exhausted : Bool
  pub first_healthy_stream_seen : Bool
  pub last_error : Text
  pub hls_variants : List Variant
  pub current_variant_position : Option ℕ
  pub current_program_index : ℕ
  pub source_program_index : Dict ℕ ℕ
  pub source_variant_position : Dict ℕ ℕ
  pub segmented_handoff : Bool

-- `CSO_INGEST_HISTORY_MAX_BYTES` and `CSO_INGEST_SUBSCRIBER_QUEUE_MAX_BYTES`, and no channel as 0.
abbrev pub new_ingest_session : ℕ → Text → List CsoSource → Bool → ℕ → IngestSession
new_ingest_session channel_id capacity_owner_key sources allow_failover now = record {
  channel_id = channel_id;
  capacity_owner_key = capacity_owner_key;
  sources = sources;
  allow_failover = allow_failover;
  running = false;
  has_process = false;
  reads = false;
  process_token = 0;
  last_activity = now;
  subscribers = [];
  lifecycle_references = [];
  history = [];
  history_bytes = 0;
  max_history_bytes = 16 * 1024 * 1024;
  queue_max_bytes = 90000000;
  current_source = none;
  current_source_url = [];
  current_capacity_key = none;
  failed_source_until = [];
  failover_failed_sources = [];
  failover_in_progress = false;
  failover_exhausted = false;
  first_healthy_stream_seen = false;
  last_error = [];
  hls_variants = [];
  current_variant_position = none;
  current_program_index = 0;
  source_program_index = [];
  source_variant_position = [];
  segmented_handoff = false;
}

-- `bool(self.subscribers or self.lifecycle_references)`
abbrev pub is_used : IngestSession → Bool
is_used s = not (is_empty s.subscribers) || not (is_empty s.lifecycle_references)

-- `getattr(self.current_source, "id", None)`
abbrev pub source_slot : IngestSession → Slot
source_slot s = elim s.current_source [ none ↦ none | some source ↦ some source.id ]

unfoldable pub is_hunting_for_stream : IngestSession → Bool
is_hunting_for_stream s =
    s.failover_in_progress
    || not s.first_healthy_stream_seen
    || not s.running
    || elim s.current_source [ none ↦ true | some _ ↦ false ]

abbrev pub put_each : Bytes → ℕ → Dict Text ByteBudgetQueue → Dict Text ByteBudgetQueue
put_each chunk now [] = []
put_each chunk now ((id, q) ∷ subscribers) =
    (id, (put_drop_oldest q (some chunk) now).1) ∷ put_each chunk now subscribers

unfoldable pub broadcast : IngestSession → Bytes → ℕ → IngestSession
broadcast s [] now = s
broadcast s (b ∷ bytes) now =
    let chunk = b ∷ bytes in
    let trimmed =
      trim_history s.max_history_bytes (s.history ++ chunk ∷ []) (s.history_bytes + length chunk) in
    record s {
      last_activity = now;
      history = trimmed.0;
      history_bytes = trimmed.1;
      subscribers = put_each chunk now s.subscribers;
    }

-- `none` is the exception of a session whose output is a segmented handoff.
unfoldable pub add_subscriber : IngestSession → Text → ℕ → ℕ → Option IngestSession
add_subscriber s subscriber_id prebuffer_bytes now =
    if s.segmented_handoff
    then none
    else some (record s {
      subscribers =
          set subscriber_id (primed_queue s.queue_max_bytes prebuffer_bytes s.history now)
            s.subscribers;
    })

abbrev add_name : Text → List Text → List Text
add_name name [] = name ∷ []
add_name name (other ∷ names) =
    let rest = add_name name names in
    elim (text_discrete other name) [ yes _ ↦ other ∷ names | no _ ↦ other ∷ rest ]

abbrev pub discard_name : Text → List Text → List Text
discard_name name [] = []
discard_name name (other ∷ names) =
    let rest = discard_name name names in
    elim (text_discrete other name) [ yes _ ↦ rest | no _ ↦ other ∷ rest ]

unfoldable pub add_lifecycle_reference : IngestSession → Text → ℕ → IngestSession
add_lifecycle_reference s reference_id now = record s {
  lifecycle_references = add_name reference_id s.lifecycle_references;
  last_activity = now;
}
