-- ===== src/Cso/Output.antt =====
-- backend/cso/output.py, `CsoOutputSession`: the clients of one output, each with a queue, and its
-- attachment to an ingest session, whose blocks it calls. A record of the three is one stage of the
-- program. The process of the output, its loops and the slate are left out. Times are in microseconds;
-- what a method awaits runs at once, in its order.
pub mod Clients
pub mod Tracked
pub mod Calls
pub mod Leaving
pub mod Dropped
mod Tests
use headendarr.Prelude.{
  ℕ, ◌+◌, ◌-◌, ◌*◌, List, [], ◌∷◌, ◌++◌, Bool, true, false, not, ◌&&◌, ◌||◌, Option, none, some,
  length, ltb, leb, map, if◌then◌else◌,
}
use headendarr.Prelude.Dict.{Dict, get, set, pop, or_else, is_empty, keys}
use headendarr.Prelude.Text.{Text, codes, text_key, starts_with}
use headendarr.Cso.ByteQueue.{Bytes, ByteBudgetQueue, PutResult, put_drop_oldest, put_eof}
use headendarr.Cso.Fanout.{trim_history, primed_queue}
use headendarr.Cso.Sources.{second}
use headendarr.Cso.Ingest.{World, IngestSession, is_hunting_for_stream, add_subscriber}
use headendarr.Cso.Ingest.Stop.{put_eof_each, remove_subscriber, remove_lifecycle_reference}

pub record DropState : Type 0 where
  pub first_ts : ℕ
  pub last_ts : ℕ
  pub count : ℕ

pub record OutputSession : Type 0 where
  pub key : Text
  pub running : Bool
  pub has_process : Bool
  pub clients : Dict Text ByteBudgetQueue
  pub client_drop_state : Dict Text DropState
  pub client_last_touch : Dict Text ℕ
  pub history : List Bytes
  pub history_bytes : ℕ
  pub max_history_bytes : ℕ
  pub queue_max_bytes : ℕ
  pub last_activity : ℕ
  pub ingest_queue : Bool
  pub ingest_lifecycle_reference : Bool

-- `CSO_OUTPUT_CLIENT_QUEUE_MAX_BYTES` bounds each queue.
abbrev pub new_output_session : Text → ℕ → OutputSession
new_output_session key now = record {
  key = key;
  running = false;
  has_process = false;
  clients = [];
  client_drop_state = [];
  client_last_touch = [];
  history = [];
  history_bytes = 0;
  max_history_bytes = 16 * 1024 * 1024;
  queue_max_bytes = 90000000;
  last_activity = now;
  ingest_queue = false;
  ingest_lifecycle_reference = false;
}

-- An output, the ingest session that it reads and what ingest sessions share.
pub record Stage : Type 0 where
  pub output : OutputSession
  pub ingest : IngestSession
  pub world : World

unfoldable pub stale_seconds_for_connection : Text → ℕ
stale_seconds_for_connection connection_id =
    if starts_with (codes "tvh-") connection_id then 20 * second else 15 * second

unfoldable pub add_client : OutputSession → Text → ℕ → ℕ → OutputSession
add_client o connection_id prebuffer_bytes now = record o {
  clients =
      set connection_id (primed_queue o.queue_max_bytes prebuffer_bytes o.history now) o.clients;
  client_drop_state = pop connection_id o.client_drop_state;
  client_last_touch = set connection_id now o.client_last_touch;
}

unfoldable pub touch_client : OutputSession → Text → ℕ → OutputSession
touch_client o connection_id now = elim (get connection_id o.clients) [
  | none ↦ o
  | some _ ↦ record o {
    client_last_touch = set connection_id now o.client_last_touch;
    last_activity = now;
  }
]

abbrev pub touch_each : List Text → ℕ → Dict Text ℕ → Dict Text ℕ
touch_each [] now touched = touched
touch_each (id ∷ ids) now touched = touch_each ids now (set id now touched)

unfoldable pub touch_all_clients : OutputSession → ℕ → OutputSession
touch_all_clients o now = if is_empty o.clients then o else record o {
  client_last_touch = touch_each (keys o.clients) now o.client_last_touch;
  last_activity = now;
}

-- The blocks of `stop`: the state is taken down, the ingest is left, and the clients get their end. They
-- stay among the clients.
unfoldable pub taken_down : OutputSession → OutputSession
taken_down o = record o {
  running = false;
  has_process = false;
  ingest_queue = false;
  ingest_lifecycle_reference = false;
}

unfoldable pub ended : OutputSession → ℕ → OutputSession
ended o now = record o {
  clients = put_eof_each now o.clients;
  client_drop_state = [];
  client_last_touch = [];
}

unfoldable pub leave_queue : Stage → Bool → ℕ → Stage
leave_queue s false now = s
leave_queue s true now =
    let left = remove_subscriber s.ingest s.world s.output.key now in
    record s { ingest = left.1; world = left.2 }

unfoldable pub leave_reference : Stage → Bool → ℕ → Stage
leave_reference s false now = s
leave_reference s true now =
    let left = remove_lifecycle_reference s.ingest s.world s.output.key now in
    record s { ingest = left.1; world = left.2 }

unfoldable pub stop_output : Stage → Bool → ℕ → Stage
stop_output s force now =
    let o = s.output in
    let down = record s { output = taken_down o } in
    let left =
      leave_reference (leave_queue down o.ingest_queue now) o.ingest_lifecycle_reference now in
    if (not o.running && not o.has_process && is_empty o.clients)
      || (not force && not (is_empty o.clients))
    then s
    else record left { output = ended left.output now }

abbrev end_queue : Option ByteBudgetQueue → ℕ → Option ByteBudgetQueue
end_queue none now = none
end_queue (some q) now = some (put_eof q now)

-- The queue that is removed gets its end: its reader still has it.
pub record Removed : Type 0 where
  pub queue : Option ByteBudgetQueue
  pub remaining : ℕ
  pub stage : Stage

abbrev without_client : OutputSession → Text → OutputSession
without_client o connection_id = record o {
  clients = pop connection_id o.clients;
  client_drop_state = pop connection_id o.client_drop_state;
  client_last_touch = pop connection_id o.client_last_touch;
}

unfoldable pub remove_client : Stage → Text → ℕ → Removed
remove_client s connection_id now =
    let left = record s { output = without_client s.output connection_id } in
    record {
      queue = end_queue (get connection_id s.output.clients) now;
      remaining = length left.output.clients;
      stage = if is_empty left.output.clients then stop_output left true now else left;
    }

unfoldable pub remove_clients : Stage → List Text → ℕ → Stage
remove_clients s [] now = s
remove_clients s (id ∷ ids) now = remove_clients (remove_client s id now).stage ids now
