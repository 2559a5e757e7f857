-- ===== src/Cso/Output/Clients.antt =====
-- What `CsoOutputSession` gives its clients, and which it drops: stale ones that do not read, and ones
-- whose queues had to drop too much.
use headendarr.Prelude.{
  ℕ, ◌+◌, ◌-◌, List, [], ◌∷◌, ◌++◌, Bool, true, false, not, ◌&&◌, Option, none, some, length, ltb,
  leb, ◌==◌, keep, if◌then◌else◌,
}
use headendarr.Prelude.Dict.{Dict, get, set, pop, or_else, keys}
use headendarr.Prelude.Text.{Text, text_key}
use headendarr.Cso.ByteQueue.{Bytes, ByteBudgetQueue, put_drop_oldest}
use headendarr.Cso.Fanout.{trim_history}
use headendarr.Cso.Ingest.{is_hunting_for_stream}
use headendarr.Cso.Output.{
  DropState, OutputSession, Stage, stale_seconds_for_connection, remove_clients,
}

-- `_suspend_client_stale_checks`, for an output with an ingest session
abbrev pub suspend_client_stale_checks : Stage → Bool
suspend_client_stale_checks s = is_hunting_for_stream s.ingest

-- `float(self.client_last_touch.get(connection_id, now) or now)`
abbrev last_touch : OutputSession → Text → ℕ → ℕ
last_touch o id now =
    let touched = or_else now (get id o.client_last_touch) in if touched == 0 then now else touched

unfoldable pub is_stale : OutputSession → Bool → ℕ → Text → Bool
is_stale o suspended now id =
    not suspended && leb (stale_seconds_for_connection id) (now - last_touch o id now)

unfoldable pub put_active :
    OutputSession → Bool → Bytes → ℕ → Dict Text ByteBudgetQueue → Dict Text ByteBudgetQueue
put_active o suspended chunk now [] = []
put_active o suspended chunk now ((id, q) ∷ clients) =
    let rest = put_active o suspended chunk now clients in
    if is_stale o suspended now id
    then (id, q) ∷ rest
    else (id, (put_drop_oldest q (some chunk) now).1) ∷ rest

unfoldable pub noted : Option DropState → ℕ → ℕ → DropState
noted none dropped now = record { first_ts = now; last_ts = now; count = dropped }
noted (some state) dropped now = record state { last_ts = now; count = state.count + dropped }

unfoldable pub note_drop : Text → ℕ → ℕ → Dict Text DropState → Dict Text DropState
note_drop id dropped now states =
    if ltb 0 dropped then set id (noted (get id states) dropped now) states else pop id states

-- A client that is gone by then is passed over.
unfoldable pub note_drops :
    Dict Text ByteBudgetQueue → ℕ → Dict Text ℕ → Dict Text DropState → Dict Text DropState
note_drops clients now [] states = states
note_drops clients now ((id, dropped) ∷ results) states =
    note_drops clients now results
      (elim (get id clients) [ none ↦ states | some _ ↦ note_drop id dropped now states ])

unfoldable pub stale_ids : OutputSession → Bool → ℕ → List Text
stale_ids o suspended now = keep (is_stale o suspended now) (keys o.clients)

-- How many items each put has dropped.
abbrev drop_results : OutputSession → Bool → Bytes → ℕ → Dict Text ByteBudgetQueue → Dict Text ℕ
drop_results o suspended chunk now [] = []
drop_results o suspended chunk now ((id, q) ∷ clients) =
    let rest = drop_results o suspended chunk now clients in
    if is_stale o suspended now id
    then rest
    else (id, (put_drop_oldest q (some chunk) now).0.dropped_items) ∷ rest

-- The first block of `_broadcast`, with the puts.
unfoldable pub put_chunk : OutputSession → Bool → Bytes → ℕ → OutputSession
put_chunk o suspended chunk now =
    let trimmed =
      trim_history o.max_history_bytes (o.history ++ chunk ∷ []) (o.history_bytes + length chunk) in
    record o {
      last_activity = now;
      history = trimmed.0;
      history_bytes = trimmed.1;
      clients = put_active o suspended chunk now o.clients;
    }

-- The second block, for what puts have dropped before it gets the lock.
unfoldable pub note_results : OutputSession → ℕ → Dict Text ℕ → OutputSession
note_results o now results = record o {
  client_drop_state = note_drops o.clients now results o.client_drop_state;
}

unfoldable pub broadcast_output : Stage → Bytes → ℕ → Stage
broadcast_output s [] now = s
broadcast_output s (b ∷ bytes) now =
    let chunk = b ∷ bytes in
    let suspended = suspend_client_stale_checks s in
    let results = drop_results s.output suspended chunk now s.output.clients in
    let noted = note_results (put_chunk s.output suspended chunk now) now results in
    remove_clients (record s { output = noted }) (stale_ids s.output suspended now) now

abbrev is_idle : OutputSession → ℕ → Text → Bool
is_idle o now id =
    leb (stale_seconds_for_connection id) (now - or_else 0 (get id o.client_last_touch))

unfoldable pub prune_idle_clients : Stage → ℕ → Stage
prune_idle_clients s now =
    let idle = keep (is_idle s.output now) (keys s.output.clients) in
    if suspend_client_stale_checks s then s else remove_clients s idle now

-- `float(state.get("first_ts") or now)`: a time of 0 is the present.
abbrev first_drop : DropState → ℕ → ℕ
first_drop state now = if state.first_ts == 0 then now else state.first_ts

unfoldable pub is_backpressured : OutputSession → ℕ → ℕ → ℕ → Text → Bool
is_backpressured o min_elapsed min_drop_count now id =
    elim (get id o.clients) [ none ↦ false | some _ ↦ true ] && elim (get id o.client_drop_state) [
      | none ↦ false
      | some state ↦ leb (first_drop state now + min_elapsed) now && leb min_drop_count state.count
    ]

unfoldable pub drop_backpressured_clients : Stage → ℕ → ℕ → ℕ → ℕ × Stage
drop_backpressured_clients s min_elapsed min_drop_count now =
    let candidates =
      keep (is_backpressured s.output min_elapsed min_drop_count now)
        (keys s.output.client_drop_state) in
    (length candidates, remove_clients s candidates now)
