-- ===== src/Cso/Output/Calls.antt =====
-- The calls of an output session, in any order.
use headendarr.Prelude.{Bool, ℕ, List, [], ◌∷◌, true, if-Holds}
use headendarr.Prelude.Dict.{Dict, is_empty, pop-Distinct}
use headendarr.Prelude.Text.{Text, text_key}
use headendarr.Cso.ByteQueue.{Bytes}
use headendarr.Cso.Output.{
  Stage, add_client, touch_client, touch_all_clients, stop_output, without_client, remove_client,
  remove_clients,
}
use headendarr.Cso.Output.Tracked.{
  IsTracked, pop-Within, note_results-IsTracked, put_chunk-IsTracked, add_client-IsTracked,
  touch_client-IsTracked, touch_all_clients-IsTracked, stop_output-IsTracked,
}
use headendarr.Cso.Output.Clients.{
  suspend_client_stale_checks, stale_ids, put_chunk, note_results, broadcast_output,
  prune_idle_clients, drop_backpressured_clients,
}

pub remove_client-IsTracked :
    (s : Stage) (id : Text) (now : ℕ)
    → IsTracked s.output
    → IsTracked (remove_client s id now).stage.output
unfolding remove_client
remove_client-IsTracked s id now t =
    let o = s.output in
    let left = record s { output = without_client o id } in
    let tracked : IsTracked left.output = record {
      once = pop-Distinct id o.clients t.once;
      drops = pop-Within o.clients o.client_drop_state id t.once t.drops;
      touches = pop-Within o.clients o.client_last_touch id t.once t.touches;
    } in
    if-Holds {A = Stage} (λ after. IsTracked after.output) (is_empty left.output.clients)
      (stop_output left true now) left (λ _. stop_output-IsTracked left true now tracked)
      (λ _. tracked)

remove_clients-IsTracked :
    (s : Stage) (ids : List Text) (now : ℕ)
    → IsTracked s.output
    → IsTracked (remove_clients s ids now).output
unfolding remove_clients
remove_clients-IsTracked s [] now t = t
remove_clients-IsTracked s (id ∷ ids) now t =
    remove_clients-IsTracked (remove_client s id now).stage ids now
      (remove_client-IsTracked s id now t)

broadcast_output-IsTracked :
    (s : Stage) (chunk : Bytes) (now : ℕ)
    → IsTracked s.output
    → IsTracked (broadcast_output s chunk now).output
unfolding broadcast_output
broadcast_output-IsTracked s [] now t = t
broadcast_output-IsTracked s (b ∷ bytes) now t =
    let suspended = suspend_client_stale_checks s in
    let put = put_chunk-IsTracked s.output suspended (b ∷ bytes) now t in
    remove_clients-IsTracked _ (stale_ids s.output suspended now) now
      (note_results-IsTracked (put_chunk s.output suspended (b ∷ bytes) now) now _ put)

prune_idle_clients-IsTracked :
    (s : Stage) (now : ℕ) → IsTracked s.output → IsTracked (prune_idle_clients s now).output
unfolding prune_idle_clients
prune_idle_clients-IsTracked s now t =
    if-Holds {A = Stage} (λ after. IsTracked after.output) (suspend_client_stale_checks s) s _
      (λ _. t) (λ _. remove_clients-IsTracked s _ now t)

drop_backpressured_clients-IsTracked :
    (s : Stage) (min_elapsed min_drop_count now : ℕ)
    → IsTracked s.output
    → IsTracked (drop_backpressured_clients s min_elapsed min_drop_count now).1.output
unfolding drop_backpressured_clients
drop_backpressured_clients-IsTracked s min_elapsed min_drop_count now t =
    remove_clients-IsTracked s _ now t

-- What is called of an output session. A broadcast may also go on in its blocks, with other calls
-- between them: `puts` is the first, `notes` the second, for whatever was dropped until then, and
-- `removes` the rest.
pub data Call : Type 0 where
  adds : Text → ℕ → Call
  touches_one : Text → Call
  touches_all : Call
  broadcasts : Bytes → Call
  puts : Bytes → Call
  notes : Dict Text ℕ → Call
  prunes : Call
  drops_full : ℕ → ℕ → Call
  removes : Text → Call
  stops : Bool → Call

unfoldable pub call : Stage → ℕ × Call → Stage
call s (now, adds id prebuffer_bytes) = record s {
  output = add_client s.output id prebuffer_bytes now;
}
call s (now, touches_one id) = record s { output = touch_client s.output id now }
call s (now, touches_all) = record s { output = touch_all_clients s.output now }
call s (now, broadcasts chunk) = broadcast_output s chunk now
call s (now, puts chunk) = record s {
  output = put_chunk s.output (suspend_client_stale_checks s) chunk now;
}
call s (now, notes results) = record s { output = note_results s.output now results }
call s (now, prunes) = prune_idle_clients s now
call s (now, drops_full min_elapsed min_drop_count) =
    (drop_backpressured_clients s min_elapsed min_drop_count now).1
call s (now, removes id) = (remove_client s id now).stage
call s (now, stops force) = stop_output s force now

unfoldable pub run : Stage → List (ℕ × Call) → Stage
run s [] = s
run s (c ∷ calls) = run (call s c) calls

call-IsTracked : (s : Stage) (c : ℕ × Call) → IsTracked s.output → IsTracked (call s c).output
unfolding call
call-IsTracked s (now, adds id prebuffer_bytes) t =
    add_client-IsTracked s.output id prebuffer_bytes now t
call-IsTracked s (now, touches_one id) t = touch_client-IsTracked s.output id now t
call-IsTracked s (now, touches_all) t = touch_all_clients-IsTracked s.output now t
call-IsTracked s (now, broadcasts chunk) t = broadcast_output-IsTracked s chunk now t
call-IsTracked s (now, puts chunk) t =
    put_chunk-IsTracked s.output (suspend_client_stale_checks s) chunk now t
call-IsTracked s (now, notes results) t = note_results-IsTracked s.output now results t
call-IsTracked s (now, prunes) t = prune_idle_clients-IsTracked s now t
call-IsTracked s (now, drops_full min_elapsed min_drop_count) t =
    drop_backpressured_clients-IsTracked s min_elapsed min_drop_count now t
call-IsTracked s (now, removes id) t = remove_client-IsTracked s id now t
call-IsTracked s (now, stops force) t = stop_output-IsTracked s force now t

-- Whatever is called of an output, in any order, also between the two blocks of a broadcast, and
-- whatever the second block is told that the puts have dropped: if at first no client stands
-- twice and the drop states and the times of the last touch, each key once, are of clients, then
-- this holds afterwards.
pub run-IsTracked :
    (s : Stage) (calls : List (ℕ × Call)) → IsTracked s.output → IsTracked (run s calls).output
unfolding run
run-IsTracked s [] t = t
run-IsTracked s (c ∷ calls) t = run-IsTracked (call s c) calls (call-IsTracked s c t)
