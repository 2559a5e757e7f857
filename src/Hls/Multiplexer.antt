-- ===== src/Hls/Multiplexer.antt =====
-- backend/hls_multiplexer.py, `BaseStreamMultiplexer` with the `stop` of its two subclasses: one
-- upstream stream, the queues of its clients, and a history that primes the queue of a new client.
-- A client is a connection id. A queue is a list from its oldest item, and `none` in it ends the stream.
-- The process that ffmpeg mode terminates on `stop` is not modelled.
pub mod History
pub mod Priming
pub mod Stop
mod Tests
use headendarr.Prelude.{
  ℕ, ◌+◌, ◌-◌, List, [], ◌∷◌, ◌++◌, Option, none, some, Bool, true, false, not, ◌&&◌, ◌||◌, length,
  ltb, leb, map, if◌then◌else◌,
}
use mathlib.Core.List.{reverse}
use headendarr.Prelude.Dict.{Dict, Key, set, pop, is_empty}

abbrev pub Chunk : Type 0
Chunk = List ℕ

abbrev pub Queue : Type 0
Queue = List (Option Chunk)

pub record Stream (C : Type 0) : Type 0 where
  pub queues : Dict C Queue
  pub running : Bool
  pub last_activity : ℕ
  pub history : List Chunk
  pub history_bytes : ℕ
  pub max_history_bytes : ℕ

-- `asyncio.Queue(maxsize=100000)`
unfoldable pub queue_limit : ℕ
queue_limit = 100000

abbrev pub is_full : Queue → Bool
is_full q = leb queue_limit (length q)

-- `put_nowait`, or `none` for `QueueFull`
unfoldable pub put_nowait : Queue → Option Chunk → Option Queue
put_nowait q item = if is_full q then none else some (q ++ item ∷ [])

abbrev pub tail : Queue → Queue
tail [] = []
tail (item ∷ q) = q

-- The leaky bucket of `_broadcast`: a full queue gives up its oldest item.
unfoldable pub push : Chunk → Queue → Queue
push chunk q = if is_full q then tail q ++ some chunk ∷ [] else q ++ some chunk ∷ []

-- `while self.history_bytes > self.max_history_bytes`, or `none` for the `IndexError` of an empty deque
unfoldable pub trim : ℕ → List Chunk → ℕ → Option (List Chunk × ℕ)
trim max_bytes [] bytes = if ltb max_bytes bytes then none else some ([], bytes)
trim max_bytes (old ∷ history) bytes =
    let rest = trim max_bytes history (bytes - length old) in
    if ltb max_bytes bytes then rest else some (old ∷ history, bytes)

-- The chunks of the history, newest first, up to the one that reaches `prebuffer_bytes`
unfoldable pub most_recent : ℕ → ℕ → List Chunk → List Chunk
most_recent prebuffer_bytes accumulated [] = []
most_recent prebuffer_bytes accumulated (chunk ∷ older) =
    let rest = most_recent prebuffer_bytes (accumulated + length chunk) older in
    if leb prebuffer_bytes (accumulated + length chunk) then chunk ∷ [] else chunk ∷ rest

-- Puts the chunks, oldest first, until one does not fit, and sums the bytes put.
unfoldable pub prime : List Chunk → Queue → ℕ → Queue × ℕ
prime [] q primed = (q, primed)
prime (chunk ∷ chunks) q primed =
    let rest = prime chunks (q ++ some chunk ∷ []) (primed + length chunk) in
    if is_full q then (q, primed) else rest

-- What a stop leaves: the stream, the queues that its clients still hold, and whether the stop went
-- through, so that `on_stop_callback` was called.
pub record Stopped (C : Type 0) : Type 0 where
  pub stream : Stream C
  pub closed : Dict C Queue
  pub called_back : Bool

module _ {C : Type 0} where
  abbrev pub with_queue_items : (Queue → Queue) → Dict C Queue → Dict C Queue
  with_queue_items f = map (λ e. (e.0, f e.1))

  after_trim : Stream C → Chunk → ℕ → Option (List Chunk × ℕ) → Option (Stream C)
  after_trim s chunk now none = none
  after_trim s chunk now (some (history, bytes)) = some (record s {
    last_activity = now;
    history = history;
    history_bytes = bytes;
    queues = with_queue_items (push chunk) s.queues;
  })

  -- `none` is an exception that `_broadcast` raises.
  unfoldable pub broadcast : Stream C → Chunk → ℕ → Option (Stream C)
  unfolding after_trim
  broadcast s [] now = some s
  broadcast s (b ∷ bytes) now =
      let chunk = b ∷ bytes in
      after_trim s chunk now
        (trim s.max_history_bytes (s.history ++ chunk ∷ []) (s.history_bytes + length chunk))

-- `except Exception: pass`: a queue with no room gets no end marker.
unfoldable pub put_eof : Queue → Queue
unfolding put_nowait
put_eof q = elim (put_nowait q none) [ none ↦ q | some ended ↦ ended ]

module _ {C : Type 0} where
  -- `stop` of `AsyncFFmpegStream` and of `AsyncDirectStream`
  unfoldable pub stop : Stream C → Bool → Stopped C
  unfolding put_eof
  stop s force =
      if not s.running || (not force && not (is_empty s.queues))
      then record { stream = s; closed = []; called_back = false }
      else record {
        stream = record s { running = false; queues = []; history = []; history_bytes = 0 };
        closed = with_queue_items put_eof s.queues;
        called_back = true;
      }

  -- `_stop_if_unsubscribed`
  unfoldable pub stop_if_unsubscribed : Stream C → Stopped C
  unfolding stop
  stop_if_unsubscribed s =
      if s.running && is_empty s.queues
      then stop s false
      else record { stream = s; closed = []; called_back = false }

module _ {C : Type 0} ⦃of_client : Key C⦄ where
  unfoldable pub add_queue : Stream C → C → ℕ → (Queue × ℕ) × Stream C
  unfolding most_recent prime
  add_queue s connection_id prebuffer_bytes =
      let recent =
        if ltb 0 prebuffer_bytes
        then reverse (most_recent prebuffer_bytes 0 (reverse s.history))
        else [] in
      let (q, primed) = prime recent [] 0 in
      ((q, primed), record s { queues = set connection_id q s.queues })

  -- The count of the queues left, and whether `_stop_if_unsubscribed` is to run.
  unfoldable pub remove_queue : Stream C → C → (ℕ × Bool) × Stream C
  remove_queue s connection_id =
      let queues = pop connection_id s.queues in
      ((length queues, is_empty queues), record s { queues = queues })
