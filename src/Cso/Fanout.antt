-- ===== src/Cso/Fanout.antt =====
-- What an ingest session and an output session both do with a chunk: backend/cso/live_ingest.py and
-- output.py keep a history bounded by bytes, and give a new reader its end.
pub mod Laws
use headendarr.Prelude.{ℕ, ◌+◌, ◌-◌, List, [], ◌∷◌, ◌++◌, some, length, ltb, leb, if◌then◌else◌}
use mathlib.Core.List.{reverse}
use headendarr.Cso.ByteQueue.{Bytes, ByteBudgetQueue, new_queue, put_drop_oldest}

-- `while self.history_bytes > self.max_history_bytes and self.history`
unfoldable pub trim_history : ℕ → List Bytes → ℕ → List Bytes × ℕ
trim_history max_bytes [] bytes = ([], bytes)
trim_history max_bytes (old ∷ history) bytes =
    let rest = trim_history max_bytes history (bytes - length old) in
    if ltb max_bytes bytes then rest else (old ∷ history, bytes)

-- `for chunk in reversed(self.history)`, up to the chunk that reaches `prebuffer_bytes`
unfoldable pub newest_reaching : ℕ → ℕ → List Bytes → List Bytes
newest_reaching prebuffer_bytes total [] = []
newest_reaching prebuffer_bytes total (chunk ∷ older) =
    let rest = newest_reaching prebuffer_bytes (total + length chunk) older in
    if leb prebuffer_bytes (total + length chunk) then chunk ∷ [] else chunk ∷ rest

unfoldable pub put_all : List Bytes → ByteBudgetQueue → ℕ → ByteBudgetQueue
put_all [] q now = q
put_all (chunk ∷ chunks) q now = put_all chunks (put_drop_oldest q (some chunk) now).1 now

-- The queue of a new reader.
unfoldable pub primed_queue : ℕ → ℕ → List Bytes → ℕ → ByteBudgetQueue
primed_queue queue_max_bytes prebuffer_bytes history now =
    let q = new_queue queue_max_bytes in
    if ltb 0 prebuffer_bytes
    then put_all (reverse (newest_reaching prebuffer_bytes 0 (reverse history))) q now
    else q
