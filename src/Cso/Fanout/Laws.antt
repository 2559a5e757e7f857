-- ===== src/Cso/Fanout/Laws.antt =====
-- The bounded history, and the queues that are filled from it.
use headendarr.Prelude.{
  ℕ, ◌+◌, ◌-◌, ◌≤◌, ◌≡◌, List, [], ◌∷◌, some, length, sum_by, leb, ltb, max, All, All-append,
  if◌then◌else◌, if-Holds, arith,
}
use mathlib.Core.List.{reverse, reverse-cons}
use headendarr.Cso.ByteQueue.{Bytes, ByteBudgetQueue, new_queue, put_drop_oldest}
use headendarr.Cso.ByteQueue.Traces.{IsBounded, put-IsBounded, new_queue-IsBounded}
use headendarr.Cso.Fanout.{trim_history, newest_reaching, put_all, primed_queue}

abbrev pub total : List Bytes → ℕ
total = sum_by (λ chunk. length chunk)

-- The longest tail of a history that is within a number of bytes.
unfoldable pub latest_within : ℕ → List Bytes → List Bytes
latest_within max_bytes [] = []
latest_within max_bytes (chunk ∷ history) =
    if leb (total (chunk ∷ history)) max_bytes
    then chunk ∷ history
    else latest_within max_bytes history

pub latest_within-le : (m : ℕ) (history : List Bytes) → total (latest_within m history) ≤ m
unfolding latest_within
latest_within-le m [] = omega arith
latest_within-le m (chunk ∷ history) = ground (arith, latest_within-le m history)

pub trim_history-latest_within :
    (m : ℕ) (history : List Bytes) (bytes : ℕ)
    → bytes ≡ total history
    → trim_history m history bytes ≡ (latest_within m history, total (latest_within m history))
unfolding trim_history latest_within
trim_history-latest_within m [] bytes e = ground arith
trim_history-latest_within m (chunk ∷ history) bytes e =
    ground (arith, trim_history-latest_within m history (bytes - length chunk))

-- A chunk that a queue with the budget has room for.
abbrev pub Small : ℕ → Bytes → Type 0
Small budget chunk = length chunk ≤ budget

pub latest_within-All :
    (P : Bytes → Type 0) (m : ℕ) (history : List Bytes)
    → All P history
    → All P (latest_within m history)
unfolding latest_within
latest_within-All P m [] h = h
latest_within-All P m (chunk ∷ history) h =
    if-Holds (All P) (leb (total (chunk ∷ history)) m) (chunk ∷ history) (latest_within m history)
      (λ _. h) (λ _. latest_within-All P m history h.1)

newest_reaching-All :
    (P : Bytes → Type 0) (wanted acc : ℕ) (newest : List Bytes)
    → All P newest
    → All P (newest_reaching wanted acc newest)
unfolding newest_reaching
newest_reaching-All P wanted acc [] h = h
newest_reaching-All P wanted acc (chunk ∷ newest) h =
    if-Holds (All P) (leb wanted (acc + length chunk)) (chunk ∷ [])
      (chunk ∷ newest_reaching wanted (acc + length chunk) newest) (λ _. (h.0, tt))
      (λ _. (h.0, newest_reaching-All P wanted (acc + length chunk) newest h.1))

All-reverse : (P : Bytes → Type 0) (chunks : List Bytes) → All P chunks → All P (reverse chunks)
All-reverse P [] h = h
All-reverse P (chunk ∷ chunks) h =
    rw (reverse-cons chunk chunks)
      (All-append P (reverse chunks) (chunk ∷ []) (All-reverse P chunks h.1) (h.0, tt))

put_all-IsBounded :
    (budget : ℕ) (chunks : List Bytes) (q : ByteBudgetQueue) (now : ℕ)
    → All (Small budget) chunks
    → IsBounded budget q
    → IsBounded budget (put_all chunks q now)
unfolding put_all
put_all-IsBounded budget [] q now h b = b
put_all-IsBounded budget (chunk ∷ chunks) q now h b =
    put_all-IsBounded budget chunks (put_drop_oldest q (some chunk) now).1 now h.1
      (put-IsBounded budget q now chunk h.0 b)

pub primed_queue-IsBounded :
    (limit wanted : ℕ) (history : List Bytes) (now : ℕ)
    → All (Small (max 1 limit)) history
    → IsBounded (max 1 limit) (primed_queue limit wanted history now)
unfolding primed_queue
primed_queue-IsBounded limit wanted history now h =
    let P : Bytes → Type 0 = Small (max 1 limit) in
    if-Holds (IsBounded (max 1 limit)) (ltb 0 wanted) _ _
      (λ _.
        put_all-IsBounded (max 1 limit) (reverse (newest_reaching wanted 0 (reverse history)))
          (new_queue limit) now
          (All-reverse P (newest_reaching wanted 0 (reverse history))
            (newest_reaching-All P wanted 0 (reverse history) (All-reverse P history h)))
          (new_queue-IsBounded limit))
      (λ _. new_queue-IsBounded limit)
