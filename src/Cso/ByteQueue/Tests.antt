-- ===== src/Cso/ByteQueue/Tests.antt =====
-- Runs of `ByteBudgetQueue`, and its theorems at concrete queues.
use headendarr.Prelude.{◌≡◌, refl, [], ◌∷◌, some, arith}
use headendarr.Cso.ByteQueue.{ByteBudgetQueue, put_drop_oldest, new_queue}
use headendarr.Cso.ByteQueue.Refinement.{IsValid, Puts, put_drop_oldest-Puts}
use headendarr.Cso.ByteQueue.Traces.{put, eof, read, reset, run, IsBounded, run-new_queue-IsBounded}

abbrev two_queued : ByteBudgetQueue
two_queued = record {
  max_bytes = 4;
  items =
      record { payload = some (1 ∷ 2 ∷ []); size = 2; put_at = 5 }
      ∷ record { payload = some (3 ∷ []); size = 1; put_at = 6 }
      ∷ [];
  bytes = 3;
}

two_queued-IsValid : IsValid two_queued
two_queued-IsValid = record { counted = refl; sized = (refl, (refl, tt)) }

drops_one : (put_drop_oldest two_queued (some (7 ∷ 8 ∷ 9 ∷ [])) 7).1.bytes ≡ 4
unfolding put_drop_oldest
drops_one = refl

drops_all : (put_drop_oldest two_queued (some (7 ∷ 8 ∷ 9 ∷ 9 ∷ 9 ∷ [])) 7).0.dropped_items ≡ 2
unfolding put_drop_oldest
drops_all = refl

put_drop_oldest-Puts_example :
    Puts two_queued (7 ∷ 8 ∷ 9 ∷ []) 7 (put_drop_oldest two_queued (some (7 ∷ 8 ∷ 9 ∷ [])) 7)
put_drop_oldest-Puts_example = put_drop_oldest-Puts two_queued (7 ∷ 8 ∷ 9 ∷ []) 7 two_queued-IsValid

run-new_queue-IsBounded_example : IsBounded 4 (
    run
      (new_queue 4)
      ((1, put (1 ∷ 2 ∷ [])) ∷ (2, put (1 ∷ 2 ∷ 3 ∷ [])) ∷ (3, read) ∷ (4, eof) ∷ (5, reset) ∷ []))
run-new_queue-IsBounded_example =
    run-new_queue-IsBounded 4
      ((1, put (1 ∷ 2 ∷ [])) ∷ (2, put (1 ∷ 2 ∷ 3 ∷ [])) ∷ (3, read) ∷ (4, eof) ∷ (5, reset) ∷ [])
      (omega arith)
