-- ===== src/Hls/Multiplexer/Tests.antt =====
-- Runs of the multiplexer, and its theorems at a concrete stream.
use headendarr.Prelude.{ℕ, ◌≤◌, ◌≡◌, refl, [], ◌∷◌, some, true, false, not, leb, arith, ℕ_discrete}
use headendarr.Prelude.Dict.{nat_key, get}
use headendarr.Hls.Multiplexer.{Queue, Stream, queue_limit, broadcast, add_queue, stop}
use headendarr.Hls.Multiplexer.History.{IsValid, Broadcasts, broadcast-Broadcasts}
use headendarr.Hls.Multiplexer.Priming.{Primes, add_queue-Primes}
use headendarr.Hls.Multiplexer.Stop.{drained, stop-drained}

-- A stream with a history of four bytes at most, and one client, 9.
abbrev live : Stream ℕ
live = record {
  queues = (9, some (1 ∷ 2 ∷ []) ∷ some (3 ∷ []) ∷ []) ∷ [];
  running = true;
  last_activity = 0;
  history = (1 ∷ 2 ∷ []) ∷ (3 ∷ []) ∷ [];
  history_bytes = 3;
  max_history_bytes = 4;
}

live-IsValid : IsValid live
live-IsValid = record { counted = refl; within = omega arith }

primed : (add_queue live 10 1).0 ≡ (some (3 ∷ []) ∷ [], 1)
unfolding add_queue queue_limit
primed = refl

broadcast-Broadcasts_example :
    (after : Stream ℕ) × (broadcast live (4 ∷ 5 ∷ []) 7 ≡ some after)
    × Broadcasts live (4 ∷ 5 ∷ []) after
broadcast-Broadcasts_example = broadcast-Broadcasts live (4 ∷ 5 ∷ []) 7 (λ e. cc) live-IsValid

two_within : 2 ≤ queue_limit
unfolding queue_limit
two_within = omega arith

add_queue-Primes_example : Primes live 10 1 (add_queue live 10 1)
add_queue-Primes_example = add_queue-Primes live 10 1 (omega arith) two_within

stop-drained_example :
    let after = stop live true in
    (after.called_back ≡ true)
    × (after.stream.running ≡ false)
    × (after.stream.queues ≡ [])
    × (after.stream.history ≡ [])
    × ((q : Queue) × (get 9 after.closed ≡ some q)
        × (drained q ≡ ((1 ∷ 2 ∷ []) ∷ (3 ∷ []) ∷ [], not (leb queue_limit 2))))
unfolding get ℕ_discrete
stop-drained_example = stop-drained live 9 ((1 ∷ 2 ∷ []) ∷ (3 ∷ []) ∷ []) refl refl
