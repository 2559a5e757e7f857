-- ===== src/Cso/Output/Tests.antt =====
-- Runs of an output session.
use headendarr.Prelude.{arith, false, some, ◌⊎◌, ◌≡◌, refl, List, [], ◌∷◌, true, none, ℕ}
use headendarr.Prelude.Dict.{get, pop}
use headendarr.Prelude.Text.{codes, text_key, text_discrete}
use headendarr.Cso.ByteQueue.{new_queue}
use headendarr.Cso.Capacity.Ownership.{Exactly}
use headendarr.Cso.External.{capacity_key_key}
use headendarr.Cso.Ingest.{slot_key}
use headendarr.Cso.Ingest.Samples.{used_session, running_world, used-IsSettled}
use headendarr.Cso.Output.{Stage, new_output_session, remove_client}
use headendarr.Cso.Output.Clients.{drop_backpressured_clients}
use headendarr.Cso.Output.Dropped.{IsBehind, drop_backpressured_clients-get}
use headendarr.Cso.Output.Tracked.{IsTracked}
use headendarr.Cso.Output.Calls.{
  Call, adds, touches_all, broadcasts, puts, notes, prunes, drops_full, removes, stops, run,
  run-IsTracked,
}
use headendarr.Cso.Output.Leaving.{StageKept, run-StageKept, remove_client-Exactly}

abbrev sample_stage : Stage
sample_stage = record {
  output = new_output_session (codes "tv") 0;
  ingest = used_session;
  world = running_world;
}

-- The output reads its ingest for one client.
abbrev watched : Stage
watched = record sample_stage {
  output = record sample_stage.output {
    running = true;
    has_process = true;
    ingest_queue = true;
    clients = (codes "a", new_queue 90) ∷ [];
    client_last_touch = (codes "a", 5) ∷ [];
  };
}

sample_calls : List (ℕ × Call)
sample_calls =
    (1, adds (codes "b") 100)
    ∷ (2, broadcasts (7 ∷ 8 ∷ []))
    ∷ (3, touches_all)
    ∷ (4, puts (9 ∷ []))
    ∷ (5, removes (codes "a"))
    ∷ (6, notes ((codes "a", 1) ∷ (codes "b", 2) ∷ []))
    ∷ (40000000, prunes)
    ∷ (40000001, drops_full 500000 3)
    ∷ (40000002, removes (codes "b"))
    ∷ (40000003, stops true)
    ∷ []

watched-IsTracked : IsTracked watched.output
unfolding get
watched-IsTracked = record {
  once = (refl, tt);
  drops = record { once = tt; within = λ id e. refl };
  touches = record { once = (refl, tt); within = λ id e. ground (arith, e) };
}

run-IsTracked_example : IsTracked (run watched sample_calls).output
run-IsTracked_example = run-IsTracked watched sample_calls watched-IsTracked

run-StageKept_example : StageKept watched (run watched sample_calls)
run-StageKept_example = run-StageKept watched sample_calls used-IsSettled

remove_client-Exactly_example :
    let after = (remove_client watched (codes "a") 9).stage in
    (after.output.running ≡ false)
    × (after.output.clients ≡ [])
    × (after.ingest.running ≡ false)
    × (after.ingest.subscribers ≡ [])
    × Exactly after.world.registry (codes "a") none
    × (after.ingest.current_capacity_key ≡ none)
unfolding pop text_discrete
remove_client-Exactly_example =
    remove_client-Exactly watched (codes "a") 9 used-IsSettled refl refl refl refl refl refl

-- A client whose queue had to drop five chunks.
abbrev behind : Stage
behind = record watched {
  output = record watched.output {
    client_drop_state = (codes "a", record { first_ts = 10; last_ts = 20; count = 5 }) ∷ [];
  };
}

behind-IsTracked : IsTracked behind.output
unfolding get
behind-IsTracked = record {
  once = (refl, tt);
  drops = record { once = (refl, tt); within = λ id e. ground (arith, e) };
  touches = record { once = (refl, tt); within = λ id e. ground (arith, e) };
}

drop_backpressured_clients-get_example :
    let after = (drop_backpressured_clients behind 500000 3 600000).1.output.clients in
    (IsBehind behind.output 500000 3 600000 (codes "a") × (get (codes "a") after ≡ none))
    ⊎ ((¬ (IsBehind behind.output 500000 3 600000 (codes "a")))
        × (get (codes "a") after ≡ some (new_queue 90)))
unfolding get text_discrete
drop_backpressured_clients-get_example =
    drop_backpressured_clients-get behind 500000 3 600000 (codes "a") (new_queue 90)
      behind-IsTracked refl
