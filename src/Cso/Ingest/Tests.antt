-- ===== src/Cso/Ingest/Tests.antt =====
-- Runs of ingest sessions.
use headendarr.Prelude.{◌≡◌, refl, List, [], ◌∷◌, true, false, none, some, arith}
use headendarr.Prelude.Dict.{nat_key}
use headendarr.Prelude.Text.{codes, text_key, lower, one_of, strip, ends_with}
use headendarr.Cso.Policy.{source_uses_segmented_handoff, is_segmented_source, container_of}
use headendarr.Profiles.Policy.{clean_key}
use headendarr.Cso.ByteQueue.{new_queue}
use headendarr.Cso.Capacity.Ownership.{Exactly}
use headendarr.Cso.External.{playlist, capacity_key_key}
use headendarr.Cso.Ingest.{World, IngestSession, slot_key, broadcast, add_lifecycle_reference}
use headendarr.Cso.Ingest.Samples.{
  sample_source, sample_upstream, new_world, new_session, new_world-WellFormed,
  new_session-IsSettled, running_session, running_world, running-IsSettled, used_session,
  used-IsSettled,
}
use headendarr.Cso.Ingest.Start.{
  Hunt, start_best_source, start_ingest, try_reserved, try_urls, is_segmented,
}
use headendarr.Cso.Ingest.Stop.{stop}
use headendarr.Cso.Ingest.Holding.{Begins, Idle, start_best_source-Begins}
use headendarr.Cso.Ingest.Failover.{ReaderEnd, Round, Switched, switch_source_after_failure}
use headendarr.Cso.Ingest.Failover.Ends.{Ended, switch_source_after_failure-Ended}
use headendarr.Cso.Ingest.Steps.{Reach, done, then, here, there, starts, stops, references}
use headendarr.Cso.Ingest.Steps.Kept.{stop-Idle}
use headendarr.Cso.Ingest.Steps.System.{AllSettled, Reach-AllSettled}
use headendarr.Cso.ByteQueue.Traces.{new_queue-IsBounded}
use headendarr.Cso.Ingest.Readers.{FansOut, broadcast-FansOut}
use headendarr.Cso.Ingest.Leaks.{switch_source_after_failure-leaks, try_reserved-unread}

abbrev refused : ReaderEnd
refused = record {
  reason = codes "ingest_reader_ended";
  return_code = some 1;
  saw_data = false;
  ffmpeg_error = codes "Connection refused";
}

abbrev two_rounds : List Round
two_rounds =
    record { now = 6; ended = 7; subscribers = used_session.subscribers; lifecycle_references = [] }
    ∷ record {
      now = 20000000;
      ended = 20000001;
      subscribers = used_session.subscribers;
      lifecycle_references = [];
    }
    ∷ []

start_best_source-Begins_example :
    Begins
      (codes "a")
      new_world.registry
      (8 ∷ [])
      (start_best_source sample_upstream (new_session 4 (codes "a")) new_world 5 (8 ∷ []) false)
start_best_source-Begins_example =
    start_best_source-Begins sample_upstream (new_session 4 (codes "a")) new_world 5 (8 ∷ []) false
      new_world-WellFormed refl (new_session-IsSettled 4 (codes "a")).exact

switch_source_after_failure-Ended_example : Ended (codes "a") running_world.registry (
    switch_source_after_failure sample_upstream none two_rounds used_session running_world refused 5
      6)
switch_source_after_failure-Ended_example =
    switch_source_after_failure-Ended sample_upstream none two_rounds used_session running_world
      refused 5 6 used-IsSettled refl refl

stop-Idle_example :
    Idle
      (codes "a")
      running_world.registry
      (stop used_session running_world true 9).0
      (stop used_session running_world true 9).1
stop-Idle_example = stop-Idle used_session running_world 9 used-IsSettled

-- A session starts, and another, whose owner key is different, is referred to and stopped.
abbrev first : IngestSession
first = new_session 4 (codes "a")

abbrev second : IngestSession
second = new_session 5 (codes "ab")

abbrev first_started : IngestSession × World
first_started = start_ingest sample_upstream first new_world 5

abbrev second_referred : IngestSession
second_referred = add_lifecycle_reference second (codes "hls") 6

abbrev second_stopped : IngestSession × World
second_stopped = stop second_referred first_started.1 true 7

three_blocks :
    Reach (first ∷ second ∷ []) new_world (first_started.0 ∷ second_stopped.0 ∷ []) second_stopped.1
three_blocks =
    then _ _ (first_started.0 ∷ second ∷ []) first_started.1 _ _
      (here first new_world first_started.0 first_started.1 (second ∷ [])
        (starts sample_upstream first new_world 5))
      (then _ _ (first_started.0 ∷ second_referred ∷ []) first_started.1 _ _
        (there first_started.0 (second ∷ []) first_started.1 (second_referred ∷ []) first_started.1
          (here second first_started.1 second_referred first_started.1 []
            (references second first_started.1 (codes "hls") 6)))
        (then _ _ (first_started.0 ∷ second_stopped.0 ∷ []) second_stopped.1 _ _
          (there first_started.0 (second_referred ∷ []) first_started.1 (second_stopped.0 ∷ [])
            second_stopped.1
            (here second_referred first_started.1 second_stopped.0 second_stopped.1 []
              (stops second_referred first_started.1 7)))
          (done (first_started.0 ∷ second_stopped.0 ∷ []) second_stopped.1)))

both-AllSettled : AllSettled (first ∷ second ∷ []) new_world
unfolding AllSettled
both-AllSettled = (
  new_session-IsSettled 4 (codes "a"),
  ((λ e. cc), tt),
  (new_session-IsSettled 5 (codes "ab"), tt, tt),
)

Reach-AllSettled_example : AllSettled (first_started.0 ∷ second_stopped.0 ∷ []) second_stopped.1
Reach-AllSettled_example =
    Reach-AllSettled (first ∷ second ∷ []) new_world (first_started.0 ∷ second_stopped.0 ∷ [])
      second_stopped.1 three_blocks both-AllSettled

switch_source_after_failure-leaks_example :
    (r : Switched) × (switch_source_after_failure sample_upstream none [] running_session
        running_world refused 5 6
      ≡ some r)
    × Exactly r.world.registry (codes "a") (some (playlist 3, some 7))
    × (stop r.session r.world true 5 ≡ (r.session, r.world))
switch_source_after_failure-leaks_example =
    switch_source_after_failure-leaks sample_upstream none [] running_session running_world refused
      5 6 (playlist 3) (sample_source 7) running-IsSettled refl refl refl

-- A hunt in which a segmented source has failed before.
abbrev stale_hunt : Hunt
stale_hunt = record {
  session = record (new_session 4 (codes "a")) { segmented_handoff = true };
  world = new_world;
  saw_capacity_block = false;
  start_failure_reason = [];
}

abbrev unread : Hunt
unread = (try_reserved sample_upstream (sample_source 8) 5 stale_hunt).1

try_reserved-unread_example : (unread.session.running ≡ true) × (unread.session.reads ≡ false)
unfolding try_reserved is_segmented source_uses_segmented_handoff is_segmented_source ends_with
    lower strip one_of clean_key container_of try_urls
try_reserved-unread_example =
    try_reserved-unread sample_upstream (sample_source 8) 5 stale_hunt refl refl refl

-- A chunk for a session with one reader.
broadcast-FansOut_example :
    FansOut
      (record (new_session 4 (codes "a")) { subscribers = (codes "tv", new_queue 90000000) ∷ [] })
      (7 ∷ 8 ∷ [])
      3
      (broadcast
        (record (new_session 4 (codes "a")) { subscribers = (codes "tv", new_queue 90000000) ∷ [] })
        (7 ∷ 8 ∷ [])
        3)
broadcast-FansOut_example =
    broadcast-FansOut
      (record (new_session 4 (codes "a")) { subscribers = (codes "tv", new_queue 90000000) ∷ [] })
      (7 ∷ 8 ∷ []) 3 (λ e. cc) (omega arith)
      (record {
        counted = refl;
        within = omega arith;
        small = tt;
        bounded = (new_queue-IsBounded 90000000, tt);
      })
