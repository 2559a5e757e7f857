-- ===== src/Cso/Ingest/Steps.antt =====
-- The blocks of the ingest sessions that run under a lock, in any order, over the one capacity registry
-- that all of them share.
pub mod Kept
pub mod System
use headendarr.Prelude.{
  ℕ, ◌≡◌, ◌≢◌, ◌⊎◌, inl, inr, refl, sym, ap, subst, ◌∙◌, List, [], ◌∷◌, Bool, true, false, not,
  ◌&&◌, ◌||◌, Option, none, some, arith, All, if◌then◌else◌, if-Holds, elim-Holds, Bool-cases,
}
use headendarr.Prelude.Dict.{pop}
use headendarr.Prelude.Text.{Text, text_key, codes, or_text}
use headendarr.Cso.ByteQueue.{Bytes}
use headendarr.Cso.Capacity.{release, release_all}
use headendarr.Cso.Capacity.Counts.{WellFormed}
use headendarr.Cso.Capacity.Ownership.{
  Exactly, Undisturbed, Undisturbed-trans, release-Undisturbed, release_all-Exactly,
  release_all-Undisturbed,
}
use headendarr.Cso.Capacity.Release.{release-WellFormed}
use headendarr.Cso.Capacity.ReleaseAll.{release_all-WellFormed}
use headendarr.Cso.External.{CapacityKey, capacity_key_key}
use headendarr.Cso.Ingest.{
  World, IngestSession, Slot, slot_key, Registry, is_used, source_slot, broadcast, add_subscriber,
  add_lifecycle_reference, discard_name,
}
use headendarr.Cso.Ingest.Start.{Upstream, Started, start_best_source, start_ingest}
use headendarr.Cso.Ingest.Stop.{
  stop, stopped, released_key, released_all, remove_subscriber, remove_lifecycle_reference,
}
use headendarr.Cso.Ingest.Holding.{
  Idle, Found, Begins, IsSettled, Idle-Begins, Idle-IsSettled, Found-IsSettled, holding, slot_held,
}
use headendarr.Cso.Ingest.Failover.{ReaderEnd, try_round, take_down}
use headendarr.Cso.Ingest.Failover.Ends.{try_round-Begins, take_down-Idle}

-- The blocks of one session. A failover is taken apart into the block that takes the source down and the
-- rounds that look for another, so that other blocks run in between.
pub data Acts : IngestSession → World → IngestSession → World → Type 0 where
  starts :
      (u : Upstream) (s : IngestSession) (w : World) (now : ℕ)
      → Acts s w (start_ingest u s w now).0 (start_ingest u s w now).1
  stops :
      (s : IngestSession) (w : World) (now : ℕ)
      → Acts s w (stop s w true now).0 (stop s w true now).1
  unsubscribes :
      (s : IngestSession) (w : World) (id : Text) (now : ℕ)
      → Acts s w (remove_subscriber s w id now).1 (remove_subscriber s w id now).2
  unreferences :
      (s : IngestSession) (w : World) (id : Text) (now : ℕ)
      → Acts s w (remove_lifecycle_reference s w id now).1 (remove_lifecycle_reference s w id now).2
  subscribes :
      (s after : IngestSession) (w : World) (id : Text) (prebuffer_bytes now : ℕ)
      → add_subscriber s id prebuffer_bytes now ≡ some after
      → Acts s w after w
  references :
      (s : IngestSession) (w : World) (id : Text) (now : ℕ)
      → Acts s w (add_lifecycle_reference s id now) w
  reads :
      (s : IngestSession) (w : World) (chunk : Bytes) (now : ℕ) → Acts s w (broadcast s chunk now) w
  takes_down :
      (s : IngestSession) (w : World) (e : ReaderEnd) (now : ℕ)
      → is_used s ≡ true
      → Acts s w (take_down s w e now).0 (take_down s w e now).1
  tries :
      (u : Upstream) (s : IngestSession) (w : World) (now : ℕ)
      → s.current_capacity_key ≡ none
      → Acts s w (try_round u s w now).session (try_round u s w now).world

-- A block of one of the sessions, and any number of them.
pub data Moves : List IngestSession → World → List IngestSession → World → Type 0 where
  here :
      (s : IngestSession) (w : World) (after : IngestSession) (later : World)
      (rest : List IngestSession)
      → Acts s w after later
      → Moves (s ∷ rest) w (after ∷ rest) later
  there :
      (s : IngestSession) (rest : List IngestSession) (w : World) (after : List IngestSession)
      (later : World)
      → Moves rest w after later
      → Moves (s ∷ rest) w (s ∷ after) later

pub data Reach : List IngestSession → World → List IngestSession → World → Type 0 where
  done : (sessions : List IngestSession) (w : World) → Reach sessions w sessions w
  then :
      (sessions : List IngestSession) (w : World) (after : List IngestSession) (later : World)
      (last : List IngestSession) (end : World)
      → Moves sessions w after later
      → Reach after later last end
      → Reach sessions w last end
