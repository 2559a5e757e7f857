-- ===== src/Cso/Ingest/Steps/System.antt =====
-- Sessions with different owner keys over one registry, in any interleaving.
use headendarr.Prelude.{◌≡◌, ◌≢◌, sym, ap, List, [], ◌∷◌, All, map}
use headendarr.Prelude.Text.{Text, text_key}
use headendarr.Cso.Capacity.Counts.{WellFormed}
use headendarr.Cso.Capacity.Ownership.{Undisturbed, same-Exactly}
use headendarr.Cso.Capacity.Limits.{held}
use headendarr.Cso.External.{CapacityKey, capacity_key_key}
use headendarr.Cso.Ingest.{World, IngestSession, Slot, slot_key}
use headendarr.Cso.Ingest.Steps.{Moves, here, there, Reach, done, then}
use headendarr.Cso.Ingest.Holding.{IsSettled, holding}
use headendarr.Cso.Ingest.Steps.Kept.{Acts-Kept}

-- No two sessions have the same owner key: `_capacity_owner_key` is made of the session's key.
abbrev pub owners : List IngestSession → List Text
owners = map (λ s. s.capacity_owner_key)

unfoldable pub AllSettled : List IngestSession → World → Type 0
AllSettled [] w = Unit {0}
AllSettled (s ∷ rest) w =
    IsSettled s w × All (λ other. other ≢ s.capacity_owner_key) (owners rest) × AllSettled rest w

-- What another owner does leaves a session settled.
pub others-IsSettled :
    (owner : Text) (s : IngestSession) (w later : World)
    → owner ≢ s.capacity_owner_key
    → WellFormed later.registry
    → Undisturbed owner w.registry later.registry
    → IsSettled s w
    → IsSettled s later
others-IsSettled owner s w later n wf still settled = record {
  well_formed = wf;
  exact =
      same-Exactly s.capacity_owner_key w.registry later.registry (holding s)
        (λ k slot. still s.capacity_owner_key k slot n) settled.exact;
  resting = settled.resting;
}

pub others-AllSettled :
    (owner : Text) (sessions : List IngestSession) (w later : World)
    → All (λ other. other ≢ owner) (owners sessions)
    → WellFormed later.registry
    → Undisturbed owner w.registry later.registry
    → AllSettled sessions w
    → AllSettled sessions later
unfolding AllSettled
others-AllSettled owner [] w later others wf still settled = tt
others-AllSettled owner (s ∷ rest) w later others wf still settled = (
  others-IsSettled owner s w later (λ e. others.0 (sym e)) wf still settled.0,
  settled.1,
  others-AllSettled owner rest w later others.1 wf still settled.2,
)

-- What a block leaves: the same owners, all settled, and what nobody among them owns.
record Moved (sessions : List IngestSession) (w : World) (after : List IngestSession)
    (later : World) : Type 0 where
  settled : AllSettled after later
  same_owners : owners after ≡ owners sessions
  well_formed : WellFormed later.registry
  frame :
      (o : Text)
      → All (λ other. other ≢ o) (owners sessions)
      → (k : CapacityKey) (slot : Slot) → held later.registry k o slot ≡ held w.registry k o slot

Moves-Moved :
    (sessions : List IngestSession) (w : World) (after : List IngestSession) (later : World)
    → Moves sessions w after later
    → AllSettled sessions w
    → Moved sessions w after later
unfolding AllSettled
Moves-Moved _ _ _ _ (here s w after later rest a) settled =
    let k = Acts-Kept s w after later a settled.0 in
    record {
      settled = (
        k.settled,
        rw k.owner_is settled.1,
        others-AllSettled s.capacity_owner_key rest w later settled.1 k.settled.well_formed
            k.undisturbed settled.2,
      );
      same_owners = ap (λ owner. owner ∷ owners rest) k.owner_is;
      well_formed = k.settled.well_formed;
      frame = λ o others key slot. k.undisturbed o key slot others.0;
    }
Moves-Moved _ _ _ _ (there s rest w after later m) settled =
    let moved = Moves-Moved rest w after later m settled.2 in
    record {
      settled = (
        record {
          well_formed = moved.well_formed;
          exact =
              same-Exactly s.capacity_owner_key w.registry later.registry (holding s)
                (moved.frame s.capacity_owner_key settled.1) settled.0.exact;
          resting = settled.0.resting;
        },
        rw moved.same_owners settled.1,
        moved.settled,
      );
      same_owners = ap (λ names. s.capacity_owner_key ∷ names) moved.same_owners;
      well_formed = moved.well_formed;
      frame = λ o others key slot. moved.frame o others.1 key slot;
    }

-- Sessions with different owner keys share the capacity registry, and their blocks run in any
-- order: starting, stopping, adding and removing readers and references, taking the source of a
-- session that is used down, and a round that looks for another while the session has no capacity
-- key. If at first the registry has for each owner exactly the slot that its session names, or
-- none, and a session that does not run names none, then this holds after any number of blocks.
pub Reach-AllSettled :
    (sessions : List IngestSession) (w : World) (after : List IngestSession) (later : World)
    → Reach sessions w after later
    → AllSettled sessions w
    → AllSettled after later
Reach-AllSettled _ _ _ _ (done sessions w) settled = settled
Reach-AllSettled _ _ _ _ (then sessions w after later last end m r) settled =
    Reach-AllSettled after later last end r (Moves-Moved sessions w after later m settled).settled
