-- ===== src/Cso/Runtime/Sweep.antt =====
-- What the idle sweep of the ingest sessions leaves in the capacity registry.
use headendarr.Prelude.{
  ℕ, ◌≡◌, ◌≢◌, refl, ◌∙◌, List, [], ◌∷◌, true, false, none, All, map, if-Holds,
}
use headendarr.Prelude.Dict.{Dict}
use headendarr.Prelude.Text.{Text, text_key}
use headendarr.Cso.Capacity.Counts.{WellFormed}
use headendarr.Cso.Capacity.Limits.{held}
use headendarr.Cso.Capacity.Ownership.{Exactly, same-Exactly}
use headendarr.Cso.External.{CapacityKey, capacity_key_key}
use headendarr.Cso.Ingest.{World, IngestSession, Slot, slot_key}
use headendarr.Cso.Ingest.Stop.{stop}
use headendarr.Cso.Ingest.Holding.{holding}
use headendarr.Cso.Ingest.Steps.Kept.{stop-Idle}
use headendarr.Cso.Ingest.Steps.System.{AllSettled, owners, others-AllSettled}
use headendarr.Cso.Runtime.{is_passed, cleanup_idle_ingests}

abbrev pub sessions_of : Dict Text IngestSession → List IngestSession
sessions_of = map (λ e. e.1)

-- A session that the sweep does not pass has given back all that its owner held.
abbrev pub Freed : ℕ → ℕ → World → List IngestSession → Type 0
Freed idle_timeout now w =
    All (λ s. is_passed idle_timeout now s ≡ false → Exactly w.registry s.capacity_owner_key none)

pub record Swept (idle_timeout now : ℕ) (d : Dict Text IngestSession) (w : World)
    (left : Dict Text IngestSession) (later : World) : Type 0 where
  pub settled : AllSettled (sessions_of left) later
  pub freed : Freed idle_timeout now later (sessions_of d)
  pub frame :
      (o : Text)
      → All (λ other. other ≢ o) (owners (sessions_of d))
      → (k : CapacityKey) (slot : Slot) → held later.registry k o slot ≡ held w.registry k o slot
  pub fewer :
      (o : Text)
      → All (λ other. other ≢ o) (owners (sessions_of d))
      → All (λ other. other ≢ o) (owners (sessions_of left))
  pub well_formed : WellFormed w.registry → WellFormed later.registry

-- The idle sweep of ingest sessions with different owner keys, each of which holds exactly what
-- it names: every session that it does not pass has afterwards given back all that its owner
-- held, the sessions left are still as described, and what owners outside of the map hold is
-- unchanged.
pub cleanup_idle_ingests-Swept :
    (idle_timeout now : ℕ) (d : Dict Text IngestSession) (w : World)
    → AllSettled (sessions_of d) w
    → Swept idle_timeout now d w
        (cleanup_idle_ingests idle_timeout now d w).0
        (cleanup_idle_ingests idle_timeout now d w).1
unfolding cleanup_idle_ingests AllSettled
cleanup_idle_ingests-Swept idle_timeout now [] w settled = record {
  settled = tt;
  freed = tt;
  frame = λ o others k slot. refl;
  fewer = λ o others. others;
  well_formed = λ wf. wf;
}
cleanup_idle_ingests-Swept idle_timeout now ((key, s) ∷ d) w settled =
    let stopped = stop s w true now in
    let owner = s.capacity_owner_key in
    let idle = stop-Idle s w now settled.0 in
    let passed = cleanup_idle_ingests idle_timeout now d w in
    let swept = cleanup_idle_ingests idle_timeout now d stopped.1 in
    let P : Dict Text IngestSession × World → Type 0 =
      λ r. Swept idle_timeout now ((key, s) ∷ d) w r.0 r.1 in
    if-Holds P (is_passed idle_timeout now s) ((key, s) ∷ passed.0, passed.1) swept
      (λ e.
        let r = cleanup_idle_ingests-Swept idle_timeout now d w settled.2 in
        record {
          settled = (
            record {
              well_formed = r.well_formed settled.0.well_formed;
              exact =
                  same-Exactly owner w.registry passed.1.registry (holding s)
                    (r.frame owner settled.1) settled.0.exact;
              resting = settled.0.resting;
            },
            r.fewer owner settled.1,
            r.settled,
          );
          freed = ((λ e'. cc (e, e')), r.freed);
          frame = λ o others k slot. r.frame o others.1 k slot;
          fewer = λ o others. (others.0, r.fewer o others.1);
          well_formed = r.well_formed;
        })
      (λ _.
        let rest =
          others-AllSettled owner (sessions_of d) w stopped.1 settled.1 idle.well_formed
            idle.undisturbed settled.2 in
        let r = cleanup_idle_ingests-Swept idle_timeout now d stopped.1 rest in
        record {
          settled = r.settled;
          freed = (
            (λ _.
                same-Exactly owner stopped.1.registry swept.1.registry none
                  (r.frame owner settled.1) idle.nothing),
            r.freed,
          );
          frame = λ o others k slot. r.frame o others.1 k slot ∙ idle.undisturbed o k slot others.0;
          fewer = λ o others. r.fewer o others.1;
          well_formed = λ _. r.well_formed idle.well_formed;
        })
