-- ===== src/Cso/Ingest/Steps/Kept.antt =====
-- Every block of a session keeps it settled, and a forced stop frees all that it holds.
use headendarr.Prelude.{
  ℕ, ◌≡◌, inl, inr, refl, sym, ap, subst, ◌∙◌, List, [], ◌∷◌, Bool, true, false, not, ◌&&◌, ◌||◌,
  none, some, arith, if-Holds, elim-Holds,
}
use headendarr.Prelude.Dict.{pop}
use headendarr.Prelude.Text.{Text, text_key, codes, or_text}
use headendarr.Cso.ByteQueue.{Bytes}
use headendarr.Cso.Capacity.Counts.{WellFormed}
use headendarr.Cso.Capacity.Ownership.{
  Exactly, Undisturbed, Undisturbed-trans, release-Undisturbed, release_all-Exactly,
  release_all-Undisturbed,
}
use headendarr.Cso.Capacity.Release.{release-WellFormed}
use headendarr.Cso.Capacity.ReleaseAll.{release_all-WellFormed}
use headendarr.Cso.External.{capacity_key_key}
use headendarr.Cso.Ingest.{
  World, IngestSession, slot_key, is_used, source_slot, broadcast, add_subscriber,
  add_lifecycle_reference, discard_name,
}
use headendarr.Cso.Ingest.Steps.{
  Acts, starts, stops, unsubscribes, unreferences, subscribes, references, reads, takes_down, tries,
}
use headendarr.Cso.Ingest.Start.{Upstream, Started, start_best_source, start_ingest}
use headendarr.Cso.Ingest.Stop.{
  stop, stopped, released_key, released_all, remove_subscriber, remove_lifecycle_reference,
}
use headendarr.Cso.Ingest.Holding.{
  Idle, Begins, IsSettled, Idle-Begins, Idle-IsSettled, Found-IsSettled, holding, slot_held,
}
use headendarr.Cso.Ingest.Failover.{try_round, take_down}
use headendarr.Cso.Ingest.Failover.Ends.{try_round-Begins, take_down-Idle}

-- A block keeps a session settled and changes only what its owner holds.
pub record Kept (s : IngestSession) (w : World) (after : IngestSession) (later : World)
    : Type 0 where
  pub settled : IsSettled after later
  pub owner_is : after.capacity_owner_key ≡ s.capacity_owner_key
  pub undisturbed : Undisturbed s.capacity_owner_key w.registry later.registry

IsSettled-Idle :
    (s : IngestSession) (w : World)
    → IsSettled s w
    → s.current_capacity_key ≡ none
    → Idle s.capacity_owner_key w.registry s w
IsSettled-Idle s w settled e = record {
  owner_is = refl;
  key = e;
  well_formed = settled.well_formed;
  nothing = rw e at settled.exact;
  undisturbed = λ o k slot n. refl;
}

Idle-Kept :
    (s after : IngestSession) (w later : World)
    → Idle s.capacity_owner_key w.registry after later
    → Kept s w after later
Idle-Kept s after w later i = record {
  settled = Idle-IsSettled s.capacity_owner_key w.registry after later i;
  owner_is = i.owner_is;
  undisturbed = i.undisturbed;
}

Begins-Kept :
    (s : IngestSession) (w : World) (excluded : List ℕ) (r : Started)
    → Begins s.capacity_owner_key w.registry excluded r
    → Kept s w r.session r.world
Begins-Kept s w excluded r (inl (e, i)) = Idle-Kept s r.session w r.world i
Begins-Kept s w excluded r (inr (e, f)) = record {
  settled = Found-IsSettled s.capacity_owner_key w.registry excluded r.session r.world f;
  owner_is = f.owner_is;
  undisturbed = f.undisturbed;
}

-- Fields that have nothing to do with what is held.
same-Kept :
    (s after : IngestSession) (w : World)
    → after.capacity_owner_key ≡ s.capacity_owner_key
    → after.current_capacity_key ≡ s.current_capacity_key
    → after.current_source ≡ s.current_source
    → after.running ≡ s.running
    → IsSettled s w
    → Kept s w after w
same-Kept s after w o k c r settled =
    let same : holding after ≡ holding s =
      ap (λ key. slot_held key after.current_source) k ∙ ap (slot_held s.current_capacity_key) c in
    let exact = subst (Exactly w.registry s.capacity_owner_key) (sym same) settled.exact in
    record {
      settled = record {
        well_formed = settled.well_formed;
        exact = subst (λ owner. Exactly w.registry owner (holding after)) (sym o) exact;
        resting = λ e. k ∙ settled.resting (sym r ∙ e);
      };
      owner_is = o;
      undisturbed = λ owner key slot n. refl;
    }

abbrev Formed : World → Type 0
Formed w = WellFormed w.registry

abbrev Apart : Text → World → World → Type 0
Apart owner w later = Undisturbed owner w.registry later.registry

-- A forced stop that changes nothing is of a session that does not run.
stays_only :
    (running process used : Bool)
    → ((not running && not process && not used) || (not true && used)) ≡ true
    → running ≡ false
stays_only running process used e = ground arith

-- A forced stop of a session that holds exactly what it names, running or not, leaves its owner
-- with nothing and the session without a capacity key; what other owners hold is unchanged.
pub stop-Idle :
    (s : IngestSession) (w : World) (now : ℕ)
    → IsSettled s w
    → Idle s.capacity_owner_key w.registry (stop s w true now).0 (stop s w true now).1
unfolding stop stopped
stop-Idle s w now settled =
    let owner = s.capacity_owner_key in
    let given = released_key s w in
    let given_wf : WellFormed given.registry =
      elim-Holds Formed s.current_capacity_key _ _ (λ _. settled.well_formed)
        (λ key _. release-WellFormed w.registry key owner (source_slot s) settled.well_formed) in
    let given_still : Undisturbed owner w.registry given.registry =
      elim-Holds (Apart owner w) s.current_capacity_key _ _ (λ _. λ o k slot n. refl)
        (λ key _. release-Undisturbed w.registry key owner (source_slot s) settled.well_formed) in
    let stays =
      (not s.running && not s.has_process && not (is_used s)) || (not true && is_used s) in
    if-Holds {A = IngestSession × World} (λ r. Idle owner w.registry r.0 r.1) stays (s, w)
      (stopped s now, released_all s given)
      (λ rests.
        IsSettled-Idle s w settled
          (settled.resting (stays_only s.running s.has_process (is_used s) rests)))
      (λ _. record {
        owner_is = refl;
        key = refl;
        well_formed = release_all-WellFormed given.registry owner given_wf;
        nothing = release_all-Exactly given.registry owner given_wf;
        undisturbed =
            Undisturbed-trans owner w.registry given.registry (released_all s given).registry
              given_still (release_all-Undisturbed given.registry owner given_wf);
      })

start_ingest-Kept :
    (u : Upstream) (s : IngestSession) (w : World) (now : ℕ)
    → IsSettled s w
    → Kept s w (start_ingest u s w now).0 (start_ingest u s w now).1
unfolding start_ingest
start_ingest-Kept u s w now settled =
    let fresh = record s {
      failover_failed_sources = [];
      history = [];
      history_bytes = 0;
      failover_in_progress = false;
      failover_exhausted = false;
    } in
    let r = start_best_source u fresh w now [] false in
    let failed = record r.session {
      running = false;
      last_error = or_text r.result.reason (codes "no_available_source");
      failover_exhausted = true;
    } in
    let P : IngestSession × World → Type 0 = λ after. Kept s w after.0 after.1 in
    if-Holds P s.running (s, w) _ (λ _. same-Kept s s w refl refl refl refl settled)
      (λ rests.
        let i = IsSettled-Idle s w settled (settled.resting rests) in
        let begins = Idle-Begins u fresh w now [] false s.capacity_owner_key w.registry (record {
          owner_is = refl;
          key = i.key;
          well_formed = i.well_formed;
          nothing = i.nothing;
          undisturbed = i.undisturbed;
        }) in
        if-Holds P r.result.success (r.session, r.world) (failed, r.world)
          (λ _. Begins-Kept s w [] r begins)
          (λ e. elim begins [
            | inl (_, idle) ↦ Idle-Kept s failed w r.world (record {
              owner_is = idle.owner_is;
              key = idle.key;
              well_formed = idle.well_formed;
              nothing = idle.nothing;
              undisturbed = idle.undisturbed;
            })
            | inr (e', _) ↦ cc
          ]))

broadcast-Kept :
    (s : IngestSession) (w : World) (chunk : Bytes) (now : ℕ)
    → IsSettled s w
    → Kept s w (broadcast s chunk now) w
unfolding broadcast
broadcast-Kept s w [] now settled = same-Kept s s w refl refl refl refl settled
broadcast-Kept s w (b ∷ bytes) now settled =
    same-Kept s (broadcast s (b ∷ bytes) now) w refl refl refl refl settled

add_lifecycle_reference-Kept :
    (s : IngestSession) (w : World) (id : Text) (now : ℕ)
    → IsSettled s w
    → Kept s w (add_lifecycle_reference s id now) w
unfolding add_lifecycle_reference
add_lifecycle_reference-Kept s w id now settled =
    same-Kept s (add_lifecycle_reference s id now) w refl refl refl refl settled

add_subscriber-Kept :
    (s after : IngestSession) (w : World) (id : Text) (prebuffer_bytes now : ℕ)
    → add_subscriber s id prebuffer_bytes now ≡ some after
    → IsSettled s w
    → Kept s w after w
unfolding add_subscriber
add_subscriber-Kept s after w id prebuffer_bytes now e settled =
    same-Kept s after w (ground arith) (ground arith) (ground arith) (ground arith) settled

left-Kept :
    (s left : IngestSession) (w : World) (now : ℕ)
    → Kept s w left w
    → Kept s w (stop left w true now).0 (stop left w true now).1
left-Kept s left w now k =
    let i = stop-Idle left w now k.settled in
    Idle-Kept s (stop left w true now).0 w (stop left w true now).1 (rw⁻¹ k.owner_is i)

remove_subscriber-Kept :
    (s : IngestSession) (w : World) (id : Text) (now : ℕ)
    → IsSettled s w
    → Kept s w (remove_subscriber s w id now).1 (remove_subscriber s w id now).2
unfolding remove_subscriber
remove_subscriber-Kept s w id now settled =
    let left = record s { subscribers = pop id s.subscribers } in
    let k = same-Kept s left w refl refl refl refl settled in
    if-Holds {A = IngestSession × World} (λ r. Kept s w r.0 r.1) (not (is_used left)) _ (left, w)
      (λ _. left-Kept s left w now k) (λ _. k)

remove_lifecycle_reference-Kept :
    (s : IngestSession) (w : World) (id : Text) (now : ℕ)
    → IsSettled s w
    → Kept s w (remove_lifecycle_reference s w id now).1 (remove_lifecycle_reference s w id now).2
unfolding remove_lifecycle_reference
remove_lifecycle_reference-Kept s w id now settled =
    let left = record s { lifecycle_references = discard_name id s.lifecycle_references } in
    let k = same-Kept s left w refl refl refl refl settled in
    if-Holds {A = IngestSession × World} (λ r. Kept s w r.0 r.1) (not (is_used left)) _ (left, w)
      (λ _. left-Kept s left w now k) (λ _. k)

pub Acts-Kept :
    (s : IngestSession) (w : World) (after : IngestSession) (later : World)
    → Acts s w after later
    → IsSettled s w
    → Kept s w after later
Acts-Kept _ _ _ _ (starts u s w now) settled = start_ingest-Kept u s w now settled
Acts-Kept _ _ _ _ (stops s w now) settled =
    Idle-Kept s (stop s w true now).0 w (stop s w true now).1 (stop-Idle s w now settled)
Acts-Kept _ _ _ _ (unsubscribes s w id now) settled = remove_subscriber-Kept s w id now settled
Acts-Kept _ _ _ _ (unreferences s w id now) settled =
    remove_lifecycle_reference-Kept s w id now settled
Acts-Kept _ _ _ _ (subscribes s after w id prebuffer_bytes now e) settled =
    add_subscriber-Kept s after w id prebuffer_bytes now e settled
Acts-Kept _ _ _ _ (references s w id now) settled = add_lifecycle_reference-Kept s w id now settled
Acts-Kept _ _ _ _ (reads s w chunk now) settled = broadcast-Kept s w chunk now settled
Acts-Kept _ _ _ _ (takes_down s w e now used) settled =
    Idle-Kept s (take_down s w e now).0 w (take_down s w e now).1 (take_down-Idle s w e now settled)
Acts-Kept _ _ _ _ (tries u s w now free) settled =
    Begins-Kept s w [] (try_round u s w now)
      (try_round-Begins u s w now s.capacity_owner_key w.registry (IsSettled-Idle s w settled free))
