-- ===== src/Cso/Output/Leaving.antt =====
-- What the calls of an output do to the ingest session that it reads, and to the capacity registry.
use headendarr.Prelude.{
  arith, ℕ, ◌≡◌, refl, subst, ◌∙◌, List, [], ◌∷◌, Bool, true, false, none, if-Holds,
}
use headendarr.Prelude.Dict.{Dict, pop, is_empty}
use headendarr.Prelude.Text.{Text, text_key}
use headendarr.Cso.Capacity.Ownership.{Exactly, Undisturbed, Undisturbed-trans}
use headendarr.Cso.External.{capacity_key_key}
use headendarr.Cso.Ingest.{World, IngestSession, slot_key}
use headendarr.Cso.Ingest.Stop.{stop, stopped, remove_subscriber, remove_lifecycle_reference}
use headendarr.Cso.Ingest.Holding.{IsSettled}
use headendarr.Cso.Ingest.Steps.{unsubscribes, unreferences}
use headendarr.Cso.Ingest.Steps.Kept.{Acts-Kept, stop-Idle}
use headendarr.Cso.Output.{
  Stage, taken_down, ended, leave_queue, leave_reference, stop_output, without_client,
  remove_client, remove_clients,
}
use headendarr.Cso.Output.Clients.{
  broadcast_output, prune_idle_clients, drop_backpressured_clients, suspend_client_stale_checks,
}
use headendarr.Cso.Output.Calls.{
  Call, adds, touches_one, touches_all, broadcasts, puts, notes, prunes, drops_full, removes, stops,
  call, run,
}

-- The ingest session of a stage stays settled, and what other owners hold is unchanged.
pub record StageKept (s after : Stage) : Type 0 where
  pub settled : IsSettled after.ingest after.world
  pub owner_is : after.ingest.capacity_owner_key ≡ s.ingest.capacity_owner_key
  pub undisturbed : Undisturbed s.ingest.capacity_owner_key s.world.registry after.world.registry

same-StageKept : (s : Stage) → IsSettled s.ingest s.world → StageKept s s
same-StageKept s settled = record {
  settled = settled;
  owner_is = refl;
  undisturbed = λ o k slot n. refl;
}

StageKept-trans :
    (s middle after : Stage) → StageKept s middle → StageKept middle after → StageKept s after
StageKept-trans s middle after f g = record {
  settled = g.settled;
  owner_is = g.owner_is ∙ f.owner_is;
  undisturbed =
      Undisturbed-trans s.ingest.capacity_owner_key s.world.registry middle.world.registry
        after.world.registry f.undisturbed
        (subst (λ owner. Undisturbed owner middle.world.registry after.world.registry) f.owner_is
          g.undisturbed);
}

leave_queue-StageKept :
    (s : Stage) (b : Bool) (now : ℕ)
    → IsSettled s.ingest s.world
    → StageKept s (leave_queue s b now)
unfolding leave_queue
leave_queue-StageKept s false now settled = same-StageKept s settled
leave_queue-StageKept s true now settled =
    let r = remove_subscriber s.ingest s.world s.output.key now in
    let k =
      Acts-Kept s.ingest s.world r.1 r.2 (unsubscribes s.ingest s.world s.output.key now) settled in
    record { settled = k.settled; owner_is = k.owner_is; undisturbed = k.undisturbed }

leave_reference-StageKept :
    (s : Stage) (b : Bool) (now : ℕ)
    → IsSettled s.ingest s.world
    → StageKept s (leave_reference s b now)
unfolding leave_reference
leave_reference-StageKept s false now settled = same-StageKept s settled
leave_reference-StageKept s true now settled =
    let r = remove_lifecycle_reference s.ingest s.world s.output.key now in
    let k =
      Acts-Kept s.ingest s.world r.1 r.2 (unreferences s.ingest s.world s.output.key now) settled in
    record { settled = k.settled; owner_is = k.owner_is; undisturbed = k.undisturbed }

stop_output-StageKept :
    (s : Stage) (force : Bool) (now : ℕ)
    → IsSettled s.ingest s.world
    → StageKept s (stop_output s force now)
unfolding stop_output
stop_output-StageKept s force now settled =
    let o = s.output in
    let down = record s { output = taken_down o } in
    let queue_left = leave_queue down o.ingest_queue now in
    let left = leave_reference queue_left o.ingest_lifecycle_reference now in
    let first = leave_queue-StageKept down o.ingest_queue now settled in
    let second =
      leave_reference-StageKept queue_left o.ingest_lifecycle_reference now first.settled in
    let both = StageKept-trans down queue_left left first second in
    if-Holds (StageKept s) _ s (record left { output = ended left.output now })
      (λ _. same-StageKept s settled)
      (λ _. record {
        settled = both.settled;
        owner_is = both.owner_is;
        undisturbed = both.undisturbed;
      })

remove_client-StageKept :
    (s : Stage) (id : Text) (now : ℕ)
    → IsSettled s.ingest s.world
    → StageKept s (remove_client s id now).stage
unfolding remove_client
remove_client-StageKept s id now settled =
    let left = record s { output = without_client s.output id } in
    if-Holds (StageKept s) (is_empty left.output.clients) (stop_output left true now) left
      (λ _.
        let k = stop_output-StageKept left true now settled in
        record { settled = k.settled; owner_is = k.owner_is; undisturbed = k.undisturbed })
      (λ _. record { settled = settled; owner_is = refl; undisturbed = λ o key slot n. refl })

remove_clients-StageKept :
    (s : Stage) (ids : List Text) (now : ℕ)
    → IsSettled s.ingest s.world
    → StageKept s (remove_clients s ids now)
unfolding remove_clients
remove_clients-StageKept s [] now settled = same-StageKept s settled
remove_clients-StageKept s (id ∷ ids) now settled =
    let removed = (remove_client s id now).stage in
    let k = remove_client-StageKept s id now settled in
    StageKept-trans s removed (remove_clients removed ids now) k
      (remove_clients-StageKept removed ids now k.settled)

call-StageKept : (s : Stage) (c : ℕ × Call) → IsSettled s.ingest s.world → StageKept s (call s c)
unfolding call broadcast_output prune_idle_clients drop_backpressured_clients
call-StageKept s (now, adds id prebuffer_bytes) settled = record {
  settled = settled;
  owner_is = refl;
  undisturbed = λ o k slot n. refl;
}
call-StageKept s (now, touches_one id) settled = record {
  settled = settled;
  owner_is = refl;
  undisturbed = λ o k slot n. refl;
}
call-StageKept s (now, touches_all) settled = record {
  settled = settled;
  owner_is = refl;
  undisturbed = λ o k slot n. refl;
}
call-StageKept s (now, broadcasts []) settled = same-StageKept s settled
call-StageKept s (now, broadcasts (b ∷ bytes)) settled =
    let k = remove_clients-StageKept _ _ now settled in
    record { settled = k.settled; owner_is = k.owner_is; undisturbed = k.undisturbed }
call-StageKept s (now, puts chunk) settled = record {
  settled = settled;
  owner_is = refl;
  undisturbed = λ o k slot n. refl;
}
call-StageKept s (now, notes results) settled = record {
  settled = settled;
  owner_is = refl;
  undisturbed = λ o k slot n. refl;
}
call-StageKept s (now, prunes) settled =
    if-Holds (StageKept s) (suspend_client_stale_checks s) s _ (λ _. same-StageKept s settled)
      (λ _. remove_clients-StageKept s _ now settled)
call-StageKept s (now, drops_full min_elapsed min_drop_count) settled =
    remove_clients-StageKept s _ now settled
call-StageKept s (now, removes id) settled = remove_client-StageKept s id now settled
call-StageKept s (now, stops force) settled = stop_output-StageKept s force now settled

-- Whatever is called of an output, in any order, an ingest session that holds exactly what it
-- names goes on doing so, with the same owner, and what other owners hold is unchanged.
pub run-StageKept :
    (s : Stage) (calls : List (ℕ × Call)) → IsSettled s.ingest s.world → StageKept s (run s calls)
unfolding run
run-StageKept s [] settled = same-StageKept s settled
run-StageKept s (c ∷ calls) settled =
    let k = call-StageKept s c settled in
    StageKept-trans s (call s c) (run (call s c) calls) k (run-StageKept (call s c) calls k.settled)

is_empty-nil : {V : Type 0} (d : Dict Text V) → is_empty d ≡ true → d ≡ []
is_empty-nil [] e = refl
is_empty-nil (x ∷ d) e = cc

-- What a forced stop leaves of a session without subscribers.
stop-rests :
    (s : IngestSession) (w : World) (now : ℕ)
    → s.subscribers ≡ []
    → ((stop s w true now).0.running ≡ false) × ((stop s w true now).0.subscribers ≡ [])
unfolding stop stopped
stop-rests s w now none_left =
    let P : IngestSession × World → Type 0 = λ r. (r.0.running ≡ false) × (r.0.subscribers ≡ []) in
    if-Holds P _ (s, w) _ (λ e. (ground (arith, e), none_left)) (λ _. (refl, rw none_left refl))

-- When the last client of a running output is removed, which reads an ingest session that nobody
-- else uses and that holds exactly what it names: the output does not run and has no clients, the
-- ingest session does not run and has no subscribers and no capacity key, and the owner of the
-- session holds nothing in the capacity registry.
pub remove_client-Exactly :
    (s : Stage) (id : Text) (now : ℕ)
    → IsSettled s.ingest s.world
    → is_empty (pop id s.output.clients) ≡ true
    → s.output.running ≡ true
    → s.output.ingest_queue ≡ true
    → s.output.ingest_lifecycle_reference ≡ false
    → is_empty (pop s.output.key s.ingest.subscribers) ≡ true
    → is_empty s.ingest.lifecycle_references ≡ true
    → let after = (remove_client s id now).stage in
      (after.output.running ≡ false)
      × (after.output.clients ≡ [])
      × (after.ingest.running ≡ false)
      × (after.ingest.subscribers ≡ [])
      × Exactly after.world.registry s.ingest.capacity_owner_key none
      × (after.ingest.current_capacity_key ≡ none)
unfolding remove_client stop_output leave_queue leave_reference remove_subscriber taken_down ended
remove_client-Exactly s id now settled last running reads unreferenced only unused =
    let left = record s.ingest { subscribers = pop s.output.key s.ingest.subscribers } in
    let left_settled : IsSettled left s.world = record {
      well_formed = settled.well_formed;
      exact = settled.exact;
      resting = settled.resting;
    } in
    let idle = stop-Idle left s.world now left_settled in
    let rests =
      stop-rests left s.world now (is_empty-nil (pop s.output.key s.ingest.subscribers) only) in
    let none_left = is_empty-nil (pop id s.output.clients) last in
    rw (last, running, reads, unreferenced, only, unused)
      (refl, rw none_left refl, rests.0, rests.1, idle.nothing, idle.key)
