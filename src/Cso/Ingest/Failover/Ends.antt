-- ===== src/Cso/Ingest/Failover/Ends.antt =====
-- How `_switch_source_after_failure` ends, and what the session holds then.
use headendarr.Prelude.{
  ℕ, ◌+◌, ◌≡◌, ◌⊎◌, inl, inr, refl, ◌∙◌, List, [], ◌∷◌, Bool, true, false, not, ◌&&◌, Option, none,
  some, arith, leb, any_of, keep, if◌then◌else◌, if-Holds, elim-Holds,
}
use headendarr.Prelude.Dict.{is_empty}
use headendarr.Prelude.Text.{Text, text_key}
use headendarr.Cso.Types.{CsoSource}
use headendarr.Cso.Capacity.Ownership.{release-Exactly, release-Undisturbed}
use headendarr.Cso.Capacity.Release.{release-WellFormed}
use headendarr.Cso.External.{capacity_key_key}
use headendarr.Cso.Sources.{member}
use headendarr.Cso.Ingest.{World, IngestSession, slot_key, Registry, is_used, source_slot}
use headendarr.Cso.Ingest.Start.{Upstream, Started, start_best_source, handle_source_failure}
use headendarr.Cso.Ingest.Holding.{failure-registry, Idle, Found, Begins, IsSettled, Idle-Begins}
use headendarr.Cso.Ingest.Failover.{
  ReaderEnd, Round, Switched, used_by, eligible_ids, try_round, retry, exhausted, of_start,
  take_down, with_failed, mark_failed, refreshed_sources, id_of, is_only,
  switch_source_after_failure, replace_source, recovery_window, is_graceful, is_terminal,
}

-- A source runs and its slot is all that the owner holds, or nothing is held.
abbrev pub Switches : Text → Registry → Switched → Type 0
Switches owner before r =
    ((r.switched ≡ false) × Idle owner before r.session r.world)
    ⊎ ((r.switched ≡ true) × Found owner before [] r.session r.world)

-- A switch that has returned.
abbrev pub Ended : Text → Registry → Option Switched → Type 0
Ended owner before result = (r : Switched) × (result ≡ some r) × Switches owner before r

abbrev any_source :
    (owner : Text) (before : Registry) (excluded : List ℕ) (s : IngestSession) (w : World)
    → Found owner before excluded s w
    → Found owner before [] s w
any_source owner before excluded s w f = record {
  source = f.source;
  owner_is = f.owner_is;
  current = f.current;
  key = f.key;
  running = f.running;
  available = f.available;
  allowed = refl;
  well_formed = f.well_formed;
  only = f.only;
  undisturbed = f.undisturbed;
}

start-Begins :
    (u : Upstream) (s : IngestSession) (w : World) (now : ℕ) (excluded : List ℕ)
    (ignore_hold_down : Bool) (owner : Text) (before : Registry)
    → Idle owner before s w
    → Begins owner before [] (start_best_source u s w now excluded ignore_hold_down)
start-Begins u s w now excluded ignore_hold_down owner before idle =
    let r = start_best_source u s w now excluded ignore_hold_down in
    elim (Idle-Begins u s w now excluded ignore_hold_down owner before idle) [
      | inl (e, i) ↦ inl (e, i)
      | inr (e, f) ↦ inr (e, any_source owner before excluded r.session r.world f)
    ]

-- Fields that the registry does not depend on.
same_holder :
    (owner : Text) (before : Registry) (s after : IngestSession) (w : World)
    → after.capacity_owner_key ≡ s.capacity_owner_key
    → after.current_capacity_key ≡ s.current_capacity_key
    → Idle owner before s w
    → Idle owner before after w
same_holder owner before s after w e f i = record {
  owner_is = e ∙ i.owner_is;
  key = f ∙ i.key;
  well_formed = i.well_formed;
  nothing = i.nothing;
  undisturbed = i.undisturbed;
}

pub try_round-Begins :
    (u : Upstream) (s : IngestSession) (w : World) (now : ℕ) (owner : Text) (before : Registry)
    → Idle owner before s w
    → Begins owner before [] (try_round u s w now)
unfolding try_round
try_round-Begins u s w now owner before i =
    let recycled = record s { failover_failed_sources = [] } in
    let ids = eligible_ids s in
    let failed = keep (λ id. member id ids) s.failover_failed_sources in
    let untried = keep (λ id. not (member id failed)) ids in
    if-Holds (Begins owner before []) (is_empty untried && not (is_empty ids)) _ _
      (λ _.
        start-Begins u recycled w now [] true owner before
          (same_holder owner before s recycled w refl refl i))
      (λ _. start-Begins u s w now (if is_empty untried then [] else failed) false owner before i)

-- A session whose source has started and that is marked as running.
Found-Ended :
    (owner : Text) (before : Registry) (s after : IngestSession) (w : World)
    → after.capacity_owner_key ≡ s.capacity_owner_key
    → after.current_capacity_key ≡ s.current_capacity_key
    → after.current_source ≡ s.current_source
    → after.running ≡ true
    → Found owner before [] s w
    → Ended owner before (some (record { switched = true; session = after; world = w }))
Found-Ended owner before s after w e k c running f = (
  record { switched = true; session = after; world = w },
  refl,
  inr (
    refl,
    record {
      source = f.source;
      owner_is = e ∙ f.owner_is;
      current = c ∙ f.current;
      key = k ∙ f.key;
      running = running;
      available = f.available;
      allowed = refl;
      well_formed = f.well_formed;
      only = f.only;
      undisturbed = f.undisturbed;
    },
  ),
)

Begins-Found :
    (owner : Text) (before : Registry) (r : Started)
    → r.result.success ≡ true
    → Begins owner before [] r
    → Found owner before [] r.session r.world
Begins-Found owner before r e (inl (e', _)) = cc
Begins-Found owner before r e (inr (_, f)) = f

Begins-Idle :
    (owner : Text) (before : Registry) (r : Started)
    → r.result.success ≡ false
    → Begins owner before [] r
    → Idle owner before r.session r.world
Begins-Idle owner before r e (inl (_, i)) = i
Begins-Idle owner before r e (inr (e', _)) = cc

pub retry-Ended :
    (u : Upstream) (deadline : ℕ) (rounds : List Round) (s : IngestSession) (w : World)
    (owner : Text) (before : Registry)
    → Idle owner before s w
    → any_of (λ r. leb deadline r.ended) rounds ≡ true
    → Ended owner before (retry u deadline rounds s w)
unfolding retry
retry-Ended u deadline [] s w owner before i late = cc
retry-Ended u deadline (r ∷ rounds) s w owner before i late =
    let user = used_by s r in
    let started = try_round u user w r.now in
    let begins =
      try_round-Begins u user w r.now owner before
        (same_holder owner before s user w refl refl i) in
    let gone : Started → Switched =
      λ x. record { switched = false; session = x.session; world = x.world } in
    if-Holds (Ended owner before) started.result.success _ _
      (λ e.
        Found-Ended owner before started.session (of_start started).session started.world refl refl
          refl refl (Begins-Found owner before started e begins))
      (λ e.
        let idle = Begins-Idle owner before started e begins in
        if-Holds (Ended owner before) (not (is_used user)) _ _
          (λ _. (gone started, refl, inl (refl, idle)))
          (λ _.
            if-Holds (Ended owner before) (leb deadline r.ended) _ _
              (λ _. (
                exhausted started,
                refl,
                inl (
                  refl,
                  same_holder owner before started.session (exhausted started).session started.world
                      refl refl idle,
                ),
              ))
              (λ early.
                retry-Ended u deadline rounds started.session started.world owner before idle
                  (ground arith))))

with_failed-owner :
    (s : IngestSession) (e : ReaderEnd) (now : ℕ) (failed : Option CsoSource)
    → (with_failed s e now failed).capacity_owner_key ≡ s.capacity_owner_key
with_failed-owner s e now none = refl
with_failed-owner s e now (some source) = refl

-- The source that failed gives its slot back.
pub take_down-Idle :
    (s : IngestSession) (w : World) (e : ReaderEnd) (now : ℕ)
    → IsSettled s w
    → Idle s.capacity_owner_key w.registry (take_down s w e now).0 (take_down s w e now).1
unfolding take_down
take_down-Idle s w e now settled =
    let owner = s.capacity_owner_key in
    let owner_is = with_failed-owner s e now s.current_source in
    let wf = settled.well_formed in
    elim-Holds (λ after. Idle owner w.registry (take_down s w e now).0 after) s.current_capacity_key
      _ _
      (λ none_held. record {
        owner_is = owner_is;
        key = refl;
        well_formed = wf;
        nothing = rw none_held at settled.exact;
        undisturbed = λ o k slot n. refl;
      })
      (λ key held. record {
        owner_is = owner_is;
        key = refl;
        well_formed = release-WellFormed w.registry key owner (source_slot s) wf;
        nothing =
            release-Exactly w.registry key owner (source_slot s) wf (rw held at settled.exact);
        undisturbed = release-Undisturbed w.registry key owner (source_slot s) wf;
      })

replace_source-Ended :
    (u : Upstream) (failed_id : Option ℕ) (graceful : Bool) (now restarted_at : ℕ)
    (rounds : List Round) (s : IngestSession) (w : World) (owner : Text) (before : Registry)
    → Idle owner before s w
    → any_of (λ r. leb (restarted_at + recovery_window) r.ended) rounds ≡ true
    → Ended owner before (replace_source u failed_id graceful now restarted_at rounds s w)
unfolding replace_source
replace_source-Ended u failed_id graceful now restarted_at rounds s w owner before i late =
    let again = record s { failover_failed_sources = [] } in
    let restarted = start_best_source u again w now [] true in
    let begins =
      start-Begins u again w now [] true owner before
        (same_holder owner before s again w refl refl i) in
    if-Holds (Ended owner before) (graceful && is_only failed_id s) _ _
      (λ _.
        if-Holds (Ended owner before) restarted.result.success _ _
          (λ e.
            Found-Ended owner before restarted.session (record restarted.session { running = true })
              restarted.world refl refl refl refl (Begins-Found owner before restarted e begins))
          (λ e.
            retry-Ended u (restarted_at + recovery_window) rounds restarted.session restarted.world
              owner before (Begins-Idle owner before restarted e begins) late))
      (λ _. retry-Ended u (restarted_at + recovery_window) rounds s w owner before i late)

mark_failed-Idle :
    (owner : Text) (before : Registry) (s hunting : IngestSession) (w : World) (e : ReaderEnd)
    (now : ℕ) (failed : Option CsoSource)
    → Idle owner before hunting w
    → Idle owner before hunting (mark_failed s w e now failed)
mark_failed-Idle owner before s hunting w e now none i = i
mark_failed-Idle owner before s hunting w e now (some source) i =
    let later = handle_source_failure s w source now in
    let same = failure-registry s w source now in
    if-Holds (Idle owner before hunting) _ w later (λ _. i)
      (λ _. record {
        owner_is = i.owner_is;
        key = i.key;
        well_formed = rw same i.well_formed;
        nothing = rw same i.nothing;
        undisturbed = rw same i.undisturbed;
      })

-- The failover of a session that is used and holds exactly what it names returns, if one of its
-- rounds ends at the deadline, which is counted from the time when the rounds begin, or later:
-- either it reports success and a source runs, the failed one or another, which is switched on
-- and whose slot is then all that the owner holds; or it reports none and the owner holds
-- nothing. What other owners hold is unchanged.
pub switch_source_after_failure-Ended :
    (u : Upstream) (refreshed : Option (List CsoSource)) (rounds : List Round) (s : IngestSession)
    (w : World) (e : ReaderEnd) (now restarted_at : ℕ)
    → IsSettled s w
    → is_used s ≡ true
    → any_of (λ r. leb (restarted_at + recovery_window) r.ended) rounds ≡ true
    → Ended s.capacity_owner_key w.registry
        (switch_source_after_failure u refreshed rounds s w e now restarted_at)
unfolding switch_source_after_failure
switch_source_after_failure-Ended u refreshed rounds s w e now restarted_at settled used late =
    let owner = s.capacity_owner_key in
    let fresh = record s { failover_exhausted = false } in
    let fresh_settled : IsSettled fresh w = record {
      well_formed = settled.well_formed;
      exact = settled.exact;
      resting = settled.resting;
    } in
    let down = take_down fresh w e now in
    let idle = take_down-Idle fresh w e now fresh_settled in
    let hunting = record down.0 {
      failover_in_progress = true;
      sources = refreshed_sources refreshed s.sources;
    } in
    let ended = record down.0 {
      failover_in_progress = false;
      failover_exhausted = true;
      running = false;
    } in
    let marked = mark_failed fresh down.1 e now s.current_source in
    let P = Ended owner w.registry in
    if-Holds P (not (is_used s)) _ _ (λ unused. cc)
      (λ _.
        if-Holds P (not s.allow_failover) _ _
          (λ _.
            (record { switched = false; session = down.0; world = down.1 }, refl, inl (refl, idle)))
          (λ _.
            if-Holds P (is_terminal s e) _ _
              (λ _. (
                record { switched = false; session = ended; world = down.1 },
                refl,
                inl (refl, same_holder owner w.registry down.0 ended down.1 refl refl idle),
              ))
              (λ _.
                replace_source-Ended u (id_of s.current_source) (is_graceful e) now restarted_at
                  rounds hunting marked owner w.registry
                  (mark_failed-Idle owner w.registry fresh hunting down.1 e now s.current_source
                    (same_holder owner w.registry down.0 hunting down.1 refl refl idle))
                  late)))
