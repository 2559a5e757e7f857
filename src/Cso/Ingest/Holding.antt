-- ===== src/Cso/Ingest/Holding.antt =====
-- The slot of the capacity registry that an ingest session holds, as it hunts for a source, starts one
-- and stops.
use headendarr.Prelude.{
  ℕ, ◌≡◌, ◌⊎◌, inl, inr, refl, subst, ◌∙◌, List, [], ◌∷◌, Bool, true, false, not, ◌||◌, Option,
  none, some, arith, if-Holds,
}
use headendarr.Prelude.Dict.{is_empty}
use headendarr.Prelude.Text.{Text, text_key}
use headendarr.Cso.Types.{CsoSource}
use headendarr.Cso.Capacity.{try_reserve, release}
use headendarr.Cso.Capacity.Counts.{WellFormed}
use headendarr.Cso.Capacity.Ownership.{
  Exactly, Undisturbed, Undisturbed-trans, Reserved, try_reserve-Reserved, release-Exactly,
  release-Undisturbed,
}
use headendarr.Cso.Capacity.Release.{release-WellFormed}
use headendarr.Cso.External.{
  CapacityKey, capacity_key_key, source_capacity_key, source_capacity_limit,
}
use headendarr.Cso.Sources.{member, order_cso_channel_sources}
use headendarr.Cso.Ingest.{World, IngestSession, Slot, slot_key, Registry}
use headendarr.Cso.Ingest.Start.{
  Upstream, Tried, Hunt, is_segmented, select_variant, try_urls, handle_source_failure, settle,
  try_reserved, try_source, try_sources, is_available, is_held_down, clear_source, activate_process,
  Started, start_best_source, release_old,
}

-- The loop over the URLs neither reserves nor releases, and keeps what the session holds.
record Keeps (s : IngestSession) (w : World) (t : Tried) : Type 0 where
  owner : t.session.capacity_owner_key ≡ s.capacity_owner_key
  key : t.session.current_capacity_key ≡ s.current_capacity_key
  registry : t.world.registry ≡ w.registry

pub failure-registry :
    (s : IngestSession) (w : World) (source : CsoSource) (now : ℕ)
    → (handle_source_failure s w source now).registry ≡ w.registry
unfolding handle_source_failure
failure-registry s w source now = ground arith

try_urls-Keeps :
    (u : Upstream) (source : CsoSource) (now : ℕ) (urls : List Text) (s : IngestSession) (w : World)
    (raised : Option Text)
    → Keeps s w (try_urls u source now urls s w raised)
unfolding try_urls
try_urls-Keeps u source now [] s w raised = record { owner = refl; key = refl; registry = refl }
try_urls-Keeps u source now (url ∷ urls) s w raised =
    let selection = select_variant u s source url in
    let later = handle_source_failure s w source now in
    let raised_here = some (u.start_error source selection.ingest_url) in
    let rest = try_urls-Keeps u source now urls s later raised_here in
    let starts = u.starts source selection.ingest_url selection.program_index in
    if-Holds (Keeps s w) (is_segmented u source) _ _
      (λ _. record { owner = ground arith; key = ground arith; registry = refl })
      (λ _.
        if-Holds (Keeps s w) starts _ _ (λ _. record { owner = refl; key = refl; registry = refl })
          (λ _. record {
            owner = rest.owner;
            key = rest.key;
            registry = rest.registry ∙ failure-registry s w source now;
          }))

abbrev pub slot_held : Option CapacityKey → Option CsoSource → Option (CapacityKey × Slot)
slot_held none source = none
slot_held (some key) source = some (key, elim source [ none ↦ none | some held ↦ some held.id ])

-- The slot that the fields of a session name.
abbrev pub holding : IngestSession → Option (CapacityKey × Slot)
holding s = slot_held s.current_capacity_key s.current_source

-- A session that holds nothing, whose owner alone has changed the registry `before`.
pub record Idle (owner : Text) (before : Registry) (s : IngestSession) (w : World) : Type 0 where
  pub owner_is : s.capacity_owner_key ≡ owner
  pub key : s.current_capacity_key ≡ none
  pub well_formed : WellFormed w.registry
  pub nothing : Exactly w.registry owner none
  pub undisturbed : Undisturbed owner before w.registry

-- A session that has found a source, whose slot is all that its owner holds.
pub record Found (owner : Text) (before : Registry) (excluded : List ℕ) (s : IngestSession)
    (w : World) : Type 0 where
  pub source : CsoSource
  pub owner_is : s.capacity_owner_key ≡ owner
  pub current : s.current_source ≡ some source
  pub key : s.current_capacity_key ≡ some (source_capacity_key source)
  pub running : s.running ≡ true
  pub available : is_available source ≡ true
  pub allowed : member source.id excluded ≡ false
  pub well_formed : WellFormed w.registry
  pub only : Exactly w.registry owner (some (source_capacity_key source, some source.id))
  pub undisturbed : Undisturbed owner before w.registry

abbrev pub Outcome : Text → Registry → List ℕ → Bool × Hunt → Type 0
Outcome owner before excluded tried =
    ((tried.0 ≡ false) × Idle owner before tried.1.session tried.1.world)
    ⊎ ((tried.0 ≡ true) × Found owner before excluded tried.1.session tried.1.world)

release_old-registry :
    (w : World) (s : IngestSession)
    → s.current_capacity_key ≡ none
    → (release_old w s).registry ≡ w.registry
release_old-registry w s e = rw e refl

-- The URLs of a source whose slot the owner has just reserved.
try_reserved-Outcome :
    (u : Upstream) (source : CsoSource) (now : ℕ) (before : Registry) (excluded : List ℕ) (h : Hunt)
    → h.session.current_capacity_key ≡ none
    → is_available source ≡ true
    → member source.id excluded ≡ false
    → WellFormed h.world.registry
    → Exactly h.world.registry h.session.capacity_owner_key
        (some (source_capacity_key source, some source.id))
    → Undisturbed h.session.capacity_owner_key before h.world.registry
    → Outcome h.session.capacity_owner_key before excluded (try_reserved u source now h)
unfolding try_reserved settle activate_process clear_source
try_reserved-Outcome u source now before excluded h none_held available allowed wf only still =
    let owner = h.session.capacity_owner_key in
    let key = source_capacity_key source in
    let t = try_urls u source now (u.urls source) h.session h.world none in
    let k = try_urls-Keeps u source now (u.urls source) h.session h.world none in
    let free = release h.world.registry key owner (some source.id) in
    let free_wf = release-WellFormed h.world.registry key owner (some source.id) wf in
    let nothing = release-Exactly h.world.registry key owner (some source.id) wf only in
    let free_still =
      Undisturbed-trans owner before h.world.registry free still
        (release-Undisturbed h.world.registry key owner (some source.id) wf) in
    let kept : (release_old t.world t.session).registry ≡ h.world.registry =
      release_old-registry t.world t.session (k.key ∙ none_held) ∙ k.registry in
    let gone : release t.world.registry key t.session.capacity_owner_key (some source.id) ≡ free =
      rw (k.registry, k.owner) refl in
    if-Holds (Outcome owner before excluded) (is_empty (u.urls source)) _ _
      (λ _. inl (
        refl,
        record {
          owner_is = refl;
          key = none_held;
          well_formed = free_wf;
          nothing = nothing;
          undisturbed = free_still;
        },
      ))
      (λ _.
        if-Holds (Outcome owner before excluded) t.process _ _
          (λ _. inr (
            refl,
            record {
              source = source;
              owner_is = k.owner;
              current = refl;
              key = refl;
              running = refl;
              available = available;
              allowed = allowed;
              well_formed = rw kept wf;
              only = rw kept only;
              undisturbed = rw kept still;
            },
          ))
          (λ _. inl (
            refl,
            record {
              owner_is = k.owner;
              key = refl;
              well_formed = rw gone free_wf;
              nothing = rw gone nothing;
              undisturbed = rw gone free_still;
            },
          )))

gate_cases : (a b c : Bool) → (a || b || not c) ≡ false → (a ≡ false) × (c ≡ true)
gate_cases a b c h = ground arith

reserved-Outcome :
    (u : Upstream) (now : ℕ) (excluded : List ℕ) (ignore_hold_down : Bool) (before : Registry)
    (source : CsoSource) (h : Hunt)
    → Idle h.session.capacity_owner_key before h.session h.world
    → Outcome h.session.capacity_owner_key before excluded
        (try_source u now excluded ignore_hold_down source h)
unfolding try_source
reserved-Outcome u now excluded ignore_hold_down before source h idle =
    let owner = h.session.capacity_owner_key in
    let key = source_capacity_key source in
    let reserved =
      try_reserve h.world.registry key owner (source_capacity_limit source) (some source.id) in
    let r : Reserved h.world.registry owner key (some source.id) reserved =
      try_reserve-Reserved h.world.registry key owner (source_capacity_limit source)
        (some source.id) idle.well_formed idle.nothing in
    let still : Undisturbed owner before reserved.1 =
      Undisturbed-trans owner before h.world.registry reserved.1 idle.undisturbed r.undisturbed in
    let taken = record h { world = record h.world { registry = reserved.1 } } in
    let skipped =
      member source.id excluded
      || is_held_down h.session now ignore_hold_down source
      || not (is_available source) in
    if-Holds (Outcome owner before excluded) skipped _ _ (λ _. inl (refl, idle))
      (λ gate. elim r.outcome [
        | inl (refused, nothing) ↦ rw refused (
            inl (
              refl,
              record {
                owner_is = refl;
                key = idle.key;
                well_formed = r.well_formed;
                nothing = nothing;
                undisturbed = still;
              },
            ))
        | inr (granted, only) ↦
            let (allowed, available) =
              gate_cases (member source.id excluded)
                (is_held_down h.session now ignore_hold_down source) (is_available source) gate in
            rw granted (
              try_reserved-Outcome u source now before excluded taken idle.key available allowed
                r.well_formed only still)
      ])

try_source-Outcome :
    (u : Upstream) (now : ℕ) (excluded : List ℕ) (ignore_hold_down : Bool) (owner : Text)
    (before : Registry) (source : CsoSource) (h : Hunt)
    → Idle owner before h.session h.world
    → Outcome owner before excluded (try_source u now excluded ignore_hold_down source h)
try_source-Outcome u now excluded ignore_hold_down owner before source h idle =
    subst
      (λ o.
        Idle o before h.session h.world
        → Outcome o before excluded (try_source u now excluded ignore_hold_down source h))
      idle.owner_is (reserved-Outcome u now excluded ignore_hold_down before source h) idle

try_sources-Outcome :
    (u : Upstream) (now : ℕ) (excluded : List ℕ) (ignore_hold_down : Bool) (owner : Text)
    (before : Registry) (sources : List CsoSource) (h : Hunt)
    → Idle owner before h.session h.world
    → Outcome owner before excluded (try_sources u now excluded ignore_hold_down sources h)
unfolding try_sources
try_sources-Outcome u now excluded ignore_hold_down owner before [] h idle = inl (refl, idle)
try_sources-Outcome u now excluded ignore_hold_down owner before (source ∷ sources) h idle =
    let tried = try_source u now excluded ignore_hold_down source h in
    let next = try_sources u now excluded ignore_hold_down sources tried.1 in
    let turn = try_source-Outcome u now excluded ignore_hold_down owner before source h idle in
    if-Holds (Outcome owner before excluded) tried.0 tried next (λ _. turn)
      (λ e. elim turn [
        | inl (_, left) ↦
            try_sources-Outcome u now excluded ignore_hold_down owner before sources tried.1 left
        | inr (e', _) ↦ cc
      ])

abbrev pub Begins : Text → Registry → List ℕ → Started → Type 0
Begins owner before excluded r =
    ((r.result.success ≡ false) × Idle owner before r.session r.world)
    ⊎ ((r.result.success ≡ true) × Found owner before excluded r.session r.world)

pub Idle-Begins :
    (u : Upstream) (s : IngestSession) (w : World) (now : ℕ) (excluded : List ℕ)
    (ignore_hold_down : Bool) (owner : Text) (before : Registry)
    → Idle owner before s w
    → Begins owner before excluded (start_best_source u s w now excluded ignore_hold_down)
unfolding start_best_source
Idle-Begins u s w now excluded ignore_hold_down owner before i =
    let (candidates, failed_sources) =
      order_cso_channel_sources w.failed_sources s.sources (some s.channel_id) now in
    let h : Hunt = record {
      session = s;
      world = record w { failed_sources = failed_sources };
      saw_capacity_block = false;
      start_failure_reason = [];
    } in
    let start : Idle owner before h.session h.world = record {
      owner_is = i.owner_is;
      key = i.key;
      well_formed = i.well_formed;
      nothing = i.nothing;
      undisturbed = i.undisturbed;
    } in
    elim (try_sources-Outcome u now excluded ignore_hold_down owner before candidates h start) [
      | inl (e, idle) ↦ inl (rw e refl, idle)
      | inr (e, found) ↦ inr (rw e refl, found)
    ]

-- For a session without a capacity key, whose owner holds nothing in a registry without
-- duplicates: a hunt that succeeds leaves the session running on a source that is switched on and
-- not excluded, and the owner with exactly the slot of that source, whatever sources were
-- reserved and given back before; one that fails leaves the owner with nothing; what other owners
-- hold is unchanged.
pub start_best_source-Begins :
    (u : Upstream) (s : IngestSession) (w : World) (now : ℕ) (excluded : List ℕ)
    (ignore_hold_down : Bool)
    → WellFormed w.registry
    → s.current_capacity_key ≡ none
    → Exactly w.registry s.capacity_owner_key none
    → Begins s.capacity_owner_key w.registry excluded
        (start_best_source u s w now excluded ignore_hold_down)
start_best_source-Begins u s w now excluded ignore_hold_down wf free nothing =
    Idle-Begins u s w now excluded ignore_hold_down s.capacity_owner_key w.registry (record {
      owner_is = refl;
      key = free;
      well_formed = wf;
      nothing = nothing;
      undisturbed = λ o k slot n. refl;
    })

-- What the registry has for a session's owner is what the session names, and a session that does not run
-- names nothing.
pub record IsSettled (s : IngestSession) (w : World) : Type 0 where
  pub well_formed : WellFormed w.registry
  pub exact : Exactly w.registry s.capacity_owner_key (holding s)
  pub resting : s.running ≡ false → s.current_capacity_key ≡ none

pub Idle-IsSettled :
    (owner : Text) (before : Registry) (s : IngestSession) (w : World)
    → Idle owner before s w
    → IsSettled s w
Idle-IsSettled owner before s w i = record {
  well_formed = i.well_formed;
  exact = rw (i.key, i.owner_is) i.nothing;
  resting = λ _. i.key;
}

pub Found-IsSettled :
    (owner : Text) (before : Registry) (excluded : List ℕ) (s : IngestSession) (w : World)
    → Found owner before excluded s w
    → IsSettled s w
Found-IsSettled owner before excluded s w f = record {
  well_formed = f.well_formed;
  exact = rw (f.key, f.current, f.owner_is) f.only;
  resting = λ e. cc (e, f.running);
}
