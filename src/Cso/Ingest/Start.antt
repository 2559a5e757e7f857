-- ===== src/Cso/Ingest/Start.antt =====
-- `_start_best_source_unlocked`: the sources are tried in their order until one delivers. What the code
-- asks outside of itself is a record of functions: the URLs of a source, of `resolve_source_url_candidates`,
-- which takes URLs apart by urlparse; the variants of a playlist, which are fetched; what is known of a
-- source's media; and whether ffmpeg starts on a URL.
use headendarr.Prelude.{
  ℕ, ◌+◌, ◌-◌, List, [], ◌∷◌, Bool, true, false, not, ◌&&◌, ◌||◌, Option, none, some, length, ltb,
  ◌==◌, if◌then◌else◌,
}
use headendarr.Prelude.Dict.{get, set, or_else, is_empty, nat_key}
use headendarr.Prelude.Text.{Text, codes, text_key, strip, one_of, or_text}
use headendarr.Cso.Types.{CsoSource}
use headendarr.Cso.Capacity.{try_reserve, release}
use headendarr.Cso.External.{
  CapacityKey, capacity_key_key, source_capacity_key, source_capacity_limit,
}
use headendarr.Cso.Policy.{Probe, source_uses_segmented_handoff}
use headendarr.Cso.Sources.{member, order_cso_channel_sources, mark_source_temporarily_failed}
use headendarr.Cso.Ingest.{World, Variant, IngestSession, Slot, slot_key, source_slot}

pub record Upstream : Type 0 where
  pub urls : CsoSource → List Text
  pub is_playlist : Text → Bool
  pub variants : Text → List Variant
  pub probe : CsoSource → Option Probe
  pub starts : CsoSource → Text → ℕ → Bool
  pub start_error : CsoSource → Text → Text

pub record CsoStartResult : Type 0 where
  pub success : Bool
  pub reason : Text

unfoldable pub handle_source_failure : IngestSession → World → CsoSource → ℕ → World
handle_source_failure s w source now =
    if one_of (codes "channel" ∷ []) source.source_type
    then record w {
      failed_sources =
          (mark_source_temporarily_failed w.failed_sources (some s.channel_id) (some source.id) 0
            now).1;
    }
    else w

unfoldable pub nth_variant : ℕ → List Variant → Option Variant
nth_variant n [] = none
nth_variant n (v ∷ variants) =
    let rest = nth_variant (n - 1) variants in if n == 0 then some v else rest

-- Where to read a URL: the variant's position, its URL and its program.
pub record Selection : Type 0 where
  pub variant_position : Option ℕ
  pub ingest_url : Text
  pub program_index : ℕ
  pub variants : List Variant

-- A position that is remembered and in range, or the last.
abbrev chosen_position : Option ℕ → ℕ → ℕ
chosen_position none count = count - 1
chosen_position (some position) count = if ltb position count then position else count - 1

unfoldable pub select_variant : Upstream → IngestSession → CsoSource → Text → Selection
select_variant u s source url =
    let variants = u.variants url in
    let position = chosen_position (get source.id s.source_variant_position) (length variants) in
    let remembered : Selection = record {
      variant_position = none;
      ingest_url = url;
      program_index = or_else 0 (get source.id s.source_program_index);
      variants = variants;
    } in
    if u.is_playlist url && not (is_empty variants)
    then (elim (nth_variant position variants) [
      | none ↦ remembered
      | some v ↦ record {
        variant_position = some position;
        ingest_url = or_text (strip v.variant_url) url;
        program_index = v.program_index;
        variants = variants;
      }
    ])
    else remembered

-- What the loop over the URLs of a source leaves: whether there is a process, and the last exception.
pub record Tried : Type 0 where
  pub process : Bool
  pub raised : Option Text
  pub selection : Selection
  pub session : IngestSession
  pub world : World

abbrev no_selection : Selection
no_selection = record { variant_position = none; ingest_url = []; program_index = 0; variants = [] }

-- `_spawn_ingest_process`: a segmented handoff that does not start gives no process and no exception.
unfoldable pub is_segmented : Upstream → CsoSource → Bool
is_segmented u source = source_uses_segmented_handoff (some source) (u.probe source)

abbrev handed_off : Upstream → IngestSession → CsoSource → Text → Bool → IngestSession
handed_off u s source url true = record s {
  segmented_handoff = true;
  running = true;
  has_process = true;
}
handed_off u s source url false = record s {
  segmented_handoff = true;
  last_error = or_text (u.start_error source url) (codes "segmented_handoff_start_failed");
}

unfoldable pub try_urls :
    Upstream → CsoSource → ℕ → List Text → IngestSession → World → Option Text → Tried
try_urls u source now [] s w raised = record {
  process = false;
  raised = raised;
  selection = no_selection;
  session = s;
  world = w;
}
try_urls u source now (url ∷ urls) s w raised =
    let selection = select_variant u s source url in
    let starts = u.starts source selection.ingest_url selection.program_index in
    let next =
      try_urls u source now urls s (handle_source_failure s w source now)
        (some (u.start_error source selection.ingest_url)) in
    if is_segmented u source
    then record {
      process = starts;
      raised = raised;
      selection = selection;
      session = handed_off u s source selection.ingest_url starts;
      world = w;
    }
    else if starts
    then record { process = true; raised = raised; selection = selection; session = s; world = w }
    else next

-- `_activate_process_unlocked`: the pipe is read unless the session has a segmented handoff.
unfoldable pub activate_process : IngestSession → IngestSession
activate_process s = record s {
  has_process = true;
  running = true;
  reads = not s.segmented_handoff;
  history = [];
  history_bytes = 0;
  process_token = s.process_token + 1;
  first_healthy_stream_seen = s.first_healthy_stream_seen || s.segmented_handoff;
}

unfoldable pub settle : IngestSession → CsoSource → CapacityKey → Selection → IngestSession
settle s source key selection = activate_process (record s {
  current_source = some source;
  current_source_url = selection.ingest_url;
  current_capacity_key = some key;
  hls_variants = selection.variants;
  current_variant_position = selection.variant_position;
  current_program_index = selection.program_index;
  source_program_index = set source.id selection.program_index s.source_program_index;
  source_variant_position = elim selection.variant_position [
    | none ↦ s.source_variant_position
    | some position ↦ set source.id position s.source_variant_position
  ];
})

unfoldable pub clear_source : IngestSession → IngestSession
clear_source s = record s {
  current_source = none;
  current_source_url = [];
  current_capacity_key = none;
  running = false;
  has_process = false;
}

-- A source that is switched on, as the loop and `_eligible_source_ids_unlocked` ask.
unfoldable pub is_available : CsoSource → Bool
is_available source =
    elim source.playlist [ none ↦ true | some p ↦ p.enabled ]
    && elim source.xc_account [ none ↦ true | some a ↦ a.enabled ]
    && not (is_empty source.url)

unfoldable pub is_held_down : IngestSession → ℕ → Bool → CsoSource → Bool
is_held_down s now ignore_hold_down source =
    not ignore_hold_down && ltb now (or_else 0 (get source.id s.failed_source_until))

abbrev released : World → IngestSession → CapacityKey → Slot → World
released w s key slot = record w { registry = release w.registry key s.capacity_owner_key slot }

-- The capacity of the source before, which is released only once the next one runs.
abbrev pub release_old : World → IngestSession → World
release_old w s = elim s.current_capacity_key [
  | none ↦ w
  | some old_key ↦ released w s old_key (source_slot s)
]

-- What the loop carries past a source that did not start.
pub record Hunt : Type 0 where
  pub session : IngestSession
  pub world : World
  pub saw_capacity_block : Bool
  pub start_failure_reason : Text

abbrev text_of : Option Text → Text
text_of none = []
text_of (some t) = t

-- The URLs of a source whose capacity is reserved.
unfoldable pub try_reserved : Upstream → CsoSource → ℕ → Hunt → Bool × Hunt
try_reserved u source now h =
    let key = source_capacity_key source in
    let t = try_urls u source now (u.urls source) h.session h.world none in
    let failure = or_text (strip t.session.last_error) (text_of t.raised) in
    if is_empty (u.urls source)
    then (false, record h { world = released h.world h.session key (some source.id) })
    else if t.process
    then (
      true,
      record h {
        session = settle t.session source key t.selection;
        world = release_old t.world t.session;
      },
    )
    else (
      false,
      record {
        session = clear_source t.session;
        world = released t.world t.session key (some source.id);
        saw_capacity_block = h.saw_capacity_block;
        start_failure_reason = or_text failure h.start_failure_reason;
      },
    )

-- One turn of the loop over the sources.
unfoldable pub try_source : Upstream → ℕ → List ℕ → Bool → CsoSource → Hunt → Bool × Hunt
try_source u now excluded ignore_hold_down source h =
    let reserved =
      try_reserve h.world.registry (source_capacity_key source) h.session.capacity_owner_key
        (source_capacity_limit source) (some source.id) in
    let taken = record h { world = record h.world { registry = reserved.1 } } in
    if member source.id excluded
      || is_held_down h.session now ignore_hold_down source
      || not (is_available source)
    then (false, h)
    else if reserved.0
    then try_reserved u source now taken
    else (false, record taken { saw_capacity_block = true })

unfoldable pub try_sources : Upstream → ℕ → List ℕ → Bool → List CsoSource → Hunt → Bool × Hunt
try_sources u now excluded ignore_hold_down [] h = (false, h)
try_sources u now excluded ignore_hold_down (source ∷ sources) h =
    let tried = try_source u now excluded ignore_hold_down source h in
    let next = try_sources u now excluded ignore_hold_down sources tried.1 in
    if tried.0 then tried else next

abbrev result_of : Bool → Hunt → CsoStartResult
result_of true h = record { success = true; reason = [] }
result_of false h = record {
  success = false;
  reason =
      if h.saw_capacity_block
      then codes "capacity_blocked"
      else or_text h.start_failure_reason (codes "no_available_source");
}

pub record Started : Type 0 where
  pub result : CsoStartResult
  pub session : IngestSession
  pub world : World

-- No caller prefers a source, so `preferred_source_id` is left out.
unfoldable pub start_best_source : Upstream → IngestSession → World → ℕ → List ℕ → Bool → Started
start_best_source u s w now excluded ignore_hold_down =
    let (candidates, failed_sources) =
      order_cso_channel_sources w.failed_sources s.sources (some s.channel_id) now in
    let h : Hunt = record {
      session = s;
      world = record w { failed_sources = failed_sources };
      saw_capacity_block = false;
      start_failure_reason = [];
    } in
    let tried = try_sources u now excluded ignore_hold_down candidates h in
    record { result = result_of tried.0 tried.1; session = tried.1.session; world = tried.1.world }

unfoldable pub start_ingest : Upstream → IngestSession → World → ℕ → IngestSession × World
start_ingest u s w now =
    let fresh = record s {
      failover_failed_sources = [];
      history = [];
      history_bytes = 0;
      failover_in_progress = false;
      failover_exhausted = false;
    } in
    let started = start_best_source u fresh w now [] false in
    if s.running
    then (s, w)
    else if started.result.success
    then (started.session, started.world)
    else (
      record started.session {
        running = false;
        last_error = or_text started.result.reason (codes "no_available_source");
        failover_exhausted = true;
      },
      started.world,
    )
