-- ===== src/Cso/VodCache/HeadProbe.antt =====
-- How long an upstream without HEAD requests is remembered.
use headendarr.Prelude.{
  ℕ, ◌+◌, ◌≡◌, ◌≢◌, refl, ap, ◌∙◌, List, [], ◌∷◌, Bool, true, false, not, ◌&&◌, none, some, All,
  leb, ltb, arith, if◌then◌else◌, elim-Holds,
}
use headendarr.Prelude.Dict.{Dict, get, set, pop, Distinct, get-set, get-pop_ne, set-Distinct}
use headendarr.Prelude.Text.{Text, codes, text_key, strip, or_text}
use headendarr.Cso.VodCache.{
  VodHeadProbeStateEntry, VodHeadProbeStateStore, vod_head_probe_state_ttl_seconds, cleaned,
  load_state, should_skip_head, mark_head_failed, mark_head_supported, restarted,
}

pub data Call : Type 0 where
  asks : Text → Call
  fails : Text → Text → Call
  answers : Text → Call

unfoldable pub call : VodHeadProbeStateStore → ℕ × Call → VodHeadProbeStateStore
call s (now, asks key) = (should_skip_head s key now).1
call s (now, fails key reason) = mark_head_failed s key reason now
call s (now, answers key) = mark_head_supported s key now

unfoldable pub run : VodHeadProbeStateStore → List (ℕ × Call) → VodHeadProbeStateStore
run s [] = s
run s (c ∷ calls) = run (call s c) calls

-- A call that does not say that the upstream of a key answers.
abbrev pub OfOther : Text → ℕ × Call → Type 0
OfOther key (now, asks other) = Unit
OfOther key (now, fails other reason) = Unit
OfOther key (now, answers other) = other ≢ key

abbrev skips : Dict Text VodHeadProbeStateEntry → Text → Bool
skips state key = elim (get key state) [ none ↦ false | some e ↦ not e.head_supported ]

-- The store has in memory that the upstream of a key gives no answer.
record Remembers (key : Text) (s : VodHeadProbeStateStore) : Type 0 where
  state : Dict Text VodHeadProbeStateEntry
  loaded : s.state ≡ some state
  skipped : skips state key ≡ true

abbrev unanswered : Text → ℕ → VodHeadProbeStateEntry
unanswered reason now = record {
  expires_at = now + vod_head_probe_state_ttl_seconds;
  failure_reason = or_text (strip reason) (codes "head_failed");
  head_supported = false;
  last_failure_at = now;
}

load_state-loaded :
    (s : VodHeadProbeStateStore) (now : ℕ) (state : Dict Text VodHeadProbeStateEntry)
    → s.state ≡ some state
    → load_state s now ≡ state
unfolding load_state
load_state-loaded s now state e = rw e refl

mark_head_failed-Remembers :
    (s : VodHeadProbeStateStore) (key reason : Text) (now : ℕ)
    → Remembers key (mark_head_failed s key reason now)
unfolding mark_head_failed
mark_head_failed-Remembers s key reason now = record {
  state = set key (unanswered reason now) (load_state s now);
  loaded = refl;
  skipped = ground (arith, get-set key key (unanswered reason now) (load_state s now));
}

call-Remembers :
    (s : VodHeadProbeStateStore) (key : Text) (c : ℕ × Call)
    → OfOther key c
    → Remembers key s
    → Remembers key (call s c)
unfolding call should_skip_head mark_head_failed mark_head_supported
call-Remembers s key (now, asks other) o r = record {
  state = load_state s now;
  loaded = refl;
  skipped = rw (load_state-loaded s now r.state r.loaded) r.skipped;
}
call-Remembers s key (now, fails other reason) o r =
    let e = unanswered reason now in
    record {
      state = set other e (load_state s now);
      loaded = refl;
      skipped =
          rw (load_state-loaded s now r.state r.loaded)
            (ground (arith, get-set other key e r.state, r.skipped));
    }
call-Remembers s key (now, answers other) o r =
    let same = load_state-loaded s now r.state r.loaded in
    elim-Holds (Remembers key) (get other (load_state s now)) _ _
      (λ _. record { state = load_state s now; loaded = refl; skipped = rw same r.skipped })
      (λ e _. record {
        state = pop other (load_state s now);
        loaded = refl;
        skipped = rw same (ground (arith, get-pop_ne other key r.state o, r.skipped));
      })

run-Remembers :
    (s : VodHeadProbeStateStore) (key : Text) (calls : List (ℕ × Call))
    → All (OfOther key) calls
    → Remembers key s
    → Remembers key (run s calls)
unfolding run
run-Remembers s key [] o r = r
run-Remembers s key (c ∷ calls) o r =
    run-Remembers (call s c) key calls o.1 (call-Remembers s key c o.0 r)

load_state-file :
    (file : Dict Text VodHeadProbeStateEntry) (now : ℕ)
    → load_state (record { state = none; file = file }) now ≡ cleaned file now []
unfolding load_state
load_state-file file now = refl

get-cleaned :
    (key : Text) (payload : Dict Text VodHeadProbeStateEntry) (now : ℕ)
    (found : Dict Text VodHeadProbeStateEntry)
    → Distinct payload
    → get key (cleaned payload now found) ≡ elim (get key payload) [
      | none ↦ get key found
      | some e ↦
          if ltb 0 e.expires_at && ltb e.expires_at now
          then get key found
          else some
              (record e { failure_reason = or_text (strip e.failure_reason) (codes "head_failed") })
    ]
unfolding cleaned get
get-cleaned key [] now found d = refl
get-cleaned key ((j, e) ∷ payload) now found d =
    let kept = record e {
      failure_reason = or_text (strip e.failure_reason) (codes "head_failed");
    } in
    let later = if ltb 0 e.expires_at && ltb e.expires_at now then found else set j kept found in
    ground (arith, get-cleaned key payload now later d.1, get-set j key kept found, d.0)

get-empty : (key : Text) → get {V = VodHeadProbeStateEntry} key [] ≡ none
unfolding get
get-empty key = refl

restarted_lem :
    (s : VodHeadProbeStateStore) (key reason : Text) (now later : ℕ)
    → Distinct (load_state s now)
    → skips (load_state (restarted (mark_head_failed s key reason now)) later) key
      ≡ leb later (now + vod_head_probe_state_ttl_seconds)
unfolding mark_head_failed
restarted_lem s key reason now later d =
    let e = unanswered reason now in
    let file = set key e (load_state s now) in
    rw (load_state-file file later) (
      ground (
        arith,
        get-cleaned key file later [] (set-Distinct key e (load_state s now) d),
        get-set key key e (load_state s now),
        get-empty key,
      ))

-- An upstream that has failed a HEAD request is skipped for good while the program runs, whatever
-- the time and the calls, as long as none says that it answers; if the program had started anew
-- after the failure, it would be skipped until the time that was written had passed. No key
-- stands twice in the state.
pub mark_head_failed-should_skip_head :
    (s : VodHeadProbeStateStore) (key reason : Text) (now : ℕ) (calls : List (ℕ × Call)) (later : ℕ)
    → Distinct (load_state s now)
    → All (OfOther key) calls
    → ((should_skip_head (run (mark_head_failed s key reason now) calls) key later).0 ≡ true)
      × ((should_skip_head (restarted (mark_head_failed s key reason now)) key later).0
          ≡ leb later (now + vod_head_probe_state_ttl_seconds))
unfolding should_skip_head
mark_head_failed-should_skip_head s key reason now calls later d o =
    let r =
      run-Remembers (mark_head_failed s key reason now) key calls o
        (mark_head_failed-Remembers s key reason now) in
    let after = run (mark_head_failed s key reason now) calls in
    (
      ap (λ state. skips state key) (load_state-loaded after later r.state r.loaded) ∙ r.skipped,
      restarted_lem s key reason now later d,
    )
