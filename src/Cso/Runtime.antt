-- ===== src/Cso/Runtime.antt =====
-- backend/cso/common.py: `_SessionMap`, the sessions by key, and what `CsoRuntimeManager` asks of its
-- map of ingest sessions. A session is the entry of the map itself. Between the blocks of the sweep
-- nothing else runs. The maps of outputs and slates, whose sessions call others, are left out.
pub mod Sweep
mod Tests
use headendarr.Prelude.{
  ℕ, ◌+◌, List, [], ◌∷◌, Bool, true, false, not, ◌&&◌, ◌||◌, Option, none, some, ltb, if◌then◌else◌,
}
use headendarr.Prelude.Dict.{Dict, get, set}
use headendarr.Prelude.Text.{Text, text_key}
use headendarr.Cso.Ingest.{World, IngestSession, is_used}
use headendarr.Cso.Ingest.Stop.{stop}

-- `fresh` is what the factory makes.
unfoldable pub get_or_create : {A : Type 0} → Dict Text A → Text → A → A × Dict Text A
get_or_create sessions key fresh = elim (get key sessions) [
  | some session ↦ (session, sessions)
  | none ↦ (fresh, set key fresh sessions)
]

-- A session that the sweep passes: it runs, and it was active of late or somebody uses it.
unfoldable pub is_passed : ℕ → ℕ → IngestSession → Bool
is_passed idle_timeout now s = s.running && (ltb now (s.last_activity + idle_timeout) || is_used s)

-- `cleanup_idle_streams` of the ingest sessions, which have no clients to prune.
unfoldable pub cleanup_idle_ingests :
    ℕ → ℕ → Dict Text IngestSession → World → Dict Text IngestSession × World
cleanup_idle_ingests idle_timeout now [] w = ([], w)
cleanup_idle_ingests idle_timeout now ((key, s) ∷ sessions) w =
    let stopped = stop s w true now in
    let passed = cleanup_idle_ingests idle_timeout now sessions w in
    let swept = cleanup_idle_ingests idle_timeout now sessions stopped.1 in
    if is_passed idle_timeout now s then ((key, s) ∷ passed.0, passed.1) else swept

-- `has_active_ingest_for_channel` and `_for_source`, with the key that each of them makes.
unfoldable pub has_active_ingest : Dict Text IngestSession → Text → Bool
has_active_ingest sessions key = elim (get key sessions) [
  | none ↦ false
  | some session ↦ session.running && session.has_process
]

unfoldable pub has_ingest_session : Dict Text IngestSession → Text → Bool
has_ingest_session sessions key = elim (get key sessions) [ none ↦ false | some _ ↦ true ]
