-- ===== src/Cso/Runtime/Tests.antt =====
-- Runs of the session maps.
use headendarr.Prelude.{◌≡◌, refl, [], ◌∷◌, true, arith}
use headendarr.Prelude.Dict.{get, Dict}
use headendarr.Prelude.Text.{Text, codes, text_key, text_discrete}
use headendarr.Cso.Ingest.{IngestSession}
use headendarr.Cso.Ingest.Samples.{running_session, running_world, running-IsSettled, new_session}
use headendarr.Cso.Ingest.Steps.System.{AllSettled}
use headendarr.Cso.Runtime.{get_or_create, cleanup_idle_ingests, has_active_ingest}
use headendarr.Cso.Runtime.Sweep.{sessions_of, Swept, cleanup_idle_ingests-Swept}

-- One session that nobody uses any more, and one that has not started.
abbrev two_sessions : Dict Text IngestSession
two_sessions =
    (codes "cso-ingest-4", running_session)
    ∷ (codes "cso-ingest-5", new_session 5 (codes "ab"))
    ∷ []

keeps_session :
    (get_or_create two_sessions (codes "cso-ingest-4") (new_session 4 (codes "a"))).1 ≡ two_sessions
unfolding get_or_create get text_discrete
keeps_session = refl

is_active : has_active_ingest two_sessions (codes "cso-ingest-4") ≡ true
unfolding has_active_ingest get text_discrete
is_active = refl

two-AllSettled : AllSettled (sessions_of two_sessions) running_world
unfolding AllSettled get text_discrete
two-AllSettled = (
  running-IsSettled,
  ((λ e. cc), tt),
  (
    record {
      well_formed = running-IsSettled.well_formed;
      exact = λ k s. ground arith;
      resting = λ _. refl;
    },
    tt,
    tt,
  ),
)

cleanup_idle_ingests-Swept_example :
    Swept 300000000 400000000 two_sessions running_world
      (cleanup_idle_ingests 300000000 400000000 two_sessions running_world).0
      (cleanup_idle_ingests 300000000 400000000 two_sessions running_world).1
cleanup_idle_ingests-Swept_example =
    cleanup_idle_ingests-Swept 300000000 400000000 two_sessions running_world two-AllSettled
