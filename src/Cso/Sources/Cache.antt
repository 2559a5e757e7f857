-- ===== src/Cso/Sources/Cache.antt =====
-- The cache of failed sources: marking a source and looking the failed ones up.
use headendarr.Prelude.{◌≡◌, refl, ◌≤◌, ◌+◌, [], ◌∷◌, map, false, none, some, ℕ, arith, ltb, keep}
use headendarr.Prelude.Dict.{Dict, get, set, or_else, Distinct, nat_key, get-set_self, set-Distinct}
use headendarr.Cso.Sources.{
  FailedSources, get_failed_source_ids, mark_source_temporarily_failed, held_for, member,
}

-- What `member` finds of a dict of holds.
pub member-active :
    (s now : ℕ) (d : Dict ℕ ℕ)
    → Distinct d
    → member s (map (λ e. e.0) (keep (λ e. ltb now e.1) d))
      ≡ elim (get s d) [ none ↦ false | some hold_until ↦ ltb now hold_until ]
unfolding get
member-active s now [] u = refl
member-active s now ((j, t) ∷ d) u = ground (arith, member-active s now d u.1, u.0)

mark-positive :
    (cache : FailedSources) (channel source ttl now : ℕ)
    → 1 ≤ channel
    → 1 ≤ source
    → (mark_source_temporarily_failed cache (some channel) (some source) ttl now).1
      ≡ set channel (set source (now + held_for ttl) (or_else [] (get channel cache))) cache
unfolding mark_source_temporarily_failed
mark-positive cache channel source ttl now c s = ground arith

pub failed-positive :
    (cache : FailedSources) (channel now : ℕ)
    → 1 ≤ channel
    → (get_failed_source_ids cache (some channel) now).0
      ≡ map (λ e. e.0) (keep (λ e. ltb now e.1) (or_else [] (get channel cache)))
unfolding get_failed_source_ids
failed-positive cache channel now c = ground arith

-- A source that is marked as failed is among the failed sources of its channel exactly until its
-- hold ends. Both ids are positive and the channel's holds are for distinct sources.
pub get_failed-mark :
    (cache : FailedSources) (channel source ttl now later : ℕ)
    → 1 ≤ channel
    → 1 ≤ source
    → Distinct (or_else [] (get channel cache))
    → member source
        (get_failed_source_ids
          (mark_source_temporarily_failed cache (some channel) (some source) ttl now).1
          (some channel)
          later).0
      ≡ ltb later (now + held_for ttl)
get_failed-mark cache channel source ttl now later c s u =
    let holds = set source (now + held_for ttl) (or_else [] (get channel cache)) in
    rw (
      mark-positive cache channel source ttl now c s,
      failed-positive (set channel holds cache) channel later c,
      get-set_self channel holds cache,
      member-active source later holds (set-Distinct source (now + held_for ttl) _ u),
      get-set_self source (now + held_for ttl) (or_else [] (get channel cache)),
    )
