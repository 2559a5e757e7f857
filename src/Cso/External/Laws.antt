-- ===== src/Cso/External/Laws.antt =====
-- How many connections the counting of external connections finds.
use headendarr.Prelude.{
  ◌≡◌, List, [], ◌∷◌, Bool, true, false, not, ◌&&◌, none, some, ℕ, ◌+◌, arith, length, keep, any_of,
  inl, inr, Option-cases, if◌then◌else◌,
}
use headendarr.Prelude.Dict.{or_else, get, sum_values, sum_values-set}
use headendarr.Cso.Types.{CsoSource}
use headendarr.Cso.External.{
  CapacityKey, capacity_key_key, source_capacity_key, ExternalCounts, ActivitySession,
  increment_external_count, is_internal_cso_activity, session_key, count_session, count_sessions,
  is_playable, count_channel, count_channels,
}

abbrev total : ExternalCounts → ℕ
total = sum_values (λ n. n)

increment-total :
    (key : CapacityKey) (counts : ExternalCounts)
    → total (increment_external_count key counts) ≡ total counts + 1
unfolding increment_external_count
increment-total key counts =
    ground (arith, sum_values-set (λ n. n) key (or_else 0 (get key counts) + 1) counts)

-- Whether a session is counted by itself.
unfoldable pub is_external : ActivitySession → Bool
is_external a =
    not (is_internal_cso_activity a.endpoint a.display_url)
    && elim (session_key a) [ none ↦ false | some _ ↦ true ]

count_session-total :
    (a : ActivitySession) (counts : ExternalCounts) (channels : List ℕ)
    → total (count_session a (counts, channels)).0 ≡ total counts + (if is_external a then 1 else 0)
unfolding count_session is_external
count_session-total a counts channels = elim (Option-cases (session_key a)) [
  | inl e ↦ ground arith
  | inr (key, e) ↦ ground (arith, increment-total key counts)
]

pub count_sessions-total :
    (sessions : List ActivitySession) (counts : ExternalCounts) (channels : List ℕ)
    → total (count_sessions sessions (counts, channels)).0
      ≡ total counts + length (keep is_external sessions)
unfolding count_sessions
count_sessions-total [] counts channels = omega arith
count_sessions-total (a ∷ sessions) counts channels =
    let (after, looked_up) = count_session a (counts, channels) in
    ground
      (arith, count_sessions-total sessions after looked_up, count_session-total a counts channels)

abbrev has_playable : List CsoSource → Bool
has_playable candidates = any_of is_playable candidates

count_channel-total :
    (candidates : List CsoSource) (counts : ExternalCounts)
    → total (count_channel candidates counts)
      ≡ total counts + (if has_playable candidates then 1 else 0)
unfolding count_channel
count_channel-total [] counts = omega arith
count_channel-total (s ∷ candidates) counts =
    ground
      (arith, increment-total (source_capacity_key s) counts, count_channel-total candidates counts)

pub count_channels-total :
    (channels : List (List CsoSource)) (counts : ExternalCounts)
    → total (count_channels channels counts) ≡ total counts + length (keep has_playable channels)
unfolding count_channels
count_channels-total [] counts = omega arith
count_channels-total (candidates ∷ channels) counts = ground (
  arith,
  count_channels-total channels (count_channel candidates counts),
  count_channel-total candidates counts,
)
