-- ===== src/Cso/External.antt =====
-- backend/cso/capacity.py: the key and the limit of a source's upstream, and the connections that are
-- counted outside the registry. A key such as "xc:5" is the constructor with its number: different
-- constructors and numbers print differently. An id that is missing is 0, which the source treats alike.
pub mod Laws
mod Tests
use headendarr.Prelude.{
  ◌≡◌, refl, List, [], ◌∷◌, Bool, true, false, not, ◌&&◌, ◌||◌, Option, none, some, ℕ, ◌+◌, ltb,
  ◌==◌, if◌then◌else◌, ℕ_discrete,
}
use headendarr.Prelude.Dict.{Dict, Key, get, set, or_else, is_empty}
use headendarr.Cso.Types.{CsoSource}
use headendarr.Prelude.Text.{Text, codes, strip, lower, starts_with, contains}

pub data CapacityKey : Type 0 where
  xc : ℕ → CapacityKey
  playlist : ℕ → CapacityKey
  source : ℕ → CapacityKey

unfoldable pub capacity_key_discrete : Discrete CapacityKey
unfolding ℕ_discrete
capacity_key_discrete (xc a) (xc b) = elim (ℕ_discrete a b) [
  | yes p ↦ yes (cc)
  | no n ↦ no (λ e. n (cc))
]
capacity_key_discrete (xc a) (playlist b) = no (λ e. cc)
capacity_key_discrete (xc a) (source b) = no (λ e. cc)
capacity_key_discrete (playlist a) (xc b) = no (λ e. cc)
capacity_key_discrete (playlist a) (playlist b) = elim (ℕ_discrete a b) [
  | yes p ↦ yes (cc)
  | no n ↦ no (λ e. n (cc))
]
capacity_key_discrete (playlist a) (source b) = no (λ e. cc)
capacity_key_discrete (source a) (xc b) = no (λ e. cc)
capacity_key_discrete (source a) (playlist b) = no (λ e. cc)
capacity_key_discrete (source a) (source b) = elim (ℕ_discrete a b) [
  | yes p ↦ yes (cc)
  | no n ↦ no (λ e. n (cc))
]

instance abbrev pub capacity_key_key : Key CapacityKey
capacity_key_key = record { same = capacity_key_discrete }

unfoldable pub source_capacity_key : CsoSource → CapacityKey
source_capacity_key s =
    if ltb 0 s.xc_account_id
    then xc s.xc_account_id
    else if ltb 0 s.playlist_id
    then playlist s.playlist_id
    else source s.id

unfoldable pub source_capacity_limit : CsoSource → ℕ
source_capacity_limit s = elim s.xc_account [
  | some account ↦ account.connection_limit
  | none ↦ elim s.playlist [ some p ↦ p.connections | none ↦ 1000000 ]
]

unfoldable pub source_should_use_cso_buffer : CsoSource → Bool → Bool
source_should_use_cso_buffer s force_tvh_remux =
    force_tvh_remux
    || (s.use_hls_proxy && elim s.playlist [ some p ↦ p.hls_proxy_use_ffmpeg | none ↦ false ])

abbrev pub ExternalCounts : Type 0
ExternalCounts = Dict CapacityKey ℕ

unfoldable pub increment_external_count : CapacityKey → ExternalCounts → ExternalCounts
increment_external_count key external_counts =
    set key (or_else 0 (get key external_counts) + 1) external_counts

pub record ActivitySession : Type 0 where
  pub endpoint : Text
  pub display_url : Text
  pub xc_account_id : ℕ
  pub playlist_id : ℕ
  pub source_id : ℕ
  pub channel_id : ℕ

unfoldable pub is_internal_cso_activity : Text → Text → Bool
is_internal_cso_activity endpoint display_url =
    let endpoint_value = strip endpoint in
    let display_url_value = lower (strip display_url) in
    contains (codes "/tic-api/cso/channel/") endpoint_value
    || contains (codes "/tic-api/cso/channel_stream/") endpoint_value
    || starts_with (codes "/xc/movie/") endpoint_value
    || starts_with (codes "/xc/series/") endpoint_value
    || (starts_with (codes "/tic-tvh/") endpoint_value
        && contains (codes "tic-cso-") display_url_value)

-- `fallback_channel_ids.add(channel_id)`
unfoldable pub add_id : ℕ → List ℕ → List ℕ
add_id x [] = x ∷ []
add_id x (y ∷ ys) = let rest = add_id x ys in if x == y then y ∷ ys else y ∷ rest

-- What a session is counted under, `none` for one that only names a channel.
unfoldable pub session_key : ActivitySession → Option CapacityKey
session_key a =
    if ltb 0 a.xc_account_id
    then some (xc a.xc_account_id)
    else if ltb 0 a.playlist_id
    then some (playlist a.playlist_id)
    else if ltb 0 a.source_id
    then some (source a.source_id)
    else none

-- One turn of the loop over the sessions: the counts and the channels to look up.
unfoldable pub count_session : ActivitySession → ExternalCounts × List ℕ → ExternalCounts × List ℕ
count_session a (counts, channels) =
    if is_internal_cso_activity a.endpoint a.display_url
    then (counts, channels)
    else elim (session_key a) [
      | some key ↦ (increment_external_count key counts, channels)
      | none ↦ (counts, if ltb 0 a.channel_id then add_id a.channel_id channels else channels)
    ]

unfoldable pub count_sessions :
    List ActivitySession → ExternalCounts × List ℕ → ExternalCounts × List ℕ
count_sessions [] counted = counted
count_sessions (a ∷ sessions) counted = count_sessions sessions (count_session a counted)

-- Whether the loop over a channel's candidates stops at the source.
unfoldable pub is_playable : CsoSource → Bool
is_playable s = elim s.playlist [ some p ↦ p.enabled | none ↦ true ] && not (is_empty (strip s.url))

-- The first source of a channel that is playable is counted.
unfoldable pub count_channel : List CsoSource → ExternalCounts → ExternalCounts
count_channel [] counts = counts
count_channel (s ∷ candidates) counts =
    let rest = count_channel candidates counts in
    if is_playable s then increment_external_count (source_capacity_key s) counts else rest

-- The channels without an ingest, each with its candidates in order, which the database has.
unfoldable pub count_channels : List (List CsoSource) → ExternalCounts → ExternalCounts
count_channels [] counts = counts
count_channels (candidates ∷ channels) counts =
    count_channels channels (count_channel candidates counts)

-- `if parsed: fallback_channel_ids.add(parsed)`
unfoldable pub add_ids : List ℕ → List ℕ → List ℕ
add_ids [] found = found
add_ids (x ∷ ids) found = add_ids ids (if ltb 0 x then add_id x found else found)

abbrev pub without_ingest : (ℕ → Bool) → (ℕ → List CsoSource) → List ℕ → List (List CsoSource)
without_ingest has_ingest candidates [] = []
without_ingest has_ingest candidates (c ∷ channels) =
    let rest = without_ingest has_ingest candidates channels in
    if has_ingest c then rest else candidates c ∷ rest

-- What is passed to `set_external_counts`. Whether a channel has an active ingest, and the ordered
-- sources of a channel, come from the session manager and the database. The channels are looked up in the
-- order in which they were found, not of their ids: the counts are sums.
unfoldable pub reconcile_cso_capacity :
    (ℕ → Bool) → (ℕ → List CsoSource) → List ℕ → List ActivitySession → ExternalCounts
reconcile_cso_capacity has_ingest candidates channel_ids activity_sessions =
    let (counts, channels) = count_sessions activity_sessions ([], add_ids channel_ids []) in
    count_channels (without_ingest has_ingest candidates channels) counts
