-- ===== src/Cso/Sources.antt =====
-- backend/cso/sources.py: the order in which a channel's sources are tried, and the cache of sources that
-- have failed lately. Times are in microseconds. A channel's or a source's id is `none` where `int` fails
-- or gives a negative number. Priorities are not negative. The penalties make an effective priority
-- negative, so two of them are compared with the penalties added on the other side.
pub mod Cache
pub mod Order
mod Tests
use headendarr.Prelude.{
  ◌≡◌, ◌+◌, ◌*◌, List, [], ◌∷◌, map, Bool, true, false, not, ◌&&◌, ◌||◌, Option, none, some, ℕ, max,
  ltb, leb, ◌==◌, keep, if◌then◌else◌,
}
use headendarr.Prelude.Dict.{Dict, get, set, pop, or_else, is_empty, nat_key}
use headendarr.Cso.Types.{CsoSource}
use headendarr.Prelude.Text.{Text, codes, strip, lower, or_missing, one_of}

abbrev pub second : ℕ
second = 1000000

-- `_cso_channel_failed_sources`: for each channel, when each source's hold ends
abbrev pub FailedSources : Type 0
FailedSources = Dict ℕ (Dict ℕ ℕ)

abbrev failure_cache_ttl : ℕ
failure_cache_ttl = 300 * second

abbrev pop_ids : List (ℕ × ℕ) → Dict ℕ ℕ → Dict ℕ ℕ
pop_ids [] failed_map = failed_map
pop_ids ((source_id, _) ∷ expired) failed_map = pop_ids expired (pop source_id failed_map)

abbrev put_map : ℕ → Dict ℕ ℕ → FailedSources → FailedSources
put_map channel_id [] cache = pop channel_id cache
put_map channel_id (e ∷ failed_map) cache = set channel_id (e ∷ failed_map) cache

unfoldable pub get_failed_source_ids : FailedSources → Option ℕ → ℕ → List ℕ × FailedSources
get_failed_source_ids cache none now = ([], cache)
get_failed_source_ids cache (some channel_id) now =
    let failed_map = or_else [] (get channel_id cache) in
    let active = keep (λ e. ltb now e.1) failed_map in
    let expired = keep (λ e. not (ltb now e.1)) failed_map in
    if channel_id == 0
    then ([], cache)
    else (map (λ e. e.0) active, put_map channel_id (pop_ids expired failed_map) cache)

-- `max(1.0, float(ttl_seconds or DEFAULT))`, in microseconds
abbrev pub held_for : ℕ → ℕ
held_for ttl = max second (if ttl == 0 then failure_cache_ttl else ttl)

unfoldable pub mark_source_temporarily_failed :
    FailedSources → Option ℕ → Option ℕ → ℕ → ℕ → Bool × FailedSources
mark_source_temporarily_failed cache none source_id ttl now = (false, cache)
mark_source_temporarily_failed cache (some channel_id) none ttl now = (false, cache)
mark_source_temporarily_failed cache (some channel_id) (some source_id) ttl now =
    if channel_id == 0 || source_id == 0 then (false, cache) else (
      true,
      set channel_id (set source_id (now + held_for ttl) (or_else [] (get channel_id cache))) cache,
    )

abbrev pub member : ℕ → List ℕ → Bool
member x [] = false
member x (y ∷ ys) = x == y || member x ys

-- The penalties of `_cso_source_effective_priority`.
unfoldable pub penalty : List ℕ → CsoSource → ℕ
penalty failed_source_ids source =
    let health_status = lower (strip (or_missing source.last_health_check_status [])) in
    (if one_of (codes "unhealthy" ∷ []) health_status then 5 else 0)
    + (if member source.id failed_source_ids then 1000 else 0)

-- Whether the first source's key is greater: effective priority, then priority, then the smaller id.
unfoldable pub outranks : List ℕ → CsoSource → CsoSource → Bool
outranks failed s t =
    let left = s.priority + penalty failed t in
    let right = t.priority + penalty failed s in
    ltb right left
    || (left == right && (ltb t.priority s.priority || (s.priority == t.priority && ltb s.id t.id)))

-- `sorted(..., reverse=True)`, which keeps the order of sources with equal keys
unfoldable pub insert : List ℕ → CsoSource → List CsoSource → List CsoSource
insert failed s [] = s ∷ []
insert failed s (t ∷ ordered) =
    let rest = insert failed s ordered in if outranks failed t s then t ∷ rest else s ∷ t ∷ ordered

unfoldable pub sort_sources : List ℕ → List CsoSource → List CsoSource
sort_sources failed [] = []
sort_sources failed (s ∷ sources) = insert failed s (sort_sources failed sources)

-- The channel's id, from the first source that has one if it is not given.
abbrev resolved_channel : Option ℕ → List CsoSource → Option ℕ
resolved_channel (some channel_id) sources = some channel_id
resolved_channel none [] = none
resolved_channel none (s ∷ sources) = elim s.channel_id [
  | none ↦ resolved_channel none sources
  | some channel_id ↦ some channel_id
]

unfoldable pub order_cso_channel_sources :
    FailedSources → List CsoSource → Option ℕ → ℕ → List CsoSource × FailedSources
order_cso_channel_sources cache sources channel_id now =
    let (failed, after) = get_failed_source_ids cache (resolved_channel channel_id sources) now in
    (sort_sources failed sources, after)
