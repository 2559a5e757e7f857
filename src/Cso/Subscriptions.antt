-- ===== src/Cso/Subscriptions.antt =====
-- backend/cso/subscriptions_shared.py: whether the file of a VOD source can be passed on as it is. A
-- candidate is what is read of it: the container extensions of the episode's source, if there is one, of
-- the source and of the group, which a candidate without a group lacks.
mod Tests
use headendarr.Prelude.{
  List, [], ◌∷◌, Bool, true, false, not, ◌&&◌, Option, none, some, if◌then◌else◌,
}
use headendarr.Prelude.Dict.{Dict, get, or_else, is_empty}
use headendarr.Prelude.Text.{Text, codes, text_key, text_discrete, one_of, or_text}
use headendarr.Profiles.Policy.{clean_key}

pub record Candidate : Type 0 where
  pub episode_extension : Option Text
  pub source_extension : Option Text
  pub group_extension : Option Text

abbrev pub container_profile_map : Dict Text Text
container_profile_map =
    (codes "ts", codes "mpegts")
    ∷ (codes "mpegts", codes "mpegts")
    ∷ (codes "mkv", codes "matroska")
    ∷ (codes "matroska", codes "matroska")
    ∷ (codes "mp4", codes "mp4")
    ∷ (codes "webm", codes "webm")
    ∷ []

unfoldable pub vod_passthrough_profile_for_source : Candidate → Text
vod_passthrough_profile_for_source c =
    let source_container =
      or_text (or_text (clean_key c.episode_extension) (clean_key c.source_extension))
        (clean_key c.group_extension) in
    or_else [] (get source_container container_profile_map)

-- `uses_proxy` is CS_VOD_USE_PROXY_SESSION.
unfoldable pub should_use_vod_proxy_session : Bool → Option Candidate → Text → Bool
should_use_vod_proxy_session uses_proxy none requested_profile = false
should_use_vod_proxy_session uses_proxy (some c) requested_profile =
    let profile_name = clean_key (some requested_profile) in
    uses_proxy
    && not (one_of ([] ∷ codes "hls" ∷ []) profile_name)
    && elim (text_discrete profile_name (vod_passthrough_profile_for_source c)) [
      | yes _ ↦ true
      | no _ ↦ false
    ]
