-- ===== src/Profiles/Resolve.antt =====
-- backend/stream_profiles.py: which profile a request resolves to. The settings are what the functions
-- read of them: the entries of `stream_profiles` in their order, where `none` is a value that is no dict;
-- `tvh_cso_stream_profile`; and the environment variable that lists the profiles allowed. A warning that
-- is logged is left out.
pub mod Laws
use headendarr.Prelude.{
  ◌≡◌, List, [], ◌∷◌, map, Bool, true, false, not, ◌&&◌, ◌||◌, Option, none, some, if◌then◌else◌,
  keep,
}
use headendarr.Prelude.Dict.{Dict, get, set, keys, or_else, is_empty}
use headendarr.Prelude.Text.{
  Text, codes, text_key, text_discrete, strip, lower, or_text, or_missing, split, one_of,
}
use headendarr.Profiles.Profile.{Profile}
use headendarr.Profiles.Table.{
  supported_stream_profiles, profile_definition, tvh_compatible_profile_ids_order,
  tvh_profile_to_stream_profile,
}
use headendarr.Profiles.Request.{ProfileRequest, parse_stream_profile_request}

-- The entry of a profile in the settings file: a missing key is `none`.
pub record RawProfileSettings : Type 0 where
  pub enabled : Option Bool
  pub hwaccel : Option Bool
  pub deinterlace : Option Bool

pub record ProfileSettings : Type 0 where
  pub enabled : Bool
  pub hwaccel : Bool
  pub deinterlace : Bool

pub record Settings : Type 0 where
  pub stream_profiles : List (Text × Option RawProfileSettings)
  pub tvh_cso_stream_profile : Option Text
  pub supported_in_environment : Option Text

abbrev default_profile : Text
default_profile = codes "default"

abbrev tvh_profile : Text
tvh_profile = codes "tvh"

abbrev tvh_cso_default_profile : Text
tvh_cso_default_profile = codes "mpegts"

unfoldable pub is_supported : Text → Bool
is_supported name = elim (get name supported_stream_profiles) [ none ↦ false | some _ ↦ true ]

abbrev cleaned_items : List Text → List Text
cleaned_items items =
    map (λ item. lower (strip item))
      (keep (λ item. not (is_empty item) && not (is_empty (strip item))) items)

abbrev items_or_all : List Text → List Text
items_or_all [] = keys supported_stream_profiles
items_or_all (item ∷ items) = item ∷ items

-- `_parse_env_supported_profiles`, as the list of a set; both variables are read before this.
unfoldable pub parse_env_supported_profiles : Option Text → List Text
parse_env_supported_profiles variable =
    let raw = strip (or_missing variable []) in
    if is_empty raw
    then keys supported_stream_profiles
    else items_or_all (cleaned_items (split b',' raw))

unfoldable pub profile_settings_map :
    List (Text × Option RawProfileSettings) → Dict Text ProfileSettings → Dict Text ProfileSettings
profile_settings_map [] normalized = normalized
profile_settings_map ((key, none) ∷ raw) normalized = profile_settings_map raw normalized
profile_settings_map ((key, some value) ∷ raw) normalized = profile_settings_map raw (
    set (lower (strip key))
      (record {
        enabled = or_else true value.enabled;
        hwaccel = or_else false value.hwaccel;
        deinterlace = or_else false value.deinterlace;
      })
      normalized)

unfoldable pub is_enabled : Option ProfileSettings → Bool
is_enabled none = true
is_enabled (some found) = found.enabled

unfoldable pub is_supported_profile_enabled : Settings → Text → Bool
is_supported_profile_enabled settings requested =
    is_supported requested
    && one_of (parse_env_supported_profiles settings.supported_in_environment) requested
    && is_enabled (get requested (profile_settings_map settings.stream_profiles []))

unfoldable pub resolve_tvh_cso_profile_name : Settings → Text
resolve_tvh_cso_profile_name settings =
    let configured_profile = lower (strip (or_missing settings.tvh_cso_stream_profile [])) in
    let profile = or_text configured_profile tvh_cso_default_profile in
    let container = lower (strip (profile_definition profile).container) in
    if not (is_supported profile) || not (one_of (codes "mpegts" ∷ []) container)
    then tvh_cso_default_profile
    else profile

-- What `resolve_cso_profile_name` does with the request, and again with the channel's profile: `none` is
-- to go on.
unfoldable pub resolve_request : Settings → ProfileRequest → Option Text
resolve_request settings requested =
    if one_of (tvh_profile ∷ []) requested.profile_id
    then some (resolve_tvh_cso_profile_name settings)
    else if one_of (default_profile ∷ []) requested.profile_id
    then some requested.profile_id
    else if not (is_empty requested.profile_id)
        && is_supported_profile_enabled settings requested.profile_id
    then some requested.raw
    else none

-- `profile_from_cso_policy` of a policy that is a dict or was read into one; `none` is any other value.
unfoldable pub profile_from_cso_policy : Option (Option Text) → Text
profile_from_cso_policy none = default_profile
profile_from_cso_policy (some profile) =
    or_text (lower (strip (or_missing profile []))) default_profile

-- `none` is no channel; the inner value is its `cso_policy`.
unfoldable pub channel_profile_override : Option (Option (Option Text)) → Text
channel_profile_override none = []
channel_profile_override (some cso_policy) = profile_from_cso_policy cso_policy

unfoldable pub resolve_cso_profile_name :
    Settings → Option Text → Option (Option (Option Text)) → Text
resolve_cso_profile_name settings requested_profile channel =
    elim (resolve_request settings (parse_stream_profile_request requested_profile)) [
      | some name ↦ name
      | none ↦ or_else default_profile (
          resolve_request settings
            (parse_stream_profile_request (some (channel_profile_override channel))))
    ]

abbrev first_tvh_profile : Text
first_tvh_profile = codes "pass"

-- The branch of a profile that Tvheadend has itself.
unfoldable pub resolve_tvh_compatible : Settings → Text → Text
resolve_tvh_compatible settings profile =
    if one_of (codes "pass" ∷ []) profile
    then profile
    else elim (get profile tvh_profile_to_stream_profile) [
      | none ↦ first_tvh_profile
      | some mapped_profile ↦
          if is_supported_profile_enabled settings mapped_profile
          then profile
          else first_tvh_profile
    ]

unfoldable pub resolve_tvh_profile_name : Settings → Option Text → Text
resolve_tvh_profile_name settings cso_profile =
    let profile = lower (strip (or_missing cso_profile [])) in
    let mapped = lower (strip (profile_definition profile).tvh_profile_name) in
    if is_empty profile || one_of (default_profile ∷ tvh_profile ∷ []) profile
    then first_tvh_profile
    else if one_of tvh_compatible_profile_ids_order profile
    then resolve_tvh_compatible settings profile
    else if not (is_supported profile)
    then first_tvh_profile
    else if not (is_supported_profile_enabled settings profile)
    then first_tvh_profile
    else if one_of tvh_compatible_profile_ids_order mapped
    then mapped
    else first_tvh_profile
