-- ===== src/Profiles/Resolve/Laws.antt =====
-- What the resolution of backend/stream_profiles.py may answer.
use headendarr.Prelude.{
  subst, ◌≡◌, refl, sym, ◌⊎◌, inl, inr, [], ◌∷◌, true, not, ◌&&◌, ◌||◌, Option, some, arith,
  if-Holds, elim-Holds,
}
use headendarr.Prelude.Dict.{get, Holds, Holds-or_else, is_empty}
use headendarr.Prelude.Text.{Text, codes, text_key, strip, lower, or_text, or_missing, one_of}
use headendarr.Profiles.Table.{
  profile_definition, tvh_compatible_profile_ids_order, tvh_profile_to_stream_profile,
}
use headendarr.Profiles.Request.{ProfileRequest, parse_stream_profile_request}
use headendarr.Profiles.Resolve.{
  Settings, is_supported, is_supported_profile_enabled, resolve_tvh_cso_profile_name,
  resolve_request, channel_profile_override, resolve_cso_profile_name, resolve_tvh_compatible,
  resolve_tvh_profile_name,
}

-- A profile that Tvheadend has, other than "pass", with the stream profile that stands behind it.
pub data BackedBy (settings : Settings) (name : Text) : Type 0 where
  its_own :
      (mapped : Text)
      → get name tvh_profile_to_stream_profile ≡ some mapped
      → is_supported_profile_enabled settings mapped ≡ true
      → BackedBy settings name
  mapped_from :
      (profile : Text)
      → is_supported_profile_enabled settings profile ≡ true
      → lower (strip (profile_definition profile).tvh_profile_name) ≡ name
      → BackedBy settings name

abbrev Answer : Settings → Text → Type 0
Answer settings name =
    (one_of tvh_compatible_profile_ids_order name ≡ true)
    × ((name ≡ codes "pass") ⊎ BackedBy settings name)

pass-Answer : (settings : Settings) → Answer settings (codes "pass")
unfolding one_of
pass-Answer settings = (refl, inl refl)

one_of_self : (s t : Text) → one_of (s ∷ []) t ≡ true → s ≡ t
unfolding one_of
one_of_self s t h = ground arith

resolve_tvh_compatible-Answer :
    (settings : Settings) (profile : Text)
    → one_of tvh_compatible_profile_ids_order profile ≡ true
    → Answer settings (resolve_tvh_compatible settings profile)
unfolding resolve_tvh_compatible
resolve_tvh_compatible-Answer settings profile own =
    if-Holds (Answer settings) (one_of (codes "pass" ∷ []) profile) profile _
      (λ e. (own, inl (sym (one_of_self _ _ e))))
      (λ e.
        elim-Holds (Answer settings) (get profile tvh_profile_to_stream_profile) _ _
          (λ missing. pass-Answer settings)
          (λ mapped found.
            if-Holds (Answer settings) (is_supported_profile_enabled settings mapped) _ _
              (λ on. (own, inr (its_own mapped found on))) (λ off. pass-Answer settings)))

-- Tvheadend is always given one of the profiles that it has: "pass", or one with an enabled
-- stream profile behind it, its own or one that maps to it.
pub resolve_tvh_profile_name-Answer :
    (settings : Settings) (cso_profile : Option Text)
    → (one_of tvh_compatible_profile_ids_order (resolve_tvh_profile_name settings cso_profile)
        ≡ true)
      × ((resolve_tvh_profile_name settings cso_profile ≡ codes "pass")
          ⊎ BackedBy settings (resolve_tvh_profile_name settings cso_profile))
unfolding resolve_tvh_profile_name
resolve_tvh_profile_name-Answer settings cso_profile =
    let profile : Text = lower (strip (or_missing cso_profile [])) in
    let default : Answer settings (codes "pass") = pass-Answer settings in
    if-Holds (Answer settings)
      (is_empty profile || one_of (codes "default" ∷ codes "tvh" ∷ []) profile) _ _ (λ _. default)
      (λ _.
        if-Holds (Answer settings) (one_of tvh_compatible_profile_ids_order profile) _ _
          (λ own. resolve_tvh_compatible-Answer settings profile own)
          (λ _.
            if-Holds (Answer settings) (not (is_supported profile)) _ _ (λ _. default)
              (λ _.
                if-Holds (Answer settings) (not (is_supported_profile_enabled settings profile)) _ _
                  (λ _. default)
                  (λ on.
                    if-Holds (Answer settings)
                      (one_of tvh_compatible_profile_ids_order
                        (lower (strip (profile_definition profile).tvh_profile_name)))
                      _ _ (λ ok. (ok, inr (mapped_from profile (ground arith) refl)))
                      (λ _. default)))))

-- A profile that has the container that Tvheadend reads.
abbrev IsMpegts : Text → Type 0
IsMpegts name =
    (is_supported name ≡ true)
    × (one_of (codes "mpegts" ∷ []) (lower (strip (profile_definition name).container)) ≡ true)

tvh_default_fits : IsMpegts (codes "mpegts")
unfolding is_supported profile_definition one_of strip lower get
tvh_default_fits = (refl, refl)

pub resolve_tvh_cso_profile_name-mpegts :
    (settings : Settings)
    → (is_supported (resolve_tvh_cso_profile_name settings) ≡ true)
      × (one_of
            (codes "mpegts" ∷ [])
            (lower (strip (profile_definition (resolve_tvh_cso_profile_name settings)).container))
          ≡ true)
unfolding resolve_tvh_cso_profile_name
resolve_tvh_cso_profile_name-mpegts settings =
    let profile : Text =
      or_text (lower (strip (or_missing settings.tvh_cso_stream_profile []))) (codes "mpegts") in
    if-Holds IsMpegts
      (not (is_supported profile)
        || not
            (one_of (codes "mpegts" ∷ []) (lower (strip (profile_definition profile).container))))
      _ _ (λ _. tvh_default_fits) (λ h. (ground arith, ground arith))

-- What a request by itself may be answered with.
abbrev pub Grants : Settings → ProfileRequest → Text → Type 0
Grants settings request name =
    (name ≡ codes "default")
    ⊎ IsMpegts name
    ⊎ ((is_supported_profile_enabled settings request.profile_id ≡ true) × (name ≡ request.raw))

resolve_request-Grants :
    (settings : Settings) (request : ProfileRequest)
    → Holds (Grants settings request) (resolve_request settings request)
unfolding resolve_request
resolve_request-Grants settings request =
    let P : Option Text → Type 0 = Holds (Grants settings request) in
    if-Holds P (one_of (codes "tvh" ∷ []) request.profile_id) _ _
      (λ _. inr (inl (resolve_tvh_cso_profile_name-mpegts settings)))
      (λ _.
        if-Holds P (one_of (codes "default" ∷ []) request.profile_id) _ _
          (λ e. inl (sym (one_of_self _ _ e)))
          (λ _.
            if-Holds P
              (not (is_empty request.profile_id)
                && is_supported_profile_enabled settings request.profile_id)
              _ _ (λ h. inr (inr (ground arith, refl))) (λ _. tt)))

-- Whatever is requested, a channel's stream profile resolves to "default", to a supported profile
-- with the container mpegts, or to the normal form of the request, or of the channel's own
-- profile, whose profile is supported and enabled.
pub resolve_cso_profile_name-Grants :
    (settings : Settings) (requested : Option Text) (channel : Option (Option (Option Text)))
    → Grants settings
        (parse_stream_profile_request requested)
        (resolve_cso_profile_name settings requested channel)
      ⊎ Grants settings
          (parse_stream_profile_request (some (channel_profile_override channel)))
          (resolve_cso_profile_name settings requested channel)
unfolding resolve_cso_profile_name
resolve_cso_profile_name-Grants settings requested channel =
    let by_request : ProfileRequest = parse_stream_profile_request requested in
    let by_channel : ProfileRequest =
      parse_stream_profile_request (some (channel_profile_override channel)) in
    let P : Text → Type 0 =
      λ name. Grants settings by_request name ⊎ Grants settings by_channel name in
    elim-Holds P (resolve_request settings by_request) _ (λ name. name)
      (λ _. inr (
        Holds-or_else (Grants settings by_channel) (codes "default")
          (resolve_request settings by_channel) (inl refl)
          (resolve_request-Grants settings by_channel)))
      (λ name e.
        inl (
          subst (Holds (Grants settings by_request)) e
            (resolve_request-Grants settings by_request)))
