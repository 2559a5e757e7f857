-- ===== src/Profiles/Policy/Laws.antt =====
-- What the modifiers of a request do to a policy.
use headendarr.Prelude.{
  ◌≡◌, ◌≢◌, refl, ◌⊎◌, inl, inr, [], ◌∷◌, true, false, Option, some, arith, Bool-cases,
}
use headendarr.Prelude.Dict.{get}
use headendarr.Prelude.Text.OneOf.{one_of-single}
use headendarr.Profiles.Table.{QualityPreset, profile_quality_presets, profile_hls_segment_types}
use headendarr.Prelude.Text.{Text, codes, text_key, or_text}
use headendarr.Profiles.Request.{Modifiers}
use headendarr.Profiles.Resolve.{Settings}
use headendarr.Profiles.Policy.{
  Policy, clean_key, can_scale, is_hls, apply_stream_profile_modifiers,
  generate_cso_policy_from_profile, is_hls_stream_profile, policy_of,
}

-- The video of a policy is made anew, or its container is HLS.
abbrev pub IsTranscoded : Policy → Type 0
IsTranscoded policy = (policy.transcode ≡ some true) × (clean_key policy.video_codec ≢ [])

abbrev pub IsHls : Policy → Type 0
IsHls policy = codes "hls" ≡ clean_key policy.container

can_scale-IsTranscoded : (policy : Policy) → can_scale policy ≡ true → IsTranscoded policy
unfolding can_scale
can_scale-IsTranscoded policy e = (ground (arith, e), (λ blank. ground (arith, e, blank)))

transcoded-can_scale : (policy : Policy) → IsTranscoded policy → can_scale policy ≡ true
unfolding can_scale
transcoded-can_scale policy t = ground (arith, t.0, t.1)

is_hls-IsHls :
    (policy : Policy)
    → ((is_hls policy ≡ true) × IsHls policy) ⊎ ((is_hls policy ≡ false) × (¬ (IsHls policy)))
unfolding is_hls
is_hls-IsHls policy = one_of-single (codes "hls") (clean_key policy.container)

-- The sizes and bit rates of a policy are those of another, or of a quality.
abbrev pub SameSizes : Policy → Policy → Type 0
SameSizes before after =
    (after.target_width ≡ before.target_width)
    × (after.target_video_bitrate ≡ before.target_video_bitrate)
    × (after.target_video_maxrate ≡ before.target_video_maxrate)
    × (after.target_video_bufsize ≡ before.target_video_bufsize)
    × (after.audio_bitrate ≡ before.audio_bitrate)

abbrev pub PresetSizes : QualityPreset → Policy → Type 0
PresetSizes preset after =
    (after.target_width ≡ some preset.target_width)
    × (after.target_video_bitrate ≡ some preset.target_video_bitrate)
    × (after.target_video_maxrate ≡ some preset.target_video_maxrate)
    × (after.target_video_bufsize ≡ some preset.target_video_bufsize)
    × (after.audio_bitrate ≡ some preset.audio_bitrate)

-- What a request may not change, and what it does change.
pub record Refines (before : Policy) (modifiers : Modifiers) (after : Policy) : Type 0 where
  pub same_mode : after.output_mode ≡ before.output_mode
  pub same_container : after.container ≡ before.container
  pub same_video : after.video_codec ≡ before.video_codec
  pub same_audio : after.audio_codec ≡ before.audio_codec
  pub same_subtitles : after.subtitle_mode ≡ before.subtitle_mode
  pub same_transcode : after.transcode ≡ before.transcode
  pub same_deinterlace : after.deinterlace ≡ before.deinterlace
  pub same_hwaccel : after.hwaccel ≡ before.hwaccel
  pub scaled : IsTranscoded before ⊎ SameSizes before after
  pub quality :
      (preset : QualityPreset)
      → IsTranscoded before
      → get (clean_key modifiers.qty) profile_quality_presets ≡ some preset
      → PresetSizes preset after
  pub segmented : IsHls before ⊎ (after.hls_segment_type ≡ before.hls_segment_type)
  pub segment :
      (segment_type : Text)
      → IsHls before
      → get (clean_key modifiers.seg) profile_hls_segment_types ≡ some segment_type
      → after.hls_segment_type ≡ some segment_type
  pub settled : apply_stream_profile_modifiers after modifiers ≡ after

apply_stream_profile_modifiers-twice :
    (policy : Policy) (modifiers : Modifiers)
    → apply_stream_profile_modifiers (apply_stream_profile_modifiers policy modifiers) modifiers
      ≡ apply_stream_profile_modifiers policy modifiers
unfolding apply_stream_profile_modifiers is_hls can_scale
apply_stream_profile_modifiers-twice policy modifiers = ground arith

scaled-SameSizes :
    (policy : Policy) (modifiers : Modifiers)
    → can_scale policy ≡ false
    → SameSizes policy (apply_stream_profile_modifiers policy modifiers)
unfolding apply_stream_profile_modifiers is_hls
scaled-SameSizes policy modifiers e = ground (arith, e)

scaled-PresetSizes :
    (policy : Policy) (modifiers : Modifiers) (preset : QualityPreset)
    → can_scale policy ≡ true
    → get (clean_key modifiers.qty) profile_quality_presets ≡ some preset
    → PresetSizes preset (apply_stream_profile_modifiers policy modifiers)
unfolding apply_stream_profile_modifiers is_hls
scaled-PresetSizes policy modifiers preset e found = rw (e, found) (ground arith)

segment-plain :
    (policy : Policy) (modifiers : Modifiers)
    → is_hls policy ≡ false
    → (apply_stream_profile_modifiers policy modifiers).hls_segment_type ≡ policy.hls_segment_type
unfolding apply_stream_profile_modifiers is_hls
segment-plain policy modifiers e = ground (arith, e)

segment-found :
    (policy : Policy) (modifiers : Modifiers) (segment_type : Text)
    → is_hls policy ≡ true
    → get (clean_key modifiers.seg) profile_hls_segment_types ≡ some segment_type
    → (apply_stream_profile_modifiers policy modifiers).hls_segment_type ≡ some segment_type
unfolding apply_stream_profile_modifiers is_hls
segment-found policy modifiers segment_type e found = rw found (ground (arith, e))

pub apply_stream_profile_modifiers-Refines :
    (policy : Policy) (modifiers : Modifiers)
    → Refines policy modifiers (apply_stream_profile_modifiers policy modifiers)
unfolding apply_stream_profile_modifiers is_hls
apply_stream_profile_modifiers-Refines policy modifiers = record {
  same_mode = ground arith;
  same_container = ground arith;
  same_video = ground arith;
  same_audio = ground arith;
  same_subtitles = ground arith;
  same_transcode = ground arith;
  same_deinterlace = ground arith;
  same_hwaccel = ground arith;
  scaled = elim (Bool-cases (can_scale policy)) [
    | inl e ↦ inl (can_scale-IsTranscoded policy e)
    | inr e ↦ inr (scaled-SameSizes policy modifiers e)
  ];
  quality = λ preset t found.
      scaled-PresetSizes policy modifiers preset (transcoded-can_scale policy t) found;
  segmented = elim (is_hls-IsHls policy) [
    | inl (e, hls) ↦ inl hls
    | inr (e, n) ↦ inr (segment-plain policy modifiers e)
  ];
  segment = λ segment_type hls found. elim (is_hls-IsHls policy) [
    | inl (e, _) ↦ segment-found policy modifiers segment_type e found
    | inr (e, n) ↦ absurd (n hls)
  ];
  settled = apply_stream_profile_modifiers-twice policy modifiers;
}

or_text-nothing : (s : Text) → or_text s [] ≡ s
or_text-nothing [] = refl
or_text-nothing (c ∷ s) = refl

container-apply :
    (policy : Policy) (modifiers : Modifiers)
    → (apply_stream_profile_modifiers policy modifiers).container ≡ policy.container
container-apply policy modifiers =
    (apply_stream_profile_modifiers-Refines policy modifiers).same_container

-- A request is told to be HLS exactly when the policy that is generated for it has the container
-- HLS.
pub is_hls-generate_cso_policy :
    (settings : Settings) (profile : Option Text)
    → is_hls (generate_cso_policy_from_profile settings profile) ≡ is_hls_stream_profile profile
unfolding is_hls is_hls_stream_profile generate_cso_policy_from_profile clean_key policy_of
is_hls-generate_cso_policy settings profile = rw (container-apply, or_text-nothing)
