-- ===== src/Cso/Policy/Copies.antt =====
-- When a viewer of a VOD channel is given what the ingest has made.
use headendarr.Prelude.{
  ◌≡◌, refl, subst, ◌⊎◌, inl, inr, [], ◌∷◌, Bool, true, false, not, Option, some, if◌then◌else◌,
  arith, Bool-cases, if-Holds, ◌&&◌,
}
use headendarr.Prelude.Text.{
  Text, codes, is_space, strip, lower, one_of, or_text, or_missing, text_discrete,
}
use headendarr.Prelude.Text.Strip.{strip-lower, strip-strip, lower-lower}
use headendarr.Profiles.Request.Names.{or_text-nothing}
use headendarr.Profiles.Resolve.{Settings}
use headendarr.Profiles.Policy.{Policy, clean_key, truthy}
use headendarr.Cso.Policy.{
  vod_channel_ts_safe_video_codecs, ingest_video_codec, generate_vod_channel_ingest_policy,
  reshapes, reuse_codecs, resolve_vod_channel_output_policy,
}

clean_key-some : (s : Text) → clean_key (some s) ≡ lower (strip s)
unfolding clean_key
clean_key-some s = rw (or_text-nothing s)

clean-clean : (s : Text) → lower (strip (lower (strip s))) ≡ lower (strip s)
clean-clean s = rw (strip-lower (strip s), strip-strip s, lower-lower (strip s))

clean_key-clean_key : (value : Option Text) → clean_key (some (clean_key value)) ≡ clean_key value
unfolding clean_key
clean_key-clean_key value =
    rw (or_text-nothing (lower (strip (or_missing value []))), clean-clean (or_missing value []))

one_of_first : (y z : Text) → one_of ([] ∷ y ∷ z ∷ []) [] ≡ true
unfolding one_of
one_of_first y z = ground arith

one_of_second : (x y z : Text) → one_of (x ∷ y ∷ z ∷ []) y ≡ true
unfolding one_of
one_of_second x y z = ground arith

one_of_third : (x y z : Text) → one_of (x ∷ y ∷ z ∷ []) z ≡ true
unfolding one_of
one_of_third x y z = ground arith

one_of_self : (s t : Text) → one_of (s ∷ []) t ≡ true → s ≡ t
unfolding one_of
one_of_self s t h = ground arith

safe-cases :
    (v : Text)
    → one_of vod_channel_ts_safe_video_codecs v ≡ true
    → (codes "h264" ≡ v) ⊎ (codes "h265" ≡ v) ⊎ (codes "hevc" ≡ v) ⊎ (codes "mpeg2video" ≡ v)
unfolding one_of
safe-cases v h = ground arith

-- The codec that the output reads of the ingest.
abbrev MadeAs : Text → Type 0
MadeAs v =
    or_text (clean_key (some (ingest_video_codec (or_text v (codes "h264"))))) (codes "h264") ≡ v

made_h264 : MadeAs (codes "h264")
unfolding clean_key ingest_video_codec strip is_space lower one_of text_discrete
made_h264 = refl

made_h265 : MadeAs (codes "h265")
unfolding clean_key ingest_video_codec strip is_space lower one_of text_discrete
made_h265 = refl

made_hevc : MadeAs (codes "hevc")
unfolding clean_key ingest_video_codec strip is_space lower one_of text_discrete
made_hevc = refl

made_mpeg2 : MadeAs (codes "mpeg2video")
unfolding clean_key ingest_video_codec strip is_space lower one_of text_discrete
made_mpeg2 = refl

made_as : (v : Text) → one_of vod_channel_ts_safe_video_codecs v ≡ true → MadeAs v
made_as v h = elim (safe-cases v h) [
  | inl e ↦ subst MadeAs e made_h264
  | inr (inl e) ↦ subst MadeAs e made_h265
  | inr (inr (inl e)) ↦ subst MadeAs e made_hevc
  | inr (inr (inr e)) ↦ subst MadeAs e made_mpeg2
]

abbrev made_audio : Text → Text
made_audio a =
    or_text
      (clean_key (
        some (
          if one_of (codes "copy" ∷ []) (or_text a (codes "aac"))
          then codes "aac"
          else or_text a (codes "aac"))))
      (codes "aac")

audio_fits :
    (a : Text) → clean_key (some a) ≡ a → one_of ([] ∷ codes "copy" ∷ made_audio a ∷ []) a ≡ true
audio_fits [] clean = one_of_first (codes "copy") (made_audio [])
audio_fits (c ∷ s) clean = elim (Bool-cases (one_of (codes "copy" ∷ []) (c ∷ s))) [
  | inl e ↦
      subst (λ a. one_of ([] ∷ codes "copy" ∷ made_audio (c ∷ s) ∷ []) a ≡ true) (one_of_self _ _ e)
        (one_of_second [] (codes "copy") (made_audio (c ∷ s)))
  | inr e ↦ rw (e, clean) (one_of_third [] (codes "copy") (c ∷ s))
]

-- What a viewer gets that is given the ingest's codecs.
pub record Copies (policy output : Policy) : Type 0 where
  pub copied_video : output.video_codec ≡ some (codes "copy")
  pub copied_audio : output.audio_codec ≡ some (codes "copy")
  pub remuxed : output.output_mode ≡ some (codes "force_remux")
  pub asked_container : output.container ≡ policy.container

reuse_codecs-Copies :
    (p : Policy) (video audio : Text)
    → one_of ([] ∷ codes "copy" ∷ video ∷ []) (clean_key p.video_codec) ≡ true
    → one_of ([] ∷ codes "copy" ∷ audio ∷ []) (clean_key p.audio_codec) ≡ true
    → Copies p (reuse_codecs p video audio)
unfolding reuse_codecs
reuse_codecs-Copies p video audio v a =
    rw (v, a)
      (record { copied_video = refl; copied_audio = refl; remuxed = refl; asked_container = refl })

-- The policy of the output when its codecs are looked at.
abbrev looked_at : Bool → Policy → Policy
looked_at deinterlaced policy =
    let dropped = record policy { subtitle_mode = some (codes "drop") } in
    if deinterlaced then record dropped { deinterlace = some false } else dropped

reshapes-looked_at : (b : Bool) (policy : Policy) → reshapes (looked_at b policy) ≡ reshapes policy
unfolding reshapes
reshapes-looked_at true policy = refl
reshapes-looked_at false policy = refl

Copies-reuse_codecs :
    (b : Bool) (policy : Policy) (video audio : Text)
    → one_of ([] ∷ codes "copy" ∷ video ∷ []) (clean_key policy.video_codec) ≡ true
    → one_of ([] ∷ codes "copy" ∷ audio ∷ []) (clean_key policy.audio_codec) ≡ true
    → Copies policy (reuse_codecs (looked_at b policy) video audio)
Copies-reuse_codecs true policy video audio v a =
    let c = reuse_codecs-Copies (looked_at true policy) video audio v a in
    record {
      copied_video = c.copied_video;
      copied_audio = c.copied_audio;
      remuxed = c.remuxed;
      asked_container = c.asked_container;
    }
Copies-reuse_codecs false policy video audio v a =
    let c = reuse_codecs-Copies (looked_at false policy) video audio v a in
    record {
      copied_video = c.copied_video;
      copied_audio = c.copied_audio;
      remuxed = c.remuxed;
      asked_container = c.asked_container;
    }

-- The ingest of a VOD channel is HLS, so the branch of an MPEG-TS ingest is not taken.
hls_not_mpegts :
    one_of (codes "mpegts" ∷ []) (or_text (clean_key (some (codes "hls"))) (codes "mpegts")) ≡ false
unfolding clean_key strip is_space lower one_of text_discrete
hls_not_mpegts = refl

-- A viewer of a VOD channel, whose ingest was made from the same policy, is given the codecs of
-- the ingest without transcoding, in the container asked for: where that is MPEG-TS, Matroska,
-- MP4 or HLS, no size or bit rate is asked for, and the video codec is one that the ingest keeps.
-- Any audio codec is copied.
pub resolve_vod_channel_output_policy-Copies :
    (settings : Settings) (policy : Policy)
    → one_of
        (codes "mpegts" ∷ codes "matroska" ∷ codes "mp4" ∷ codes "hls" ∷ [])
        (or_text (clean_key policy.container) (codes "mpegts"))
      ≡ true
    → reshapes policy ≡ false
    → one_of vod_channel_ts_safe_video_codecs (clean_key policy.video_codec) ≡ true
    → Copies policy (
        resolve_vod_channel_output_policy
          (some policy)
          (generate_vod_channel_ingest_policy settings (some policy)))
unfolding resolve_vod_channel_output_policy generate_vod_channel_ingest_policy
resolve_vod_channel_output_policy-Copies settings policy h r v =
    let b = truthy policy.deinterlace in
    if-Holds (Copies policy)
      (not (one_of _ (or_text (clean_key policy.container) (codes "mpegts")))) _ _ (λ e. cc)
      (λ _.
        if-Holds (Copies policy) (reshapes (looked_at b policy)) _ _
          (λ e. let same = reshapes-looked_at b policy in cc)
          (λ _.
            if-Holds (Copies policy) (one_of _ _ && one_of _ _ && one_of _ _) _ _
              (λ e. ground (arith, hls_not_mpegts))
              (λ _.
                Copies-reuse_codecs b policy _ _
                  (rw (made_as (clean_key policy.video_codec) v)
                    (one_of_third [] (codes "copy") (clean_key policy.video_codec)))
                  (audio_fits (clean_key policy.audio_codec)
                    (clean_key-clean_key policy.audio_codec)))))
