-- ===== src/Profiles/Request/Blocks.antt =====
-- The blocks of modifiers that `format_stream_profile_request` writes.
use headendarr.Prelude.{
  ◌≡◌, refl, [], ◌∷◌, ◌++◌, ◌⊎◌, inl, inr, subst, true, false, Option, none, some, arith,
}
use headendarr.Prelude.Dict.{get, is_empty, Holds}
use headendarr.Prelude.Text.{
  Text, codes, text_discrete, is_space, rstrip, strip, lower, split, partition,
}
use headendarr.Profiles.Request.{
  Modifiers, is_quality, is_segment_type, join_parts, qty_part, seg_part, all_digits, quality_value,
  with_modifier, add_pair, add_pairs, modifiers_of, bracketed,
}

abbrev pub in_order : Option Text → Option Text → Modifiers
in_order qty seg = record { qty = qty; seg = seg }

abbrev pub tail_of : Text → Text
tail_of block = b'[' ∷ block ++ b']' ∷ []

pub record Reads (qty seg : Option Text) (block : Text) : Type 0 where
  pub joined : join_parts (qty_part qty) (seg_part seg) ≡ block
  pub some_block : is_empty block ≡ false
  pub bracket : bracketed (block ++ b']' ∷ []) ≡ some block
  pub tail_ends : rstrip (tail_of block) ≡ tail_of block
  pub tail_small : lower (tail_of block) ≡ tail_of block
  pub back : modifiers_of block ≡ in_order qty seg

case_none_ts : Reads none (some (codes "ts")) (codes "seg=ts")
unfolding join_parts qty_part seg_part is_quality is_segment_type get text_discrete bracketed rstrip
    is_space lower modifiers_of strip split add_pairs add_pair partition with_modifier quality_value
    all_digits
case_none_ts = record {
  joined = refl;
  some_block = refl;
  bracket = refl;
  tail_ends = refl;
  tail_small = refl;
  back = refl;
}

case_none_fmp4 : Reads none (some (codes "fmp4")) (codes "seg=fmp4")
unfolding join_parts qty_part seg_part is_quality is_segment_type get text_discrete bracketed rstrip
    is_space lower modifiers_of strip split add_pairs add_pair partition with_modifier quality_value
    all_digits
case_none_fmp4 = record {
  joined = refl;
  some_block = refl;
  bracket = refl;
  tail_ends = refl;
  tail_small = refl;
  back = refl;
}

case_1080p_none : Reads (some (codes "1080p")) none (codes "qty=1080p")
unfolding join_parts qty_part seg_part is_quality is_segment_type get text_discrete bracketed rstrip
    is_space lower modifiers_of strip split add_pairs add_pair partition with_modifier quality_value
    all_digits
case_1080p_none = record {
  joined = refl;
  some_block = refl;
  bracket = refl;
  tail_ends = refl;
  tail_small = refl;
  back = refl;
}

case_1080p_ts : Reads (some (codes "1080p")) (some (codes "ts")) (codes "qty=1080p,seg=ts")
unfolding join_parts qty_part seg_part is_quality is_segment_type get text_discrete bracketed rstrip
    is_space lower modifiers_of strip split add_pairs add_pair partition with_modifier quality_value
    all_digits
case_1080p_ts = record {
  joined = refl;
  some_block = refl;
  bracket = refl;
  tail_ends = refl;
  tail_small = refl;
  back = refl;
}

case_1080p_fmp4 : Reads (some (codes "1080p")) (some (codes "fmp4")) (codes "qty=1080p,seg=fmp4")
unfolding join_parts qty_part seg_part is_quality is_segment_type get text_discrete bracketed rstrip
    is_space lower modifiers_of strip split add_pairs add_pair partition with_modifier quality_value
    all_digits
case_1080p_fmp4 = record {
  joined = refl;
  some_block = refl;
  bracket = refl;
  tail_ends = refl;
  tail_small = refl;
  back = refl;
}

case_720p_none : Reads (some (codes "720p")) none (codes "qty=720p")
unfolding join_parts qty_part seg_part is_quality is_segment_type get text_discrete bracketed rstrip
    is_space lower modifiers_of strip split add_pairs add_pair partition with_modifier quality_value
    all_digits
case_720p_none = record {
  joined = refl;
  some_block = refl;
  bracket = refl;
  tail_ends = refl;
  tail_small = refl;
  back = refl;
}

case_720p_ts : Reads (some (codes "720p")) (some (codes "ts")) (codes "qty=720p,seg=ts")
unfolding join_parts qty_part seg_part is_quality is_segment_type get text_discrete bracketed rstrip
    is_space lower modifiers_of strip split add_pairs add_pair partition with_modifier quality_value
    all_digits
case_720p_ts = record {
  joined = refl;
  some_block = refl;
  bracket = refl;
  tail_ends = refl;
  tail_small = refl;
  back = refl;
}

case_720p_fmp4 : Reads (some (codes "720p")) (some (codes "fmp4")) (codes "qty=720p,seg=fmp4")
unfolding join_parts qty_part seg_part is_quality is_segment_type get text_discrete bracketed rstrip
    is_space lower modifiers_of strip split add_pairs add_pair partition with_modifier quality_value
    all_digits
case_720p_fmp4 = record {
  joined = refl;
  some_block = refl;
  bracket = refl;
  tail_ends = refl;
  tail_small = refl;
  back = refl;
}

case_480p_none : Reads (some (codes "480p")) none (codes "qty=480p")
unfolding join_parts qty_part seg_part is_quality is_segment_type get text_discrete bracketed rstrip
    is_space lower modifiers_of strip split add_pairs add_pair partition with_modifier quality_value
    all_digits
case_480p_none = record {
  joined = refl;
  some_block = refl;
  bracket = refl;
  tail_ends = refl;
  tail_small = refl;
  back = refl;
}

case_480p_ts : Reads (some (codes "480p")) (some (codes "ts")) (codes "qty=480p,seg=ts")
unfolding join_parts qty_part seg_part is_quality is_segment_type get text_discrete bracketed rstrip
    is_space lower modifiers_of strip split add_pairs add_pair partition with_modifier quality_value
    all_digits
case_480p_ts = record {
  joined = refl;
  some_block = refl;
  bracket = refl;
  tail_ends = refl;
  tail_small = refl;
  back = refl;
}

case_480p_fmp4 : Reads (some (codes "480p")) (some (codes "fmp4")) (codes "qty=480p,seg=fmp4")
unfolding join_parts qty_part seg_part is_quality is_segment_type get text_discrete bracketed rstrip
    is_space lower modifiers_of strip split add_pairs add_pair partition with_modifier quality_value
    all_digits
case_480p_fmp4 = record {
  joined = refl;
  some_block = refl;
  bracket = refl;
  tail_ends = refl;
  tail_small = refl;
  back = refl;
}

quality-cases :
    (value : Text)
    → is_quality value ≡ true
    → (codes "1080p" ≡ value) ⊎ (codes "720p" ≡ value) ⊎ (codes "480p" ≡ value)
unfolding is_quality get
quality-cases value h = ground arith

segment-cases :
    (value : Text) → is_segment_type value ≡ true → (codes "ts" ≡ value) ⊎ (codes "fmp4" ≡ value)
unfolding is_segment_type get
segment-cases value h = ground arith

-- No modifier at all, or a block that is read back.
abbrev pub Covered : Option Text → Option Text → Type 0
Covered qty seg = ((qty ≡ none) × (seg ≡ none)) ⊎ ((block : Text) × Reads qty seg block)

with_no_quality :
    (seg : Option Text) → Holds (λ value. is_segment_type value ≡ true) seg → Covered none seg
with_no_quality none h = inl (refl, refl)
with_no_quality (some value) h = elim (segment-cases value h) [
  | inl e ↦ subst (λ v. Covered none (some v)) e (inr (_, case_none_ts))
  | inr e ↦ subst (λ v. Covered none (some v)) e (inr (_, case_none_fmp4))
]

with_1080p :
    (seg : Option Text)
    → Holds (λ value. is_segment_type value ≡ true) seg
    → Covered (some (codes "1080p")) seg
with_1080p none h = inr (_, case_1080p_none)
with_1080p (some value) h = elim (segment-cases value h) [
  | inl e ↦ subst (λ v. Covered (some (codes "1080p")) (some v)) e (inr (_, case_1080p_ts))
  | inr e ↦ subst (λ v. Covered (some (codes "1080p")) (some v)) e (inr (_, case_1080p_fmp4))
]

with_720p :
    (seg : Option Text)
    → Holds (λ value. is_segment_type value ≡ true) seg
    → Covered (some (codes "720p")) seg
with_720p none h = inr (_, case_720p_none)
with_720p (some value) h = elim (segment-cases value h) [
  | inl e ↦ subst (λ v. Covered (some (codes "720p")) (some v)) e (inr (_, case_720p_ts))
  | inr e ↦ subst (λ v. Covered (some (codes "720p")) (some v)) e (inr (_, case_720p_fmp4))
]

with_480p :
    (seg : Option Text)
    → Holds (λ value. is_segment_type value ≡ true) seg
    → Covered (some (codes "480p")) seg
with_480p none h = inr (_, case_480p_none)
with_480p (some value) h = elim (segment-cases value h) [
  | inl e ↦ subst (λ v. Covered (some (codes "480p")) (some v)) e (inr (_, case_480p_ts))
  | inr e ↦ subst (λ v. Covered (some (codes "480p")) (some v)) e (inr (_, case_480p_fmp4))
]

pub modifier_cases :
    (qty seg : Option Text)
    → Holds (λ value. is_quality value ≡ true) qty
    → Holds (λ value. is_segment_type value ≡ true) seg
    → Covered qty seg
modifier_cases none seg h k = with_no_quality seg k
modifier_cases (some value) seg h k = elim (quality-cases value h) [
  | inl e ↦ subst (λ v. Covered (some v) seg) e (with_1080p seg k)
  | inr (inl e) ↦ subst (λ v. Covered (some v) seg) e (with_720p seg k)
  | inr (inr e) ↦ subst (λ v. Covered (some v) seg) e (with_480p seg k)
]
