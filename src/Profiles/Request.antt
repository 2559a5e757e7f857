-- ===== src/Profiles/Request.antt =====
-- backend/stream_profiles.py: the syntax of a profile request, `name[qty=720p,seg=fmp4]`. The dict of
-- modifiers holds at most the keys `qty` and `seg`, so it is a record of two fields that may be missing.
-- A digit is one of ASCII: `isdigit` accepts others, but no preset has one, so the modifier is dropped.
pub mod Names
pub mod Blocks
pub mod RoundTrip
mod Tests
use headendarr.Prelude.{
  List, [], ◌∷◌, ◌++◌, Bool, true, false, not, ◌&&◌, ◌||◌, Option, none, some, leb, ◌==◌,
  if◌then◌else◌,
}
use headendarr.Prelude.Dict.{is_empty, get}
use headendarr.Prelude.Text.{
  text_key, Text, codes, strip, lower, or_missing, split, partition, text_discrete,
}
use headendarr.Profiles.Table.{profile_quality_presets, profile_hls_segment_types}

pub record Modifiers : Type 0 where
  pub qty : Option Text
  pub seg : Option Text

abbrev pub no_modifiers : Modifiers
no_modifiers = record { qty = none; seg = none }

pub record ProfileRequest : Type 0 where
  pub raw : Text
  pub profile_id : Text
  pub modifiers : Modifiers

-- `value in PROFILE_QUALITY_PRESETS`, `value in PROFILE_HLS_SEGMENT_TYPES`
unfoldable pub is_quality : Text → Bool
is_quality value = elim (get value profile_quality_presets) [ none ↦ false | some _ ↦ true ]

unfoldable pub is_segment_type : Text → Bool
is_segment_type value = elim (get value profile_hls_segment_types) [ none ↦ false | some _ ↦ true ]

-- `"".join`, of what is appended to `parts`, with "," between
unfoldable pub join_parts : Text → Text → Text
join_parts [] seg = seg
join_parts (c ∷ qty) [] = c ∷ qty
join_parts (c ∷ qty) (d ∷ seg) = (c ∷ qty) ++ b',' ∷ d ∷ seg

unfoldable pub qty_part : Option Text → Text
qty_part none = []
qty_part (some value) = if is_quality value then codes "qty=" ++ value else []

unfoldable pub seg_part : Option Text → Text
seg_part none = []
seg_part (some value) = if is_segment_type value then codes "seg=" ++ value else []

unfoldable pub in_brackets : Text → Text → Text
in_brackets name [] = name
in_brackets name (c ∷ parts) = name ++ (b'[' ∷ (c ∷ parts) ++ b']' ∷ [])

unfoldable pub format_stream_profile_request : Option Text → Modifiers → Text
format_stream_profile_request profile_id modifiers =
    let resolved_profile = lower (strip (or_missing profile_id [])) in
    if is_empty resolved_profile
    then []
    else in_brackets resolved_profile (join_parts (qty_part modifiers.qty) (seg_part modifiers.seg))

unfoldable pub all_digits : Text → Bool
all_digits [] = true
all_digits (c ∷ s) = leb b'0' c && leb c b'9' && all_digits s

-- `modifier_value = f"{modifier_value}p"` for a value of digits, which is not empty
unfoldable pub quality_value : Text → Text
quality_value value = if all_digits value then value ++ b'p' ∷ [] else value

-- The branches on a key and a value.
unfoldable pub with_modifier : Modifiers → Text → Text → Modifiers
with_modifier m key value =
    if is_empty key || is_empty value then m else elim (text_discrete key (codes "qty")) [
      | yes _ ↦
          if is_quality (quality_value value)
          then record m { qty = some (quality_value value) }
          else m
      | no _ ↦ elim (text_discrete key (codes "seg")) [
        | yes _ ↦ if is_segment_type value then record m { seg = some value } else m
        | no _ ↦ m
      ]
    ]

-- One turn of the loop over the pairs.
unfoldable pub add_pair : Modifiers → Text → Modifiers
add_pair m pair = elim (partition b'=' pair).1 [
  | none ↦ m
  | some value ↦ with_modifier m (lower (strip (partition b'=' pair).0)) (lower (strip value))
]

unfoldable pub add_pairs : Modifiers → List Text → Modifiers
add_pairs m [] = m
add_pairs m (pair ∷ pairs) = add_pairs (add_pair m pair) pairs

-- The block of modifiers, if it has any.
unfoldable pub modifiers_of : Text → Modifiers
modifiers_of block =
    let modifier_block = strip block in
    if is_empty modifier_block
    then no_modifiers
    else add_pairs no_modifiers (split b',' modifier_block)

-- `(?:\[(?P<mods>.+)\])?$` on what follows the first "[": all but a last "]", if there is something
-- before it and no line break.
unfoldable pub bracketed : Text → Option Text
bracketed [] = none
bracketed (c ∷ []) = none
bracketed (c ∷ d ∷ s) =
    let rest = bracketed (d ∷ s) in
    elim s [
      | [] ↦ if d == b']' && not (c == 10) then some (c ∷ []) else none
      | _ ∷ _ ↦ elim rest [ none ↦ none | some mods ↦ if c == 10 then none else some (c ∷ mods) ]
    ]

-- `PROFILE_REQUEST_MODIFIER_RE.match`: the name, which ends at the first "[" and is not empty, and the
-- modifiers, none where there is no bracket. The text has no white space at its end.
unfoldable pub match_request : Text → Option (Text × Option Text)
match_request text =
    let (name, after) = partition b'[' text in
    if is_empty name then none else elim after [
      | none ↦ some (name, none)
      | some rest ↦ elim (bracketed rest) [ none ↦ none | some mods ↦ some (name, some mods) ]
    ]

unfoldable pub request_of : Text → Modifiers → ProfileRequest
request_of profile_id modifiers = record {
  raw = format_stream_profile_request (some profile_id) modifiers;
  profile_id = profile_id;
  modifiers = modifiers;
}

unfoldable pub parse_stream_profile_request : Option Text → ProfileRequest
parse_stream_profile_request profile =
    let raw_profile = lower (strip (or_missing profile [])) in
    if is_empty raw_profile
    then record { raw = []; profile_id = []; modifiers = no_modifiers }
    else elim (match_request raw_profile) [
      | none ↦ record { raw = raw_profile; profile_id = raw_profile; modifiers = no_modifiers }
      | some found ↦ request_of (lower (strip found.0)) (modifiers_of (or_missing found.1 []))
    ]
