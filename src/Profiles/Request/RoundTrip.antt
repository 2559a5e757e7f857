-- ===== src/Profiles/Request/RoundTrip.antt =====
-- Writing a profile request and reading it back.
use headendarr.Prelude.{◌≡◌, refl, ap, [], ◌∷◌, ◌++◌, true, false, Option, none, some, inl, inr}
use headendarr.Prelude.Dict.{Holds, is_empty}
use headendarr.Prelude.Text.{Text, strip}
use headendarr.Profiles.Request.{
  no_modifiers, is_quality, is_segment_type, join_parts, qty_part, seg_part, in_brackets, bracketed,
  modifiers_of, match_request, request_of, format_stream_profile_request,
  parse_stream_profile_request,
}
use headendarr.Profiles.Request.Names.{
  IsName, or_text-nothing, strip-name, strip-name_append, lower-name_append, partition-append,
  partition-plain, name-not_empty, append-not_empty,
}
use headendarr.Profiles.Request.Blocks.{Reads, modifier_cases, tail_of, in_order}

match-name : (name : Text) → IsName name → match_request name ≡ some (name, none)
unfolding match_request
match-name name n =
    let read = partition-plain b'[' name n.plain in
    rw (read, ap (λ p. p.0) read, name-not_empty name n)

match-block :
    (name block : Text)
    → IsName name
    → bracketed (block ++ b']' ∷ []) ≡ some block
    → match_request (name ++ tail_of block) ≡ some (name, some block)
unfolding match_request
match-block name block n h =
    let read = partition-append b'[' name (block ++ b']' ∷ []) n.plain in
    rw (read, name-not_empty name n, h) (ap (λ p. some (p.0, some block)) read)

modifiers-none : modifiers_of [] ≡ no_modifiers
unfolding modifiers_of strip
modifiers-none = refl

parse-name :
    (name : Text)
    → IsName name
    → parse_stream_profile_request (some name) ≡ request_of name no_modifiers
unfolding parse_stream_profile_request
parse-name name n = rw (
  or_text-nothing name,
  strip-name name n,
  n.small,
  name-not_empty name n,
  match-name name n,
  strip-name name n,
  n.small,
  modifiers-none,
)

parse-block :
    (name block : Text) (qty seg : Option Text)
    → IsName name
    → Reads qty seg block
    → parse_stream_profile_request (some (name ++ tail_of block))
      ≡ request_of name (in_order qty seg)
unfolding parse_stream_profile_request
parse-block name block qty seg n r = rw (
  or_text-nothing (name ++ tail_of block),
  strip-name_append name (tail_of block) n r.tail_ends refl,
  lower-name_append name (tail_of block) n r.tail_small,
  append-not_empty name (tail_of block) refl,
  match-block name block n r.bracket,
  strip-name name n,
  n.small,
  or_text-nothing block,
  r.back,
)

in_brackets-block :
    (name block : Text) → is_empty block ≡ false → in_brackets name block ≡ name ++ tail_of block
unfolding in_brackets
in_brackets-block name [] h = cc
in_brackets-block name (c ∷ block) h = refl

format-name :
    (name : Text) (qty seg : Option Text)
    → IsName name
    → format_stream_profile_request (some name) (in_order qty seg)
      ≡ in_brackets name (join_parts (qty_part qty) (seg_part seg))
unfolding format_stream_profile_request
format-name name qty seg n =
    rw (or_text-nothing name, strip-name name n, n.small, name-not_empty name n)

-- Nothing is put behind a name without modifiers.
format-plain :
    (name : Text) → IsName name → format_stream_profile_request (some name) no_modifiers ≡ name
unfolding in_brackets join_parts qty_part seg_part
format-plain name n = format-name name none none n

-- A profile request that is written from a name and modifiers is read back as them, and its
-- normal form is what was written. The name is in small letters, not empty, without white space
-- at its ends and without "["; the modifiers, if any, are a known quality and a known segment
-- type.
pub parse-format :
    (name : Text) (qty seg : Option Text)
    → IsName name
    → Holds (λ value. is_quality value ≡ true) qty
    → Holds (λ value. is_segment_type value ≡ true) seg
    → let written = format_stream_profile_request (some name) record { qty = qty; seg = seg } in
      parse_stream_profile_request (some written)
      ≡ record { raw = written; profile_id = name; modifiers = record { qty = qty; seg = seg } }
unfolding request_of
parse-format name qty seg n q s = elim (modifier_cases qty seg q s) [
  | inl (no_qty, no_seg) ↦
      rw (no_qty, no_seg, format-plain name n, parse-name name n, format-plain name n)
  | inr (block, r) ↦ rw (
    format-name name qty seg n,
    r.joined,
    in_brackets-block name block r.some_block,
    parse-block name block qty seg n r,
    format-name name qty seg n,
    r.joined,
    in_brackets-block name block r.some_block,
  )
]
