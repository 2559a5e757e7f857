-- ===== src/Cso/Playlist.antt =====
-- backend/cso/hls.py: the variants of an HLS playlist, sorted by the bandwidth that is matched.
-- `urljoin` is a parameter. The digits that the patterns match are ASCII.
pub mod Ascending
mod Tests
use headendarr.Prelude.{
  ℕ, ◌+◌, ◌-◌, ◌*◌, List, [], ◌∷◌, Bool, true, false, not, ◌&&◌, ◌||◌, Option, none, some, length,
  leb, ◌==◌, keep, map, any_of, if◌then◌else◌,
}
use headendarr.Prelude.Dict.{is_empty, or_else}
use headendarr.Prelude.Text.{Text, codes, strip, starts_with}

pub record HlsVariant : Type 0 where
  pub bandwidth : ℕ
  pub width : ℕ
  pub height : ℕ
  pub program_index : ℕ
  pub variant_url : Text
  pub is_master : Bool

-- The characters at which `str.splitlines` splits; the empty lines between two of them are dropped.
abbrev ends_line : ℕ → Bool
ends_line c =
    any_of (λ other. other == c) (10 ∷ 11 ∷ 12 ∷ 13 ∷ 28 ∷ 29 ∷ 30 ∷ 133 ∷ 8232 ∷ 8233 ∷ [])

unfoldable pub split_lines : Text → Text × List Text
split_lines [] = ([], [])
split_lines (c ∷ text) =
    let rest = split_lines text in
    if ends_line c then ([], rest.0 ∷ rest.1) else (c ∷ rest.0, rest.1)

unfoldable pub lines_of : Text → List Text
lines_of payload =
    let lines = split_lines payload in
    keep (λ line. not (is_empty line)) (map strip (lines.0 ∷ lines.1))

abbrev is_digit : ℕ → Bool
is_digit c = leb b'0' c && leb c b'9'

-- `\d+` at the start of a text: the number so far, and what follows.
unfoldable pub digits : Option ℕ → Text → Option ℕ × Text
digits acc [] = (acc, [])
digits acc (c ∷ text) =
    let rest = digits (some (or_else 0 acc * 10 + (c - b'0'))) text in
    if is_digit c then rest else (acc, c ∷ text)

unfoldable pub after : Text → Text → Option Text
after [] text = some text
after (p ∷ prefix) [] = none
after (p ∷ prefix) (c ∷ text) = if p == c then after prefix text else none

abbrev bandwidth_at : Text → Option ℕ
bandwidth_at text = elim (after (codes "BANDWIDTH=") text) [
  | none ↦ none
  | some rest ↦ (digits none rest).0
]

-- `HLS_BANDWIDTH_RE.search`: the first place where the pattern matches.
unfoldable pub bandwidth_of : Text → Option ℕ
bandwidth_of [] = none
bandwidth_of (c ∷ text) =
    let rest = bandwidth_of text in elim (bandwidth_at (c ∷ text)) [ none ↦ rest | some n ↦ some n ]

abbrev size_with : ℕ → Text → Option (ℕ × ℕ)
size_with width rest = elim (after (codes "x") rest) [
  | none ↦ none
  | some tail ↦ elim (digits none tail).0 [ none ↦ none | some height ↦ some (width, height) ]
]

abbrev resolution_at : Text → Option (ℕ × ℕ)
resolution_at text = elim (after (codes "RESOLUTION=") text) [
  | none ↦ none
  | some rest ↦ elim (digits none rest).0 [
    | none ↦ none
    | some width ↦ size_with width (digits none rest).1
  ]
]

unfoldable pub resolution_of : Text → Option (ℕ × ℕ)
resolution_of [] = none
resolution_of (c ∷ text) =
    let rest = resolution_of text in
    elim (resolution_at (c ∷ text)) [ none ↦ rest | some n ↦ some n ]

abbrev is_media_line : Text → Bool
is_media_line line =
    starts_with (codes "#EXTINF") line
    || starts_with (codes "#EXT-X-TARGETDURATION") line
    || starts_with (codes "#EXT-X-MEDIA-SEQUENCE") line

-- The bandwidth and the resolution that a line announces for the next URL.
abbrev pub Pending : Type 0
Pending = Option (ℕ × (ℕ × ℕ))

abbrev pending_of : Text → Pending
pending_of line = some (or_else 0 (bandwidth_of line), or_else (0, 0) (resolution_of line))

module _ (urljoin : Text → Text → Text) where
  -- The loop over the lines, which counts the variants.
  unfoldable pub master_variants : Text → ℕ → Pending → List Text → List HlsVariant
  master_variants base_url count pending [] = []
  master_variants base_url count pending (line ∷ lines) =
      let announced = master_variants base_url count (pending_of line) lines in
      let skipped = master_variants base_url count pending lines in
      let rest = master_variants base_url (count + 1) none lines in
      if starts_with (codes "#EXT-X-STREAM-INF:") line
      then announced
      else if starts_with (codes "#") line
      then skipped
      else elim pending [
        | none ↦ skipped
        | some p ↦
            record {
              bandwidth = p.0;
              width = p.1.0;
              height = p.1.1;
              program_index = count;
              variant_url = urljoin base_url line;
              is_master = true;
            }
            ∷ rest
      ]

unfoldable pub insert_variant : HlsVariant → List HlsVariant → List HlsVariant
insert_variant v [] = v ∷ []
insert_variant v (w ∷ variants) =
    let rest = insert_variant v variants in
    if leb v.bandwidth w.bandwidth then v ∷ w ∷ variants else w ∷ rest

-- `variants.sort` by bandwidth, which keeps the order of equal ones.
unfoldable pub sort_variants : List HlsVariant → List HlsVariant
sort_variants [] = []
sort_variants (v ∷ variants) = insert_variant v (sort_variants variants)

abbrev media_variant : Text → HlsVariant
media_variant base_url = record {
  bandwidth = 0;
  width = 0;
  height = 0;
  program_index = 0;
  variant_url = base_url;
  is_master = false;
}

-- A line that announces a variant is skipped before the test for a media playlist, which it fails.
unfoldable pub parse_hls_playlist_variants : (Text → Text → Text) → Text → Text → List HlsVariant
parse_hls_playlist_variants urljoin base_url payload =
    let lines = lines_of payload in
    let variants = master_variants urljoin base_url 0 none lines in
    if not (is_empty variants)
    then sort_variants variants
    else if any_of is_media_line lines
    then media_variant base_url ∷ []
    else []
