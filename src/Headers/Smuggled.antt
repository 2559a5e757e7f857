-- ===== src/Headers/Smuggled.antt =====
-- A dash before the name of a header that is not allowed.
use headendarr.Prelude.{
  ◌≡◌, refl, [], ◌∷◌, Bool, true, false, some, length, ltb, All, All-map, ◌||◌, not,
}
use headendarr.Prelude.Dict.{is_empty, set}
use headendarr.Prelude.Text.{Text, strip, lower, one_of}
use headendarr.Headers.{
  disallowed_lower_headers, canonical_header_name, sanitise_headers, sanitise_into, is_header_name,
  is_name_char, split_dash,
}

-- The header is refused under its own name, and accepted with the dash, which its canonical name loses.
abbrev pub Smuggles : Text → Text → Type 0
Smuggles v name =
    (sanitise_headers ((name, some v) ∷ []) false ≡ some [])
    × (sanitise_headers ((b'-' ∷ name, some v) ∷ []) false
        ≡ some ((canonical_header_name name, strip v) ∷ []))

abbrev is_refused : Text → Bool
is_refused raw_name =
    let name = strip raw_name in
    is_empty name
    || (ltb 128 (length name) || not (is_header_name name))
    || one_of disallowed_lower_headers (lower name)

abbrev Slips : Text → Type 0
Slips name =
    (is_refused name ≡ true)
    × (is_refused (b'-' ∷ name) ≡ false)
    × (canonical_header_name (strip (b'-' ∷ name)) ≡ canonical_header_name name)

all-Slips : All Slips disallowed_lower_headers
unfolding strip lower one_of is_header_name is_name_char canonical_header_name split_dash
all-Slips = (
  (refl, refl, refl),
  (
    (refl, refl, refl),
    (
      (refl, refl, refl),
      (
        (refl, refl, refl),
        (
          (refl, refl, refl),
          (
            (refl, refl, refl),
            (
              (refl, refl, refl),
              ((refl, refl, refl), ((refl, refl, refl), ((refl, refl, refl), tt))),
            ),
          ),
        ),
      ),
    ),
  ),
)

Slips-Smuggles :
    (v : Text)
    → is_empty (strip v) ≡ false
    → ltb 2048 (length (strip v)) ≡ false
    → (name : Text) → Slips name
    → Smuggles v name
unfolding sanitise_headers sanitise_into set
Slips-Smuggles v full short name (refused, passed, same) =
    (rw refused refl, rw (passed, full, short, same) refl)

-- Each header that is not allowed, with a value that is neither empty nor too long once it is
-- stripped, is left out under its own name, but with a dash before the name it comes out, under
-- the canonical name without the dash.
pub sanitise_headers-Smuggles :
    (v : Text)
    → is_empty (strip v) ≡ false
    → ltb 2048 (length (strip v)) ≡ false
    → All (Smuggles v) disallowed_lower_headers
sanitise_headers-Smuggles v full short =
    All-map Slips (Smuggles v) (Slips-Smuggles v full short) disallowed_lower_headers all-Slips
