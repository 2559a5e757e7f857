-- ===== src/Headers/Tests.antt =====
-- Runs of the header helpers.
use headendarr.Prelude.{◌≡◌, refl, List, [], ◌∷◌, false, Option, none, some, All}
use headendarr.Prelude.Dict.{set, Holds}
use headendarr.Prelude.Text.{Text, codes, strip, lower, one_of, text_discrete}
use headendarr.Headers.{
  disallowed_lower_headers, canonical_header_name, sanitise_headers, sanitise_into, is_header_name,
  is_name_char, split_dash, merge_headers, ensure_user_agent,
}
use headendarr.Headers.Sanitised.{IsSanitised, sanitise_headers-IsSanitised}
use headendarr.Headers.Smuggled.{Smuggles, sanitise_headers-Smuggles}

abbrev referer : List (Text × Option Text)
referer = (codes " x-REFERER", some (codes "tv ")) ∷ (codes "Host", none) ∷ []

is_canonical : canonical_header_name (codes "x-REFERER") ≡ codes "X-Referer"
unfolding canonical_header_name split_dash lower
is_canonical = refl

sanitise_headers-IsSanitised_example : Holds IsSanitised (sanitise_headers referer false)
sanitise_headers-IsSanitised_example = sanitise_headers-IsSanitised referer false

prefers :
    merge_headers ((codes "x-a", some (codes "1")) ∷ []) ((codes "X-A", some (codes "2")) ∷ [])
    ≡ (codes "X-A", codes "1") ∷ []
unfolding merge_headers sanitise_headers sanitise_into strip lower one_of is_header_name
    is_name_char canonical_header_name split_dash set text_discrete
prefers = refl

adds_agent : ensure_user_agent [] (codes "vlc ") ≡ (codes "User-Agent", codes "vlc") ∷ []
unfolding ensure_user_agent sanitise_headers sanitise_into strip lower one_of set
adds_agent = refl

sanitise_headers-Smuggles_example : All (Smuggles (codes "evil")) disallowed_lower_headers
unfolding strip
sanitise_headers-Smuggles_example = sanitise_headers-Smuggles (codes "evil") refl refl
