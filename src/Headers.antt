-- ===== src/Headers.antt =====
-- backend/http_headers.py: the headers that a user gives for a source, sanitised, and how two sets are
-- merged. A header's value is the text of it, or missing for None. JSON and base64 are left out.
pub mod Sanitised
pub mod Smuggled
mod Tests
use headendarr.Prelude.{
  ℕ, ◌+◌, ◌-◌, List, [], ◌∷◌, ◌++◌, Bool, true, false, not, ◌&&◌, ◌||◌, Option, none, some, length,
  ltb, leb, ◌==◌, any_of, map, keep, if◌then◌else◌,
}
use headendarr.Prelude.Dict.{Dict, get, set, keys, is_empty}
use headendarr.Prelude.Text.{Text, codes, text_key, strip, lower, one_of}

abbrev pub disallowed_lower_headers : List Text
disallowed_lower_headers =
    codes "host"
    ∷ codes "connection"
    ∷ codes "content-length"
    ∷ codes "transfer-encoding"
    ∷ codes "upgrade"
    ∷ codes "keep-alive"
    ∷ codes "te"
    ∷ codes "trailer"
    ∷ codes "proxy-authenticate"
    ∷ codes "proxy-authorization"
    ∷ []

abbrev between : ℕ → ℕ → ℕ → Bool
between low high c = leb low c && leb c high

-- `[!#$%&'*+\-.^_`|~0-9A-Za-z]`
unfoldable pub is_name_char : ℕ → Bool
is_name_char c =
    any_of (λ other. other == c) (codes "!#$%&'*+-.^_`|~")
    || between b'0' b'9' c
    || between b'A' b'Z' c
    || between b'a' b'z' c

-- The name is stripped, so the newline that `$` lets pass does not occur.
unfoldable pub is_header_name : Text → Bool
is_header_name name = not (is_empty name) && not (any_of (λ c. not (is_name_char c)) name)

abbrev upper_char : ℕ → ℕ
upper_char c = if between b'a' b'z' c then c - 32 else c

-- `part[:1].upper() + part[1:].lower()`, of a part of ASCII letters
abbrev capital : Text → Text
capital [] = []
capital (c ∷ part) = upper_char c ∷ lower part

-- `name.split("-")`, with the part before the first dash apart
unfoldable pub split_dash : Text → Text × List Text
split_dash [] = ([], [])
split_dash (c ∷ name) =
    let rest = split_dash name in if c == b'-' then ([], rest.0 ∷ rest.1) else (c ∷ rest.0, rest.1)

abbrev join_dash : List Text → Text
join_dash [] = []
join_dash (part ∷ []) = part
join_dash (part ∷ next ∷ parts) = part ++ b'-' ∷ join_dash (next ∷ parts)

unfoldable pub canonical_header_name : Text → Text
canonical_header_name name =
    let parts = split_dash name in
    join_dash (map capital (keep (λ part. not (is_empty part)) (parts.0 ∷ parts.1)))

-- The loop of `sanitise_headers`; `none` is ValueError.
unfoldable pub sanitise_into :
    Bool → List (Text × Option Text) → Dict Text Text → Option (Dict Text Text)
sanitise_into raise_on_invalid [] output = some output
sanitise_into raise_on_invalid ((raw_name, raw_value) ∷ headers) output =
    let name = strip raw_name in
    let next = sanitise_into raise_on_invalid headers output in
    let rejected = if raise_on_invalid then none else next in
    if is_empty name
      || (ltb 128 (length name) || not (is_header_name name))
      || one_of disallowed_lower_headers (lower name)
    then rejected
    else elim raw_value [
      | none ↦ next
      | some v ↦
          let value = strip v in
          let added = set (canonical_header_name name) value output in
          let stored = sanitise_into raise_on_invalid headers added in
          if is_empty value
          then next
          else if ltb 2048 (length value)
          then rejected
          else if leb 32 (length added)
          then some added
          else stored
    ]

unfoldable pub sanitise_headers : List (Text × Option Text) → Bool → Option (Dict Text Text)
sanitise_headers raw_headers raise_on_invalid = sanitise_into raise_on_invalid raw_headers []

abbrev update : Dict Text Text → Dict Text Text → Dict Text Text
update merged [] = merged
update merged ((k, v) ∷ headers) = update (set k v merged) headers

abbrev lenient : List (Text × Option Text) → Dict Text Text
lenient raw_headers = elim (sanitise_headers raw_headers false) [ none ↦ [] | some d ↦ d ]

unfoldable pub merge_headers :
    List (Text × Option Text) → List (Text × Option Text) → Dict Text Text
merge_headers preferred fallback = update (update [] (lenient fallback)) (lenient preferred)

unfoldable pub ensure_user_agent : List (Text × Option Text) → Text → Dict Text Text
ensure_user_agent headers user_agent =
    let clean = lenient headers in
    let ua = strip user_agent in
    if is_empty ua || one_of (map lower (keys clean)) (codes "user-agent")
    then clean
    else set (codes "User-Agent") ua clean
