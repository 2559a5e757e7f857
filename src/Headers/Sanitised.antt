-- ===== src/Headers/Sanitised.antt =====
-- What sanitised headers are, and that the two ways to call `sanitise_headers` agree.
use headendarr.Prelude.{
  ◌+◌, ◌≤◌, ◌<◌, ◌≡◌, inl, inr, List, [], ◌∷◌, Bool, true, false, Option, none, some, length, ltb,
  leb, arith, if-Holds, elim-Holds, Option-cases,
}
use headendarr.Prelude.Dict.{
  Dict, get, set, is_empty, Holds, AllValues, AllValues-set, length-set_new, length-set_old,
}
use headendarr.Prelude.Text.{Text, text_key, strip}
use headendarr.Headers.{canonical_header_name, sanitise_into, sanitise_headers}

-- A value that is not empty and not too long.
abbrev pub IsValue : Text → Type 0
IsValue value = (is_empty value ≡ false) × (length value ≤ 2048)

-- At most 32 headers, each with such a value.
pub record IsSanitised (d : Dict Text Text) : Type 0 where
  pub few : length d ≤ 32
  pub values : AllValues IsValue d

length-set : (k v : Text) (d : Dict Text Text) → length (set k v d) ≤ length d + 1
length-set k v d = elim (Option-cases (get k d)) [
  | inl e ↦ omega (arith, length-set_new k v d e)
  | inr (x, e) ↦ omega (arith, length-set_old k v d (λ e'. cc (e, e')))
]

sanitise_into-IsSanitised :
    (raise_on_invalid : Bool) (headers : List (Text × Option Text)) (output : Dict Text Text)
    → length output < 32
    → AllValues IsValue output
    → Holds IsSanitised (sanitise_into raise_on_invalid headers output)
unfolding sanitise_into
sanitise_into-IsSanitised raise_on_invalid [] output few values = record {
  few = omega (arith, few);
  values = values;
}
sanitise_into-IsSanitised raise_on_invalid ((raw_name, raw_value) ∷ headers) output few values =
    let next = sanitise_into-IsSanitised raise_on_invalid headers output few values in
    let rejected =
      if-Holds (Holds IsSanitised) raise_on_invalid none
        (sanitise_into raise_on_invalid headers output) (λ _. tt) (λ _. next) in
    if-Holds (Holds IsSanitised) _ _ _ (λ _. rejected)
      (λ _.
        elim-Holds (Holds IsSanitised) raw_value _ _ (λ _. next)
          (λ v _.
            let value = strip v in
            let name = canonical_header_name (strip raw_name) in
            let added = set name value output in
            if-Holds (Holds IsSanitised) (is_empty value) _ _ (λ _. next)
              (λ full.
                if-Holds (Holds IsSanitised) (ltb 2048 (length value)) _ _ (λ _. rejected)
                  (λ short.
                    let all =
                      AllValues-set IsValue name value output (full, ground (arith, short))
                        values in
                    let bound = length-set name value output in
                    if-Holds (Holds IsSanitised) (leb 32 (length added)) (some added)
                      (sanitise_into raise_on_invalid headers added)
                      (λ _. record { few = omega (arith, bound, few); values = all })
                      (λ room.
                        sanitise_into-IsSanitised raise_on_invalid headers added
                          (ground (arith, room)) all)))))

-- Whatever the headers, and in both modes: unless it is an error, at most 32 headers come out,
-- and each value is not empty and has at most 2048 characters.
pub sanitise_headers-IsSanitised :
    (raw_headers : List (Text × Option Text)) (raise_on_invalid : Bool)
    → Holds IsSanitised (sanitise_headers raw_headers raise_on_invalid)
unfolding sanitise_headers
sanitise_headers-IsSanitised raw_headers raise_on_invalid =
    sanitise_into-IsSanitised raise_on_invalid raw_headers [] (omega arith) tt

sanitise_into-agrees :
    (headers : List (Text × Option Text)) (output d : Dict Text Text)
    → sanitise_into true headers output ≡ some d
    → sanitise_into false headers output ≡ some d
unfolding sanitise_into
sanitise_into-agrees [] output d e = e
sanitise_into-agrees ((raw_name, none) ∷ headers) output d e =
    ground (arith, e, sanitise_into-agrees headers output d)
sanitise_into-agrees ((raw_name, some v) ∷ headers) output d e =
    let added = set (canonical_header_name (strip raw_name)) (strip v) output in
    ground (arith, e, sanitise_into-agrees headers output d, sanitise_into-agrees headers added d)

pub sanitise_headers-agrees :
    (raw_headers : List (Text × Option Text)) (d : Dict Text Text)
    → sanitise_headers raw_headers true ≡ some d
    → sanitise_headers raw_headers false ≡ some d
unfolding sanitise_headers
sanitise_headers-agrees raw_headers d e = sanitise_into-agrees raw_headers [] d e
