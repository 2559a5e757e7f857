-- ===== src/Prelude/Text.antt =====
-- Python's `str` as a list of code points, with the methods that the program calls. `lower` is that of
-- ASCII: other letters stay as they are.
pub mod Strip
pub mod OneOf
use Prim.Native.Nat.{ℕ, ◌+◌}
use Prim.Native.Char.{code}
use Prim.Native.String.{String}
use mathlib.Core.Path.{◌≡◌, refl}
use mathlib.Core.Bool.{Bool, true, false, ◌&&◌, ◌||◌}
use mathlib.Core.List.{List, [], ◌∷◌, map}
use mathlib.Core.Option.{Option, none, some}
unfoldable pub use native.Mathlib.Decide.{ℕ_discrete}
use headendarr.Prelude.Tests.{leb, ◌==◌, if◌then◌else◌}
use headendarr.Prelude.Dict.{Key, is_empty}

abbrev pub Text : Type 0
Text = List ℕ

abbrev pub codes : String → Text
codes String.[] = []
codes (String.◌∷◌ c s) = code c ∷ codes s

unfoldable pub text_discrete : Discrete Text
unfolding ℕ_discrete
text_discrete [] [] = yes refl
text_discrete [] (y ∷ ys) = no (λ e. cc)
text_discrete (x ∷ xs) [] = no (λ e. cc)
text_discrete (x ∷ xs) (y ∷ ys) = elim (ℕ_discrete x y) [
  | yes p ↦ elim (text_discrete xs ys) [ yes q ↦ yes (cc) | no n ↦ no (λ e. n (cc)) ]
  | no n ↦ no (λ e. n (cc))
]

instance abbrev pub text_key : Key Text
text_key = record { same = text_discrete }

-- The characters that `str.strip` removes.
unfoldable pub is_space : ℕ → Bool
is_space c =
    (leb 9 c && leb c 13)
    || (leb 28 c && leb c 32)
    || (c == 133 || c == 160 || c == 5760)
    || (leb 8192 c && leb c 8202)
    || (c == 8232 || c == 8233 || c == 8239 || c == 8287 || c == 12288)

unfoldable pub lstrip : Text → Text
lstrip [] = []
lstrip (c ∷ s) = if is_space c then lstrip s else c ∷ s

unfoldable pub rstrip : Text → Text
rstrip [] = []
rstrip (c ∷ s) = let rest = rstrip s in if is_empty rest && is_space c then [] else c ∷ rest

unfoldable pub strip : Text → Text
unfolding lstrip rstrip is_space
strip s = rstrip (lstrip s)

unfoldable pub lowered : ℕ → ℕ
lowered c = if leb b'A' c && leb c b'Z' then c + 32 else c

unfoldable pub lower : Text → Text
unfolding lowered
lower = map lowered

-- `text or other`
abbrev pub or_text : Text → Text → Text
or_text [] other = other
or_text (c ∷ s) other = c ∷ s

-- `value or other`, of a value that may be missing
abbrev pub or_missing : Option Text → Text → Text
or_missing none other = other
or_missing (some s) other = or_text s other

stripped : strip (codes " 10.0.0.1  ") ≡ codes "10.0.0.1"
unfolding strip
stripped = refl

-- `sep in s`, for a sequence of code points.
unfoldable pub has : ℕ → Text → Bool
has c [] = false
has c (d ∷ s) = d == c || has c s

-- `s.split(sep)`, for a separator of one character: never an empty list.
unfoldable pub split_first : ℕ → List Text → List Text
split_first c [] = (c ∷ []) ∷ []
split_first c (part ∷ parts) = (c ∷ part) ∷ parts

unfoldable pub split : ℕ → Text → List Text
unfolding split_first
split sep [] = [] ∷ []
split sep (c ∷ s) = let rest = split sep s in if c == sep then [] ∷ rest else split_first c rest

-- `s.partition(sep)`, for a separator of one character: the part before it and, if it is there, the rest.
unfoldable pub partition : ℕ → Text → Text × Option Text
partition sep [] = ([], none)
partition sep (c ∷ s) =
    let (before, after) = partition sep s in if c == sep then ([], some s) else (c ∷ before, after)

-- `s.endswith(suffix)`
unfoldable pub ends_with : Text → Text → Bool
unfolding text_discrete
ends_with suffix [] = is_empty suffix
ends_with suffix (c ∷ s) =
    let rest = ends_with suffix s in
    elim (text_discrete suffix (c ∷ s)) [ yes _ ↦ true | no _ ↦ rest ]

-- `s in texts`
unfoldable pub one_of : List Text → Text → Bool
unfolding text_discrete
one_of [] s = false
one_of (t ∷ texts) s =
    let rest = one_of texts s in elim (text_discrete t s) [ yes _ ↦ true | no _ ↦ rest ]

-- `s.startswith(prefix)`
unfoldable pub starts_with : Text → Text → Bool
starts_with [] s = true
starts_with (p ∷ prefix) [] = false
starts_with (p ∷ prefix) (c ∷ s) = p == c && starts_with prefix s

-- `part in s`
unfoldable pub contains : Text → Text → Bool
unfolding starts_with
contains part [] = is_empty part
contains part (c ∷ s) = starts_with part (c ∷ s) || contains part s
