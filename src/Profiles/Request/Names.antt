-- ===== src/Profiles/Request/Names.antt =====
-- How the syntax of a profile request reads a name and the modifiers behind it.
use headendarr.Prelude.{
  ◌≡◌, refl, ap, ◌∙◌, [], ◌∷◌, ◌++◌, Bool, true, false, not, none, some, ℕ, arith,
}
use headendarr.Prelude.Dict.{is_empty}
use headendarr.Prelude.Text.{Text, is_space, lstrip, rstrip, strip, lower, has, partition, or_text}
use headendarr.Prelude.Text.Strip.{lower-cons, lower-nil, rstrip-cons, lstrip-other}

abbrev pub starts_plain : Text → Bool
starts_plain [] = false
starts_plain (c ∷ s) = not (is_space c)

-- A name as a request has it: in small letters, without white space around it and without "[".
pub record IsName (name : Text) : Type 0 where
  pub starts : starts_plain name ≡ true
  pub ends : rstrip name ≡ name
  pub small : lower name ≡ name
  pub plain : has b'[' name ≡ false

pub or_text-nothing : (s : Text) → or_text s [] ≡ s
or_text-nothing [] = refl
or_text-nothing (c ∷ s) = refl

pub append-not_empty : (s t : Text) → is_empty t ≡ false → is_empty (s ++ t) ≡ false
append-not_empty [] t h = h
append-not_empty (c ∷ s) t h = refl

rstrip-append : (s t : Text) → rstrip t ≡ t → is_empty t ≡ false → rstrip (s ++ t) ≡ s ++ t
rstrip-append [] t h n = h
rstrip-append (c ∷ s) t h n =
    rw (rstrip-cons c (s ++ t), rstrip-append s t h n, append-not_empty s t n)

lstrip-plain : (s : Text) → starts_plain s ≡ true → lstrip s ≡ s
lstrip-plain [] h = cc
lstrip-plain (c ∷ s) h = lstrip-other c s (ground arith)

starts_plain-append : (s t : Text) → starts_plain s ≡ true → starts_plain (s ++ t) ≡ true
starts_plain-append [] t h = cc
starts_plain-append (c ∷ s) t h = h

pub strip-name : (name : Text) → IsName name → strip name ≡ name
unfolding strip
strip-name name n = ap rstrip (lstrip-plain name n.starts) ∙ n.ends

pub strip-name_append :
    (name t : Text)
    → IsName name
    → rstrip t ≡ t
    → is_empty t ≡ false
    → strip (name ++ t) ≡ name ++ t
unfolding strip
strip-name_append name t n h e =
    ap rstrip (lstrip-plain (name ++ t) (starts_plain-append name t n.starts))
    ∙ rstrip-append name t h e

lower-append : (s t : Text) → lower (s ++ t) ≡ lower s ++ lower t
lower-append [] t = rw (lower-nil)
lower-append (c ∷ s) t = rw (lower-cons c (s ++ t), lower-cons c s, lower-append s t)

pub lower-name_append : (name t : Text) → IsName name → lower t ≡ t → lower (name ++ t) ≡ name ++ t
lower-name_append name t n h = rw (lower-append name t, n.small, h)

pub partition-append :
    (c : ℕ) (s t : Text) → has c s ≡ false → partition c (s ++ c ∷ t) ≡ (s, some t)
unfolding has partition
partition-append c [] t h = ground arith
partition-append c (d ∷ s) t h = ground (arith, partition-append c s t (ground arith))

pub partition-plain : (c : ℕ) (s : Text) → has c s ≡ false → partition c s ≡ (s, none)
unfolding has partition
partition-plain c [] h = refl
partition-plain c (d ∷ s) h = ground (arith, partition-plain c s (ground arith))

pub name-not_empty : (name : Text) → IsName name → is_empty name ≡ false
name-not_empty [] n = let e = n.starts in cc
name-not_empty (c ∷ s) n = refl
