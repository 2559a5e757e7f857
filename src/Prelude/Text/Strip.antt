-- ===== src/Prelude/Text/Strip.antt =====
-- Lemmas on `strip` and `lower`.
use Prim.Native.Nat.{ℕ, ◌+◌, ◌≤◌}
use mathlib.Core.Path.{◌≡◌, refl, ap, ◌∙◌}
use mathlib.Core.Bool.{Bool, true, false, ◌&&◌}
use mathlib.Core.List.{[], ◌∷◌}
use native.Mathlib.Omega.{arith}
use headendarr.Prelude.Tests.{if◌then◌else◌, Bool-cases}
use headendarr.Prelude.Dict.{is_empty}
use mathlib.Core.Logic.{inl, inr}
use headendarr.Prelude.Text.{Text, is_space, lowered, lstrip, rstrip, strip, lower}

is_space-letter : (c : ℕ) → 33 ≤ c → c ≤ 132 → is_space c ≡ false
unfolding is_space
is_space-letter c h k = ground arith

pub is_space-lowered : (c : ℕ) → is_space (lowered c) ≡ is_space c
unfolding lowered
is_space-lowered c = ground (arith, is_space-letter c, is_space-letter (c + 32))

lowered-lowered : (c : ℕ) → lowered (lowered c) ≡ lowered c
unfolding lowered
lowered-lowered c = ground arith

pub lower-cons : (c : ℕ) (s : Text) → lower (c ∷ s) ≡ lowered c ∷ lower s
unfolding lower
lower-cons c s = refl

pub lower-nil : lower [] ≡ []
unfolding lower
lower-nil = refl

pub is_empty-lower : (s : Text) → is_empty (lower s) ≡ is_empty s
is_empty-lower [] = rw (lower-nil)
is_empty-lower (c ∷ s) = rw (lower-cons c s)

pub lower-lower : (s : Text) → lower (lower s) ≡ lower s
lower-lower [] = rw (lower-nil, lower-nil)
lower-lower (c ∷ s) =
    let ih = lower-lower s in
    rw (lower-cons c s, lower-cons (lowered c) (lower s), lowered-lowered c, ih)

lstrip-space : (c : ℕ) (s : Text) → is_space c ≡ true → lstrip (c ∷ s) ≡ lstrip s
unfolding lstrip
lstrip-space c s h = rw (h)

pub lstrip-other : (c : ℕ) (s : Text) → is_space c ≡ false → lstrip (c ∷ s) ≡ c ∷ s
unfolding lstrip
lstrip-other c s h = rw (h)

lstrip-nil : lstrip [] ≡ []
unfolding lstrip
lstrip-nil = refl

pub rstrip-nil : rstrip [] ≡ []
unfolding rstrip
rstrip-nil = refl

pub rstrip-cons :
    (c : ℕ) (s : Text)
    → rstrip (c ∷ s) ≡ (if is_empty (rstrip s) && is_space c then [] else c ∷ rstrip s)
unfolding rstrip
rstrip-cons c s = refl

lower-if :
    (b : Bool) (c : ℕ) (s : Text)
    → lower (if b then [] else c ∷ s) ≡ (if b then [] else lowered c ∷ lower s)
lower-if true c s = lower-nil
lower-if false c s = lower-cons c s

lstrip-lower : (s : Text) → lstrip (lower s) ≡ lower (lstrip s)
lstrip-lower [] = rw (lower-nil, lstrip-nil, lower-nil)
lstrip-lower (c ∷ s) =
    let ih = lstrip-lower s in
    let same = is_space-lowered c in
    elim (Bool-cases (is_space c)) [
      | inl e ↦
          rw (lower-cons c s, lstrip-space (lowered c) (lower s) (same ∙ e), lstrip-space c s e, ih)
      | inr e ↦ rw (
        lower-cons c s,
        lstrip-other (lowered c) (lower s) (same ∙ e),
        lstrip-other c s e,
        lower-cons c s,
      )
    ]

pub rstrip-lower : (s : Text) → rstrip (lower s) ≡ lower (rstrip s)
rstrip-lower [] = rw (lower-nil, rstrip-nil, lower-nil)
rstrip-lower (c ∷ s) =
    let ih = rstrip-lower s in
    rw (
      lower-cons c s,
      rstrip-cons (lowered c) (lower s),
      rstrip-cons c s,
      ih,
      is_empty-lower (rstrip s),
      is_space-lowered c,
      lower-if (is_empty (rstrip s) && is_space c) c (rstrip s),
    )

pub strip-lower : (s : Text) → strip (lower s) ≡ lower (strip s)
unfolding strip
strip-lower s = ap rstrip (lstrip-lower s) ∙ rstrip-lower (lstrip s)

lstrip-lstrip : (s : Text) → lstrip (lstrip s) ≡ lstrip s
unfolding lstrip
lstrip-lstrip [] = refl
lstrip-lstrip (c ∷ s) = let ih = lstrip-lstrip s in ground arith

pub rstrip-rstrip : (s : Text) → rstrip (rstrip s) ≡ rstrip s
unfolding rstrip
rstrip-rstrip [] = refl
rstrip-rstrip (c ∷ s) = let ih = rstrip-rstrip s in ground arith

lstrip-rstrip : (s : Text) → lstrip (rstrip s) ≡ rstrip (lstrip s)
unfolding lstrip rstrip
lstrip-rstrip [] = refl
lstrip-rstrip (c ∷ s) = let ih = lstrip-rstrip s in ground arith

pub strip-strip : (s : Text) → strip (strip s) ≡ strip s
unfolding strip
strip-strip s =
    ap rstrip (lstrip-rstrip (lstrip s))
    ∙ rstrip-rstrip (lstrip (lstrip s))
    ∙ ap rstrip (lstrip-lstrip s)
