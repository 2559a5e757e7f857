-- ===== src/Prelude/Text/OneOf.antt =====
-- Membership of a text in a list.
use mathlib.Core.Path.{◌≡◌, refl}
use mathlib.Core.Logic.{ite}
use mathlib.Core.Bool.{true, false, ◌||◌}
use headendarr.Prelude.{◌⊎◌, inl, inr}
use mathlib.Core.List.{List, [], ◌∷◌, ◌++◌}
use native.Mathlib.Omega.{arith}
use headendarr.Prelude.Text.{Text, text_discrete, one_of}

pub one_of-nil : (j : Text) → one_of [] j ≡ false
unfolding one_of
one_of-nil j = refl

pub one_of-cons :
    (id : Text) (ids : List Text) (j : Text)
    → one_of (id ∷ ids) j ≡ ite (text_discrete id j) true (one_of ids j)
unfolding one_of
one_of-cons id ids j = ground arith

pub one_of-single :
    (a x : Text)
    → ((one_of (a ∷ []) x ≡ true) × (a ≡ x)) ⊎ ((one_of (a ∷ []) x ≡ false) × (¬ (a ≡ x)))
one_of-single a x =
    rw (one_of-cons a [] x, one_of-nil x)
      (elim (text_discrete a x)
        as (λ d.
          ((ite d true false ≡ true) × (a ≡ x)) ⊎ ((ite d true false ≡ false) × (¬ (a ≡ x)))) [
            | yes p ↦ inl (refl, p)
            | no n ↦ inr (refl, n)
          ])

pub one_of-append :
    (xs ys : List Text) (j : Text) → one_of (xs ++ ys) j ≡ (one_of xs j || one_of ys j)
one_of-append [] ys j = rw (one_of-nil j) refl
one_of-append (x ∷ xs) ys j =
    ground (arith, one_of-cons x xs j, one_of-cons x (xs ++ ys) j, one_of-append xs ys j)
