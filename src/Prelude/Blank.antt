-- ===== src/Prelude/Blank.antt =====
-- A text that `trim` empties holds blanks alone.
use mathlib.Core.List.{[], ◌∷◌, reverse, reverse-reverse}
use mathlib.Core.Path.{◌≡◌, refl, ap, ◌∙◌, sym}
use mathlib.Core.Bool.{true, false}
use native.Mathlib.Omega.{arith}
use mathlib.Core.Logic.{inl, inr}
use Prim.Native.Nat.{ℕ}
use corcy.Prelude.Lists.{All, All-reverse}
use corcy.Prelude.Tests.{Bool-cases}
use corcy.Prelude.Texts.{Text, is_space, trim_start, trim, is_empty}

abbrev Blank : ℕ → Type 0
Blank c = is_space c ≡ true

is_empty-nil : (s : Text) → is_empty s ≡ true → s ≡ []
is_empty-nil [] h = refl
is_empty-nil (c ∷ s) h = absurd (cc h)

reverse-nil : (s : Text) → reverse s ≡ [] → s ≡ []
reverse-nil s h = sym (reverse-reverse s) ∙ ap reverse h

trim_start-nil : (s : Text) → trim_start s ≡ [] → All Blank s
unfolding trim_start
trim_start-nil [] h = tt
trim_start-nil (c ∷ s) h = elim (Bool-cases (is_space c)) [
  | inl blank ↦ (blank, trim_start-nil s (ground (arith, blank, h)))
  | inr other ↦ absurd (ground (arith, other, h))
]

-- A trimmed text is empty only if what begins at the first unit that is no blank is empty.
pub trim_start-Blank : (s : Text) → is_empty (trim s) ≡ true → All Blank (trim_start s)
unfolding trim
trim_start-Blank s h =
    let r = reverse (trim_start s) in
    let none_left : trim_start r ≡ [] =
      reverse-nil (trim_start r) (is_empty-nil (reverse (trim_start r)) h) in
    let blanks : All Blank (reverse r) = All-reverse Blank r (trim_start-nil r none_left) in
    rw (reverse-reverse (trim_start s)) at blanks

pub brace_not_blank : (s : Text) → is_empty (trim (123 ∷ s)) ≡ false
brace_not_blank s = elim (Bool-cases (is_empty (trim (123 ∷ s)))) [
  | inr kept ↦ kept
  | inl blank ↦ absurd (impossible (trim_start-Blank (123 ∷ s) blank))
]
  where
    impossible : All Blank (trim_start (123 ∷ s)) → ⊥
    impossible h = unfold trim_start is_space in cc (h.0)
