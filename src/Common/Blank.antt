-- ===== src/Common/Blank.antt =====
-- When a text has nothing but white space, by its characters.
use mathlib.Core.Path.{◌≡◌, refl, sym, subst}
use mathlib.Core.Bool.{Bool, false, not, ◌&&◌, ◌||◌}
use mathlib.Core.Logic.{inl, inr}
use mathlib.Core.List.{[], ◌∷◌, ◌++◌, reverse, reverse_aux}
use native.Mathlib.Omega.{arith}
use misy.Common.Tests.{Bool-cases, if◌then◌else◌}
use misy.Common.Texts.{Text, is_whitespace, trim_start, trim, is_empty}

-- Whether a text has a character that is not white space.
abbrev pub has_ink : Text → Bool
has_ink [] = false
has_ink (c ∷ cs) = not (is_whitespace c) || has_ink cs

pub has_ink-append : (s t : Text) → has_ink (s ++ t) ≡ (has_ink s || has_ink t)
has_ink-append [] t = refl
has_ink-append (c ∷ cs) t = ground (arith, has_ink-append cs t)

has_ink-reverse_aux : (s t : Text) → has_ink (reverse_aux s t) ≡ (has_ink s || has_ink t)
has_ink-reverse_aux [] t = refl
has_ink-reverse_aux (c ∷ cs) t = ground (arith, has_ink-reverse_aux cs (c ∷ t))

is_empty-reverse_aux : (s t : Text) → is_empty (reverse_aux s t) ≡ (is_empty s && is_empty t)
unfolding is_empty
is_empty-reverse_aux [] t = refl
is_empty-reverse_aux (c ∷ cs) t = ground (arith, is_empty-reverse_aux cs (c ∷ t))

is_empty-trim_start : (t : Text) → is_empty (trim_start t) ≡ not (has_ink t)
unfolding is_empty trim_start
is_empty-trim_start [] = refl
is_empty-trim_start (c ∷ cs) = elim (Bool-cases (is_whitespace c)) [
  | inl e ↦ rw e (is_empty-trim_start cs)
  | inr e ↦ rw e refl
]

has_ink-trim_start : (t : Text) → has_ink (trim_start t) ≡ has_ink t
unfolding trim_start
has_ink-trim_start [] = refl
has_ink-trim_start (c ∷ cs) = elim (Bool-cases (is_whitespace c)) [
  | inl e ↦ rw e (has_ink-trim_start cs)
  | inr e ↦
      subst (λ b. has_ink (if b then trim_start cs else c ∷ cs) ≡ has_ink (c ∷ cs)) (sym e) refl
]

-- A text is blank exactly if it has no such character.
pub is_empty-trim : (t : Text) → is_empty (trim t) ≡ not (has_ink t)
unfolding trim is_empty
is_empty-trim t = ground (
  arith,
  is_empty-reverse_aux (trim_start (reverse (trim_start t))) [],
  is_empty-trim_start (reverse (trim_start t)),
  has_ink-reverse_aux (trim_start t) [],
  has_ink-trim_start t,
)
