-- ===== src/Common/Occurs.antt =====
-- Where a text occurs in another, against `str::contains`.
use mathlib.Core.Path.{◌≡◌, refl, sym, ap, ◌∙◌, subst}
use mathlib.Core.Logic.{◌↔◌, ◌⊎◌, inl, inr}
use mathlib.Core.Bool.{Bool, true, false, ◌&&◌, ◌||◌}
use mathlib.Core.List.{[], ◌∷◌, ◌++◌}
use misy.Common.Tests.{◌==◌, ==_iff}
use misy.Common.Texts.{Text, starts_with, contains}

-- The first text stands somewhere in the second.
abbrev pub Occurs : Text → Text → Type 0
Occurs p t = (before : Text) × (after : Text) × (t ≡ before ++ (p ++ after))

starts_with-Prefix : (p t : Text) → starts_with p t ≡ true → (after : Text) × (t ≡ p ++ after)
unfolding starts_with
starts_with-Prefix [] t h = (t, refl)
starts_with-Prefix (c ∷ cs) [] h = absurd cc
starts_with-Prefix (c ∷ cs) (d ∷ ds) h =
    let (same, more) = both (c == d) (starts_with cs ds) h in
    let (after, e) = starts_with-Prefix cs ds more in
    let head : c ≡ d = (==_iff c d).0 same in
    (after, ap (λ x. x ∷ ds) (sym head) ∙ ap (λ u. c ∷ u) e)
  where
    both : (a b : Bool) → (a && b) ≡ true → (a ≡ true) × (b ≡ true)
    both true b e = (refl, e)
    both false b e = absurd cc

prefix-starts_with : (p after : Text) → starts_with p (p ++ after) ≡ true
unfolding starts_with
prefix-starts_with [] after = refl
prefix-starts_with (c ∷ cs) after =
    let same : (c == c) ≡ true = (==_iff c c).1 refl in rw same (prefix-starts_with cs after)

either : (a b : Bool) → (a || b) ≡ true → (a ≡ true) ⊎ (b ≡ true)
either true b e = inl refl
either false b e = inr e

or_right : (a b : Bool) → b ≡ true → (a || b) ≡ true
or_right true b e = refl
or_right false b e = e

contains-Occurs : (p t : Text) → contains p t ≡ true → Occurs p t
unfolding contains
contains-Occurs p [] h = let (after, e) = starts_with-Prefix p [] h in ([], after, e)
contains-Occurs p (d ∷ ds) h = elim (either (starts_with p (d ∷ ds)) (contains p ds) h) [
  | inl e ↦ let (after, same) = starts_with-Prefix p (d ∷ ds) e in ([], after, same)
  | inr e ↦
      let (before, after, same) = contains-Occurs p ds e in
      (d ∷ before, after, ap (λ u. d ∷ u) same)
]

occurs-contains : (p before after : Text) → contains p (before ++ (p ++ after)) ≡ true
unfolding contains
occurs-contains p (d ∷ before) after =
    or_right (starts_with p (d ∷ (before ++ (p ++ after)))) _ (occurs-contains p before after)
occurs-contains p [] after = first p (p ++ after) (prefix-starts_with p after)
  where
    first : (q t : Text) → starts_with q t ≡ true → contains q t ≡ true
    first q [] e = e
    first q (c ∷ cs) e = rw e refl

pub contains_iff : (p t : Text) → (contains p t ≡ true) ↔ Occurs p t
contains_iff p t = (
  contains-Occurs p t,
  λ (before, after, e). subst (λ u. contains p u ≡ true) (sym e) (occurs-contains p before after),
)
