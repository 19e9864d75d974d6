-- ===== src/ListView/Shown.antt =====
-- What a list view shows: the rows that match, and the selected one among them.
use mathlib.Core.Option
use misy.Common.{
  ◌↔◌, sym, ℕ, zero, suc, ◌+◌, ◌-◌, ◌≤◌, ◌<◌, ◌≡◌, refl, ◌∙◌, subst, inl, inr, true, false, Option,
  some, List, [], ◌∷◌, get_elem?, get_elem?-take, get_elem?-drop, drop, any, arith, Bool-cases,
  Option-cases, ◌==◌, u64_max,
}
use misy.Common.Texts.{Text}
use misy.ListView.{ListRow, ListRowDisplay, ListView}
use misy.ListView.View.{
  is_some_and, entry_has_value, has_value, matches_query, matching_from, apply_filter, display,
  display_from, scroll_to, next_scroll_top, visible_scroll_top, visible_rows,
}
use misy.ListView.Validity.{IsValid}
use misy.ListView.Matches.{MatchesAt, MatchesAt-iff}

-- Numbers that grow, from a bound on.
abbrev pub Ascends : ℕ → List ℕ → Type 0
Ascends k [] = Unit
Ascends k (i ∷ is) = (k ≤ i) × Ascends (i + 1) is

Ascends-weaken : (j k : ℕ) (is : List ℕ) → j ≤ k → Ascends k is → Ascends j is
Ascends-weaken j k [] h a = tt
Ascends-weaken j k (i ∷ is) h a = (omega (arith, a.0), a.1)

below-absent : (k s : ℕ) (is : List ℕ) → s < k → Ascends k is → any (λ i. i == s) is ≡ false
below-absent k s [] h a = refl
below-absent k s (i ∷ is) h a = ground (arith, a.0, below-absent (i + 1) s is, a.1)

module _ {A : Type 0} (to_lowercase : Text → Text) (q : Text) where
  matching_from-Ascends :
      (k : ℕ) (rows : List (ListRow A)) → Ascends k (matching_from to_lowercase q k rows)
  unfolding matching_from
  matching_from-Ascends k [] = tt
  matching_from-Ascends k (row ∷ rows) = elim (Bool-cases (matches_query to_lowercase q row)) [
    | inl t ↦ rw t (omega arith, matching_from-Ascends (k + 1) rows)
    | inr f ↦ rw f (Ascends-weaken k (k + 1) _ (omega arith) (matching_from-Ascends (k + 1) rows))
  ]

  matching_from-Mem :
      (k s : ℕ) (rows : List (ListRow A))
      → any (λ i. i == k + s) (matching_from to_lowercase q k rows)
        ≡ is_some_and (matches_query to_lowercase q) (get_elem? rows s)
  unfolding matching_from
  matching_from-Mem k s [] = refl
  matching_from-Mem k zero (row ∷ rows) =
      let absent =
        below-absent (k + 1) (k + 0) (matching_from to_lowercase q (k + 1) rows) (omega arith)
          (matching_from-Ascends (k + 1) rows) in
      ground (arith, absent)
  matching_from-Mem k (suc s) (row ∷ rows) =
      let e : k + suc s ≡ k + 1 + s = omega arith in
      rw e (ground (arith, matching_from-Mem (k + 1) s rows))

module _ {A : Type 0} (v : ListView A) where
  get_elem?-display_from :
      (k i s : ℕ) (fs : List ℕ)
      → get_elem? fs i ≡ some s
      → get_elem? (display_from v k fs) i
        ≡ some (Option.map (display v (k + i)) (get_elem? v.rows s))
  get_elem?-display_from k i s [] h = cc
  get_elem?-display_from k zero s (f ∷ fs) h =
      let e : k + 0 ≡ k = omega arith in rw e (ground (arith, h))
  get_elem?-display_from k (suc i) s (f ∷ fs) h =
      let e : k + suc i ≡ k + 1 + i = omega arith in rw e (get_elem?-display_from (k + 1) i s fs h)

  scroll_to_bounds :
      (i top n : ℕ)
      → top + n ≤ u64_max
      → 0 < n
      → (scroll_to i top n ≤ i) × (i < scroll_to i top n + n)
  scroll_to_bounds i top n h p = ground arith

  entry-row :
      (i : ℕ)
      → entry_has_value v i ≡ true
      → (s : ℕ) × (row : ListRow A) × (get_elem? v.filtered i ≡ some s)
        × (get_elem? v.rows s ≡ some row)
  unfolding entry_has_value has_value
  entry-row i h = elim (Option-cases (get_elem? v.filtered i)) [
    | inl e ↦ absurd (ground (arith, h, e))
    | inr (s, e) ↦ elim (Option-cases (get_elem? v.rows s)) [
      | inl f ↦ absurd (ground (arith, h, e, f))
      | inr (row, f) ↦ (s, row, e, f)
    ]
  ]

numbered :
    {A : Type 0} (v : ListView A) (row : ListRow A) (i : ℕ)
    → ◌≡◌ {A = Option (Option ListRowDisplay)}
        (some (some (display v (0 + i) row)))
        (some (some (display v i row)))
numbered v row i = let e : 0 + i ≡ i = omega arith in rw e

-- A row that is selected is on the screen: it stands among the rows that are shown, with its number.
pub visible_rows-selected :
    {A : Type 0} (v : ListView A) (n i : ℕ)
    → IsValid v
    → v.selected ≡ some i
    → 0 < n
    → v.scroll_top + n ≤ u64_max
    → (d : ListRowDisplay) × (place : ℕ) × (place < n)
      × (get_elem? (visible_rows v n).0 place ≡ some (some d))
      × (d.selected ≡ true)
      × (d.number ≡ i + 1)
unfolding visible_rows visible_scroll_top
visible_rows-selected v zero i h e p fit = absurd (omega arith)
visible_rows-selected v (suc n) i h e p fit =
    let top = scroll_to i v.scroll_top (suc n) in
    let (low, high) = scroll_to_bounds v i v.scroll_top (suc n) fit p in
    let (s, row, fs, rs) = entry-row v i (h.selectable i e) in
    let same : next_scroll_top v.selected v.scroll_top (suc n) ≡ top = rw e in
    let place : top + (i - top) ≡ i = omega (arith, low) in
    let all = display_from v 0 v.filtered in
    let there : get_elem? all (top + (i - top)) ≡ some (some (display v i row)) =
      rw place (rw (get_elem?-display_from v 0 i s v.filtered fs) (rw rs (numbered v row i))) in
    let shown : get_elem? (visible_rows v (suc n)).0 (i - top) ≡ some (some (display v i row)) =
      rw same (
        get_elem?-take (suc n) (i - top) (drop top all) (omega (arith, low, high))
        ∙ get_elem?-drop top (i - top) all
        ∙ there) in
    (display v i row, i - top, omega (arith, low, high), shown, ground (arith, e), refl)

-- An index is shown exactly if it is that of a row in whose label, description or one of whose
-- search terms the query occurs, all in lower case; and the indices keep the order of the rows.
pub apply_filter_lem :
    {A : Type 0} (to_lowercase : Text → Text) (v : ListView A) (s : ℕ)
    → ((any (λ i. i == s) (apply_filter to_lowercase v).filtered ≡ true)
        ↔ MatchesAt to_lowercase (to_lowercase v.query) (get_elem? v.rows s))
      × Ascends 0 (apply_filter to_lowercase v).filtered
unfolding apply_filter
apply_filter_lem to_lowercase v s =
    let q = to_lowercase v.query in
    let zero_more : 0 + s ≡ s = omega arith in
    let shown : any (λ i. i == s) (matching_from to_lowercase q 0 v.rows)
        ≡ is_some_and (matches_query to_lowercase q) (get_elem? v.rows s) =
      subst
        (λ t.
          any (λ i. i == t) (matching_from to_lowercase q 0 v.rows)
          ≡ is_some_and (matches_query to_lowercase q) (get_elem? v.rows s))
        zero_more (matching_from-Mem to_lowercase q 0 s v.rows) in
    let (there, back) = MatchesAt-iff to_lowercase q (get_elem? v.rows s) in
    (
      (λ e. there (sym shown ∙ e), λ x. shown ∙ back x),
      matching_from-Ascends to_lowercase q 0 v.rows,
    )
