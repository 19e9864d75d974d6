-- ===== src/Dialog/Visible.antt =====
-- The row of the cursor is shown, `inline_presentation` of crates/misy-tui/src/tui/question_dialog.rs.
use misy.Common.{
  ℕ, zero, suc, ◌+◌, ◌-◌, ◌≤◌, ◌<◌, min, true, some, List, [], ◌∷◌, ◌++◌, ◌≡◌, refl, sym, ap, subst,
  ◌∙◌, Bool-cases, inl, inr, length, length-append, length-take, length-drop, drop, get_elem?,
  get_elem?-take, get_elem?-drop, ◌==◌, ==_iff, arith,
}
use misy.ListView.{ListRowDisplay}
use misy.Questions.{QuestionOption, QuestionItem}
use misy.Dialog.{QuestionPage}
use misy.Dialog.View.{option_rows, other_row, page_rows, first_row, shown_rows}

-- The row at an index is numbered from 1, and marked exactly if the cursor is on it.
pub record RowAt (p : QuestionPage) (rows : List ListRowDisplay) (at i : ℕ) : Type 0 where
  pub row : ListRowDisplay
  pub found : get_elem? rows at ≡ some row
  pub number : row.number ≡ i + 1
  pub marked : row.selected ≡ (p.cursor == i)

length-option_rows :
    (q : QuestionItem) (p : QuestionPage) (i : ℕ) (os : List QuestionOption)
    → length (option_rows q p i os) ≡ length os
unfolding option_rows
length-option_rows q p i [] = refl
length-option_rows q p i (o ∷ os) = ap suc (length-option_rows q p (suc i) os)

option_rows-at :
    (q : QuestionItem) (p : QuestionPage) (i k : ℕ) (os : List QuestionOption)
    (more : List ListRowDisplay)
    → k < length os
    → RowAt p (option_rows q p i os ++ more) k (i + k)
unfolding option_rows
option_rows-at q p i k [] more h = absurd (omega arith)
option_rows-at q p i zero (o ∷ os) more h = record {
  row = _;
  found = refl;
  number = omega arith;
  marked = ap (λ n. p.cursor == n) (omega arith);
}
option_rows-at q p i (suc k) (o ∷ os) more h =
    let r = option_rows-at q p (suc i) k os more (omega arith) in
    let place : suc i + k ≡ i + suc k = omega arith in
    record {
      row = r.row;
      found = r.found;
      number = r.number ∙ ap (λ n. n + 1) place;
      marked = r.marked ∙ ap (λ n. p.cursor == n) place;
    }

-- The row behind the first rows.
behind :
    (p : QuestionPage) (xs : List ListRowDisplay) (r : ListRowDisplay) (i : ℕ)
    → r.number ≡ i + 1
    → r.selected ≡ (p.cursor == i)
    → RowAt p (xs ++ r ∷ []) (length xs) i
behind p [] r i n m = record { row = r; found = refl; number = n; marked = m }
behind p (x ∷ xs) r i n m =
    let b = behind p xs r i n m in
    record { row = b.row; found = b.found; number = b.number; marked = b.marked }

page_rows-at :
    (q : QuestionItem) (p : QuestionPage) (k : ℕ)
    → k ≤ length q.options
    → RowAt p (page_rows q p) k k
unfolding page_rows
page_rows-at q p k h = elim (Bool-cases (k == length q.options)) [
  | inl e ↦
      let last : length (option_rows q p 0 q.options) ≡ k =
        length-option_rows q p 0 q.options ∙ sym ((==_iff k (length q.options)).0 e) in
      subst (λ n. RowAt p (page_rows q p) n k) last
        (behind p (option_rows q p 0 q.options) (other_row q p) k (ground (arith, e))
          (ap (λ n. p.cursor == n) (ground (arith, e))))
  | inr e ↦
      subst (RowAt p (page_rows q p) k) (omega arith)
        (option_rows-at q p 0 k q.options (other_row q p ∷ []) (ground (arith, h, e)))
]

length-page_rows :
    (q : QuestionItem) (p : QuestionPage) → length (page_rows q p) ≡ length q.options + 1
unfolding page_rows
length-page_rows q p = omega (
  arith,
  length-append (option_rows q p 0 q.options) (other_row q p ∷ []),
  length-option_rows q p 0 q.options,
)

-- However few rows fit, one at least, the rows shown are as many as fit, or all of them, and the
-- row of the cursor is among them, with its number and its mark.
pub shown_rows-cursor :
    (q : QuestionItem) (p : QuestionPage) (visible : ℕ)
    → p.cursor ≤ length q.options
    → 0 < visible
    → (length (shown_rows q p visible) ≡ min visible (length q.options + 1))
      × ((at : ℕ) × (row : ListRowDisplay) × (get_elem? (shown_rows q p visible) at ≡ some row)
          × (row.number ≡ p.cursor + 1)
          × (row.selected ≡ true))
unfolding shown_rows
shown_rows-cursor q p visible h v =
    let all : List ListRowDisplay = page_rows q p in
    let first : ℕ = first_row p.cursor visible (length all) in
    let n : length all ≡ length q.options + 1 = length-page_rows q p in
    let r = page_rows-at q p p.cursor h in
    let place : first + (p.cursor - first) ≡ p.cursor = omega arith in
    (
      omega (arith, n, length-take visible (drop first all), length-drop first all),
      (
        p.cursor - first,
        r.row,
        get_elem?-take visible (p.cursor - first) (drop first all) (omega (arith, n))
            ∙ get_elem?-drop first (p.cursor - first) all
            ∙ ap (get_elem? all) place
            ∙ r.found,
        r.number,
        r.marked ∙ (==_iff p.cursor p.cursor).1 refl,
      ),
    )
