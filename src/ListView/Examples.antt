-- ===== src/ListView/Examples.antt =====
-- The theorems on list views at a list of three rows, one of which cannot be selected.
use misy.Common.{
  ◌↔◌, ℕ, ◌+◌, ◌<◌, ◌≡◌, refl, true, none, some, List, [], ◌∷◌, get_elem?, any, ◌==◌, arith,
}
use misy.Common.Texts.{Text, is_empty}
use misy.ListView.{ListRow, ListRowDisplay, ListView, up, down, selectable, informational}
use misy.ListView.View.{
  first_selectable, matches_query, matching_from, apply_filter, new_view, visible_rows,
  move_selection, unwrap_or_zero,
}
use misy.ListView.Validity.{
  IsValid, Call, insert, move, pick_value, pick_number, show, call_all, new_view-IsValid,
}
use misy.ListView.Moves.{SelectsNext, move_selection_lem}
use misy.ListView.Matches.{MatchesAt}
use misy.ListView.Shown.{Ascends, visible_rows-selected, apply_filter_lem}

abbrev as_is : Text → Text
as_is t = t

abbrev three_rows : List (ListRow ℕ)
three_rows =
    selectable 1 (97 ∷ []) none ∷ informational (98 ∷ []) ∷ selectable 2 (99 ∷ []) none ∷ []

abbrev some_calls : List (Call ℕ)
some_calls = move down ∷ pick_number 2 ∷ pick_value 1 ∷ move up ∷ insert (97 ∷ []) ∷ show 8 ∷ []

new_view-IsValid_example : IsValid (call_all as_is ◌==◌ (new_view as_is [] three_rows) some_calls)
new_view-IsValid_example = new_view-IsValid as_is ◌==◌ [] three_rows some_calls

abbrev three_view : ListView ℕ
three_view = record {
  title = [];
  rows = three_rows;
  filtered = 0 ∷ 1 ∷ 2 ∷ [];
  query = [];
  selected = some 0;
  scroll_top = 0;
}

new_view_runs : new_view as_is [] three_rows ≡ three_view
unfolding new_view apply_filter matching_from matches_query first_selectable selectable
    informational is_empty
new_view_runs = refl

move_selection_lem_example :
    SelectsNext three_view down
      (unwrap_or_zero three_view.selected)
      (move_selection three_view down)
move_selection_lem_example = move_selection_lem three_view down (omega arith)

three_view-IsValid : IsValid three_view
unfolding call_all
three_view-IsValid = rw (← new_view_runs) (new_view-IsValid as_is ◌==◌ [] three_rows [])

visible_rows-selected_example :
    (d : ListRowDisplay) × (place : ℕ) × (place < 2)
    × (get_elem? (visible_rows three_view 2).0 place ≡ some (some d))
    × (d.selected ≡ true)
    × (d.number ≡ 0 + 1)
visible_rows-selected_example =
    visible_rows-selected three_view 2 0 three_view-IsValid refl (omega arith) (omega arith)

apply_filter_lem_example :
    ((any (λ i. i == 2) (apply_filter as_is three_view).filtered ≡ true)
      ↔ MatchesAt as_is (as_is three_view.query) (get_elem? three_view.rows 2))
    × Ascends 0 (apply_filter as_is three_view).filtered
apply_filter_lem_example = apply_filter_lem as_is three_view 2
