-- ===== src/ListView/View.antt =====
-- The operations of `ListView` in crates/misy-tui/src/tui/list.rs.
use mathlib.Core.Option
use misy.Common.{
  ℕ, zero, suc, ◌+◌, ◌-◌, ◌%◌, Bool, true, false, ◌||◌, Option, none, some, List, [], ◌∷◌, ◌++◌,
  map, length, get_elem?, drop, take, ltb, leb, ◌==◌, any, if◌then◌else◌, saturating_add,
}
use misy.Common.Texts.{Text, is_empty, contains}
use misy.ListView.{ListRow, ListRowDisplay, ListView, Direction, up, down}

abbrev pub is_some {ℓ} : {A : Type ℓ} → Option A → Bool
is_some none = false
is_some (some a) = true

abbrev pub is_some_and {ℓ} : {A : Type ℓ} → (A → Bool) → Option A → Bool
is_some_and p none = false
is_some_and p (some a) = p a

-- `Iterator::position`.
unfoldable pub position {ℓ} : {A : Type ℓ} → (A → Bool) → List A → Option ℕ
position p [] = none
position p (x ∷ xs) =
    let later = Option.map (λ i. i + 1) (position p xs) in if p x then some 0 else later

-- `String::pop`.
abbrev pop : Text → Text
pop [] = []
pop (c ∷ []) = []
pop (c ∷ d ∷ cs) = c ∷ pop (d ∷ cs)

abbrev entry_of : List ℕ → Option ℕ → Option ℕ
entry_of filtered none = none
entry_of filtered (some i) = get_elem? filtered i

-- The index that is tried at a step of `move_selection`.
unfoldable pub step_index : Direction → ℕ → ℕ → ℕ → ℕ
step_index up start n step = (start + n - step % n) % n
step_index down start n step = (start + step) % n

abbrev pub unwrap_or_zero : Option ℕ → ℕ
unwrap_or_zero none = 0
unwrap_or_zero (some i) = i

abbrev pub scroll_to : ℕ → ℕ → ℕ → ℕ
scroll_to selected scroll_top rows =
    if ltb selected scroll_top
    then selected
    else if leb (saturating_add scroll_top rows) selected
    then selected + 1 - rows
    else scroll_top

abbrev pub next_scroll_top : Option ℕ → ℕ → ℕ → ℕ
next_scroll_top none scroll_top rows = 0
next_scroll_top (some selected) scroll_top zero = scroll_top
next_scroll_top (some selected) scroll_top (suc n) = scroll_to selected scroll_top (suc n)

abbrev is_selected : Option ℕ → ℕ → Bool
is_selected none i = false
is_selected (some j) i = j == i

module _ {A : Type 0} where
  -- Whether the row of an index can be selected.
  unfoldable pub has_value : List (ListRow A) → ℕ → Bool
  has_value rows i = is_some_and (λ row. is_some row.value) (get_elem? rows i)

  unfoldable pub first_selectable : ListView A → Option ℕ
  unfolding position has_value
  first_selectable v = position (has_value v.rows) v.filtered

  abbrev row_of : List (ListRow A) → Option ℕ → Option (ListRow A)
  row_of rows none = none
  row_of rows (some i) = get_elem? rows i

  unfoldable pub selected_row : ListView A → Option (ListRow A)
  selected_row v = row_of v.rows (entry_of v.filtered v.selected)

  abbrev value_of : Option (ListRow A) → Option A
  value_of none = none
  value_of (some row) = row.value

  unfoldable pub selected_value : ListView A → Option A
  unfolding selected_row
  selected_value v = value_of (selected_row v)

  unfoldable pub labels : ListView A → List (Option Text)
  labels v = map (λ i. Option.map (λ (row : ListRow A). row.label) (get_elem? v.rows i)) v.filtered

  abbrev pub select_entry : ListView A → ℕ → Option ℕ → ListView A × Bool
  select_entry v i none = (v, false)
  select_entry v i (some source) =
      if has_value v.rows source then (record v { selected = some i }, true) else (v, false)

  unfoldable pub select_number : ListView A → ℕ → ListView A × Bool
  unfolding has_value
  select_number v zero = (v, false)
  select_number v (suc i) = select_entry v i (get_elem? v.filtered i)

  unfoldable pub entry_has_value : ListView A → ℕ → Bool
  unfolding has_value
  entry_has_value v i = is_some_and (has_value v.rows) (get_elem? v.filtered i)

  -- The loop of `move_selection` from a step on, with the number of steps that are left.
  unfoldable pub move_loop : ListView A → Direction → ℕ → ℕ → ℕ → ListView A
  unfolding step_index entry_has_value
  move_loop v direction start zero step = v
  move_loop v direction start (suc left) step =
      let i = step_index direction start (length v.filtered) step in
      let later = move_loop v direction start left (step + 1) in
      if entry_has_value v i then record v { selected = some i } else later

  unfoldable pub move_selection : ListView A → Direction → ListView A
  move_selection v direction =
      if length v.filtered == 0
      then record v { selected = none }
      else move_loop v direction (unwrap_or_zero v.selected) (length v.filtered) 1

  -- The state with the scroll position that is also the answer.
  unfoldable pub visible_scroll_top : ListView A → ℕ → ListView A
  visible_scroll_top v rows = record v { scroll_top = next_scroll_top v.selected v.scroll_top rows }

  abbrev pub display : ListView A → ℕ → ListRow A → ListRowDisplay
  display v i row = record {
    number = i + 1;
    label = row.label;
    context = row.context;
    pricing = row.pricing;
    provider = row.provider;
    description = row.description;
    selected = is_selected v.selected i;
    current = row.current;
  }

  -- The entries with their positions in the filtered list.
  abbrev pub display_from : ListView A → ℕ → List ℕ → List (Option ListRowDisplay)
  display_from v i [] = []
  display_from v i (source ∷ rest) =
      Option.map (display v i) (get_elem? v.rows source) ∷ display_from v (i + 1) rest

  unfoldable pub visible_rows : ListView A → ℕ → List (Option ListRowDisplay) × ListView A
  unfolding visible_scroll_top
  visible_rows v rows =
      let v' = visible_scroll_top v rows in
      (take rows (drop v'.scroll_top (display_from v 0 v.filtered)), v')

  abbrev pub or_first : ListView A → ListView A
  or_first v = if is_some v.selected then v else record v { selected = first_selectable v }

module _ {A : Type 0} (eq : A → A → Bool) where
  unfoldable pub has_this_value : List (ListRow A) → A → ℕ → Bool
  has_this_value rows value i =
      is_some_and (λ row. is_some_and (λ w. eq w value) row.value) (get_elem? rows i)

  unfoldable pub select_value : ListView A → A → ListView A
  unfolding has_this_value
  select_value v value = record v { selected = position (has_this_value v.rows value) v.filtered }

  abbrev pub reselect : ListView A → Option A → ListView A
  reselect v none = v
  reselect v (some value) = or_first (select_value v value)

module _ {A : Type 0} (to_lowercase : Text → Text) where
  -- Whether a row is shown under a query in lower case.
  unfoldable pub matches_query : Text → ListRow A → Bool
  unfolding is_empty
  matches_query query row =
      is_empty query
      || contains query (to_lowercase row.label)
      || is_some_and (λ d. contains query (to_lowercase d)) row.description
      || any (λ term. contains query (to_lowercase term)) row.search_terms

  -- The indices of the rows that are shown, counted from `i`.
  unfoldable pub matching_from : Text → ℕ → List (ListRow A) → List ℕ
  matching_from query i [] = []
  matching_from query i (row ∷ rest) =
      let later = matching_from query (i + 1) rest in
      if matches_query query row then i ∷ later else later

  unfoldable pub apply_filter : ListView A → ListView A
  apply_filter v =
      let shown = record v { filtered = matching_from (to_lowercase v.query) 0 v.rows } in
      record shown { selected = first_selectable shown; scroll_top = 0 }

  unfoldable pub new_view : Text → List (ListRow A) → ListView A
  new_view title rows = apply_filter (record {
    title = title;
    rows = rows;
    filtered = [];
    query = [];
    selected = none;
    scroll_top = 0;
  })

  unfoldable pub insert_filter : ListView A → Text → ListView A
  insert_filter v text = apply_filter (record v { query = v.query ++ text })

  unfoldable pub set_filter : ListView A → Text → ListView A
  set_filter v query = apply_filter (record v { query = query })

  unfoldable pub backspace_filter : ListView A → ListView A
  backspace_filter v = apply_filter (record v { query = pop v.query })

  unfoldable pub replace_rows : (A → A → Bool) → ListView A → List (ListRow A) → ListView A
  replace_rows eq v rows = reselect eq (apply_filter (record v { rows = rows })) (selected_value v)
