-- ===== src/ListView.antt =====
-- The lists of the bottom pane, crates/misy-tui/src/tui/list.rs: filter, selection and scrolling.
-- The value of a row has a type of its own; `str::to_lowercase` and the comparison of values are
-- parameters. A read of `rows` out of range, a panic in the source, is `none` here.
pub mod View
pub mod Validity
pub mod Moves
pub mod Matches
pub mod Shown
pub mod Examples
use misy.Common.{
  ℕ, zero, suc, ◌+◌, ◌-◌, ◌%◌, Bool, true, false, not, ◌||◌, Option, none, some, List, [], ◌∷◌,
  ◌++◌, map, length, get_elem?, drop, take, ltb, leb, ◌==◌, any, if◌then◌else◌, saturating_add,
}
use misy.Common.Texts.{Text, is_empty, contains}

pub record ListRow (A : Type 0) : Type 0 where
  pub value : Option A
  pub label : Text
  pub context : Option Text
  pub pricing : Option Text
  pub provider : Option Text
  pub description : Option Text
  pub current : Bool
  pub search_terms : List Text

pub record ListRowDisplay : Type 0 where
  pub number : ℕ
  pub label : Text
  pub context : Option Text
  pub pricing : Option Text
  pub provider : Option Text
  pub description : Option Text
  pub selected : Bool
  pub current : Bool

pub record ListView (A : Type 0) : Type 0 where
  pub title : Text
  pub rows : List (ListRow A)
  pub filtered : List ℕ
  pub query : Text
  pub selected : Option ℕ
  pub scroll_top : ℕ

pub data Direction : Type 0 where
  up down : Direction

module _ {A : Type 0} where
  unfoldable pub selectable : A → Text → Option Text → ListRow A
  selectable value label description = record {
    value = some value;
    label = label;
    context = none;
    pricing = none;
    provider = none;
    description = description;
    current = false;
    search_terms = [];
  }

  unfoldable pub with_model_columns : ListRow A → Text → Text → Text → ListRow A
  with_model_columns row context pricing provider = record row {
    context = some context;
    pricing = some pricing;
    provider = some provider;
  }

  unfoldable pub selectable_with_search : A → Text → Option Text → Text → ListRow A
  unfolding selectable
  selectable_with_search value label description term =
      record (selectable value label description) { search_terms = term ∷ [] }

  unfoldable pub current_row : A → Text → Option Text → ListRow A
  unfolding selectable
  current_row value label description = record (selectable value label description) {
    current = true;
  }

  unfoldable pub current_with_search : A → Text → Option Text → Text → ListRow A
  unfolding current_row
  current_with_search value label description term = record (current_row value label description) {
    search_terms = term ∷ [];
  }

  unfoldable pub informational : Text → ListRow A
  informational label = record {
    value = none;
    label = label;
    context = none;
    pricing = none;
    provider = none;
    description = none;
    current = false;
    search_terms = [];
  }
