-- ===== src/ListView/Validity.antt =====
-- What holds of a list view after any operations.
use misy.Common.{
  ℕ, zero, suc, ◌+◌, ◌≤◌, ◌<◌, ◌≡◌, refl, inl, inr, Bool, true, Option, none, some, List, [], ◌∷◌,
  length, get_elem?, arith, Bool-cases, ◌==◌,
}
use misy.Common.Texts.{Text}
use misy.ListView.{ListRow, ListView, Direction}
use misy.ListView.View.{
  is_some, is_some_and, position, has_value, first_selectable, entry_has_value, select_entry,
  select_number, step_index, move_loop, move_selection, visible_scroll_top, visible_rows,
  unwrap_or_zero, matching_from, apply_filter, new_view, insert_filter, set_filter,
  backspace_filter, has_this_value, select_value, or_first, reselect, replace_rows, selected_value,
}

pub position-get_elem? {ℓ} :
    {A : Type ℓ} (p : A → Bool) (xs : List A) (i : ℕ)
    → position p xs ≡ some i
    → is_some_and p (get_elem? xs i) ≡ true
unfolding position
position-get_elem? p [] i h = cc
position-get_elem? p (x ∷ xs) zero h = ground arith
position-get_elem? p (x ∷ xs) (suc i) h = ground (arith, position-get_elem? p xs i)

module _ {A : Type 0} where
  -- The entries are indices of rows, and what is selected is an entry whose row can be selected.
  pub record IsValid (v : ListView A) : Type 0 where
    pub in_range : (i s : ℕ) → get_elem? v.filtered i ≡ some s → s < length v.rows
    pub selectable : (i : ℕ) → v.selected ≡ some i → entry_has_value v i ≡ true

  first_selectable-HasValue :
      (v : ListView A) (i : ℕ) → first_selectable v ≡ some i → entry_has_value v i ≡ true
  unfolding first_selectable entry_has_value
  first_selectable-HasValue v i h = position-get_elem? (has_value v.rows) v.filtered i h

  entry-HasValue :
      (v : ListView A) (i source : ℕ)
      → get_elem? v.filtered i ≡ some source
      → has_value v.rows source ≡ true
      → entry_has_value v i ≡ true
  unfolding entry_has_value
  entry-HasValue v i source e t = rw e t

  -- Selecting an entry that can be selected keeps a view valid.
  select-IsValid :
      (v : ListView A) (i : ℕ)
      → IsValid v
      → entry_has_value v i ≡ true
      → IsValid (record v { selected = some i })
  unfolding entry_has_value
  select-IsValid v i h e = record {
    in_range = h.in_range;
    selectable = λ j k. ground (arith, e, k);
  }

  select_entry-IsValid :
      (v : ListView A) (i : ℕ) (o : Option ℕ)
      → get_elem? v.filtered i ≡ o
      → IsValid v
      → IsValid (select_entry v i o).0
  select_entry-IsValid v i none e h = h
  select_entry-IsValid v i (some source) e h = elim (Bool-cases (has_value v.rows source)) [
    | inl t ↦ rw t (select-IsValid v i h (entry-HasValue v i source e t))
    | inr f ↦ rw f h
  ]

  select_number-IsValid : (v : ListView A) (n : ℕ) → IsValid v → IsValid (select_number v n).0
  unfolding select_number
  select_number-IsValid v zero h = h
  select_number-IsValid v (suc i) h = select_entry-IsValid v i (get_elem? v.filtered i) refl h

  move_loop-IsValid :
      (v : ListView A) (d : Direction) (start left step : ℕ)
      → IsValid v
      → IsValid (move_loop v d start left step)
  unfolding move_loop
  move_loop-IsValid v d start zero step h = h
  move_loop-IsValid v d start (suc left) step h =
      let i = step_index d start (length v.filtered) step in
      elim (Bool-cases (entry_has_value v i)) [
        | inl e ↦ rw e (select-IsValid v i h e)
        | inr e ↦ rw e (move_loop-IsValid v d start left (step + 1) h)
      ]

  move_selection-IsValid :
      (v : ListView A) (d : Direction) → IsValid v → IsValid (move_selection v d)
  unfolding move_selection
  move_selection-IsValid v d h = elim (Bool-cases (length v.filtered == 0)) [
    | inl e ↦ rw e (record { in_range = h.in_range; selectable = λ i k. cc })
    | inr e ↦ rw e (move_loop-IsValid v d (unwrap_or_zero v.selected) (length v.filtered) 1 h)
  ]

  visible_rows-IsValid : (v : ListView A) (n : ℕ) → IsValid v → IsValid (visible_rows v n).1
  unfolding visible_rows visible_scroll_top entry_has_value
  visible_rows-IsValid v n h = record { in_range = h.in_range; selectable = h.selectable }

  -- A choice by `position` among the entries.
  chosen-IsValid :
      (v : ListView A) (p : ℕ → Bool)
      → ((i s : ℕ) → get_elem? v.filtered i ≡ some s → s < length v.rows)
      → ((s : ℕ) → p s ≡ true → has_value v.rows s ≡ true)
      → (top : ℕ) → IsValid (record v { selected = position p v.filtered; scroll_top = top })
  unfolding entry_has_value
  chosen-IsValid v p range h top = record {
    in_range = range;
    selectable =
        λ i k. chosen-HasValue (get_elem? v.filtered i) (position-get_elem? p v.filtered i k);
  }
    where
      chosen-HasValue :
          (o : Option ℕ) → is_some_and p o ≡ true → is_some_and (has_value v.rows) o ≡ true
      chosen-HasValue none t = t
      chosen-HasValue (some s) t = h s t

  or_first-IsValid : (v : ListView A) → IsValid v → IsValid (or_first v)
  unfolding first_selectable
  or_first-IsValid v h = elim (Bool-cases (is_some v.selected)) [
    | inl t ↦ rw t h
    | inr f ↦ rw f (chosen-IsValid v (has_value v.rows) h.in_range (λ s e. e) v.scroll_top)
  ]

module _ {A : Type 0} (to_lowercase : Text → Text) where
  matching_from-range :
      (q : Text) (k : ℕ) (rows : List (ListRow A)) (i s : ℕ)
      → get_elem? (matching_from to_lowercase q k rows) i ≡ some s
      → (k ≤ s) × (s < k + length rows)
  unfolding matching_from
  matching_from-range q k [] i s h = cc
  matching_from-range q k (row ∷ rows) zero s h =
      ground (arith, matching_from-range q (k + 1) rows zero s)
  matching_from-range q k (row ∷ rows) (suc i) s h =
      ground (
        arith,
        matching_from-range q (k + 1) rows (suc i) s,
        matching_from-range q (k + 1) rows i s,
      )

  apply_filter-IsValid : (v : ListView A) → IsValid (apply_filter to_lowercase v)
  unfolding apply_filter first_selectable
  apply_filter-IsValid v =
      let shown : ListView A = record v {
        filtered = matching_from to_lowercase (to_lowercase v.query) 0 v.rows;
      } in
      chosen-IsValid shown (has_value v.rows)
        (λ i s h. omega (arith, matching_from-range (to_lowercase v.query) 0 v.rows i s h))
        (λ s h. h) 0

module _ {A : Type 0} (eq : A → A → Bool) where
  this-HasValue :
      (rows : List (ListRow A)) (value : A) (s : ℕ)
      → has_this_value eq rows value s ≡ true
      → has_value rows s ≡ true
  unfolding has_this_value has_value
  this-HasValue rows value s h = ground arith

  select_value-IsValid :
      (v : ListView A) (value : A) → IsValid v → IsValid (select_value eq v value)
  unfolding select_value
  select_value-IsValid v value h =
      chosen-IsValid v (has_this_value eq v.rows value) h.in_range (this-HasValue v.rows value)
        v.scroll_top

  reselect-IsValid : (v : ListView A) (o : Option A) → IsValid v → IsValid (reselect eq v o)
  reselect-IsValid v none h = h
  reselect-IsValid v (some value) h =
      or_first-IsValid (select_value eq v value) (select_value-IsValid v value h)

-- The operations of a list view, in any order.
pub data Call (A : Type 0) : Type 0 where
  insert : Text → Call A
  set : Text → Call A
  backspace : Call A
  replace : List (ListRow A) → Call A
  move : Direction → Call A
  pick_value : A → Call A
  pick_number : ℕ → Call A
  show : ℕ → Call A

module _ {A : Type 0} (to_lowercase : Text → Text) (eq : A → A → Bool) where
  unfoldable pub call : ListView A → Call A → ListView A
  call v (insert text) = insert_filter to_lowercase v text
  call v (set query) = set_filter to_lowercase v query
  call v backspace = backspace_filter to_lowercase v
  call v (replace rows) = replace_rows to_lowercase eq v rows
  call v (move d) = move_selection v d
  call v (pick_value value) = select_value eq v value
  call v (pick_number n) = (select_number v n).0
  call v (show n) = (visible_rows v n).1

  unfoldable pub call_all : ListView A → List (Call A) → ListView A
  call_all v [] = v
  call_all v (c ∷ cs) = call_all (call v c) cs

  call-IsValid : (v : ListView A) (c : Call A) → IsValid v → IsValid (call v c)
  unfolding call insert_filter set_filter backspace_filter replace_rows
  call-IsValid v (insert text) h = apply_filter-IsValid to_lowercase _
  call-IsValid v (set query) h = apply_filter-IsValid to_lowercase _
  call-IsValid v backspace h = apply_filter-IsValid to_lowercase _
  call-IsValid v (replace rows) h =
      reselect-IsValid eq _ (selected_value v) (apply_filter-IsValid to_lowercase _)
  call-IsValid v (move d) h = move_selection-IsValid v d h
  call-IsValid v (pick_value value) h = select_value-IsValid eq v value h
  call-IsValid v (pick_number n) h = select_number-IsValid v n h
  call-IsValid v (show n) h = visible_rows-IsValid v n h

  call_all-IsValid : (v : ListView A) (cs : List (Call A)) → IsValid v → IsValid (call_all v cs)
  unfolding call_all
  call_all-IsValid v [] h = h
  call_all-IsValid v (c ∷ cs) h = call_all-IsValid (call v c) cs (call-IsValid v c h)

  -- After any operations on a new view, each entry is the index of a row, and what is selected is an
  -- entry whose row has a value.
  pub new_view-IsValid :
      (title : Text) (rows : List (ListRow A)) (cs : List (Call A))
      → IsValid (call_all (new_view to_lowercase title rows) cs)
  unfolding new_view
  new_view-IsValid title rows cs = call_all-IsValid _ cs (apply_filter-IsValid to_lowercase _)
