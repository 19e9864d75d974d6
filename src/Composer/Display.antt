-- ===== src/Composer/Display.antt =====
-- What the composer shows, crates/misy-tui/src/tui/composer.rs: the popup of the commands, and the
-- cursor's place on the display, with the width of a text as a parameter.
use misy.Common.{
  ℕ, ◌+◌, ◌-◌, min, Bool, true, false, not, Option, none, some, List, [], ◌∷◌, ◌++◌, length,
  get_elem?, take, back, ltb, ◌==◌, if◌then◌else◌,
}
use misy.Common.Texts.{Text}
use misy.Common.Utf8.{byte_len, split_at, ◌>>=◌, replace_range}
use misy.Composer.Commands.{
  CommandPopupRow, new_popup, matches, first_line, command_token, visible_for, selected_command,
  popup_rows, popup_up, popup_down,
}
use misy.Composer.Edits.{Composer, detach_history, sync_popup_after_edit, snap_cursor, at_cursor}

-- The lines of a text, `split('\n')`: one at least.
abbrev pub onto_first : ℕ → List Text → List Text
onto_first c [] = (c ∷ []) ∷ []
onto_first c (l ∷ ls) = (c ∷ l) ∷ ls

unfoldable pub lines : Text → List Text
lines [] = [] ∷ []
lines (c ∷ cs) = let rest = lines cs in if c == 10 then [] ∷ rest else onto_first c rest

abbrev pub total_bytes : List Text → ℕ
total_bytes [] = 0
total_bytes (l ∷ ls) = byte_len l + 1 + total_bytes ls

abbrev last_line : Option Text → Text
last_line none = []
last_line (some l) = l

module _ (width : Text → ℕ) where
  -- The byte of the character that covers a column of a line.
  unfoldable pub byte_at_display_column : ℕ → ℕ → Text → ℕ
  unfolding byte_len
  byte_at_display_column shown column [] = 0
  byte_at_display_column shown column (c ∷ cs) =
      let rest = byte_at_display_column (shown + width (c ∷ [])) column cs in
      if ltb column (shown + width (c ∷ [])) then 0 else byte_len (c ∷ []) + rest

  -- Column and row, each at most 65535.
  unfoldable pub cursor_position : {Image : Type 0} → Composer Image → Option (ℕ × ℕ)
  unfolding lines split_at
  cursor_position c = do
    (prefix, after) ← split_at c.now.cursor c.now.text
    some
        (min (width (last_line (back (lines prefix)))) 65535, min (length (lines prefix) - 1) 65535)

module _ {Image : Type 0} where
  unfoldable pub popup_visible : Composer Image → Bool
  unfolding command_token
  popup_visible c =
      if not (length c.now.images == 0)
      then false
      else visible_for c.popup (command_token c.now.text c.now.cursor)

  unfoldable pub popup_rows_for_render : Composer Image → List CommandPopupRow
  unfolding popup_visible matches popup_rows
  popup_rows_for_render c = if popup_visible c then popup_rows c.popup (matches c.now.text) else []

  unfoldable pub move_popup_up : Composer Image → Composer Image
  unfolding popup_up
  move_popup_up c = record c { popup = popup_up c.now.text c.popup }

  unfoldable pub move_popup_down : Composer Image → Composer Image
  unfolding popup_down
  move_popup_down c = record c { popup = popup_down c.now.text c.popup }

  unfoldable pub dismiss_popup : Composer Image → Composer Image
  unfolding command_token
  dismiss_popup c = record c {
    popup = record c.popup { dismissed_token = command_token c.now.text c.now.cursor };
  }

  -- The ranges of the images stay as they are.
  abbrev pub complete_with : Composer Image → Option Text → Option (Bool × Composer Image)
  complete_with c none = some (false, c)
  complete_with c (some name) = do
    text ← replace_range 0 (byte_len (first_line c.now.text)) (name ++ 32 ∷ []) c.now.text
    some (
      true,
      record (detach_history c) {
        now = record c.now { text = text; cursor = byte_len (name ++ 32 ∷ []) };
        popup = new_popup;
      },
    )

  unfoldable pub complete_selected_command : Composer Image → Option (Bool × Composer Image)
  unfolding selected_command detach_history first_line replace_range byte_len
  complete_selected_command c = complete_with c (selected_command c.now.text c.popup)

  module _ (width : Text → ℕ) where
    abbrev pub positioned : ℕ → ℕ → Composer Image → Option Text → Composer Image
    positioned row column c none = at_cursor (byte_len c.now.text) c
    positioned row column c (some line) = sync_popup_after_edit (
        detach_history (
          at_cursor
            (snap_cursor c.now.images (
              total_bytes (take row (lines c.now.text))
              + byte_at_display_column width 0 column line))
            c))

    unfoldable pub position_cursor : ℕ → ℕ → Composer Image → Composer Image
    unfolding lines byte_len byte_at_display_column snap_cursor detach_history sync_popup_after_edit
    position_cursor row column c = positioned row column c (get_elem? (lines c.now.text) row)
