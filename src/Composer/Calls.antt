-- ===== src/Composer/Calls.antt =====
-- Sequences of calls on the composer, crates/misy-tui/src/tui/composer.rs, without images.
use misy.Common.{ℕ, Bool, Option, none, some, List, [], ◌∷◌}
use misy.Common.Texts.{Text}
use misy.Composer.Edits.{
  Composer, insert_str, insert_newline, move_left, move_right, move_home, move_end, backspace,
  delete,
}
use misy.Composer.Display.{
  move_popup_up, move_popup_down, dismiss_popup, complete_selected_command, position_cursor,
}
use misy.Composer.History.{record_submitted, clear, history_previous, history_next}

pub data Call : Type 0 where
  inserts : Text → Call
  breaks_line : Call
  goes_left : Call
  goes_right : Call
  goes_home : Call
  goes_end : Call
  erases : Call
  deletes : Call
  popup_goes_up : Call
  popup_goes_down : Call
  dismisses : Call
  completes : Call
  records : Text → Call
  clears : Call
  goes_back : Call
  goes_on : Call
  points : ℕ → ℕ → Call

module _ {Image : Type 0} where
  abbrev pub outcome : Option (Bool × Composer Image) → Option (Composer Image)
  outcome none = none
  outcome (some (done, c)) = some c

module _ {Image : Type 0} (same_image : Image → Image → Bool) (width : Text → ℕ) where
  unfoldable pub step : Call → Composer Image → Option (Composer Image)
  unfolding insert_str insert_newline move_left move_right move_home move_end backspace delete
      move_popup_up move_popup_down dismiss_popup complete_selected_command record_submitted clear
      history_previous history_next position_cursor
  step (inserts text) c = insert_str text c
  step breaks_line c = insert_newline c
  step goes_left c = move_left c
  step goes_right c = move_right c
  step goes_home c = some (move_home c)
  step goes_end c = some (move_end c)
  step erases c = backspace c
  step deletes c = delete c
  step popup_goes_up c = some (move_popup_up c)
  step popup_goes_down c = some (move_popup_down c)
  step dismisses c = some (dismiss_popup c)
  step completes c = outcome (complete_selected_command c)
  step (records text) c = outcome (record_submitted same_image text c)
  step clears c = some (clear c)
  step goes_back c = history_previous c
  step goes_on c = history_next c
  step (points row column) c = some (position_cursor width row column c)

  unfoldable pub run : List Call → Option (Composer Image) → Option (Composer Image)
  unfolding step
  run [] c = c
  run (call ∷ more) none = none
  run (call ∷ more) (some c) = run more (step call c)
