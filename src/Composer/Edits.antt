-- ===== src/Composer/Edits.antt =====
-- The calls of the composer that edit a draft and move its cursor,
-- crates/misy-tui/src/tui/composer.rs, with the cursor's part of composer_attachment.rs. None is a
-- panic; the width of a text on the display is a parameter.
use misy.Common.{
  ℕ, ◌+◌, ◌/◌, Bool, true, false, ◌&&◌, Option, none, some, List, [], ◌∷◌, ltb, leb, ◌==◌,
  if◌then◌else◌, saturating_sub,
}
use misy.Common.Texts.{Text}
use misy.Common.Utf8.{len_utf8, byte_len, split_at, ◌>>=◌, insert_at, replace_range}
use misy.Composer.{
  AttachedImage, Draft, Inserted, placed, too_many, insert_image, shift_for_insert,
  shift_for_remove, remove_before, remove_at, position,
}
use misy.Composer.Commands.{CommandPopup, new_popup, sync_popup}

-- A snapshot of the composer is its draft.
pub record Composer (Image : Type 0) : Type 0 where
  pub now : Draft Image
  pub history : List (Draft Image)
  pub history_index : Option ℕ
  pub history_draft : Option (Draft Image)
  pub popup : CommandPopup

-- Where the last character of a text begins; 0 with no character.
abbrev later_start : ℕ → Text → ℕ → ℕ
later_start c [] rest = 0
later_start c (d ∷ ds) rest = len_utf8 c + rest

unfoldable pub last_start : Text → ℕ
unfolding len_utf8
last_start [] = 0
last_start (c ∷ cs) = later_start c cs (last_start cs)

unfoldable pub previous_boundary : Text → ℕ → Option ℕ
unfolding last_start split_at
previous_boundary text cursor = do (before, after) ← split_at cursor text; some (last_start before)

abbrev pub end_of_first : Text → ℕ → Text → ℕ
end_of_first text cursor [] = byte_len text
end_of_first text cursor (c ∷ cs) = cursor + len_utf8 c

unfoldable pub next_boundary : Text → ℕ → Option ℕ
unfolding len_utf8 byte_len split_at
next_boundary text cursor = do
  (before, after) ← split_at cursor text
  some (end_of_first text cursor after)

module _ {Image : Type 0} where
  abbrev pub start_or : Option ℕ → Option (ℕ × AttachedImage Image) → Option ℕ
  start_or boundary none = boundary
  start_or boundary (some (i, a)) = some a.start

  abbrev pub stop_or : Option ℕ → Option (ℕ × AttachedImage Image) → Option ℕ
  stop_or boundary none = boundary
  stop_or boundary (some (i, a)) = some a.stop

  unfoldable pub previous_cursor : List (AttachedImage Image) → Text → ℕ → Option ℕ
  unfolding previous_boundary position
  previous_cursor images text cursor =
      start_or (previous_boundary text cursor) (position (λ a. a.stop == cursor) images)

  unfoldable pub next_cursor : List (AttachedImage Image) → Text → ℕ → Option ℕ
  unfolding next_boundary position
  next_cursor images text cursor =
      stop_or (next_boundary text cursor) (position (λ a. a.start == cursor) images)

  abbrev pub nearer : ℕ → Option (ℕ × AttachedImage Image) → ℕ
  nearer cursor none = cursor
  nearer cursor (some (i, a)) =
      if leb cursor (a.start + saturating_sub a.stop a.start / 2) then a.start else a.stop

  -- A cursor inside a token goes to its nearer end.
  unfoldable pub snap_cursor : List (AttachedImage Image) → ℕ → ℕ
  unfolding position
  snap_cursor images cursor =
      nearer cursor (position (λ a. ltb a.start cursor && ltb cursor a.stop) images)

  unfoldable pub new_composer : Composer Image
  new_composer = record {
    now = record { text = []; cursor = 0; images = [] };
    history = [];
    history_index = none;
    history_draft = none;
    popup = new_popup;
  }

  unfoldable pub detach_history : Composer Image → Composer Image
  detach_history c = record c { history_index = none; history_draft = none }

  unfoldable pub sync_popup_after_edit : Composer Image → Composer Image
  unfolding sync_popup
  sync_popup_after_edit c = record c { popup = sync_popup c.now.text c.now.cursor c.popup }

  -- An edit of the draft: it leaves the history, and the popup follows the text.
  abbrev pub edited : Composer Image → Draft Image → Composer Image
  edited c d = sync_popup_after_edit (record (detach_history c) { now = d })

  -- With true: the image was inserted.
  abbrev image_done : Composer Image → Inserted Image → Bool × Composer Image
  image_done c (placed d) = (true, edited c d)
  image_done c too_many = (false, detach_history c)

  unfoldable pub insert_composer_image : Image → Composer Image → Option (Bool × Composer Image)
  unfolding insert_image detach_history sync_popup_after_edit
  insert_composer_image image c = do done ← insert_image c.now image; some (image_done c done)

  abbrev pub with_text : Draft Image → Text → Text → Draft Image
  with_text d new text = record {
    text = text;
    cursor = d.cursor + byte_len new;
    images = shift_for_insert d.cursor (byte_len new) d.images;
  }

  unfoldable pub insert_str : Text → Composer Image → Option (Composer Image)
  unfolding shift_for_insert detach_history sync_popup_after_edit insert_at byte_len
  insert_str new c = do
    text ← insert_at c.now.cursor new c.now.text
    some (edited c (with_text c.now new text))

  unfoldable pub insert_newline : Composer Image → Option (Composer Image)
  unfolding insert_str
  insert_newline c = insert_str (10 ∷ []) c

  abbrev pub at_cursor : ℕ → Composer Image → Composer Image
  at_cursor cursor c = record c { now = record c.now { cursor = cursor } }

  unfoldable pub move_left : Composer Image → Option (Composer Image)
  unfolding previous_cursor
  move_left c = do
    cursor ← previous_cursor c.now.images c.now.text c.now.cursor
    some (at_cursor cursor c)

  unfoldable pub move_right : Composer Image → Option (Composer Image)
  unfolding next_cursor
  move_right c = do
    cursor ← next_cursor c.now.images c.now.text c.now.cursor
    some (at_cursor cursor c)

  unfoldable pub move_home : Composer Image → Composer Image
  move_home c = at_cursor 0 c

  unfoldable pub move_end : Composer Image → Composer Image
  unfolding byte_len
  move_end c = at_cursor (byte_len c.now.text) c

  abbrev pub without_range : Draft Image → ℕ → ℕ → Text → Draft Image
  without_range d start stop text = record {
    text = text;
    cursor = start;
    images = shift_for_remove start stop d.images;
  }

  unfoldable pub remove_range : ℕ → ℕ → Composer Image → Option (Composer Image)
  unfolding shift_for_remove detach_history sync_popup_after_edit replace_range
  remove_range start stop c = do
    text ← replace_range start stop [] c.now.text
    some (edited c (without_range c.now start stop text))

  abbrev pub after_token :
      Composer Image → Option (Composer Image) → Option (Draft Image) → Option (Composer Image)
  after_token c otherwise none = otherwise
  after_token c otherwise (some d) = some (edited c d)

  -- A token in front of the cursor goes as a whole.
  unfoldable pub backspace_at : Composer Image → Option (Composer Image)
  unfolding remove_before previous_boundary remove_range
  backspace_at c = do
    token ← remove_before c.now
    after_token c
        (previous_boundary c.now.text c.now.cursor >>= λ start. remove_range start c.now.cursor c)
        token

  unfoldable pub delete_at : Composer Image → Option (Composer Image)
  unfolding remove_at next_boundary remove_range
  delete_at c = do
    token ← remove_at c.now
    after_token c
        (next_boundary c.now.text c.now.cursor >>= λ stop. remove_range c.now.cursor stop c) token

  unfoldable pub backspace : Composer Image → Option (Composer Image)
  unfolding backspace_at
  backspace c = if c.now.cursor == 0 then some c else backspace_at c

  unfoldable pub delete : Composer Image → Option (Composer Image)
  unfolding delete_at byte_len
  delete c = if c.now.cursor == byte_len c.now.text then some c else delete_at c
