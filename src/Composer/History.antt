-- ===== src/Composer/History.antt =====
-- The history of what was submitted, crates/misy-tui/src/tui/composer.rs.
use misy.Common.{
  ℕ, ◌+◌, ◌-◌, Bool, true, false, not, ◌&&◌, ◌||◌, Option, none, some, List, [], ◌∷◌, ◌++◌, length,
  get_elem?, drop, back, ltb, ◌==◌, if◌then◌else◌, saturating_sub,
}
use misy.Common.Texts.{Text, trim, is_empty, text_eq}
use misy.Common.Utf8.{byte_len, ◌>>=◌}
use misy.Composer.{AttachedImage, Draft, history_text}
use misy.Composer.Commands.{new_popup, dismissed_popup}
use misy.Composer.Edits.{Composer, new_composer}

abbrev pub max_history_entries : ℕ
max_history_entries = 100

module _ {Image : Type 0} where
  unfoldable pub clear : Composer Image → Composer Image
  clear c = record {
    now = record { text = []; cursor = 0; images = [] };
    history = c.history;
    history_index = none;
    history_draft = none;
    popup = new_popup;
  }

  unfoldable pub remove_attachments : Draft Image → Option (Draft Image)
  unfolding history_text byte_len
  remove_attachments entry = do
    text ← history_text entry.images entry.text
    some (record { text = text; cursor = byte_len text; images = [] })

  unfoldable pub strip_all : List (Draft Image) → Option (List (Draft Image))
  unfolding remove_attachments
  strip_all [] = some []
  strip_all (entry ∷ more) = do
    entry' ← remove_attachments entry
    more' ← strip_all more
    some (entry' ∷ more')

  abbrev pub with_entry : List (Draft Image) → Draft Image → List (Draft Image)
  with_entry history entry =
      let longer = history ++ entry ∷ [] in
      if ltb max_history_entries (length longer) then drop 1 longer else longer

  abbrev pub recorded : Composer Image → Draft Image → List (Draft Image) → Composer Image
  recorded c entry history = record c {
    history = with_entry history entry;
    history_index = none;
    history_draft = none;
  }

  -- Older entries keep no images once an entry with images follows.
  abbrev pub push_entry : Composer Image → Draft Image → Option (Bool × Composer Image)
  push_entry c entry = do
    history ← (if length entry.images == 0 then some c.history else strip_all c.history)
    some (true, recorded c entry history)

  module _ (same_image : Image → Image → Bool) where
    abbrev same_attached : AttachedImage Image → AttachedImage Image → Bool
    same_attached a b = same_image a.image b.image && a.start == b.start && a.stop == b.stop

    abbrev same_attachments : List (AttachedImage Image) → List (AttachedImage Image) → Bool
    same_attachments [] [] = true
    same_attachments (a ∷ more) (b ∷ more') = same_attached a b && same_attachments more more'
    same_attachments _ _ = false

    unfoldable pub matches_entry : Draft Image → Draft Image → Bool
    unfolding text_eq
    matches_entry entry other =
        text_eq entry.text other.text && same_attachments entry.images other.images

    abbrev pub matches_last : Option (Draft Image) → Draft Image → Bool
    matches_last none entry = false
    matches_last (some l) entry = matches_entry l entry

    unfoldable pub record_submitted_snapshot :
        Draft Image → Composer Image → Option (Bool × Composer Image)
    unfolding strip_all matches_entry trim is_empty
    record_submitted_snapshot entry c =
        if (is_empty (trim entry.text) && length entry.images == 0)
          || matches_last (back c.history) entry
        then some (false, c)
        else push_entry c entry

    unfoldable pub record_submitted : Text → Composer Image → Option (Bool × Composer Image)
    unfolding record_submitted_snapshot byte_len
    record_submitted text c =
        record_submitted_snapshot (record { text = text; cursor = byte_len text; images = [] }) c

    unfoldable pub record_each : List Text → Composer Image → Option (Composer Image)
    unfolding record_submitted
    record_each [] c = some c
    record_each (text ∷ more) c = do (known, c') ← record_submitted text c; record_each more c'

    unfoldable pub with_history : List Text → Option (Composer Image)
    unfolding record_each new_composer
    with_history history = record_each history new_composer

  unfoldable pub dismiss_recalled_command : Composer Image → Composer Image
  unfolding dismissed_popup
  dismiss_recalled_command c = record c { popup = dismissed_popup c.now.text c.now.cursor }

  abbrev pub restore_snapshot : Draft Image → Composer Image → Composer Image
  restore_snapshot d c = record c { now = d }

  -- The index of the entry before, and the draft that is kept.
  abbrev pub earlier : Composer Image → Option ℕ → ℕ × Option (Draft Image)
  earlier c none = (length c.history - 1, some c.now)
  earlier c (some i) = (saturating_sub i 1, c.history_draft)

  abbrev pub recall : Composer Image → ℕ → Option (Draft Image) → Option (Composer Image)
  recall c i kept = do
    entry ← get_elem? c.history i
    some (
        dismiss_recalled_command
          (restore_snapshot entry (record c { history_index = some i; history_draft = kept })))

  abbrev pub recall_earlier : Composer Image → ℕ × Option (Draft Image) → Option (Composer Image)
  recall_earlier c (i, kept) = recall c i kept

  unfoldable pub history_previous : Composer Image → Option (Composer Image)
  unfolding dismiss_recalled_command byte_len
  history_previous c =
      if (not (c.now.cursor == 0) && not (c.now.cursor == byte_len c.now.text))
        || length c.history == 0
      then some c
      else recall_earlier c (earlier c c.history_index)

  abbrev pub restore_history_draft : Composer Image → Option (Draft Image) → Composer Image
  restore_history_draft c none = record c { now = record { text = []; cursor = 0; images = [] } }
  restore_history_draft c (some d) = record c { now = d; history_draft = none }

  abbrev pub left_history : Composer Image → Composer Image
  left_history c =
      dismiss_recalled_command
        (record (restore_history_draft c c.history_draft) { history_index = none })

  abbrev pub recall_later : Composer Image → Option ℕ → Option (Composer Image)
  recall_later c none = some c
  recall_later c (some i) =
      if ltb (i + 1) (length c.history)
      then recall c (i + 1) c.history_draft
      else some (left_history c)

  unfoldable pub history_next : Composer Image → Option (Composer Image)
  unfolding dismiss_recalled_command byte_len
  history_next c =
      if not (c.now.cursor == byte_len c.now.text) then some c else recall_later c c.history_index
